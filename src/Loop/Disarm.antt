-- ===== src/Loop/Disarm.antt =====
-- The watchdog is switched off only behind a signal.
use wd_broker.Prelude.{
  ℕ, zero, suc, ◌≡◌, refl, ◌∙◌, ◌⊎◌, inl, inr, Bool, true, false, ◌&&◌, Option, none, some, List,
  [], ◌∷◌, arith, All, All-append, Bool-cases, Option-cases, if◌then◌else◌, &&_iff, replicate,
}
use wd_broker.Handler.Permissions.{handle_command_reboot}
use wd_broker.Handler.{Broker, Env, Creds, handle_command}
use wd_broker.Loop.Safety.{
  NoSignal, wait_for_signal-none, run_loop_left, run_loop_died, run_loop_next,
}
use wd_broker.Loop.{
  Effect, feed, magic_close, disable_card, Accept, accept_ignored, accept_failed, accepted, Select,
  interrupted, failed, ready, Round, Daemon, Step, next, died, signal_handler, serve, supervise,
  feed_watchdog, overruns, round_body, LoopEnd, looping, left, dead, before, run_loop,
  wait_for_signal, finish, after_loop, then_after_loop, run_main,
}

-- Does not switch the watchdog off.
abbrev pub KeepsArmed : Effect → Type 0
KeepsArmed magic_close = ⊥
KeepsArmed disable_card = ⊥
KeepsArmed _ = Unit {0}

-- The loop is to go on, or a reboot is requested.
abbrev pub Guarded : Broker → Type 0
Guarded b = (b.running ≡ true) ⊎ (b.reboot ≡ true)

handle_command-Guarded :
    (env : Env) (creds : Creds) (b b' : Broker)
    → ((b'.running ≡ b.running) × (b'.reboot ≡ b.reboot))
      ⊎ ((creds.uid ≡ 0) × (b'.running ≡ false) × (b'.reboot ≡ true) × (b'.clients ≡ b.clients))
    → Guarded b
    → Guarded b'
handle_command-Guarded env creds b b' (inl h) (inl g) = inl (h.0 ∙ g)
handle_command-Guarded env creds b b' (inl h) (inr g) = inr (h.1 ∙ g)
handle_command-Guarded env creds b b' (inr h) g = inr h.2

serve-Guarded :
    (env : Env) (server : Option Accept) (d : Daemon)
    → Guarded d.broker
    → Guarded (serve env server d).0.broker × All KeepsArmed (serve env server d).1
unfolding serve
serve-Guarded env none d g = (g, tt)
serve-Guarded env (some accept_ignored) d g = (g, tt)
serve-Guarded env (some accept_failed) d g = (g, tt)
serve-Guarded env (some (accepted none incoming)) d g = (unfold handle_command in g, (tt, tt))
serve-Guarded env (some (accepted (some creds) incoming)) d g = (
  handle_command-Guarded env creds d.broker (handle_command env (some creds) incoming d.broker).0
      (handle_command_reboot env creds incoming d.broker) g,
  (tt, tt),
)

-- A step keeps the broker guarded and the watchdog armed.
abbrev StepGuarded : Step → Type 0
StepGuarded (next d es) = Guarded d.broker × All KeepsArmed es
StepGuarded (died es) = All KeepsArmed es

feed_watchdog-StepGuarded :
    (watchdog fed : Bool) (timer : Option ℕ) (d : Daemon) (es : List Effect)
    → Guarded d.broker
    → All KeepsArmed es
    → StepGuarded (feed_watchdog watchdog fed timer d es)
unfolding feed_watchdog
feed_watchdog-StepGuarded watchdog fed none d es g h = (g, h)
feed_watchdog-StepGuarded watchdog fed (some size) d es g h =
    ground (arith, All-append KeepsArmed es (feed ∷ []) h (tt, tt))

if-StepGuarded :
    (b : Bool) (s t : Step) → StepGuarded s → StepGuarded t → StepGuarded (if b then s else t)
if-StepGuarded true s t h k = h
if-StepGuarded false s t h k = k

round_body-StepGuarded :
    (watchdog : Bool) (r : Round) (s : Select) (d : Daemon)
    → Guarded d.broker
    → StepGuarded (round_body watchdog r s d)
unfolding round_body supervise
round_body-StepGuarded watchdog r interrupted d g = (g, tt)
round_body-StepGuarded watchdog r failed d g = (g, tt)
round_body-StepGuarded watchdog r (ready server timer) d g =
    let (h, k) = serve-Guarded r.env server d g in
    if-StepGuarded (overruns (serve r.env server d).1) _ _ k
      (feed_watchdog-StepGuarded watchdog r.fed timer _ _ h k)

-- What a stretch of rounds leaves behind.
abbrev EndGuarded : LoopEnd → Type 0
EndGuarded (looping d es) = All KeepsArmed es
EndGuarded (left d es) =
    All KeepsArmed es × Guarded d.broker × ((d.broker.running && d.all_ok) ≡ false)
EndGuarded (dead es) = All KeepsArmed es

before-EndGuarded :
    (es : List Effect) (l : LoopEnd) → All KeepsArmed es → EndGuarded l → EndGuarded (before es l)
before-EndGuarded es (looping d fs) h k = All-append KeepsArmed es fs h k
before-EndGuarded es (left d fs) h k = (All-append KeepsArmed es fs h k.0, k.1, k.2)
before-EndGuarded es (dead fs) h k = All-append KeepsArmed es fs h k

run_loop-EndGuarded :
    (watchdog : Bool) (rs : List Round) (d : Daemon)
    → NoSignal rs
    → Guarded d.broker
    → EndGuarded (run_loop watchdog rs d)
run_loop-EndGuarded watchdog [] d q g = unfold run_loop in tt
run_loop-EndGuarded watchdog (r ∷ rs) d q g =
    let ih = λ (x : Daemon). run_loop-EndGuarded watchdog rs x q.1 in
    elim (Bool-cases (d.broker.running && d.all_ok)) [
      | inr e ↦ rw (run_loop_left watchdog r rs d q.0 e) (tt, g, e)
      | inl e ↦
          let step = round_body-StepGuarded watchdog r r.select d g in
          go ((&&_iff d.broker.running d.all_ok).0 e) ih (round_body watchdog r r.select d) refl
            step
    ]
  where
    go :
        (d.broker.running ≡ true) × (d.all_ok ≡ true)
        → ((x : Daemon) → Guarded x.broker → EndGuarded (run_loop watchdog rs x))
        → (s : Step) → round_body watchdog r r.select d ≡ s
        → StepGuarded s
        → EndGuarded (run_loop watchdog (r ∷ rs) d)
    go on k (died es) e h = rw (run_loop_died watchdog r rs d es q.0 on.1 on.0 e) h
    go on k (next x es) e h =
        rw (run_loop_next watchdog r rs d x es q.0 on.1 on.0 e)
          (before-EndGuarded es (run_loop watchdog rs x) h.1 (k x h.0))

finish-KeepsArmed :
    (watchdog fed : Bool) (b : Broker) → b.reboot ≡ true → All KeepsArmed (finish watchdog fed b)
unfolding finish
finish-KeepsArmed true true b h = rw h (tt, (tt, (tt, (tt, (tt, tt)))))
finish-KeepsArmed true false b h = rw h (tt, tt)
finish-KeepsArmed false fed b h = (tt, (tt, tt))

wait_for_signal_quiet :
    (n : ℕ) (b c : Broker) → wait_for_signal (replicate n false) b ≡ some c → c ≡ b
unfolding wait_for_signal signal_handler
wait_for_signal_quiet zero b c e = ground arith
wait_for_signal_quiet (suc n) b c e = ground (arith, wait_for_signal_quiet n b c)

module _ (watchdog fed : Bool) (n : ℕ) where
  after_loop-KeepsArmed :
      (d : Daemon)
      → Guarded d.broker
      → (d.broker.running && d.all_ok) ≡ false
      → All KeepsArmed (after_loop watchdog fed (replicate n false) d)
  unfolding after_loop
  after_loop-KeepsArmed d (inr g) e = elim (Bool-cases d.all_ok) [
    | inl a ↦ rw a (finish-KeepsArmed watchdog fed d.broker g)
    | inr a ↦ rw a (
      tt,
      elim (Option-cases (wait_for_signal (replicate n false) d.broker)) [
        | inl w ↦ rw w tt
        | inr (c, w) ↦
            let same = wait_for_signal_quiet n d.broker c w in
            rw w (finish-KeepsArmed watchdog fed c (rw same g))
      ],
    )
  ]
  after_loop-KeepsArmed d (inl g) e =
      let a : d.all_ok ≡ false = ground arith in rw (a, wait_for_signal-none n d.broker g) (tt, tt)

  then_after_loop-KeepsArmed :
      (l : LoopEnd)
      → EndGuarded l
      → All KeepsArmed (then_after_loop watchdog fed (replicate n false) l)
  then_after_loop-KeepsArmed (looping d es) h = h
  then_after_loop-KeepsArmed (left d es) h =
      All-append KeepsArmed es _ h.0 (after_loop-KeepsArmed d h.1 h.2)
  then_after_loop-KeepsArmed (dead es) h = h

  -- Without SIGINT or SIGTERM the daemon never switches the watchdog off, whatever commands arrive and
  -- whatever fails, from any state in which the loop is to go on.
  pub run_main-KeepsArmed :
      (rs : List Round) (d : Daemon)
      → NoSignal rs
      → d.broker.running ≡ true
      → All KeepsArmed (run_main watchdog rs fed (replicate n false) d)
  unfolding run_main
  run_main-KeepsArmed rs d q g =
      then_after_loop-KeepsArmed (run_loop watchdog rs d)
        (run_loop-EndGuarded watchdog rs d q (inl g))
