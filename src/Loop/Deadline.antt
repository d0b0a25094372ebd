-- ===== src/Loop/Deadline.antt =====
-- What becomes of a client that is not heard of, over a whole run of main of src/wd-broker.c.
use mathlib.Core.List.{append_assoc, append-nil}
use mathlib.Core.Path.{subst}
use wd_broker.Prelude.{
  ℕ, zero, suc, ◌+◌, ◌*◌, ◌≤◌, ◌≡◌, ◌≢◌, refl, sym, ap, ◌∙◌, inl, inr, Bool, true, false, Option,
  none, some, List, [], ◌∷◌, ◌++◌, arith, All, replicate, get_elem?, Bool-cases,
}
use wd_broker.Common.{Incoming}
use wd_broker.Client.{Timespec, Client}
use wd_broker.Slots.{is_live}
use wd_broker.Heartbeat.{is_overdue}
use wd_broker.Heartbeat.Exact.{nanos}
use wd_broker.Heartbeat.Check.{InTime, Plausible, is_overdue_exact}
use wd_broker.Handler.{Broker, Env, Creds, handle_command}
use wd_broker.Handler.Permissions.{handle_command-Foreign, handle_command_reboot}
use wd_broker.Loop.{
  Effect, Accept, accept_ignored, accept_failed, accepted, Select, interrupted, failed, ready,
  Round, Daemon, next, serve, supervise, feed_watchdog, overruns, round_body, LoopEnd, looping,
  left, dead, before, run_loop, then_after_loop, run_main,
}
use wd_broker.Loop.Safety.{
  IsHarmless, NoSignal, stopped-IsHarmless, run_loop_left, run_loop_next, run_loop_died,
  intact_next, run_main_starves,
}
use wd_broker.Loop.Liveness.{Step-cases}

-- No command; or a command of neither root nor the process of the client, which is active and checks PIDs.
abbrev pub FromOthers : Client → Option Accept → Type 0
FromOthers c (some (accepted (some creds) incoming)) =
    (c.active ≡ true) × (c.check_pid ≡ true) × (creds.pid ≢ c.pid) × (creds.uid ≢ 0)
FromOthers c _ = Unit {0}

abbrev pub WithoutRound : Client → Select → Type 0
WithoutRound c (ready server timer) = FromOthers c server
WithoutRound c _ = Unit {0}

-- In this round no signal comes, and no command that could be for the client.
abbrev pub Without : Client → Round → Type 0
Without c r = (r.signalled ≡ false) × WithoutRound c r.select

-- Slot `k` holds the client `c`, and the daemon runs.
abbrev pub Holds : ℕ → Client → Broker → Type 0
Holds k c b = (get_elem? b.clients k ≡ some c) × (b.running ≡ true)

-- What the loop has done in a stretch of rounds.
abbrev pub effects : LoopEnd → List Effect
effects (looping d es) = es
effects (left d es) = es
effects (dead es) = es

effects-before : (es : List Effect) (l : LoopEnd) → effects (before es l) ≡ es ++ effects l
effects-before es (looping d fs) = refl
effects-before es (left d fs) = refl
effects-before es (dead fs) = refl

then_after_loop-before :
    (watchdog fed : Bool) (ss : List Bool) (es : List Effect) (l : LoopEnd)
    → then_after_loop watchdog fed ss (before es l) ≡ es ++ then_after_loop watchdog fed ss l
then_after_loop-before watchdog fed ss es (looping d fs) = refl
then_after_loop-before watchdog fed ss es (left d fs) = append_assoc es fs _
then_after_loop-before watchdog fed ss es (dead fs) = refl

InTime-get :
    (clock : ℕ → Timespec) (i k : ℕ) (cs : List Client) (c : Client)
    → InTime clock i cs
    → get_elem? cs k ≡ some c
    → is_overdue (clock (i + k)) c ≡ false
InTime-get clock i k [] c h e = absurd (cc)
InTime-get clock i zero (x ∷ cs) c h e = ground (arith, h.0)
InTime-get clock i (suc k) (x ∷ cs) c h e =
    ap (λ (j : ℕ). is_overdue (clock j) c) (omega arith) ∙ InTime-get clock (suc i) k cs c h.1 e

feed_watchdog_next :
    (watchdog fed : Bool) (timer : Option ℕ) (d e : Daemon) (es fs : List Effect)
    → feed_watchdog watchdog fed timer d es ≡ next e fs
    → e ≡ d
unfolding feed_watchdog
feed_watchdog_next watchdog fed none d e es fs h = ground arith
feed_watchdog_next watchdog fed (some size) d e es fs h = ground arith

module _ (k : ℕ) (c : Client) where
  handle_command-Holds :
      (env : Env) (creds : Creds) (incoming : Incoming) (b : Broker)
      → FromOthers c (some (accepted (some creds) incoming))
      → Holds k c b
      → Holds k c (handle_command env (some creds) incoming b).0
  handle_command-Holds env creds incoming b (live, checked, other, user) h = (
    handle_command-Foreign env creds incoming b k c (record {
      there = h.0;
      active = live;
      checked = checked;
      other = λ e. other (sym e);
      not_root = user;
    }),
    elim (handle_command_reboot env creds incoming b) [
      | inl same ↦ same.0 ∙ h.1
      | inr stops ↦ absurd (user stops.0)
    ],
  )

  serve-Holds :
      (env : Env) (server : Option Accept) (d : Daemon)
      → FromOthers c server
      → Holds k c d.broker
      → Holds k c (serve env server d).0.broker
  unfolding serve
  serve-Holds env none d o h = h
  serve-Holds env (some accept_ignored) d o h = h
  serve-Holds env (some accept_failed) d o h = h
  serve-Holds env (some (accepted none incoming)) d o h = unfold handle_command in h
  serve-Holds env (some (accepted (some creds) incoming)) d o h =
      handle_command-Holds env creds incoming d.broker o h

  round_body-Holds :
      (watchdog : Bool) (r : Round) (s : Select) (d e : Daemon) (es : List Effect)
      → WithoutRound c s
      → Holds k c d.broker
      → round_body watchdog r s d ≡ next e es
      → Holds k c e.broker
  unfolding round_body supervise
  round_body-Holds watchdog r interrupted d e es o h n = ground (arith, h)
  round_body-Holds watchdog r failed d e es o h n = ground (arith, h)
  round_body-Holds watchdog r (ready server timer) d e es o h n =
      rw
        (feed_watchdog_next watchdog r.fed timer _ e _ es
          (intact_next (overruns (serve r.env server d).1) (serve r.env server d).1 es _ e n).1)
        (serve-Holds r.env server d o h)

-- What a run does is what its first rounds do, and then nothing that feeds or switches off the watchdog.
abbrev pub StarvesBehind : LoopEnd → List Effect → Type 0
StarvesBehind l es = (fs : List Effect) × (es ≡ effects l ++ fs) × All IsHarmless fs

StarvesBehind-before :
    (watchdog fed : Bool) (ss : List Bool) (es : List Effect) (l m : LoopEnd)
    → StarvesBehind l (then_after_loop watchdog fed ss m)
    → StarvesBehind (before es l) (then_after_loop watchdog fed ss (before es m))
StarvesBehind-before watchdog fed ss es l m (fs, e, h) = (
  fs,
  then_after_loop-before watchdog fed ss es m
      ∙ ap (λ x. es ++ x) e
      ∙ sym (append_assoc es (effects l) fs)
      ∙ ap (λ x. x ++ fs) (sym (effects-before es l)),
  h,
)

module _ (watchdog fed : Bool) (n : ℕ) (k : ℕ) (c : Client) (r : Round) (server : Option Accept)
    (timer : Option ℕ) (post : List Round) (sel : r.select ≡ ready server timer)
    (late : is_overdue (r.clock k) c ≡ true) (quiet : Without c r) (silent : NoSignal post) where
  -- The round that finds the client overdue, unless the loop has been left before.
  late_round :
      (d : Daemon)
      → Holds k c d.broker
      → All IsHarmless (run_main watchdog (r ∷ post) fed (replicate n false) d)
  late_round d h = elim (Bool-cases d.all_ok) [
    | inr e ↦ stopped-IsHarmless watchdog fed n (r ∷ post) d e h.1 (quiet.0, silent)
    | inl e ↦
        let served = serve-Holds k c r.env server d (subst (λ s. WithoutRound c s) sel quiet.1) h in
        run_main_starves watchdog fed n r post d server timer sel e h.1 served.1
          (λ i. ground (arith, late, InTime-get r.clock 0 k _ c i served.0)) quiet.0 silent
  ]

  NoSignal-rounds : (pre : List Round) → All (Without c) pre → NoSignal (pre ++ r ∷ post)
  NoSignal-rounds [] q = (quiet.0, silent)
  NoSignal-rounds (p ∷ pre) q = (q.0.0, NoSignal-rounds pre q.1)

  starves_behind :
      (pre : List Round) (d : Daemon)
      → All (Without c) pre
      → Holds k c d.broker
      → StarvesBehind
          (run_loop watchdog pre d)
          (run_main watchdog (pre ++ r ∷ post) fed (replicate n false) d)
  unfolding run_main
  starves_behind [] d q h = (
    run_main watchdog (r ∷ post) fed (replicate n false) d,
    unfold run_loop in refl,
    late_round d h,
  )
  starves_behind (p ∷ pre) d q h = elim (Bool-cases d.all_ok) [
    | inr e ↦
        let stopped =
          stopped-IsHarmless watchdog fed n (p ∷ (pre ++ r ∷ post)) d e h.1
            (NoSignal-rounds (p ∷ pre) q) in
        rw (run_loop_left watchdog p pre d q.0.0 (ground (arith, e)))
          (run_main watchdog (p ∷ (pre ++ r ∷ post)) fed (replicate n false) d, refl, stopped)
    | inl e ↦ elim (Step-cases (round_body watchdog p p.select d)) [
      | inr (es, b) ↦
          rw
            (
              run_loop_died watchdog p pre d es q.0.0 e h.1 b,
              run_loop_died watchdog p (pre ++ r ∷ post) d es q.0.0 e h.1 b,
            )
            ([], sym (append-nil es), tt)
      | inl (d', es, b) ↦
          rw
            (
              run_loop_next watchdog p pre d d' es q.0.0 e h.1 b,
              run_loop_next watchdog p (pre ++ r ∷ post) d d' es q.0.0 e h.1 b,
            )
            (StarvesBehind-before watchdog fed (replicate n false) es _ _ (
              starves_behind pre d' q.1
                (round_body-Holds k c watchdog p p.select d d' es q.0.1 h b)))
    ]
  ]

-- A client that is not heard of starves the watchdog when its time has run out. Take a running daemon with
-- a client `c`, active or announced, in slot `k`, and a run in which no signal comes and every command
-- comes from neither root nor the client's process, `c` being active with PID check; if `c` is only
-- announced, or has no PID check, no command comes at all. If some round reads, for that slot, a clock
-- that is past the client's last heartbeat by its timeout and a millisecond, or more, but by less than
-- 2^32 - 1 milliseconds, then whatever `main` does behind the rounds before it neither feeds the watchdog
-- nor switches it off nor changes its timeout, however long it runs. Of a process whose reply left its
-- buffer nothing is said from there on.
pub run_main-StarvesBehind :
    (watchdog fed : Bool) (n k : ℕ) (c : Client) (pre post : List Round) (r : Round)
    (server : Option Accept) (timer : Option ℕ) (d : Daemon)
    → Holds k c d.broker
    → is_live c ≡ true
    → All (Without c) pre
    → Without c r
    → NoSignal post
    → r.select ≡ ready server timer
    → Plausible (r.clock k) c
    → nanos c.last_ping + (c.timeout_ms + 1) * 1_000_000 ≤ nanos (r.clock k)
    → StarvesBehind
        (run_loop watchdog pre d)
        (run_main watchdog (pre ++ r ∷ post) fed (replicate n false) d)
run_main-StarvesBehind watchdog fed n k c pre post r server timer d h live q quiet silent sel p
      late =
    let overdue = (is_overdue_exact (r.clock k) c p live).1 late in
    starves_behind watchdog fed n k c r server timer post sel overdue quiet silent pre d q h
