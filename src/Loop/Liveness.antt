-- ===== src/Loop/Liveness.antt =====
-- That a signal ends the daemon.
use mathlib.Core.List.{append_assoc}
use wd_broker.Prelude.{
  ◌≡◌, refl, ap, ◌∙◌, sym, ◌⊎◌, inl, inr, Bool, true, false, ◌&&◌, some, List, [], ◌∷◌, ◌++◌, arith,
  Bool-cases,
}
use wd_broker.Handler.{Broker}
use wd_broker.Loop.{
  Effect, set_timeout, feed, magic_close, disable_card, close_watchdog, unlink_socket, returned,
  Round, Daemon, Step, next, died, signal_handler, round_body, LoopEnd, looping, left, dead, before,
  run_loop, wait_for_signal, finish, after_loop, then_after_loop, run_main,
}

-- The stretch of rounds does not end inside the loop.
abbrev Ends : LoopEnd → Type 0
Ends (looping d es) = ⊥
Ends (left d es) = Unit {0}
Ends (dead es) = Unit {0}

before-Ends : (es : List Effect) (e : LoopEnd) → Ends e → Ends (before es e)
before-Ends es (looping d fs) h = h
before-Ends es (left d fs) h = h
before-Ends es (dead fs) h = h

pub Step-cases :
    (s : Step)
    → ((d : Daemon) × (es : List Effect) × (s ≡ next d es)) ⊎ ((es : List Effect) × (s ≡ died es))
Step-cases (next d es) = inl (d, es, refl)
Step-cases (died es) = inr (es, refl)

run_loop-Ends :
    (watchdog : Bool) (pre post : List Round) (r : Round) (d : Daemon)
    → r.signalled ≡ true
    → Ends (run_loop watchdog (pre ++ r ∷ post) d)
unfolding run_loop signal_handler
run_loop-Ends watchdog [] post r d h = rw (h, run_loop, signal_handler) tt
run_loop-Ends watchdog (q ∷ pre) post r d h =
    let d' : Daemon = record d { broker = signal_handler q.signalled d.broker } in
    elim (Bool-cases (d'.broker.running && d'.all_ok)) [
      | inr e ↦ rw (run_loop, e) tt
      | inl e ↦ elim (Step-cases (round_body watchdog q q.select d')) [
        | inr (es, k) ↦ rw (run_loop, e, k) tt
        | inl (d1, es, k) ↦
            rw (run_loop, e, k)
              (before-Ends es (run_loop watchdog (pre ++ r ∷ post) d1)
                (run_loop-Ends watchdog pre post r d1 h))
      ]
    ]

-- One of these is a signal.
abbrev pub SomeSignal : List Bool → Type 0
SomeSignal [] = ⊥
SomeSignal (true ∷ ss) = Unit {0}
SomeSignal (false ∷ ss) = SomeSignal ss

wait_for_signal-stopped :
    (ss : List Bool) (b : Broker) → b.running ≡ false → wait_for_signal ss b ≡ some b
unfolding wait_for_signal
wait_for_signal-stopped [] b h = ground arith
wait_for_signal-stopped (s ∷ ss) b h = ground arith

wait_for_signal-SomeSignal :
    (ss : List Bool) (b : Broker) → SomeSignal ss → (b' : Broker) × (wait_for_signal ss b ≡ some b')
unfolding wait_for_signal signal_handler
wait_for_signal-SomeSignal [] b h = absurd h
wait_for_signal-SomeSignal (true ∷ ss) b h = elim (Bool-cases b.running) [
  | inr e ↦ (b, rw (wait_for_signal, e) refl)
  | inl e ↦
      let stopped : Broker = record b { running = false } in
      (stopped, rw (wait_for_signal, e) (wait_for_signal-stopped ss stopped refl))
]
wait_for_signal-SomeSignal (false ∷ ss) b h = elim (Bool-cases b.running) [
  | inr e ↦ (b, rw (wait_for_signal, e) refl)
  | inl e ↦ let (b', k) = wait_for_signal-SomeSignal ss b h in (b', ground (arith, e, k))
]

-- `main` returns, and has removed the socket before.
abbrev pub IsExit : List Effect → Type 0
IsExit es = (fs : List Effect) × (es ≡ fs ++ unlink_socket ∷ returned ∷ [])

finish-IsExit : (watchdog : Bool) (b : Broker) → IsExit (finish watchdog true b)
unfolding finish
finish-IsExit false b = ([], refl)
finish-IsExit true b = elim (Bool-cases b.reboot) [
  | inl e ↦
      (set_timeout b.config.reboot_timeout_s ∷ feed ∷ close_watchdog ∷ [], rw (finish, e) refl)
  | inr e ↦ (magic_close ∷ disable_card ∷ close_watchdog ∷ [], rw (finish, e) refl)
]

behind-IsExit : (es fs : List Effect) → IsExit fs → IsExit (es ++ fs)
behind-IsExit es fs (gs, e) =
    (es ++ gs, ap (λ x. es ++ x) e ∙ sym (append_assoc es gs (unlink_socket ∷ returned ∷ [])))

after_loop-IsExit :
    (watchdog : Bool) (ss : List Bool) (d : Daemon)
    → SomeSignal ss
    → IsExit (after_loop watchdog true ss d)
unfolding after_loop
after_loop-IsExit watchdog ss d h = elim (Bool-cases d.all_ok) [
  | inl e ↦ rw (after_loop, e) (finish-IsExit watchdog d.broker)
  | inr e ↦
      let (b, k) = wait_for_signal-SomeSignal ss d.broker h in
      rw (after_loop, e, k)
        (behind-IsExit (unlink_socket ∷ []) (finish watchdog true b) (finish-IsExit watchdog b))
]

-- A signal ends the daemon: if one comes at any round of the loop, and one while the daemon waits in
-- case it left the loop for a failure before, then `main` returns, and the last thing it does before is
-- to remove the socket; the exception is a process that died in the loop, by a failed read of the timer
-- or write to the watchdog, or whose reply left its buffer. The last write to the watchdog is taken here.
pub run_main-IsExit :
    (watchdog : Bool) (pre post : List Round) (r : Round) (ss : List Bool) (d : Daemon)
    → r.signalled ≡ true
    → SomeSignal ss
    → let rs = pre ++ r ∷ post in
      IsExit (run_main watchdog rs true ss d)
      ⊎ ((es : List Effect) × (run_loop watchdog rs d ≡ dead es))
unfolding run_main
run_main-IsExit watchdog pre post r ss d h k =
    conclude (run_loop watchdog (pre ++ r ∷ post) d) refl (run_loop-Ends watchdog pre post r d h)
  where
    conclude :
        (e : LoopEnd)
        → run_loop watchdog (pre ++ r ∷ post) d ≡ e
        → Ends e
        → IsExit (then_after_loop watchdog true ss (run_loop watchdog (pre ++ r ∷ post) d))
          ⊎ ((es : List Effect) × (run_loop watchdog (pre ++ r ∷ post) d ≡ dead es))
    conclude (looping d1 es) q x = absurd x
    conclude (dead es) q x = inr (es, q)
    conclude (left d1 es) q x = inl (
        rw q
          (behind-IsExit es (after_loop watchdog true ss d1) (after_loop-IsExit watchdog ss d1 k)))
