-- ===== src/Loop/Safety.antt =====
-- The watchdog is fed only while every client is in time.
use wd_broker.Prelude.{
  ℕ, zero, suc, ◌≡◌, refl, inl, inr, Bool, true, false, ◌&&◌, Option, none, some, List, [], ◌∷◌,
  ◌++◌, arith, if◌then◌else◌, All, All-append, Bool-cases, replicate,
}
use mathlib.Core.List.{append_assoc}
use wd_broker.Heartbeat.{check_clients}
use wd_broker.Heartbeat.Check.{InTime, check_clients-InTime}
use wd_broker.Handler.{Broker, Env}
use wd_broker.Loop.{
  Effect, reply, feed, set_timeout, magic_close, disable_card, close_watchdog, unlink_socket,
  returned, overruns, Accept, accept_ignored, accept_failed, accepted, Select, ready, Round, Daemon,
  Step, next, died, signal_handler, serve, supervise, feed_watchdog, round_body, LoopEnd, looping,
  left, dead, before, run_loop, wait_for_signal, after_loop, then_after_loop, run_main,
}

abbrev pub feeds : List Effect → Bool
feeds [] = false
feeds (feed ∷ es) = true
feeds (e ∷ es) = feeds es

feeds-concat_feed : (es : List Effect) → feeds (es ++ feed ∷ []) ≡ true
feeds-concat_feed [] = refl
feeds-concat_feed (feed ∷ es) = refl
feeds-concat_feed (reply r ∷ es) = feeds-concat_feed es
feeds-concat_feed (set_timeout t ∷ es) = feeds-concat_feed es
feeds-concat_feed (magic_close ∷ es) = feeds-concat_feed es
feeds-concat_feed (disable_card ∷ es) = feeds-concat_feed es
feeds-concat_feed (close_watchdog ∷ es) = feeds-concat_feed es
feeds-concat_feed (unlink_socket ∷ es) = feeds-concat_feed es
feeds-concat_feed (returned ∷ es) = feeds-concat_feed es

feeds-serve :
    (env : Env) (server : Option Accept) (d : Daemon) → feeds (serve env server d).1 ≡ false
unfolding serve
feeds-serve env none d = refl
feeds-serve env (some accept_ignored) d = refl
feeds-serve env (some accept_failed) d = refl
feeds-serve env (some (accepted peer incoming)) d = refl

-- When a round feeds the watchdog: the conditions of the code, put together.
abbrev pub FeedsWhen : Bool → Round → Option Accept → Option ℕ → Daemon → Type 0
FeedsWhen watchdog r server timer d =
    let d' = (serve r.env server d).0 in
    (watchdog ≡ true) × (timer ≡ some 8) × (d'.all_ok ≡ true) × InTime r.clock 0 d'.broker.clients

feed_watchdog-feeds :
    (watchdog fed : Bool) (timer : Option ℕ) (d e : Daemon) (es fs : List Effect)
    → feeds es ≡ false
    → feed_watchdog watchdog fed timer d es ≡ next e fs
    → (e ≡ d)
      × (feeds fs ≡ true → (watchdog ≡ true) × (timer ≡ some 8) × (d.all_ok ≡ true))
      × ((watchdog ≡ true) × (timer ≡ some 8) × (d.all_ok ≡ true) → feeds fs ≡ true)
unfolding feed_watchdog
feed_watchdog-feeds watchdog fed none d e es fs n h =
    (ground arith, (λ f. absurd (ground arith)), λ a. absurd (cc))
feed_watchdog-feeds watchdog fed (some size) d e es fs n h =
    (ground arith, (λ f. ground (arith, n)), λ a. ground (arith, feeds-concat_feed es))

-- A step behind the test for an overrun.
pub intact_next :
    (b : Bool) (es fs : List Effect) (s : Step) (e : Daemon)
    → (if b then died es else s) ≡ next e fs
    → (b ≡ false) × (s ≡ next e fs)
intact_next true es fs s e h = absurd (cc)
intact_next false es fs s e h = (refl, h)

intact_died :
    (b : Bool) (es fs : List Effect) (s : Step)
    → (if b then died es else s) ≡ died fs
    → (s ≡ died fs → fs ≡ es)
    → fs ≡ es
intact_died true es fs s h k = cc
intact_died false es fs s h k = k h

-- A round of the loop that goes on feeds the watchdog exactly if the watchdog is in use, the timer
-- has run out, nothing failed before, and, behind the command that the round served, every client of
-- the table is in time.
pub round_body-feeds :
    (watchdog : Bool) (r : Round) (server : Option Accept) (timer : Option ℕ) (d e : Daemon)
    (es : List Effect)
    → round_body watchdog r (ready server timer) d ≡ next e es
    → (e.broker ≡ (serve r.env server d).0.broker)
      × (feeds es ≡ true → FeedsWhen watchdog r server timer d)
      × (FeedsWhen watchdog r server timer d → feeds es ≡ true)
unfolding round_body supervise
round_body-feeds watchdog r server timer d e es h =
    let d' = (serve r.env server d).0 in
    let f =
      feed_watchdog-feeds watchdog r.fed timer (supervise r.clock d') e (serve r.env server d).1 es
        (feeds-serve r.env server d)
        (intact_next (overruns (serve r.env server d).1) (serve r.env server d).1 es _ e h).1 in
    let c = check_clients-InTime r.clock 0 d'.broker.clients d'.all_ok in
    (
      ground (arith, f),
      λ g. let a = f.1 g in (a.0, a.1, (c.0 a.2).0, (c.0 a.2).1),
      λ a. f.2 (a.0, a.1, c.1 (a.2, a.3)),
    )

-- Neither feeds the watchdog nor switches it off.
abbrev pub IsHarmless : Effect → Type 0
IsHarmless (reply r) = Unit {0}
IsHarmless unlink_socket = Unit {0}
IsHarmless returned = Unit {0}
IsHarmless feed = ⊥
IsHarmless (set_timeout t) = ⊥
IsHarmless magic_close = ⊥
IsHarmless disable_card = ⊥
IsHarmless close_watchdog = ⊥

abbrev pub NoSignal : List Round → Type 0
NoSignal = All (λ r. r.signalled ≡ false)

pub wait_for_signal-none :
    (n : ℕ) (b : Broker) → b.running ≡ true → wait_for_signal (replicate n false) b ≡ none
unfolding wait_for_signal signal_handler
wait_for_signal-none zero b h = ground arith
wait_for_signal-none (suc n) b h = ground (arith, wait_for_signal-none n b h)

serve-IsHarmless :
    (env : Env) (server : Option Accept) (d : Daemon) → All IsHarmless (serve env server d).1
unfolding serve
serve-IsHarmless env none d = tt
serve-IsHarmless env (some accept_ignored) d = tt
serve-IsHarmless env (some accept_failed) d = tt
serve-IsHarmless env (some (accepted peer incoming)) d = (tt, tt)

pub run_loop_left :
    (watchdog : Bool) (r : Round) (rs : List Round) (d : Daemon)
    → r.signalled ≡ false
    → (d.broker.running && d.all_ok) ≡ false
    → run_loop watchdog (r ∷ rs) d ≡ left d []
unfolding run_loop signal_handler
run_loop_left watchdog r rs d s a = ground arith

module _ (watchdog : Bool) (r : Round) (rs : List Round) (d : Daemon) where
  pub run_loop_died :
      (es : List Effect)
      → r.signalled ≡ false
      → d.all_ok ≡ true
      → d.broker.running ≡ true
      → round_body watchdog r r.select d ≡ died es
      → run_loop watchdog (r ∷ rs) d ≡ dead es
  unfolding run_loop signal_handler
  run_loop_died es s a h b = ground arith

  pub run_loop_next :
      (e : Daemon) (es : List Effect)
      → r.signalled ≡ false
      → d.all_ok ≡ true
      → d.broker.running ≡ true
      → round_body watchdog r r.select d ≡ next e es
      → run_loop watchdog (r ∷ rs) d ≡ before es (run_loop watchdog rs e)
  unfolding run_loop signal_handler
  run_loop_next e es s a h b = ground arith

late_check :
    (r : Round) (d' : Daemon)
    → (InTime r.clock 0 d'.broker.clients → ⊥)
    → (supervise r.clock d').all_ok ≡ false
unfolding supervise
late_check r d' late = elim (Bool-cases (check_clients r.clock 0 d'.broker.clients d'.all_ok)) [
  | inl e ↦ absurd (late ((check_clients-InTime r.clock 0 d'.broker.clients d'.all_ok).0 e).1)
  | inr e ↦ e
]

feed_watchdog_late :
    (watchdog fed : Bool) (timer : Option ℕ) (d e : Daemon) (es fs : List Effect)
    → d.all_ok ≡ false
    → feed_watchdog watchdog fed timer d es ≡ next e fs
    → (e ≡ d) × (fs ≡ es)
unfolding feed_watchdog
feed_watchdog_late watchdog fed none d e es fs a h = (ground arith, ground arith)
feed_watchdog_late watchdog fed (some size) d e es fs a h = (ground arith, ground arith)

feed_watchdog_died :
    (watchdog fed : Bool) (timer : Option ℕ) (d : Daemon) (es fs : List Effect)
    → feed_watchdog watchdog fed timer d es ≡ died fs
    → fs ≡ es
unfolding feed_watchdog
feed_watchdog_died watchdog fed none d es fs h = absurd (cc)
feed_watchdog_died watchdog fed (some size) d es fs h = ground arith

module _ (watchdog : Bool) (r : Round) (d : Daemon) (server : Option Accept) (timer : Option ℕ)
    (s : Select) (sel : s ≡ ready server timer) where
  late_next :
      (e : Daemon) (es : List Effect)
      → (InTime r.clock 0 (serve r.env server d).0.broker.clients → ⊥)
      → (serve r.env server d).0.broker.running ≡ true
      → round_body watchdog r s d ≡ next e es
      → All IsHarmless es × (e.all_ok ≡ false) × (e.broker.running ≡ true)
  unfolding round_body
  late_next e es late i b =
      let d' = (serve r.env server d).0 in
      let (same, fs) =
        feed_watchdog_late watchdog r.fed timer (supervise r.clock d') e (serve r.env server d).1 es
          (late_check r d' late)
          (intact_next (overruns (serve r.env server d).1) (serve r.env server d).1 es _ e
            (rw sel at b)).1 in
      (
        rw fs (serve-IsHarmless r.env server d),
        rw same (late_check r d' late),
        rw same (unfold supervise in i),
      )

  late_died : (es : List Effect) → round_body watchdog r s d ≡ died es → All IsHarmless es
  unfolding round_body
  late_died es b =
      let done = (serve r.env server d).1 in
      rw
        (intact_died (overruns done) done es _ (rw sel at b) (
          feed_watchdog_died watchdog r.fed timer (supervise r.clock (serve r.env server d).0) done
            es))
        (serve-IsHarmless r.env server d)

module _ (watchdog fed : Bool) (n : ℕ) where
  after_loop-IsHarmless :
      (d : Daemon)
      → d.all_ok ≡ false
      → d.broker.running ≡ true
      → All IsHarmless (after_loop watchdog fed (replicate n false) d)
  unfolding after_loop
  after_loop-IsHarmless d a h = rw (a, wait_for_signal-none n d.broker h) (tt, tt)

  -- Once something has failed, nothing more happens until a signal comes.
  pub stopped-IsHarmless :
      (rs : List Round) (d : Daemon)
      → d.all_ok ≡ false
      → d.broker.running ≡ true
      → NoSignal rs
      → All IsHarmless (run_main watchdog rs fed (replicate n false) d)
  unfolding run_main
  stopped-IsHarmless [] d a h s = unfold run_loop in tt
  stopped-IsHarmless (r ∷ rs) d a h s =
      rw (run_loop_left watchdog r rs d s.0 (ground arith)) (after_loop-IsHarmless d a h)

  before-IsHarmless :
      (es : List Effect) (l : LoopEnd)
      → All IsHarmless es
      → All IsHarmless (then_after_loop watchdog fed (replicate n false) l)
      → All IsHarmless (then_after_loop watchdog fed (replicate n false) (before es l))
  before-IsHarmless es (looping d fs) h k = All-append IsHarmless es fs h k
  before-IsHarmless es (left d fs) h k =
      rw (append_assoc es fs (after_loop watchdog fed (replicate n false) d))
        (All-append IsHarmless es _ h k)
  before-IsHarmless es (dead fs) h k = All-append IsHarmless es fs h k

  -- A round that ends with a failure, and all that follows.
  failed_round-IsHarmless :
      (r : Round) (rs : List Round) (d : Daemon) (s : Step)
      → round_body watchdog r r.select d ≡ s
      → ((e : Daemon) (es : List Effect)
          → s ≡ next e es
          → All IsHarmless es × (e.all_ok ≡ false) × (e.broker.running ≡ true))
      → ((es : List Effect) → s ≡ died es → All IsHarmless es)
      → r.signalled ≡ false
      → d.all_ok ≡ true
      → d.broker.running ≡ true
      → NoSignal rs
      → All IsHarmless (run_main watchdog (r ∷ rs) fed (replicate n false) d)
  unfolding run_main
  failed_round-IsHarmless r rs d (died es) b go stop s a h q =
      rw (run_loop_died watchdog r rs d es s a h b) (stop es refl)
  failed_round-IsHarmless r rs d (next e es) b go stop s a h q =
      let (k, f, i) = go e es refl in
      rw (run_loop_next watchdog r rs d e es s a h b)
        (before-IsHarmless es (run_loop watchdog rs e) k (stopped-IsHarmless rs e f i q))

  -- A client that is found to have missed its heartbeat starves the watchdog: from that round on the
  -- daemon neither feeds the watchdog nor disarms it nor changes its timeout, however long it runs, as
  -- long as no signal comes and the command of that very round is no reboot request of root.
  pub run_main_starves :
      (r : Round) (rs : List Round) (d : Daemon) (server : Option Accept) (timer : Option ℕ)
      → r.select ≡ ready server timer
      → d.all_ok ≡ true
      → d.broker.running ≡ true
      → ((serve r.env server d).0.broker.running ≡ true)
      → (InTime r.clock 0 (serve r.env server d).0.broker.clients → ⊥)
      → r.signalled ≡ false
      → NoSignal rs
      → All IsHarmless (run_main watchdog (r ∷ rs) fed (replicate n false) d)
  run_main_starves r rs d server timer sel a h i late s q =
      failed_round-IsHarmless r rs d (round_body watchdog r r.select d) refl
        (λ e es x. late_next watchdog r d server timer r.select sel e es late i x)
        (λ es x. late_died watchdog r d server timer r.select sel es x) s a h q
