-- ===== src/Loop/Service.antt =====
-- That a healthy system is kept alive: no false alarm of the main loop of src/wd-broker.c.
use wd_broker.Prelude.{
  ℕ, suc, ◌+◌, ◌≡◌, refl, sym, ap, ◌∙◌, Bool, true, false, Option, none, some, List, [], ◌∷◌, ◌++◌,
  arith, if◌then◌else◌,
}
use wd_broker.Heartbeat.Check.{InTime, check_clients-InTime}
use wd_broker.Handler.{Env}
use wd_broker.Loop.{
  Effect, reply, feed, set_timeout, magic_close, disable_card, close_watchdog, unlink_socket,
  returned, Accept, accept_ignored, accept_failed, accepted, Select, interrupted, failed, ready,
  Round, Daemon, next, serve, supervise, feed_watchdog, overruns, round_body, looping, before,
  run_loop,
}
use wd_broker.Loop.Safety.{run_loop_next}

-- `accept` gives a connection, or an error that is ignored.
abbrev pub Accepts : Option Accept → Type 0
Accepts none = Unit {0}
Accepts (some accept_ignored) = Unit {0}
Accepts (some accept_failed) = ⊥
Accepts (some (accepted peer incoming)) = Unit {0}

-- The timer is not ready, or its eight bytes are read.
abbrev pub Reads : Option ℕ → Type 0
Reads none = Unit {0}
Reads (some size) = size ≡ 8

-- The state behind the command of a round.
abbrev pub served : Round → Select → Daemon → Daemon
served r interrupted d = d
served r failed d = d
served r (ready server timer) d = (serve r.env server d).0

-- In this round nothing fails, no reply leaves its buffer, no command of root stops the daemon, and behind the command every client
-- is in time.
abbrev pub Quiet : Round → Select → Daemon → Type 0
Quiet r interrupted d = Unit {0}
Quiet r failed d = ⊥
Quiet r (ready server timer) d =
    Accepts server
    × Reads timer
    × (overruns (serve r.env server d).1 ≡ false)
    × ((served r (ready server timer) d).broker.running ≡ true)
    × InTime r.clock 0 (served r (ready server timer) d).broker.clients

abbrev pub AllQuiet : List Round → Daemon → Type 0
AllQuiet [] d = Unit {0}
AllQuiet (r ∷ rs) d =
    (r.signalled ≡ false) × (r.fed ≡ true) × Quiet r r.select d × AllQuiet rs (served r r.select d)

abbrev pub feed_count : List Effect → ℕ
feed_count [] = 0
feed_count (feed ∷ es) = suc (feed_count es)
feed_count (e ∷ es) = feed_count es

-- Whether the timer has run out in a round.
abbrev pub ticks : Select → ℕ
ticks (ready server (some size)) = 1
ticks (ready server none) = 0
ticks interrupted = 0
ticks failed = 0

abbrev pub tick_count : List Round → ℕ
tick_count [] = 0
tick_count (r ∷ rs) = ticks r.select + tick_count rs

feed_count-append : (es fs : List Effect) → feed_count (es ++ fs) ≡ feed_count es + feed_count fs
feed_count-append [] fs = omega arith
feed_count-append (feed ∷ es) fs = omega (arith, feed_count-append es fs)
feed_count-append (reply r ∷ es) fs = feed_count-append es fs
feed_count-append (set_timeout t ∷ es) fs = feed_count-append es fs
feed_count-append (magic_close ∷ es) fs = feed_count-append es fs
feed_count-append (disable_card ∷ es) fs = feed_count-append es fs
feed_count-append (close_watchdog ∷ es) fs = feed_count-append es fs
feed_count-append (unlink_socket ∷ es) fs = feed_count-append es fs
feed_count-append (returned ∷ es) fs = feed_count-append es fs

-- A command neither feeds the watchdog nor fails.
serve-Accepts :
    (env : Env) (server : Option Accept) (d : Daemon)
    → Accepts server
    → ((serve env server d).0.all_ok ≡ d.all_ok) × (feed_count (serve env server d).1 ≡ 0)
unfolding serve
serve-Accepts env none d a = (refl, refl)
serve-Accepts env (some accept_ignored) d a = (refl, refl)
serve-Accepts env (some accept_failed) d a = absurd a
serve-Accepts env (some (accepted peer incoming)) d a = (refl, refl)

abbrev expected : Bool → ℕ → ℕ
expected watchdog n = if watchdog then n else 0

feed_watchdog-Reads :
    (watchdog : Bool) (server : Option Accept) (timer : Option ℕ) (d : Daemon) (es : List Effect)
    → d.all_ok ≡ true
    → Reads timer
    → feed_count es ≡ 0
    → (fs : List Effect) × (feed_watchdog watchdog true timer d es ≡ next d fs)
      × (feed_count fs ≡ expected watchdog (ticks (ready server timer)))
unfolding feed_watchdog
feed_watchdog-Reads watchdog server none d es a t z = (es, refl, ground arith)
feed_watchdog-Reads true server (some size) d es a t z =
    (es ++ feed ∷ [], ground arith, omega (arith, feed_count-append es (feed ∷ [])))
feed_watchdog-Reads false server (some size) d es a t z = (es, ground arith, z)

round_body-Quiet :
    (watchdog : Bool) (r : Round) (s : Select) (d : Daemon)
    → d.all_ok ≡ true
    → d.broker.running ≡ true
    → r.fed ≡ true
    → Quiet r s d
    → (es : List Effect) × (round_body watchdog r s d ≡ next (served r s d) es)
      × (feed_count es ≡ expected watchdog (ticks s))
      × ((served r s d).all_ok ≡ true)
      × ((served r s d).broker.running ≡ true)
unfolding round_body supervise
round_body-Quiet watchdog r interrupted d a b f q = ([], refl, ground arith, a, b)
round_body-Quiet watchdog r failed d a b f q = absurd q
round_body-Quiet watchdog r (ready server timer) d a b f q =
    let (accepts, reads, whole, runs, in_time) = q in
    let d' = served r (ready server timer) d in
    let (same, silent) = serve-Accepts r.env server d accepts in
    let fine : d'.all_ok ≡ true = same ∙ a in
    let checked = (check_clients-InTime r.clock 0 d'.broker.clients d'.all_ok).1 (fine, in_time) in
    let kept : supervise r.clock d' ≡ d' =
      ap (λ (x : Bool). record d' { all_ok = x }) (checked ∙ sym fine) in
    let (es, goes, feeds) =
      feed_watchdog-Reads watchdog server timer d' (serve r.env server d).1 fine reads silent in
    (es, rw (f, whole, kept) goes, feeds, fine, runs)

-- As long as nothing fails, no reply leaves its buffer, no signal comes, no command of root asks for a reboot, and behind each command
-- every client is in time, the daemon stays in its loop, in good state; and with the watchdog in use it
-- has fed it exactly once for each time that the timer ran out.
pub run_loop-AllQuiet :
    (watchdog : Bool) (rs : List Round) (d : Daemon)
    → d.all_ok ≡ true
    → d.broker.running ≡ true
    → AllQuiet rs d
    → (d' : Daemon) × (es : List Effect) × (run_loop watchdog rs d ≡ looping d' es)
      × (d'.all_ok ≡ true)
      × (d'.broker.running ≡ true)
      × (feed_count es ≡ (if watchdog then tick_count rs else 0))
unfolding run_loop
run_loop-AllQuiet watchdog [] d a b q = (d, [], refl, a, b, ground arith)
run_loop-AllQuiet watchdog (r ∷ rs) d a b q =
    let (s, f, here, later) = q in
    let (es, goes, feeds, a', b') = round_body-Quiet watchdog r r.select d a b f here in
    let (d', fs, loops, a'', b'', more) =
      run_loop-AllQuiet watchdog rs (served r r.select d) a' b' later in
    (
      d',
      es ++ fs,
      run_loop_next watchdog r rs d (served r r.select d) es s a b goes ∙ ap (before es) loops,
      a'',
      b'',
      counts es fs feeds more,
    )
  where
    counts :
        (es fs : List Effect)
        → feed_count es ≡ expected watchdog (ticks r.select)
        → feed_count fs ≡ expected watchdog (tick_count rs)
        → feed_count (es ++ fs) ≡ expected watchdog (tick_count (r ∷ rs))
    counts es fs h k = ground (arith, feed_count-append es fs)
