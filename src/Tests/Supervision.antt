-- ===== src/Tests/Supervision.antt =====
-- Rounds of the main loop on the sample table.
use wd_broker.Prelude.{
  List, ◌⊎◌, ◌+◌, ◌*◌, ◌≤◌, ◌<◌, ◌≡◌, refl, true, false, some, none, All, [], ◌∷◌, arith, replicate,
}
use wd_broker.Heartbeat.{is_overdue, ms_since, check_clients}
use wd_broker.Heartbeat.Check.{Plausible, is_overdue_exact}
use wd_broker.Loop.{next, ready, feed, serve, supervise, feed_watchdog, round_body, run_main}
use wd_broker.Loop.Safety.{FeedsWhen, round_body-feeds}
use wd_broker.Loop.Deadline.{StarvesBehind, run_main-StarvesBehind}
use wd_broker.Loop.{Round, accepted, Daemon, looping}
use wd_broker.Loop.Service.{AllQuiet, feed_count, run_loop-AllQuiet}
use wd_broker.Loop.Disarm.{KeepsArmed, run_main-KeepsArmed}
use wd_broker.Loop.{Effect, dead, run_loop}
use wd_broker.Loop.Liveness.{IsExit, run_main-IsExit}
use wd_broker.Tests.Data.{at, alpha, stranger, command, daemon, tick}

alpha-Plausible : Plausible (at 16) alpha
alpha-Plausible = omega arith

is_overdue_exact_example :
    (is_overdue (at 16) alpha ≡ true → 15_000_000_000 < 16_000_000_000)
    × (10_000_000_000 + 5001 * 1_000_000 ≤ 16_000_000_000 → is_overdue (at 16) alpha ≡ true)
is_overdue_exact_example = is_overdue_exact (at 16) alpha alpha-Plausible refl

in_time : round_body true (tick 12) (ready none (some 8)) daemon ≡ next daemon (feed ∷ [])
unfolding round_body serve supervise feed_watchdog check_clients is_overdue ms_since
in_time = refl

round_body-feeds_example :
    (daemon.broker ≡ (serve (tick 12).env none daemon).0.broker)
    × (true ≡ true → FeedsWhen true (tick 12) none (some 8) daemon)
    × (FeedsWhen true (tick 12) none (some 8) daemon → true ≡ true)
round_body-feeds_example =
    round_body-feeds true (tick 12) none (some 8) daemon daemon (feed ∷ []) in_time

-- A stranger sends a command, and the client of slot 0 none.
abbrev visit : Round
visit = record (tick 12) {
  select = ready (some (accepted (some stranger) (command "VERSION"))) none;
}

run_main-StarvesBehind_example :
    StarvesBehind
      (run_loop true (visit ∷ tick 14 ∷ []) daemon)
      (run_main true (visit ∷ tick 14 ∷ tick 16 ∷ tick 17 ∷ []) true (replicate 9 false) daemon)
run_main-StarvesBehind_example =
    run_main-StarvesBehind true true 9 0 alpha (visit ∷ tick 14 ∷ []) (tick 17 ∷ []) (tick 16) none
      (some 8) daemon (refl, refl) refl
      ((refl, (refl, refl, omega arith, omega arith)), ((refl, tt), tt)) (refl, tt) (refl, tt) refl
      alpha-Plausible (omega arith)

run_main-KeepsArmed_example :
    All KeepsArmed (run_main true (tick 12 ∷ tick 16 ∷ []) true (replicate 9 false) daemon)
run_main-KeepsArmed_example =
    run_main-KeepsArmed true true 9 (tick 12 ∷ tick 16 ∷ []) daemon (refl, (refl, tt)) refl

run_main-IsExit_example :
    let rs = tick 12 ∷ record (tick 13) { signalled = true } ∷ tick 14 ∷ [] in
    IsExit (run_main true rs true (false ∷ true ∷ []) daemon)
    ⊎ ((es : List Effect) × (run_loop true rs daemon ≡ dead es))
run_main-IsExit_example =
    run_main-IsExit true (tick 12 ∷ []) (tick 14 ∷ []) (record (tick 13) { signalled = true })
      (false ∷ true ∷ []) daemon refl tt

-- Two ticks, at which every client is in time.
calm : AllQuiet (tick 12 ∷ tick 14 ∷ []) daemon
unfolding serve is_overdue ms_since
calm = (
  refl,
  refl,
  (tt, refl, refl, refl, (refl, (refl, (refl, tt)))),
  (refl, refl, (tt, refl, refl, refl, (refl, (refl, (refl, tt)))), tt),
)

run_loop-AllQuiet_example :
    (d' : Daemon) × (es : List Effect) × (run_loop true (tick 12 ∷ tick 14 ∷ []) daemon
      ≡ looping d' es)
    × (d'.all_ok ≡ true)
    × (d'.broker.running ≡ true)
    × (feed_count es ≡ 2)
run_loop-AllQuiet_example = run_loop-AllQuiet true (tick 12 ∷ tick 14 ∷ []) daemon refl refl calm
