-- ===== src/Loop.antt =====
-- The main loop of src/wd-broker.c, and what follows it. What `select`, `accept`, `read` and `write`
-- do, the clock and the signals are the environment's: one record for each round. A fatal error ends
-- the process.
pub mod Safety
pub mod Disarm
pub mod Keeps
pub mod Liveness
pub mod Service
pub mod Deadline
use wd_broker.Prelude.{
  ℕ, Bool, true, false, not, ◌&&◌, ◌||◌, Option, none, some, List, [], ◌∷◌, ◌++◌, ◌==◌,
  if◌then◌else◌,
}
use wd_broker.Prelude.Int.{ℤ}
use wd_broker.Print.{Reply, out_of_bounds}
use wd_broker.Common.{Incoming}
use wd_broker.Client.{Timespec, Client, Config}
use wd_broker.Heartbeat.{check_clients}
use wd_broker.Handler.{Broker, Env, Creds, handle_command}

-- What the process does that others see. `feed` is the write of a zero byte to the watchdog,
-- `magic_close` the write of 'V', `disable_card` the WDIOS_DISABLECARD request, and `returned` the end of
-- `main`.
pub data Effect : Type 0 where
  reply : Reply → Effect
  feed : Effect
  set_timeout : ℤ → Effect
  magic_close : Effect
  disable_card : Effect
  close_watchdog : Effect
  unlink_socket : Effect
  returned : Effect

-- `accept`: an error that is ignored (EAGAIN and the like), any other error, or a connection with
-- its peer.
pub data Accept : Type 0 where
  accept_ignored : Accept
  accept_failed : Accept
  accepted : Option Creds → Incoming → Accept

-- `select`: EINTR, another error, or what is ready. `timer` is the size that `read` returns.
pub data Select : Type 0 where
  interrupted : Select
  failed : Select
  ready : Option Accept → Option ℕ → Select

-- `signalled`: SIGINT or SIGTERM came before the test of the loop. `fed` is whether the write to the
-- watchdog takes its byte.
pub record Round : Type 0 where
  pub signalled : Bool
  pub select : Select
  pub env : Env
  pub clock : ℕ → Timespec
  pub fed : Bool

pub record Daemon : Type 0 where
  pub broker : Broker
  pub all_ok : Bool

pub data Step : Type 0 where
  next : Daemon → List Effect → Step
  died : List Effect → Step

-- `signal_handler`
unfoldable pub signal_handler : Bool → Broker → Broker
signal_handler signalled b = if signalled then record b { running = false } else b

-- The input of a client, if there is one.
unfoldable pub serve : Env → Option Accept → Daemon → Daemon × List Effect
serve env none d = (d, [])
serve env (some accept_ignored) d = (d, [])
serve env (some accept_failed) d = (record d { all_ok = false }, [])
serve env (some (accepted peer incoming)) d =
    let (b, r) = handle_command env peer incoming d.broker in
    (record d { broker = b }, reply r ∷ [])

-- The check of the heartbeats.
unfoldable pub supervise : (ℕ → Timespec) → Daemon → Daemon
supervise clock d = record d { all_ok = check_clients clock 0 d.broker.clients d.all_ok }

-- Whether the reply left its buffer. What the process does behind that is not defined; the model ends
-- there, as if it had died.
abbrev pub overruns : List Effect → Bool
overruns (reply out_of_bounds ∷ es) = true
overruns _ = false

-- The timer: `expirations` has 8 bytes.
unfoldable pub feed_watchdog : Bool → Bool → Option ℕ → Daemon → List Effect → Step
feed_watchdog watchdog fed none d es = next d es
feed_watchdog watchdog fed (some size) d es =
    if not (size == 8)
    then died es
    else if d.all_ok && watchdog
    then if fed then next d (es ++ feed ∷ []) else died es
    else next d es

-- The body of the loop.
unfoldable pub round_body : Bool → Round → Select → Daemon → Step
round_body watchdog r interrupted d = next d []
round_body watchdog r failed d = next (record d { all_ok = false }) []
round_body watchdog r (ready server timer) d =
    let (d', es) = serve r.env server d in
    if overruns es then died es else feed_watchdog watchdog r.fed timer (supervise r.clock d') es

-- How a stretch of rounds ends: in the loop, out of it, or dead.
pub data LoopEnd : Type 0 where
  looping : Daemon → List Effect → LoopEnd
  left : Daemon → List Effect → LoopEnd
  dead : List Effect → LoopEnd

abbrev pub before : List Effect → LoopEnd → LoopEnd
before es (looping d fs) = looping d (es ++ fs)
before es (left d fs) = left d (es ++ fs)
before es (dead fs) = dead (es ++ fs)

-- `while (running && all_ok)`, for the rounds that are given.
unfoldable pub run_loop : Bool → List Round → Daemon → LoopEnd
run_loop watchdog [] d = looping d []
run_loop watchdog (r ∷ rs) d =
    let d' = record d { broker = signal_handler r.signalled d.broker } in
    elim (d'.broker.running && d'.all_ok) [
      | false ↦ left d' []
      | true ↦ elim (round_body watchdog r r.select d') [
        | died es ↦ dead es
        | next e es ↦ before es (run_loop watchdog rs e)
      ]
    ]

-- `while (running)` behind a failure, with the signals that come in turn; `none` while it waits.
unfoldable pub wait_for_signal : List Bool → Broker → Option Broker
wait_for_signal [] b = if b.running then none else some b
wait_for_signal (s ∷ ss) b =
    let rest = wait_for_signal ss (signal_handler s b) in if b.running then rest else some b

-- The end of `main`. `fed` is whether the write behind a reboot request takes its byte; if not, the
-- process dies there.
unfoldable pub finish : Bool → Bool → Broker → List Effect
finish true fed b =
    if b.reboot
    then if fed
      then set_timeout b.config.reboot_timeout_s
        ∷ feed
        ∷ close_watchdog
        ∷ unlink_socket
        ∷ returned
        ∷ []
      else set_timeout b.config.reboot_timeout_s ∷ []
    else magic_close ∷ disable_card ∷ close_watchdog ∷ unlink_socket ∷ returned ∷ []
finish false fed b = unlink_socket ∷ returned ∷ []

-- What follows the loop.
unfoldable pub after_loop : Bool → Bool → List Bool → Daemon → List Effect
after_loop watchdog fed signals d =
    if d.all_ok
    then finish watchdog fed d.broker
    else unlink_socket
      ∷ elim (wait_for_signal signals d.broker) [ none ↦ [] | some b ↦ finish watchdog fed b ]

abbrev pub then_after_loop : Bool → Bool → List Bool → LoopEnd → List Effect
then_after_loop watchdog fed signals (looping d es) = es
then_after_loop watchdog fed signals (left d es) = es ++ after_loop watchdog fed signals d
then_after_loop watchdog fed signals (dead es) = es

-- `main` from the loop on: the rounds of the loop, then what follows it, with the signals that come
-- there.
unfoldable pub run_main : Bool → List Round → Bool → List Bool → Daemon → List Effect
run_main watchdog rs fed signals d = then_after_loop watchdog fed signals (run_loop watchdog rs d)
