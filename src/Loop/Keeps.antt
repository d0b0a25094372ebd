-- ===== src/Loop/Keeps.antt =====
-- What every command keeps, the loop keeps.
use wd_broker.Prelude.{
  ℕ, not, ◌==◌, if◌then◌else◌, Bool, true, false, ◌&&◌, Option, none, some, List, [], ◌∷◌,
}
use wd_broker.Common.{Incoming}
use wd_broker.Handler.{Broker, Env, Creds, handle_command}
use wd_broker.Loop.{
  Effect, Accept, accept_ignored, accept_failed, accepted, Select, interrupted, failed, ready,
  Round, Daemon, Step, next, died, signal_handler, serve, supervise, feed_watchdog, overruns,
  round_body, LoopEnd, looping, left, dead, before, run_loop,
}

-- The daemon that a stretch of rounds ends with, if it is alive.
abbrev pub EndsIn {ℓ} : (Broker → Type ℓ) → LoopEnd → Type ℓ
EndsIn P (looping d es) = P d.broker
EndsIn P (left d es) = P d.broker
EndsIn P (dead es) = Unit

abbrev StepsTo {ℓ} : (Broker → Type ℓ) → Step → Type ℓ
StepsTo P (next d es) = P d.broker
StepsTo P (died es) = Unit

module _ {ℓ} (P : Broker → Type ℓ)
    (on_command : (env : Env) (peer : Option Creds) (incoming : Incoming) (b : Broker)
      → P b
      → P (handle_command env peer incoming b).0)
    (on_signal : (b : Broker) → P b → P (record b { running = false })) where
  signal_handler-keeps : (s : Bool) (b : Broker) → P b → P (signal_handler s b)
  unfolding signal_handler
  signal_handler-keeps true b h = on_signal b h
  signal_handler-keeps false b h = h

  serve-keeps :
      (env : Env) (server : Option Accept) (d : Daemon)
      → P d.broker
      → P (serve env server d).0.broker
  unfolding serve
  serve-keeps env none d h = h
  serve-keeps env (some accept_ignored) d h = h
  serve-keeps env (some accept_failed) d h = h
  serve-keeps env (some (accepted peer incoming)) d h = on_command env peer incoming d.broker h

  if-StepsTo : (b : Bool) (x y : Step) → StepsTo P x → StepsTo P y → StepsTo P (if b then x else y)
  if-StepsTo true x y h k = h
  if-StepsTo false x y h k = k

  feed_watchdog-StepsTo :
      (watchdog fed : Bool) (timer : Option ℕ) (d : Daemon) (es : List Effect)
      → P d.broker
      → StepsTo P (feed_watchdog watchdog fed timer d es)
  unfolding feed_watchdog
  feed_watchdog-StepsTo watchdog fed none d es h = h
  feed_watchdog-StepsTo watchdog fed (some size) d es h =
      if-StepsTo (not (size == 8)) _ _ tt
        (if-StepsTo (d.all_ok && watchdog) _ _ (if-StepsTo fed _ _ h tt) h)

  round_body-StepsTo :
      (watchdog : Bool) (r : Round) (s : Select) (d : Daemon)
      → P d.broker
      → StepsTo P (round_body watchdog r s d)
  unfolding round_body supervise
  round_body-StepsTo watchdog r interrupted d h = h
  round_body-StepsTo watchdog r failed d h = h
  round_body-StepsTo watchdog r (ready server timer) d h =
      let (d', es) = serve r.env server d in
      if-StepsTo (overruns es) _ _ tt (
        feed_watchdog-StepsTo watchdog r.fed timer (supervise r.clock d') es
          (serve-keeps r.env server d h))

  before-EndsIn : (es : List Effect) (l : LoopEnd) → EndsIn P l → EndsIn P (before es l)
  before-EndsIn es (looping d fs) h = h
  before-EndsIn es (left d fs) h = h
  before-EndsIn es (dead fs) h = tt

  pub run_loop-EndsIn :
      (watchdog : Bool) (rs : List Round) (d : Daemon)
      → P d.broker
      → EndsIn P (run_loop watchdog rs d)
  unfolding run_loop
  run_loop-EndsIn watchdog [] d h = h
  run_loop-EndsIn watchdog (r ∷ rs) d h =
      go (d'.broker.running && d'.all_ok) (round_body watchdog r r.select d')
        (round_body-StepsTo watchdog r r.select d' h') (run_loop-EndsIn watchdog rs)
    where
      d' : Daemon
      d' = record d { broker = signal_handler r.signalled d.broker }

      h' : P d'.broker
      h' = signal_handler-keeps r.signalled d.broker h

      go :
          (on : Bool) (s : Step)
          → StepsTo P s
          → ((e : Daemon) → P e.broker → EndsIn P (run_loop watchdog rs e))
          → EndsIn P (elim on [
            | false ↦ left d' []
            | true ↦ elim s [ died es ↦ dead es | next e es ↦ before es (run_loop watchdog rs e) ]
          ])
      go false s k ih = h'
      go true (died es) k ih = tt
      go true (next e es) k ih = before-EndsIn es (run_loop watchdog rs e) (ih e k)
