-- ===== src/Lifetime.antt =====
-- The daemon from the configuration file on: what holds of the client table at any time.
pub mod Unregistered
use wd_broker.Prelude.{◌≡◌, refl, ◌∙◌, Bool, true, false, Option, List, All, length}
use wd_broker.Handler.Invariant.{SlotInv, handle_command-SlotInv, handle_command-length}
use wd_broker.Handler.Strict.{NoNewcomers, handle_command-NoNewcomers}
use wd_broker.Handler.Unique.{UniqueNames, handle_command-UniqueNames}
use wd_broker.Handler.{Broker}
use wd_broker.Text.{Bytes}
use wd_broker.ConfigFile.Bounds.{Loaded, parse_config-Loaded, inactive-UniqueNames}
use wd_broker.ConfigFile.{Build, World, Parser, ok, parse_config}
use wd_broker.Loop.Keeps.{EndsIn, run_loop-EndsIn}
use wd_broker.Loop.{Round, Daemon, run_loop}

-- The state in which `main` enters its loop.
unfoldable pub start : Parser → Daemon
start p = record {
  broker = record { config = p.config; clients = p.clients; running = true; reboot = false };
  all_ok = true;
}

-- Of a table that began as the file set it up.
pub record Healthy (build : Build) (p : Parser) (b : Broker) : Type 0 where
  pub config : b.config ≡ p.config
  pub size : length b.clients ≡ build.max_clients
  pub slots : All SlotInv b.clients
  pub unique : p.config.unique_clients ≡ true → UniqueNames b.clients
  pub strict : p.config.strict_clients ≡ true → NoNewcomers p.clients b.clients

start-Healthy : (build : Build) (p : Parser) → Loaded build p → Healthy build p (start p).broker
unfolding start
start-Healthy build p l = record {
  config = refl;
  size = l.size;
  slots = l.slots;
  unique = λ u. inactive-UniqueNames p.clients l.inactive;
  strict = λ s k name h. h;
}

-- At any time in its main loop, after any commands, timer events, failures and signals, a daemon
-- whose configuration file was accepted has a table of WD_MAX_CLIENTS well-formed slots; with
-- `unique_clients` no two active clients share a name; and with `strict_clients` every active or
-- announced client stands in the slot in which the file announced its name. (A run ends at a reply
-- that leaves its buffer; of the process behind that nothing is said.)
pub run_loop-Healthy :
    (world : World) (build : Build) (file : Option Bytes) (p : Parser) (watchdog : Bool)
    (rs : List Round)
    → parse_config world build file ≡ ok p
    → EndsIn (Healthy build p) (run_loop watchdog rs (start p))
run_loop-Healthy world build file p watchdog rs e =
    run_loop-EndsIn (Healthy build p)
      (λ env peer incoming b h.
        let (size, same) = handle_command-length env peer incoming b in
        record {
          config = same ∙ h.config;
          size = size ∙ h.size;
          slots = handle_command-SlotInv env peer incoming b h.slots;
          unique = λ u. handle_command-UniqueNames env peer incoming b (rw h.config u) (h.unique u);
          strict = λ s k name l.
              h.strict s k name
                (handle_command-NoNewcomers env peer incoming b (rw h.config s) k name l);
        })
      (λ b h. record {
        config = h.config;
        size = h.size;
        slots = h.slots;
        unique = h.unique;
        strict = h.strict;
      })
      watchdog rs (start p) (start-Healthy build p (parse_config-Loaded world build file p e))
