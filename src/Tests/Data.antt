-- ===== src/Tests/Data.antt =====
-- A small table: an active client with PID check, an announced one, and a slot never used.
use Prim.Native.String.{String}
use wd_broker.Prelude.{ℕ, Bool, true, false, List, [], ◌∷◌, none, some}
use wd_broker.Prelude.Int.{pos}
use wd_broker.Text.{codes}
use wd_broker.Client.{Client, Config, Timespec, zero_client}
use wd_broker.Common.{Incoming, packet}
use wd_broker.Handler.{Broker, Env, Creds, handle_command}
use wd_broker.Loop.{Round, ready, Daemon}

abbrev pub at : ℕ → Timespec
at s = record { tv_sec = s; tv_nsec = 0 }

abbrev pub alpha : Client
alpha = record {
  client_id = codes "00112233445566ff";
  name = codes "alpha";
  pid = 100;
  timeout_ms = 5000;
  last_ping = at 10;
  active = true;
  anounced = false;
  check_pid = true;
}

abbrev pub beta : Client
beta = record {
  client_id = codes "a0a1a2a3a4a5a6a7";
  name = codes "beta";
  pid = 0;
  timeout_ms = 60_000;
  last_ping = at 10;
  active = false;
  anounced = true;
  check_pid = false;
}

abbrev pub table : List Client
table = alpha ∷ beta ∷ zero_client ∷ []

abbrev pub config : Bool → Bool → Config
config strict unique = record {
  socket_path = codes "/run/wd-broker.sock";
  wd_timeout_s = pos 10;
  reboot_timeout_s = pos 60;
  strict_clients = strict;
  unique_clients = unique;
}

abbrev pub broker : Bool → Bool → Broker
broker strict unique = record {
  config = config strict unique;
  clients = table;
  running = true;
  reboot = false;
}

abbrev pub env : Env
env = record {
  now = at 12;
  entropy = record { urandom = some (1 ∷ 2 ∷ 3 ∷ 4 ∷ 5 ∷ 6 ∷ 7 ∷ 255 ∷ []); random = λ i. 0 };
  package_version = codes "1.2.3";
}

-- The owner of `alpha`, a stranger, and root.
abbrev pub owner : Creds
owner = record { pid = 100; uid = 1000 }

abbrev pub stranger : Creds
stranger = record { pid = 200; uid = 1000 }

abbrev pub root : Creds
root = record { pid = 300; uid = 0 }

abbrev pub daemon : Daemon
daemon = record { broker = broker false true; all_ok = true }

-- A round in which only the timer is ready, `s` seconds after the start.
abbrev pub tick : ℕ → Round
tick s = record {
  signalled = false;
  select = ready none (some 8);
  env = env;
  clock = λ i. at s;
  fed = true;
}

abbrev pub command : String → Incoming
command s = packet (codes s)

-- The broker behind a command.
abbrev pub after : Bool → Bool → Creds → String → Broker
after strict unique creds s = (handle_command env (some creds) (command s) (broker strict unique)).0
