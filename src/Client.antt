-- ===== src/Client.antt =====
-- The data of src/wd-broker.c: `client_t`, `wd_config_t`, and the constants of include/wd-client.h.
-- `struct timespec` has `tv_nsec` below 10^9, and CLOCK_MONOTONIC has no negative seconds.
use wd_broker.Prelude.{ℕ, Bool, false, []}
use wd_broker.Prelude.Int.{ℤ}
use wd_broker.Text.{Bytes}

abbrev pub client_name_len : ℕ
client_name_len = 64

abbrev pub clientid_len : ℕ
clientid_len = 17

abbrev pub clientid_fmt_len : ℕ
clientid_fmt_len = 16

abbrev pub client_timeout_min_ms : ℕ
client_timeout_min_ms = 5000

abbrev pub client_timeout_max_ms : ℕ
client_timeout_max_ms = 300_000

pub record Timespec : Type 0 where
  pub tv_sec : ℕ
  pub tv_nsec : ℕ

pub record Client : Type 0 where
  pub client_id : Bytes
  pub name : Bytes
  pub pid : ℕ
  pub timeout_ms : ℕ
  pub last_ping : Timespec
  pub active : Bool
  pub anounced : Bool
  pub check_pid : Bool

-- `memset(..., 0, ...)`
abbrev pub zero_client : Client
zero_client = record {
  client_id = [];
  name = [];
  pid = 0;
  timeout_ms = 0;
  last_ping = record { tv_sec = 0; tv_nsec = 0 };
  active = false;
  anounced = false;
  check_pid = false;
}

pub record Config : Type 0 where
  pub socket_path : Bytes
  pub wd_timeout_s : ℤ
  pub reboot_timeout_s : ℤ
  pub strict_clients : Bool
  pub unique_clients : Bool
