-- ===== src/Settings.antt =====
-- A printer for the configuration file that `parse_config` of src/wd-broker.c reads: settings that
-- doc/ConfigurationFile.md describes, and the file that a careful user writes for them.
pub mod Text
pub mod Lines
pub mod Options
pub mod Sections
pub mod Accepted
pub mod RoundTrip
use wd_broker.Prelude.{
  ℕ, suc, ◌+◌, ◌-◌, ◌≤◌, ◌≡◌, ◌≢◌, Bool, true, false, not, ◌&&◌, List, [], ◌∷◌, ◌++◌, ◌==◌, All,
  length, replicate,
}
use wd_broker.Prelude.Int.{pos}
use wd_broker.Text.{Bytes, codes, all_bytes}
use wd_broker.Print.{print_nat}
use wd_broker.Client.{Client, zero_client}
use wd_broker.Handler.{valid_name_byte}
use wd_broker.ConfigFile.{Build, World, Parser, announce}

-- A client section.
pub record Announced : Type 0 where
  pub name : Bytes
  pub timeout_ms : ℕ

pub record Settings : Type 0 where
  pub socket_path : Bytes
  pub wd_timeout_s : ℕ
  pub reboot_timeout_s : ℕ
  pub strict_clients : Bool
  pub unique_clients : Bool
  pub clients : List Announced

abbrev pub print_bool : Bool → Bytes
print_bool true = codes "true"
print_bool false = codes "false"

abbrev pub option_line : Bytes → Bytes → Bytes
option_line key val = key ++ (b'=' ∷ val)

abbrev pub section_line : Bytes → Bytes
section_line name = codes "[client " ++ (name ++ codes "]")

abbrev pub client_lines : List Announced → List Bytes
client_lines [] = []
client_lines (c ∷ cs) =
    section_line c.name
    ∷ option_line (codes "timeout_ms") (print_nat c.timeout_ms)
    ∷ client_lines cs

abbrev pub settings_lines : Settings → List Bytes
settings_lines s =
    option_line (codes "socket_path") s.socket_path
    ∷ option_line (codes "wd_timeout_s") (print_nat s.wd_timeout_s)
    ∷ option_line (codes "reboot_timeout_s") (print_nat s.reboot_timeout_s)
    ∷ option_line (codes "strict_clients") (print_bool s.strict_clients)
    ∷ option_line (codes "unique_clients") (print_bool s.unique_clients)
    ∷ client_lines s.clients

abbrev pub end_lines : List Bytes → Bytes
end_lines [] = []
end_lines (l ∷ ls) = l ++ (b'\n' ∷ end_lines ls)

abbrev pub print_settings : Settings → Bytes
print_settings s = end_lines (settings_lines s)

-- The slots that a file's clients get, from slot `i` on.
abbrev pub announced_slots : World → ℕ → List Announced → List Client
announced_slots world i [] = []
announced_slots world i (c ∷ cs) =
    record (announce (world.entropy i) (world.now i) c.name zero_client) {
      timeout_ms = c.timeout_ms;
    }
    ∷ announced_slots world (suc i) cs

-- What the daemon is to have read.
abbrev pub stored : World → Build → Settings → Parser
stored world build s = record {
  config = record {
    socket_path = s.socket_path;
    wd_timeout_s = pos s.wd_timeout_s;
    reboot_timeout_s = pos s.reboot_timeout_s;
    strict_clients = s.strict_clients;
    unique_clients = s.unique_clients;
  };
  clients =
      announced_slots world 0 s.clients
      ++ replicate (build.max_clients - length s.clients) zero_client;
  client_count = length s.clients;
}

-- A byte of a name in a section: no ']', which ends it, and no '=', which makes the line an option.
abbrev pub section_byte : ℕ → Bool
section_byte c = valid_name_byte c && (not (c == b']') && not (c == b'='))

pub record IsAnnounced (c : Announced) : Type 0 where
  pub named : c.name ≢ []
  pub fits : length c.name ≤ 63
  pub bytes : all_bytes section_byte c.name ≡ true
  pub timeout_min : 5000 ≤ c.timeout_ms
  pub timeout_max : c.timeout_ms ≤ 300_000

abbrev pub Distinct : List Announced → Type 0
Distinct [] = Unit
Distinct (c ∷ cs) = All (λ d. c.name ≢ d.name) cs × Distinct cs

pub record IsLegal (build : Build) (s : Settings) : Type 0 where
  pub path : s.socket_path ≢ []
  pub path_fits : length s.socket_path ≤ 127
  pub path_room : length s.socket_path ≤ build.sockpath_len - 1
  pub path_bytes : all_bytes valid_name_byte s.socket_path ≡ true
  pub wd_min : 10 ≤ s.wd_timeout_s
  pub wd_max : s.wd_timeout_s ≤ 60
  pub reboot_min : 10 ≤ s.reboot_timeout_s
  pub reboot_max : s.reboot_timeout_s ≤ 300
  pub announced : All IsAnnounced s.clients
  pub room : length s.clients ≤ build.max_clients
  pub some_client : s.strict_clients ≡ true → s.clients ≢ []
  pub distinct : s.unique_clients ≡ true → Distinct s.clients
