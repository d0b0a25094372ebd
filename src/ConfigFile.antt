-- ===== src/ConfigFile.antt =====
-- `parse_config` of src/wd-broker.c: the configuration file, line by line. The file's
-- bytes, the clock, the randomness for each client and the constants of the build are arguments. A
-- fatal error ends the process; here it is a value with its reason and line.
pub mod Steps
pub mod Bounds
pub mod Announced
pub mod Prefix
pub mod Keeps
use wd_broker.Prelude.{
  ℕ, zero, suc, ◌+◌, ◌-◌, Bool, true, false, not, ◌&&◌, ◌||◌, Option, none, some, List, [], ◌∷◌,
  ◌++◌, ltb, leb, ◌==◌, if◌then◌else◌, length, drop, replicate, modify,
}
use wd_broker.Prelude.Int.{ℤ, pos, ltb_ℤ}
use wd_broker.Text.{Bytes, codes, is_space, str_eq, strncmp_eq, strncpy, c_string}
use wd_broker.Scan.{skip_spaces, scan_set, atoi}
use wd_broker.ConfigText.{trim, read_lines, scan_key_value, scan_section}
use wd_broker.Client.{
  Timespec, Client, Config, zero_client, client_name_len, client_timeout_min_ms,
  client_timeout_max_ms,
}
use wd_broker.ClientId.{Entropy, make_client_id}
use wd_broker.Heartbeat.{to_unsigned, trunc_div}

abbrev pub wd_hw_timeout_default_s : ℤ
wd_hw_timeout_default_s = pos 10

abbrev pub wd_hw_timeout_min_s : ℤ
wd_hw_timeout_min_s = wd_hw_timeout_default_s

abbrev pub wd_hw_timeout_max_s : ℤ
wd_hw_timeout_max_s = pos 60

abbrev pub wd_reboot_timeout_default_s : ℤ
wd_reboot_timeout_default_s = pos 60

abbrev pub wd_reboot_timeout_min_s : ℤ
wd_reboot_timeout_min_s = pos 10

abbrev pub wd_reboot_timeout_max_s : ℤ
wd_reboot_timeout_max_s = pos 300

-- SOCKET_PATH_DEFAULT and WD_MAX_CLIENTS of the generated config.h, and the size of `sun_path`.
pub record Build : Type 0 where
  pub socket_path_default : Bytes
  pub max_clients : ℕ
  pub sockpath_len : ℕ

pub data Reason : Type 0 where
  open_failed invalid_wd_timeout invalid_reboot_timeout : Reason
  invalid_strict_clients invalid_unique_clients : Reason
  unexpected_client_timeout invalid_client_timeout unknown_key : Reason
  too_many_clients invalid_client_name invalid_line : Reason
  no_client_section duplicate_client_name : Reason

pub data Parse {ℓ} (A : Type ℓ) : Type ℓ where
  ok : A → Parse A
  fatal : Reason → ℕ → Parse A

-- `client_count` is `client_idx + 1`.
pub record Parser : Type 0 where
  pub config : Config
  pub clients : List Client
  pub client_count : ℕ

abbrev pub outside : ℤ → ℤ → ℤ → Bool
outside low high v = ltb_ℤ v low || ltb_ℤ high v

abbrev parse_bool : Bytes → Option Bool
parse_bool s =
    if str_eq s (codes "true")
    then some true
    else if str_eq s (codes "false")
    then some false
    else none

unfoldable pub set_timeout_ms : ℕ → Bytes → Parser → Parse Parser
set_timeout_ms line val p =
    let v = to_unsigned (atoi val) in
    if p.client_count == 0
    then fatal unexpected_client_timeout line
    else if ltb v client_timeout_min_ms || ltb client_timeout_max_ms v
    then fatal invalid_client_timeout line
    else ok (record p {
      clients = modify p.clients (p.client_count - 1) (λ c. record c { timeout_ms = v });
    })

unfoldable pub set_strict : ℕ → Option Bool → Parser → Parse Parser
set_strict line none p = fatal invalid_strict_clients line
set_strict line (some b) p = ok (record p { config = record (p.config) { strict_clients = b } })

unfoldable pub set_unique : ℕ → Option Bool → Parser → Parse Parser
set_unique line none p = fatal invalid_unique_clients line
set_unique line (some b) p = ok (record p { config = record (p.config) { unique_clients = b } })

-- A line `key = value`, trimmed.
unfoldable pub set_option : Build → ℕ → Bytes → Bytes → Parser → Parse Parser
set_option build line key val p =
    if str_eq key (codes "socket_path")
    then ok (record p {
      config = record (p.config) { socket_path = strncpy val (build.sockpath_len - 1) };
    })
    else if str_eq key (codes "wd_timeout_s")
    then if outside wd_hw_timeout_min_s wd_hw_timeout_max_s (atoi val)
      then fatal invalid_wd_timeout line
      else ok (record p { config = record (p.config) { wd_timeout_s = atoi val } })
    else if str_eq key (codes "reboot_timeout_s")
    then if outside wd_reboot_timeout_min_s wd_reboot_timeout_max_s (atoi val)
      then fatal invalid_reboot_timeout line
      else ok (record p { config = record (p.config) { reboot_timeout_s = atoi val } })
    else if str_eq key (codes "strict_clients")
    then set_strict line (parse_bool val) p
    else if str_eq key (codes "unique_clients")
    then set_unique line (parse_bool val) p
    else if str_eq key (codes "timeout_ms")
    then set_timeout_ms line val p
    else fatal unknown_key line

unfoldable pub announce : Entropy → Timespec → Bytes → Client → Client
announce entropy now name c = record c {
  name = strncpy name client_name_len;
  client_id = make_client_id entropy;
  timeout_ms = 300_000;
  anounced = true;
  active = false;
  last_ping = now;
}

-- What a file's reading takes from outside, for each client in turn.
pub record World : Type 0 where
  pub entropy : ℕ → Entropy
  pub now : ℕ → Timespec

-- A section's first line; `trimmed` is the whole of it.
unfoldable pub add_client : World → Build → ℕ → Bytes → Bytes → Parser → Parse Parser
add_client world build line trimmed name p =
    let i = p.client_count in
    if leb build.max_clients i
    then fatal too_many_clients line
    else if ltb 9 (length trimmed - length name)
    then fatal invalid_client_name line
    else ok (record p {
      clients = modify p.clients i (announce (world.entropy i) (world.now i) name);
      client_count = i + 1;
    })

unfoldable pub is_comment : Bytes → Bool
is_comment [] = true
is_comment (c ∷ cs) = c == b'#'

unfoldable pub parse_line : World → Build → ℕ → Bytes → Parser → Parse Parser
parse_line world build line text p =
    let trimmed = trim (c_string text) in
    if is_comment trimmed then ok p else elim (scan_key_value trimmed) [
      | some (key, val) ↦ set_option build line (trim key) (trim val) p
      | none ↦ elim (scan_section trimmed) [
        | some (name, left) ↦ add_client world build line trimmed name p
        | none ↦ fatal invalid_line line
      ]
    ]

-- The loop over the lines; `line` counts them.
unfoldable pub parse_lines : World → Build → ℕ → List Bytes → Parser → Parse Parser
parse_lines world build line [] p = ok p
parse_lines world build line (l ∷ ls) p = elim (parse_line world build (suc line) l p) [
  | ok q ↦ parse_lines world build (suc line) ls q
  | fatal why at ↦ fatal why at
]

-- The inner loop of the check for duplicates.
unfoldable pub announced_again : Bytes → List Client → Bool
announced_again name [] = false
announced_again name (c ∷ cs) = (c.anounced && str_eq name c.name) || announced_again name cs

unfoldable pub has_duplicate : List Client → Bool
has_duplicate [] = false
has_duplicate (c ∷ cs) = (c.anounced && announced_again c.name cs) || has_duplicate cs

unfoldable pub final_checks : Parser → Parse Parser
final_checks p =
    if p.config.strict_clients && p.client_count == 0
    then fatal no_client_section 0
    else if p.config.unique_clients && has_duplicate p.clients
    then fatal duplicate_client_name 0
    else ok p

abbrev pub initial_parser : Build → Parser
initial_parser build = record {
  config = record {
    socket_path = strncpy build.socket_path_default build.sockpath_len;
    wd_timeout_s = wd_hw_timeout_default_s;
    reboot_timeout_s = wd_reboot_timeout_default_s;
    strict_clients = false;
    unique_clients = false;
  };
  clients = replicate build.max_clients zero_client;
  client_count = 0;
}

-- `file` is `none` if it cannot be opened.
unfoldable pub parse_config : World → Build → Option Bytes → Parse Parser
parse_config world build none = fatal open_failed 0
parse_config world build (some bytes) =
    elim (parse_lines world build 0 (read_lines bytes) (initial_parser build)) [
      | ok p ↦ final_checks p
      | fatal why line ↦ fatal why line
    ]

-- The period of the timer, `wd_timeout_s / 2` seconds.
unfoldable pub timer_period_s : Config → ℤ
timer_period_s c = trunc_div c.wd_timeout_s 2
