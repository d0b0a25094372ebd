-- ===== src/Ctrl.antt =====
-- The command-line tool, src/wd-ctrl.c. What `getopt_long` returns is a list, and what the system
-- calls of each connection do is a `Link`. The outcome is the exit code, the requests written to the
-- broker, and what is printed, without its padding; messages on stderr are left out.
pub mod Rows
pub mod Lines
pub mod Lookup
pub mod Reply
pub mod Unregister
pub mod Reboot
pub mod Refusal
pub mod Reported
pub mod Table
use wd_broker.Prelude.{
  ℕ, suc, ◌+◌, Bool, true, false, not, ◌||◌, Option, none, some, List, [], ◌∷◌, ◌++◌, ltb, ◌==◌,
  if◌then◌else◌, take, drop,
}
use wd_broker.Prelude.Int.{ℤ, pos, negsuc}
use wd_broker.Text.{Bytes, codes, str_eq, strncmp_eq, c_string}
use wd_broker.Scan.{scan_set, scan_word, scan_int, scan_uint, atoi}
use wd_broker.Common.{
  cmd_reboot, cmd_status, cmd_unregister, ReadResult, failed, nothing, received, read_with_timeout,
}
use wd_broker.Options.{ExitCode, success, failure}
use wd_broker.WdClient.{Link}

-- What a line of STATUS says of a client.
pub record Row : Type 0 where
  pub id : Bytes
  pub pid : ℤ
  pub name : Bytes
  pub timeout : ℕ

unfoldable pub read_timeout : Bytes → ℤ → Bytes → Option (ℕ × Bytes) → Option (Row × Bytes)
read_timeout id pid name none = none
read_timeout id pid name (some (timeout, left)) =
    some (record { id = id; pid = pid; name = name; timeout = timeout }, left)

-- "%16s %d %63s %u"; what is left goes to a further conversion.
unfoldable pub read_row : Bytes → Option (Row × Bytes)
unfolding read_timeout
read_row line = elim (scan_word 16 line) [
  | none ↦ none
  | some (id, r) ↦ elim (scan_int r) [
    | none ↦ none
    | some (pid, r) ↦ elim (scan_word 63 r) [
      | none ↦ none
      | some (name, r) ↦ read_timeout id pid name (scan_uint r)
    ]
  ]
]

pub data Shown : Type 0 where
  setting : Bytes → Bytes → Shown
  table_header : Shown
  row : Row → Bool → Shown
  raw : Bytes → Shown
  rebooting : ℤ → Shown
  unregistered : Bytes → Shown

abbrev pub is_nonzero : ℤ → Bool
is_nonzero (pos n) = not (n == 0)
is_nonzero (negsuc n) = true

unfoldable pub print_line_formatted : Bytes → Shown
print_line_formatted line = elim (read_row line) [
  | none ↦ raw line
  | some (r, left) ↦ elim (scan_int left) [
    | none ↦ raw line
    | some (check_pid, rest) ↦ row r (is_nonzero check_pid)
  ]
]

-- `strtok_r` with "\n": the bytes between newlines, without empty ones. `cur` is the token so far.
abbrev pub emit : Bytes → List Bytes → List Bytes
emit [] tokens = tokens
emit (c ∷ cur) tokens = (c ∷ cur) ∷ tokens

unfoldable pub tokens_from : Bytes → Bytes → List Bytes
tokens_from cur [] = emit cur []
tokens_from cur (c ∷ cs) = elim (c == b'\n') [
  | true ↦ emit cur (tokens_from [] cs)
  | false ↦ tokens_from (cur ++ c ∷ []) cs
]

-- The lines that fit MAX_LINES - 1 pointers.
unfoldable pub status_lines_of : ℕ → Bytes → List Bytes
unfolding tokens_from
status_lines_of max_clients text = take (max_clients + 9) (tokens_from [] text)

-- The text in the buffer behind the first call of `strtok_r`.
unfoldable pub first_token : Bytes → Bytes
first_token [] = []
first_token (c ∷ cs) = let rest = first_token cs in if c == b'\n' then [] else c ∷ rest

unfoldable pub cut_by_strtok : Bytes → Bytes
unfolding first_token
cut_by_strtok [] = []
cut_by_strtok (c ∷ cs) =
    let rest = c ∷ cut_by_strtok cs in if c == b'\n' then rest else first_token (c ∷ cs)

-- `send_and_receive`, and what it wrote.
unfoldable pub send_and_receive : Link → ℕ → ReadResult
send_and_receive link size =
    if not link.socket || not link.connect || not link.write
    then failed
    else read_with_timeout link.response size

unfoldable pub written : Link → Bytes → List Bytes
written link cmd = if not link.socket || not link.connect || not link.write then [] else cmd ∷ []

unfoldable pub has_byte : ℕ → Bytes → Bool
has_byte b [] = false
has_byte b (c ∷ cs) = c == b || has_byte b cs

-- "%63[^=]=%63s", behind the key
unfoldable pub scan_setting_value : Bytes → Bytes → List Shown
scan_setting_value key [] = []
scan_setting_value key (c ∷ left) =
    if c == b'='
    then elim (scan_word 63 left) [ none ↦ [] | some (val, rest) ↦ setting key val ∷ [] ]
    else []

unfoldable pub print_setting : Bytes → List Shown
unfolding scan_setting_value
print_setting line = elim (scan_set (λ c. not (c == b'=')) 63 line) [
  | none ↦ []
  | some (key, left) ↦ scan_setting_value key left
]

-- The loop of `status`; the flag is `has_client_rows`.
unfoldable pub print_status : Bool → List Bytes → List Shown
print_status has_rows [] = []
print_status has_rows (line ∷ lines) =
    let is_setting = has_byte b'=' line in
    let rest = print_status (has_rows || not is_setting) lines in
    if is_setting
    then print_setting line ++ rest
    else (if has_rows then [] else table_header ∷ []) ++ (print_line_formatted line ∷ rest)

pub record Search : Type 0 where
  pub id_candidate : Bytes
  pub found : Bool
  pub match_count : ℕ

abbrev pub no_match : Search
no_match = record { id_candidate = []; found = false; match_count = 0 }

abbrev pub match_name : Bytes → Row → Search → Search
match_name client r s =
    if str_eq client r.name
    then record { id_candidate = r.id; found = true; match_count = suc s.match_count }
    else s

-- The loop of `unregister`: an id ends it, names are counted.
unfoldable pub search_client : Bytes → List Bytes → Search → Search
search_client client [] s = s
search_client client (line ∷ lines) s = elim (read_row line) [
  | none ↦ search_client client lines s
  | some (r, left) ↦
      let rest = search_client client lines (match_name client r s) in
      if str_eq client r.id then record s { id_candidate = r.id; found = true } else rest
]

pub record Outcome : Type 0 where
  pub status : ExitCode
  pub requests : List Bytes
  pub shown : List Shown

abbrev pub fails : List Bytes → Outcome
fails requests = record { status = failure; requests = requests; shown = [] }

-- `atoi(buf + 3)` behind "OK"
unfoldable pub judge_reboot : Bytes → List Bytes → Outcome
judge_reboot buf requests =
    if strncmp_eq buf (codes "OK") 2
    then record {
      status = success;
      requests = requests;
      shown = rebooting (atoi (drop 3 buf)) ∷ [];
    }
    else fails requests

-- If nothing is read, the buffer still holds what STATUS left there.
unfoldable pub ctrl_reboot : Link → Bytes → Outcome
ctrl_reboot link status_text = elim (send_and_receive link 4096) [
  | received bytes ↦ judge_reboot (c_string bytes) (written link cmd_reboot)
  | failed ↦ judge_reboot (cut_by_strtok status_text) (written link cmd_reboot)
  | nothing ↦ judge_reboot (cut_by_strtok status_text) (written link cmd_reboot)
]

unfoldable pub judge_unregister : Bytes → Bytes → List Bytes → Outcome
judge_unregister client buf requests =
    if strncmp_eq buf (codes "OK") 2
    then record { status = success; requests = requests; shown = unregistered client ∷ [] }
    else fails requests

-- "UNREGISTER %s\n" in a buffer of 128 bytes
abbrev pub unregister_request : Bytes → Bytes
unregister_request id = take 127 (cmd_unregister ++ (id ++ codes "\n"))

unfoldable pub unregister_found : Link → Bytes → Search → Outcome
unregister_found link client s =
    let cmd = unregister_request s.id_candidate in
    if ltb 1 s.match_count
    then fails []
    else if not s.found
    then fails []
    else elim (send_and_receive link 4096) [
      | received bytes ↦ judge_unregister client (c_string bytes) (written link cmd)
      | failed ↦ fails (written link cmd)
      | nothing ↦ fails (written link cmd)
    ]

unfoldable pub ctrl_unregister : Link → Bytes → List Bytes → Outcome
ctrl_unregister link client lines =
    unregister_found link client (search_client client lines no_match)

-- The command and its arguments, `argv` from `optind` on.
unfoldable pub run_command : Link → ℕ → Bytes → List Bytes → Bytes → Outcome
run_command link max_clients cmd args text =
    let lines = status_lines_of max_clients text in
    if str_eq cmd (codes "reboot")
    then ctrl_reboot link text
    else if str_eq cmd (codes "status")
    then record { status = success; requests = []; shown = print_status false lines }
    else if str_eq cmd (codes "unregister")
    then elim args [ [] ↦ fails [] | client ∷ more ↦ ctrl_unregister link client lines ]
    else fails []

abbrev pub also_requested : List Bytes → Outcome → Outcome
also_requested cmds o = record o { requests = cmds ++ o.requests }

-- Behind the options, and the test for root.
unfoldable pub run_as_root : Link → Link → ℕ → List Bytes → Outcome
run_as_root status_link link max_clients [] = fails []
run_as_root status_link link max_clients (cmd ∷ args) = elim (send_and_receive status_link 4096) [
  | received bytes ↦
      also_requested (written status_link cmd_status)
        (run_command link max_clients cmd args (c_string bytes))
  | failed ↦ fails (written status_link cmd_status)
  | nothing ↦ fails (written status_link cmd_status)
]

pub data CtrlOpt : Type 0 where
  help_opt version_opt unknown_opt : CtrlOpt
  socket_path_opt : Bytes → CtrlOpt

-- The links of a socket path: for STATUS, and for the command.
unfoldable pub ctrl_main :
    (Bytes → Link × Link) → ℕ → ℕ → List CtrlOpt → Bytes → List Bytes → Outcome
ctrl_main links euid max_clients (help_opt ∷ opts) path args = record {
  status = success;
  requests = [];
  shown = [];
}
ctrl_main links euid max_clients (version_opt ∷ opts) path args = record {
  status = success;
  requests = [];
  shown = [];
}
ctrl_main links euid max_clients (unknown_opt ∷ opts) path args = fails []
ctrl_main links euid max_clients (socket_path_opt arg ∷ opts) path args =
    ctrl_main links euid max_clients opts arg args
ctrl_main links euid max_clients [] path args =
    if not (euid == 0) then fails [] else run_as_root (links path).0 (links path).1 max_clients args
