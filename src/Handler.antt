-- ===== src/Handler.antt =====
-- `handle_command` of src/wd-broker.c: one function for each command. The clock, the sources of
-- randomness, the peer's credentials and PACKAGE_VERSION (of the build) are arguments. Log messages
-- are left out.
pub mod Transition
pub mod Invariant
pub mod Unique
pub mod Strict
pub mod Permissions
use wd_broker.Prelude.{
  ℕ, Bool, true, false, not, ◌&&◌, ◌||◌, Option, none, some, List, [], ◌++◌, ltb, ◌==◌,
  if◌then◌else◌, length, get_or, drop, modify,
}
use wd_broker.Text.{
  Bytes, codes, is_space, is_print, str_eq, strncmp_eq, strncpy, c_string, all_bytes,
}
use wd_broker.Scan.{scan_word, scan_uint}
use wd_broker.Print.{print_int, Reply, sent}
use wd_broker.Common.{
  cmd_register, cmd_ping, cmd_unregister, cmd_reboot, cmd_status, cmd_version, Incoming, failed,
  nothing, received, read_with_timeout,
}
use wd_broker.Client.{
  Timespec, Client, Config, zero_client, client_name_len, client_timeout_min_ms,
  client_timeout_max_ms,
}
use wd_broker.ClientId.{Entropy, make_client_id, parsed, refused, parse_client_id}
use wd_broker.Slots.{
  get_client_instance_by_name, identified, pid_mismatch, not_found,
  get_client_instance_by_client_id,
}
use wd_broker.Status.{status_reply, version_reply}

-- The globals of the daemon and the client table.
pub record Broker : Type 0 where
  pub config : Config
  pub clients : List Client
  pub running : Bool
  pub reboot : Bool

pub record Env : Type 0 where
  pub now : Timespec
  pub entropy : Entropy
  pub package_version : Bytes

-- `struct ucred`
pub record Creds : Type 0 where
  pub pid : ℕ
  pub uid : ℕ

-- The result of the scan with WD_REGISTER_SCANF_FORMAT; `matched` is 0 for EOF too, which the code
-- treats alike.
pub record RegisterScan : Type 0 where
  pub matched : ℕ
  pub name : Bytes
  pub timeout : ℕ
  pub opt_flag : Bytes

unfoldable pub scan_register : Bytes → RegisterScan
scan_register s = elim (scan_word 63 s) [
  | none ↦ record { matched = 0; name = []; timeout = 0; opt_flag = [] }
  | some (name, r) ↦ elim (scan_uint r) [
    | none ↦ record { matched = 1; name = name; timeout = 0; opt_flag = [] }
    | some (timeout, r) ↦ elim (scan_word 15 r) [
      | none ↦ record { matched = 2; name = name; timeout = timeout; opt_flag = [] }
      | some (flag, r) ↦ elim (scan_word 15 r) [
        | none ↦ record { matched = 3; name = name; timeout = timeout; opt_flag = flag }
        | some extra ↦ record { matched = 4; name = name; timeout = timeout; opt_flag = flag }
      ]
    ]
  ]
]

abbrev pub valid_name_byte : ℕ → Bool
valid_name_byte c = is_print c && not (is_space c)

abbrev pub ignorepid : Bytes
ignorepid = codes "ignorepid"

-- Why the arguments of REGISTER are refused, before the search for a slot.
unfoldable pub register_error : RegisterScan → Option Bytes
register_error a =
    if ltb a.matched 2 || ltb 3 a.matched
    then some (codes "ERROR invalid REGISTER syntax\n")
    else if a.matched == 3 && not (str_eq a.opt_flag ignorepid)
    then some (codes "ERROR invalid REGISTER syntax\n")
    else if ltb a.timeout client_timeout_min_ms || ltb client_timeout_max_ms a.timeout
    then some (codes "ERROR invalid timeout\n")
    else if not (all_bytes valid_name_byte a.name)
    then some (codes "ERROR invalid client name\n")
    else none

-- The slot that a registration fills.
unfoldable pub register_client : Env → Creds → RegisterScan → Client → Client
register_client env creds a c = record {
  client_id = if c.anounced then c.client_id else make_client_id env.entropy;
  name = strncpy a.name client_name_len;
  pid = creds.pid;
  timeout_ms = a.timeout;
  last_ping = env.now;
  active = true;
  anounced = false;
  check_pid = not (a.matched == 3);
}

-- "OK %s\n"
abbrev pub ok_id : Client → Reply
ok_id c = sent (codes "OK " ++ c.client_id ++ codes "\n")

unfoldable pub register_name : Env → Creds → RegisterScan → Broker → Broker × Reply
register_name env creds a b = elim (get_client_instance_by_name b.config b.clients a.name) [
  | none ↦ (b, sent (codes "ERROR rejected\n"))
  | some k ↦ (
    record b { clients = modify b.clients k (register_client env creds a) },
    ok_id (register_client env creds a (get_or b.clients k zero_client)),
  )
]

unfoldable pub handle_register : Env → Creds → Bytes → Broker → Broker × Reply
handle_register env creds args b =
    let a = scan_register args in
    elim (register_error a) [
      | some message ↦ (b, sent message)
      | none ↦ register_name env creds a b
    ]

unfoldable pub ping_client : Env → Client → Client
ping_client env c = record c { last_ping = env.now }

unfoldable pub handle_ping : Env → Creds → Bytes → Broker → Broker × Reply
handle_ping env creds args b = elim (parse_client_id args) [
  | refused message ↦ (b, sent message)
  | parsed id ↦ elim (get_client_instance_by_client_id b.clients id creds.pid) [
    | identified k ↦
        (record b { clients = modify b.clients k (ping_client env) }, sent (codes "OK\n"))
    | pid_mismatch k ↦ (b, sent (codes "ERROR wrong PID\n"))
    | not_found ↦ (b, sent (codes "ERROR unknown clientID\n"))
  ]
]

unfoldable pub unregister_client : Client → Client
unregister_client c = record c { active = false; anounced = false }

abbrev unregistered : ℕ → Broker → Broker × Reply
unregistered k b =
    (record b { clients = modify b.clients k unregister_client }, sent (codes "OK\n"))

unfoldable pub handle_unregister : Creds → Bytes → Broker → Broker × Reply
handle_unregister creds args b = elim (parse_client_id args) [
  | refused message ↦ (b, sent message)
  | parsed id ↦ elim (get_client_instance_by_client_id b.clients id creds.pid) [
    | identified k ↦
        if b.config.strict_clients && not (creds.uid == 0)
        then (b, sent (codes "ERROR rejected\n"))
        else unregistered k b
    | pid_mismatch k ↦
        if creds.uid == 0 then unregistered k b else (b, sent (codes "ERROR no permission\n"))
    | not_found ↦ (b, sent (codes "ERROR unknown clientID\n"))
  ]
]

-- `sscanf(args, " %<n>s", extra) == 1`
abbrev pub has_extra : ℕ → Bytes → Bool
has_extra n args = elim (scan_word n args) [ none ↦ false | some extra ↦ true ]

unfoldable pub handle_reboot : Creds → Bytes → Broker → Broker × Reply
handle_reboot creds args b =
    if has_extra 15 args
    then (b, sent (codes "ERROR invalid syntax\n"))
    else if not (creds.uid == 0)
    then (b, sent (codes "ERROR no permission\n"))
    else (
      record b { running = false; reboot = true },
      sent (codes "OK, " ++ print_int b.config.reboot_timeout_s ++ codes "\n"),
    )

unfoldable pub handle_status : Env → Creds → Bytes → Broker → Broker × Reply
handle_status env creds args b =
    if has_extra 31 args
    then (b, sent (codes "ERROR invalid syntax\n"))
    else if not (creds.pid == 0) && not (creds.uid == 0)
    then (b, sent (codes "ERROR no permission\n"))
    else (b, status_reply env.package_version b.config b.clients)

unfoldable pub handle_version : Env → Bytes → Broker → Broker × Reply
handle_version env args b =
    if has_extra 31 args
    then (b, sent (codes "ERROR invalid syntax\n"))
    else (b, version_reply env.package_version)

-- The chain of `strncmp` on the text in the buffer.
unfoldable pub dispatch : Env → Creds → Bytes → Broker → Broker × Reply
dispatch env creds buf b =
    if strncmp_eq buf cmd_register (length cmd_register)
    then handle_register env creds (drop (length cmd_register) buf) b
    else if strncmp_eq buf cmd_ping (length cmd_ping)
    then handle_ping env creds (drop (length cmd_ping) buf) b
    else if strncmp_eq buf cmd_unregister (length cmd_unregister)
    then handle_unregister creds (drop (length cmd_unregister) buf) b
    else if strncmp_eq buf cmd_reboot (length cmd_reboot)
    then handle_reboot creds (drop (length cmd_reboot) buf) b
    else if strncmp_eq buf cmd_status (length cmd_status)
    then handle_status env creds (drop (length cmd_status) buf) b
    else if strncmp_eq buf cmd_version (length cmd_version)
    then handle_version env (drop (length cmd_version) buf) b
    else (b, sent (codes "ERROR unknown command\n"))

-- `creds` is `none` if `getsockopt` fails. The buffer has 128 bytes. Beside the reply `out_of_bounds` the
-- broker has no meaning: the memory behind the buffer of a reply may have been written.
unfoldable pub handle_command : Env → Option Creds → Incoming → Broker → Broker × Reply
handle_command env none incoming b = (b, sent (codes "ERROR reading peercred\n"))
handle_command env (some creds) incoming b = elim (read_with_timeout incoming 128) [
  | failed ↦ (b, sent (codes "ERROR no input\n"))
  | nothing ↦ (b, sent (codes "ERROR no input\n"))
  | received bytes ↦ dispatch env creds (c_string bytes) b
]
