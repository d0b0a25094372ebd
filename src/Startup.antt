-- ===== src/Startup.antt =====
-- `main` of src/wd-broker.c up to its loop. What the system calls return is a `System`; what the
-- process does with files, sockets, the watchdog and its own identity is a list of acts, in their
-- order.
pub mod Trace
pub mod Privileges
pub mod Acts
use wd_broker.Prelude.{
  ℕ, ◌/◌, ◌%◌, ◌^◌, Bool, true, false, not, ◌&&◌, ◌||◌, Option, none, some, List, [], ◌∷◌, ◌++◌,
  ltb, ◌==◌, if◌then◌else◌, length,
}
use wd_broker.Prelude.Int.{ℤ}
use wd_broker.Text.{Bytes}
use wd_broker.Client.{Config}
use wd_broker.ConfigFile.{Build, World, Parser, ok, fatal, parse_config, timer_period_s}
use wd_broker.Options.{ExitCode, success, failure, Opt, Options, options, exits, parse_options}

pub data Act : Type 0 where
  arm_timer : ℤ → Act
  unlink_socket bind_socket : Bytes → Act
  listen_socket : Act
  chmod_socket : Bytes → ℕ → Act
  chown_socket : Bytes → ℕ → ℕ → Act
  open_watchdog : Act
  set_timeout : ℤ → Act
  drop_groups : Act
  set_gid set_uid : ℕ → Act
  detach : Act

-- A stretch of `main`: it ends the process, or goes on with a value.
pub data Run (A : Type 0) : Type 0 where
  ends : ExitCode → List Act → Run A
  goes : A → List Act → Run A

abbrev pub behind : {A : Type 0} → List Act → Run A → Run A
behind acts (ends code more) = ends code (acts ++ more)
behind acts (goes a more) = goes a (acts ++ more)

infixl 5 ◌>>=◌ ◌>>◌
abbrev pub ◌>>=◌ : {A B : Type 0} → Run A → (A → Run B) → Run B
ends code acts >>= f = ends code acts
goes a acts >>= f = behind acts (f a)

abbrev pub ◌>>◌ : {B : Type 0} → Run (Unit {0}) → Run B → Run B
m >> k = m >>= λ _. k

-- `fatal_error` and `fatal_errno`, where the test holds.
abbrev pub fatal_if : Bool → Run (Unit {0})
fatal_if b = if b then ends failure [] else goes tt []

-- A system call that succeeds, or ends the process.
abbrev pub must : Bool → Act → Run (Unit {0})
must b act = if b then goes tt (act ∷ []) else ends failure []

-- `struct passwd`
pub record Passwd : Type 0 where
  pub uid : ℕ
  pub gid : ℕ

pub data FileType : Type 0 where
  regular symlink sock other : FileType

-- `struct stat`; `mode` is the part of `st_mode` with the permissions.
pub record Stat : Type 0 where
  pub file_type : FileType
  pub uid : ℕ
  pub mode : ℕ

-- `connect` on the probe: it succeeds, fails with ECONNREFUSED, or with another error.
pub data Probe : Type 0 where
  answered refused probe_error : Probe

-- `fork`: its error, and its return in either process.
pub data Fork : Type 0 where
  fork_error parent child : Fork

-- `lstat` is `none` if it fails; `probe_connect` is `connect` to the socket at this path; a Boolean is whether the call succeeds.
pub record System : Type 0 where
  pub euid : ℕ
  pub login_name_max : ℕ
  pub getpwnam : Bytes → Option Passwd
  pub lstat : Bytes → Option Stat
  pub read_file : Bytes → Option Bytes
  pub timerfd_settime : Bool
  pub probe_socket : Bool
  pub probe_connect : Bytes → Probe
  pub unlink : Bool
  pub bind : Bool
  pub listen : Bool
  pub chmod : Bool
  pub chown : Bool
  pub open_watchdog : Bool
  pub set_timeout : Bool
  pub setgroups : Bool
  pub setgid : Bool
  pub setuid : Bool
  pub fork : Fork
  pub setsid : Bool
  pub chdir : Bool

abbrev pub started_as_root : System → Bool
started_as_root sys = sys.euid == 0

abbrev or_fatal : {A : Type 0} → Option A → Run A
or_fatal none = ends failure []
or_fatal (some a) = goes a []

unfoldable pub read_options : List Opt → Options → Run Options
read_options opts o = elim (parse_options opts o) [
  | options o' ↦ goes o' []
  | exits code ↦ ends code []
]

-- The service user. Its name is checked behind `getpwnam`.
unfoldable pub check_service_user : System → Bytes → Run Passwd
check_service_user sys name = do
  fatal_if (length name == 0 || ltb sys.login_name_max (length name))
  pw ← or_fatal (sys.getpwnam name)
  fatal_if (pw.uid == 0)
  goes pw []

abbrev pub is_regular : FileType → Bool
is_regular regular = true
is_regular _ = false

abbrev pub is_symlink : FileType → Bool
is_symlink symlink = true
is_symlink _ = false

abbrev pub is_sock : FileType → Bool
is_sock sock = true
is_sock _ = false

-- `(mode & 022) != 0`
abbrev pub writable_by_others : ℕ → Bool
writable_by_others mode = mode / 2 ^ 4 % 2 == 1 || mode / 2 % 2 == 1

unfoldable pub check_config_file : System → Bytes → Passwd → Run (Unit {0})
check_config_file sys path pw = do
  st ← or_fatal (sys.lstat path)
  fatal_if (not (is_regular st.file_type))
  fatal_if (is_symlink st.file_type)
  fatal_if (not (st.uid == pw.uid))
  fatal_if (writable_by_others st.mode)

-- `parse_config`, and the timer at half of the watchdog's timeout.
unfoldable pub load_config : System → World → Build → Bytes → Run Parser
load_config sys world build path = elim (parse_config world build (sys.read_file path)) [
  | fatal why line ↦ ends failure []
  | ok p ↦ must sys.timerfd_settime (arm_timer (timer_period_s p.config)) >> goes p []
]

unfoldable pub probe_and_unlink : System → Bytes → Run (Unit {0})
probe_and_unlink sys path = elim (sys.probe_connect path) [
  | answered ↦ ends failure []
  | probe_error ↦ ends failure []
  | refused ↦ must sys.unlink (unlink_socket path)
]

-- A socket file from an earlier run goes, if no process answers on it.
unfoldable pub claim_socket_path : System → Bytes → Run (Unit {0})
unfolding probe_and_unlink
claim_socket_path sys path = elim (sys.lstat path) [
  | none ↦ goes tt []
  | some st ↦ do
    fatal_if (not (is_sock st.file_type))
    fatal_if (not sys.probe_socket)
    probe_and_unlink sys path
]

unfoldable pub create_socket : System → Bytes → Passwd → Run (Unit {0})
create_socket sys path pw = do
  must sys.bind (bind_socket path)
  must sys.listen listen_socket
  must sys.chmod (chmod_socket path 432)
  if started_as_root sys then must sys.chown (chown_socket path pw.uid pw.gid) else goes tt []

unfoldable pub open_device : System → Options → Config → Run (Unit {0})
open_device sys o config =
    if o.watchdog_enabled
    then (fatal_if (not (started_as_root sys))
        >> must sys.open_watchdog open_watchdog
        >> must sys.set_timeout (set_timeout config.wd_timeout_s))
    else goes tt []

unfoldable pub drop_privileges : System → Passwd → Run (Unit {0})
drop_privileges sys pw =
    if started_as_root sys
    then (must sys.setgroups drop_groups
        >> must sys.setgid (set_gid pw.gid)
        >> must sys.setuid (set_uid pw.uid))
    else goes tt []

-- The parent exits; the child leaves the terminal.
unfoldable pub go_background : System → Options → Run (Unit {0})
go_background sys o =
    if o.daemonize
    then elim (sys.fork) [
      | fork_error ↦ ends failure []
      | parent ↦ ends success []
      | child ↦ must sys.setsid detach >> fatal_if (not sys.chdir)
    ]
    else goes tt []

-- What `main` has when it enters its loop.
pub record Started : Type 0 where
  pub options : Options
  pub passwd : Passwd
  pub parser : Parser

unfoldable pub startup : System → World → Build → List Opt → Options → Run Started
startup sys world build opts defaults = do
  o ← read_options opts defaults
  pw ← check_service_user sys o.service_user
  check_config_file sys o.config_file pw
  p ← load_config sys world build o.config_file
  claim_socket_path sys p.config.socket_path
  create_socket sys p.config.socket_path pw
  open_device sys o p.config
  drop_privileges sys pw
  go_background sys o
  goes (record { options = o; passwd = pw; parser = p }) []
