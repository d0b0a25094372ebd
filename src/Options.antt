-- ===== src/Options.antt =====
-- The options of the daemon: the loop over `getopt_long` in `main` of src/wd-broker.c, and
-- `parse_syslog_facility`. What `getopt_long` returns in turn is a list.
pub mod Facility
use wd_broker.Prelude.{Bool, true, false, Option, none, some, List, [], ◌∷◌, if◌then◌else◌}
use wd_broker.Text.{Bytes, codes, str_eq}

pub data ExitCode : Type 0 where
  success failure : ExitCode

pub data SyslogFacility : Type 0 where
  log_daemon log_user : SyslogFacility
  log_local0 log_local1 log_local2 log_local3 log_local4 log_local5 log_local6 log_local7 :
      SyslogFacility

-- `none` for a text stands for NULL; `none` as the result for the end of the process.
unfoldable pub parse_syslog_facility : Option Bytes → Option SyslogFacility
parse_syslog_facility none = some log_daemon
parse_syslog_facility (some str) =
    if str_eq str (codes "LOG_USER")
    then some log_user
    else if str_eq str (codes "LOG_DAEMON")
    then some log_daemon
    else if str_eq str (codes "LOG_LOCAL0")
    then some log_local0
    else if str_eq str (codes "LOG_LOCAL1")
    then some log_local1
    else if str_eq str (codes "LOG_LOCAL2")
    then some log_local2
    else if str_eq str (codes "LOG_LOCAL3")
    then some log_local3
    else if str_eq str (codes "LOG_LOCAL4")
    then some log_local4
    else if str_eq str (codes "LOG_LOCAL5")
    then some log_local5
    else if str_eq str (codes "LOG_LOCAL6")
    then some log_local6
    else if str_eq str (codes "LOG_LOCAL7")
    then some log_local7
    else none

-- A value of `getopt_long`, with `optarg` where the option has an argument.
pub data Opt : Type 0 where
  config_opt user_opt facility_opt : Bytes → Opt
  daemonize_opt help_opt no_watchdog_opt version_opt unknown_opt : Opt

pub record Options : Type 0 where
  pub config_file : Bytes
  pub service_user : Bytes
  pub syslog_facility : SyslogFacility
  pub watchdog_enabled : Bool
  pub daemonize : Bool

-- The options, or the end of the process with an exit code.
pub data Parsed : Type 0 where
  options : Options → Parsed
  exits : ExitCode → Parsed

unfoldable pub with_facility : Option SyslogFacility → Options → Parsed
with_facility none o = exits failure
with_facility (some f) o = options (record o { syslog_facility = f })

unfoldable pub parse_option : Opt → Options → Parsed
unfolding with_facility
parse_option (config_opt arg) o = options (record o { config_file = arg })
parse_option daemonize_opt o = options (record o { daemonize = true })
parse_option help_opt o = exits success
parse_option no_watchdog_opt o = options (record o { watchdog_enabled = false })
parse_option (facility_opt arg) o = with_facility (parse_syslog_facility (some arg)) o
parse_option (user_opt arg) o = options (record o { service_user = arg })
parse_option version_opt o = exits success
parse_option unknown_opt o = exits failure

unfoldable pub parse_options : List Opt → Options → Parsed
parse_options [] o = options o
parse_options (x ∷ xs) o = elim (parse_option x o) [
  | options o' ↦ parse_options xs o'
  | exits code ↦ exits code
]

-- DEFAULT_CONFIG_PATH and SERVICE_USER_DEFAULT of the generated config.h.
pub record Defaults : Type 0 where
  pub config_path : Bytes
  pub service_user : Bytes

abbrev pub default_options : Defaults → Options
default_options d = record {
  config_file = d.config_path;
  service_user = d.service_user;
  syslog_facility = log_daemon;
  watchdog_enabled = true;
  daemonize = false;
}
