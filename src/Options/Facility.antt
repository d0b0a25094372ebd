-- ===== src/Options/Facility.antt =====
-- Which names of syslog facilities are accepted.
use wd_broker.Prelude.{◌≡◌, refl, some, ap, ◌∙◌, arith}
use wd_broker.Text.{Bytes, codes, str_eq, str_eq_iff}
use wd_broker.Options.{
  SyslogFacility, log_daemon, log_user, log_local0, log_local1, log_local2, log_local3, log_local4,
  log_local5, log_local6, log_local7, parse_syslog_facility,
}

-- The name that the help text lists.
abbrev pub facility_name : SyslogFacility → Bytes
facility_name log_daemon = codes "LOG_DAEMON"
facility_name log_user = codes "LOG_USER"
facility_name log_local0 = codes "LOG_LOCAL0"
facility_name log_local1 = codes "LOG_LOCAL1"
facility_name log_local2 = codes "LOG_LOCAL2"
facility_name log_local3 = codes "LOG_LOCAL3"
facility_name log_local4 = codes "LOG_LOCAL4"
facility_name log_local5 = codes "LOG_LOCAL5"
facility_name log_local6 = codes "LOG_LOCAL6"
facility_name log_local7 = codes "LOG_LOCAL7"

accepts_name : (f : SyslogFacility) → parse_syslog_facility (some (facility_name f)) ≡ some f
unfolding parse_syslog_facility str_eq
accepts_name log_daemon = refl
accepts_name log_user = refl
accepts_name log_local0 = refl
accepts_name log_local1 = refl
accepts_name log_local2 = refl
accepts_name log_local3 = refl
accepts_name log_local4 = refl
accepts_name log_local5 = refl
accepts_name log_local6 = refl
accepts_name log_local7 = refl

only_names :
    (s : Bytes) (f : SyslogFacility) → parse_syslog_facility (some s) ≡ some f → s ≡ facility_name f
unfolding parse_syslog_facility
only_names s f e = ground (
  arith,
  str_eq_iff s (codes "LOG_USER"),
  str_eq_iff s (codes "LOG_DAEMON"),
  str_eq_iff s (codes "LOG_LOCAL0"),
  str_eq_iff s (codes "LOG_LOCAL1"),
  str_eq_iff s (codes "LOG_LOCAL2"),
  str_eq_iff s (codes "LOG_LOCAL3"),
  str_eq_iff s (codes "LOG_LOCAL4"),
  str_eq_iff s (codes "LOG_LOCAL5"),
  str_eq_iff s (codes "LOG_LOCAL6"),
  str_eq_iff s (codes "LOG_LOCAL7"),
)

-- The texts that are accepted are the ten names of the help text, and each stands for its facility.
pub parse_syslog_facility-facility_name :
    (s : Bytes) (f : SyslogFacility)
    → (parse_syslog_facility (some s) ≡ some f → s ≡ facility_name f)
      × (s ≡ facility_name f → parse_syslog_facility (some s) ≡ some f)
parse_syslog_facility-facility_name s f =
    (only_names s f, λ e. ap (λ t. parse_syslog_facility (some t)) e ∙ accepts_name f)
