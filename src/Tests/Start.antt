-- ===== src/Tests/Start.antt =====
-- A start by root, with the sample configuration file and a stale socket.
use wd_broker.Prelude.{◌≡◌, refl, true, false, some, List, [], ◌∷◌, if◌then◌else◌, none}
use wd_broker.Prelude.Int.{pos}
use wd_broker.Text.{codes, str_eq}
use wd_broker.ConfigFile.{timer_period_s}
use wd_broker.Heartbeat.{trunc_div}
use wd_broker.Options.{
  Opt, daemonize_opt, facility_opt, Options, log_local0, log_daemon, parse_option, parse_options,
  parse_syslog_facility,
}
use wd_broker.Startup.{
  Act, arm_timer, unlink_socket, bind_socket, listen_socket, chmod_socket, chown_socket,
  open_watchdog, set_timeout, drop_groups, set_gid, set_uid, detach, goes, regular, sock, Stat,
  refused, child, System, Started, startup, load_config, read_options, check_service_user,
  check_config_file, claim_socket_path, create_socket, open_device, drop_privileges, go_background,
}
use wd_broker.Startup.Trace.{IsStarted, startup-IsStarted}
use wd_broker.Startup.Privileges.{Identity, IsUnprivileged, identity_after, identity_after-startup}
use wd_broker.Startup.Acts.{AllAllowed, acts_of, startup-AllAllowed}
use wd_broker.Tests.Configuration.{world, build, file, loaded, sample_accepted}

abbrev defaults : Options
defaults = record {
  config_file = codes "/etc/wd";
  service_user = codes "wd";
  syslog_facility = log_daemon;
  watchdog_enabled = true;
  daemonize = false;
}

abbrev config_stat : Stat
config_stat = record { file_type = regular; uid = 7; mode = 384 }

abbrev socket_stat : Stat
socket_stat = record { file_type = sock; uid = 7; mode = 432 }

abbrev system : System
system = record {
  euid = 0;
  login_name_max = 256;
  getpwnam = λ name. some (record { uid = 7; gid = 8 });
  lstat = λ path. if str_eq path (codes "/etc/wd") then some config_stat else some socket_stat;
  read_file = λ path. some file;
  timerfd_settime = true;
  probe_socket = true;
  probe_connect = λ path. refused;
  unlink = true;
  bind = true;
  listen = true;
  chmod = true;
  chown = true;
  open_watchdog = true;
  set_timeout = true;
  setgroups = true;
  setgid = true;
  setuid = true;
  fork = child;
  setsid = true;
  chdir = true;
}

abbrev opts : List Opt
opts = facility_opt (codes "LOG_LOCAL0") ∷ daemonize_opt ∷ []

abbrev started : Started
started = record {
  options = record defaults { syslog_facility = log_local0; daemonize = true };
  passwd = record { uid = 7; gid = 8 };
  parser = loaded;
}

abbrev started_acts : List Act
started_acts =
    arm_timer (pos 5)
    ∷ unlink_socket (codes "/run/s")
    ∷ bind_socket (codes "/run/s")
    ∷ listen_socket
    ∷ chmod_socket (codes "/run/s") 432
    ∷ chown_socket (codes "/run/s") 7 8
    ∷ open_watchdog
    ∷ set_timeout (pos 10)
    ∷ drop_groups
    ∷ set_gid 8
    ∷ set_uid 7
    ∷ detach
    ∷ []

-- Evaluation of the model.
sample_loaded :
    load_config system world build (codes "/etc/wd") ≡ goes loaded (arm_timer (pos 5) ∷ [])
unfolding load_config timer_period_s trunc_div
sample_loaded = rw (load_config, sample_accepted) refl

sample_started : startup system world build opts defaults ≡ goes started started_acts
unfolding startup read_options check_service_user check_config_file claim_socket_path create_socket
    open_device drop_privileges go_background parse_option parse_options parse_syslog_facility
    str_eq
sample_started = rw (startup, sample_loaded) refl

startup-IsStarted_example : IsStarted system world build opts defaults started started_acts
startup-IsStarted_example =
    startup-IsStarted system world build opts defaults started started_acts sample_started

abbrev root_identity : Identity
root_identity = record { uid = 0; gid = 0; no_groups = false }

identity_after-startup_example :
    IsUnprivileged system started root_identity (identity_after started_acts root_identity)
identity_after-startup_example =
    identity_after-startup system world build opts defaults started started_acts root_identity
      sample_started refl

startup-AllAllowed_example :
    AllAllowed system
      (record { removed = none; bound = false; dropped = false })
      (acts_of (startup system world build opts defaults))
startup-AllAllowed_example = startup-AllAllowed system world build opts defaults
