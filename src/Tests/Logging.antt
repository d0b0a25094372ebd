-- ===== src/Tests/Logging.antt =====
-- The log at concrete inputs.
use wd_broker.Prelude.{◌≡◌, refl, false}
use wd_broker.Text.{codes}
use wd_broker.Print.{print_nat}
use wd_broker.ClientId.{hex_digit}
use wd_broker.Log.{
  Levels, WatchdogFlags, LogEnv, to_stderr, prio_str, log_line, log_message, append_flags, or_none,
  and_word, hex_digits, log_bootstatus,
}
use wd_broker.Log.Boot.{log_bootstatus-set_names}

abbrev levels : Levels
levels = record {
  emerg = 0;
  alert = 1;
  crit = 2;
  err = 3;
  warning = 4;
  notice = 5;
  info = 6;
  debug = 7;
}

abbrev watchdog_flags : WatchdogFlags
watchdog_flags = record {
  overheat = 1;
  fanfault = 2;
  extern1 = 4;
  extern2 = 8;
  powerunder = 16;
  cardreset = 32;
  powerover = 64;
}

abbrev console : LogEnv
console = record {
  levels = levels;
  daemonize = false;
  timestr = codes "2026-01-01 00:00:00";
  tv_usec = 123;
}

log_line_value :
    log_bootstatus console watchdog_flags 33
    ≡ to_stderr
        (codes "2026-01-01 00:00:00.000123 [INFO  ] Boot status 0x00000021: OVERHEAT CARDRESET\n")
unfolding log_bootstatus log_message log_line prio_str append_flags or_none hex_digits hex_digit
    and_word print_nat
log_line_value = refl

log_bootstatus-set_names_example :
    log_bootstatus console watchdog_flags 33
    ≡ log_message console 6 (codes "Boot status 0x00000021: OVERHEAT CARDRESET")
unfolding hex_digits hex_digit and_word
log_bootstatus-set_names_example = log_bootstatus-set_names console watchdog_flags 33
