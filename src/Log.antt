-- ===== src/Log.antt =====
-- The log of the daemon, src/wd-broker.c: log_message and log_bootstatus. The constants of <syslog.h>
-- and <linux/watchdog.h>, and the clock's text, are arguments.
pub mod Boot
pub mod Start
use wd_broker.Prelude.{
  ℕ, zero, suc, ◌+◌, ◌-◌, ◌*◌, ◌/◌, ◌%◌, Bool, true, false, not, List, [], ◌∷◌, ◌++◌, leb, ◌==◌,
  if◌then◌else◌, length, take, replicate,
}
use wd_broker.Text.{Bytes, codes}
use wd_broker.Print.{print_nat}
use wd_broker.ClientId.{hex_digit}

-- LOG_EMERG to LOG_DEBUG
pub record Levels : Type 0 where
  pub emerg : ℕ
  pub alert : ℕ
  pub crit : ℕ
  pub err : ℕ
  pub warning : ℕ
  pub notice : ℕ
  pub info : ℕ
  pub debug : ℕ

unfoldable pub prio_str : Levels → ℕ → Bytes
prio_str l priority =
    if priority == l.emerg
    then codes "EMERG "
    else if priority == l.alert
    then codes "ALERT "
    else if priority == l.crit
    then codes "CRIT  "
    else if priority == l.err
    then codes "ERROR "
    else if priority == l.warning
    then codes "WARN  "
    else if priority == l.notice
    then codes "NOTICE"
    else if priority == l.info
    then codes "INFO  "
    else if priority == l.debug
    then codes "DEBUG "
    else codes "UNDEF "

-- Where a message goes.
pub data Logged : Type 0 where
  to_stdout : Bytes → Logged
  to_stderr : Bytes → Logged
  to_syslog : ℕ → Bytes → Logged

-- `daemonize`, what strftime writes for the local time, and the clock's microseconds.
pub record LogEnv : Type 0 where
  pub levels : Levels
  pub daemonize : Bool
  pub timestr : Bytes
  pub tv_usec : ℕ

-- "%06ld"
abbrev pub six_digits : ℕ → Bytes
six_digits n = replicate (6 - length (print_nat n)) b'0' ++ print_nat n

-- A line on the console.
unfoldable pub log_line : LogEnv → ℕ → Bytes → Bytes
unfolding prio_str
log_line e priority text =
    e.timestr
    ++ (codes "."
        ++ (six_digits e.tv_usec
            ++ (codes " ["
                ++ (prio_str e.levels priority ++ (codes "] " ++ (text ++ codes "\n"))))))

-- `text` is the format with its arguments.
unfoldable pub log_message : LogEnv → ℕ → Bytes → Logged
unfolding log_line
log_message e priority text =
    if not e.daemonize
    then if leb priority e.levels.warning
      then to_stdout (log_line e priority text)
      else to_stderr (log_line e priority text)
    else to_syslog priority text

-- `BootFlag`
pub record BootFlag : Type 0 where
  pub flag : ℕ
  pub name : Bytes

-- WDIOF_OVERHEAT to WDIOF_POWEROVER
pub record WatchdogFlags : Type 0 where
  pub overheat : ℕ
  pub fanfault : ℕ
  pub extern1 : ℕ
  pub extern2 : ℕ
  pub powerunder : ℕ
  pub cardreset : ℕ
  pub powerover : ℕ

abbrev pub bootflags : WatchdogFlags → List BootFlag
bootflags w =
    record { flag = w.overheat; name = codes " OVERHEAT" }
    ∷ record { flag = w.fanfault; name = codes " FANFAULT" }
    ∷ record { flag = w.extern1; name = codes " EXTERN1" }
    ∷ record { flag = w.extern2; name = codes " EXTERN2" }
    ∷ record { flag = w.powerunder; name = codes " POWERUNDER" }
    ∷ record { flag = w.cardreset; name = codes " CARDRESET" }
    ∷ record { flag = w.powerover; name = codes " POWEROVER" }
    ∷ []

-- `a & b` on words of so many bits
unfoldable pub and_word : ℕ → ℕ → ℕ → ℕ
and_word zero a b = 0
and_word (suc bits) a b = a % 2 * (b % 2) + 2 * and_word bits (a / 2) (b / 2)

-- `bootstatus & flag`, the status taken as the unsigned word that is printed.
abbrev pub is_set : ℕ → BootFlag → Bool
is_set bootstatus f = not (and_word 32 bootstatus f.flag == 0)

-- `char flags[128]`
abbrev pub flags_size : ℕ
flags_size = 128

-- `strncat(flags, name, sizeof(flags) - strlen(flags) - 1)`
abbrev pub append_name : Bytes → Bytes → Bytes
append_name flags name = flags ++ take (flags_size - length flags - 1) name

-- The loop over the table.
unfoldable pub append_flags : ℕ → List BootFlag → Bytes → Bytes
append_flags bootstatus [] flags = flags
append_flags bootstatus (f ∷ fs) flags =
    append_flags bootstatus fs (if is_set bootstatus f then append_name flags f.name else flags)

-- Behind the loop.
unfoldable pub or_none : Bytes → Bytes
or_none [] = take (flags_size - 1) (codes " none")
or_none (c ∷ flags) = c ∷ flags

-- So many lower-case hexadecimal digits.
unfoldable pub hex_digits : ℕ → ℕ → Bytes
unfolding hex_digit
hex_digits zero n = []
hex_digits (suc count) n = hex_digits count (n / 16) ++ hex_digit (n % 16) ∷ []

unfoldable pub log_bootstatus : LogEnv → WatchdogFlags → ℕ → Logged
unfolding log_message or_none append_flags hex_digits
log_bootstatus e w bootstatus = log_message e e.levels.info (
    codes "Boot status 0x"
    ++ (hex_digits 8 bootstatus
        ++ (codes ":" ++ or_none (append_flags bootstatus (bootflags w) []))))
