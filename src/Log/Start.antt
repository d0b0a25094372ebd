-- ===== src/Log/Start.antt =====
-- The messages of a start, in main of src/wd-broker.c: that of the opened watchdog, and those right before
-- the loop.
use wd_broker.Prelude.{ℕ, List, [], ◌∷◌, ◌++◌, if◌then◌else◌}
use wd_broker.Text.{Bytes, codes}
use wd_broker.Scan.{signed32}
use wd_broker.Print.{print_int}
use wd_broker.Client.{Client, Config}
use wd_broker.Log.{Logged, LogEnv, WatchdogFlags, log_message, log_bootstatus}

-- The watchdog, if it is used: the text of the error of WDIOC_GETBOOTSTATUS, or the boot status.
pub data Device : Type 0 where
  test_mode : Device
  status_failed : Bytes → Device
  status_read : ℕ → Device

-- The message for an announced client; "%d" takes the timeout as an `int`.
unfoldable pub announcement : LogEnv → Client → Logged
announcement e c = log_message e e.levels.info (
    codes "Client '"
    ++ (c.name
        ++ (codes "' announced, expected within "
            ++ (print_int (signed32 c.timeout_ms) ++ codes " ms"))))

-- The loop over the table, which ends at the first slot that is not announced.
unfoldable pub announcements : LogEnv → List Client → List Logged
unfolding announcement
announcements e [] = []
announcements e (c ∷ cs) =
    let rest = announcement e c ∷ announcements e cs in if c.anounced then rest else []

unfoldable pub device_messages : LogEnv → WatchdogFlags → Config → Device → List Logged
device_messages e w config test_mode =
    log_message e e.levels.info (codes "Running in test mode, no hardware watchdog used") ∷ []
device_messages e w config (status_failed error) =
    log_message e e.levels.info
      (codes "Hardware watchdog timeout: " ++ (print_int config.wd_timeout_s ++ codes " seconds"))
    ∷ log_message e e.levels.err (codes "Failed to get boot status: " ++ error)
    ∷ []
device_messages e w config (status_read bootstatus) =
    log_message e e.levels.info
      (codes "Hardware watchdog timeout: " ++ (print_int config.wd_timeout_s ++ codes " seconds"))
    ∷ log_bootstatus e w bootstatus
    ∷ []

-- The message behind the opening of the watchdog.
unfoldable pub opened_messages : LogEnv → Device → List Logged
opened_messages e test_mode = []
opened_messages e (status_failed error) =
    log_message e e.levels.info (codes "Opened hardware watchdog device /dev/watchdog") ∷ []
opened_messages e (status_read bootstatus) =
    log_message e e.levels.info (codes "Opened hardware watchdog device /dev/watchdog") ∷ []

unfoldable pub start_messages :
    LogEnv → WatchdogFlags → Bytes → Device → Config → List Client → List Logged
unfolding announcements device_messages opened_messages
start_messages e w version device config clients =
    opened_messages e device
    ++ (log_message e e.levels.notice
          (codes "wd-broker v" ++ (version ++ (codes " started on socket " ++ config.socket_path)))
        ∷ (device_messages e w config device ++ announcements e clients))

-- The messages in front of those of the clients: of the watchdog, if it is used, that it was opened; the
-- version and the socket's path; and the watchdog's timeout with the boot status or the error of reading
-- it, or that no watchdog is used.
abbrev pub preamble : LogEnv → WatchdogFlags → Bytes → Config → Device → List Logged
preamble e w version config test_mode =
    log_message e e.levels.notice
      (codes "wd-broker v" ++ (version ++ (codes " started on socket " ++ config.socket_path)))
    ∷ log_message e e.levels.info (codes "Running in test mode, no hardware watchdog used")
    ∷ []
preamble e w version config (status_failed error) =
    log_message e e.levels.info (codes "Opened hardware watchdog device /dev/watchdog")
    ∷ log_message e e.levels.notice
        (codes "wd-broker v" ++ (version ++ (codes " started on socket " ++ config.socket_path)))
    ∷ log_message e e.levels.info
        (codes "Hardware watchdog timeout: " ++ (print_int config.wd_timeout_s ++ codes " seconds"))
    ∷ log_message e e.levels.err (codes "Failed to get boot status: " ++ error)
    ∷ []
preamble e w version config (status_read bootstatus) =
    log_message e e.levels.info (codes "Opened hardware watchdog device /dev/watchdog")
    ∷ log_message e e.levels.notice
        (codes "wd-broker v" ++ (version ++ (codes " started on socket " ++ config.socket_path)))
    ∷ log_message e e.levels.info
        (codes "Hardware watchdog timeout: " ++ (print_int config.wd_timeout_s ++ codes " seconds"))
    ∷ log_bootstatus e w bootstatus
    ∷ []

-- Every announced client of a table, wherever it stands.
abbrev pub announced_clients : List Client → List Client
announced_clients [] = []
announced_clients (c ∷ cs) =
    let rest = announced_clients cs in if c.anounced then c ∷ rest else rest
