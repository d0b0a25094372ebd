-- ===== src/Lib.antt =====
-- wd-broker, a daemon that feeds the hardware watchdog as long as every registered client sends its
-- heartbeat in time, and the library by which clients talk to it.
--
-- How the parts work together. The daemon reads a configuration file, which fills part of the client
-- table with announced clients. Its main loop then waits for a command, for the timer, or for a
-- signal; a command goes through `handle_command`, which searches and changes the client table; after
-- each wait the loop checks every client's last heartbeat, and on the timer it feeds the watchdog if
-- all are in time. A missed heartbeat, or a reboot request by root, ends the loop and leaves the
-- watchdog armed, so that the hardware reboots the system.
--
-- The files, and the code they model:
--   Prelude, Text, Scan, Print: shared names; `<ctype.h>` and `<string.h>` on lists of bytes; the
--     conversions of `sscanf`, `strtol` and `atoi`, and of `snprintf`, that the sources use.
--   Client, ClientId, Slots: client_t and wd_config_t, make_clientID, parse_clientID, and the searches
--     get_clientInstance_by_name and get_clientInstance_by_clientID of src/wd-broker.c. The table is
--     a list of slots, a pointer to a slot is its index, and the list's length is WD_MAX_CLIENTS.
--   Registry: what the table stands for, the bag of its active and announced clients up to their
--     order, a quotient, and the commands as steps over it.
--   Common: src/common.c's read_with_timeout and the commands of include/common.h.
--   Handler, Status: handle_command, one function for each command; the replies to STATUS and VERSION
--     with the buffer's offset.
--   Heartbeat, Loop: ms_since, and main from the loop to its end. What select, accept, read, write and
--     the clock give in one turn of the loop is a `Round`, an argument; a run is a list of rounds, so
--     any finite stretch of the loop is covered and no fuel is needed. What the process does to the
--     watchdog and the socket is a list of `Effect`, at whose end stands `returned` if `main` returns.
--     A run ends where a round kills the process, or where the reply to STATUS or VERSION leaves its
--     buffer: what the C program does behind that is not defined, and nothing is said of it.
--   ConfigText, ConfigFile: trim and parse_config; the file's bytes, the clock, the randomness and the
--     build's constants are arguments, and a fatal error is a value.
--   Settings: a printer for configuration files, and that parse_config reads back what it prints.
--   Lifetime: the configuration file and the loop together; a child is about announced clients that
--     nobody registers.
--   WdClient: src/wd-client.c over what the system calls of one connection give; the library connects
--     anew for each request. Its children put a call and the broker's handler together and say when a
--     call is refused.
--   Options, Startup: main of src/wd-broker.c up to the loop. What getopt_long and each system call
--     return is an argument, which for `connect` may depend on the path; a start is a sequence of acts,
--     with the paths they touch, that ends the process or goes on.
--   Ctrl: src/wd-ctrl.c; its outcome is the exit code, the requests written and what is printed. Its
--     children put it and the broker's STATUS reply together.
--   ClientTest: the tests of src/wd-client-test.c and its main over the connections that they make, put
--     together with the broker's handler.
--   Log: log_message, log_bootstatus and the messages of a start from the opening of the watchdog on, of
--     src/wd-broker.c; the constants of
--     the system's headers and the text of the time are arguments.
--   Tests: runs at concrete inputs.
--
-- Machine integers: the conversions to `unsigned int` and to `int` wrap at 2 ^ 32, and `snprintf`'s
-- remaining size wraps at 2 ^ 64; `long` is exact, which is right for times of 200 million years. The
-- only fuel is in the printing of decimal digits, one more than the number, which has no more digits.
--
-- Not modelled: the other calls of log_message, whose text changes no state, the help texts, the padding
-- of what wd-ctrl prints, and the test scripts in Python.
pub mod Prelude
pub mod Text
pub mod Registry
pub mod Scan
pub mod Settings
pub mod Client
pub mod ClientTest
pub mod ClientId
pub mod Slots
pub mod Print
pub mod Common
pub mod Status
pub mod Handler
pub mod Heartbeat
pub mod Loop
pub mod ConfigText
pub mod ConfigFile
pub mod Lifetime
pub mod Log
pub mod Options
pub mod Startup
pub mod WdClient
pub mod Ctrl
mod Tests
