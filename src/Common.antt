-- ===== src/Common.antt =====
-- src/common.c and include/common.h: the names of the commands and `read_with_timeout`. What
-- `select` and `read` do is the environment's, and is an argument.
use wd_broker.Prelude.{ℕ, ◌-◌, [], ◌∷◌, take}
use wd_broker.Text.{Bytes, codes}

abbrev pub socket_prot_version : Bytes
socket_prot_version = codes "1.0"

abbrev pub cmd_register : Bytes
cmd_register = codes "REGISTER "

abbrev pub cmd_ping : Bytes
cmd_ping = codes "PING "

abbrev pub cmd_unregister : Bytes
cmd_unregister = codes "UNREGISTER "

abbrev pub cmd_reboot : Bytes
cmd_reboot = codes "REBOOT"

abbrev pub cmd_status : Bytes
cmd_status = codes "STATUS"

abbrev pub cmd_version : Bytes
cmd_version = codes "VERSION"

-- The peer's side of a connection: `select` fails, runs into its 500 ms, or finds the socket ready,
-- and then `read` fails or takes from the packet (the end of the stream is an empty one).
pub data Incoming : Type 0 where
  select_error : Incoming
  select_timeout : Incoming
  read_error : Incoming
  packet : Bytes → Incoming

-- The value of `read_with_timeout`: below 0, 0, or the length of what is now in the buffer.
pub data ReadResult : Type 0 where
  failed : ReadResult
  nothing : ReadResult
  received : Bytes → ReadResult

received_or_eof : Bytes → ReadResult
received_or_eof [] = nothing
received_or_eof (c ∷ cs) = received (c ∷ cs)

unfoldable pub read_with_timeout : Incoming → ℕ → ReadResult
unfolding received_or_eof
read_with_timeout select_error size = failed
read_with_timeout select_timeout size = nothing
read_with_timeout read_error size = failed
read_with_timeout (packet bytes) size = received_or_eof (take (size - 1) bytes)
