-- ===== src/WdClient.antt =====
-- The client library, src/wd-client.c. A pointer to `wd_client_t` may be NULL. What the system calls of
-- one connection do is a `Link`; each call of the library tells what it wrote to the socket.
pub mod Session
pub mod Registration
pub mod Enrolment
pub mod Version
pub mod Refusal
use wd_broker.Prelude.{
  ℕ, ◌-◌, Bool, true, false, not, ◌||◌, Option, none, some, List, [], ◌∷◌, ◌++◌, ltb, if◌then◌else◌,
  length, take, drop,
}
use wd_broker.Text.{Bytes, codes, strncmp_eq, strncpy, c_string}
use wd_broker.Print.{print_nat}
use wd_broker.Common.{
  socket_prot_version, Incoming, ReadResult, failed, nothing, received, read_with_timeout,
}
use wd_broker.Client.{clientid_len, client_timeout_min_ms, client_timeout_max_ms}

abbrev pub client_status_len : ℕ
client_status_len = 256

-- `wd_client_t`
pub record WdClient : Type 0 where
  pub socket_path : Bytes
  pub name : Bytes
  pub client_id : Bytes
  pub status : Bytes

-- WD_CLIENT_OK to WD_CLIENT_EVERSION
pub data Code : Type 0 where
  done error invalid_parameter timed_out bad_version : Code

-- One connection: whether `socket`, `connect` and `write` succeed, what comes back, and the text of
-- `strerror(errno)`.
pub record Link : Type 0 where
  pub socket : Bool
  pub connect : Bool
  pub write : Bool
  pub response : Incoming
  pub strerror : Bytes

-- How a call ends: with a code, the client's new fields, and what was sent; or in an access
-- through NULL.
pub data Call : Type 0 where
  returned : Code → WdClient → List Bytes → Call
  crashed : Call

-- WD_SET_STATUS
abbrev pub set_status : Bytes → WdClient → WdClient
set_status text c = record c { status = take (client_status_len - 1) text }

-- WD_SET_STATUS(NULL, ...) stores through NULL.
abbrev pub fail : Code → Bytes → Option WdClient → Call
fail code text none = crashed
fail code text (some c) = returned code (set_status text c) []

unfoldable pub connect_to : Link → WdClient → Bytes → Option Code × WdClient
connect_to link c [] = (some invalid_parameter, set_status (codes "Invalid parameters") c)
connect_to link c (d ∷ path) =
    if not link.socket
    then (some error, set_status (codes "Failed to create socket: " ++ link.strerror) c)
    else if not link.connect
    then (
      some error,
      set_status
          (codes "Failed to connect to socket " ++ c.socket_path ++ codes ": " ++ link.strerror) c,
    )
    else (none, set_status (codes "Successfully connected via " ++ c.socket_path) c)

-- `none` stands for a socket, otherwise it is the negative value returned.
unfoldable pub wd_client_connect : Link → WdClient → Option Code × WdClient
unfolding connect_to
wd_client_connect link c = connect_to link c c.socket_path

-- What `strstr` finds, from behind the text that was looked for.
unfoldable pub after_strstr : Bytes → Bytes → Option Bytes
after_strstr [] prefix = none
after_strstr (c ∷ cs) prefix =
    let rest = after_strstr cs prefix in
    if strncmp_eq (c ∷ cs) prefix (length prefix)
    then some (drop (length prefix) (c ∷ cs))
    else rest

abbrev pub version_command : Bytes
version_command = codes "VERSION\n"

unfoldable pub check_version_text : Bytes → WdClient → Call
check_version_text buffer c = elim (after_strstr buffer (codes "protocol_version=")) [
  | none ↦
      returned error (set_status (codes "VERSION response malformed: " ++ buffer) c)
        (version_command ∷ [])
  | some ver ↦
      if not (strncmp_eq ver socket_prot_version (length socket_prot_version))
      then returned bad_version
          (set_status
            (codes "Incompatible protocol version "
              ++ ver
              ++ codes ", expect "
              ++ socket_prot_version)
            c)
          (version_command ∷ [])
      else returned done c (version_command ∷ [])
]

unfoldable pub wd_client_check_prot_version : Link → WdClient → Call
wd_client_check_prot_version link c =
    let (code, c) = wd_client_connect link c in
    elim code [
      | some code ↦ returned code c []
      | none ↦
          if not link.write
          then returned error
              (set_status (codes "Failed to send VERSION command: " ++ link.strerror) c) []
          else elim (read_with_timeout link.response 128) [
            | received bytes ↦ check_version_text (c_string bytes) c
            | failed ↦
                returned error (set_status (codes "Failed to read VERSION response") c)
                  (version_command ∷ [])
            | nothing ↦
                returned error (set_status (codes "Failed to read VERSION response") c)
                  (version_command ∷ [])
          ]
    ]

-- What the four calls do with one request: connect, write, read, and judge the response. `label` is
-- the command's name in the messages.
unfoldable pub request :
    Link → ℕ → Bytes → Bytes → (Bytes → WdClient → Code × WdClient) → WdClient → Call
request link size label cmd judge c =
    let (code, c) = wd_client_connect link c in
    elim code [
      | some code ↦ returned code c []
      | none ↦
          if not link.write
          then returned error
              (set_status (codes "Failed to send " ++ label ++ codes " command: " ++ link.strerror)
                c)
              []
          else elim (read_with_timeout link.response size) [
            | failed ↦
                returned error
                  (set_status
                    (codes "Failed to read " ++ label ++ codes " response: " ++ link.strerror) c)
                  (cmd ∷ [])
            | nothing ↦
                returned timed_out
                  (set_status (codes "Timeout while waiting for " ++ label ++ codes " response") c)
                  (cmd ∷ [])
            | received bytes ↦
                let (code, c) = judge (c_string bytes) c in returned code c (cmd ∷ [])
          ]
    ]

-- "REGISTER %s %u%s\n" in a buffer of 128 bytes
abbrev pub register_command : WdClient → ℕ → Bool → Bytes
register_command c timeout_ms ignore_pid = take 127 (
    codes "REGISTER "
    ++ (c.name
        ++ (codes " "
            ++ (print_nat timeout_ms
                ++ (if ignore_pid then codes " ignorepid\n" else codes "\n")))))

-- The id, cut to the array's length, with the NUL behind it.
abbrev pub store_id : Bytes → WdClient → WdClient
store_id response c = record c { client_id = strncpy (drop 3 response) (clientid_len - 1) }

unfoldable pub judge_register : Bytes → WdClient → Code × WdClient
judge_register response c =
    if strncmp_eq response (codes "OK ") 3
    then (
      done,
      set_status
          (codes "Client registered successfully with ID: " ++ (store_id response c).client_id)
          (store_id response c),
    )
    else (error, set_status (codes "REGISTER failed at wd-broker: " ++ response) c)

abbrev pub also_sent : List Bytes → Call → Call
also_sent xs (returned code c ys) = returned code c (xs ++ ys)
also_sent xs crashed = crashed

-- Behind the check of the protocol version.
unfoldable pub register_after : Link → ℕ → Bool → Call → Call
register_after link timeout_ms ignore_pid (returned done c xs) = also_sent xs (
    request link 128 (codes "REGISTER") (register_command c timeout_ms ignore_pid) judge_register c)
register_after link timeout_ms ignore_pid other = other

unfoldable pub is_empty : Bytes → Bool
is_empty [] = true
is_empty (c ∷ cs) = false

-- The library connects twice: for the version and for the command.
unfoldable pub wd_client_register : Link → Link → Option WdClient → ℕ → Bool → Call
unfolding is_empty
wd_client_register version_link link none timeout_ms ignore_pid =
    fail invalid_parameter (codes "Invalid parameters") none
wd_client_register version_link link (some c) timeout_ms ignore_pid =
    if is_empty c.name
    then fail invalid_parameter (codes "Invalid parameters") (some c)
    else if ltb timeout_ms client_timeout_min_ms || ltb client_timeout_max_ms timeout_ms
    then fail invalid_parameter (codes "Invalid timeout value") (some c)
    else register_after link timeout_ms ignore_pid (wd_client_check_prot_version version_link c)

unfoldable pub judge_ok : Bytes → Bytes → WdClient → Code × WdClient
judge_ok label response c =
    if strncmp_eq response (codes "OK") 2
    then (
      done,
      set_status
          (label
            ++ codes " successful for client "
            ++ c.name
            ++ codes " ("
            ++ c.client_id
            ++ codes ") ")
          c,
    )
    else (error, set_status (label ++ codes " failed at wd-broker: " ++ response) c)

-- "<COMMAND> %s\n" in a buffer of 64 bytes
abbrev pub id_command : Bytes → WdClient → Bytes
id_command command c = take 63 (command ++ (c.client_id ++ codes "\n"))

unfoldable pub wd_client_ping : Link → Option WdClient → Call
unfolding is_empty
wd_client_ping link none = fail invalid_parameter (codes "Invalid parameters") none
wd_client_ping link (some c) =
    if is_empty c.client_id
    then fail invalid_parameter (codes "Invalid parameters") (some c)
    else request link 64 (codes "PING") (id_command (codes "PING ") c) (judge_ok (codes "PING")) c

unfoldable pub wd_client_unregister : Link → Option WdClient → Call
unfolding is_empty
wd_client_unregister link none = fail invalid_parameter (codes "Invalid parameters") none
wd_client_unregister link (some c) =
    if is_empty c.client_id
    then fail invalid_parameter (codes "Invalid parameters") (some c)
    else request link 64 (codes "UNREGISTER") (id_command (codes "UNREGISTER ") c)
        (judge_ok (codes "UNREGISTER")) c
