-- ===== src/Tests/Sessions.antt =====
-- The client library against the broker on the sample table.
use wd_broker.Prelude.{◌≡◌, refl, true, false, some, ◌++◌, inr, arith, [], ◌∷◌, modify}
use wd_broker.Text.{codes, all_bytes, is_print, is_space, c_string, str_eq, strncmp_eq}
use wd_broker.Common.{socket_prot_version, select_timeout, packet, read_with_timeout}
use wd_broker.Handler.{register_name, register_client, handle_command}
use wd_broker.ClientId.Laws.{IsClientId}
use wd_broker.WdClient.{
  WdClient, Link, set_status, done, returned, connect_to, wd_client_connect, after_strstr,
  check_version_text, wd_client_check_prot_version, wd_client_register, id_command,
  register_command, is_empty, wd_client_ping, wd_client_unregister,
}
use wd_broker.WdClient.Session.{
  Works, Succeeds, answer, wd_client_ping-handle_command, wd_client_unregister-handle_command,
}
use wd_broker.WdClient.Registration.{IsName, request_of, handle_command-register_command}
use wd_broker.WdClient.Enrolment.{Enrolled, wd_client_register-handle_command}
use wd_broker.Handler.Invariant.{SlotInv}
use wd_broker.Client.{zero_client}
use wd_broker.Slots.{get_client_instance_by_name}
use wd_broker.WdClient.{version_command}
use wd_broker.WdClient.Version.{wd_client_check_prot_version-handle_command}
use wd_broker.Tests.Data.{alpha, table, broker, env, owner, stranger}

abbrev client : WdClient
client = record {
  socket_path = codes "/run/s";
  name = codes "alpha";
  client_id = codes "00112233445566ff";
  status = [];
}

abbrev pub link : Link
link = record {
  socket = true;
  connect = true;
  write = true;
  response = select_timeout;
  strerror = [];
}

pub link-Works : Works link
link-Works = record { socket = refl; connect = refl; write = refl }

client-IsClientId : IsClientId client.client_id
unfolding all_bytes
client-IsClientId = (refl, refl)

wd_client_ping-handle_command_example :
    let cmd = id_command (codes "PING ") client in
    let (b', r) = handle_command env (some owner) (packet cmd) (broker true true) in
    (b' ≡ record (broker true true) {
      clients = modify table 0 (λ x. record x { last_ping = env.now });
    })
    × Succeeds cmd client (wd_client_ping (record link { response = answer r }) (some client))
unfolding is_empty
wd_client_ping-handle_command_example =
    wd_client_ping-handle_command env owner link client (broker true true) 0 alpha link-Works refl
      client-IsClientId (refl, refl) refl (inr refl)

wd_client_unregister-handle_command_example :
    let cmd = id_command (codes "UNREGISTER ") client in
    let (b', r) = handle_command env (some owner) (packet cmd) (broker false true) in
    (b' ≡ record (broker false true) {
      clients = modify table 0 (λ x. record x { active = false; anounced = false });
    })
    × Succeeds cmd client (wd_client_unregister (record link { response = answer r }) (some client))
unfolding is_empty
wd_client_unregister-handle_command_example =
    wd_client_unregister-handle_command env owner link client (broker false true) 0 alpha link-Works
      refl client-IsClientId (refl, refl) refl (inr refl) refl

client-IsName : IsName client.name
unfolding all_bytes is_print is_space is_empty
client-IsName = record { there = refl; fits = omega arith; bytes = refl }

handle_command-register_command_example :
    handle_command env (some owner) (packet (register_command client 7000 true)) (broker false true)
    ≡ register_name env owner (request_of (codes "alpha") 7000 true) (broker false true)
handle_command-register_command_example =
    handle_command-register_command env owner client (broker false true) 7000 true client-IsName
      (omega arith) (omega arith)

-- A client without an id yet, and the connection on which it asks for the version.
abbrev newcomer : WdClient
newcomer = record client { name = codes "gamma"; client_id = [] }

abbrev version_link : Link
version_link = record link {
  response = packet (codes "wd-broker_version=1.2\nprotocol_version=" ++ socket_prot_version);
}

abbrev connected : WdClient
connected = set_status (codes "Successfully connected via /run/s") newcomer

version_accepted :
    wd_client_check_prot_version version_link newcomer
    ≡ returned done connected (codes "VERSION\n" ∷ [])
unfolding wd_client_check_prot_version wd_client_connect connect_to read_with_timeout c_string
    check_version_text after_strstr strncmp_eq str_eq
version_accepted = refl

connected-IsName : IsName connected.name
unfolding all_bytes is_print is_space is_empty
connected-IsName = record { there = refl; fits = omega arith; bytes = refl }

zero_client-SlotInv : SlotInv zero_client
unfolding all_bytes is_print is_space
zero_client-SlotInv = ground arith

wd_client_register-handle_command_example :
    let s = register_client env stranger (request_of (codes "gamma") 7000 false) in
    let (b', r) =
      handle_command env
        (some stranger)
        (packet (register_command connected 7000 false))
        (broker false true) in
    (b' ≡ record (broker false true) { clients = modify table 2 s })
    × IsClientId (s zero_client).client_id
    × Enrolled (s zero_client).client_id connected.socket_path (
        wd_client_register version_link
          (record link { response = answer r })
          (some newcomer)
          7000
          false)
unfolding is_empty get_client_instance_by_name str_eq
wd_client_register-handle_command_example =
    wd_client_register-handle_command env stranger version_link link newcomer connected
      (codes "VERSION\n" ∷ []) (broker false true) 7000 false 2 zero_client refl version_accepted
      link-Works refl connected-IsName (omega arith) (omega arith) refl refl zero_client-SlotInv

wd_client_check_prot_version-handle_command_example :
    let (b', r) = handle_command env (some stranger) (packet version_command) (broker true true) in
    (b' ≡ broker true true)
    × (wd_client_check_prot_version (record link { response = answer r }) newcomer
        ≡ returned done
            (set_status (codes "Successfully connected via /run/s") newcomer)
            (version_command ∷ []))
unfolding is_empty all_bytes is_print is_space
wd_client_check_prot_version-handle_command_example =
    wd_client_check_prot_version-handle_command env stranger link newcomer (broker true true)
      link-Works refl (omega arith) refl refl
