-- ===== src/WdClient/Session.antt =====
-- The client library and the broker together: what `wd_client_ping` and `wd_client_unregister` of
-- src/wd-client.c send, as `handle_command` of src/wd-broker.c takes it, and its reply back.
use wd_broker.Prelude.{
  ℕ, ◌≤◌, ◌≡◌, refl, ap, ◌∙◌, true, false, none, not, ◌&&◌, some, [], ◌∷◌, ◌++◌, arith, ◌==◌,
  length, length-append, take-eq_self, get_elem?, modify,
}
use wd_broker.Text.{Bytes, codes, all_bytes, is_space, str_eq, strncmp_eq, c_string}
use wd_broker.Print.{Reply, sent, out_of_bounds}
use wd_broker.Common.{Incoming, select_timeout, packet, read_with_timeout}
use wd_broker.Client.{Client}
use wd_broker.ClientId.{parsed, parse_client_id}
use wd_broker.ClientId.Laws.{is_lower_hex, IsClientId, parse_client_id_lem}
use wd_broker.Slots.First.{IsFirst}
use wd_broker.Slots.ById.{HasId, MayUse, identify-owned}
use wd_broker.Handler.{
  Broker, Env, Creds, ping_client, unregister_client, handle_ping, handle_unregister, dispatch,
  handle_command,
}
use wd_broker.WdClient.{
  WdClient, Link, Call, done, returned, crashed, id_command, request, connect_to, set_status,
  wd_client_connect, is_empty, judge_ok, wd_client_ping, wd_client_unregister,
}

-- What the client's socket has to read behind a reply.
abbrev pub answer : Reply → Incoming
answer (sent text) = packet text
answer out_of_bounds = select_timeout

-- A connection on which `socket`, `connect` and `write` succeed.
pub record Works (link : Link) : Type 0 where
  pub socket : link.socket ≡ true
  pub connect : link.connect ≡ true
  pub write : link.write ≡ true

-- WD_CLIENT_OK behind this one request, with the client's id and its path as they were.
abbrev pub Succeeds : Bytes → WdClient → Call → Type 0
Succeeds cmd c (returned code d sent_) =
    (code ≡ done)
    × (d.client_id ≡ c.client_id)
    × (d.socket_path ≡ c.socket_path)
    × (sent_ ≡ cmd ∷ [])
Succeeds cmd c crashed = ⊥

pub c_string-id :
    (id : Bytes) → all_bytes is_lower_hex id ≡ true → c_string (id ++ codes "\n") ≡ id ++ codes "\n"
unfolding c_string all_bytes
c_string-id [] h = refl
c_string-id (d ∷ id) h = ground (arith, c_string-id id (ground arith))

-- A short text reaches the dispatch as it was sent.
pub command_arrives :
    (env : Env) (creds : Creds) (b : Broker) (cmd : Bytes)
    → 1 ≤ length cmd
    → length cmd ≤ 127
    → c_string cmd ≡ cmd
    → handle_command env (some creds) (packet cmd) b ≡ dispatch env creds cmd b
unfolding handle_command read_with_timeout
command_arrives env creds b [] l h k = absurd (omega arith)
command_arrives env creds b (d ∷ cmd) l h k = rw (take-eq_self 126 cmd (omega arith), k) refl

dispatch-ping :
    (env : Env) (creds : Creds) (b : Broker) (args : Bytes)
    → dispatch env creds (codes "PING " ++ args) b ≡ handle_ping env creds args b
unfolding dispatch strncmp_eq str_eq
dispatch-ping env creds b args = refl

pub dispatch-unregister :
    (env : Env) (creds : Creds) (b : Broker) (args : Bytes)
    → dispatch env creds (codes "UNREGISTER " ++ args) b ≡ handle_unregister creds args b
unfolding dispatch strncmp_eq str_eq
dispatch-unregister env creds b args = refl

module _ (env : Env) (creds : Creds) (c : WdClient) (b : Broker) (id : IsClientId c.client_id) where
  ping_fits : id_command (codes "PING ") c ≡ codes "PING " ++ (c.client_id ++ codes "\n")
  ping_fits =
      take-eq_self 63 (codes "PING " ++ (c.client_id ++ codes "\n"))
        (omega (arith, length-append c.client_id (codes "\n"), id))

  unregister_fits :
      id_command (codes "UNREGISTER ") c ≡ codes "UNREGISTER " ++ (c.client_id ++ codes "\n")
  unregister_fits =
      take-eq_self 63 (codes "UNREGISTER " ++ (c.client_id ++ codes "\n"))
        (omega (arith, length-append c.client_id (codes "\n"), id))

  ping_arrives :
      handle_command env (some creds) (packet (id_command (codes "PING ") c)) b
      ≡ handle_ping env creds (c.client_id ++ codes "\n") b
  unfolding c_string
  ping_arrives =
      ap (λ cmd. handle_command env (some creds) (packet cmd) b) ping_fits
      ∙ command_arrives env creds b (codes "PING " ++ (c.client_id ++ codes "\n")) (omega arith)
          (omega (arith, length-append c.client_id (codes "\n"), id))
          (ap (λ s. codes "PING " ++ s) (c_string-id c.client_id id.1))
      ∙ dispatch-ping env creds b (c.client_id ++ codes "\n")

  unregister_arrives :
      handle_command env (some creds) (packet (id_command (codes "UNREGISTER ") c)) b
      ≡ handle_unregister creds (c.client_id ++ codes "\n") b
  unfolding c_string
  unregister_arrives =
      ap (λ cmd. handle_command env (some creds) (packet cmd) b) unregister_fits
      ∙ command_arrives env creds b (codes "UNREGISTER " ++ (c.client_id ++ codes "\n"))
          (omega arith) (omega (arith, length-append c.client_id (codes "\n"), id))
          (ap (λ s. codes "UNREGISTER " ++ s) (c_string-id c.client_id id.1))
      ∙ dispatch-unregister env creds b (c.client_id ++ codes "\n")

  id_is_read : parse_client_id (c.client_id ++ codes "\n") ≡ parsed c.client_id
  unfolding all_bytes is_space
  id_is_read = parse_client_id_lem [] c.client_id (codes "\n") refl id refl

  ping_taken :
      (k : ℕ) (cl : Client)
      → IsFirst (HasId c.client_id) b.clients k
      → get_elem? b.clients k ≡ some cl
      → MayUse creds.pid cl
      → handle_command env (some creds) (packet (id_command (codes "PING ") c)) b ≡ (
        record b { clients = modify b.clients k (λ x. record x { last_ping = env.now }) },
        sent (codes "OK\n"),
      )
  unfolding handle_ping ping_client
  ping_taken k cl f e m =
      rw
        (
          ping_arrives,
          handle_ping,
          id_is_read,
          identify-owned c.client_id creds.pid b.clients k cl f e m,
        )
        refl

  unregister_taken :
      (k : ℕ) (cl : Client)
      → IsFirst (HasId c.client_id) b.clients k
      → get_elem? b.clients k ≡ some cl
      → MayUse creds.pid cl
      → (b.config.strict_clients && not (creds.uid == 0)) ≡ false
      → handle_command env (some creds) (packet (id_command (codes "UNREGISTER ") c)) b ≡ (
        record b {
          clients = modify b.clients k (λ x. record x { active = false; anounced = false });
        },
        sent (codes "OK\n"),
      )
  unfolding handle_unregister unregister_client
  unregister_taken k cl f e m strict =
      rw
        (
          unregister_arrives,
          handle_unregister,
          id_is_read,
          identify-owned c.client_id creds.pid b.clients k cl f e m,
          strict,
        )
        refl

pub connect_to-Works :
    (link : Link) (c : WdClient) (path : Bytes)
    → Works link
    → is_empty path ≡ false
    → connect_to link c path
      ≡ (none, set_status (codes "Successfully connected via " ++ c.socket_path) c)
unfolding connect_to is_empty
connect_to-Works link c [] w e = absurd (cc)
connect_to-Works link c (d ∷ path) w e = rw (w.socket, w.connect) refl

request_answered :
    (link : Link) (label cmd : Bytes) (c : WdClient)
    → Works link
    → link.response ≡ packet (codes "OK\n")
    → is_empty c.socket_path ≡ false
    → Succeeds cmd c (request link 64 label cmd (judge_ok label) c)
unfolding request wd_client_connect read_with_timeout c_string judge_ok strncmp_eq str_eq
request_answered link label cmd c w r path =
    let k = connect_to-Works link c c.socket_path w path in
    rw (request, wd_client_connect, k, w.write, r)
      (refl, ap (λ z. z.1.client_id) k, ap (λ z. z.1.socket_path) k, refl)

pub not_empty : (id : Bytes) → IsClientId id → is_empty id ≡ false
unfolding is_empty
not_empty [] h = absurd (omega (arith, h))
not_empty (d ∷ id) h = refl

-- A client whose id is well formed, first held in the table by a live slot that the calling process
-- may use, pings the broker over a connection on which every system call succeeds: the broker notes
-- the time of the ping in that slot and changes nothing else, and the call, having written the one
-- request, returns WD_CLIENT_OK and keeps the id and the socket's path.
pub wd_client_ping-handle_command :
    (env : Env) (creds : Creds) (link : Link) (c : WdClient) (b : Broker) (k : ℕ) (cl : Client)
    → Works link
    → is_empty c.socket_path ≡ false
    → IsClientId c.client_id
    → IsFirst (HasId c.client_id) b.clients k
    → get_elem? b.clients k ≡ some cl
    → MayUse creds.pid cl
    → let cmd = id_command (codes "PING ") c in
      let (b', r) = handle_command env (some creds) (packet cmd) b in
      (b' ≡ record b { clients = modify b.clients k (λ x. record x { last_ping = env.now }) })
      × Succeeds cmd c (wd_client_ping (record link { response = answer r }) (some c))
unfolding wd_client_ping
wd_client_ping-handle_command env creds link c b k cl w path id f e m =
    let taken = ping_taken env creds c b id k cl f e m in
    let link' : Link = record link { response = packet (codes "OK\n") } in
    let w' : Works link' = record { socket = w.socket; connect = w.connect; write = w.write } in
    rw (taken, not_empty c.client_id id)
      (refl, request_answered link' (codes "PING") (id_command (codes "PING ") c) c w' refl path)

-- A client whose id is well formed, first held in the table by a live slot that the calling process
-- may use, unregisters over a connection on which every system call succeeds, as root if
-- `strict_clients` is set: the broker frees the slot and changes nothing else, and the call, having
-- written the one request, returns WD_CLIENT_OK and keeps the id and the socket's path.
pub wd_client_unregister-handle_command :
    (env : Env) (creds : Creds) (link : Link) (c : WdClient) (b : Broker) (k : ℕ) (cl : Client)
    → Works link
    → is_empty c.socket_path ≡ false
    → IsClientId c.client_id
    → IsFirst (HasId c.client_id) b.clients k
    → get_elem? b.clients k ≡ some cl
    → MayUse creds.pid cl
    → (b.config.strict_clients && not (creds.uid == 0)) ≡ false
    → let cmd = id_command (codes "UNREGISTER ") c in
      let (b', r) = handle_command env (some creds) (packet cmd) b in
      (b' ≡ record b {
        clients = modify b.clients k (λ x. record x { active = false; anounced = false });
      })
      × Succeeds cmd c (wd_client_unregister (record link { response = answer r }) (some c))
unfolding wd_client_unregister
wd_client_unregister-handle_command env creds link c b k cl w path id f e m strict =
    let taken = unregister_taken env creds c b id k cl f e m strict in
    let link' : Link = record link { response = packet (codes "OK\n") } in
    let w' : Works link' = record { socket = w.socket; connect = w.connect; write = w.write } in
    rw (taken, not_empty c.client_id id)
      (
        refl,
        request_answered link' (codes "UNREGISTER") (id_command (codes "UNREGISTER ") c) c w' refl
            path,
      )
