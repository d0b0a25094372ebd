-- ===== src/WdClient/Enrolment.antt =====
-- A registration from `wd_client_register` of src/wd-client.c through `handle_command` of
-- src/wd-broker.c and back.
use wd_broker.Prelude.{
  ℕ, ◌≤◌, ◌≡◌, refl, ap, ◌∙◌, Bool, false, ◌||◌, some, List, ◌++◌, arith, ltb, length-append,
  take-eq_self, take-append_self, get_elem?, get_or-get_elem?, modify, Bool-cases, inl, inr,
}
use wd_broker.Text.{Bytes, codes, str_eq, strncmp_eq, c_string}
use wd_broker.Common.{packet, received, read_with_timeout}
use wd_broker.Client.{Client, zero_client}
use wd_broker.ClientId.Laws.{IsClientId, make_client_id-IsClientId}
use wd_broker.Slots.{get_client_instance_by_name}
use wd_broker.Handler.{
  Broker, Env, Creds, RegisterScan, register_client, register_name, handle_command, ok_id,
}
use wd_broker.Handler.Invariant.{SlotInv}
use wd_broker.WdClient.{
  WdClient, Link, Call, done, returned, crashed, is_empty, request, wd_client_connect,
  register_command, judge_register, also_sent, register_after, wd_client_check_prot_version,
  wd_client_register,
}
use wd_broker.WdClient.Session.{Works, answer, c_string-id, connect_to-Works}
use wd_broker.WdClient.Registration.{IsName, request_of, handle_command-register_command}

-- WD_CLIENT_OK, with this id and this path of the socket in the client's structure.
abbrev pub Enrolled : Bytes → Bytes → Call → Type 0
Enrolled id path (returned code d sent_) =
    (code ≡ done) × (d.client_id ≡ id) × (d.socket_path ≡ path)
Enrolled id path crashed = ⊥

-- The id that a registration hands out, kept or new, is well formed.
register_client-IsClientId :
    (env : Env) (creds : Creds) (a : RegisterScan) (cl : Client)
    → SlotInv cl
    → IsClientId (register_client env creds a cl).client_id
unfolding register_client
register_client-IsClientId env creds a cl v = elim (Bool-cases cl.anounced) [
  | inl e ↦ rw e (v.id (ground (arith, e)))
  | inr e ↦ rw e (make_client_id-IsClientId env.entropy)
]

register_name-some :
    (env : Env) (creds : Creds) (a : RegisterScan) (b : Broker) (k : ℕ) (cl : Client)
    → get_client_instance_by_name b.config b.clients a.name ≡ some k
    → get_elem? b.clients k ≡ some cl
    → register_name env creds a b ≡ (
      record b { clients = modify b.clients k (register_client env creds a) },
      ok_id (register_client env creds a cl),
    )
unfolding register_name
register_name-some env creds a b k cl e g =
    rw (register_name, e, get_or-get_elem? b.clients k zero_client cl g) refl

judge_register-ok :
    (id : Bytes) (c : WdClient)
    → IsClientId id
    → ((judge_register (codes "OK " ++ (id ++ codes "\n")) c).0 ≡ done)
      × ((judge_register (codes "OK " ++ (id ++ codes "\n")) c).1.client_id ≡ id)
      × ((judge_register (codes "OK " ++ (id ++ codes "\n")) c).1.socket_path ≡ c.socket_path)
unfolding judge_register strncmp_eq str_eq
judge_register-ok id c h = (refl, take-append_self id (codes "\n") 16 (omega (arith, h)), refl)

received_reply :
    (id : Bytes)
    → IsClientId id
    → read_with_timeout (packet (codes "OK " ++ (id ++ codes "\n"))) 128
      ≡ received (codes "OK " ++ (id ++ codes "\n"))
unfolding read_with_timeout
received_reply id h =
    ap (λ s. received (codes "OK " ++ s))
      (take-eq_self 124 (id ++ codes "\n") (omega (arith, length-append id (codes "\n"), h)))

request-Enrolled :
    (link : Link) (label cmd id : Bytes) (c : WdClient)
    → Works link
    → link.response ≡ packet (codes "OK " ++ (id ++ codes "\n"))
    → is_empty c.socket_path ≡ false
    → IsClientId id
    → Enrolled id c.socket_path (request link 128 label cmd judge_register c)
unfolding request wd_client_connect c_string
request-Enrolled link label cmd id c w r path h =
    let k = connect_to-Works link c c.socket_path w path in
    rw (request, wd_client_connect, k, w.write, r, received_reply id h)
      (rw (c_string-id id h.1) (
        (judge_register-ok id _ h).0,
        (judge_register-ok id _ h).1,
        (judge_register-ok id _ h).2 ∙ ap (λ z. z.1.socket_path) k,
      ))

also_sent-Enrolled :
    (id path : Bytes) (xs : List Bytes) (call : Call)
    → Enrolled id path call
    → Enrolled id path (also_sent xs call)
also_sent-Enrolled id path xs (returned code d ys) h = h
also_sent-Enrolled id path xs crashed h = h

-- A client whose check of the protocol version succeeded, with a name that the broker accepts, a
-- timeout in range, a connection on which every system call succeeds, and a well-formed slot that the
-- broker's search finds: the broker fills that slot as
-- `register_client` says and changes nothing else, and `wd_client_register` returns WD_CLIENT_OK with
-- the slot's id in the client's structure, a well-formed one, and the socket's path kept.
pub wd_client_register-handle_command :
    (env : Env) (creds : Creds) (version_link link : Link) (c d : WdClient) (xs : List Bytes)
    (b : Broker) (t : ℕ) (ignore_pid : Bool) (k : ℕ) (cl : Client)
    → is_empty c.name ≡ false
    → wd_client_check_prot_version version_link c ≡ returned done d xs
    → Works link
    → is_empty d.socket_path ≡ false
    → IsName d.name
    → 5000 ≤ t
    → t ≤ 300_000
    → get_client_instance_by_name b.config b.clients d.name ≡ some k
    → get_elem? b.clients k ≡ some cl
    → SlotInv cl
    → let s = register_client env creds (request_of d.name t ignore_pid) in
      let (b', r) = handle_command env (some creds) (packet (register_command d t ignore_pid)) b in
      (b' ≡ record b { clients = modify b.clients k s })
      × IsClientId (s cl).client_id
      × Enrolled (s cl).client_id d.socket_path (
          wd_client_register version_link
            (record link { response = answer r })
            (some c)
            t
            ignore_pid)
unfolding wd_client_register register_after
wd_client_register-handle_command env creds version_link link c d xs b t ignore_pid k cl named
      checked w path n l h slot at v =
    let a = request_of d.name t ignore_pid in
    let id = (register_client env creds a cl).client_id in
    let good = register_client-IsClientId env creds a cl v in
    let taken =
      handle_command-register_command env creds d b t ignore_pid n l h
      ∙ register_name-some env creds a b k cl slot at in
    let link' : Link = record link { response = packet (codes "OK " ++ (id ++ codes "\n")) } in
    let w' : Works link' = record { socket = w.socket; connect = w.connect; write = w.write } in
    let in_range : (ltb t 5000 || ltb 300_000 t) ≡ false = ground (arith, l, h) in
    rw (taken, named, in_range, checked)
      (
        refl,
        good,
        also_sent-Enrolled id d.socket_path xs
            (request link' 128 (codes "REGISTER") (register_command d t ignore_pid) judge_register
              d)
            (request-Enrolled link' (codes "REGISTER") (register_command d t ignore_pid) id d w'
              refl path good),
      )
