-- ===== src/ClientTest/Session.antt =====
-- The tests of src/wd-client-test.c that register, ping and unregister, against `handle_command` of
-- src/wd-broker.c.
use wd_broker.Prelude.{
  ◌≤◌, ◌≡◌, refl, sym, ap, ◌∙◌, inr, Bool, true, false, not, ◌&&◌, some, ◌++◌, ◌==◌, arith, length,
  take, get_elem?, modify, get_elem?-modify, modify-modify, ℕ, ◌∷◌, [],
}
use wd_broker.Text.{Bytes, codes, all_bytes, is_print, is_space}
use wd_broker.Print.{Reply}
use wd_broker.Common.{packet}
use wd_broker.Client.{Client}
use wd_broker.ClientId.Laws.{IsClientId}
use wd_broker.Slots.{get_client_instance_by_name}
use wd_broker.Slots.First.{IsFirst, Nowhere, IsFirst-modify, IsFirst-keep}
use wd_broker.Slots.ById.{HasId, MayUse}
use wd_broker.Handler.{
  Broker, Env, Creds, valid_name_byte, register_client, ping_client, unregister_client,
  handle_command,
}
use wd_broker.Handler.Invariant.{SlotInv}
use wd_broker.WdClient.{
  WdClient, Link, Call, done, returned, crashed, is_empty, version_command, register_command,
  id_command, set_status, wd_client_register, wd_client_ping, wd_client_unregister,
}
use wd_broker.WdClient.Session.{
  Works, Succeeds, answer, not_empty, wd_client_ping-handle_command,
  wd_client_unregister-handle_command,
}
use wd_broker.WdClient.Registration.{IsName, request_of}
use wd_broker.WdClient.Enrolment.{Enrolled, wd_client_register-handle_command}
use wd_broker.WdClient.Version.{wd_client_check_prot_version-handle_command}
use wd_broker.ClientTest.{
  test_client, heartbeat_timeout_ms, assert_result, unregister_step, ping_step, register_step,
  test_wd_client_ping, test_wd_client_register, holds,
}

-- A connection on which the reply of the broker arrives.
abbrev pub over : Link → Broker × Reply → Link
over link out = record link { response = answer out.1 }

-- What the broker does to the slot of the test's client.
abbrev pub enroll : Env → Creds → Client → Client
enroll env creds =
    register_client env creds (request_of test_client.name heartbeat_timeout_ms false)

-- The client's structure behind the registration, up to its status text.
abbrev pub enrolled : Env → Creds → Client → WdClient
enrolled env creds cl = record test_client { client_id = (enroll env creds cl).client_id }

abbrev Accepts : Bytes → Bytes → Call → Type 0
Accepts id path call =
    (d : WdClient) × (assert_result done call ≡ some d)
    × (d.client_id ≡ id)
    × (d.socket_path ≡ path)

assert_result-Enrolled :
    (id path : Bytes) (call : Call) → Enrolled id path call → Accepts id path call
unfolding assert_result
assert_result-Enrolled id path (returned code d xs) h = (d, rw h.0 refl, h.1, h.2)
assert_result-Enrolled id path crashed h = absurd h

assert_result-Succeeds :
    (cmd : Bytes) (c : WdClient) (call : Call)
    → Succeeds cmd c call
    → Accepts c.client_id c.socket_path call
unfolding assert_result
assert_result-Succeeds cmd c (returned code d xs) h = (d, rw h.0 refl, h.1, h.2)
assert_result-Succeeds cmd c crashed h = absurd h

-- A request that names this id.
abbrev pub request_with : Bytes → Bytes → Bytes
request_with command id = take 63 (command ++ (id ++ codes "\n"))

module _ (creds : Creds) (link : Link) (works : Works link) (k : ℕ) where
  unregister_step-passes :
      (env : Env) (d : WdClient) (id path : Bytes) (b : Broker) (cl : Client)
      → d.client_id ≡ id
      → d.socket_path ≡ path
      → is_empty path ≡ false
      → IsClientId id
      → IsFirst (HasId id) b.clients k
      → get_elem? b.clients k ≡ some cl
      → MayUse creds.pid cl
      → (b.config.strict_clients && not (creds.uid == 0)) ≡ false
      → let u =
          handle_command env (some creds) (packet (request_with (codes "UNREGISTER ") id)) b in
        (unregister_step (over link u) d ≡ true)
        × (u.0 ≡ record b { clients = modify b.clients k unregister_client })
  unfolding unregister_step unregister_client
  unregister_step-passes env d id path b cl ei ep there wf first at may strict = rw (sym ei) (
      let h =
        wd_client_unregister-handle_command env creds link d b k cl works (rw ep there) (rw ei wf)
          (rw ei first) at may strict in
      let u = handle_command env (some creds) (packet (id_command (codes "UNREGISTER ") d)) b in
      let a =
        assert_result-Succeeds (id_command (codes "UNREGISTER ") d) d
          (wd_client_unregister (over link u) (some d)) h.1 in
      (ap holds a.1, h.0))

  ping_step-passes :
      (ping_env env : Env) (d : WdClient) (id path : Bytes) (b : Broker) (cl : Client)
      → d.client_id ≡ id
      → d.socket_path ≡ path
      → is_empty path ≡ false
      → IsClientId id
      → IsFirst (HasId id) b.clients k
      → get_elem? b.clients k ≡ some cl
      → HasId id cl
      → MayUse creds.pid cl
      → (b.config.strict_clients && not (creds.uid == 0)) ≡ false
      → let p = handle_command ping_env (some creds) (packet (request_with (codes "PING ") id)) b in
        let u =
          handle_command env (some creds) (packet (request_with (codes "UNREGISTER ") id)) p.0 in
        (ping_step (over link p) (over link u) d ≡ true)
        × (u.0 ≡ record b {
          clients = modify (modify b.clients k (ping_client ping_env)) k unregister_client;
        })
  unfolding ping_step ping_client
  ping_step-passes ping_env env d id path b cl ei ep there wf first at held may strict =
      rw (sym ei) (
        let h =
          wd_client_ping-handle_command ping_env creds link d b k cl works (rw ep there) (rw ei wf)
            (rw ei first) at may in
        let p = handle_command ping_env (some creds) (packet (id_command (codes "PING ") d)) b in
        let a =
          assert_result-Succeeds (id_command (codes "PING ") d) d
            (wd_client_ping (over link p) (some d)) h.1 in
        let b' : Broker = record b { clients = modify b.clients k (ping_client ping_env) } in
        rw (ping_step, a.1, h.0)
          (unregister_step-passes env a.0 d.client_id d.socket_path b' (ping_client ping_env cl) a.2
            a.3 (rw ep there) (rw ei wf)
            (rw ei (IsFirst-keep (HasId id) b.clients k (ping_client ping_env) cl at first held))
            (get_elem?-modify b.clients k (ping_client ping_env) cl at) may strict))

test_client-IsName : IsName test_client.name
unfolding all_bytes is_print is_space is_empty
test_client-IsName = record { there = refl; fits = omega arith; bytes = refl }

-- The package version is one that the library can read: at most 80 printable bytes, without white space
-- and without '='.
pub record HasVersion (version : Bytes) : Type 0 where
  pub fits : length version ≤ 80
  pub bytes : all_bytes valid_name_byte version ≡ true
  pub lacks_eq : all_bytes (λ d. not (d == b'=')) version ≡ true

abbrev pub version_step : Env → Creds → Broker → Broker × Reply
version_step env creds b = handle_command env (some creds) (packet version_command) b

abbrev pub enroll_step : Env → Creds → Broker → Broker × Reply
enroll_step env creds b =
    handle_command env (some creds)
      (packet (register_command test_client heartbeat_timeout_ms false)) b

module _ (version_env env : Env) (creds : Creds) (link : Link) (works : Works link) (b : Broker)
    (k : ℕ) (cl : Client) (version : HasVersion version_env.package_version)
    (slot : get_client_instance_by_name b.config b.clients test_client.name ≡ some k)
    (at : get_elem? b.clients k ≡ some cl) (valid : SlotInv cl) where
  enroll_step-modify :
      ((version_step version_env creds b).0 ≡ b)
      × ((enroll_step env creds b).0 ≡ record b { clients = modify b.clients k (enroll env creds) })
      × IsClientId (enroll env creds cl).client_id
      × Enrolled (enroll env creds cl).client_id test_client.socket_path (
          wd_client_register
            (over link (version_step version_env creds b))
            (over link (enroll_step env creds b))
            (some test_client)
            heartbeat_timeout_ms
            false)
  unfolding is_empty
  enroll_step-modify =
      let v =
        wd_client_check_prot_version-handle_command version_env creds link test_client b works refl
          version.fits version.bytes version.lacks_eq in
      let d =
        set_status (codes "Successfully connected via " ++ test_client.socket_path) test_client in
      let h =
        wd_client_register-handle_command env creds (over link (version_step version_env creds b))
          link test_client d (version_command ∷ []) b heartbeat_timeout_ms false k cl refl v.1 works
          refl test_client-IsName (omega arith) (omega arith) slot at valid in
      (v.0, h.0, h.1, h.2)

  -- The broker's replies let the test go on behind its registration.
  register_step-next :
      (next : WdClient → Bool)
      → ((d : WdClient)
          → d.client_id ≡ (enroll env creds cl).client_id
          → d.socket_path ≡ test_client.socket_path
          → next d ≡ true)
      → register_step
          (over link (version_step version_env creds b))
          (over link (enroll_step env creds b))
          next
        ≡ true
  unfolding register_step
  register_step-next next goes =
      let h = enroll_step-modify in
      let id = (enroll env creds cl).client_id in
      let a =
        assert_result-Enrolled id test_client.socket_path
          (wd_client_register (over link (version_step version_env creds b))
            (over link (enroll_step env creds b)) (some test_client) heartbeat_timeout_ms false)
          h.3 in
      rw (register_step, a.1, ap is_empty a.2, not_empty id h.2) (goes a.0 a.2 a.3)

-- Let every system call of the four connections succeed, the package version be one that the library
-- reads, the broker's search find a well-formed slot for the test's client, no slot before it be live
-- with the id that this slot gets, and UNREGISTER be allowed to the test's process. Then the test that
-- registers, pings and unregisters passes against the broker, and in the end the broker has changed that
-- slot only, which is free again.
pub test_wd_client_ping-handle_command :
    (version_env env ping_env unregister_env : Env) (creds : Creds) (link : Link) (b : Broker)
    (k : ℕ) (cl : Client)
    → Works link
    → HasVersion version_env.package_version
    → get_client_instance_by_name b.config b.clients test_client.name ≡ some k
    → get_elem? b.clients k ≡ some cl
    → SlotInv cl
    → Nowhere (HasId (enroll env creds cl).client_id) (take k b.clients)
    → (b.config.strict_clients && not (creds.uid == 0)) ≡ false
    → let id = (enroll env creds cl).client_id in
      let v = version_step version_env creds b in
      let r = enroll_step env creds v.0 in
      let p = handle_command ping_env (some creds) (packet (request_with (codes "PING ") id)) r.0 in
      let u =
        handle_command unregister_env
          (some creds)
          (packet (request_with (codes "UNREGISTER ") id))
          p.0 in
      (test_wd_client_ping (over link v) (over link r) (over link p) (over link u) ≡ true)
      × (u.0 ≡ record b {
        clients =
            modify b.clients k (λ x. unregister_client (ping_client ping_env (enroll env creds x)));
      })
unfolding test_wd_client_ping register_client
test_wd_client_ping-handle_command version_env env ping_env unregister_env creds link b k cl works
      version slot at valid fresh may =
    let f = enroll env creds in
    let id = (f cl).client_id in
    let h = enroll_step-modify version_env env creds link works b k cl version slot at valid in
    let b' : Broker = record b { clients = modify b.clients k f } in
    let first = IsFirst-modify (HasId id) b.clients k f cl at fresh (refl, refl) in
    let there = get_elem?-modify b.clients k f cl at in
    let passes = ping_step-passes creds link works k ping_env unregister_env in
    let path = test_client.socket_path in
    let p = handle_command ping_env (some creds) (packet (request_with (codes "PING ") id)) b' in
    let u =
      handle_command unregister_env (some creds) (packet (request_with (codes "UNREGISTER ") id))
        p.0 in
    rw (h.0, h.1)
      (
        register_step-next version_env env creds link works b k cl version slot at valid
            (ping_step (over link p) (over link u))
            (λ d ei ep.
              (passes d id path b' (f cl) ei ep refl h.2 first there (refl, refl) (inr refl)
                may).0),
        (passes (enrolled env creds cl) id path b' (f cl) refl refl refl h.2 first there
              (refl, refl) (inr refl) may).1
            ∙ ap (λ z. record b { clients = z })
                (ap (λ z. modify z k unregister_client)
                    (modify-modify b.clients k f (ping_client ping_env))
                  ∙ modify-modify b.clients k (λ x. ping_client ping_env (f x)) unregister_client),
      )

-- Under the same conditions the test that registers and unregisters passes against the broker, and in
-- the end the broker has changed that slot only, which is free again.
pub test_wd_client_register-handle_command :
    (version_env env unregister_env : Env) (creds : Creds) (link : Link) (b : Broker) (k : ℕ)
    (cl : Client)
    → Works link
    → HasVersion version_env.package_version
    → get_client_instance_by_name b.config b.clients test_client.name ≡ some k
    → get_elem? b.clients k ≡ some cl
    → SlotInv cl
    → Nowhere (HasId (enroll env creds cl).client_id) (take k b.clients)
    → (b.config.strict_clients && not (creds.uid == 0)) ≡ false
    → let id = (enroll env creds cl).client_id in
      let v = version_step version_env creds b in
      let r = enroll_step env creds v.0 in
      let u =
        handle_command unregister_env
          (some creds)
          (packet (request_with (codes "UNREGISTER ") id))
          r.0 in
      (test_wd_client_register (over link v) (over link r) (over link u) ≡ true)
      × (u.0
          ≡ record b { clients = modify b.clients k (λ x. unregister_client (enroll env creds x)) })
unfolding test_wd_client_register register_client
test_wd_client_register-handle_command version_env env unregister_env creds link b k cl works
      version slot at valid fresh may =
    let f = enroll env creds in
    let id = (f cl).client_id in
    let h = enroll_step-modify version_env env creds link works b k cl version slot at valid in
    let b' : Broker = record b { clients = modify b.clients k f } in
    let first = IsFirst-modify (HasId id) b.clients k f cl at fresh (refl, refl) in
    let there = get_elem?-modify b.clients k f cl at in
    let passes = unregister_step-passes creds link works k unregister_env in
    let path = test_client.socket_path in
    let u =
      handle_command unregister_env (some creds) (packet (request_with (codes "UNREGISTER ") id))
        b' in
    rw (h.0, h.1)
      (
        register_step-next version_env env creds link works b k cl version slot at valid
            (unregister_step (over link u))
            (λ d ei ep. (passes d id path b' (f cl) ei ep refl h.2 first there (inr refl) may).0),
        (passes (enrolled env creds cl) id path b' (f cl) refl refl refl h.2 first there (inr refl)
              may).1
            ∙ ap (λ z. record b { clients = z }) (modify-modify b.clients k f unregister_client),
      )
