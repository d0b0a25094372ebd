-- ===== src/ClientTest/Main.antt =====
-- `main` of src/wd-client-test.c against one broker: both sessions, in their order, and the calls that are
-- refused.
use mathlib.Core.Path.{ap₂}
use wd_broker.Prelude.{
  ℕ, ◌≡◌, refl, ◌∙◌, ◌&&◌, not, true, false, some, List, [], ◌∷◌, ◌==◌, take, get_elem?, get_or,
  modify,
}
use wd_broker.Text.{codes}
use wd_broker.Print.{Reply}
use wd_broker.Common.{packet}
use wd_broker.Client.{Client}
use wd_broker.Slots.{get_client_instance_by_name}
use wd_broker.Slots.First.{Nowhere}
use wd_broker.Slots.ById.{HasId}
use wd_broker.Handler.{Broker, Env, Creds, ping_client, unregister_client, handle_command}
use wd_broker.Handler.Invariant.{SlotInv}
use wd_broker.WdClient.{Link}
use wd_broker.WdClient.Session.{Works}
use wd_broker.ClientTest.{test_client, run_tests}
use wd_broker.ClientTest.Refusals.{run_tests-sessions}
use wd_broker.ClientTest.Session.{
  HasVersion, over, enroll, request_with, version_step, enroll_step,
  test_wd_client_register-handle_command, test_wd_client_ping-handle_command,
}

-- The broker's search finds this well-formed slot for the test's client, and no slot before it is live
-- with the id that the slot gets.
pub record IsReady (env : Env) (creds : Creds) (b : Broker) (k : ℕ) (cl : Client) : Type 0 where
  pub slot : get_client_instance_by_name b.config b.clients test_client.name ≡ some k
  pub at : get_elem? b.clients k ≡ some cl
  pub valid : SlotInv cl
  pub fresh : Nowhere (HasId (enroll env creds cl).client_id) (take k b.clients)

-- The broker behind the first session.
abbrev pub after_register : Env → Creds → ℕ → Broker → Broker
after_register env creds k b = record b {
  clients = modify b.clients k (λ x. unregister_client (enroll env creds x));
}

-- The second session adds a ping.
abbrev pub after_ping : Env → Env → Creds → ℕ → Broker → Broker
after_ping env ping_env creds k b = record b {
  clients = modify b.clients k (λ x. unregister_client (ping_client ping_env (enroll env creds x)));
}

abbrev pub unregister_step_at : Env → Creds → Env → Client → Broker → Broker × Reply
unregister_step_at unregister_env creds env cl b =
    handle_command unregister_env (some creds)
      (packet (request_with (codes "UNREGISTER ") (enroll env creds cl).client_id)) b

abbrev pub ping_step_at : Env → Creds → Env → Client → Broker → Broker × Reply
ping_step_at ping_env creds env cl b =
    handle_command ping_env (some creds)
      (packet (request_with (codes "PING ") (enroll env creds cl).client_id)) b

abbrev answered : Link → List (Broker × Reply) → List Link
answered link [] = []
answered link (out ∷ outs) = over link out ∷ answered link outs

-- The connections that the broker answers, in turn; to any other socket none is made.
abbrev pub connections : Link → List (Broker × Reply) → ℕ → Link
connections link outs i = get_or (answered link outs) i (record link { connect = false })

-- Let every system call of the connections to the broker succeed, the package version be one that the
-- library reads, and UNREGISTER be allowed to the test's process; and let each of the two sessions find a
-- well-formed slot, no slot before which is live with the id that it gets. Then the whole test program
-- passes against the broker, whose answers to the first session's requests come before those to the
-- second's; and in the end the broker has changed these slots only, which are free again.
pub run_tests-handle_command :
    (e0 e1 e2 e3 e4 e5 e6 : Env) (creds : Creds) (link : Link) (b : Broker) (k : ℕ) (cl : Client)
    (k' : ℕ) (cl' : Client)
    → Works link
    → HasVersion e0.package_version
    → HasVersion e3.package_version
    → IsReady e1 creds b k cl
    → IsReady e4 creds (after_register e1 creds k b) k' cl'
    → (b.config.strict_clients && not (creds.uid == 0)) ≡ false
    → let v = version_step e0 creds b in
      let r = enroll_step e1 creds v.0 in
      let u = unregister_step_at e2 creds e1 cl r.0 in
      let v' = version_step e3 creds u.0 in
      let r' = enroll_step e4 creds v'.0 in
      let p' = ping_step_at e5 creds e4 cl' r'.0 in
      let u' = unregister_step_at e6 creds e4 cl' p'.0 in
      (run_tests (connections link (v ∷ r ∷ u ∷ v' ∷ r' ∷ p' ∷ u' ∷ [])) ≡ true)
      × (u'.0 ≡ after_ping e4 e5 creds k' (after_register e1 creds k b))
run_tests-handle_command e0 e1 e2 e3 e4 e5 e6 creds link b k cl k' cl' works version version' ready
      ready' may =
    let first =
      test_wd_client_register-handle_command e0 e1 e2 creds link b k cl works version ready.slot
        ready.at ready.valid ready.fresh may in
    let b' = after_register e1 creds k b in
    let second =
      test_wd_client_ping-handle_command e3 e4 e5 e6 creds link b' k' cl' works version' ready'.slot
        ready'.at ready'.valid ready'.fresh may in
    let v = version_step e0 creds b in
    let r = enroll_step e1 creds v.0 in
    let u = unregister_step_at e2 creds e1 cl r.0 in
    let v' = version_step e3 creds b' in
    let r' = enroll_step e4 creds v'.0 in
    let p' = ping_step_at e5 creds e4 cl' r'.0 in
    let u' = unregister_step_at e6 creds e4 cl' p'.0 in
    let passes : run_tests (connections link (v ∷ r ∷ u ∷ v' ∷ r' ∷ p' ∷ u' ∷ [])) ≡ true =
      run_tests-sessions (connections link (v ∷ r ∷ u ∷ v' ∷ r' ∷ p' ∷ u' ∷ [])) refl
      ∙ ap₂ ◌&&◌ first.0 second.0 in
    rw first.1 (passes, second.1)
