-- ===== src/Tests/Program.antt =====
-- The library's test program against the broker on the sample table.
use wd_broker.Prelude.{[], ◌∷◌, ◌≡◌, refl, true, false, some, arith}
use wd_broker.Text.{all_bytes, is_print, is_space, str_eq, strncmp_eq}
use wd_broker.Client.{Client, zero_client}
use wd_broker.ClientId.{make_client_id}
use wd_broker.Slots.{get_client_instance_by_name, has_id}
use wd_broker.Slots.ById.{HasId, has_id_iff}
use wd_broker.Handler.{register_client, unregister_client}
use wd_broker.Handler.Invariant.{SlotInv}
use wd_broker.ClientTest.{test_client}
use wd_broker.ClientTest.Session.{HasVersion, enroll, version_step, enroll_step}
use wd_broker.WdClient.{is_empty, wd_client_register, wd_client_ping, wd_client_unregister}
use wd_broker.WdClient.Refusal.{Refuses, calls-Refuses}
use wd_broker.ClientTest.{run_tests}
use wd_broker.ClientTest.Main.{
  IsReady, after_register, after_ping, unregister_step_at, ping_step_at, connections,
  run_tests-handle_command,
}
use wd_broker.Tests.Data.{alpha, beta, broker, env, stranger}
use wd_broker.Tests.Sessions.{link, link-Works}

-- A timeout out of range, and a client without an id.
calls-refuse_example :
    Refuses true (wd_client_register link link (some test_client) 400_000 true)
    × Refuses true (wd_client_ping link (some test_client))
    × Refuses true (wd_client_unregister link (some test_client))
unfolding is_empty
calls-refuse_example = calls-Refuses link link test_client 400_000 true

version-HasVersion : HasVersion env.package_version
unfolding all_bytes is_print is_space
version-HasVersion = record { fits = omega arith; bytes = refl; lacks_eq = refl }

free-SlotInv : SlotInv zero_client
unfolding all_bytes is_print is_space
free-SlotInv = ground arith

other_id :
    (c : Client)
    → has_id (enroll env stranger zero_client).client_id c ≡ false
    → HasId (enroll env stranger zero_client).client_id c
    → ⊥
other_id c e h =
    let held = (has_id_iff (enroll env stranger zero_client).client_id c).1 h in
    ground (arith, e, held)

-- The slot is free behind the first session, and the second takes it again.
abbrev freed : Client
freed = unregister_client (enroll env stranger zero_client)

freed-SlotInv : SlotInv freed
unfolding unregister_client register_client
freed-SlotInv = record {
  exclusive = refl;
  id = λ e. cc;
  timeout_min = λ e. cc;
  timeout_max = λ e. cc;
  name_fits = λ e. cc;
  name_bytes = λ e. cc;
}

first-IsReady : IsReady env stranger (broker false true) 2 zero_client
unfolding get_client_instance_by_name str_eq register_client make_client_id strncmp_eq
first-IsReady = record {
  slot = refl;
  at = refl;
  valid = free-SlotInv;
  fresh = (other_id alpha refl, (other_id beta refl, tt));
}

second-IsReady : IsReady env stranger (after_register env stranger 2 (broker false true)) 2 freed
unfolding get_client_instance_by_name str_eq register_client unregister_client make_client_id
    strncmp_eq
second-IsReady = record {
  slot = refl;
  at = refl;
  valid = freed-SlotInv;
  fresh = (other_id alpha refl, (other_id beta refl, tt));
}

run_tests-handle_command_example :
    let v = version_step env stranger (broker false true) in
    let r = enroll_step env stranger v.0 in
    let u = unregister_step_at env stranger env zero_client r.0 in
    let v' = version_step env stranger u.0 in
    let r' = enroll_step env stranger v'.0 in
    let p' = ping_step_at env stranger env freed r'.0 in
    let u' = unregister_step_at env stranger env freed p'.0 in
    (run_tests (connections link (v ∷ r ∷ u ∷ v' ∷ r' ∷ p' ∷ u' ∷ [])) ≡ true)
    × (u'.0 ≡ after_ping env env stranger 2 (after_register env stranger 2 (broker false true)))
run_tests-handle_command_example =
    run_tests-handle_command env env env env env env env stranger link (broker false true) 2
      zero_client 2 freed link-Works version-HasVersion version-HasVersion first-IsReady
      second-IsReady refl
