-- ===== src/ClientTest/Refusals.antt =====
-- The tests of src/wd-client-test.c in which the library refuses a call by itself.
use wd_broker.Prelude.{ℕ, ◌&&◌, ◌≡◌, refl, false, true, inl, inr, Bool-cases}
use wd_broker.WdClient.{
  Link, connect_to, wd_client_connect, is_empty, wd_client_check_prot_version, wd_client_register,
  register_after, wd_client_ping, wd_client_unregister,
}
use wd_broker.ClientTest.{
  run_tests, test_wd_client_register, test_wd_client_ping, assert_result, too_long_step,
  test_register_with_invalid_name, test_register_with_invalid_timeout,
  test_unregister_without_registering, test_ping_without_registering, test_timeout_on_register,
}

timeout_on_register-passes :
    (version_link register_link : Link)
    → version_link.connect ≡ false
    → test_timeout_on_register version_link register_link ≡ true
unfolding test_timeout_on_register wd_client_register register_after wd_client_check_prot_version
    wd_client_connect connect_to assert_result is_empty
timeout_on_register-passes version_link register_link refused =
    elim (Bool-cases version_link.socket) [ inl e ↦ rw (e, refused) refl | inr e ↦ rw e refl ]

-- Whatever the connections do, the tests of an empty name, of a timeout below and above the range, and
-- of a ping and an unregistration without an id pass.
refused_calls-pass :
    (version_link register_link : Link)
    → (test_register_with_invalid_name version_link register_link ≡ true)
      × (test_register_with_invalid_timeout version_link register_link ≡ true)
      × (test_unregister_without_registering version_link ≡ true)
      × (test_ping_without_registering version_link ≡ true)
unfolding test_register_with_invalid_name test_register_with_invalid_timeout
    test_unregister_without_registering test_ping_without_registering wd_client_register
    wd_client_ping wd_client_unregister assert_result too_long_step is_empty
refused_calls-pass version_link register_link = (refl, refl, refl, refl)

-- The program ends well when its two sessions do and nothing accepts a connection to the socket that
-- does not exist.
pub run_tests-sessions :
    (link : ℕ → Link)
    → (link 7).connect ≡ false
    → run_tests link ≡ (
        test_wd_client_register (link 0) (link 1) (link 2)
        && test_wd_client_ping (link 3) (link 4) (link 5) (link 6))
unfolding run_tests
run_tests-sessions link refused =
    let h = refused_calls-pass (link 8) (link 9) in
    rw (h.0, h.1, h.2, h.3, timeout_on_register-passes (link 7) (link 8) refused)
      (elim (Bool-cases (test_wd_client_ping (link 3) (link 4) (link 5) (link 6))) [
        | inl e ↦ rw e refl
        | inr e ↦ rw e refl
      ])
