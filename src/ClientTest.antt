-- ===== src/ClientTest.antt =====
-- The test program of the client library, src/wd-client-test.c. What the system calls of each
-- connection do is a `Link`, an argument in the order of the connections; the library's
-- `wd_client_register` connects twice. A test is `true` when no assertion in it fails.
pub mod Refusals
pub mod Session
pub mod Main
use wd_broker.Prelude.{
  ℕ, ◌+◌, ◌-◌, Bool, true, false, not, ◌&&◌, Option, none, some, [], ◌∷◌, ◌==◌, if◌then◌else◌,
}
use wd_broker.Text.{Bytes, codes}
use wd_broker.Client.{client_timeout_min_ms, client_timeout_max_ms}
use wd_broker.WdClient.{
  WdClient, Link, Code, done, error, invalid_parameter, timed_out, bad_version, Call, returned,
  crashed, is_empty, wd_client_register, wd_client_ping, wd_client_unregister,
}

-- WD_HEARTBEAT_TIMEOUT_MS
abbrev pub heartbeat_timeout_ms : ℕ
heartbeat_timeout_ms = 5000

-- WD_TEST_CLIENT_INIT
abbrev pub test_client : WdClient
test_client = record {
  socket_path = codes "/tmp/wd-broker-test.sock";
  name = codes "test-client";
  client_id = [];
  status = [];
}

-- The codes, without their sign.
abbrev pub code_value : Code → ℕ
code_value done = 0
code_value error = 1
code_value invalid_parameter = 2
code_value timed_out = 3
code_value bad_version = 4

-- ASSERT_WITH_STATUS(result == expected, client): the client when it holds.
unfoldable pub assert_result : Code → Call → Option WdClient
assert_result expected (returned code c requests) =
    if code_value code == code_value expected then some c else none
assert_result expected crashed = none

abbrev pub holds : Option WdClient → Bool
holds none = false
holds (some c) = true

-- The last step of both tests that register.
unfoldable pub unregister_step : Link → WdClient → Bool
unfolding assert_result
unregister_step link c = holds (assert_result done (wd_client_unregister link (some c)))

unfoldable pub ping_step : Link → Link → WdClient → Bool
unfolding assert_result unregister_step
ping_step ping_link link c = elim (assert_result done (wd_client_ping ping_link (some c))) [
  | none ↦ false
  | some c ↦ unregister_step link c
]

unfoldable pub register_step : Link → Link → (WdClient → Bool) → Bool
unfolding assert_result is_empty
register_step version_link register_link next =
    elim (assert_result done (
      wd_client_register version_link register_link (some test_client) heartbeat_timeout_ms
        false)) [ none ↦ false | some c ↦ not (is_empty c.client_id) && next c ]

unfoldable pub test_wd_client_register : Link → Link → Link → Bool
unfolding register_step unregister_step
test_wd_client_register version_link register_link unregister_link =
    register_step version_link register_link (unregister_step unregister_link)

unfoldable pub test_wd_client_ping : Link → Link → Link → Link → Bool
unfolding register_step ping_step
test_wd_client_ping version_link register_link ping_link unregister_link =
    register_step version_link register_link (ping_step ping_link unregister_link)

unfoldable pub test_register_with_invalid_name : Link → Link → Bool
unfolding assert_result
test_register_with_invalid_name version_link register_link =
    let client : WdClient = record test_client { name = [] } in
    holds (
      assert_result invalid_parameter
        (wd_client_register version_link register_link (some client) heartbeat_timeout_ms false))

-- The second call, with the client as the first left it.
unfoldable pub too_long_step : Link → Link → WdClient → Bool
unfolding assert_result
too_long_step version_link register_link c = holds (
    assert_result invalid_parameter
      (wd_client_register version_link register_link (some c) (client_timeout_max_ms + 1) false))

unfoldable pub test_register_with_invalid_timeout : Link → Link → Bool
unfolding assert_result too_long_step
test_register_with_invalid_timeout version_link register_link =
    let client : WdClient = record test_client { name = codes "test-client" } in
    elim (assert_result invalid_parameter (
      wd_client_register version_link register_link (some client) (client_timeout_min_ms - 1)
        false)) [ none ↦ false | some c ↦ too_long_step version_link register_link c ]

unfoldable pub test_unregister_without_registering : Link → Bool
unfolding assert_result
test_unregister_without_registering link =
    holds (assert_result invalid_parameter (wd_client_unregister link (some test_client)))

unfoldable pub test_ping_without_registering : Link → Bool
unfolding assert_result
test_ping_without_registering link =
    holds (assert_result invalid_parameter (wd_client_ping link (some test_client)))

unfoldable pub test_timeout_on_register : Link → Link → Bool
unfolding assert_result
test_timeout_on_register version_link register_link =
    let client : WdClient = record test_client { socket_path = codes "/tmp/nonexistent.sock" } in
    holds (
      assert_result error
        (wd_client_register version_link register_link (some client) heartbeat_timeout_ms false))

-- `main`, the connections numbered in the order in which the tests make them when all pass; those that
-- only a failing test would make come last.
unfoldable pub run_tests : (ℕ → Link) → Bool
unfolding test_wd_client_register test_wd_client_ping test_register_with_invalid_name
    test_register_with_invalid_timeout test_unregister_without_registering
    test_ping_without_registering test_timeout_on_register
run_tests link =
    test_wd_client_register (link 0) (link 1) (link 2)
    && (test_wd_client_ping (link 3) (link 4) (link 5) (link 6)
        && (test_register_with_invalid_name (link 8) (link 9)
            && (test_register_with_invalid_timeout (link 8) (link 9)
                && (test_unregister_without_registering (link 8)
                    && (test_ping_without_registering (link 8)
                        && test_timeout_on_register (link 7) (link 8))))))
