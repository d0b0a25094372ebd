-- ===== src/Tests/Configuration.antt =====
-- A configuration file, the daemon that it starts, and long STATUS replies.
use wd_broker.Prelude.{
  ℕ, zero, suc, ◌≡◌, if◌then◌else◌, ltb, ◌==◌, take, ◌++◌, refl, true, false, some, [], ◌∷◌, All,
  arith, replicate,
}
use wd_broker.Prelude.Int.{pos}
use wd_broker.Text.{Bytes, codes, is_space, is_digit, str_eq, strncmp_eq, c_string}
use wd_broker.Scan.{
  scan_set, span_taken, span_left, signed32, digits_value, minus, after_sign, to_int, skip_spaces,
  atoi,
}
use wd_broker.Print.{sent, out_of_bounds}
use wd_broker.Client.{Client, zero_client}
use wd_broker.Status.{status_reply}
use wd_broker.ClientId.{make_client_id, raw_bytes, to_hex, hex_digit}
use wd_broker.Heartbeat.{to_unsigned}
use wd_broker.Status.Bounds.{LongActive, joined, total, status_lines, status_reply-out_of_bounds}
use wd_broker.Status.Exact.{status_reply-exact}
use wd_broker.ConfigText.{
  trim, trim_end, keep_inner, scan_value, read_lines, scan_key_value, scan_section,
}
use wd_broker.ConfigFile.{
  Build, World, Parser, ok, parse_config, parse_lines, parse_line, final_checks, set_option,
  set_unique, set_timeout_ms, add_client, announce, is_comment, has_duplicate, announced_again,
}
use wd_broker.ConfigFile.Bounds.{Loaded, parse_config-Loaded}
use wd_broker.Lifetime.{Healthy, start, run_loop-Healthy}
use wd_broker.Lifetime.Unregistered.{run_main-Unregistered}
use wd_broker.Loop.Deadline.{StarvesBehind}
use wd_broker.Loop.{run_loop, run_main}
use wd_broker.Loop.Keeps.{EndsIn}
use wd_broker.Tests.Data.{at, alpha, beta, table, config, env, tick}

abbrev pub world : World
world = record { entropy = λ i. env.entropy; now = λ i. at 10 }

abbrev pub build : Build
build = record { socket_path_default = codes "/run/s"; max_clients = 2; sockpath_len = 108 }

abbrev pub file : Bytes
file = codes "# wd\nunique_clients = true\n[client beta]\n timeout_ms=7000\n"

abbrev pub loaded : Parser
loaded = record {
  config = record {
    socket_path = codes "/run/s";
    wd_timeout_s = pos 10;
    reboot_timeout_s = pos 60;
    strict_clients = false;
    unique_clients = true;
  };
  clients =
      record beta { client_id = codes "01020304050607ff"; timeout_ms = 7000 } ∷ zero_client ∷ [];
  client_count = 1;
}

-- Evaluation of the model.
pub sample_accepted : parse_config world build (some file) ≡ ok loaded
unfolding parse_config parse_lines read_lines parse_line is_comment trim c_string scan_key_value
    scan_set set_option str_eq set_unique scan_section strncmp_eq add_client set_timeout_ms
    to_unsigned atoi hex_digit make_client_id raw_bytes to_hex announce announced_again final_checks
    has_duplicate keep_inner scan_value trim_end after_sign digits_value minus signed32 skip_spaces
    span_left span_taken to_int is_digit is_space
sample_accepted = refl

parse_config-Loaded_example : Loaded build loaded
parse_config-Loaded_example = parse_config-Loaded world build (some file) loaded sample_accepted

run_loop-Healthy_example :
    EndsIn (Healthy build loaded) (run_loop true (tick 12 ∷ tick 30 ∷ []) (start loaded))
run_loop-Healthy_example =
    run_loop-Healthy world build (some file) loaded true (tick 12 ∷ tick 30 ∷ []) sample_accepted

status_reply-exact_example :
    let ls = status_lines (codes "1.2") (config false true) table in
    status_reply (codes "1.2") (config false true) table ≡ (
      if ltb (total ls) 4096
      then sent (joined ls)
      else if total ls == 4096
      then sent (take 4095 (joined ls) ++ 0 ∷ [])
      else out_of_bounds)
status_reply-exact_example = status_reply-exact (codes "1.2") (config false true) table

abbrev long_client : Client
long_client = record alpha { name = replicate 63 b'x' }

long_clients : (n : ℕ) → All LongActive (replicate n long_client)
long_clients zero = tt
long_clients (suc n) = ((refl, refl, refl), long_clients n)

status_reply-out_of_bounds_example :
    status_reply (codes "1.2") (config false true) (replicate 47 long_client) ≡ out_of_bounds
status_reply-out_of_bounds_example =
    status_reply-out_of_bounds (codes "1.2") (config false true) (replicate 47 long_client)
      (long_clients 47) (omega arith)

abbrev expected_beta : Client
expected_beta = record beta { client_id = codes "01020304050607ff"; timeout_ms = 7000 }

run_main-Unregistered_example :
    StarvesBehind
      (run_loop true (tick 12 ∷ []) (start loaded))
      (run_main true (tick 12 ∷ tick 311 ∷ tick 312 ∷ []) true (replicate 9 false) (start loaded))
run_main-Unregistered_example =
    run_main-Unregistered world build (some file) loaded true true 9 0 expected_beta (tick 12 ∷ [])
      (tick 312 ∷ []) (tick 311) (some 8) sample_accepted refl refl ((refl, refl), tt) refl refl
      (refl, tt)
      (record {
        then_normal = omega arith;
        now_normal = omega arith;
        passed = omega arith;
        recent = omega arith;
      })
