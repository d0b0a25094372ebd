-- ===== src/Tests/Commands.antt =====
-- Commands on the sample table.
use wd_broker.Prelude.{◌≡◌, refl, ap, true, false, some, All, arith, get_elem?}
use wd_broker.Text.{codes, all_bytes, is_print, is_space, strncmp_eq, c_string}
use wd_broker.Common.{read_with_timeout}
use wd_broker.ClientId.{parse_client_id}
use wd_broker.Slots.{get_client_instance_by_client_id}
use wd_broker.Print.{sent}
use wd_broker.Handler.{dispatch, handle_ping, handle_command}
use wd_broker.Handler.Invariant.{SlotInv, handle_command-SlotInv}
use wd_broker.Handler.Permissions.{Foreign, handle_command-Foreign, handle_command_refusal}
use wd_broker.Handler.Strict.{NoNewcomers, handle_command-NoNewcomers}
use wd_broker.Handler.Unique.{UniqueNames, handle_command-UniqueNames}
use wd_broker.Tests.Data.{alpha, table, broker, env, stranger, command, after}

table-SlotInv : All SlotInv table
unfolding all_bytes is_print is_space
table-SlotInv = ground arith

table-UniqueNames : UniqueNames table
table-UniqueNames = (
  λ e. ((λ a. absurd (cc)), ((λ a. absurd (cc)), tt)),
  ((λ e. absurd (cc)), ((λ e. absurd (cc)), tt)),
)

handle_command-SlotInv_example :
    All SlotInv (after false true stranger "REGISTER gamma 7000\n").clients
handle_command-SlotInv_example =
    handle_command-SlotInv env (some stranger) (command "REGISTER gamma 7000\n") (broker false true)
      table-SlotInv

handle_command-UniqueNames_example :
    UniqueNames (after false true stranger "REGISTER gamma 7000\n").clients
handle_command-UniqueNames_example =
    handle_command-UniqueNames env (some stranger) (command "REGISTER gamma 7000\n")
      (broker false true) refl table-UniqueNames

handle_command-NoNewcomers_example :
    NoNewcomers table (after true false stranger "REGISTER beta 7000\n").clients
handle_command-NoNewcomers_example =
    handle_command-NoNewcomers env (some stranger) (command "REGISTER beta 7000\n")
      (broker true false) refl

alpha-Foreign : Foreign stranger (broker false true) 0 alpha
alpha-Foreign = record {
  there = refl;
  active = refl;
  checked = refl;
  other = omega arith;
  not_root = omega arith;
}

handle_command-Foreign_example :
    get_elem? (after false true stranger "UNREGISTER 00112233445566ff\n").clients 0 ≡ some alpha
handle_command-Foreign_example =
    handle_command-Foreign env stranger (command "UNREGISTER 00112233445566ff\n")
      (broker false true) 0 alpha alpha-Foreign

-- Evaluation of the model.
wrong_pid :
    handle_command env (some stranger) (command "PING 00112233445566FF\n") (broker false true)
    ≡ (broker false true, sent (codes "ERROR wrong PID\n"))
unfolding handle_command dispatch read_with_timeout strncmp_eq c_string handle_ping parse_client_id
    get_client_instance_by_client_id
wrong_pid = refl

handle_command_refusal_example :
    after false true stranger "PING 00112233445566FF\n" ≡ broker false true
handle_command_refusal_example =
    handle_command_refusal env (some stranger) (command "PING 00112233445566FF\n")
      (broker false true) (codes "ERROR wrong PID\n") (ap (λ p. p.1) wrong_pid) refl
