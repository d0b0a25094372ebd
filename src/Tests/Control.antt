-- ===== src/Tests/Control.antt =====
-- wd-ctrl against the broker on the sample table.
use wd_broker.Prelude.{false, ◌≡◌, refl, ap, get_or, true, some, [], ◌∷◌, arith, modify}
use wd_broker.Text.{str_eq, codes, all_bytes, is_print, is_space}
use wd_broker.Common.{cmd_reboot, cmd_status, packet}
use wd_broker.ClientId.Laws.{IsClientId}
use wd_broker.Status.{status_header, count_active, client_lines, client_line}
use wd_broker.Print.{print_int}
use wd_broker.Handler.{handle_command}
use wd_broker.Options.{success}
use wd_broker.WdClient.{Link}
use wd_broker.WdClient.Session.{answer}
use wd_broker.Ctrl.Reply.{IsPrinted}
use wd_broker.Ctrl.Lookup.{AllRows}
use wd_broker.Ctrl.Unregister.{IsLegible, ctrl_main-handle_command}
use wd_broker.Ctrl.{rebooting, fails, row, unregistered, unregister_request, ctrl_main}
use wd_broker.Prelude.Int.{pos}
use wd_broker.Ctrl.Reboot.{ctrl_main-reboot}
use wd_broker.Ctrl.Refusal.{ctrl_main-fails}
use wd_broker.Tests.Data.{alpha, beta, table, broker, env, root}
use wd_broker.Tests.Sessions.{link, link-Works}

alpha-IsPrinted : IsPrinted alpha
unfolding all_bytes is_print is_space
alpha-IsPrinted = record {
  row = record {
    id_length = refl;
    id_bytes = refl;
    name_there = λ e. absurd (cc);
    name_fits = omega arith;
    name_bytes = refl;
    pid_fits = omega arith;
    timeout_fits = omega arith;
  };
  id = refl;
  name = refl;
}

beta-IsPrinted : IsPrinted beta
unfolding all_bytes is_print is_space
beta-IsPrinted = record {
  row = record {
    id_length = refl;
    id_bytes = refl;
    name_there = λ e. absurd (cc);
    name_fits = omega arith;
    name_bytes = refl;
    pid_fits = omega arith;
    timeout_fits = omega arith;
  };
  id = refl;
  name = refl;
}

table-AllRows : AllRows table
table-AllRows = ((λ e. alpha-IsPrinted.row), ((λ e. beta-IsPrinted.row), ((λ e. absurd (cc)), tt)))

sample-IsLegible : IsLegible env.package_version (broker true true)
unfolding all_bytes is_print is_space status_header print_int count_active client_lines client_line
sample-IsLegible = record {
  version_bytes = refl;
  header = omega arith;
  clients = ((λ e. alpha-IsPrinted), ((λ e. beta-IsPrinted), ((λ e. absurd (cc)), tt)));
  fits = omega arith;
}

beta-IsClientId : IsClientId beta.client_id
unfolding all_bytes
beta-IsClientId = (refl, refl)

ctrl_main-handle_command_example :
    let cmd = unregister_request beta.client_id in
    let (b1, r1) = handle_command env (some root) (packet cmd_status) (broker true true) in
    let (b2, r2) = handle_command env (some root) (packet cmd) b1 in
    let link1 : Link = record link { response = answer r1 } in
    let link2 : Link = record link { response = answer r2 } in
    (b2 ≡ record (broker true true) {
      clients = modify table 1 (λ x. record x { active = false; anounced = false });
    })
    × (ctrl_main
          (λ p. (link1, link2))
          0
          3
          []
          (codes "/run/s")
          (codes "unregister" ∷ codes "beta" ∷ [])
        ≡ record {
          status = success;
          requests = cmd_status ∷ cmd ∷ [];
          shown = unregistered (codes "beta") ∷ [];
        })
ctrl_main-handle_command_example =
    ctrl_main-handle_command env root link link (broker true true) (codes "/run/s") (codes "beta") 1
      beta refl link-Works link-Works sample-IsLegible
      ((λ h. absurd (cc (h.1))), ((λ h. absurd (cc (h.1))), ((λ h. absurd (cc (h.0))), tt)))
      ((λ h. absurd (cc (h.1))), ((refl, refl), ((λ h. absurd (cc (h.0))), tt))) refl
      beta-IsClientId ((λ h. absurd (omega (arith, ap (λ s. get_or s 0 0) (h.1)))), (refl, refl))

ctrl_main-reboot_example :
    let (b1, r1) = handle_command env (some root) (packet cmd_status) (broker true true) in
    let (b2, r2) = handle_command env (some root) (packet cmd_reboot) b1 in
    let link1 : Link = record link { response = answer r1 } in
    let link2 : Link = record link { response = answer r2 } in
    (b2 ≡ record (broker true true) { running = false; reboot = true })
    × (ctrl_main (λ p. (link1, link2)) 0 3 [] (codes "/run/s") (codes "reboot" ∷ []) ≡ record {
      status = success;
      requests = cmd_status ∷ cmd_reboot ∷ [];
      shown = rebooting (pos 60) ∷ [];
    })
ctrl_main-reboot_example =
    ctrl_main-reboot env root link link (broker true true) (codes "/run/s") 60 refl link-Works
      link-Works sample-IsLegible refl (omega arith)

ctrl_main-fails_example :
    let (b1, r1) = handle_command env (some root) (packet cmd_status) (broker true true) in
    let link1 : Link = record link { response = answer r1 } in
    (b1 ≡ broker true true)
    × (ctrl_main (λ p. (link1, link)) 0 3 [] (codes "/run/s") (codes "unregister" ∷ codes "x" ∷ [])
        ≡ fails (cmd_status ∷ []))
unfolding str_eq
ctrl_main-fails_example =
    ctrl_main-fails env root link link (broker true true) (codes "/run/s") (codes "x") refl
      link-Works sample-IsLegible
      ((λ h. absurd (cc (h.1))), ((λ h. absurd (cc (h.1))), ((λ h. absurd (cc (h.0))), tt)))
      (λ e. absurd (omega (arith, e)))
