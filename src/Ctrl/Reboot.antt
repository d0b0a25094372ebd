-- ===== src/Ctrl/Reboot.antt =====
-- `wd-ctrl reboot` against the broker.
use wd_broker.Prelude.{
  ℕ, ◌≤◌, ◌≡◌, refl, ap, ◌∙◌, true, false, some, List, [], ◌∷◌, ◌++◌, arith, ◌==◌, length,
  length-append,
}
use wd_broker.Prelude.Int.{pos}
use wd_broker.Text.{Bytes, codes, is_digit, str_eq, strncmp_eq, c_string}
use wd_broker.Scan.{scan_word}
use wd_broker.Print.{Reply, print_nat, print_int, sent}
use wd_broker.Print.Decimal.{atoi-print_nat, c_string-print_nat, length-print_nat_timeout}
use wd_broker.Common.{cmd_reboot, cmd_status, packet, read_with_timeout}
use wd_broker.Handler.{Broker, Env, Creds, handle_reboot, dispatch, handle_command}
use wd_broker.Options.{success}
use wd_broker.WdClient.{Link}
use wd_broker.WdClient.Session.{Works, answer}
use wd_broker.Ctrl.Lines.{newlines}
use wd_broker.Ctrl.Reply.{status_texts}
use wd_broker.Ctrl.Unregister.{
  IsLegible, status_taken, status_reply-IsLegible, send_and_receive-received, written-Works,
  run_as_root-newlines,
}
use wd_broker.Ctrl.{rebooting, judge_reboot, ctrl_reboot, run_command, also_requested, ctrl_main}

abbrev reboot_reply : ℕ → Bytes
reboot_reply t = codes "OK, " ++ (print_nat t ++ codes "\n")

reboot_taken :
    (env : Env) (creds : Creds) (b : Broker) (t : ℕ)
    → creds.uid ≡ 0
    → b.config.reboot_timeout_s ≡ pos t
    → handle_command env (some creds) (packet cmd_reboot) b
      ≡ (record b { running = false; reboot = true }, sent (reboot_reply t))
unfolding handle_command read_with_timeout c_string dispatch strncmp_eq str_eq handle_reboot
    scan_word print_int
reboot_taken env creds b t root e =
    let is_root : (creds.uid == 0) ≡ true = ground arith in
    let b' : Broker = record b { running = false; reboot = true } in
    let with_reply : Bytes → Broker × Reply = λ s. (b', sent s) in
    rw (handle_reboot, is_root) (ap (λ n. with_reply (codes "OK, " ++ print_int n ++ codes "\n")) e)

c_string-reboot_reply : (t : ℕ) → c_string (reboot_reply t) ≡ reboot_reply t
unfolding c_string
c_string-reboot_reply t = ap (λ s. codes "OK, " ++ s) (c_string-print_nat t (codes "\n"))

judge_reboot_reply :
    (t : ℕ) (requests : List Bytes)
    → t ≤ 300
    → judge_reboot (reboot_reply t) requests
      ≡ record { status = success; requests = requests; shown = rebooting (pos t) ∷ [] }
unfolding judge_reboot strncmp_eq str_eq
judge_reboot_reply t requests h =
    ap (λ s. record { status = success; requests = requests; shown = rebooting s ∷ [] })
      (atoi-print_nat t (codes "\n") (omega arith) (unfold is_digit in refl))

ctrl_reboot-answered :
    (link : Link) (text : Bytes) (t : ℕ)
    → Works link
    → link.response ≡ packet (reboot_reply t)
    → t ≤ 300
    → ctrl_reboot link text
      ≡ record { status = success; requests = cmd_reboot ∷ []; shown = rebooting (pos t) ∷ [] }
unfolding ctrl_reboot
ctrl_reboot-answered link text t w r h =
    let small = length-print_nat_timeout t (omega (arith, h)) in
    let l : length (reboot_reply t) ≤ 4095 =
      omega (arith, small, length-append (print_nat t) (codes "\n")) in
    rw
      (
        ctrl_reboot,
        send_and_receive-received link (reboot_reply t) w r (omega arith) l,
        written-Works link cmd_reboot w,
        c_string-reboot_reply t,
      )
      (judge_reboot_reply t (cmd_reboot ∷ []) h)

-- `wd-ctrl reboot`, run by root over connections on which every system call succeeds, against a
-- broker whose STATUS reply is legible and whose reboot timeout is at most 300 seconds: the broker
-- leaves its loop with a reboot requested and changes nothing else, and wd-ctrl reports success and
-- this timeout.
pub ctrl_main-reboot :
    (env : Env) (creds : Creds) (status_link link : Link) (b : Broker) (path : Bytes) (t : ℕ)
    → creds.uid ≡ 0
    → Works status_link
    → Works link
    → IsLegible env.package_version b
    → b.config.reboot_timeout_s ≡ pos t
    → t ≤ 300
    → let (b1, r1) = handle_command env (some creds) (packet cmd_status) b in
      let (b2, r2) = handle_command env (some creds) (packet cmd_reboot) b1 in
      let link1 : Link = record status_link { response = answer r1 } in
      let link2 : Link = record link { response = answer r2 } in
      (b2 ≡ record b { running = false; reboot = true })
      × (ctrl_main (λ p. (link1, link2)) creds.uid (length b.clients) [] path (codes "reboot" ∷ [])
          ≡ record {
            status = success;
            requests = cmd_status ∷ cmd_reboot ∷ [];
            shown = rebooting (pos t) ∷ [];
          })
unfolding ctrl_main run_command str_eq
ctrl_main-reboot env creds status_link link b path t root w1 w2 h e l =
    let version = env.package_version in
    let text = newlines (status_texts version b.config b.clients) in
    let with_b : Reply → Broker × Reply = λ r. (b, r) in
    let asked = status_taken env creds b root ∙ ap with_b (status_reply-IsLegible version b h) in
    let taken = reboot_taken env creds b t root e in
    let link1 : Link = record status_link { response = packet text } in
    let link2 : Link = record link { response = packet (reboot_reply t) } in
    let w1' : Works link1 = record { socket = w1.socket; connect = w1.connect; write = w1.write } in
    let w2' : Works link2 = record { socket = w2.socket; connect = w2.connect; write = w2.write } in
    rw (asked, taken, root)
      (
        refl,
        run_as_root-newlines link1 link2 version b (codes "reboot") [] w1' h refl
            ∙ ap (also_requested (cmd_status ∷ [])) (ctrl_reboot-answered link2 text t w2' refl l),
      )
