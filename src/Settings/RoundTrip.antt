-- ===== src/Settings/RoundTrip.antt =====
-- `parse_config` of src/wd-broker.c reads back what is printed.
use wd_broker.Prelude.{
  ℕ, ◌-◌, ◌≡◌, ◌≢◌, refl, ap, ◌∙◌, Bool, true, false, ◌&&◌, List, [], ◌∷◌, ◌++◌, arith, ◌==◌, All,
  length, inl, inr, Bool-cases, some,
}
use wd_broker.Prelude.Int.{pos}
use wd_broker.Text.{codes, all_bytes}
use wd_broker.Print.{print_nat}
use wd_broker.ConfigText.{read_lines}
use wd_broker.ConfigFile.{
  Build, World, Parser, ok, initial_parser, parse_lines, parse_config, has_duplicate, final_checks,
}
use wd_broker.Settings.{
  Announced, Settings, print_bool, option_line, client_lines, settings_lines, print_settings,
  stored, IsLegal,
}
use wd_broker.Settings.Text.{IsLine, read_lines-end_lines}
use wd_broker.Settings.Options.{
  parse_lines-cons, path_line, wd_line, reboot_line, strict_line, unique_line,
}
use wd_broker.Settings.Sections.{ended, in_front, clients_read}
use wd_broker.Settings.Accepted.{
  no_duplicate, option_line-IsLine, option_line-print_nat-IsLine, option_line-print_bool-IsLine,
  client_lines-IsLine,
}

module _ (world : World) (build : Build) (s : Settings) (legal : IsLegal build s) where
  settings_lines-IsLine : All IsLine (settings_lines s)
  unfolding all_bytes
  settings_lines-IsLine = (
    option_line-IsLine (codes "socket_path") s.socket_path (omega arith) refl legal.path_fits
        legal.path_bytes,
    (
      option_line-print_nat-IsLine (codes "wd_timeout_s") s.wd_timeout_s (omega arith) refl
          (omega (arith, legal.wd_max)),
      (
        option_line-print_nat-IsLine (codes "reboot_timeout_s") s.reboot_timeout_s (omega arith)
            refl (omega (arith, legal.reboot_max)),
        (
          option_line-print_bool-IsLine (codes "strict_clients") s.strict_clients (omega arith)
              refl,
          (
            option_line-print_bool-IsLine (codes "unique_clients") s.unique_clients (omega arith)
                refl,
            client_lines-IsLine s.clients legal.announced,
          ),
        ),
      ),
    ),
  )

  options_read :
      parse_lines world build 0 (ended (settings_lines s)) (initial_parser build)
      ≡ parse_lines world build 5
          (ended (client_lines s.clients))
          (in_front (stored world build s).config [] build.max_clients)
  options_read =
      let p0 = initial_parser build in
      let p1 : Parser = record p0 { config = record (p0.config) { socket_path = s.socket_path } } in
      let p2 : Parser = record p1 {
        config = record (p1.config) { wd_timeout_s = pos s.wd_timeout_s };
      } in
      let p3 : Parser = record p2 {
        config = record (p2.config) { reboot_timeout_s = pos s.reboot_timeout_s };
      } in
      let p4 : Parser = record p3 {
        config = record (p3.config) { strict_clients = s.strict_clients };
      } in
      let p5 : Parser = record p4 {
        config = record (p4.config) { unique_clients = s.unique_clients };
      } in
      let rest = client_lines s.clients in
      let unique = option_line (codes "unique_clients") (print_bool s.unique_clients) in
      let strict = option_line (codes "strict_clients") (print_bool s.strict_clients) in
      let reboot = option_line (codes "reboot_timeout_s") (print_nat s.reboot_timeout_s) in
      let wd = option_line (codes "wd_timeout_s") (print_nat s.wd_timeout_s) in
      let path = option_line (codes "socket_path") s.socket_path in
      parse_lines-cons world build 0 (path ++ codes "\n")
        (ended (wd ∷ reboot ∷ strict ∷ unique ∷ rest)) p0 p1
        (path_line world build 1 p0 s.socket_path legal.path legal.path_fits legal.path_room
          legal.path_bytes)
      ∙ parse_lines-cons world build 1 (wd ++ codes "\n") (ended (reboot ∷ strict ∷ unique ∷ rest))
          p1 p2 (wd_line world build 2 p1 s.wd_timeout_s legal.wd_min legal.wd_max)
      ∙ parse_lines-cons world build 2 (reboot ++ codes "\n") (ended (strict ∷ unique ∷ rest)) p2 p3
          (reboot_line world build 3 p2 s.reboot_timeout_s legal.reboot_min legal.reboot_max)
      ∙ parse_lines-cons world build 3 (strict ++ codes "\n") (ended (unique ∷ rest)) p3 p4
          (strict_line world build 4 p3 s.strict_clients)
      ∙ parse_lines-cons world build 4 (unique ++ codes "\n") (ended rest) p4 p5
          (unique_line world build 5 p4 s.unique_clients)

  final_checks-stored : final_checks (stored world build s) ≡ ok (stored world build s)
  unfolding final_checks
  final_checks-stored =
      let some_client : (s.strict_clients && length s.clients == 0) ≡ false =
        strict_fine s.strict_clients s.clients legal.some_client in
      let unique : (s.unique_clients && has_duplicate (stored world build s).clients) ≡ false =
        elim (Bool-cases s.unique_clients) [
          | inl e ↦ rw e (
              no_duplicate world s.clients 0 (build.max_clients - length s.clients)
                (legal.distinct e) legal.announced)
          | inr e ↦ rw e refl
        ] in
      rw (some_client, unique) refl
    where
      strict_fine :
          (b : Bool) (cs : List Announced) → (b ≡ true → cs ≢ []) → (b && length cs == 0) ≡ false
      strict_fine false cs h = refl
      strict_fine true [] h = absurd (h refl refl)
      strict_fine true (c ∷ cs) h = ground arith

-- The file that is written for legal settings is read back: for a socket path of printable bytes without
-- white space that fits its array, timeouts in range, sections with distinct legal names where
-- `unique_clients` is set, at least one where `strict_clients` is, and no more than WD_MAX_CLIENTS,
-- `parse_config` accepts the file and stores exactly these settings, and the clients in their order as
-- the first slots, announced under fresh ids, with the other slots zero.
pub parse_config-print_settings :
    (world : World) (build : Build) (s : Settings)
    → IsLegal build s
    → parse_config world build (some (print_settings s)) ≡ ok (stored world build s)
unfolding parse_config
parse_config-print_settings world build s legal =
    let lines =
      read_lines-end_lines (settings_lines s) (settings_lines-IsLine world build s legal) in
    let clients =
      clients_read world build (stored world build s).config s.clients [] build.max_clients 5
        legal.announced legal.room (omega arith) in
    let read : parse_lines world build 0 (read_lines (print_settings s)) (initial_parser build)
        ≡ ok (stored world build s) =
      ap (λ ls. parse_lines world build 0 ls (initial_parser build)) lines
      ∙ options_read world build s legal
      ∙ clients
      ∙ ap (λ (k : ℕ). ok (record (stored world build s) { client_count = k })) (omega arith) in
    rw (parse_config, read) (final_checks-stored world build s legal)
