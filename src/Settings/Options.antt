-- ===== src/Settings/Options.antt =====
-- What each printed line does to the parser of src/wd-broker.c.
use mathlib.Core.List.{append-nil}
use wd_broker.Prelude.{
  ℕ, suc, ◌+◌, ◌-◌, ◌≤◌, ◌<◌, ◌^◌, ◌≡◌, ◌≢◌, refl, sym, ap, ◌∙◌, Bool, true, false, not, ◌&&◌, List,
  [], ◌∷◌, ◌++◌, arith, ◌==◌, length, length-append, modify, take-eq_self,
}
use wd_broker.Prelude.Int.{pos}
use wd_broker.Text.{Bytes, codes, all_bytes, is_digit, is_space, is_print, str_eq}
use wd_broker.Print.{print_nat}
use wd_broker.Print.Laws.{length-print_nat}
use wd_broker.Print.Decimal.{atoi-print_nat, all_bytes-print_nat, length-print_nat_timeout}
use wd_broker.Scan.{atoi, skip_spaces}
use wd_broker.Heartbeat.{to_unsigned}
use wd_broker.Handler.{valid_name_byte}
use wd_broker.ConfigFile.{
  Build, World, Parser, ok, parse_line, parse_lines, set_option, set_strict, set_unique,
  set_timeout_ms, add_client, announce,
}
use wd_broker.Settings.{print_bool, option_line, section_line, section_byte}
use wd_broker.Settings.Text.{all_bytes-imp}
use wd_broker.Settings.Lines.{parse_line-option_line, parse_line-section_line}

digit-valid : (c : ℕ) → is_digit c ≡ true → valid_name_byte c ≡ true
unfolding is_digit is_print is_space
digit-valid c e = ground arith

pub print_nat-valid : (n : ℕ) → all_bytes valid_name_byte (print_nat n) ≡ true
print_nat-valid n =
    all_bytes-imp is_digit valid_name_byte digit-valid (print_nat n) (all_bytes-print_nat n)

print_nat-ne_nil : (n : ℕ) → print_nat n ≢ []
print_nat-ne_nil n e = omega (arith, length-print_nat n, ap length e)

atoi-print_nat_alone : (n : ℕ) → n < 2 ^ 31 → atoi (print_nat n) ≡ pos n
unfolding atoi skip_spaces is_space
atoi-print_nat_alone n h =
    ap (λ s. atoi s) (sym (append-nil (print_nat n))) ∙ atoi-print_nat n [] h tt

-- The lines follow one another.
pub parse_lines-cons :
    (world : World) (build : Build) (line : ℕ) (l : Bytes) (ls : List Bytes) (p q : Parser)
    → parse_line world build (suc line) l p ≡ ok q
    → parse_lines world build line (l ∷ ls) p ≡ parse_lines world build (suc line) ls q
unfolding parse_lines
parse_lines-cons world build line l ls p q e = rw (parse_lines, e) refl

module _ (world : World) (build : Build) (line : ℕ) (p : Parser) where
  number_line :
      (n : ℕ) (k : ℕ) (key : Bytes)
      → n ≤ 300_000
      → length key ≤ 62
      → all_bytes (λ c. valid_name_byte c && (not (c == b'=') && not (c == b'#'))) (k ∷ key) ≡ true
      → parse_line world build line (option_line (k ∷ key) (print_nat n) ++ codes "\n") p
        ≡ set_option build line (k ∷ key) (print_nat n) p
  number_line n k key h short good =
      parse_line-option_line world build line p k key (print_nat n) short good (print_nat-ne_nil n)
        (omega (arith, length-print_nat_timeout n h)) (print_nat-valid n)

  pub path_line :
      (path : Bytes)
      → path ≢ []
      → length path ≤ 127
      → length path ≤ build.sockpath_len - 1
      → all_bytes valid_name_byte path ≡ true
      → parse_line world build line (option_line (codes "socket_path") path ++ codes "\n") p
        ≡ ok (record p { config = record (p.config) { socket_path = path } })
  unfolding set_option str_eq all_bytes is_print is_space
  path_line path n fits room good =
      parse_line-option_line world build line p b's' (codes "ocket_path") path (omega arith) refl n
        fits good
      ∙ ap (λ x. ok (record p { config = record (p.config) { socket_path = x } }))
          (take-eq_self (build.sockpath_len - 1) path room)

  pub wd_line :
      (n : ℕ)
      → 10 ≤ n
      → n ≤ 60
      → parse_line world build line
          (option_line (codes "wd_timeout_s") (print_nat n) ++ codes "\n")
          p
        ≡ ok (record p { config = record (p.config) { wd_timeout_s = pos n } })
  unfolding set_option str_eq all_bytes is_print is_space
  wd_line n l h =
      number_line n b'w' (codes "d_timeout_s") (omega (arith, h)) (omega arith) refl
      ∙ rw (set_option, atoi-print_nat_alone n (omega (arith, h))) (ground (arith, l, h))

  pub reboot_line :
      (n : ℕ)
      → 10 ≤ n
      → n ≤ 300
      → parse_line world build line
          (option_line (codes "reboot_timeout_s") (print_nat n) ++ codes "\n")
          p
        ≡ ok (record p { config = record (p.config) { reboot_timeout_s = pos n } })
  unfolding set_option str_eq all_bytes is_print is_space
  reboot_line n l h =
      number_line n b'r' (codes "eboot_timeout_s") (omega (arith, h)) (omega arith) refl
      ∙ rw (set_option, atoi-print_nat_alone n (omega (arith, h))) (ground (arith, l, h))

  pub strict_line :
      (v : Bool)
      → parse_line world build line
          (option_line (codes "strict_clients") (print_bool v) ++ codes "\n")
          p
        ≡ ok (record p { config = record (p.config) { strict_clients = v } })
  unfolding set_option set_strict str_eq all_bytes is_print is_space
  strict_line true =
      parse_line-option_line world build line p b's' (codes "trict_clients") (codes "true")
        (omega arith) refl (λ e. cc) (omega arith) refl
  strict_line false =
      parse_line-option_line world build line p b's' (codes "trict_clients") (codes "false")
        (omega arith) refl (λ e. cc) (omega arith) refl

  pub unique_line :
      (v : Bool)
      → parse_line world build line
          (option_line (codes "unique_clients") (print_bool v) ++ codes "\n")
          p
        ≡ ok (record p { config = record (p.config) { unique_clients = v } })
  unfolding set_option set_unique str_eq all_bytes is_print is_space
  unique_line true =
      parse_line-option_line world build line p b'u' (codes "nique_clients") (codes "true")
        (omega arith) refl (λ e. cc) (omega arith) refl
  unique_line false =
      parse_line-option_line world build line p b'u' (codes "nique_clients") (codes "false")
        (omega arith) refl (λ e. cc) (omega arith) refl

  -- Behind its section line, a client's slot is announced.
  pub name_line :
      (name : Bytes)
      → name ≢ []
      → length name ≤ 63
      → all_bytes section_byte name ≡ true
      → p.client_count < build.max_clients
      → parse_line world build line (section_line name ++ codes "\n") p
        ≡ ok (record p {
          clients =
              modify p.clients p.client_count
                (announce (world.entropy p.client_count) (world.now p.client_count) name);
          client_count = p.client_count + 1;
        })
  unfolding add_client
  name_line name n fits good room =
      parse_line-section_line world build line p name n fits good
      ∙ ground (arith, room, length-append name (codes "]"))

  pub timeout_line :
      (t : ℕ)
      → 5000 ≤ t
      → t ≤ 300_000
      → 1 ≤ p.client_count
      → parse_line world build line (option_line (codes "timeout_ms") (print_nat t) ++ codes "\n") p
        ≡ ok (record p {
          clients = modify p.clients (p.client_count - 1) (λ c. record c { timeout_ms = t });
        })
  unfolding set_option set_timeout_ms to_unsigned str_eq all_bytes is_print is_space
  timeout_line t l h some_ =
      number_line t b't' (codes "imeout_ms") h (omega arith) refl
      ∙ rw (set_option, atoi-print_nat_alone t (omega (arith, h))) (ground (arith, l, h))
