-- ===== src/ConfigFile/Keeps.antt =====
-- What every line of a configuration file keeps, the whole file keeps.
use wd_broker.Prelude.{ℕ, suc, ◌&&◌, ◌==◌, Option, none, some, List, [], ◌∷◌}
use wd_broker.Text.{Bytes}
use wd_broker.ConfigText.{read_lines}
use wd_broker.ConfigFile.Steps.{Ensures, Ensures-if}
use wd_broker.ConfigFile.{
  Build, World, Parser, Parse, ok, fatal, parse_line, parse_lines, initial_parser, has_duplicate,
  final_checks, parse_config,
}

module _ (world : World) (build : Build) (P : Parser → Type 0)
    (on_line : (line : ℕ) (text : Bytes) (p : Parser)
      → P p
      → Ensures P (parse_line world build line text p)) where
  pub parse_lines-Ensures :
      (ls : List Bytes) (line : ℕ) (p : Parser)
      → P p
      → Ensures P (parse_lines world build line ls p)
  unfolding parse_lines
  parse_lines-Ensures [] line p h = h
  parse_lines-Ensures (l ∷ ls) line p h =
      go (parse_line world build (suc line) l p) (on_line (suc line) l p h)
        (parse_lines-Ensures ls (suc line))
    where
      go :
          (r : Parse Parser)
          → Ensures P r
          → ((q : Parser) → P q → Ensures P (parse_lines world build (suc line) ls q))
          → Ensures P (elim r [
            | ok q ↦ parse_lines world build (suc line) ls q
            | fatal why at ↦ fatal why at
          ])
      go (ok q) h k = k q h
      go (fatal why at) h k = tt

  final_checks-Ensures : (p : Parser) → P p → Ensures P (final_checks p)
  unfolding final_checks
  final_checks-Ensures p h =
      Ensures-if P (p.config.strict_clients && p.client_count == 0) _ _ (λ e. tt)
        λ e. Ensures-if P (p.config.unique_clients && has_duplicate p.clients) _ _ (λ f. tt) λ f. h

  pub parse_config-Ensures :
      (file : Option Bytes) → P (initial_parser build) → Ensures P (parse_config world build file)
  unfolding parse_config
  parse_config-Ensures none h = tt
  parse_config-Ensures (some bytes) h =
      go (parse_lines world build 0 (read_lines bytes) (initial_parser build))
        (parse_lines-Ensures (read_lines bytes) 0 (initial_parser build) h)
    where
      go :
          (r : Parse Parser)
          → Ensures P r
          → Ensures P (elim r [ ok p ↦ final_checks p | fatal why line ↦ fatal why line ])
      go (ok p) h = final_checks-Ensures p h
      go (fatal why line) h = tt
