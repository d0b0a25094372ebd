-- ===== src/ConfigFile/Bounds.antt =====
-- What a configuration file that is accepted has set up.
use wd_broker.Prelude.{
  ℕ, zero, suc, ◌≤◌, ◌≡◌, refl, ap, inl, inr, true, false, not, drop, Option, none, some, List, [],
  ◌∷◌, arith, All, length, replicate, get_elem?, Option-cases, ◌==◌,
}
use wd_broker.Prelude.Int.{pos, ◌*ℤ◌, ◌≤ℤ◌}
use wd_broker.Text.{Bytes, str_eq_iff, c_string}
use wd_broker.Scan.{skip_spaces}
use wd_broker.Scan.Laws.{scan_set-word}
use wd_broker.Client.{Client, zero_client}
use wd_broker.Slots.First.{Nowhere}
use wd_broker.Handler.Invariant.{SlotInv}
use wd_broker.Handler.Unique.{UniqueNames}
use wd_broker.Heartbeat.{trunc_div}
use wd_broker.ConfigText.{trim, read_lines, scan_key_value, scan_section}
use wd_broker.ConfigFile.Steps.{
  Announced, ParserInv, Ensures, Ensures-if, set_option-ParserInv, add_client-ParserInv,
}
use wd_broker.ConfigFile.Keeps.{parse_lines-Ensures}
use wd_broker.ConfigFile.{
  Build, World, Parser, Parse, ok, fatal, is_comment, parse_line, initial_parser, announced_again,
  has_duplicate, final_checks, parse_config, timer_period_s, wd_hw_timeout_min_s,
  wd_hw_timeout_max_s, wd_reboot_timeout_min_s, wd_reboot_timeout_max_s,
}

abbrev pub AnnouncedAs : Bytes → Client → Type 0
AnnouncedAs name c = (c.anounced ≡ true) × (c.name ≡ name)

-- The names of the announced clients differ from one another.
abbrev pub UniqueAnnounced : List Client → Type 0
UniqueAnnounced [] = Unit {0}
UniqueAnnounced (c ∷ cs) =
    (c.anounced ≡ true → Nowhere (AnnouncedAs c.name) cs) × UniqueAnnounced cs

announced_again-Nowhere :
    (name : Bytes) (cs : List Client)
    → announced_again name cs ≡ false
    → Nowhere (AnnouncedAs name) cs
unfolding announced_again
announced_again-Nowhere name [] e = tt
announced_again-Nowhere name (c ∷ cs) e =
    (λ a. ground (arith, str_eq_iff name c.name), announced_again-Nowhere name cs (ground arith))

-- The two nested loops over the table find every pair of announced clients of one name.
has_duplicate-UniqueAnnounced : (cs : List Client) → has_duplicate cs ≡ false → UniqueAnnounced cs
unfolding has_duplicate
has_duplicate-UniqueAnnounced [] e = tt
has_duplicate-UniqueAnnounced (c ∷ cs) e = (
  λ a. announced_again-Nowhere c.name cs (ground arith),
  has_duplicate-UniqueAnnounced cs (ground arith),
)

scan_section-length : (s name left : Bytes) → scan_section s ≡ some (name, left) → length name ≤ 63
unfolding scan_section
scan_section-length s name left e =
    ground (arith, scan_set-word (λ c. not (c == b']')) 63 (skip_spaces (drop 7 s)) name left)

zero_client-Announced : Announced zero_client
zero_client-Announced = record {
  slot = record {
    exclusive = refl;
    id = λ l. absurd (cc);
    timeout_min = λ l. absurd (cc);
    timeout_max = λ l. absurd (cc);
    name_fits = λ l. absurd (cc);
    name_bytes = λ l. absurd (cc);
  };
  inactive = refl;
}

zeros : (n : ℕ) → All Announced (replicate n zero_client)
zeros zero = tt
zeros (suc n) = (zero_client-Announced, zeros n)

length-replicate : (n : ℕ) → length (replicate n zero_client) ≡ n
length-replicate zero = refl
length-replicate (suc n) = ap suc (length-replicate n)

module _ (world : World) (build : Build) where
  parse_line-ParserInv :
      (line : ℕ) (text : Bytes) (p : Parser)
      → ParserInv build p
      → Ensures (ParserInv build) (parse_line world build line text p)
  unfolding parse_line
  parse_line-ParserInv line text p v =
      let t = trim (c_string text) in
      Ensures-if (ParserInv build) (is_comment t) _ _ (λ e. v)
        λ e. elim (Option-cases (scan_key_value t)) [
          | inr ((key, val), k) ↦ rw k (set_option-ParserInv build line (trim key) (trim val) p v)
          | inl k ↦ elim (Option-cases (scan_section t)) [
            | inr ((name, left), s) ↦
                rw (k, s)
                  (add_client-ParserInv build world line t name p
                    (scan_section-length t name left s) v)
            | inl s ↦ rw (k, s) tt
          ]
        ]

  initial-ParserInv : ParserInv build (initial_parser build)
  initial-ParserInv = record {
    wd_min = omega arith;
    wd_max = omega arith;
    reboot_min = omega arith;
    reboot_max = omega arith;
    slots = zeros build.max_clients;
    size = length-replicate build.max_clients;
    count = omega arith;
    first = inl refl;
  }

-- What `main` has behind `parse_config`: times in range, a full table of well-formed slots of which
-- none is active, at least one announced client in strict mode, and announced names that differ with
-- `unique_clients`.
pub record Loaded (build : Build) (p : Parser) : Type 0 where
  pub wd_min : wd_hw_timeout_min_s ≤ℤ p.config.wd_timeout_s
  pub wd_max : p.config.wd_timeout_s ≤ℤ wd_hw_timeout_max_s
  pub reboot_min : wd_reboot_timeout_min_s ≤ℤ p.config.reboot_timeout_s
  pub reboot_max : p.config.reboot_timeout_s ≤ℤ wd_reboot_timeout_max_s
  pub size : length p.clients ≡ build.max_clients
  pub slots : All SlotInv p.clients
  pub inactive : All (λ c. c.active ≡ false) p.clients
  pub strict :
      p.config.strict_clients ≡ true
      → (c : Client) × (get_elem? p.clients 0 ≡ some c) × (c.anounced ≡ true)
  pub unique : p.config.unique_clients ≡ true → UniqueAnnounced p.clients

Announced-slots :
    (cs : List Client) → All Announced cs → All SlotInv cs × All (λ c. c.active ≡ false) cs
Announced-slots [] h = (tt, tt)
Announced-slots (c ∷ cs) h =
    let (a, b) = Announced-slots cs h.1 in ((h.0.slot, a), (h.0.inactive, b))

final_checks-Loaded :
    (build : Build) (p q : Parser) → ParserInv build p → final_checks p ≡ ok q → Loaded build q
unfolding final_checks
final_checks-Loaded build p q v e =
    let same : p ≡ q = ground arith in
    let (slots, inactive) = Announced-slots p.clients v.slots in
    rw (← same) (record {
      wd_min = v.wd_min;
      wd_max = v.wd_max;
      reboot_min = v.reboot_min;
      reboot_max = v.reboot_max;
      size = v.size;
      slots = slots;
      inactive = inactive;
      strict = λ s. elim v.first [ inl z ↦ absurd (ground (arith, e, s, z)) | inr a ↦ a ];
      unique = λ u. has_duplicate-UniqueAnnounced p.clients (ground (arith, e, u));
    })

parse_lines-Loaded :
    (build : Build) (r : Parse Parser) (q : Parser)
    → Ensures (ParserInv build) r
    → (elim r [ ok p ↦ final_checks p | fatal why line ↦ fatal why line ]) ≡ ok q
    → Loaded build q
parse_lines-Loaded build (ok p) q v e = final_checks-Loaded build p q v e
parse_lines-Loaded build (fatal why line) q v e = absurd (cc)

-- Whatever a configuration file holds: if `parse_config` accepts it, the watchdog timeout is 10 to 60
-- seconds and the reboot timeout 10 to 300; the table has WD_MAX_CLIENTS slots, all well-formed and
-- none active; in strict mode a client is announced; and with `unique_clients` no two announced
-- clients share a name.
pub parse_config-Loaded :
    (world : World) (build : Build) (file : Option Bytes) (p : Parser)
    → parse_config world build file ≡ ok p
    → Loaded build p
unfolding parse_config
parse_config-Loaded world build none p e = absurd (cc)
parse_config-Loaded world build (some bytes) p e =
    parse_lines-Loaded build _ p
      (parse_lines-Ensures world build (ParserInv build) (parse_line-ParserInv world build)
        (read_lines bytes) 0 (initial_parser build) (initial-ParserInv world build))
      e

-- The timer of an accepted configuration runs out every 5 to 30 seconds, so that the watchdog's
-- timeout spans at least two of its periods.
pub timer_period_s-bounds :
    (world : World) (build : Build) (file : Option Bytes) (p : Parser)
    → parse_config world build file ≡ ok p
    → let t = timer_period_s p.config in
      (pos 5 ≤ℤ t) × (t ≤ℤ pos 30) × (t *ℤ pos 2 ≤ℤ p.config.wd_timeout_s)
unfolding timer_period_s trunc_div ◌*ℤ◌
timer_period_s-bounds world build file p e =
    let l = parse_config-Loaded world build file p e in ground (arith, l)

-- Before the first command no two active clients share a name: none is active.
pub inactive-UniqueNames : (cs : List Client) → All (λ c. c.active ≡ false) cs → UniqueNames cs
inactive-UniqueNames [] h = tt
inactive-UniqueNames (c ∷ cs) h = ((λ a. absurd (cc)), inactive-UniqueNames cs h.1)
