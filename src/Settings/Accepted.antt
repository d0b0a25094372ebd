-- ===== src/Settings/Accepted.antt =====
-- The final check of `parse_config` of src/wd-broker.c, and the length of the printed lines.
use wd_broker.Prelude.{
  ℕ, zero, suc, ◌≤◌, ◌≡◌, ◌≢◌, refl, Bool, true, false, List, [], ◌∷◌, ◌++◌, arith, All, length,
  length-append, inl, inr, Bool-cases, replicate, take-eq_self,
}
use wd_broker.Text.{Bytes, codes, all_bytes, is_space, is_print, str_eq, str_eq_iff}
use wd_broker.Print.{print_nat}
use wd_broker.Print.Decimal.{all_bytes-append, length-print_nat_timeout}
use wd_broker.Client.{zero_client}
use wd_broker.Handler.{valid_name_byte}
use wd_broker.ConfigFile.{World, announce, announced_again, has_duplicate}
use wd_broker.Settings.{
  Announced, print_bool, option_line, section_line, client_lines, announced_slots, IsAnnounced,
  Distinct, section_byte,
}
use wd_broker.Settings.Text.{IsLine, not_newline, all_bytes-imp}
use wd_broker.Settings.Lines.{valid-not_newline, section-not_newline}
use wd_broker.Settings.Options.{print_nat-valid}

-- The check for duplicates passes: different sections have different names.
again_nobody : (name : Bytes) (n : ℕ) → announced_again name (replicate n zero_client) ≡ false
unfolding announced_again
again_nobody name zero = refl
again_nobody name (suc n) = again_nobody name n

again_others :
    (world : World) (name : Bytes) (cs : List Announced) (i n : ℕ)
    → All (λ d. name ≢ d.name) cs
    → All IsAnnounced cs
    → announced_again name (announced_slots world i cs ++ replicate n zero_client) ≡ false
unfolding announced_again announce
again_others world name [] i n other a = again_nobody name n
again_others world name (c ∷ cs) i n other a =
    let whole = take-eq_self 64 c.name (omega (arith, a.0.fits)) in
    let differs : str_eq name c.name ≡ false = elim (Bool-cases (str_eq name c.name)) [
      | inl e ↦ absurd (other.0 ((str_eq_iff name c.name).0 e))
      | inr e ↦ e
    ] in
    rw (announced_again, whole, differs) (again_others world name cs (suc i) n other.1 a.1)

pub no_duplicate :
    (world : World) (cs : List Announced) (i n : ℕ)
    → Distinct cs
    → All IsAnnounced cs
    → has_duplicate (announced_slots world i cs ++ replicate n zero_client) ≡ false
unfolding has_duplicate announce
no_duplicate world [] i zero d a = refl
no_duplicate world [] i (suc n) d a = no_duplicate world [] i n d a
no_duplicate world (c ∷ cs) i n d a =
    let whole = take-eq_self 64 c.name (omega (arith, a.0.fits)) in
    rw (has_duplicate, whole, again_others world c.name cs (suc i) n d.0 a.1)
      (no_duplicate world cs (suc i) n d.1 a.1)

pub option_line-IsLine :
    (key val : Bytes)
    → length key ≤ 63
    → all_bytes not_newline key ≡ true
    → length val ≤ 127
    → all_bytes valid_name_byte val ≡ true
    → IsLine (option_line key val)
unfolding all_bytes
option_line-IsLine key val kl kb vl vb = record {
  fits = omega (arith, length-append key (b'=' ∷ val));
  bytes =
      all_bytes-append not_newline key (b'=' ∷ val) kb
        (all_bytes-imp valid_name_byte not_newline valid-not_newline val vb);
}

pub option_line-print_nat-IsLine :
    (key : Bytes) (n : ℕ)
    → length key ≤ 63
    → all_bytes not_newline key ≡ true
    → n ≤ 300_000
    → IsLine (option_line key (print_nat n))
option_line-print_nat-IsLine key n kl kb h =
    option_line-IsLine key (print_nat n) kl kb (omega (arith, length-print_nat_timeout n h))
      (print_nat-valid n)

pub option_line-print_bool-IsLine :
    (key : Bytes) (v : Bool)
    → length key ≤ 63
    → all_bytes not_newline key ≡ true
    → IsLine (option_line key (print_bool v))
unfolding all_bytes is_print is_space
option_line-print_bool-IsLine key true kl kb =
    option_line-IsLine key (codes "true") kl kb (omega arith) refl
option_line-print_bool-IsLine key false kl kb =
    option_line-IsLine key (codes "false") kl kb (omega arith) refl

section_line-IsLine : (c : Announced) → IsAnnounced c → IsLine (section_line c.name)
unfolding all_bytes
section_line-IsLine c a = record {
  fits = omega (arith, length-append c.name (codes "]"), a.fits);
  bytes = all_bytes-append not_newline (codes "[client ") (c.name ++ codes "]") refl (
      all_bytes-append not_newline c.name (codes "]")
        (all_bytes-imp section_byte not_newline section-not_newline c.name a.bytes) refl);
}

pub client_lines-IsLine : (cs : List Announced) → All IsAnnounced cs → All IsLine (client_lines cs)
unfolding all_bytes
client_lines-IsLine [] a = tt
client_lines-IsLine (c ∷ cs) a = (
  section_line-IsLine c a.0,
  (
    option_line-print_nat-IsLine (codes "timeout_ms") c.timeout_ms (omega arith) refl
        a.0.timeout_max,
    client_lines-IsLine cs a.1,
  ),
)
