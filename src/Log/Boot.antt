-- ===== src/Log/Boot.antt =====
-- The text that log_bootstatus of src/wd-broker.c writes is never cut by its buffer.
use mathlib.Core.List.{append_assoc, append-nil}
use wd_broker.Prelude.{
  ℕ, ◌+◌, ◌-◌, ◌≤◌, ◌≡◌, refl, sym, ap, ◌∙◌, Bool, Bool-cases, inl, inr, false, List, [], ◌∷◌, ◌++◌,
  ◌||◌, All, arith, if◌then◌else◌, length, length-append, take-eq_self,
}
use wd_broker.Text.{Bytes, codes}
use wd_broker.Log.{
  LogEnv, BootFlag, WatchdogFlags, bootflags, is_set, append_flags, or_none, hex_digits,
  log_message, log_bootstatus,
}

-- The names of the flags that are set, in the table's order.
abbrev pub set_names : ℕ → List BootFlag → Bytes
set_names bootstatus [] = []
set_names bootstatus (f ∷ fs) =
    let rest = set_names bootstatus fs in if is_set bootstatus f then f.name ++ rest else rest

abbrev total : List BootFlag → ℕ
total [] = 0
total (f ∷ fs) = length f.name + total fs

append_flags-set_names :
    (bootstatus : ℕ) (fs : List BootFlag) (flags : Bytes)
    → length flags + total fs ≤ 127
    → append_flags bootstatus fs flags ≡ flags ++ set_names bootstatus fs
unfolding append_flags
append_flags-set_names bootstatus [] flags h = sym (append-nil flags)
append_flags-set_names bootstatus (f ∷ fs) flags h = elim (Bool-cases (is_set bootstatus f)) [
  | inl e ↦
      rw (e, take-eq_self (128 - length flags - 1) f.name (omega arith))
        (append_flags-set_names bootstatus fs (flags ++ f.name)
            (omega (arith, length-append flags f.name))
          ∙ append_assoc flags f.name (set_names bootstatus fs))
  | inr e ↦ rw e (append_flags-set_names bootstatus fs flags (omega arith))
]

abbrev pub any_set : ℕ → List BootFlag → Bool
any_set bootstatus [] = false
any_set bootstatus (f ∷ fs) = is_set bootstatus f || any_set bootstatus fs

abbrev NonEmpty : Bytes → Type 0
NonEmpty [] = ⊥
NonEmpty (c ∷ name) = Unit

or_none-append : (name rest : Bytes) → NonEmpty name → or_none (name ++ rest) ≡ name ++ rest
unfolding or_none
or_none-append [] rest h = absurd h
or_none-append (c ∷ name) rest h = refl

or_none-set_names :
    (bootstatus : ℕ) (fs : List BootFlag)
    → All (λ f. NonEmpty f.name) fs
    → or_none (set_names bootstatus fs)
      ≡ (if any_set bootstatus fs then set_names bootstatus fs else codes " none")
unfolding or_none
or_none-set_names bootstatus [] h = refl
or_none-set_names bootstatus (f ∷ fs) h = elim (Bool-cases (is_set bootstatus f)) [
  | inl e ↦ rw e (or_none-append f.name (set_names bootstatus fs) h.0)
  | inr e ↦ rw e (or_none-set_names bootstatus fs h.1)
]

-- The boot status is logged, at the level of information, as its eight hexadecimal digits with the
-- whole names of the flags that are set, in the table's order, or " none" when none is: whatever values
-- the flags have, the buffer of 128 bytes cuts nothing.
pub log_bootstatus-set_names :
    (e : LogEnv) (w : WatchdogFlags) (bootstatus : ℕ)
    → let fs = bootflags w in
      log_bootstatus e w bootstatus
      ≡ log_message e e.levels.info (
          codes "Boot status 0x"
          ++ (hex_digits 8 bootstatus
              ++ (codes ":"
                  ++ (if any_set bootstatus fs then set_names bootstatus fs else codes " none"))))
unfolding log_bootstatus
log_bootstatus-set_names e w bootstatus =
    ap
      (λ text.
        log_message e e.levels.info
          (codes "Boot status 0x" ++ (hex_digits 8 bootstatus ++ (codes ":" ++ text))))
      (ap or_none (append_flags-set_names bootstatus (bootflags w) [] (omega arith))
        ∙ or_none-set_names bootstatus (bootflags w) (tt, (tt, (tt, (tt, (tt, (tt, (tt, tt))))))))
