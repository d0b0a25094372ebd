-- ===== src/Print/Decimal.antt =====
-- What is printed in decimal is scanned as the same number.
use wd_broker.Prelude.{
  ℕ, zero, suc, ◌+◌, ◌-◌, ◌*◌, ◌/◌, ◌%◌, ◌^◌, ◌≤◌, ◌<◌, ◌≡◌, refl, ap, ◌∙◌, true, false, some, [],
  ◌∷◌, ◌++◌, arith, length, length-append, ltb, Bool, Bool-cases, inl, inr,
}
use mathlib.Core.List.{append_assoc}
use wd_broker.Prelude.Int.{pos}
use wd_broker.Text.{Bytes, all_bytes, is_digit, is_space, c_string}
use wd_broker.Scan.{
  digits_value, after_digits, starts_with_digit, scan_uint, scan_int, atoi, to_int, signed32,
  skip_spaces, minus, after_sign, to_uint,
}
use wd_broker.Scan.Laws.{Stops}
use wd_broker.Print.{print_digits, print_nat}

digits_value-digit :
    (acc d : ℕ) (s : Bytes)
    → d < 10
    → digits_value acc ((b'0' + d) ∷ s) ≡ digits_value (acc * 10 + d) s
unfolding digits_value is_digit
digits_value-digit acc d s h =
    let same : acc * 10 + (48 + d - 48) ≡ acc * 10 + d = omega arith in
    ground (arith, ap (λ k. digits_value k s) same)

digits_value-print_digits :
    (fuel n : ℕ) (s : Bytes)
    → n < fuel
    → digits_value 0 (print_digits fuel n ++ s) ≡ digits_value n s
unfolding print_digits
digits_value-print_digits zero n s h = absurd (omega arith)
digits_value-print_digits (suc fuel) n s h = elim (Bool-cases (ltb n 10)) [
  | inl e ↦
      rw e (digits_value-digit 0 n s (ground (arith, e)) ∙ ap (λ k. digits_value k s) (omega arith))
  | inr e ↦
      rw (e, append_assoc (print_digits fuel (n / 10)) ((48 + n % 10) ∷ []) s)
        (digits_value-print_digits fuel (n / 10) ((48 + n % 10) ∷ s) (ground (arith, e))
          ∙ digits_value-digit (n / 10) (n % 10) s (omega arith)
          ∙ ap (λ k. digits_value k s) (omega arith))
]

after_digits-print_digits :
    (fuel n : ℕ) (s : Bytes) → n < fuel → after_digits (print_digits fuel n ++ s) ≡ after_digits s
unfolding print_digits after_digits is_digit
after_digits-print_digits zero n s h = absurd (omega arith)
after_digits-print_digits (suc fuel) n s h = elim (Bool-cases (ltb n 10)) [
  | inl e ↦ rw e (ground (arith, e))
  | inr e ↦
      rw (e, append_assoc (print_digits fuel (n / 10)) ((48 + n % 10) ∷ []) s)
        (after_digits-print_digits fuel (n / 10) ((48 + n % 10) ∷ s) (ground (arith, e))
          ∙ ground arith)
]

-- A text that begins with a digit.
abbrev pub Leads : Bytes → Type 0
Leads [] = ⊥
Leads (c ∷ cs) = is_digit c ≡ true

print_digits-Leads : (fuel n : ℕ) (s : Bytes) → n < fuel → Leads (print_digits fuel n ++ s)
unfolding print_digits is_digit
print_digits-Leads zero n s h = absurd (omega arith)
print_digits-Leads (suc fuel) n s h = elim (Bool-cases (ltb n 10)) [
  | inl e ↦ rw e (ground (arith, e))
  | inr e ↦
      rw (e, append_assoc (print_digits fuel (n / 10)) ((48 + n % 10) ∷ []) s)
        (print_digits-Leads fuel (n / 10) ((48 + n % 10) ∷ s) (ground (arith, e)))
]

length-print_digits : (k fuel n : ℕ) → n < 10 ^ suc k → length (print_digits fuel n) ≤ suc k
unfolding print_digits
length-print_digits k zero n h = omega arith
length-print_digits zero (suc fuel) n h = ground (arith, h)
length-print_digits (suc k) (suc fuel) n h = ground (
  arith,
  length-print_digits k fuel (n / 10) (omega (arith, h)),
  length-append (print_digits fuel (n / 10)) ((48 + n % 10) ∷ []),
)

digits_value-Stops : (n : ℕ) (s : Bytes) → Stops is_digit s → digits_value n s ≡ n
unfolding digits_value
digits_value-Stops n [] h = refl
digits_value-Stops n (c ∷ s) h = rw h refl

after_digits-Stops : (s : Bytes) → Stops is_digit s → after_digits s ≡ s
unfolding after_digits
after_digits-Stops [] h = refl
after_digits-Stops (c ∷ s) h = rw h refl

scan_uint-Leads :
    (t : Bytes)
    → Leads t
    → scan_uint (32 ∷ t) ≡ some (to_uint false (digits_value 0 t), after_digits t)
unfolding scan_uint skip_spaces is_space minus after_sign starts_with_digit is_digit
scan_uint-Leads [] h = absurd h
scan_uint-Leads (c ∷ t) h = ground arith

-- `%u` behind a blank reads what `%u` wrote.
pub scan_uint-print_nat :
    (n : ℕ) (s : Bytes)
    → n < 2 ^ 32
    → Stops is_digit s
    → scan_uint (32 ∷ (print_nat n ++ s)) ≡ some (n, s)
unfolding print_nat to_uint
scan_uint-print_nat n s h k =
    scan_uint-Leads (print_nat n ++ s) (print_digits-Leads (suc n) n s (omega arith))
    ∙ rw
        (
          digits_value-print_digits (suc n) n s (omega arith),
          after_digits-print_digits (suc n) n s (omega arith),
          digits_value-Stops n s k,
          after_digits-Stops s k,
        )
        (ground arith)

pub length-print_nat_timeout : (n : ℕ) → n ≤ 300_000 → length (print_nat n) ≤ 6
unfolding print_nat
length-print_nat_timeout n h = length-print_digits 5 (suc n) n (omega arith)

c_string-print_digits :
    (fuel n : ℕ) (s : Bytes)
    → c_string (print_digits fuel n ++ s) ≡ print_digits fuel n ++ c_string s
unfolding print_digits c_string
c_string-print_digits zero n s = refl
c_string-print_digits (suc fuel) n s = elim (Bool-cases (ltb n 10)) [
  | inl e ↦ rw e (ground arith)
  | inr e ↦
      rw (e, append_assoc (print_digits fuel (n / 10)) ((48 + n % 10) ∷ []) s)
        (c_string-print_digits fuel (n / 10) ((48 + n % 10) ∷ s)
          ∙ ground
              (arith, append_assoc (print_digits fuel (n / 10)) ((48 + n % 10) ∷ []) (c_string s)))
]

-- Digits end no string.
pub c_string-print_nat :
    (n : ℕ) (s : Bytes) → c_string (print_nat n ++ s) ≡ print_nat n ++ c_string s
unfolding print_nat
c_string-print_nat n s = c_string-print_digits (suc n) n s

scan_int-Leads :
    (t : Bytes)
    → Leads t
    → scan_int (32 ∷ t) ≡ some (to_int false (digits_value 0 t), after_digits t)
unfolding scan_int skip_spaces is_space minus after_sign starts_with_digit is_digit
scan_int-Leads [] h = absurd h
scan_int-Leads (c ∷ t) h = ground arith

-- `%d` behind a blank reads what `%d` wrote of a number that is not negative.
pub scan_int-print_nat :
    (n : ℕ) (s : Bytes)
    → n < 2 ^ 31
    → Stops is_digit s
    → scan_int (32 ∷ (print_nat n ++ s)) ≡ some (pos n, s)
unfolding print_nat to_int signed32
scan_int-print_nat n s h k =
    scan_int-Leads (print_nat n ++ s) (print_digits-Leads (suc n) n s (omega arith))
    ∙ rw
        (
          digits_value-print_digits (suc n) n s (omega arith),
          after_digits-print_digits (suc n) n s (omega arith),
          digits_value-Stops n s k,
          after_digits-Stops s k,
        )
        (ground arith)

atoi-Leads : (t : Bytes) → Leads t → atoi (32 ∷ t) ≡ to_int false (digits_value 0 t)
unfolding atoi skip_spaces is_space minus after_sign is_digit
atoi-Leads [] h = absurd h
atoi-Leads (c ∷ t) h = ground arith

pub atoi-print_nat :
    (n : ℕ) (s : Bytes) → n < 2 ^ 31 → Stops is_digit s → atoi (32 ∷ (print_nat n ++ s)) ≡ pos n
unfolding print_nat to_int signed32
atoi-print_nat n s h k =
    atoi-Leads (print_nat n ++ s) (print_digits-Leads (suc n) n s (omega arith))
    ∙ rw (digits_value-print_digits (suc n) n s (omega arith), digits_value-Stops n s k)
        (ground arith)

pub all_bytes-append :
    (p : ℕ → Bool) (xs ys : Bytes)
    → all_bytes p xs ≡ true
    → all_bytes p ys ≡ true
    → all_bytes p (xs ++ ys) ≡ true
unfolding all_bytes
all_bytes-append p [] ys h k = k
all_bytes-append p (x ∷ xs) ys h k = ground (arith, all_bytes-append p xs ys (ground arith) k)

all_digits : (fuel n : ℕ) → all_bytes is_digit (print_digits fuel n) ≡ true
unfolding print_digits all_bytes is_digit
all_digits zero n = refl
all_digits (suc fuel) n = elim (Bool-cases (ltb n 10)) [
  | inl e ↦ rw e (ground (arith, e))
  | inr e ↦ rw e (
      all_bytes-append is_digit (print_digits fuel (n / 10)) ((48 + n % 10) ∷ [])
        (all_digits fuel (n / 10)) (ground arith))
]

pub all_bytes-print_nat : (n : ℕ) → all_bytes is_digit (print_nat n) ≡ true
unfolding print_nat
all_bytes-print_nat n = all_digits (suc n) n
