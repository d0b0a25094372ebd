-- ===== src/Scan.antt =====
-- The conversions of `sscanf` that the sources use, and `atoi`, as glibc has them with a 64-bit
-- `long`. A conversion takes the rest of the input and returns the value with what is left.
pub mod Laws
use wd_broker.Prelude.{
  ℕ, zero, suc, ◌+◌, ◌-◌, ◌*◌, ◌%◌, ◌^◌, Bool, false, not, ◌||◌, Option, none, some, [], ◌∷◌, ltb,
  leb, ◌==◌, if◌then◌else◌,
}
use wd_broker.Prelude.Int.{ℤ, pos, negsuc}
use wd_broker.Text.{Bytes, is_space, is_digit}

-- A blank in a format: any amount of white space.
unfoldable pub skip_spaces : Bytes → Bytes
unfolding is_space
skip_spaces [] = []
skip_spaces (c ∷ cs) = let rest = skip_spaces cs in if is_space c then rest else c ∷ cs

-- The longest prefix of at most `n` bytes that satisfy `p`, and what follows it.
unfoldable pub span_taken : (ℕ → Bool) → ℕ → Bytes → Bytes
span_taken p zero s = []
span_taken p (suc n) [] = []
span_taken p (suc n) (c ∷ cs) = let rest = c ∷ span_taken p n cs in if p c then rest else []

unfoldable pub span_left : (ℕ → Bool) → ℕ → Bytes → Bytes
span_left p zero s = s
span_left p (suc n) [] = []
span_left p (suc n) (c ∷ cs) = let rest = span_left p n cs in if p c then rest else c ∷ cs

-- A conversion of text fails on no byte at all.
nonempty : Bytes → Bytes → Option (Bytes × Bytes)
nonempty [] left = none
nonempty (c ∷ cs) left = some (c ∷ cs, left)

-- `%<n>[...]`, which skips no white space
unfoldable pub scan_set : (ℕ → Bool) → ℕ → Bytes → Option (Bytes × Bytes)
unfolding span_taken span_left nonempty
scan_set p n s = nonempty (span_taken p n s) (span_left p n s)

abbrev pub not_space : ℕ → Bool
not_space c = not (is_space c)

-- `%<n>s`
unfoldable pub scan_word : ℕ → Bytes → Option (Bytes × Bytes)
unfolding scan_set skip_spaces
scan_word n s = scan_set not_space n (skip_spaces s)

unfoldable pub digits_value : ℕ → Bytes → ℕ
unfolding is_digit
digits_value acc [] = acc
digits_value acc (c ∷ cs) =
    let rest = digits_value (acc * 10 + (c - b'0')) cs in if is_digit c then rest else acc

unfoldable pub after_digits : Bytes → Bytes
unfolding is_digit
after_digits [] = []
after_digits (c ∷ cs) = let rest = after_digits cs in if is_digit c then rest else c ∷ cs

unfoldable pub starts_with_digit : Bytes → Bool
unfolding is_digit
starts_with_digit [] = false
starts_with_digit (c ∷ cs) = is_digit c

-- An optional sign: whether it is a minus, and what follows it.
unfoldable pub minus : Bytes → Bool
minus [] = false
minus (c ∷ cs) = c == b'-'

unfoldable pub after_sign : Bytes → Bytes
after_sign [] = []
after_sign (c ∷ cs) = if c == b'-' || c == b'+' then cs else c ∷ cs

-- `strtoul`, stored in an `unsigned int`: the value saturates at 2^64 - 1, a minus negates it
-- modulo 2^64, and the store keeps the low 32 bits.
unfoldable pub to_uint : Bool → ℕ → ℕ
to_uint neg v =
    if leb (2 ^ 64) v
    then (2 ^ 64 - 1) % 2 ^ 32
    else if neg
    then (2 ^ 64 - v) % 2 ^ 64 % 2 ^ 32
    else v % 2 ^ 32

-- `%u`
unfoldable pub scan_uint : Bytes → Option (ℕ × Bytes)
unfolding skip_spaces minus after_sign starts_with_digit digits_value after_digits to_uint
scan_uint s =
    let t = skip_spaces s in
    let d = after_sign t in
    if starts_with_digit d
    then some (to_uint (minus t) (digits_value 0 d), after_digits d)
    else none

-- The `int` with these 32 bits.
unfoldable pub signed32 : ℕ → ℤ
signed32 w = if ltb w (2 ^ 31) then pos w else negsuc (2 ^ 32 - w - 1)

-- `(int)strtol(...)`: the value saturates at the ends of `long`, and the cast keeps 32 bits.
unfoldable pub to_int : Bool → ℕ → ℤ
unfolding signed32
to_int neg v =
    if neg
    then signed32 ((2 ^ 64 - (if ltb (2 ^ 63) v then 2 ^ 63 else v)) % 2 ^ 32)
    else signed32 ((if leb (2 ^ 63) v then 2 ^ 63 - 1 else v) % 2 ^ 32)

-- `atoi`, 0 if there is no digit
unfoldable pub atoi : Bytes → ℤ
unfolding skip_spaces minus after_sign digits_value to_int
atoi s = let t = skip_spaces s in to_int (minus t) (digits_value 0 (after_sign t))

-- `%d`
unfoldable pub scan_int : Bytes → Option (ℤ × Bytes)
unfolding skip_spaces minus after_sign starts_with_digit digits_value after_digits to_int
scan_int s =
    let t = skip_spaces s in
    let d = after_sign t in
    if starts_with_digit d then some (to_int (minus t) (digits_value 0 d), after_digits d) else none
