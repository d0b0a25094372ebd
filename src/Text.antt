-- ===== src/Text.antt =====
-- C characters and strings, as the sources use them: a string is the list of its bytes, without
-- the NUL that ends it. The character classes are those of the C locale, which the programs keep.
use Prim.Native.Char.{code}
use Prim.Native.String.{String}
use wd_broker.Prelude.{
  ℕ, ◌+◌, ◌≡◌, refl, ◌↔◌, Bool, true, false, ◌&&◌, ◌||◌, List, [], ◌∷◌, arith, leb, ◌==◌,
  if◌then◌else◌, take,
}

abbrev pub Bytes : Type 0
Bytes = List ℕ

-- The bytes of an ASCII literal.
abbrev pub codes : String → Bytes
codes String.[] = []
codes (String.◌∷◌ c s) = code c ∷ codes s

unfoldable pub is_space : ℕ → Bool
is_space c = c == 32 || (leb 9 c && leb c 13)

unfoldable pub is_print : ℕ → Bool
is_print c = leb 32 c && leb c 126

unfoldable pub is_digit : ℕ → Bool
is_digit c = leb b'0' c && leb c b'9'

unfoldable pub is_xdigit : ℕ → Bool
unfolding is_digit
is_xdigit c = is_digit c || (leb b'a' c && leb c b'f') || (leb b'A' c && leb c b'F')

unfoldable pub to_lower : ℕ → ℕ
to_lower c = if leb b'A' c && leb c b'Z' then c + 32 else c

-- `strcmp(a, b) == 0`
unfoldable pub str_eq : Bytes → Bytes → Bool
str_eq [] [] = true
str_eq [] (y ∷ ys) = false
str_eq (x ∷ xs) [] = false
str_eq (x ∷ xs) (y ∷ ys) = x == y && str_eq xs ys

-- `strncmp(a, b, n) == 0`
unfoldable pub strncmp_eq : Bytes → Bytes → ℕ → Bool
unfolding str_eq
strncmp_eq a b n = str_eq (take n a) (take n b)

-- `strncpy(dst, src, n)`: what `dst`, of n bytes, then holds.
abbrev pub strncpy : Bytes → ℕ → Bytes
strncpy s n = take n s

-- The string in a buffer: the bytes before the first NUL.
unfoldable pub c_string : Bytes → Bytes
c_string [] = []
c_string (c ∷ cs) = let rest = c ∷ c_string cs in if c == 0 then [] else rest

pub str_eq_iff : (a b : Bytes) → (str_eq a b ≡ true) ↔ (a ≡ b)
unfolding str_eq
str_eq_iff [] [] = ground arith
str_eq_iff [] (y ∷ ys) = ground arith
str_eq_iff (x ∷ xs) [] = ground arith
str_eq_iff (x ∷ xs) (y ∷ ys) = ground (arith, str_eq_iff xs ys)

pub str_eq_refl : (a : Bytes) → str_eq a a ≡ true
str_eq_refl a = (str_eq_iff a a).1 refl

-- The whole string, if every byte of it satisfies `p`.
unfoldable pub all_bytes : (ℕ → Bool) → Bytes → Bool
all_bytes p [] = true
all_bytes p (c ∷ cs) = p c && all_bytes p cs

pub strncmp_eq_iff : (a b : Bytes) (n : ℕ) → (strncmp_eq a b n ≡ true) ↔ (take n a ≡ take n b)
unfolding strncmp_eq
strncmp_eq_iff a b n = str_eq_iff (take n a) (take n b)
