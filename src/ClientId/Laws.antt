-- ===== src/ClientId/Laws.antt =====
-- The ids that the broker makes, and those that it accepts.
use wd_broker.Prelude.{
  ℕ, ◌*◌, ◌/◌, ◌%◌, ◌<◌, ◌≡◌, ◌≢◌, refl, sym, ap, ◌∙◌, ◌-◌, if◌then◌else◌, Bool, true, ◌&&◌, ◌||◌,
  [], ◌∷◌, ◌++◌, map, arith, leb, length, inl, inr, All, Option-cases,
}
use mathlib.Core.Path.{ap₂}
use wd_broker.Text.{Bytes, is_space, is_xdigit, to_lower, all_bytes}
use wd_broker.Scan.{scan_word, not_space}
use wd_broker.Scan.Laws.{scan_word-append, scan_word-blank}
use wd_broker.ClientId.{
  Entropy, hex_digit, raw_bytes, to_hex, make_client_id, parsed, check_client_id, parse_client_id,
}

abbrev pub is_lower_hex : ℕ → Bool
is_lower_hex c = (leb b'0' c && leb c b'9') || (leb b'a' c && leb c b'f')

-- Sixteen lower-case hexadecimal digits.
abbrev pub IsClientId : Bytes → Type 0
IsClientId s = (length s ≡ 16) × (all_bytes is_lower_hex s ≡ true)

hex_digit-lower : (d : ℕ) → d < 16 → is_lower_hex (hex_digit d) ≡ true
unfolding hex_digit
hex_digit-lower d h = ground arith

to_hex-lower : (bs : Bytes) → all_bytes is_lower_hex (to_hex bs) ≡ true
unfolding to_hex all_bytes
to_hex-lower [] = refl
to_hex-lower (b ∷ bs) =
    ground (arith, hex_digit-lower (b / 16 % 16), hex_digit-lower (b % 16), to_hex-lower bs)

length-to_hex : (bs : Bytes) → length (to_hex bs) ≡ 2 * length bs
unfolding to_hex
length-to_hex [] = refl
length-to_hex (b ∷ bs) = omega (arith, length-to_hex bs)

length-raw_bytes : (e : Entropy) → length (raw_bytes e) ≡ 8
unfolding raw_bytes
length-raw_bytes e = ground arith

-- Whatever the sources of randomness give, `make_clientID` returns sixteen lower-case hexadecimal
-- digits.
pub make_client_id-IsClientId : (e : Entropy) → IsClientId (make_client_id e)
unfolding make_client_id
make_client_id-IsClientId e =
    (omega (arith, length-to_hex (raw_bytes e), length-raw_bytes e), to_hex-lower (raw_bytes e))

lower_hex-not_space : (s : Bytes) → all_bytes is_lower_hex s ≡ true → all_bytes not_space s ≡ true
unfolding all_bytes is_space
lower_hex-not_space [] h = refl
lower_hex-not_space (c ∷ s) h = ground (arith, lower_hex-not_space s)

lower_hex-is_xdigit : (s : Bytes) → all_bytes is_lower_hex s ≡ true → all_bytes is_xdigit s ≡ true
unfolding all_bytes is_xdigit
lower_hex-is_xdigit [] h = refl
lower_hex-is_xdigit (c ∷ s) h = ground (arith, lower_hex-is_xdigit s)

map-to_lower_lower_hex : (s : Bytes) → all_bytes is_lower_hex s ≡ true → map to_lower s ≡ s
unfolding all_bytes to_lower
map-to_lower_lower_hex [] h = refl
map-to_lower_lower_hex (c ∷ s) h = ground (arith, map-to_lower_lower_hex s)

to_lower-lower_hex :
    (s : Bytes) → all_bytes is_xdigit s ≡ true → all_bytes is_lower_hex (map to_lower s) ≡ true
unfolding all_bytes is_xdigit to_lower
to_lower-lower_hex [] h = refl
to_lower-lower_hex (c ∷ s) h = ground (arith, to_lower-lower_hex s)

length-map : (f : ℕ → ℕ) (s : Bytes) → length (map f s) ≡ length s
length-map f [] = refl
length-map f (c ∷ s) = omega (arith, length-map f s)

check_client_id_lem : (id : Bytes) → IsClientId id → check_client_id id ≡ parsed id
unfolding check_client_id
check_client_id_lem id h = ground (arith, lower_hex-is_xdigit id h.1, map-to_lower_lower_hex id h.1)

check_client_id-IsClientId :
    (raw : Bytes) {id : Bytes} → check_client_id raw ≡ parsed id → IsClientId id
unfolding check_client_id
check_client_id-IsClientId raw e = ground (arith, to_lower-lower_hex raw, length-map to_lower raw)

-- An id that `parse_clientID` accepts, from any text, is sixteen lower-case hexadecimal digits.
pub parse_client_id-IsClientId :
    (args id : Bytes) → parse_client_id args ≡ parsed id → IsClientId id
unfolding parse_client_id
parse_client_id-IsClientId args id e = elim (Option-cases (scan_word 16 args)) [
  | inl n ↦ absurd (ground (arith, n))
  | inr ((raw, left), w) ↦ elim (Option-cases (scan_word 15 left)) [
    | inl n ↦ check_client_id-IsClientId raw (ground (arith, w, n))
    | inr (x, m) ↦ absurd (ground (arith, w, m))
  ]
]

-- An id, with white space before and behind it, is accepted as it is.
pub parse_client_id_lem :
    (before id after : Bytes)
    → all_bytes is_space before ≡ true
    → IsClientId id
    → all_bytes is_space after ≡ true
    → parse_client_id (before ++ (id ++ after)) ≡ parsed id
unfolding parse_client_id
parse_client_id_lem before id after b h a = ground (
  arith,
  scan_word-append 16 before id after b (nonempty_id id h) (omega arith)
      (lower_hex-not_space id h.1) (inl h.0),
  scan_word-blank 15 after a,
  check_client_id_lem id h,
)
  where
    nonempty_id : (s : Bytes) → IsClientId s → s ≢ []
    nonempty_id s h e = ground arith

abbrev hex_value : ℕ → ℕ
hex_value c = if leb c b'9' then c - b'0' else c - 87

hex_value-hex_digit : (d : ℕ) → d < 16 → hex_value (hex_digit d) ≡ d
unfolding hex_digit
hex_value-hex_digit d h = ground arith

hex_digit-injective : (a b : ℕ) → a < 16 → b < 16 → hex_digit a ≡ hex_digit b → a ≡ b
hex_digit-injective a b ha hb e =
    sym (hex_value-hex_digit a ha) ∙ ap hex_value e ∙ hex_value-hex_digit b hb

abbrev pub IsByte : ℕ → Type 0
IsByte b = b < 256

-- Different random bytes give different ids.
to_hex-injective : (bs cs : Bytes) → All IsByte bs → All IsByte cs → to_hex bs ≡ to_hex cs → bs ≡ cs
unfolding to_hex
to_hex-injective [] [] h k e = refl
to_hex-injective [] (c ∷ cs) h k e = absurd (cc)
to_hex-injective (b ∷ bs) [] h k e = absurd (cc)
to_hex-injective (b ∷ bs) (c ∷ cs) h k e = ap₂ ◌∷◌ same (to_hex-injective bs cs h.1 k.1 (cc))
  where
    high : b / 16 % 16 ≡ c / 16 % 16
    high = hex_digit-injective (b / 16 % 16) (c / 16 % 16) (omega arith) (omega arith) cc

    low : b % 16 ≡ c % 16
    low = hex_digit-injective (b % 16) (c % 16) (omega arith) (omega arith) cc

    same : b ≡ c
    same = omega (arith, high, low, h.0, k.0)

-- The id determines the eight random bytes that it was made from: ids coincide only if the
-- randomness does.
pub make_client_id-injective :
    (e f : Entropy)
    → All IsByte (raw_bytes e)
    → All IsByte (raw_bytes f)
    → make_client_id e ≡ make_client_id f
    → raw_bytes e ≡ raw_bytes f
make_client_id-injective e f h k same =
    to_hex-injective (raw_bytes e) (raw_bytes f) h k (unfold make_client_id in same)
