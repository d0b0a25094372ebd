-- ===== src/ClientId/Exact.antt =====
-- Which texts `parse_clientID` of src/wd-broker.c accepts, and the id that it takes from them.
use wd_broker.Prelude.{
  ℕ, zero, suc, ◌≡◌, ◌≢◌, ◌↔◌, refl, ap, ◌∙◌, Bool, true, none, some, inl, inr, [], ◌∷◌, ◌++◌, map,
  arith, length, Option-cases, Bool-cases,
}
use wd_broker.Text.{Bytes, is_space, is_xdigit, to_lower, all_bytes}
use wd_broker.Scan.{skip_spaces, span_taken, span_left, scan_set, scan_word, not_space}
use wd_broker.Scan.Laws.{scan_word-append, scan_word-blank}
use wd_broker.ClientId.{parsed, check_client_id, parse_client_id}

-- A text of sixteen hexadecimal digits, in upper or lower case, between white space; `id` is the digits in
-- lower case.
abbrev pub IsIdText : Bytes → Bytes → Type 0
IsIdText args id =
    (before : Bytes) × (raw : Bytes) × (after : Bytes) × (args ≡ before ++ (raw ++ after))
    × (all_bytes is_space before ≡ true)
    × (length raw ≡ 16)
    × (all_bytes is_xdigit raw ≡ true)
    × (all_bytes is_space after ≡ true)
    × (id ≡ map to_lower raw)

skip_spaces-split :
    (s : Bytes) → (b : Bytes) × (s ≡ b ++ skip_spaces s) × (all_bytes is_space b ≡ true)
unfolding skip_spaces all_bytes
skip_spaces-split [] = ([], refl, refl)
skip_spaces-split (c ∷ s) = elim (Bool-cases (is_space c)) [
  | inl space ↦
      let (b, e, h) = skip_spaces-split s in
      (c ∷ b, rw space (ap (◌∷◌ c) e), ground (arith, space, h))
  | inr other ↦ ([], rw other refl, refl)
]

span-append : (p : ℕ → Bool) (n : ℕ) (s : Bytes) → s ≡ span_taken p n s ++ span_left p n s
unfolding span_taken span_left
span-append p zero s = refl
span-append p (suc n) [] = refl
span-append p (suc n) (c ∷ s) = ground (arith, span-append p n s)

scan_word-split :
    (n : ℕ) (s w left : Bytes)
    → scan_word n s ≡ some (w, left)
    → (b : Bytes) × (s ≡ b ++ (w ++ left)) × (all_bytes is_space b ≡ true)
unfolding scan_word scan_set
scan_word-split n s w left e =
    let (b, eb, h) = skip_spaces-split s in
    let joined : skip_spaces s ≡ w ++ left =
      ground (arith, e, span-append not_space n (skip_spaces s)) in
    (b, eb ∙ ap (λ x. b ++ x) joined, h)

scan_word-none : (n : ℕ) (s : Bytes) → scan_word (suc n) s ≡ none → all_bytes is_space s ≡ true
unfolding scan_word scan_set skip_spaces span_taken span_left all_bytes
scan_word-none n [] e = refl
scan_word-none n (c ∷ s) e = ground (arith, scan_word-none n s)

check_client_id-parsed :
    (raw id : Bytes)
    → (check_client_id raw ≡ parsed id)
      ↔ ((length raw ≡ 16) × (all_bytes is_xdigit raw ≡ true) × (id ≡ map to_lower raw))
unfolding check_client_id
check_client_id-parsed raw id = ground arith

xdigit-not_space : (s : Bytes) → all_bytes is_xdigit s ≡ true → all_bytes not_space s ≡ true
unfolding all_bytes is_space is_xdigit
xdigit-not_space [] h = refl
xdigit-not_space (c ∷ s) h = ground (arith, xdigit-not_space s)

accepted : (args id : Bytes) → IsIdText args id → parse_client_id args ≡ parsed id
unfolding parse_client_id
accepted args id (before, raw, after, e, b, l, x, a, low) = ground (
  arith,
  e,
  scan_word-append 16 before raw after b nonempty (omega (arith, l)) (xdigit-not_space raw x)
      (inl l),
  scan_word-blank 15 after a,
  (check_client_id-parsed raw id).1 (l, x, low),
)
  where
    nonempty : raw ≢ []
    nonempty r = ground (arith, l, r)

split : (args id : Bytes) → parse_client_id args ≡ parsed id → IsIdText args id
unfolding parse_client_id
split args id e = elim (Option-cases (scan_word 16 args)) [
  | inl n ↦ absurd (ground (arith, n))
  | inr ((raw, left), w) ↦ elim (Option-cases (scan_word 15 left)) [
    | inl n ↦
        let (before, whole, blank) = scan_word-split 16 args raw left w in
        let (l, x, low) = (check_client_id-parsed raw id).0 (ground (arith, w, n)) in
        (before, raw, left, whole, blank, l, x, scan_word-none 14 left n, low)
    | inr (x, m) ↦ absurd (ground (arith, w, m))
  ]
]

-- `parse_clientID` accepts exactly the texts of sixteen hexadecimal digits between white space, and gives
-- the digits in lower case.
pub parse_client_id-IsIdText :
    (args id : Bytes) → (parse_client_id args ≡ parsed id) ↔ IsIdText args id
parse_client_id-IsIdText args id = (split args id, accepted args id)
