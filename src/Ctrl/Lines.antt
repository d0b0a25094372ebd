-- ===== src/Ctrl/Lines.antt =====
-- How wd-ctrl takes a STATUS reply apart: the lines, and those that are no client's.
use mathlib.Core.List.{append-nil, append_assoc}
use wd_broker.Prelude.{
  ℕ, zero, suc, ◌-◌, ◌≤◌, ◌≡◌, ◌≢◌, refl, ap, ◌∙◌, inl, inr, Bool, true, not, some, none, List, [],
  ◌∷◌, ◌++◌, arith, ◌==◌, length, drop, All, Option-cases,
}
use wd_broker.Prelude.Int.{ℤ}
use wd_broker.Text.{Bytes, all_bytes}
use wd_broker.Scan.{
  not_space, skip_spaces, span_left, scan_set, scan_word, scan_int, scan_uint, after_sign,
  after_digits, starts_with_digit,
}
use wd_broker.Ctrl.{read_row, read_timeout, emit, tokens_from}

abbrev pub not_newline : ℕ → Bool
not_newline c = not (c == b'\n')

abbrev pub IsLine : Bytes → Type 0
IsLine s = (s ≢ []) × (all_bytes not_newline s ≡ true)

abbrev pub newlines : List Bytes → Bytes
newlines [] = []
newlines (t ∷ ts) = t ++ (b'\n' ∷ newlines ts)

tokens_from-line :
    (cur s rest : Bytes)
    → all_bytes not_newline s ≡ true
    → tokens_from cur (s ++ (b'\n' ∷ rest)) ≡ emit (cur ++ s) (tokens_from [] rest)
unfolding tokens_from all_bytes
tokens_from-line cur [] rest h = rw append-nil refl
tokens_from-line cur (c ∷ s) rest h =
    ground
      (arith, tokens_from-line (cur ++ c ∷ []) s rest (ground arith), append_assoc cur (c ∷ []) s)

-- The lines of a text are the tokens of `strtok_r`.
pub tokens_from-newlines : (ts : List Bytes) → All IsLine ts → tokens_from [] (newlines ts) ≡ ts
unfolding tokens_from
tokens_from-newlines [] h = refl
tokens_from-newlines ([] ∷ ts) h = absurd (h.0.0 refl)
tokens_from-newlines ((c ∷ t) ∷ ts) h =
    tokens_from-line [] (c ∷ t) (newlines ts) h.0.1
    ∙ ap (λ l. (c ∷ t) ∷ l) (tokens_from-newlines ts h.1)

-- Text without white space.
abbrev pub IsSolid : Bytes → Type 0
IsSolid s = all_bytes not_space s ≡ true

skip_spaces-IsSolid : (s : Bytes) → IsSolid s → skip_spaces s ≡ s
unfolding skip_spaces all_bytes
skip_spaces-IsSolid [] h = refl
skip_spaces-IsSolid (c ∷ s) h = ground arith

span_left-drop : (n : ℕ) (s : Bytes) → IsSolid s → span_left not_space n s ≡ drop n s
unfolding span_left all_bytes
span_left-drop zero s h = refl
span_left-drop (suc n) [] h = refl
span_left-drop (suc n) (c ∷ s) h = ground (arith, span_left-drop n s (ground arith))

drop-IsSolid : (n : ℕ) (s : Bytes) → IsSolid s → IsSolid (drop n s)
unfolding all_bytes
drop-IsSolid zero s h = h
drop-IsSolid (suc n) [] h = h
drop-IsSolid (suc n) (c ∷ s) h = drop-IsSolid n s (ground arith)

length-drop : (n : ℕ) (s : Bytes) → length (drop n s) ≡ length s - n
length-drop zero s = omega arith
length-drop (suc n) [] = omega arith
length-drop (suc n) (c ∷ s) = omega (arith, length-drop n s)

scan_word_rest :
    (n : ℕ) (s w left : Bytes)
    → IsSolid s
    → scan_word n s ≡ some (w, left)
    → IsSolid left × (length left ≡ length s - n)
unfolding scan_word scan_set
scan_word_rest n s w left h e =
    let same : left ≡ drop n s = ground (arith, skip_spaces-IsSolid s h, span_left-drop n s h) in
    rw same (drop-IsSolid n s h, length-drop n s)

after_digits_rest :
    (s : Bytes) → IsSolid s → IsSolid (after_digits s) × (length (after_digits s) ≤ length s)
unfolding after_digits all_bytes
after_digits_rest [] h = (refl, omega arith)
after_digits_rest (c ∷ s) h = ground (arith, after_digits_rest s (ground arith))

after_sign_rest :
    (s : Bytes) → IsSolid s → IsSolid (after_sign s) × (length (after_sign s) ≤ length s)
unfolding after_sign all_bytes
after_sign_rest [] h = (refl, omega arith)
after_sign_rest (c ∷ s) h = ground arith

scan_int_rest :
    (s left : Bytes) (v : ℤ)
    → IsSolid s
    → scan_int s ≡ some (v, left)
    → IsSolid left × (length left ≤ length s)
unfolding scan_int
scan_int_rest s left v h e =
    let (a, b) = after_sign_rest s h in
    let (c, d) = after_digits_rest (after_sign s) a in
    let same : left ≡ after_digits (after_sign s) = ground (arith, skip_spaces-IsSolid s h) in
    rw same (c, omega arith)

scan_uint-nil : (s : Bytes) → length s ≡ 0 → scan_uint s ≡ none
unfolding scan_uint skip_spaces after_sign starts_with_digit
scan_uint-nil [] h = refl
scan_uint-nil (c ∷ s) h = absurd (omega (arith, h))

-- A line without white space, of less than 80 bytes, is no client's.
pub read_row-IsSolid : (s : Bytes) → IsSolid s → length s ≤ 79 → read_row s ≡ none
unfolding read_row read_timeout
read_row-IsSolid s h l = elim (Option-cases (scan_word 16 s)) [
  | inl n ↦ rw (read_row, n) refl
  | inr ((id, r), a) ↦ elim (Option-cases (scan_int r)) [
    | inl n ↦ rw (read_row, a, n) refl
    | inr ((pid, q), b) ↦ elim (Option-cases (scan_word 63 q)) [
      | inl n ↦ rw (read_row, a, b, n) refl
      | inr ((name, left), c) ↦
          let (h1, l1) = scan_word_rest 16 s id r h a in
          let (h2, l2) = scan_int_rest r q pid h1 b in
          let (h3, l3) = scan_word_rest 63 q name left h2 c in
          rw (read_row, a, b, c, scan_uint-nil left (omega arith)) refl
    ]
  ]
]
