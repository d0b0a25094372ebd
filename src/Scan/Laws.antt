-- ===== src/Scan/Laws.antt =====
-- What the conversions return on text that they were made for.
use wd_broker.Prelude.{
  ℕ, zero, suc, ◌≤◌, ◌≡◌, ◌≢◌, refl, Bool, true, false, none, some, ◌⊎◌, [], ◌∷◌, ◌++◌, arith,
  length,
}
use wd_broker.Text.{Bytes, is_space, all_bytes}
use wd_broker.Scan.{skip_spaces, span_taken, span_left, scan_set, scan_word, not_space}

-- `rest` does not go on with a byte of the class `p`.
abbrev pub Stops : (ℕ → Bool) → Bytes → Type 0
Stops p [] = Unit {0}
Stops p (c ∷ cs) = p c ≡ false

module _ (p : ℕ → Bool) where
  pub span_taken-append :
      (n : ℕ) (a rest : Bytes)
      → length a ≤ n
      → all_bytes p a ≡ true
      → (length a ≡ n) ⊎ Stops p rest
      → span_taken p n (a ++ rest) ≡ a
  unfolding span_taken all_bytes
  span_taken-append zero [] rest h k s = refl
  span_taken-append zero (c ∷ a) rest h k s = absurd (omega arith)
  span_taken-append (suc n) [] [] h k s = refl
  span_taken-append (suc n) [] (c ∷ rest) h k s = ground arith
  span_taken-append (suc n) (c ∷ a) rest h k s =
      ground (arith, span_taken-append n a rest (omega arith))

  pub span_left-append :
      (n : ℕ) (a rest : Bytes)
      → length a ≤ n
      → all_bytes p a ≡ true
      → (length a ≡ n) ⊎ Stops p rest
      → span_left p n (a ++ rest) ≡ rest
  unfolding span_left all_bytes
  span_left-append zero [] rest h k s = refl
  span_left-append zero (c ∷ a) rest h k s = absurd (omega arith)
  span_left-append (suc n) [] [] h k s = refl
  span_left-append (suc n) [] (c ∷ rest) h k s = ground arith
  span_left-append (suc n) (c ∷ a) rest h k s =
      ground (arith, span_left-append n a rest (omega arith))

  pub length-span_taken : (n : ℕ) (s : Bytes) → length (span_taken p n s) ≤ n
  unfolding span_taken
  length-span_taken zero s = omega arith
  length-span_taken (suc n) [] = omega arith
  length-span_taken (suc n) (c ∷ s) = ground (arith, length-span_taken n s)

  pub all_bytes-span_taken : (n : ℕ) (s : Bytes) → all_bytes p (span_taken p n s) ≡ true
  unfolding span_taken all_bytes
  all_bytes-span_taken zero s = refl
  all_bytes-span_taken (suc n) [] = refl
  all_bytes-span_taken (suc n) (c ∷ s) = ground (arith, all_bytes-span_taken n s)

  -- What a conversion of text returns is short enough, not empty, and of the class.
  pub scan_set-word :
      (n : ℕ) (s w left : Bytes)
      → scan_set p n s ≡ some (w, left)
      → (length w ≤ n) × (w ≢ []) × (all_bytes p w ≡ true)
  unfolding scan_set
  scan_set-word n s w left e = ground (arith, length-span_taken n s, all_bytes-span_taken n s)

  pub scan_set-append :
      (n : ℕ) (a rest : Bytes)
      → a ≢ []
      → length a ≤ n
      → all_bytes p a ≡ true
      → (length a ≡ n) ⊎ Stops p rest
      → scan_set p n (a ++ rest) ≡ some (a, rest)
  unfolding scan_set
  scan_set-append n [] rest e h k s = absurd (e refl)
  scan_set-append n (c ∷ a) rest e h k s =
      ground (arith, span_taken-append n (c ∷ a) rest h k s, span_left-append n (c ∷ a) rest h k s)

pub skip_spaces-blank : (s : Bytes) → all_bytes is_space s ≡ true → skip_spaces s ≡ []
unfolding skip_spaces all_bytes
skip_spaces-blank [] h = refl
skip_spaces-blank (c ∷ s) h = ground (arith, skip_spaces-blank s)

-- White space before a word is skipped.
pub skip_spaces-append :
    (b s : Bytes) → all_bytes is_space b ≡ true → Stops is_space s → skip_spaces (b ++ s) ≡ s
unfolding skip_spaces all_bytes
skip_spaces-append [] [] h k = refl
skip_spaces-append [] (c ∷ s) h k = ground arith
skip_spaces-append (c ∷ b) s h k = ground (arith, skip_spaces-append b s)

word-Stops : (a rest : Bytes) → a ≢ [] → all_bytes not_space a ≡ true → Stops is_space (a ++ rest)
unfolding all_bytes
word-Stops [] rest e h = absurd (e refl)
word-Stops (c ∷ a) rest e h = ground arith

pub scan_word-append :
    (n : ℕ) (b a rest : Bytes)
    → all_bytes is_space b ≡ true
    → a ≢ []
    → length a ≤ n
    → all_bytes not_space a ≡ true
    → (length a ≡ n) ⊎ Stops not_space rest
    → scan_word n (b ++ (a ++ rest)) ≡ some (a, rest)
unfolding scan_word
scan_word-append n b a rest h e l k s =
    rw (skip_spaces-append b (a ++ rest) h (word-Stops a rest e k))
      (scan_set-append not_space n a rest e l k s)

pub scan_word-blank : (n : ℕ) (s : Bytes) → all_bytes is_space s ≡ true → scan_word n s ≡ none
unfolding scan_word scan_set
scan_word-blank n s h = rw (skip_spaces-blank s h) (blank n)
  where
    blank : (m : ℕ) → scan_set not_space m [] ≡ none
    blank zero = refl
    blank (suc m) = refl
