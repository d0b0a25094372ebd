-- ===== src/Settings/Text.antt =====
-- `fgets`, `trim` and `sscanf` on lines that are written without white space at their ends.
use mathlib.Core.List.{append_assoc}
use wd_broker.Prelude.{
  ℕ, ◌-◌, ◌≤◌, ◌<◌, ◌≡◌, ◌≢◌, refl, ap, ◌∙◌, Bool, true, false, not, ◌||◌, List, [], ◌∷◌, ◌++◌, map,
  arith, ◌==◌, if◌then◌else◌, All, length,
}
use wd_broker.Text.{Bytes, codes, all_bytes, is_space, c_string}
use wd_broker.Scan.{skip_spaces, not_space}
use wd_broker.ConfigText.{keep_inner, trim_end, trim, fgets_lines, read_lines}
use wd_broker.Settings.{end_lines}

abbrev pub not_newline : ℕ → Bool
not_newline c = not (c == b'\n')

abbrev pub not_nul : ℕ → Bool
not_nul c = not (c == 0)

pub all_bytes-imp :
    (p q : ℕ → Bool)
    → ((c : ℕ) → p c ≡ true → q c ≡ true)
    → (s : Bytes) → all_bytes p s ≡ true
    → all_bytes q s ≡ true
unfolding all_bytes
all_bytes-imp p q h [] e = refl
all_bytes-imp p q h (c ∷ s) e = ground (arith, h c, all_bytes-imp p q h s)

-- A line that fits the buffer.
pub record IsLine (l : Bytes) : Type 0 where
  pub fits : length l ≤ 254
  pub bytes : all_bytes not_newline l ≡ true

fgets_step :
    (current : Bytes) (room c : ℕ) (cs : Bytes)
    → fgets_lines current room (c ∷ cs) ≡ (
        let ends = c == b'\n' || room == 1 in
        let rest =
          fgets_lines
            (if ends then [] else current ++ c ∷ [])
            (if ends then 255 else room - 1)
            cs in
        if ends then (current ++ c ∷ []) ∷ rest else rest)
unfolding fgets_lines
fgets_step [] room c cs = refl
fgets_step (d ∷ current) room c cs = refl

fgets_line :
    (l current rest : Bytes) (room : ℕ)
    → length l < room
    → all_bytes not_newline l ≡ true
    → fgets_lines current room (l ++ (b'\n' ∷ rest))
      ≡ (current ++ (l ++ codes "\n")) ∷ fgets_lines [] 255 rest
unfolding all_bytes
fgets_line [] current rest room h e = fgets_step current room b'\n' rest
fgets_line (c ∷ l) current rest room h e =
    let goes : (c == b'\n' || room == 1) ≡ false = ground (arith, h) in
    fgets_step current room c (l ++ (b'\n' ∷ rest))
    ∙ rw goes (
        fgets_line l (current ++ c ∷ []) rest (room - 1) (omega (arith, h)) (ground arith)
        ∙ ap (λ x. x ∷ fgets_lines [] 255 rest) (append_assoc current (c ∷ []) (l ++ codes "\n")))

pub read_lines-end_lines :
    (ls : List Bytes) → All IsLine ls → read_lines (end_lines ls) ≡ map (λ l. l ++ codes "\n") ls
unfolding read_lines fgets_lines
read_lines-end_lines [] h = refl
read_lines-end_lines (l ∷ ls) h =
    fgets_line l [] (end_lines ls) 255 (omega (arith, h.0.fits)) h.0.bytes
    ∙ ap (◌∷◌ (l ++ codes "\n")) (read_lines-end_lines ls h.1)

pub c_string-whole : (s : Bytes) → all_bytes not_nul s ≡ true → c_string s ≡ s
unfolding c_string all_bytes
c_string-whole [] h = refl
c_string-whole (c ∷ s) h = ground (arith, c_string-whole s)

keep_inner-not_space : (c : ℕ) (t : Bytes) → is_space c ≡ false → keep_inner c t ≡ c ∷ t
unfolding keep_inner
keep_inner-not_space c [] e = rw e refl
keep_inner-not_space c (d ∷ t) e = refl

keep_inner-nonempty : (c : ℕ) (t : Bytes) → t ≢ [] → keep_inner c t ≡ c ∷ t
unfolding keep_inner
keep_inner-nonempty c [] n = absurd (n refl)
keep_inner-nonempty c (d ∷ t) n = refl

head_not_space :
    (c : ℕ) (t : Bytes)
    → all_bytes not_space (c ∷ t) ≡ true
    → (is_space c ≡ false) × (all_bytes not_space t ≡ true)
unfolding all_bytes
head_not_space c t h = ground arith

trim_end-word : (t : Bytes) → all_bytes not_space t ≡ true → trim_end t ≡ t
unfolding trim_end
trim_end-word [] h = refl
trim_end-word (c ∷ t) h =
    let (here, later) = head_not_space c t h in
    ap (keep_inner c) (trim_end-word t later) ∙ keep_inner-not_space c t here

trim_end-newline : (t : Bytes) → all_bytes not_space t ≡ true → trim_end (t ++ codes "\n") ≡ t
unfolding trim_end keep_inner is_space
trim_end-newline [] h = refl
trim_end-newline (c ∷ t) h =
    let (here, later) = head_not_space c t h in
    ap (keep_inner c) (trim_end-newline t later) ∙ keep_inner-not_space c t here

trim_end-append :
    (s t : Bytes)
    → t ≢ []
    → all_bytes not_space t ≡ true
    → trim_end (s ++ (t ++ codes "\n")) ≡ s ++ t
unfolding trim_end
trim_end-append [] t n h = trim_end-newline t h
trim_end-append (c ∷ s) t n h =
    ap (keep_inner c) (trim_end-append s t n h)
    ∙ keep_inner-nonempty c (s ++ t) (append-ne_nil s t n)
  where
    append-ne_nil : (s t : Bytes) → t ≢ [] → (s ++ t) ≢ []
    append-ne_nil [] t n = n
    append-ne_nil (c ∷ s) t n = λ e. cc

-- A word has nothing to trim.
pub trim-word : (t : Bytes) → all_bytes not_space t ≡ true → trim t ≡ t
unfolding trim skip_spaces
trim-word [] h = trim_end-word [] h
trim-word (c ∷ t) h = rw (trim, (head_not_space c t h).0) (trim_end-word (c ∷ t) h)

-- From a line whose first byte and whose end are no white space, the newline goes.
pub trim-line :
    (c : ℕ) (s t : Bytes)
    → is_space c ≡ false
    → t ≢ []
    → all_bytes not_space t ≡ true
    → trim (c ∷ (s ++ (t ++ codes "\n"))) ≡ c ∷ (s ++ t)
unfolding trim skip_spaces
trim-line c s t e n h = rw (trim, e) (trim_end-append (c ∷ s) t n h)
