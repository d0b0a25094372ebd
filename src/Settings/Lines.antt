-- ===== src/Settings/Lines.antt =====
-- What `parse_config` of src/wd-broker.c makes of a printed line.
use mathlib.Core.List.{append_assoc, append-nil}
use wd_broker.Prelude.{
  ℕ, zero, suc, ◌≤◌, ◌≡◌, ◌≢◌, refl, sym, ap, ◌∙◌, Bool, true, false, not, ◌&&◌, [], ◌∷◌, ◌++◌,
  arith, ◌==◌, length, inr, none, some,
}
use wd_broker.Text.{Bytes, codes, all_bytes, is_space, is_print, c_string, str_eq, strncmp_eq}
use wd_broker.Print.Decimal.{all_bytes-append}
use wd_broker.Scan.{skip_spaces, not_space, scan_set, span_left, span_taken}
use wd_broker.Scan.Laws.{scan_set-append}
use wd_broker.Handler.{valid_name_byte}
use wd_broker.ConfigText.{trim, scan_value, scan_key_value, scan_section}
use wd_broker.ConfigFile.{Build, World, Parser, parse_line, set_option, add_client, is_comment}
use wd_broker.Settings.{option_line, section_line, section_byte}
use wd_broker.Settings.Text.{
  not_newline, not_nul, all_bytes-imp, c_string-whole, trim-word, trim-line,
}

-- A byte of an option's name.
abbrev pub key_byte : ℕ → Bool
key_byte c = valid_name_byte c && (not (c == b'=') && not (c == b'#'))

valid-not_space : (c : ℕ) → valid_name_byte c ≡ true → not_space c ≡ true
valid-not_space c e = ground arith

valid-not_nul : (c : ℕ) → valid_name_byte c ≡ true → not_nul c ≡ true
unfolding is_print
valid-not_nul c e = ground arith

pub valid-not_newline : (c : ℕ) → valid_name_byte c ≡ true → not_newline c ≡ true
unfolding is_print
valid-not_newline c e = ground arith

key-valid : (c : ℕ) → key_byte c ≡ true → valid_name_byte c ≡ true
key-valid c e = ground arith

key-ne_equals : (c : ℕ) → key_byte c ≡ true → not (c == b'=') ≡ true
key-ne_equals c e = ground arith

scan_key_value-option_line :
    (key val : Bytes)
    → key ≢ []
    → length key ≤ 63
    → all_bytes key_byte key ≡ true
    → val ≢ []
    → length val ≤ 127
    → all_bytes valid_name_byte val ≡ true
    → scan_key_value (option_line key val) ≡ some (key, val)
unfolding scan_key_value scan_value
scan_key_value-option_line key val kn kl kb vn vl vb =
    let k =
      scan_set-append (λ c. not (c == b'=')) 63 key (b'=' ∷ val) kn kl
        (all_bytes-imp key_byte (λ c. not (c == b'=')) key-ne_equals key kb) (inr refl) in
    let v =
      scan_set-append (λ d. not (d == b'\n')) 127 val [] vn vl
        (all_bytes-imp valid_name_byte (λ d. not (d == b'\n')) valid-not_newline val vb) (inr tt) in
    rw (scan_key_value, k, ap (scan_set (λ d. not (d == b'\n')) 127) (sym (append-nil val)) ∙ v)
      refl

-- A line of these parts comes back whole from `fgets` and `trim`.
trimmed :
    (c : ℕ) (s t : Bytes)
    → is_space c ≡ false
    → t ≢ []
    → all_bytes not_space t ≡ true
    → all_bytes not_nul ((c ∷ s) ++ t) ≡ true
    → trim (c_string (((c ∷ s) ++ t) ++ codes "\n")) ≡ (c ∷ s) ++ t
unfolding all_bytes
trimmed c s t e n word whole =
    ap trim (
      c_string-whole (((c ∷ s) ++ t) ++ codes "\n")
        (all_bytes-append not_nul ((c ∷ s) ++ t) (codes "\n") whole refl)
      ∙ append_assoc (c ∷ s) t (codes "\n"))
    ∙ trim-line c s t e n word

trimmed_option :
    (k : ℕ) (key val : Bytes)
    → all_bytes key_byte (k ∷ key) ≡ true
    → val ≢ []
    → all_bytes valid_name_byte val ≡ true
    → trim (c_string (option_line (k ∷ key) val ++ codes "\n")) ≡ option_line (k ∷ key) val
unfolding all_bytes
trimmed_option k key val kb vn vb =
    let same = append_assoc (k ∷ key) (b'=' ∷ []) val in
    let keys = all_bytes-imp key_byte valid_name_byte key-valid (k ∷ key) kb in
    let spaceless : is_space k ≡ false = ground (arith, kb) in
    ap (λ x. trim (c_string (x ++ codes "\n"))) (sym same)
    ∙ trimmed k (key ++ (b'=' ∷ [])) val spaceless vn
        (all_bytes-imp valid_name_byte not_space valid-not_space val vb)
        (ap (all_bytes not_nul) same
          ∙ all_bytes-append not_nul (k ∷ key) (b'=' ∷ val)
              (all_bytes-imp valid_name_byte not_nul valid-not_nul (k ∷ key) keys)
              (all_bytes-imp valid_name_byte not_nul valid-not_nul val vb))
    ∙ same

section-valid : (c : ℕ) → section_byte c ≡ true → valid_name_byte c ≡ true
section-valid c e = ground arith

pub section-not_newline : (c : ℕ) → section_byte c ≡ true → not_newline c ≡ true
section-not_newline c e = valid-not_newline c (section-valid c e)

section-no_bracket : (c : ℕ) → section_byte c ≡ true → not (c == b']') ≡ true
section-no_bracket c e = ground arith

section-ne_equals : (c : ℕ) → section_byte c ≡ true → not (c == b'=') ≡ true
section-ne_equals c e = ground arith

valid-bracket :
    (name : Bytes)
    → all_bytes section_byte name ≡ true
    → all_bytes valid_name_byte (name ++ codes "]") ≡ true
unfolding all_bytes is_print is_space
valid-bracket name h =
    all_bytes-append valid_name_byte name (codes "]")
      (all_bytes-imp section_byte valid_name_byte section-valid name h) refl

trimmed_section :
    (name : Bytes)
    → all_bytes section_byte name ≡ true
    → trim (c_string (section_line name ++ codes "\n")) ≡ section_line name
unfolding all_bytes is_space
trimmed_section name h =
    trimmed b'[' (codes "client ") (name ++ codes "]") refl (bracket_ne name)
      (all_bytes-imp valid_name_byte not_space valid-not_space (name ++ codes "]")
        (valid-bracket name h))
      (all_bytes-imp valid_name_byte not_nul valid-not_nul (name ++ codes "]")
        (valid-bracket name h))
  where
    bracket_ne : (t : Bytes) → (t ++ codes "]") ≢ []
    bracket_ne [] = λ e. cc
    bracket_ne (c ∷ t) = λ e. cc

-- Without '=' there is no option to scan.
no_option :
    (n : ℕ) (s key : Bytes)
    → all_bytes (λ c. not (c == b'=')) s ≡ true
    → scan_value key (span_left (λ c. not (c == b'=')) n s) ≡ none
unfolding all_bytes span_left scan_value
no_option zero [] key h = refl
no_option zero (c ∷ s) key h = ground arith
no_option (suc n) [] key h = refl
no_option (suc n) (c ∷ s) key h = ground (arith, no_option n s key)

scan_key_value-section_line :
    (name : Bytes) → all_bytes section_byte name ≡ true → scan_key_value (section_line name) ≡ none
unfolding scan_key_value scan_set all_bytes
scan_key_value-section_line name h =
    no_option 63 (section_line name) (span_taken (λ c. not (c == b'=')) 63 (section_line name)) (
      all_bytes-append (λ c. not (c == b'=')) (codes "[client ") (name ++ codes "]") refl
        (all_bytes-append (λ c. not (c == b'=')) name (codes "]")
          (all_bytes-imp section_byte (λ c. not (c == b'=')) section-ne_equals name h) refl))

scan_section-section_line :
    (name : Bytes)
    → name ≢ []
    → length name ≤ 63
    → all_bytes section_byte name ≡ true
    → scan_section (section_line name) ≡ some (name, codes "]")
unfolding scan_section strncmp_eq str_eq skip_spaces is_space all_bytes
scan_section-section_line [] n l h = absurd (n refl)
scan_section-section_line (c ∷ name) n l h =
    let spaceless : is_space c ≡ false = ground (arith, h) in
    rw (skip_spaces, spaceless)
      (scan_set-append (λ c. not (c == b']')) 63 (c ∷ name) (codes "]") n l
        (all_bytes-imp section_byte (λ c. not (c == b']')) section-no_bracket (c ∷ name) h)
        (inr refl))

module _ (world : World) (build : Build) (line : ℕ) (p : Parser) where
  pub parse_line-option_line :
      (k : ℕ) (key val : Bytes)
      → length key ≤ 62
      → all_bytes key_byte (k ∷ key) ≡ true
      → val ≢ []
      → length val ≤ 127
      → all_bytes valid_name_byte val ≡ true
      → parse_line world build line (option_line (k ∷ key) val ++ codes "\n") p
        ≡ set_option build line (k ∷ key) val p
  unfolding parse_line is_comment all_bytes
  parse_line-option_line k key val kl kb vn vl vb =
      let keys = all_bytes-imp key_byte valid_name_byte key-valid (k ∷ key) kb in
      let no_comment : (k == b'#') ≡ false = ground (arith, kb) in
      let scanned =
        scan_key_value-option_line (k ∷ key) val (λ e. cc) (omega (arith, kl)) kb vn vl vb in
      let key_word =
        trim-word (k ∷ key)
          (all_bytes-imp valid_name_byte not_space valid-not_space (k ∷ key) keys) in
      let val_word =
        trim-word val (all_bytes-imp valid_name_byte not_space valid-not_space val vb) in
      rw (parse_line, trimmed_option k key val kb vn vb, no_comment, scanned, key_word, val_word)
        refl

  pub parse_line-section_line :
      (name : Bytes)
      → name ≢ []
      → length name ≤ 63
      → all_bytes section_byte name ≡ true
      → parse_line world build line (section_line name ++ codes "\n") p
        ≡ add_client world build line (section_line name) name p
  unfolding parse_line is_comment
  parse_line-section_line name n l h =
      rw
        (
          parse_line,
          trimmed_section name h,
          scan_key_value-section_line name h,
          trimmed_section name h,
          scan_section-section_line name n l h,
          trimmed_section name h,
        )
        refl
