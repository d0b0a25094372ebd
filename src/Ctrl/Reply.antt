-- ===== src/Ctrl/Reply.antt =====
-- The whole STATUS reply of the broker, as wd-ctrl splits it into lines.
use mathlib.Core.List.{append_assoc, map-append}
use wd_broker.Prelude.{
  ℕ, suc, ◌+◌, ◌≤◌, ◌≡◌, ◌≢◌, refl, ap, ◌∙◌, sym, inl, inr, Bool, true, false, List, [], ◌∷◌, ◌++◌,
  map, arith, length, take, take-eq_self, All, All-append, none, Bool-cases,
}
use mathlib.Core.Path.{ap₂}
use wd_broker.Prelude.Int.{ℤ, pos, negsuc}
use wd_broker.Text.{Bytes, codes, all_bytes, is_space, is_print, is_digit, c_string}
use wd_broker.Scan.{not_space}
use wd_broker.Print.{print_nat, print_int}
use wd_broker.Print.Decimal.{all_bytes-append, all_bytes-print_nat}
use wd_broker.Common.{socket_prot_version}
use wd_broker.Client.{Client, Config}
use wd_broker.Slots.{is_live}
use wd_broker.Handler.{valid_name_byte}
use wd_broker.Status.{true_or_false, count_active, status_header, client_lines}
use wd_broker.Status.Bounds.{joined, status_lines}
use wd_broker.Ctrl.Rows.{IsRow, flag_text, row_text, client_line-row_text}
use wd_broker.Ctrl.Lines.{
  not_newline, IsLine, IsSolid, newlines, tokens_from-newlines, read_row-IsSolid,
}
use wd_broker.Ctrl.Lookup.{row_texts}
use wd_broker.Ctrl.{read_row, status_lines_of}

-- The lines in front of the clients', without newlines.
abbrev pub header_texts : Bytes → Config → List Client → List Bytes
header_texts version config clients =
    (codes "daemon_version=" ++ version)
    ∷ (codes "protocol_version=" ++ socket_prot_version)
    ∷ (codes "wd_timeout_s=" ++ print_int config.wd_timeout_s)
    ∷ (codes "reboot_timeout_s=" ++ print_int config.reboot_timeout_s)
    ∷ (codes "strict_clients=" ++ true_or_false config.strict_clients)
    ∷ (codes "unique_clients=" ++ true_or_false config.unique_clients)
    ∷ (codes "active_clients=" ++ print_nat (count_active clients))
    ∷ []

abbrev ended : Bytes → Bytes
ended t = t ++ codes "\n"

joined-ended : (ts : List Bytes) → joined (map ended ts) ≡ newlines ts
joined-ended [] = refl
joined-ended (t ∷ ts) =
    append_assoc t (codes "\n") (joined (map ended ts))
    ∙ ap (λ r. t ++ (b'\n' ∷ r)) (joined-ended ts)

status_header-ended :
    (version : Bytes) (config : Config) (clients : List Client)
    → status_header version config clients ≡ map ended (header_texts version config clients)
unfolding status_header
status_header-ended version config clients = refl

client_lines-ended : (cs : List Client) → client_lines cs ≡ map ended (row_texts cs)
unfolding client_lines
client_lines-ended [] = refl
client_lines-ended (c ∷ cs) = elim (Bool-cases (is_live c)) [
  | inl e ↦ rw e (ap₂ (λ l ls. l ∷ ls) (client_line-row_text c) (client_lines-ended cs))
  | inr e ↦ rw e (client_lines-ended cs)
]

-- The lines of the whole reply, without newlines.
abbrev pub status_texts : Bytes → Config → List Client → List Bytes
status_texts version config clients = header_texts version config clients ++ row_texts clients

pub joined-status_texts :
    (version : Bytes) (config : Config) (clients : List Client)
    → joined (status_lines version config clients) ≡ newlines (status_texts version config clients)
joined-status_texts version config clients =
    ap joined (
      ap₂ (λ a b. a ++ b) (status_header-ended version config clients) (client_lines-ended clients)
      ∙ sym (map-append ended (header_texts version config clients) (row_texts clients)))
    ∙ joined-ended (status_texts version config clients)

-- A client whose line is plain text.
pub record IsPrinted (c : Client) : Type 0 where
  pub row : IsRow c
  pub id : all_bytes is_print c.client_id ≡ true
  pub name : all_bytes is_print c.name ≡ true

abbrev pub AllPrinted : List Client → Type 0
AllPrinted = All (λ c. is_live c ≡ true → IsPrinted c)

pub all_bytes-weaken :
    (p q : ℕ → Bool) (s : Bytes)
    → ((c : ℕ) → p c ≡ true → q c ≡ true)
    → all_bytes p s ≡ true
    → all_bytes q s ≡ true
unfolding all_bytes
all_bytes-weaken p q [] w h = refl
all_bytes-weaken p q (c ∷ s) w h = ground (arith, w c, all_bytes-weaken p q s w (ground arith))

digit-print : (c : ℕ) → is_digit c ≡ true → is_print c ≡ true
unfolding is_digit is_print
digit-print c h = ground arith

digit-not_space : (c : ℕ) → is_digit c ≡ true → not_space c ≡ true
unfolding is_digit is_space
digit-not_space c h = ground arith

print-not_newline : (c : ℕ) → is_print c ≡ true → not_newline c ≡ true
unfolding is_print
print-not_newline c h = ground arith

valid-print : (c : ℕ) → valid_name_byte c ≡ true → is_print c ≡ true
valid-print c h = ground arith

pub valid-not_space : (c : ℕ) → valid_name_byte c ≡ true → not_space c ≡ true
valid-not_space c h = ground arith

digit-valid : (c : ℕ) → is_digit c ≡ true → valid_name_byte c ≡ true
unfolding is_digit is_print is_space
digit-valid c h = ground arith

pub print_nat-valid : (n : ℕ) → all_bytes valid_name_byte (print_nat n) ≡ true
print_nat-valid n =
    all_bytes-weaken is_digit valid_name_byte (print_nat n) digit-valid (all_bytes-print_nat n)

pub print_int-valid : (n : ℤ) → all_bytes valid_name_byte (print_int n) ≡ true
unfolding print_int all_bytes is_print is_space
print_int-valid (pos n) = print_nat-valid n
print_int-valid (negsuc n) = print_nat-valid (suc n)

pub true_or_false-valid : (b : Bool) → all_bytes valid_name_byte (true_or_false b) ≡ true
unfolding all_bytes is_print is_space
true_or_false-valid true = refl
true_or_false-valid false = refl

-- No white space in the header's lines, if there is none in the version.
header_texts-valid :
    (version : Bytes) (config : Config) (clients : List Client)
    → all_bytes valid_name_byte version ≡ true
    → All (λ t. all_bytes valid_name_byte t ≡ true) (header_texts version config clients)
unfolding all_bytes is_print is_space
header_texts-valid version config clients v = (
  v,
  (
    refl,
    (
      print_int-valid config.wd_timeout_s,
      (
        print_int-valid config.reboot_timeout_s,
        (
          true_or_false-valid config.strict_clients,
          (true_or_false-valid config.unique_clients, (print_nat-valid (count_active clients), tt)),
        ),
      ),
    ),
  ),
)

flag_text-print : (b : Bool) → all_bytes is_print (flag_text b) ≡ true
unfolding all_bytes is_print
flag_text-print true = refl
flag_text-print false = refl

print_nat-print : (n : ℕ) → all_bytes is_print (print_nat n) ≡ true
print_nat-print n =
    all_bytes-weaken is_digit is_print (print_nat n) digit-print (all_bytes-print_nat n)

blank_behind :
    (s rest : Bytes)
    → all_bytes is_print s ≡ true
    → all_bytes is_print rest ≡ true
    → all_bytes is_print (s ++ (32 ∷ rest)) ≡ true
unfolding all_bytes is_print
blank_behind s rest h k = all_bytes-append is_print s (32 ∷ rest) h k

row_text-print : (c : Client) → IsPrinted c → all_bytes is_print (row_text c) ≡ true
row_text-print c h = blank_behind c.client_id _ h.id (
    blank_behind (print_nat c.pid) _ (print_nat-print c.pid) (
      blank_behind c.name _ h.name (
        all_bytes-append is_print (print_nat c.timeout_ms) (flag_text c.check_pid)
          (print_nat-print c.timeout_ms) (flag_text-print c.check_pid))))

-- A line of printable bytes, and not an empty one.
abbrev IsText : Bytes → Type 0
IsText t = (t ≢ []) × (all_bytes is_print t ≡ true)

append-ne-nil : (s t : Bytes) → length s ≡ 16 → s ++ t ≢ []
append-ne-nil [] t h e = absurd (omega (arith, h))
append-ne-nil (c ∷ s) t h e = absurd (cc)

row_texts-IsText : (cs : List Client) → AllPrinted cs → All IsText (row_texts cs)
row_texts-IsText [] h = tt
row_texts-IsText (c ∷ cs) h = elim (Bool-cases (is_live c)) [
  | inl e ↦ rw e (
    (append-ne-nil c.client_id _ (h.0 e).row.id_length, row_text-print c (h.0 e)),
    row_texts-IsText cs h.1,
  )
  | inr e ↦ rw e (row_texts-IsText cs h.1)
]

All-map {ℓ} :
    {A : Type ℓ} (P Q : A → Type 0) (xs : List A) → ((x : A) → P x → Q x) → All P xs → All Q xs
All-map P Q [] f h = tt
All-map P Q (x ∷ xs) f h = (f x h.0, All-map P Q xs f h.1)

header_texts-IsText :
    (version : Bytes) (config : Config) (clients : List Client)
    → all_bytes valid_name_byte version ≡ true
    → All IsText (header_texts version config clients)
header_texts-IsText version config clients v =
    let print = λ (t : Bytes) (h : all_bytes valid_name_byte t ≡ true).
      all_bytes-weaken valid_name_byte is_print t valid-print h in
    let h =
      All-map _ (λ t. all_bytes is_print t ≡ true) (header_texts version config clients) print
        (header_texts-valid version config clients v) in
    (
      ((λ e. absurd (cc)), h.0),
      (
        ((λ e. absurd (cc)), h.1.0),
        (
          ((λ e. absurd (cc)), h.1.1.0),
          (
            ((λ e. absurd (cc)), h.1.1.1.0),
            (
              ((λ e. absurd (cc)), h.1.1.1.1.0),
              (((λ e. absurd (cc)), h.1.1.1.1.1.0), (((λ e. absurd (cc)), h.1.1.1.1.1.1.0), tt)),
            ),
          ),
        ),
      ),
    )

c_string-line :
    (t rest : Bytes)
    → all_bytes is_print t ≡ true
    → c_string (t ++ (b'\n' ∷ rest)) ≡ t ++ (b'\n' ∷ c_string rest)
unfolding c_string all_bytes is_print
c_string-line [] rest h = refl
c_string-line (c ∷ t) rest h = ground (arith, c_string-line t rest (ground arith))

pub c_string-newlines : (ts : List Bytes) → All IsText ts → c_string (newlines ts) ≡ newlines ts
unfolding c_string
c_string-newlines [] h = refl
c_string-newlines (t ∷ ts) h =
    c_string-line t (newlines ts) h.0.1 ∙ ap (λ r. t ++ (b'\n' ∷ r)) (c_string-newlines ts h.1)

length-row_texts : (cs : List Client) → length (row_texts cs) ≤ length cs
length-row_texts [] = omega arith
length-row_texts (c ∷ cs) = elim (Bool-cases (is_live c)) [
  | inl e ↦ rw e (omega (arith, length-row_texts cs))
  | inr e ↦ rw e (omega (arith, length-row_texts cs))
]

module _ (version : Bytes) (config : Config) (clients : List Client)
    (valid : all_bytes valid_name_byte version ≡ true) (printed : AllPrinted clients) where
  pub status_texts-IsText : All IsText (status_texts version config clients)
  status_texts-IsText =
      All-append IsText (header_texts version config clients) (row_texts clients)
        (header_texts-IsText version config clients valid) (row_texts-IsText clients printed)

  -- wd-ctrl has room for all the lines of the broker's reply.
  pub status_lines_of-newlines :
      status_lines_of (length clients) (newlines (status_texts version config clients))
      ≡ status_texts version config clients
  unfolding status_lines_of
  status_lines_of-newlines =
      let ts = status_texts version config clients in
      ap (take (length clients + 9)) (
        tokens_from-newlines ts (
          All-map IsText IsLine ts
            (λ t h. (h.0, all_bytes-weaken is_print not_newline t print-not_newline h.1))
            status_texts-IsText))
      ∙ take-eq_self (length clients + 9) ts (omega (arith, length-row_texts clients))

  pub header_texts-no_rows :
      All (λ t. length t ≤ 79) (header_texts version config clients)
      → All (λ t. read_row t ≡ none) (header_texts version config clients)
  header_texts-no_rows short =
      let solid = λ (t : Bytes) (h : all_bytes valid_name_byte t ≡ true).
        all_bytes-weaken valid_name_byte not_space t valid-not_space h in
      zip (header_texts version config clients) short (
        All-map _ IsSolid (header_texts version config clients) solid
          (header_texts-valid version config clients valid))
    where
      zip :
          (ts : List Bytes)
          → All (λ t. length t ≤ 79) ts
          → All IsSolid ts
          → All (λ t. read_row t ≡ none) ts
      zip [] h k = tt
      zip (t ∷ ts) h k = (read_row-IsSolid t k.0 h.0, zip ts h.1 k.1)
