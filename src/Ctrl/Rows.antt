-- ===== src/Ctrl/Rows.antt =====
-- The lines of STATUS that the broker writes for its clients, as wd-ctrl reads them.
use mathlib.Core.List.{append_assoc}
use wd_broker.Prelude.{
  ℕ, ◌≤◌, ◌<◌, ◌≡◌, ◌≢◌, ◌^◌, refl, inl, inr, Bool, true, false, some, [], ◌∷◌, ◌++◌, arith,
  if◌then◌else◌, length,
}
use wd_broker.Prelude.Int.{pos}
use wd_broker.Text.{Bytes, codes, all_bytes, is_space, is_digit}
use wd_broker.Scan.{not_space, scan_word}
use wd_broker.Scan.Laws.{Stops, scan_word-append}
use wd_broker.Print.{print_nat}
use wd_broker.Print.Decimal.{scan_int-print_nat, scan_uint-print_nat}
use wd_broker.Client.{Client}
use wd_broker.Status.{client_line}
use wd_broker.Ctrl.{Row, read_row}

-- What a client's line can be read back from.
pub record IsRow (c : Client) : Type 0 where
  pub id_length : length c.client_id ≡ 16
  pub id_bytes : all_bytes not_space c.client_id ≡ true
  pub name_there : c.name ≢ []
  pub name_fits : length c.name ≤ 63
  pub name_bytes : all_bytes not_space c.name ≡ true
  pub pid_fits : c.pid < 2 ^ 31
  pub timeout_fits : c.timeout_ms < 2 ^ 32

abbrev pub row_of : Client → Row
row_of c = record { id = c.client_id; pid = pos c.pid; name = c.name; timeout = c.timeout_ms }

abbrev pub flag_text : Bool → Bytes
flag_text b = if b then codes " 1" else codes " 0"

-- The line without its newline.
abbrev pub row_text : Client → Bytes
row_text c =
    c.client_id
    ++ (32
        ∷ (print_nat c.pid
            ++ (32 ∷ (c.name ++ (32 ∷ (print_nat c.timeout_ms ++ flag_text c.check_pid))))))

newline_flag : (b : Bool) → (if b then codes " 1\n" else codes " 0\n") ≡ flag_text b ++ codes "\n"
newline_flag true = refl
newline_flag false = refl

pub client_line-row_text : (c : Client) → client_line c ≡ row_text c ++ codes "\n"
unfolding client_line
client_line-row_text c = rw (newline_flag c.check_pid) (simp append_assoc)

word_behind_blank :
    (n : ℕ) (w rest : Bytes)
    → w ≢ []
    → length w ≤ n
    → all_bytes not_space w ≡ true
    → scan_word n (32 ∷ (w ++ (32 ∷ rest))) ≡ some (w, 32 ∷ rest)
unfolding all_bytes is_space
word_behind_blank n w rest h l k =
    scan_word-append n (codes " ") w (32 ∷ rest) refl h l k (inr refl)

ne-nil_of_length : (s : Bytes) → length s ≡ 16 → s ≢ []
ne-nil_of_length [] h e = absurd (omega (arith, h))
ne-nil_of_length (c ∷ s) h e = absurd (cc)

first_word :
    (w rest : Bytes)
    → length w ≡ 16
    → all_bytes not_space w ≡ true
    → scan_word 16 (w ++ (32 ∷ rest)) ≡ some (w, 32 ∷ rest)
unfolding all_bytes is_space
first_word w rest h k =
    scan_word-append 16 [] w (32 ∷ rest) refl (ne-nil_of_length w h) (omega (arith, h)) k (inl h)

flag_text-Stops : (b : Bool) → Stops is_digit (flag_text b)
unfolding is_digit
flag_text-Stops true = refl
flag_text-Stops false = refl

pub read_row-row_text :
    (c : Client) → IsRow c → read_row (row_text c) ≡ some (row_of c, flag_text c.check_pid)
unfolding read_row
read_row-row_text c h =
    let tail3 = print_nat c.timeout_ms ++ flag_text c.check_pid in
    let tail2 = c.name ++ (32 ∷ tail3) in
    let tail1 = print_nat c.pid ++ (32 ∷ tail2) in
    rw
      (
        read_row,
        first_word c.client_id tail1 h.id_length h.id_bytes,
        scan_int-print_nat c.pid (32 ∷ tail2) h.pid_fits (unfold is_digit in refl),
        word_behind_blank 63 c.name tail3 h.name_there h.name_fits h.name_bytes,
        scan_uint-print_nat c.timeout_ms (flag_text c.check_pid) h.timeout_fits
            (flag_text-Stops c.check_pid),
      )
      refl
