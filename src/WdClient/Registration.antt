-- ===== src/WdClient/Registration.antt =====
-- The REGISTER request that `wd_client_register` of src/wd-client.c writes, as `handle_command` of
-- src/wd-broker.c reads it.
use wd_broker.Prelude.{
  ℕ, ◌≤◌, ◌≡◌, ◌≢◌, refl, ap, ◌∙◌, inr, Bool, true, false, some, none, [], ◌∷◌, ◌++◌, arith,
  if◌then◌else◌, length, length-append, take-eq_self,
}
use wd_broker.Text.{
  Bytes, codes, all_bytes, is_space, is_print, is_digit, str_eq, strncmp_eq, c_string,
}
use wd_broker.Scan.{not_space, scan_word}
use wd_broker.Scan.Laws.{Stops, scan_word-append, scan_word-blank}
use wd_broker.Print.{print_nat}
use wd_broker.Print.Decimal.{scan_uint-print_nat, length-print_nat_timeout, c_string-print_nat}
use wd_broker.Common.{packet}
use wd_broker.Handler.{
  Broker, Env, Creds, RegisterScan, valid_name_byte, ignorepid, scan_register, register_error,
  register_name, handle_register, dispatch, handle_command,
}
use wd_broker.WdClient.Session.{command_arrives}
use wd_broker.WdClient.{WdClient, register_command, is_empty}

-- A name that the broker accepts.
pub record IsName (name : Bytes) : Type 0 where
  pub there : is_empty name ≡ false
  pub fits : length name ≤ 63
  pub bytes : all_bytes valid_name_byte name ≡ true

abbrev ending : Bool → Bytes
ending ignore_pid = if ignore_pid then codes " ignorepid\n" else codes "\n"

-- What the broker is to read.
abbrev pub request_of : Bytes → ℕ → Bool → RegisterScan
request_of name timeout ignore_pid = record {
  matched = if ignore_pid then 3 else 2;
  name = name;
  timeout = timeout;
  opt_flag = if ignore_pid then ignorepid else [];
}

valid_name-not_space :
    (s : Bytes) → all_bytes valid_name_byte s ≡ true → all_bytes not_space s ≡ true
unfolding all_bytes
valid_name-not_space [] h = refl
valid_name-not_space (c ∷ s) h = ground (arith, valid_name-not_space s (ground arith))

not_empty : (s : Bytes) → is_empty s ≡ false → s ≢ []
unfolding is_empty
not_empty [] h e = absurd (cc)
not_empty (c ∷ s) h e = absurd (cc)

flag_word : scan_word 15 (codes " ignorepid\n") ≡ some (ignorepid, codes "\n")
unfolding all_bytes is_space
flag_word =
    scan_word-append 15 (codes " ") ignorepid (codes "\n") refl (λ e. absurd (cc)) (omega arith)
      refl (inr refl)

no_word : scan_word 15 (codes "\n") ≡ none
unfolding all_bytes is_space
no_word = scan_word-blank 15 (codes "\n") refl

ending-Stops : (ignore_pid : Bool) → Stops is_digit (ending ignore_pid)
unfolding is_digit
ending-Stops true = refl
ending-Stops false = refl

name_word :
    (name rest : Bytes) → IsName name → scan_word 63 (name ++ (32 ∷ rest)) ≡ some (name, 32 ∷ rest)
unfolding all_bytes is_space
name_word name rest n =
    scan_word-append 63 [] name (32 ∷ rest) refl (not_empty name n.there) n.fits
      (valid_name-not_space name n.bytes) (inr refl)

scan_register-request :
    (name : Bytes) (t : ℕ) (ignore_pid : Bool)
    → IsName name
    → t ≤ 300_000
    → scan_register (name ++ (32 ∷ (print_nat t ++ ending ignore_pid)))
      ≡ request_of name t ignore_pid
unfolding scan_register
scan_register-request name t true n h =
    let number = scan_uint-print_nat t (ending true) (omega (arith, h)) (ending-Stops true) in
    rw (scan_register, name_word name (print_nat t ++ ending true) n, number, flag_word, no_word)
      refl
scan_register-request name t false n h =
    let number = scan_uint-print_nat t (ending false) (omega (arith, h)) (ending-Stops false) in
    rw (scan_register, name_word name (print_nat t ++ ending false) n, number, no_word) refl

pub c_string-name :
    (name s : Bytes)
    → all_bytes valid_name_byte name ≡ true
    → c_string (name ++ s) ≡ name ++ c_string s
unfolding c_string all_bytes is_print is_space
c_string-name [] s h = refl
c_string-name (c ∷ name) s h = ground (arith, c_string-name name s (ground arith))

c_string-ending : (ignore_pid : Bool) → c_string (ending ignore_pid) ≡ ending ignore_pid
unfolding c_string
c_string-ending true = refl
c_string-ending false = refl

length-ending : (ignore_pid : Bool) → length (ending ignore_pid) ≤ 11
length-ending true = omega arith
length-ending false = omega arith

whole_request : Bytes → ℕ → Bool → Bytes
whole_request name t ignore_pid =
    codes "REGISTER " ++ (name ++ (32 ∷ (print_nat t ++ ending ignore_pid)))

length-whole_request :
    (name : Bytes) (t : ℕ) (ignore_pid : Bool)
    → IsName name
    → t ≤ 300_000
    → length (whole_request name t ignore_pid) ≤ 90
unfolding whole_request
length-whole_request name t ignore_pid n h = omega (
  arith,
  n.fits,
  length-append name (32 ∷ (print_nat t ++ ending ignore_pid)),
  length-append (print_nat t) (ending ignore_pid),
  length-print_nat_timeout t h,
  length-ending ignore_pid,
)

c_string-whole_request :
    (name : Bytes) (t : ℕ) (ignore_pid : Bool)
    → IsName name
    → c_string (whole_request name t ignore_pid) ≡ whole_request name t ignore_pid
unfolding whole_request c_string
c_string-whole_request name t ignore_pid n =
    rw
      (
        c_string-name name (32 ∷ (print_nat t ++ ending ignore_pid)) n.bytes,
        c_string-print_nat t (ending ignore_pid),
        c_string-ending ignore_pid,
      )
      refl

dispatch-register :
    (env : Env) (creds : Creds) (b : Broker) (args : Bytes)
    → dispatch env creds (codes "REGISTER " ++ args) b ≡ handle_register env creds args b
unfolding dispatch strncmp_eq str_eq
dispatch-register env creds b args = refl

register_error-request :
    (name : Bytes) (t : ℕ) (ignore_pid : Bool)
    → IsName name
    → 5000 ≤ t
    → t ≤ 300_000
    → register_error (request_of name t ignore_pid) ≡ none
unfolding register_error str_eq
register_error-request name t true n l h = ground (arith, l, h, n.bytes)
register_error-request name t false n l h = ground (arith, l, h, n.bytes)

-- What `wd_client_register` writes for a name that the broker accepts and a timeout in range is
-- neither cut nor refused: the broker goes on to the search for a slot, with the name, the timeout
-- and the flag `ignorepid` that the client was called with.
pub handle_command-register_command :
    (env : Env) (creds : Creds) (c : WdClient) (b : Broker) (t : ℕ) (ignore_pid : Bool)
    → IsName c.name
    → 5000 ≤ t
    → t ≤ 300_000
    → handle_command env (some creds) (packet (register_command c t ignore_pid)) b
      ≡ register_name env creds (request_of c.name t ignore_pid) b
unfolding whole_request handle_register
handle_command-register_command env creds c b t ignore_pid n l h =
    let cmd = whole_request c.name t ignore_pid in
    let args = c.name ++ (32 ∷ (print_nat t ++ ending ignore_pid)) in
    let small = length-whole_request c.name t ignore_pid n h in
    let whole : register_command c t ignore_pid ≡ cmd =
      take-eq_self 127 cmd (omega (arith, small)) in
    ap (λ x. handle_command env (some creds) (packet x) b) whole
    ∙ command_arrives env creds b cmd (omega arith) (omega (arith, small))
        (c_string-whole_request c.name t ignore_pid n)
    ∙ dispatch-register env creds b args
    ∙ rw
        (
          handle_register,
          scan_register-request c.name t ignore_pid n h,
          register_error-request c.name t ignore_pid n l h,
        )
        (ap (λ a. register_name env creds a b) (scan_register-request c.name t ignore_pid n h))
