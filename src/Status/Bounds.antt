-- ===== src/Status/Bounds.antt =====
-- Which STATUS replies fit the buffer of 4096 bytes.
use mathlib.Core.List.{append-nil, append_assoc}
use wd_broker.Prelude.{
  ℕ, ◌+◌, ◌*◌, ◌^◌, ◌≤◌, ◌<◌, ◌≡◌, refl, ◌∙◌, sym, Bool, true, false, List, [], ◌∷◌, ◌++◌, arith,
  All, length, length-append, take-append_self, if◌then◌else◌,
}
use wd_broker.Text.{Bytes, codes}
use wd_broker.Client.{Client, Config}
use wd_broker.Print.{Message, empty_message, snprintf_at, sent, out_of_bounds, write_message}
use wd_broker.Print.Laws.{snprintf_at-fits, length-print_nat, length-print_int}
use wd_broker.Status.{
  true_or_false, count_active, status_header, client_line, client_lines, print_lines, status_reply,
}

abbrev pub total : List Bytes → ℕ
total [] = 0
total (l ∷ ls) = length l + total ls

abbrev pub joined : List Bytes → Bytes
joined [] = []
joined (l ∷ ls) = l ++ joined ls

-- The text of the whole reply, line by line.
abbrev pub status_lines : Bytes → Config → List Client → List Bytes
status_lines version config clients = status_header version config clients ++ client_lines clients

pub length-joined : (ls : List Bytes) → length (joined ls) ≡ total ls
length-joined [] = refl
length-joined (l ∷ ls) = omega (arith, length-append l (joined ls), length-joined ls)

print_lines-fits :
    (size : ℕ) (ls : List Bytes) (m : Message)
    → size < 2 ^ 64
    → m.overrun ≡ false
    → m.offset + total ls < size
    → print_lines size ls m
      ≡ record { content = m.content ++ joined ls; offset = m.offset + total ls; overrun = false }
unfolding print_lines
print_lines-fits size [] m h o f = ground (arith, append-nil m.content)
print_lines-fits size (l ∷ ls) m h o f = rw (snprintf_at-fits size l m h o (omega arith)) (
    print_lines-fits size ls _ h refl (omega arith)
    ∙ ground (arith, append_assoc m.content l (joined ls)))

-- What fits the buffer is sent whole.
pub write_message-print_lines :
    (size : ℕ) (ls : List Bytes)
    → size < 2 ^ 64
    → total ls < size
    → write_message size (print_lines size ls empty_message) ≡ sent (joined ls)
unfolding write_message
write_message-print_lines size ls h k =
    rw (print_lines-fits size ls empty_message h refl (omega arith))
      (ground (arith, take-append_self (joined ls) (0 ∷ []) (total ls) (sym (length-joined ls))))

-- A reply of less than 4096 bytes is sent whole: the lines of the header, then one line for each
-- active or announced client.
pub status_reply_fits :
    (version : Bytes) (config : Config) (clients : List Client)
    → total (status_lines version config clients) < 4096
    → status_reply version config clients ≡ sent (joined (status_lines version config clients))
unfolding status_reply
status_reply_fits version config clients h =
    write_message-print_lines 4096 (status_lines version config clients) (omega arith) h

offset-print_lines :
    (size : ℕ) (ls : List Bytes) (m : Message)
    → (print_lines size ls m).offset ≡ m.offset + total ls
unfolding print_lines snprintf_at
offset-print_lines size [] m = omega arith
offset-print_lines size (l ∷ ls) m =
    omega (arith, offset-print_lines size ls (snprintf_at size l m))

-- A longer reply is read, or written, behind the end of the buffer.
pub status_reply_overflow :
    (version : Bytes) (config : Config) (clients : List Client)
    → 4096 < total (status_lines version config clients)
    → status_reply version config clients ≡ out_of_bounds
unfolding status_reply write_message
status_reply_overflow version config clients h =
    let ls = status_lines version config clients in
    ground (arith, offset-print_lines 4096 ls empty_message)

-- An active client with an id and a name of full length.
abbrev pub LongActive : Client → Type 0
LongActive c = (c.active ≡ true) × (length c.client_id ≡ 16) × (length c.name ≡ 63)

length-true_or_false : (b : Bool) → 4 ≤ length (true_or_false b)
length-true_or_false true = omega arith
length-true_or_false false = omega arith

length-flag : (b : Bool) → length (if b then codes " 1\n" else codes " 0\n") ≡ 3
length-flag true = refl
length-flag false = refl

length-client_line : (c : Client) → LongActive c → 86 ≤ length (client_line c)
unfolding client_line
length-client_line c h = simp length-append (
    omega
      (arith, h, length-print_nat c.pid, length-print_nat c.timeout_ms, length-flag c.check_pid))

total-client_lines :
    (cs : List Client) → All LongActive cs → length cs * 86 ≤ total (client_lines cs)
unfolding client_lines
total-client_lines [] h = omega arith
total-client_lines (c ∷ cs) h =
    ground (arith, h.0.0, length-client_line c h.0, total-client_lines cs h.1)

total-append : (xs ys : List Bytes) → total (xs ++ ys) ≡ total xs + total ys
total-append [] ys = omega arith
total-append (x ∷ xs) ys = omega (arith, total-append xs ys)

total-status_header :
    (version : Bytes) (config : Config) (clients : List Client)
    → 128 ≤ total (status_header version config clients)
unfolding status_header
total-status_header version config clients = simp length-append (
    omega (
      arith,
      length-print_int config.wd_timeout_s,
      length-print_int config.reboot_timeout_s,
      length-print_nat (count_active clients),
      length-true_or_false config.strict_clients,
      length-true_or_false config.unique_clients,
    ))

-- With a table of 47 slots or more, all of them active with ids of 16 bytes and names of 63, the
-- STATUS reply is accessed behind the end of its buffer.
pub status_reply-out_of_bounds :
    (version : Bytes) (config : Config) (clients : List Client)
    → All LongActive clients
    → 47 ≤ length clients
    → status_reply version config clients ≡ out_of_bounds
status_reply-out_of_bounds version config clients h n =
    status_reply_overflow version config clients (
      omega (
        arith,
        total-append (status_header version config clients) (client_lines clients),
        total-status_header version config clients,
        total-client_lines clients h,
      ))
