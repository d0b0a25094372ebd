-- ===== src/Print.antt =====
-- What `printf` writes for `%d`, `%u` and `%zu`, and `snprintf` into a buffer at an offset.
pub mod Laws
pub mod Decimal
use wd_broker.Prelude.{
  ℕ, zero, suc, ◌+◌, ◌-◌, ◌/◌, ◌%◌, ◌^◌, Bool, false, not, ◌&&◌, ◌||◌, [], ◌∷◌, ◌++◌, ltb, ◌==◌,
  if◌then◌else◌, length, take,
}
use wd_broker.Prelude.Int.{ℤ, pos, negsuc}
use wd_broker.Text.{Bytes}

-- A number has fewer decimal digits than one more than itself, which is the fuel.
print_digits : ℕ → ℕ → Bytes
print_digits zero n = []
print_digits (suc fuel) n =
    let more = print_digits fuel (n / 10) ++ (b'0' + n % 10) ∷ [] in
    if ltb n 10 then (b'0' + n) ∷ [] else more

unfoldable pub print_nat : ℕ → Bytes
unfolding print_digits
print_nat n = print_digits (suc n) n

unfoldable pub print_int : ℤ → Bytes
unfolding print_nat
print_int (pos n) = print_nat n
print_int (negsuc n) = b'-' ∷ print_nat (suc n)

-- A `char` buffer that is filled by `offset += snprintf(msg + offset, sizeof(msg) - offset, ...)`:
-- the text in it, the offset, and whether a byte was written behind its end.
pub record Message : Type 0 where
  pub content : Bytes
  pub offset : ℕ
  pub overrun : Bool

abbrev pub empty_message : Message
empty_message = record { content = []; offset = 0; overrun = false }

-- `sizeof(msg) - offset` is a `size_t`, which wraps. `snprintf` stores at most one byte less than
-- it is allowed, and a NUL, and returns the length of the whole text.
unfoldable pub snprintf_at : ℕ → Bytes → Message → Message
snprintf_at cap text m =
    let size = (cap + 2 ^ 64 - m.offset) % 2 ^ 64 in
    let kept = take (size - 1) text in
    record {
      content = m.content ++ kept;
      offset = m.offset + length text;
      overrun = m.overrun || (not (size == 0) && ltb cap (m.offset + length kept + 1));
    }

-- What the peer gets on a connection, or the access behind the end of a buffer that has no result.
pub data Reply : Type 0 where
  sent : Bytes → Reply
  out_of_bounds : Reply

-- The reply begins with "OK", which is what the clients look for.
abbrev pub begins_ok : Bytes → Bool
begins_ok (x ∷ y ∷ rest) = x == b'O' && y == b'K'
begins_ok _ = false

-- A text was sent, and it begins with "OK". That it is false of `out_of_bounds` says nothing of what the
-- process did there.
abbrev pub is_ok : Reply → Bool
is_ok (sent text) = begins_ok text
is_ok out_of_bounds = false

-- `write(fd, msg, offset)`
unfoldable pub write_message : ℕ → Message → Reply
write_message cap m =
    if m.overrun || ltb cap m.offset
    then out_of_bounds
    else sent (take m.offset (m.content ++ 0 ∷ []))
