-- ===== src/Print/Laws.antt =====
-- What `snprintf` at an offset leaves in the buffer.
use wd_broker.Prelude.{
  ◌≤◌, ◌/◌, length-append, ◌∷◌, [], ℕ, ◌+◌, ◌-◌, ◌%◌, ◌^◌, ◌<◌, ◌≡◌, true, false, ◌++◌, arith,
  length, take-eq_self,
}
use wd_broker.Text.{Bytes}
use wd_broker.Prelude.Int.{ℤ, pos, negsuc}
use wd_broker.Print.{print_digits, print_nat, print_int, Message, snprintf_at}

-- A text that fits is appended whole.
pub snprintf_at-fits :
    (cap : ℕ) (text : Bytes) (m : Message)
    → cap < 2 ^ 64
    → m.overrun ≡ false
    → m.offset + length text < cap
    → snprintf_at cap text m
      ≡ record { content = m.content ++ text; offset = m.offset + length text; overrun = false }
unfolding snprintf_at
snprintf_at-fits cap text m h o f =
    ground (arith, take-eq_self ((cap + 2 ^ 64 - m.offset) % 2 ^ 64 - 1) text (omega arith))

-- What is written behind the offset when that is behind the end already.
pub snprintf_at-overrun :
    (cap : ℕ) (text : Bytes) (m : Message)
    → cap < m.offset
    → m.offset < 2 ^ 64
    → (snprintf_at cap text m).overrun ≡ true
unfolding snprintf_at
snprintf_at-overrun cap text m h k = ground arith

-- A number has a digit at least.
pub length-print_nat : (n : ℕ) → 1 ≤ length (print_nat n)
unfolding print_nat
length-print_nat n = ground (arith, length-append (print_digits n (n / 10)) ((b'0' + n % 10) ∷ []))

pub length-print_int : (n : ℤ) → 1 ≤ length (print_int n)
unfolding print_int
length-print_int (pos n) = length-print_nat n
length-print_int (negsuc n) = omega arith
