-- ===== src/Status/Exact.antt =====
-- What becomes of a STATUS reply of any length in the buffer of 4096 bytes.
use mathlib.Core.List.{append-nil, append_assoc}
use wd_broker.Prelude.{
  ltb→lt, ==_iff, ℕ, zero, suc, ◌+◌, ◌-◌, ◌^◌, ◌≤◌, ◌<◌, ◌≡◌, refl, ap, ◌∙◌, sym, inl, inr, false,
  List, [], ◌∷◌, ◌++◌, arith, ltb, ◌==◌, Bool-cases, take, length, length-append, length-take, ◌%◌,
  take-eq_self, if◌then◌else◌,
}
use wd_broker.Text.{Bytes}
use wd_broker.Client.{Client, Config}
use wd_broker.Print.{Message, empty_message, snprintf_at, sent, out_of_bounds, write_message}
use wd_broker.Print.Laws.{snprintf_at-fits}
use wd_broker.Status.{print_lines, status_reply}
use wd_broker.Status.Bounds.{total, joined, status_lines, status_reply_fits, status_reply_overflow}

-- At the end of the buffer `snprintf` with no byte left and an empty text changes nothing.
snprintf_at-none :
    (size : ℕ) (m : Message)
    → size < 2 ^ 64
    → m.overrun ≡ false
    → m.offset ≡ size
    → snprintf_at size [] m ≡ m
unfolding snprintf_at
snprintf_at-none size m h o f = ground (
  arith,
  take-eq_self {A = ℕ} ((size + 2 ^ 64 - m.offset) % 2 ^ 64 - 1) [] (omega arith),
  append-nil m.content,
)

print_lines-none :
    (size : ℕ) (ls : List Bytes) (m : Message)
    → size < 2 ^ 64
    → m.overrun ≡ false
    → m.offset ≡ size
    → total ls ≡ 0
    → (print_lines size ls m ≡ m) × (joined ls ≡ [])
unfolding print_lines
print_lines-none size [] m h o f t = (refl, refl)
print_lines-none size ([] ∷ ls) m h o f t =
    rw (snprintf_at-none size m h o f) (print_lines-none size ls m h o f (omega arith))
print_lines-none size ((c ∷ l) ∷ ls) m h o f t = absurd (omega arith)

take-append :
    {A : Type 0} (xs ys : List A) (n : ℕ)
    → length xs ≤ n
    → take n (xs ++ ys) ≡ xs ++ take (n - length xs) ys
take-append [] ys n h = ap (λ (k : ℕ). take k ys) (omega arith)
take-append (x ∷ xs) ys zero h = absurd (omega arith)
take-append (x ∷ xs) ys (suc n) h =
    ap (◌∷◌ x) (take-append xs ys n (omega arith) ∙ ap (λ (k : ℕ). xs ++ take k ys) (omega arith))

-- The line that reaches the end exactly loses its last byte.
snprintf_at-exact :
    (size : ℕ) (text : Bytes) (m : Message)
    → size < 2 ^ 64
    → m.overrun ≡ false
    → m.offset < size
    → m.offset + length text ≡ size
    → snprintf_at size text m ≡ record {
      content = m.content ++ take (size - 1 - m.offset) text;
      offset = size;
      overrun = false;
    }
unfolding snprintf_at
snprintf_at-exact size text m h o f e = ground (
  arith,
  ap (λ (k : ℕ). take k text) (room size m.offset h f),
  length-take ((size + 2 ^ 64 - m.offset) % 2 ^ 64 - 1) text,
)
  where
    room :
        (size offset : ℕ)
        → size < 2 ^ 64
        → offset < size
        → (size + 2 ^ 64 - offset) % 2 ^ 64 - 1 ≡ size - 1 - offset
    room size offset h f = omega arith

-- Lines that fill the buffer exactly: the last byte gives way to the NUL.
print_lines-exact :
    (size : ℕ) (ls : List Bytes) (m : Message)
    → size < 2 ^ 64
    → m.overrun ≡ false
    → m.offset < size
    → m.offset + total ls ≡ size
    → print_lines size ls m ≡ record {
      content = m.content ++ take (size - 1 - m.offset) (joined ls);
      offset = size;
      overrun = false;
    }
unfolding print_lines
print_lines-exact size [] m h o f e = absurd (omega arith)
print_lines-exact size (l ∷ ls) m h o f e = elim (Bool-cases (ltb (m.offset + length l) size)) [
  | inl before ↦
      let short : m.offset + length l < size = ltb→lt (m.offset + length l) size before in
      let m' : Message = record {
        content = m.content ++ l;
        offset = m.offset + length l;
        overrun = false;
      } in
      let rest = size - 1 - (m.offset + length l) in
      let cut : take (size - 1 - m.offset) (l ++ joined ls) ≡ l ++ take rest (joined ls) =
        take-append l (joined ls) (size - 1 - m.offset) (omega arith)
        ∙ ap (λ (k : ℕ). l ++ take k (joined ls)) (omega arith) in
      rw (snprintf_at-fits size l m h o short) (
        print_lines-exact size ls m' h refl short (omega (arith, e))
        ∙ ap (λ x. record { content = x; offset = size; overrun = false })
            (append_assoc m.content l (take rest (joined ls)) ∙ ap (λ x. m.content ++ x) (sym cut)))
  | inr end ↦
      let long : size ≤ m.offset + length l = ground (arith, end) in
      let m' : Message = record {
        content = m.content ++ take (size - 1 - m.offset) l;
        offset = size;
        overrun = false;
      } in
      let (same, nothing) = print_lines-none size ls m' h refl refl (omega (arith, e, long)) in
      rw (snprintf_at-exact size l m h o f (omega (arith, e, long))) (
        same
        ∙ ap
            (λ x. record {
              content = m.content ++ take (size - 1 - m.offset) x;
              offset = size;
              overrun = false;
            })
            (sym (append-nil l) ∙ ap (λ x. l ++ x) (sym nothing)))
]

status_reply-full :
    (version : Bytes) (config : Config) (clients : List Client)
    → total (status_lines version config clients) ≡ 4096
    → status_reply version config clients
      ≡ sent (take 4095 (joined (status_lines version config clients)) ++ 0 ∷ [])
unfolding status_reply write_message
status_reply-full version config clients e =
    let ls = status_lines version config clients in
    let filled =
      print_lines-exact 4096 ls empty_message (omega arith) refl (omega arith) (omega (arith, e)) in
    rw filled (
      ap sent (
        take-eq_self 4096 (take 4095 (joined ls) ++ 0 ∷ []) (
          omega
            (arith, length-append (take 4095 (joined ls)) (0 ∷ []), length-take 4095 (joined ls)))))

-- What becomes of the STATUS reply, by the length of its lines: below 4096 bytes it is sent whole; at 4096
-- its last byte is replaced by a NUL; beyond, memory behind the buffer is read, or written.
pub status_reply-exact :
    (version : Bytes) (config : Config) (clients : List Client)
    → let ls = status_lines version config clients in
      status_reply version config clients ≡ (
        if ltb (total ls) 4096
        then sent (joined ls)
        else if total ls == 4096
        then sent (take 4095 (joined ls) ++ 0 ∷ [])
        else out_of_bounds)
unfolding status_reply
status_reply-exact version config clients =
    let ls = status_lines version config clients in
    elim (Bool-cases (ltb (total ls) 4096)) [
      | inl below ↦
          rw below (status_reply_fits version config clients (ltb→lt (total ls) 4096 below))
      | inr over ↦ elim (Bool-cases (total ls == 4096)) [
        | inl equal ↦
            rw (over, equal)
              (status_reply-full version config clients ((==_iff (total ls) 4096).0 equal))
        | inr more ↦ rw (over, more) (status_reply_overflow version config clients (ground arith))
      ]
    ]
