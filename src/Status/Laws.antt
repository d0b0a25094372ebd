-- ===== src/Status/Laws.antt =====
-- The replies to STATUS and VERSION never look like an OK.
use wd_broker.Prelude.{
  ap, ◌-◌, ◌%◌, ◌^◌, ℕ, suc, zero, ◌+◌, ◌<◌, ◌≡◌, refl, false, List, [], ◌∷◌, ◌++◌, arith, take,
  ◌⊎◌, inl, inr, Bool-cases, ltb, ◌||◌,
}
use wd_broker.Text.{Bytes}
use wd_broker.Client.{Client, Config}
use wd_broker.Print.{Message, empty_message, snprintf_at, is_ok, begins_ok, write_message}
use wd_broker.Status.{status_header, print_lines, status_reply, version_reply}

-- The message begins with this byte.
abbrev BeginsWith : ℕ → Message → Type 0
BeginsWith c m = (0 < m.offset) × (rest : Bytes) × (m.content ≡ c ∷ rest)

snprintf_at-BeginsWith :
    (size : ℕ) (text : Bytes) (c : ℕ) (m : Message)
    → BeginsWith c m
    → BeginsWith c (snprintf_at size text m)
unfolding snprintf_at
snprintf_at-BeginsWith size text c m (h, r, e) = (
  omega arith,
  r ++ take ((size + 2 ^ 64 - m.offset) % 2 ^ 64 - 1) text,
  ap (λ b. b ++ take ((size + 2 ^ 64 - m.offset) % 2 ^ 64 - 1) text) e,
)

print_lines-BeginsWith :
    (size : ℕ) (ls : List Bytes) (c : ℕ) (m : Message)
    → BeginsWith c m
    → BeginsWith c (print_lines size ls m)
unfolding print_lines
print_lines-BeginsWith size [] c m h = h
print_lines-BeginsWith size (l ∷ ls) c m h =
    print_lines-BeginsWith size ls c (snprintf_at size l m) (snprintf_at-BeginsWith size l c m h)

begins_ok-cons : (c : ℕ) (s : Bytes) → (c ≡ b'd') ⊎ (c ≡ b'w') → begins_ok (c ∷ s) ≡ false
begins_ok-cons c [] d = refl
begins_ok-cons c (y ∷ s) d = ground arith

write_message-not_ok :
    (size : ℕ) (c : ℕ) (m : Message)
    → (c ≡ b'd') ⊎ (c ≡ b'w')
    → BeginsWith c m
    → is_ok (write_message size m) ≡ false
unfolding write_message
write_message-not_ok size c m d (h, r, e) = elim (Bool-cases (m.overrun || ltb size m.offset)) [
  | inl x ↦ rw x refl
  | inr x ↦ rw x (rw e (first m.offset h))
]
  where
    first : (n : ℕ) → 0 < n → begins_ok (take n (c ∷ (r ++ 0 ∷ []))) ≡ false
    first zero k = absurd (omega arith)
    first (suc n) k = begins_ok-cons c (take n (r ++ 0 ∷ [])) d

print_lines_head-not_ok :
    (size c : ℕ) (l : Bytes) (ls : List Bytes)
    → (c ≡ b'd') ⊎ (c ≡ b'w')
    → (4 < size) × (size < 2 ^ 64)
    → is_ok (write_message size (print_lines size ((c ∷ l) ∷ ls) empty_message)) ≡ false
unfolding print_lines snprintf_at
print_lines_head-not_ok size c l ls d h = write_message-not_ok size c _ d (
    print_lines-BeginsWith size ls c (snprintf_at size (c ∷ l) empty_message)
      (omega arith, take (size - 2) l, first ((size + 2 ^ 64 - 0) % 2 ^ 64 - 1) (omega arith)))
  where
    first : (n : ℕ) → n ≡ suc (size - 2) → take n (c ∷ l) ≡ c ∷ take (size - 2) l
    first n e = rw e refl

pub status_reply-not_ok :
    (version : Bytes) (config : Config) (clients : List Client)
    → is_ok (status_reply version config clients) ≡ false
unfolding status_reply status_header
status_reply-not_ok version config clients =
    print_lines_head-not_ok 4096 b'd' _ _ (inl refl) (omega arith)

pub version_reply-not_ok : (version : Bytes) → is_ok (version_reply version) ≡ false
unfolding version_reply
version_reply-not_ok version = print_lines_head-not_ok 128 b'w' _ _ (inr refl) (omega arith)
