-- ===== src/Heartbeat.antt =====
-- The supervision of the clients in src/wd-broker.c: `ms_since`, and the loop of `main` that looks
-- for a missed heartbeat. The clock is read anew for each slot.
pub mod Exact
pub mod Check
use wd_broker.Prelude.{
  ℕ, zero, suc, ◌-◌, ◌/◌, ◌%◌, ◌^◌, Bool, true, false, ◌&&◌, ◌||◌, List, [], ◌∷◌, ltb, ◌==◌,
  if◌then◌else◌,
}
use wd_broker.Prelude.Int.{ℤ, pos, negsuc, ◌+ℤ◌, ◌-ℤ◌, ◌*ℤ◌}
use wd_broker.Client.{Timespec, Client}

-- C's `/` on a signed number rounds towards 0.
unfoldable pub trunc_div : ℤ → ℕ → ℤ
trunc_div (pos n) d = pos (n / d)
trunc_div (negsuc n) d = let q = suc n / d in if q == 0 then pos 0 else negsuc (q - 1)

-- The conversion of a `long` to `unsigned int`.
unfoldable pub to_unsigned : ℤ → ℕ
to_unsigned (pos n) = n % 2 ^ 32
to_unsigned (negsuc n) = 2 ^ 32 - 1 - n % 2 ^ 32

-- `now` is what `get_now` reads. The `long` arithmetic does not overflow for times of 200 million
-- years, and is exact here.
unfoldable pub ms_since : Timespec → Timespec → ℕ
unfolding trunc_div to_unsigned ◌+ℤ◌ ◌-ℤ◌ ◌*ℤ◌
ms_since now then_ = to_unsigned (
    (pos now.tv_sec -ℤ pos then_.tv_sec) *ℤ pos 1000
    +ℤ trunc_div (pos now.tv_nsec -ℤ pos then_.tv_nsec) 1_000_000)

-- The test on one slot at this time.
unfoldable pub is_overdue : Timespec → Client → Bool
is_overdue now c = (c.active || c.anounced) && ltb c.timeout_ms (ms_since now c.last_ping)

-- The loop over the slots; `clock i` is the reading at slot `i`. The result is `all_ok`, which the
-- first overdue client makes false.
unfoldable pub check_clients : (ℕ → Timespec) → ℕ → List Client → Bool → Bool
check_clients clock i [] all_ok = all_ok
check_clients clock i (c ∷ cs) all_ok =
    let rest = check_clients clock (suc i) cs all_ok in
    if is_overdue (clock i) c then false else rest
