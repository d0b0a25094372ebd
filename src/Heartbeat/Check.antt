-- ===== src/Heartbeat/Check.antt =====
-- The check of the whole table.
use wd_broker.Prelude.{
  ℕ, suc, ◌+◌, ◌*◌, ◌≤◌, ◌<◌, ◌≡◌, ◌↔◌, Bool, true, false, List, [], ◌∷◌, arith,
}
use wd_broker.Client.{Timespec, Client}
use wd_broker.Slots.{is_live}
use wd_broker.Heartbeat.{is_overdue, check_clients}
use wd_broker.Heartbeat.Exact.{IsNormal, nanos, max_elapsed, ms_since_bounds}

-- The clock has gone on since the slot's last heartbeat, by less than 2^32 - 1 milliseconds.
pub record Plausible (now : Timespec) (c : Client) : Type 0 where
  pub now_normal : IsNormal now
  pub last_normal : IsNormal c.last_ping
  pub later : nanos c.last_ping ≤ nanos now
  pub recent : nanos now < nanos c.last_ping + max_elapsed

-- Read with a clock that has gone on since the last heartbeat, by less than 2^32 - 1 milliseconds: an active
-- or announced client that is called overdue has really been silent for longer than its time limit, so
-- there is no false alarm; and one that has been silent for a millisecond more than its limit is called
-- overdue.
pub is_overdue_exact :
    (now : Timespec) (c : Client)
    → Plausible now c
    → is_live c ≡ true
    → (is_overdue now c ≡ true → nanos c.last_ping + c.timeout_ms * 1_000_000 < nanos now)
      × (nanos c.last_ping + (c.timeout_ms + 1) * 1_000_000 ≤ nanos now → is_overdue now c ≡ true)
unfolding is_overdue
is_overdue_exact now c p l =
    let b = ms_since_bounds now c.last_ping p.now_normal p.last_normal p.later p.recent in
    (λ e. ground (arith, b), λ h. ground (arith, b, l))

-- Every slot of the table, read with its own clock, is in time.
abbrev pub InTime : (ℕ → Timespec) → ℕ → List Client → Type 0
InTime clock i [] = Unit {0}
InTime clock i (c ∷ cs) = (is_overdue (clock i) c ≡ false) × InTime clock (suc i) cs

pub check_clients-InTime :
    (clock : ℕ → Timespec) (i : ℕ) (cs : List Client) (ok : Bool)
    → (check_clients clock i cs ok ≡ true) ↔ ((ok ≡ true) × InTime clock i cs)
unfolding check_clients
check_clients-InTime clock i [] ok = (λ e. (e, tt), λ h. h.0)
check_clients-InTime clock i (c ∷ cs) ok = ground (arith, check_clients-InTime clock (suc i) cs ok)
