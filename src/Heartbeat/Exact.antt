-- ===== src/Heartbeat/Exact.antt =====
-- How exact the measured age is, and what the check therefore means in real time.
use wd_broker.Prelude.{ℕ, ◌+◌, ◌-◌, ◌*◌, ◌^◌, ◌≤◌, ◌<◌, arith}
use wd_broker.Client.{Timespec}
use wd_broker.Heartbeat.{ms_since}

-- What the kernel promises of a `struct timespec`.
abbrev pub IsNormal : Timespec → Type 0
IsNormal t = t.tv_nsec < 1_000_000_000

abbrev pub nanos : Timespec → ℕ
nanos t = t.tv_sec * 1_000_000_000 + t.tv_nsec

-- 2^32 - 1 milliseconds, some 49 days.
abbrev pub max_elapsed : ℕ
max_elapsed = (2 ^ 32 - 1) * 1_000_000

pub ms_since_bounds :
    (now last : Timespec)
    → IsNormal now
    → IsNormal last
    → nanos last ≤ nanos now
    → nanos now < nanos last + max_elapsed
    → (nanos now < nanos last + (ms_since now last + 1) * 1_000_000)
      × (ms_since now last * 1_000_000 + nanos last < nanos now + 1_000_000)
unfolding ms_since
ms_since_bounds now last h k le lt = ground arith
