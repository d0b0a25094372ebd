-- ===== src/Lifetime/Unregistered.antt =====
-- What becomes of a client that the configuration file announces and nobody registers, from
-- parse_config to the main loop of src/wd-broker.c.
use mathlib.Core.Path.{subst}
use wd_broker.Prelude.{
  ℕ, suc, zero, ◌+◌, ◌*◌, ◌≤◌, ◌<◌, ◌≡◌, refl, sym, ap, ◌∙◌, Bool, true, false, Option, none, some,
  List, [], ◌∷◌, ◌++◌, arith, All, replicate, get_elem?,
}
use wd_broker.Text.{Bytes}
use wd_broker.Client.{Timespec, Client}
use wd_broker.Slots.{is_live}
use wd_broker.Heartbeat.Exact.{IsNormal, nanos, max_elapsed}
use wd_broker.Handler.Invariant.{SlotInv}
use wd_broker.ConfigFile.{Build, World, Parser, ok, parse_config}
use wd_broker.ConfigFile.Announced.{AnnouncedFrom-get}
use wd_broker.ConfigFile.Bounds.{parse_config-Loaded}
use wd_broker.ConfigFile.Prefix.{parse_config-Prefixed}
use wd_broker.Loop.{Select, interrupted, failed, ready, Round, run_loop, run_main}
use wd_broker.Loop.Safety.{NoSignal}
use wd_broker.Loop.Deadline.{Without, WithoutRound, StarvesBehind, run_main-StarvesBehind}
use wd_broker.Lifetime.{start}

-- Nobody connects.
abbrev pub NoVisitor : Select → Type 0
NoVisitor (ready server timer) = server ≡ none
NoVisitor _ = Unit {0}

abbrev pub IsUnvisited : Round → Type 0
IsUnvisited r = (r.signalled ≡ false) × NoVisitor r.select

-- `now` is five minutes, the longest timeout, and a millisecond after `then_`, or later, but less than
-- 2^32 - 1 milliseconds.
pub record FiveMinutes (then_ now : Timespec) : Type 0 where
  pub then_normal : IsNormal then_
  pub now_normal : IsNormal now
  pub passed : nanos then_ + 300_001 * 1_000_000 ≤ nanos now
  pub recent : nanos now < nanos then_ + max_elapsed

NoVisitor-WithoutRound : (c : Client) (s : Select) → NoVisitor s → WithoutRound c s
NoVisitor-WithoutRound c interrupted h = tt
NoVisitor-WithoutRound c failed h = tt
NoVisitor-WithoutRound c (ready server timer) h = rw h tt

IsUnvisited-Without : (c : Client) (rs : List Round) → All IsUnvisited rs → All (Without c) rs
IsUnvisited-Without c [] h = tt
IsUnvisited-Without c (r ∷ rs) h =
    ((h.0.0, NoVisitor-WithoutRound c r.select h.0.1), IsUnvisited-Without c rs h.1)

All-get :
    {A : Type 0} (P : A → Type 0) (xs : List A) (k : ℕ) (x : A)
    → All P xs
    → get_elem? xs k ≡ some x
    → P x
All-get P [] k x h e = absurd (cc)
All-get P (y ∷ xs) zero x h e = subst P (ground arith) h.0
All-get P (y ∷ xs) (suc k) x h e = All-get P xs k x h.1 e

-- An announced client that nobody registers starves the watchdog: take a daemon that starts with an
-- accepted configuration file, a client `c` that the file announces, and a run without any connection or
-- signal. If some round reads, for that client's slot, a clock that is past the reading of the file's
-- section by 300,001 milliseconds or more, that is five minutes and a millisecond, but by less than
-- 2^32 - 1 milliseconds, then, whatever timeout the file gives, all that `main` does behind the rounds
-- before it neither feeds the watchdog nor switches it off nor changes its timeout.
pub run_main-Unregistered :
    (world : World) (build : Build) (file : Option Bytes) (p : Parser) (watchdog fed : Bool)
    (n k : ℕ) (c : Client) (pre post : List Round) (r : Round) (timer : Option ℕ)
    → parse_config world build file ≡ ok p
    → get_elem? p.clients k ≡ some c
    → c.anounced ≡ true
    → All IsUnvisited pre
    → r.signalled ≡ false
    → r.select ≡ ready none timer
    → NoSignal post
    → FiveMinutes (world.now k) (r.clock k)
    → StarvesBehind
        (run_loop watchdog pre (start p))
        (run_main watchdog (pre ++ r ∷ post) fed (replicate n false) (start p))
unfolding start
run_main-Unregistered world build file p watchdog fed n k c pre post r timer e there a quiet signal
      sel silent late =
    let front = parse_config-Prefixed world build file p e in
    let pinged : c.last_ping ≡ world.now k =
      AnnouncedFrom-get world front.front front.rest 0 k c front.announced
        (ap (λ cs. get_elem? cs k) (sym front.table) ∙ there) a
      ∙ ap world.now (omega arith) in
    let loaded = parse_config-Loaded world build file p e in
    let slot = All-get SlotInv p.clients k c loaded.slots there in
    let live : is_live c ≡ true = ground (arith, a) in
    run_main-StarvesBehind watchdog fed n k c pre post r none timer (start p) (there, refl) live
      (IsUnvisited-Without c pre quiet) (signal, rw sel tt) silent sel
      (record {
        now_normal = late.now_normal;
        last_normal = rw pinged late.then_normal;
        later = rw pinged (omega (arith, late.passed));
        recent = rw pinged late.recent;
      })
      (rw pinged (omega (arith, late.passed, slot.timeout_max live)))
