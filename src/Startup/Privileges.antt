-- ===== src/Startup/Privileges.antt =====
-- Who the process is while it starts, and when it enters the loop.
use wd_broker.Prelude.{
  ℕ, ◌≡◌, ◌≢◌, refl, ap, ◌∙◌, Bool, true, false, Option, none, some, Bool-cases, inl, inr, List, [],
  ◌∷◌, ◌++◌, arith, if◌then◌else◌,
}
use wd_broker.ConfigFile.{Build, World}
use wd_broker.Options.{Opt, Options}
use wd_broker.Text.{Bytes}
use wd_broker.Startup.Trace.{claim_acts, service_acts, startup_acts, startup-IsStarted}
use wd_broker.Startup.{
  Stat, Act, arm_timer, unlink_socket, bind_socket, listen_socket, chmod_socket, chown_socket,
  open_watchdog, set_timeout, drop_groups, set_gid, set_uid, detach, goes, System, started_as_root,
  Started, startup,
}

-- The effective user and group, and whether the supplementary groups are gone.
pub record Identity : Type 0 where
  pub uid : ℕ
  pub gid : ℕ
  pub no_groups : Bool

abbrev pub become : Act → Identity → Identity
become drop_groups p = record p { no_groups = true }
become (set_gid g) p = record p { gid = g }
become (set_uid u) p = record p { uid = u }
become (arm_timer t) p = p
become (unlink_socket path) p = p
become (bind_socket path) p = p
become listen_socket p = p
become (chmod_socket path m) p = p
become (chown_socket path u g) p = p
become open_watchdog p = p
become (set_timeout t) p = p
become detach p = p

abbrev pub identity_after : List Act → Identity → Identity
identity_after [] p = p
identity_after (act ∷ acts) p = identity_after acts (become act p)

identity_after-append :
    (xs ys : List Act) (p : Identity)
    → identity_after (xs ++ ys) p ≡ identity_after ys (identity_after xs p)
identity_after-append [] ys p = refl
identity_after-append (x ∷ xs) ys p = identity_after-append xs ys (become x p)

identity_after-claim_acts :
    (path : Bytes) (o : Option Stat) (p : Identity) → identity_after (claim_acts path o) p ≡ p
identity_after-claim_acts path none p = refl
identity_after-claim_acts path (some st) p = refl

identity_after-service_acts :
    (root watchdog background : Bool) (s : Started) (p : Identity)
    → identity_after (service_acts root watchdog background s) p
      ≡ (if root then record { uid = s.passwd.uid; gid = s.passwd.gid; no_groups = true } else p)
identity_after-service_acts true true true s p = refl
identity_after-service_acts true true false s p = refl
identity_after-service_acts true false true s p = refl
identity_after-service_acts true false false s p = refl
identity_after-service_acts false true true s p = refl
identity_after-service_acts false true false s p = refl
identity_after-service_acts false false true s p = refl
identity_after-service_acts false false false s p = refl

identity_after-startup_acts :
    (sys : System) (s : Started) (p : Identity)
    → identity_after (startup_acts sys s) p ≡ (
        if started_as_root sys
        then record { uid = s.passwd.uid; gid = s.passwd.gid; no_groups = true }
        else p)
identity_after-startup_acts sys s p =
    let root = started_as_root sys in
    let claimed = claim_acts s.parser.config.socket_path (sys.lstat s.parser.config.socket_path) in
    let service = service_acts root s.options.watchdog_enabled s.options.daemonize s in
    identity_after-append claimed service p
    ∙ ap (identity_after service) (
        identity_after-claim_acts s.parser.config.socket_path
          (sys.lstat s.parser.config.socket_path) p)
    ∙ identity_after-service_acts root s.options.watchdog_enabled s.options.daemonize s p

-- The identity of a process behind its start.
pub record IsUnprivileged (sys : System) (s : Started) (before after : Identity) : Type 0 where
  pub not_root : after.uid ≢ 0
  pub by_root :
      before.uid ≡ 0
      → (after.uid ≡ s.passwd.uid) × (after.gid ≡ s.passwd.gid) × (after.no_groups ≡ true)
  pub by_other : before.uid ≢ 0 → (after ≡ before) × (s.options.watchdog_enabled ≡ false)

-- A start that reaches the loop leaves root behind: started by root, the process has the service
-- user's identity, which is not root's, and no supplementary groups; started by another user it stays
-- that user, and the watchdog is not used.
pub identity_after-startup :
    (sys : System) (world : World) (build : Build) (opts : List Opt) (defaults : Options)
    (s : Started) (acts : List Act) (p : Identity)
    → startup sys world build opts defaults ≡ goes s acts
    → p.uid ≡ sys.euid
    → IsUnprivileged sys s p (identity_after acts p)
identity_after-startup sys world build opts defaults s acts p e u =
    let h = startup-IsStarted sys world build opts defaults s acts e in
    let q : identity_after acts p ≡ (
        if started_as_root sys
        then record { uid = s.passwd.uid; gid = s.passwd.gid; no_groups = true }
        else p) =
      ap (λ xs. identity_after xs p) h.order ∙ identity_after-startup_acts sys s p in
    rw q (elim (Bool-cases (started_as_root sys)) [
      | inl r ↦ rw r (record {
        not_root = h.trusted.not_root;
        by_root = λ z. (refl, refl, refl);
        by_other = λ z. absurd (ground (arith, r, u, z));
      })
      | inr r ↦ rw r (record {
        not_root = ground (arith, r, u);
        by_root = λ z. absurd (ground (arith, r, u, z));
        by_other = λ z. (refl, ground (arith, h.device, r));
      })
    ])
