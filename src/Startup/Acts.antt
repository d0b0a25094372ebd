-- ===== src/Startup/Acts.antt =====
-- What a start may do that fails on its way, or ends early.
use wd_broker.Prelude.{
  ◌≡◌, ◌≢◌, refl, Bool, true, false, Option, none, some, ◌⊎◌, inl, inr, List, [], ◌∷◌, ◌++◌, arith,
}
use wd_broker.Prelude.Int.{ℤ}
use wd_broker.Text.{Bytes}
use wd_broker.Client.{Config}
use wd_broker.ConfigFile.{Build, World, Parser}
use wd_broker.Options.{ExitCode, Opt, Options}
use wd_broker.Startup.Trace.{
  IsStale, claim_acts, when, check_service_user-goes, claim_socket_path-goes, create_socket-goes,
  open_device-goes, drop_privileges-goes, read_options-goes, check_config_file-goes,
  load_config-goes,
}
use wd_broker.Startup.{
  Act, arm_timer, unlink_socket, bind_socket, listen_socket, chmod_socket, chown_socket,
  open_watchdog, set_timeout, drop_groups, set_gid, set_uid, detach, Run, ends, goes, behind, ◌>>=◌,
  ◌>>◌, Passwd, Stat, System, started_as_root, read_options, check_service_user, check_config_file,
  load_config, claim_socket_path, create_socket, open_device, drop_privileges, go_background,
  Started, startup,
}

-- What a run has done, however it ends.
abbrev pub acts_of : {A : Type 0} → Run A → List Act
acts_of (ends code acts) = acts
acts_of (goes a acts) = acts

-- How far the start has come: the file that it removed, whether the socket is there, and whether root's
-- rights are gone.
pub record Progress : Type 0 where
  pub removed : Option Bytes
  pub bound : Bool
  pub dropped : Bool

abbrev pub advance : Act → Progress → Progress
advance (unlink_socket path) g = record g { removed = some path }
advance (bind_socket path) g = record g { bound = true }
advance (set_uid u) g = record g { dropped = true }
advance _ g = g

-- If a file was removed, it was the one at this path.
abbrev pub Renews : Option Bytes → Bytes → Type 0
Renews none path = Unit {0}
Renews (some p) path = p ≡ path

-- What must hold for an act to be done.
abbrev pub Allowed : System → Progress → Act → Type 0
Allowed sys g (unlink_socket path) = (g.bound ≡ false) × IsStale sys path
Allowed sys g (bind_socket path) = (g.bound ≡ false) × Renews g.removed path
Allowed sys g open_watchdog = (sys.euid ≡ 0) × (g.bound ≡ true) × (g.dropped ≡ false)
Allowed sys g (chown_socket path u gid) = (sys.euid ≡ 0) × (g.dropped ≡ false) × (u ≢ 0)
Allowed sys g (set_uid u) = (sys.euid ≡ 0) × (u ≢ 0)
Allowed sys g (arm_timer t) = g.bound ≡ false
Allowed sys g listen_socket = g.bound ≡ true
Allowed sys g (chmod_socket path m) = g.bound ≡ true
Allowed sys g (set_timeout t) = g.dropped ≡ false
Allowed sys g drop_groups = g.dropped ≡ false
Allowed sys g (set_gid gid) = g.dropped ≡ false
Allowed sys g detach = g.bound ≡ true

abbrev pub AllAllowed : System → Progress → List Act → Type 0
AllAllowed sys g [] = Unit {0}
AllAllowed sys g (act ∷ acts) = Allowed sys g act × AllAllowed sys (advance act g) acts

abbrev advance_all : List Act → Progress → Progress
advance_all [] g = g
advance_all (act ∷ acts) g = advance_all acts (advance act g)

AllAllowed-append :
    (sys : System) (g : Progress) (xs ys : List Act)
    → AllAllowed sys g xs
    → AllAllowed sys (advance_all xs g) ys
    → AllAllowed sys g (xs ++ ys)
AllAllowed-append sys g [] ys h k = k
AllAllowed-append sys g (x ∷ xs) ys h k = (h.0, AllAllowed-append sys (advance x g) xs ys h.1 k)

acts_of-behind :
    {A : Type 0} (acts : List Act) (m : Run A) → acts_of (behind acts m) ≡ acts ++ acts_of m
acts_of-behind acts (ends code more) = refl
acts_of-behind acts (goes a more) = refl

-- A stretch that is allowed, and a rest that is allowed behind it if the stretch goes on.
AllAllowed->>= :
    {A B : Type 0} (sys : System) (g : Progress) (m : Run A) (f : A → Run B)
    → AllAllowed sys g (acts_of m)
    → ((a : A) (acts : List Act)
        → m ≡ goes a acts
        → AllAllowed sys (advance_all acts g) (acts_of (f a)))
    → AllAllowed sys g (acts_of (m >>= f))
AllAllowed->>= sys g (ends code acts) f h k = h
AllAllowed->>= sys g (goes a acts) f h k =
    rw (acts_of-behind acts (f a)) (AllAllowed-append sys g acts (acts_of (f a)) h (k a acts refl))

abbrev starting : Option Bytes → Progress
starting p = record { removed = p; bound = false; dropped = false }

abbrev fresh : Progress
fresh = starting none

abbrev serving : Option Bytes → Progress
serving p = record { removed = p; bound = true; dropped = false }

no_options_acts : (opts : List Opt) (o : Options) → acts_of (read_options opts o) ≡ []
unfolding read_options
no_options_acts opts o = ground arith

no_service_user_acts : (sys : System) (name : Bytes) → acts_of (check_service_user sys name) ≡ []
unfolding check_service_user
no_service_user_acts sys name = ground arith

no_config_file_acts :
    (sys : System) (path : Bytes) (pw : Passwd) → acts_of (check_config_file sys path pw) ≡ []
unfolding check_config_file
no_config_file_acts sys path pw = ground arith

load_config-AllAllowed :
    (sys : System) (world : World) (build : Build) (path : Bytes)
    → AllAllowed sys fresh (acts_of (load_config sys world build path))
unfolding load_config
load_config-AllAllowed sys world build path = ground arith

claim_socket_path-ends :
    (sys : System) (path : Bytes) (code : ExitCode) (acts : List Act)
    → claim_socket_path sys path ≡ ends code acts
    → acts ≡ []
unfolding claim_socket_path
claim_socket_path-ends sys path code acts e = ground arith

claim_acts-AllAllowed :
    (sys : System) (path : Bytes)
    → (sys.lstat path ≡ none) ⊎ IsStale sys path
    → AllAllowed sys fresh (claim_acts path (sys.lstat path))
claim_acts-AllAllowed sys path (inl n) = rw n tt
claim_acts-AllAllowed sys path (inr s) = rw (s.1) ((refl, s), tt)

claim_socket_path-AllAllowed :
    (sys : System) (path : Bytes) → AllAllowed sys fresh (acts_of (claim_socket_path sys path))
claim_socket_path-AllAllowed sys path = go (claim_socket_path sys path) refl
  where
    go : (m : Run (Unit {0})) → claim_socket_path sys path ≡ m → AllAllowed sys fresh (acts_of m)
    go (ends code acts) e = rw (claim_socket_path-ends sys path code acts e) tt
    go (goes u acts) e =
        let (p, q) = claim_socket_path-goes sys path u acts e in
        rw q (claim_acts-AllAllowed sys path p)

create_socket-AllAllowed :
    (sys : System) (path : Bytes) (pw : Passwd) (p : Option Bytes)
    → Renews p path
    → pw.uid ≢ 0
    → AllAllowed sys (starting p) (acts_of (create_socket sys path pw))
unfolding create_socket
create_socket-AllAllowed sys path pw p n h = ground arith

open_device-AllAllowed :
    (sys : System) (o : Options) (config : Config) (p : Option Bytes)
    → AllAllowed sys (serving p) (acts_of (open_device sys o config))
unfolding open_device
open_device-AllAllowed sys o config p = ground arith

drop_privileges-AllAllowed :
    (sys : System) (pw : Passwd) (p : Option Bytes)
    → pw.uid ≢ 0
    → AllAllowed sys (serving p) (acts_of (drop_privileges sys pw))
unfolding drop_privileges
drop_privileges-AllAllowed sys pw p h = ground arith

go_background-AllAllowed :
    (sys : System) (o : Options) (g : Progress)
    → g.bound ≡ true
    → AllAllowed sys g (acts_of (go_background sys o))
unfolding go_background
go_background-AllAllowed sys o g h = ground arith

-- The file that `claim_acts` removes.
abbrev removed_by : Bytes → Option Stat → Option Bytes
removed_by path none = none
removed_by path (some st) = some path

advance_all-claim_acts :
    (path : Bytes) (o : Option Stat)
    → advance_all (claim_acts path o) fresh ≡ starting (removed_by path o)
advance_all-claim_acts path none = refl
advance_all-claim_acts path (some st) = refl

removed_by-Renews : (path : Bytes) (o : Option Stat) → Renews (removed_by path o) path
removed_by-Renews path none = tt
removed_by-Renews path (some st) = refl

advance_all-create_acts :
    (root : Bool) (path : Bytes) (pw : Passwd) (p : Option Bytes)
    → advance_all
        (bind_socket path
          ∷ listen_socket
          ∷ chmod_socket path 432
          ∷ when root (chown_socket path pw.uid pw.gid ∷ []))
        (starting p)
      ≡ serving p
advance_all-create_acts true path pw p = refl
advance_all-create_acts false path pw p = refl

advance_all-device_acts :
    (b : Bool) (t : ℤ) (g : Progress)
    → advance_all (when b (open_watchdog ∷ set_timeout t ∷ [])) g ≡ g
advance_all-device_acts true t g = refl
advance_all-device_acts false t g = refl

bound-drop_acts :
    (b : Bool) (pw : Passwd) (p : Option Bytes)
    → (advance_all (when b (drop_groups ∷ set_gid pw.gid ∷ set_uid pw.uid ∷ [])) (serving p)).bound
      ≡ true
bound-drop_acts true pw p = refl
bound-drop_acts false pw p = refl

-- From the socket on.
serving-AllAllowed :
    (sys : System) (o : Options) (pw : Passwd) (p : Parser) (q : Option Bytes)
    → pw.uid ≢ 0
    → AllAllowed sys (serving q) (
        acts_of {A = Started} (
          open_device sys o p.config
          >> (drop_privileges sys pw
              >> (go_background sys o
                  >> goes (record { options = o; passwd = pw; parser = p }) []))))
serving-AllAllowed sys o pw p q h =
    AllAllowed->>= sys (serving q) (open_device sys o p.config) _
      (open_device-AllAllowed sys o p.config q)
      λ u a e.
        let e' = (open_device-goes sys o p.config u a e).1 in
        rw (e', advance_all-device_acts o.watchdog_enabled p.config.wd_timeout_s (serving q))
          (AllAllowed->>= sys (serving q) (drop_privileges sys pw) _
            (drop_privileges-AllAllowed sys pw q h)
            λ v b k.
              AllAllowed->>= sys (advance_all b (serving q)) (go_background sys o) _
                (go_background-AllAllowed sys o (advance_all b (serving q)) (
                  rw (drop_privileges-goes sys pw v b k)
                    (bound-drop_acts (started_as_root sys) pw q)))
                (λ w c m. tt))

loading-AllAllowed :
    (sys : System) (world : World) (build : Build) (o : Options) (pw : Passwd)
    → pw.uid ≢ 0
    → AllAllowed sys fresh (
        acts_of {A = Started} (
          load_config sys world build o.config_file >>= λ p.
          claim_socket_path sys p.config.socket_path
          >> (create_socket sys p.config.socket_path pw
              >> (open_device sys o p.config
                  >> (drop_privileges sys pw
                      >> (go_background sys o
                          >> goes (record { options = o; passwd = pw; parser = p }) []))))))
loading-AllAllowed sys world build o pw h =
    AllAllowed->>= sys fresh (load_config sys world build o.config_file) _
      (load_config-AllAllowed sys world build o.config_file)
      λ p a3 e3. rw ((load_config-goes sys world build o.config_file p a3 e3).1) (
        AllAllowed->>= sys fresh (claim_socket_path sys p.config.socket_path) _
          (claim_socket_path-AllAllowed sys p.config.socket_path)
          λ u a4 e4.
            rw
              (
                (claim_socket_path-goes sys p.config.socket_path u a4 e4).1,
                advance_all-claim_acts p.config.socket_path (sys.lstat p.config.socket_path),
              )
              (AllAllowed->>= sys
                (starting (removed_by p.config.socket_path (sys.lstat p.config.socket_path)))
                (create_socket sys p.config.socket_path pw) _
                (create_socket-AllAllowed sys p.config.socket_path pw _
                  (removed_by-Renews p.config.socket_path (sys.lstat p.config.socket_path)) h)
                λ v a5 e5.
                  rw
                    (
                      create_socket-goes sys p.config.socket_path pw v a5 e5,
                      advance_all-create_acts (started_as_root sys) p.config.socket_path pw
                          (removed_by p.config.socket_path (sys.lstat p.config.socket_path)),
                    )
                    (serving-AllAllowed sys o pw p _ h)))

-- Whatever the system calls return, and wherever the start ends: a file is removed only if the file at
-- its path is a socket that refuses connections, and before the new socket is bound, which is bound at
-- the path of the removed one; the watchdog is opened only by root, behind the bind, and before root's
-- rights are dropped; the socket's owner is changed only by root and never to root; and the user that
-- the process becomes is never root.
pub startup-AllAllowed :
    (sys : System) (world : World) (build : Build) (opts : List Opt) (defaults : Options)
    → AllAllowed sys
        (record { removed = none; bound = false; dropped = false })
        (acts_of (startup sys world build opts defaults))
unfolding startup
startup-AllAllowed sys world build opts defaults =
    AllAllowed->>= sys fresh (read_options opts defaults) _ (rw (no_options_acts opts defaults) tt)
      λ o a0 e0. rw ((read_options-goes opts defaults o a0 e0).1) (
        AllAllowed->>= sys fresh (check_service_user sys o.service_user) _
          (rw (no_service_user_acts sys o.service_user) tt)
          λ pw a1 e1.
            let (known, not_root, q1) = check_service_user-goes sys o.service_user pw a1 e1 in
            rw q1 (
              AllAllowed->>= sys fresh (check_config_file sys o.config_file pw) _
                (rw (no_config_file_acts sys o.config_file pw) tt)
                λ u a2 e2.
                  rw ((check_config_file-goes sys o.config_file pw u a2 e2).5)
                    (loading-AllAllowed sys world build o pw not_root)))
