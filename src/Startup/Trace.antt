-- ===== src/Startup/Trace.antt =====
-- What a start that reaches the loop has checked, and what it has done, in order.
use mathlib.Core.List.{append-nil}
use mathlib.Core.Path.{ap₂}
use wd_broker.Prelude.{
  ◌≡◌, ◌≢◌, refl, ◌∙◌, Bool, true, false, Option, none, some, List, [], ◌∷◌, ◌++◌, arith,
  if◌then◌else◌, ◌⊎◌, inl, inr, Option-cases,
}
use wd_broker.Text.{Bytes}
use wd_broker.Client.{Config}
use wd_broker.ConfigFile.{Build, World, Parser, ok, parse_config, timer_period_s}
use wd_broker.Options.{Opt, Options, options, parse_options}
use wd_broker.Startup.{
  Act, arm_timer, unlink_socket, bind_socket, listen_socket, chmod_socket, chown_socket,
  open_watchdog, set_timeout, drop_groups, set_gid, set_uid, detach, Run, ends, goes, behind, ◌>>=◌,
  Passwd, regular, symlink, sock, other, FileType, Stat, is_regular, is_sock, refused, System,
  started_as_root, read_options, check_service_user, writable_by_others, check_config_file,
  load_config, claim_socket_path, create_socket, open_device, drop_privileges, go_background,
  Started, startup,
}

behind-goes :
    {A : Type 0} (acts : List Act) (m : Run A) {a : A} {all : List Act}
    → behind acts m ≡ goes a all
    → (more : List Act) × (m ≡ goes a more) × (all ≡ acts ++ more)
behind-goes acts (ends code more) e = absurd (cc)
behind-goes acts (goes a more) e = (more, ground arith, ground arith)

>>=-goes :
    {A B : Type 0} (m : Run A) (f : A → Run B) {b : B} {acts : List Act}
    → (m >>= f) ≡ goes b acts
    → (a : A) × (early late : List Act) × (m ≡ goes a early)
      × (f a ≡ goes b late)
      × (acts ≡ early ++ late)
>>=-goes (ends code early) f e = absurd (cc)
>>=-goes (goes a early) f e =
    let (late, k, s) = behind-goes early (f a) e in (a, early, late, refl, k, s)

-- The checks of the service user and of the configuration file.
pub record IsTrusted (sys : System) (o : Options) (pw : Passwd) : Type 0 where
  pub known : sys.getpwnam o.service_user ≡ some pw
  pub not_root : pw.uid ≢ 0
  pub stat : Stat
  pub found : sys.lstat o.config_file ≡ some stat
  pub is_file : stat.file_type ≡ regular
  pub owner : stat.uid ≡ pw.uid
  pub closed : writable_by_others stat.mode ≡ false

is_regular-eq : (t : FileType) → is_regular t ≡ true → t ≡ regular
is_regular-eq regular e = refl
is_regular-eq symlink e = absurd (cc)
is_regular-eq sock e = absurd (cc)
is_regular-eq other e = absurd (cc)

pub is_sock-eq : (t : FileType) → is_sock t ≡ true → t ≡ sock
is_sock-eq regular e = absurd (cc)
is_sock-eq symlink e = absurd (cc)
is_sock-eq sock e = refl
is_sock-eq other e = absurd (cc)

pub read_options-goes :
    (opts : List Opt) (o o' : Options) (acts : List Act)
    → read_options opts o ≡ goes o' acts
    → (parse_options opts o ≡ options o') × (acts ≡ [])
unfolding read_options
read_options-goes opts o o' acts e = ground arith

pub check_service_user-goes :
    (sys : System) (name : Bytes) (pw : Passwd) (acts : List Act)
    → check_service_user sys name ≡ goes pw acts
    → (sys.getpwnam name ≡ some pw) × (pw.uid ≢ 0) × (acts ≡ [])
unfolding check_service_user
check_service_user-goes sys name pw acts e = ground arith

pub check_config_file-goes :
    (sys : System) (path : Bytes) (pw : Passwd) (u : Unit {0}) (acts : List Act)
    → check_config_file sys path pw ≡ goes u acts
    → (st : Stat) × (sys.lstat path ≡ some st)
      × (st.file_type ≡ regular)
      × (st.uid ≡ pw.uid)
      × (writable_by_others st.mode ≡ false)
      × (acts ≡ [])
unfolding check_config_file
check_config_file-goes sys path pw u acts e = elim (Option-cases (sys.lstat path)) [
  | inl n ↦ absurd (ground (arith, n))
  | inr (st, k) ↦
      let reg = is_regular-eq st.file_type in
      (
        st,
        k,
        ground (arith, k, reg),
        ground (arith, k, reg),
        ground (arith, k, reg),
        ground (arith, k, reg),
      )
]

pub load_config-goes :
    (sys : System) (world : World) (build : Build) (path : Bytes) (p : Parser) (acts : List Act)
    → load_config sys world build path ≡ goes p acts
    → (parse_config world build (sys.read_file path) ≡ ok p)
      × (acts ≡ arm_timer (timer_period_s p.config) ∷ [])
unfolding load_config
load_config-goes sys world build path p acts e = ground arith

-- A stale socket, that is one on which no process answers.
abbrev pub IsStale : System → Bytes → Type 0
IsStale sys path =
    (st : Stat) × (sys.lstat path ≡ some st)
    × (st.file_type ≡ sock)
    × (sys.probe_connect path ≡ refused)

abbrev pub claim_acts : Bytes → Option Stat → List Act
claim_acts path none = []
claim_acts path (some st) = unlink_socket path ∷ []

pub claim_socket_path-goes :
    (sys : System) (path : Bytes) (u : Unit {0}) (acts : List Act)
    → claim_socket_path sys path ≡ goes u acts
    → ((sys.lstat path ≡ none) ⊎ IsStale sys path) × (acts ≡ claim_acts path (sys.lstat path))
unfolding claim_socket_path
claim_socket_path-goes sys path u acts e = elim (Option-cases (sys.lstat path)) [
  | inl n ↦ (inl n, ground (arith, n))
  | inr (st, k) ↦
      let stale = is_sock-eq st.file_type in
      (inr (st, k, ground (arith, k, stale), ground (arith, k, stale)), ground (arith, k, stale))
]

abbrev pub when : Bool → List Act → List Act
when b acts = if b then acts else []

pub create_socket-goes :
    (sys : System) (path : Bytes) (pw : Passwd) (u : Unit {0}) (acts : List Act)
    → create_socket sys path pw ≡ goes u acts
    → acts
      ≡ bind_socket path
        ∷ listen_socket
        ∷ chmod_socket path 432
        ∷ when (started_as_root sys) (chown_socket path pw.uid pw.gid ∷ [])
unfolding create_socket
create_socket-goes sys path pw u acts e = ground arith

pub open_device-goes :
    (sys : System) (o : Options) (config : Config) (u : Unit {0}) (acts : List Act)
    → open_device sys o config ≡ goes u acts
    → (o.watchdog_enabled ≡ true → sys.euid ≡ 0)
      × (acts ≡ when o.watchdog_enabled (open_watchdog ∷ set_timeout config.wd_timeout_s ∷ []))
unfolding open_device
open_device-goes sys o config u acts e = ground arith

pub drop_privileges-goes :
    (sys : System) (pw : Passwd) (u : Unit {0}) (acts : List Act)
    → drop_privileges sys pw ≡ goes u acts
    → acts ≡ when (started_as_root sys) (drop_groups ∷ set_gid pw.gid ∷ set_uid pw.uid ∷ [])
unfolding drop_privileges
drop_privileges-goes sys pw u acts e = ground arith

go_background-goes :
    (sys : System) (o : Options) (u : Unit {0}) (acts : List Act)
    → go_background sys o ≡ goes u acts
    → acts ≡ when o.daemonize (detach ∷ [])
unfolding go_background
go_background-goes sys o u acts e = ground arith

chain : {acts xs ys zs ws : List Act} → acts ≡ xs ++ ys → xs ≡ zs → ys ≡ ws → acts ≡ zs ++ ws
chain e h k = e ∙ ap₂ (λ x y. x ++ y) h k

-- From the new socket on: started by root, with the watchdog, in the background.
abbrev pub service_acts : Bool → Bool → Bool → Started → List Act
service_acts root watchdog background s =
    (bind_socket s.parser.config.socket_path
      ∷ listen_socket
      ∷ chmod_socket s.parser.config.socket_path 432
      ∷ when root (chown_socket s.parser.config.socket_path s.passwd.uid s.passwd.gid ∷ []))
    ++ (when watchdog (open_watchdog ∷ set_timeout s.parser.config.wd_timeout_s ∷ [])
        ++ (when root (drop_groups ∷ set_gid s.passwd.gid ∷ set_uid s.passwd.uid ∷ [])
            ++ when background (detach ∷ [])))

-- The acts of a start that reaches the loop.
abbrev pub startup_acts : System → Started → List Act
startup_acts sys s =
    arm_timer (timer_period_s s.parser.config)
    ∷ (claim_acts s.parser.config.socket_path (sys.lstat s.parser.config.socket_path)
        ++ service_acts (started_as_root sys) s.options.watchdog_enabled s.options.daemonize s)

-- What holds when `main` enters its loop.
pub record IsStarted (sys : System) (world : World) (build : Build) (opts : List Opt)
    (defaults : Options) (s : Started) (acts : List Act) : Type 0 where
  pub parsed : parse_options opts defaults ≡ options s.options
  pub trusted : IsTrusted sys s.options s.passwd
  pub loaded : parse_config world build (sys.read_file s.options.config_file) ≡ ok s.parser
  pub path :
      (sys.lstat s.parser.config.socket_path ≡ none) ⊎ IsStale sys s.parser.config.socket_path
  pub device : s.options.watchdog_enabled ≡ true → sys.euid ≡ 0
  pub order : acts ≡ startup_acts sys s

-- A start that reaches the loop has a service user that exists and is not root, a configuration file
-- that is a regular file of this user, writable by nobody else, and accepted by `parse_config`, and a
-- socket path that was free or a socket on which no process answers; with the watchdog it was started
-- by root. Its acts are, in this order: the timer at half of the watchdog's timeout, the removal of
-- a stale socket, the new socket at the configured path with mode 0660 and, started by root, the service user as its owner,
-- the opening of the watchdog and its timeout, the drop of groups, group and user, if started by root,
-- and the detachment from the terminal.
pub startup-IsStarted :
    (sys : System) (world : World) (build : Build) (opts : List Opt) (defaults : Options)
    (s : Started) (acts : List Act)
    → startup sys world build opts defaults ≡ goes s acts
    → IsStarted sys world build opts defaults s acts
unfolding startup
startup-IsStarted sys world build opts defaults s acts e =
    let (o, a0, r0, m0, e0, s0) = >>=-goes (read_options opts defaults) _ e in
    let (pw, a1, r1, m1, e1, s1) = >>=-goes (check_service_user sys o.service_user) _ e0 in
    let (u2, a2, r2, m2, e2, s2) = >>=-goes (check_config_file sys o.config_file pw) _ e1 in
    let (p, a3, r3, m3, e3, s3) = >>=-goes (load_config sys world build o.config_file) _ e2 in
    let (u4, a4, r4, m4, e4, s4) = >>=-goes (claim_socket_path sys p.config.socket_path) _ e3 in
    let (u5, a5, r5, m5, e5, s5) = >>=-goes (create_socket sys p.config.socket_path pw) _ e4 in
    let (u6, a6, r6, m6, e6, s6) = >>=-goes (open_device sys o p.config) _ e5 in
    let (u7, a7, r7, m7, e7, s7) = >>=-goes (drop_privileges sys pw) _ e6 in
    let (u8, a8, r8, m8, e8, s8) = >>=-goes (go_background sys o) _ e7 in
    let (parsed, q0) = read_options-goes opts defaults o a0 m0 in
    let (known, not_root, q1) = check_service_user-goes sys o.service_user pw a1 m1 in
    let (st, found, is_file, owner, closed, q2) =
      check_config_file-goes sys o.config_file pw u2 a2 m2 in
    let (loaded, q3) = load_config-goes sys world build o.config_file p a3 m3 in
    let (path, q4) = claim_socket_path-goes sys p.config.socket_path u4 a4 m4 in
    let q5 = create_socket-goes sys p.config.socket_path pw u5 a5 m5 in
    let (device, q6) = open_device-goes sys o p.config u6 a6 m6 in
    let q7 = drop_privileges-goes sys pw u7 a7 m7 in
    let q8 = go_background-goes sys o u8 a8 m8 in
    let t : Started = record { options = o; passwd = pw; parser = p } in
    let same : t ≡ s = ground (arith, e8) in
    let last : r8 ≡ [] = ground (arith, e8) in
    rw (← same) (record {
      parsed = parsed;
      trusted = record {
        known = known;
        not_root = not_root;
        stat = st;
        found = found;
        is_file = is_file;
        owner = owner;
        closed = closed;
      };
      loaded = loaded;
      path = path;
      device = device;
      order = chain s0 q0 (
          chain s1 q1 (
            chain s2 q2 (
              chain s3 q3 (
                chain s4 q4 (
                  chain s5 q5 (
                    chain s6 q6 (
                      chain s7 q7
                        (chain s8 q8 last ∙ append-nil (when o.daemonize (detach ∷ []))))))))));
    })
