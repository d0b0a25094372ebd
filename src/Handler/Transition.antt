-- ===== src/Handler/Transition.antt =====
-- What one command may do to the broker, as a relation, and that `handle_command` does nothing else.
use wd_broker.Prelude.{
  sym, ap, ◌∙◌, take, length, take-drop, take-eq_self, ℕ, ◌≤◌, ◌≡◌, refl, ◌⊎◌, inl, inr, true,
  false, not, ◌&&◌, Option, none, some, ◌++◌, arith, ◌==◌, Bool-cases, Option-cases, get_or, modify,
  drop,
}
use wd_broker.Text.{Bytes, codes, all_bytes, strncmp_eq, strncmp_eq_iff, c_string}
use wd_broker.Print.{print_int, Reply, sent, out_of_bounds, is_ok, begins_ok}
use wd_broker.Common.{
  Incoming, cmd_register, cmd_ping, cmd_unregister, cmd_reboot, cmd_status, cmd_version,
  read_with_timeout, ReadResult, failed, nothing, received,
}
use wd_broker.ClientId.Exact.{IsIdText, parse_client_id-IsIdText}
use wd_broker.ClientId.{make_client_id}
use wd_broker.Client.{
  Client, client_name_len, zero_client, client_timeout_min_ms, client_timeout_max_ms,
}
use wd_broker.ClientId.{parsed, refused, ParsedId, parse_client_id, check_client_id}
use wd_broker.Slots.First.{IsFirst}
use wd_broker.Slots.ByName.{Selects, get_client_instance_by_name-Selects}
use wd_broker.Slots.ById.{HasId, Identifies, get_client_instance_by_client_id-Identifies}
use wd_broker.Slots.{
  Identification, identified, pid_mismatch, not_found, get_client_instance_by_name,
  get_client_instance_by_client_id,
}
use wd_broker.Handler.{
  Broker, Env, Creds, RegisterScan, scan_register, valid_name_byte, register_error, register_client,
  ok_id, register_name, handle_register, ping_client, handle_ping, unregister_client,
  handle_unregister, has_extra, handle_reboot, handle_status, handle_version, dispatch,
  handle_command,
}
use wd_broker.Scan.{scan_word}
use wd_broker.Status.{status_reply, version_reply}
use wd_broker.Status.Laws.{status_reply-not_ok, version_reply-not_ok}

-- The arguments of REGISTER pass the checks.
pub record Accepted (a : RegisterScan) : Type 0 where
  pub timeout_min : client_timeout_min_ms ≤ a.timeout
  pub timeout_max : a.timeout ≤ client_timeout_max_ms
  pub name_bytes : all_bytes valid_name_byte a.name ≡ true

-- The text that arrives is this command with these arguments.
abbrev pub Asks : Incoming → Bytes → Bytes → Type 0
Asks incoming cmd args =
    (bytes : Bytes) × (read_with_timeout incoming 128 ≡ received bytes)
    × (c_string bytes ≡ cmd ++ args)

-- What a registration makes of the client `c` of its slot.
pub record IsRegistered (env : Env) (creds : Creds) (a : RegisterScan) (c d : Client) : Type 0 where
  pub name : d.name ≡ take client_name_len a.name
  pub pid : d.pid ≡ creds.pid
  pub timeout_ms : d.timeout_ms ≡ a.timeout
  pub last_ping : d.last_ping ≡ env.now
  pub active : d.active ≡ true
  pub anounced : d.anounced ≡ false
  pub check_pid : d.check_pid ≡ not (a.matched == 3)
  pub kept_id : c.anounced ≡ true → d.client_id ≡ c.client_id
  pub fresh_id : c.anounced ≡ false → d.client_id ≡ make_client_id env.entropy

-- `unchanged` answers with a text that is no OK. Behind `overrun`, the access out of the buffer of a
-- reply, the state of the process is not defined.
pub data Transition (env : Env) (creds : Creds) (incoming : Incoming) (b : Broker)
    : Broker → Reply → Type 0 where
  unchanged :
      (text : Bytes) → begins_ok text ≡ false → Transition env creds incoming b b (sent text)
  overrun :
      (args : Bytes)
      → Asks incoming (codes "STATUS") args ⊎ Asks incoming (codes "VERSION") args
      → Transition env creds incoming b b out_of_bounds
  registered :
      (args : Bytes) (k : ℕ)
      → Asks incoming (codes "REGISTER ") args
      → Accepted (scan_register args)
      → Selects b.config b.clients (scan_register args).name (some k)
      → ((c : Client)
          → IsRegistered env creds
              (scan_register args)
              c
              (register_client env creds (scan_register args) c))
      → Transition env creds incoming b
          (record b {
            clients = modify b.clients k (register_client env creds (scan_register args));
          })
          (ok_id (register_client env creds (scan_register args) (get_or b.clients k zero_client)))
  pinged :
      (args id : Bytes) (k : ℕ)
      → Asks incoming (codes "PING ") args
      → IsIdText args id
      → Identifies b.clients id creds.pid (identified k)
      → Transition env creds incoming b
          (record b { clients = modify b.clients k (λ c. record c { last_ping = env.now }) })
          (sent (codes "OK\n"))
  unregistered :
      (args id : Bytes) (k : ℕ)
      → Asks incoming (codes "UNREGISTER ") args
      → IsIdText args id
      → IsFirst (HasId id) b.clients k
      → (creds.uid ≡ 0)
        ⊎ ((b.config.strict_clients ≡ false) × Identifies b.clients id creds.pid (identified k))
      → Transition env creds incoming b
          (record b {
            clients = modify b.clients k (λ c. record c { active = false; anounced = false });
          })
          (sent (codes "OK\n"))
  rebooted :
      (args : Bytes)
      → Asks incoming (codes "REBOOT") args
      → creds.uid ≡ 0
      → Transition env creds incoming b
          (record b { running = false; reboot = true })
          (sent (codes "OK, " ++ print_int b.config.reboot_timeout_s ++ codes "\n"))

-- A result of a command is one of these.
abbrev pub Does : Env → Creds → Incoming → Broker → Broker × Reply → Type 0
Does env creds incoming b (b', r) = Transition env creds incoming b b' r

pub register_client-IsRegistered :
    (env : Env) (creds : Creds) (a : RegisterScan) (c : Client)
    → IsRegistered env creds a c (register_client env creds a c)
unfolding register_client
register_client-IsRegistered env creds a c = record {
  name = refl;
  pid = refl;
  timeout_ms = refl;
  last_ping = refl;
  active = refl;
  anounced = refl;
  check_pid = refl;
  kept_id = λ e. rw e refl;
  fresh_id = λ e. rw e refl;
}

-- What the comparison with a command says of the text.
strncmp_eq-drop :
    (s cmd : Bytes) → strncmp_eq s cmd (length cmd) ≡ true → s ≡ cmd ++ drop (length cmd) s
strncmp_eq-drop s cmd e =
    sym (take-drop (length cmd) s)
    ∙ ap (λ t. t ++ drop (length cmd) s)
        ((strncmp_eq_iff s cmd (length cmd)).0 e ∙ take-eq_self (length cmd) cmd (omega arith))

register_error-Accepted : (a : RegisterScan) → register_error a ≡ none → Accepted a
unfolding register_error
register_error-Accepted a e = ground arith

register_error-not_ok :
    (a : RegisterScan) (m : Bytes) → register_error a ≡ some m → is_ok (sent m) ≡ false
unfolding register_error
register_error-not_ok a m e = ground arith

refused-not_ok : (args m : Bytes) → parse_client_id args ≡ refused m → is_ok (sent m) ≡ false
unfolding parse_client_id check_client_id
refused-not_ok args m e = elim (Option-cases (scan_word 16 args)) [
  | inl n ↦ ground (arith, n)
  | inr ((raw, left), w) ↦ elim (Option-cases (scan_word 15 left)) [
    | inl n ↦ ground (arith, w, n)
    | inr (x, n) ↦ ground (arith, w, n)
  ]
]

module _ (env : Env) (creds : Creds) (incoming : Incoming) (b : Broker) where
  handle_register-Does :
      (args : Bytes)
      → Asks incoming (codes "REGISTER ") args
      → Does env creds incoming b (handle_register env creds args b)
  unfolding handle_register register_name
  handle_register-Does args asks = elim (Option-cases (register_error (scan_register args))) [
    | inr (m, e) ↦ rw (e, handle_register) (unchanged m (register_error-not_ok _ m e))
    | inl e ↦
        let name = (scan_register args).name in
        let s = get_client_instance_by_name-Selects b.config b.clients name in
        rw (e, handle_register)
          (elim (Option-cases (get_client_instance_by_name b.config b.clients name)) [
            | inl n ↦ rw (n, register_name) (unchanged _ refl)
            | inr (k, h) ↦
                rw (h, register_name)
                  (registered args k asks (register_error-Accepted _ e) (rw h at s)
                    (register_client-IsRegistered env creds (scan_register args)))
          ])
  ]

  handle_ping-Does :
      (args : Bytes)
      → Asks incoming (codes "PING ") args
      → Does env creds incoming b (handle_ping env creds args b)
  unfolding handle_ping ping_client
  handle_ping-Does args asks = ping (parse_client_id args) refl
    where
      found :
          (id : Bytes) (r : Identification)
          → get_client_instance_by_client_id b.clients id creds.pid ≡ r
          → parse_client_id args ≡ parsed id
          → Identifies b.clients id creds.pid r
          → Does env creds incoming b (handle_ping env creds args b)
      found id (identified k) e p h =
          rw (p, handle_ping)
            (rw e (pinged args id k asks ((parse_client_id-IsIdText args id).0 p) h))
      found id (pid_mismatch k) e p h = rw (p, handle_ping) (rw e (unchanged _ refl))
      found id not_found e p h = rw (p, handle_ping) (rw e (unchanged _ refl))

      ping :
          (p : ParsedId)
          → parse_client_id args ≡ p
          → Does env creds incoming b (handle_ping env creds args b)
      ping (refused m) e = rw (e, handle_ping) (unchanged _ (refused-not_ok args m e))
      ping (parsed id) e =
          found id _ refl e (get_client_instance_by_client_id-Identifies id creds.pid b.clients)

  unregister-Does :
      (id args : Bytes) (r : Identification)
      → Asks incoming (codes "UNREGISTER ") args
      → get_client_instance_by_client_id b.clients id creds.pid ≡ r
      → parse_client_id args ≡ parsed id
      → Identifies b.clients id creds.pid r
      → Does env creds incoming b (handle_unregister creds args b)
  unfolding handle_unregister unregister_client
  unregister-Does id args (identified k) asks e p h =
      rw (p, handle_unregister)
        (rw e (elim (Bool-cases (b.config.strict_clients && not (creds.uid == 0))) [
          | inl x ↦ rw x (unchanged _ refl)
          | inr x ↦ rw x (
              unregistered args id k asks ((parse_client_id-IsIdText args id).0 p) h.0
                (may_remove x))
        ]))
    where
      may_remove :
          (b.config.strict_clients && not (creds.uid == 0)) ≡ false
          → (creds.uid ≡ 0)
            ⊎ ((b.config.strict_clients ≡ false) × Identifies b.clients id creds.pid (identified k))
      may_remove x = elim (Bool-cases b.config.strict_clients) [
        | inl s ↦ inl (ground (arith, s, x))
        | inr s ↦ inr (s, h)
      ]
  unregister-Does id args (pid_mismatch k) asks e p h =
      rw (p, handle_unregister)
        (rw e (elim (Bool-cases (creds.uid == 0)) [
          | inl x ↦ rw x (
              unregistered args id k asks ((parse_client_id-IsIdText args id).0 p) h.0
                (inl (ground arith)))
          | inr x ↦ rw x (unchanged _ refl)
        ]))
  unregister-Does id args not_found asks e p h = rw (p, handle_unregister) (rw e (unchanged _ refl))

  handle_unregister-Does :
      (args : Bytes)
      → Asks incoming (codes "UNREGISTER ") args
      → Does env creds incoming b (handle_unregister creds args b)
  unfolding handle_unregister
  handle_unregister-Does args asks = go (parse_client_id args) refl
    where
      go :
          (p : ParsedId)
          → parse_client_id args ≡ p
          → Does env creds incoming b (handle_unregister creds args b)
      go (refused m) e = rw (e, handle_unregister) (unchanged _ (refused-not_ok args m e))
      go (parsed id) e =
          unregister-Does id args _ asks refl e
            (get_client_instance_by_client_id-Identifies id creds.pid b.clients)

  handle_reboot-Does :
      (args : Bytes)
      → Asks incoming (codes "REBOOT") args
      → Does env creds incoming b (handle_reboot creds args b)
  unfolding handle_reboot
  handle_reboot-Does args asks = elim (Bool-cases (has_extra 15 args)) [
    | inl x ↦ rw x (unchanged _ refl)
    | inr x ↦ rw x (elim (Bool-cases (creds.uid == 0)) [
      | inl u ↦ rw u (rebooted args asks (ground arith))
      | inr u ↦ rw u (unchanged _ refl)
    ])
  ]

  answered :
      (r : Reply)
      → is_ok r ≡ false
      → (args : Bytes) → Asks incoming (codes "STATUS") args ⊎ Asks incoming (codes "VERSION") args
      → Transition env creds incoming b b r
  answered (sent text) n args asks = unchanged text n
  answered out_of_bounds n args asks = overrun args asks

  handle_status-Does :
      (args : Bytes)
      → Asks incoming (codes "STATUS") args
      → Does env creds incoming b (handle_status env creds args b)
  unfolding handle_status
  handle_status-Does args asks = elim (Bool-cases (has_extra 31 args)) [
    | inl x ↦ rw x (unchanged _ refl)
    | inr x ↦ rw x (elim (Bool-cases (not (creds.pid == 0) && not (creds.uid == 0))) [
      | inl u ↦ rw u (unchanged _ refl)
      | inr u ↦ rw u (
          answered (status_reply env.package_version b.config b.clients)
            (status_reply-not_ok env.package_version b.config b.clients) args (inl asks))
    ])
  ]

  handle_version-Does :
      (args : Bytes)
      → Asks incoming (codes "VERSION") args
      → Does env creds incoming b (handle_version env args b)
  unfolding handle_version
  handle_version-Does args asks = elim (Bool-cases (has_extra 31 args)) [
    | inl x ↦ rw x (unchanged _ refl)
    | inr x ↦ rw x (
        answered (version_reply env.package_version) (version_reply-not_ok env.package_version) args
          (inr asks))
  ]

  dispatch-Does :
      (bytes : Bytes)
      → read_with_timeout incoming 128 ≡ received bytes
      → Does env creds incoming b (dispatch env creds (c_string bytes) b)
  unfolding dispatch
  dispatch-Does bytes read =
      let buf = c_string bytes in
      elim (Bool-cases (strncmp_eq buf cmd_register 9)) [
        | inl x ↦
            rw x
              (handle_register-Does (drop 9 buf) (bytes, read, strncmp_eq-drop buf cmd_register x))
        | inr x ↦ rw x (elim (Bool-cases (strncmp_eq buf cmd_ping 5)) [
          | inl x ↦
              rw x (handle_ping-Does (drop 5 buf) (bytes, read, strncmp_eq-drop buf cmd_ping x))
          | inr x ↦ rw x (elim (Bool-cases (strncmp_eq buf cmd_unregister 11)) [
            | inl x ↦ rw x (
                handle_unregister-Does (drop 11 buf)
                  (bytes, read, strncmp_eq-drop buf cmd_unregister x))
            | inr x ↦ rw x (elim (Bool-cases (strncmp_eq buf cmd_reboot 6)) [
              | inl x ↦
                  rw x (
                    handle_reboot-Does (drop 6 buf) (bytes, read, strncmp_eq-drop buf cmd_reboot x))
              | inr x ↦ rw x (elim (Bool-cases (strncmp_eq buf cmd_status 6)) [
                | inl x ↦ rw x (
                    handle_status-Does (drop 6 buf) (bytes, read, strncmp_eq-drop buf cmd_status x))
                | inr x ↦ rw x (elim (Bool-cases (strncmp_eq buf cmd_version 7)) [
                  | inl x ↦ rw x (
                      handle_version-Does (drop 7 buf)
                        (bytes, read, strncmp_eq-drop buf cmd_version x))
                  | inr x ↦ rw x (unchanged _ refl)
                ])
              ])
            ])
          ])
        ])
      ]

  pub handle_command-Does : Does env creds incoming b (handle_command env (some creds) incoming b)
  unfolding handle_command
  handle_command-Does = go (read_with_timeout incoming 128) refl
    where
      go :
          (r : ReadResult)
          → read_with_timeout incoming 128 ≡ r
          → Does env creds incoming b (handle_command env (some creds) incoming b)
      go failed e = rw (e, handle_command) (unchanged _ refl)
      go nothing e = rw (e, handle_command) (unchanged _ refl)
      go (received bytes) e = rw (e, handle_command) (dispatch-Does bytes e)

-- What every transition keeps, a command keeps.
pub handle_command-keeps {ℓ} :
    (P : Broker → Type ℓ) (env : Env) (peer : Option Creds) (incoming : Incoming) (b : Broker)
    → P b
    → ((creds : Creds) (b' : Broker) (r : Reply) → Transition env creds incoming b b' r → P b')
    → P (handle_command env peer incoming b).0
unfolding handle_command
handle_command-keeps P env none incoming b h k = h
handle_command-keeps P env (some creds) incoming b h k =
    k creds _ _ (handle_command-Does env creds incoming b)
