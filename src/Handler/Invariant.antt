-- ===== src/Handler/Invariant.antt =====
-- What holds of every slot of the client table between two commands.
use wd_broker.Prelude.{
  ℕ, ◌≤◌, ◌<◌, ◌≡◌, refl, ap, inl, inr, true, false, ◌&&◌, Option, some, arith, All, All-modify,
  length, length-modify, Option-cases, take-eq_self,
}
use wd_broker.Text.{Bytes, all_bytes}
use wd_broker.Scan.{scan_word, not_space, skip_spaces}
use wd_broker.Scan.Laws.{scan_set-word}
use wd_broker.Common.{Incoming}
use wd_broker.Print.{Reply}
use wd_broker.Client.{Client, client_name_len, client_timeout_min_ms, client_timeout_max_ms}
use wd_broker.ClientId.Laws.{IsClientId, make_client_id-IsClientId}
use wd_broker.Slots.{is_live}
use wd_broker.Handler.Transition.{
  Accepted, Transition, unchanged, overrun, registered, pinged, unregistered, rebooted,
  handle_command-keeps,
}
use wd_broker.Handler.{
  Broker, Env, Creds, scan_register, valid_name_byte, register_client, handle_command,
}

-- A slot is never active and announced at once. One that is either has an id of sixteen lower-case
-- hexadecimal digits, a time limit in the range of the protocol, and a name that fits its array. The
-- name of an active client is printable and has no white space.
pub record SlotInv (c : Client) : Type 0 where
  pub exclusive : (c.active && c.anounced) ≡ false
  pub id : is_live c ≡ true → IsClientId c.client_id
  pub timeout_min : is_live c ≡ true → client_timeout_min_ms ≤ c.timeout_ms
  pub timeout_max : is_live c ≡ true → c.timeout_ms ≤ client_timeout_max_ms
  pub name_fits : is_live c ≡ true → length c.name < client_name_len
  pub name_bytes : c.active ≡ true → all_bytes valid_name_byte c.name ≡ true

scan_word-length : (n : ℕ) (s w left : Bytes) → scan_word n s ≡ some (w, left) → length w ≤ n
unfolding scan_word
scan_word-length n s w left e = (scan_set-word not_space n (skip_spaces s) w left e).0

-- The name that REGISTER scans fits, too.
pub length-scan_register : (s : Bytes) → length (scan_register s).name ≤ 63
unfolding scan_register
length-scan_register s = elim (Option-cases (scan_word 63 s)) [
  | inl n ↦ ground (arith, n)
  | inr ((name, left), w) ↦ let fits = scan_word-length 63 s name left w in ground (arith, w, fits)
]

register_client-SlotInv :
    (env : Env) (creds : Creds) (args : Bytes) (c : Client)
    → Accepted (scan_register args)
    → SlotInv c
    → SlotInv (register_client env creds (scan_register args) c)
unfolding register_client
register_client-SlotInv env creds args c a v =
    let short = length-scan_register args in
    let whole = take-eq_self client_name_len (scan_register args).name (omega arith) in
    record {
      exclusive = refl;
      id = λ l. ground (arith, make_client_id-IsClientId env.entropy, v.id);
      timeout_min = λ l. a.timeout_min;
      timeout_max = λ l. a.timeout_max;
      name_fits = λ l. omega (arith, ap length whole);
      name_bytes = λ l. rw whole a.name_bytes;
    }

Transition-SlotInv :
    (env : Env) (creds : Creds) (incoming : Incoming) (b b' : Broker) (r : Reply)
    → Transition env creds incoming b b' r
    → All SlotInv b.clients
    → All SlotInv b'.clients
Transition-SlotInv env creds incoming b b' r (unchanged _ _) v = v
Transition-SlotInv env creds incoming b b' r (overrun _ _) v = v
Transition-SlotInv env creds incoming b b' r (registered args k q a s g) v =
    All-modify SlotInv b.clients k _ (λ c e. register_client-SlotInv env creds args c a) v
Transition-SlotInv env creds incoming b b' r (pinged args id k q t h) v =
    All-modify SlotInv b.clients k _
      (λ c e w. record {
        exclusive = w.exclusive;
        id = w.id;
        timeout_min = w.timeout_min;
        timeout_max = w.timeout_max;
        name_fits = w.name_fits;
        name_bytes = w.name_bytes;
      })
      v
Transition-SlotInv env creds incoming b b' r (unregistered args id k q t h p) v =
    All-modify SlotInv b.clients k _
      (λ c e w. record {
        exclusive = refl;
        id = λ l. absurd (cc);
        timeout_min = λ l. absurd (cc);
        timeout_max = λ l. absurd (cc);
        name_fits = λ l. absurd (cc);
        name_bytes = λ l. absurd (cc);
      })
      v
Transition-SlotInv env creds incoming b b' r (rebooted args q u) v = v

-- Every command, whatever arrives and from whomever, keeps the slots of the table well-formed. (If the
-- reply leaves its buffer, the process is no longer the model's, and nothing is said of it.)
pub handle_command-SlotInv :
    (env : Env) (peer : Option Creds) (incoming : Incoming) (b : Broker)
    → All SlotInv b.clients
    → All SlotInv (handle_command env peer incoming b).0.clients
handle_command-SlotInv env peer incoming b v =
    handle_command-keeps (λ q. All SlotInv q.clients) env peer incoming b v
      (λ creds b' r t. Transition-SlotInv env creds incoming b b' r t v)

Transition-length :
    (env : Env) (creds : Creds) (incoming : Incoming) (b b' : Broker) (r : Reply)
    → Transition env creds incoming b b' r
    → (length b'.clients ≡ length b.clients) × (b'.config ≡ b.config)
Transition-length env creds incoming b b' r (unchanged _ _) = (refl, refl)
Transition-length env creds incoming b b' r (overrun _ _) = (refl, refl)
Transition-length env creds incoming b b' r (registered args k q a s g) =
    (length-modify b.clients k _, refl)
Transition-length env creds incoming b b' r (pinged args id k q t h) =
    (length-modify b.clients k _, refl)
Transition-length env creds incoming b b' r (unregistered args id k q t h p) =
    (length-modify b.clients k _, refl)
Transition-length env creds incoming b b' r (rebooted args q u) = (refl, refl)

-- A command never changes the number of slots or the configuration.
pub handle_command-length :
    (env : Env) (peer : Option Creds) (incoming : Incoming) (b : Broker)
    → let b' = (handle_command env peer incoming b).0 in
      (length b'.clients ≡ length b.clients) × (b'.config ≡ b.config)
handle_command-length env peer incoming b =
    handle_command-keeps (λ q. (length q.clients ≡ length b.clients) × (q.config ≡ b.config)) env
      peer incoming b (refl, refl) (λ creds b' r t. Transition-length env creds incoming b b' r t)
