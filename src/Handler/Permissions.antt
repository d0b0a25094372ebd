-- ===== src/Handler/Permissions.antt =====
-- Who may change what: PIDs, root, and replies that report a refusal.
use wd_broker.Prelude.{
  ℕ, zero, suc, ◌≡◌, ◌≢◌, refl, ap, ◌∙◌, ◌⊎◌, inl, inr, true, false, Option, none, some, List, [],
  ◌∷◌, arith, modify, get_elem?,
}
use wd_broker.Text.{Bytes}
use wd_broker.Common.{Incoming}
use wd_broker.Print.{Reply, sent, is_ok, begins_ok}
use wd_broker.Client.{Client, Config}
use wd_broker.Slots.First.{IsFirst-get_elem?}
use wd_broker.Slots.ByName.{AnnouncedFor, Free, Selects}
use wd_broker.Slots.ById.{Identifies}
use wd_broker.Slots.{identified}
use wd_broker.Handler.Transition.{
  Transition, unchanged, overrun, registered, pinged, unregistered, rebooted, handle_command-Does,
}
use wd_broker.Handler.{Broker, Env, Creds, handle_command}

get_elem?-modify_ne :
    {A : Type 0} (xs : List A) (j k : ℕ) (f : A → A)
    → j ≢ k
    → get_elem? (modify xs j f) k ≡ get_elem? xs k
get_elem?-modify_ne [] j k f n = refl
get_elem?-modify_ne (x ∷ xs) zero zero f n = absurd (n refl)
get_elem?-modify_ne (x ∷ xs) zero (suc k) f n = refl
get_elem?-modify_ne (x ∷ xs) (suc j) zero f n = refl
get_elem?-modify_ne (x ∷ xs) (suc j) (suc k) f n = get_elem?-modify_ne xs j k f (λ e. n (ap suc e))

-- A registration takes a slot that is not active.
Selects-inactive :
    (config : Config) (cs : List Client) (name : Bytes) (k : ℕ) (o : Option ℕ)
    → o ≡ some k
    → Selects config cs name o
    → (c : Client) × (get_elem? cs k ≡ some c) × (c.active ≡ false)
Selects-inactive config cs name k _ e (Selects.taken j u f) = absurd (cc)
Selects-inactive config cs name k _ e (Selects.announced {k = j} n f) =
    let (c, p, h) = IsFirst-get_elem? (AnnouncedFor name) cs j f in (c, ground (arith, p), h.1)
Selects-inactive config cs name k _ e (Selects.unannounced n s f) = absurd (cc)
Selects-inactive config cs name k _ e (Selects.free {k = j} n s f g) =
    let (c, p, h) = IsFirst-get_elem? Free cs j g in (c, ground (arith, p), h.1)
Selects-inactive config cs name k _ e (Selects.full n s f g) = absurd (cc)

-- The client in slot `k` is active, checks PIDs, and belongs to another process than the caller,
-- who is not root.
pub record Foreign (creds : Creds) (b : Broker) (k : ℕ) (c : Client) : Type 0 where
  pub there : get_elem? b.clients k ≡ some c
  pub active : c.active ≡ true
  pub checked : c.check_pid ≡ true
  pub other : c.pid ≢ creds.pid
  pub not_root : creds.uid ≢ 0

module _ (env : Env) (creds : Creds) (incoming : Incoming) (b : Broker) (k : ℕ) (c : Client)
    (h : Foreign creds b k c) where
  identified-ne : (id : Bytes) (j : ℕ) → Identifies b.clients id creds.pid (identified j) → j ≢ k
  identified-ne id j (f, d, e, inl m) same = ground (arith, h)
  identified-ne id j (f, d, e, inr m) same = ground (arith, h)

  selected-ne : (name : Bytes) (j : ℕ) → Selects b.config b.clients name (some j) → j ≢ k
  selected-ne name j s same =
      let (d, e, i) = Selects-inactive b.config b.clients name j _ refl s in ground (arith, h)

  Transition-Foreign :
      (b' : Broker) (r : Reply)
      → Transition env creds incoming b b' r
      → get_elem? b'.clients k ≡ some c
  Transition-Foreign b' r (unchanged _ _) = h.there
  Transition-Foreign b' r (overrun _ _) = h.there
  Transition-Foreign b' r (registered args j q a s g) =
      get_elem?-modify_ne b.clients j k _ (selected-ne _ j s) ∙ h.there
  Transition-Foreign b' r (pinged args id j q t i) =
      get_elem?-modify_ne b.clients j k _ (identified-ne id j i) ∙ h.there
  Transition-Foreign b' r (unregistered args id j q t f (inl u)) = absurd (h.not_root u)
  Transition-Foreign b' r (unregistered args id j q t f (inr i)) =
      get_elem?-modify_ne b.clients j k _ (identified-ne id j i.1) ∙ h.there
  Transition-Foreign b' r (rebooted args q u) = h.there

-- A process that is neither root nor the owner of an active client with PID check cannot change that
-- client's slot by any command: it cannot renew its heartbeat, unregister it, or take over its slot.
-- (If the reply leaves its buffer, the process is no longer the model's, and nothing is said of it.)
pub handle_command-Foreign :
    (env : Env) (creds : Creds) (incoming : Incoming) (b : Broker) (k : ℕ) (c : Client)
    → Foreign creds b k c
    → get_elem? (handle_command env (some creds) incoming b).0.clients k ≡ some c
handle_command-Foreign env creds incoming b k c h =
    Transition-Foreign env creds incoming b k c h _ _ (handle_command-Does env creds incoming b)

Transition-refusal :
    (env : Env) (creds : Creds) (incoming : Incoming) (b b' : Broker) (r : Reply)
    → Transition env creds incoming b b' r
    → is_ok r ≡ false
    → b' ≡ b
Transition-refusal env creds incoming b b' r (unchanged _ _) e = refl
Transition-refusal env creds incoming b b' r (overrun _ _) e = refl
Transition-refusal env creds incoming b b' r (registered args k q a s g) e = absurd (cc)
Transition-refusal env creds incoming b b' r (pinged args id k q t h) e = absurd (cc)
Transition-refusal env creds incoming b b' r (unregistered args id k q t h p) e = absurd (cc)
Transition-refusal env creds incoming b b' r (rebooted args q u) e = absurd (cc)

-- A command that is answered, with a text that does not begin with "OK", leaves the broker as it was.
pub handle_command_refusal :
    (env : Env) (peer : Option Creds) (incoming : Incoming) (b : Broker) (text : Bytes)
    → (handle_command env peer incoming b).1 ≡ sent text
    → begins_ok text ≡ false
    → (handle_command env peer incoming b).0 ≡ b
unfolding handle_command
handle_command_refusal env none incoming b text e n = refl
handle_command_refusal env (some creds) incoming b text e n =
    Transition-refusal env creds incoming b _ _ (handle_command-Does env creds incoming b)
      (ap is_ok e ∙ n)

Transition-reboot :
    (env : Env) (creds : Creds) (incoming : Incoming) (b b' : Broker) (r : Reply)
    → Transition env creds incoming b b' r
    → ((b'.running ≡ b.running) × (b'.reboot ≡ b.reboot))
      ⊎ ((creds.uid ≡ 0) × (b'.running ≡ false) × (b'.reboot ≡ true) × (b'.clients ≡ b.clients))
Transition-reboot env creds incoming b b' r (unchanged _ _) = inl (refl, refl)
Transition-reboot env creds incoming b b' r (overrun _ _) = inl (refl, refl)
Transition-reboot env creds incoming b b' r (registered args k q a s g) = inl (refl, refl)
Transition-reboot env creds incoming b b' r (pinged args id k q t h) = inl (refl, refl)
Transition-reboot env creds incoming b b' r (unregistered args id k q t h p) = inl (refl, refl)
Transition-reboot env creds incoming b b' r (rebooted args q u) = inr (u, refl, refl, refl)

-- A command changes `running` or `reboot` only if root sent it, and then it stops the main loop,
-- requests the reboot failsafe, and leaves the clients as they are.
pub handle_command_reboot :
    (env : Env) (creds : Creds) (incoming : Incoming) (b : Broker)
    → let b' = (handle_command env (some creds) incoming b).0 in
      ((b'.running ≡ b.running) × (b'.reboot ≡ b.reboot))
      ⊎ ((creds.uid ≡ 0) × (b'.running ≡ false) × (b'.reboot ≡ true) × (b'.clients ≡ b.clients))
handle_command_reboot env creds incoming b =
    Transition-reboot env creds incoming b _ _ (handle_command-Does env creds incoming b)
