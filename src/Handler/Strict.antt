-- ===== src/Handler/Strict.antt =====
-- `strict_clients`: only announced clients get in.
use wd_broker.Prelude.{
  ℕ, zero, suc, ◌≡◌, refl, sym, ◌∙◌, true, false, Option, some, List, [], ◌∷◌, arith, modify,
  get_elem?,
}
use wd_broker.Text.{Bytes}
use wd_broker.Common.{Incoming}
use wd_broker.Print.{Reply}
use wd_broker.Client.{Client, Config}
use wd_broker.Slots.First.{IsFirst-get_elem?}
use wd_broker.Slots.ByName.{AnnouncedFor, Selects}
use wd_broker.Slots.{is_live}
use wd_broker.Handler.Transition.{
  Transition, unchanged, overrun, registered, pinged, unregistered, rebooted, handle_command-keeps,
}
use wd_broker.Handler.Unique.{register_client-name}
use wd_broker.Handler.{Broker, Env, Creds, scan_register, register_client, handle_command}

-- Slot `k` of `cs` holds a client that is active or announced, with this name.
abbrev pub LiveAt : List Client → ℕ → Bytes → Type 0
LiveAt cs k name = (c : Client) × (get_elem? cs k ≡ some c) × (is_live c ≡ true) × (c.name ≡ name)

-- Whoever is live now was live before, in the same slot and under the same name.
abbrev pub NoNewcomers : List Client → List Client → Type 0
NoNewcomers before after = (k : ℕ) (name : Bytes) → LiveAt after k name → LiveAt before k name

LiveAt-modify :
    (cs : List Client) (j : ℕ) (f : Client → Client)
    → ((c : Client) (name : Bytes)
        → get_elem? cs j ≡ some c
        → is_live (f c) ≡ true
        → (f c).name ≡ name
        → (is_live c ≡ true) × (c.name ≡ name))
    → NoNewcomers cs (modify cs j f)
LiveAt-modify [] j f h k name l = l
LiveAt-modify (c ∷ cs) zero f h zero name (d, e, l, n) =
    let e' : f c ≡ d = ground arith in
    let (l', n') = h c name refl (rw e' l) (rw e' n) in (c, refl, l', n')
LiveAt-modify (c ∷ cs) zero f h (suc k) name l = l
LiveAt-modify (c ∷ cs) (suc j) f h zero name l = l
LiveAt-modify (c ∷ cs) (suc j) f h (suc k) name l = LiveAt-modify cs j f h k name l

-- In strict mode a registration takes a slot that was announced for its name.
Selects-announced :
    (config : Config) (cs : List Client) (name : Bytes) (k : ℕ) (o : Option ℕ)
    → o ≡ some k
    → Selects config cs name o
    → config.strict_clients ≡ true
    → (c : Client) × (get_elem? cs k ≡ some c) × AnnouncedFor name c
Selects-announced config cs name k _ e (Selects.taken j u f) s = absurd (cc)
Selects-announced config cs name k _ e (Selects.announced {k = j} n f) s =
    let (c, p, h) = IsFirst-get_elem? (AnnouncedFor name) cs j f in (c, ground (arith, p), h)
Selects-announced config cs name k _ e (Selects.unannounced n t f) s = absurd (cc)
Selects-announced config cs name k _ e (Selects.free n t f g) s = absurd (cc)
Selects-announced config cs name k _ e (Selects.full n t f g) s = absurd (cc)

announced-is_live : (name : Bytes) (c : Client) → AnnouncedFor name c → is_live c ≡ true
announced-is_live name c h = ground (arith, h)

registered-NoNewcomers :
    (env : Env) (creds : Creds) (b : Broker) (args : Bytes) (k : ℕ)
    → b.config.strict_clients ≡ true
    → Selects b.config b.clients (scan_register args).name (some k)
    → NoNewcomers b.clients (modify b.clients k (register_client env creds (scan_register args)))
registered-NoNewcomers env creds b args k s sel =
    let (d, at, ann) = Selects-announced b.config b.clients _ k _ refl sel s in
    LiveAt-modify b.clients k _ λ c name e l n.
      let same : d ≡ c = ground (arith, at, e) in
      let old = register_client-name env creds args c in
      (rw (← same) (announced-is_live _ d ann), rw (← same) (ann.2 ∙ sym old ∙ n))

Transition-NoNewcomers :
    (env : Env) (creds : Creds) (incoming : Incoming) (b b' : Broker) (r : Reply)
    → Transition env creds incoming b b' r
    → b.config.strict_clients ≡ true
    → NoNewcomers b.clients b'.clients
Transition-NoNewcomers env creds incoming b b' r (unchanged _ _) s = λ k name l. l
Transition-NoNewcomers env creds incoming b b' r (overrun _ _) s = λ k name l. l
Transition-NoNewcomers env creds incoming b b' r (registered args j q a sel g) s =
    registered-NoNewcomers env creds b args j s sel
Transition-NoNewcomers env creds incoming b b' r (pinged args id j q t h) s =
    LiveAt-modify b.clients j (λ c. record c { last_ping = env.now }) λ c name e l n. (l, n)
Transition-NoNewcomers env creds incoming b b' r (unregistered args id j q t h p) s =
    LiveAt-modify b.clients j (λ c. record c { active = false; anounced = false })
      λ c name e l n. absurd (cc)
Transition-NoNewcomers env creds incoming b b' r (rebooted args q u) s = λ k name l. l

-- With `strict_clients` set, a client that is active or announced after a command was so before, in
-- the same slot and under the same name: nobody new gets in. (If the reply leaves its buffer, the
-- process is no longer the model's, and nothing is said of it.)
pub handle_command-NoNewcomers :
    (env : Env) (peer : Option Creds) (incoming : Incoming) (b : Broker)
    → b.config.strict_clients ≡ true
    → NoNewcomers b.clients (handle_command env peer incoming b).0.clients
handle_command-NoNewcomers env peer incoming b s =
    handle_command-keeps (λ q. NoNewcomers b.clients q.clients) env peer incoming b (λ k name l. l)
      (λ creds b' r t. Transition-NoNewcomers env creds incoming b b' r t s)
