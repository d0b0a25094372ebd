-- ===== src/Handler/Unique.antt =====
-- `unique_clients`: no two active clients share a name.
use wd_broker.Prelude.{
  ℕ, zero, suc, ◌≡◌, refl, sym, ◌∙◌, true, false, Option, some, List, [], ◌∷◌, arith, modify,
  take-eq_self,
}
use wd_broker.Text.{Bytes}
use wd_broker.Common.{Incoming}
use wd_broker.Print.{Reply}
use wd_broker.Client.{Client, Config, client_name_len}
use wd_broker.Slots.First.{Nowhere}
use wd_broker.Slots.ByName.{ActiveAs, Selects}
use wd_broker.Handler.Invariant.{length-scan_register}
use wd_broker.Handler.Transition.{
  Transition, unchanged, overrun, registered, pinged, unregistered, rebooted, handle_command-keeps,
}
use wd_broker.Handler.{Broker, Env, Creds, scan_register, register_client, handle_command}

-- The names of the active clients differ from one another.
abbrev pub UniqueNames : List Client → Type 0
UniqueNames [] = Unit {0}
UniqueNames (c ∷ cs) = (c.active ≡ true → Nowhere (ActiveAs c.name) cs) × UniqueNames cs

module _ (f : Client → Client) where
  -- A change after which no client is active that was not, under the same name.
  abbrev Shrinks : Type 0
  Shrinks = (c : Client) (name : Bytes) → ActiveAs name (f c) → ActiveAs name c

  Nowhere-modify_shrink :
      Shrinks
      → (cs : List Client) (k : ℕ) (name : Bytes) → Nowhere (ActiveAs name) cs
      → Nowhere (ActiveAs name) (modify cs k f)
  Nowhere-modify_shrink s [] k name h = tt
  Nowhere-modify_shrink s (c ∷ cs) zero name h = ((λ a. h.0 (s c name a)), h.1)
  Nowhere-modify_shrink s (c ∷ cs) (suc k) name h = (h.0, Nowhere-modify_shrink s cs k name h.1)

  UniqueNames-modify_shrink :
      Shrinks → (cs : List Client) (k : ℕ) → UniqueNames cs → UniqueNames (modify cs k f)
  UniqueNames-modify_shrink s [] k h = tt
  UniqueNames-modify_shrink s (c ∷ cs) zero h = (head, h.1)
    where
      head : (f c).active ≡ true → Nowhere (ActiveAs (f c).name) cs
      head e = let a = s c (f c).name (e, refl) in rw (← a.1) (h.0 a.0)
  UniqueNames-modify_shrink s (c ∷ cs) (suc k) h =
      (λ e. Nowhere-modify_shrink s cs k c.name (h.0 e), UniqueNames-modify_shrink s cs k h.1)

  module _ (name : Bytes) (named : (c : Client) → (f c).name ≡ name) where
    Nowhere-modify_name :
        (cs : List Client) (k : ℕ) (other : Bytes)
        → (name ≡ other → ⊥)
        → Nowhere (ActiveAs other) cs
        → Nowhere (ActiveAs other) (modify cs k f)
    Nowhere-modify_name [] k other n h = tt
    Nowhere-modify_name (c ∷ cs) zero other n h = ((λ a. n (sym (named c) ∙ a.1)), h.1)
    Nowhere-modify_name (c ∷ cs) (suc k) other n h = (h.0, Nowhere-modify_name cs k other n h.1)

    -- A slot gets a name that no active client has.
    UniqueNames-modify_name :
        (cs : List Client) (k : ℕ)
        → Nowhere (ActiveAs name) cs
        → UniqueNames cs
        → UniqueNames (modify cs k f)
    UniqueNames-modify_name [] k n h = tt
    UniqueNames-modify_name (c ∷ cs) zero n h = ((λ e. rw (named c) n.1), h.1)
    UniqueNames-modify_name (c ∷ cs) (suc k) n h = (
      λ e. Nowhere-modify_name cs k c.name (λ same. n.0 (e, sym same)) (h.0 e),
      UniqueNames-modify_name cs k n.1 h.1,
    )

Selects-not_taken :
    (config : Config) (cs : List Client) (name : Bytes) (k : ℕ) (o : Option ℕ)
    → o ≡ some k
    → Selects config cs name o
    → config.unique_clients ≡ true
    → Nowhere (ActiveAs name) cs
Selects-not_taken config cs name k _ e (Selects.taken j u f) v = absurd (cc)
Selects-not_taken config cs name k _ e (Selects.announced n f) v = n v
Selects-not_taken config cs name k _ e (Selects.unannounced n s f) v = absurd (cc)
Selects-not_taken config cs name k _ e (Selects.free n s f g) v = n v
Selects-not_taken config cs name k _ e (Selects.full n s f g) v = absurd (cc)

pub register_client-name :
    (env : Env) (creds : Creds) (args : Bytes) (c : Client)
    → (register_client env creds (scan_register args) c).name ≡ (scan_register args).name
unfolding register_client
register_client-name env creds args c =
    take-eq_self client_name_len (scan_register args).name
      (omega (arith, length-scan_register args))

Transition-UniqueNames :
    (env : Env) (creds : Creds) (incoming : Incoming) (b b' : Broker) (r : Reply)
    → Transition env creds incoming b b' r
    → b.config.unique_clients ≡ true
    → UniqueNames b.clients
    → UniqueNames b'.clients
Transition-UniqueNames env creds incoming b b' r (unchanged _ _) u v = v
Transition-UniqueNames env creds incoming b b' r (overrun _ _) u v = v
Transition-UniqueNames env creds incoming b b' r (registered args k q a s g) u v =
    UniqueNames-modify_name _ (scan_register args).name (register_client-name env creds args)
      b.clients k (Selects-not_taken b.config b.clients _ k _ refl s u) v
Transition-UniqueNames env creds incoming b b' r (pinged args id k q t h) u v =
    UniqueNames-modify_shrink (λ c. record c { last_ping = env.now }) (λ c name a. a) b.clients k v
Transition-UniqueNames env creds incoming b b' r (unregistered args id k q t h p) u v =
    UniqueNames-modify_shrink (λ c. record c { active = false; anounced = false })
      (λ c name a. absurd (cc)) b.clients k v
Transition-UniqueNames env creds incoming b b' r (rebooted args q x) u v = v

-- With `unique_clients` set, no command ever makes two active clients share a name. (If the reply
-- leaves its buffer, the process is no longer the model's, and nothing is said of it.)
pub handle_command-UniqueNames :
    (env : Env) (peer : Option Creds) (incoming : Incoming) (b : Broker)
    → b.config.unique_clients ≡ true
    → UniqueNames b.clients
    → UniqueNames (handle_command env peer incoming b).0.clients
handle_command-UniqueNames env peer incoming b u v =
    handle_command-keeps (λ q. UniqueNames q.clients) env peer incoming b v
      (λ creds b' r t. Transition-UniqueNames env creds incoming b b' r t u v)
