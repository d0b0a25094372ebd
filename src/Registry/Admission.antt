-- ===== src/Registry/Admission.antt =====
-- What REGISTER does to the bag: `handle_register` of src/wd-broker.c behind the checks of its arguments.
use wd_broker.Prelude.{
  ℕ, ◌≡◌, refl, ap, ◌∙◌, sym, ◌↔◌, inl, inr, true, false, ◌&&◌, Option, none, some, arith, ltb,
  ◌++◌, if◌then◌else◌, Bool-cases, Option-cases, length, get_or, modify, get_or-get_elem?,
}
use wd_broker.Text.{Bytes, codes, str_eq_iff}
use wd_broker.Print.{Reply, sent}
use wd_broker.Client.{Client, zero_client}
use wd_broker.Slots.{is_live, is_announced_for, get_client_instance_by_name}
use wd_broker.Slots.First.{IsFirst, Nowhere, IsFirst-get_elem?, Nowhere-map, IsFirst-map}
use wd_broker.Slots.ByName.{
  ActiveAs, AnnouncedFor, Free, Selects, taken, announced, unannounced, free, full,
  is_announced_for_iff, get_client_instance_by_name-Selects,
}
use wd_broker.Handler.{
  Broker, Env, Creds, RegisterScan, scan_register, register_error, handle_register, register_client,
  ok_id, register_name,
}
use wd_broker.Handler.Transition.{IsRegistered, register_client-IsRegistered}
use wd_broker.Registry.{
  Registry, Verdict, rejected, takes_over, takes_free, add, put, exists_in, size, is_active_as,
  admit,
}
use wd_broker.Registry.View.{
  view, others, view-modify, view-others, exists_in-Nowhere, exists_in-IsFirst, size-Free,
  size-full,
}

-- The client that a registration adds when none was announced.
abbrev newcomer : Env → Creds → RegisterScan → Client
newcomer env creds a = register_client env creds a zero_client

-- What each verdict means for the bag and the reply: the announced client `c` becomes `d`, which keeps its
-- id; or `d` is new.
abbrev pub Registered : Env → Creds → RegisterScan → Verdict → Registry → Registry → Reply → Type 0
Registered env creds a rejected r r' reply = (r' ≡ r) × (reply ≡ sent (codes "ERROR rejected\n"))
Registered env creds a takes_over r r' reply =
    (c : Client) × (d : Client) × (s : Registry) × (r ≡ add c s)
    × (is_announced_for a.name c ≡ true)
    × IsRegistered env creds a c d
    × (r' ≡ add d s)
    × (reply ≡ sent (codes "OK " ++ c.client_id ++ codes "\n"))
Registered env creds a takes_free r r' reply =
    (d : Client) × IsRegistered env creds a zero_client d
    × (r' ≡ add d r)
    × (reply ≡ sent (codes "OK " ++ d.client_id ++ codes "\n"))

is_active_as_iff : (name : Bytes) (c : Client) → (is_active_as name c ≡ true) ↔ ActiveAs name c
is_active_as_iff name c = ground (arith, str_eq_iff c.name name)

active-live : (name : Bytes) (c : Client) → is_active_as name c ≡ true → is_live c ≡ true
active-live name c e = ground arith

announced-live : (name : Bytes) (c : Client) → is_announced_for name c ≡ true → is_live c ≡ true
announced-live name c e = ground arith

register_client-Free :
    (env : Env) (creds : Creds) (a : RegisterScan) (c : Client)
    → Free c
    → register_client env creds a c ≡ newcomer env creds a
unfolding register_client
register_client-Free env creds a c f = rw f.0 refl

module _ (env : Env) (creds : Creds) (a : RegisterScan) (b : Broker) where
  open_name :
      (b.config.unique_clients ≡ true → Nowhere (ActiveAs a.name) b.clients)
      → (b.config.unique_clients && exists_in (is_active_as a.name) (view b.clients)) ≡ false
  open_name h = elim (Bool-cases b.config.unique_clients) [
    | inr e ↦ rw e refl
    | inl e ↦ rw e (
        exists_in-Nowhere (is_active_as a.name) (active-live a.name) b.clients
          (Nowhere-map (λ c. (is_active_as_iff a.name c).0) b.clients (h e)))
  ]

  unannounced_name :
      Nowhere (AnnouncedFor a.name) b.clients
      → exists_in (is_announced_for a.name) (view b.clients) ≡ false
  unannounced_name n =
      exists_in-Nowhere (is_announced_for a.name) (announced-live a.name) b.clients
        (Nowhere-map (λ c. (is_announced_for_iff a.name c).0) b.clients n)

  admit_taken :
      (k : ℕ)
      → b.config.unique_clients ≡ true
      → IsFirst (ActiveAs a.name) b.clients k
      → admit b.config (length b.clients) (view b.clients) a.name ≡ rejected
  unfolding admit
  admit_taken k u f =
      let found = exists_in-IsFirst (is_active_as a.name) (active-live a.name) b.clients k (
        IsFirst-map (λ c. (is_active_as_iff a.name c).0) (λ c. (is_active_as_iff a.name c).1)
          b.clients k f) in
      rw (u, found) refl

  admit_announced :
      (k : ℕ)
      → (b.config.unique_clients ≡ true → Nowhere (ActiveAs a.name) b.clients)
      → IsFirst (AnnouncedFor a.name) b.clients k
      → admit b.config (length b.clients) (view b.clients) a.name ≡ takes_over
  unfolding admit
  admit_announced k h f =
      let found = exists_in-IsFirst (is_announced_for a.name) (announced-live a.name) b.clients k (
        IsFirst-map (λ c. (is_announced_for_iff a.name c).0)
          (λ c. (is_announced_for_iff a.name c).1) b.clients k f) in
      rw (open_name h, found) refl

  admit_unannounced :
      (b.config.unique_clients ≡ true → Nowhere (ActiveAs a.name) b.clients)
      → Nowhere (AnnouncedFor a.name) b.clients
      → admit b.config (length b.clients) (view b.clients) a.name ≡ (
          if b.config.strict_clients
          then rejected
          else if ltb (size (view b.clients)) (length b.clients)
          then takes_free
          else rejected)
  unfolding admit
  admit_unannounced h n = rw (open_name h, unannounced_name n) refl

  -- The end of a registration, with the slot that the search gave.
  abbrev pub fill : Option ℕ → Broker × Reply
  fill none = (b, sent (codes "ERROR rejected\n"))
  fill (some k) = (
    record b { clients = modify b.clients k (register_client env creds a) },
    ok_id (register_client env creds a (get_or b.clients k zero_client)),
  )

  register_name-fill :
      register_name env creds a b ≡ fill (get_client_instance_by_name b.config b.clients a.name)
  unfolding register_name
  register_name-fill = elim (Option-cases (get_client_instance_by_name b.config b.clients a.name)) [
    | inl e ↦ rw (register_name, e) refl
    | inr (k, e) ↦ rw (register_name, e) refl
  ]

  pub fill-Registered :
      (o : Option ℕ)
      → Selects b.config b.clients a.name o
      → Registered env creds a
          (admit b.config (length b.clients) (view b.clients) a.name)
          (view b.clients)
          (view (fill o).0.clients)
          (fill o).1
  unfolding register_client
  fill-Registered none (taken k u f) = rw (admit_taken k u f) (refl, refl)
  fill-Registered (some k) (announced h f) =
      let (c, at, held) = IsFirst-get_elem? (AnnouncedFor a.name) b.clients k f in
      let rest = view (others b.clients k) in
      let lives = announced-live a.name c ((is_announced_for_iff a.name c).1 held) in
      let filled = register_client-IsRegistered env creds a c in
      rw (admit_announced k h f, get_or-get_elem? b.clients k zero_client c at)
        (
          c,
          register_client env creds a c,
          rest,
          view-others b.clients k c at ∙ (rw lives refl),
          (is_announced_for_iff a.name c).1 held,
          filled,
          view-modify b.clients k (register_client env creds a) c at,
          ap (λ id. sent (codes "OK " ++ id ++ codes "\n")) (filled.kept_id held.0),
        )
  fill-Registered none (unannounced h s n) = rw (admit_unannounced h n, s) (refl, refl)
  fill-Registered (some k) (free h s n f) =
      let (c, at, held) = IsFirst-get_elem? Free b.clients k f in
      let room : ltb (size (view b.clients)) (length b.clients) ≡ true =
        ground (arith, size-Free b.clients k f) in
      let same = register_client-Free env creds a c held in
      let before : view b.clients ≡ view (others b.clients k) =
        view-others b.clients k c at ∙ rw (held.0, held.1) refl in
      rw (admit_unannounced h n, s, room, get_or-get_elem? b.clients k zero_client c at)
        (
          newcomer env creds a,
          register_client-IsRegistered env creds a zero_client,
          view-modify b.clients k (register_client env creds a) c at
              ∙ ap (λ x. put x (view (others b.clients k))) same
              ∙ ap (add (newcomer env creds a)) (sym before),
          ap ok_id same,
        )
  fill-Registered none (full h s n g) =
      let no_room : ltb (size (view b.clients)) (length b.clients) ≡ false =
        ground (arith, size-full b.clients g) in
      rw (admit_unannounced h n, s, no_room) (refl, refl)

-- A REGISTER whose arguments pass the checks, in terms of the bag of the clients alone: it is rejected if
-- names are unique and an active client has the name; otherwise a client that is announced under the name
-- and not active is replaced by the registered one, which keeps its id; otherwise it is rejected in strict
-- mode and when the bag is as large as the table; otherwise one client is added. The reply is the
-- client's id or the rejection, and a rejection changes nothing.
pub handle_register-Registered :
    (env : Env) (creds : Creds) (args : Bytes) (b : Broker)
    → register_error (scan_register args) ≡ none
    → let (b', reply) = handle_register env creds args b in
      let a = scan_register args in
      Registered env creds a
        (admit b.config (length b.clients) (view b.clients) a.name)
        (view b.clients)
        (view b'.clients)
        reply
unfolding handle_register
handle_register-Registered env creds args b fine =
    let a = scan_register args in
    let name = a.name in
    rw (handle_register, fine, register_name-fill env creds a b)
      (fill-Registered env creds a b (get_client_instance_by_name b.config b.clients name)
        (get_client_instance_by_name-Selects b.config b.clients name))
