-- ===== src/Slots/ByName.antt =====
-- The slot that a registration gets, against the rules in the comment above
-- `get_clientInstance_by_name`.
use wd_broker.Prelude.{
  ℕ, zero, suc, ◌+◌, ◌≡◌, refl, ◌↔◌, inl, inr, true, false, ◌&&◌, Option, none, some, List, [], ◌∷◌,
  arith, Bool-cases,
}
use wd_broker.Text.{Bytes, str_eq, str_eq_iff}
use wd_broker.Client.{Client, Config}
use wd_broker.Slots.First.{IsFirst, Nowhere, First-cases}
use wd_broker.Slots.{
  name_in_use, is_announced_for, is_free, scan_slots, first_of_two, get_client_instance_by_name,
}

abbrev pub ActiveAs : Bytes → Client → Type 0
ActiveAs name c = (c.active ≡ true) × (c.name ≡ name)

abbrev pub AnnouncedFor : Bytes → Client → Type 0
AnnouncedFor name c = (c.anounced ≡ true) × (c.active ≡ false) × (c.name ≡ name)

abbrev pub Free : Client → Type 0
Free c = (c.anounced ≡ false) × (c.active ≡ false)

pub is_announced_for_iff :
    (name : Bytes) (c : Client) → (is_announced_for name c ≡ true) ↔ AnnouncedFor name c
is_announced_for_iff name c = ground (arith, str_eq_iff c.name name)

dec_announced : (name : Bytes) (c : Client) → Dec (AnnouncedFor name c)
dec_announced name c = elim (Bool-cases (is_announced_for name c)) [
  | inl e ↦ yes ((is_announced_for_iff name c).0 e)
  | inr e ↦ no (λ a. ground (arith, e, (is_announced_for_iff name c).1 a))
]

dec_free : (c : Client) → Dec (Free c)
dec_free c = elim (Bool-cases (is_free c)) [
  | inl e ↦ yes (ground arith)
  | inr e ↦ no (λ f. ground arith)
]

-- The loop over `unique_clients` finds exactly the names of active clients.
pub name_in_use-Nowhere :
    (name : Bytes) (cs : List Client) → name_in_use cs name ≡ false → Nowhere (ActiveAs name) cs
unfolding name_in_use
name_in_use-Nowhere name [] e = tt
name_in_use-Nowhere name (c ∷ cs) e =
    (λ a. ground (arith, str_eq_iff c.name name), name_in_use-Nowhere name cs (ground arith))

pub name_in_use-IsFirst :
    (name : Bytes) (cs : List Client)
    → name_in_use cs name ≡ true
    → (k : ℕ) × IsFirst (ActiveAs name) cs k
unfolding name_in_use
name_in_use-IsFirst name [] e = absurd (cc)
name_in_use-IsFirst name (c ∷ cs) e = elim (Bool-cases (c.active && str_eq c.name name)) [
  | inl here ↦ (zero, ground (arith, str_eq_iff c.name name))
  | inr later ↦
      let (k, f) = name_in_use-IsFirst name cs (ground arith) in
      (suc k, (λ a. ground (arith, str_eq_iff c.name name), f))
]

module _ (name : Bytes) where
  scan_slots-announced :
      (cs : List Client) (i : ℕ) (free : Option ℕ) (k : ℕ)
      → IsFirst (AnnouncedFor name) cs k
      → (scan_slots name cs i free).announced_slot ≡ some (i + k)
  unfolding scan_slots
  scan_slots-announced [] i free k f = absurd f
  scan_slots-announced (c ∷ cs) i free zero f = ground (arith, is_announced_for_iff name c)
  scan_slots-announced (c ∷ cs) i free (suc k) f =
      let free' = first_of_two free (is_free c) i in
      ground (arith, is_announced_for_iff name c, scan_slots-announced cs (suc i) free' k f.1)

  scan_slots-unannounced :
      (cs : List Client) (i : ℕ) (free : Option ℕ)
      → Nowhere (AnnouncedFor name) cs
      → (scan_slots name cs i free).announced_slot ≡ none
  unfolding scan_slots
  scan_slots-unannounced [] i free f = refl
  scan_slots-unannounced (c ∷ cs) i free f =
      let free' = first_of_two free (is_free c) i in
      ground (arith, is_announced_for_iff name c, scan_slots-unannounced cs (suc i) free' f.1)

  -- A free slot that is found stays.
  scan_slots-kept :
      (cs : List Client) (i j : ℕ) → (scan_slots name cs i (some j)).free_slot ≡ some j
  unfolding scan_slots
  scan_slots-kept [] i j = refl
  scan_slots-kept (c ∷ cs) i j = ground (arith, scan_slots-kept cs (suc i) j)

  scan_slots-Free :
      (cs : List Client) (i k : ℕ)
      → Nowhere (AnnouncedFor name) cs
      → IsFirst Free cs k
      → (scan_slots name cs i none).free_slot ≡ some (i + k)
  unfolding scan_slots
  scan_slots-Free [] i k f g = absurd g
  scan_slots-Free (c ∷ cs) i zero f g =
      ground (arith, is_announced_for_iff name c, scan_slots-kept cs (suc i) i)
  scan_slots-Free (c ∷ cs) i (suc k) f g =
      ground (arith, is_announced_for_iff name c, g.0, scan_slots-Free cs (suc i) k f.1 g.1)

  scan_slots-full :
      (cs : List Client) (i : ℕ) → Nowhere Free cs → (scan_slots name cs i none).free_slot ≡ none
  unfolding scan_slots
  scan_slots-full [] i g = refl
  scan_slots-full (c ∷ cs) i g = ground (arith, g.0, scan_slots-full cs (suc i) g.1)

-- The rules of the comment, by cases that exclude one another.
pub data Selects (config : Config) (clients : List Client) (name : Bytes) : Option ℕ → Type 0 where
  taken :
      (k : ℕ)
      → config.unique_clients ≡ true
      → IsFirst (ActiveAs name) clients k
      → Selects config clients name none
  announced :
      {k : ℕ}
      → (config.unique_clients ≡ true → Nowhere (ActiveAs name) clients)
      → IsFirst (AnnouncedFor name) clients k
      → Selects config clients name (some k)
  unannounced :
      (config.unique_clients ≡ true → Nowhere (ActiveAs name) clients)
      → config.strict_clients ≡ true
      → Nowhere (AnnouncedFor name) clients
      → Selects config clients name none
  free :
      {k : ℕ}
      → (config.unique_clients ≡ true → Nowhere (ActiveAs name) clients)
      → config.strict_clients ≡ false
      → Nowhere (AnnouncedFor name) clients
      → IsFirst Free clients k
      → Selects config clients name (some k)
  full :
      (config.unique_clients ≡ true → Nowhere (ActiveAs name) clients)
      → config.strict_clients ≡ false
      → Nowhere (AnnouncedFor name) clients
      → Nowhere Free clients
      → Selects config clients name none

not_taken :
    (config : Config) (clients : List Client) (name : Bytes)
    → (config.unique_clients && name_in_use clients name) ≡ false
    → config.unique_clients ≡ true
    → Nowhere (ActiveAs name) clients
not_taken config clients name e u = name_in_use-Nowhere name clients (ground arith)

module _ (config : Config) (clients : List Client) (name : Bytes)
    (n : (config.unique_clients && name_in_use clients name) ≡ false) where
  by_name-announced :
      (k : ℕ)
      → IsFirst (AnnouncedFor name) clients k
      → get_client_instance_by_name config clients name ≡ some k
  unfolding get_client_instance_by_name
  by_name-announced k f = ground (arith, scan_slots-announced name clients 0 none k f)

  by_name-unannounced :
      config.strict_clients ≡ true
      → Nowhere (AnnouncedFor name) clients
      → get_client_instance_by_name config clients name ≡ none
  unfolding get_client_instance_by_name
  by_name-unannounced s f = ground (arith, scan_slots-unannounced name clients 0 none f)

  by_name-Free :
      (k : ℕ)
      → config.strict_clients ≡ false
      → Nowhere (AnnouncedFor name) clients
      → IsFirst Free clients k
      → get_client_instance_by_name config clients name ≡ some k
  unfolding get_client_instance_by_name
  by_name-Free k s f g =
      ground
        (arith, scan_slots-unannounced name clients 0 none f, scan_slots-Free name clients 0 k f g)

  by_name-full :
      config.strict_clients ≡ false
      → Nowhere (AnnouncedFor name) clients
      → Nowhere Free clients
      → get_client_instance_by_name config clients name ≡ none
  unfolding get_client_instance_by_name
  by_name-full s f g =
      ground (arith, scan_slots-unannounced name clients 0 none f, scan_slots-full name clients 0 g)

  by_name-Selects_of_not_taken :
      Selects config clients name (get_client_instance_by_name config clients name)
  by_name-Selects_of_not_taken =
      let open_name = not_taken config clients name n in
      elim (First-cases (AnnouncedFor name) (dec_announced name) clients) [
        | inl (k, f) ↦ rw (by_name-announced k f) (announced open_name f)
        | inr f ↦ elim (Bool-cases config.strict_clients) [
          | inl s ↦ rw (by_name-unannounced s f) (unannounced open_name s f)
          | inr s ↦ elim (First-cases Free dec_free clients) [
            | inl (k, g) ↦ rw (by_name-Free k s f g) (free open_name s f g)
            | inr g ↦ rw (by_name-full s f g) (full open_name s f g)
          ]
        ]
      ]

by_name_taken :
    (config : Config) (clients : List Client) (name : Bytes)
    → (config.unique_clients && name_in_use clients name) ≡ true
    → get_client_instance_by_name config clients name ≡ none
unfolding get_client_instance_by_name
by_name_taken config clients name e = ground arith

-- The slot that `get_clientInstance_by_name` returns, or its NULL, is the one that its comment
-- prescribes: nothing if `unique_clients` is set and an active client has the name; otherwise the
-- first announced, inactive slot with the name; otherwise, unless `strict_clients` is set, the first
-- slot that is neither announced nor active; otherwise nothing.
pub get_client_instance_by_name-Selects :
    (config : Config) (clients : List Client) (name : Bytes)
    → Selects config clients name (get_client_instance_by_name config clients name)
get_client_instance_by_name-Selects config clients name =
    elim (Bool-cases (config.unique_clients && name_in_use clients name)) [
      | inl e ↦
          let (k, f) = name_in_use-IsFirst name clients (ground arith) in
          rw (by_name_taken config clients name e) (taken k (ground arith) f)
      | inr n ↦ by_name-Selects_of_not_taken config clients name n
    ]
