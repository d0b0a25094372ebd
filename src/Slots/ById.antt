-- ===== src/Slots/ById.antt =====
-- Which client a clientID and a process stand for: `get_clientInstance_by_clientID`.
use wd_broker.Prelude.{
  ℕ, zero, suc, ◌+◌, ◌≡◌, ◌≢◌, refl, ◌↔◌, ◌⊎◌, inl, inr, true, false, some, List, [], ◌∷◌, arith,
  Bool-cases, &&_iff, take, get_elem?, ◌==◌,
}
use wd_broker.Text.{Bytes, strncmp_eq, strncmp_eq_iff}
use wd_broker.Client.{Client, clientid_fmt_len}
use wd_broker.Slots.First.{IsFirst, Nowhere, First-cases, IsFirst-get_elem?}
use wd_broker.Slots.{
  Identification, identified, pid_mismatch, not_found, is_live, has_id, identify_from,
  get_client_instance_by_client_id,
}

-- A slot that is active or announced and holds this clientID.
abbrev pub HasId : Bytes → Client → Type 0
HasId client_id c =
    (is_live c ≡ true) × (take clientid_fmt_len c.client_id ≡ take clientid_fmt_len client_id)

-- The process may use the client's clientID.
abbrev pub MayUse : ℕ → Client → Type 0
MayUse pid c = (c.check_pid ≡ false) ⊎ (c.pid ≡ pid)

pub has_id_iff : (client_id : Bytes) (c : Client) → (has_id client_id c ≡ true) ↔ HasId client_id c
has_id_iff client_id c = (
  λ e.
      let h = (&&_iff (is_live c) (strncmp_eq c.client_id client_id clientid_fmt_len)).0 e in
      (h.0, (strncmp_eq_iff c.client_id client_id clientid_fmt_len).0 h.1),
  λ h.
      (&&_iff (is_live c) (strncmp_eq c.client_id client_id clientid_fmt_len)).1
        (h.0, (strncmp_eq_iff c.client_id client_id clientid_fmt_len).1 h.1),
)

dec_has_id : (client_id : Bytes) (c : Client) → Dec (HasId client_id c)
dec_has_id client_id c = elim (Bool-cases (has_id client_id c)) [
  | inl e ↦ yes ((has_id_iff client_id c).0 e)
  | inr e ↦ no (λ a. ground (arith, e, (has_id_iff client_id c).1 a))
]

-- What each answer of the search says.
abbrev pub Identifies : List Client → Bytes → ℕ → Identification → Type 0
Identifies clients client_id pid (identified k) =
    IsFirst (HasId client_id) clients k
    × (c : Client) × (get_elem? clients k ≡ some c)
    × MayUse pid c
Identifies clients client_id pid (pid_mismatch k) =
    IsFirst (HasId client_id) clients k
    × (c : Client) × (get_elem? clients k ≡ some c)
    × (c.check_pid ≡ true)
    × (c.pid ≢ pid)
Identifies clients client_id pid not_found = Nowhere (HasId client_id) clients

module _ (client_id : Bytes) (pid : ℕ) where
  identify_from-owned :
      (cs : List Client) (i k : ℕ) (c : Client)
      → IsFirst (HasId client_id) cs k
      → get_elem? cs k ≡ some c
      → MayUse pid c
      → identify_from cs client_id pid i ≡ identified (i + k)
  unfolding identify_from
  identify_from-owned [] i k c f e m = absurd f
  identify_from-owned (d ∷ cs) i zero c f e m = ground (arith, has_id_iff client_id d)
  identify_from-owned (d ∷ cs) i (suc k) c f e m =
      ground (arith, has_id_iff client_id d, identify_from-owned cs (suc i) k c f.1 e m)

  identify_from-mismatch :
      (cs : List Client) (i k : ℕ) (c : Client)
      → IsFirst (HasId client_id) cs k
      → get_elem? cs k ≡ some c
      → c.check_pid ≡ true
      → c.pid ≢ pid
      → identify_from cs client_id pid i ≡ pid_mismatch (i + k)
  unfolding identify_from
  identify_from-mismatch [] i k c f e m n = absurd f
  identify_from-mismatch (d ∷ cs) i zero c f e m n = ground (arith, has_id_iff client_id d)
  identify_from-mismatch (d ∷ cs) i (suc k) c f e m n =
      ground (arith, has_id_iff client_id d, identify_from-mismatch cs (suc i) k c f.1 e m n)

  identify_from-Nowhere :
      (cs : List Client) (i : ℕ)
      → Nowhere (HasId client_id) cs
      → identify_from cs client_id pid i ≡ not_found
  unfolding identify_from
  identify_from-Nowhere [] i f = refl
  identify_from-Nowhere (c ∷ cs) i f =
      ground (arith, has_id_iff client_id c, identify_from-Nowhere cs (suc i) f.1)

  pub identify-owned :
      (cs : List Client) (k : ℕ) (c : Client)
      → IsFirst (HasId client_id) cs k
      → get_elem? cs k ≡ some c
      → MayUse pid c
      → get_client_instance_by_client_id cs client_id pid ≡ identified k
  unfolding get_client_instance_by_client_id
  identify-owned cs k c f e m = ground (arith, identify_from-owned cs 0 k c f e m)

  pub identify-mismatch :
      (cs : List Client) (k : ℕ) (c : Client)
      → IsFirst (HasId client_id) cs k
      → get_elem? cs k ≡ some c
      → c.check_pid ≡ true
      → c.pid ≢ pid
      → get_client_instance_by_client_id cs client_id pid ≡ pid_mismatch k
  unfolding get_client_instance_by_client_id
  identify-mismatch cs k c f e m n = ground (arith, identify_from-mismatch cs 0 k c f e m n)

  pub identify-Nowhere :
      (cs : List Client)
      → Nowhere (HasId client_id) cs
      → get_client_instance_by_client_id cs client_id pid ≡ not_found
  unfolding get_client_instance_by_client_id
  identify-Nowhere cs f = identify_from-Nowhere cs 0 f

  pub MayUse-cases : (c : Client) → MayUse pid c ⊎ ((c.check_pid ≡ true) × (c.pid ≢ pid))
  MayUse-cases c = elim (Bool-cases c.check_pid) [
    | inr e ↦ inl (inl e)
    | inl e ↦ elim (Bool-cases (c.pid == pid)) [
      | inl p ↦ inl (inr (ground arith))
      | inr p ↦ inr (e, ground arith)
    ]
  ]

  -- `get_clientInstance_by_clientID` picks the first active or announced slot with the clientID. It
  -- answers `identified` if that client has no PID check or the caller's PID is the client's,
  -- `pid_mismatch` if it has a check and another PID, and `not_found` if no slot has the clientID.
  pub get_client_instance_by_client_id-Identifies :
      (cs : List Client)
      → Identifies cs client_id pid (get_client_instance_by_client_id cs client_id pid)
  get_client_instance_by_client_id-Identifies cs =
      elim (First-cases (HasId client_id) (dec_has_id client_id) cs) [
        | inr f ↦ rw (identify-Nowhere cs f) f
        | inl (k, f) ↦
            let (c, e, h) = IsFirst-get_elem? (HasId client_id) cs k f in
            elim (MayUse-cases c) [
              | inl m ↦ rw (identify-owned cs k c f e m) (f, c, e, m)
              | inr (m, n) ↦ rw (identify-mismatch cs k c f e m n) (f, c, e, m, n)
            ]
      ]
