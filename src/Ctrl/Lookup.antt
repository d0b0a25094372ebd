-- ===== src/Ctrl/Lookup.antt =====
-- The search of `unregister` in wd-ctrl over the lines of STATUS, against the broker's table.
use wd_broker.Prelude.{
  ℕ, zero, suc, ◌+◌, ltb, ◌&&◌, ◌||◌, ◌≡◌, refl, ap, inl, inr, true, some, none, List, [], ◌∷◌,
  ◌++◌, arith, if◌then◌else◌, All, Bool-cases, get_elem?,
}
use wd_broker.Text.{Bytes, str_eq, str_eq_iff}
use wd_broker.Client.{Client}
use wd_broker.Slots.{is_live}
use wd_broker.Slots.First.{Nowhere}
use wd_broker.Ctrl.Rows.{IsRow, row_of, row_text, read_row-row_text}
use wd_broker.Ctrl.{read_row, Search, match_name, search_client}

-- The lines of the clients, without newlines.
abbrev pub row_texts : List Client → List Bytes
row_texts [] = []
row_texts (c ∷ cs) = let rest = row_texts cs in if is_live c then row_text c ∷ rest else rest

-- Every live slot can be read back.
abbrev pub AllRows : List Client → Type 0
AllRows = All (λ c. is_live c ≡ true → IsRow c)

-- The search on the table itself: the first live slot with this id, otherwise the last one with this
-- name, and how many have it.
abbrev pub search_table : Bytes → List Client → Search → Search
search_table client [] s = s
search_table client (c ∷ cs) s =
    let skipped = search_table client cs s in
    let named = search_table client cs (match_name client (row_of c) s) in
    if is_live c
    then if str_eq client c.client_id
      then record s { id_candidate = c.client_id; found = true }
      else named
    else skipped

pub search_client-no_rows :
    (client : Bytes) (ls rest : List Bytes) (s : Search)
    → All (λ l. read_row l ≡ none) ls
    → search_client client (ls ++ rest) s ≡ search_client client rest s
unfolding search_client
search_client-no_rows client [] rest s h = refl
search_client-no_rows client (l ∷ ls) rest s h =
    rw (search_client, h.0) (search_client-no_rows client ls rest s h.1)

-- What wd-ctrl finds in the lines is what it would find in the broker's table.
pub search_client-search_table :
    (client : Bytes) (cs : List Client) (s : Search)
    → AllRows cs
    → search_client client (row_texts cs) s ≡ search_table client cs s
unfolding search_client
search_client-search_table client [] s h = refl
search_client-search_table client (c ∷ cs) s h = elim (Bool-cases (is_live c)) [
  | inr e ↦ rw e (search_client-search_table client cs s h.1)
  | inl e ↦
      let m = match_name client (row_of c) s in
      let r = read_row-row_text c (h.0 e) in
      rw e (
        rw (search_client, r)
          (ap
            (λ x.
              if str_eq client c.client_id
              then record s { id_candidate = c.client_id; found = true }
              else x)
            (search_client-search_table client cs m h.1)))
]

module _ (client : Bytes) where
  abbrev pub HasThisId : Client → Type 0
  HasThisId c = (is_live c ≡ true) × (c.client_id ≡ client)

  abbrev pub HasThisName : Client → Type 0
  HasThisName c = (is_live c ≡ true) × (c.name ≡ client)

  -- One slot, and no other.
  abbrev pub IsOnlyNamed : List Client → ℕ → Type 0
  IsOnlyNamed [] k = ⊥
  IsOnlyNamed (c ∷ cs) zero = HasThisName c × Nowhere HasThisName cs
  IsOnlyNamed (c ∷ cs) (suc k) = (HasThisName c → ⊥) × IsOnlyNamed cs k

  pub search_table-Nowhere :
      (cs : List Client) (s : Search)
      → Nowhere HasThisId cs
      → Nowhere HasThisName cs
      → search_table client cs s ≡ s
  search_table-Nowhere [] s h n = refl
  search_table-Nowhere (c ∷ cs) s h n = ground (
    arith,
    str_eq_iff client c.client_id,
    str_eq_iff client c.name,
    h.0,
    n.0,
    search_table-Nowhere cs s h.1 n.1,
  )

  pub search_table-IsOnlyNamed :
      (cs : List Client) (k : ℕ) (cl : Client) (s : Search)
      → Nowhere HasThisId cs
      → IsOnlyNamed cs k
      → get_elem? cs k ≡ some cl
      → search_table client cs s
        ≡ record { id_candidate = cl.client_id; found = true; match_count = suc s.match_count }
  search_table-IsOnlyNamed [] k cl s h n g = absurd n
  search_table-IsOnlyNamed (c ∷ cs) zero cl s h n g = ground (
    arith,
    str_eq_iff client c.client_id,
    str_eq_iff client c.name,
    h.0,
    search_table-Nowhere cs (match_name client (row_of c) s) h.1 n.1,
  )
  search_table-IsOnlyNamed (c ∷ cs) (suc k) cl s h n g = ground (
    arith,
    str_eq_iff client c.client_id,
    str_eq_iff client c.name,
    h.0,
    n.0,
    search_table-IsOnlyNamed cs k cl s h.1 n.1 g,
  )

  -- How many live slots have this name.
  abbrev pub named : List Client → ℕ
  named [] = 0
  named (c ∷ cs) =
      let rest = named cs in if is_live c && str_eq client c.name then suc rest else rest

  pub search_table-named :
      (cs : List Client) (s : Search)
      → Nowhere HasThisId cs
      → ((search_table client cs s).match_count ≡ s.match_count + named cs)
        × ((search_table client cs s).found ≡ (s.found || ltb 0 (named cs)))
  search_table-named [] s h = (omega arith, ground arith)
  search_table-named (c ∷ cs) s h = ground (
    arith,
    str_eq_iff client c.client_id,
    h.0,
    search_table-named cs s h.1,
    search_table-named cs (match_name client (row_of c) s) h.1,
  )
