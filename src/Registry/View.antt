-- ===== src/Registry/View.antt =====
-- The view of a table: a change of one slot is a change of one client of the bag.
use wd_broker.Prelude.{
  ℕ, zero, suc, ◌≤◌, ◌<◌, ◌≡◌, refl, ap, ◌∙◌, sym, inl, inr, Bool, true, false, List, [], ◌∷◌,
  arith, some, if◌then◌else◌, Bool-cases, length, get_elem?, modify,
}
use wd_broker.Client.{Client}
use wd_broker.Slots.{is_live}
use wd_broker.Slots.First.{IsFirst, Nowhere}
use wd_broker.Slots.ByName.{Free}
use wd_broker.Registry.{Registry, of_list, add, put, add_comm, exists_in, size}

abbrev pub live : List Client → List Client
live [] = []
live (c ∷ cs) = if is_live c then c ∷ live cs else live cs

abbrev pub view : List Client → Registry
view cs = of_list (live cs)

-- The table without slot `k`.
abbrev pub others : List Client → ℕ → List Client
others [] k = []
others (c ∷ cs) zero = cs
others (c ∷ cs) (suc k) = c ∷ others cs k

view-put : (c : Client) (cs : List Client) → view (c ∷ cs) ≡ put c (view cs)
unfolding add
view-put c cs = elim (Bool-cases (is_live c)) [ inl e ↦ rw e refl | inr e ↦ rw e refl ]

put_comm : (c d : Client) (r : Registry) → put c (put d r) ≡ put d (put c r)
put_comm c d r = elim (Bool-cases (is_live c)) [
  | inr e ↦ rw e refl
  | inl e ↦ elim (Bool-cases (is_live d)) [
    | inr f ↦ rw (e, f) refl
    | inl f ↦ rw (e, f) (add_comm c d r)
  ]
]

pub view-modify :
    (cs : List Client) (k : ℕ) (f : Client → Client) (c : Client)
    → get_elem? cs k ≡ some c
    → view (modify cs k f) ≡ put (f c) (view (others cs k))
view-modify [] k f c e = absurd (cc)
view-modify (d ∷ cs) zero f c e = view-put (f d) cs ∙ ap (λ x. put (f x) (view cs)) (ground arith)
view-modify (d ∷ cs) (suc k) f c e =
    view-put d (modify cs k f)
    ∙ ap (put d) (view-modify cs k f c e)
    ∙ put_comm d (f c) (view (others cs k))
    ∙ ap (put (f c)) (sym (view-put d (others cs k)))

modify-id : (cs : List Client) (k : ℕ) → modify cs k (λ c. c) ≡ cs
modify-id [] k = refl
modify-id (c ∷ cs) zero = refl
modify-id (c ∷ cs) (suc k) = ap (◌∷◌ c) (modify-id cs k)

pub view-others :
    (cs : List Client) (k : ℕ) (c : Client)
    → get_elem? cs k ≡ some c
    → view cs ≡ put c (view (others cs k))
view-others cs k c e = ap view (sym (modify-id cs k)) ∙ view-modify cs k (λ c. c) c e

-- Searches in the bag are searches in the table, for a test that only live clients pass.
module _ (p : Client → Bool) (lives : (c : Client) → p c ≡ true → is_live c ≡ true) where
  pub exists_in-Nowhere :
      (cs : List Client) → Nowhere (λ c. p c ≡ true) cs → exists_in p (view cs) ≡ false
  unfolding exists_in
  exists_in-Nowhere [] n = refl
  exists_in-Nowhere (c ∷ cs) n =
      let rest = exists_in-Nowhere cs n.1 in
      elim (Bool-cases (p c)) [
        | inl e ↦ absurd (n.0 e)
        | inr e ↦ elim (Bool-cases (is_live c)) [ inl l ↦ rw (l, e) rest | inr l ↦ rw l rest ]
      ]

  pub exists_in-IsFirst :
      (cs : List Client) (k : ℕ) → IsFirst (λ c. p c ≡ true) cs k → exists_in p (view cs) ≡ true
  unfolding exists_in
  exists_in-IsFirst [] k f = absurd f
  exists_in-IsFirst (c ∷ cs) zero f = rw (lives c f, f) refl
  exists_in-IsFirst (c ∷ cs) (suc k) f =
      let rest = exists_in-IsFirst cs k f.1 in
      elim (Bool-cases (is_live c)) [
        | inl l ↦ elim (Bool-cases (p c)) [ inl e ↦ rw (l, e) refl | inr e ↦ rw (l, e) rest ]
        | inr l ↦ rw l rest
      ]

length-live : (cs : List Client) → length (live cs) ≤ length cs
length-live [] = omega arith
length-live (c ∷ cs) = ground (arith, length-live cs)

-- There is a free slot exactly if the bag is smaller than the table.
pub size-Free : (cs : List Client) (k : ℕ) → IsFirst Free cs k → size (view cs) < length cs
unfolding size
size-Free [] k f = absurd f
size-Free (c ∷ cs) zero f = ground (arith, length-live cs)
size-Free (c ∷ cs) (suc k) f = ground (arith, size-Free cs k f.1)

pub size-full : (cs : List Client) → Nowhere Free cs → size (view cs) ≡ length cs
unfolding size
size-full [] n = refl
size-full (c ∷ cs) n = ground (arith, n.0, size-full cs n.1)
