-- ===== src/Slots/First.antt =====
-- The first slot of a table that satisfies a predicate, as a specification of the search loops.
use wd_broker.Prelude.{
  ℕ, zero, suc, ◌≡◌, ◌⊎◌, inl, inr, List, [], ◌∷◌, some, All, get_elem?, modify, take,
}
use mathlib.Core.Path.{refl}

get_elem?-head : {A : Type 0} (y x : A) → some y ≡ some x → y ≡ x
get_elem?-head y x e = cc

module _ {A : Type 0} (P : A → Type 0) where
  -- Entry `k` is the first that satisfies `P`.
  abbrev pub IsFirst : List A → ℕ → Type 0
  IsFirst [] k = ⊥
  IsFirst (x ∷ xs) zero = P x
  IsFirst (x ∷ xs) (suc k) = (P x → ⊥) × IsFirst xs k

  abbrev pub Nowhere : List A → Type 0
  Nowhere = All (λ x. P x → ⊥)

  pub First-cases : ((x : A) → Dec (P x)) → (xs : List A) → ((k : ℕ) × IsFirst xs k) ⊎ Nowhere xs
  First-cases d [] = inr tt
  First-cases d (x ∷ xs) = elim (d x) [
    | yes p ↦ inl (zero, p)
    | no n ↦ elim (First-cases d xs) [ inl (k, f) ↦ inl (suc k, (n, f)) | inr a ↦ inr (n, a) ]
  ]

  pub IsFirst-get_elem? :
      (xs : List A) (k : ℕ) → IsFirst xs k → (x : A) × (get_elem? xs k ≡ some x) × P x
  IsFirst-get_elem? [] k f = absurd f
  IsFirst-get_elem? (x ∷ xs) zero f = (x, refl, f)
  IsFirst-get_elem? (x ∷ xs) (suc k) f = IsFirst-get_elem? xs k f.1

  -- A slot becomes the first when no slot before it is one.
  pub IsFirst-modify :
      (xs : List A) (k : ℕ) (f : A → A) (x : A)
      → get_elem? xs k ≡ some x
      → Nowhere (take k xs)
      → P (f x)
      → IsFirst (modify xs k f) k
  IsFirst-modify [] k f x e n p = absurd (cc)
  IsFirst-modify (y ∷ xs) zero f x e n p = rw (get_elem?-head y x e) p
  IsFirst-modify (y ∷ xs) (suc k) f x e n p = (n.0, IsFirst-modify xs k f x e n.1 p)

  -- The first stays the first when it is changed into another.
  pub IsFirst-keep :
      (xs : List A) (k : ℕ) (f : A → A) (x : A)
      → get_elem? xs k ≡ some x
      → IsFirst xs k
      → P (f x)
      → IsFirst (modify xs k f) k
  IsFirst-keep [] k f x e n p = absurd n
  IsFirst-keep (y ∷ xs) zero f x e n p = rw (get_elem?-head y x e) p
  IsFirst-keep (y ∷ xs) (suc k) f x e n p = (n.0, IsFirst-keep xs k f x e n.1 p)

module _ {A : Type 0} {P Q : A → Type 0} (back : (x : A) → Q x → P x) where
  pub Nowhere-map : (xs : List A) → Nowhere P xs → Nowhere Q xs
  Nowhere-map [] n = tt
  Nowhere-map (x ∷ xs) n = ((λ q. n.0 (back x q)), Nowhere-map xs n.1)

  pub IsFirst-map : ((x : A) → P x → Q x) → (xs : List A) (k : ℕ) → IsFirst P xs k → IsFirst Q xs k
  IsFirst-map fwd [] k f = f
  IsFirst-map fwd (x ∷ xs) zero f = fwd x f
  IsFirst-map fwd (x ∷ xs) (suc k) f = ((λ q. f.0 (back x q)), IsFirst-map fwd xs k f.1)
