-- ===== src/Prelude/Lists.antt =====
-- Lists measured and indexed by native numbers, under the library's names; `All` by recursion.
use Prim.Native.Nat.{ℕ, zero, suc, ◌+◌, ◌≤◌, min}
use mathlib.Core.Path.{◌≡◌, refl, ap}
use mathlib.Core.List.{List, [], ◌∷◌, ◌++◌}
use mathlib.Core.Option.{Option, none, some}
use native.Mathlib.Omega.{arith}

module _ {ℓ} {A : Type ℓ} where
  abbrev pub length : List A → ℕ
  length [] = 0
  length (x ∷ xs) = suc (length xs)

  abbrev pub get_elem? : List A → ℕ → Option A
  get_elem? [] i = none
  get_elem? (x ∷ xs) zero = some x
  get_elem? (x ∷ xs) (suc i) = get_elem? xs i

  abbrev pub get_or : List A → ℕ → A → A
  get_or [] i d = d
  get_or (x ∷ xs) zero d = x
  get_or (x ∷ xs) (suc i) d = get_or xs i d

  abbrev pub take : ℕ → List A → List A
  take zero xs = []
  take (suc n) [] = []
  take (suc n) (x ∷ xs) = x ∷ take n xs

  abbrev pub drop : ℕ → List A → List A
  drop zero xs = xs
  drop (suc n) [] = []
  drop (suc n) (x ∷ xs) = drop n xs

  abbrev pub replicate : ℕ → A → List A
  replicate zero a = []
  replicate (suc n) a = a ∷ replicate n a

  -- `f` applied to entry `i`; out of bounds nothing changes.
  abbrev pub modify : List A → ℕ → (A → A) → List A
  modify [] i f = []
  modify (x ∷ xs) zero f = f x ∷ xs
  modify (x ∷ xs) (suc i) f = x ∷ modify xs i f

  pub length-append : (xs ys : List A) → length (xs ++ ys) ≡ length xs + length ys
  length-append [] ys = omega arith
  length-append (x ∷ xs) ys = omega (arith, length-append xs ys)

  pub length-modify : (xs : List A) (i : ℕ) (f : A → A) → length (modify xs i f) ≡ length xs
  length-modify [] i f = refl
  length-modify (x ∷ xs) zero f = refl
  length-modify (x ∷ xs) (suc i) f = ap suc (length-modify xs i f)

  pub get_elem?-modify :
      (xs : List A) (i : ℕ) (f : A → A) (x : A)
      → get_elem? xs i ≡ some x
      → get_elem? (modify xs i f) i ≡ some (f x)
  get_elem?-modify [] i f x e = absurd (cc)
  get_elem?-modify (y ∷ xs) zero f x e = ground arith
  get_elem?-modify (y ∷ xs) (suc i) f x e = get_elem?-modify xs i f x e

  pub modify-append :
      (xs ys : List A) (y : A) (f : A → A)
      → modify (xs ++ (y ∷ ys)) (length xs) f ≡ xs ++ (f y ∷ ys)
  modify-append [] ys y f = refl
  modify-append (x ∷ xs) ys y f = ap (◌∷◌ x) (modify-append xs ys y f)

  pub modify-modify :
      (xs : List A) (i : ℕ) (f g : A → A) → modify (modify xs i f) i g ≡ modify xs i (λ x. g (f x))
  modify-modify [] i f g = refl
  modify-modify (x ∷ xs) zero f g = refl
  modify-modify (x ∷ xs) (suc i) f g = ap (◌∷◌ x) (modify-modify xs i f g)

  pub length-take : (n : ℕ) (xs : List A) → length (take n xs) ≡ min n (length xs)
  length-take zero xs = omega arith
  length-take (suc n) [] = omega arith
  length-take (suc n) (x ∷ xs) = omega (arith, length-take n xs)

  pub take-drop : (n : ℕ) (xs : List A) → take n xs ++ drop n xs ≡ xs
  take-drop zero xs = refl
  take-drop (suc n) [] = refl
  take-drop (suc n) (x ∷ xs) = ap (◌∷◌ x) (take-drop n xs)

  pub take-eq_self : (n : ℕ) (xs : List A) → length xs ≤ n → take n xs ≡ xs
  take-eq_self zero [] h = refl
  take-eq_self zero (x ∷ xs) h = absurd (omega arith)
  take-eq_self (suc n) [] h = refl
  take-eq_self (suc n) (x ∷ xs) h = ap (◌∷◌ x) (take-eq_self n xs (omega arith))

  pub take-append_self : (xs ys : List A) (n : ℕ) → n ≡ length xs → take n (xs ++ ys) ≡ xs
  take-append_self [] ys n e = rw e refl
  take-append_self (x ∷ xs) ys zero e = absurd (omega arith)
  take-append_self (x ∷ xs) ys (suc n) e = ap (◌∷◌ x) (take-append_self xs ys n (omega arith))

  pub get_or-get_elem? :
      (xs : List A) (i : ℕ) (d x : A) → get_elem? xs i ≡ some x → get_or xs i d ≡ x
  get_or-get_elem? [] i d x e = absurd (cc)
  get_or-get_elem? (y ∷ xs) zero d x e = ground arith
  get_or-get_elem? (y ∷ xs) (suc i) d x e = get_or-get_elem? xs i d x e

abbrev pub All {ℓ κ} : {A : Type ℓ} → (A → Type κ) → List A → Type κ
All P [] = Unit
All P (x ∷ xs) = P x × All P xs

module _ {ℓ κ} {A : Type ℓ} (P : A → Type κ) where
  pub All-append : (xs ys : List A) → All P xs → All P ys → All P (xs ++ ys)
  All-append [] ys hx hy = hy
  All-append (x ∷ xs) ys hx hy = (hx.0, All-append xs ys hx.1 hy)

  pub All-get_elem? : (xs : List A) (i : ℕ) {x : A} → All P xs → get_elem? xs i ≡ some x → P x
  All-get_elem? [] i h e = absurd (cc)
  All-get_elem? (y ∷ xs) zero h e = ground (arith, h.0)
  All-get_elem? (y ∷ xs) (suc i) h e = All-get_elem? xs i h.1 e

  pub All-modify :
      (xs : List A) (i : ℕ) (f : A → A)
      → ((x : A) → get_elem? xs i ≡ some x → P x → P (f x))
      → All P xs
      → All P (modify xs i f)
  All-modify [] i f k h = tt
  All-modify (x ∷ xs) zero f k h = (k x refl h.0, h.1)
  All-modify (x ∷ xs) (suc i) f k h = (h.0, All-modify xs i f k h.1)
