-- ===== src/Registry.antt =====
-- What the client table stands for, up to the order of its slots: the bag of the clients that are
-- active or announced. This is the specification of the commands that src/wd-broker.c keeps over an
-- array of slots.
pub mod View
pub mod Admission
pub mod Refinement
use mathlib.Core.List.Permᴰ
use mathlib.Core.List.{Permᴰ}
use mathlib.Core.Quot
use mathlib.Core.Quot.{Quot, Quot-set}
use native.Mathlib.Nat.{ℕ_set}
use wd_broker.Prelude.{
  ℕ, suc, ◌≡◌, refl, ap, ◌∙◌, sym, Bool, true, false, not, ◌&&◌, ◌||◌, List, [], ◌∷◌, arith, ltb,
  if◌then◌else◌, length,
}
use wd_broker.Text.{Bytes, str_eq}
use wd_broker.Client.{Client, Config}
use wd_broker.Slots.{is_announced_for, is_live}

abbrev pub Registry : Type 0
Registry = Quot (Permᴰ {A = Client})

abbrev pub of_list : List Client → Registry
of_list = Quot.mk

abbrev pub empty : Registry
empty = of_list []

unfoldable pub add : Client → Registry → Registry
add c = Quot.lift Quot-set (λ cs. of_list (c ∷ cs)) λ cs ds p. Quot.sound (Permᴰ.cons refl p)

-- A client that is neither active nor announced does not count.
abbrev pub put : Client → Registry → Registry
put c r = if is_live c then add c r else r

pub add_comm : (c d : Client) (r : Registry) → add c (add d r) ≡ add d (add c r)
unfolding add
add_comm c d = Quot.ind (λ r. Quot-set _ _) λ cs. Quot.sound (Permᴰ.swap refl refl)

abbrev pub any : (Client → Bool) → List Client → Bool
any p [] = false
any p (c ∷ cs) = p c || any p cs

pub any-Permᴰ : (p : Client → Bool) {cs ds : List Client} → Permᴰ cs ds → any p cs ≡ any p ds
any-Permᴰ p Permᴰ.nil = refl
any-Permᴰ p (Permᴰ.cons e q) = ground (arith, any-Permᴰ p q, ap p e)
any-Permᴰ p (Permᴰ.swap e f) = ground (arith, ap p e, ap p f)
any-Permᴰ p (Permᴰ.trans q r) = any-Permᴰ p q ∙ any-Permᴰ p r

-- Some client of the bag satisfies `p`.
unfoldable pub exists_in : (Client → Bool) → Registry → Bool
exists_in p = Quot.lift (hlevel) (any p) (λ cs ds q. any-Permᴰ p q)

pub length-Permᴰ : {cs ds : List Client} → Permᴰ cs ds → length cs ≡ length ds
length-Permᴰ Permᴰ.nil = refl
length-Permᴰ (Permᴰ.cons e q) = ap suc (length-Permᴰ q)
length-Permᴰ (Permᴰ.swap e f) = refl
length-Permᴰ (Permᴰ.trans q r) = length-Permᴰ q ∙ length-Permᴰ r

unfoldable pub size : Registry → ℕ
size = Quot.lift ℕ_set length (λ cs ds q. length-Permᴰ q)

-- What becomes of a registration.
pub data Verdict : Type 0 where
  rejected takes_over takes_free : Verdict

abbrev pub is_active_as : Bytes → Client → Bool
is_active_as name c = c.active && str_eq c.name name

-- The rules of the comment above `get_clientInstance_by_name`, over the bag alone; `capacity` is WD_MAX_CLIENTS.
unfoldable pub admit : Config → ℕ → Registry → Bytes → Verdict
unfolding exists_in size
admit config capacity r name =
    if config.unique_clients && exists_in (is_active_as name) r
    then rejected
    else if exists_in (is_announced_for name) r
    then takes_over
    else if config.strict_clients
    then rejected
    else if ltb (size r) capacity
    then takes_free
    else rejected
