-- ===== src/ConfigFile/Steps.antt =====
-- What holds between two lines of a configuration file, and that each kind of line keeps it.
use wd_broker.Prelude.{
  ℕ, zero, suc, ◌-◌, ◌≤◌, ◌<◌, ◌≡◌, refl, ap, ◌∙◌, leb, ltb, ◌==◌, if◌then◌else◌, ◌⊎◌, inl, inr,
  Bool, true, false, ◌||◌, Option, none, some, List, [], ◌∷◌, arith, All, All-modify, length,
  length-modify, modify, get_elem?, take-eq_self,
}
use wd_broker.Prelude.Int.{ℤ, ◌≤ℤ◌}
use wd_broker.Text.{Bytes, codes, str_eq}
use wd_broker.Scan.{atoi}
use wd_broker.Client.{Client, Config, Timespec, client_name_len}
use wd_broker.ClientId.{Entropy}
use wd_broker.ClientId.Laws.{make_client_id-IsClientId}
use wd_broker.Handler.Invariant.{SlotInv}
use wd_broker.Heartbeat.{to_unsigned}
use wd_broker.ConfigFile.{
  Build, World, Parser, Parse, ok, fatal, outside, set_timeout_ms, set_strict, set_unique,
  set_option, announce, add_client, wd_hw_timeout_min_s, wd_hw_timeout_max_s,
  wd_reboot_timeout_min_s, wd_reboot_timeout_max_s,
}

-- A slot as the file leaves it.
pub record Announced (c : Client) : Type 0 where
  pub slot : SlotInv c
  pub inactive : c.active ≡ false

-- The state between two lines.
pub record ParserInv (build : Build) (p : Parser) : Type 0 where
  pub wd_min : wd_hw_timeout_min_s ≤ℤ p.config.wd_timeout_s
  pub wd_max : p.config.wd_timeout_s ≤ℤ wd_hw_timeout_max_s
  pub reboot_min : wd_reboot_timeout_min_s ≤ℤ p.config.reboot_timeout_s
  pub reboot_max : p.config.reboot_timeout_s ≤ℤ wd_reboot_timeout_max_s
  pub slots : All Announced p.clients
  pub size : length p.clients ≡ build.max_clients
  pub count : p.client_count ≤ build.max_clients
  pub first :
      (p.client_count ≡ 0) ⊎ ((c : Client) × (get_elem? p.clients 0 ≡ some c) × (c.anounced ≡ true))

-- What holds of the result, if there is one.
abbrev pub Ensures : (Parser → Type 0) → Parse Parser → Type 0
Ensures P (ok p) = P p
Ensures P (fatal why line) = Unit {0}

-- An entry that keeps being announced.
first-modify :
    (cs : List Client) (i : ℕ) (f : Client → Client)
    → ((c : Client) → c.anounced ≡ true → (f c).anounced ≡ true)
    → ((c : Client) × (get_elem? cs 0 ≡ some c) × (c.anounced ≡ true))
    → (c : Client) × (get_elem? (modify cs i f) 0 ≡ some c) × (c.anounced ≡ true)
first-modify [] i f k (c, e, a) = absurd (cc)
first-modify (d ∷ cs) zero f k (c, e, a) = (f d, refl, k d (ground (arith, a)))
first-modify (d ∷ cs) (suc i) f k (c, e, a) = (d, refl, ground (arith, a))

pub Ensures-if :
    (P : Parser → Type 0) (b : Bool) (x y : Parse Parser)
    → (b ≡ true → Ensures P x)
    → (b ≡ false → Ensures P y)
    → Ensures P (if b then x else y)
Ensures-if P true x y h k = h refl
Ensures-if P false x y h k = k refl

inside_range : (low high v : ℤ) → outside low high v ≡ false → (low ≤ℤ v) × (v ≤ℤ high)
inside_range low high v e = ground arith

set_timeout-Announced :
    (v : ℕ) (c : Client)
    → (ltb v 5000 || ltb 300_000 v) ≡ false
    → Announced c
    → Announced (record c { timeout_ms = v })
set_timeout-Announced v c e a = record {
  slot = record {
    exclusive = a.slot.exclusive;
    id = a.slot.id;
    timeout_min = λ l. ground (arith, e);
    timeout_max = λ l. ground (arith, e);
    name_fits = a.slot.name_fits;
    name_bytes = a.slot.name_bytes;
  };
  inactive = a.inactive;
}

announce-Announced :
    (entropy : Entropy) (now : Timespec) (name : Bytes) (c : Client)
    → length name ≤ 63
    → Announced c
    → Announced (announce entropy now name c)
unfolding announce
announce-Announced entropy now name c h a = record {
  slot = record {
    exclusive = refl;
    id = λ l. make_client_id-IsClientId entropy;
    timeout_min = λ l. omega arith;
    timeout_max = λ l. omega arith;
    name_fits = λ l. omega (arith, ap length (take-eq_self client_name_len name (omega arith)));
    name_bytes = λ l. absurd (cc);
  };
  inactive = refl;
}

module _ (build : Build) where
  set_timeout_ms-ParserInv :
      (line : ℕ) (val : Bytes) (p : Parser)
      → ParserInv build p
      → Ensures (ParserInv build) (set_timeout_ms line val p)
  unfolding set_timeout_ms
  set_timeout_ms-ParserInv line val p v =
      let t = to_unsigned (atoi val) in
      Ensures-if (ParserInv build) (p.client_count == 0) _ _ (λ e. tt)
        λ e.
          Ensures-if (ParserInv build) (ltb t 5000 || ltb 300_000 t) _ _ (λ f. tt)
            λ f. record {
              wd_min = v.wd_min;
              wd_max = v.wd_max;
              reboot_min = v.reboot_min;
              reboot_max = v.reboot_max;
              slots =
                  All-modify Announced p.clients (p.client_count - 1) _
                    (λ c g. set_timeout-Announced t c f) v.slots;
              size = length-modify p.clients (p.client_count - 1) _ ∙ v.size;
              count = v.count;
              first = elim v.first [
                | inl z ↦ inl z
                | inr a ↦ inr (first-modify p.clients (p.client_count - 1) _ (λ c h. h) a)
              ];
            }

  -- Only the configuration changes, and its times stay in range.
  with_config :
      (p : Parser) (c : Config)
      → ParserInv build p
      → (wd_hw_timeout_min_s ≤ℤ c.wd_timeout_s) × (c.wd_timeout_s ≤ℤ wd_hw_timeout_max_s)
      → (wd_reboot_timeout_min_s ≤ℤ c.reboot_timeout_s)
        × (c.reboot_timeout_s ≤ℤ wd_reboot_timeout_max_s)
      → ParserInv build (record p { config = c })
  with_config p c v w r = record {
    wd_min = w.0;
    wd_max = w.1;
    reboot_min = r.0;
    reboot_max = r.1;
    slots = v.slots;
    size = v.size;
    count = v.count;
    first = v.first;
  }

  set_strict-ParserInv :
      (line : ℕ) (b : Option Bool) (p : Parser)
      → ParserInv build p
      → Ensures (ParserInv build) (set_strict line b p)
  unfolding set_strict
  set_strict-ParserInv line none p v = tt
  set_strict-ParserInv line (some b) p v =
      with_config p _ v (v.wd_min, v.wd_max) (v.reboot_min, v.reboot_max)

  set_unique-ParserInv :
      (line : ℕ) (b : Option Bool) (p : Parser)
      → ParserInv build p
      → Ensures (ParserInv build) (set_unique line b p)
  unfolding set_unique
  set_unique-ParserInv line none p v = tt
  set_unique-ParserInv line (some b) p v =
      with_config p _ v (v.wd_min, v.wd_max) (v.reboot_min, v.reboot_max)

  pub set_option-ParserInv :
      (line : ℕ) (key val : Bytes) (p : Parser)
      → ParserInv build p
      → Ensures (ParserInv build) (set_option build line key val p)
  unfolding set_option
  set_option-ParserInv line key val p v =
      let P = ParserInv build in
      let a = atoi val in
      Ensures-if P (str_eq key (codes "socket_path")) _ _
        (λ e. with_config p _ v (v.wd_min, v.wd_max) (v.reboot_min, v.reboot_max))
        λ e.
          Ensures-if P (str_eq key (codes "wd_timeout_s")) _ _
            (λ e.
              Ensures-if P (outside wd_hw_timeout_min_s wd_hw_timeout_max_s a) _ _ (λ f. tt)
                λ f.
                  with_config p _ v (inside_range wd_hw_timeout_min_s wd_hw_timeout_max_s a f)
                    (v.reboot_min, v.reboot_max))
            λ e.
              Ensures-if P (str_eq key (codes "reboot_timeout_s")) _ _
                (λ e.
                  Ensures-if P (outside wd_reboot_timeout_min_s wd_reboot_timeout_max_s a) _ _
                    (λ f. tt)
                    λ f.
                      with_config p _ v (v.wd_min, v.wd_max)
                        (inside_range wd_reboot_timeout_min_s wd_reboot_timeout_max_s a f))
                λ e.
                  Ensures-if P (str_eq key (codes "strict_clients")) _ _
                    (λ e. set_strict-ParserInv line _ p v)
                    λ e.
                      Ensures-if P (str_eq key (codes "unique_clients")) _ _
                        (λ e. set_unique-ParserInv line _ p v)
                        λ e.
                          Ensures-if P (str_eq key (codes "timeout_ms")) _ _
                            (λ e. set_timeout_ms-ParserInv line val p v) λ e. tt

  -- The slot that a section fills is there.
  get_elem?-below :
      (cs : List Client) (i : ℕ) → i < length cs → (c : Client) × (get_elem? cs i ≡ some c)
  get_elem?-below [] i h = absurd (omega arith)
  get_elem?-below (c ∷ cs) zero h = (c, refl)
  get_elem?-below (c ∷ cs) (suc i) h = get_elem?-below cs i (omega arith)

  first-add :
      (f : Client → Client) (cs : List Client) (i : ℕ)
      → i < length cs
      → ((c : Client) → (f c).anounced ≡ true)
      → (i ≡ 0) ⊎ ((c : Client) × (get_elem? cs 0 ≡ some c) × (c.anounced ≡ true))
      → (c : Client) × (get_elem? (modify cs i f) 0 ≡ some c) × (c.anounced ≡ true)
  first-add f [] i h k a = absurd (omega arith)
  first-add f (c ∷ cs) zero h k a = (f c, refl, k c)
  first-add f (c ∷ cs) (suc i) h k (inl e) = absurd (omega arith)
  first-add f (c ∷ cs) (suc i) h k (inr (d, e, a)) = (c, refl, ground (arith, a))

  pub add_client-ParserInv :
      (world : World) (line : ℕ) (trimmed name : Bytes) (p : Parser)
      → length name ≤ 63
      → ParserInv build p
      → Ensures (ParserInv build) (add_client world build line trimmed name p)
  unfolding add_client
  add_client-ParserInv world line trimmed name p short v =
      let i = p.client_count in
      let f = announce (world.entropy i) (world.now i) name in
      Ensures-if (ParserInv build) (leb build.max_clients i) _ _ (λ e. tt)
        λ room.
          Ensures-if (ParserInv build) (ltb 9 (length trimmed - length name)) _ _ (λ e. tt)
            λ e. record {
              wd_min = v.wd_min;
              wd_max = v.wd_max;
              reboot_min = v.reboot_min;
              reboot_max = v.reboot_max;
              slots =
                  All-modify Announced p.clients i f
                    (λ c g. announce-Announced (world.entropy i) (world.now i) name c short)
                    v.slots;
              size = length-modify p.clients i f ∙ v.size;
              count = ground (arith, room);
              first = inr (
                  first-add f p.clients i (ground (arith, room, v.size))
                    (λ c. unfold announce in refl) v.first);
            }
