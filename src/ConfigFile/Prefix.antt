-- ===== src/ConfigFile/Prefix.antt =====
-- The announced clients of an accepted configuration file stand at the front of the table.
use mathlib.Core.List.{append_assoc}
use mathlib.Core.Path.{subst}
use wd_broker.Prelude.{
  ℕ, zero, suc, ◌+◌, ◌-◌, ◌<◌, ◌≡◌, refl, sym, ap, ◌∙◌, inl, inr, Bool, true, false, ◌||◌, ◌==◌,
  ltb, if◌then◌else◌, leb, Option, none, some, List, [], ◌∷◌, ◌++◌, arith, length, length-append,
  length-modify, replicate, modify, modify-append, Option-cases,
}
use wd_broker.Text.{Bytes, codes, str_eq, c_string}
use wd_broker.Scan.{atoi}
use wd_broker.Client.{Client, Config, zero_client}
use wd_broker.ConfigText.{trim, scan_key_value, scan_section}
use wd_broker.Heartbeat.{to_unsigned}
use wd_broker.ConfigFile.Steps.{Ensures, Ensures-if}
use wd_broker.ConfigFile.Announced.{
  IsAnnounced, AnnouncedFrom, AnnouncedFrom-modify, AnnouncedFrom-append,
}
use wd_broker.ConfigFile.Keeps.{parse_config-Ensures}
use wd_broker.ConfigFile.{
  Build, World, Parser, Parse, ok, outside, set_timeout_ms, set_strict, set_unique, set_option,
  announce, add_client, is_comment, parse_line, parse_config, wd_hw_timeout_min_s,
  wd_hw_timeout_max_s, wd_reboot_timeout_min_s, wd_reboot_timeout_max_s,
}

-- `client_count` announced clients, and then slots that were never used.
pub record Prefixed (world : World) (build : Build) (p : Parser) : Type 0 where
  pub front : List Client
  pub rest : ℕ
  pub table : p.clients ≡ front ++ replicate rest zero_client
  pub count : length front ≡ p.client_count
  pub announced : AnnouncedFrom world 0 front
  pub size : length front + rest ≡ build.max_clients

-- A change of a slot at the front.
modify-front :
    {A : Type 0} (xs ys : List A) (i : ℕ) (f : A → A)
    → i < length xs
    → modify (xs ++ ys) i f ≡ modify xs i f ++ ys
modify-front [] ys i f h = absurd (omega arith)
modify-front (x ∷ xs) ys zero f h = refl
modify-front (x ∷ xs) ys (suc i) f h = ap (◌∷◌ x) (modify-front xs ys i f (omega arith))

module _ (world : World) (build : Build) where
  set_timeout_ms-Prefixed :
      (line : ℕ) (val : Bytes) (p : Parser)
      → Prefixed world build p
      → Ensures (Prefixed world build) (set_timeout_ms line val p)
  unfolding set_timeout_ms
  set_timeout_ms-Prefixed line val p h =
      let t = to_unsigned (atoi val) in
      let i = p.client_count - 1 in
      Ensures-if (Prefixed world build) (p.client_count == 0) _ _ (λ e. tt)
        λ e.
          Ensures-if (Prefixed world build) (ltb t 5000 || ltb 300_000 t) _ _ (λ f. tt)
            λ f. record {
              front = modify h.front i (λ c. record c { timeout_ms = t });
              rest = h.rest;
              table =
                  ap (λ cs. modify cs i (λ c. record c { timeout_ms = t })) h.table
                  ∙ modify-front h.front (replicate h.rest zero_client) i _
                      (ground (arith, e, h.count));
              count = length-modify h.front i _ ∙ h.count;
              announced = AnnouncedFrom-modify world h.front 0 i t h.announced;
              size = ap (λ (k : ℕ). k + h.rest) (length-modify h.front i _) ∙ h.size;
            }

  with_config-Prefixed :
      (p : Parser) (c : Config)
      → Prefixed world build p
      → Prefixed world build (record p { config = c })
  with_config-Prefixed p c h = record {
    front = h.front;
    rest = h.rest;
    table = h.table;
    count = h.count;
    announced = h.announced;
    size = h.size;
  }

  set_flags-Prefixed :
      (line : ℕ) (b : Option Bool) (p : Parser)
      → Prefixed world build p
      → Ensures (Prefixed world build) (set_strict line b p)
        × Ensures (Prefixed world build) (set_unique line b p)
  unfolding set_strict set_unique
  set_flags-Prefixed line none p h = (tt, tt)
  set_flags-Prefixed line (some b) p h = (with_config-Prefixed p _ h, with_config-Prefixed p _ h)

  if-Prefixed :
      (b : Bool) (x y : Parse Parser)
      → Ensures (Prefixed world build) x
      → Ensures (Prefixed world build) y
      → Ensures (Prefixed world build) (if b then x else y)
  if-Prefixed true x y h k = h
  if-Prefixed false x y h k = k

  set_option-Prefixed :
      (line : ℕ) (key val : Bytes) (p : Parser)
      → Prefixed world build p
      → Ensures (Prefixed world build) (set_option build line key val p)
  unfolding set_option
  set_option-Prefixed line key val p h =
      let a = atoi val in
      let kept = λ (c : Config). with_config-Prefixed p c h in
      if-Prefixed (str_eq key (codes "socket_path")) _ _ (kept _) (
        if-Prefixed (str_eq key (codes "wd_timeout_s")) _ _
          (if-Prefixed (outside wd_hw_timeout_min_s wd_hw_timeout_max_s a) _ _ tt (kept _))
          (if-Prefixed (str_eq key (codes "reboot_timeout_s")) _ _
            (if-Prefixed (outside wd_reboot_timeout_min_s wd_reboot_timeout_max_s a) _ _ tt
              (kept _))
            (if-Prefixed (str_eq key (codes "strict_clients")) _ _ (set_flags-Prefixed line _ p h).0
              (if-Prefixed (str_eq key (codes "unique_clients")) _ _
                (set_flags-Prefixed line _ p h).1
                (if-Prefixed (str_eq key (codes "timeout_ms")) _ _
                  (set_timeout_ms-Prefixed line val p h) tt)))))

  add_client-Prefixed :
      (line : ℕ) (trimmed name : Bytes) (p : Parser)
      → Prefixed world build p
      → Ensures (Prefixed world build) (add_client world build line trimmed name p)
  unfolding add_client
  add_client-Prefixed line trimmed name p h =
      let i = p.client_count in
      Ensures-if (Prefixed world build) (leb build.max_clients i) _ _ (λ e. tt)
        λ room. if-Prefixed (ltb 9 (length trimmed - length name)) _ _ tt (
          added (announce (world.entropy i) (world.now i) name)
            (λ c. unfold announce in (refl, refl)) h.rest refl (ground (arith, room)))
    where
      added :
          (f : Client → Client)
          → ((c : Client) → IsAnnounced (f c) × ((f c).last_ping ≡ world.now p.client_count))
          → (n : ℕ) → h.rest ≡ n
          → p.client_count < build.max_clients
          → Prefixed world build (record p {
            clients = modify p.clients p.client_count f;
            client_count = p.client_count + 1;
          })
      added f a zero e room = absurd (omega (arith, e, room, h.count, h.size))
      added f a (suc n) e room = record {
        front = h.front ++ (f zero_client ∷ []);
        rest = n;
        table =
            ap (λ cs. modify cs p.client_count f)
              (h.table ∙ ap (λ (k : ℕ). h.front ++ replicate k zero_client) e)
            ∙ ap (λ (k : ℕ). modify (h.front ++ (zero_client ∷ replicate n zero_client)) k f)
                (sym h.count)
            ∙ modify-append h.front (replicate n zero_client) zero_client f
            ∙ sym (append_assoc h.front (f zero_client ∷ []) (replicate n zero_client));
        count = omega (arith, length-append h.front (f zero_client ∷ []), h.count);
        announced =
            AnnouncedFrom-append world h.front 0 (f zero_client) h.announced (a zero_client).0
              ((a zero_client).1 ∙ ap world.now (omega (arith, h.count)));
        size = omega (arith, length-append h.front (f zero_client ∷ []), h.size, e);
      }

  parse_line-Prefixed :
      (line : ℕ) (text : Bytes) (p : Parser)
      → Prefixed world build p
      → Ensures (Prefixed world build) (parse_line world build line text p)
  unfolding parse_line
  parse_line-Prefixed line text p h =
      let t = trim (c_string text) in
      if-Prefixed (is_comment t) _ _ h (elim (Option-cases (scan_key_value t)) [
        | inr ((key, val), k) ↦ rw k (set_option-Prefixed line (trim key) (trim val) p h)
        | inl k ↦ elim (Option-cases (scan_section t)) [
          | inr ((name, left), s) ↦ rw (k, s) (add_client-Prefixed line t name p h)
          | inl s ↦ rw (k, s) tt
        ]
      ])

-- If the file is accepted, its client sections fill the front of the table, and the rest is unused.
pub parse_config-Prefixed :
    (world : World) (build : Build) (file : Option Bytes) (p : Parser)
    → parse_config world build file ≡ ok p
    → Prefixed world build p
parse_config-Prefixed world build file p e = subst (Ensures (Prefixed world build)) e (
    parse_config-Ensures world build (Prefixed world build) (parse_line-Prefixed world build) file
      (record {
        front = [];
        rest = build.max_clients;
        table = refl;
        count = refl;
        announced = tt;
        size = omega arith;
      }))
