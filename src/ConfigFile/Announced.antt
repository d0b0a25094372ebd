-- ===== src/ConfigFile/Announced.antt =====
-- The slots that the client sections of a configuration file fill.
use wd_broker.Prelude.{
  ℕ, zero, suc, ◌+◌, ◌≡◌, ap, ◌∙◌, true, some, List, [], ◌∷◌, ◌++◌, arith, All, length, replicate,
  modify, get_elem?,
}
use wd_broker.Client.{Client, zero_client}
use wd_broker.ConfigFile.{World}

abbrev pub IsAnnounced : Client → Type 0
IsAnnounced c = c.anounced ≡ true

-- Announced clients, each with the time at which its section was read as the last heartbeat.
abbrev pub AnnouncedFrom : World → ℕ → List Client → Type 0
AnnouncedFrom world i [] = Unit {0}
AnnouncedFrom world i (c ∷ cs) =
    (c.anounced ≡ true) × (c.last_ping ≡ world.now i) × AnnouncedFrom world (suc i) cs

module _ (world : World) where
  pub AnnouncedFrom-modify :
      (cs : List Client) (j i v : ℕ)
      → AnnouncedFrom world j cs
      → AnnouncedFrom world j (modify cs i (λ c. record c { timeout_ms = v }))
  AnnouncedFrom-modify [] j i v h = tt
  AnnouncedFrom-modify (c ∷ cs) j zero v h = h
  AnnouncedFrom-modify (c ∷ cs) j (suc i) v (a, t, h) =
      (a, t, AnnouncedFrom-modify cs (suc j) i v h)

  pub AnnouncedFrom-append :
      (cs : List Client) (i : ℕ) (c : Client)
      → AnnouncedFrom world i cs
      → c.anounced ≡ true
      → c.last_ping ≡ world.now (i + length cs)
      → AnnouncedFrom world i (cs ++ (c ∷ []))
  AnnouncedFrom-append [] i c h a t = (a, t ∙ ap world.now (omega arith), tt)
  AnnouncedFrom-append (d ∷ cs) i c (b, u, h) a t =
      (b, u, AnnouncedFrom-append cs (suc i) c h a (t ∙ ap world.now (omega arith)))

  pub AnnouncedFrom-IsAnnounced :
      (cs : List Client) (i : ℕ) → AnnouncedFrom world i cs → All IsAnnounced cs
  AnnouncedFrom-IsAnnounced [] i h = tt
  AnnouncedFrom-IsAnnounced (c ∷ cs) i (a, t, h) = (a, AnnouncedFrom-IsAnnounced cs (suc i) h)

  -- An announced client of a table is one of these, if what follows them was never used.
  pub AnnouncedFrom-get :
      (cs : List Client) (n i k : ℕ) (c : Client)
      → AnnouncedFrom world i cs
      → get_elem? (cs ++ replicate n zero_client) k ≡ some c
      → c.anounced ≡ true
      → c.last_ping ≡ world.now (i + k)
  AnnouncedFrom-get [] zero i k c h e a = absurd (cc)
  AnnouncedFrom-get [] (suc n) i zero c h e a = absurd (ground (arith, e, a))
  AnnouncedFrom-get [] (suc n) i (suc k) c h e a =
      AnnouncedFrom-get [] n (suc i) k c tt e a ∙ ap world.now (omega arith)
  AnnouncedFrom-get (d ∷ cs) n i zero c (b, t, h) e a = ground (arith, t, e, ap world.now zero_sum)
    where
      zero_sum : i ≡ i + 0
      zero_sum = omega arith
  AnnouncedFrom-get (d ∷ cs) n i (suc k) c (b, t, h) e a =
      AnnouncedFrom-get cs n (suc i) k c h e a ∙ ap world.now (omega arith)
