-- ===== src/Settings/Sections.antt =====
-- The sections of a printed file, which fill the client table of src/wd-broker.c in their order.
use mathlib.Core.List.{append_assoc}
use wd_broker.Prelude.{
  modify-append, ℕ, zero, suc, ◌+◌, ◌-◌, ◌≤◌, ◌<◌, ◌≡◌, sym, ap, ◌∙◌, List, [], ◌∷◌, ◌++◌, map,
  arith, All, length, length-append, replicate, modify,
}
use wd_broker.Text.{Bytes, codes}
use wd_broker.Print.{print_nat}
use wd_broker.Client.{Client, Config, zero_client}
use wd_broker.ConfigFile.{Build, World, Parser, ok, parse_line, parse_lines, announce}
use wd_broker.Settings.{
  Announced, option_line, section_line, client_lines, announced_slots, IsAnnounced,
}
use wd_broker.Settings.Options.{parse_lines-cons, name_line, timeout_line}

abbrev pub ended : List Bytes → List Bytes
ended = map (λ l. l ++ codes "\n")

-- The parser in front of a section, and behind a section's first line.
abbrev pub in_front : Config → List Client → ℕ → Parser
in_front config read n = record {
  config = config;
  clients = read ++ replicate n zero_client;
  client_count = length read;
}

abbrev within : Config → List Client → Client → ℕ → Parser
within config read c n = record {
  config = config;
  clients = read ++ (c ∷ replicate n zero_client);
  client_count = length read + 1;
}

module _ (world : World) (build : Build) (config : Config) where
  enters :
      (line n : ℕ) (read : List Client) (c : Announced)
      → IsAnnounced c
      → length read < build.max_clients
      → parse_line world build line
          (section_line c.name ++ codes "\n")
          (in_front config read (suc n))
        ≡ ok (
            within config read
              (announce (world.entropy (length read)) (world.now (length read)) c.name zero_client)
              n)
  enters line n read c a room =
      name_line world build line (in_front config read (suc n)) c.name a.named a.fits a.bytes room
      ∙ ap (λ xs. ok (record { config = config; clients = xs; client_count = length read + 1 }))
          (modify-append read (replicate n zero_client) zero_client
            (announce (world.entropy (length read)) (world.now (length read)) c.name))

  leaves :
      (line n : ℕ) (read : List Client) (c : Announced) (x : Client)
      → IsAnnounced c
      → parse_line world build line
          (option_line (codes "timeout_ms") (print_nat c.timeout_ms) ++ codes "\n")
          (within config read x n)
        ≡ ok (in_front config (read ++ (record x { timeout_ms = c.timeout_ms } ∷ [])) n)
  leaves line n read c x a =
      let f = λ (d : Client). record d { timeout_ms = c.timeout_ms } in
      timeout_line world build line (within config read x n) c.timeout_ms a.timeout_min
        a.timeout_max (omega arith)
      ∙ ap
          (λ (i : ℕ). ok (record {
            config = config;
            clients = modify (read ++ (x ∷ replicate n zero_client)) i f;
            client_count = length read + 1;
          }))
          (omega arith)
      ∙ ap (λ xs. ok (record { config = config; clients = xs; client_count = length read + 1 }))
          (modify-append read (replicate n zero_client) x f
            ∙ sym (append_assoc read (f x ∷ []) (replicate n zero_client)))
      ∙ ap
          (λ (i : ℕ). ok (record {
            config = config;
            clients = (read ++ (f x ∷ [])) ++ replicate n zero_client;
            client_count = i;
          }))
          (sym (length-append read (f x ∷ [])))

  pub clients_read :
      (cs : List Announced) (read : List Client) (n line : ℕ)
      → All IsAnnounced cs
      → length cs ≤ n
      → length read + n ≤ build.max_clients
      → parse_lines world build line (ended (client_lines cs)) (in_front config read n)
        ≡ ok (record {
          config = config;
          clients =
              read
              ++ (announced_slots world (length read) cs ++ replicate (n - length cs) zero_client);
          client_count = length read + length cs;
        })
  unfolding parse_lines
  clients_read [] read n line a h room =
      ap (λ (m : ℕ). ok (in_front config read m)) (omega arith)
      ∙ ap
          (λ (i : ℕ). ok (record {
            config = config;
            clients = read ++ replicate (n - 0) zero_client;
            client_count = i;
          }))
          (omega arith)
  clients_read (c ∷ cs) read zero line a h room = absurd (omega arith)
  clients_read (c ∷ cs) read (suc n) line a h room =
      let i = length read in
      let x = announce (world.entropy i) (world.now i) c.name zero_client in
      let y : Client = record x { timeout_ms = c.timeout_ms } in
      let read' = read ++ (y ∷ []) in
      let longer : length read' ≡ suc i = length-append read (y ∷ []) ∙ omega arith in
      let rest = announced_slots world (suc i) cs ++ replicate (n - length cs) zero_client in
      parse_lines-cons world build line (section_line c.name ++ codes "\n")
        (ended (option_line (codes "timeout_ms") (print_nat c.timeout_ms) ∷ client_lines cs))
        (in_front config read (suc n)) (within config read x n)
        (enters (suc line) n read c a.0 (omega (arith, room)))
      ∙ parse_lines-cons world build (suc line)
          (option_line (codes "timeout_ms") (print_nat c.timeout_ms) ++ codes "\n")
          (ended (client_lines cs)) (within config read x n) (in_front config read' n)
          (leaves (suc (suc line)) n read c x a.0)
      ∙ clients_read cs read' n (suc (suc line)) a.1 (omega (arith, h))
          (omega (arith, longer, room))
      ∙ ap
          (λ (j : ℕ). ok (record {
            config = config;
            clients =
                read' ++ (announced_slots world j cs ++ replicate (n - length cs) zero_client);
            client_count = j + length cs;
          }))
          longer
      ∙ ap (λ xs. ok (record { config = config; clients = xs; client_count = suc i + length cs }))
          (append_assoc read (y ∷ []) rest)
      ∙ ap
          (λ (m : ℕ). ok (record {
            config = config;
            clients = read ++ (y ∷ (announced_slots world (suc i) cs ++ replicate m zero_client));
            client_count = suc i + length cs;
          }))
          (omega arith)
      ∙ ap
          (λ (k : ℕ). ok (record {
            config = config;
            clients =
                read
                ++ (y
                    ∷ (announced_slots world (suc i) cs
                        ++ replicate (suc n - suc (length cs)) zero_client));
            client_count = k;
          }))
          (omega arith)
