-- ===== src/Ctrl/Reported.antt =====
-- The settings that `wd-ctrl status` prints, from the first lines of the broker's reply.
use mathlib.Core.Path.{ap₂}
use wd_broker.Prelude.{
  ℕ, zero, suc, ◌≤◌, ◌≡◌, ◌≢◌, refl, inr, true, not, some, List, [], ◌∷◌, ◌++◌, ◌==◌, arith, All,
  map, length, take, drop,
}
use wd_broker.Text.{Bytes, codes, all_bytes, is_print, is_space}
use wd_broker.Scan.{not_space, skip_spaces, span_taken, span_left, scan_set, scan_word}
use wd_broker.Scan.Laws.{scan_set-append}
use wd_broker.Print.{print_nat, print_int}
use wd_broker.Status.{true_or_false, count_active}
use wd_broker.Client.{Client, Config}
use wd_broker.Handler.{valid_name_byte}
use wd_broker.Ctrl.Lines.{IsSolid}
use wd_broker.Ctrl.Reply.{
  header_texts, all_bytes-weaken, valid-not_space, print_nat-valid, print_int-valid,
  true_or_false-valid,
}
use wd_broker.Ctrl.{Shown, setting, scan_setting_value, print_setting}

-- What the broker reports of itself, by name.
abbrev pub settings : Bytes → Config → List Client → List (Bytes × Bytes)
settings version config clients =
    (codes "daemon_version", version)
    ∷ (codes "protocol_version", codes "1.0")
    ∷ (codes "wd_timeout_s", print_int config.wd_timeout_s)
    ∷ (codes "reboot_timeout_s", print_int config.reboot_timeout_s)
    ∷ (codes "strict_clients", true_or_false config.strict_clients)
    ∷ (codes "unique_clients", true_or_false config.unique_clients)
    ∷ (codes "active_clients", print_nat (count_active clients))
    ∷ []

-- A setting with its value, up to 63 bytes of it; without a value nothing.
abbrev pub shown_setting : Bytes → Bytes → List Shown
shown_setting key [] = []
shown_setting key (c ∷ value) = setting key (take 63 (c ∷ value)) ∷ []

abbrev pub shown_settings : List (Bytes × Bytes) → List Shown
shown_settings [] = []
shown_settings ((key, value) ∷ more) = shown_setting key value ++ shown_settings more

-- What is printed of these lines.
abbrev pub printed_settings : List Bytes → List Shown
printed_settings [] = []
printed_settings (t ∷ ts) = print_setting t ++ printed_settings ts

scan_word-IsSolid :
    (n : ℕ) (c : ℕ) (s : Bytes)
    → IsSolid (c ∷ s)
    → scan_word (suc n) (c ∷ s) ≡ some (take (suc n) (c ∷ s), drop (suc n) (c ∷ s))
unfolding scan_word scan_set skip_spaces span_taken span_left all_bytes
scan_word-IsSolid n c s h = ground (arith, taken n s (ground arith), rest n s (ground arith))
  where
    taken : (m : ℕ) (t : Bytes) → IsSolid t → span_taken not_space m t ≡ take m t
    taken zero t k = refl
    taken (suc m) [] k = refl
    taken (suc m) (d ∷ t) k = ground (arith, taken m t (ground arith))

    rest : (m : ℕ) (t : Bytes) → IsSolid t → span_left not_space m t ≡ drop m t
    rest zero t k = refl
    rest (suc m) [] k = refl
    rest (suc m) (d ∷ t) k = ground (arith, rest m t (ground arith))

print_setting-shown_setting :
    (key value : Bytes)
    → key ≢ []
    → length key ≤ 63
    → all_bytes (λ c. not (c == b'=')) key ≡ true
    → IsSolid value
    → print_setting (key ++ (b'=' ∷ value)) ≡ shown_setting key value
unfolding print_setting scan_setting_value
print_setting-shown_setting key value n l e h =
    rw
      (print_setting, scan_set-append (λ c. not (c == b'=')) 63 key (b'=' ∷ value) n l e (inr refl))
      (go value h)
  where
    go : (v : Bytes) → IsSolid v → scan_setting_value key (b'=' ∷ v) ≡ shown_setting key v
    go [] k = unfold scan_word in refl
    go (c ∷ v) k = rw (scan_word-IsSolid 62 c v k) refl

solid : (t : Bytes) → all_bytes valid_name_byte t ≡ true → IsSolid t
solid t h = all_bytes-weaken valid_name_byte not_space t valid-not_space h

-- What the scan needs of a setting.
record IsSetting (pair : Bytes × Bytes) : Type 0 where
  key_there : pair.0 ≢ []
  key_fits : length pair.0 ≤ 63
  key_bytes : all_bytes (λ c. not (c == b'=')) pair.0 ≡ true
  is_solid : IsSolid pair.1

abbrev setting_text : Bytes × Bytes → Bytes
setting_text (key, value) = key ++ (b'=' ∷ value)

printed_settings-map :
    (pairs : List (Bytes × Bytes))
    → All IsSetting pairs
    → printed_settings (map setting_text pairs) ≡ shown_settings pairs
printed_settings-map [] h = refl
printed_settings-map ((key, value) ∷ pairs) h =
    ap₂ (λ (xs : List Shown) ys. xs ++ ys)
      (print_setting-shown_setting key value h.0.key_there h.0.key_fits h.0.key_bytes h.0.is_solid)
      (printed_settings-map pairs h.1)

key-IsSetting :
    (c : ℕ) (key value : Bytes)
    → length key ≤ 62
    → all_bytes (λ c. not (c == b'=')) (c ∷ key) ≡ true
    → all_bytes valid_name_byte value ≡ true
    → IsSetting (c ∷ key, value)
key-IsSetting c key value l e h = record {
  key_there = λ n. absurd (cc);
  key_fits = omega arith;
  key_bytes = e;
  is_solid = solid value h;
}

-- The lines in front of the clients' are printed as the settings that they hold.
pub printed_settings-shown_settings :
    (version : Bytes) (config : Config) (clients : List Client)
    → all_bytes valid_name_byte version ≡ true
    → printed_settings (header_texts version config clients)
      ≡ shown_settings (settings version config clients)
unfolding all_bytes is_print is_space
printed_settings-shown_settings version config clients valid =
    printed_settings-map (settings version config clients) (
      key-IsSetting _ _ version (omega arith) refl valid,
      (
        key-IsSetting _ _ (codes "1.0") (omega arith) refl refl,
        (
          key-IsSetting _ _ (print_int config.wd_timeout_s) (omega arith) refl
              (print_int-valid config.wd_timeout_s),
          (
            key-IsSetting _ _ (print_int config.reboot_timeout_s) (omega arith) refl
                (print_int-valid config.reboot_timeout_s),
            (
              key-IsSetting _ _ (true_or_false config.strict_clients) (omega arith) refl
                  (true_or_false-valid config.strict_clients),
              (
                key-IsSetting _ _ (true_or_false config.unique_clients) (omega arith) refl
                    (true_or_false-valid config.unique_clients),
                (
                  key-IsSetting _ _ (print_nat (count_active clients)) (omega arith) refl
                      (print_nat-valid (count_active clients)),
                  tt,
                ),
              ),
            ),
          ),
        ),
      ),
    )
