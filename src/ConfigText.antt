-- ===== src/ConfigText.antt =====
-- The text of the configuration file: `trim`, `fgets`, and the two formats that `parse_config` of
-- src/wd-broker.c scans lines with.
use wd_broker.Prelude.{
  ℕ, ◌-◌, not, ◌||◌, Option, none, some, List, [], ◌∷◌, ◌++◌, ◌==◌, if◌then◌else◌, drop,
}
use wd_broker.Text.{Bytes, codes, is_space, strncmp_eq}
use wd_broker.Scan.{skip_spaces, scan_set}

-- White space at the end goes; the first byte stays, and is none.
unfoldable pub keep_inner : ℕ → Bytes → Bytes
unfolding is_space
keep_inner c [] = if is_space c then [] else c ∷ []
keep_inner c (d ∷ ds) = c ∷ d ∷ ds

unfoldable pub trim_end : Bytes → Bytes
unfolding keep_inner
trim_end [] = []
trim_end (c ∷ cs) = keep_inner c (trim_end cs)

unfoldable pub trim : Bytes → Bytes
unfolding skip_spaces trim_end
trim s = trim_end (skip_spaces s)

-- The texts that `fgets` puts into a buffer of 256 bytes, in turn: up to a newline, or 255 bytes.
-- `room` is how many more bytes fit behind `current`.
unfoldable pub fgets_lines : Bytes → ℕ → Bytes → List Bytes
fgets_lines [] room [] = []
fgets_lines (d ∷ current) room [] = (d ∷ current) ∷ []
fgets_lines current room (c ∷ cs) =
    let ends = c == b'\n' || room == 1 in
    let rest =
      fgets_lines (if ends then [] else current ++ c ∷ []) (if ends then 255 else room - 1) cs in
    if ends then (current ++ c ∷ []) ∷ rest else rest

unfoldable pub read_lines : Bytes → List Bytes
unfolding fgets_lines
read_lines = fgets_lines [] 255

-- "%63[^=]=%127[^\n]", behind the key
unfoldable pub scan_value : Bytes → Bytes → Option (Bytes × Bytes)
scan_value key [] = none
scan_value key (c ∷ left) =
    if c == b'='
    then elim (scan_set (λ d. not (d == b'\n')) 127 left) [
      | none ↦ none
      | some (val, rest) ↦ some (key, val)
    ]
    else none

unfoldable pub scan_key_value : Bytes → Option (Bytes × Bytes)
unfolding scan_value
scan_key_value s = elim (scan_set (λ c. not (c == b'=')) 63 s) [
  | none ↦ none
  | some (key, left) ↦ scan_value key left
]

-- `sscanf(trimmed, "[client %63[^]]", name) == 1`
unfoldable pub scan_section : Bytes → Option (Bytes × Bytes)
scan_section s =
    if strncmp_eq s (codes "[client") 7
    then scan_set (λ c. not (c == b']')) 63 (skip_spaces (drop 7 s))
    else none
