-- ===== src/Slots.antt =====
-- The searches in the client table: `get_clientInstance_by_name` and
-- `get_clientInstance_by_clientID` of src/wd-broker.c. A pointer to a slot is the slot's index; the
-- table has WD_MAX_CLIENTS slots, a number of the build, so its length stands for that number.
pub mod First
pub mod ByName
pub mod ById
use wd_broker.Prelude.{
  ℕ, suc, Bool, false, not, ◌&&◌, ◌||◌, Option, none, some, List, [], ◌∷◌, ◌==◌, if◌then◌else◌,
}
use wd_broker.Text.{Bytes, str_eq, strncmp_eq}
use wd_broker.Client.{Client, Config, clientid_fmt_len}

-- The loop that `unique_clients` adds.
unfoldable pub name_in_use : List Client → Bytes → Bool
name_in_use [] name = false
name_in_use (c ∷ cs) name = (c.active && str_eq c.name name) || name_in_use cs name

-- An announced, inactive slot with this name.
abbrev pub is_announced_for : Bytes → Client → Bool
is_announced_for name c = c.anounced && not c.active && str_eq c.name name

abbrev pub is_free : Client → Bool
is_free c = not c.anounced && not c.active

pub record SlotScan : Type 0 where
  pub announced_slot : Option ℕ
  pub free_slot : Option ℕ

abbrev pub first_of_two : Option ℕ → Bool → ℕ → Option ℕ
first_of_two (some k) here i = some k
first_of_two none here i = if here then some i else none

-- The main loop, at slot `i`, with the free slot found so far.
unfoldable pub scan_slots : Bytes → List Client → ℕ → Option ℕ → SlotScan
scan_slots name [] i free = record { announced_slot = none; free_slot = free }
scan_slots name (c ∷ cs) i free =
    let rest = scan_slots name cs (suc i) (first_of_two free (is_free c) i) in
    if is_announced_for name c then record { announced_slot = some i; free_slot = free } else rest

abbrev pub or_else : Option ℕ → Option ℕ → Option ℕ
or_else (some k) other = some k
or_else none other = other

unfoldable pub get_client_instance_by_name : Config → List Client → Bytes → Option ℕ
unfolding name_in_use scan_slots
get_client_instance_by_name config clients name =
    let scan = scan_slots name clients 0 none in
    if config.unique_clients && name_in_use clients name
    then none
    else if config.strict_clients
    then scan.announced_slot
    else or_else scan.announced_slot scan.free_slot

pub data Identification : Type 0 where
  identified : ℕ → Identification
  pid_mismatch : ℕ → Identification
  not_found : Identification

abbrev pub is_live : Client → Bool
is_live c = c.active || c.anounced

abbrev pub has_id : Bytes → Client → Bool
has_id client_id c = is_live c && strncmp_eq c.client_id client_id clientid_fmt_len

unfoldable pub identify_from : List Client → Bytes → ℕ → ℕ → Identification
identify_from [] client_id pid i = not_found
identify_from (c ∷ cs) client_id pid i =
    let rest = identify_from cs client_id pid (suc i) in
    if has_id client_id c
    then if not c.check_pid || c.pid == pid then identified i else pid_mismatch i
    else rest

unfoldable pub get_client_instance_by_client_id : List Client → Bytes → ℕ → Identification
unfolding identify_from
get_client_instance_by_client_id clients client_id pid = identify_from clients client_id pid 0
