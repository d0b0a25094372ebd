-- ===== src/ClientId.antt =====
-- `make_clientID` and `parse_clientID` of src/wd-broker.c. The bytes of /dev/urandom and the
-- values of `random` come from outside and are arguments.
pub mod Laws
pub mod Exact
use wd_broker.Prelude.{
  ℕ, zero, suc, ◌/◌, ◌%◌, not, Option, none, some, [], ◌∷◌, map, ◌==◌, if◌then◌else◌, length,
  get_or,
}
use wd_broker.Text.{Bytes, codes, is_xdigit, to_lower, all_bytes}
use wd_broker.Scan.{scan_word}
use wd_broker.Client.{clientid_len, clientid_fmt_len}

-- `hex[d]`
unfoldable pub hex_digit : ℕ → ℕ
hex_digit d = get_or (codes "0123456789abcdef") d 0

-- What the sources of randomness give: `urandom` is what `read` returned, `none` if the device
-- could not be opened; `random i` is the i-th value after `srandom`.
pub record Entropy : Type 0 where
  pub urandom : Option Bytes
  pub random : ℕ → ℕ

abbrev raw_len : ℕ
raw_len = clientid_len / 2

random_bytes : (ℕ → ℕ) → ℕ → ℕ → Bytes
random_bytes random i zero = []
random_bytes random i (suc n) = random i % 256 ∷ random_bytes random (suc i) n

unfoldable pub raw_bytes : Entropy → Bytes
unfolding random_bytes
raw_bytes e = elim e.urandom [
  | none ↦ random_bytes e.random 0 raw_len
  | some bytes ↦ if length bytes == raw_len then bytes else random_bytes e.random 0 raw_len
]

unfoldable pub to_hex : Bytes → Bytes
unfolding hex_digit
to_hex [] = []
to_hex (b ∷ bs) = hex_digit (b / 16 % 16) ∷ hex_digit (b % 16) ∷ to_hex bs

unfoldable pub make_client_id : Entropy → Bytes
unfolding raw_bytes to_hex
make_client_id e = to_hex (raw_bytes e)

-- `parse_clientID`: the id, or the message that it writes.
pub data ParsedId : Type 0 where
  parsed : Bytes → ParsedId
  refused : Bytes → ParsedId

unfoldable pub check_client_id : Bytes → ParsedId
unfolding is_xdigit to_lower all_bytes
check_client_id raw =
    if not (length raw == clientid_fmt_len)
    then refused (codes "ERROR invalid clientID length\n")
    else if all_bytes is_xdigit raw
    then parsed (map to_lower raw)
    else refused (codes "ERROR invalid clientID format\n")

unfoldable pub parse_client_id : Bytes → ParsedId
unfolding scan_word check_client_id
parse_client_id args = elim (scan_word clientid_fmt_len args) [
  | none ↦ refused (codes "ERROR invalid syntax\n")
  | some (raw, left) ↦ elim (scan_word 15 left) [
    | none ↦ check_client_id raw
    | some extra ↦ refused (codes "ERROR invalid syntax\n")
  ]
]
