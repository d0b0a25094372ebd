-- ===== src/Status.antt =====
-- The replies to STATUS and VERSION in `handle_command` of src/wd-broker.c, as the buffers of 4096
-- and 128 bytes hold them.
pub mod Laws
pub mod Bounds
pub mod Exact
use wd_broker.Prelude.{ℕ, suc, Bool, ◌||◌, List, [], ◌∷◌, ◌++◌, if◌then◌else◌}
use wd_broker.Text.{Bytes, codes}
use wd_broker.Print.{
  print_nat, print_int, Message, empty_message, snprintf_at, Reply, write_message,
}
use wd_broker.Common.{socket_prot_version}
use wd_broker.Client.{Client, Config}

abbrev pub true_or_false : Bool → Bytes
true_or_false b = if b then codes "true" else codes "false"

abbrev pub line : Bytes → Bytes → Bytes
line key value = key ++ value ++ codes "\n"

unfoldable pub count_active : List Client → ℕ
count_active [] = 0
count_active (c ∷ cs) = let rest = count_active cs in if c.active then suc rest else rest

-- The lines before those of the clients.
unfoldable pub status_header : Bytes → Config → List Client → List Bytes
status_header version config clients =
    line (codes "daemon_version=") version
    ∷ line (codes "protocol_version=") socket_prot_version
    ∷ line (codes "wd_timeout_s=") (print_int config.wd_timeout_s)
    ∷ line (codes "reboot_timeout_s=") (print_int config.reboot_timeout_s)
    ∷ line (codes "strict_clients=") (true_or_false config.strict_clients)
    ∷ line (codes "unique_clients=") (true_or_false config.unique_clients)
    ∷ line (codes "active_clients=") (print_nat (count_active clients))
    ∷ []

-- "%s %d %s %u %d\n"
unfoldable pub client_line : Client → Bytes
client_line c =
    c.client_id
    ++ codes " "
    ++ print_nat c.pid
    ++ codes " "
    ++ c.name
    ++ codes " "
    ++ print_nat c.timeout_ms
    ++ (if c.check_pid then codes " 1\n" else codes " 0\n")

unfoldable pub client_lines : List Client → List Bytes
client_lines [] = []
client_lines (c ∷ cs) =
    let rest = client_lines cs in if c.active || c.anounced then client_line c ∷ rest else rest

-- One `snprintf` for each line.
unfoldable pub print_lines : ℕ → List Bytes → Message → Message
print_lines cap [] m = m
print_lines cap (l ∷ ls) m = print_lines cap ls (snprintf_at cap l m)

unfoldable pub status_reply : Bytes → Config → List Client → Reply
status_reply version config clients =
    write_message 4096 (
      print_lines 4096 (status_header version config clients ++ client_lines clients) empty_message)

unfoldable pub version_reply : Bytes → Reply
version_reply version = write_message 128 (
    print_lines 128
      (line (codes "wd-broker_version=") version
        ∷ line (codes "protocol_version=") socket_prot_version
        ∷ [])
      empty_message)
