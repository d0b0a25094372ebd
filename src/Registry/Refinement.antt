-- ===== src/Registry/Refinement.antt =====
-- `handle_command` of src/wd-broker.c as a step of the specification: what a command may do to the bag
-- of the clients, without slots.
use wd_broker.Prelude.{ℕ, ◌≡◌, ◌⊎◌, false, ◌++◌}
use wd_broker.Text.{Bytes, codes}
use wd_broker.Print.{print_int, Reply, sent, out_of_bounds, begins_ok}
use wd_broker.Common.{Incoming}
use wd_broker.Client.{Client, Config}
use wd_broker.ClientId.Exact.{IsIdText}
use wd_broker.Slots.ById.{HasId, MayUse}
use wd_broker.Handler.{Env, Creds, scan_register}
use wd_broker.Handler.Transition.{Asks, Accepted, Transition}
use wd_broker.Registry.{Registry, add, admit}
use wd_broker.Registry.Admission.{Registered}

-- Who may remove a client.
abbrev pub MayRemove : Config → Creds → Client → Type 0
MayRemove config creds c = (creds.uid ≡ 0) ⊎ ((config.strict_clients ≡ false) × MayUse creds.pid c)

-- What a command may do to a bag of clients, in a table of `capacity` slots.
pub data Change (env : Env) (creds : Creds) (incoming : Incoming) (config : Config) (capacity : ℕ)
    (r r' : Registry) (reply : Reply) : Type 0 where
  keeps :
      (text : Bytes)
      → begins_ok text ≡ false
      → reply ≡ sent text
      → r' ≡ r
      → Change env creds incoming config capacity r r' reply
  undefined :
      (args : Bytes)
      → Asks incoming (codes "STATUS") args ⊎ Asks incoming (codes "VERSION") args
      → reply ≡ out_of_bounds
      → Change env creds incoming config capacity r r' reply
  joins :
      (args : Bytes)
      → Asks incoming (codes "REGISTER ") args
      → Accepted (scan_register args)
      → Registered env creds
          (scan_register args)
          (admit config capacity r (scan_register args).name)
          r
          r'
          reply
      → Change env creds incoming config capacity r r' reply
  beats :
      (args id : Bytes) (c : Client) (s : Registry)
      → Asks incoming (codes "PING ") args
      → IsIdText args id
      → r ≡ add c s
      → HasId id c
      → MayUse creds.pid c
      → r' ≡ add (record c { last_ping = env.now }) s
      → reply ≡ sent (codes "OK\n")
      → Change env creds incoming config capacity r r' reply
  leaves :
      (args id : Bytes) (c : Client)
      → Asks incoming (codes "UNREGISTER ") args
      → IsIdText args id
      → r ≡ add c r'
      → HasId id c
      → MayRemove config creds c
      → reply ≡ sent (codes "OK\n")
      → Change env creds incoming config capacity r r' reply
  reboots :
      (args : Bytes)
      → Asks incoming (codes "REBOOT") args
      → creds.uid ≡ 0
      → r' ≡ r
      → reply ≡ sent (codes "OK, " ++ print_int config.reboot_timeout_s ++ codes "\n")
      → Change env creds incoming config capacity r r' reply
