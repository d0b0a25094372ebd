-- ===== src/Tests/Searches.antt =====
-- Ids and slots on the sample table.
use wd_broker.Prelude.{◌≡◌, ◌↔◌, refl, true, false, some, [], ◌∷◌, arith}
use wd_broker.Text.{codes, str_eq}
use wd_broker.Slots.ByName.{Selects, get_client_instance_by_name-Selects}
use wd_broker.Slots.ById.{Identifies, get_client_instance_by_client_id-Identifies}
use wd_broker.Slots.{get_client_instance_by_name, get_client_instance_by_client_id}
use wd_broker.ClientId.{parsed, raw_bytes, make_client_id, parse_client_id}
use wd_broker.ClientId.Laws.{make_client_id-injective}
use wd_broker.ClientId.Exact.{IsIdText, parse_client_id-IsIdText}
use wd_broker.Tests.Data.{alpha, table, config, env}

get_client_instance_by_name-Selects_example :
    Selects
      (config false true)
      table
      (codes "gamma")
      (get_client_instance_by_name (config false true) table (codes "gamma"))
get_client_instance_by_name-Selects_example =
    get_client_instance_by_name-Selects (config false true) table (codes "gamma")

get_client_instance_by_client_id-Identifies_example :
    Identifies table alpha.client_id 200
      (get_client_instance_by_client_id table alpha.client_id 200)
get_client_instance_by_client_id-Identifies_example =
    get_client_instance_by_client_id-Identifies alpha.client_id 200 table

gamma_slot : get_client_instance_by_name (config false true) table (codes "gamma") ≡ some 2
unfolding get_client_instance_by_name str_eq
gamma_slot = refl

made_id : make_client_id env.entropy ≡ codes "01020304050607ff"
unfolding make_client_id
made_id = refl

mixed_case : parse_client_id (codes " 00112233445566FF\n") ≡ parsed (codes "00112233445566ff")
unfolding parse_client_id
mixed_case = refl

-- Upper case, and a line break behind it.
parse_client_id-IsIdText_example :
    (parse_client_id (codes " 00112233445566FF\n") ≡ parsed (codes "00112233445566ff"))
    ↔ IsIdText (codes " 00112233445566FF\n") (codes "00112233445566ff")
parse_client_id-IsIdText_example =
    parse_client_id-IsIdText (codes " 00112233445566FF\n") (codes "00112233445566ff")

make_client_id-injective_example : raw_bytes env.entropy ≡ 1 ∷ 2 ∷ 3 ∷ 4 ∷ 5 ∷ 6 ∷ 7 ∷ 255 ∷ []
unfolding raw_bytes
make_client_id-injective_example =
    make_client_id-injective env.entropy env.entropy (omega arith) (omega arith) refl
