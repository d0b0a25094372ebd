-- ===== src/Ctrl/Table.antt =====
-- `wd-ctrl status`: what it prints of the broker's table.
use wd_broker.Prelude.{◌≡◌, Bool, true, List, [], ◌∷◌, ◌++◌, if◌then◌else◌, All}
use wd_broker.Print.{Reply}
use wd_broker.Client.{Client}
use wd_broker.ClientId.Laws.{IsClientId}
use wd_broker.Slots.{is_live}
use wd_broker.Ctrl.Rows.{IsRow, row_of, row_text}
use wd_broker.Ctrl.{Shown, table_header, row, has_byte, print_setting}

-- A slot that the table can show: its line can be read back, and its id is well formed.
abbrev pub AllShown : List Client → Type 0
AllShown = All (λ c. is_live c ≡ true → IsRow c × IsClientId c.client_id)

-- What is printed of the table: a row for each live slot, the first under the header; a slot with '='
-- in its name is taken for a setting.
abbrev pub shown_rows : Bool → List Client → List Shown
shown_rows has_rows [] = []
shown_rows has_rows (c ∷ cs) =
    let skipped = shown_rows has_rows cs in
    let under = shown_rows true cs in
    if is_live c
    then if has_byte b'=' c.name
      then print_setting (row_text c) ++ skipped
      else (if has_rows then [] else table_header ∷ []) ++ (row (row_of c) c.check_pid ∷ under)
    else skipped
