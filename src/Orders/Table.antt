-- ===== src/Orders/Table.antt =====
-- The queries that the repository makes of a table: rows found, counted and updated by a test.
pub mod Laws
use markets_service.Base.{
  ℕ, suc, ◌+◌, Bool, true, false, ◌&&◌, ◌||◌, List, [], ◌∷◌, Option, none, some, if◌then◌else◌,
}
use markets_service.Orders.{Order, Status, Side, status_eq}
use markets_service.Text.{Text, text_eq}

-- `select … where test`, the first row.
unfoldable pub find_row : (Order → Bool) → List Order → Option Order
find_row test [] = none
find_row test (o ∷ os) = if test o then some o else find_row test os

-- `update … set … where test`
unfoldable pub update_where : (Order → Bool) → (Order → Order) → List Order → List Order
update_where test change [] = []
update_where test change (o ∷ os) = (if test o then change o else o) ∷ update_where test change os

-- The number of rows that an update or a select meets.
unfoldable pub count_where : (Order → Bool) → List Order → ℕ
count_where test [] = 0
count_where test (o ∷ os) = (if test o then 1 else 0) + count_where test os

-- `order_id = any($1)`
unfoldable pub id_among : List Text → Text → Bool
id_among [] i = false
id_among (j ∷ js) i = text_eq i j || id_among js i

abbrev pub has_id : Text → Order → Bool
has_id i o = text_eq o.order_id i

abbrev pub has_status : Status → Order → Bool
has_status st o = status_eq o.status st

abbrev pub set_status : Status → Order → Order
set_status st o = record o { status = st }
