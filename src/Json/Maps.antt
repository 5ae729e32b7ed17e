-- ===== src/Json/Maps.antt =====
-- `encoding/json` and the type `map[string]any`: a map decoded from an object, read, changed, and
-- encoded again with its keys in order. A number goes through `float64`: `float` is the text that
-- it is encoded with, `none` where it is out of range.
pub mod Laws
pub mod Sorted
use markets_service.Base.{Option, none, some, if◌then◌else◌}
use markets_service.Json.{
  Json, null, bool, num, str, arr, obj, Items, nil, cons, Members, end, member, find_member,
}
use markets_service.Text.{Text, text_eq, text_lt}

-- `delete(m, key)`
unfoldable pub without : Text → Members → Members
without key end = end
without key (member k v ms) =
    let rest = without key ms in if text_eq k key then rest else member k v rest

unfoldable pub insert_member : Text → Json → Members → Members
insert_member key w end = member key w end
insert_member key w (member k v ms) =
    let rest = insert_member key w ms in
    if text_lt k key then member k v rest else member key w (member k v ms)

-- `m[key] = w`
unfoldable pub put : Text → Json → Members → Members
unfolding without insert_member
put key w ms = insert_member key w (without key ms)

-- A value decoded into `any` and encoded again, and an object decoded into a map that has some keys
-- already.
unfoldable mutual
  unfolding put

  pub any_of : (Text → Option Text) → Json → Option Json
  any_of float null = some null
  any_of float (bool b) = some (bool b)
  any_of float (str s) = some (str s)
  any_of float (num n) = elim (float n) [ none ↦ none | some x ↦ some (num x) ]
  any_of float (arr xs) = elim (any_items float xs) [ none ↦ none | some ys ↦ some (arr ys) ]
  any_of float (obj ms) = elim (map_of float ms end) [ none ↦ none | some ns ↦ some (obj ns) ]

  pub any_items : (Text → Option Text) → Items → Option Items
  any_items float nil = some nil
  any_items float (cons x xs) = elim (any_of float x) [
    | none ↦ none
    | some y ↦ elim (any_items float xs) [ none ↦ none | some ys ↦ some (cons y ys) ]
  ]

  pub map_of : (Text → Option Text) → Members → Members → Option Members
  map_of float end old = some old
  map_of float (member k v ms) old = elim (any_of float v) [
    | none ↦ none
    | some w ↦ map_of float ms (put k w old)
  ]

-- `s, ok := value.(string)`
unfoldable pub as_text : Option Json → Option Text
as_text (some (str s)) = some s
as_text _ = none

-- `s, ok := m[key].(string)`
unfoldable pub find_text : Text → Members → Option Text
find_text key ms = as_text (find_member key ms)
