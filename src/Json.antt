-- ===== src/Json.antt =====
-- JSON values, and how `encoding/json` reads them into a struct with text fields and into a map.
-- A `json.RawMessage` is `none` where its bytes are no JSON.
pub mod Column
pub mod Maps
use markets_service.Base.{Bool, [], Option, none, some, if◌then◌else◌}
use markets_service.Text.{Text, text_eq, to_lower}

mutual
  pub data Json : Type 0 where
    null : Json
    bool : Bool → Json
    num : Text → Json
    str : Text → Json
    arr : Items → Json
    obj : Members → Json

  pub data Items : Type 0 where
    nil : Items
    cons : Json → Items → Items

  pub data Members : Type 0 where
    end : Members
    member : Text → Json → Members → Members

abbrev pub RawMessage : Type 0
RawMessage = Option Json

-- A text field of a struct behind what was read so far: `null` leaves it, another value that is no
-- text is an error.
unfoldable pub assign : Json → Text → Option Text
assign null old = some old
assign (str s) old = some s
assign (bool b) old = none
assign (num n) old = none
assign (arr xs) old = none
assign (obj ms) old = none

-- The members in turn; a key may differ from the field's tag by case.
unfoldable pub read_members : Text → Members → Text → Option Text
unfolding assign
read_members tag end old = some old
read_members tag (member k v ms) old =
    if text_eq (to_lower k) tag
    then elim (assign v old) [ none ↦ none | some new ↦ read_members tag ms new ]
    else read_members tag ms old

-- `json.Unmarshal` into a struct, as one of its text fields sees it: `none` is an error.
unfoldable pub text_field : Text → RawMessage → Option Text
unfolding read_members
text_field tag (some (obj ms)) = read_members tag ms []
text_field tag (some null) = some []
text_field tag _ = none

-- `m[key]` of a map: the last member of that name.
unfoldable pub find_member : Text → Members → Option Json
find_member key end = none
find_member key (member k v ms) = elim (find_member key ms) [
  | some later ↦ some later
  | none ↦ if text_eq k key then some v else none
]
