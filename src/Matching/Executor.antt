-- ===== src/Matching/Executor.antt =====
-- internal/matching/executor.go: the request that a match is submitted with, the actions in it, and
-- what the executor's answer means. The connection, the decoding of an answer and the numbers of
-- `encoding/json` are parameters.
pub mod Actions
pub mod Request
pub mod Submit
pub mod Posted
pub mod Mismatch
use markets_service.Base.{
  ℕ, Bool, true, false, not, ◌&&◌, ◌||◌, List, [], ◌∷◌, ◌++◌, length, Option, none, some, Result,
  ok, err, ◌>>=◌, ◌>>◌, or_error, fail_if, leb, ltb, ◌==◌, if◌then◌else◌,
}
use markets_service.Json.{
  Json, null, bool, num, str, arr, obj, RawMessage, Members, end, find_member, text_field,
}
use markets_service.Json.Maps.{map_of, put, find_text}
use markets_service.Orders.{Order, MatchCandidate}
use markets_service.Orders.Entry.{is_some}
use markets_service.Text.{Text, codes, text_eq, is_empty, to_lower, trim_space, strip}

pub data ActionError : Type 0 where
  invalid_json undecodable : ActionError
  missing mismatch not_address : Text → ActionError

pub data ExecutorError : Type 0 where
  url_required : ExecutorError
  invalid_asset_address : Text → ExecutorError
  bad_taker_action bad_maker_action : ActionError → ExecutorError
  invalid_taker_module : Text → ExecutorError
  maker_module_mismatch : Text → Text → ExecutorError
  not_sent : Text → ExecutorError
  status_only : Text → ExecutorError
  status_body : Text → Text → ExecutorError
  decode_failed : Text → ExecutorError
  rejected : Text → ExecutorError

pub record TradeFillDetail : Type 0 where
  pub filled_account : Text
  pub amount_filled : Text
  pub price : Text
  pub fee : Text

pub record TradeOrderData : Type 0 where
  pub taker_account : Text
  pub taker_fee : Text
  pub fill_details : List TradeFillDetail
  pub manager_data : Text

pub record ExecutorRequest : Type 0 where
  pub market : Text
  pub asset_address : Text
  pub module_address : Text
  pub maker_order_id : Text
  pub taker_order_id : Text
  pub actions : List RawMessage
  pub signatures : List Text
  pub order_data : TradeOrderData

-- `[0-9a-fA-F]`
unfoldable pub is_hex_digit : ℕ → Bool
is_hex_digit c = leb b'0' c && leb c b'9' || leb b'a' c && leb c b'f' || leb b'A' c && leb c b'F'

unfoldable pub all_hex : Text → Bool
unfolding is_hex_digit
all_hex [] = true
all_hex (c ∷ s) = is_hex_digit c && all_hex s

-- `isEVMAddress`
unfoldable pub is_evm_address : Text → Bool
unfolding all_hex
is_evm_address value = elim (strip (trim_space value) (codes "0x")) [
  | none ↦ false
  | some digits ↦ length digits == 40 && all_hex digits
]

-- `defaultManagerData`
unfoldable pub default_manager_data : Text → Text
default_manager_data manager_data =
    if is_empty (trim_space manager_data) then codes "0x" else trim_space manager_data

-- The loop over the required fields.
unfoldable pub check_fields : List Text → Members → Result ActionError (Unit {0})
check_fields [] action = ok tt
check_fields (field ∷ fields) action = do
  fail_if (not (is_some (find_member field action))) (missing field)
  check_fields fields action

abbrev pub required_fields : List Text
required_fields =
    codes "subaccount_id"
    ∷ codes "nonce"
    ∷ codes "module"
    ∷ codes "data"
    ∷ codes "expiry"
    ∷ codes "owner"
    ∷ codes "signer"
    ∷ []

-- The field is a text that passes the test.
abbrev pub passes : (Text → Bool) → Option Text → Bool
passes test none = false
passes test (some s) = test s

-- `module, _ := action["module"].(string)`
abbrev pub or_empty : Option Text → Text
or_empty none = []
or_empty (some s) = s

-- The field is this text, this address in letters of either case, an address.
abbrev pub names_text : Text → Text → Members → Bool
names_text key expected action = passes (λ s. text_eq s expected) (find_text key action)

abbrev pub names_account : Text → Text → Members → Bool
names_account key expected action =
    passes (λ s. text_eq (to_lower s) (to_lower expected)) (find_text key action)

abbrev pub address_under : Text → Members → Text
address_under key action = or_empty (find_text key action)

-- `json.Unmarshal` into a map.
unfoldable pub unmarshal_map : (Text → Option Text) → RawMessage → Result ActionError Members
unmarshal_map float none = err invalid_json
unmarshal_map float (some (obj ms)) = or_error (map_of float ms end) undecodable
unmarshal_map float (some null) = ok end
unmarshal_map float (some (bool b)) = err undecodable
unmarshal_map float (some (num n)) = err undecodable
unmarshal_map float (some (str s)) = err undecodable
unmarshal_map float (some (arr xs)) = err undecodable

-- The three assignments of addresses in small letters.
unfoldable pub put_addresses : Text → Text → Text → Members → Members
put_addresses module_text owner signer action = put (codes "signer") (str (to_lower signer)) (
    put (codes "owner") (str (to_lower owner))
      (put (codes "module") (str (to_lower module_text)) action))

-- `normalizeAction`
unfoldable pub normalize_action : (Text → Option Text) → Order → Result ActionError RawMessage
normalize_action float o = do
  action ← unmarshal_map float o.action_json
  check_fields required_fields action
  fail_if (not (names_text (codes "subaccount_id") o.subaccount_id action))
      (mismatch (codes "subaccount_id"))
  fail_if (not (names_text (codes "nonce") o.nonce action)) (mismatch (codes "nonce"))
  fail_if (not (names_account (codes "owner") o.owner_address action)) (mismatch (codes "owner"))
  fail_if (not (names_account (codes "signer") o.signer_address action)) (mismatch (codes "signer"))
  fail_if (not (is_evm_address (address_under (codes "module") action)))
      (not_address (codes "module"))
  fail_if (not (is_evm_address (address_under (codes "owner") action)))
      (not_address (codes "owner"))
  fail_if (not (is_evm_address (address_under (codes "signer") action)))
      (not_address (codes "signer"))
  ok (
      some (
        obj (
          put_addresses (address_under (codes "module") action)
            (address_under (codes "owner") action) (address_under (codes "signer") action) action)))

-- `extractModuleAddress`
unfoldable pub extract_module_address : RawMessage → Text
extract_module_address raw = elim (text_field (codes "module") raw) [
  | none ↦ []
  | some address ↦ to_lower address
]

unfoldable pub in_role {κ} :
    {A : Type κ} → (ActionError → ExecutorError) → Result ActionError A → Result ExecutorError A
in_role wrap (ok a) = ok a
in_role wrap (err e) = err (wrap e)

-- `buildExecutorRequest`
unfoldable pub build_executor_request :
    (Text → Option Text)
    → Text
    → MatchCandidate
    → Text
    → Text
    → Text
    → Result ExecutorError ExecutorRequest
build_executor_request float market c manager_data price amount = do
  fail_if (not (is_evm_address (c.taker).asset_address))
      (invalid_asset_address (c.taker).asset_address)
  taker_action ← in_role bad_taker_action (normalize_action float (c.taker))
  maker_action ← in_role bad_maker_action (normalize_action float (c.maker))
  let module_address = extract_module_address taker_action
  fail_if (not (is_evm_address module_address)) (invalid_taker_module module_address)
  let maker_module_address = extract_module_address maker_action
  fail_if (not (text_eq maker_module_address module_address))
      (maker_module_mismatch module_address maker_module_address)
  ok (record {
    market = market;
    asset_address = to_lower (c.taker).asset_address;
    module_address = module_address;
    maker_order_id = (c.maker).order_id;
    taker_order_id = (c.taker).order_id;
    actions = taker_action ∷ maker_action ∷ [];
    signatures = (c.taker).signature ∷ (c.maker).signature ∷ [];
    order_data = record {
      taker_account = (c.taker).subaccount_id;
      taker_fee = codes "0";
      fill_details =
          record {
            filled_account = (c.maker).subaccount_id;
            amount_filled = amount;
            price = price;
            fee = codes "0";
          }
          ∷ [];
      manager_data = default_manager_data manager_data;
    };
  })
