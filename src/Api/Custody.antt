-- ===== src/Api/Custody.antt =====
-- internal/api/custody_guard.go: the guard that admits an order only if the chain says that its
-- subaccount is deposited. The connection to the node is a parameter. Lengths are those of texts of
-- one-byte characters, which is what a node answers.
pub mod Laws
pub mod Deposit
pub mod Cache
use markets_service.Base.{
  ℕ, ◌-◌, Bool, true, false, not, ◌||◌, ◌&&◌, List, [], ◌∷◌, ◌++◌, drop, length, replicate, Option,
  none, some, Result, ok, err, ◌>>=◌, ◌>>◌, or_error, fail_if, leb, ltb, ◌==◌, if◌then◌else◌,
}
use markets_service.Base.Int.{ℤ, pos, negsuc}
use markets_service.Orders.Entry.{is_some}
use markets_service.Text.{Text, codes, text_eq, is_empty, to_lower, trim_space, has_prefix}
use markets_service.Text.Decimal.{set_string}
use markets_service.Text.Hex.{decode_string, print_hex}

-- The errors of one call of the chain.
pub data CallError : Type 0 where
  not_sent bad_payload remote_error : Text → CallError
  rpc_status : ℕ → CallError
  empty_result : CallError
  invalid_subaccount_id : Text → CallError
  invalid_address_payload : CallError

pub data CustodyError : Type 0 where
  chain_rpc_url_required subaccount_id_required : CustodyError
  resolve_subaccounts read_owner read_record : CallError → CustodyError
  not_deposited no_owner_recorded : Text → CustodyError

-- The two fields of a JSON-RPC answer.
pub record RpcPayload : Type 0 where
  pub result : Text
  pub error : Option Text

pub record RpcResponse : Type 0 where
  pub status_code : ℕ
  pub payload : Result Text RpcPayload

-- An `eth_call` to a contract with its data, sent to the node.
abbrev pub Post : Type 0
Post = Text → Text → Result Text RpcResponse

abbrev pub zero_address : Text
zero_address = codes "0x0000000000000000000000000000000000000000"

-- `chainCustodyChecker`: the cached address is empty before it is known.
pub record Checker : Type 0 where
  pub matching_address : Text
  pub sub_accounts_addr : Text

-- What the server checks an order with.
pub data CustodyChecker : Type 0 where
  unguarded rejecting : CustodyChecker
  chain : Checker → CustodyChecker

-- The settings of the guard.
pub record CustodyConfig : Type 0 where
  pub enforce_matching_custody : Bool
  pub matching_address : Text
  pub chain_rpc_url : Text

-- `isHexAddress`
unfoldable pub is_hex_address : Text → Bool
is_hex_address value =
    let cleaned = trim_space (to_lower value) in
    if not (length cleaned == 42) || not (has_prefix cleaned (codes "0x"))
    then false
    else is_some (decode_string (drop 2 cleaned))

-- `newCustodyChecker`
unfoldable pub new_custody_checker : CustodyConfig → CustodyChecker
unfolding is_hex_address
new_custody_checker cfg =
    if not cfg.enforce_matching_custody
    then unguarded
    else if not (is_hex_address cfg.matching_address)
    then unguarded
    else if is_empty (trim_space cfg.chain_rpc_url)
    then rejecting
    else chain (record {
      matching_address = to_lower (trim_space cfg.matching_address);
      sub_accounts_addr = [];
    })

unfoldable pub read_payload : RpcPayload → Result CallError Text
read_payload payload = elim (payload.error) [
  | some message ↦ err (remote_error message)
  | none ↦ if is_empty payload.result then err empty_result else ok (to_lower payload.result)
]

-- `ethCall`
unfoldable pub eth_call : Post → Text → Text → Result CallError Text
unfolding read_payload
eth_call post contract data_text = elim (post contract data_text) [
  | err e ↦ err (not_sent e)
  | ok resp ↦
      if ltb resp.status_code 200 || leb 300 resp.status_code
      then err (rpc_status resp.status_code)
      else (elim (resp.payload) [ err e ↦ err (bad_payload e) | ok payload ↦ read_payload payload ])
]

-- `encodeUint256`
unfoldable pub encode_uint256 : Text → Result CallError Text
encode_uint256 raw = elim (set_string (trim_space raw)) [
  | some (pos n) ↦ ok (print_hex 64 n)
  | some (negsuc n) ↦ err (invalid_subaccount_id raw)
  | none ↦ err (invalid_subaccount_id raw)
]

-- `decodeAddress`: the digits padded to one word, and the address read from its end.
unfoldable pub pad_word : Text → Text
pad_word given =
    if ltb (length given) 64 then replicate (64 - length given) b'0' ++ given else given

unfoldable pub last40 : Text → Text
last40 hex_text = drop (length hex_text - 40) hex_text

unfoldable pub decode_address : Text → Result CallError Text
unfolding pad_word last40
decode_address data_text = do
  let cleaned = trim_space (to_lower data_text)
  fail_if (not (has_prefix cleaned (codes "0x"))) invalid_address_payload
  let address = last40 (pad_word (drop 2 cleaned))
  fail_if (not (is_some (decode_string address))) invalid_address_payload
  ok (codes "0x" ++ address)

-- `callAddress`
unfoldable pub call_address : Post → Text → Text → Text → Result CallError Text
call_address post contract selector subaccount_id = do
  encoded ← encode_uint256 subaccount_id
  answer ← eth_call post contract (selector ++ encoded)
  decode_address answer

-- The write to the cache, under its lock.
abbrev pub remember : Text → Checker → Checker
remember address c = record c { sub_accounts_addr = address }

-- `subAccountsAddress` where nothing is cached.
unfoldable pub ask_address : Post → Checker → Result CallError (Text × Checker)
ask_address post c = do
  answer ← eth_call post c.matching_address (codes "0x779e5012")
  address ← decode_address answer
  ok (address, remember address c)

-- `subAccountsAddress`: the address and the checker after it.
unfoldable pub sub_accounts_address : Post → Checker → Result CallError (Text × Checker)
sub_accounts_address post c =
    if is_empty c.sub_accounts_addr then ask_address post c else ok (c.sub_accounts_addr, c)

unfoldable pub wrap_call {κ} :
    {A : Type κ} → (CallError → CustodyError) → Result CallError A → Result CustodyError A
wrap_call f (ok a) = ok a
wrap_call f (err e) = err (f e)

-- `ValidateDeposited` once the contract is known.
unfoldable pub check_deposited : Post → Text → Text → Text → Result CustodyError (Unit {0})
unfolding wrap_call
check_deposited post matching contract id = do
  owner ← wrap_call read_owner (call_address post contract (codes "0x6352211e") id)
  fail_if (not (text_eq owner matching)) (not_deposited id)
  recorded ← wrap_call read_record (call_address post matching (codes "0x63f1ddaa") id)
  fail_if (text_eq recorded zero_address) (no_owner_recorded id)

-- `ValidateDeposited` with the answer of `subAccountsAddress`.
unfoldable pub with_address :
    Post
    → Text
    → Checker
    → Result CallError (Text × Checker)
    → Result CustodyError (Unit {0}) × Checker
with_address post id c (err e) = (err (resolve_subaccounts e), c)
with_address post id c (ok (contract, c')) =
    (check_deposited post c.matching_address contract id, c')

-- `ValidateDeposited` of the chain's checker: the answer and the checker after it.
unfoldable pub validate_deposited : Post → Text → Checker → Result CustodyError (Unit {0}) × Checker
unfolding with_address
validate_deposited post subaccount_id c =
    let id = trim_space subaccount_id in
    if is_empty id
    then (err subaccount_id_required, c)
    else with_address post id c (sub_accounts_address post c)

-- What the server asks of the guard it has, if it has one.
unfoldable pub guard :
    Post → Text → CustodyChecker → Result CustodyError (Unit {0}) × CustodyChecker
guard post subaccount_id unguarded = (ok tt, unguarded)
guard post subaccount_id rejecting = (err chain_rpc_url_required, rejecting)
guard post subaccount_id (chain c) =
    let (answer, c') = validate_deposited post subaccount_id c in (answer, chain c')
