-- ===== src/Tests/Custody.antt =====
-- The guard on a chain that holds subaccount 7.
use markets_service.Base.{
  ℕ, ◌<◌, All, ◌≡◌, refl, true, List, [], ◌∷◌, ◌++◌, none, ok, replicate, subst, if◌then◌else◌,
  arith,
}
use markets_service.Api.Custody.{
  Post, Checker, CustodyChecker, CustodyConfig, chain, is_hex_address, new_custody_checker,
  eth_call, read_payload, encode_uint256, decode_address, pad_word, last40, call_address,
  ask_address, sub_accounts_address, with_address, wrap_call, check_deposited, validate_deposited,
  guard,
}
use markets_service.Api.Custody.Cache.{
  Request, Runs, starts, validate_deposited-Runs, IsAdmitted, guard-IsAdmitted, new_checker,
}
use markets_service.Api.Custody.Laws.{decode_address-encoded}
use markets_service.Text.{
  Text, codes, text_eq, is_space, trim_left, trim_space, lower, to_lower, has_prefix,
}
use markets_service.Text.Decimal.{scan, scan_nat, set_string}
use markets_service.Text.Hex.{
  hex_value, hex_digit, hex_digits, decode_string, encode_to_string, print_hex,
}
use mathlib.Core.Option

abbrev matching : Text
matching = codes "0x" ++ replicate 40 b'a'

abbrev contract : Text
contract = codes "0x" ++ replicate 40 b'c'

abbrev answer_with : Text → Text
answer_with address = codes "0x" ++ replicate 24 b'0' ++ address

-- The matching contract owns every subaccount, and records the contract as its owner.
abbrev node : Post
node to call_data = ok (record {
  status_code = 200;
  payload = ok (record {
    result =
        if text_eq to contract
        then answer_with (replicate 40 b'A')
        else answer_with (replicate 40 b'C');
    error = none;
  });
})

abbrev config : CustodyConfig
config = record {
  enforce_matching_custody = true;
  matching_address = codes "0x" ++ replicate 40 b'A';
  chain_rpc_url = codes "http://node";
}

abbrev admitted : CustodyChecker
admitted = chain (record { matching_address = matching; sub_accounts_addr = contract })

runs : guard node (codes " 7 ") (new_custody_checker config) ≡ (ok tt, admitted)
unfolding guard validate_deposited with_address check_deposited wrap_call call_address ask_address
    sub_accounts_address eth_call read_payload encode_uint256 decode_address pad_word last40
    new_custody_checker is_hex_address text_eq is_space trim_left trim_space lower to_lower
    has_prefix scan scan_nat set_string hex_value hex_digit hex_digits decode_string
    encode_to_string print_hex Option.bind
runs = refl

address_valid : is_hex_address config.matching_address ≡ true
unfolding is_hex_address is_space trim_left trim_space lower to_lower has_prefix hex_value
    decode_string Option.bind
address_valid = refl

abbrev once : List Request
once = (node, codes "7") ∷ []

-- The checker after one request.
abbrev warm : Checker
warm = (validate_deposited node (codes "7") (new_checker config)).1

chained : new_custody_checker config ≡ chain (new_checker config)
unfolding new_custody_checker is_hex_address is_space trim_left trim_space lower to_lower has_prefix
    hex_value decode_string Option.bind
chained = refl

served_once : Runs config once (chain warm)
served_once =
    validate_deposited-Runs config [] node (codes "7") (new_checker config)
      (subst (λ g. Runs config [] g) chained starts)

passes : (guard node (codes " 8 ") (chain warm)).0 ≡ ok tt
unfolding guard validate_deposited with_address check_deposited wrap_call call_address ask_address
    sub_accounts_address eth_call read_payload encode_uint256 decode_address pad_word last40
    new_custody_checker is_hex_address text_eq is_space trim_left trim_space lower to_lower
    has_prefix scan scan_nat set_string hex_value hex_digit hex_digits decode_string
    encode_to_string print_hex Option.bind
passes = refl

guard-IsAdmitted_example : IsAdmitted config once node (codes " 8 ")
guard-IsAdmitted_example =
    guard-IsAdmitted config once node (codes " 8 ") (chain warm) refl address_valid served_once
      passes

decode_address-encoded_example :
    decode_address (codes "0x" ++ encode_to_string (replicate 12 0 ++ replicate 20 0xAB))
    ≡ ok (codes "0x" ++ encode_to_string (replicate 20 0xAB))
decode_address-encoded_example = decode_address-encoded (replicate 20 0xAB) bytes refl
  where
    bytes : All (λ b. b < 256) (replicate {A = ℕ} 20 0xAB)
    bytes = ground arith
