-- ===== src/Tests/Executor.antt =====
-- Requests to the executor, on the sample market with signed actions in full.
use mathlib.Core.Option
use markets_service.Base.{ℕ, Bool, true, false, ◌≡◌, refl, [], ◌∷◌, ◌++◌, some, ok, err, replicate}
use markets_service.Base.Int.{quo, rem, ◌*ℤ◌, ◌-ℤ◌, ◌+ℤ◌}
use markets_service.Json.{
  Members, str, obj, member, end, RawMessage, text_field, read_members, assign, find_member,
}
use markets_service.Json.Maps.{without, insert_member, put, any_of, as_text, find_text}
use markets_service.Matching.Crossing.{
  crosses, remaining_amount, min_decimal_string, subtract_decimal_string,
}
use markets_service.Matching.Engine.{
  World, Submission, Outcome, executed, reconciled, check_candidate, log_price, wrap_error,
  tick_instrument, take_up, attempt, resume, after_executor, conclude, try_finalize,
  should_finalize_after_executor_error,
}
use markets_service.Matching.Executor.{
  is_hex_digit, all_hex, is_evm_address, default_manager_data, check_fields, unmarshal_map,
  put_addresses, normalize_action, extract_module_address, in_role, build_executor_request,
}
use markets_service.Matching.Executor.Mismatch.{IsDisguised, attempt-IsDisguised}
use markets_service.Matching.Executor.Posted.{IsExecuted, tick_executed}
use markets_service.Matching.Executor.Submit.{
  Client, wrap_text, read_response, submit_match_for_market, answer_of, error_message, submitting,
}
use markets_service.Matching.TradeData.{
  set_from, set_bytes, word, int256_from_word, trade_data_of_bytes, decode_trade_data,
  parse_trade_action,
}
use markets_service.Matching.TradeData.RoundTrip.{encode_trade_data, tuple_words, join}
use markets_service.Matching.TradeData.Words.{be_bytes, word_of_int}
use markets_service.Matching.Units.{
  parse_non_negative_int, parse_positive_int, validate_action_market, infer_shared_scale,
  scaled_remaining, validate_price_scale_alignment, scale_fill, compute_execution_units,
}
use markets_service.Orders.{Order, Store, MatchCandidate, is_expired}
use markets_service.Orders.Book.{
  keyed_rows, precedes, insert_row, order_by, side_of_book, list_by_side, best_by_side, is_due,
  expire_orders,
}
use markets_service.Orders.Matches.{
  choose_taker_maker, reserve_orders, reserve_pair, acquire_match_candidate,
  finalize_match_with_price, apply_fill, insert_trade_fill,
}
use markets_service.Orders.Amounts.{add_decimal_string, compare_decimal_strings}
use markets_service.Orders.Table.{find_row, update_where, count_where, id_among}
use markets_service.Tests.Samples.{plain, asset, maker, taker, signed, reserved, store_of, world}
use markets_service.Text.{
  Text, codes, text_eq, text_lt, is_space, trim_left, trim_space, lower, to_lower, strip,
  trim_prefix, has_prefix, contains,
}
use markets_service.Text.Decimal.{scan, scan_nat, set_string, digits, print_nat, print_int}
use markets_service.Text.Hex.{hex_value, hex_digit, decode_string, encode_to_string}

abbrev owner : Text
owner = codes "0x" ++ replicate 40 b'a'

-- An action with all of its fields, for a module that the owner chose.
abbrev full_action : Text → Bool → ℕ → ℕ → RawMessage
full_action module_text is_bid price amount = some (
    obj (
      member (codes "subaccount_id") (str (codes "1")) (
        member (codes "nonce") (str (codes "7")) (
          member (codes "module") (str module_text) (
            member (codes "data") (str (encode_trade_data (signed is_bid price amount))) (
              member (codes "expiry") (str (codes "100"))
                (member (codes "owner") (str owner) (member (codes "signer") (str owner) end))))))))

-- The same as it is sent: keys in order, addresses in small letters.
abbrev lowered_action : Text → Bool → ℕ → ℕ → Members
lowered_action module_text is_bid price amount =
    member (codes "data") (str (encode_trade_data (signed is_bid price amount))) (
      member (codes "expiry") (str (codes "100")) (
        member (codes "module") (str module_text) (
          member (codes "nonce") (str (codes "7")) (
            member (codes "owner") (str owner) (
              member (codes "signer") (str owner)
                (member (codes "subaccount_id") (str (codes "1")) end))))))

abbrev owned : Order → RawMessage → Order
owned o json = record o { owner_address = owner; signer_address = owner; action_json = json }

abbrev plain_module : Text
plain_module = codes "0x" ++ replicate 40 b'B'

abbrev client : Client
client = record {
  url = codes "http://executor";
  manager_data = [];
  post = λ req. ok (record { status_code = 200; body = [] });
  unmarshal = λ body. err body;
  float = λ n. some n;
  quote = λ s. s;
  undecodable_text = [];
}

abbrev full_maker : Order
full_maker = owned maker (full_action plain_module false 1000 70)

abbrev full_taker : Order
full_taker = owned taker (full_action plain_module true 1200 50)

abbrev start_store : Store
start_store = store_of (full_maker ∷ full_taker ∷ [])

abbrev here : World
here = world (ok tt)

abbrev ended : Outcome × Store
ended = tick_instrument plain (submitting client (codes "M") here) asset (codes "3") start_store

finished : ended ≡ (executed, ended.1)
unfolding tick_instrument take_up attempt resume after_executor conclude try_finalize
    check_candidate log_price wrap_error is_expired submitting answer_of submit_match_for_market
    build_executor_request in_role wrap_text read_response normalize_action unmarshal_map any_of put
    without insert_member put_addresses check_fields find_member find_text as_text text_field
    read_members assign is_evm_address all_hex is_hex_digit extract_module_address
    default_manager_data acquire_match_candidate reserve_pair reserve_orders choose_taker_maker
    finalize_match_with_price apply_fill insert_trade_fill add_decimal_string
    compare_decimal_strings find_row update_where count_where id_among keyed_rows precedes
    insert_row order_by side_of_book list_by_side best_by_side is_due expire_orders crosses
    remaining_amount min_decimal_string subtract_decimal_string parse_non_negative_int
    parse_positive_int validate_action_market infer_shared_scale scaled_remaining
    validate_price_scale_alignment scale_fill compute_execution_units set_from set_bytes word
    int256_from_word trade_data_of_bytes decode_trade_data parse_trade_action encode_trade_data
    tuple_words join be_bytes word_of_int text_eq text_lt is_space trim_left trim_space lower
    to_lower strip trim_prefix scan scan_nat set_string digits print_nat print_int hex_value
    hex_digit decode_string encode_to_string quo rem ◌*ℤ◌ ◌-ℤ◌ ◌+ℤ◌ Option.bind
finished = refl

tick_executed_example : IsExecuted plain client (codes "M") here asset (codes "3") start_store
tick_executed_example =
    tick_executed plain client (codes "M") here asset (codes "3") start_store ended.1 finished

-- A module of the taker's own choice, and an executor that refuses every request.
abbrev odd_module : Text
odd_module = codes "0xfea8fa6f" ++ replicate 32 b'0'

abbrev odd_taker : Order
odd_taker = owned taker (full_action odd_module true 1200 50)

abbrev odd : MatchCandidate
odd = record { taker = odd_taker; maker = full_maker }

abbrev refusing : Client
refusing = record client { post = λ req. err (codes "refused") }

abbrev odd_store : Store
odd_store = store_of (reserved full_maker ∷ reserved odd_taker ∷ [])

abbrev odd_end : Outcome × Store
odd_end = attempt (submitting refusing (codes "M") here) odd odd_store

abbrev submission : Submission
submission = record {
  price = codes "10";
  amount = codes "5";
  units = record { fill_price = codes "1000"; fill_amount = codes "50" };
}

odd-IsDisguised : IsDisguised refusing odd
unfolding has_prefix contains should_finalize_after_executor_error error_message tick_instrument
    take_up attempt resume after_executor conclude try_finalize check_candidate log_price wrap_error
    is_expired submitting answer_of submit_match_for_market build_executor_request in_role wrap_text
    read_response normalize_action unmarshal_map any_of put without insert_member put_addresses
    check_fields find_member find_text as_text text_field read_members assign is_evm_address all_hex
    is_hex_digit extract_module_address default_manager_data acquire_match_candidate reserve_pair
    reserve_orders choose_taker_maker finalize_match_with_price apply_fill insert_trade_fill
    add_decimal_string compare_decimal_strings find_row update_where count_where id_among keyed_rows
    precedes insert_row order_by side_of_book list_by_side best_by_side is_due expire_orders crosses
    remaining_amount min_decimal_string subtract_decimal_string parse_non_negative_int
    parse_positive_int validate_action_market infer_shared_scale scaled_remaining
    validate_price_scale_alignment scale_fill compute_execution_units set_from set_bytes word
    int256_from_word trade_data_of_bytes decode_trade_data parse_trade_action encode_trade_data
    tuple_words join be_bytes word_of_int text_eq text_lt is_space trim_left trim_space lower
    to_lower strip trim_prefix scan scan_nat set_string digits print_nat print_int hex_value
    hex_digit decode_string encode_to_string quo rem ◌*ℤ◌ ◌-ℤ◌ ◌+ℤ◌ Option.bind
odd-IsDisguised = record {
  taker_action = some (obj (lowered_action (codes "0xfea8fa6f" ++ replicate 32 b'0') true 1200 50));
  maker_action = some (obj (lowered_action (codes "0x" ++ replicate 40 b'b') false 1000 70));
  has_url = refl;
  is_asset = refl;
  taker_normal = refl;
  maker_normal = refl;
  taker_address = refl;
  differ = refl;
  spells = refl;
}

odd_checked : check_candidate (submitting refusing (codes "M") here) odd ≡ ok submission
unfolding tick_instrument take_up attempt resume after_executor conclude try_finalize
    check_candidate log_price wrap_error is_expired submitting answer_of submit_match_for_market
    build_executor_request in_role wrap_text read_response normalize_action unmarshal_map any_of put
    without insert_member put_addresses check_fields find_member find_text as_text text_field
    read_members assign is_evm_address all_hex is_hex_digit extract_module_address
    default_manager_data acquire_match_candidate reserve_pair reserve_orders choose_taker_maker
    finalize_match_with_price apply_fill insert_trade_fill add_decimal_string
    compare_decimal_strings find_row update_where count_where id_among keyed_rows precedes
    insert_row order_by side_of_book list_by_side best_by_side is_due expire_orders crosses
    remaining_amount min_decimal_string subtract_decimal_string parse_non_negative_int
    parse_positive_int validate_action_market infer_shared_scale scaled_remaining
    validate_price_scale_alignment scale_fill compute_execution_units set_from set_bytes word
    int256_from_word trade_data_of_bytes decode_trade_data parse_trade_action encode_trade_data
    tuple_words join be_bytes word_of_int text_eq text_lt is_space trim_left trim_space lower
    to_lower strip trim_prefix scan scan_nat set_string digits print_nat print_int hex_value
    hex_digit decode_string encode_to_string quo rem ◌*ℤ◌ ◌-ℤ◌ ◌+ℤ◌ Option.bind
odd_checked = refl

odd_settled :
    try_finalize (submitting refusing (codes "M") here) odd submission odd_store ≡ some odd_end.1
unfolding has_prefix contains should_finalize_after_executor_error error_message tick_instrument
    take_up attempt resume after_executor conclude try_finalize check_candidate log_price wrap_error
    is_expired submitting answer_of submit_match_for_market build_executor_request in_role wrap_text
    read_response normalize_action unmarshal_map any_of put without insert_member put_addresses
    check_fields find_member find_text as_text text_field read_members assign is_evm_address all_hex
    is_hex_digit extract_module_address default_manager_data acquire_match_candidate reserve_pair
    reserve_orders choose_taker_maker finalize_match_with_price apply_fill insert_trade_fill
    add_decimal_string compare_decimal_strings find_row update_where count_where id_among keyed_rows
    precedes insert_row order_by side_of_book list_by_side best_by_side is_due expire_orders crosses
    remaining_amount min_decimal_string subtract_decimal_string parse_non_negative_int
    parse_positive_int validate_action_market infer_shared_scale scaled_remaining
    validate_price_scale_alignment scale_fill compute_execution_units set_from set_bytes word
    int256_from_word trade_data_of_bytes decode_trade_data parse_trade_action encode_trade_data
    tuple_words join be_bytes word_of_int text_eq text_lt is_space trim_left trim_space lower
    to_lower strip trim_prefix scan scan_nat set_string digits print_nat print_int hex_value
    hex_digit decode_string encode_to_string quo rem ◌*ℤ◌ ◌-ℤ◌ ◌+ℤ◌ Option.bind
odd_settled = refl

attempt-IsDisguised_example :
    attempt (submitting refusing (codes "M") here) odd odd_store ≡ (reconciled, odd_end.1)
attempt-IsDisguised_example =
    attempt-IsDisguised refusing (codes "M") here odd submission odd_store odd_end.1 odd-IsDisguised
      odd_checked odd_settled
