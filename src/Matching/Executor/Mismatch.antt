-- ===== src/Matching/Executor/Mismatch.antt =====
-- What the tick does with an error that the client makes itself.
use markets_service.Base.{◌≡◌, refl, Bool, true, false, ◌||◌, some, ok, err, ◌++◌, arith}
use markets_service.Json.{RawMessage}
use markets_service.Matching.Engine.{
  World, Submission, check_candidate, attempt, resume, after_executor, conclude, try_finalize,
  reconciled, should_finalize_after_executor_error,
}
use markets_service.Matching.Executor.{
  maker_module_mismatch, is_evm_address, normalize_action, extract_module_address, in_role,
  build_executor_request,
}
use markets_service.Matching.Executor.Submit.{
  Client, wrap_text, submit_match_for_market, answer_of, error_message, submitting,
}
use markets_service.Orders.{MatchCandidate, Store}
use markets_service.Text.{Text, codes, text_eq, is_empty, contains}
use markets_service.Text.Search.{contains-append_before, contains-append_after}

-- Two orders that can be sent but for their modules, the taker's of which spells an error's code.
pub record IsDisguised (cl : Client) (c : MatchCandidate) : Type 0 where
  pub taker_action : RawMessage
  pub maker_action : RawMessage
  pub has_url : is_empty cl.url ≡ false
  pub is_asset : is_evm_address (c.taker).asset_address ≡ true
  pub taker_normal : normalize_action cl.float c.taker ≡ ok taker_action
  pub maker_normal : normalize_action cl.float c.maker ≡ ok maker_action
  pub taker_address : is_evm_address (extract_module_address taker_action) ≡ true
  pub differ :
      text_eq (extract_module_address maker_action) (extract_module_address taker_action) ≡ false
  pub spells : contains (extract_module_address taker_action) (codes "0xfea8fa6f") ≡ true

submit-IsDisguised :
    (cl : Client) (market : Text) (c : MatchCandidate) (price amount : Text) (x : IsDisguised cl c)
    → submit_match_for_market cl market c price amount
      ≡ err (
          maker_module_mismatch
            (extract_module_address x.taker_action)
            (extract_module_address x.maker_action))
unfolding submit_match_for_market build_executor_request in_role wrap_text
submit-IsDisguised cl market c price amount x =
    rw (x.has_url, x.is_asset, x.taker_normal, x.maker_normal, x.taker_address, x.differ) refl

should_finalize-mismatch :
    (cl : Client) (t m : Text)
    → contains t (codes "0xfea8fa6f") ≡ true
    → should_finalize_after_executor_error (error_message cl (maker_module_mismatch t m)) ≡ true
unfolding should_finalize_after_executor_error error_message
should_finalize-mismatch cl t m h = either _ _ (
    contains-append_before (before ++ t ++ codes " maker=") m marker (
      contains-append_before (before ++ t) (codes " maker=") marker
        (contains-append_after before t marker h)))
  where
    before : Text
    before = codes "maker module address mismatch: taker="

    marker : Text
    marker = codes "0xfea8fa6f"

    either : (a b : Bool) → b ≡ true → (a || b) ≡ true
    either a b h = ground arith

-- Where the two actions name different modules, the executor is never asked; but where the taker's
-- module is an address that spells the code of the executor's error for a limit that was crossed, the
-- tick takes the refusal for that error and finalizes the match: both orders are filled and a trade
-- is recorded, whatever the executor would answer.
pub attempt-IsDisguised :
    (cl : Client) (market : Text) (w : World) (c : MatchCandidate) (m : Submission) (s t : Store)
    → IsDisguised cl c
    → check_candidate (submitting cl market w) c ≡ ok m
    → try_finalize (submitting cl market w) c m (w.meanwhile s) ≡ some t
    → attempt (submitting cl market w) c s ≡ (reconciled, t)
unfolding attempt resume submitting after_executor conclude answer_of
attempt-IsDisguised cl market w c m s t x checked settled =
    let refused = submit-IsDisguised cl market c (m.units).fill_price (m.units).fill_amount x in
    let mistaken =
      should_finalize-mismatch cl (extract_module_address x.taker_action)
        (extract_module_address x.maker_action) x.spells in
    rw (checked, refused, mistaken, settled) refl
