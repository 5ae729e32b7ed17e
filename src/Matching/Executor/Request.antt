-- ===== src/Matching/Executor/Request.antt =====
-- What a request that was built says of the two orders.
use markets_service.Base.{
  Bool, Option, none, some, Option-cases, inl, inr, Result, ok, err, [], ◌∷◌, not, true, false, ◌≡◌,
  refl, sym, ◌∙◌, ap, >>=-elim, fail_if-elim, ok_inj, arith,
}
use markets_service.Json.{
  Json, Members, null, bool, num, str, arr, obj, RawMessage, text_field, find_member,
}
use markets_service.Json.Maps.{find_text, as_text}
use markets_service.Json.Maps.Sorted.{IsSorted, read_members-IsSorted}
use markets_service.Matching.Executor.{
  ActionError, ExecutorError, bad_taker_action, bad_maker_action, ExecutorRequest, is_evm_address,
  normalize_action, extract_module_address, in_role, build_executor_request,
}
use markets_service.Matching.Executor.Actions.{IsNormalized, normalize_action-IsNormalized}
use markets_service.Orders.{Order, MatchCandidate}
use markets_service.Text.{Text, codes, text_eq, to_lower, lower, trim_space, strip}
use markets_service.Text.Laws.{text_eq_iff, to_lower_idem}

-- The request pays the fill from the taker to the maker, carries both actions as their owners signed
-- them, in the order of the signatures, and names the module that both of them name.
pub record IsRequest (c : MatchCandidate) (price amount : Text) (req : ExecutorRequest)
    : Type 0 where
  pub taker_action : RawMessage
  pub maker_action : RawMessage
  pub taker_sent : IsNormalized c.taker taker_action
  pub maker_sent : IsNormalized c.maker maker_action
  pub actions : req.actions ≡ taker_action ∷ maker_action ∷ []
  pub signatures : req.signatures ≡ (c.taker).signature ∷ (c.maker).signature ∷ []
  pub taker_module : req.module_address ≡ to_lower taker_sent.module_text
  pub maker_module : req.module_address ≡ to_lower maker_sent.module_text
  pub taker_pays : (req.order_data).taker_account ≡ (c.taker).subaccount_id
  pub maker_filled :
      (req.order_data).fill_details
      ≡ record {
        filled_account = (c.maker).subaccount_id;
        amount_filled = amount;
        price = price;
        fee = codes "0";
      }
        ∷ []
  pub asset : req.asset_address ≡ to_lower (c.taker).asset_address
  pub is_asset : is_evm_address (c.taker).asset_address ≡ true

found_text : (found : Option Json) {s : Text} → as_text found ≡ some s → found ≡ some (str s)
unfolding as_text
found_text none h = cc
found_text (some null) h = cc
found_text (some (bool b)) h = cc
found_text (some (num n)) h = cc
found_text (some (str s)) h = ground arith
found_text (some (arr xs)) h = cc
found_text (some (obj ms)) h = cc

-- An empty text is no address.
nowhere : is_evm_address [] ≡ false
unfolding is_evm_address trim_space strip
nowhere = refl

extract_module_address-some :
    (raw : RawMessage) (a : Text)
    → text_field (codes "module") raw ≡ some a
    → extract_module_address raw ≡ to_lower a
unfolding extract_module_address
extract_module_address-some raw a e = rw (extract_module_address, e) refl

extract_module_address-none :
    (raw : RawMessage) → text_field (codes "module") raw ≡ none → extract_module_address raw ≡ []
unfolding extract_module_address
extract_module_address-none raw e = rw (extract_module_address, e) refl

extract_module_address-obj :
    (sent : Members) (address : Text)
    → IsSorted sent
    → find_text (codes "module") sent ≡ some (to_lower address)
    → is_evm_address (extract_module_address (some (obj sent))) ≡ true
    → extract_module_address (some (obj sent)) ≡ to_lower address
extract_module_address-obj sent address o f h =
    elim (Option-cases (text_field (codes "module") (some (obj sent)))) [
      | inl e ↦ absurd (cc (nowhere, extract_module_address-none (some (obj sent)) e))
      | inr (a, e) ↦
          let same : a ≡ to_lower address =
            read_members-IsSorted (codes "module") sent [] (unfold to_lower lower in refl) o
              (found_text (find_member (codes "module") sent) (unfold find_text in f))
              (unfold text_field in e) in
          extract_module_address-some (some (obj sent)) a e ∙ (rw same (to_lower_idem address))
    ]

-- The module that is read out of an action sent is the one that was signed, in small letters.
extract_module_address-IsNormalized :
    (o : Order) (action : RawMessage) (n : IsNormalized o action)
    → is_evm_address (extract_module_address action) ≡ true
    → extract_module_address action ≡ to_lower n.module_text
extract_module_address-IsNormalized o action n h =
    let same = n.sent_object in
    rw same (
      extract_module_address-obj n.sent n.module_text n.in_order (n.module_lowered).sent_as
        (rw (← same) h))

in_role_ok :
    {A : Type 0} (wrap : ActionError → ExecutorError) (r : Result ActionError A) {a : A}
    → in_role wrap r ≡ ok a
    → r ≡ ok a
unfolding in_role
in_role_ok wrap (ok b) h = ap ok (ok_inj h)
in_role_ok wrap (err e) h = cc

valid : (b : Bool) → not b ≡ false → b ≡ true
valid b h = ground arith

pub build_executor_request-IsRequest :
    (float : Text → Option Text) (market : Text) (c : MatchCandidate)
    (manager_data price amount : Text) {req : ExecutorRequest}
    → build_executor_request float market c manager_data price amount ≡ ok req
    → IsRequest c price amount req
unfolding build_executor_request
build_executor_request-IsRequest float market c manager_data price amount {req} h =
    fail_if-elim (not (is_evm_address (c.taker).asset_address)) _ _ h λ asset h₁.
      >>=-elim (in_role bad_taker_action (normalize_action float (c.taker))) _ h₁ λ ta et h₂.
        >>=-elim (in_role bad_maker_action (normalize_action float (c.maker))) _ h₂ λ ma em h₃.
          fail_if-elim (not (is_evm_address (extract_module_address ta))) _ _ h₃ λ taker_address h₄.
            fail_if-elim (not (text_eq (extract_module_address ma) (extract_module_address ta))) _ _
              h₄
              λ agree h₅.
                let nt =
                  normalize_action-IsNormalized float c.taker
                    (in_role_ok bad_taker_action (normalize_action float c.taker) et) in
                let nm =
                  normalize_action-IsNormalized float c.maker
                    (in_role_ok bad_maker_action (normalize_action float c.maker) em) in
                let same =
                  (text_eq_iff (extract_module_address ma) (extract_module_address ta)).0
                    (valid _ agree) in
                let built = sym (ok_inj h₅) in
                rw built (record {
                  taker_action = ta;
                  maker_action = ma;
                  taker_sent = nt;
                  maker_sent = nm;
                  actions = refl;
                  signatures = refl;
                  taker_module =
                      extract_module_address-IsNormalized c.taker ta nt (valid _ taker_address);
                  maker_module =
                      sym same
                      ∙ extract_module_address-IsNormalized c.maker ma nm
                          (rw same (valid _ taker_address));
                  taker_pays = refl;
                  maker_filled = refl;
                  asset = refl;
                  is_asset = valid _ asset;
                })
