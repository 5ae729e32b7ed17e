-- ===== src/Matching/Executor/Actions.antt =====
-- What `normalizeAction` keeps of the action that was signed, and what it makes sure of.
use markets_service.Base.{
  Bool, true, false, not, Option, none, some, ok, ◌≡◌, refl, sym, ◌∙◌, >>=-elim, fail_if-elim,
  or_error-eq-ok, ok_inj, arith,
}
use markets_service.Json.{null, bool, num, str, arr, obj, RawMessage, Members, end, find_member}
use markets_service.Json.Maps.{map_of, find_text, as_text}
use markets_service.Json.Maps.Laws.{find_text-put_same, find_text-put_other, find_text-decoded}
use markets_service.Json.Maps.Sorted.{IsSorted, IsSorted-end, IsSorted-put, IsSorted-map_of}
use markets_service.Matching.Executor.{
  is_evm_address, check_fields, required_fields, passes, or_empty, unmarshal_map, normalize_action,
  put_addresses, names_text, names_account, address_under,
}
use markets_service.Orders.{Order}
use markets_service.Text.{Text, codes, text_eq, to_lower, trim_space, strip}
use markets_service.Text.Laws.{text_eq_iff}

-- Under the key stood an address, and now stands the same in small letters.
pub record IsLowered (key address : Text) (signed sent : Members) : Type 0 where
  pub signed_as : find_text key signed ≡ some address
  pub sent_as : find_text key sent ≡ some (to_lower address)
  pub is_address : is_evm_address address ≡ true

-- The action sent for an order is the signed one, but for the letters of three addresses, and it
-- names the order's subaccount, nonce, owner and signer.
pub record IsNormalized (o : Order) (action : RawMessage) : Type 0 where
  pub signed : Members
  pub sent : Members
  pub signed_object : o.action_json ≡ some (obj signed)
  pub sent_object : action ≡ some (obj sent)
  pub in_order : IsSorted sent
  pub keeps :
      (key : Text)
      → text_eq (codes "module") key ≡ false
      → text_eq (codes "owner") key ≡ false
      → text_eq (codes "signer") key ≡ false
      → find_text key sent ≡ find_text key signed
  pub names_subaccount : find_text (codes "subaccount_id") signed ≡ some o.subaccount_id
  pub names_nonce : find_text (codes "nonce") signed ≡ some o.nonce
  pub module_text : Text
  pub owner : Text
  pub signer : Text
  pub module_lowered : IsLowered (codes "module") module_text signed sent
  pub owner_lowered : IsLowered (codes "owner") owner signed sent
  pub signer_lowered : IsLowered (codes "signer") signer signed sent
  pub owner_named : to_lower owner ≡ to_lower o.owner_address
  pub signer_named : to_lower signer ≡ to_lower o.signer_address

passes-elim :
    (test : Text → Bool) (found : Option Text)
    → not (passes test found) ≡ false
    → (s : Text) × (found ≡ some s) × (test s ≡ true)
passes-elim test none h = cc
passes-elim test (some s) h = (s, refl, ground arith)

-- A map that has a field was decoded from an object.
unmarshal_map-obj :
    (float : Text → Option Text) (raw : RawMessage) {action : Members} {s : Text} (key : Text)
    → unmarshal_map float raw ≡ ok action
    → find_text key action ≡ some s
    → (signed : Members) × (raw ≡ some (obj signed)) × (map_of float signed end ≡ some action)
unfolding unmarshal_map
unmarshal_map-obj float none key h f = cc
unmarshal_map-obj float (some null) {action} key h f =
    let e : end ≡ action = ok_inj h in
    let nothing : find_text key action ≡ none =
      rw (← e) (unfold find_text find_member as_text in refl) in
    cc
unmarshal_map-obj float (some (bool b)) key h f = cc
unmarshal_map-obj float (some (num n)) key h f = cc
unmarshal_map-obj float (some (str s)) key h f = cc
unmarshal_map-obj float (some (arr xs)) key h f = cc
unmarshal_map-obj float (some (obj ms)) key h f = (ms, refl, or_error-eq-ok _ _ h)

-- Under each key the map finds the last assignment to it.
put_addresses-other :
    (m o s : Text) (action : Members) (key : Text)
    → text_eq (codes "module") key ≡ false
    → text_eq (codes "owner") key ≡ false
    → text_eq (codes "signer") key ≡ false
    → find_text key (put_addresses m o s action) ≡ find_text key action
unfolding put_addresses
put_addresses-other m o s action key hm ho hs =
    find_text-put_other key (codes "signer") _ _ hs
    ∙ find_text-put_other key (codes "owner") _ _ ho
    ∙ find_text-put_other key (codes "module") _ _ hm

find_text-module :
    (m o s : Text) (action : Members)
    → find_text (codes "module") (put_addresses m o s action) ≡ some (to_lower m)
unfolding put_addresses text_eq
find_text-module m o s action =
    find_text-put_other (codes "module") (codes "signer") _ _ refl
    ∙ find_text-put_other (codes "module") (codes "owner") _ _ refl
    ∙ find_text-put_same (codes "module") (to_lower m) action

find_text-owner :
    (m o s : Text) (action : Members)
    → find_text (codes "owner") (put_addresses m o s action) ≡ some (to_lower o)
unfolding put_addresses text_eq
find_text-owner m o s action =
    find_text-put_other (codes "owner") (codes "signer") _ _ refl
    ∙ find_text-put_same (codes "owner") (to_lower o) _

find_text-signer :
    (m o s : Text) (action : Members)
    → find_text (codes "signer") (put_addresses m o s action) ≡ some (to_lower s)
unfolding put_addresses
find_text-signer m o s action = find_text-put_same (codes "signer") (to_lower s) _

put_addresses-IsSorted :
    (m o s : Text) (action : Members) → IsSorted action → IsSorted (put_addresses m o s action)
unfolding put_addresses
put_addresses-IsSorted m o s action h =
    IsSorted-put (codes "signer") _ _
      (IsSorted-put (codes "owner") _ _ (IsSorted-put (codes "module") _ action h))

-- What is an address was a text of the map.
or_empty_address :
    (found : Option Text)
    → not (is_evm_address (or_empty found)) ≡ false
    → (found ≡ some (or_empty found)) × (is_evm_address (or_empty found) ≡ true)
or_empty_address none h = absurd (unfold is_evm_address trim_space strip in cc)
or_empty_address (some s) h = (refl, ground arith)

IsLowered-address_under :
    (key : Text) (action : Members) {signed sent : Members}
    → find_text key action ≡ find_text key signed
    → find_text key sent ≡ some (to_lower (address_under key action))
    → not (is_evm_address (address_under key action)) ≡ false
    → IsLowered key (address_under key action) signed sent
IsLowered-address_under key action same changed h =
    let (found, valid) = or_empty_address (find_text key action) h in
    record { signed_as = sym same ∙ found; sent_as = changed; is_address = valid }

-- The text that a field was found equal to.
named :
    (key expected : Text) (action : Members)
    → not (names_text key expected action) ≡ false
    → find_text key action ≡ some expected
named key expected action h =
    let (s, found, same) = passes-elim (λ s. text_eq s expected) (find_text key action) h in
    rw (← (text_eq_iff s expected).0 same) found

named_account :
    (key expected : Text) (action : Members)
    → not (names_account key expected action) ≡ false
    → to_lower (address_under key action) ≡ to_lower expected
named_account key expected action h =
    let (s, found, same) =
      passes-elim (λ s. text_eq (to_lower s) (to_lower expected)) (find_text key action) h in
    rw found ((text_eq_iff (to_lower s) (to_lower expected)).0 same)

pub normalize_action-IsNormalized :
    (float : Text → Option Text) (o : Order) {sent : RawMessage}
    → normalize_action float o ≡ ok sent
    → IsNormalized o sent
unfolding normalize_action
normalize_action-IsNormalized float o h =
    >>=-elim (unmarshal_map float o.action_json) _ h λ action decoded h₁.
      >>=-elim (check_fields required_fields action) _ h₁ λ u checked h₂.
        fail_if-elim (not (names_text (codes "subaccount_id") o.subaccount_id action)) _ _ h₂
          λ named_subaccount h₃.
            fail_if-elim (not (names_text (codes "nonce") o.nonce action)) _ _ h₃ λ named_nonce h₄.
              fail_if-elim (not (names_account (codes "owner") o.owner_address action)) _ _ h₄
                λ named_owner h₅.
                  fail_if-elim (not (names_account (codes "signer") o.signer_address action)) _ _ h₅
                    λ named_signer h₆.
                      fail_if-elim (not (is_evm_address (address_under (codes "module") action))) _
                        _ h₆
                        λ address_module h₇.
                          fail_if-elim (not (is_evm_address (address_under (codes "owner") action)))
                            _ _ h₇
                            λ address_owner h₈.
                              fail_if-elim
                                (not (is_evm_address (address_under (codes "signer") action))) _ _
                                h₈
                                λ address_signer h₉.
                                  let (ms, raw, mapped) =
                                    unmarshal_map-obj float o.action_json (codes "nonce") decoded
                                      (named (codes "nonce") o.nonce action named_nonce) in
                                  let m = address_under (codes "module") action in
                                  let w = address_under (codes "owner") action in
                                  let s = address_under (codes "signer") action in
                                  record {
                                    signed = ms;
                                    sent = put_addresses m w s action;
                                    signed_object = raw;
                                    sent_object = sym (ok_inj h₉);
                                    in_order =
                                        put_addresses-IsSorted m w s action
                                          (IsSorted-map_of float ms end IsSorted-end mapped);
                                    keeps = λ key hm ho hs.
                                        put_addresses-other m w s action key hm ho hs
                                        ∙ find_text-decoded float key ms mapped;
                                    names_subaccount =
                                        sym (
                                          find_text-decoded float (codes "subaccount_id") ms mapped)
                                        ∙ named (codes "subaccount_id") o.subaccount_id action
                                            named_subaccount;
                                    names_nonce =
                                        sym (find_text-decoded float (codes "nonce") ms mapped)
                                        ∙ named (codes "nonce") o.nonce action named_nonce;
                                    module_text = m;
                                    owner = w;
                                    signer = s;
                                    module_lowered =
                                        IsLowered-address_under (codes "module") action
                                          (find_text-decoded float (codes "module") ms mapped)
                                          (find_text-module m w s action) address_module;
                                    owner_lowered =
                                        IsLowered-address_under (codes "owner") action
                                          (find_text-decoded float (codes "owner") ms mapped)
                                          (find_text-owner m w s action) address_owner;
                                    signer_lowered =
                                        IsLowered-address_under (codes "signer") action
                                          (find_text-decoded float (codes "signer") ms mapped)
                                          (find_text-signer m w s action) address_signer;
                                    owner_named =
                                        named_account (codes "owner") o.owner_address action
                                          named_owner;
                                    signer_named =
                                        named_account (codes "signer") o.signer_address action
                                          named_signer;
                                  }
