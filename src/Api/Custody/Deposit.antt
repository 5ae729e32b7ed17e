-- ===== src/Api/Custody/Deposit.antt =====
-- What the chain has said of a subaccount that the guard admits, and what the guard remembers.
use markets_service.Api.Custody.{
  CallError, CustodyError, Checker, Post, zero_address, read_owner, read_record, eth_call,
  encode_uint256, decode_address, call_address, ask_address, with_address, sub_accounts_address,
  wrap_call, check_deposited, validate_deposited,
}
use markets_service.Api.Custody.Laws.{IsWord, encode_uint256-IsWord}
use markets_service.Base.{
  ◌≡◌, refl, sym, ◌∙◌, ap, Bool-cases, true, false, not, ◌++◌, Result, ok, err, ◌⊎◌, inl, inr,
  >>=-elim, fail_if-elim, ok_inj, arith,
}
use markets_service.Text.{Text, codes, text_eq, is_empty, trim_space}
use markets_service.Text.Laws.{text_eq_iff}

-- The contract answers a call for the subaccount with this address.
pub record Answers (post : Post) (contract selector id address : Text) : Type 0 where
  pub word : Text
  pub answer : Text
  pub is_word : IsWord id word
  pub answered : eth_call post contract (selector ++ word) ≡ ok answer
  pub decoded : decode_address answer ≡ ok address

-- The matching contract owns the subaccount, and has an owner recorded for it.
pub record IsDeposited (post : Post) (matching contract id : Text) : Type 0 where
  pub owned : Answers post contract (codes "0x6352211e") id matching
  pub recorded : Text
  pub record_read : Answers post matching (codes "0x63f1ddaa") id recorded
  pub has_owner : text_eq recorded zero_address ≡ false

-- The matching contract names its contract of subaccounts.
pub record Names (post : Post) (matching contract : Text) : Type 0 where
  pub answer : Text
  pub answered : eth_call post matching (codes "0x779e5012") ≡ ok answer
  pub decoded : decode_address answer ≡ ok contract

call_address-Answers :
    (post : Post) (contract selector id : Text) {address : Text}
    → call_address post contract selector id ≡ ok address
    → Answers post contract selector id address
unfolding call_address
call_address-Answers post contract selector id h =
    >>=-elim (encode_uint256 id) _ h λ word encoded h₁.
      >>=-elim (eth_call post contract (selector ++ word)) _ h₁ λ answer answered h₂. record {
        word = word;
        answer = answer;
        is_word = encode_uint256-IsWord id encoded;
        answered = answered;
        decoded = h₂;
      }

wrap_call_ok :
    {A : Type 0} (f : CallError → CustodyError) (r : Result CallError A) {a : A}
    → wrap_call f r ≡ ok a
    → r ≡ ok a
unfolding wrap_call
wrap_call_ok f (ok b) h = ap ok (ok_inj h)
wrap_call_ok f (err e) h = cc

check_deposited-IsDeposited :
    (post : Post) (matching contract id : Text) {u : Unit {0}}
    → check_deposited post matching contract id ≡ ok u
    → IsDeposited post matching contract id
unfolding check_deposited
check_deposited-IsDeposited post matching contract id h =
    >>=-elim (wrap_call read_owner (call_address post contract (codes "0x6352211e") id)) _ h
      λ owner eo h₁. fail_if-elim (not (text_eq owner matching)) _ _ h₁ λ own h₂.
        >>=-elim (wrap_call read_record (call_address post matching (codes "0x63f1ddaa") id)) _ h₂
          λ recorded er h₃.
            let same : owner ≡ matching = (text_eq_iff owner matching).0 (ground arith) in
            record {
              owned = rw (← same) (
                  call_address-Answers post contract (codes "0x6352211e") id (
                    wrap_call_ok read_owner (call_address post contract (codes "0x6352211e") id)
                      eo));
              recorded = recorded;
              record_read = call_address-Answers post matching (codes "0x63f1ddaa") id (
                  wrap_call_ok read_record (call_address post matching (codes "0x63f1ddaa") id) er);
              has_owner = ground (arith, h₃);
            }

-- The checker that knows the contract, and where it knows it from.
pub record Knows (post : Post) (c c' : Checker) (contract : Text) : Type 0 where
  pub same_matching : c'.matching_address ≡ c.matching_address
  pub remembered : c'.sub_accounts_addr ≡ contract
  pub source :
      ((is_empty c.sub_accounts_addr ≡ false) × (c.sub_accounts_addr ≡ contract))
      ⊎ ((is_empty c.sub_accounts_addr ≡ true) × Names post c.matching_address contract)

pub ask_address-Knows :
    (post : Post) (c : Checker) {contract : Text} {c' : Checker}
    → is_empty c.sub_accounts_addr ≡ true
    → ask_address post c ≡ ok (contract, c')
    → Knows post c c' contract
unfolding ask_address
ask_address-Knows post c {contract} {c'} empty h =
    >>=-elim (eth_call post c.matching_address (codes "0x779e5012")) _ h λ answer answered h₁.
      >>=-elim (decode_address answer) _ h₁ λ address decoded h₂.
        let same = ok_inj h₂ in
        let named : address ≡ contract = ap (λ x. x.0) same in
        record {
          same_matching = ap (λ x. (x.1).matching_address) (sym same);
          remembered = ap (λ x. (x.1).sub_accounts_addr) (sym same) ∙ named;
          source = inr (
            empty,
            record { answer = answer; answered = answered; decoded = decoded ∙ ap ok named },
          );
        }

sub_accounts_address-Knows :
    (post : Post) (c : Checker) {contract : Text} {c' : Checker}
    → sub_accounts_address post c ≡ ok (contract, c')
    → Knows post c c' contract
sub_accounts_address-Knows post c {contract} {c'} h =
    elim (Bool-cases (is_empty c.sub_accounts_addr)) [
      | inl e ↦ ask_address-Knows post c e (unfold sub_accounts_address in ground arith)
      | inr e ↦
          let known : c.sub_accounts_addr ≡ contract =
            unfold sub_accounts_address in ground arith in
          let same : c ≡ c' = unfold sub_accounts_address in ground arith in
          record {
            same_matching = ap (λ (x : Checker). x.matching_address) (sym same);
            remembered = ap (λ (x : Checker). x.sub_accounts_addr) (sym same) ∙ known;
            source = inl (e, known);
          }
    ]

-- A check that admits a subaccount.
pub record Admits (post : Post) (id : Text) (c c' : Checker) : Type 0 where
  pub contract : Text
  pub knows : Knows post c c' contract
  pub deposited : IsDeposited post c.matching_address contract (trim_space id)

with_address-Admits :
    (post : Post) (id : Text) (c c' : Checker) (r : Result CallError (Text × Checker))
    → sub_accounts_address post c ≡ r
    → (u : Unit {0}) × (with_address post (trim_space id) c r ≡ (ok u, c'))
    → Admits post id c c'
unfolding with_address
with_address-Admits post id c c' (err e) q (u, h) = absurd (cc)
with_address-Admits post id c c' (ok (contract, d)) q (u, h) = record {
  contract = contract;
  knows = rw (← ap (λ x. x.1) h) (sub_accounts_address-Knows post c q);
  deposited =
      check_deposited-IsDeposited post c.matching_address contract (trim_space id)
        (ap (λ x. x.0) h);
}

-- An order passes the guard only if its subaccount is deposited: the contract of subaccounts, which
-- is the cached one or else the one that the matching contract names, says that the matching contract
-- owns the subaccount's number, and the matching contract has an owner recorded for it. The contract
-- is remembered.
pub validate_deposited-Admits :
    (post : Post) (id : Text) (c c' : Checker) {u : Unit {0}}
    → validate_deposited post id c ≡ (ok u, c')
    → Admits post id c c'
unfolding validate_deposited
validate_deposited-Admits post id c c' {u} h =
    with_address-Admits post id c c' (sub_accounts_address post c) refl (u, ground arith)
