-- ===== src/Api/Custody/Cache.antt =====
-- The guard over a run of requests.
use markets_service.Api.Custody.{
  CallError, CustodyError, CustodyConfig, CustodyChecker, unguarded, rejecting, chain, Checker,
  Post, is_hex_address, new_custody_checker, decode_address, last40, pad_word, ask_address,
  remember, sub_accounts_address, with_address, validate_deposited, guard,
}
use markets_service.Api.Custody.Deposit.{
  Admits, Names, IsDeposited, ask_address-Knows, validate_deposited-Admits,
}
use markets_service.Base.{
  ◌≡◌, refl, sym, ap, Bool-cases, true, false, not, List, [], ◌∷◌, drop, Result, ok, err, ◌⊎◌, inl,
  inr, subst, Bool, ◌∙◌, fail_if-elim, ok_inj, Member,
}
use markets_service.Orders.Entry.{is_some}
use markets_service.Text.{Text, codes, is_empty, to_lower, trim_space, has_prefix}
use markets_service.Text.Hex.{decode_string}

abbrev pub Request : Type 0
Request = Post × Text

-- The guard of a configuration, as requests that run at the same time see it. A request reads the
-- cache under its lock, and one that found it empty writes it, later, under its lock: in between other
-- requests may have found it empty, and may have written it.
pub data Runs (cfg : CustodyConfig) : List Request → CustodyChecker → Type 0 where
  starts : Runs cfg [] (new_custody_checker cfg)
  reads :
      {rs : List Request} {g : CustodyChecker} (r : Request) → Runs cfg rs g → Runs cfg (r ∷ rs) g
  writes :
      {rs seen : List Request} {c found : Checker} (post : Post) (id address : Text) (c' : Checker)
      → Runs cfg seen (chain found)
      → is_empty found.sub_accounts_addr ≡ true
      → ask_address post found ≡ ok (address, c')
      → Runs cfg rs (chain c)
      → Runs cfg ((post, id) ∷ rs) (chain (remember address c))

decode_address_filled : (t : Text) {a : Text} → decode_address t ≡ ok a → is_empty a ≡ false
unfolding decode_address
decode_address_filled t {a} h =
    fail_if-elim (not (has_prefix (trim_space (to_lower t)) (codes "0x"))) _ _ h λ p h₁.
      fail_if-elim
        (not (is_some (decode_string (last40 (pad_word (drop 2 (trim_space (to_lower t)))))))) _ _
        h₁ λ d h₂. rw (← ok_inj h₂) refl

abbrev pub new_checker : CustodyConfig → Checker
new_checker cfg = record {
  matching_address = to_lower (trim_space cfg.matching_address);
  sub_accounts_addr = [];
}

new_custody_checker_rejecting :
    (cfg : CustodyConfig)
    → cfg.enforce_matching_custody ≡ true
    → is_hex_address cfg.matching_address ≡ true
    → is_empty (trim_space cfg.chain_rpc_url) ≡ true
    → new_custody_checker cfg ≡ rejecting
unfolding new_custody_checker
new_custody_checker_rejecting cfg on address e = rw (on, address, e) refl

new_custody_checker_chain :
    (cfg : CustodyConfig)
    → cfg.enforce_matching_custody ≡ true
    → is_hex_address cfg.matching_address ≡ true
    → is_empty (trim_space cfg.chain_rpc_url) ≡ false
    → new_custody_checker cfg ≡ chain (new_checker cfg)
unfolding new_custody_checker
new_custody_checker_chain cfg on address e = rw (on, address, e) refl

-- A request that is served while no other one is.
with_address-Runs :
    (cfg : CustodyConfig) (rs : List Request) (post : Post) (id trimmed : Text) (c : Checker)
    (r : Result CallError (Text × Checker))
    → is_empty c.sub_accounts_addr ≡ true
    → ask_address post c ≡ r
    → Runs cfg rs (chain c)
    → Runs cfg ((post, id) ∷ rs) (chain (with_address post trimmed c r).1)
unfolding with_address
with_address-Runs cfg rs post id trimmed c (err e) empty q k = reads (post, id) k
with_address-Runs cfg rs post id trimmed c (ok (address, c')) empty q k =
    let known = ask_address-Knows post c empty q in
    let same : remember address c ≡ c' = rw (sym known.same_matching, sym known.remembered) refl in
    subst (λ (x : Checker). Runs cfg ((post, id) ∷ rs) (chain x)) same
      (writes post id address c' k empty q k)

-- The model of one request is such a run.
pub validate_deposited-Runs :
    (cfg : CustodyConfig) (rs : List Request) (post : Post) (id : Text) (c : Checker)
    → Runs cfg rs (chain c)
    → Runs cfg ((post, id) ∷ rs) (chain (validate_deposited post id c).1)
unfolding validate_deposited sub_accounts_address
validate_deposited-Runs cfg rs post id c k = elim (Bool-cases (is_empty (trim_space id))) [
  | inl e ↦ rw e (reads (post, id) k)
  | inr e ↦ elim (Bool-cases (is_empty c.sub_accounts_addr)) [
    | inl q ↦
        rw (e, q) (with_address-Runs cfg rs post id (trim_space id) c (ask_address post c) q refl k)
    | inr q ↦ rw (e, q) (unfold with_address in reads (post, id) k)
  ]
]

-- What the cache holds: nothing, or what the matching contract named to one of the requests.
pub record IsCached (cfg : CustodyConfig) (rs : List Request) (c : Checker) : Type 0 where
  pub matching : c.matching_address ≡ to_lower (trim_space cfg.matching_address)
  pub known :
      (is_empty c.sub_accounts_addr ≡ true)
      ⊎ ((post : Post) × (id : Text) × Member (post, id) rs
          × Names post c.matching_address c.sub_accounts_addr
          × (is_empty c.sub_accounts_addr ≡ false))

IsCached-more :
    (cfg : CustodyConfig) (r : Request) (rs : List Request) (c : Checker)
    → IsCached cfg rs c
    → IsCached cfg (r ∷ rs) c
IsCached-more cfg r rs c k = record {
  matching = k.matching;
  known = elim (k.known) [
    | inl e ↦ inl e
    | inr (p, i, m, names, full) ↦ inr (p, i, inr m, names, full)
  ];
}

abbrev is_unguarded : CustodyChecker → Bool
is_unguarded unguarded = true
is_unguarded _ = false

-- The checker of a guard that has one, and what is known of it.
abbrev Cached : CustodyConfig → List Request → CustodyChecker → Type 0
Cached cfg rs unguarded = Unit {0}
Cached cfg rs rejecting = Unit {0}
Cached cfg rs (chain c) = IsCached cfg rs c

-- Where the guard has a checker, its cache is empty, and it is the configuration's.
starts-Cached : (cfg : CustodyConfig) → Cached cfg [] (new_custody_checker cfg)
unfolding new_custody_checker
starts-Cached cfg = elim (Bool-cases (not cfg.enforce_matching_custody)) [
  | inl off ↦ rw off tt
  | inr on ↦ elim (Bool-cases (not (is_hex_address cfg.matching_address))) [
    | inl bad ↦ rw (on, bad) tt
    | inr good ↦ elim (Bool-cases (is_empty (trim_space cfg.chain_rpc_url))) [
      | inl e ↦ rw (on, good, e) tt
      | inr e ↦ rw (on, good, e) (record { matching = refl; known = inl refl })
    ]
  ]
]

Cached-more :
    (cfg : CustodyConfig) (r : Request) (rs : List Request) (g : CustodyChecker)
    → Cached cfg rs g
    → Cached cfg (r ∷ rs) g
Cached-more cfg r rs unguarded k = tt
Cached-more cfg r rs rejecting k = tt
Cached-more cfg r rs (chain c) k = IsCached-more cfg r rs c k

asked-Names :
    (post : Post) (found : Checker) {address : Text} {c' : Checker}
    → is_empty found.sub_accounts_addr ≡ true
    → ask_address post found ≡ ok (address, c')
    → Names post found.matching_address address
asked-Names post found empty asked = elim ((ask_address-Knows post found empty asked).source) [
  | inl (full, same) ↦ absurd (cc)
  | inr (e, names) ↦ names
]

Runs-Cached :
    (cfg : CustodyConfig) (rs : List Request) (g : CustodyChecker) → Runs cfg rs g → Cached cfg rs g
Runs-Cached cfg rs g starts = starts-Cached cfg
Runs-Cached cfg rs g (reads {rs = before} r k) =
    Cached-more cfg r before g (Runs-Cached cfg before g k)
Runs-Cached cfg rs g
      (writes {rs = before} {seen = seen} {c = c} {found = found} post id address c' k empty asked
        now) =
    let seen_by = (Runs-Cached cfg seen (chain found) k).matching in
    let held = (Runs-Cached cfg before (chain c) now).matching in
    let named = asked-Names post found empty asked in
    record {
      matching = held;
      known = inr (
        post,
        id,
        inl refl,
        subst (λ m. Names post m address) (seen_by ∙ sym held) named,
        decode_address_filled named.answer named.decoded,
      );
    }

-- The guard admits the subaccount: the matching contract of the configuration owns it in the contract
-- of subaccounts, which the matching contract has named to this request or to one before, and has an
-- owner recorded for it.
pub record IsAdmitted (cfg : CustodyConfig) (rs : List Request) (post : Post) (id : Text)
    : Type 0 where
  pub contract : Text
  pub teller : Post
  pub told : (teller ≡ post) ⊎ ((other : Text) × Member (teller, other) rs)
  pub names : Names teller (to_lower (trim_space cfg.matching_address)) contract
  pub deposited :
      IsDeposited post (to_lower (trim_space cfg.matching_address)) contract (trim_space id)

admitted :
    (cfg : CustodyConfig) (rs : List Request) (post : Post) (id : Text) (c c' : Checker)
    → IsCached cfg rs c
    → Admits post id c c'
    → IsAdmitted cfg rs post id
admitted cfg rs post id c c' k a =
    let here = subst (λ m. IsDeposited post m a.contract (trim_space id)) k.matching a.deposited in
    elim ((a.knows).source) [
      | inr (empty, names) ↦ record {
        contract = a.contract;
        teller = post;
        told = inl refl;
        names = subst (λ m. Names post m a.contract) k.matching names;
        deposited = here;
      }
      | inl (full, same) ↦ elim (k.known) [
        | inl empty ↦ absurd (cc (sym full ∙ empty))
        | inr (p, i, m, names, filled) ↦ record {
          contract = a.contract;
          teller = p;
          told = inr (i, m);
          names =
              subst (λ x. Names p x a.contract) k.matching
                (subst (λ x. Names p c.matching_address x) same names);
          deposited = here;
        }
      ]
    ]

-- A guard of a configuration that enforces custody of a matching address always checks.
guarding :
    (cfg : CustodyConfig) (rs : List Request) (g : CustodyChecker)
    → cfg.enforce_matching_custody ≡ true
    → is_hex_address cfg.matching_address ≡ true
    → Runs cfg rs g
    → is_unguarded g ≡ false
guarding cfg rs g on address starts = elim (Bool-cases (is_empty (trim_space cfg.chain_rpc_url))) [
  | inl e ↦ rw (new_custody_checker_rejecting cfg on address e) refl
  | inr e ↦ rw (new_custody_checker_chain cfg on address e) refl
]
guarding cfg rs g on address (reads {rs = before} r k) = guarding cfg before g on address k
guarding cfg rs g on address (writes post id a c' k empty asked now) = refl

guard-Admitted :
    (cfg : CustodyConfig) (rs : List Request) (post : Post) (id : Text) (g : CustodyChecker)
    → is_unguarded g ≡ false
    → Cached cfg rs g
    → (guard post id g).0 ≡ ok tt
    → IsAdmitted cfg rs post id
unfolding guard
guard-Admitted cfg rs post id unguarded on k h = absurd (cc on)
guard-Admitted cfg rs post id rejecting on k h = absurd (cc h)
guard-Admitted cfg rs post id (chain c) on k h =
    admitted cfg rs post id c (validate_deposited post id c).1 k (
      validate_deposited-Admits post id c (validate_deposited post id c).1
        (ap (λ (x : Result CustodyError (Unit {0})). (x, (validate_deposited post id c).1)) h))

-- Where custody of a matching address is enforced: whatever requests have come before or at the same
-- time, an order passes the guard only if the contract of subaccounts says that the matching address,
-- in small letters, owns its subaccount, and the matching contract has an owner recorded for it; and
-- that contract is the one that the matching contract has named to this request or to an earlier one.
pub guard-IsAdmitted :
    (cfg : CustodyConfig) (rs : List Request) (post : Post) (id : Text) (g : CustodyChecker)
    → cfg.enforce_matching_custody ≡ true
    → is_hex_address cfg.matching_address ≡ true
    → Runs cfg rs g
    → (guard post id g).0 ≡ ok tt
    → IsAdmitted cfg rs post id
guard-IsAdmitted cfg rs post id g on address k h =
    guard-Admitted cfg rs post id g (guarding cfg rs g on address k) (Runs-Cached cfg rs g k) h
