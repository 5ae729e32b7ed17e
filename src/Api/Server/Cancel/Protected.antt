-- ===== src/Api/Server/Cancel/Protected.antt =====
-- The orders that a request to cancel cannot reach.
use markets_service.Api.Server.Cancel.{
  CancelOrderRequest, validate, find_prefix, validate_cancel_namespace, cancelled_as, cancel_target,
  handle_cancel_order, cancel_unless, cancel_valid,
}
use markets_service.Base.{
  ◌≡◌, refl, sym, ap, ◌∙◌, Bool, Bool-cases, true, false, List, [], ◌∷◌, map, Option, none, some,
  Result, ok, err, inl, inr, ◌⊎◌, subst, or_error-elim, or_error-eq-ok, ok_inj, arith, All,
  All-Member, Member, Member-append_left,
}
use markets_service.Orders.{Order, Store, Numeric, RepoError, bad_numeric, not_found, cancelled}
use markets_service.Orders.Entry.{cancellable, find_active_by_owner_nonce, cancel_by_owner_nonce}
use markets_service.Orders.Reach.{Reach, Reach-IsValid, Reach-terms}
use markets_service.Orders.Table.{find_row, set_status}
use markets_service.Orders.Table.Laws.{find_row-some, Member-update_where}
use markets_service.Orders.Validity.{IsValid, NoClash, clash, terms}
use markets_service.Text.{Text, text_eq, is_empty, to_lower, trim_space, has_prefix}
use markets_service.Text.Laws.{text_eq_iff}

-- Two texts are one number: an equivalence, as in PostgreSQL.
pub record IsEquivalence (same : Text → Text → Bool) : Type 0 where
  pub symmetric : (a b : Text) → same a b ≡ true → same b a ≡ true
  pub transitive : (a b c : Text) → same a b ≡ true → same b c ≡ true → same a c ≡ true

-- No protected prefix begins the id of the order.
abbrev pub Unprotected : List Text → Order → Type 0
Unprotected prefixes o = All (λ p. has_prefix (to_lower (trim_space o.order_id)) p ≡ false) prefixes

find_prefix-none :
    (ps : List Text) (s : Text) → find_prefix ps s ≡ none → All (λ p. has_prefix s p ≡ false) ps
unfolding find_prefix
find_prefix-none [] s h = tt
find_prefix-none (p ∷ ps) s h = elim (Bool-cases (has_prefix s p)) [
  | inl e ↦ absurd (ground arith)
  | inr e ↦ (e, find_prefix-none ps s (ground arith))
]

-- Two rows that clash both ways are one row.
one_row :
    (num : Numeric) (os : List Order) (x y : Order)
    → NoClash num os
    → Member x os
    → Member y os
    → clash num x y ≡ true
    → clash num y x ≡ true
    → x ≡ y
one_row num [] x y n mx my h k = elim mx [ ]
one_row num (o ∷ os) x y n (inl p) (inl q) h k = p ∙ sym q
one_row num (o ∷ os) x y n (inl p) (inr my) h k =
    let apart : clash num o y ≡ false = All-Member (λ r. clash num o r ≡ false) y os n.0 my in
    let met : clash num o y ≡ true = rw (← p) h in absurd (cc)
one_row num (o ∷ os) x y n (inr mx) (inl q) h k =
    let apart : clash num o x ≡ false = All-Member (λ r. clash num o r ≡ false) x os n.0 mx in
    let met : clash num o x ≡ true = rw (← q) k in absurd (cc)
one_row num (o ∷ os) x y n (inr mx) (inr my) h k = one_row num os x y n.1 mx my h k

Member-map :
    (g : Order → Order) (o : Order) (os : List Order) → Member o os → Member (g o) (map g os)
Member-map g o [] m = m
Member-map g o (x ∷ os) (inl e) = inl (ap g e)
Member-map g o (x ∷ os) (inr m) = inr (Member-map g o os m)

owners-clash :
    (num : Numeric) (owner nonce : Text) (x y : Order)
    → IsEquivalence num.same
    → cancellable num owner nonce x ≡ true
    → cancellable num owner nonce y ≡ true
    → clash num (terms x) (terms y) ≡ true
unfolding terms
owners-clash num owner nonce x y eq hx hy =
    let ox : text_eq x.owner_address owner ≡ true = ground arith in
    let oy : text_eq y.owner_address owner ≡ true = ground arith in
    let nx : num.same x.nonce nonce ≡ true = ground arith in
    let ny : num.same y.nonce nonce ≡ true = ground arith in
    let both =
      (text_eq_iff x.owner_address owner).0 ox ∙ sym ((text_eq_iff y.owner_address owner).0 oy) in
    let owned = (text_eq_iff x.owner_address y.owner_address).1 both in
    let one = eq.transitive x.nonce nonce y.nonce nx (eq.symmetric y.nonce nonce ny) in
    ground (arith, owned, one)

-- The order that is cancelled is the one that was looked up, whatever other clients did in between.
same_target :
    (num : Numeric) (owner nonce : Text) (s u : Store) (x y : Order)
    → IsEquivalence num.same
    → IsValid num s
    → Reach num s u
    → Member x s.orders
    → cancellable num owner nonce x ≡ true
    → Member y u.orders
    → cancellable num owner nonce y ≡ true
    → terms x ≡ terms y
same_target num owner nonce s u x y eq v r mx hx my hy =
    let (new, grown) = Reach-terms num s u v r in
    one_row num (map terms u.orders) (terms x) (terms y) (Reach-IsValid num s u v r).no_clash
      (rw grown
        (Member-append_left (terms x) (map terms s.orders) new (Member-map terms x s.orders mx)))
      (Member-map terms y u.orders my) (owners-clash num owner nonce x y eq hx hy)
      (owners-clash num owner nonce y x eq hy hx)

found_target :
    (num : Numeric) (owner nonce : Text) (s : Store) (x : Order)
    → find_active_by_owner_nonce num owner nonce s ≡ ok x
    → Member x s.orders × (cancellable num owner nonce x ≡ true)
unfolding find_active_by_owner_nonce
found_target num owner nonce s x h = or_error-elim (num.stored nonce) bad_numeric _ h λ n en h₁.
    find_row-some (cancellable num owner nonce) s.orders x
      (or_error-eq-ok (find_row (cancellable num owner nonce) s.orders) not_found h₁)

terms-order_id : (x y : Order) → terms x ≡ terms y → x.order_id ≡ y.order_id
unfolding terms
terms-order_id x y h = ap (λ (z : Order). z.order_id) h

-- Where no prefix protects an order from a request of a service, none begins its id.
validate_cancel_namespace-none :
    (prefixes : List Text) (req : CancelOrderRequest) (x : Order)
    → is_empty (trim_space req.service) ≡ false
    → validate_cancel_namespace prefixes req x ≡ none
    → Unprotected prefixes x
unfolding validate_cancel_namespace
validate_cancel_namespace-none prefixes req x tagged h =
    find_prefix-none prefixes (to_lower (trim_space x.order_id)) (ground arith)

cancelled_rows :
    (num : Numeric) (owner nonce : Text) (u : Store) (o : Order)
    (r : Result RepoError (Order × Store))
    → cancel_by_owner_nonce num owner nonce u ≡ r
    → cancellable num owner nonce o ≡ false
    → Member o u.orders
    → Member o (cancelled_as r u).1.orders
unfolding cancelled_as cancel_by_owner_nonce
cancelled_rows num owner nonce u o (err e) q apart m = m
cancelled_rows num owner nonce u o (ok (p, w)) q apart m =
    or_error-elim (num.stored nonce) bad_numeric _ q λ n en q₁.
      or_error-elim (find_row (cancellable num owner nonce) u.orders) not_found _ q₁ λ y ey q₂.
        let rest = ap (λ (x : Order × Store). (x.1).orders) (ok_inj q₂) in
        subst (λ os. Member o os) rest
          (Member-update_where o (cancellable num owner nonce) (set_status cancelled) u.orders apart
            m)

-- A protected prefix begins the id of the order.
pub record IsProtected (prefixes : List Text) (o : Order) : Type 0 where
  pub prefix : Text
  pub configured : Member prefix prefixes
  pub begins : has_prefix (to_lower (trim_space o.order_id)) prefix ≡ true

not_both : (prefixes : List Text) (o : Order) → IsProtected prefixes o → Unprotected prefixes o → ⊥
not_both prefixes o y free =
    let begins = y.begins in
    let no =
      All-Member (λ p. has_prefix (to_lower (trim_space o.order_id)) p ≡ false) y.prefix prefixes
        free y.configured in
    absurd (cc (sym begins ∙ no))

module _ (num : Numeric) (prefixes : List Text) (req : CancelOrderRequest)
    (meanwhile : Store → Store) (s : Store) (o : Order) where
  -- The handler left the table that it found, or the order is a row of the table after it.
  abbrev Stays : Store → Type 0
  Stays t = (t ≡ s) ⊎ Member o t.orders

  cancel_unless-Stays :
      (x : Order) (found : Option Text)
      → find_active_by_owner_nonce num (to_lower req.owner_address) req.nonce s ≡ ok x
      → validate_cancel_namespace prefixes req x ≡ found
      → IsEquivalence num.same
      → IsValid num s
      → Reach num s (meanwhile s)
      → is_empty (trim_space req.service) ≡ false
      → IsProtected prefixes o
      → Member o (meanwhile s).orders
      → Stays (cancel_unless num req found meanwhile s).1
  unfolding cancel_unless
  cancel_unless-Stays x (some p) q free eq v r tagged y m = inl refl
  cancel_unless-Stays x none q free eq v r tagged y m =
      let owner = to_lower req.owner_address in
      elim (Bool-cases (cancellable num owner req.nonce o)) [
        | inr apart ↦ inr (
            cancelled_rows num owner req.nonce (meanwhile s) o
              (cancel_by_owner_nonce num owner req.nonce (meanwhile s)) refl apart m)
        | inl met ↦
            let (mx, hx) = found_target num owner req.nonce s x q in
            let one = same_target num owner req.nonce s (meanwhile s) x o eq v r mx hx m met in
            let free' : Unprotected prefixes o =
              rw (← terms-order_id x o one)
                (validate_cancel_namespace-none prefixes req x tagged free) in
            absurd (not_both prefixes o y free')
      ]

  cancel_target-Stays :
      (r : Result RepoError Order)
      → find_active_by_owner_nonce num (to_lower req.owner_address) req.nonce s ≡ r
      → IsEquivalence num.same
      → IsValid num s
      → Reach num s (meanwhile s)
      → is_empty (trim_space req.service) ≡ false
      → IsProtected prefixes o
      → Member o (meanwhile s).orders
      → Stays (cancel_target num prefixes req r meanwhile s).1
  unfolding cancel_target
  cancel_target-Stays (err e) q eq v r tagged y m = inl refl
  cancel_target-Stays (ok x) q eq v r tagged y m =
      cancel_unless-Stays x (validate_cancel_namespace prefixes req x) q refl eq v r tagged y m

  cancel_valid-Stays :
      (r : Result Text (Unit {0}))
      → IsEquivalence num.same
      → IsValid num s
      → Reach num s (meanwhile s)
      → is_empty (trim_space req.service) ≡ false
      → IsProtected prefixes o
      → Member o (meanwhile s).orders
      → Stays (cancel_valid num prefixes req r meanwhile s).1
  unfolding cancel_valid
  cancel_valid-Stays (err text) eq v r tagged y m = inl refl
  cancel_valid-Stays (ok u) eq v r tagged y m =
      cancel_target-Stays (find_active_by_owner_nonce num (to_lower req.owner_address) req.nonce s)
        refl eq v r tagged y m

  -- A request that names a service, on a table that satisfies the invariant, and any transactions of
  -- other clients between the check and the cancel: whatever the handler answers, it leaves the table
  -- that it found, or every order that the others left and whose id, in small letters, begins with a
  -- protected prefix is in the table after it, unchanged.
  pub handle_cancel_order-IsProtected :
      IsEquivalence num.same
      → IsValid num s
      → Reach num s (meanwhile s)
      → is_empty (trim_space req.service) ≡ false
      → IsProtected prefixes o
      → Member o (meanwhile s).orders
      → let (reply, t) = handle_cancel_order num prefixes meanwhile (some req) s in
        (t ≡ s) ⊎ Member o t.orders
  unfolding handle_cancel_order
  handle_cancel_order-IsProtected eq v r tagged y m =
      cancel_valid-Stays (validate req) eq v r tagged y m
