-- ===== src/Orders/Effects.antt =====
-- What the operations of the repository do to its tables, as a few kinds of change. Each operation
-- that succeeds is a run of such changes; the invariants are proved of the changes.
use markets_service.Base.{
  ℕ, ◌+◌, ◌≤◌, ◌<◌, ◌≡◌, ◌⊎◌, inl, refl, sym, ap, subst, ◌∙◌, Bool, true, false, ◌&&◌, not, List,
  [], ◌∷◌, ◌++◌, Option, none, some, ok, arith, All, Member, >>=-elim, or_error-elim, fail_if-elim,
  ok_inj, length, ◌==◌,
}
use markets_service.Base.Int.{ℤ, pos, leb_ℤ}
use markets_service.Orders.{
  Order, buy, sell, TradeFill, MatchCandidate, Store, Status, active, matching, filled, cancelled,
  expired, Numeric, bad_numeric, bad_json, not_found, duplicate_order, check_violation,
  reserve_failed, status_eq,
}
use markets_service.Orders.Book.{is_due, expire_orders, best_by_side}
use markets_service.Orders.Entry.{
  CreateOrderParams, create, cancel_by_owner_nonce, cancellable, owns_nonce, new_row, is_some,
  bad_side,
}
use markets_service.Orders.Matches.{
  reserve_orders, reserve_pair, acquire_match_candidate, release_match, listed_with, filled_to,
  choose_taker_maker,
}
use markets_service.Orders.Table.{find_row, update_where, count_where, has_id, set_status, id_among}
use markets_service.Orders.Table.Laws.{find_row-none}
use markets_service.Text.{Text, to_lower}
use markets_service.Text.Decimal.{set_string, print_int}

abbrev pub Amount : Text → ℕ → Type 0
Amount t n = set_string t ≡ some (pos n)

-- An order's amounts are natural numbers, no more is filled than desired, and an order whose
-- status is `filled` is filled to the end.
abbrev pub IsSound : Order → Type 0
IsSound o =
    (d : ℕ) × (f : ℕ) × Amount o.desired_amount d
    × Amount o.filled_amount f
    × (f ≤ d)
    × ((status_eq o.status filled ≡ false) ⊎ (f ≡ d))

-- The changes of status that an update may make.
pub data Allowed : Status → Status → Type 0 where
  reserve : Allowed active matching
  release : Allowed matching active
  cancel : Allowed active cancelled
  expire : Allowed active expired

-- A new order's id and its owner's nonce stand in no row.
abbrev pub Fresh : Numeric → Order → List Order → Type 0
Fresh num o =
    All (λ r. (has_id o.order_id r ≡ false) × (owns_nonce num o.owner_address o.nonce r ≡ false))

-- The status after a fill of the total `f` of an order that desires `d`.
abbrev pub FillStatus : ℕ → ℕ → Status → Type 0
FillStatus f d st = ((f < d) × (st ≡ active)) ⊎ ((f ≡ d) × (st ≡ filled))

pub data Effect (num : Numeric) (s t : Store) : Type 0 where
  inserted :
      (o : Order)
      → o.status ≡ active
      → IsSound o
      → Fresh num o s.orders
      → t.orders ≡ s.orders ++ o ∷ []
      → t.fills ≡ s.fills
      → Effect num s t
  moved :
      (test : Order → Bool) (old new : Status)
      → Allowed old new
      → ((o : Order) → test o ≡ true → o.status ≡ old)
      → t.orders ≡ update_where test (set_status new) s.orders
      → t.fills ≡ s.fills
      → Effect num s t
  topped_up :
      (o : Order) (d f n : ℕ) (st : Status)
      → Member o s.orders
      → o.status ≡ matching
      → Amount o.desired_amount d
      → Amount o.filled_amount f
      → FillStatus (f + n) d st
      → t.orders
        ≡ update_where (has_id o.order_id) (filled_to (print_int (pos (f + n))) st) s.orders
      → t.fills ≡ s.fills
      → Effect num s t
  traded :
      (fill : TradeFill) → t.orders ≡ s.orders → t.fills ≡ s.fills ++ fill ∷ [] → Effect num s t

-- A run of changes. Orders that enter are sound if the caller has checked their amounts.
pub data Effects (num : Numeric) (s : Store) : Store → Type 0 where
  none_yet : Effects num s s
  then_do : {t u : Store} → Effects num s t → Effect num t u → Effects num s u

pub Effects-single : {num : Numeric} {s t : Store} → Effect num s t → Effects num s t
Effects-single e = then_do none_yet e

pub Effects-append :
    {num : Numeric} {s t u : Store} → Effects num s t → Effects num t u → Effects num s u
Effects-append es none_yet = es
Effects-append es (then_do fs f) = then_do (Effects-append es fs) f

pub status_of_eq : (a b : Status) → status_eq a b ≡ true → a ≡ b
status_of_eq active active h = refl
status_of_eq matching matching h = refl
status_of_eq filled filled h = refl
status_of_eq cancelled cancelled h = refl
status_of_eq expired expired h = refl
status_of_eq _ _ h = ground arith

pub and_right : (a b : Bool) → (a && b) ≡ true → b ≡ true
and_right a b h = ground arith

pub and_left : (a b : Bool) → (a && b) ≡ true → a ≡ true
and_left a b h = ground arith

pub expire_orders-Effect :
    (num : Numeric) (now : ℤ) (s : Store) → Effect num s (expire_orders now s)
unfolding expire_orders is_due
expire_orders-Effect num now s =
    moved (is_due now) active expired expire
      (λ o h.
        status_of_eq o.status active (and_left (status_eq o.status active) (leb_ℤ o.expiry now) h))
      refl refl

pub release_match-Effect :
    (num : Numeric) (ids : List Text) (s : Store) → Effect num s (release_match ids s)
unfolding release_match
release_match-Effect num ids s =
    moved (listed_with ids matching) matching active release
      (λ o h.
        status_of_eq o.status matching
          (and_right (id_among ids o.order_id) (status_eq o.status matching) h))
      refl refl

pub reserve_orders-Effect :
    (num : Numeric) (ids : List Text) (s t : Store) → reserve_orders ids s ≡ ok t → Effect num s t
unfolding reserve_orders
reserve_orders-Effect num ids s t h =
    fail_if-elim (not (count_where (listed_with ids active) s.orders == length ids)) reserve_failed
      _ h
      λ c k.
        let e = ok_inj k in
        moved (listed_with ids active) active matching reserve
          (λ o q.
            status_of_eq o.status active
              (and_right (id_among ids o.order_id) (status_eq o.status active) q))
          (ap (λ (x : Store). x.orders) (sym e)) (ap (λ (x : Store). x.fills) (sym e))

reserve_pair-Effects :
    (num : Numeric) (bid ask : Option Order) (s : Store) (c : Option MatchCandidate) (t : Store)
    → reserve_pair bid ask s ≡ ok (c, t)
    → Effects num s t
unfolding reserve_pair
reserve_pair-Effects num none ask s c t h =
    subst (Effects num s) (ap (λ (x : Option MatchCandidate × Store). x.1) (ok_inj h)) none_yet
reserve_pair-Effects num (some bid) none s c t h =
    subst (Effects num s) (ap (λ (x : Option MatchCandidate × Store). x.1) (ok_inj h)) none_yet
reserve_pair-Effects num (some bid) (some ask) s c t h =
    let ids =
      (choose_taker_maker bid ask).taker.order_id
      ∷ (choose_taker_maker bid ask).maker.order_id
      ∷ [] in
    >>=-elim (reserve_orders ids s) _ h λ u e k.
      subst (Effects num s) (ap (λ (x : Option MatchCandidate × Store). x.1) (ok_inj k))
        (Effects-single (reserve_orders-Effect num ids s u e))

pub acquire_match_candidate-Effects :
    (num : Numeric) (asset sub : Text) (now : ℤ) (s : Store) (c : Option MatchCandidate) (t : Store)
    → acquire_match_candidate num asset sub now s ≡ ok (c, t)
    → Effects num s t
unfolding acquire_match_candidate
acquire_match_candidate-Effects num asset sub now s c t h =
    let s' = expire_orders now s in
    >>=-elim (best_by_side num (to_lower asset) sub buy s') _ h λ bid eb h₁.
      >>=-elim (best_by_side num (to_lower asset) sub sell s') _ h₁ λ ask ea h₂.
        Effects-append (Effects-single (expire_orders-Effect num now s))
          (reserve_pair-Effects num bid ask s' c t h₂)

pub cancel_by_owner_nonce-Effect :
    (num : Numeric) (owner nonce : Text) (s : Store) (o : Order) (t : Store)
    → cancel_by_owner_nonce num owner nonce s ≡ ok (o, t)
    → Effect num s t
unfolding cancel_by_owner_nonce
cancel_by_owner_nonce-Effect num owner nonce s o t h =
    or_error-elim (num.stored nonce) bad_numeric _ h λ n en h₁.
      or_error-elim (find_row (cancellable num owner nonce) s.orders) not_found _ h₁ λ r er h₂.
        let e = ap (λ (x : Order × Store). x.1) (sym (ok_inj h₂)) in
        moved (cancellable num owner nonce) active cancelled cancel
          (λ q met.
            status_of_eq q.status active
              (and_right (owns_nonce num owner nonce q) (status_eq q.status active) met))
          (ap (λ (x : Store). x.orders) e) (ap (λ (x : Store). x.fills) e)

-- A search that finds nothing has met no row.
Fresh-find_row :
    (num : Numeric) (o : Order) (os : List Order)
    → All (λ r. has_id o.order_id r ≡ false) os
    → All (λ r. owns_nonce num o.owner_address o.nonce r ≡ false) os
    → Fresh num o os
Fresh-find_row num o [] h k = tt
Fresh-find_row num o (r ∷ os) h k = ((h.0, k.0), Fresh-find_row num o os h.1 k.1)

none_of_test :
    (test : Order → Bool) (os : List Order)
    → is_some (find_row test os) ≡ false
    → All (λ o. test o ≡ false) os
none_of_test test os h = find_row-none test os (no_row (find_row test os) h)
  where
    no_row : (found : Option Order) → is_some found ≡ false → found ≡ none
    no_row none h = refl
    no_row (some o) h = cc

-- The amounts that a caller hands over for a new order.
abbrev pub SoundParams : CreateOrderParams → Type 0
SoundParams p = (d : ℕ) × (f : ℕ) × Amount p.desired_amount d × Amount p.filled_amount f × (f ≤ d)

-- A created order stands behind the others.
pub create-Effect :
    (num : Numeric) (p : CreateOrderParams) (now : ℕ) (s : Store) (o : Order) (t : Store)
    → SoundParams p
    → create num p now s ≡ ok (o, t)
    → Effect num s t × (t.orders ≡ s.orders ++ o ∷ [])
unfolding create new_row
create-Effect num p now s o t (d, f, ad, af, le) h =
    or_error-elim (num.stored p.subaccount_id) bad_numeric _ h λ a ea h₁.
      or_error-elim (num.stored p.recipient_id) bad_numeric _ h₁ λ b eb h₂.
        or_error-elim (num.stored p.nonce) bad_numeric _ h₂ λ n en h₃.
          or_error-elim (num.stored p.sub_id) bad_numeric _ h₃ λ u eu h₃'.
            or_error-elim (num.jsonb p.action_json) bad_json _ h₃' λ j ej h₄.
              fail_if-elim (bad_side p.side) check_violation _ h₄ λ side h₅.
                fail_if-elim (is_some (find_row (has_id p.order_id) s.orders)) duplicate_order _ h₅
                  λ no_id h₆.
                    fail_if-elim (is_some (find_row (owns_nonce num p.owner_address n) s.orders))
                      duplicate_order _ h₆
                      λ no_nonce h₇.
                        let e = ok_inj h₇ in
                        let row = ap (λ (x : Order × Store). x.0) e in
                        let rest = ap (λ (x : Order × Store). x.1) (sym e) in
                        let os = s.orders in
                        let enters =
                          ap (λ (x : Store). x.orders) rest
                          ∙ ap (λ (x : Order). os ++ x ∷ []) row in
                        let fresh =
                          Fresh-find_row num (new_row p a b n u j now) os
                            (none_of_test (has_id p.order_id) os no_id)
                            (none_of_test (owns_nonce num p.owner_address n) os no_nonce) in
                        let new = new_row p a b n u j now in
                        let sound : IsSound new = (d, f, ad, af, le, inl refl) in
                        (
                          inserted o (ap (λ (x : Order). x.status) (sym row))
                              (subst IsSound row sound) (subst (λ x. Fresh num x os) row fresh)
                              enters (ap (λ (x : Store). x.fills) rest),
                          enters,
                        )
