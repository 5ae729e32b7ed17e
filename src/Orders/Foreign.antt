-- ===== src/Orders/Foreign.antt =====
-- Steps of other clients, and of other markets, while a match holds its two orders: nothing that
-- does not name a reserved row in a release, a failure or a settlement changes it.
use markets_service.Base.{
  ◌≡◌, sym, ap, subst, Bool, false, ◌&&◌, not, List, [], ◌∷◌, Option, none, some, ok, Member,
  Member-append_left, arith, >>=-elim, or_error-elim, fail_if-elim, ok_inj, length, ◌==◌,
}
use markets_service.Base.Int.{ℤ, leb_ℤ}
use markets_service.Orders.{
  Order, Store, Numeric, active, matching, cancelled, expired, buy, sell, MatchCandidate,
  bad_numeric, not_found, reserve_failed,
}
use markets_service.Orders.Book.{expire_orders, is_due, best_by_side}
use markets_service.Orders.Effects.{create-Effect}
use markets_service.Orders.Entry.{cancel_by_owner_nonce, cancellable, owns_nonce}
use markets_service.Orders.Matches.{
  acquire_match_candidate, release_match, mark_match_failed, listed_with, reserve_orders,
  reserve_pair, choose_taker_maker,
}
use markets_service.Orders.Reach.{
  Step, creates, cancels, expires, acquires, releases, fails, finalizes, Reach, start, then_step,
  Reach-IsValid,
}
use markets_service.Orders.Settlement.{others_kept}
use markets_service.Orders.Table.{find_row, count_where, id_among, has_status, set_status}
use markets_service.Orders.Table.Laws.{Member-update_where}
use markets_service.Orders.Validity.{IsValid}
use markets_service.Text.{Text, text_eq, to_lower}

-- The step releases, fails or settles no match with this id.
abbrev pub Spares : {num : Numeric} {s t : Store} → Text → Step num s t → Type 0
Spares i (creates p now o sp e) = Unit
Spares i (cancels owner nonce o e) = Unit
Spares i (expires now e) = Unit
Spares i (acquires asset sub now c e) = Unit
Spares i (releases ids e) = id_among ids i ≡ false
Spares i (fails ids reason e) = id_among ids i ≡ false
Spares i (finalizes taker_id maker_id price amount n an e) =
    (text_eq i taker_id ≡ false) × (text_eq i maker_id ≡ false)

abbrev pub AllSpare : {num : Numeric} {s t : Store} → Text → Reach num s t → Type 0
AllSpare i start = Unit
AllSpare i (then_step r x) = AllSpare i r × Spares i x

-- An update of active rows leaves a reserved one alone.
not_active : (o : Order) (b : Bool) → o.status ≡ matching → (b && has_status active o) ≡ false
not_active o b h = ground (arith, h)

active_only : (o : Order) (b : Bool) → o.status ≡ matching → (has_status active o && b) ≡ false
active_only o b h = ground (arith, h)

expire_keeps :
    (now : ℤ) (s : Store) (o : Order)
    → o.status ≡ matching
    → Member o s.orders
    → Member o (expire_orders now s).orders
unfolding expire_orders is_due
expire_keeps now s o h m =
    Member-update_where o (is_due now) (set_status expired) s.orders
      (active_only o (leb_ℤ o.expiry now) h) m

release_keeps :
    (ids : List Text) (s : Store) (o : Order)
    → id_among ids o.order_id ≡ false
    → Member o s.orders
    → Member o (release_match ids s).orders
unfolding release_match
release_keeps ids s o f m =
    Member-update_where o (listed_with ids matching) (set_status active) s.orders
      (ground (arith, f)) m

reserve_keeps :
    (ids : List Text) (s t : Store) (o : Order)
    → reserve_orders ids s ≡ ok t
    → o.status ≡ matching
    → Member o s.orders
    → Member o t.orders
unfolding reserve_orders
reserve_keeps ids s t o e h m =
    fail_if-elim (not (count_where (listed_with ids active) s.orders == length ids)) reserve_failed
      _ e
      λ c k. subst (Member o) (ap (λ (x : Store). x.orders) (ok_inj k)) (
        Member-update_where o (listed_with ids active) (set_status matching) s.orders
          (not_active o (id_among ids o.order_id) h) m)

reserve_pair_keeps :
    (bid ask : Option Order) (s : Store) (c : Option MatchCandidate) (t : Store) (o : Order)
    → reserve_pair bid ask s ≡ ok (c, t)
    → o.status ≡ matching
    → Member o s.orders
    → Member o t.orders
unfolding reserve_pair
reserve_pair_keeps none ask s c t o e h m =
    subst (λ (x : Option MatchCandidate × Store). Member o (x.1).orders) (ok_inj e) m
reserve_pair_keeps (some bid) none s c t o e h m =
    subst (λ (x : Option MatchCandidate × Store). Member o (x.1).orders) (ok_inj e) m
reserve_pair_keeps (some bid) (some ask) s c t o e h m =
    let ids =
      (choose_taker_maker bid ask).taker.order_id
      ∷ (choose_taker_maker bid ask).maker.order_id
      ∷ [] in
    >>=-elim (reserve_orders ids s) _ e λ u eu k.
      subst (λ (x : Option MatchCandidate × Store). Member o (x.1).orders) (ok_inj k)
        (reserve_keeps ids s u o eu h m)

acquire_keeps :
    (num : Numeric) (asset sub : Text) (now : ℤ) (s : Store) (c : Option MatchCandidate) (t : Store)
    (o : Order)
    → acquire_match_candidate num asset sub now s ≡ ok (c, t)
    → o.status ≡ matching
    → Member o s.orders
    → Member o t.orders
unfolding acquire_match_candidate
acquire_keeps num asset sub now s c t o e h m =
    let s' = expire_orders now s in
    >>=-elim (best_by_side num (to_lower asset) sub buy s') _ e λ bid eb h₁.
      >>=-elim (best_by_side num (to_lower asset) sub sell s') _ h₁
        λ ask ea h₂. reserve_pair_keeps bid ask s' c t o h₂ h (expire_keeps now s o h m)

cancel_keeps :
    (num : Numeric) (owner nonce : Text) (s : Store) (r : Order) (t : Store) (o : Order)
    → cancel_by_owner_nonce num owner nonce s ≡ ok (r, t)
    → o.status ≡ matching
    → Member o s.orders
    → Member o t.orders
unfolding cancel_by_owner_nonce
cancel_keeps num owner nonce s r t o e h m =
    or_error-elim (num.stored nonce) bad_numeric _ e λ n en h₁.
      or_error-elim (find_row (cancellable num owner nonce) s.orders) not_found _ h₁ λ q eq h₂.
        subst (λ (x : Order × Store). Member o (x.1).orders) (ok_inj h₂)
          (Member-update_where o (cancellable num owner nonce) (set_status cancelled) s.orders
            (not_active o (owns_nonce num owner nonce o) h) m)

Step-reserved :
    (num : Numeric) (s t : Store) (o : Order)
    → IsValid num s
    → (x : Step num s t) → Spares o.order_id x
    → o.status ≡ matching
    → Member o s.orders
    → Member o t.orders
unfolding mark_match_failed
Step-reserved num s t o v (creates p now r sp e) f h m =
    subst (Member o) (sym ((create-Effect num p now s r t sp e).1))
      (Member-append_left o s.orders (r ∷ []) m)
Step-reserved num s t o v (cancels owner nonce r e) f h m =
    cancel_keeps num owner nonce s r t o e h m
Step-reserved num s t o v (expires now e) f h m =
    subst (λ (x : Store). Member o x.orders) (sym e) (expire_keeps now s o h m)
Step-reserved num s t o v (acquires asset sub now c e) f h m =
    acquire_keeps num asset sub now s c t o e h m
Step-reserved num s t o v (releases ids e) f h m =
    subst (λ (x : Store). Member o x.orders) (sym e) (release_keeps ids s o f m)
Step-reserved num s t o v (fails ids reason e) f h m =
    subst (λ (x : Store). Member o x.orders) (sym e) (release_keeps ids s o f m)
Step-reserved num s t o v (finalizes taker_id maker_id price amount n an e) f h m =
    others_kept num taker_id maker_id price amount n s t v an e o m (f.0) (f.1)

-- From a store that satisfies the invariant, a reserved row stays as it is, in every field, along
-- every sequence of transactions (`Step`) none of which releases, fails or settles a match with its
-- id.
pub Reach-reserved :
    (num : Numeric) (s t : Store) (o : Order)
    → IsValid num s
    → (r : Reach num s t) → AllSpare o.order_id r
    → o.status ≡ matching
    → Member o s.orders
    → Member o t.orders
Reach-reserved num s t o v start f h m = m
Reach-reserved num s t o v (then_step {t = u} r x) f h m =
    Step-reserved num u t o (Reach-IsValid num s u v r) x f.1 h
      (Reach-reserved num s u o v r f.0 h m)
