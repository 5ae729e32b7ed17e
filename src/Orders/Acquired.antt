-- ===== src/Orders/Acquired.antt =====
-- `AcquireMatchCandidate` on a valid store: which two orders it reserves, and how their prices
-- stand to those of the rest of the market.
use markets_service.Base.{
  ◌≡◌, ◌⊎◌, inl, inr, refl, sym, ap, subst, ◌∙◌, true, false, [], ◌∷◌, Option, none, some, Result,
  ok, arith, Member, >>=-elim, fail_if-elim, ok_inj, Bool-cases, length, ◌==◌, not,
}
use markets_service.Base.Int.{ℤ}
use markets_service.Orders.{
  Order, Side, buy, sell, Store, Numeric, active, matching, MatchCandidate, RepoError,
  reserve_failed, side_eq,
}
use markets_service.Orders.Book.{expire_orders, best_by_side, resting}
use markets_service.Orders.Book.Priority.{best_by_side_sound}
use markets_service.Orders.Effects.{expire_orders-Effect}
use markets_service.Orders.Matches.{
  acquire_match_candidate, choose_taker_maker, reserve_orders, reserve_pair, listed_with,
}
use markets_service.Orders.Table.{update_where, count_where, id_among, has_status, set_status}
use markets_service.Orders.Table.Laws.{Member-update_where_met}
use markets_service.Orders.Validity.{IsValid, Effect-IsValid, same_row}
use markets_service.Text.{Text, text_eq, to_lower}
use markets_service.Text.Laws.{text_eq_iff}

-- The store once both rows are reserved.
abbrev pub reserving : MatchCandidate → Store → Store
reserving c s = record s {
  orders =
      update_where (listed_with ((c.taker).order_id ∷ (c.maker).order_id ∷ []) active)
        (set_status matching) s.orders;
}

-- The best order of each side, once the expired ones are gone, and the two of them reserved.
pub record Acquired (num : Numeric) (asset sub : Text) (now : ℤ) (s : Store) (c : MatchCandidate)
    (t : Store) : Type 0 where
  pub bid : Order
  pub ask : Order
  pub best_bid : best_by_side num (to_lower asset) sub buy (expire_orders now s) ≡ ok (some bid)
  pub best_ask : best_by_side num (to_lower asset) sub sell (expire_orders now s) ≡ ok (some ask)
  pub chosen : c ≡ choose_taker_maker bid ask
  pub whole : t ≡ reserving c (expire_orders now s)

some_pair :
    {a b : Option MatchCandidate × Store}
    → ◌≡◌ {A = Result RepoError (Option MatchCandidate × Store)} (ok a) (ok b)
    → (a.0 ≡ b.0) × (a.1 ≡ b.1)
some_pair h = (ap (λ x. x.0) (ok_inj h), ap (λ x. x.1) (ok_inj h))

reserve_pair-some :
    (bid ask : Option Order) (s : Store) (c : MatchCandidate) (t : Store)
    → reserve_pair bid ask s ≡ ok (some c, t)
    → (b a : Order) × (bid ≡ some b)
      × (ask ≡ some a)
      × (c ≡ choose_taker_maker b a)
      × (t ≡ reserving c s)
unfolding reserve_pair reserve_orders
reserve_pair-some none ask s c t e = absurd (cc ((some_pair e).0))
reserve_pair-some (some bid) none s c t e = absurd (cc ((some_pair e).0))
reserve_pair-some (some bid) (some ask) s c t e =
    let d = choose_taker_maker bid ask in
    let ids = d.taker.order_id ∷ d.maker.order_id ∷ [] in
    >>=-elim (reserve_orders ids s) _ e λ u eu k.
      fail_if-elim (not (count_where (listed_with ids active) s.orders == length ids))
        reserve_failed _ eu
        λ n q.
          let same : d ≡ c = some_inj ((some_pair k).0) in
          (
            bid,
            ask,
            refl,
            refl,
            sym same,
            sym ((some_pair k).1) ∙ sym (ok_inj q) ∙ ap (λ x. reserving x s) same,
          )
  where
    some_inj : {A : Type 0} {a b : A} → some a ≡ some b → a ≡ b
    some_inj h = cc

pub acquire-Acquired :
    (num : Numeric) (asset sub : Text) (now : ℤ) (s : Store) (c : MatchCandidate) (t : Store)
    → acquire_match_candidate num asset sub now s ≡ ok (some c, t)
    → Acquired num asset sub now s c t
unfolding acquire_match_candidate
acquire-Acquired num asset sub now s c t e =
    let s' = expire_orders now s in
    >>=-elim (best_by_side num (to_lower asset) sub buy s') _ e λ bid eb h₁.
      >>=-elim (best_by_side num (to_lower asset) sub sell s') _ h₁ λ ask ea h₂.
        let (b, a, bb, aa, chosen, whole) = reserve_pair-some bid ask s' c t h₂ in
        record {
          bid = b;
          ask = a;
          best_bid = eb ∙ ap ok bb;
          best_ask = ea ∙ ap ok aa;
          chosen = chosen;
          whole = whole;
        }

-- Of the two orders of a match, one is a buy and the other a sell.
two_sides :
    (bid ask : Order)
    → let c = choose_taker_maker bid ask in
      ((c.taker ≡ bid) × (c.maker ≡ ask)) ⊎ ((c.taker ≡ ask) × (c.maker ≡ bid))
unfolding choose_taker_maker
two_sides bid ask = ground arith

pub resting_parts :
    (num : Numeric) (asset sub : Text) (side : Side) (o : Order)
    → resting num asset sub side o ≡ true
    → (side_eq o.side side ≡ true) × (has_status active o ≡ true)
resting_parts num asset sub side o h = ground arith

apart :
    (num : Numeric) (s : Store) (bid ask : Order)
    → IsValid num s
    → Member bid s.orders
    → Member ask s.orders
    → side_eq bid.side buy ≡ true
    → side_eq ask.side sell ≡ true
    → text_eq ask.order_id bid.order_id ≡ false
apart num s bid ask v mb ma hb ha = elim (Bool-cases (text_eq ask.order_id bid.order_id)) [
  | inr f ↦ f
  | inl e ↦ absurd (clash_of_sides (same_row num s.orders bid ask v.no_clash mb ma e))
]
  where
    clash_of_sides : ask ≡ bid → ⊥
    clash_of_sides e = ground (arith, hb, subst (λ (x : Order). side_eq x.side sell ≡ true) e ha)

text_eq_swap : (a b : Text) → text_eq a b ≡ false → text_eq b a ≡ false
text_eq_swap a b h = elim (Bool-cases (text_eq b a)) [
  | inr f ↦ f
  | inl e ↦ absurd (cc (h, (text_eq_iff a b).1 (sym ((text_eq_iff b a).0 e))))
]

-- The candidate's orders stand in the book, active and with different ids.
pub record Rests (c : MatchCandidate) (s : Store) : Type 0 where
  pub taker_there : Member c.taker s.orders
  pub maker_there : Member c.maker s.orders
  pub taker_active : (c.taker).status ≡ active
  pub maker_active : (c.maker).status ≡ active
  pub differ : text_eq (c.maker).order_id (c.taker).order_id ≡ false

-- The rows that a match of this candidate holds.
pub record Holds (c : MatchCandidate) (t : Store) : Type 0 where
  pub taker_there : Member (set_status matching c.taker) t.orders
  pub maker_there : Member (set_status matching c.maker) t.orders
  pub differ : text_eq (c.maker).order_id (c.taker).order_id ≡ false

active_of : (o : Order) → has_status active o ≡ true → o.status ≡ active
active_of o h = ground arith

listed_first :
    (i j : Text) (o : Order)
    → o.order_id ≡ i
    → has_status active o ≡ true
    → listed_with (i ∷ j ∷ []) active o ≡ true
unfolding id_among
listed_first i j o e h = ground (arith, (text_eq_iff o.order_id i).1 e, h)

listed_second :
    (i j : Text) (o : Order)
    → o.order_id ≡ j
    → has_status active o ≡ true
    → listed_with (i ∷ j ∷ []) active o ≡ true
unfolding id_among
listed_second i j o e h = ground (arith, (text_eq_iff o.order_id j).1 e, h)

rests :
    (c d : MatchCandidate) (s : Store)
    → c ≡ d
    → Member d.taker s.orders
    → Member d.maker s.orders
    → has_status active d.taker ≡ true
    → has_status active d.maker ≡ true
    → text_eq (d.maker).order_id (d.taker).order_id ≡ false
    → Rests c s
rests c d s e mt mm ht hm differ =
    subst (λ y. Rests y s) (sym e)
      (record {
        taker_there = mt;
        maker_there = mm;
        taker_active = active_of d.taker ht;
        maker_active = active_of d.maker hm;
        differ = differ;
      })

pub Acquired-Rests :
    (num : Numeric) (asset sub : Text) (now : ℤ) (s : Store) (c : MatchCandidate) (t : Store)
    → IsValid num s
    → Acquired num asset sub now s c t
    → Rests c (expire_orders now s)
Acquired-Rests num asset sub now s c t v x =
    let s' = expire_orders now s in
    let v' = Effect-IsValid s s' v (expire_orders-Effect num now s) in
    let (kb, mb, rb, pb) = best_by_side_sound num (to_lower asset) sub buy s' x.bid x.best_bid in
    let (ka, ma, ra, pa) = best_by_side_sound num (to_lower asset) sub sell s' x.ask x.best_ask in
    let (sb, ab) = resting_parts num (to_lower asset) sub buy x.bid rb in
    let (sa, aa) = resting_parts num (to_lower asset) sub sell x.ask ra in
    let differ = apart num s' x.bid x.ask v' mb ma sb sa in
    let d = choose_taker_maker x.bid x.ask in
    elim (two_sides x.bid x.ask) [
      | inl (et, em) ↦
          rests c d s' x.chosen (rw et mb) (rw em ma) (rw et ab) (rw em aa) (rw (et, em) differ)
      | inr (et, em) ↦
          rests c d s' x.chosen (rw et ma) (rw em mb) (rw et aa) (rw em ab)
            (rw (et, em) (text_eq_swap (x.ask).order_id (x.bid).order_id differ))
    ]

active_row : (o : Order) → o.status ≡ active → has_status active o ≡ true
active_row o h = ground (arith, h)

pub Acquired-Holds :
    (num : Numeric) (asset sub : Text) (now : ℤ) (s : Store) (c : MatchCandidate) (t : Store)
    → IsValid num s
    → Acquired num asset sub now s c t
    → Holds c t
Acquired-Holds num asset sub now s c t v x =
    let y = Acquired-Rests num asset sub now s c t v x in
    let i = (c.taker).order_id in
    let j = (c.maker).order_id in
    let os = (expire_orders now s).orders in
    let test = listed_with (i ∷ j ∷ []) active in
    record {
      taker_there =
          subst (Member (set_status matching c.taker)) (ap (λ (z : Store). z.orders) (sym x.whole))
            (Member-update_where_met c.taker test (set_status matching) os
              (listed_first i j c.taker refl (active_row c.taker y.taker_active)) y.taker_there);
      maker_there =
          subst (Member (set_status matching c.maker)) (ap (λ (z : Store). z.orders) (sym x.whole))
            (Member-update_where_met c.maker test (set_status matching) os
              (listed_second i j c.maker refl (active_row c.maker y.maker_active)) y.maker_there);
      differ = y.differ;
    }
