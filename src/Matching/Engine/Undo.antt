-- ===== src/Matching/Engine/Undo.antt =====
-- A tick that gives up before the executor is called leaves the book as the expiry left it.
use markets_service.Base.{
  ◌≡◌, inl, inr, refl, sym, ap, ◌∙◌, true, false, List, [], ◌∷◌, some, ok, err, arith, Bool-cases,
  if◌then◌else◌,
}
use markets_service.Matching.Engine.{
  World, Outcome, ids_of, check_candidate, deferred_release, give_up, resume, take_up, attempt,
  tick_instrument,
}
use markets_service.Matching.Engine.Release.{NoneReserved, All-of_Member, give_up_store}
use markets_service.Orders.{Order, MatchCandidate, Store, Numeric, active, matching, status_eq}
use markets_service.Orders.Acquired.{acquire-Acquired, reserving, Rests, Acquired-Rests}
use markets_service.Orders.Book.{expire_orders}
use markets_service.Orders.Effects.{expire_orders-Effect}
use markets_service.Orders.Matches.{
  acquire_match_candidate, release_match, mark_match_failed, listed_with,
}
use markets_service.Orders.Table.{update_where, id_among, has_status, set_status}
use markets_service.Orders.Validity.{IsValid, Effect-IsValid, same_row}
use markets_service.Text.{Text, text_eq}

active_again : (o : Order) → has_status active o ≡ true → set_status active o ≡ o
active_again o h = ap (λ st. record o { status = st }) (sym (is_active o.status h))
  where
    is_active : (st : _) → status_eq st active ≡ true → st ≡ active
    is_active st h = ground arith

-- Reserving rows and releasing them gives them back.
release-reserve :
    (ids : List Text) (os : List Order)
    → NoneReserved ids os
    → update_where
        (listed_with ids matching)
        (set_status active)
        (update_where (listed_with ids active) (set_status matching) os)
      ≡ os
unfolding update_where
release-reserve ids [] h = refl
release-reserve ids (o ∷ os) h = elim (Bool-cases (listed_with ids active o)) [
  | inl t ↦
      let among : id_among ids o.order_id ≡ true = ground (arith, t) in
      let same = active_again o (ground (arith, t)) in
      rw (t, among, release-reserve ids os h.1) (ap (λ x. x ∷ os) same)
  | inr f ↦ rw (f, h.0, release-reserve ids os h.1) refl
]

release_idle :
    (ids : List Text) (os : List Order)
    → NoneReserved ids os
    → update_where (listed_with ids matching) (set_status active) os ≡ os
unfolding update_where
release_idle ids [] h = refl
release_idle ids (o ∷ os) h = rw (h.0, release_idle ids os h.1) refl

-- The rows of the two ids are the candidate's, and they are active.
none_before :
    (num : Numeric) (s : Store) (c : MatchCandidate)
    → IsValid num s
    → Rests c s
    → NoneReserved (ids_of c) s.orders
unfolding id_among
none_before num s c v x =
    All-of_Member (λ r. listed_with (ids_of c) matching r ≡ false) s.orders
      λ r there. elim (Bool-cases (text_eq r.order_id (c.taker).order_id)) [
        | inl a ↦
            let e = same_row num s.orders c.taker r v.no_clash x.taker_there there a in
            ground (arith, ap (λ (o : Order). o.status) e, x.taker_active)
        | inr a ↦ elim (Bool-cases (text_eq r.order_id (c.maker).order_id)) [
          | inl b ↦
              let e = same_row num s.orders c.maker r v.no_clash x.maker_there there b in
              ground (arith, ap (λ (o : Order). o.status) e, x.maker_active)
          | inr b ↦ ground (arith, a, b)
        ]
      ]

restored :
    (w : World) (c : MatchCandidate) (o : Outcome) (s t : Store)
    → NoneReserved (ids_of c) s.orders
    → t ≡ reserving c s
    → w.releases ≡ true
    → (give_up w c o t).1 ≡ s
unfolding deferred_release release_match mark_match_failed
restored w c o s t h e k =
    let with_orders = λ (os : List Order). record s { orders = os } in
    let back : release_match (ids_of c) t ≡ s =
      rw e (ap with_orders (release-reserve (ids_of c) s.orders h)) in
    elim (give_up_store w c o t) [
      | inl q ↦ q ∙ rw k back
      | inr (reason, q) ↦
          q
          ∙ rw k
              (elim w.marks
                as (λ b.
                  release_match (ids_of c) (if b then mark_match_failed (ids_of c) reason t else t)
                  ≡ s) [
                    | true ↦
                        ap (release_match (ids_of c)) back
                        ∙ ap with_orders (release_idle (ids_of c) s.orders h)
                    | false ↦ back
                  ])
    ]

give_up_outcome :
    (w : World) (c : MatchCandidate) (o : Outcome) (s : Store) → (give_up w c o s).0 ≡ o
unfolding give_up
give_up_outcome w c o s = ground arith

-- On a store that satisfies the invariant, when the release commits, a tick whose candidate fails
-- one of the checks before the executor is called ends with that failure and leaves the store
-- exactly as the expiry of the due orders left it.
pub tick_undone :
    (num : Numeric) (w : World) (asset sub : Text) (s t : Store) (c : MatchCandidate) (o : Outcome)
    → IsValid num s
    → acquire_match_candidate num asset sub w.now s ≡ ok (some c, t)
    → check_candidate w c ≡ err o
    → w.releases ≡ true
    → tick_instrument num w asset sub s ≡ (o, expire_orders w.now s)
unfolding tick_instrument take_up attempt resume
tick_undone num w asset sub s t c o v taken refused h =
    let s' = expire_orders w.now s in
    let v' = Effect-IsValid s s' v (expire_orders-Effect num w.now s) in
    let x = acquire-Acquired num asset sub w.now s c t taken in
    let after =
      restored w c o s' t (none_before num s' c v' (Acquired-Rests num asset sub w.now s c t v x))
        x.whole h in
    rw (taken, refused) (pair (give_up w c o t) (give_up_outcome w c o t) after)
  where
    pair : (p : Outcome × Store) {a : Outcome} {b : Store} → p.0 ≡ a → p.1 ≡ b → p ≡ (a, b)
    pair p e q = cc
