-- ===== src/Matching/Engine/Release.antt =====
-- A tick gives back the two orders that it reserved.
use markets_service.Base.{
  ℕ, ◌+◌, ◌≡◌, ◌⊎◌, inl, inr, refl, sym, subst, true, false, List, [], ◌∷◌, Option, some, none,
  Result, ok, err, arith, Bool-cases, if◌then◌else◌, All, Member,
}
use markets_service.Base.Int.{pos}
use markets_service.Matching.Engine.{
  World, Submission, Outcome, acquire_failed, no_candidate, invariant_failed, submit_failed,
  executed, finalize_failed, reconciled, reconcile_failed, expired_order_present, not_crossed,
  zero_fill, bad_prices, bad_amounts, ids_of, check_candidate, try_finalize, deferred_release,
  conclude, after_executor, give_up, resume, take_up, attempt, tick_instrument,
  should_finalize_after_executor_error,
}
use markets_service.Matching.Engine.Checked.{check_candidate-Checked, Checked-Fits, Fits}
use markets_service.Matching.Engine.Steps.{try_finalize-some}
use markets_service.Orders.{
  Order, MatchCandidate, Store, Numeric, Status, active, matching, status_eq,
}
use markets_service.Orders.Acquired.{Holds, acquire-Acquired, Acquired-Holds}
use markets_service.Orders.Effects.{FillStatus}
use markets_service.Orders.Matches.{
  acquire_match_candidate, release_match, mark_match_failed, listed_with, filled_to,
}
use markets_service.Orders.Reach.{Reach, start, then_step, acquires, Reach-IsValid}
use markets_service.Orders.Settlement.{IsFilledBy, finalize_fills}
use markets_service.Orders.Table.{update_where, id_among, has_id, has_status, set_status}
use markets_service.Orders.Validity.{IsValid, same_row}
use markets_service.Text.{Text, text_eq}
use markets_service.Text.Decimal.{print_int}

-- No row of these ids is reserved.
abbrev pub NoneReserved : List Text → List Order → Type 0
NoneReserved ids = All (λ r. listed_with ids matching r ≡ false)

pub All-of_Member :
    (P : Order → Type 0) (os : List Order) → ((o : Order) → Member o os → P o) → All P os
All-of_Member P [] h = tt
All-of_Member P (o ∷ os) h = (h o (inl refl), All-of_Member P os (λ r m. h r (inr m)))

released : (ids : List Text) (o : Order) → listed_with ids matching (set_status active o) ≡ false
released ids o = ground arith

release_none :
    (ids : List Text) (os : List Order)
    → NoneReserved ids (update_where (listed_with ids matching) (set_status active) os)
unfolding update_where
release_none ids [] = tt
release_none ids (o ∷ os) = elim (Bool-cases (listed_with ids matching o)) [
  | inl h ↦ rw h (released ids o, release_none ids os)
  | inr h ↦ rw h (h, release_none ids os)
]

deferred_release_none :
    (w : World) (c : MatchCandidate) (s : Store)
    → w.releases ≡ true
    → NoneReserved (ids_of c) (deferred_release w c s).orders
unfolding deferred_release release_match
deferred_release_none w c s h = rw h (release_none (ids_of c) s.orders)

not_matching : (k d : ℕ) (st : Status) → FillStatus k d st → status_eq st matching ≡ false
not_matching k d st (inl (lt, e)) = rw e refl
not_matching k d st (inr (same, e)) = rw e refl

-- The one row of an id that has been filled is not reserved.
filled_free :
    (num : Numeric) (i : Text) (n : ℕ) (s u : Store) (r : Order)
    → IsValid num u
    → IsFilledBy i n s u
    → Member r u.orders
    → text_eq r.order_id i ≡ true
    → has_status matching r ≡ false
filled_free num i n s u r v x m h =
    let changed = filled_to (print_int (pos (x.f + n))) x.st x.row in
    let same : has_id changed.order_id r ≡ true =
      subst (λ j. text_eq r.order_id j ≡ true) (sym x.same_id) h in
    rw (same_row num u.orders changed r v.no_clash x.now m same)
      (not_matching (x.f + n) x.d x.st x.new_status)

unreserved :
    (i j : Text) (r : Order)
    → (text_eq r.order_id i ≡ true → has_status matching r ≡ false)
    → (text_eq r.order_id j ≡ true → has_status matching r ≡ false)
    → listed_with (i ∷ j ∷ []) matching r ≡ false
unfolding id_among
unreserved i j r h k = elim (Bool-cases (text_eq r.order_id i)) [
  | inl a ↦ ground (arith, h a)
  | inr a ↦ elim (Bool-cases (text_eq r.order_id j)) [
    | inl b ↦ ground (arith, k b)
    | inr b ↦ ground (arith, a, b)
  ]
]

conclude_none :
    (num : Numeric) (w : World) (c : MatchCandidate) (m : Submission) (done failed : Outcome)
    (s : Store)
    → IsValid num s
    → Fits c m
    → w.releases ≡ true
    → (r : Option Store) → try_finalize w c m s ≡ r
    → NoneReserved (ids_of c) (conclude w c done failed r s).1.orders
unfolding conclude
conclude_none num w c m done failed s v x h none e = deferred_release_none w c s h
conclude_none num w c m done failed s v x h (some u) e =
    let i = (c.taker).order_id in
    let j = (c.maker).order_id in
    let (ft, fm, _, _, v') =
      finalize_fills num i j m.price m.amount x.n s u v x.fill (try_finalize-some w c m s u e) in
    All-of_Member (λ r. listed_with (i ∷ j ∷ []) matching r ≡ false) u.orders
      (λ r there.
        unreserved i j r (filled_free num i x.n s u r v' ft there)
          (filled_free num j x.n s u r v' fm there))

after_executor_none :
    (num : Numeric) (w : World) (c : MatchCandidate) (m : Submission) (r : Result Text (Unit {0}))
    (s : Store)
    → IsValid num s
    → Fits c m
    → w.releases ≡ true
    → NoneReserved (ids_of c) (after_executor w c m r s).1.orders
unfolding after_executor
after_executor_none num w c m (ok r) s v x h =
    conclude_none num w c m executed finalize_failed s v x h (try_finalize w c m s) refl
after_executor_none num w c m (err e) s v x h =
    elim (Bool-cases (should_finalize_after_executor_error e)) [
      | inl k ↦
          rw k (
            conclude_none num w c m reconciled reconcile_failed s v x h (try_finalize w c m s) refl)
      | inr k ↦
          rw k
            (deferred_release_none w c (if w.marks then mark_match_failed (ids_of c) e s else s) h)
    ]

-- The store that a tick gives up with.
pub give_up_store :
    (w : World) (c : MatchCandidate) (o : Outcome) (s : Store)
    → ((give_up w c o s).1 ≡ deferred_release w c s)
      ⊎ ((reason : Text) × ((give_up w c o s).1
            ≡ deferred_release w c (if w.marks then mark_match_failed (ids_of c) reason s else s)))
unfolding give_up
give_up_store w c (invariant_failed e) s = inr (w.message e, refl)
give_up_store w c (acquire_failed e) s = inl refl
give_up_store w c no_candidate s = inl refl
give_up_store w c expired_order_present s = inl refl
give_up_store w c not_crossed s = inl refl
give_up_store w c zero_fill s = inl refl
give_up_store w c (bad_prices e) s = inl refl
give_up_store w c (bad_amounts e) s = inl refl
give_up_store w c (submit_failed e) s = inl refl
give_up_store w c reconcile_failed s = inl refl
give_up_store w c reconciled s = inl refl
give_up_store w c finalize_failed s = inl refl
give_up_store w c executed s = inl refl

give_up_none :
    (w : World) (c : MatchCandidate) (o : Outcome) (s : Store)
    → w.releases ≡ true
    → NoneReserved (ids_of c) (give_up w c o s).1.orders
give_up_none w c o s h = elim (give_up_store w c o s) [
  | inl e ↦ rw e (deferred_release_none w c s h)
  | inr (reason, e) ↦
      rw e
        (deferred_release_none w c (if w.marks then mark_match_failed (ids_of c) reason s else s) h)
]

resume_none :
    (num : Numeric) (w : World) (c : MatchCandidate) (t : Store) (r : Result Outcome Submission)
    → IsValid num t
    → Holds c t
    → Reach num t (w.meanwhile t)
    → w.releases ≡ true
    → check_candidate w c ≡ r
    → NoneReserved (ids_of c) (resume w c t r).1.orders
unfolding resume
resume_none num w c t (err o) v hs others h e = give_up_none w c o t h
resume_none num w c t (ok m) v hs others h e =
    after_executor_none num w c m (w.execute c m.units) (w.meanwhile t)
      (Reach-IsValid num t (w.meanwhile t) v others)
      (Checked-Fits num w c m t v hs (check_candidate-Checked w c m e)) h

-- On a store that satisfies the invariant, when the release commits and what the other clients do
-- in the meantime is a sequence of transactions, no tick leaves a row with the id of one of its two
-- orders reserved, however the checks, the executor and the settlement end.
pub tick_releases :
    (num : Numeric) (w : World) (asset sub : Text) (s t : Store) (c : MatchCandidate)
    → IsValid num s
    → acquire_match_candidate num asset sub w.now s ≡ ok (some c, t)
    → Reach num t (w.meanwhile t)
    → w.releases ≡ true
    → NoneReserved (ids_of c) (tick_instrument num w asset sub s).1.orders
unfolding tick_instrument take_up attempt
tick_releases num w asset sub s t c v taken others h =
    let v' = Reach-IsValid num s t v (then_step start (acquires asset sub w.now (some c) taken)) in
    let hs =
      Acquired-Holds num asset sub w.now s c t v
        (acquire-Acquired num asset sub w.now s c t taken) in
    rw taken (resume_none num w c t (check_candidate w c) v' hs others h refl)
