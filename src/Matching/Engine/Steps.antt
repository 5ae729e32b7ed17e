-- ===== src/Matching/Engine/Steps.antt =====
-- A tick is a sequence of the repository's transactions, so it keeps what they keep.
use markets_service.Base.{
  ◌≡◌, inl, inr, refl, true, false, Option, some, none, Result, ok, err, arith, Bool-cases,
  if◌then◌else◌,
}
use markets_service.Matching.Engine.{
  World, Submission, Outcome, acquire_failed, no_candidate, invariant_failed, submit_failed,
  executed, finalize_failed, reconciled, reconcile_failed, expired_order_present, not_crossed,
  zero_fill, bad_prices, bad_amounts, ids_of, check_candidate, try_finalize, deferred_release,
  conclude, after_executor, give_up, resume, take_up, attempt, tick_instrument,
  should_finalize_after_executor_error,
}
use markets_service.Matching.Engine.Checked.{check_candidate-Checked, Checked-Fits, Fits}
use markets_service.Orders.{MatchCandidate, Store, Numeric, RepoError}
use markets_service.Orders.Acquired.{Holds, acquire-Acquired, Acquired-Holds}
use markets_service.Orders.Matches.{
  acquire_match_candidate, mark_match_failed, finalize_match_with_price,
}
use markets_service.Orders.Reach.{
  acquires, releases, fails, finalizes, Reach, start, then_step, Reach-IsValid,
}
use markets_service.Orders.Validity.{IsValid}
use markets_service.Text.{Text}

pub Reach-append : {num : Numeric} {s t u : Store} → Reach num s t → Reach num t u → Reach num s u
Reach-append r start = r
Reach-append r (then_step q x) = then_step (Reach-append r q) x

deferred_release-Reach :
    (num : Numeric) (w : World) (c : MatchCandidate) (s : Store)
    → Reach num s (deferred_release w c s)
unfolding deferred_release
deferred_release-Reach num w c s = elim (Bool-cases w.releases) [
  | inl e ↦ rw e (then_step start (releases (ids_of c) refl))
  | inr e ↦ rw e start
]

-- A failure that may be marked, then the release.
marked-Reach :
    (num : Numeric) (w : World) (c : MatchCandidate) (reason : Text) (s : Store)
    → Reach num s
        (deferred_release w c (if w.marks then mark_match_failed (ids_of c) reason s else s))
marked-Reach num w c reason s =
    elim w.marks
      as (λ b.
        Reach num s
          (deferred_release w c (if b then mark_match_failed (ids_of c) reason s else s))) [
            | true ↦
                Reach-append (then_step start (fails (ids_of c) reason refl))
                  (deferred_release-Reach num w c (mark_match_failed (ids_of c) reason s))
            | false ↦ deferred_release-Reach num w c s
          ]

pub try_finalize-some :
    (w : World) (c : MatchCandidate) (m : Submission) (s t : Store)
    → try_finalize w c m s ≡ some t
    → finalize_match_with_price (c.taker).order_id (c.maker).order_id m.price m.amount s ≡ ok t
unfolding try_finalize
try_finalize-some w c m s t h = ground (arith, h)

conclude-Reach :
    (num : Numeric) (w : World) (c : MatchCandidate) (m : Submission) (done failed : Outcome)
    (s : Store)
    → Fits c m
    → (r : Option Store) → try_finalize w c m s ≡ r
    → Reach num s (conclude w c done failed r s).1
unfolding conclude
conclude-Reach num w c m done failed s x (some t) e = then_step start (
    finalizes (c.taker).order_id (c.maker).order_id m.price m.amount x.n x.fill
      (try_finalize-some w c m s t e))
conclude-Reach num w c m done failed s x none e = deferred_release-Reach num w c s

after_executor-Reach :
    (num : Numeric) (w : World) (c : MatchCandidate) (m : Submission) (r : Result Text (Unit {0}))
    (s : Store)
    → Fits c m
    → Reach num s (after_executor w c m r s).1
unfolding after_executor
after_executor-Reach num w c m (ok r) s x =
    conclude-Reach num w c m executed finalize_failed s x (try_finalize w c m s) refl
after_executor-Reach num w c m (err e) s x =
    elim (Bool-cases (should_finalize_after_executor_error e)) [
      | inl h ↦
          rw h
            (conclude-Reach num w c m reconciled reconcile_failed s x (try_finalize w c m s) refl)
      | inr h ↦ rw h (marked-Reach num w c e s)
    ]

give_up-Reach :
    (num : Numeric) (w : World) (c : MatchCandidate) (o : Outcome) (s : Store)
    → Reach num s (give_up w c o s).1
unfolding give_up
give_up-Reach num w c (invariant_failed e) s = marked-Reach num w c (w.message e) s
give_up-Reach num w c (acquire_failed e) s = deferred_release-Reach num w c s
give_up-Reach num w c no_candidate s = deferred_release-Reach num w c s
give_up-Reach num w c expired_order_present s = deferred_release-Reach num w c s
give_up-Reach num w c not_crossed s = deferred_release-Reach num w c s
give_up-Reach num w c zero_fill s = deferred_release-Reach num w c s
give_up-Reach num w c (bad_prices e) s = deferred_release-Reach num w c s
give_up-Reach num w c (bad_amounts e) s = deferred_release-Reach num w c s
give_up-Reach num w c (submit_failed e) s = deferred_release-Reach num w c s
give_up-Reach num w c reconcile_failed s = deferred_release-Reach num w c s
give_up-Reach num w c reconciled s = deferred_release-Reach num w c s
give_up-Reach num w c finalize_failed s = deferred_release-Reach num w c s
give_up-Reach num w c executed s = deferred_release-Reach num w c s

resume-Reach :
    (num : Numeric) (w : World) (c : MatchCandidate) (t : Store) (r : Result Outcome Submission)
    → IsValid num t
    → Holds c t
    → ((u : Store) → Reach num u (w.meanwhile u))
    → check_candidate w c ≡ r
    → Reach num t (resume w c t r).1
unfolding resume
resume-Reach num w c t (err o) v hs others e = give_up-Reach num w c o t
resume-Reach num w c t (ok m) v hs others e = Reach-append (others t) (
    after_executor-Reach num w c m (w.execute c m.units) (w.meanwhile t)
      (Checked-Fits num w c m t v hs (check_candidate-Checked w c m e)))

take_up-Reach :
    (num : Numeric) (w : World) (asset sub : Text) (s : Store)
    (r : Result RepoError (Option MatchCandidate × Store))
    → IsValid num s
    → ((u : Store) → Reach num u (w.meanwhile u))
    → acquire_match_candidate num asset sub w.now s ≡ r
    → Reach num s (take_up w s r).1
unfolding take_up attempt
take_up-Reach num w asset sub s (err e) v others h = start
take_up-Reach num w asset sub s (ok (none, t)) v others h =
    then_step start (acquires asset sub w.now none h)
take_up-Reach num w asset sub s (ok (some c, t)) v others h =
    let taken = then_step start (acquires asset sub w.now (some c) h) in
    Reach-append taken (
      resume-Reach num w c t (check_candidate w c) (Reach-IsValid num s t v taken)
        (Acquired-Holds num asset sub w.now s c t v (acquire-Acquired num asset sub w.now s c t h))
        others refl)

-- On a store that satisfies the invariant, whatever the executor answers and whichever of the
-- tick's own transactions commit, the tick is a sequence of the repository's transactions, if what
-- the other clients do in the meantime is one.
pub tick_instrument-Reach :
    (num : Numeric) (w : World) (asset sub : Text) (s : Store)
    → IsValid num s
    → ((u : Store) → Reach num u (w.meanwhile u))
    → Reach num s (tick_instrument num w asset sub s).1
unfolding tick_instrument
tick_instrument-Reach num w asset sub s v others =
    take_up-Reach num w asset sub s (acquire_match_candidate num asset sub w.now s) v others refl
