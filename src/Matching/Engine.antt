-- ===== src/Matching/Engine.antt =====
-- internal/matching/engine.go: `tickInstrument`, one attempt to match a market, and
-- `shouldFinalizeAfterExecutorError`. The executor service, the clock, the display of a variance
-- price and what the other clients commit in the meantime are parameters, and so is whether the
-- database answers.
pub mod Checked
pub mod Steps
pub mod Progress
pub mod Release
pub mod Undo
pub mod Stuck
use markets_service.Base.{
  ℕ, Bool, true, false, ◌&&◌, ◌||◌, List, [], ◌∷◌, Option, none, some, Result, ok, err,
  if◌then◌else◌, ◌>>=◌, ◌>>◌, or_error, fail_if,
}
use markets_service.Base.Int.{ℤ}
use markets_service.Matching.{MatchError}
use markets_service.Matching.Crossing.{crosses, remaining_amount, min_decimal_string}
use markets_service.Matching.Units.{ExecutionUnits, compute_execution_units}
use markets_service.Orders.{Order, MatchCandidate, Store, Numeric, RepoError, is_expired}
use markets_service.Orders.Matches.{
  acquire_match_candidate, release_match, mark_match_failed, finalize_match_with_price,
}
use markets_service.Text.{Text, codes, text_eq, contains}

-- `shouldFinalizeAfterExecutorError`, of the error's message.
unfoldable pub should_finalize_after_executor_error : Text → Bool
should_finalize_after_executor_error message =
    contains message (codes "TM_FillLimitCrossed") || contains message (codes "0xfea8fa6f")

-- How a tick ends; each is one message of its log.
pub data Outcome : Type 0 where
  acquire_failed : RepoError → Outcome
  no_candidate expired_order_present not_crossed zero_fill : Outcome
  bad_prices bad_amounts invariant_failed : MatchError → Outcome
  submit_failed : Text → Outcome
  reconcile_failed reconciled finalize_failed executed : Outcome

-- A match that passes every check of the tick: what is stored and what is sent.
pub record Submission : Type 0 where
  pub price : Text
  pub amount : Text
  pub units : ExecutionUnits

-- What the tick takes from outside. `meanwhile` is what other clients commit while the executor
-- works, and `settles`, `marks` and `releases` say whether those three transactions commit.
pub record World : Type 0 where
  pub now : ℤ
  pub is_variance : Bool
  pub display_variance : Text → Option Text
  pub execute : MatchCandidate → ExecutionUnits → Result Text (Unit {0})
  pub message : MatchError → Text
  pub meanwhile : Store → Store
  pub settles : Bool
  pub marks : Bool
  pub releases : Bool

abbrev pub ids_of : MatchCandidate → List Text
ids_of c = (c.taker).order_id ∷ (c.maker).order_id ∷ []

-- The price that the trade shows.
unfoldable pub log_price : World → Order → Text
log_price w maker =
    if w.is_variance
    then (elim (w.display_variance maker.limit_price_ticks) [
      | some shown ↦ shown
      | none ↦ maker.limit_price
    ])
    else maker.limit_price

unfoldable pub wrap_error {κ} :
    {A : Type κ} → (MatchError → Outcome) → Result MatchError A → Result Outcome A
wrap_error f (ok a) = ok a
wrap_error f (err e) = err (f e)

-- The tick from the candidate up to the executor's call, with its early returns.
unfoldable pub check_candidate : World → MatchCandidate → Result Outcome Submission
unfolding wrap_error
check_candidate w c = do
  fail_if (is_expired c.taker w.now || is_expired c.maker w.now) expired_order_present
  crossed ← wrap_error bad_prices (crosses c.taker c.maker)
  fail_if (if crossed then false else true) not_crossed
  amount ←
      wrap_error bad_amounts
        (min_decimal_string (remaining_amount c.taker) (remaining_amount c.maker))
  fail_if (text_eq amount (codes "0")) zero_fill
  units ← wrap_error invariant_failed (compute_execution_units c (c.maker).limit_price_ticks amount)
  ok (record { price = log_price w c.maker; amount = amount; units = units })

-- `FinalizeMatchWithPrice` where the connection may fail: the store after it, if it commits.
unfoldable pub try_finalize : World → MatchCandidate → Submission → Store → Option Store
try_finalize w c m s =
    if w.settles
    then (elim (finalize_match_with_price (c.taker).order_id (c.maker).order_id m.price m.amount
        s) [ ok t ↦ some t | err e ↦ none ])
    else none

-- The deferred `ReleaseMatch`.
unfoldable pub deferred_release : World → MatchCandidate → Store → Store
deferred_release w c s = if w.releases then release_match (ids_of c) s else s

-- The end of a tick that called `FinalizeMatchWithPrice`: on success `release` is reset.
unfoldable pub conclude :
    World → MatchCandidate → Outcome → Outcome → Option Store → Store → Outcome × Store
conclude w c done failed (some t) s = (done, t)
conclude w c done failed none s = (failed, deferred_release w c s)

-- The tick from the executor's answer on; `s` is the store by then.
unfoldable pub after_executor :
    World → MatchCandidate → Submission → Result Text (Unit {0}) → Store → Outcome × Store
after_executor w c m (ok r) s = conclude w c executed finalize_failed (try_finalize w c m s) s
after_executor w c m (err e) s =
    if should_finalize_after_executor_error e
    then conclude w c reconciled reconcile_failed (try_finalize w c m s) s
    else (
      submit_failed e,
      deferred_release w c (if w.marks then mark_match_failed (ids_of c) e s else s),
    )

-- The tick that ends before the executor is called. Only a failed invariant is marked.
unfoldable pub give_up : World → MatchCandidate → Outcome → Store → Outcome × Store
give_up w c (invariant_failed e) s = (
  invariant_failed e,
  deferred_release w c (if w.marks then mark_match_failed (ids_of c) (w.message e) s else s),
)
give_up w c o s = (o, deferred_release w c s)

-- The tick with the outcome of its checks.
unfoldable pub resume : World → MatchCandidate → Store → Result Outcome Submission → Outcome × Store
resume w c s (err o) = give_up w c o s
resume w c s (ok m) = after_executor w c m (w.execute c m.units) (w.meanwhile s)

-- The tick once it has a candidate.
unfoldable pub attempt : World → MatchCandidate → Store → Outcome × Store
attempt w c s = resume w c s (check_candidate w c)

-- The tick with the answer of `AcquireMatchCandidate`.
unfoldable pub take_up :
    World → Store → Result RepoError (Option MatchCandidate × Store) → Outcome × Store
take_up w s (err e) = (acquire_failed e, s)
take_up w s (ok (none, t)) = (no_candidate, t)
take_up w s (ok (some c, t)) = attempt w c t

-- `tickInstrument`
unfoldable pub tick_instrument : Numeric → World → Text → Text → Store → Outcome × Store
tick_instrument num w asset sub s = take_up w s (acquire_match_candidate num asset sub w.now s)
