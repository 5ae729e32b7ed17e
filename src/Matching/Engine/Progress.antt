-- ===== src/Matching/Engine/Progress.antt =====
-- A match that the executor has accepted is always settled in the order table.
use markets_service.Base.{ℕ, ◌≡◌, ◌⊎◌, inl, inr, refl, true, some, ok, err}
use markets_service.Matching.Engine.{
  World, Submission, Outcome, executed, reconciled, check_candidate, try_finalize, conclude,
  after_executor, resume, attempt, take_up, tick_instrument, should_finalize_after_executor_error,
}
use markets_service.Matching.Engine.Checked.{check_candidate-Checked, Checked-Fits, Fits}
use markets_service.Orders.{MatchCandidate, Store, Numeric, matching}
use markets_service.Orders.Acquired.{Holds, acquire-Acquired, Acquired-Holds}
use markets_service.Orders.Completion.{finalize_total}
use markets_service.Orders.Effects.{Amount}
use markets_service.Orders.Foreign.{AllSpare, Reach-reserved}
use markets_service.Orders.Matches.{acquire_match_candidate, finalize_match_with_price}
use markets_service.Orders.Reach.{Reach, start, then_step, acquires, Reach-IsValid}
use markets_service.Orders.Settlement.{IsFilledBy, IsRecorded, finalize_fills}
use markets_service.Orders.Table.{set_status}
use markets_service.Orders.Validity.{IsValid}
use markets_service.Text.{Text}

-- The executor has executed the match: it says so, or its error says that the fill limit is reached.
abbrev pub Accepted : World → MatchCandidate → Submission → Type 0
Accepted w c m =
    (w.execute c m.units ≡ ok tt)
    ⊎ ((e : Text) × (w.execute c m.units ≡ err e) × (should_finalize_after_executor_error e ≡ true))

-- Both orders of the candidate are filled by one amount, and the trade is recorded.
pub record IsSettled (c : MatchCandidate) (m : Submission) (s u : Store) : Type 0 where
  pub n : ℕ
  pub fill : Amount m.amount n
  pub taker : IsFilledBy (c.taker).order_id n s u
  pub maker : IsFilledBy (c.maker).order_id n s u
  pub trade : IsRecorded (c.taker).order_id (c.maker).order_id m.amount s u

settles_finalize :
    (num : Numeric) (w : World) (c : MatchCandidate) (m : Submission) (t : Store)
    → IsValid num t
    → Holds c t
    → (r : Reach num t (w.meanwhile t)) → AllSpare (c.taker).order_id r
    → AllSpare (c.maker).order_id r
    → Fits c m
    → (u : Store) × (finalize_match_with_price
          (c.taker).order_id
          (c.maker).order_id
          m.price
          m.amount
          (w.meanwhile t)
        ≡ ok u)
      × IsSettled c m (w.meanwhile t) u
settles_finalize num w c m t v hs r st sm x =
    let s = w.meanwhile t in
    let v' = Reach-IsValid num t s v r in
    let taker = set_status matching c.taker in
    let maker = set_status matching c.maker in
    let there = Reach-reserved num t s taker v r st refl hs.taker_there in
    let there' = Reach-reserved num t s maker v r sm refl hs.maker_there in
    let (u, e) =
      finalize_total num s taker maker m.price m.amount x.n x.d x.f x.e x.g v' there there' refl
        refl hs.differ x.fill x.taker_desired x.taker_filled x.maker_desired x.maker_filled
        x.taker_room x.maker_room in
    let (ft, fm, _, rec, _) =
      finalize_fills num taker.order_id maker.order_id m.price m.amount x.n s u v' x.fill e in
    (u, e, record { n = x.n; fill = x.fill; taker = ft; maker = fm; trade = rec })

try_finalize_lem :
    (w : World) (c : MatchCandidate) (m : Submission) (s u : Store)
    → w.settles ≡ true
    → finalize_match_with_price (c.taker).order_id (c.maker).order_id m.price m.amount s ≡ ok u
    → try_finalize w c m s ≡ some u
unfolding try_finalize
try_finalize_lem w c m s u h e = rw (h, e) refl

after_executor_lem :
    (w : World) (c : MatchCandidate) (m : Submission) (s u : Store)
    → Accepted w c m
    → try_finalize w c m s ≡ some u
    → (o : Outcome) × (after_executor w c m (w.execute c m.units) s ≡ (o, u))
      × ((o ≡ executed) ⊎ (o ≡ reconciled))
unfolding after_executor conclude
after_executor_lem w c m s u (inl h) e = (executed, rw (h, e) refl, inl refl)
after_executor_lem w c m s u (inr (message, h, known)) e =
    (reconciled, rw (h, known, e) refl, inr refl)

-- From a store that satisfies the invariant: if a tick acquires a candidate that passes its checks,
-- the executor executes the match, the settling transaction commits, and what the other clients do
-- in the meantime is a sequence of transactions that releases, fails or settles no match of the two
-- orders, then the tick ends as executed or reconciled, both orders are filled by the same amount,
-- and the trade is recorded. Cancellations, expiries, new orders and other matches in the meantime
-- do not prevent it.
pub tick_settles :
    (num : Numeric) (w : World) (asset sub : Text) (s t : Store) (c : MatchCandidate)
    (m : Submission)
    → IsValid num s
    → acquire_match_candidate num asset sub w.now s ≡ ok (some c, t)
    → check_candidate w c ≡ ok m
    → Accepted w c m
    → w.settles ≡ true
    → (r : Reach num t (w.meanwhile t)) → AllSpare (c.taker).order_id r
    → AllSpare (c.maker).order_id r
    → (o : Outcome) × (u : Store) × (tick_instrument num w asset sub s ≡ (o, u))
      × ((o ≡ executed) ⊎ (o ≡ reconciled))
      × IsSettled c m (w.meanwhile t) u
unfolding tick_instrument take_up attempt resume
tick_settles num w asset sub s t c m v taken checked accepted commits r st sm =
    let v' = Reach-IsValid num s t v (then_step start (acquires asset sub w.now (some c) taken)) in
    let hs =
      Acquired-Holds num asset sub w.now s c t v
        (acquire-Acquired num asset sub w.now s c t taken) in
    let x = Checked-Fits num w c m t v' hs (check_candidate-Checked w c m checked) in
    let (u, e, settled) = settles_finalize num w c m t v' hs r st sm x in
    let (o, q, ends) =
      after_executor_lem w c m (w.meanwhile t) u accepted
        (try_finalize_lem w c m (w.meanwhile t) u commits e) in
    (o, u, rw (taken, checked) q, ends, settled)
