-- ===== src/Matching/Engine/Stuck.antt =====
-- A candidate with nothing to fill stops its market.
use markets_service.Base.{
  ◌||◌, Result-cases, map, All, ◌≡◌, inl, inr, refl, ap, ◌∙◌, true, false, List, [], ◌∷◌, some, ok,
  err, Bool-cases,
}
use markets_service.Matching.Engine.{
  wrap_error, zero_fill, World, Outcome, check_candidate, tick_instrument,
}
use markets_service.Matching.Crossing.{crosses, remaining_amount, min_decimal_string}
use markets_service.Matching.Units.{compute_execution_units}
use markets_service.Orders.{is_expired, MatchCandidate, Store, Numeric}
use markets_service.Orders.Book.{expire_orders}
use markets_service.Orders.Effects.{expire_orders-Effect}
use markets_service.Orders.Matches.{acquire_match_candidate}
use markets_service.Orders.Validity.{IsValid, Effect-IsValid}
use markets_service.Text.{Text, codes, text_eq}
use markets_service.Matching.Engine.Undo.{tick_undone}

-- The expiry test of two ticks that both find the orders in time.
in_time_now :
    (w : World) (c : MatchCandidate)
    → check_candidate w c ≡ err zero_fill
    → (is_expired c.taker w.now || is_expired c.maker w.now) ≡ false
unfolding check_candidate wrap_error
in_time_now w c h = elim (Bool-cases (is_expired c.taker w.now || is_expired c.maker w.now)) [
  | inl e ↦ absurd (cc (rw e at h))
  | inr e ↦ e
]

-- A check that found nothing to fill finds it in every later tick that finds both orders in time.
zero_fill_again :
    (w w' : World) (c : MatchCandidate)
    → (is_expired c.taker w'.now || is_expired c.maker w'.now) ≡ false
    → check_candidate w c ≡ err zero_fill
    → check_candidate w' c ≡ err zero_fill
unfolding check_candidate wrap_error
zero_fill_again w w' c in_time h =
    let before = in_time_now w c h in
    let h₁ = rw before at h in
    elim (Result-cases (crosses c.taker c.maker)) [
      | inl (e, q) ↦ absurd (cc (rw q at h₁))
      | inr (crossed, q) ↦ elim (Bool-cases crossed) [
        | inr apart ↦ absurd (cc (rw (q, apart) at h₁))
        | inl met ↦
            elim (Result-cases
              (min_decimal_string (remaining_amount c.taker) (remaining_amount c.maker))) [
                | inl (e, p) ↦ absurd (cc (rw (q, met, p) at h₁))
                | inr (amount, p) ↦ elim (Bool-cases (text_eq amount (codes "0"))) [
                  | inl nothing ↦ rw (in_time, q, met, p, nothing) refl
                  | inr some_fill ↦
                      elim (Result-cases
                        (compute_execution_units c (c.maker).limit_price_ticks amount)) [
                          | inl (e, u) ↦ absurd (cc (rw (q, met, p, some_fill, u) at h₁))
                          | inr (units, u) ↦ absurd (cc (rw (q, met, p, some_fill, u) at h₁))
                        ]
                ]
              ]
      ]
    ]

-- The ticks of a market one after the other, with nothing in between: how each ends, and the store.
unfoldable pub ticks : Numeric → Text → Text → List World → Store → List Outcome × Store
ticks num asset sub [] s = ([], s)
ticks num asset sub (w ∷ ws) s =
    let (o, t) = tick_instrument num w asset sub s in
    let (os, u) = ticks num asset sub ws t in (o ∷ os, u)

-- A tick whose release commits, at an instant when no order of the store is due and the two are in
-- time. Its display, its executor and its other failures are any.
pub record IsCalm (c : MatchCandidate) (s : Store) (w : World) : Type 0 where
  pub releases : w.releases ≡ true
  pub none_due : expire_orders w.now s ≡ s
  pub in_time : (is_expired c.taker w.now || is_expired c.maker w.now) ≡ false

module _ (num : Numeric) (asset sub : Text) (w : World) (c : MatchCandidate) (s t : Store)
    (v : IsValid num s) (taken : acquire_match_candidate num asset sub w.now s ≡ ok (some c, t))
    (refused : check_candidate w c ≡ err zero_fill) where
  later_acquired :
      (w' : World)
      → IsCalm c (expire_orders w.now s) w'
      → acquire_match_candidate num asset sub w'.now (expire_orders w.now s) ≡ ok (some c, t)
  unfolding acquire_match_candidate
  later_acquired w' calm = rw calm.none_due taken

  later_tick :
      (w' : World)
      → IsCalm c (expire_orders w.now s) w'
      → tick_instrument num w' asset sub (expire_orders w.now s)
        ≡ (zero_fill, expire_orders w.now s)
  later_tick w' calm =
      tick_undone num w' asset sub (expire_orders w.now s) t c zero_fill
        (Effect-IsValid s (expire_orders w.now s) v (expire_orders-Effect num w.now s))
        (later_acquired w' calm) (zero_fill_again w w' c calm.in_time refused) calm.releases
      ∙ ap (λ x. (zero_fill, x)) calm.none_due

  later_ticks :
      (ws : List World)
      → All (IsCalm c (expire_orders w.now s)) ws
      → ticks num asset sub ws (expire_orders w.now s)
        ≡ (map (λ x. zero_fill) ws, expire_orders w.now s)
  unfolding ticks
  later_ticks [] calm = refl
  later_ticks (w' ∷ ws) calm = rw (later_tick w' calm.0, later_ticks ws calm.1) refl

-- On a store that satisfies the invariant, a tick whose release commits acquires a candidate with
-- nothing to fill. Then, until an order is due, one of the two expires or another client commits, every later tick whose
-- release commits, at whatever instant and with whatever executor, ends with nothing to fill too and
-- leaves the same store: no other pair of the market is tried.
pub zero_fill_repeats :
    (num : Numeric) (asset sub : Text) (w : World) (c : MatchCandidate) (s t : Store)
    (ws : List World)
    → IsValid num s
    → acquire_match_candidate num asset sub w.now s ≡ ok (some c, t)
    → check_candidate w c ≡ err zero_fill
    → w.releases ≡ true
    → All (IsCalm c (expire_orders w.now s)) ws
    → ticks num asset sub (w ∷ ws) s ≡ (zero_fill ∷ map (λ x. zero_fill) ws, expire_orders w.now s)
unfolding ticks
zero_fill_repeats num asset sub w c s t ws v taken refused h calm =
    rw
      (
        tick_undone num w asset sub s t c zero_fill v taken refused h,
        later_ticks num asset sub w c s t v taken refused ws calm,
      )
      refl
