-- ===== src/Api/Server/Create/Intact.antt =====
-- What a request to create an order leaves behind.
use markets_service.Api.{ApiError}
use markets_service.Api.Custody.{CustodyChecker, CustodyError, Post, guard}
use markets_service.Api.Intake.{Config, CreateOrderRequest, to_params}
use markets_service.Api.Intake.Sound.{create-to_params}
use markets_service.Api.Server.{Failure, intake, custody, repository, Reply, failed, sent}
use markets_service.Api.Server.Create.{
  ServerState, ErrorTexts, error_text, stored, guarded, checked, handle_create_order, create_status,
}
use markets_service.Base.{
  ℕ, Bool, ◌≡◌, refl, [], ◌∷◌, ◌++◌, Option, some, Result, ok, err, ◌⊎◌, inl, inr, ap,
}
use markets_service.Base.Int.{ℤ}
use markets_service.Orders.{Order, Store, Numeric, RepoError}
use markets_service.Orders.Entry.{CreateOrderParams, create}
use markets_service.Orders.Validity.{IsValid}
use markets_service.Rational.{Rat}
use markets_service.Text.{Text}

-- The request was refused, and the table is as it was.
pub record IsRefused (reply : Reply Order) (st st' : ServerState) : Type 0 where
  pub code : ℕ
  pub reason : Failure
  pub answered : reply ≡ failed code reason
  pub kept : st'.store ≡ st.store

module _ (parse_rat : Text → Option Rat) (variance_allowed : Text → Bool) where
  -- The order was checked, its subaccount passed the guard, and it stands behind the others.
  pub record IsAccepted (num : Numeric) (cfg : Config) (post : Post) (now : ℤ) (at : ℕ)
      (req : CreateOrderRequest) (reply : Reply Order) (st st' : ServerState) : Type 0 where
    pub params : CreateOrderParams
    pub order : Order
    pub answered : reply ≡ sent 201 order
    pub priced : to_params parse_rat variance_allowed cfg now req ≡ ok params
    pub admitted : (guard post params.subaccount_id st.checker).0 ≡ ok tt
    pub inserted : create num params at st.store ≡ ok (order, st'.store)
    pub enters : (st'.store).orders ≡ (st.store).orders ++ order ∷ []
    pub valid : IsValid num st'.store

  abbrev Outcome :
      Numeric
      → Config
      → Post
      → ℤ
      → ℕ
      → CreateOrderRequest
      → Reply Order
      → ServerState
      → ServerState
      → Type 0
  Outcome num cfg post now at req reply st st' =
      IsRefused reply st st' ⊎ IsAccepted num cfg post now at req reply st st'

  stored_outcome :
      (texts : RepoError → Text) (num : Numeric) (cfg : Config) (post : Post) (now : ℤ) (at : ℕ)
      (req : CreateOrderRequest) (st : ServerState) (p : CreateOrderParams) (g : CustodyChecker)
      (r : Result RepoError (Order × Store))
      → IsValid num st.store
      → to_params parse_rat variance_allowed cfg now req ≡ ok p
      → (guard post p.subaccount_id st.checker).0 ≡ ok tt
      → create num p at st.store ≡ r
      → Outcome num cfg post now at req
          (stored texts r g st.store).0
          st
          (stored texts r g st.store).1
  unfolding stored
  stored_outcome texts num cfg post now at req st p g (err e) v c a q = inl (record {
    code = create_status (error_text texts e);
    reason = repository e;
    answered = refl;
    kept = refl;
  })
  stored_outcome texts num cfg post now at req st p g (ok (o, t)) v c a q =
      let (valid, enters) =
        create-to_params parse_rat variance_allowed cfg now req p num at st.store t o v c q in
      inr (record {
        params = p;
        order = o;
        answered = refl;
        priced = c;
        admitted = a;
        inserted = q;
        enters = enters;
        valid = valid;
      })

  guarded_outcome :
      (texts : ErrorTexts) (num : Numeric) (cfg : Config) (post : Post) (now : ℤ) (at : ℕ)
      (req : CreateOrderRequest) (st : ServerState) (p : CreateOrderParams)
      (r : Result CustodyError (Unit {0}) × CustodyChecker)
      → IsValid num st.store
      → to_params parse_rat variance_allowed cfg now req ≡ ok p
      → guard post p.subaccount_id st.checker ≡ r
      → Outcome num cfg post now at req
          (guarded texts num at p r st.store).0
          st
          (guarded texts num at p r st.store).1
  unfolding guarded
  guarded_outcome texts num cfg post now at req st p (err e, g) v c q =
      inl (record { code = 400; reason = custody e; answered = refl; kept = refl })
  guarded_outcome texts num cfg post now at req st p (ok u, g) v c q =
      stored_outcome (texts p) num cfg post now at req st p g (create num p at st.store) v c
        (ap (λ x. x.0) q) refl

  checked_outcome :
      (texts : ErrorTexts) (num : Numeric) (cfg : Config) (post : Post) (now : ℤ) (at : ℕ)
      (req : CreateOrderRequest) (st : ServerState) (r : Result ApiError CreateOrderParams)
      → IsValid num st.store
      → to_params parse_rat variance_allowed cfg now req ≡ r
      → Outcome num cfg post now at req
          (checked texts num post at r st).0
          st
          (checked texts num post at r st).1
  unfolding checked
  checked_outcome texts num cfg post now at req st (err e) v q =
      inl (record { code = 400; reason = intake e; answered = refl; kept = refl })
  checked_outcome texts num cfg post now at req st (ok p) v q =
      guarded_outcome texts num cfg post now at req st p (guard post p.subaccount_id st.checker) v q
        refl

  -- A request to create an order is either refused with the table as it was, or answered with status
  -- 201 and the order: then its parameters passed every check of `toParams`, the custody guard admitted
  -- its subaccount, it stands behind all the others, and the table satisfies the invariant again.
  pub handle_create_order_lem :
      (texts : ErrorTexts) (num : Numeric) (cfg : Config) (post : Post) (now : ℤ) (at : ℕ)
      (req : CreateOrderRequest) (st : ServerState)
      → IsValid num st.store
      → let (reply, st') =
          handle_create_order parse_rat variance_allowed texts num cfg post now at (some req) st in
        IsRefused reply st st' ⊎ IsAccepted num cfg post now at req reply st st'
  unfolding handle_create_order
  handle_create_order_lem texts num cfg post now at req st v =
      checked_outcome texts num cfg post now at req st
        (to_params parse_rat variance_allowed cfg now req) v refl
