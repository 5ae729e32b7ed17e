-- ===== src/Service.antt =====
-- The service as a whole: requests to create and to cancel orders (internal/api/server.go) and ticks of
-- the matcher (internal/matching/engine.go), in any order, on one table.
use markets_service.Api.Custody.{Post}
use markets_service.Api.Intake.{Config, CreateOrderRequest}
use markets_service.Api.Server.Cancel.{CancelOrderRequest, handle_cancel_order}
use markets_service.Api.Server.Create.{ServerState, ErrorTexts, handle_create_order}
use markets_service.Base.{ℕ, Bool, List, Option}
use markets_service.Base.Int.{ℤ}
use markets_service.Matching.Engine.{World, tick_instrument}
use markets_service.Orders.{Store, Numeric}
use markets_service.Orders.Reach.{Reach}
use markets_service.Rational.{Rat}
use markets_service.Text.{Text}

module _ (parse_rat : Text → Option Rat) (variance_allowed : Text → Bool) (texts : ErrorTexts)
    (num : Numeric) where
  -- A run of the service. Requests and worlds are any; what other clients commit inside a request or a
  -- tick is a sequence of transactions.
  pub data Runs (first : ServerState) : ServerState → Type 0 where
    starts : Runs first first
    creates_order :
        {st : ServerState} (cfg : Config) (post : Post) (now : ℤ) (at : ℕ)
        (body : Option CreateOrderRequest)
        → Runs first st
        → Runs first
            (handle_create_order parse_rat variance_allowed texts num cfg post now at body st).1
    cancels_order :
        {st : ServerState} (prefixes : List Text) (body : Option CancelOrderRequest)
        (meanwhile : Store → Store)
        → ((u : Store) → Reach num u (meanwhile u))
        → Runs first st
        → Runs first
            (record st { store = (handle_cancel_order num prefixes meanwhile body st.store).1 })
    ticks :
        {st : ServerState} (w : World) (asset sub : Text)
        → ((u : Store) → Reach num u (w.meanwhile u))
        → Runs first st
        → Runs first (record st { store = (tick_instrument num w asset sub st.store).1 })
