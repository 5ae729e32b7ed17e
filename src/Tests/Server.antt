-- ===== src/Tests/Server.antt =====
-- The handlers on the sample book.
use markets_service.Api.Custody.{Post, unguarded}
use markets_service.Api.Server.{failed, sent, namespace}
use markets_service.Api.Server.Cancel.{
  CancelOrderRequest, handle_cancel_order, validate, find_prefix, validate_cancel_namespace,
  cancel_valid, cancel_target, cancel_unless, cancelled_as,
}
use markets_service.Api.Server.Cancel.Protected.{
  IsEquivalence, IsProtected, handle_cancel_order-IsProtected,
}
use markets_service.Api.Server.Create.{ServerState, ErrorTexts, handle_create_order}
use markets_service.Api.Server.Create.Intact.{IsRefused, IsAccepted, handle_create_order_lem}
use markets_service.Api.Server.Trades.Walk.{read_pages, read_pages-history, history}
use markets_service.Base.{
  ℕ, ◌<◌, ◌≡◌, refl, sym, ◌∙◌, ◌⊎◌, true, false, [], ◌∷◌, some, ok, err, All, arith, inl, Member,
}
use markets_service.Base.Int.{pos}
use markets_service.Orders.{Store, TradeFill, buy, cancelled}
use markets_service.Orders.Entry.{find_active_by_owner_nonce, cancel_by_owner_nonce}
use markets_service.Orders.History.Newest.{IsChronicle}
use markets_service.Orders.Reach.{Reach, start}
use markets_service.Matching.Engine.{tick_instrument}
use markets_service.Service.{Runs, starts, creates_order, ticks}
use markets_service.Orders.Table.{find_row, update_where, set_status}
use markets_service.Tests.Intake.{whole, request, cfg}
use markets_service.Tests.Samples.{plain, asset, book, book-IsValid, maker, taker, store_of, world}
use markets_service.Text.{
  codes, text_eq, is_empty, lower, to_lower, is_space, trim_left, trim_space, has_prefix,
}
use markets_service.Text.Laws.{text_eq_iff}

abbrev silent : Post
silent to call_data = err []

abbrev state : ServerState
state = record { store = book; checker = unguarded }

abbrev no_texts : ErrorTexts
no_texts p e = []

handle_create_order_lem_example :
    let (reply, st') =
      handle_create_order whole
        (λ t. true)
        no_texts
        plain
        cfg
        silent
        (pos 50)
        9
        (some request)
        state in
    IsRefused reply state st'
    ⊎ IsAccepted whole (λ t. true) plain cfg silent (pos 50) 9 request reply state st'
handle_create_order_lem_example =
    handle_create_order_lem whole (λ t. true) no_texts plain cfg silent (pos 50) 9 request state
      book-IsValid

-- The request, and a tick after it.
abbrev after_request : ServerState
after_request =
    (handle_create_order whole (λ t. true) no_texts plain cfg silent (pos 50) 9 (some request)
      state).1

abbrev after_tick : ServerState
after_tick = record after_request {
  store = (tick_instrument plain (world (ok tt)) asset (codes "3") after_request.store).1;
}

abbrev served : Runs whole (λ t. true) no_texts plain state after_tick
served =
    ticks (world (ok tt)) asset (codes "3") (λ u. start)
      (creates_order cfg silent (pos 50) 9 (some request) starts)

-- A service cancels the buy order, and may not touch the orders of "m".
abbrev cancel : CancelOrderRequest
cancel = record { owner_address = codes "T"; nonce = codes "7"; reason = []; service = codes "bot" }

abbrev after : Store
after = store_of (maker ∷ set_status cancelled taker ∷ [])

cancelled_by_service :
    handle_cancel_order plain (codes "m" ∷ []) (λ s. s) (some cancel) book
    ≡ (sent 200 (set_status cancelled taker), after)
unfolding handle_cancel_order validate find_prefix validate_cancel_namespace cancel_valid
    cancel_target cancel_unless cancelled_as find_active_by_owner_nonce cancel_by_owner_nonce
    find_row update_where text_eq lower to_lower is_space trim_left trim_space has_prefix
cancelled_by_service = refl

kept_from_service :
    handle_cancel_order plain
      (codes "m" ∷ [])
      (λ s. s)
      (some (record cancel { owner_address = codes "m" }))
      book
    ≡ (failed 403 (namespace (codes "m")), book)
unfolding handle_cancel_order validate find_prefix validate_cancel_namespace cancel_valid
    cancel_target cancel_unless cancelled_as find_active_by_owner_nonce cancel_by_owner_nonce
    find_row update_where text_eq lower to_lower is_space trim_left trim_space has_prefix
kept_from_service = refl

equal_texts : IsEquivalence text_eq
equal_texts = record {
  symmetric = λ a b h. (text_eq_iff b a).1 (sym ((text_eq_iff a b).0 h));
  transitive = λ a b c h k. (text_eq_iff a c).1 ((text_eq_iff a b).0 h ∙ (text_eq_iff b c).0 k);
}

service_named : is_empty (trim_space cancel.service) ≡ false
unfolding is_space trim_left trim_space
service_named = refl

maker-IsProtected : IsProtected (codes "m" ∷ []) maker
unfolding is_space trim_left trim_space lower to_lower has_prefix
maker-IsProtected = record { prefix = codes "m"; configured = inl refl; begins = refl }

handle_cancel_order-IsProtected_example :
    let (reply, t) = handle_cancel_order plain (codes "m" ∷ []) (λ s. s) (some cancel) book in
    (t ≡ book) ⊎ Member maker t.orders
handle_cancel_order-IsProtected_example =
    handle_cancel_order-IsProtected plain (codes "m" ∷ []) cancel (λ s. s) book maker equal_texts
      book-IsValid start service_named maker-IsProtected (inl refl)

-- Three trades, read two at a time.
abbrev trade : ℕ → TradeFill
trade n = record {
  trade_id = n;
  asset_address = asset;
  sub_id = codes "3";
  price = codes "10";
  size = codes "1";
  aggressor_side = buy;
  taker_order_id = codes "t";
  maker_order_id = codes "m";
}

abbrev traded : Store
traded = record { orders = []; fills = trade 1 ∷ trade 2 ∷ trade 4 ∷ []; next_trade_id = 5 }

chronicle : IsChronicle (λ f. f.trade_id) traded.fills
unfolding IsChronicle
chronicle = ground arith

positive : All (λ f. 0 < f.trade_id) traded.fills
positive = ground arith

read_pages-history_example :
    read_pages plain (λ f. f.trade_id) asset (codes "3") 2 traded 4 0
    ≡ some (history plain (λ f. f.trade_id) asset (codes "3") 1 traded)
read_pages-history_example =
    read_pages-history plain (λ f. f.trade_id) asset (codes "3") 1 traded 4 refl chronicle positive
      (omega arith)
