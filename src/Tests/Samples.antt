-- ===== src/Tests/Samples.antt =====
-- A market with a sell order of seven units at ten ticks and a buy order of five units at twelve.
use markets_service.Base.{
  ℕ, refl, Bool, true, false, List, [], ◌∷◌, some, none, replicate, Result, inl, arith,
}
use markets_service.Base.Int.{pos}
use markets_service.Json.{str, obj, member, end, RawMessage}
use markets_service.Matching.Engine.{World}
use markets_service.Matching.TradeData.RoundTrip.{TradeTuple, encode_trade_data}
use markets_service.Orders.{
  Order, Side, buy, sell, active, Store, Numeric, MatchCandidate, matching,
}
use markets_service.Orders.Validity.{IsValid, terms}
use markets_service.Text.{Text, codes, text_eq}
use markets_service.Text.Decimal.{set_string, scan, scan_nat}

-- Columns that give back the text as it is.
abbrev pub plain : Numeric
plain = record { stored = λ t. some t; same = text_eq; jsonb = λ j. some j }

abbrev pub asset : Text
asset = codes "0x0101010101010101010101010101010101010101"

-- Ten ticks are signed as 1000, and one unit as 10.
abbrev pub signed : Bool → ℕ → ℕ → TradeTuple
signed is_bid price amount = record {
  asset = replicate 20 1;
  sub_id = 3;
  limit_price = pos price;
  desired_amount = pos amount;
  worst_fee = replicate 32 0;
  recipient_id = replicate 32 0;
  is_bid = is_bid;
}

abbrev pub action : TradeTuple → RawMessage
action t = some (obj (member (codes "data") (str (encode_trade_data t)) end))

abbrev pub order : Text → Side → Text → Text → Text → RawMessage → ℕ → Order
order id side desired filled ticks json created = record {
  order_id = id;
  owner_address = id;
  signer_address = id;
  subaccount_id = codes "1";
  recipient_id = codes "1";
  nonce = codes "7";
  side = side;
  asset_address = asset;
  sub_id = codes "3";
  desired_amount = desired;
  filled_amount = filled;
  limit_price = ticks;
  limit_price_ticks = ticks;
  worst_fee = codes "0";
  expiry = pos 100;
  action_json = json;
  signature = [];
  status = active;
  created_at = created;
}

abbrev pub maker : Order
maker =
    order (codes "m") sell (codes "7") (codes "0") (codes "10") (action (signed false 1000 70)) 1

abbrev pub taker : Order
taker = order (codes "t") buy (codes "5") (codes "0") (codes "12") (action (signed true 1200 50)) 2

abbrev pub candidate : MatchCandidate
candidate = record { taker = taker; maker = maker }

abbrev pub store_of : List Order → Store
store_of os = record { orders = os; fills = []; next_trade_id = 1 }

abbrev pub book : Store
book = store_of (maker ∷ taker ∷ [])

abbrev pub reserved : Order → Order
reserved o = record o { status = matching }

-- The executor answers, the database commits, and nobody else writes.
abbrev pub world : Result Text (Unit {0}) → World
world answer = record {
  now = pos 50;
  is_variance = false;
  display_variance = λ ticks. none;
  execute = λ c u. answer;
  message = λ e. [];
  meanwhile = λ s. s;
  settles = true;
  marks = true;
  releases = true;
}

pub book-IsValid : IsValid plain book
unfolding terms text_eq set_string scan scan_nat
book-IsValid = record {
  no_clash = ((refl, tt), (tt, tt));
  sound =
      ((7, 0, refl, refl, omega arith, inl refl), ((5, 0, refl, refl, omega arith, inl refl), tt));
}
