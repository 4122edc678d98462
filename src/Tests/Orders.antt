-- ===== src/Tests/Orders.antt =====
-- The order controller's theorems at sample data over the integers.
use ninjabot.Prelude.{
  ℕ, ◌≡◌, refl, sym, ap, ◌∙◌, Bool-cases, inl, inr, suc, String, Bool, true, false, List, [], ◌∷◌,
  ◌++◌, map, Option, none, some, ◌==◌, if◌then◌else◌,
}
use ninjabot.Prelude.Map.{Map}
use ninjabot.Prelude.Int.{ℤ, pos, negsuc, ◌+ℤ◌, ◌-ℤ◌}
use ninjabot.Float.{◌⊕◌}
use ninjabot.Float.Integers.{integers, integers-IsExact}
use ninjabot.Model.Order.{
  SideType, OrderStatusType, buy, sell, limit, new, filled, Order, is_stop_like,
}
use ninjabot.OrderController.Summary.{Summary, new_summary, record_result, profit, trades}
use ninjabot.OrderController.Position.{Position, restore_positions}
use ninjabot.OrderController.State.{Storage, Exchange, Controller, new_controller}
use ninjabot.OrderController.Trades.{fetch_updates, update_orders}
use ninjabot.OrderController.Exposure.{exposure, net_filled}
use ninjabot.OrderController.Restored.{Priced, restore_positions-exposure}
use ninjabot.OrderController.Results.{IsCoherent, record_result-IsCoherent, record_result-profit}
use ninjabot.OrderController.Publications.{published_ids}
use ninjabot.OrderController.Polling.{update_orders-exposure}
use ninjabot.Tests.Samples.{candle_at}

-- An order of the pair at a time, which is its id too.
abbrev pub order_at : SideType → OrderStatusType → ℕ → ℤ → ℤ → Order ℤ
order_at side status time price quantity = record {
  id = time;
  exchange_id = time;
  pair = "BTCUSDT";
  side = side;
  type = limit;
  status = status;
  price = price;
  quantity = quantity;
  created_at = time;
  updated_at = time;
  session_id = "";
  stop = none;
  group_id = none;
  ref_price = pos 0;
  profit = pos 0;
  profit_value = pos 0;
  candle = candle_at time 10;
}

-- Out of sequence: a sale that turns the position over, an order that waits, and the purchase.
abbrev history : List (Order ℤ)
history =
    order_at sell filled 3 (pos 12) (pos 5)
    ∷ order_at buy new 2 (pos 9) (pos 7)
    ∷ order_at buy filled 1 (pos 10) (pos 2)
    ∷ []

restore_positions-exposure_example :
    (m' : Map (Position ℤ)) × (restore_positions history [] ≡ some m')
    × ((k : String) → exposure k m' ≡ net_filled k history (exposure k []))
restore_positions-exposure_example =
    restore_positions-exposure integers-IsExact history [] (λ e. cc, (λ e. cc, (λ e. cc, tt)))

short_after : net_filled "BTCUSDT" history (pos 0) ≡ negsuc 2
unfolding net_filled ◌+ℤ◌ ◌-ℤ◌
short_after = refl

-- A summary with one loss on a long position.
abbrev one_loss : Summary ℤ
one_loss = record_result buy (negsuc 1) (negsuc 6) (new_summary "BTCUSDT")

record_result-profit_example :
    IsCoherent (record_result sell (pos 1) (pos 4) one_loss)
    × (profit (record_result sell (pos 1) (pos 4) one_loss) ≡ profit one_loss ⊕ pos 4)
    × (trades (record_result sell (pos 1) (pos 4) one_loss) ≡ suc (trades one_loss))
record_result-profit_example =
    record_result-profit integers-IsExact sell (pos 1) (pos 4) one_loss
      (record_result-IsCoherent buy (negsuc 1) (negsuc 6) (new_summary "BTCUSDT"))

-- A storage that is a list of orders, and counts the writes.
abbrev list_storage : Storage (List (Order ℤ) × ℕ) ℤ
list_storage = record {
  open_orders = λ s. some s.0;
  create_order = λ o s. (some o, (o ∷ s.0, suc s.1));
  update_order = λ o s. (true, (s.0, suc s.1));
}

-- An exchange that has filled order 1 and knows no other.
abbrev fills_first : Exchange ℕ ℤ
fills_first = record {
  order = λ pair id e. if id == 1 then some (order_at buy filled 1 (pos 10) (pos 2)) else none;
  position = λ pair e. none;
  create_order_oco = λ side pair size price stop stop_limit e. (none, e);
  create_order_limit = λ side pair size price e. (none, e);
  create_order_market = λ side pair size e. (none, e);
  create_order_market_quote = λ side pair amount e. (none, e);
  create_order_stop = λ pair size price e. (none, e);
  cancel = λ o e. (false, e);
}

abbrev two_open : List (Order ℤ)
two_open = order_at buy new 1 (pos 10) (pos 2) ∷ order_at buy new 2 (pos 9) (pos 7) ∷ []

abbrev polled : Controller (List (Order ℤ) × ℕ) ℕ ℤ
polled = new_controller 0 (two_open, 0)

asks_stop : Option (Order ℤ) → Bool
asks_stop none = false
asks_stop (some o) = is_stop_like o.type

no_stops : (id : ℕ) (o : Order ℤ) → fills_first.order "BTCUSDT" id 0 ≡ some o → Priced o
unfolding asks_stop
no_stops id o answer =
    let never : is_stop_like o.type ≡ false =
      sym (ap asks_stop answer) ∙ (elim (Bool-cases (id == 1)) [ inl e ↦ rw e | inr e ↦ rw e ]) in
    λ stop. cc

update_orders-exposure_example :
    let updated = (fetch_updates list_storage fills_first two_open polled []).1 in
    (c' : Controller (List (Order ℤ) × ℕ) ℕ ℤ) × (update_orders list_storage fills_first polled
      ≡ some c')
    × ((k : String) → exposure k c'.position ≡ net_filled k updated (exposure k polled.position))
    × (published_ids c'.events ≡ published_ids polled.events ++ map (λ o. o.id) updated)
update_orders-exposure_example =
    update_orders-exposure list_storage fills_first integers-IsExact
      (λ pair id e o answer. no_stops id o answer) polled two_open refl
