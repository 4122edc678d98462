-- ===== src/Model/Order.antt =====
-- model/order.go: an order of an exchange. Ids are int64 counters, which stay far below their
-- bound; `stop` and `group_id` are nil pointers or values.
use ninjabot.Prelude.{ℕ, Bool, true, false, String, Option}
use ninjabot.Model.Candle.{Candle}

pub data SideType : Type 0 where
  buy sell : SideType

pub data OrderType : Type 0 where
  limit market limit_maker stop_loss stop_loss_limit take_profit take_profit_limit : OrderType

pub data OrderStatusType : Type 0 where
  new partially_filled filled canceled pending_cancel rejected expired : OrderStatusType

pub record Order (V : Type 0) : Type 0 where
  pub id : ℕ
  pub exchange_id : ℕ
  pub pair : String
  pub side : SideType
  pub type : OrderType
  pub status : OrderStatusType
  pub price : V
  pub quantity : V
  pub created_at : ℕ
  pub updated_at : ℕ
  pub session_id : String
  pub stop : Option V
  pub group_id : Option ℕ
  pub ref_price : V
  pub profit : V
  pub profit_value : V
  pub candle : Candle V

-- Tests by `==` on the constants of the three string types.
abbrev pub is_buy : SideType → Bool
is_buy buy = true
is_buy sell = false

abbrev pub is_new : OrderStatusType → Bool
is_new new = true
is_new _ = false

abbrev pub is_filled : OrderStatusType → Bool
is_filled filled = true
is_filled _ = false

-- The types that OnCandle executes at the price of the order.
abbrev pub is_limit_like : OrderType → Bool
is_limit_like limit = true
is_limit_like limit_maker = true
is_limit_like take_profit = true
is_limit_like take_profit_limit = true
is_limit_like _ = false

-- The types that are executed at the stop price.
abbrev pub is_stop_like : OrderType → Bool
is_stop_like stop_loss = true
is_stop_like stop_loss_limit = true
is_stop_like _ = false
