-- ===== src/OrderController/State.antt =====
-- The Controller of order/controller.go with what it calls: the storage and the exchange are
-- parameters, and what it sends to the order feed and to the notifier is a list of events.
use ninjabot.Prelude.{ℕ, String, Bool, List, [], ◌∷◌, ◌++◌, Option, none, some}
use ninjabot.Prelude.Map.{Map, insert, lookup_or}
use ninjabot.Float.{Float64, ◌⊗◌, lit}
use ninjabot.Model.Candle.{Candle}
use ninjabot.Model.Order.{SideType, Order}
use ninjabot.OrderController.Summary.{Summary}
use ninjabot.OrderController.Position.{Position, Result}

-- The methods of the storage that the controller calls: `orders` with the filter on the status.
-- A write has the next state of the storage and whether it succeeded; CreateOrder sets the id.
pub record Storage (S V : Type 0) : Type 0 where
  pub open_orders : S → Option (List (Order V))
  pub create_order : Order V → S → Option (Order V) × S
  pub update_order : Order V → S → Bool × S

-- The methods of the exchange; `none` is an error.
pub record Exchange (E V : Type 0) : Type 0 where
  pub order : String → ℕ → E → Option (Order V)
  pub position : String → E → Option (V × V)
  pub create_order_oco : SideType → String → V → V → V → V → E → Option (List (Order V)) × E
  pub create_order_limit : SideType → String → V → V → E → Option (Order V) × E
  pub create_order_market : SideType → String → V → E → Option (Order V) × E
  pub create_order_market_quote : SideType → String → V → E → Option (Order V) × E
  pub create_order_stop : String → V → V → E → Option (Order V) × E
  pub cancel : Order V → E → Bool × E

pub data Status : Type 0 where
  unset running stopped error : Status

-- A call of the notifier or of the order feed: an error, a realized result, a published order
-- with its `newOrder` flag.
pub data Event (V : Type 0) : Type 0 where
  reported : Event V
  realized : Result V → Event V
  published : Order V → Bool → Event V

pub record Controller (S E V : Type 0) : Type 0 where
  pub exchange : E
  pub storage : S
  pub results : Map (Summary V)
  pub last_price : Map V
  pub status : Status
  pub position : Map (Position V)
  pub events : List (Event V)

module _ {S E V : Type 0} where
  -- NewController
  abbrev pub new_controller : E → S → Controller S E V
  new_controller exchange storage = record {
    exchange = exchange;
    storage = storage;
    results = [];
    last_price = [];
    status = unset;
    position = [];
    events = [];
  }

  abbrev pub emit : Event V → Controller S E V → Controller S E V
  emit e c = record c { events = c.events ++ e ∷ [] }

  unfoldable pub on_candle : Candle V → Controller S E V → Controller S E V
  unfolding insert
  on_candle candle c = record c { last_price = insert candle.pair candle.close c.last_price }

module _ {S E V : Type 0} ⦃fl : Float64 V⦄ (ex : Exchange E V) where
  -- PositionValue
  unfoldable pub position_value : String → Controller S E V → Option V
  unfolding lookup_or
  position_value pair c = elim (ex.position pair c.exchange) [
    | none ↦ none
    | some p ↦ some (p.0 ⊗ lookup_or (lit 0) pair c.last_price)
  ]
