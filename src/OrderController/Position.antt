-- ===== src/OrderController/Position.antt =====
-- Positions of order/controller.go: Position.Update, applyToPosition and RestorePositions.
use ninjabot.Prelude.{
  ℕ, String, Bool, true, false, List, [], ◌∷◌, Option, none, some, ◌>>=◌, ltb, ◌==◌, not,
  if◌then◌else◌,
}
use ninjabot.Prelude.Int.{ℤ, sub_ℕ}
use ninjabot.Prelude.Map.{Map, lookup, insert, erase}
use ninjabot.Float.{Float64, ◌⊕◌, ◌⊖◌, ◌⊗◌, ◌⊘◌, ◌<?◌, ◌=?◌, min}
use ninjabot.Model.Order.{SideType, buy, sell, Order, is_stop_like, is_filled}

pub record Result (V : Type 0) : Type 0 where
  pub pair : String
  pub profit_percent : V
  pub profit_value : V
  pub side : SideType
  -- In seconds.
  pub duration : ℤ
  pub created_at : ℕ

pub record Position (V : Type 0) : Type 0 where
  pub side : SideType
  pub avg_price : V
  pub quantity : V
  pub created_at : ℕ

-- What Update leaves: the position, the order with its profit, the result, and `finished`.
pub record Updated (V : Type 0) : Type 0 where
  pub position : Position V
  pub order : Order V
  pub result : Option (Result V)
  pub finished : Bool

abbrev pub same_side : SideType → SideType → Bool
same_side buy buy = true
same_side sell sell = true
same_side _ _ = false

module _ {V : Type 0} where
  -- The price of the order, or the stop that it points to.
  abbrev pub fill_price : Order V → Option V
  fill_price o = if is_stop_like o.type then o.stop else some o.price

  -- The comparison of RestorePositions.
  abbrev pub before : Order V → Order V → Bool
  before a b =
      if not (a.created_at == b.created_at) then ltb a.created_at b.created_at else ltb a.id b.id

  -- `sort.SliceStable`, by insertion: equal orders keep their sequence.
  unfoldable pub insert_sorted : Order V → List (Order V) → List (Order V)
  insert_sorted o [] = o ∷ []
  insert_sorted o (x ∷ xs) =
      let rest = insert_sorted o xs in if before x o then x ∷ rest else o ∷ x ∷ xs

  unfoldable pub sort_orders : List (Order V) → List (Order V)
  unfolding insert_sorted
  sort_orders [] = []
  sort_orders (o ∷ os) = insert_sorted o (sort_orders os)

  -- The first loop of RestorePositions.
  unfoldable pub filled_orders : List (Order V) → List (Order V)
  filled_orders [] = []
  filled_orders (o ∷ os) =
      let rest = filled_orders os in if is_filled o.status then o ∷ rest else rest

module _ {V : Type 0} ⦃fl : Float64 V⦄ where
  abbrev pub enlarge : V → Order V → Position V → Position V
  enlarge price o p = record p {
    avg_price = (p.avg_price ⊗ p.quantity ⊕ price ⊗ o.quantity) ⊘ (p.quantity ⊕ o.quantity);
    quantity = p.quantity ⊕ o.quantity;
  }

  -- The position after an order of the other side: closed, reduced or turned over.
  abbrev pub reduce : V → Order V → Position V → Position V
  reduce price o p =
      if p.quantity =? o.quantity
      then p
      else if o.quantity <? p.quantity
      then record p { quantity = p.quantity ⊖ o.quantity }
      else record {
        side = o.side;
        avg_price = price;
        quantity = o.quantity ⊖ p.quantity;
        created_at = o.created_at;
      }

  -- The profit that Update computes from the position it has already reduced.
  abbrev pub realize : V → Order V → Position V → Bool → Updated V
  realize price o p finished =
      let percent = (price ⊖ p.avg_price) ⊘ p.avg_price in
      let value = (price ⊖ p.avg_price) ⊗ min p.quantity o.quantity in
      record {
        position = p;
        order = record o { profit = percent; profit_value = value };
        result = some (record {
          pair = o.pair;
          profit_percent = percent;
          profit_value = value;
          side = p.side;
          duration = sub_ℕ o.created_at p.created_at;
          created_at = o.created_at;
        });
        finished = finished;
      }

  -- `Position.Update`, at the price of the order.
  unfoldable pub update_at : V → Order V → Position V → Updated V
  unfolding min
  update_at price o p =
      if same_side p.side o.side
      then record { position = enlarge price o p; order = o; result = none; finished = false }
      else realize price o (reduce price o p) (p.quantity =? o.quantity)

  -- `Position.Update`, which panics on a stop order without its stop.
  unfoldable pub update : Order V → Position V → Option (Updated V)
  unfolding update_at
  update o p = fill_price o >>= λ price. some (update_at price o p)

  abbrev pub open_position : Order V → Position V
  open_position o = record {
    side = o.side;
    avg_price = o.price;
    quantity = o.quantity;
    created_at = o.created_at;
  }

  -- The map after Update.
  unfoldable pub keep_open : String → Updated V → Map (Position V) → Map (Position V)
  unfolding insert erase
  keep_open pair u m = if u.finished then erase pair m else insert pair u.position m

  -- applyToPosition: the open positions, the order with its profit, and the result.
  unfoldable pub apply_to_position :
      Order V → Map (Position V) → Option (Map (Position V) × Order V × Option (Result V))
  unfolding lookup insert update keep_open
  apply_to_position o m = elim (lookup o.pair m) [
    | none ↦ some (insert o.pair (open_position o) m, o, none)
    | some p ↦ update o p >>= λ u. some (keep_open o.pair u m, u.order, u.result)
  ]

  -- The second loop of RestorePositions.
  unfoldable pub apply_all : List (Order V) → Map (Position V) → Option (Map (Position V))
  unfolding apply_to_position
  apply_all [] m = some m
  apply_all (o ∷ os) m = apply_to_position o m >>= λ r. apply_all os r.0

  -- RestorePositions, which touches nothing but the open positions.
  unfoldable pub restore_positions : List (Order V) → Map (Position V) → Option (Map (Position V))
  unfolding filled_orders sort_orders apply_all
  restore_positions orders m = apply_all (sort_orders (filled_orders orders)) m
