-- ===== src/Tools/Scheduler.antt =====
-- tools/scheduler.go: orders that wait for a condition on the dataframe. The broker's
-- CreateOrderMarket is a parameter, with whether it succeeded.
use ninjabot.Prelude.{
  ◌≡◌, refl, ap, String, Bool, true, false, List, [], ◌∷◌, ◌++◌, Bool-cases, if◌then◌else◌, inl,
  inr,
}
use ninjabot.Model.Order.{SideType, buy, sell}

-- A condition on a dataframe of type `D`, with the order that it triggers.
pub record OrderCondition (D V : Type 0) : Type 0 where
  pub condition : D → Bool
  pub size : V
  pub side : SideType

pub record Scheduler (D V : Type 0) : Type 0 where
  pub pair : String
  pub order_conditions : List (OrderCondition D V)

module _ {D V : Type 0} where
  abbrev pub new_scheduler : String → Scheduler D V
  new_scheduler pair = record { pair = pair; order_conditions = [] }

  abbrev pub add_condition : OrderCondition D V → Scheduler D V → Scheduler D V
  add_condition oc s = record s { order_conditions = s.order_conditions ++ oc ∷ [] }

  unfoldable pub sell_when : V → (D → Bool) → Scheduler D V → Scheduler D V
  sell_when size condition s =
      add_condition (record { condition = condition; size = size; side = sell }) s

  unfoldable pub buy_when : V → (D → Bool) → Scheduler D V → Scheduler D V
  buy_when size condition s =
      add_condition (record { condition = condition; size = size; side = buy }) s

module _ {D V B : Type 0} (create_order_market : SideType → String → V → B → Bool × B)
    (df : D) where
  -- lo.Filter with the function that places the orders: what is kept, and the broker.
  unfoldable pub place_orders :
      String → List (OrderCondition D V) → B → List (OrderCondition D V) × B
  place_orders pair [] b = ([], b)
  place_orders pair (oc ∷ ocs) b =
      let (created, b1) = create_order_market oc.side pair oc.size b in
      let (rest, b2) = place_orders pair ocs b1 in
      let (others, b3) = place_orders pair ocs b in
      if oc.condition df
      then (if created then (rest, b2) else (oc ∷ rest, b2))
      else (oc ∷ others, b3)

  -- Update
  unfoldable pub update : Scheduler D V → B → Scheduler D V × B
  unfolding place_orders
  update s b =
      let (kept, b1) = place_orders s.pair s.order_conditions b in
      (record s { order_conditions = kept }, b1)

  -- No condition of the list holds.
  AllIdle : List (OrderCondition D V) → Type 0
  AllIdle [] = Unit {0}
  AllIdle (oc ∷ ocs) = (oc.condition df ≡ false) × AllIdle ocs

  place_orders-idle :
      (pair : String) (ocs : List (OrderCondition D V)) (b : B)
      → AllIdle ocs
      → place_orders pair ocs b ≡ (ocs, b)
  unfolding place_orders AllIdle
  place_orders-idle pair [] b h = refl
  place_orders-idle pair (oc ∷ ocs) b (e, h) =
      rw (e, place_orders) (ap (λ r. (oc ∷ r.0, r.1)) (place_orders-idle pair ocs b h))

  module _
      (accepts : (side : SideType) (pair : String) (size : V) (b : B)
        → (create_order_market side pair size b).0 ≡ true) where
    place_orders-AllIdle :
        (pair : String) (ocs : List (OrderCondition D V)) (b : B)
        → AllIdle (place_orders pair ocs b).0
    unfolding place_orders AllIdle
    place_orders-AllIdle pair [] b = tt
    place_orders-AllIdle pair (oc ∷ ocs) b = elim (Bool-cases (oc.condition df)) [
      | inl e ↦
          let done = accepts oc.side pair oc.size b in
          rw (e, done, place_orders)
            (place_orders-AllIdle pair ocs (create_order_market oc.side pair oc.size b).1)
      | inr e ↦ rw (e, place_orders) (e, place_orders-AllIdle pair ocs b)
    ]

    -- If the broker accepts every order, a second Update with the same dataframe places no order
    -- and keeps every condition: each condition is used once.
    pub update-once :
        (s : Scheduler D V) (b : B) → let (s', b') = update s b in update s' b' ≡ (s', b')
    unfolding update
    update-once s b =
        let (kept, b1) = place_orders s.pair s.order_conditions b in
        ap (λ r. (record s { order_conditions = r.0 }, r.1))
          (place_orders-idle s.pair kept b1 (place_orders-AllIdle s.pair s.order_conditions b))
