-- ===== src/OrderController/Requests.antt =====
-- The CreateOrder methods and Cancel of order/controller.go. The mutex makes a method atomic; the
-- goroutine that publishes a new order is an event.
use ninjabot.Prelude.{
  String, Bool, true, false, List, [], ◌∷◌, Option, none, some, ◌>>=◌, if◌then◌else◌,
}
use ninjabot.Float.{Float64}
use ninjabot.Model.Order.{SideType, pending_cancel, Order}
use ninjabot.OrderController.State.{Storage, Exchange, Controller, reported, published, emit}
use ninjabot.OrderController.Trades.{process_trade}

abbrev Reply : Type 0 → Type 0 → Type 0 → Type 0
Reply S E V = Option (Order V) × Controller S E V

module _ {S E V : Type 0} ⦃fl : Float64 V⦄ (st : Storage S V) where
  -- A new order on the storage, and its publication.
  unfoldable pub store_waiting : Option (Order V) × E → Controller S E V → Reply S E V
  store_waiting (none, e) c = (none, emit reported (record c { exchange = e }))
  store_waiting (some o, e) c =
      let (stored, s) = st.create_order o c.storage in
      let c1 : Controller S E V = record c { exchange = e; storage = s } in
      elim stored [
        | none ↦ (none, emit reported c1)
        | some x ↦ (some x, emit (published x true) c1)
      ]

  -- The same for an order that the exchange has filled, which is a trade before it is published.
  unfoldable pub store_filled : Option (Order V) × E → Controller S E V → Option (Reply S E V)
  unfolding process_trade
  store_filled (none, e) c = some (none, emit reported (record c { exchange = e }))
  store_filled (some o, e) c =
      let (stored, s) = st.create_order o c.storage in
      let c1 : Controller S E V = record c { exchange = e; storage = s } in
      elim stored [
        | none ↦ some (none, emit reported c1)
        | some x ↦ process_trade st x c1 >>= λ r. some (some r.1, emit (published r.1 true) r.0)
      ]

  -- The loop of CreateOrderOCO.
  unfoldable pub store_all :
      List (Order V) → Controller S E V → Option (List (Order V)) × Controller S E V
  store_all [] c = (some [], c)
  store_all (o ∷ os) c =
      let (stored, s) = st.create_order o c.storage in
      let c1 : Controller S E V = record c { storage = s } in
      elim stored [
        | none ↦ (none, emit reported c1)
        | some x ↦
            let (rest, c2) = store_all os (emit (published x true) c1) in
            elim rest [ none ↦ (none, c2) | some xs ↦ (some (x ∷ xs), c2) ]
      ]

  module _ (ex : Exchange E V) where
    unfoldable pub create_order_limit : SideType → String → V → V → Controller S E V → Reply S E V
    unfolding store_waiting
    create_order_limit side pair size limit c =
        store_waiting (ex.create_order_limit side pair size limit c.exchange) c

    unfoldable pub create_order_stop : String → V → V → Controller S E V → Reply S E V
    unfolding store_waiting
    create_order_stop pair size limit c =
        store_waiting (ex.create_order_stop pair size limit c.exchange) c

    unfoldable pub create_order_market :
        SideType → String → V → Controller S E V → Option (Reply S E V)
    unfolding store_filled
    create_order_market side pair size c =
        store_filled (ex.create_order_market side pair size c.exchange) c

    unfoldable pub create_order_market_quote :
        SideType → String → V → Controller S E V → Option (Reply S E V)
    unfolding store_filled
    create_order_market_quote side pair amount c =
        store_filled (ex.create_order_market_quote side pair amount c.exchange) c

    unfoldable pub create_order_oco :
        SideType
        → String
        → V
        → V
        → V
        → V
        → Controller S E V
        → Option (List (Order V)) × Controller S E V
    unfolding store_all
    create_order_oco side pair size price stop stop_limit c =
        let (orders, e) = ex.create_order_oco side pair size price stop stop_limit c.exchange in
        let c1 : Controller S E V = record c { exchange = e } in
        elim orders [ none ↦ (none, emit reported c1) | some os ↦ store_all os c1 ]

    -- Cancel: whether it succeeded.
    unfoldable pub cancel : Order V → Controller S E V → Bool × Controller S E V
    cancel o c =
        let (canceled, e) = ex.cancel o c.exchange in
        let c1 : Controller S E V = record c { exchange = e } in
        let (done, s) = st.update_order (record o { status = pending_cancel }) c1.storage in
        let c2 : Controller S E V = record c1 { storage = s } in
        if canceled then (if done then (true, c2) else (false, emit reported c2)) else (false, c1)
