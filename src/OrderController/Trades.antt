-- ===== src/OrderController/Trades.antt =====
-- updatePosition, processTrade and updateOrders of order/controller.go.
use ninjabot.Prelude.{
  String, Bool, true, false, List, [], ◌∷◌, ◌++◌, Option, none, some, ◌>>=◌, if◌then◌else◌,
}
use ninjabot.Prelude.Map.{Map, lookup, insert}
use ninjabot.Float.{Float64, ◌⊕◌, ◌⊗◌}
use ninjabot.Model.Order.{
  OrderStatusType, new, partially_filled, filled, canceled, pending_cancel, rejected, expired,
  Order, is_filled,
}
use ninjabot.OrderController.Summary.{Summary, new_summary, record_result}
use ninjabot.OrderController.Position.{Result, apply_to_position}
use ninjabot.OrderController.State.{
  Storage, Exchange, Controller, running, stopped, reported, realized, published, emit,
}

abbrev pub same_status : OrderStatusType → OrderStatusType → Bool
same_status new new = true
same_status partially_filled partially_filled = true
same_status filled filled = true
same_status canceled canceled = true
same_status pending_cancel pending_cancel = true
same_status rejected rejected = true
same_status expired expired = true
same_status _ _ = false

module _ {V : Type 0} ⦃fl : Float64 V⦄ where
  -- `&summary{Pair: pair}` for a pair without results, and the volume of the order.
  abbrev pub add_volume : Order V → Summary V → Summary V
  add_volume o s = record s { volume = s.volume ⊕ o.price ⊗ o.quantity }

  unfoldable pub note_volume : Order V → Map (Summary V) → Map (Summary V)
  unfolding lookup insert
  note_volume o m = elim (lookup o.pair m) [
    | none ↦ insert o.pair (add_volume o (new_summary o.pair)) m
    | some s ↦ insert o.pair (add_volume o s) m
  ]

  -- The result on the summary of the pair, which panics where there is none.
  unfoldable pub note_result : String → Result V → Map (Summary V) → Option (Map (Summary V))
  unfolding lookup insert record_result
  note_result pair r m = elim (lookup pair m) [
    | none ↦ none
    | some s ↦ some (insert pair (record_result r.side r.profit_percent r.profit_value s) m)
  ]

module _ {S E V : Type 0} ⦃fl : Float64 V⦄ (st : Storage S V) where
  -- The stored profit, with the error that the write may report.
  unfoldable pub store_profit : Order V → Controller S E V → Controller S E V
  store_profit o c =
      let (done, s) = st.update_order o c.storage in
      let c1 : Controller S E V = record c { storage = s } in if done then c1 else emit reported c1

  -- updatePosition: the controller, and the order with its profit.
  unfoldable pub update_position : Order V → Controller S E V → Option (Controller S E V × Order V)
  unfolding apply_to_position note_result store_profit
  update_position o c = apply_to_position o c.position >>= λ r.
      let c1 : Controller S E V = record c { position = r.0 } in
      elim r.2 [
        | none ↦ some (c1, r.1)
        | some result ↦
            let c2 = store_profit r.1 c1 in
            note_result o.pair result c2.results >>= λ m.
            some (emit (realized result) (record c2 { results = m }), r.1)
      ]

  -- processTrade
  unfoldable pub process_trade : Order V → Controller S E V → Option (Controller S E V × Order V)
  unfolding note_volume update_position
  process_trade o c =
      let traded = update_position o (record c { results = note_volume o c.results }) in
      if is_filled o.status then traded else some (c, o)

  -- The last loop of updateOrders.
  unfoldable pub process_updated : List (Order V) → Controller S E V → Option (Controller S E V)
  unfolding process_trade
  process_updated [] c = some c
  process_updated (o ∷ os) c =
      process_trade o c >>= λ r. process_updated os (emit (published r.1 false) r.0)

  module _ (ex : Exchange E V) where
    -- The first loop of updateOrders: the orders whose status changed, as they were stored.
    unfoldable pub fetch_updates :
        List (Order V) → Controller S E V → List (Order V) → Controller S E V × List (Order V)
    fetch_updates [] c updated = (c, updated)
    fetch_updates (o ∷ os) c updated = elim (ex.order o.pair o.exchange_id c.exchange) [
      | none ↦ fetch_updates os c updated
      | some e ↦
          let x : Order V = record e { id = o.id } in
          let (done, s) = st.update_order x c.storage in
          let c1 : Controller S E V = record c { storage = s } in
          if same_status e.status o.status
          then fetch_updates os c updated
          else if done
          then fetch_updates os c1 (updated ++ x ∷ [])
          else fetch_updates os (emit reported c1) updated
    ]

    -- updateOrders
    unfoldable pub update_orders : Controller S E V → Option (Controller S E V)
    unfolding fetch_updates process_updated
    update_orders c = elim (st.open_orders c.storage) [
      | none ↦ some (emit reported c)
      | some orders ↦ let (c1, updated) = fetch_updates orders c [] in process_updated updated c1
    ]

    -- Start and Stop, without the ticker's goroutine.
    unfoldable pub start : Controller S E V → Controller S E V
    start c = elim c.status [ running ↦ c | _ ↦ record c { status = running } ]

    unfoldable pub stop : Controller S E V → Option (Controller S E V)
    unfolding update_orders
    stop c = elim c.status [ running ↦ update_orders (record c { status = stopped }) | _ ↦ some c ]
