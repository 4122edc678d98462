-- ===== src/OrderController/Polling.antt =====
-- processTrade and updateOrders of order/controller.go: the open positions and the publications.
use ninjabot.Prelude.{
  ℕ, ◌≡◌, refl, sym, ap, ◌∙◌, String, false, List, [], ◌∷◌, ◌++◌, map, Option, none, some,
  Bool-cases, Option-cases, if◌then◌else◌, inl, inr,
}
use ninjabot.Prelude.Map.{Map, lookup, insert, lookup-insert, str_eq_refl}
use ninjabot.Float.{Float64}
use ninjabot.Float.Laws.{IsExact}
use ninjabot.Model.Order.{Order, is_filled}
use ninjabot.OrderController.Summary.{Summary, new_summary, record_result}
use ninjabot.OrderController.Position.{Position, Result, apply_to_position}
use ninjabot.OrderController.State.{
  Storage, Exchange, Controller, reported, realized, published, emit,
}
use ninjabot.OrderController.Trades.{
  add_volume, note_volume, note_result, store_profit, update_position, process_trade,
  process_updated, fetch_updates, update_orders, same_status,
}
use ninjabot.OrderController.Exposure.{exposure, gain, net_filled}
use ninjabot.OrderController.Restored.{Priced, AllPriced, apply_to_position-exposure}
use ninjabot.OrderController.Publications.{
  append-nil, append_assoc, published_ids, published_ids-reported, published_ids-realized,
  published_ids-published,
}

module _ {V : Type 0} ⦃fl : Float64 V⦄ where
  note_volume-lookup :
      (o : Order V) (m : Map (Summary V))
      → (s : Summary V) × (lookup o.pair (note_volume o m) ≡ some s)
  unfolding note_volume
  note_volume-lookup o m = elim (Option-cases (lookup o.pair m)) [
    | inl e ↦ (add_volume o (new_summary o.pair), rw (e, note_volume, lookup-insert, str_eq_refl))
    | inr (s, e) ↦ (add_volume o s, rw (e, note_volume, lookup-insert, str_eq_refl))
  ]

  note_result-some :
      (pair : String) (r : Result V) (m : Map (Summary V)) (s : Summary V)
      → lookup pair m ≡ some s
      → (m' : Map (Summary V)) × (note_result pair r m ≡ some m')
  unfolding note_result
  note_result-some pair r m s e =
      (insert pair (record_result r.side r.profit_percent r.profit_value s) m, rw (e, note_result))

module _ {S E V : Type 0} ⦃fl : Float64 V⦄ (st : Storage S V) where
  store_profit-kept :
      (o : Order V) (c : Controller S E V)
      → ((store_profit st o c).position ≡ c.position)
        × ((store_profit st o c).results ≡ c.results)
        × (published_ids (store_profit st o c).events ≡ published_ids c.events)
  unfolding store_profit
  store_profit-kept o c = elim (Bool-cases (st.update_order o c.storage).0) [
    | inl e ↦ rw e (refl, refl, refl)
    | inr e ↦ rw e (refl, refl, published_ids-reported c.events)
  ]

  -- What processTrade does to the open positions and to the log, for an order and its copy.
  pub record Traded (o : Order V) (c : Controller S E V) (r : Controller S E V × Order V)
      : Type 0 where
    pub moved :
        (k : String)
        → exposure k r.0.position
          ≡ (if is_filled o.status then gain o k (exposure k c.position) else exposure k c.position)
    pub same_id : r.1.id ≡ o.id
    pub quiet : published_ids r.0.events ≡ published_ids c.events

module _ {S E V : Type 0} ⦃fl : Float64 V⦄ (x : IsExact fl) (st : Storage S V) where
  -- updatePosition after the position was updated, with and without a result.
  update_position-applied :
      (o : Order V) (c : Controller S E V) (s : Summary V)
      → lookup o.pair c.results ≡ some s
      → (m : Map (Position V)) (a : Order V) (result : Option (Result V))
      → apply_to_position o c.position ≡ some (m, a, result)
      → (c' : Controller S E V) × (update_position st o c ≡ some (c', a))
        × (c'.position ≡ m)
        × (published_ids c'.events ≡ published_ids c.events)
  unfolding update_position
  update_position-applied o c s known m a none ran =
      (record c { position = m }, rw (ran, update_position), refl, refl)
  update_position-applied o c s known m a (some result) ran =
      let c1 : Controller S E V = record c { position = m } in
      let (at, results_kept, log_kept) = store_profit-kept st a c1 in
      let c2 = store_profit st a c1 in
      let (n, noted) =
        note_result-some o.pair result c2.results s (ap (lookup o.pair) results_kept ∙ known) in
      (
        emit (realized result) (record c2 { results = n }),
        rw (ran, update_position, noted),
        at,
        published_ids-realized result c2.events ∙ log_kept,
      )

  pub process_trade-Traded :
      (o : Order V) (c : Controller S E V)
      → Priced o
      → (r : Controller S E V × Order V) × (process_trade st o c ≡ some r) × Traded st o c r
  unfolding process_trade
  process_trade-Traded o c priced = elim (Bool-cases (is_filled o.status)) [
    | inr e ↦
        ((c, o), rw (e, process_trade), record { moved = λ k. rw e; same_id = refl; quiet = refl })
    | inl e ↦
        let (s, known) = note_volume-lookup o c.results in
        let c1 : Controller S E V = record c { results = note_volume o c.results } in
        let (a, ran, gained, same_id) = apply_to_position-exposure x o c.position priced in
        let (c', done, at, quiet) = update_position-applied o c1 s known a.0 a.1 a.2 ran in
        (
          (c', a.1),
          rw (e, process_trade) done,
          record {
            moved = λ k. rw e (ap (exposure k) at ∙ gained k);
            same_id = same_id;
            quiet = quiet;
          },
        )
  ]

  process_updated-some :
      (os : List (Order V)) (c : Controller S E V)
      → AllPriced os
      → (c' : Controller S E V) × (process_updated st os c ≡ some c')
        × ((k : String) → exposure k c'.position ≡ net_filled k os (exposure k c.position))
        × (published_ids c'.events ≡ published_ids c.events ++ map (λ o. o.id) os)
  unfolding process_updated net_filled
  process_updated-some [] c h = (c, refl, λ k. refl, sym (append-nil _))
  process_updated-some (o ∷ os) c h =
      let (r, ran, traded) = process_trade-Traded o c h.0 in
      let c1 = emit (published r.1 false) r.0 in
      let (c', rest, moved, log) = process_updated-some os c1 h.1 in
      (
        c',
        rw ran rest,
        λ k. moved k ∙ ap (net_filled k os) (traded.moved k),
        log
            ∙ ap (λ ids. ids ++ map (λ a. a.id) os)
                (published_ids-published r.1 false r.0.events
                  ∙ ap (λ n. published_ids r.0.events ++ n ∷ []) traded.same_id
                  ∙ ap (λ ids. ids ++ o.id ∷ []) traded.quiet)
            ∙ append_assoc (published_ids c.events) (o.id ∷ []) (map (λ a. a.id) os),
      )

module _ {S E V : Type 0} ⦃fl : Float64 V⦄ (st : Storage S V) (ex : Exchange E V) where
  -- The exchange never answers with a stop order that has no stop.
  abbrev pub AnswersPriced : Type 0
  AnswersPriced =
      (pair : String) (id : ℕ) (e : E) (o : Order V) → ex.order pair id e ≡ some o → Priced o

  AllPriced-snoc :
      (os : List (Order V)) (o : Order V) → AllPriced os → Priced o → AllPriced (os ++ o ∷ [])
  AllPriced-snoc [] o h p = (p, tt)
  AllPriced-snoc (a ∷ os) o h p = (h.0, AllPriced-snoc os o h.1 p)

  -- What the first loop keeps of the controller `c`, and what it says of the collected orders.
  Collected : Controller S E V → Controller S E V × List (Order V) → Type 0
  Collected c r =
      AllPriced r.1
      × (r.0.position ≡ c.position)
      × (published_ids r.0.events ≡ published_ids c.events)

  Collected-start :
      (c : Controller S E V) (os : List (Order V)) → AllPriced os → Collected c (c, os)
  unfolding Collected
  Collected-start c os h = (h, refl, refl)

  Collected-stored :
      (c : Controller S E V) (s : S) (r : Controller S E V × List (Order V))
      → Collected (record c { storage = s }) r
      → Collected c r
  unfolding Collected
  Collected-stored c s r h = h

  Collected-reported :
      (c : Controller S E V) (r : Controller S E V × List (Order V))
      → Collected (emit reported c) r
      → Collected c r
  unfolding Collected
  Collected-reported c r (p, q, l) = (p, q, l ∙ published_ids-reported c.events)

  fetch_updates-Collected :
      (answers : AnswersPriced) (os : List (Order V)) (c : Controller S E V)
      (updated : List (Order V))
      → AllPriced updated
      → Collected c (fetch_updates st ex os c updated)
  unfolding fetch_updates
  fetch_updates-Collected answers [] c updated h = Collected-start c updated h
  fetch_updates-Collected answers (o ∷ os) c updated h =
      elim (Option-cases (ex.order o.pair o.exchange_id c.exchange)) [
        | inl e ↦ rw (e, fetch_updates) (fetch_updates-Collected answers os c updated h)
        | inr (a, e) ↦
            let x : Order V = record a { id = o.id } in
            let s = (st.update_order x c.storage).1 in
            let c1 : Controller S E V = record c { storage = s } in
            elim (Bool-cases (same_status a.status o.status)) [
              | inl same ↦
                  rw (e, fetch_updates, same) (fetch_updates-Collected answers os c updated h)
              | inr changed ↦ elim (Bool-cases (st.update_order x c.storage).0) [
                | inl done ↦
                    rw (e, fetch_updates, changed, done)
                      (Collected-stored c s _ (
                        fetch_updates-Collected answers os c1 (updated ++ x ∷ []) (
                          AllPriced-snoc updated x h
                            (answers o.pair o.exchange_id c.exchange a e))))
                | inr failed ↦
                    rw (e, fetch_updates, changed, failed)
                      (Collected-stored c s _ (
                        Collected-reported c1 _
                          (fetch_updates-Collected answers os (emit reported c1) updated h)))
              ]
            ]
      ]

  -- In exact arithmetic, if the storage hands out the open orders, the exchange answers stop orders
  -- with their stop only, and the first loop of updateOrders collects the orders `updated`, then
  -- updateOrders does not panic; what each pair holds grows by the signed quantities of the filled
  -- orders of `updated`; and exactly the orders of `updated` are published, in their sequence.
  pub update_orders-exposure :
      (exact : IsExact fl) (answers : AnswersPriced) (c : Controller S E V)
      (orders : List (Order V))
      → st.open_orders c.storage ≡ some orders
      → let updated = (fetch_updates st ex orders c []).1 in
        (c' : Controller S E V) × (update_orders st ex c ≡ some c')
        × ((k : String) → exposure k c'.position ≡ net_filled k updated (exposure k c.position))
        × (published_ids c'.events ≡ published_ids c.events ++ map (λ o. o.id) updated)
  unfolding update_orders Collected
  update_orders-exposure exact answers c orders found =
      let r = fetch_updates st ex orders c [] in
      let (priced, at, log) = fetch_updates-Collected answers orders c [] tt in
      let (c', ran, moved, log_after) = process_updated-some exact st r.1 r.0 priced in
      (
        c',
        rw (found, update_orders) ran,
        λ k. moved k ∙ ap (λ m. net_filled k r.1 (exposure k m)) at,
        log_after ∙ ap (λ ids. ids ++ map (λ o. o.id) r.1) log,
      )
