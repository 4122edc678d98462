-- ===== src/Wallet/Execution.antt =====
-- The execution of one order: it does not panic where the assets of the pair are known, and the
-- order leaves the status NEW.
use ninjabot.Prelude.{
  ℕ, ◌≡◌, refl, Bool, true, false, List, Option, none, some, get_elem?, Option-cases, Bool-cases,
  ◌&&◌, if◌then◌else◌, inl, inr,
}
use ninjabot.Prelude.Map.{has_key}
use ninjabot.Float.{Float64, ◌⊕◌, ◌⊖◌, ◌⊗◌, ◌≤?◌}
use ninjabot.Model.Candle.{Candle}
use ninjabot.Model.Order.{Order, buy, sell, is_buy, is_new, is_limit_like, is_stop_like}
use ninjabot.Wallet.State.{
  PaperWallet, Pairs, split_asset_quote, free, lock, set_free, set_lock, ensure_asset,
}
use ninjabot.Wallet.Funds.{update_average_price}
use ninjabot.Wallet.Fill.{
  add_volume, fill_buy, fill_sell, cancel_sibling, set_filled, sell_price, process_order,
}
use ninjabot.Wallet.Evolution.{
  Evolves, cancel_sibling-Evolves, set_filled-Evolves, set_filled-filled,
}
use ninjabot.Wallet.Progress.{
  Progress, Progress-refl, Progress-trans, set_free-Progress, set_lock-Progress,
  ensure_asset-Progress, add_free-some, sub_lock-some, update_average_price-Same,
  update_average_price-Progress,
}

module _ {V : Type 0} where
  -- Both assets of the pair of the order have an entry.
  abbrev pub Known : Pairs → Order V → PaperWallet V → Type 0
  Known pairs o w =
      (has_key (split_asset_quote pairs o.pair).0 w.assets ≡ true)
      × (has_key (split_asset_quote pairs o.pair).1 w.assets ≡ true)

  -- A stop order has its stop price.
  abbrev pub Stopped : Order V → Type 0
  Stopped o = is_stop_like o.type ≡ true → (s : V) × (o.stop ≡ some s)

  -- The order at the index, if there is one, has left the status NEW.
  abbrev pub Settled : ℕ → PaperWallet V → Type 0
  Settled i w = (b : Order V) → get_elem? w.orders i ≡ some b → is_new b.status ≡ false

  orders-Progress :
      (os : List (Order V)) (w : PaperWallet V)
      → Evolves w.orders os
      → Progress w (record w { orders = os })
  orders-Progress os w e = record {
    evolved = e;
    kept = λ k h. h;
    same_pending = refl;
    same_counter = refl;
  }

module _ {V : Type 0} ⦃fl : Float64 V⦄ (candle : Candle V) where
  -- The condition under which OnCandle executes a new order.
  stop_reached : Option V → Bool
  stop_reached none = false
  stop_reached (some stop) = candle.low ≤? stop

  sell_triggered : Order V → Bool
  unfolding stop_reached
  sell_triggered o =
      if is_limit_like o.type && o.price ≤? candle.high
      then true
      else is_stop_like o.type && stop_reached o.stop

  unfoldable pub triggered : Order V → Bool
  unfolding sell_triggered
  triggered o = if is_buy o.side then candle.close ≤? o.price else sell_triggered o

  sell_price-some :
      (o : Order V)
      → Stopped o
      → (p : Option V) × (sell_price candle o ≡ some p) × (p ≡ none → sell_triggered o ≡ false)
  unfolding sell_price sell_triggered
  sell_price-some o stopped = elim (Bool-cases (is_limit_like o.type && o.price ≤? candle.high)) [
    | inl e ↦ (some o.price, rw e, λ p. cc)
    | inr e ↦ elim (Bool-cases (is_stop_like o.type)) [
      | inr f ↦ (none, rw (e, f), λ p. rw (e, f))
      | inl f ↦
          let (s, has) = stopped f in
          elim (Bool-cases (candle.low ≤? s)) [
            | inl hit ↦ (some s, rw (e, f, has, hit), λ p. cc)
            | inr miss ↦ (none, rw (e, f, has, miss), λ p. rw (e, f, has, miss))
          ]
    ]
  ]

module _ {V : Type 0} ⦃fl : Float64 V⦄ (pairs : Pairs) (candle : Candle V) where
  set_filled-Settled :
      (i : ℕ) (w : PaperWallet V)
      → Settled i (record w { orders = set_filled i candle.time w.orders })
  set_filled-Settled i w b e = rw (set_filled-filled i candle.time w.orders e)

  -- The volume is noted, and the order is filled.
  filling :
      (i : ℕ) (v : V) (w : PaperWallet V)
      → Progress w
          (record (add_volume candle.pair v w) { orders = set_filled i candle.time w.orders })
  filling i v w = record {
    evolved = set_filled-Evolves i candle.time w.orders;
    kept = λ k h. h;
    same_pending = refl;
    same_counter = refl;
  }

  pub fill_buy-Progress :
      (i : ℕ) (o : Order V) (w : PaperWallet V)
      → Known pairs o w
      → (w' : PaperWallet V) × (fill_buy pairs candle i o w ≡ some w')
        × Progress w w'
        × Settled i w'
  unfolding fill_buy set_free set_lock
  fill_buy-Progress i o w known =
      let asset = (split_asset_quote pairs o.pair).0 in
      let quote = (split_asset_quote pairs o.pair).1 in
      let w1 : PaperWallet V =
        add_volume candle.pair (o.price ⊗ o.quantity) (ensure_asset asset w) in
      let w2 : PaperWallet V = record w1 { orders = set_filled i candle.time w1.orders } in
      let w3 = update_average_price pairs buy o.pair o.quantity o.price w2 in
      let w4 = set_free asset (free w3 asset ⊕ o.quantity) w3 in
      let same = update_average_price-Same pairs buy o.pair o.quantity o.price w2 in
      let before : Progress w w3 = Progress-trans (ensure_asset-Progress asset w) (
        Progress-trans {v = w2} (filling i _ (ensure_asset asset w))
          (update_average_price-Progress pairs buy o.pair o.quantity o.price w2)) in
      let freed : Progress w w4 = Progress-trans before (set_free-Progress asset _ w3) in
      (
        set_lock quote (lock w4 quote ⊖ o.price ⊗ o.quantity) w4,
        rw (add_free-some asset o.quantity w3 (before.kept asset known.0))
            (sub_lock-some quote (o.price ⊗ o.quantity) w4 (freed.kept quote known.1)),
        Progress-trans freed (set_lock-Progress quote _ w4),
        λ b e. set_filled-Settled i w1 b (rw (same.0) at e),
      )

  pub fill_sell-Progress :
      (i : ℕ) (o : Order V) (price : V) (w : PaperWallet V)
      → Known pairs o w
      → (w' : PaperWallet V) × (fill_sell pairs candle i o price w ≡ some w')
        × Progress w w'
        × Settled i w'
  unfolding fill_sell set_free set_lock
  fill_sell-Progress i o price w known =
      let asset = (split_asset_quote pairs o.pair).0 in
      let quote = (split_asset_quote pairs o.pair).1 in
      let w0 : PaperWallet V = record w { orders = cancel_sibling o candle.time w.orders } in
      let w1 = ensure_asset quote w0 in
      let w2 : PaperWallet V = add_volume candle.pair (o.quantity ⊗ price) w1 in
      let w3 : PaperWallet V = record w2 { orders = set_filled i candle.time w2.orders } in
      let w4 = update_average_price pairs sell o.pair o.quantity price w3 in
      let w5 = set_lock asset (lock w4 asset ⊖ o.quantity) w4 in
      let same = update_average_price-Same pairs sell o.pair o.quantity price w3 in
      let canceled : Progress w w0 =
        orders-Progress _ w (cancel_sibling-Evolves o candle.time w.orders) in
      let before : Progress w w4 = Progress-trans canceled (
        Progress-trans (ensure_asset-Progress quote w0) (
          Progress-trans {v = w3} (filling i _ w1)
            (update_average_price-Progress pairs sell o.pair o.quantity price w3))) in
      let unlocked : Progress w w5 = Progress-trans before (set_lock-Progress asset _ w4) in
      (
        set_free quote (free w5 quote ⊕ o.quantity ⊗ price) w5,
        rw (sub_lock-some asset o.quantity w4 (before.kept asset known.0))
            (add_free-some quote (o.quantity ⊗ price) w5 (unlocked.kept quote known.1)),
        Progress-trans unlocked (set_free-Progress quote _ w5),
        λ b e. set_filled-Settled i w2 b (rw (same.0) at e),
      )

  -- A round that completes the index has settled the order; one that does not has changed nothing
  -- and met a new order that the candle does not trigger.
  abbrev pub Round : ℕ → Order V → PaperWallet V → PaperWallet V × Bool → Type 0
  Round i o w (w', true) = Progress w w' × Settled i w'
  Round i o w (w', false) = (w' ≡ w) × (triggered candle o ≡ false)

  pub process_order-Round :
      (i : ℕ) (o : Order V) (w : PaperWallet V)
      → get_elem? w.orders i ≡ some o
      → Known pairs o w
      → Stopped o
      → (r : PaperWallet V × Bool) × (process_order pairs candle i o w ≡ some r) × Round i o w r
  unfolding process_order triggered
  process_order-Round i o w at known stopped = elim (Bool-cases (is_new o.status)) [
    | inr settled ↦ ((w, true), rw settled, (Progress-refl w, λ b e. cc))
    | inl fresh ↦ elim (Bool-cases (is_buy o.side)) [
      | inl b ↦ elim (Bool-cases (candle.close ≤? o.price)) [
        | inl hit ↦
            let (w', run, progress, done) = fill_buy-Progress i o w known in
            ((w', true), rw (fresh, b, hit, run), (progress, done))
        | inr miss ↦ ((w, false), rw (fresh, b, miss), (refl, rw (b, miss)))
      ]
      | inr s ↦
          let (p, read, waits) = sell_price-some candle o stopped in
          elim (Option-cases p) [
            | inl e ↦ ((w, false), rw (fresh, s, read, e), (refl, rw s (waits e)))
            | inr (price, e) ↦
                let (w', run, progress, done) = fill_sell-Progress i o price w known in
                ((w', true), rw (fresh, s, read, e, run), (progress, done))
          ]
    ]
  ]
