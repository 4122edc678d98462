-- ===== src/Wallet/Fill.antt =====
-- OnCandle and removeCompletedOrders of paperwallet.go: the execution of the pending orders of
-- the candle's pair.
use ninjabot.Prelude.{
  ℕ, zero, suc, String, Bool, true, false, not, ◌&&◌, List, [], ◌∷◌, ◌++◌, Option, none, some,
  get_elem?, contains, ◌==◌, ◌>>=◌, if◌then◌else◌,
}
use ninjabot.Prelude.Map.{lookup, lookup_or, insert, erase, has_key}
use ninjabot.Float.{Float64, ◌⊕◌, ◌⊖◌, ◌⊗◌, ◌≤?◌, lit}
use ninjabot.Model.Candle.{Candle}
use ninjabot.Model.Order.{
  buy, sell, is_buy, is_new, is_limit_like, is_stop_like, filled, canceled, Order,
}
use ninjabot.Wallet.State.{
  PaperWallet, Pairs, split_asset_quote, info, free, lock, set_free, set_lock, ensure_asset,
  price_of,
}
use ninjabot.Wallet.Funds.{update_average_price}
use ninjabot.Wallet.Equity.{update_equity_values}

-- `GroupID` is not nil in both, and the ids of the groups are equal.
abbrev pub same_group : Option ℕ → Option ℕ → Bool
same_group (some g) (some h) = g == h
same_group (some g) none = false
same_group none h = false

-- The loop of removeCompletedOrders.
unfoldable pub without : List ℕ → List ℕ → List ℕ
without completed [] = []
without completed (i ∷ is) =
    let rest = without completed is in if contains completed i then rest else i ∷ rest

module _ {V : Type 0} where
  -- The loop that cancels the first other order of the group.
  unfoldable pub cancel_sibling : Order V → ℕ → List (Order V) → List (Order V)
  cancel_sibling o time [] = []
  cancel_sibling o time (x ∷ xs) =
      if same_group o.group_id x.group_id && not (x.exchange_id == o.exchange_id)
      then record x { status = canceled; updated_at = time } ∷ xs
      else x ∷ cancel_sibling o time xs

  -- `p.orders[i].UpdatedAt = t; p.orders[i].Status = FILLED`
  unfoldable pub set_filled : ℕ → ℕ → List (Order V) → List (Order V)
  set_filled zero time (x ∷ xs) = record x { status = filled; updated_at = time } ∷ xs
  set_filled (suc i) time (x ∷ xs) = x ∷ set_filled i time xs
  set_filled i time [] = []

  -- removeCompletedOrders
  unfoldable pub remove_completed_orders : String → List ℕ → PaperWallet V → PaperWallet V
  unfolding without lookup_or lookup insert erase
  remove_completed_orders pair [] w = w
  remove_completed_orders pair (c ∷ cs) w =
      let left = without (c ∷ cs) (lookup_or [] pair w.pending_orders) in
      record w {
        pending_orders = elim left [
          | [] ↦ erase pair w.pending_orders
          | i ∷ is ↦ insert pair (i ∷ is) w.pending_orders
        ];
      }

module _ {V : Type 0} ⦃fl : Float64 V⦄ where
  -- The price at which a sell order is executed; `some none` if it waits, and `none` where the
  -- nil stop of a stop order is read.
  unfoldable pub sell_price : Candle V → Order V → Option (Option V)
  sell_price candle o =
      let by_stop : Option (Option V) = elim o.stop [
        | none ↦ none
        | some stop ↦ some (if candle.low ≤? stop then some stop else none)
      ] in
      if is_limit_like o.type && o.price ≤? candle.high
      then some (some o.price)
      else if is_stop_like o.type
      then by_stop
      else some none

  abbrev pub add_volume : String → V → PaperWallet V → PaperWallet V
  add_volume pair v w = record w { volume = insert pair (price_of w.volume pair ⊕ v) w.volume }

  -- `p.assets[k].Free += v` and `p.assets[k].Lock -= v`, which panic on a missing asset.
  unfoldable pub add_free : String → V → PaperWallet V → Option (PaperWallet V)
  unfolding has_key set_free info
  add_free k v w = if has_key k w.assets then some (set_free k (free w k ⊕ v) w) else none

  unfoldable pub sub_lock : String → V → PaperWallet V → Option (PaperWallet V)
  unfolding has_key set_lock info
  sub_lock k v w = if has_key k w.assets then some (set_lock k (lock w k ⊖ v) w) else none

module _ {V : Type 0} ⦃fl : Float64 V⦄ (candle : Candle V) where
  -- The state that the loop starts from.
  unfoldable pub note_candle : PaperWallet V → PaperWallet V
  unfolding insert has_key
  note_candle w = record w {
    last_candle = insert candle.pair candle w.last_candle;
    first_candle =
        if has_key candle.pair w.first_candle
        then w.first_candle
        else insert candle.pair candle w.first_candle;
  }

  unfoldable pub note_volume : PaperWallet V → PaperWallet V
  unfolding insert has_key
  note_volume w =
      if has_key candle.pair w.volume
      then w
      else record w { volume = insert candle.pair (lit 0) w.volume }

module _ {V : Type 0} ⦃fl : Float64 V⦄ (pairs : Pairs) (candle : Candle V) where
  -- The execution of the buy order `o` at index `i`.
  unfoldable pub fill_buy : ℕ → Order V → PaperWallet V → Option (PaperWallet V)
  unfolding ensure_asset set_filled update_average_price add_free sub_lock split_asset_quote
      lookup_or
  fill_buy i o w =
      let (asset, quote) = split_asset_quote pairs o.pair in
      let w1 = add_volume candle.pair (o.price ⊗ o.quantity) (ensure_asset asset w) in
      let w2 = record w1 { orders = set_filled i candle.time w1.orders } in
      let w3 = update_average_price pairs buy o.pair o.quantity o.price w2 in
      add_free asset o.quantity w3 >>= sub_lock quote (o.price ⊗ o.quantity)

  -- The execution of the sell order `o` at `price`.
  unfoldable pub fill_sell : ℕ → Order V → V → PaperWallet V → Option (PaperWallet V)
  unfolding ensure_asset cancel_sibling set_filled update_average_price add_free sub_lock
      split_asset_quote lookup_or
  fill_sell i o price w =
      let (asset, quote) = split_asset_quote pairs o.pair in
      let w1 = ensure_asset quote (record w { orders = cancel_sibling o candle.time w.orders }) in
      let w2 = add_volume candle.pair (o.quantity ⊗ price) w1 in
      let w3 = record w2 { orders = set_filled i candle.time w2.orders } in
      let w4 = update_average_price pairs sell o.pair o.quantity price w3 in
      sub_lock asset o.quantity w4 >>= add_free quote (o.quantity ⊗ price)

  -- One round of the loop: the wallet, and whether the index is completed.
  unfoldable pub process_order : ℕ → Order V → PaperWallet V → Option (PaperWallet V × Bool)
  unfolding fill_buy fill_sell sell_price
  process_order i o w =
      let bought = fill_buy i o w >>= λ w'. some (w', true) in
      let sold = sell_price candle o >>= λ p. elim p [
        | none ↦ some (w, false)
        | some price ↦ fill_sell i o price w >>= λ w'. some (w', true)
      ] in
      if not (is_new o.status)
      then some (w, true)
      else if is_buy o.side
      then (if candle.close ≤? o.price then bought else some (w, false))
      else sold

  unfoldable pub process_pending : List ℕ → PaperWallet V → List ℕ → Option (PaperWallet V × List ℕ)
  unfolding process_order
  process_pending [] w completed = some (w, completed)
  process_pending (i ∷ is) w completed = elim (get_elem? w.orders i) [
    | none ↦ none
    | some o ↦ process_order i o w >>= λ r.
        process_pending is r.0 (if r.1 then completed ++ i ∷ [] else completed)
  ]

  unfoldable pub on_candle : PaperWallet V → Option (PaperWallet V)
  unfolding note_candle note_volume process_pending remove_completed_orders update_equity_values
      lookup
  on_candle w =
      let w1 = note_candle candle w in
      elim (lookup candle.pair w1.pending_orders) [
        | none ↦ some (update_equity_values candle w1)
        | some pending ↦ process_pending pending (note_volume candle w1) [] >>= λ r.
            some (update_equity_values candle (remove_completed_orders candle.pair r.1 r.0))
      ]
