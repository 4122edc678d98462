-- ===== src/Wallet/Create.antt =====
-- The methods of paperwallet.go that create orders. `lot_size` is AmountToLotSize of the binance
-- client, which works on the texts of the numbers and panics on a text that is not one of a finite
-- number.
use ninjabot.Prelude.{
  ℕ, ◌+◌, String, true, false, List, [], ◌∷◌, ◌++◌, Option, ◌>>=◌, none, some, length,
  if◌then◌else◌,
}
use ninjabot.Prelude.Map.{insert}
use ninjabot.Float.{Float64, ◌⊕◌, ◌⊗◌, ◌⊘◌, ◌=?◌, lit, max_float}
use ninjabot.Model.Candle.{zero_candle}
use ninjabot.Model.Order.{
  SideType, sell, OrderType, limit, market, limit_maker, stop_loss, stop_loss_limit,
  OrderStatusType, new, filled, Order,
}
use ninjabot.Wallet.State.{
  PaperWallet, Pairs, Result, ok, err, invalid_quantity, parse_error, split_asset_quote,
  last_candle_of, last_close, price_of, pending_of,
}
use ninjabot.Wallet.Funds.{validate_funds}

pub record WalletAssetInfo (V : Type 0) : Type 0 where
  pub base_asset : String
  pub quote_asset : String
  pub min_price : V
  pub max_price : V
  pub min_quantity : V
  pub max_quantity : V
  pub step_size : V
  pub tick_size : V
  pub quote_precision : ℕ
  pub base_asset_precision : ℕ

module _ {V : Type 0} ⦃fl : Float64 V⦄ where
  -- The literal 0.00000001.
  abbrev pub tick : V
  tick = lit 1 ⊘ lit 100000000

  -- An order literal as the methods build it: the fields that a literal leaves out are zero.
  unfoldable pub draft :
      PaperWallet V → ℕ → SideType → String → OrderType → OrderStatusType → V → V → Order V
  draft w id side pair type status price size =
      let last = last_candle_of w pair in
      record {
        id = 0;
        exchange_id = id;
        pair = pair;
        side = side;
        type = type;
        status = status;
        price = price;
        quantity = size;
        created_at = last.time;
        updated_at = last.time;
        session_id = "";
        stop = none;
        group_id = none;
        ref_price = lit 0;
        profit = lit 0;
        profit_value = lit 0;
        candle = zero_candle;
      }

  -- `ID`: the next value of the counter.
  abbrev pub next_id : PaperWallet V → ℕ
  next_id w = w.counter + 1

  -- The tail of each method: the order is appended, and its index is put on the pending list.
  unfoldable pub submit : Order V → PaperWallet V → PaperWallet V
  submit o w = record w {
    counter = w.counter + 1;
    orders = w.orders ++ o ∷ [];
    pending_orders = insert o.pair (pending_of w o.pair ++ length w.orders ∷ []) w.pending_orders;
  }

  unfoldable pub assets_info : Pairs → String → WalletAssetInfo V
  unfolding split_asset_quote
  assets_info pairs pair =
      let (asset, quote) = split_asset_quote pairs pair in
      record {
        base_asset = asset;
        quote_asset = quote;
        min_price = lit 0;
        max_price = max_float;
        min_quantity = lit 0;
        max_quantity = max_float;
        step_size = tick;
        tick_size = tick;
        quote_precision = 8;
        base_asset_precision = 8;
      }

module _ {V : Type 0} ⦃fl : Float64 V⦄ (pairs : Pairs) where
  unfoldable pub create_order_limit :
      SideType → String → V → V → PaperWallet V → PaperWallet V × Result V (Order V)
  create_order_limit side pair size price w =
      let (w', failed) = validate_funds pairs side pair size price false w in
      let o = draft w' (next_id w') side pair limit new price size in
      if size =? lit 0
      then (w, err invalid_quantity)
      else elim failed [ some e ↦ (w', err e) | none ↦ (submit o w', ok o) ]

  unfoldable pub create_order_stop :
      String → V → V → PaperWallet V → PaperWallet V × Result V (Order V)
  create_order_stop pair size price w =
      let (w', failed) = validate_funds pairs sell pair size price false w in
      let o : Order V = record (draft w' (next_id w') sell pair stop_loss_limit new price size) {
        stop = some price;
      } in
      if size =? lit 0
      then (w, err invalid_quantity)
      else elim failed [ some e ↦ (w', err e) | none ↦ (submit o w', ok o) ]

  -- The first call of `ID` numbers the group, the next two the orders.
  unfoldable pub create_order_oco :
      SideType → String → V → V → V → V → PaperWallet V → PaperWallet V × Result V (List (Order V))
  create_order_oco side pair size price stop stop_limit w =
      let (w', failed) = validate_funds pairs side pair size price false w in
      let group = next_id w' in
      let g = record w' { counter = group } in
      let limit_order : Order V =
        record (draft g (next_id g) side pair limit_maker new price size) {
          group_id = some group;
          ref_price = last_close g pair;
        } in
      let w1 = submit limit_order g in
      let stop_order : Order V =
        record (draft w1 (next_id w1) side pair stop_loss new stop_limit size) {
          stop = some stop;
          group_id = some group;
          ref_price = last_close g pair;
        } in
      if size =? lit 0 then (w, err invalid_quantity) else elim failed [
        | some e ↦ (w', err e)
        | none ↦ (submit stop_order w1, ok (limit_order ∷ stop_order ∷ []))
      ]

  -- `createOrderMarket`, which CreateOrderMarket calls under the lock.
  unfoldable pub create_order_market :
      SideType → String → V → PaperWallet V → PaperWallet V × Result V (Order V)
  create_order_market side pair size w =
      let close = last_close w pair in
      let (w', failed) = validate_funds pairs side pair size close true w in
      let o = draft w' (next_id w') side pair market filled (last_close w' pair) size in
      let done = record w' {
        counter = next_id w';
        orders = w'.orders ++ o ∷ [];
        volume = insert pair (price_of w'.volume pair ⊕ last_close w' pair ⊗ size) w'.volume;
      } in
      if size =? lit 0
      then (w, err invalid_quantity)
      else elim failed [ some e ↦ (w', err e) | none ↦ (done, ok o) ]

  -- The texts that AmountToLotSize is given for an amount of the quote asset; `none` is its panic.
  abbrev pub quantity_of :
      (String → String → String → ℕ → Option String) → String → V → PaperWallet V → Option String
  quantity_of lot_size pair quote_quantity w =
      let info : WalletAssetInfo V = assets_info pairs pair in
      lot_size (fl.format (quote_quantity ⊘ last_close w pair)) (fl.format info.min_quantity)
        (fl.format info.step_size) info.base_asset_precision

  -- `none` is a panic.
  unfoldable pub create_order_market_quote :
      (lot_size : String → String → String → ℕ → Option String)
      → SideType
      → String
      → V
      → PaperWallet V
      → Option (PaperWallet V × Result V (Order V))
  create_order_market_quote lot_size side pair quote_quantity w =
      quantity_of lot_size pair quote_quantity w >>= λ quantity. elim (fl.parse quantity) [
        | none ↦ some (w, err parse_error)
        | some size ↦ some (create_order_market side pair size w)
      ]
