-- ===== src/Wallet/State.antt =====
-- The wallet's state: PaperWallet, assetInfo, AssetValue and the options of NewPaperWallet, and
-- exchange.SplitAssetQuote, whose table is the embedded pairs.json, a parameter here.
use ninjabot.Prelude.{
  ℕ, String, List, [], ◌∷◌, map, none, some, if◌then◌else◌, Bool, true, false, ◌==◌,
}
use ninjabot.Prelude.Map.{Map, lookup, lookup_or, insert, has_key, get_or}
use ninjabot.Float.{Float64, ◌⊕◌, lit}
use ninjabot.Model.Candle.{Candle, zero_candle}
use ninjabot.Model.Order.{Order}
use ninjabot.Model.Account.{Account, Balance, balance}

-- exchange/pairs.go
pub record AssetQuote : Type 0 where
  pub quote : String
  pub asset : String

abbrev pub Pairs : Type 0
Pairs = Map AssetQuote

-- The asset and the quote of a pair, both empty for an unknown one.
unfoldable pub split_asset_quote : Pairs → String → String × String
unfolding lookup_or lookup
split_asset_quote pairs pair =
    let found = lookup_or (record { quote = ""; asset = "" }) pair pairs in
    (found.asset, found.quote)

pub record AssetInfo (V : Type 0) : Type 0 where
  pub free : V
  pub lock : V

pub record AssetValue (V : Type 0) : Type 0 where
  pub time : ℕ
  pub value : V

pub record PaperWallet (V : Type 0) : Type 0 where
  pub base_coin : String
  pub counter : ℕ
  pub taker_fee : V
  pub maker_fee : V
  pub initial_value : V
  pub orders : List (Order V)
  pub pending_orders : Map (List ℕ)
  pub assets : Map (AssetInfo V)
  pub avg_short_price : Map V
  pub avg_long_price : Map V
  pub volume : Map V
  pub last_candle : Map (Candle V)
  pub first_candle : Map (Candle V)
  pub asset_values : Map (List (AssetValue V))
  pub equity_values : List (AssetValue V)

-- The errors that the methods return.
pub data WalletError (V : Type 0) : Type 0 where
  invalid_quantity : WalletError V
  insufficient_funds : String → V → WalletError V
  parse_error : WalletError V
  order_not_found : WalletError V

pub data Result (V A : Type 0) : Type 0 where
  ok : A → Result V A
  err : WalletError V → Result V A

-- The loop of `HasPendingOrders`.
unfoldable pub any_pending : Map (List ℕ) → Bool
any_pending [] = false
any_pending ((k, []) ∷ m) = any_pending m
any_pending ((k, i ∷ is) ∷ m) = true

module _ {V : Type 0} ⦃fl : Float64 V⦄ where
  abbrev pub zero_info : AssetInfo V
  zero_info = record { free = lit 0; lock = lit 0 }

  -- `p.assets[k]` where the key is known to be there.
  unfoldable pub info : PaperWallet V → String → AssetInfo V
  unfolding lookup_or lookup
  info w k = lookup_or zero_info k w.assets

  abbrev pub free : PaperWallet V → String → V
  free w k = (info w k).free

  abbrev pub lock : PaperWallet V → String → V
  lock w k = (info w k).lock

  -- `p.assets[k].Free = v` and `p.assets[k].Lock = v`.
  unfoldable pub set_free : String → V → PaperWallet V → PaperWallet V
  unfolding insert
  set_free k v w = record w { assets = insert k (record { free = v; lock = lock w k }) w.assets }

  unfoldable pub set_lock : String → V → PaperWallet V → PaperWallet V
  unfolding insert
  set_lock k v w = record w { assets = insert k (record { free = free w k; lock = v }) w.assets }

  -- `if _, ok := p.assets[k]; !ok { p.assets[k] = &assetInfo{} }`
  unfoldable pub ensure_asset : String → PaperWallet V → PaperWallet V
  unfolding has_key insert
  ensure_asset k w =
      if has_key k w.assets then w else record w { assets = insert k zero_info w.assets }

  -- `p.lastCandle[pair]`, and `p.avgLongPrice[pair]` and its like.
  abbrev pub last_candle_of : PaperWallet V → String → Candle V
  last_candle_of w pair = lookup_or zero_candle pair w.last_candle

  abbrev pub last_close : PaperWallet V → String → V
  last_close w pair = (last_candle_of w pair).close

  abbrev pub price_of : Map V → String → V
  price_of m pair = lookup_or (lit 0) pair m

  abbrev pub pending_of : PaperWallet V → String → List ℕ
  pending_of w pair = lookup_or [] pair w.pending_orders

  -- The fields that NewPaperWallet starts from.
  unfoldable pub blank_wallet : String → PaperWallet V
  blank_wallet base_coin = record {
    base_coin = base_coin;
    counter = 0;
    taker_fee = lit 0;
    maker_fee = lit 0;
    initial_value = lit 0;
    orders = [];
    pending_orders = [];
    assets = [];
    avg_short_price = [];
    avg_long_price = [];
    volume = [];
    last_candle = [];
    first_candle = [];
    asset_values = [];
    equity_values = [];
  }

  unfoldable pub with_paper_asset : String → V → PaperWallet V → PaperWallet V
  unfolding insert
  with_paper_asset pair amount w = record w {
    assets = insert pair (record { free = amount; lock = lit 0 }) w.assets;
  }

  unfoldable pub with_paper_fee : V → V → PaperWallet V → PaperWallet V
  with_paper_fee maker taker w = record w { maker_fee = maker; taker_fee = taker }

  unfoldable pub apply_options :
      List (PaperWallet V → PaperWallet V) → PaperWallet V → PaperWallet V
  apply_options [] w = w
  apply_options (option ∷ options) w = apply_options options (option w)

  unfoldable pub sum_free : V → Map (AssetInfo V) → V
  sum_free total [] = total
  sum_free total ((k, a) ∷ m) = sum_free (total ⊕ a.free) m

  unfoldable pub new_paper_wallet : String → List (PaperWallet V → PaperWallet V) → PaperWallet V
  unfolding blank_wallet apply_options sum_free lookup
  new_paper_wallet base_coin options =
      let w = apply_options options (blank_wallet base_coin) in
      let initial : V = elim (lookup w.base_coin w.assets) [
        | some a ↦ a.free
        | none ↦ sum_free (lit 0) w.assets
      ] in
      record w { initial_value = initial }

  -- `Account` and `Position`.
  unfoldable pub account : PaperWallet V → Account V
  account w = record { balances = map (λ e. balance_of e) w.assets }
    where
      balance_of : String × AssetInfo V → Balance V
      balance_of (k, a) = record { asset = k; free = a.free; lock = a.lock; leverage = lit 0 }

  unfoldable pub position : Pairs → PaperWallet V → String → V × V
  unfolding account balance split_asset_quote
  position pairs w pair =
      let (asset_tick, quote_tick) = split_asset_quote pairs pair in
      let (a, q) = balance (account w) asset_tick quote_tick in (a.free ⊕ a.lock, q.free ⊕ q.lock)

  -- `AvgLongPrice`
  unfoldable pub avg_long_price : PaperWallet V → String → V
  unfolding lookup
  avg_long_price w pair = get_or (lit 0) (lookup pair w.avg_long_price)

  -- `Order`: the first order with the id.
  unfoldable pub find_order : ℕ → List (Order V) → Result V (Order V)
  find_order id [] = err order_not_found
  find_order id (o ∷ os) = if o.exchange_id == id then ok o else find_order id os

  unfoldable pub order : PaperWallet V → ℕ → Result V (Order V)
  unfolding find_order
  order w id = find_order id w.orders

  -- `HasPendingOrders`
  unfoldable pub has_pending_orders : PaperWallet V → Bool
  unfolding any_pending
  has_pending_orders w = any_pending w.pending_orders
