-- ===== src/Tests/Wallets.antt =====
-- The wallet's theorems at sample data.
use ninjabot.Prelude.{
  ℕ, String, List, Option, false, ◌≡◌, ◌⊎◌, refl, [], ◌∷◌, some, if◌then◌else◌, map,
}
use ninjabot.Prelude.Map.{is_some, has_key, lookup_or}
use ninjabot.Prelude.Int.{ℤ, pos, ◌+ℤ◌, ◌-ℤ◌, ◌*ℤ◌}
use ninjabot.Float.{◌⊕◌, min, abs}
use ninjabot.Float.Integers.{integers, integers-IsExact}
use ninjabot.Model.Order.{buy, sell, limit, new, Order}
use ninjabot.Wallet.State.{
  PaperWallet, new_paper_wallet, split_asset_quote, free, info, set_free, set_lock, ensure_asset,
}
use ninjabot.Wallet.Funds.{
  validate_funds, owed_part, validate_buy, take_free, give_free, give_lock, lock_both, buy_funds,
  liquid_short_value, amount_to_buy,
}
use ninjabot.Wallet.Fill.{on_candle}
use ninjabot.Wallet.Cancel.{cancel}
use ninjabot.Wallet.Matching.{Matched, on_candle-Matched}
use ninjabot.Wallet.Cancellation.{cancel-IsValid, canceled_if}
use ninjabot.Wallet.Conservation.{total, validate_funds-total_sell, validate_funds-total_buy}
use ninjabot.Wallet.Session.{
  Call, candle, limit_order, oco_order, market_order, cancel_order, options_of, run, Refused,
  Succeeds, session-IsValid, market_quote_order,
}
use ninjabot.Wallet.Validity.{IsValid}
use ninjabot.Wallet.Create.{draft}
use ninjabot.Tests.Samples.{
  pairs, candle_at, options, start_wallet, waiting_wallet, waiting-IsValid, short_wallet,
}

on_candle-Matched_example :
    (w' : PaperWallet ℤ) × (on_candle pairs (candle_at 60 9) waiting_wallet ≡ some w')
    × Matched pairs (candle_at 60 9) waiting_wallet w'
on_candle-Matched_example = on_candle-Matched pairs (candle_at 60 9) waiting_wallet waiting-IsValid

-- The order that waits in the sample wallet.
abbrev waiting_order : Order ℤ
waiting_order = draft start_wallet 1 buy "BTCUSDT" limit new (pos 10) (pos 2)

cancel-IsValid_example :
    (w' : PaperWallet ℤ) × (cancel pairs waiting_order waiting_wallet ≡ some w')
    × IsValid pairs w'
    × (w'.orders ≡ map (canceled_if waiting_order.exchange_id) waiting_wallet.orders)
cancel-IsValid_example = cancel-IsValid pairs waiting_order waiting_wallet waiting-IsValid

-- A session: a candle, a limit order, its fill, an OCO order, two market orders and a
-- cancellation.
abbrev calls : List (Call ℤ)
calls =
    candle (candle_at 60 11)
    ∷ limit_order buy "BTCUSDT" (pos 2) (pos 10)
    ∷ candle (candle_at 120 9)
    ∷ oco_order sell "BTCUSDT" (pos 2) (pos 20) (pos 5) (pos 5)
    ∷ market_order buy "BTCUSDT" (pos 1)
    ∷ market_quote_order buy "BTCUSDT" (pos 9)
    ∷ cancel_order waiting_order
    ∷ candle (candle_at 180 4)
    ∷ []

-- The client of the examples, which leaves an amount as it is.
abbrev as_it_is : String → String → String → ℕ → Option String
as_it_is amount min_quantity step_size precision = some amount

session-IsValid_example :
    Refused pairs as_it_is calls (new_paper_wallet "USDT" (options_of options))
    ⊎ Succeeds pairs as_it_is
        (run pairs as_it_is calls (new_paper_wallet "USDT" (options_of options)))
session-IsValid_example = session-IsValid pairs as_it_is "USDT" options calls

validate_funds-total_sell_example :
    total (validate_funds pairs sell "BTCUSDT" (pos 2) (pos 10) false start_wallet).0 "BTC"
    ≡ total start_wallet "BTC"
validate_funds-total_sell_example =
    validate_funds-total_sell integers-IsExact pairs "BTCUSDT" "BTC" (pos 2) (pos 10) start_wallet

validate_funds-total_buy_example :
    let owed = owed_part (free short_wallet "BTC") (pos 2) in
    let (w', failed) = validate_funds pairs buy "BTCUSDT" (pos 2) (pos 10) false short_wallet in
    total w' "BTC"
    ≡ (if is_some failed then total short_wallet "BTC" else total short_wallet "BTC" ⊕ owed ⊕ owed)
unfolding split_asset_quote
validate_funds-total_buy_example =
    validate_funds-total_buy integers-IsExact pairs "BTCUSDT" "BTC" (pos 2) (pos 10) short_wallet

-- The loss of a run in numbers: the wallet sells 2 short, buys 2 back by a limit order at 10, and
-- then holds 2 locked that it does not have.
phantom_lock :
    (let (w', failed) = validate_funds pairs buy "BTCUSDT" (pos 2) (pos 10) false short_wallet in
      total w' "BTC")
    ≡ pos 2
unfolding total validate_funds validate_buy owed_part take_free give_free give_lock lock_both
    buy_funds liquid_short_value amount_to_buy ensure_asset set_free set_lock split_asset_quote info
    min abs has_key lookup_or ◌+ℤ◌ ◌-ℤ◌ ◌*ℤ◌
phantom_lock = refl
