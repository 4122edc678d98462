-- ===== src/Tests/Settlements.antt =====
-- The settlement of orders at sample data.
use ninjabot.Prelude.{◌≡◌, refl, some, String}
use ninjabot.Prelude.Map.{lookup, has_key}
use ninjabot.Prelude.Int.{ℤ, pos, ◌*ℤ◌}
use ninjabot.Float.Integers.{integers, integers-IsExact}
use ninjabot.Model.Order.{buy, sell, filled, Order}
use ninjabot.Wallet.State.{PaperWallet, split_asset_quote}
use ninjabot.Wallet.Fill.{fill_buy, fill_sell}
use ninjabot.Wallet.Cancel.{cancel}
use ninjabot.Wallet.Conservation.{total, plus, minus}
use ninjabot.Wallet.Settlement.{fill_buy-total, fill_sell-total, cancel-total}
use ninjabot.Tests.Samples.{pairs, candle_at, waiting_wallet, waiting-IsValid, short_wallet}
use ninjabot.Tests.Orders.{order_at}

abbrev buying : Order ℤ
buying = order_at buy filled 1 (pos 10) (pos 2)

abbrev selling : Order ℤ
selling = order_at sell filled 1 (pos 12) (pos 2)

fill_buy-total_example :
    (w' : PaperWallet ℤ) × (fill_buy pairs (candle_at 60 9) 0 buying short_wallet ≡ some w')
    × ((j : String)
        → total w' j ≡ minus "USDT" (pos 20) j (plus "BTC" (pos 2) j (total short_wallet j)))
unfolding has_key lookup split_asset_quote ◌*ℤ◌
fill_buy-total_example =
    fill_buy-total integers-IsExact pairs (candle_at 60 9) 0 buying short_wallet (refl, refl)

fill_sell-total_example :
    (w' : PaperWallet ℤ) × (fill_sell pairs (candle_at 60 12) 0 selling (pos 12) short_wallet
      ≡ some w')
    × ((j : String)
        → total w' j ≡ plus "USDT" (pos 24) j (minus "BTC" (pos 2) j (total short_wallet j)))
unfolding has_key lookup split_asset_quote ◌*ℤ◌
fill_sell-total_example =
    fill_sell-total integers-IsExact pairs (candle_at 60 12) 0 selling (pos 12) short_wallet
      (refl, refl)

cancel-total_example :
    (w' : PaperWallet ℤ) × (cancel pairs buying waiting_wallet ≡ some w')
    × ((j : String) → total w' j ≡ total waiting_wallet j)
cancel-total_example = cancel-total integers-IsExact pairs buying waiting_wallet waiting-IsValid
