-- ===== src/Tests/Refusals.antt =====
-- An order that the sample wallet cannot pay.
use ninjabot.Prelude.{refl}
use ninjabot.Prelude.Map.{has_key, lookup_or}
use ninjabot.Prelude.Int.{ℤ, pos, ◌+ℤ◌, ◌-ℤ◌, ◌*ℤ◌}
use ninjabot.Float.{min, abs, max}
use ninjabot.Float.Integers.{integers}
use ninjabot.Model.Order.{buy}
use ninjabot.Wallet.State.{insufficient_funds, split_asset_quote, ensure_asset, info}
use ninjabot.Wallet.Funds.{
  validate_funds, validate_buy, buy_funds, liquid_short_value, amount_to_buy, owed_part,
}
use ninjabot.Wallet.Create.{create_order_limit}
use ninjabot.Wallet.Refusal.{
  Placement, limit_call, IsUntouched, place_order, place_order-IsUntouched,
}
use ninjabot.Tests.Samples.{pairs, short_wallet}

abbrev too_much : Placement ℤ
too_much = limit_call buy "BTCUSDT" (pos 1000) (pos 10)

place_order-IsUntouched_example :
    IsUntouched short_wallet (place_order pairs too_much short_wallet).0
unfolding place_order create_order_limit validate_funds validate_buy buy_funds liquid_short_value
    amount_to_buy ensure_asset split_asset_quote info min max abs has_key lookup_or owed_part ◌+ℤ◌
    ◌-ℤ◌ ◌*ℤ◌
place_order-IsUntouched_example =
    place_order-IsUntouched pairs too_much short_wallet (insufficient_funds "BTCUSDT" (pos 1000))
      refl
