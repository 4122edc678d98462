-- ===== src/Tests/Samples.antt =====
-- Sample data over the integers: pairs, candles, a wallet with a waiting order.
use ninjabot.Prelude.{true, List, [], ◌∷◌, ℕ}
use ninjabot.Prelude.Int.{ℤ, pos, negsuc}
use ninjabot.Float.Integers.{integers}
use ninjabot.Model.Candle.{Candle}
use ninjabot.Model.Order.{buy}
use ninjabot.Wallet.State.{PaperWallet, Pairs, new_paper_wallet, blank_wallet}
use ninjabot.Wallet.Create.{create_order_limit}
use ninjabot.Wallet.Session.{WalletOption, paper_asset, options_of, Fresh-IsValid, new-Fresh}
use ninjabot.Wallet.Validity.{IsValid}
use ninjabot.Wallet.Creation.{create_order_limit-IsValid}

abbrev pub pairs : Pairs
pairs = ("BTCUSDT", record { quote = "USDT"; asset = "BTC" }) ∷ []

abbrev pub candle_at : ℕ → ℕ → Candle ℤ
candle_at time price = record {
  pair = "BTCUSDT";
  time = time;
  updated_at = time;
  open_price = pos price;
  close = pos price;
  low = pos price;
  high = pos price;
  volume = pos 1;
  complete = true;
  metadata = [];
}

abbrev pub options : List (WalletOption ℤ)
options = paper_asset "USDT" (pos 1000) ∷ paper_asset "BTC" (pos 3) ∷ []

unfoldable pub start_wallet : PaperWallet ℤ
start_wallet = new_paper_wallet "USDT" (options_of options)

pub start-IsValid : IsValid pairs start_wallet
unfolding start_wallet
start-IsValid = Fresh-IsValid pairs _ (new-Fresh "USDT" options)

-- A buy order of 2 at 10 waits.
unfoldable pub waiting_wallet : PaperWallet ℤ
waiting_wallet = (create_order_limit pairs buy "BTCUSDT" (pos 2) (pos 10) start_wallet).0

pub waiting-IsValid : IsValid pairs waiting_wallet
unfolding waiting_wallet
waiting-IsValid =
    create_order_limit-IsValid pairs start_wallet start-IsValid buy "BTCUSDT" (pos 2) (pos 10)

-- Two are sold short at 10: the base asset stands at -2.
abbrev pub short_wallet : PaperWallet ℤ
short_wallet = record (blank_wallet "USDT") {
  assets =
      ("USDT", record { free = pos 1000; lock = pos 0 })
      ∷ ("BTC", record { free = negsuc 1; lock = pos 0 })
      ∷ [];
  avg_short_price = ("BTCUSDT", pos 10) ∷ [];
}
