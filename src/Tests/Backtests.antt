-- ===== src/Tests/Backtests.antt =====
-- A request for a backtest of an EMA cross that leaves everything to the defaults.
use ninjabot.Prelude.{refl}
use ninjabot.Prelude.Int.{ℤ, pos}
use ninjabot.Float.Integers.{integers}
use ninjabot.Backtest.Request.{
  BacktestRequest, timeframe_of, with_defaults, check_ema, check_dca, check_fib, normalise,
}
use ninjabot.Backtest.Accepted.{IsNormal, normalise-IsNormal}

abbrev bare : BacktestRequest ℤ
bare = record {
  timeframe = "";
  days = pos 0;
  initial_capital = pos 0;
  strategy = "";
  fast_period = pos 0;
  slow_period = pos 0;
  dca_interval = pos 0;
  dca_buy_amount = pos 0;
  fib_pivot = pos 0;
  fib_level = pos 0;
}

abbrev accepted : BacktestRequest ℤ
accepted = record bare {
  timeframe = "1h";
  days = pos 30;
  initial_capital = pos 10000;
  strategy = "emacross";
  fast_period = pos 8;
  slow_period = pos 21;
}

normalise-IsNormal_example : IsNormal accepted
unfolding normalise with_defaults check_ema check_dca check_fib timeframe_of
normalise-IsNormal_example = normalise-IsNormal (pos 1) (pos 2) bare accepted refl
