-- ===== src/Tests/Charts.antt =====
-- The theorems on the balances, the statistics and the chart of a session at sample data.
use mathlib.Core.List.{Perm as Same}
use ninjabot.Prelude.{
  suc, ◌^◌, ◌≡◌, refl, true, false, List, [], ◌∷◌, Option, some, str_eq, if◌then◌else◌, arith,
}
use ninjabot.Prelude.Int.{ℤ, pos, negsuc, ◌*ℤ◌, ◌+ℤ◌}
use ninjabot.Prelude.Map.{lookup_or}
use ninjabot.Float.{lit, ◌⊕◌}
use ninjabot.Float.Integers.{integers, integers-IsExact}
use ninjabot.Model.Candle.{Candle}
use ninjabot.Model.Order.{buy, sell, market, filled}
use ninjabot.Model.Account.{Balance}
use ninjabot.Model.Session.{Session, resume}
use ninjabot.Wallet.Create.{draft}
use ninjabot.Sessions.Balances.{
  calculate_balances_from_orders, net_flow, calculate_balances_from_orders-net_flow,
}
use ninjabot.Sessions.Stats.{compute_session_stats}
use ninjabot.Sessions.Summary.{IsSummary, compute_session_stats-IsSummary}
use ninjabot.Wallet.State.{split_asset_quote}
use ninjabot.Sessions.Chart.{
  atoi_digits, atoi, split_last, unit_duration, timeframe_duration, realtime_chart_start_time,
  wrap_int64, times_int64, chunk_end_of, last_time, fetch_session_chart_candles,
}
use ninjabot.Sessions.Fetch.{Ended, StartsInPeriod, left, fetch_session_chart_candles-Ended}
use ninjabot.Tests.Samples.{pairs, candle_at, start_wallet}

-- A session that bought 2 at 10 and sold 1 at 12.
abbrev traded : Session ℤ
traded = record {
  id = "s";
  type = "REALTIME_SIGNAL";
  status = "stopped";
  pair = "BTCUSDT";
  strategy = "emacross";
  timeframe = "1m";
  initial_asset = "USDT";
  initial_amount = pos 1000;
  fast_period = pos 9;
  slow_period = pos 21;
  telegram_alerts = false;
  created_at = 5000000000000;
  updated_at = 9000000000000;
  orders =
      draft start_wallet 1 buy "BTCUSDT" market filled (pos 10) (pos 2)
      ∷ record (draft start_wallet 2 sell "BTCUSDT" market filled (pos 12) (pos 1)) {
        profit = pos 1;
      }
      ∷ [];
  events = record { session_id = "s"; type = resume; created_at = 6000000000000 } ∷ [];
}

calculate_balances_from_orders-net_flow_example :
    lookup_or (lit 0) "BTC" (calculate_balances_from_orders pairs traded)
    ≡ (if str_eq traded.initial_asset "BTC" then traded.initial_amount else lit 0)
      ⊕ net_flow pairs "BTC" traded.orders
calculate_balances_from_orders-net_flow_example =
    calculate_balances_from_orders-net_flow pairs integers-IsExact "BTC" traded

abbrev held : List (Balance ℤ)
held = record { asset = "BTC"; free = pos 1; lock = pos 0; leverage = pos 0 } ∷ []

compute_session_stats-IsSummary_example :
    let (base, quote) = split_asset_quote pairs traded.pair in
    IsSummary base quote traded held
      (pos 12)
      true
      (compute_session_stats pairs traded held (pos 12) true)
compute_session_stats-IsSummary_example =
    compute_session_stats-IsSummary pairs traded held (pos 12) true

-- An exchange with one candle at the start of each request from the zero time on, and none before it.
abbrev one_candle : ℤ → ℤ → Option (List (Candle ℤ))
one_candle (pos begin) end = some (candle_at begin 5 ∷ [])
one_candle (negsuc begin) end = some []

one_candle-StartsInPeriod : StartsInPeriod one_candle
unfolding last_time
one_candle-StartsInPeriod (pos begin) end [] t h k = cc
one_candle-StartsInPeriod (pos begin) end (c ∷ []) t h k = ground arith
one_candle-StartsInPeriod (pos begin) end (c ∷ d ∷ cs) t h k = cc
one_candle-StartsInPeriod (negsuc begin) end [] t h k = cc
one_candle-StartsInPeriod (negsuc begin) end (c ∷ cs) t h k = cc

-- An hour after the session was created.
abbrev chart_end : ℤ
chart_end = pos 8600000000000

fetch_session_chart_candles-Ended_example : Ended one_candle (
    fetch_session_chart_candles one_candle
      (suc (left one_candle (realtime_chart_start_time traded 21 chart_end) chart_end))
      traded
      21
      chart_end)
unfolding timeframe_duration atoi atoi_digits split_last unit_duration times_int64 wrap_int64 ◌*ℤ◌
fetch_session_chart_candles-Ended_example =
    fetch_session_chart_candles-Ended one_candle one_candle-StartsInPeriod traded 21 chart_end
      60000000000 refl (omega arith) (omega arith)

-- A timeframe that is accepted, and whose duration wraps to one below zero.
wrapped_duration : timeframe_duration "230584301m" ≡ some (negsuc 4611686013709551615)
unfolding timeframe_duration atoi atoi_digits split_last unit_duration times_int64 wrap_int64 ◌*ℤ◌
wrapped_duration = refl

-- Its window of 999 candles wraps to one above zero.
wrapped_window :
    chunk_end_of (negsuc 4611686013709551615) (pos 0) (pos (2 ^ 63)) ≡ pos 4611690731545839616
unfolding chunk_end_of times_int64 wrap_int64 ◌*ℤ◌ ◌+ℤ◌
wrapped_window = refl
