-- ===== src/Backtest/Request.antt =====
-- The validation of a request by HandleBacktest of server/handler/backtest.go, for pairs that were
-- parsed. The levels 0.5 and 0.618 are parameters; `none` is the answer StatusBadRequest.
use ninjabot.Prelude.{ℕ, String, not, ◌&&◌, ◌||◌, Option, none, some, ◌>>=◌, str_eq, if◌then◌else◌}
use ninjabot.Prelude.Int.{ℤ, pos, ltb_ℤ, leb_ℤ}
use ninjabot.Float.{Float64, ◌≤?◌, ◌=?◌, lit}

pub record BacktestRequest (V : Type 0) : Type 0 where
  pub timeframe : String
  pub days : ℤ
  pub initial_capital : V
  pub strategy : String
  pub fast_period : ℤ
  pub slow_period : ℤ
  pub dca_interval : ℤ
  pub dca_buy_amount : V
  pub fib_pivot : ℤ
  pub fib_level : V

-- A number that has to be positive, or its default.
abbrev pub positive_or : ℕ → ℤ → ℤ
positive_or default n = if leb_ℤ n (pos 0) then pos default else n

-- The timeframe that the strategy forces.
unfoldable pub timeframe_of : String → String → String
timeframe_of strategy timeframe =
    if str_eq strategy "ocosell" || str_eq strategy "dca"
    then "1d"
    else if str_eq strategy "trailingstop"
        || str_eq strategy "turtle"
        || str_eq strategy "fibonacci"
    then "4h"
    else if str_eq timeframe ""
    then "1h"
    else timeframe

module _ {V : Type 0} ⦃fl : Float64 V⦄ where
  abbrev pub amount_or : ℕ → V → V
  amount_or default v = if v ≤? lit 0 then lit default else v

  unfoldable pub with_defaults : BacktestRequest V → BacktestRequest V
  unfolding timeframe_of
  with_defaults req =
      let strategy = if str_eq req.strategy "" then "emacross" else req.strategy in
      record req {
        strategy = strategy;
        timeframe = timeframe_of strategy req.timeframe;
        days = positive_or 30 req.days;
        initial_capital = amount_or 10000 req.initial_capital;
      }

  unfoldable pub check_ema : BacktestRequest V → Option (BacktestRequest V)
  check_ema req =
      let fast = positive_or 8 req.fast_period in
      let slow = positive_or 21 req.slow_period in
      if not (str_eq req.strategy "emacross")
      then some req
      else if leb_ℤ slow fast
      then none
      else some (record req { fast_period = fast; slow_period = slow })

  unfoldable pub check_dca : BacktestRequest V → BacktestRequest V
  check_dca req =
      if str_eq req.strategy "dca"
      then record req {
        dca_interval = positive_or 7 req.dca_interval;
        dca_buy_amount = amount_or 100 req.dca_buy_amount;
      }
      else req

module _ {V : Type 0} ⦃fl : Float64 V⦄ (half golden : V) where
  unfoldable pub check_fib : BacktestRequest V → Option (BacktestRequest V)
  check_fib req =
      let pivot = positive_or 5 req.fib_pivot in
      let level = if req.fib_level ≤? lit 0 then golden else req.fib_level in
      if not (str_eq req.strategy "fibonacci")
      then some req
      else if ltb_ℤ pivot (pos 2) || ltb_ℤ (pos 10) pivot
      then none
      else if not (level =? half) && not (level =? golden)
      then none
      else some (record req { fib_pivot = pivot; fib_level = level })

  unfoldable pub normalise : BacktestRequest V → Option (BacktestRequest V)
  unfolding with_defaults check_ema check_dca check_fib
  normalise req = check_ema (with_defaults req) >>= λ r. check_fib (check_dca r)
