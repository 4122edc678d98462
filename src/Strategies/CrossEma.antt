-- ===== src/Strategies/CrossEma.antt =====
-- strategy/strategies/emacross.go and turtle.go: trading on a crossover, and on a new maximum.
use ninjabot.Prelude.{String, ◌&&◌, Option, none, some, ◌>>=◌, if◌then◌else◌}
use ninjabot.Float.{Float64, ◌⊘◌, ◌<?◌, ◌≤?◌, ◌=?◌, lit}
use ninjabot.Model.Order.{buy, sell}
use ninjabot.Model.Series.{last, crossover, crossunder}
use ninjabot.OrderController.State.{Exchange}
use ninjabot.Strategy.Controller.{Dataframe}
use ninjabot.Strategies.Broker.{indicator}

-- The columns of the two averages, which fmt.Sprintf names by their periods.
pub record Averages : Type 0 where
  pub fast_key : String
  pub slow_key : String

module _ {E V : Type 0} ⦃fl : Float64 V⦄ (broker : Exchange E V) where
  -- OnCandle of CrossEMA with the position; `none` is a panic.
  unfoldable pub trade_cross : Averages → Dataframe V → V → V → E → Option E
  unfolding crossover crossunder indicator
  trade_cross keys df asset quote e =
      let fast = indicator keys.fast_key df in
      let slow = indicator keys.slow_key df in
      let selling = crossunder fast slow >>= λ under.
      some (if under then (broker.create_order_market sell df.pair asset e).1 else e) in
      let maybe_sell = if lit 0 <? asset then selling else some e in
      let buying = crossover fast slow >>= λ over.
      if over then some (broker.create_order_market_quote buy df.pair quote e).1 else maybe_sell in
      if lit 10 ≤? quote then buying else maybe_sell

  unfoldable pub on_candle_cross : Averages → Dataframe V → E → Option E
  unfolding trade_cross
  on_candle_cross keys df e = elim (broker.position df.pair e) [
    | none ↦ some e
    | some p ↦ trade_cross keys df p.0 p.1 e
  ]

  -- OnCandle of Turtle, which buys at a maximum of 40 candles and sells at a minimum of 20.
  unfoldable pub trade_turtle : Dataframe V → V → V → V → V → V → E → E
  trade_turtle df close highest lowest asset quote e =
      if (asset =? lit 0) && (highest ≤? close)
      then (broker.create_order_market_quote buy df.pair (quote ⊘ lit 2) e).1
      else if (lit 0 <? asset) && (close ≤? lowest)
      then (broker.create_order_market sell df.pair asset e).1
      else e

  unfoldable pub on_candle_turtle : Dataframe V → E → Option E
  unfolding trade_turtle last indicator
  on_candle_turtle df e = last df.close 0 >>= λ close. last (indicator "max40" df) 0 >>= λ highest.
      last (indicator "low20" df) 0 >>= λ lowest. elim (broker.position df.pair e) [
        | none ↦ some e
        | some p ↦ some (trade_turtle df close highest lowest p.0 p.1 e)
      ]
