-- ===== src/Strategies/Pullback.antt =====
-- Fibonacci of strategy/strategies/fibonacci.go: NewFibonacci and OnCandle. The order of 10 quote
-- units and the pullback of 20 candles are written out.
use ninjabot.Prelude.{
  ℕ, suc, ◌-◌, ◌*◌, ◌==◌, String, Bool, not, ◌&&◌, ◌||◌, [], Option, none, some, ◌>>=◌, ltb, length,
  get_elem?, if◌then◌else◌,
}
use ninjabot.Prelude.Map.{Map, lookup_or, insert}
use ninjabot.Float.{Float64, ◌⊗◌, ◌<?◌, ◌≤?◌, lit, min}
use ninjabot.Model.Order.{Order, buy, sell}
use ninjabot.Model.Series.{last}
use ninjabot.OrderController.State.{Exchange}
use ninjabot.Strategy.Controller.{Dataframe}
use ninjabot.Strategies.Broker.{indicator}
use ninjabot.Strategies.Fibonacci.{FibLeg, fib_legs, fib_level, tradable}

pub record Fibonacci (V : Type 0) : Type 0 where
  pub pivot : ℕ
  pub entry_level : V
  -- The time of the swing low of the last leg bought, for each pair.
  pub traded : Map ℕ

module _ {V : Type 0} ⦃fl : Float64 V⦄ where
  -- NewFibonacci, with the default level 0.618.
  unfoldable pub new_fibonacci : V → ℕ → V → Fibonacci V
  new_fibonacci default_level pivot entry_level = record {
    pivot = if pivot == 0 then 5 else pivot;
    entry_level = if entry_level ≤? lit 0 then default_level else entry_level;
    traded = [];
  }

  -- WarmupPeriod: the maximum of 200, 2 * Pivot + 1 and 15.
  unfoldable pub warmup_period : Fibonacci V → ℕ
  warmup_period f = if ltb 200 (suc (f.pivot * 2)) then suc (f.pivot * 2) else 200

module _ {E V : Type 0} ⦃fl : Float64 V⦄ (broker : Exchange E V) (stop_level : V) where
  -- The purchase of a leg that starts at `leg_start`, closed by an OCO order.
  unfoldable pub buy_leg : String → ℕ → V → V → V → Fibonacci V → E → Fibonacci V × E
  unfolding insert
  buy_leg pair leg_start take stop quote f e =
      bought (broker.create_order_market_quote buy pair quote e)
    where
      bought : Option (Order V) × E → Fibonacci V × E
      bought (none, e1) = (f, e1)
      bought (some order, e1) = (
        record f { traded = insert pair leg_start f.traded },
        (broker.create_order_oco sell pair order.quantity take stop stop e1).1,
      )

  -- With the position known: one trade at a time, and enough to spend.
  abbrev buy_if_free : String → ℕ → V → V → V → Option (V × V) → Fibonacci V → E → Fibonacci V × E
  buy_if_free pair leg_start close take stop none f e = (f, e)
  buy_if_free pair leg_start close take stop (some (asset, quote)) f e =
      if (lit 10 ≤? asset ⊗ close) || (quote <? lit 10)
      then (f, e)
      else buy_leg pair leg_start take stop quote f e

  -- The candle reached the entry level without breaking the stop, and closed green above it.
  unfoldable pub is_pullback : V → V → FibLeg V → Dataframe V → ℕ → V → Option Bool
  unfolding min
  is_pullback entry stop leg df i close = get_elem? df.low (i - 1) >>= λ before.
      get_elem? df.low i >>= λ now. get_elem? df.open_price i >>= λ open_price.
      let touch = min before now in
      some (
        not ((entry <? touch) || (touch ≤? stop))
        && not ((close ≤? open_price) || (close ≤? entry) || (leg.high ≤? close)))

  -- OnCandle; `none` is a panic.
  unfoldable pub on_candle : Dataframe V → Fibonacci V → E → Option (Fibonacci V × E)
  unfolding fib_legs fib_level tradable is_pullback buy_leg indicator last lookup_or
  on_candle df f e =
      let i = length df.close - 1 in
      let decided : Option (Fibonacci V × E) = get_elem? df.close i >>= λ close.
      fib_legs df.high df.low f.pivot >>= λ legs. get_elem? legs i >>= λ leg.
      last (indicator "atr" df) 1 >>= λ atr.
      let in_trend = last (indicator "ema_trend" df) 0 >>= λ trend.
      let started = get_elem? df.time leg.low_idx >>= λ leg_start.
      let entry = fib_level leg.low leg.high f.entry_level in
      let stop = fib_level leg.low leg.high stop_level in
      let entered = is_pullback entry stop leg df i close >>= λ pullback. some (
        if pullback
        then buy_if_free df.pair leg_start close leg.high stop (broker.position df.pair e) f e
        else (f, e)) in
      if lookup_or 0 df.pair f.traded == leg_start then some (f, e) else entered in
      if close ≤? trend then some (f, e) else started in
      if not (tradable leg atr) || ltb 20 (i - leg.high_idx) then some (f, e) else in_trend in
      if ltb i 1 then some (f, e) else decided
