-- ===== src/Strategies/Dca.antt =====
-- strategy/strategies/dca.go: buying for a fixed amount at a fixed interval.
use ninjabot.Prelude.{
  ℕ, ◌+◌, ◌*◌, ◌==◌, String, Bool, true, [], Option, none, some, ◌>>=◌, leb, if◌then◌else◌, str_eq,
}
use ninjabot.Prelude.Map.{Map, lookup, insert}
use ninjabot.Float.{Float64, ◌⊘◌, ◌≤?◌, lit}
use ninjabot.Model.Order.{Order, buy}
use ninjabot.Model.Series.{last}
use ninjabot.OrderController.State.{Exchange}
use ninjabot.Strategy.Controller.{Dataframe, last_time}

pub record Dca (V : Type 0) : Type 0 where
  pub custom_timeframe : String
  pub interval_days : ℕ
  pub buy_amount : V
  pub last_buy_time : Map ℕ

module _ {V : Type 0} ⦃fl : Float64 V⦄ where
  -- NewDCA; an interval that is not positive is 0 here.
  unfoldable pub new_dca : String → ℕ → V → Dca V
  new_dca timeframe interval_days buy_amount = record {
    custom_timeframe = if str_eq timeframe "" then "1d" else timeframe;
    interval_days = if interval_days == 0 then 7 else interval_days;
    buy_amount = if buy_amount ≤? lit 0 then lit 100 else buy_amount;
    last_buy_time = [];
  }

  -- What to spend of the quote position, 0 for nothing.
  abbrev pub amount_to_spend : Dca V → V → V
  amount_to_spend d quote =
      if d.buy_amount ≤? quote then d.buy_amount else if lit 10 ≤? quote then quote else lit 0

-- Whether the interval, in days, has passed since the last purchase.
abbrev pub is_due : ℕ → ℕ → Option ℕ → Bool
is_due interval_days now none = true
is_due interval_days now (some before) = leb (before + interval_days * 86400) now

module _ {E V : Type 0} ⦃fl : Float64 V⦄ (broker : Exchange E V) where
  -- An order that is accepted sets the time.
  abbrev pub note_buy : String → ℕ → Dca V → Option (Order V) × E → Dca V × E
  note_buy pair now d (none, e) = (d, e)
  note_buy pair now d (some order, e) =
      (record d { last_buy_time = insert pair now d.last_buy_time }, e)

  abbrev pub spend : String → ℕ → V → Option (V × V) → Dca V → E → Dca V × E
  spend pair now close none d e = (d, e)
  spend pair now close (some (asset, quote)) d e =
      let amount = amount_to_spend d quote in
      if lit 10 ≤? amount
      then note_buy pair now d (broker.create_order_market buy pair (amount ⊘ close) e)
      else (d, e)

  -- OnCandle; `none` is a panic, on a dataframe without candles.
  unfoldable pub on_candle : Dataframe V → Dca V → E → Option (Dca V × E)
  unfolding last_time last lookup insert
  on_candle df d e = last_time df.time >>= λ now.
      let bought = last df.close 0 >>= λ close.
      some (spend df.pair now close (broker.position df.pair e) d e) in
      if is_due d.interval_days now (lookup df.pair d.last_buy_time) then bought else some (d, e)
