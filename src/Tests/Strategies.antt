-- ===== src/Tests/Strategies.antt =====
-- The strategy controller's theorem at sample data.
use ninjabot.Prelude.{ℕ, suc, ◌≡◌, refl, List, [], ◌∷◌, some}
use ninjabot.Prelude.Int.{ℤ}
use ninjabot.Model.Candle.{Candle}
use ninjabot.Strategy.Controller.{
  Dataframe, Strategy, Controller, new_strategy_controller, start, on_candles,
}
use ninjabot.Strategy.Columns.{IsAligned}
use ninjabot.Strategy.Callbacks.{SameColumns, on_candles-IsAligned}
use ninjabot.Tests.Samples.{candle_at}

-- A strategy that counts its trades.
abbrev counter : Strategy ℕ ℤ
counter = record { indicators = λ df n. (df, n); trade = λ df n. (df, suc n) }

abbrev started : Controller ℕ ℤ
started = start (new_strategy_controller "BTCUSDT" 0 2)

-- A partial candle is replaced, and a late one is dropped.
abbrev received : List (Candle ℤ)
received =
    candle_at 60 10 ∷ candle_at 120 11 ∷ candle_at 120 12 ∷ candle_at 60 13 ∷ candle_at 180 9 ∷ []

same : (df : Dataframe ℤ) → SameColumns df df
same df = record {
  close = refl;
  open_price = refl;
  high = refl;
  low = refl;
  volume = refl;
  time = refl;
}

on_candles-IsAligned_example :
    (s' : Controller ℕ ℤ) × (on_candles counter received started ≡ some s') × IsAligned s'.dataframe
on_candles-IsAligned_example =
    on_candles-IsAligned counter (record { indicators = λ df n. same df; trade = λ df n. same df })
      received started (refl, (refl, (refl, (refl, (refl, tt))))) empty-IsAligned
  where
    empty-IsAligned : IsAligned started.dataframe
    empty-IsAligned = record {
      close = refl;
      open_price = refl;
      high = refl;
      low = refl;
      volume = refl;
      ascending = tt;
    }
