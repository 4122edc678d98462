-- ===== src/Feed/Csv.antt =====
-- CSVFeed of exchange/feed/csvfeed.go after the files were read.
use ninjabot.Prelude.{
  ℕ, ◌+◌, String, true, false, not, ◌||◌, List, [], ◌∷◌, Option, none, some, ltb, length, take,
  drop, if◌then◌else◌,
}
use ninjabot.Prelude.Int.{pos}
use ninjabot.Prelude.Map.{Map, lookup_or, insert}
use ninjabot.Float.{Float64, ◌⊕◌, min, max}
use ninjabot.Model.Candle.{Candle}
use ninjabot.Feed.Timeframe.{is_first_candle_period, is_last_candle_period}
use Prim.Native.String.{◌++◌ as str_append}

-- What a function of the feed comes to: a value, an error, or an index out of range.
pub data Outcome {ℓ} (A : Type ℓ) : Type ℓ where
  done : A → Outcome A
  failed : Outcome A
  panicked : Outcome A

infixl 5 ◌then_run◌
abbrev pub ◌then_run◌ {ℓ κ} : {A : Type ℓ} {B : Type κ} → Outcome A → (A → Outcome B) → Outcome B
(done a) then_run f = f a
failed then_run f = failed
panicked then_run f = panicked

-- The map `CandlePairTimeFrame`, by the key of a pair and a timeframe.
abbrev pub CsvFeed : Type 0 → Type 0
CsvFeed V = Map (List (Candle V))

unfoldable pub feed_timeframe_key : String → String → String
feed_timeframe_key pair timeframe = str_append pair (str_append "--" timeframe)

module _ {V : Type 0} where
  abbrev pub candles_of : String → CsvFeed V → List (Candle V)
  candles_of key c = lookup_or [] key c

  -- CandlesByPeriod
  unfoldable pub between : ℕ → ℕ → List (Candle V) → List (Candle V)
  between start end [] = []
  between start end (c ∷ cs) =
      let rest = between start end cs in
      if ltb c.time start || ltb end c.time then rest else c ∷ rest

  unfoldable pub candles_by_period : CsvFeed V → String → String → ℕ → ℕ → List (Candle V)
  unfolding between feed_timeframe_key lookup_or
  candles_by_period c pair timeframe start end =
      between start end (candles_of (feed_timeframe_key pair timeframe) c)

  -- CandlesByLimit: the first candles, which leave the feed; an error if there are too few.
  unfoldable pub candles_by_limit :
      String → String → ℕ → CsvFeed V → Outcome (List (Candle V) × CsvFeed V)
  unfolding feed_timeframe_key lookup_or insert
  candles_by_limit pair timeframe limit c =
      let key = feed_timeframe_key pair timeframe in
      if ltb (length (candles_of key c)) limit
      then failed
      else done (take limit (candles_of key c), insert key (drop limit (candles_of key c)) c)

  -- The time of the last candle, which is an index out of range without candles.
  unfoldable pub last_candle : List (Candle V) → Option (Candle V)
  last_candle [] = none
  last_candle (c ∷ []) = some c
  last_candle (c ∷ d ∷ cs) = last_candle (d ∷ cs)

  -- `candle.Time.After(start)` with `start` the last time less the duration.
  unfoldable pub recent : ℕ → ℕ → List (Candle V) → List (Candle V)
  recent last duration [] = []
  recent last duration (c ∷ cs) =
      let rest = recent last duration cs in if ltb last (c.time + duration) then c ∷ rest else rest

  -- Limit
  unfoldable pub limit : ℕ → CsvFeed V → Outcome (CsvFeed V)
  unfolding last_candle recent
  limit duration [] = done []
  limit duration ((key, cs) ∷ m) = elim (last_candle cs) [
    | none ↦ panicked
    | some c ↦ limit duration m then_run λ rest. done ((key, recent c.time duration cs) ∷ rest)
  ]

module _ {V : Type 0} ⦃fl : Float64 V⦄ where
  -- A candle joined to the one before it, if that is not complete.
  unfoldable pub join : Option (Candle V) → Candle V → Candle V
  unfolding min max
  join none candle = candle
  join (some prev) candle =
      if not prev.complete
      then record candle {
        time = prev.time;
        open_price = prev.open_price;
        high = max prev.high candle.high;
        low = min prev.low candle.low;
        volume = candle.volume ⊕ prev.volume;
      }
      else candle

  -- `candles[:len(candles)-1]`, which panics on no candles, if the last is not complete.
  unfoldable pub drop_incomplete : List (Candle V) → Outcome (List (Candle V))
  drop_incomplete [] = panicked
  drop_incomplete (c ∷ []) = done (if not c.complete then [] else c ∷ [])
  drop_incomplete (c ∷ d ∷ cs) = drop_incomplete (d ∷ cs) then_run λ rest. done (c ∷ rest)

module _ {V : Type 0} ⦃fl : Float64 V⦄ (parse_duration : String → Option ℕ)
    (source target : String) where
  -- The first loop of resample: what is left from the first candle of a period on.
  unfoldable pub from_first : List (Candle V) → Outcome (List (Candle V))
  unfolding is_first_candle_period
  from_first [] = done []
  from_first (c ∷ cs) = elim (is_first_candle_period parse_duration (pos c.time) source target) [
    | none ↦ failed
    | some true ↦ done (c ∷ cs)
    | some false ↦ from_first cs
  ]

  -- The second loop, with the last candle of `candles`.
  unfoldable pub join_loop : Option (Candle V) → List (Candle V) → Outcome (List (Candle V))
  unfolding is_last_candle_period join
  join_loop prev [] = done []
  join_loop prev (c ∷ cs) = elim (is_last_candle_period parse_duration (pos c.time) source target) [
    | none ↦ failed
    | some last ↦
        let joined = join prev (record c { complete = last }) in
        join_loop (some joined) cs then_run λ rest. done (joined ∷ rest)
  ]

  unfoldable pub resample : String → CsvFeed V → Outcome (CsvFeed V)
  unfolding from_first join_loop drop_incomplete feed_timeframe_key lookup_or insert
  resample pair c =
      from_first (candles_of (feed_timeframe_key pair source) c)
      then_run (λ cs. join_loop none cs)
      then_run (λ joined. drop_incomplete joined)
      then_run (λ candles. done (insert (feed_timeframe_key pair target) candles c))
