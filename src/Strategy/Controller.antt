-- ===== src/Strategy/Controller.antt =====
-- strategy/controller.go, with Dataframe of model/model.go. A strategy is a parameter: its two
-- callbacks on the dataframe and on a state of its own, which holds its broker too.
use ninjabot.Prelude.{
  ℕ, ◌-◌, String, Bool, true, false, not, ◌&&◌, List, [], ◌∷◌, ◌++◌, Option, none, some, ◌>>=◌, ltb,
  leb, ◌==◌, length, set, if◌then◌else◌,
}
use ninjabot.Prelude.Map.{Map, lookup, lookup_or, insert}
use ninjabot.Model.Candle.{Candle}

pub record Dataframe (V : Type 0) : Type 0 where
  pub pair : String
  pub close : List V
  pub open_price : List V
  pub high : List V
  pub low : List V
  pub volume : List V
  pub time : List ℕ
  pub last_update : ℕ
  pub metadata : Map (List V)

pub record Strategy (T V : Type 0) : Type 0 where
  pub indicators : Dataframe V → T → Dataframe V × T
  pub trade : Dataframe V → T → Dataframe V × T

pub record Controller (T V : Type 0) : Type 0 where
  pub dataframe : Dataframe V
  pub strategy : T
  pub started : Bool
  pub warmup_period : ℕ

-- The last time of the dataframe, if there is one.
unfoldable pub last_time : List ℕ → Option ℕ
last_time [] = none
last_time (t ∷ []) = some t
last_time (t ∷ u ∷ ts) = last_time (u ∷ ts)

-- `xs[i] = v`, which panics out of range.
unfoldable pub write_at {ℓ} : {A : Type ℓ} → List A → ℕ → A → Option (List A)
write_at xs i v = if ltb i (length xs) then some (set xs i v) else none

module _ {V : Type 0} where
  abbrev pub empty_dataframe : String → Dataframe V
  empty_dataframe pair = record {
    pair = pair;
    close = [];
    open_price = [];
    high = [];
    low = [];
    volume = [];
    time = [];
    last_update = 0;
    metadata = [];
  }

  unfoldable pub write_metadata : Map V → ℕ → Map (List V) → Option (Map (List V))
  unfolding lookup insert write_at
  write_metadata [] i m = some m
  write_metadata ((k, v) ∷ vs) i m =
      lookup k m >>= λ xs. write_at xs i v >>= λ ys. write_metadata vs i (insert k ys m)

  unfoldable pub append_metadata : Map V → Map (List V) → Map (List V)
  unfolding lookup_or insert
  append_metadata [] m = m
  append_metadata ((k, v) ∷ vs) m = append_metadata vs (insert k (lookup_or [] k m ++ v ∷ []) m)

  -- The first branch of updateDataFrame: the last row becomes the candle.
  unfoldable pub overwrite : Candle V → Dataframe V → Option (Dataframe V)
  unfolding write_at write_metadata
  overwrite c df =
      let last = length df.time - 1 in
      write_at df.close last c.close >>= λ close.
      write_at df.open_price last c.open_price >>= λ open_price.
      write_at df.high last c.high >>= λ high. write_at df.low last c.low >>= λ low.
      write_at df.volume last c.volume >>= λ volume. write_at df.time last c.time >>= λ time.
      write_metadata c.metadata last df.metadata >>= λ metadata. some (record df {
        close = close;
        open_price = open_price;
        high = high;
        low = low;
        volume = volume;
        time = time;
        metadata = metadata;
      })

  -- The second branch: a new row.
  unfoldable pub append_row : Candle V → Dataframe V → Dataframe V
  unfolding append_metadata
  append_row c df = record df {
    close = df.close ++ c.close ∷ [];
    open_price = df.open_price ++ c.open_price ∷ [];
    high = df.high ++ c.high ∷ [];
    low = df.low ++ c.low ∷ [];
    volume = df.volume ++ c.volume ∷ [];
    time = df.time ++ c.time ∷ [];
    last_update = c.time;
    metadata = append_metadata c.metadata df.metadata;
  }

  unfoldable pub update_data_frame : Candle V → Dataframe V → Option (Dataframe V)
  unfolding last_time overwrite append_row
  update_data_frame c df = elim (last_time df.time) [
    | none ↦ some (append_row c df)
    | some t ↦ if c.time == t then overwrite c df else some (append_row c df)
  ]

  -- `candle.Time.Before` the last time.
  unfoldable pub late : Candle V → Dataframe V → Bool
  unfolding last_time
  late c df = elim (last_time df.time) [ none ↦ false | some t ↦ ltb c.time t ]

module _ {T V : Type 0} where
  -- NewStrategyController, with the strategy's warmup period.
  abbrev pub new_strategy_controller : String → T → ℕ → Controller T V
  new_strategy_controller pair strategy warmup = record {
    dataframe = empty_dataframe pair;
    strategy = strategy;
    started = false;
    warmup_period = warmup;
  }

  abbrev pub start : Controller T V → Controller T V
  start s = record s { started = true }

module _ {T V : Type 0} (str : Strategy T V) where
  -- The callbacks after an update, from the warmup period on.
  unfoldable pub run_strategy : Controller T V → Controller T V
  run_strategy s =
      let (df, t) = str.indicators s.dataframe s.strategy in
      let (df1, t1) = str.trade df t in
      if leb s.warmup_period (length s.dataframe.close)
      then (if s.started
          then record s { dataframe = df1; strategy = t1 }
          else record s { dataframe = df; strategy = t })
      else s

  unfoldable pub on_candle : Candle V → Controller T V → Option (Controller T V)
  unfolding late update_data_frame run_strategy
  on_candle c s =
      let updated = update_data_frame c s.dataframe >>= λ df.
      some (run_strategy (record s { dataframe = df })) in
      if late c s.dataframe then some s else updated

  -- The candles of a feed, in sequence.
  unfoldable pub on_candles : List (Candle V) → Controller T V → Option (Controller T V)
  unfolding on_candle
  on_candles [] s = some s
  on_candles (c ∷ cs) s = on_candle c s >>= λ s'. on_candles cs s'

-- A strategy of the interface HighFrequencyStrategy has a callback for partial candles too; its
-- WarmupPeriod is asked again for each candle.
pub record HighFrequency (T V : Type 0) : Type 0 where
  pub indicators : Dataframe V → T → Dataframe V × T
  pub warmup_period : T → ℕ
  pub partial_trade : Option (Dataframe V → T → Dataframe V × T)

module _ {T V : Type 0} (str : HighFrequency T V) where
  -- OnPartialCandle; `none` in `partial_trade` is a strategy without the callback.
  unfoldable pub on_partial_candle : Candle V → Controller T V → Option (Controller T V)
  unfolding update_data_frame
  on_partial_candle c s = elim str.partial_trade [
    | none ↦ some s
    | some act ↦
        let updated = update_data_frame c s.dataframe >>= λ df.
        let (df1, t1) = str.indicators df s.strategy in
        let (df2, t2) = act df1 t1 in some (record s { dataframe = df2; strategy = t2 }) in
        if not c.complete && leb (str.warmup_period s.strategy) (length s.dataframe.close)
        then updated
        else some s
  ]
