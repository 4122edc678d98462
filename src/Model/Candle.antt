-- ===== src/Model/Candle.antt =====
-- Candle and HeikinAshi of model/model.go. A time is its count of seconds since the epoch, 0 for
-- the zero time.
use ninjabot.Prelude.{ℕ, Bool, true, false, ◌&&◌, String, str_eq, ltb, if◌then◌else◌}
use ninjabot.Prelude.Map.{Map}
use ninjabot.Float.{Float64, ◌⊕◌, ◌⊘◌, ◌=?◌, lit, min, max}
use Prim.Native.Char.{code}
use mathlib.Core.List.{[]}

pub record Candle (V : Type 0) : Type 0 where
  pub pair : String
  pub time : ℕ
  pub updated_at : ℕ
  pub open_price : V
  pub close : V
  pub low : V
  pub high : V
  pub volume : V
  pub complete : Bool
  pub metadata : Map V

-- `a < b` on Go strings: bytewise, which for UTF-8 is by code points.
unfoldable pub str_lt : String → String → Bool
str_lt String.[] String.[] = false
str_lt String.[] (String.◌∷◌ c t) = true
str_lt (String.◌∷◌ c s) String.[] = false
str_lt (String.◌∷◌ c s) (String.◌∷◌ d t) =
    let rest = str_lt s t in
    if ltb (code c) (code d) then true else if ltb (code d) (code c) then false else rest

-- `Candle.Less`: by time, then by the time of update, then by pair.
unfoldable pub less : {V : Type 0} → Candle V → Candle V → Bool
unfolding str_lt
less c j =
    if ltb j.time c.time
    then false
    else if ltb c.time j.time
    then true
    else if ltb j.updated_at c.updated_at
    then false
    else if ltb c.updated_at j.updated_at
    then true
    else str_lt c.pair j.pair

module _ {V : Type 0} ⦃fl : Float64 V⦄ where
  -- The zero value of the struct.
  unfoldable pub zero_candle : Candle V
  zero_candle = record {
    pair = "";
    time = 0;
    updated_at = 0;
    open_price = lit 0;
    close = lit 0;
    low = lit 0;
    high = lit 0;
    volume = lit 0;
    complete = false;
    metadata = [];
  }

  unfoldable pub empty : Candle V → Bool
  empty c = str_eq c.pair "" && c.close =? lit 0 && c.open_price =? lit 0 && c.volume =? lit 0

  -- `HeikinAshi.CalculateHeikinAshi`, from the previous candle of the averager: the new candle is
  -- the result and the averager's next state.
  unfoldable pub calculate_heikin_ashi : Candle V → Candle V → Candle V
  unfolding empty min max zero_candle
  calculate_heikin_ashi prev c =
      let open_value = if empty prev then c.open_price else prev.open_price in
      let close_value = if empty prev then c.close else prev.close in
      let ha_open = (open_value ⊕ close_value) ⊘ lit 2 in
      let ha_close = (c.open_price ⊕ c.high ⊕ c.low ⊕ c.close) ⊘ lit 4 in
      record zero_candle {
        open_price = ha_open;
        close = ha_close;
        high = max c.high (max ha_open ha_close);
        low = min c.low (min ha_open ha_close);
      }

  -- `Candle.ToHeikinAshi`: the converted candle and the averager's next state.
  unfoldable pub to_heikin_ashi : Candle V → Candle V → Candle V × Candle V
  unfolding calculate_heikin_ashi zero_candle
  to_heikin_ashi prev c =
      let ha = calculate_heikin_ashi prev c in
      (
        record zero_candle {
          pair = c.pair;
          open_price = ha.open_price;
          high = ha.high;
          low = ha.low;
          close = ha.close;
          volume = c.volume;
          complete = c.complete;
          time = c.time;
          updated_at = c.updated_at;
        },
        ha,
      )
