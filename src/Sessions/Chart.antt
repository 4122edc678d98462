-- ===== src/Sessions/Chart.antt =====
-- The history of a session chart, of server/handler/signal_manager.go: timeframeDuration,
-- realtimeChartStartTime, realtimeChartEndTime and fetchSessionChartCandles.
-- A time is its nanoseconds since the zero time of package time, and may come before that; a duration
-- is an int64 count of nanoseconds, whose products wrap around.
use ninjabot.Prelude.{
  ℕ, zero, suc, ◌+◌, ◌-◌, ◌*◌, ◌%◌, ◌^◌, ◌==◌, String, ◌&&◌, List, [], ◌∷◌, ◌++◌, Option, none,
  some, ◌>>=◌, ltb, leb, contains, if◌then◌else◌,
}
use ninjabot.Model.Candle.{Candle}
use ninjabot.Model.Order.{Order}
use ninjabot.Model.Session.{Session}
use ninjabot.Prelude.Int.{ℤ, pos, negsuc, ◌+ℤ◌, ◌-ℤ◌, ◌*ℤ◌, ltb_ℤ}
use Prim.Native.Char.{Char, code}

-- The int64 that a whole number wraps to.
abbrev signed_int64 : ℕ → ℤ
signed_int64 word = if ltb word (2 ^ 63) then pos word else negsuc (2 ^ 64 - word - 1)

unfoldable pub wrap_int64 : ℤ → ℤ
wrap_int64 (pos n) = signed_int64 (n % 2 ^ 64)
wrap_int64 (negsuc n) = signed_int64 (2 ^ 64 - 1 - n % 2 ^ 64)

-- A product of durations; several of them wrap as if only the last one did.
unfoldable pub times_int64 : ℤ → ℤ → ℤ
unfolding wrap_int64 ◌*ℤ◌
times_int64 a b = wrap_int64 (a *ℤ b)

unfoldable pub minus_int64 : ℤ → ℤ
unfolding wrap_int64 ◌-ℤ◌
minus_int64 a = wrap_int64 (pos 0 -ℤ a)

-- The digits of strconv.Atoi, after the value of those before.
unfoldable pub atoi_digits : ℕ → String → Option ℕ
atoi_digits n String.[] = some n
atoi_digits n (String.◌∷◌ c s) =
    let rest = atoi_digits (n * 10 + (code c - 48)) s in
    if leb 48 (code c) && leb (code c) 57 then rest else none

-- strconv.Atoi for a value of int64 that is not negative; a sign `-` is a failure here, as its value
-- is not positive.
unfoldable pub atoi : String → Option ℕ
unfolding atoi_digits
atoi String.[] = none
atoi (String.◌∷◌ c String.[]) = atoi_digits 0 (String.◌∷◌ c String.[])
atoi (String.◌∷◌ c (String.◌∷◌ d s)) =
    let digits = String.◌∷◌ d s in
    let value = atoi_digits 0 (if code c == 43 then digits else String.◌∷◌ c digits) in
    value >>= λ n. if ltb n (2 ^ 63) then some n else none

-- The text without its last character, and that character.
unfoldable pub split_last : String → Option (String × Char)
split_last String.[] = none
split_last (String.◌∷◌ c String.[]) = some (String.[], c)
split_last (String.◌∷◌ c (String.◌∷◌ d s)) =
    split_last (String.◌∷◌ d s) >>= λ r. some (String.◌∷◌ c r.0, r.1)

-- The nanoseconds of a unit: m, h, d, w or M.
unfoldable pub unit_duration : ℕ → Option ℕ
unit_duration c =
    if c == 109
    then some 60000000000
    else if c == 104
    then some 3600000000000
    else if c == 100
    then some 86400000000000
    else if c == 119
    then some 604800000000000
    else if c == 77
    then some 2592000000000000
    else none

unfoldable pub timeframe_duration : String → Option ℤ
unfolding atoi split_last unit_duration times_int64
timeframe_duration timeframe = split_last timeframe >>= λ r. atoi r.0 >>= λ value.
    if value == 0
    then none
    else (unit_duration (code r.1) >>= λ unit. some (times_int64 (pos value) (pos unit)))

unfoldable pub chunk_end_of : ℤ → ℤ → ℤ → ℤ
unfolding times_int64 ◌+ℤ◌
chunk_end_of duration cursor end =
    let chunk_end = cursor +ℤ times_int64 duration (pos 999) in
    if ltb_ℤ end chunk_end then end else chunk_end

abbrev pub max_realtime_chart_candles : ℕ
max_realtime_chart_candles = 3000

module _ {V : Type 0} where
  unfoldable pub realtime_chart_start_time : Session V → ℕ → ℤ → ℤ
  unfolding timeframe_duration times_int64 minus_int64 ◌+ℤ◌
  realtime_chart_start_time s warmup_period end = elim (timeframe_duration s.timeframe) [
    | none ↦ pos s.created_at
    | some duration ↦
        let start = pos s.created_at +ℤ times_int64 (minus_int64 duration) (pos warmup_period) in
        let earliest = end +ℤ times_int64 (minus_int64 duration) (pos max_realtime_chart_candles) in
        if ltb_ℤ start earliest then earliest else start
  ]

  -- The loop over the orders.
  unfoldable pub latest_order : List (Order V) → ℕ → ℕ
  latest_order [] end = end
  latest_order (o ∷ os) end =
      let time = if o.updated_at == 0 then o.created_at else o.updated_at in
      latest_order os (if ltb end time then time else end)

  unfoldable pub realtime_chart_end_time : Session V → ℕ → ℤ
  unfolding latest_order timeframe_duration ◌+ℤ◌
  realtime_chart_end_time s now =
      let end = latest_order s.orders (if ltb now s.created_at then s.created_at else now) in
      elim (timeframe_duration s.timeframe) [ none ↦ pos end | some duration ↦ pos end +ℤ duration ]

  -- The candles of an answer at times that were not seen yet, and all the times.
  unfoldable pub add_unseen : List (Candle V) → List ℕ × List (Candle V) → List ℕ × List (Candle V)
  add_unseen [] r = r
  add_unseen (c ∷ cs) (seen, candles) =
      if contains seen c.time
      then add_unseen cs (seen, candles)
      else add_unseen cs (c.time ∷ seen, candles ++ c ∷ [])

  unfoldable pub last_time : List (Candle V) → Option ℕ
  last_time [] = none
  last_time (c ∷ []) = some c.time
  last_time (c ∷ d ∷ cs) = last_time (d ∷ cs)

  -- Where the next request starts.
  unfoldable pub next_cursor : ℤ → ℤ → List (Candle V) → ℤ
  unfolding last_time ◌+ℤ◌
  next_cursor duration chunk_end chunk =
      let window_next = chunk_end +ℤ pos 1000000 in
      elim (last_time chunk) [
        | none ↦ window_next
        | some time ↦
            let last_candle_next = pos time +ℤ duration in
            if ltb_ℤ last_candle_next window_next then last_candle_next else window_next
      ]

  -- CandlesByPeriod of the exchange for the pair and the timeframe; `none` is an error.
  module _ (candles_by_period : ℤ → ℤ → Option (List (Candle V))) where
    -- The loop, with its rounds left; the outer `none` is no rounds left.
    unfoldable pub fetch_loop :
        ℕ → ℤ → ℤ → ℤ → List ℕ × List (Candle V) → Option (Option (List (Candle V)))
    unfolding add_unseen next_cursor chunk_end_of
    fetch_loop zero duration cursor end got = none
    fetch_loop (suc k) duration cursor end got =
        let chunk_end = chunk_end_of duration cursor end in
        let round : Option (Option (List (Candle V))) = elim (candles_by_period cursor chunk_end) [
          | none ↦ some none
          | some chunk ↦
              let got' = add_unseen chunk got in
              let rest = fetch_loop k duration (next_cursor duration chunk_end chunk) end got' in
              if ltb_ℤ cursor chunk_end then rest else some (some got'.1)
        ] in
        if ltb_ℤ cursor end then round else some (some got.1)

    unfoldable pub fetch_session_chart_candles :
        ℕ → Session V → ℕ → ℤ → Option (Option (List (Candle V)))
    unfolding fetch_loop timeframe_duration realtime_chart_start_time
    fetch_session_chart_candles rounds s warmup_period end =
        let start = realtime_chart_start_time s warmup_period end in
        elim (timeframe_duration s.timeframe) [
          | none ↦ some (candles_by_period start end)
          | some duration ↦ fetch_loop rounds duration start end ([], [])
        ]
