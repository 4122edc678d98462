-- ===== src/Feed/Timeframe.antt =====
-- isFirstCandlePeriod and isLastCandlePeriod of exchange/feed/csvfeed.go. A time is its count of
-- seconds since the epoch, before it too; ParseDuration of the package str2duration is a parameter,
-- which has a whole number of seconds for a timeframe, or fails.
use ninjabot.Prelude.{
  ℕ, ◌-◌, ◌/◌, ◌%◌, String, Bool, true, ◌&&◌, Option, none, some, ◌==◌, str_eq, if◌then◌else◌,
}
use ninjabot.Prelude.Int.{ℤ, pos, negsuc, ◌+ℤ◌, ◌-ℤ◌}

-- The remainder, rounded down.
abbrev pub floor_mod : ℤ → ℕ → ℕ
floor_mod (pos n) m = n % m
floor_mod (negsuc n) m = m - 1 - n % m

-- Second, Minute, Hour and Weekday of a time in UTC; the epoch is a Thursday, day 4.
unfoldable pub second : ℤ → ℕ
second t = floor_mod t 60

unfoldable pub minute : ℤ → ℕ
minute t = floor_mod t 3600 / 60

unfoldable pub hour : ℤ → ℕ
hour t = floor_mod t 86400 / 3600

unfoldable pub weekday : ℤ → ℕ
unfolding ◌+ℤ◌
weekday t = floor_mod (t +ℤ pos 345600) 604800 / 86400

-- The switch on the target timeframe: whether a period starts at the time; `none` is the error
-- for an unknown timeframe.
unfoldable pub starts_period : String → ℤ → Option Bool
unfolding second minute hour weekday
starts_period target next =
    if str_eq target "1m"
    then some (second next % 60 == 0)
    else if str_eq target "5m"
    then some (minute next % 5 == 0)
    else if str_eq target "10m"
    then some (minute next % 10 == 0)
    else if str_eq target "15m"
    then some (minute next % 15 == 0)
    else if str_eq target "30m"
    then some (minute next % 30 == 0)
    else if str_eq target "1h"
    then some (minute next % 60 == 0)
    else if str_eq target "2h"
    then some (minute next == 0 && hour next % 2 == 0)
    else if str_eq target "4h"
    then some (minute next == 0 && hour next % 4 == 0)
    else if str_eq target "12h"
    then some (minute next == 0 && hour next % 12 == 0)
    else if str_eq target "1d"
    then some (minute next == 0 && hour next % 24 == 0)
    else if str_eq target "1w"
    then some (minute next == 0 && hour next % 24 == 0 && weekday next == 0)
    else none

module _ (parse_duration : String → Option ℕ) where
  unfoldable pub is_last_candle_period : ℤ → String → String → Option Bool
  unfolding starts_period ◌+ℤ◌
  is_last_candle_period t from target =
      let after_parse : Option Bool = elim (parse_duration from) [
        | none ↦ none
        | some d ↦ starts_period target (t +ℤ pos d)
      ] in
      if str_eq from target then some true else after_parse

  -- The rest of isFirstCandlePeriod, from the parsed timeframe.
  unfoldable pub first_of_parsed : Option ℕ → ℤ → String → String → Option Bool
  unfolding is_last_candle_period ◌-ℤ◌
  first_of_parsed none t from target = none
  first_of_parsed (some d) t from target = is_last_candle_period (t -ℤ pos d) from target

  unfoldable pub is_first_candle_period : ℤ → String → String → Option Bool
  unfolding first_of_parsed
  is_first_candle_period t from target = first_of_parsed (parse_duration from) t from target
