-- ===== src/Feed/Calendar.antt =====
-- isFirstCandlePeriod and isLastCandlePeriod of exchange/feed/csvfeed.go against the calendar: the
-- periods of a timeframe by their length.
use ninjabot.Prelude.{
  ℕ, ◌%◌, ◌≡◌, refl, ap, ◌∙◌, String, Bool, true, false, ◌&&◌, Option, none, some, ◌>>=◌, ◌==◌,
  str_eq, ltb, if◌then◌else◌, arith,
}
use ninjabot.Prelude.Int.{ℤ, pos, negsuc, ◌+ℤ◌, ◌-ℤ◌, int_laws}
use ninjabot.Feed.Timeframe.{
  floor_mod, second, minute, hour, weekday, starts_period, is_last_candle_period, first_of_parsed,
  is_first_candle_period,
}

-- The periods of a timeframe: their length, how long before the epoch one of them starts, and how
-- long the start of a period is taken to last, all in seconds.
pub record Period : Type 0 where
  pub length : ℕ
  pub before_epoch : ℕ
  pub start : ℕ

abbrev pub period : ℕ → ℕ → Period
period length start = record { length = length; before_epoch = 0; start = start }

abbrev pub period_of : String → Option Period
period_of target =
    if str_eq target "1m"
    then some (period 60 1)
    else if str_eq target "5m"
    then some (period 300 60)
    else if str_eq target "10m"
    then some (period 600 60)
    else if str_eq target "15m"
    then some (period 900 60)
    else if str_eq target "30m"
    then some (period 1800 60)
    else if str_eq target "1h"
    then some (period 3600 60)
    else if str_eq target "2h"
    then some (period 7200 60)
    else if str_eq target "4h"
    then some (period 14400 60)
    else if str_eq target "12h"
    then some (period 43200 60)
    else if str_eq target "1d"
    then some (period 86400 60)
    else if str_eq target "1w"
    then some (record { length = 604800; before_epoch = 345600; start = 60 })
    else none

-- Whether a period starts at the time.
abbrev pub is_start_of : ℤ → Period → Bool
is_start_of t p = ltb (floor_mod (t +ℤ pos p.before_epoch) p.length) p.start

abbrev IsAligned : (ℤ → Bool) → Period → Type 0
IsAligned test p = (t : ℤ) → test t ≡ is_start_of t p

-- Every test of the source is a congruence.
minutes_1 : IsAligned (λ t. second t % 60 == 0) (period 60 1)
unfolding second ◌+ℤ◌
minutes_1 (pos n) = ground arith
minutes_1 (negsuc n) = ground arith

minutes_5 : IsAligned (λ t. minute t % 5 == 0) (period 300 60)
unfolding minute ◌+ℤ◌
minutes_5 (pos n) = ground arith
minutes_5 (negsuc n) = ground arith

minutes_10 : IsAligned (λ t. minute t % 10 == 0) (period 600 60)
unfolding minute ◌+ℤ◌
minutes_10 (pos n) = ground arith
minutes_10 (negsuc n) = ground arith

minutes_15 : IsAligned (λ t. minute t % 15 == 0) (period 900 60)
unfolding minute ◌+ℤ◌
minutes_15 (pos n) = ground arith
minutes_15 (negsuc n) = ground arith

minutes_30 : IsAligned (λ t. minute t % 30 == 0) (period 1800 60)
unfolding minute ◌+ℤ◌
minutes_30 (pos n) = ground arith
minutes_30 (negsuc n) = ground arith

minutes_60 : IsAligned (λ t. minute t % 60 == 0) (period 3600 60)
unfolding minute ◌+ℤ◌
minutes_60 (pos n) = ground arith
minutes_60 (negsuc n) = ground arith

hours_2 : IsAligned (λ t. minute t == 0 && hour t % 2 == 0) (period 7200 60)
unfolding minute hour ◌+ℤ◌
hours_2 (pos n) = ground arith
hours_2 (negsuc n) = ground arith

hours_4 : IsAligned (λ t. minute t == 0 && hour t % 4 == 0) (period 14400 60)
unfolding minute hour ◌+ℤ◌
hours_4 (pos n) = ground arith
hours_4 (negsuc n) = ground arith

hours_12 : IsAligned (λ t. minute t == 0 && hour t % 12 == 0) (period 43200 60)
unfolding minute hour ◌+ℤ◌
hours_12 (pos n) = ground arith
hours_12 (negsuc n) = ground arith

hours_24 : IsAligned (λ t. minute t == 0 && hour t % 24 == 0) (period 86400 60)
unfolding minute hour ◌+ℤ◌
hours_24 (pos n) = ground arith
hours_24 (negsuc n) = ground arith

weeks :
    IsAligned
      (λ t. minute t == 0 && hour t % 24 == 0 && weekday t == 0)
      (record { length = 604800; before_epoch = 345600; start = 60 })
unfolding minute hour weekday ◌+ℤ◌
weeks (pos n) = ground arith
weeks (negsuc n) = ground arith

abbrev start_in : ℤ → Option Period → Option Bool
start_in t o = o >>= λ p. some (is_start_of t p)

-- One case of the switch.
next_case :
    (t : ℤ) (here test : Bool) (p : Period) (others : Option Bool) (periods : Option Period)
    → test ≡ is_start_of t p
    → others ≡ start_in t periods
    → (if here then some test else others) ≡ start_in t (if here then some p else periods)
next_case t true test p others periods e h = ap some e
next_case t false test p others periods e h = h

starts_period-period_of :
    (target : String) (t : ℤ) → starts_period target t ≡ start_in t (period_of target)
unfolding starts_period
starts_period-period_of target t = next_case t _ _ _ _ _ (minutes_1 t) (
    next_case t _ _ _ _ _ (minutes_5 t) (
      next_case t _ _ _ _ _ (minutes_10 t) (
        next_case t _ _ _ _ _ (minutes_15 t) (
          next_case t _ _ _ _ _ (minutes_30 t) (
            next_case t _ _ _ _ _ (minutes_60 t) (
              next_case t _ _ _ _ _ (hours_2 t) (
                next_case t _ _ _ _ _ (hours_4 t) (
                  next_case t _ _ _ _ _ (hours_12 t) (
                    next_case t _ _ _ _ _ (hours_24 t)
                      (next_case t _ _ _ _ _ (weeks t) refl))))))))))

add-sub_ℤ : (t d : ℤ) → (t -ℤ d) +ℤ d ≡ t
add-sub_ℤ t d = omega int_laws

last-period_of :
    (parse_duration : String → Option ℕ) (from target : String) (t : ℤ) (d : ℕ)
    → parse_duration from ≡ some d
    → str_eq from target ≡ false
    → is_last_candle_period parse_duration t from target ≡ start_in (t +ℤ pos d) (period_of target)
unfolding is_last_candle_period
last-period_of parse_duration from target t d parsed other =
    rw (is_last_candle_period, other, parsed) (starts_period-period_of target (t +ℤ pos d))

-- If the source timeframe parses to `d` seconds and is not the target, a candle is the first of a
-- period exactly if its time, and the last of one exactly if the time `d` seconds later, lies in
-- the first minute, and for 1m in the first second, of a period of the target timeframe: periods of
-- 1, 5, 10, 15 and 30 minutes, of 1, 2, 4 and 12 hours and of a day, all counted from the epoch, and
-- of a week that starts on a Sunday. Another target is an error.
pub is_first-period_of :
    (parse_duration : String → Option ℕ) (from target : String) (t : ℤ) (d : ℕ)
    → parse_duration from ≡ some d
    → str_eq from target ≡ false
    → (is_first_candle_period parse_duration t from target
        ≡ (period_of target >>= λ p. some (is_start_of t p)))
      × (is_last_candle_period parse_duration t from target
          ≡ (period_of target >>= λ p. some (is_start_of (t +ℤ pos d) p)))
unfolding is_first_candle_period first_of_parsed
is_first-period_of parse_duration from target t d parsed other =
    let last = last-period_of parse_duration from target (t -ℤ pos d) d parsed other in
    (
      ap (λ o. first_of_parsed parse_duration o t from target) parsed
          ∙ last
          ∙ ap (λ u. start_in u (period_of target)) (add-sub_ℤ t (pos d)),
      last-period_of parse_duration from target t d parsed other,
    )
