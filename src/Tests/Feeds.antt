-- ===== src/Tests/Feeds.antt =====
-- The feed's and the tools' theorems at sample data.
use ninjabot.Prelude.{
  ℕ, suc, Bool, ◌≡◌, refl, String, true, List, [], ◌∷◌, Option, some, ◌>>=◌, ◌⊎◌,
}
use ninjabot.Prelude.Map.{insert}
use ninjabot.Prelude.Int.{ℤ, pos, ◌+ℤ◌}
use ninjabot.Float.{◌≤?◌}
use ninjabot.Float.Integers.{integers, integers-IsExact}
use ninjabot.Feed.Timeframe.{is_first_candle_period, is_last_candle_period}
use ninjabot.Feed.Calendar.{period_of, is_start_of, is_first-period_of}
use ninjabot.Feed.Csv.{done, failed, panicked, CsvFeed, feed_timeframe_key, candles_of, resample}
use ninjabot.Feed.Periods.{HasUnknown, AllInside, IsResampled, resample-bars}
use ninjabot.Model.Candle.{Candle}
use ninjabot.Tools.Trailing.{TrailingStop, new_trailing_stop, start, follow, follow-stop}
use ninjabot.Tools.Scheduler.{Scheduler, new_scheduler, sell_when, buy_when, update, update-once}
use ninjabot.Model.Order.{SideType}
use ninjabot.Tests.Samples.{candle_at}

-- Every timeframe is one minute.
abbrev minutes : String → Option ℕ
minutes s = some 60

is_first-period_of_example :
    (is_first_candle_period minutes (pos 300) "1m" "5m"
      ≡ (period_of "5m" >>= λ p. some (is_start_of (pos 300) p)))
    × (is_last_candle_period minutes (pos 300) "1m" "5m"
        ≡ (period_of "5m" >>= λ p. some (is_start_of (pos 300 +ℤ pos 60) p)))
is_first-period_of_example = is_first-period_of minutes "1m" "5m" (pos 300) 60 refl refl

abbrev minute_feed : CsvFeed ℤ
minute_feed =
    (
      "BTCUSDT--1m",
      candle_at 240 9
          ∷ candle_at 300 10
          ∷ candle_at 360 14
          ∷ candle_at 420 7
          ∷ candle_at 480 11
          ∷ candle_at 540 12
          ∷ candle_at 600 13
          ∷ [],
    )
    ∷ []

resample-bars_example :
    let cs = candles_of (feed_timeframe_key "BTCUSDT" "1m") minute_feed in
    let o = resample minutes "1m" "5m" "BTCUSDT" minute_feed in
    ((o ≡ failed) × HasUnknown minutes "1m" "5m" cs)
    ⊎ ((o ≡ panicked) × AllInside minutes "1m" "5m" cs)
    ⊎ ((bs : List (Candle ℤ)) × (o
          ≡ done (insert (feed_timeframe_key "BTCUSDT" "5m") bs minute_feed))
        × IsResampled minutes "1m" "5m" cs bs)
resample-bars_example = resample-bars minutes "1m" "5m" "BTCUSDT" minute_feed

abbrev trailing : TrailingStop ℤ
trailing = start (pos 10) (pos 8) new_trailing_stop

follow-stop_example :
    (trailing.stop ≤? (follow (pos 12 ∷ pos 9 ∷ pos 11 ∷ []) trailing).stop) ≡ true
follow-stop_example = follow-stop integers-IsExact (pos 12 ∷ pos 9 ∷ pos 11 ∷ []) trailing

-- A broker that accepts every order and counts them; the dataframe is a price.
abbrev counting : SideType → String → ℤ → ℕ → Bool × ℕ
counting side pair size placed = (true, suc placed)

abbrev plan : Scheduler ℤ ℤ
plan =
    sell_when (pos 1) (λ price. pos 20 ≤? price)
      (buy_when (pos 2) (λ price. price ≤? pos 10) (new_scheduler "BTCUSDT"))

update-once_example :
    let (s', placed) = update counting (pos 9) plan 0 in
    update counting (pos 9) s' placed ≡ (s', placed)
update-once_example = update-once counting (pos 9) (λ side pair size b. refl) plan 0

bought_once : (update counting (pos 9) plan 0).1 ≡ 1
unfolding update sell_when buy_when
bought_once = refl
