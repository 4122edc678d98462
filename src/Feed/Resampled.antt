-- ===== src/Feed/Resampled.antt =====
-- The second loop of resample of exchange/feed/csvfeed.go against a description of its candles
-- field by field.
use ninjabot.Prelude.{
  ℕ, ◌≡◌, refl, ap, ◌∙◌, String, Bool, true, false, not, List, [], ◌∷◌, ◌++◌, Option, none, some,
  Option-cases, inl, inr, if◌then◌else◌,
}
use ninjabot.Prelude.Int.{pos}
use ninjabot.Prelude.Map.{insert}
use ninjabot.Float.{Float64, ◌⊕◌, min, max}
use ninjabot.Model.Candle.{Candle}
use ninjabot.Feed.Timeframe.{is_last_candle_period}
use ninjabot.Feed.Csv.{
  Outcome, done, failed, panicked, ◌then_run◌, CsvFeed, feed_timeframe_key, candles_of, join,
  drop_incomplete, from_first, join_loop, resample,
}

module _ {V : Type 0} ⦃fl : Float64 V⦄ where
  -- The highest high, the lowest low and the volume of the candles of a period up to `c`.
  top_from : V → List (Candle V) → Candle V → V
  top_from h [] c = max h c.high
  top_from h (b ∷ w) c = top_from (max h b.high) w c

  top : List (Candle V) → Candle V → V
  top [] c = c.high
  top (a ∷ w) c = top_from a.high w c

  bottom_from : V → List (Candle V) → Candle V → V
  bottom_from l [] c = min l c.low
  bottom_from l (b ∷ w) c = bottom_from (min l b.low) w c

  bottom : List (Candle V) → Candle V → V
  bottom [] c = c.low
  bottom (a ∷ w) c = bottom_from a.low w c

  turnover_from : V → List (Candle V) → Candle V → V
  turnover_from v [] c = c.volume ⊕ v
  turnover_from v (b ∷ w) c = turnover_from (b.volume ⊕ v) w c

  turnover : List (Candle V) → Candle V → V
  turnover [] c = c.volume
  turnover (a ∷ w) c = turnover_from a.volume w c

  first_of : List (Candle V) → Candle V → Candle V
  first_of [] c = c
  first_of (a ∷ w) c = a

  -- The bar of the candles `w` of a period and the candle `c` after them: time and opening price
  -- of the first, extremes and volume of all, and the rest of `c`.
  pub bar : List (Candle V) → Candle V → Candle V
  unfolding first_of top bottom turnover
  bar w c = record c {
    time = (first_of w c).time;
    open_price = (first_of w c).open_price;
    high = top w c;
    low = bottom w c;
    volume = turnover w c;
  }

  -- A bar for each candle, over the candles since the last complete one.
  unfoldable pub bars : List (Candle V) → List (Candle V) → List (Candle V)
  unfolding bar top_from bottom_from turnover_from
  bars w [] = []
  bars w (c ∷ cs) = bar w c ∷ bars (if c.complete then [] else w ++ c ∷ []) cs

  top_from-snoc :
      (h : V) (w : List (Candle V)) (p c : Candle V)
      → top_from h (w ++ p ∷ []) c ≡ max (top_from h w p) c.high
  unfolding top_from
  top_from-snoc h [] p c = refl
  top_from-snoc h (b ∷ w) p c = top_from-snoc (max h b.high) w p c

  bottom_from-snoc :
      (l : V) (w : List (Candle V)) (p c : Candle V)
      → bottom_from l (w ++ p ∷ []) c ≡ min (bottom_from l w p) c.low
  unfolding bottom_from
  bottom_from-snoc l [] p c = refl
  bottom_from-snoc l (b ∷ w) p c = bottom_from-snoc (min l b.low) w p c

  turnover_from-snoc :
      (v : V) (w : List (Candle V)) (p c : Candle V)
      → turnover_from v (w ++ p ∷ []) c ≡ c.volume ⊕ turnover_from v w p
  unfolding turnover_from
  turnover_from-snoc v [] p c = refl
  turnover_from-snoc v (b ∷ w) p c = turnover_from-snoc (b.volume ⊕ v) w p c

  -- What a candle is joined to extends the window `w`.
  Fits : Option (Candle V) → List (Candle V) → Type 0
  Fits prev w = (c : Candle V) → join prev c ≡ bar w c

  -- The candle that join makes of a candle that is not complete and the next one.
  abbrev extended : Candle V → Candle V → Candle V
  extended prev candle = record candle {
    time = prev.time;
    open_price = prev.open_price;
    high = max prev.high candle.high;
    low = min prev.low candle.low;
    volume = candle.volume ⊕ prev.volume;
  }

  join-complete :
      (p c : Candle V) (t : Bool)
      → p.complete ≡ t
      → join (some p) c ≡ (if not t then extended p c else c)
  unfolding join
  join-complete p c t e = ap (λ b. if not b then extended p c else c) e

  bar-one : (c : Candle V) → c ≡ bar [] c
  unfolding bar first_of top bottom turnover
  bar-one c = refl

  extended-bar : (w : List (Candle V)) (p c : Candle V) → extended (bar w p) c ≡ bar (w ++ p ∷ []) c
  unfolding bar first_of top bottom turnover top_from bottom_from turnover_from
  extended-bar [] p c = refl
  extended-bar (a ∷ w) p c =
      rw (
        top_from-snoc a.high w p c,
        bottom_from-snoc a.low w p c,
        turnover_from-snoc a.volume w p c,
      )

  pub complete-bar : (w : List (Candle V)) (p : Candle V) → (bar w p).complete ≡ p.complete
  unfolding bar
  complete-bar w p = refl

  bar-Fits :
      (w : List (Candle V)) (p : Candle V)
      → Fits (some (bar w p)) (if p.complete then [] else w ++ p ∷ [])
  unfolding Fits
  bar-Fits w p = by_end p.complete refl
    where
      by_end :
          (t : Bool)
          → p.complete ≡ t
          → (c : Candle V) → join (some (bar w p)) c ≡ bar (if t then [] else w ++ p ∷ []) c
      by_end true e c = join-complete (bar w p) c true (complete-bar w p ∙ e) ∙ bar-one c
      by_end false e c = join-complete (bar w p) c false (complete-bar w p ∙ e) ∙ extended-bar w p c

module _ {V : Type 0} ⦃fl : Float64 V⦄ (parse_duration : String → Option ℕ)
    (source target : String) where
  -- Each candle, marked by whether it is the last of its period.
  unfoldable pub mark_all : List (Candle V) → Outcome (List (Candle V))
  mark_all [] = done []
  mark_all (c ∷ cs) = elim (is_last_candle_period parse_duration (pos c.time) source target) [
    | none ↦ failed
    | some last ↦ mark_all cs then_run λ ms. done (record c { complete = last } ∷ ms)
  ]

  join_loop-bars :
      (cs : List (Candle V)) (prev : Option (Candle V)) (w : List (Candle V))
      → Fits prev w
      → join_loop parse_duration source target prev cs
        ≡ (mark_all cs then_run λ ms. done (bars w ms))
  unfolding join_loop mark_all bars Fits
  join_loop-bars [] prev w h = refl
  join_loop-bars (c ∷ cs) prev w h =
      elim (Option-cases (is_last_candle_period parse_duration (pos c.time) source target)) [
        | inl e ↦ rw (e, join_loop, mark_all)
        | inr (last, e) ↦
            let m : Candle V = record c { complete = last } in
            rw (e, join_loop, mark_all)
              (ap
                  (λ t. join_loop parse_duration source target (some t) cs then_run λ rest.
                    done (t ∷ rest))
                  (h m)
                ∙ ap (λ o. o then_run λ rest. done (bar w m ∷ rest))
                    (join_loop-bars cs (some (bar w m)) _ (bar-Fits w m))
                ∙ bars-cons w m (mark_all cs))
      ]
    where
      bars-cons :
          (w : List (Candle V)) (m : Candle V) (o : Outcome (List (Candle V)))
          → ((o then_run λ ms. done (bars (if m.complete then [] else w ++ m ∷ []) ms))
              then_run λ rest. done (bar w m ∷ rest))
            ≡ ((o then_run λ ms. done (m ∷ ms)) then_run λ ms. done (bars w ms))
      bars-cons w m (done ms) = refl
      bars-cons w m failed = refl
      bars-cons w m panicked = refl

  join_loop-none :
      (cs : List (Candle V))
      → join_loop parse_duration source target none cs
        ≡ (mark_all cs then_run λ ms. done (bars [] ms))
  unfolding Fits join
  join_loop-none cs = join_loop-bars cs none [] bar-one

  -- The second loop and the cut of its last candle, on all candles of a feed.
  pub resample_lem :
      (pair : String) (c : CsvFeed V)
      → resample parse_duration source target pair c ≡ (
          from_first parse_duration source target (candles_of (feed_timeframe_key pair source) c)
          then_run (λ cs. mark_all cs then_run λ ms. drop_incomplete (bars [] ms))
          then_run λ candles. done (insert (feed_timeframe_key pair target) candles c))
  unfolding resample
  resample_lem pair c =
      joined
        (from_first parse_duration source target (candles_of (feed_timeframe_key pair source) c))
    where
      marked :
          (o : Outcome (List (Candle V)))
          → ((o then_run λ ms. done (bars [] ms)) then_run drop_incomplete)
            ≡ (o then_run λ ms. drop_incomplete (bars [] ms))
      marked (done ms) = refl
      marked failed = refl
      marked panicked = refl

      store : Outcome (List (Candle V)) → Outcome (CsvFeed V)
      store o = o then_run λ candles. done (insert (feed_timeframe_key pair target) candles c)

      joined :
          (o : Outcome (List (Candle V)))
          → store
              ((o then_run join_loop parse_duration source target none) then_run drop_incomplete)
            ≡ store (o then_run λ cs. mark_all cs then_run λ ms. drop_incomplete (bars [] ms))
      joined (done cs) =
          ap (λ t. store (t then_run drop_incomplete)) (join_loop-none cs)
          ∙ ap store (marked (mark_all cs))
      joined failed = refl
      joined panicked = refl
