-- ===== src/Sessions/Fetch.antt =====
-- fetchSessionChartCandles ends, and returns each time once.
use ninjabot.Prelude.{
  ℕ, zero, suc, ◌*◌, ◌^◌, ◌<◌, ◌≡◌, refl, ◌∙◌, sym, true, false, List, [], ◌∷◌, ◌++◌, Option, none,
  some, map, contains, if◌then◌else◌, arith, subst, Bool-cases, Option-cases, inl, inr,
}
use ninjabot.Model.Candle.{Candle}
use ninjabot.Model.Session.{Session}
use ninjabot.Sessions.Chart.{
  wrap_int64, times_int64, timeframe_duration, chunk_end_of, realtime_chart_start_time, add_unseen,
  last_time, next_cursor, fetch_loop, fetch_session_chart_candles,
}
use ninjabot.Prelude.Int.{ℤ, pos, pos_part, ◌+ℤ◌, ◌-ℤ◌, ◌*ℤ◌, ◌≤ℤ◌, ltb_ℤ, +ℤ_parts, -ℤ_parts}

-- A window that does not wrap.
chunk_end_of-plain :
    (d : ℕ) (cursor end : ℤ)
    → d * 999 < 2 ^ 63
    → let plain = cursor +ℤ pos (d * 999) in
      chunk_end_of (pos d) cursor end ≡ (if ltb_ℤ end plain then end else plain)
unfolding chunk_end_of times_int64 wrap_int64 ◌*ℤ◌
chunk_end_of-plain d cursor end h = ground arith

-- The chunk that starts at a cursor before the end ends after the cursor.
chunk_end_of-later :
    (d : ℕ) (cursor end : ℤ)
    → 0 < d
    → d * 999 < 2 ^ 63
    → ltb_ℤ cursor end ≡ true
    → ltb_ℤ cursor (chunk_end_of (pos d) cursor end) ≡ true
chunk_end_of-later d cursor end p h inside =
    rw (chunk_end_of-plain d cursor end h) (later d cursor end p inside)
  where
    later :
        (d : ℕ) (cursor end : ℤ)
        → 0 < d
        → ltb_ℤ cursor end ≡ true
        → let plain = cursor +ℤ pos (d * 999) in
          ltb_ℤ cursor (if ltb_ℤ end plain then end else plain) ≡ true
    later d cursor end p inside = ground (arith, +ℤ_parts cursor (pos (d * 999)))

module _ {V : Type 0} where
  -- No time occurs twice.
  abbrev pub IsDistinct : List (Candle V) → Type 0
  IsDistinct [] = Unit {0}
  IsDistinct (c ∷ cs) = (contains (map (λ x. x.time) cs) c.time ≡ false) × IsDistinct cs

  -- The times that were seen are those of the candles, and no time occurs twice.
  record IsKnown (got : List ℕ × List (Candle V)) : Type 0 where
    known : (t : ℕ) → contains got.0 t ≡ contains (map (λ x. x.time) got.1) t
    distinct : IsDistinct got.1

  times-append :
      (cs ds : List (Candle V)) (t : ℕ)
      → contains (map (λ x. x.time) (cs ++ ds)) t
        ≡ (if contains (map (λ x. x.time) cs) t then true else contains (map (λ x. x.time) ds) t)
  times-append [] ds t = refl
  times-append (c ∷ cs) ds t = ground (arith, times-append cs ds t)

  append-IsDistinct :
      (cs : List (Candle V)) (c : Candle V)
      → contains (map (λ x. x.time) cs) c.time ≡ false
      → IsDistinct cs
      → IsDistinct (cs ++ c ∷ [])
  append-IsDistinct [] c h v = (refl, tt)
  append-IsDistinct (d ∷ cs) c h v =
      (ground (arith, times-append cs (c ∷ []) d.time), append-IsDistinct cs c (ground arith) v.1)

  add_unseen-IsKnown :
      (chunk : List (Candle V)) (got : List ℕ × List (Candle V))
      → IsKnown got
      → IsKnown (add_unseen chunk got)
  unfolding add_unseen
  add_unseen-IsKnown [] got v = v
  add_unseen-IsKnown (c ∷ cs) (seen, candles) v = elim (Bool-cases (contains seen c.time)) [
    | inl old ↦ rw old (add_unseen-IsKnown cs (seen, candles) v)
    | inr fresh ↦ rw fresh (
        add_unseen-IsKnown cs (c.time ∷ seen, candles ++ c ∷ [])
          (record {
            known = λ t. ground (arith, v.known t, times-append candles (c ∷ []) t);
            distinct = append-IsDistinct candles c (sym (v.known c.time) ∙ fresh) v.distinct;
          }))
  ]

  module _ (candles_by_period : ℤ → ℤ → Option (List (Candle V))) where
    -- The last candle of an answer does not come before the start of the request.
    abbrev pub StartsInPeriod : Type 0
    StartsInPeriod =
        (start end : ℤ) (chunk : List (Candle V)) (t : ℕ)
        → candles_by_period start end ≡ some chunk
        → last_time chunk ≡ some t
        → start ≤ℤ pos t

    -- The loop ended, with an error or with candles at distinct times.
    abbrev pub Ended : Option (Option (List (Candle V))) → Type 0
    Ended o =
        (r : Option (List (Candle V))) × (o ≡ some r)
        × ((cs : List (Candle V)) → r ≡ some cs → IsDistinct cs)

    next_cursor-later :
        (d : ℕ) (cursor chunk_end : ℤ) (chunk : List (Candle V))
        → 0 < d
        → ltb_ℤ cursor chunk_end ≡ true
        → ((t : ℕ) → last_time chunk ≡ some t → cursor ≤ℤ pos t)
        → ltb_ℤ cursor (next_cursor (pos d) chunk_end chunk) ≡ true
    unfolding next_cursor
    next_cursor-later d cursor chunk_end chunk p inside starts =
        elim (Option-cases (last_time chunk)) [
          | inl e ↦ rw (next_cursor, e) (ground (arith, +ℤ_parts chunk_end (pos 1000000)))
          | inr (t, e) ↦
              let begun = starts t e in
              rw (next_cursor, e)
                (ground (arith, begun, +ℤ_parts chunk_end (pos 1000000), +ℤ_parts (pos t) (pos d)))
        ]

    -- The nanoseconds from the cursor to the end.
    abbrev pub left : ℤ → ℤ → ℕ
    left cursor end = pos_part (end -ℤ cursor)

    fetch_loop-Ended :
        StartsInPeriod
        → (k d : ℕ) (cursor end : ℤ) (got : List ℕ × List (Candle V)) → 0 < d
        → d * 999 < 2 ^ 63
        → left cursor end < k
        → IsKnown got
        → Ended (fetch_loop candles_by_period k (pos d) cursor end got)
    unfolding fetch_loop
    fetch_loop-Ended starts zero d cursor end got p h f v = absurd (omega arith)
    fetch_loop-Ended starts (suc k) d cursor end got p h f v =
        elim (Bool-cases (ltb_ℤ cursor end)) [
          | inr over ↦ rw over (some got.1, refl, λ cs h. subst IsDistinct (some_inj h) v.distinct)
          | inl inside ↦
              elim (Option-cases (candles_by_period cursor (chunk_end_of (pos d) cursor end))) [
                | inl failed ↦ rw (inside, failed) (none, refl, λ cs h. cc)
                | inr (chunk, answer) ↦
                    let chunk_end = chunk_end_of (pos d) cursor end in
                    let further = chunk_end_of-later d cursor end p h inside in
                    let later =
                      next_cursor-later d cursor chunk_end chunk p further
                        (λ t e. starts cursor chunk_end chunk t answer e) in
                    let (r, ran, distinct) =
                      fetch_loop-Ended starts k d (next_cursor (pos d) chunk_end chunk) end
                        (add_unseen chunk got) p h
                        (left-less cursor (next_cursor (pos d) chunk_end chunk) end k inside later
                          f)
                        (add_unseen-IsKnown chunk got v) in
                    (r, rw (inside, answer, further) ran, distinct)
              ]
        ]
      where
        some_inj : {a b : List (Candle V)} → some a ≡ some b → a ≡ b
        some_inj e = cc

        left-less :
            (cursor next end : ℤ) (k : ℕ)
            → ltb_ℤ cursor end ≡ true
            → ltb_ℤ cursor next ≡ true
            → left cursor end < suc k
            → left next end < k
        left-less cursor next end k inside later f =
            ground (arith, -ℤ_parts end cursor, -ℤ_parts end next)

    -- If no answer of the exchange ends before its request starts, then for a session whose timeframe
    -- has a duration above zero, of which 999 are no more than an int64 holds in nanoseconds,
    -- fetchSessionChartCandles ends, after at most as many rounds as there are nanoseconds between the
    -- start and the end of the chart and one more; it returns the error of the exchange, or candles of
    -- which no two have the same time.
    pub fetch_session_chart_candles-Ended :
        StartsInPeriod
        → (s : Session V) (warmup_period : ℕ) (end : ℤ) (d : ℕ)
        → timeframe_duration s.timeframe ≡ some (pos d)
        → 0 < d
        → d * 999 < 2 ^ 63
        → Ended (
            fetch_session_chart_candles candles_by_period
              (suc (left (realtime_chart_start_time s warmup_period end) end))
              s
              warmup_period
              end)
    unfolding fetch_session_chart_candles
    fetch_session_chart_candles-Ended starts s warmup_period end d valid p h =
        let start = realtime_chart_start_time s warmup_period end in
        rw (fetch_session_chart_candles, valid)
          (fetch_loop-Ended starts (suc (left start end)) d start end ([], []) p h (omega arith)
            (record { known = λ t. refl; distinct = tt }))
