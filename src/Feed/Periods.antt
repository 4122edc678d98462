-- ===== src/Feed/Periods.antt =====
-- Which candles resample of exchange/feed/csvfeed.go looks at and which bars it stores, and when it
-- fails or panics.
use ninjabot.Prelude.{
  ℕ, zero, suc, ◌≡◌, refl, ap, sym, subst, ◌∙◌, ◌⊎◌, String, Bool, true, false, List, [], ◌∷◌, ◌++◌,
  Option, none, some, get_elem?, Option-cases, Bool-cases, inl, inr, if◌then◌else◌,
}
use ninjabot.Prelude.Int.{pos}
use ninjabot.Prelude.Map.{insert}
use ninjabot.Float.{Float64}
use ninjabot.Model.Candle.{Candle}
use ninjabot.Feed.Timeframe.{is_first_candle_period, is_last_candle_period}
use ninjabot.Feed.Csv.{
  Outcome, done, failed, panicked, ◌then_run◌, CsvFeed, feed_timeframe_key, candles_of,
  drop_incomplete, from_first, resample,
}
use ninjabot.Feed.Resampled.{bar, bars, complete-bar, mark_all, resample_lem}

module _ {V : Type 0} ⦃fl : Float64 V⦄ where
  drop_incomplete-snoc :
      (xs : List (Candle V)) (x : Candle V)
      → drop_incomplete (xs ++ x ∷ []) ≡ done (if x.complete then xs ++ x ∷ [] else xs)
  unfolding drop_incomplete
  drop_incomplete-snoc [] x = elim (Bool-cases x.complete) [ inl e ↦ rw e | inr e ↦ rw e ]
  drop_incomplete-snoc (a ∷ []) x = elim (Bool-cases x.complete) [ inl e ↦ rw e | inr e ↦ rw e ]
  drop_incomplete-snoc (a ∷ b ∷ xs) x =
      ap (λ o. o then_run λ rest. done (a ∷ rest)) (drop_incomplete-snoc (b ∷ xs) x)
      ∙ elim (Bool-cases x.complete) [ inl e ↦ rw e | inr e ↦ rw e ]

  bars-snoc :
      (w ms : List (Candle V)) (m : Candle V)
      → (w' : List (Candle V)) × (bars w (ms ++ m ∷ []) ≡ bars w ms ++ bar w' m ∷ [])
  unfolding bars
  bars-snoc w [] m = (w, refl)
  bars-snoc w (a ∷ ms) m =
      let (w', e) = bars-snoc (if a.complete then [] else w ++ a ∷ []) ms m in
      (w', ap (λ bs. bar w a ∷ bs) e)

  drop_incomplete-bars :
      (ms : List (Candle V)) (m : Candle V)
      → drop_incomplete (bars [] (ms ++ m ∷ []))
        ≡ done (if m.complete then bars [] (ms ++ m ∷ []) else bars [] ms)
  drop_incomplete-bars ms m =
      let (w, e) = bars-snoc [] ms m in
      ap drop_incomplete e
      ∙ drop_incomplete-snoc (bars [] ms) (bar w m)
      ∙ ap (λ t. done (if t then bars [] ms ++ bar w m ∷ [] else bars [] ms)) (complete-bar w m)
      ∙ ap (λ bs. done (if m.complete then bs else bars [] ms)) (sym e)

  last_split :
      (m : Candle V) (ms : List (Candle V))
      → (before : List (Candle V)) × (l : Candle V) × (m ∷ ms ≡ before ++ l ∷ [])
  last_split m [] = ([], m, refl)
  last_split m (a ∷ ms) =
      let (before, l, e) = last_split a ms in (m ∷ before, l, ap (λ xs. m ∷ xs) e)

module _ {V : Type 0} ⦃fl : Float64 V⦄ (parse_duration : String → Option ℕ)
    (source target : String) where
  abbrev first_at : Candle V → Option Bool
  first_at c = is_first_candle_period parse_duration (pos c.time) source target

  abbrev last_at : Candle V → Option Bool
  last_at c = is_last_candle_period parse_duration (pos c.time) source target

  -- No candle starts a period.
  abbrev pub AllInside : List (Candle V) → Type 0
  AllInside [] = Unit {0}
  AllInside (c ∷ cs) = (first_at c ≡ some false) × AllInside cs

  -- The candles, each marked by whether it is the last of its period.
  abbrev pub Marked : List (Candle V) → List (Candle V) → Type 0
  Marked [] [] = Unit {0}
  Marked [] (m ∷ ms) = ⊥
  Marked (c ∷ cs) [] = ⊥
  Marked (c ∷ cs) (m ∷ ms) =
      ((last : Bool) × (last_at c ≡ some last) × (m ≡ record c { complete = last })) × Marked cs ms

  -- A candle of the list at which the timeframes cannot be compared.
  abbrev pub HasUnknown : List (Candle V) → Type 0
  HasUnknown cs =
      (k : ℕ) × (c : Candle V) × (get_elem? cs k ≡ some c)
      × ((first_at c ≡ none) ⊎ (last_at c ≡ none))

  -- The candles before the first start of a period are left out; those from it on are joined to
  -- bars, without the last bar if its period is not over.
  pub record IsResampled (cs bs : List (Candle V)) : Type 0 where
    early : List (Candle V)
    first : Candle V
    rest : List (Candle V)
    split : cs ≡ early ++ first ∷ rest
    inside : AllInside early
    starts : first_at first ≡ some true
    marked : List (Candle V)
    newest : Candle V
    marks : Marked (first ∷ rest) (marked ++ newest ∷ [])
    joined : bs ≡ (if newest.complete then bars [] (marked ++ newest ∷ []) else bars [] marked)

  HasUnknown-cons : (c : Candle V) (cs : List (Candle V)) → HasUnknown cs → HasUnknown (c ∷ cs)
  HasUnknown-cons c cs (k, d, e, u) = (suc k, d, e, u)

  abbrev Started : List (Candle V) → Type 0
  Started cs =
      (early : List (Candle V)) × (first : Candle V) × (rest : List (Candle V)) × (cs
        ≡ early ++ first ∷ rest)
      × AllInside early
      × (first_at first ≡ some true)
      × (from_first parse_duration source target cs ≡ done (first ∷ rest))

  from_first-cases :
      (cs : List (Candle V))
      → ((from_first parse_duration source target cs ≡ failed) × HasUnknown cs)
        ⊎ ((from_first parse_duration source target cs ≡ done []) × AllInside cs)
        ⊎ Started cs
  unfolding from_first
  from_first-cases [] = inr (inl (refl, tt))
  from_first-cases (c ∷ cs) = elim (Option-cases (first_at c)) [
    | inl unknown ↦ inl (rw (from_first, unknown), (zero, c, refl, inl unknown))
    | inr (true, begins) ↦ inr (inr ([], c, cs, refl, tt, begins, rw (from_first, begins)))
    | inr (false, goes_on) ↦ elim (from_first-cases cs) [
      | inl (e, u) ↦ inl (rw (from_first, goes_on) e, HasUnknown-cons c cs u)
      | inr (inl (e, all)) ↦ inr (inl (rw (from_first, goes_on) e, (goes_on, all)))
      | inr (inr (early, first, rest, s, all, begins, e)) ↦ inr (
          inr (
            c ∷ early,
            first,
            rest,
            ap (λ xs. c ∷ xs) s,
            (goes_on, all),
            begins,
            rw (from_first, goes_on) e,
          ))
    ]
  ]

  mark_all-cases :
      (cs : List (Candle V))
      → ((mark_all parse_duration source target cs ≡ failed) × HasUnknown cs)
        ⊎ ((ms : List (Candle V)) × (mark_all parse_duration source target cs ≡ done ms)
            × Marked cs ms)
  unfolding mark_all
  mark_all-cases [] = inr ([], refl, tt)
  mark_all-cases (c ∷ cs) = elim (Option-cases (last_at c)) [
    | inl unknown ↦ inl (rw (mark_all, unknown), (zero, c, refl, inr unknown))
    | inr (last, known) ↦ elim (mark_all-cases cs) [
      | inl (e, u) ↦ inl (rw (mark_all, known, e), HasUnknown-cons c cs u)
      | inr (ms, e, marks) ↦
          inr (
            record c { complete = last } ∷ ms,
            rw (mark_all, known, e),
            ((last, known, refl), marks),
          )
    ]
  ]

  HasUnknown-append : (xs cs : List (Candle V)) → HasUnknown cs → HasUnknown (xs ++ cs)
  HasUnknown-append [] cs u = u
  HasUnknown-append (x ∷ xs) cs u = HasUnknown-cons x (xs ++ cs) (HasUnknown-append xs cs u)

  -- A feed whose source candles are `cs`, less those before the first start of a period.
  started :
      (cs early rest : List (Candle V)) (first : Candle V)
      → cs ≡ early ++ first ∷ rest
      → AllInside early
      → first_at first ≡ some true
      → let o = mark_all parse_duration source target (first ∷ rest) then_run λ ms.
          drop_incomplete (bars [] ms) in
        ((o ≡ failed) × HasUnknown cs)
        ⊎ ((bs : List (Candle V)) × (o ≡ done bs) × IsResampled cs bs)
  started cs early rest first s inside starts = elim (mark_all-cases (first ∷ rest)) [
    | inl (e, u) ↦ inl (
      ap (λ o. o then_run λ ms. drop_incomplete (bars [] ms)) e,
      subst HasUnknown (sym s) (HasUnknown-append early (first ∷ rest) u),
    )
    | inr ([], e, marks) ↦ absurd marks
    | inr (m ∷ ms, e, marks) ↦
        let (marked, newest, parts) = last_split m ms in
        inr (
          (if newest.complete then bars [] (marked ++ newest ∷ []) else bars [] marked),
          ap (λ o. o then_run λ ns. drop_incomplete (bars [] ns)) e
              ∙ ap (λ ns. drop_incomplete (bars [] ns)) parts
              ∙ drop_incomplete-bars marked newest,
          record {
            early = early;
            first = first;
            rest = rest;
            split = s;
            inside = inside;
            starts = starts;
            marked = marked;
            newest = newest;
            marks = subst (Marked (first ∷ rest)) parts marks;
            joined = refl;
          },
        )
  ]

  -- resample fails only at a candle that its timeframes do not fit, and panics only if no candle
  -- starts a period. Otherwise it stores, under the target timeframe, the bars of the candles from
  -- the first one that starts a period on: each bar has the time and the opening price of the first
  -- candle after the last complete one, the highest high, the lowest low and the summed volume since
  -- then, and is complete at the last candle of a period; the last bar is left out if it is not
  -- complete.
  pub resample-bars :
      (pair : String) (c : CsvFeed V)
      → let cs = candles_of (feed_timeframe_key pair source) c in
        let o = resample parse_duration source target pair c in
        ((o ≡ failed) × HasUnknown cs)
        ⊎ ((o ≡ panicked) × AllInside cs)
        ⊎ ((bs : List (Candle V)) × (o ≡ done (insert (feed_timeframe_key pair target) bs c))
            × IsResampled cs bs)
  unfolding mark_all bars drop_incomplete
  resample-bars pair c =
      let cs = candles_of (feed_timeframe_key pair source) c in
      let tail : Outcome (List (Candle V)) → Outcome (CsvFeed V) = λ o.
        o
        then_run (λ ds.
            mark_all parse_duration source target ds then_run λ ms. drop_incomplete (bars [] ms))
        then_run λ bs. done (insert (feed_timeframe_key pair target) bs c) in
      let store : Outcome (List (Candle V)) → Outcome (CsvFeed V) =
        λ o. o then_run λ bs. done (insert (feed_timeframe_key pair target) bs c) in
      let whole = resample_lem parse_duration source target pair c in
      elim (from_first-cases cs) [
        | inl (e, u) ↦ inl (whole ∙ ap tail e, u)
        | inr (inl (e, all)) ↦ inr (inl (whole ∙ ap tail e ∙ no_candles c pair, all))
        | inr (inr (early, first, rest, s, inside, starts, e)) ↦
            elim (started cs early rest first s inside starts) [
              | inl (e', u) ↦ inl (whole ∙ ap tail e ∙ ap store e', u)
              | inr (bs, e', r) ↦ inr (inr (bs, whole ∙ ap tail e ∙ ap store e', r))
            ]
      ]
    where
      no_candles :
          (c : CsvFeed V) (pair : String)
          → (mark_all parse_duration source target []
              then_run (λ ms. drop_incomplete (bars [] ms))
              then_run λ bs. done (insert (feed_timeframe_key pair target) bs c))
            ≡ panicked
      no_candles c pair = refl
