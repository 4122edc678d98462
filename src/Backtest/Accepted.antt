-- ===== src/Backtest/Accepted.antt =====
-- A request that HandleBacktest accepts has parameters in their ranges.
use ninjabot.Prelude.{
  ℕ, ◌≤◌, ◌≡◌, refl, subst, String, true, false, not, ◌&&◌, ◌||◌, some, str_eq, arith, Bool-cases,
  Option-cases, inl, inr, if◌then◌else◌,
}
use ninjabot.Prelude.Int.{ℤ, pos, ltb_ℤ, leb_ℤ, ◌≤ℤ◌}
use ninjabot.Float.{Float64, ◌≤?◌, ◌=?◌, lit}
use ninjabot.Backtest.Request.{
  BacktestRequest, positive_or, timeframe_of, with_defaults, check_ema, check_dca, check_fib,
  normalise,
}

positive_or-le : (default : ℕ) (n : ℤ) → 1 ≤ default → pos 1 ≤ℤ positive_or default n
positive_or-le default n h = ground arith

timeframe_of-nonempty :
    (strategy timeframe : String) → str_eq (timeframe_of strategy timeframe) "" ≡ false
unfolding timeframe_of
timeframe_of-nonempty strategy timeframe =
    elim (Bool-cases (str_eq strategy "ocosell" || str_eq strategy "dca")) [
      | inl e ↦ rw e refl
      | inr e ↦
          elim (Bool-cases (
            str_eq strategy "trailingstop"
            || str_eq strategy "turtle"
            || str_eq strategy "fibonacci")) [
              | inl f ↦ rw (e, f) refl
              | inr f ↦ elim (Bool-cases (str_eq timeframe "")) [
                | inl g ↦ rw (e, f, g) refl
                | inr g ↦ rw (e, f, g) g
              ]
            ]
    ]

module _ {V : Type 0} ⦃fl : Float64 V⦄ where
  -- A history of at least a day on a known timeframe, and the ranges of the strategy's parameters.
  pub record IsNormal (r : BacktestRequest V) : Type 0 where
    pub days : pos 1 ≤ℤ r.days
    pub timeframe : str_eq r.timeframe "" ≡ false
    pub ema :
        str_eq r.strategy "emacross" ≡ true
        → (pos 1 ≤ℤ r.fast_period) × (ltb_ℤ r.fast_period r.slow_period ≡ true)
    pub dca : str_eq r.strategy "dca" ≡ true → pos 1 ≤ℤ r.dca_interval
    pub fib :
        str_eq r.strategy "fibonacci" ≡ true → (pos 2 ≤ℤ r.fib_pivot) × (r.fib_pivot ≤ℤ pos 10)

  -- Each check either leaves the request alone, or sets parameters in their range.
  abbrev EmaFits : BacktestRequest V → Type 0
  EmaFits r =
      str_eq r.strategy "emacross" ≡ true
      → (pos 1 ≤ℤ r.fast_period) × (ltb_ℤ r.fast_period r.slow_period ≡ true)

  abbrev DcaFits : BacktestRequest V → Type 0
  DcaFits r = str_eq r.strategy "dca" ≡ true → pos 1 ≤ℤ r.dca_interval

  abbrev Dated : BacktestRequest V → Type 0
  Dated r = (pos 1 ≤ℤ r.days) × (str_eq r.timeframe "" ≡ false)

  some_inj : {x y : BacktestRequest V} → some x ≡ some y → x ≡ y
  some_inj h = cc

  with_defaults-Dated : (q : BacktestRequest V) → Dated (with_defaults q)
  unfolding with_defaults
  with_defaults-Dated q = (
    positive_or-le 30 q.days (omega arith),
    timeframe_of-nonempty (if str_eq q.strategy "" then "emacross" else q.strategy) q.timeframe,
  )

  check_ema-Fits : (q r : BacktestRequest V) → Dated q → check_ema q ≡ some r → Dated r × EmaFits r
  unfolding check_ema
  check_ema-Fits q r v h = elim (Bool-cases (str_eq q.strategy "emacross")) [
    | inr other ↦ subst (λ x. Dated x × EmaFits x) (some_inj (rw other at h)) (v, λ e. absurd cc)
    | inl ema ↦
        elim (Bool-cases (leb_ℤ (positive_or 21 q.slow_period) (positive_or 8 q.fast_period))) [
          | inl wide ↦ absurd (ground (arith, rw (ema, wide) at h))
          | inr narrow ↦
              subst (λ x. Dated x × EmaFits x) (some_inj (rw (ema, narrow) at h))
                (v, λ e. (positive_or-le 8 q.fast_period (omega arith), ground (arith, narrow)))
        ]
  ]

  check_dca-Fits :
      (q : BacktestRequest V)
      → Dated q × EmaFits q
      → Dated (check_dca q) × EmaFits (check_dca q) × DcaFits (check_dca q)
  unfolding check_dca
  check_dca-Fits q (v, w) = elim (Bool-cases (str_eq q.strategy "dca")) [
    | inr other ↦ rw other (v, w, λ e. absurd cc)
    | inl dca ↦ rw dca (v, w, λ e. positive_or-le 7 q.dca_interval (omega arith))
  ]

  module _ (half golden : V) where
    check_fib-IsNormal :
        (q r : BacktestRequest V)
        → Dated q × EmaFits q × DcaFits q
        → check_fib half golden q ≡ some r
        → IsNormal r
    unfolding check_fib
    check_fib-IsNormal q r ((days, timeframe), w, d) h =
        let pivot = positive_or 5 q.fib_pivot in
        let level = if q.fib_level ≤? lit 0 then golden else q.fib_level in
        elim (Bool-cases (str_eq q.strategy "fibonacci")) [
          | inr other ↦ subst IsNormal (some_inj (rw other at h)) (record {
            days = days;
            timeframe = timeframe;
            ema = w;
            dca = d;
            fib = λ e. absurd cc;
          })
          | inl fib ↦ elim (Bool-cases (ltb_ℤ pivot (pos 2) || ltb_ℤ (pos 10) pivot)) [
            | inl outside ↦ absurd (ground (arith, rw (fib, outside) at h))
            | inr inside ↦ elim (Bool-cases (not (level =? half) && not (level =? golden))) [
              | inl unknown ↦ absurd (ground (arith, rw (fib, inside, unknown) at h))
              | inr known ↦ subst IsNormal (some_inj (rw (fib, inside, known) at h)) (record {
                days = days;
                timeframe = timeframe;
                ema = w;
                dca = d;
                fib = λ e. ground (arith, inside);
              })
            ]
          ]
        ]

    -- A request that HandleBacktest accepts asks for a day of history or more on a timeframe that is
    -- not empty; an EMA cross has a positive fast period below the slow one, DCA a positive interval,
    -- and Fibonacci a pivot of 2 to 10 candles.
    pub normalise-IsNormal :
        (req r : BacktestRequest V) → normalise half golden req ≡ some r → IsNormal r
    unfolding normalise
    normalise-IsNormal req r h = elim (Option-cases (check_ema (with_defaults req))) [
      | inl refused ↦ absurd (ground (arith, rw refused at h))
      | inr (q, passed) ↦
          check_fib-IsNormal (check_dca q) r
            (check_dca-Fits q
              (check_ema-Fits (with_defaults req) q (with_defaults-Dated req) passed))
            (rw passed at h)
    ]
