-- ===== src/Strategies/Fibonacci.antt =====
-- strategy/strategies/fibonacci.go: the up-legs between swing points and the decision to buy. The
-- columns `high` and `low` have the same length, as those of every dataframe; `none` is a panic. The
-- retracement of the stop, 0.786, is a parameter.
use ninjabot.Prelude.{
  ℕ, zero, suc, ◌+◌, ◌-◌, Bool, true, false, not, ◌&&◌, ◌||◌, List, [], ◌∷◌, Option, none, some,
  ◌>>=◌, ltb, leb, length, get_elem?, if◌then◌else◌,
}
use ninjabot.Float.{Float64, ◌⊖◌, ◌⊗◌, ◌<?◌, ◌≤?◌, lit}

pub record FibLeg (V : Type 0) : Type 0 where
  pub ok : Bool
  pub low_idx : ℕ
  pub high_idx : ℕ
  pub low : V
  pub high : V

-- The variables of the loop of fibLegs: `lastPivot` is none for -1.
pub record Legs (V : Type 0) : Type 0 where
  pub cur : FibLeg V
  pub last_pivot : Option ℕ

-- `lastPivot < j`
abbrev pub is_newer : ℕ → Option ℕ → Bool
is_newer j none = true
is_newer j (some p) = ltb p j

module _ {V : Type 0} ⦃fl : Float64 V⦄ where
  abbrev pub no_leg : FibLeg V
  no_leg = record { ok = false; low_idx = 0; high_idx = 0; low = lit 0; high = lit 0 }

  -- The loop of isPivotLow over `n` candles from `k` on.
  unfoldable pub lowest_from : List V → ℕ → V → ℕ → ℕ → Option Bool
  lowest_from low j l zero k = some true
  lowest_from low j l (suc n) k =
      let rest = lowest_from low j l n (suc k) in
      get_elem? low k >>= λ v.
      if (ltb k j && (v ≤? l)) || (ltb j k && (v <? l)) then some false else rest

  unfoldable pub is_pivot_low : List V → ℕ → ℕ → Option Bool
  unfolding lowest_from
  is_pivot_low low j pivot =
      let checked =
        get_elem? low j >>= λ l. lowest_from low j l (suc (pivot + pivot)) (j - pivot) in
      if ltb j pivot
      then some false
      else if leb (length low) (j + pivot)
      then some false
      else checked

  -- The end of a leg, and of a pivot, by a lower low.
  abbrev pub end_leg : V → FibLeg V → FibLeg V
  end_leg l cur = if cur.ok && (l <? cur.low) then no_leg else cur

  abbrev pub end_pivot : List V → V → Option ℕ → Option (Option ℕ)
  end_pivot low l none = some none
  end_pivot low l (some p) = get_elem? low p >>= λ v. some (if l <? v then none else some p)

  -- A new high, which re-anchors the leg to a pivot after the old high.
  abbrev pub anchor : List V → FibLeg V → Option ℕ → Option (FibLeg V)
  anchor low cur none = some cur
  anchor low cur (some p) =
      let moved = get_elem? low p >>= λ v. some (record cur { low_idx = p; low = v }) in
      if ltb cur.high_idx p then moved else some cur

  abbrev pub extend : List V → ℕ → V → Option ℕ → FibLeg V → Option (FibLeg V)
  extend low t h pivot cur =
      let extended = anchor low cur pivot >>= λ leg. some (record leg { high_idx = t; high = h }) in
      if cur.ok && (cur.high <? h) then extended else some cur

  -- The loop that looks for the highest of `n` candles from `k` on.
  unfoldable pub raise : List V → ℕ → ℕ → FibLeg V → Option (FibLeg V)
  raise high zero k cur = some cur
  raise high (suc n) k cur = get_elem? high k >>= λ h.
      raise high n (suc k) (if cur.high <? h then record cur { high_idx = k; high = h } else cur)

  -- A leg from the pivot `j` to the highest high up to `t`.
  unfoldable pub start_leg : List V → List V → ℕ → ℕ → Option (FibLeg V)
  unfolding raise
  start_leg high low j t = get_elem? low j >>= λ l. get_elem? high j >>= λ h.
      raise high (t - j) (suc j)
        (record { ok = true; low_idx = j; high_idx = j; low = l; high = h })

  -- A pivot that is confirmed at `t`.
  unfoldable pub confirm : List V → List V → ℕ → ℕ → Legs V → Option (Legs V)
  unfolding is_pivot_low start_leg
  confirm high low pivot t s =
      let j = t - pivot in
      let kept : Option (Legs V) = some (record s { last_pivot = some j }) in
      let begun =
        start_leg high low j t >>= λ leg. some (record { cur = leg; last_pivot = some j }) in
      let found = is_pivot_low low j pivot >>= λ b.
      if not b || not (is_newer j s.last_pivot) then some s else if s.cur.ok then kept else begun in
      if ltb t pivot then some s else found

  -- A round of the loop of fibLegs.
  unfoldable pub leg_round : List V → List V → ℕ → ℕ → Legs V → Option (Legs V)
  unfolding confirm
  leg_round high low pivot t s = get_elem? high t >>= λ h. get_elem? low t >>= λ l.
      end_pivot low l s.last_pivot >>= λ p. extend low t h p (end_leg l s.cur) >>= λ cur.
      confirm high low pivot t (record { cur = cur; last_pivot = p })

  unfoldable pub legs_from : List V → List V → ℕ → ℕ → ℕ → Legs V → Option (List (FibLeg V))
  unfolding leg_round
  legs_from high low pivot zero t s = some []
  legs_from high low pivot (suc n) t s = leg_round high low pivot t s >>= λ s'.
      legs_from high low pivot n (suc t) s' >>= λ legs. some (s.cur ∷ legs)

  unfoldable pub fib_legs : List V → List V → ℕ → Option (List (FibLeg V))
  unfolding legs_from
  fib_legs high low pivot =
      legs_from high low pivot (length high) 0 (record { cur = no_leg; last_pivot = none })

  unfoldable pub fib_level : V → V → V → V
  fib_level swing_low swing_high ratio = swing_high ⊖ (swing_high ⊖ swing_low) ⊗ ratio

  unfoldable pub tradable : FibLeg V → V → Bool
  tradable leg atr = leg.ok && (lit 0 <? atr) && (lit 3 ⊗ atr ≤? leg.high ⊖ leg.low)
