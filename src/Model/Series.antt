-- ===== src/Model/Series.antt =====
-- Series of model/series.go, of values with `>` and `<=`; `none` is an index out of range.
use ninjabot.Prelude.{
  ℕ, ◌-◌, Bool, true, false, List, Option, none, some, ◌>>=◌, ltb, length, get_elem?, drop,
  if◌then◌else◌,
}
use ninjabot.Float.{Float64, ◌<?◌, ◌≤?◌}

module _ {V : Type 0} where
  unfoldable pub last : List V → ℕ → Option V
  last s position = if ltb position (length s) then get_elem? s (length s - 1 - position) else none

  unfoldable pub last_values : List V → ℕ → List V
  last_values s size = if ltb size (length s) then drop (length s - size) s else s

module _ {V : Type 0} ⦃fl : Float64 V⦄ where
  -- The second comparison is made only if the first holds.
  unfoldable pub crossover : List V → List V → Option Bool
  unfolding last
  crossover s ref = last s 0 >>= λ a. last ref 0 >>= λ b.
      let before = last s 1 >>= λ c. last ref 1 >>= λ d. some (c ≤? d) in
      if b <? a then before else some false

  unfoldable pub crossunder : List V → List V → Option Bool
  unfolding last
  crossunder s ref = last s 0 >>= λ a. last ref 0 >>= λ b.
      let before = last s 1 >>= λ c. last ref 1 >>= λ d. some (d <? c) in
      if a ≤? b then before else some false

  unfoldable pub cross : List V → List V → Option Bool
  unfolding crossover crossunder
  cross s ref =
      crossover s ref >>= λ over. let under = crossunder s ref in if over then some true else under
