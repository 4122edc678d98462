-- ===== src/Tests/Legs.antt =====
-- The theorem on the legs of the Fibonacci strategy at two series that part at the fourth candle.
use ninjabot.Prelude.{
  ℕ, zero, suc, ◌≤◌, ◌<◌, ◌≡◌, refl, List, [], ◌∷◌, some, length, get_elem?, arith,
}
use ninjabot.Prelude.Int.{ℤ, pos}
use ninjabot.Float.Integers.{integers}
use ninjabot.Strategies.Fibonacci.{FibLeg, fib_legs}
use ninjabot.Strategies.Causality.{AgreeTo, fib_legs-agree}

abbrev highs : ℕ → List ℤ
highs x = pos 9 ∷ pos 7 ∷ pos 8 ∷ pos x ∷ []

abbrev lows : ℕ → List ℤ
lows x = pos 5 ∷ pos 3 ∷ pos 4 ∷ pos x ∷ []

part_ways : (a b c x y : ℤ) → AgreeTo 3 (a ∷ b ∷ c ∷ x ∷ []) (a ∷ b ∷ c ∷ y ∷ [])
part_ways a b c x y = record { left = omega arith; right = omega arith; same = agree }
  where
    agree : (i : ℕ) → i < 3 → get_elem? (a ∷ b ∷ c ∷ x ∷ []) i ≡ get_elem? (a ∷ b ∷ c ∷ y ∷ []) i
    agree zero h = refl
    agree (suc zero) h = refl
    agree (suc (suc zero)) h = refl
    agree (suc (suc (suc i))) h = absurd (omega arith)

fib_legs-agree_example :
    (r : List (FibLeg ℤ)) × (r' : List (FibLeg ℤ)) × (fib_legs (highs 12) (lows 6) 1 ≡ some r)
    × (fib_legs (highs 8) (lows 1) 1 ≡ some r')
    × (length r ≡ length (highs 12))
    × ((i : ℕ)
        → i ≤ 3
        → i < length (highs 12)
        → i < length (highs 8)
        → get_elem? r i ≡ get_elem? r' i)
fib_legs-agree_example =
    fib_legs-agree (highs 12) (lows 6) (highs 8) (lows 1) 1 3 refl refl
      (part_ways (pos 9) (pos 7) (pos 8) (pos 12) (pos 8))
      (part_ways (pos 5) (pos 3) (pos 4) (pos 6) (pos 1))
