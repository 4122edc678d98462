-- ===== src/Strategies/Totality.antt =====
-- fibLegs of strategy/strategies/fibonacci.go does not panic.
use ninjabot.Prelude.{
  ℕ, zero, suc, ◌+◌, ◌-◌, ◌≤◌, ◌<◌, ◌≡◌, refl, ap, Bool, true, false, not, ◌&&◌, ◌||◌, List, [],
  ◌∷◌, Option, none, some, arith, ltb, leb, length, get_elem?, if◌then◌else◌, Bool-cases, inl, inr,
}
use ninjabot.Float.{Float64, ◌<?◌, ◌≤?◌}
use ninjabot.Strategies.Fibonacci.{
  FibLeg, Legs, no_leg, lowest_from, is_pivot_low, end_leg, end_pivot, anchor, extend, raise,
  start_leg, is_newer, confirm, leg_round, legs_from, fib_legs,
}

pub get_elem?-some :
    {A : Type 0} (a : List A) (i : ℕ) → i < length a → (x : A) × (get_elem? a i ≡ some x)
get_elem?-some [] i h = elim h [ ]
get_elem?-some (x ∷ a) zero h = (x, refl)
get_elem?-some (x ∷ a) (suc i) h = get_elem?-some a i (omega arith)

-- A pivot is a candle before `t`.
abbrev pub IsBehind : ℕ → Option ℕ → Type 0
IsBehind t none = Unit {0}
IsBehind t (some p) = p < t

module _ {V : Type 0} ⦃fl : Float64 V⦄ where
  -- The loops read candles up to `t` only, which are there.
  lowest_from-some :
      (low : List V) (j : ℕ) (l : V) (n k : ℕ)
      → k + n ≤ length low
      → (b : Bool) × (lowest_from low j l n k ≡ some b)
  unfolding lowest_from
  lowest_from-some low j l zero k h = (true, refl)
  lowest_from-some low j l (suc n) k h =
      let (v, there) = get_elem?-some low k (omega arith) in
      let (b, rest) = lowest_from-some low j l n (suc k) (omega arith) in
      elim (Bool-cases ((ltb k j && (v ≤? l)) || (ltb j k && (v <? l)))) [
        | inl lower ↦ (false, rw (there, lower))
        | inr higher ↦ (b, rw (there, higher) rest)
      ]

  raise-some :
      (high : List V) (n k : ℕ) (cur : FibLeg V)
      → k + n ≤ length high
      → (leg : FibLeg V) × (raise high n k cur ≡ some leg)
  unfolding raise
  raise-some high zero k cur h = (cur, refl)
  raise-some high (suc n) k cur h =
      let (v, there) = get_elem?-some high k (omega arith) in
      let (leg, rest) =
        raise-some high n (suc k)
          (if cur.high <? v then record cur { high_idx = k; high = v } else cur) (omega arith) in
      (leg, rw there rest)

  module _ (high low : List V) (pivot t : ℕ) (in_high : t < length high)
      (in_low : t < length low) where
    is_pivot_low-some : pivot ≤ t → (b : Bool) × (is_pivot_low low (t - pivot) pivot ≡ some b)
    unfolding is_pivot_low
    is_pivot_low-some h =
        let (l, there) = get_elem?-some low (t - pivot) (omega arith) in
        elim (Bool-cases (ltb (t - pivot) pivot)) [
          | inl early ↦ (false, rw early)
          | inr late ↦
              let inside : leb (length low) (t - pivot + pivot) ≡ false = ground arith in
              let (b, checked) =
                lowest_from-some low (t - pivot) l (suc (pivot + pivot)) (t - pivot - pivot)
                  (ground arith) in
              (b, rw (late, inside, there) checked)
        ]

    start_leg-some : (j : ℕ) → j ≤ t → (leg : FibLeg V) × (start_leg high low j t ≡ some leg)
    unfolding start_leg
    start_leg-some j h =
        let (l, low_there) = get_elem?-some low j (omega arith) in
        let (v, high_there) = get_elem?-some high j (omega arith) in
        let (leg, raised) =
          raise-some high (t - j) (suc j)
            (record { ok = true; low_idx = j; high_idx = j; low = l; high = v }) (omega arith) in
        (leg, rw (low_there, high_there) raised)

    confirm-some :
        (s : Legs V)
        → IsBehind (suc t) s.last_pivot
        → (s' : Legs V) × (confirm high low pivot t s ≡ some s') × IsBehind (suc t) s'.last_pivot
    unfolding confirm
    confirm-some s behind = elim (Bool-cases (ltb t pivot)) [
      | inl early ↦ (s, rw early, behind)
      | inr late ↦
          let (b, checked) = is_pivot_low-some (ground arith) in
          let (leg, begun) = start_leg-some (t - pivot) (omega arith) in
          elim (Bool-cases (not b || not (is_newer (t - pivot) s.last_pivot))) [
            | inl other ↦ (s, rw (late, checked, other), behind)
            | inr newer ↦ elim (Bool-cases s.cur.ok) [
              | inl going ↦ (
                record s { last_pivot = some (t - pivot) },
                rw (late, checked, newer, going),
                omega arith,
              )
              | inr none_yet ↦ (
                record { cur = leg; last_pivot = some (t - pivot) },
                rw (late, checked, newer, none_yet, begun),
                omega arith,
              )
            ]
          ]
    ]

    pub end_pivot-some :
        (l : V) (p : Option ℕ)
        → IsBehind t p
        → (q : Option ℕ) × (end_pivot low l p ≡ some q) × IsBehind t q
    end_pivot-some l none behind = (none, refl, tt)
    end_pivot-some l (some p) behind =
        let (v, there) = get_elem?-some low p (omega arith) in
        elim (Bool-cases (l <? v)) [
          | inl lower ↦ (none, rw (there, lower), tt)
          | inr higher ↦ (some p, rw (there, higher), behind)
        ]

    anchor-some :
        (cur : FibLeg V) (p : Option ℕ)
        → IsBehind t p
        → (leg : FibLeg V) × (anchor low cur p ≡ some leg)
    anchor-some cur none behind = (cur, refl)
    anchor-some cur (some p) behind =
        let (v, there) = get_elem?-some low p (omega arith) in
        elim (Bool-cases (ltb cur.high_idx p)) [
          | inl later ↦ (record cur { low_idx = p; low = v }, rw (later, there))
          | inr sooner ↦ (cur, rw sooner)
        ]

    extend-some :
        (h : V) (p : Option ℕ) (cur : FibLeg V)
        → IsBehind t p
        → (leg : FibLeg V) × (extend low t h p cur ≡ some leg)
    extend-some h p cur behind =
        let (leg, anchored) = anchor-some cur p behind in
        elim (Bool-cases (cur.ok && (cur.high <? h))) [
          | inl higher ↦ (record leg { high_idx = t; high = h }, rw (higher, anchored))
          | inr lower ↦ (cur, rw lower)
        ]

    IsBehind-suc : (p : Option ℕ) → IsBehind t p → IsBehind (suc t) p
    IsBehind-suc none h = tt
    IsBehind-suc (some p) h = omega arith

    pub leg_round-some :
        (s : Legs V)
        → IsBehind t s.last_pivot
        → (s' : Legs V) × (leg_round high low pivot t s ≡ some s') × IsBehind (suc t) s'.last_pivot
    unfolding leg_round
    leg_round-some s behind =
        let (h, high_there) = get_elem?-some high t in_high in
        let (l, low_there) = get_elem?-some low t in_low in
        let (p, ended, p_behind) = end_pivot-some l s.last_pivot behind in
        let (cur, extended) = extend-some h p (end_leg l s.cur) p_behind in
        let (s', confirmed, s'_behind) =
          confirm-some (record { cur = cur; last_pivot = p }) (IsBehind-suc p p_behind) in
        (s', rw (high_there, low_there, ended, extended) confirmed, s'_behind)

  legs_from-some :
      (high low : List V) (pivot n t : ℕ) (s : Legs V)
      → t + n ≤ length high
      → t + n ≤ length low
      → IsBehind t s.last_pivot
      → (legs : List (FibLeg V)) × (legs_from high low pivot n t s ≡ some legs) × (length legs ≡ n)
  unfolding legs_from
  legs_from-some high low pivot zero t s a b v = ([], refl, refl)
  legs_from-some high low pivot (suc n) t s a b v =
      let (s', ran, v') = leg_round-some high low pivot t (omega arith) (omega arith) s v in
      let (legs, rest, size) =
        legs_from-some high low pivot n (suc t) s' (omega arith) (omega arith) v' in
      (s.cur ∷ legs, rw (ran, rest), ap suc size)

  -- On columns of one length fibLegs does not panic, and has a leg for each candle.
  pub fib_legs-some :
      (high low : List V) (pivot : ℕ)
      → length high ≡ length low
      → (legs : List (FibLeg V)) × (fib_legs high low pivot ≡ some legs)
        × (length legs ≡ length high)
  unfolding fib_legs
  fib_legs-some high low pivot e =
      legs_from-some high low pivot (length high) 0 (record { cur = no_leg; last_pivot = none })
        (omega arith) (omega (arith, e)) tt
