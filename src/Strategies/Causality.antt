-- ===== src/Strategies/Causality.antt =====
-- What fibLegs knows before a candle depends on the candles before it only.
use ninjabot.Prelude.{
  ℕ, zero, suc, ◌+◌, ◌-◌, ◌≤◌, ◌<◌, ◌≡◌, refl, sym, ◌∙◌, true, false, List, ◌∷◌, Option, none, some,
  ◌>>=◌, arith, ltb, leb, length, get_elem?, if◌then◌else◌, Bool-cases, inl, inr,
}
use ninjabot.Float.{Float64, ◌<?◌}
use ninjabot.Strategies.Fibonacci.{
  FibLeg, Legs, no_leg, lowest_from, is_pivot_low, end_leg, end_pivot, extend, raise, start_leg,
  confirm, leg_round, legs_from, fib_legs,
}
use ninjabot.Strategies.Totality.{
  IsBehind, get_elem?-some, end_pivot-some, leg_round-some, fib_legs-some,
}

module _ {V : Type 0} where
  -- The first `m` values of two columns are the same.
  pub record AgreeTo (m : ℕ) (a b : List V) : Type 0 where
    pub left : m ≤ length a
    pub right : m ≤ length b
    pub same : (i : ℕ) → i < m → get_elem? a i ≡ get_elem? b i

module _ {V : Type 0} ⦃fl : Float64 V⦄ where
  lowest_from-agree :
      (m : ℕ) (a b : List V)
      → AgreeTo m a b
      → (j : ℕ) (l : V) (n k : ℕ) → k + n ≤ m
      → lowest_from a j l n k ≡ lowest_from b j l n k
  unfolding lowest_from
  lowest_from-agree m a b v j l zero k h = refl
  lowest_from-agree m a b v j l (suc n) k h =
      rw (v.same k (omega arith), lowest_from-agree m a b v j l n (suc k) (omega arith))

  raise-agree :
      (m : ℕ) (a b : List V)
      → AgreeTo m a b
      → (n k : ℕ) (cur : FibLeg V) → k + n ≤ m
      → raise a n k cur ≡ raise b n k cur
  unfolding raise
  raise-agree m a b v zero k cur h = refl
  raise-agree m a b v (suc n) k cur h =
      rw (v.same k (omega arith))
        (continue (λ x. raise-agree m a b v n (suc k) (raised x) (omega arith)) (get_elem? b k))
    where
      raised : V → FibLeg V
      raised x = if cur.high <? x then record cur { high_idx = k; high = x } else cur

      continue :
          ((x : V) → raise a n (suc k) (raised x) ≡ raise b n (suc k) (raised x))
          → (o : Option V)
          → (o >>= λ x. raise a n (suc k) (raised x)) ≡ (o >>= λ x. raise b n (suc k) (raised x))
      continue same none = refl
      continue same (some x) = same x

  module _ (m : ℕ) (high low high' low' : List V) (pivot t : ℕ) (v : AgreeTo m high high')
      (w : AgreeTo m low low') (inside : t < m) where
    is_pivot_low-agree :
        pivot ≤ t → is_pivot_low low (t - pivot) pivot ≡ is_pivot_low low' (t - pivot) pivot
    unfolding is_pivot_low
    is_pivot_low-agree h = elim (Bool-cases (ltb (t - pivot) pivot)) [
      | inl early ↦ rw early
      | inr late ↦
          let bounded : leb (length low) (t - pivot + pivot) ≡ false = ground (arith, w.left) in
          let bounded' : leb (length low') (t - pivot + pivot) ≡ false = ground (arith, w.right) in
          rw (late, bounded, bounded', w.same (t - pivot) (omega arith))
            (continue (ground arith) (get_elem? low' (t - pivot)))
    ]
      where
        continue :
            t - pivot - pivot + suc (pivot + pivot) ≤ m
            → (o : Option V)
            → (o >>= λ l. lowest_from low (t - pivot) l (suc (pivot + pivot)) (t - pivot - pivot))
              ≡ (o >>= λ l.
                  lowest_from low' (t - pivot) l (suc (pivot + pivot)) (t - pivot - pivot))
        continue f none = refl
        continue f (some l) = lowest_from-agree m low low' w (t - pivot) l _ _ f

    start_leg-agree : (j : ℕ) → j ≤ t → start_leg high low j t ≡ start_leg high' low' j t
    unfolding start_leg
    start_leg-agree j h =
        rw (v.same j (omega arith), w.same j (omega arith))
          (continue (get_elem? low' j) (get_elem? high' j))
      where
        continue :
            (p q : Option V)
            → (p >>= λ l. q >>= λ x.
                raise high
                  (t - j)
                  (suc j)
                  (record { ok = true; low_idx = j; high_idx = j; low = l; high = x }))
              ≡ (p >>= λ l. q >>= λ x.
                  raise high'
                    (t - j)
                    (suc j)
                    (record { ok = true; low_idx = j; high_idx = j; low = l; high = x }))
        continue none q = refl
        continue (some l) none = refl
        continue (some l) (some x) = raise-agree m high high' v (t - j) (suc j) _ (omega arith)

    confirm-agree : (s : Legs V) → confirm high low pivot t s ≡ confirm high' low' pivot t s
    unfolding confirm
    confirm-agree s = elim (Bool-cases (ltb t pivot)) [
      | inl early ↦ rw early
      | inr late ↦
          rw (late, is_pivot_low-agree (ground arith), start_leg-agree (t - pivot) (omega arith))
    ]

    end_pivot-agree : (l : V) (p : Option ℕ) → IsBehind t p → end_pivot low l p ≡ end_pivot low' l p
    end_pivot-agree l none h = refl
    end_pivot-agree l (some p) h = rw (w.same p (omega arith))

    extend-agree :
        (h : V) (p : Option ℕ) (cur : FibLeg V)
        → IsBehind t p
        → extend low t h p cur ≡ extend low' t h p cur
    extend-agree h none cur b = refl
    extend-agree h (some p) cur b = rw (w.same p (omega arith))

    leg_round-agree :
        (s : Legs V)
        → IsBehind t s.last_pivot
        → leg_round high low pivot t s ≡ leg_round high' low' pivot t s
    unfolding leg_round
    leg_round-agree s behind =
        let (h, high_there) = get_elem?-some high' t (omega (arith, v.right)) in
        let (l, low_there) = get_elem?-some low' t (omega (arith, w.right)) in
        let (p, ended, p_behind) =
          end_pivot-some high' low' pivot t (omega (arith, v.right)) (omega (arith, w.right)) l
            s.last_pivot behind in
        rw
          (
            v.same t inside,
            w.same t inside,
            high_there,
            low_there,
            end_pivot-agree l s.last_pivot behind,
            ended,
            extend-agree h p (end_leg l s.cur) p_behind,
          )
          (continue p (extend low' t h p (end_leg l s.cur)))
      where
        continue :
            (p : Option ℕ) (o : Option (FibLeg V))
            → (o >>= λ cur. confirm high low pivot t (record { cur = cur; last_pivot = p }))
              ≡ (o >>= λ cur. confirm high' low' pivot t (record { cur = cur; last_pivot = p }))
        continue p none = refl
        continue p (some cur) = confirm-agree (record { cur = cur; last_pivot = p })

  -- The first round, which is known, and the rest of the list.
  legs_from-cons :
      (high low : List V) (pivot n t : ℕ) (s s' : Legs V) (r : List (FibLeg V))
      → leg_round high low pivot t s ≡ some s'
      → legs_from high low pivot (suc n) t s ≡ some r
      → (rest : List (FibLeg V)) × (legs_from high low pivot n (suc t) s' ≡ some rest)
        × (r ≡ s.cur ∷ rest)
  unfolding legs_from
  legs_from-cons high low pivot n t s s' r round ran =
      split (legs_from high low pivot n (suc t) s') refl (rw round at ran)
    where
      split :
          (o : Option (List (FibLeg V)))
          → legs_from high low pivot n (suc t) s' ≡ o
          → (o >>= λ legs. some (s.cur ∷ legs)) ≡ some r
          → (rest : List (FibLeg V)) × (legs_from high low pivot n (suc t) s' ≡ some rest)
            × (r ≡ s.cur ∷ rest)
      split none e h = cc
      split (some rest) e h = (rest, e, some_inj (sym h))
        where
          some_inj : {x y : List (FibLeg V)} → some x ≡ some y → x ≡ y
          some_inj k = cc

  -- The legs up to the first that may see a difference.
  legs_from-agree :
      (m : ℕ) (high low high' low' : List V) (pivot : ℕ)
      → AgreeTo m high high'
      → AgreeTo m low low'
      → (n n' t i : ℕ) (s : Legs V) (r r' : List (FibLeg V)) → IsBehind t s.last_pivot
      → legs_from high low pivot n t s ≡ some r
      → legs_from high' low' pivot n' t s ≡ some r'
      → t + n ≤ length high
      → t + n ≤ length low
      → t + n' ≤ length high'
      → t + n' ≤ length low'
      → t + i ≤ m
      → i < n
      → i < n'
      → get_elem? r i ≡ get_elem? r' i
  legs_from-agree m high low high' low' pivot v w zero n' t i s r r' behind ran ran' a b c d h k
        k' =
      elim k [ ]
  legs_from-agree m high low high' low' pivot v w (suc n) zero t i s r r' behind ran ran' a b c d h
        k k' =
      elim k' [ ]
  legs_from-agree m high low high' low' pivot v w (suc n) (suc n') t zero s r r' behind ran ran' a b
        c d h k k' =
      let (s1, round, behind1) =
        leg_round-some high low pivot t (omega arith) (omega arith) s behind in
      let (s2, round', behind2) =
        leg_round-some high' low' pivot t (omega arith) (omega arith) s behind in
      let (rest, ran1, e) = legs_from-cons high low pivot n t s s1 r round ran in
      let (rest', ran2, e') = legs_from-cons high' low' pivot n' t s s2 r' round' ran' in rw (e, e')
  legs_from-agree m high low high' low' pivot v w (suc n) (suc n') t (suc i) s r r' behind ran ran'
        a b c d h k k' =
      let (s1, round, behind1) =
        leg_round-some high low pivot t (omega arith) (omega arith) s behind in
      let round' =
        sym (leg_round-agree m high low high' low' pivot t v w (omega arith) s behind) ∙ round in
      let (rest, ran1, e) = legs_from-cons high low pivot n t s s1 r round ran in
      let (rest', ran2, e') = legs_from-cons high' low' pivot n' t s s1 r' round' ran' in
      rw (e, e')
        (legs_from-agree m high low high' low' pivot v w n n' (suc t) i s1 rest rest' behind1 ran1
          ran2 (omega arith) (omega arith) (omega arith) (omega arith) (omega arith) (omega arith)
          (omega arith))

  -- On columns of one length fibLegs does not panic and has a leg for each candle; and if the columns
  -- of two dataframes agree before candle `m`, then so do their legs up to that of candle `m`: the
  -- leg before a candle is known from the candles before it.
  pub fib_legs-agree :
      (high low high' low' : List V) (pivot m : ℕ)
      → length high ≡ length low
      → length high' ≡ length low'
      → AgreeTo m high high'
      → AgreeTo m low low'
      → (r : List (FibLeg V)) × (r' : List (FibLeg V)) × (fib_legs high low pivot ≡ some r)
        × (fib_legs high' low' pivot ≡ some r')
        × (length r ≡ length high)
        × ((i : ℕ) → i ≤ m → i < length high → i < length high' → get_elem? r i ≡ get_elem? r' i)
  unfolding fib_legs
  fib_legs-agree high low high' low' pivot m e e' v w =
      let (r, ran, size) = fib_legs-some high low pivot e in
      let (r', ran', size') = fib_legs-some high' low' pivot e' in
      (
        r,
        r',
        ran,
        ran',
        size,
        λ i h k k'.
            legs_from-agree m high low high' low' pivot v w (length high) (length high') 0 i
              (record { cur = no_leg; last_pivot = none }) r r' tt ran ran' (omega arith)
              (omega (arith, e)) (omega arith) (omega (arith, e')) (omega arith) k k',
      )
