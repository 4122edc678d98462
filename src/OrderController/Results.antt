-- ===== src/OrderController/Results.antt =====
-- The summary of order/controller.go: its cache and its totals.
use ninjabot.Prelude.{
  suc, ◌+◌, ◌≡◌, refl, sym, ap, ◌∙◌, true, List, [], ◌∷◌, ◌++◌, length, arith, Bool-cases, inl, inr,
  length-append,
}
use ninjabot.Float.{Float64, ◌⊕◌, ◌≤?◌, lit}
use ninjabot.Float.Laws.{IsExact, add_right_comm}
use ninjabot.Model.Order.{SideType, is_buy}
use ninjabot.OrderController.Summary.{
  Summary, rebuild_cache, refresh, wins, losses, trades, sum_from, profit, record_result,
}

module _ {V : Type 0} where
  -- A cache that is marked as valid holds what it would be rebuilt to.
  pub IsCoherent : Summary V → Type 0
  IsCoherent s =
      s.cache_valid ≡ true
      → (s.cached_win ≡ s.win_long ++ s.win_short)
        × (s.cached_win_percent ≡ s.win_long_percent ++ s.win_short_percent)
        × (s.cached_lose ≡ s.lose_long ++ s.lose_short)
        × (s.cached_lose_percent ≡ s.lose_long_percent ++ s.lose_short_percent)

  pub refresh-IsCoherent : (s : Summary V) → IsCoherent s → IsCoherent (refresh s)
  unfolding refresh rebuild_cache IsCoherent
  refresh-IsCoherent s h = elim (Bool-cases s.cache_valid) [
    | inl e ↦ rw e (λ v. h e)
    | inr e ↦ rw e (λ v. (refl, refl, refl, refl))
  ]

  wins-lists : (s : Summary V) → IsCoherent s → wins s ≡ s.win_long ++ s.win_short
  unfolding refresh rebuild_cache IsCoherent
  wins-lists s h = elim (Bool-cases s.cache_valid) [ inl e ↦ rw e ((h e).0) | inr e ↦ rw e ]

  losses-lists : (s : Summary V) → IsCoherent s → losses s ≡ s.lose_long ++ s.lose_short
  unfolding refresh rebuild_cache IsCoherent
  losses-lists s h = elim (Bool-cases s.cache_valid) [ inl e ↦ rw e ((h e).2) | inr e ↦ rw e ]

  length-four :
      (a b c d : List V)
      → length (a ++ b) + length (c ++ d) ≡ length a + length b + length c + length d
  length-four a b c d = omega (arith, length-append a b, length-append c d)

  length-snoc : (xs : List V) (v : V) → length (xs ++ v ∷ []) ≡ suc (length xs)
  length-snoc xs v = omega (arith, length-append xs (v ∷ []))

module _ {V : Type 0} ⦃fl : Float64 V⦄ where
  pub record_result-IsCoherent :
      (side : SideType) (percent value : V) (s : Summary V)
      → IsCoherent (record_result side percent value s)
  unfolding record_result IsCoherent
  record_result-IsCoherent side percent value s = elim (Bool-cases (lit 0 ≤? percent)) [
    | inl e ↦ elim (Bool-cases (is_buy side)) [
      | inl f ↦ rw (e, f) (λ v. cc)
      | inr f ↦ rw (e, f) (λ v. cc)
    ]
    | inr e ↦ elim (Bool-cases (is_buy side)) [
      | inl f ↦ rw (e, f) (λ v. cc)
      | inr f ↦ rw (e, f) (λ v. cc)
    ]
  ]

  -- The sum of four lists, in the sequence of Profit.
  sum_four : List V → List V → List V → List V → V
  sum_four a b c d = sum_from (sum_from (sum_from (sum_from (lit 0) a) b) c) d

  sum_from-append : (xs ys : List V) (v : V) → sum_from v (xs ++ ys) ≡ sum_from (sum_from v xs) ys
  unfolding sum_from
  sum_from-append [] ys v = refl
  sum_from-append (x ∷ xs) ys v = sum_from-append xs ys (v ⊕ x)

  sum_from-snoc : (xs : List V) (x v : V) → sum_from v (xs ++ x ∷ []) ≡ sum_from v xs ⊕ x
  unfolding sum_from
  sum_from-snoc [] x v = refl
  sum_from-snoc (y ∷ xs) x v = sum_from-snoc xs x (v ⊕ y)

  profit-sum_four :
      (s : Summary V)
      → IsCoherent s
      → profit s ≡ sum_four s.win_long s.win_short s.lose_long s.lose_short
  unfolding profit sum_four
  profit-sum_four s h =
      ap (sum_from (lit 0)) (ap (λ t. t ++ losses s) (wins-lists s h))
      ∙ ap (λ t. sum_from (lit 0) ((s.win_long ++ s.win_short) ++ t)) (losses-lists s h)
      ∙ sum_from-append (s.win_long ++ s.win_short) (s.lose_long ++ s.lose_short) (lit 0)
      ∙ ap (λ t. sum_from t (s.lose_long ++ s.lose_short))
          (sum_from-append s.win_long s.win_short (lit 0))
      ∙ sum_from-append s.lose_long s.lose_short _

  trades-lengths :
      (s : Summary V)
      → IsCoherent s
      → trades s ≡ length s.win_long + length s.win_short + length s.lose_long + length s.lose_short
  trades-lengths s h =
      ap (λ t. length t + length (losses s)) (wins-lists s h)
      ∙ ap (λ t. length (s.win_long ++ s.win_short) + length t) (losses-lists s h)
      ∙ length-four s.win_long s.win_short s.lose_long s.lose_short

module _ {V : Type 0} ⦃fl : Float64 V⦄ (x : IsExact fl) where
  sum_from-add : (xs : List V) (v u : V) → sum_from (v ⊕ u) xs ≡ sum_from v xs ⊕ u
  unfolding sum_from
  sum_from-add [] v u = refl
  sum_from-add (y ∷ xs) v u =
      ap (λ t. sum_from t xs) (add_right_comm x v u y) ∙ sum_from-add xs (v ⊕ y) u

  sum_four-a : (a b c d : List V) (v : V) → sum_four (a ++ v ∷ []) b c d ≡ sum_four a b c d ⊕ v
  unfolding sum_four
  sum_four-a a b c d v =
      ap (λ t. sum_from (sum_from (sum_from t b) c) d) (sum_from-snoc a v (lit 0))
      ∙ ap (λ t. sum_from (sum_from t c) d) (sum_from-add b _ v)
      ∙ ap (λ t. sum_from t d) (sum_from-add c _ v)
      ∙ sum_from-add d _ v

  sum_four-b : (a b c d : List V) (v : V) → sum_four a (b ++ v ∷ []) c d ≡ sum_four a b c d ⊕ v
  unfolding sum_four
  sum_four-b a b c d v =
      ap (λ t. sum_from (sum_from t c) d) (sum_from-snoc b v _)
      ∙ ap (λ t. sum_from t d) (sum_from-add c _ v)
      ∙ sum_from-add d _ v

  sum_four-c : (a b c d : List V) (v : V) → sum_four a b (c ++ v ∷ []) d ≡ sum_four a b c d ⊕ v
  unfolding sum_four
  sum_four-c a b c d v = ap (λ t. sum_from t d) (sum_from-snoc c v _) ∙ sum_from-add d _ v

  sum_four-d : (a b c d : List V) (v : V) → sum_four a b c (d ++ v ∷ []) ≡ sum_four a b c d ⊕ v
  unfolding sum_four
  sum_four-d a b c d v = sum_from-snoc d v _

  recorded-sum_four :
      (side : SideType) (percent value : V) (s : Summary V)
      → let t = record_result side percent value s in
        sum_four t.win_long t.win_short t.lose_long t.lose_short
        ≡ sum_four s.win_long s.win_short s.lose_long s.lose_short ⊕ value
  unfolding record_result
  recorded-sum_four side percent value s = elim (Bool-cases (lit 0 ≤? percent)) [
    | inl e ↦ elim (Bool-cases (is_buy side)) [
      | inl f ↦ rw (e, f) (sum_four-a s.win_long s.win_short s.lose_long s.lose_short value)
      | inr f ↦ rw (e, f) (sum_four-b s.win_long s.win_short s.lose_long s.lose_short value)
    ]
    | inr e ↦ elim (Bool-cases (is_buy side)) [
      | inl f ↦ rw (e, f) (sum_four-c s.win_long s.win_short s.lose_long s.lose_short value)
      | inr f ↦ rw (e, f) (sum_four-d s.win_long s.win_short s.lose_long s.lose_short value)
    ]
  ]

  recorded-lengths :
      (side : SideType) (percent value : V) (s : Summary V)
      → let t = record_result side percent value s in
        length t.win_long + length t.win_short + length t.lose_long + length t.lose_short
        ≡ suc (length s.win_long + length s.win_short + length s.lose_long + length s.lose_short)
  unfolding record_result
  recorded-lengths side percent value s = elim (Bool-cases (lit 0 ≤? percent)) [
    | inl e ↦ elim (Bool-cases (is_buy side)) [
      | inl f ↦ rw (e, f) (omega (arith, length-snoc s.win_long value))
      | inr f ↦ rw (e, f) (omega (arith, length-snoc s.win_short value))
    ]
    | inr e ↦ elim (Bool-cases (is_buy side)) [
      | inl f ↦ rw (e, f) (omega (arith, length-snoc s.lose_long value))
      | inr f ↦ rw (e, f) (omega (arith, length-snoc s.lose_short value))
    ]
  ]

  -- In exact arithmetic, a result that updatePosition appends to a summary, whose valid cache
  -- agrees with its lists, leaves such a summary, raises its Profit by the value of the result and
  -- its number of trades by one, whichever of the four lists the result goes to.
  pub record_result-profit :
      (side : SideType) (percent value : V) (s : Summary V)
      → IsCoherent s
      → IsCoherent (record_result side percent value s)
        × (profit (record_result side percent value s) ≡ profit s ⊕ value)
        × (trades (record_result side percent value s) ≡ suc (trades s))
  record_result-profit side percent value s h =
      let t = record_result side percent value s in
      let coherent = record_result-IsCoherent side percent value s in
      (
        coherent,
        profit-sum_four t coherent
            ∙ recorded-sum_four side percent value s
            ∙ ap (λ u. u ⊕ value) (sym (profit-sum_four s h)),
        trades-lengths t coherent
            ∙ recorded-lengths side percent value s
            ∙ ap suc (sym (trades-lengths s h)),
      )
