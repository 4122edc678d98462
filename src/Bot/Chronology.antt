-- ===== src/Bot/Chronology.antt =====
-- The backtest of ninjabot.go goes through the candles in the order of time.
use mathlib.Core.List.{
  Perm as Same, Pairwise, Mem, not-mem-nil, forall_mem-cons, mem-cons_of_mem, perm_middle,
}
use mathlib.Core.List.Perm
use ninjabot.Prelude.{
  ℕ, zero, suc, ◌<◌, ◌≡◌, refl, Bool, true, false, List, [], ◌∷◌, ◌++◌, Option, none, some, ◌>>=◌,
  ◌==◌, arith, length, get_elem?, inl, inr,
}
use ninjabot.Model.Candle.{Candle, less}
use ninjabot.Queue.{PriorityQueue, new_priority_queue}
use ninjabot.Queue.Operations.{IsValid, Popped, length-Same, push-IsValid}
use ninjabot.Queue.Removal.{pop-Popped}
use ninjabot.Queue.Candles.{less-IsWeakOrder}
use ninjabot.Bot.Candles.{backtest_candles, each_candle, enqueue}

Bool_eq-prop : (b c : Bool) (p q : b ≡ c) → p ≡ q
Bool_eq-prop = hlevel

module _ {V : Type 0} where
  -- No candle stands before one that is to come first.
  abbrev pub IsChronological : List (Candle V) → Type 0
  IsChronological = Pairwise (λ a b. less b a ≡ false)

  not_before :
      (a : List (Candle V)) (x : Candle V)
      → ((i : ℕ) (y : Candle V) → get_elem? a i ≡ some y → less y x ≡ false)
      → (y : Candle V) → Mem y a
      → less y x ≡ false
  not_before [] x h = λ y m. absurd (not-mem-nil m)
  not_before (c ∷ a) x h =
      (forall_mem-cons (λ y. Bool_eq-prop (less y x) false)).1
        (h 0 c refl, not_before a x (λ i y e. h (suc i) y e))

  no_items : (q : PriorityQueue (Candle V)) → IsValid less q → q.length ≡ 0 → q.items ≡ []
  no_items q v e = of_length q.items (omega (arith, v.counted))
    where
      of_length : (a : List (Candle V)) → length a ≡ 0 → a ≡ []
      of_length [] h = refl
      of_length (c ∷ a) h = absurd (omega arith)

  Popped-IsChronological :
      (q rest : PriorityQueue (Candle V)) (top : Candle V) (cs : List (Candle V))
      → Popped less q top rest
      → IsChronological cs
      → Same cs rest.items
      → IsChronological (top ∷ cs) × Same (top ∷ cs) q.items
  Popped-IsChronological q rest top cs s ordered same =
      let all = Perm.trans (Perm.cons top same) s.same in
      (
        Pairwise.cons
            (λ c m. not_before q.items top s.least c ((Perm.mem_iff all).0 (mem-cons_of_mem top m)))
            ordered,
        all,
      )

  module _ {B : Type 0} (round : Candle V → B → Option B) where
    drained :
        (k : ℕ) (q : PriorityQueue (Candle V))
        → length q.items < k
        → IsValid less q
        → (cs : List (Candle V)) × IsChronological cs
          × Same cs q.items
          × ((b : B) → backtest_candles round k q b ≡ each_candle round cs b)
    unfolding backtest_candles each_candle
    drained zero q f v = elim f [ ]
    drained (suc k) q f v = elim (pop-Popped less less-IsWeakOrder q v) [
      | inl (e, ran) ↦
          let none_left : (q.length == 0) ≡ true = ground arith in
          ([], Pairwise.nil, rw (no_items q v e) Perm.rfl, λ b. rw none_left)
      | inr (more, top, rest, ran, s) ↦
          let some_left : (q.length == 0) ≡ false = ground arith in
          let (cs, ordered, same, runs) =
            drained k rest (omega (arith, length-Same s.same)) s.valid in
          let (chronological, all) = Popped-IsChronological q rest top cs s ordered same in
          (
            top ∷ cs,
            chronological,
            all,
            λ b. rw (some_left, ran) (continue rest (round top b) cs runs),
          )
    ]
      where
        continue :
            (rest : PriorityQueue (Candle V)) (o : Option B) (cs : List (Candle V))
            → ((b : B) → backtest_candles round k rest b ≡ each_candle round cs b)
            → (o >>= λ b. backtest_candles round k rest b) ≡ (o >>= each_candle round cs)
        continue rest none cs h = refl
        continue rest (some b) cs h = h b

  enqueue-IsValid :
      (cs : List (Candle V)) (q : PriorityQueue (Candle V))
      → IsValid less q
      → (q' : PriorityQueue (Candle V)) × (enqueue cs q ≡ some q')
        × IsValid less q'
        × Same q'.items (cs ++ q.items)
  unfolding enqueue
  enqueue-IsValid [] q v = (q, refl, v, Perm.rfl)
  enqueue-IsValid (c ∷ cs) q v =
      let (q1, pushed, v1, same1) = push-IsValid less less-IsWeakOrder c q v in
      let (q2, rest, v2, same2) = enqueue-IsValid cs q1 v1 in
      (
        q2,
        rw pushed rest,
        v2,
        Perm.trans same2 (Perm.trans (Perm.append_left cs same1) (perm_middle cs q.items)),
      )

  empty-IsValid : IsValid (less {V = V}) (record { items = []; length = 0 })
  empty-IsValid = record { counted = refl; heap = λ c x y p above below. absurd cc }

  append_nil_Same : (a : List (Candle V)) → Same (a ++ []) a
  append_nil_Same [] = Perm.rfl
  append_nil_Same (c ∷ a) = Perm.cons c (append_nil_Same a)

  -- Whatever candles the feeds deliver to the empty queue of a new bot, no operation of the queue
  -- panics, and the backtest ends after as many rounds as there are candles: its outcome is that of
  -- its rounds on a list of exactly these candles, in which none stands before an earlier one.
  pub backtest_candles-IsChronological :
      {B : Type 0} (round : Candle V → B → Option B) (delivered : List (Candle V))
      → (q : PriorityQueue (Candle V)) × ((new_priority_queue less [] >>= enqueue delivered)
          ≡ some q)
        × (cs : List (Candle V)) × IsChronological cs
        × Same cs delivered
        × ((b : B) → backtest_candles round (suc (length delivered)) q b ≡ each_candle round cs b)
  unfolding new_priority_queue
  backtest_candles-IsChronological round delivered =
      let (q, ran, v, same) =
        enqueue-IsValid delivered (record { items = []; length = 0 }) empty-IsValid in
      let exact = Perm.trans same (append_nil_Same delivered) in
      let (cs, ordered, all, runs) =
        drained round (suc (length delivered)) q (omega (arith, length-Same exact)) v in
      (q, ran, cs, ordered, Perm.trans all exact, runs)
