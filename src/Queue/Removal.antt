-- ===== src/Queue/Removal.antt =====
-- Pop of model/priorityqueue.go, and the loop that pops until the queue is empty.
use mathlib.Core.List.{Perm as Same}
use mathlib.Core.List.Perm
use ninjabot.Prelude.{
  ℕ, zero, suc, ◌-◌, ◌<◌, ◌≡◌, ◌⊎◌, inl, inr, Bool-cases, refl, sym, ap, ◌∙◌, subst, Bool, false,
  List, [], ◌∷◌, ◌++◌, none, some, arith, ◌==◌, length, length-append, get_elem?,
  get_elem?-lt_length, take,
}
use ninjabot.Queue.{PriorityQueue, parent, refill, pop}
use ninjabot.Queue.Order.{
  IsWeakOrder, at, get_elem?-at, at-cons, at-set, at-append, InOrder, IsHeapFrom, root_least,
}
use ninjabot.Queue.Exchange.{snoc-Perm, take-last}
use ninjabot.Queue.Down.{down-Sifted}
use ninjabot.Queue.Operations.{IsValid, Popped, IsHeapFrom-IsValid, IsValid-IsHeapFrom, with_length}

module _ {A : Type 0} (less : A → A → Bool) (order : IsWeakOrder less) where
  -- A heap without the item after its end.
  cut-IsHeapFrom :
      (d : A) (r t : List A) (v : A)
      → t ++ v ∷ [] ≡ r
      → IsHeapFrom less d 0 (length t) r
      → IsHeapFrom less d 0 (length t) t
  cut-IsHeapFrom d r t v e h = λ c p q lo.
      same_order (parent c) c (at-append d t (v ∷ []) (parent c) (omega arith))
        (at-append d t (v ∷ []) c q)
        (subst (λ s. InOrder less d s (parent c) c) (sym e) (h c p q lo))
    where
      same_order :
          (i j : ℕ)
          → at d (t ++ v ∷ []) i ≡ at d t i
          → at d (t ++ v ∷ []) j ≡ at d t j
          → less (at d (t ++ v ∷ []) j) (at d (t ++ v ∷ []) i) ≡ false
          → less (at d t j) (at d t i) ≡ false
      same_order i j f g k = ground arith

  -- The first item goes, and the last one takes its place.
  exchanged-Perm :
      (x last : A) (xs t r : List A)
      → t ++ last ∷ [] ≡ r
      → Same r (last ∷ xs)
      → Same (x ∷ t) (x ∷ xs)
  exchanged-Perm x last xs t r e same = Perm.cons x (
      Perm.cons_inv
        (Perm.trans (Perm.symm (snoc-Perm t last)) (subst (λ s. Same s (last ∷ xs)) (sym e) same)))

  refill-some :
      (x : A) (xs : List A)
      → IsHeapFrom less x 0 (length (x ∷ xs)) (x ∷ xs)
      → (r : List A) × (refill less (length xs) (x ∷ xs) ≡ some r)
        × (length r ≡ suc (length xs))
        × (length (take (length xs) r) ≡ length xs)
        × IsHeapFrom less x 0 (length (take (length xs) r)) (take (length xs) r)
        × Same (x ∷ take (length xs) r) (x ∷ xs)
  unfolding refill
  refill-some x [] h = (x ∷ [], refl, refl, refl, (λ c p q lo. elim q [ ]), Perm.rfl)
  refill-some x (y ∷ ys) h =
      let a = x ∷ y ∷ ys in
      let n = length (y ∷ ys) in
      let last = at x a n in
      let found = get_elem?-at x a n (omega arith) in
      let moved = λ (j : ℕ). at-set x a 0 j last (omega arith) in
      let (r, ran, s) =
        down-Sifted less x order 0 n (last ∷ y ∷ ys) 0 (omega arith) (omega arith) (omega arith)
          (record {
            edges = λ c p q lo t. ground (arith, moved c, moved (parent c), h c);
            bridged = λ c p q e u w. elim u [ ];
          }) in
      let end : at x r n ≡ last = s.beyond n (omega arith) ∙ (ground (arith, moved n)) in
      let whole : take n r ++ last ∷ [] ≡ r =
        take-last n r last s.size (get_elem?-at x r n (omega (arith, s.size)) ∙ ap some end) in
      let size : length (take n r) ≡ n =
        omega (arith, s.size, length-append (take n r) (last ∷ []), ap length whole) in
      (
        r,
        rw (refill, found) ran,
        s.size,
        size,
        cut-IsHeapFrom x r (take n r) last whole (λ c p q. s.heap c p (omega (arith, size))),
        exchanged-Perm x last (y ∷ ys) (take n r) r whole s.same,
      )

  pop-empty : (q : PriorityQueue A) → q.length ≡ 0 → pop less q ≡ some (none, q)
  unfolding pop
  pop-empty q e = ground arith

  root_least_get :
      (x : A) (xs : List A)
      → IsHeapFrom less x 0 (length (x ∷ xs)) (x ∷ xs)
      → (i : ℕ) (y : A) → get_elem? (x ∷ xs) i ≡ some y
      → less y x ≡ false
  root_least_get x xs h i y e =
      let inside = get_elem?-lt_length (x ∷ xs) i e in
      ap (λ t. less t x) (some_inj (sym e ∙ get_elem?-at x (x ∷ xs) i inside))
      ∙ ap (less (at x (x ∷ xs) i)) (sym (at-cons x x xs))
      ∙ root_least less x order (length (x ∷ xs)) (x ∷ xs) i h inside
    where
      some_inj : {u v : A} → some u ≡ some v → u ≡ v
      some_inj e = cc

  pop-nonempty :
      (n : ℕ) (a : List A)
      → IsValid less (record { items = a; length = n })
      → 0 < n
      → (top : A) × (rest : PriorityQueue A) × (pop less (record { items = a; length = n })
          ≡ some (some top, rest))
        × Popped less (record { items = a; length = n }) top rest
  unfolding pop
  pop-nonempty zero a v p = elim p [ ]
  pop-nonempty (suc n) [] v p = absurd (omega (arith, v.counted))
  pop-nonempty (suc n) (x ∷ xs) v p =
      let heap = IsValid-IsHeapFrom less x (record { items = x ∷ xs; length = suc n }) v in
      let (r, ran, whole, size, cut, same) = refill-some x xs heap in
      let count : n ≡ length xs = omega (arith, v.counted) in
      (
        x,
        record { items = take (length xs) r; length = n },
        pop_step r (rw count ran) (omega (arith, whole)) count,
        record {
          valid =
              with_length less (take (length xs) r) n (size ∙ sym count)
                (IsHeapFrom-IsValid less x (take (length xs) r) cut);
          same = same;
          least = root_least_get x xs heap;
        },
      )
    where
      pop_step :
          (r : List A)
          → refill less n (x ∷ xs) ≡ some r
          → length r - 1 ≡ length xs
          → n ≡ length xs
          → pop less (record { items = x ∷ xs; length = suc n })
            ≡ some (some x, record { items = take (length xs) r; length = n })
      pop_step r ran short count =
          let less_one : suc n - 1 ≡ n = omega arith in
          let some_left : (suc n == 0) ≡ false = ground arith in
          rw (pop, less_one, ran, short, some_left)

  -- Pop of a valid queue does not panic: it returns nothing of an empty one, and else an item that
  -- no item of the queue is below, and leaves a valid queue of exactly the others.
  pub pop-Popped :
      (q : PriorityQueue A)
      → IsValid less q
      → ((q.length ≡ 0) × (pop less q ≡ some (none, q)))
        ⊎ ((0 < q.length)
            × (top : A) × (rest : PriorityQueue A) × (pop less q ≡ some (some top, rest))
            × Popped less q top rest)
  pop-Popped q v = elim (Bool-cases (q.length == 0)) [
    | inl e ↦ inl (ground arith, pop-empty q (ground arith))
    | inr e ↦
        let (top, rest, ran, s) = pop-nonempty q.length q.items v (ground arith) in
        inr (ground arith, top, rest, ran, s)
  ]
