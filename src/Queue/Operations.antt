-- ===== src/Queue/Operations.antt =====
-- NewPriorityQueue, Push and Pop of model/priorityqueue.go.
use mathlib.Core.List.{Perm as Same}
use mathlib.Core.List.Perm
use mathlib.Core.List.{Permᴰ}
use mathlib.Core.Logic.{∥∥₁_elim}
use native.Mathlib.Nat.{ℕ_set}
use ninjabot.Prelude.{
  ℕ, ◌+◌, ◌-◌, ◌/◌, ◌<◌, ◌≡◌, refl, sym, Bool, false, List, [], ◌∷◌, ◌++◌, Option, some, arith,
  length, length-append, get_elem?, get_elem?-lt_length,
}
use ninjabot.Queue.{PriorityQueue, parent, new_priority_queue, push}
use ninjabot.Queue.Order.{IsWeakOrder, at, get_elem?-at, at-append, IsHeapFrom}
use ninjabot.Queue.Exchange.{snoc-Perm}
use ninjabot.Queue.Down.{heapify-Sifted}
use ninjabot.Queue.Up.{up-Risen}

module _ {A : Type 0} where
  derived_size : (u v : List A) → Permᴰ u v → length u ≡ length v
  derived_size u v (Permᴰ.trans {l₂ = w} first second) =
      omega (arith, derived_size u w first, derived_size w v second)
  derived_size u v (Permᴰ.swap x y) = omega arith
  derived_size (x ∷ u) (y ∷ v) (Permᴰ.cons e same) = omega (arith, derived_size u v same)
  derived_size u v Permᴰ.nil = omega arith

  pub length-Same : {a b : List A} → Same a b → length a ≡ length b
  length-Same p = ∥∥₁_elim p (ℕ_set _ _) (derived_size _ _)

module _ {A : Type 0} (less : A → A → Bool) where
  -- The stored length is that of the slice, and no item is below its parent.
  pub record IsValid (q : PriorityQueue A) : Type 0 where
    pub counted : q.length ≡ length q.items
    pub heap :
        (c : ℕ) (x y : A)
        → 0 < c
        → get_elem? q.items (parent c) ≡ some x
        → get_elem? q.items c ≡ some y
        → less y x ≡ false

  -- What Pop returns: nothing of an empty queue, and else an item that no other is below, with a
  -- valid queue of the others.
  pub record Popped (q : PriorityQueue A) (top : A) (rest : PriorityQueue A) : Type 0 where
    pub valid : IsValid rest
    pub same : Same (top ∷ rest.items) q.items
    pub least : (i : ℕ) (y : A) → get_elem? q.items i ≡ some y → less y top ≡ false

  pub IsHeapFrom-IsValid :
      (d : A) (a : List A)
      → IsHeapFrom less d 0 (length a) a
      → IsValid (record { items = a; length = length a })
  IsHeapFrom-IsValid d a h = record {
    counted = refl;
    heap = λ c x y p above below.
        let inside = get_elem?-lt_length a c below in
        in_order x y _ _ above below (get_elem?-at d a (parent c) (omega (arith, inside)))
          (get_elem?-at d a c inside) (h c p inside (omega arith));
  }
    where
      in_order :
          (x y u v : A) {s t : Option A}
          → s ≡ some x
          → t ≡ some y
          → s ≡ some u
          → t ≡ some v
          → less v u ≡ false
          → less y x ≡ false
      in_order x y u v e f g k h = ground arith

  pub IsValid-IsHeapFrom :
      (d : A) (q : PriorityQueue A) → IsValid q → IsHeapFrom less d 0 (length q.items) q.items
  IsValid-IsHeapFrom d q v = λ c p inside lo.
      v.heap c (at d q.items (parent c)) (at d q.items c) p
        (get_elem?-at d q.items (parent c) (omega arith)) (get_elem?-at d q.items c inside)

  pub with_length :
      (a : List A) (n : ℕ)
      → length a ≡ n
      → IsValid (record { items = a; length = length a })
      → IsValid (record { items = a; length = n })
  with_length a n e v = record { counted = sym e; heap = v.heap }

  module _ (order : IsWeakOrder less) where
    -- NewPriorityQueue turns any slice into a valid queue of the same items, without a panic.
    pub new_priority_queue-IsValid :
        (items : List A)
        → (q : PriorityQueue A) × (new_priority_queue less items ≡ some q)
          × IsValid q
          × Same q.items items
    unfolding new_priority_queue
    new_priority_queue-IsValid [] = (
      record { items = []; length = 0 },
      refl,
      record { counted = refl; heap = λ c x y p above below. cc },
      Perm.rfl,
    )
    new_priority_queue-IsValid (x ∷ xs) =
        let a = x ∷ xs in
        let n = length a / 2 in
        let (r, ran, s) =
          heapify-Sifted less x order n a (omega arith) (λ c p q t. absurd (omega arith)) in
        (
          record { items = r; length = length a },
          rw ran,
          with_length r (length a) s.size
              (IsHeapFrom-IsValid x r (λ c p q. s.heap c p (omega (arith, s.size)))),
          s.same,
        )

    -- Push does not panic, and adds exactly the item to a valid queue.
    pub push-IsValid :
        (item : A) (q : PriorityQueue A)
        → IsValid q
        → (q' : PriorityQueue A) × (push less item q ≡ some q')
          × IsValid q'
          × Same q'.items (item ∷ q.items)
    unfolding push
    push-IsValid item q v =
        let grown = q.items ++ item ∷ [] in
        let size = length-append q.items (item ∷ []) in
        let last : ℕ = q.length + 1 - 1 in
        let heap = IsValid-IsHeapFrom item q v in
        let (r, ran, s) =
          up-Risen less item order grown last (omega (arith, size, v.counted)) (record {
            edges = λ c p h e. ground (
              arith,
              size,
              v.counted,
              heap c,
              at-append item q.items (item ∷ []) c,
              at-append item q.items (item ∷ []) (parent c),
            );
            bridged = λ c p h e. absurd (omega (arith, size, v.counted));
          }) in
        (
          record { items = r; length = q.length + 1 },
          rw ran,
          with_length r (q.length + 1) (omega (arith, size, v.counted, s.size))
              (IsHeapFrom-IsValid item r (λ c p h. s.heap c p (omega (arith, s.size)))),
          Perm.trans s.same (snoc-Perm q.items item),
        )
