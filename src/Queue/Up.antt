-- ===== src/Queue/Up.antt =====
-- The loop `up` of model/priorityqueue.go.
use mathlib.Core.List.{Perm as Same}
use mathlib.Core.List.Perm
use ninjabot.Prelude.{
  ℕ, zero, suc, ◌<◌, ◌≡◌, ◌≢◌, refl, ap, ◌∙◌, Bool, true, false, List, some, arith, ◌==◌, ltb,
  length, set, length-set, if◌then◌else◌, Bool-cases, inl, inr,
}
use ninjabot.Queue.{parent, up_loop, up}
use ninjabot.Queue.Order.{IsWeakOrder, at, get_elem?-at, at-set, InOrder, IsHeapFrom, IsBridged}
use ninjabot.Queue.Exchange.{move-Perm, set-same}

module _ {A : Type 0} (less : A → A → Bool) (d : A) where
  -- Only the edge above `i` may be out of order.
  pub record UpInv (b : List A) (i : ℕ) : Type 0 where
    pub edges : (c : ℕ) → 0 < c → c < length b → c ≢ i → InOrder less d b (parent c) c
    pub bridged : IsBridged less d 0 (length b) b i

  -- A heap of the same items.
  pub record Risen (a r : List A) : Type 0 where
    pub heap : IsHeapFrom less d 0 (length a) r
    pub same : Same r a
    pub size : length r ≡ length a

  module _ (order : IsWeakOrder less) where
    module _ (a : List A) (i : ℕ) (item : A) (inside : i < length a) (positive : 0 < i) where
      at_before : (j : ℕ) → at d (set a i item) j ≡ (if i == j then item else at d a j)
      at_before j = at-set d a i j item inside

      at_after :
          (j : ℕ)
          → at d (set (set a i (at d a (parent i))) (parent i) item) j
            ≡ (if parent i == j then item else if i == j then at d a (parent i) else at d a j)
      at_after j =
          at-set d (set a i (at d a (parent i))) (parent i) j item
            (omega (arith, length-set a i (at d a (parent i))))
          ∙ ap (λ t. if parent i == j then item else t) (at-set d a i j (at d a (parent i)) inside)

      sizes :
          (length (set a i item) ≡ length a)
          × (length (set (set a i (at d a (parent i))) (parent i) item) ≡ length a)
      sizes = (
        length-set a i item,
        length-set (set a i (at d a (parent i))) (parent i) item
            ∙ length-set a i (at d a (parent i)),
      )

      rise-UpInv :
          UpInv (set a i item) i
          → less item (at d a (parent i)) ≡ true
          → UpInv (set (set a i (at d a (parent i))) (parent i) item) (parent i)
      rise-UpInv v below =
          let q = at d a (parent i) in
          let asym = order.asymm item q below in
          record {
            edges = λ c p r t. ground (
              arith,
              sizes,
              at_after c,
              at_after (parent c),
              at_before c,
              at_before (parent c),
              at_before (parent i),
              v.edges c,
              v.bridged c,
              order.trans item q (at d a c) asym,
            );
            bridged = λ c p r t u w. ground (
              arith,
              sizes,
              at_after c,
              at_after (parent (parent i)),
              at_before c,
              at_before (parent c),
              at_before (parent (parent i)),
              v.edges c,
              v.edges (parent i),
              order.trans (at d a (parent (parent i))) q (at d a c),
            );
          }

      Risen-rise :
          {r : List A}
          → Risen (set (set a i (at d a (parent i))) (parent i) item) r
          → Risen (set a i item) r
      Risen-rise {r} s =
          let found = get_elem?-at d a (parent i) (omega arith) in
          let apart : i ≢ parent i = λ e. omega arith in
          record {
            heap = λ c p q. s.heap c p (omega (arith, sizes));
            same = Perm.trans s.same (move-Perm a i (parent i) _ item apart inside found);
            size = omega (arith, s.size, sizes);
          }

      resting-IsHeapFrom :
          UpInv (set a i item) i
          → less item (at d a (parent i)) ≡ false
          → IsHeapFrom less d 0 (length (set a i item)) (set a i item)
      resting-IsHeapFrom v above =
          λ c p q r. ground (arith, at_before c, at_before (parent c), v.edges c)

    unmoved : (a : List A) → IsHeapFrom less d 0 (length a) a → Risen a a
    unmoved a h = record { heap = h; same = Perm.rfl; size = refl }

    up_loop-Risen :
        (k : ℕ) (a : List A) (item : A) (i : ℕ)
        → i < k
        → i < length a
        → UpInv (set a i item) i
        → (r : List A) × (up_loop less k a item i ≡ some r) × Risen (set a i item) r
    unfolding up_loop
    up_loop-Risen zero a item i f inside v = elim f [ ]
    up_loop-Risen (suc k) a item i f inside v = elim (Bool-cases (ltb 0 i)) [
      | inr root ↦ (
        set a i item,
        rw root,
        unmoved (set a i item) (λ c p q r. v.edges c p q (λ e. ground arith)),
      )
      | inl low ↦
          let positive : 0 < i = ground arith in
          let found = get_elem?-at d a (parent i) (omega arith) in
          elim (Bool-cases (less item (at d a (parent i)))) [
            | inl below ↦
                let (r, ran, s) =
                  up_loop-Risen k (set a i (at d a (parent i))) item (parent i) (omega arith)
                    (omega (arith, length-set a i (at d a (parent i))))
                    (rise-UpInv a i item inside positive v below) in
                (r, rw (low, found, below) ran, Risen-rise a i item inside positive s)
            | inr above ↦ (
              set a i item,
              rw (low, found, above),
              unmoved (set a i item) (resting-IsHeapFrom a i item inside positive v above),
            )
          ]
    ]

    pub up-Risen :
        (a : List A) (i : ℕ)
        → i < length a
        → UpInv a i
        → (r : List A) × (up less a i ≡ some r) × Risen a r
    unfolding up
    up-Risen a i inside v =
        let there = get_elem?-at d a i inside in
        let same = set-same a i (at d a i) there in
        let start = up_loop-Risen (suc i) a (at d a i) i (omega arith) inside (rw same v) in
        (start.0, rw there start.1, rw same at start.2)
