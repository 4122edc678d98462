-- ===== src/Queue/Down.antt =====
-- The loop `down` of model/priorityqueue.go.
use mathlib.Core.List.Perm
use ninjabot.Prelude.{
  ℕ, zero, suc, ◌+◌, ◌/◌, ◌≤◌, ◌<◌, ◌≡◌, refl, ◌∙◌, Bool, false, List, some, arith, ltb, length,
  set, length-set, Bool-cases, inl, inr,
}
use ninjabot.Queue.{down_loop, down, heapify}
use ninjabot.Queue.Order.{IsWeakOrder, at, get_elem?-at, IsHeapFrom}
use ninjabot.Queue.Exchange.{set-same}
use ninjabot.Queue.Sink.{
  DownInv, Sifted, best_child-IsBest, sink-DownInv, Sifted-sink, settled-IsHeapFrom,
}

module _ {A : Type 0} (less : A → A → Bool) (d : A) where
  module _ (order : IsWeakOrder less) where
    module _ (lo n : ℕ) where
      unmoved : (a : List A) → IsHeapFrom less d lo n a → Sifted less d lo n a a
      unmoved a h = record { heap = h; same = Perm.rfl; size = refl; beyond = λ j p. refl }

      leaf-IsHeapFrom :
          (b : List A) (i : ℕ)
          → ltb i (n / 2) ≡ false
          → DownInv less d lo n b i
          → IsHeapFrom less d lo n b
      leaf-IsHeapFrom b i leaf v = λ c p q r. ground (arith, v.edges c)

      down_loop-Sifted :
          (k : ℕ) (a : List A) (item : A) (i : ℕ)
          → i ≤ n
          → n < i + k
          → n ≤ length a
          → DownInv less d lo n (set a i item) i
          → (r : List A) × (down_loop less k n a item i ≡ some r)
            × Sifted less d lo n (set a i item) r
      unfolding down_loop
      down_loop-Sifted zero a item i g f size v = absurd (omega arith)
      down_loop-Sifted (suc k) a item i g f size v = elim (Bool-cases (ltb i (n / 2))) [
        | inr leaf ↦ (
          set a i item,
          rw leaf,
          unmoved (set a i item) (leaf-IsHeapFrom (set a i item) i leaf v),
        )
        | inl inner ↦
            let within : i < n / 2 = ground arith in
            let ((m, best), found, b) = best_child-IsBest less d order n a i size within in
            elim (Bool-cases (less best item)) [
              | inl below ↦
                  let (r, ran, s) =
                    down_loop-Sifted k (set a i best) item m (omega (arith, b.inside))
                      (ground (arith, b.child)) (omega (arith, length-set a i best))
                      (sink-DownInv less d order lo n a i m item best size within v b below) in
                  (
                    r,
                    rw (inner, found, below) ran,
                    Sifted-sink less d order lo n a i m item best size within b s,
                  )
              | inr above ↦ (
                set a i item,
                rw (inner, found, above),
                unmoved (set a i item)
                    (settled-IsHeapFrom less d order lo n a i m item best size within v b above),
              )
            ]
      ]

      -- `down` makes a heap from `lo` on, if only the edges below `i` were out of order.
      pub down-Sifted :
          (a : List A) (i : ℕ)
          → i < length a
          → i ≤ n
          → n ≤ length a
          → DownInv less d lo n a i
          → (r : List A) × (down less n a i ≡ some r) × Sifted less d lo n a r
      unfolding down
      down-Sifted a i inside g size v =
          let there = get_elem?-at d a i inside in
          let same = set-same a i (at d a i) there in
          let start = down_loop-Sifted (suc n) a (at d a i) i g (omega arith) size (rw same v) in
          (start.0, rw there start.1, rw same at start.2)

    -- Each round of NewPriorityQueue orders the tree from one item earlier on.
    pub heapify-Sifted :
        (i : ℕ) (a : List A)
        → i < length a
        → IsHeapFrom less d (suc i) (length a) a
        → (r : List A) × (heapify less i a ≡ some r) × Sifted less d 0 (length a) a r
    unfolding heapify
    heapify-Sifted zero a inside h =
        down-Sifted 0 (length a) a 0 inside (omega arith) (omega arith) (record {
          edges = λ c p q r t. h c p q (ground arith);
          bridged = λ c p q e u w. elim u [ ];
        })
    heapify-Sifted (suc i) a inside h =
        let (b, ran, s) =
          down-Sifted (suc i) (length a) a (suc i) inside (omega arith) (omega arith) (record {
            edges = λ c p q r t. h c p q (ground arith);
            bridged = λ c p q e u w. absurd (ground arith);
          }) in
        let (r, rest, t) =
          heapify-Sifted i b (omega (arith, s.size))
            (λ c p q. s.heap c p (omega (arith, s.size))) in
        (
          r,
          rw ran rest,
          record {
            heap = λ c p q. t.heap c p (omega (arith, s.size));
            same = Perm.trans t.same s.same;
            size = t.size ∙ s.size;
            beyond = λ j p. t.beyond j (omega (arith, s.size)) ∙ s.beyond j p;
          },
        )
