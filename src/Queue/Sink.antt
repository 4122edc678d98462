-- ===== src/Queue/Sink.antt =====
-- One round of the loop `down` of model/priorityqueue.go.
use mathlib.Core.List.{Perm as Same}
use mathlib.Core.List.Perm
use ninjabot.Prelude.{
  ℕ, ◌+◌, ◌*◌, ◌/◌, ◌≤◌, ◌<◌, ◌≡◌, ◌≢◌, ◌⊎◌, refl, sym, ap, ◌∙◌, Bool, true, false, List, some,
  arith, ◌==◌, ltb, length, get_elem?, set, length-set, if◌then◌else◌, Bool-cases, inl, inr,
}
use ninjabot.Queue.{parent, best_child}
use ninjabot.Queue.Order.{IsWeakOrder, at, get_elem?-at, at-set, InOrder, IsHeapFrom, IsBridged}
use ninjabot.Queue.Exchange.{move-Perm}

module _ {A : Type 0} (less : A → A → Bool) (d : A) where
  -- Only the edges below `i` may be out of order.
  pub record DownInv (lo n : ℕ) (b : List A) (i : ℕ) : Type 0 where
    pub edges :
        (c : ℕ) → 0 < c → c < n → lo ≤ parent c → parent c ≢ i → InOrder less d b (parent c) c
    pub bridged : IsBridged less d lo n b i

  -- `m` is a child of `i` that no child of `i` is below.
  pub record IsBest (n : ℕ) (a : List A) (i m : ℕ) (best : A) : Type 0 where
    pub inside : m < n
    pub child : (m ≡ 2 * i + 1) ⊎ (m ≡ 2 * i + 2)
    pub item : best ≡ at d a m
    pub least : (c : ℕ) → 0 < c → c < n → parent c ≡ i → less (at d a c) best ≡ false

  -- What a loop leaves: a heap from `lo` on of the same items, and nothing changed past `n`.
  pub record Sifted (lo n : ℕ) (a r : List A) : Type 0 where
    pub heap : IsHeapFrom less d lo n r
    pub same : Same r a
    pub size : length r ≡ length a
    pub beyond : (j : ℕ) → n ≤ j → at d r j ≡ at d a j

  module _ (order : IsWeakOrder less) where
    irreflexive : (x : A) → less x x ≡ false
    irreflexive x = elim (Bool-cases (less x x)) [ inl e ↦ order.asymm x x e | inr e ↦ e ]

    left_or_right : (c i : ℕ) → 0 < c → parent c ≡ i → (c ≡ 2 * i + 1) ⊎ (c ≡ 2 * i + 2)
    left_or_right c i p e = ground arith

    pub best_child-IsBest :
        (n : ℕ) (a : List A) (i : ℕ)
        → n ≤ length a
        → i < n / 2
        → (m : ℕ × A) × (best_child less n a i ≡ some m) × IsBest n a i m.0 m.1
    unfolding best_child
    best_child-IsBest n a i size inner =
        let l = 2 * i + 1 in
        let left = get_elem?-at d a l (omega arith) in
        elim (Bool-cases (ltb (l + 1) n)) [
          | inr one ↦ (
            (l, at d a l),
            rw (best_child, left, one),
            record {
              inside = omega arith;
              child = inl refl;
              item = refl;
              least = λ c p q e. only_left c p q e one;
            },
          )
          | inl two ↦
              let right = get_elem?-at d a (l + 1) (ground arith) in
              elim (Bool-cases (less (at d a (l + 1)) (at d a l))) [
                | inl e ↦ (
                  (l + 1, at d a (l + 1)),
                  rw (best_child, left, two, right, e),
                  record {
                    inside = ground arith;
                    child = inr (omega arith);
                    item = refl;
                    least = λ c p q f. either c p f (order.asymm _ _ e) (irreflexive _);
                  },
                )
                | inr e ↦ (
                  (l, at d a l),
                  rw (best_child, left, two, right, e),
                  record {
                    inside = omega arith;
                    child = inl refl;
                    item = refl;
                    least = λ c p q f. either c p f (irreflexive _) e;
                  },
                )
              ]
        ]
      where
        either :
            (c : ℕ) {x : A}
            → 0 < c
            → parent c ≡ i
            → less (at d a (2 * i + 1)) x ≡ false
            → less (at d a (2 * i + 1 + 1)) x ≡ false
            → less (at d a c) x ≡ false
        either c p f lo hi = ground (arith, left_or_right c i p f)

        only_left :
            (c : ℕ)
            → 0 < c
            → c < n
            → parent c ≡ i
            → ltb (2 * i + 1 + 1) n ≡ false
            → less (at d a c) (at d a (2 * i + 1)) ≡ false
        only_left c p q f g = ground (arith, left_or_right c i p f, irreflexive (at d a c))

    module _ (lo n : ℕ) (a : List A) (i m : ℕ) (item best : A) (size : n ≤ length a)
        (inner : i < n / 2) where
      at_before : (j : ℕ) → at d (set a i item) j ≡ (if i == j then item else at d a j)
      at_before j = at-set d a i j item (omega arith)

      at_after :
          m < n
          → (j : ℕ)
          → at d (set (set a i best) m item) j
            ≡ (if m == j then item else if i == j then best else at d a j)
      at_after h j =
          at-set d (set a i best) m j item (omega (arith, length-set a i best))
          ∙ ap (λ t. if m == j then item else t) (at-set d a i j best (omega arith))

      pub sink-DownInv :
          DownInv lo n (set a i item) i
          → IsBest n a i m best
          → less best item ≡ true
          → DownInv lo n (set (set a i best) m item) m
      sink-DownInv v s below =
          let asym = order.asymm best item below in
          let s_positive : 0 < m = ground (arith, s.child) in
          let s_parent : parent m ≡ i = ground (arith, s.child) in
          record {
            edges = λ c p q r t. ground (
              arith,
              at_after s.inside c,
              at_after s.inside (parent c),
              at_before c,
              at_before (parent c),
              v.edges c,
              at_before m,
              v.bridged m s_positive s.inside s_parent,
              s.item,
              s.least c,
            );
            bridged = λ c p q r t u. ground (
              arith,
              at_after s.inside c,
              at_after s.inside (parent m),
              at_before c,
              at_before (parent c),
              s.item,
              v.edges c,
            );
          }

      -- The hole has moved one level down; nothing is lost.
      pub Sifted-sink :
          {r : List A}
          → IsBest n a i m best
          → Sifted lo n (set (set a i best) m item) r
          → Sifted lo n (set a i item) r
      Sifted-sink {r} b s =
          let apart : i ≢ m = λ e. ground (arith, b.child) in
          let found : get_elem? a m ≡ some best =
            get_elem?-at d a m (omega (arith, b.inside)) ∙ ap some (sym b.item) in
          record {
            heap = s.heap;
            same = Perm.trans s.same (move-Perm a i m best item apart (omega arith) found);
            size =
                s.size
                ∙ (omega (
                  arith,
                  length-set (set a i best) m item,
                  length-set a i best,
                  length-set a i item,
                ));
            beyond =
                λ j h. s.beyond j h ∙ (ground (arith, at_after b.inside j, at_before j, b.inside));
          }

      -- The item stays where the hole is, above its best child.
      pub settled-IsHeapFrom :
          DownInv lo n (set a i item) i
          → IsBest n a i m best
          → less best item ≡ false
          → IsHeapFrom less d lo n (set a i item)
      settled-IsHeapFrom v b above = λ c p q r. ground (
        arith,
        at_before c,
        at_before (parent c),
        v.edges c,
        b.least c,
        order.trans item best (at d a c) above,
      )
