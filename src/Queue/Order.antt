-- ===== src/Queue/Order.antt =====
-- The order of the heap of model/priorityqueue.go.
use ninjabot.Prelude.{
  ℕ, zero, suc, ◌≤◌, ◌<◌, ◌≡◌, refl, Bool, true, false, List, [], ◌∷◌, ◌++◌, some, arith, ◌==◌,
  length, get_elem?, set, get_elem?-set, if◌then◌else◌, Bool-cases, inl, inr,
}
use ninjabot.Prelude.Map.{get_or}
use ninjabot.Queue.{parent}

-- What `Less` is expected to be: a strict order whose incomparable items are interchangeable.
pub record IsWeakOrder {A : Type 0} (less : A → A → Bool) : Type 0 where
  pub asymm : (a b : A) → less a b ≡ true → less b a ≡ false
  pub trans : (a b c : A) → less b a ≡ false → less c b ≡ false → less c a ≡ false

module _ {A : Type 0} (d : A) where
  -- The item at an index, with `d` out of range.
  pub at : List A → ℕ → A
  at a i = get_or d (get_elem? a i)

  pub get_elem?-at : (a : List A) (i : ℕ) → i < length a → get_elem? a i ≡ some (at a i)
  unfolding at
  get_elem?-at [] i h = elim h [ ]
  get_elem?-at (x ∷ a) zero h = refl
  get_elem?-at (x ∷ a) (suc i) h = get_elem?-at a i (omega arith)

  pub at-cons : (x : A) (a : List A) → at (x ∷ a) 0 ≡ x
  unfolding at
  at-cons x a = refl

  pub at-set :
      (a : List A) (i j : ℕ) (v : A)
      → i < length a
      → at (set a i v) j ≡ (if i == j then v else at a j)
  unfolding at
  at-set a i j v h = elim (Bool-cases (i == j)) [
    | inl e ↦ rw (get_elem?-set a i j v h, e)
    | inr e ↦ rw (get_elem?-set a i j v h, e)
  ]

  pub at-append : (a b : List A) (i : ℕ) → i < length a → at (a ++ b) i ≡ at a i
  unfolding at
  at-append [] b i h = elim h [ ]
  at-append (x ∷ a) b zero h = refl
  at-append (x ∷ a) b (suc i) h = at-append a b i (omega arith)

module _ {A : Type 0} (less : A → A → Bool) (d : A) where
  -- The item at `j` is not below that at `i`.
  abbrev pub InOrder : List A → ℕ → ℕ → Type 0
  InOrder a i j = less (at d a j) (at d a i) ≡ false

  -- In the first `n` items, every edge whose parent is at `lo` or later is in order.
  abbrev pub IsHeapFrom : ℕ → ℕ → List A → Type 0
  IsHeapFrom lo n a = (c : ℕ) → 0 < c → c < n → lo ≤ parent c → InOrder a (parent c) c

  -- The edges past `i`, from its parent to its children, are in order.
  abbrev pub IsBridged : ℕ → ℕ → List A → ℕ → Type 0
  IsBridged lo n a i =
      (c : ℕ) → 0 < c → c < n → parent c ≡ i → 0 < i → lo ≤ parent i → InOrder a (parent i) c

  module _ (order : IsWeakOrder less) where
    root_least_below :
        (k n : ℕ) (a : List A) (i : ℕ) → IsHeapFrom 0 n a → i < k → i < n → InOrder a 0 i
    root_least_below zero n a i h f p = elim f [ ]
    root_least_below (suc k) n a zero h f p = irreflexive (at d a 0)
      where
        irreflexive : (x : A) → less x x ≡ false
        irreflexive x = elim (Bool-cases (less x x)) [ inl e ↦ order.asymm x x e | inr e ↦ e ]
    root_least_below (suc k) n a (suc i) h f p =
        order.trans (at d a 0) (at d a (parent (suc i))) (at d a (suc i))
          (root_least_below k n a (parent (suc i)) h (omega arith) (omega arith))
          (h (suc i) (omega arith) p (omega arith))

    -- No item of a heap is below the first.
    pub root_least : (n : ℕ) (a : List A) (i : ℕ) → IsHeapFrom 0 n a → i < n → InOrder a 0 i
    root_least n a i h p = root_least_below (suc i) n a i h (omega arith) p
