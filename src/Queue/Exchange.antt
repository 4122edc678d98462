-- ===== src/Queue/Exchange.antt =====
-- The heap of model/priorityqueue.go moves items without losing or doubling one.
use mathlib.Core.List.{Perm as Same}
use mathlib.Core.List.Perm
use ninjabot.Prelude.{
  ℕ, zero, suc, ◌<◌, ◌≡◌, ◌≢◌, refl, ap, List, [], ◌∷◌, ◌++◌, some, arith, length, get_elem?, set,
  take, subst,
}

module _ {A : Type 0} where
  -- A write trades the old item for the new one.
  pub put-Perm :
      (a : List A) (i : ℕ) (x v : A) → get_elem? a i ≡ some x → Same (x ∷ set a i v) (v ∷ a)
  put-Perm [] i x v e = cc
  put-Perm (y ∷ a) zero x v e = subst (λ t. Same (t ∷ v ∷ a) (v ∷ y ∷ a)) (cc e) (Perm.swap v y a)
  put-Perm (y ∷ a) (suc i) x v e =
      Perm.trans (Perm.swap y x (set a i v))
        (Perm.trans (Perm.cons y (put-Perm a i x v e)) (Perm.swap v y a))

  -- Two writes at one index, traded against each other.
  trade-Perm : (a : List A) (i : ℕ) (x y : A) → i < length a → Same (y ∷ set a i x) (x ∷ set a i y)
  trade-Perm [] i x y h = elim h [ ]
  trade-Perm (z ∷ a) zero x y h = Perm.swap x y a
  trade-Perm (z ∷ a) (suc i) x y h =
      Perm.trans (Perm.swap z y (set a i x))
        (Perm.trans (Perm.cons z (trade-Perm a i x y (omega arith))) (Perm.swap x z (set a i y)))

  -- The item of `j` moves to `i`, and the hole with it.
  pub move-Perm :
      (a : List A) (i j : ℕ) (x y : A)
      → i ≢ j
      → i < length a
      → get_elem? a j ≡ some x
      → Same (set (set a i x) j y) (set a i y)
  move-Perm [] i j x y ne h e = elim h [ ]
  move-Perm (z ∷ a) zero zero x y ne h e = absurd (ne refl)
  move-Perm (z ∷ a) zero (suc j) x y ne h e = put-Perm a j x y e
  move-Perm (z ∷ a) (suc i) zero x y ne h e =
      subst (λ t. Same (y ∷ set a i x) (t ∷ set a i y)) (cc e) (trade-Perm a i x y (omega arith))
  move-Perm (z ∷ a) (suc i) (suc j) x y ne h e =
      Perm.cons z (move-Perm a i j x y (λ s. ne (ap suc s)) (omega arith) e)

  pub set-same : (a : List A) (i : ℕ) (x : A) → get_elem? a i ≡ some x → set a i x ≡ a
  set-same [] i x e = refl
  set-same (y ∷ a) zero x e = cc
  set-same (y ∷ a) (suc i) x e = ap (◌∷◌ y) (set-same a i x e)

  pub take-last :
      (n : ℕ) (a : List A) (x : A)
      → length a ≡ suc n
      → get_elem? a n ≡ some x
      → take n a ++ x ∷ [] ≡ a
  take-last zero [] x h e = cc
  take-last zero (y ∷ []) x h e = cc
  take-last zero (y ∷ z ∷ a) x h e = absurd (omega arith)
  take-last (suc n) [] x h e = cc
  take-last (suc n) (y ∷ a) x h e = ap (◌∷◌ y) (take-last n a x (omega arith) e)

  pub snoc-Perm : (a : List A) (x : A) → Same (a ++ x ∷ []) (x ∷ a)
  snoc-Perm [] x = Perm.rfl
  snoc-Perm (y ∷ a) x = Perm.trans (Perm.cons y (snoc-Perm a x)) (Perm.swap x y a)
