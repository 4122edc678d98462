-- ===== src/Float/Laws.antt =====
-- Laws of the arithmetic and of the order, hypotheses of the theorems that need them. `IsOrdered`
-- holds of the comparisons of float64 off NaN; `IsExact` adds the laws of sums and differences,
-- which hold as long as no operation rounds or overflows.
use ninjabot.Prelude.{◌≡◌, refl, sym, ap, ◌∙◌, Bool, true, false, ◌⊎◌, not}
use ninjabot.Float.{Float64, ◌⊕◌, ◌⊖◌, ◌<?◌, ◌≤?◌, lit, neg}

pub record IsOrdered {V : Type 0} (fl : Float64 V) : Type 0 where
  pub le_refl : (a : V) → fl.le a a ≡ true
  pub le_trans : (a b c : V) → fl.le a b ≡ true → fl.le b c ≡ true → fl.le a c ≡ true
  pub le_total : (a b : V) → (fl.le a b ≡ true) ⊎ (fl.le b a ≡ true)
  pub le_antisym : (a b : V) → fl.le a b ≡ true → fl.le b a ≡ true → a ≡ b
  -- `a < b` is the negation of `b <= a`.
  pub lt-le : (a b : V) → fl.lt a b ≡ not (fl.le b a)
  pub eq-refl : (a : V) → fl.eq a a ≡ true
  pub eq_sound : (a b : V) → fl.eq a b ≡ true → a ≡ b

pub record IsExact {V : Type 0} (fl : Float64 V) : Type 0 where
  pub ordered : IsOrdered fl
  pub add_comm : (a b : V) → fl.add a b ≡ fl.add b a
  pub add_assoc : (a b c : V) → fl.add (fl.add a b) c ≡ fl.add a (fl.add b c)
  pub add-zero : (a : V) → fl.add a (fl.lit 0) ≡ a
  pub sub-neg : (a b : V) → fl.sub a b ≡ fl.add a (fl.neg b)
  pub add-neg : (a : V) → fl.add a (fl.neg a) ≡ fl.lit 0
  pub add_mono : (a b c : V) → fl.le a b ≡ true → fl.le (fl.add a c) (fl.add b c) ≡ true

module _ {V : Type 0} ⦃fl : Float64 V⦄ (x : IsExact fl) where
  pub zero-add : (a : V) → lit 0 ⊕ a ≡ a
  zero-add a = x.add_comm (lit 0) a ∙ x.add-zero a

  pub neg-add : (a : V) → neg a ⊕ a ≡ lit 0
  neg-add a = x.add_comm (neg a) a ∙ x.add-neg a

  pub sub_self : (a : V) → a ⊖ a ≡ lit 0
  sub_self a = x.sub-neg a a ∙ x.add-neg a

  pub sub-add : (a b : V) → a ⊖ b ⊕ b ≡ a
  sub-add a b = rw (x.sub-neg, x.add_assoc, neg-add, x.add-zero)

  pub add-sub : (a b : V) → a ⊕ b ⊖ b ≡ a
  add-sub a b = rw (x.sub-neg, x.add_assoc, x.add-neg, x.add-zero)

  -- Two sums are exchanged in the middle.
  pub add_middle : (a b c d : V) → (a ⊕ b) ⊕ (c ⊕ d) ≡ (a ⊕ c) ⊕ (b ⊕ d)
  add_middle a b c d =
      x.add_assoc a b (c ⊕ d)
      ∙ ap (λ t. a ⊕ t)
          (sym (x.add_assoc b c d) ∙ ap (λ t. t ⊕ d) (x.add_comm b c) ∙ x.add_assoc c b d)
      ∙ sym (x.add_assoc a c (b ⊕ d))

  -- What one part gives the other, the sum keeps.
  pub give-take : (a b v : V) → (a ⊕ v) ⊕ (b ⊖ v) ≡ a ⊕ b
  give-take a b v = rw (x.sub-neg b v, add_middle a v b (neg v), x.add-neg, x.add-zero)

  pub take-give : (a b v : V) → (a ⊖ v) ⊕ (b ⊕ v) ≡ a ⊕ b
  take-give a b v = x.add_comm (a ⊖ v) (b ⊕ v) ∙ give-take b a v ∙ x.add_comm b a

  pub add_right_comm : (a b c : V) → a ⊕ b ⊕ c ≡ a ⊕ c ⊕ b
  add_right_comm a b c =
      x.add_assoc a b c ∙ ap (λ t. a ⊕ t) (x.add_comm b c) ∙ sym (x.add_assoc a c b)

  -- What is added to, or taken from, one part is added to, or taken from, the sum.
  pub add_left : (a b v : V) → (a ⊕ v) ⊕ b ≡ a ⊕ b ⊕ v
  add_left a b v = add_right_comm a v b

  pub sub_left : (a b v : V) → (a ⊖ v) ⊕ b ≡ a ⊕ b ⊖ v
  sub_left a b v = rw (x.sub-neg a v, x.sub-neg (a ⊕ b) v) (add_right_comm a (neg v) b)

  pub sub_right : (a b v : V) → a ⊕ (b ⊖ v) ≡ a ⊕ b ⊖ v
  sub_right a b v = rw (x.sub-neg b v, x.sub-neg (a ⊕ b) v) (sym (x.add_assoc a b (neg v)))

  -- Two amounts are taken and given back in the same order.
  pub sub-sub-add-add : (v a q : V) → v ⊖ a ⊖ q ⊕ a ⊕ q ≡ v
  sub-sub-add-add v a q =
      add_right_comm (v ⊖ a ⊖ q) a q ∙ ap (λ t. t ⊕ a) (sub-add (v ⊖ a) q) ∙ sub-add v a

  pub lt→not_le : (a b : V) → (a <? b) ≡ true → (b ≤? a) ≡ false
  lt→not_le a b h = not_true (sym (x.ordered.lt-le a b) ∙ h)
    where
      not_true : {t : Bool} → not t ≡ true → t ≡ false
      not_true {t = true} e = cc
      not_true {t = false} e = refl

  neg_unique : (a b : V) → a ⊕ b ≡ lit 0 → b ≡ neg a
  neg_unique a b h =
      sym (zero-add b)
      ∙ ap (λ t. t ⊕ b) (sym (neg-add a))
      ∙ x.add_assoc (neg a) a b
      ∙ ap (λ t. neg a ⊕ t) h
      ∙ x.add-zero (neg a)

  pub neg-add_both : (a b : V) → neg (a ⊕ b) ≡ neg a ⊕ neg b
  neg-add_both a b = sym (
      neg_unique (a ⊕ b) (neg a ⊕ neg b) (
        add_middle a b (neg a) (neg b)
        ∙ ap (λ t. t ⊕ (b ⊕ neg b)) (x.add-neg a)
        ∙ zero-add (b ⊕ neg b)
        ∙ x.add-neg b))

  pub neg-sub : (a b : V) → neg (a ⊖ b) ≡ b ⊖ a
  neg-sub a b = sym (
      neg_unique (a ⊖ b) (b ⊖ a) (
        sym (rw (x.sub-neg b a) (x.add_assoc (a ⊖ b) b (neg a)))
        ∙ ap (λ t. t ⊕ neg a) (sub-add a b)
        ∙ x.add-neg a))
