-- ===== src/Wallet/Evolution.antt =====
-- How the orders of the wallet develop: an order keeps all but its status and its time of update,
-- and once it has left the status NEW it never returns.
use ninjabot.Prelude.{
  ℕ, zero, suc, ◌≡◌, refl, ap, ◌∙◌, subst, Bool, true, false, List, [], ◌∷◌, some, arith, length,
  get_elem?, ◌==◌, ◌&&◌, not, if◌then◌else◌,
}
use ninjabot.Model.Order.{Order, is_new, filled, canceled}
use ninjabot.Wallet.Fill.{same_group, cancel_sibling, set_filled}

module _ {V : Type 0} where
  pub record Became (a b : Order V) : Type 0 where
    pub same : b ≡ record a { status = b.status; updated_at = b.updated_at }
    pub not_renewed : is_new b.status ≡ true → is_new a.status ≡ true

  abbrev pub Evolves : List (Order V) → List (Order V) → Type 0
  Evolves [] [] = Unit {0}
  Evolves [] (b ∷ bs) = ⊥
  Evolves (a ∷ as') [] = ⊥
  Evolves (a ∷ as') (b ∷ bs) = Became a b × Evolves as' bs

  pub Became-refl : (a : Order V) → Became a a
  Became-refl a = record { same = refl; not_renewed = λ h. h }

  pub Became-trans : {a b c : Order V} → Became a b → Became b c → Became a c
  Became-trans {a} {b} {c} p q = record {
    same =
        q.same
        ∙ ap (λ (o : Order V). record o { status = c.status; updated_at = c.updated_at }) p.same;
    not_renewed = λ h. p.not_renewed (q.not_renewed h);
  }

  pub Evolves-refl : (os : List (Order V)) → Evolves os os
  Evolves-refl [] = tt
  Evolves-refl (o ∷ os) = (Became-refl o, Evolves-refl os)

  pub Evolves-trans : (os ps qs : List (Order V)) → Evolves os ps → Evolves ps qs → Evolves os qs
  Evolves-trans [] [] [] e f = tt
  Evolves-trans (o ∷ os) (p ∷ ps) (q ∷ qs) e f =
      (Became-trans e.0 f.0, Evolves-trans os ps qs e.1 f.1)
  Evolves-trans [] [] (q ∷ qs) e f = elim f [ ]
  Evolves-trans [] (p ∷ ps) qs e f = elim e [ ]
  Evolves-trans (o ∷ os) [] qs e f = elim e [ ]
  Evolves-trans (o ∷ os) (p ∷ ps) [] e f = elim f [ ]

  pub length-Evolves : (os ps : List (Order V)) → Evolves os ps → length ps ≡ length os
  length-Evolves [] [] e = refl
  length-Evolves (o ∷ os) (p ∷ ps) e = ap suc (length-Evolves os ps e.1)
  length-Evolves [] (p ∷ ps) e = elim e [ ]
  length-Evolves (o ∷ os) [] e = elim e [ ]

  -- Every order of the later list stems from the one at its index.
  pub Evolves-origin :
      (os ps : List (Order V)) (i : ℕ) {b : Order V}
      → Evolves os ps
      → get_elem? ps i ≡ some b
      → (a : Order V) × (get_elem? os i ≡ some a) × Became a b
  Evolves-origin (o ∷ os) (p ∷ ps) zero {b} e g = (o, refl, subst (λ x. Became o x) (cc) e.0)
  Evolves-origin (o ∷ os) (p ∷ ps) (suc i) e g = Evolves-origin os ps i e.1 g
  Evolves-origin [] [] i e g = cc
  Evolves-origin [] (p ∷ ps) i e g = elim e [ ]
  Evolves-origin (o ∷ os) [] i e g = cc

  -- Every order of the earlier list has a successor.
  pub Evolves-next :
      (os ps : List (Order V)) (i : ℕ) {a : Order V}
      → Evolves os ps
      → get_elem? os i ≡ some a
      → (b : Order V) × (get_elem? ps i ≡ some b) × Became a b
  Evolves-next (o ∷ os) (p ∷ ps) zero e g = (p, refl, subst (λ x. Became x p) (cc) e.0)
  Evolves-next (o ∷ os) (p ∷ ps) (suc i) e g = Evolves-next os ps i e.1 g
  Evolves-next [] [] i e g = cc
  Evolves-next [] (p ∷ ps) i e g = cc
  Evolves-next (o ∷ os) [] i e g = elim e [ ]

  Evolves-if :
      (t : Bool) (os ps qs : List (Order V))
      → Evolves os ps
      → Evolves os qs
      → Evolves os (if t then ps else qs)
  Evolves-if true os ps qs p q = p
  Evolves-if false os ps qs p q = q

  pub cancel_sibling-Evolves :
      (o : Order V) (time : ℕ) (os : List (Order V)) → Evolves os (cancel_sibling o time os)
  unfolding cancel_sibling
  cancel_sibling-Evolves o time [] = tt
  cancel_sibling-Evolves o time (x ∷ os) =
      Evolves-if (same_group o.group_id x.group_id && not (x.exchange_id == o.exchange_id)) (x ∷ os)
        (record x { status = canceled; updated_at = time } ∷ os) (x ∷ cancel_sibling o time os)
        (record { same = refl; not_renewed = λ h. cc }, Evolves-refl os)
        (Became-refl x, cancel_sibling-Evolves o time os)

  pub set_filled-Evolves : (i time : ℕ) (os : List (Order V)) → Evolves os (set_filled i time os)
  unfolding set_filled
  set_filled-Evolves zero time [] = tt
  set_filled-Evolves (suc i) time [] = tt
  set_filled-Evolves zero time (x ∷ os) =
      (record { same = refl; not_renewed = λ h. cc }, Evolves-refl os)
  set_filled-Evolves (suc i) time (x ∷ os) = (Became-refl x, set_filled-Evolves i time os)

  -- The order at the index is filled.
  pub set_filled-filled :
      (i time : ℕ) (os : List (Order V)) {b : Order V}
      → get_elem? (set_filled i time os) i ≡ some b
      → b.status ≡ filled
  unfolding set_filled
  set_filled-filled zero time [] e = cc
  set_filled-filled (suc i) time [] e = cc
  set_filled-filled zero time (x ∷ os) e = ground arith
  set_filled-filled (suc i) time (x ∷ os) e = set_filled-filled i time os e
