-- ===== src/OrderController/Publications.antt =====
-- The orders among the events of the controller.
use ninjabot.Prelude.{ℕ, ◌≡◌, refl, ap, ◌∙◌, Bool, List, [], ◌∷◌, ◌++◌}
use ninjabot.Model.Order.{Order}
use ninjabot.OrderController.Position.{Result}
use ninjabot.OrderController.State.{Event, reported, realized, published}

pub append-nil {ℓ} : {A : Type ℓ} (xs : List A) → xs ++ [] ≡ xs
append-nil [] = refl
append-nil (a ∷ xs) = ap (◌∷◌ a) (append-nil xs)

pub append_assoc {ℓ} : {A : Type ℓ} (xs ys zs : List A) → (xs ++ ys) ++ zs ≡ xs ++ (ys ++ zs)
append_assoc [] ys zs = refl
append_assoc (a ∷ xs) ys zs = ap (◌∷◌ a) (append_assoc xs ys zs)

module _ {V : Type 0} where
  -- The ids of the orders that were published, in sequence.
  unfoldable pub published_ids : List (Event V) → List ℕ
  published_ids [] = []
  published_ids (reported ∷ es) = published_ids es
  published_ids (realized r ∷ es) = published_ids es
  published_ids (published o new_order ∷ es) = o.id ∷ published_ids es

  published_ids-append :
      (es fs : List (Event V)) → published_ids (es ++ fs) ≡ published_ids es ++ published_ids fs
  unfolding published_ids
  published_ids-append [] fs = refl
  published_ids-append (reported ∷ es) fs = published_ids-append es fs
  published_ids-append (realized r ∷ es) fs = published_ids-append es fs
  published_ids-append (published o n ∷ es) fs = ap (◌∷◌ o.id) (published_ids-append es fs)

  pub published_ids-reported :
      (es : List (Event V)) → published_ids (es ++ reported ∷ []) ≡ published_ids es
  unfolding published_ids
  published_ids-reported es =
      published_ids-append es (reported ∷ []) ∙ append-nil (published_ids es)

  pub published_ids-realized :
      (r : Result V) (es : List (Event V))
      → published_ids (es ++ realized r ∷ []) ≡ published_ids es
  unfolding published_ids
  published_ids-realized r es =
      published_ids-append es (realized r ∷ []) ∙ append-nil (published_ids es)

  pub published_ids-published :
      (o : Order V) (n : Bool) (es : List (Event V))
      → published_ids (es ++ published o n ∷ []) ≡ published_ids es ++ o.id ∷ []
  unfolding published_ids
  published_ids-published o n es = published_ids-append es (published o n ∷ [])
