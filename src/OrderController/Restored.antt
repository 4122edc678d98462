-- ===== src/OrderController/Restored.antt =====
-- RestorePositions of order/controller.go and the fills it restores from.
use ninjabot.Prelude.{
  ◌≡◌, refl, sym, ap, ◌∙◌, String, true, List, [], ◌∷◌, Option, none, some, Bool-cases,
  Option-cases, if◌then◌else◌, inl, inr, str_eq, str_eq_iff,
}
use ninjabot.Prelude.Map.{Map, lookup, insert, erase, lookup-insert, lookup-erase}
use ninjabot.Float.{Float64, ◌⊕◌, lit}
use ninjabot.Float.Laws.{IsExact, zero-add}
use ninjabot.Model.Order.{Order, is_filled, is_stop_like}
use ninjabot.OrderController.Position.{
  Position, Result, Updated, same_side, fill_price, before, insert_sorted, sort_orders,
  filled_orders, update_at, update, open_position, keep_open, apply_to_position, apply_all,
  restore_positions,
}
use ninjabot.OrderController.Exposure.{
  signed, held, exposure, gain, net_filled, net, net-filled_orders, net-sort_orders, held_left,
  update_at-held,
}

module _ {V : Type 0} where
  -- A stop order has its stop price.
  abbrev pub Priced : Order V → Type 0
  Priced o = is_stop_like o.type ≡ true → (s : V) × (o.stop ≡ some s)

  abbrev pub AllPriced : List (Order V) → Type 0
  AllPriced [] = Unit {0}
  AllPriced (o ∷ os) = Priced o × AllPriced os

  fill_price-some : (o : Order V) → Priced o → (v : V) × (fill_price o ≡ some v)
  fill_price-some o priced = elim (Bool-cases (is_stop_like o.type)) [
    | inl e ↦ let (s, has) = priced e in (s, rw e has)
    | inr e ↦ (o.price, rw e)
  ]

  filled_orders-AllPriced : (os : List (Order V)) → AllPriced os → AllPriced (filled_orders os)
  unfolding filled_orders
  filled_orders-AllPriced [] h = tt
  filled_orders-AllPriced (o ∷ os) h = elim (Bool-cases (is_filled o.status)) [
    | inl e ↦ rw e (h.0, filled_orders-AllPriced os h.1)
    | inr e ↦ rw e (filled_orders-AllPriced os h.1)
  ]

  insert_sorted-AllPriced :
      (o : Order V) (os : List (Order V)) → Priced o → AllPriced os → AllPriced (insert_sorted o os)
  unfolding insert_sorted
  insert_sorted-AllPriced o [] p h = (p, tt)
  insert_sorted-AllPriced o (a ∷ os) p h = elim (Bool-cases (before a o)) [
    | inl e ↦ rw e (h.0, insert_sorted-AllPriced o os p h.1)
    | inr e ↦ rw e (p, h)
  ]

  sort_orders-AllPriced : (os : List (Order V)) → AllPriced os → AllPriced (sort_orders os)
  unfolding sort_orders
  sort_orders-AllPriced [] h = tt
  sort_orders-AllPriced (o ∷ os) h =
      insert_sorted-AllPriced o (sort_orders os) h.0 (sort_orders-AllPriced os h.1)

module _ {V : Type 0} ⦃fl : Float64 V⦄ where
  held-insert :
      (pair k : String) (p : Position V) (m : Map (Position V))
      → exposure k (insert pair p m) ≡ (if str_eq pair k then held (some p) else exposure k m)
  held-insert pair k p m = elim (Bool-cases (str_eq pair k)) [
    | inl e ↦ rw (lookup-insert pair k p m, e)
    | inr e ↦ rw (lookup-insert pair k p m, e)
  ]

  held-erase :
      (pair k : String) (m : Map (Position V))
      → exposure k (erase pair m) ≡ (if str_eq pair k then lit 0 else exposure k m)
  held-erase pair k m = elim (Bool-cases (str_eq pair k)) [
    | inl e ↦ rw (lookup-erase pair k m, e)
    | inr e ↦ rw (lookup-erase pair k m, e)
  ]

  held-keep_open :
      (pair k : String) (u : Updated V) (m : Map (Position V))
      → exposure k (keep_open pair u m) ≡ (if str_eq pair k then held_left u else exposure k m)
  unfolding keep_open held_left
  held-keep_open pair k u m = elim (Bool-cases u.finished) [
    | inl e ↦ rw e (held-erase pair k m)
    | inr e ↦ rw e (held-insert pair k u.position m)
  ]

  update_at-id : (price : V) (o : Order V) (p : Position V) → (update_at price o p).order.id ≡ o.id
  unfolding update_at
  update_at-id price o p = elim (Bool-cases (same_side p.side o.side)) [
    | inl e ↦ rw e
    | inr e ↦ rw e
  ]

  -- What the pair of the order holds afterwards is its gain.
  as_gain :
      (o : Order V) (k : String) (m : Map (Position V)) (v : V)
      → v ≡ exposure o.pair m ⊕ signed o.side o.quantity
      → (if str_eq o.pair k then v else exposure k m) ≡ gain o k (exposure k m)
  as_gain o k m v h = elim (Bool-cases (str_eq o.pair k)) [
    | inl e ↦
        rw e (h ∙ ap (λ n. exposure n m ⊕ signed o.side o.quantity) ((str_eq_iff o.pair k).0 e))
    | inr e ↦ rw e
  ]

module _ {V : Type 0} ⦃fl : Float64 V⦄ (x : IsExact fl) where
  -- An applied order moves what its pair holds by its signed quantity, and no other pair.
  pub apply_to_position-exposure :
      (o : Order V) (m : Map (Position V))
      → Priced o
      → (r : Map (Position V) × Order V × Option (Result V)) × (apply_to_position o m ≡ some r)
        × ((k : String) → exposure k r.0 ≡ gain o k (exposure k m))
        × (r.1.id ≡ o.id)
  unfolding apply_to_position
  apply_to_position-exposure o m priced = elim (Option-cases (lookup o.pair m)) [
    | inl missing ↦ (
      (insert o.pair (open_position o) m, o, none),
      rw (missing, apply_to_position),
      λ k.
          held-insert o.pair k (open_position o) m
          ∙ as_gain o k m _ (rw missing (sym (zero-add x (signed o.side o.quantity)))),
      refl,
    )
    | inr (p, found) ↦
        let (price, has) = fill_price-some o priced in
        let u = update_at price o p in
        (
          (keep_open o.pair u m, u.order, u.result),
          rw (found, apply_to_position, update, has),
          λ k.
              held-keep_open o.pair k u m ∙ as_gain o k m _ (rw found (update_at-held x price o p)),
          update_at-id price o p,
        )
  ]

  apply_all-exposure :
      (os : List (Order V)) (m : Map (Position V))
      → AllPriced os
      → (m' : Map (Position V)) × (apply_all os m ≡ some m')
        × ((k : String) → exposure k m' ≡ net k os (exposure k m))
  unfolding apply_all net
  apply_all-exposure [] m h = (m, refl, λ k. refl)
  apply_all-exposure (o ∷ os) m h =
      let (r, ran, gained, _) = apply_to_position-exposure o m h.0 in
      let (m', rest, same) = apply_all-exposure os r.0 h.1 in
      (m', rw ran rest, λ k. same k ∙ ap (net k os) (gained k))

  -- In exact arithmetic, RestorePositions of orders whose stop orders have their stop does not
  -- panic, and what each pair holds afterwards is what it held plus the bought and minus the sold
  -- quantities of the filled orders of the pair, whatever the sequence of the orders.
  pub restore_positions-exposure :
      (os : List (Order V)) (m : Map (Position V))
      → AllPriced os
      → (m' : Map (Position V)) × (restore_positions os m ≡ some m')
        × ((k : String) → exposure k m' ≡ net_filled k os (exposure k m))
  unfolding restore_positions
  restore_positions-exposure os m h =
      let fs = filled_orders os in
      let (m', ran, same) =
        apply_all-exposure (sort_orders fs) m
          (sort_orders-AllPriced fs (filled_orders-AllPriced os h)) in
      (
        m',
        ran,
        λ k. same k ∙ net-sort_orders x k fs (exposure k m) ∙ net-filled_orders k os (exposure k m),
      )
