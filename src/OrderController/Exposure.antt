-- ===== src/OrderController/Exposure.antt =====
-- The open positions against the filled orders, in exact arithmetic: what a position holds, long
-- as a positive and short as a negative quantity.
use ninjabot.Prelude.{
  ◌≡◌, refl, sym, ap, ◌∙◌, String, true, false, List, [], ◌∷◌, Option, none, some, Bool-cases,
  if◌then◌else◌, inl, inr, str_eq,
}
use ninjabot.Prelude.Map.{Map, lookup}
use ninjabot.Float.{Float64, ◌⊕◌, ◌⊖◌, ◌<?◌, ◌=?◌, lit, neg}
use ninjabot.Float.Laws.{IsExact, add_right_comm, neg-add, neg-add_both, neg-sub}
use ninjabot.Model.Order.{SideType, buy, sell, Order, is_filled}
use ninjabot.OrderController.Position.{
  Position, Updated, same_side, before, insert_sorted, sort_orders, filled_orders, update_at,
}

module _ {V : Type 0} ⦃fl : Float64 V⦄ where
  -- A quantity with the sign of its side.
  abbrev pub signed : SideType → V → V
  signed buy q = q
  signed sell q = neg q

  -- What the pair's position holds; nothing without a position.
  abbrev pub held : Option (Position V) → V
  held none = lit 0
  held (some p) = signed p.side p.quantity

  -- What is left open after Update.
  unfoldable pub held_left : Updated V → V
  held_left u = if u.finished then lit 0 else held (some u.position)

  abbrev pub exposure : String → Map (Position V) → V
  exposure pair m = held (lookup pair m)

  -- A total after an order: the pair of the order gains its signed quantity.
  abbrev pub gain : Order V → String → V → V
  gain o pair v = if str_eq o.pair pair then v ⊕ signed o.side o.quantity else v

  -- The total of the filled orders of the pair, on top of `v`.
  unfoldable pub net_filled : String → List (Order V) → V → V
  net_filled pair [] v = v
  net_filled pair (o ∷ os) v = net_filled pair os (if is_filled o.status then gain o pair v else v)

  -- The same of all orders of the pair.
  unfoldable pub net : String → List (Order V) → V → V
  net pair [] v = v
  net pair (o ∷ os) v = net pair os (gain o pair v)

  pub net-filled_orders :
      (pair : String) (os : List (Order V)) (v : V)
      → net pair (filled_orders os) v ≡ net_filled pair os v
  unfolding net net_filled filled_orders
  net-filled_orders pair [] v = refl
  net-filled_orders pair (o ∷ os) v = elim (Bool-cases (is_filled o.status)) [
    | inl e ↦ rw e (net-filled_orders pair os (gain o pair v))
    | inr e ↦ rw e (net-filled_orders pair os v)
  ]

module _ {V : Type 0} ⦃fl : Float64 V⦄ (x : IsExact fl) where
  gain_comm :
      (a b : Order V) (pair : String) (v : V)
      → gain a pair (gain b pair v) ≡ gain b pair (gain a pair v)
  gain_comm a b pair v = elim (Bool-cases (str_eq a.pair pair)) [
    | inl e ↦ elim (Bool-cases (str_eq b.pair pair)) [
      | inl f ↦ rw (e, f) (add_right_comm x v _ _)
      | inr f ↦ rw (e, f)
    ]
    | inr e ↦ rw e
  ]

  net-insert_sorted :
      (pair : String) (o : Order V) (os : List (Order V)) (v : V)
      → net pair (insert_sorted o os) v ≡ net pair os (gain o pair v)
  unfolding net insert_sorted
  net-insert_sorted pair o [] v = refl
  net-insert_sorted pair o (a ∷ os) v = elim (Bool-cases (before a o)) [
    | inl e ↦
        rw e (net-insert_sorted pair o os (gain a pair v) ∙ ap (net pair os) (gain_comm o a pair v))
    | inr e ↦ rw e
  ]

  pub net-sort_orders :
      (pair : String) (os : List (Order V)) (v : V) → net pair (sort_orders os) v ≡ net pair os v
  unfolding net sort_orders
  net-sort_orders pair [] v = refl
  net-sort_orders pair (o ∷ os) v =
      net-insert_sorted pair o (sort_orders os) v ∙ net-sort_orders pair os (gain o pair v)

  after_turn : (s : SideType) (q v : V) → signed s (q ⊕ v) ≡ signed s q ⊕ signed s v
  after_turn buy q v = refl
  after_turn sell q v = neg-add_both x q v

  -- What Update leaves of the position, in the three cases of an order of the other side.
  closed-zero :
      (p s : SideType) (q v : V) → same_side p s ≡ false → q ≡ v → lit 0 ≡ signed p q ⊕ signed s v
  closed-zero buy sell q v other e = sym (x.add-neg v) ∙ ap (λ t. t ⊕ neg v) (sym e)
  closed-zero sell buy q v other e = sym (neg-add x v) ∙ ap (λ t. neg t ⊕ v) (sym e)
  closed-zero buy buy q v other e = cc
  closed-zero sell sell q v other e = cc

  reduced :
      (p s : SideType) (q v : V)
      → same_side p s ≡ false
      → signed p (q ⊖ v) ≡ signed p q ⊕ signed s v
  reduced buy sell q v other = x.sub-neg q v
  reduced sell buy q v other = neg-sub x q v ∙ x.sub-neg v q ∙ x.add_comm v (neg q)
  reduced buy buy q v other = cc
  reduced sell sell q v other = cc

  turned :
      (p s : SideType) (q v : V)
      → same_side p s ≡ false
      → signed s (v ⊖ q) ≡ signed p q ⊕ signed s v
  turned buy sell q v other = neg-sub x v q ∙ x.sub-neg q v
  turned sell buy q v other = x.sub-neg v q ∙ x.add_comm v (neg q)
  turned buy buy q v other = cc
  turned sell sell q v other = cc

  same_side_eq : (p s : SideType) → same_side p s ≡ true → p ≡ s
  same_side_eq buy buy e = refl
  same_side_eq sell sell e = refl
  same_side_eq buy sell e = cc
  same_side_eq sell buy e = cc

  pub update_at-held :
      (price : V) (o : Order V) (p : Position V)
      → held_left (update_at price o p) ≡ held (some p) ⊕ signed o.side o.quantity
  unfolding update_at held_left
  update_at-held price o p = elim (Bool-cases (same_side p.side o.side)) [
    | inl same ↦ rw same (
        after_turn p.side p.quantity o.quantity
        ∙ ap (λ s. signed p.side p.quantity ⊕ signed s o.quantity)
            (same_side_eq p.side o.side same))
    | inr other ↦ elim (Bool-cases (p.quantity =? o.quantity)) [
      | inl e ↦
          rw (other, e)
            (closed-zero p.side o.side p.quantity o.quantity other
              (x.ordered.eq_sound p.quantity o.quantity e))
      | inr e ↦ elim (Bool-cases (o.quantity <? p.quantity)) [
        | inl f ↦ rw (other, e, f) (reduced p.side o.side p.quantity o.quantity other)
        | inr f ↦ rw (other, e, f) (turned p.side o.side p.quantity o.quantity other)
      ]
    ]
  ]
