-- ===== src/Sessions/Balances.antt =====
-- CalculateBalancesFromOrders of server/handler/signal_manager.go and sessionBalances of
-- session_stats.go for a session that has no bot.
use ninjabot.Prelude.{
  ◌≡◌, sym, ap, ◌∙◌, String, List, [], ◌∷◌, if◌then◌else◌, str_eq, str_eq_iff, arith, Bool-cases,
  inl, inr,
}
use ninjabot.Prelude.Map.{Map, insert, lookup_or, lookup_or-insert, lookup_or-none, lookup-nil}
use ninjabot.Float.{Float64, ◌⊕◌, ◌⊖◌, ◌⊗◌, ◌<?◌, lit}
use ninjabot.Float.Laws.{IsExact, sub-add, sub_right}
use ninjabot.Model.Order.{Order, is_filled, is_buy}
use ninjabot.Model.Account.{Balance}
use ninjabot.Model.Session.{Session}
use ninjabot.Wallet.State.{Pairs, split_asset_quote}

module _ {V : Type 0} ⦃fl : Float64 V⦄ where
  -- `m[asset] += v` and `m[asset] -= v`
  abbrev pub increase : String → V → Map V → Map V
  increase asset v m = insert asset (lookup_or (lit 0) asset m ⊕ v) m

  abbrev pub decrease : String → V → Map V → Map V
  decrease asset v m = insert asset (lookup_or (lit 0) asset m ⊖ v) m

module _ {V : Type 0} ⦃fl : Float64 V⦄ (pairs : Pairs) where
  -- An order of the loop.
  unfoldable pub settle_order : Order V → Map V → Map V
  unfolding insert lookup_or split_asset_quote
  settle_order o m =
      let a = split_asset_quote pairs o.pair in
      let value = o.price ⊗ o.quantity in
      let settled =
        if is_buy o.side
        then decrease a.1 value (increase a.0 o.quantity m)
        else decrease a.0 o.quantity (increase a.1 value m) in
      if is_filled o.status then settled else m

  unfoldable pub settle_orders : List (Order V) → Map V → Map V
  unfolding settle_order
  settle_orders [] m = m
  settle_orders (o ∷ os) m = settle_orders os (settle_order o m)

  unfoldable pub calculate_balances_from_orders : Session V → Map V
  unfolding settle_orders insert
  calculate_balances_from_orders s =
      settle_orders s.orders (insert s.initial_asset s.initial_amount [])

  -- What a filled order adds to an asset.
  unfoldable pub flow : String → Order V → V
  unfolding split_asset_quote
  flow asset o =
      let a = split_asset_quote pairs o.pair in
      let value = o.price ⊗ o.quantity in
      let bought = (if str_eq a.0 asset then o.quantity else lit 0) in
      let spent = (if str_eq a.1 asset then value else lit 0) in
      if is_filled o.status
      then (if is_buy o.side then bought ⊖ spent else spent ⊖ bought)
      else lit 0

  unfoldable pub net_flow : String → List (Order V) → V
  unfolding flow
  net_flow asset [] = lit 0
  net_flow asset (o ∷ os) = flow asset o ⊕ net_flow asset os

  module _ (exact : IsExact fl) where
    sub-zero : (x : V) → x ⊖ lit 0 ≡ x
    sub-zero x = sym (exact.add-zero (x ⊖ lit 0)) ∙ sub-add exact x (lit 0)

    add-sub_assoc : (x a b : V) → x ⊕ a ⊖ b ≡ x ⊕ (a ⊖ b)
    add-sub_assoc x a b = sym (sub_right exact x a b)

    lookup_or-increase :
        (k asset : String) (v : V) (m : Map V)
        → lookup_or (lit 0) asset (increase k v m)
          ≡ lookup_or (lit 0) asset m ⊕ (if str_eq k asset then v else lit 0)
    lookup_or-increase k asset v m = ground (
      arith,
      lookup_or-insert (lit 0) k asset (lookup_or (lit 0) k m ⊕ v) m,
      str_eq_iff k asset,
      exact.add-zero (lookup_or (lit 0) asset m),
    )

    lookup_or-decrease :
        (k asset : String) (v : V) (m : Map V)
        → lookup_or (lit 0) asset (decrease k v m)
          ≡ lookup_or (lit 0) asset m ⊖ (if str_eq k asset then v else lit 0)
    lookup_or-decrease k asset v m = ground (
      arith,
      lookup_or-insert (lit 0) k asset (lookup_or (lit 0) k m ⊖ v) m,
      str_eq_iff k asset,
      sub-zero (lookup_or (lit 0) asset m),
    )

    -- The two sides of a filled order.
    bought-flow :
        (asset base quote : String) (quantity value : V) (m : Map V)
        → lookup_or (lit 0) asset (decrease quote value (increase base quantity m))
          ≡ lookup_or (lit 0) asset m
            ⊕ ((if str_eq base asset then quantity else lit 0)
                ⊖ (if str_eq quote asset then value else lit 0))
    bought-flow asset base quote quantity value m =
        lookup_or-decrease quote asset value (increase base quantity m)
        ∙ ap (λ x. x ⊖ (if str_eq quote asset then value else lit 0))
            (lookup_or-increase base asset quantity m)
        ∙ add-sub_assoc (lookup_or (lit 0) asset m) _ _

    settle_order-flow :
        (asset : String) (o : Order V) (m : Map V)
        → lookup_or (lit 0) asset (settle_order o m) ≡ lookup_or (lit 0) asset m ⊕ flow asset o
    unfolding settle_order flow
    settle_order-flow asset o m =
        let (base, quote) = split_asset_quote pairs o.pair in
        let value = o.price ⊗ o.quantity in
        elim (Bool-cases (is_filled o.status)) [
          | inr waits ↦ rw waits (sym (exact.add-zero (lookup_or (lit 0) asset m)))
          | inl filled ↦ elim (Bool-cases (is_buy o.side)) [
            | inl bought ↦ rw (filled, bought) (bought-flow asset base quote o.quantity value m)
            | inr sold ↦ rw (filled, sold) (bought-flow asset quote base value o.quantity m)
          ]
        ]

    settle_orders-net_flow :
        (asset : String) (os : List (Order V)) (m : Map V)
        → lookup_or (lit 0) asset (settle_orders os m)
          ≡ lookup_or (lit 0) asset m ⊕ net_flow asset os
    unfolding settle_orders net_flow
    settle_orders-net_flow asset [] m = sym (exact.add-zero (lookup_or (lit 0) asset m))
    settle_orders-net_flow asset (o ∷ os) m =
        settle_orders-net_flow asset os (settle_order o m)
        ∙ ap (λ x. x ⊕ net_flow asset os) (settle_order-flow asset o m)
        ∙ exact.add_assoc (lookup_or (lit 0) asset m) (flow asset o) (net_flow asset os)

    -- In exact arithmetic, CalculateBalancesFromOrders gives each asset what the session started with
    -- of it plus what its filled orders moved: bought and received amounts less sold and spent ones.
    pub calculate_balances_from_orders-net_flow :
        (asset : String) (s : Session V)
        → lookup_or (lit 0) asset (calculate_balances_from_orders s)
          ≡ (if str_eq s.initial_asset asset then s.initial_amount else lit 0)
            ⊕ net_flow asset s.orders
    unfolding calculate_balances_from_orders
    calculate_balances_from_orders-net_flow asset s =
        settle_orders-net_flow asset s.orders (insert s.initial_asset s.initial_amount [])
        ∙ ap (λ x. x ⊕ net_flow asset s.orders)
            (lookup_or-insert (lit 0) s.initial_asset asset s.initial_amount []
              ∙ ap (λ x. if str_eq s.initial_asset asset then s.initial_amount else x)
                  (lookup_or-none (lit 0) asset [] (lookup-nil asset)))

  -- sessionBalances for a session that has no bot, with the least amount that is shown.
  unfoldable pub stored_balances : V → Session V → List (Balance V)
  unfolding calculate_balances_from_orders
  stored_balances least s = listed (calculate_balances_from_orders s)
    where
      listed : Map V → List (Balance V)
      listed [] = []
      listed ((asset, amount) ∷ m) =
          let rest = listed m in
          if least <? amount
          then record { asset = asset; free = amount; lock = lit 0; leverage = lit 0 } ∷ rest
          else rest
