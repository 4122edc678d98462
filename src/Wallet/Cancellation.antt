-- ===== src/Wallet/Cancellation.antt =====
-- Cancel: it does not panic on a well-formed wallet, keeps it well formed, and cancels exactly the
-- orders with the id.
use ninjabot.Prelude.{
  ℕ, ◌≡◌, refl, String, true, not, ◌&&◌, List, [], ◌∷◌, some, map, get_elem?, Bool-cases,
  if◌then◌else◌, inl, inr, ◌==◌, ◌>>=◌, suc,
}
use ninjabot.Prelude.Map.{has_key}
use ninjabot.Float.{Float64, ◌⊕◌, ◌⊖◌, ◌⊗◌, ◌<?◌, ◌=?◌, lit}
use ninjabot.Model.Order.{is_buy, Order, canceled}
use ninjabot.Wallet.State.{PaperWallet, Pairs, split_asset_quote, free, lock, set_free, set_lock}
use ninjabot.Wallet.Fill.{add_free, sub_lock}
use ninjabot.Wallet.Cancel.{unlock, cancel_loop, cancel}
use ninjabot.Wallet.Evolution.{Became, Evolves, Became-refl}
use ninjabot.Wallet.Execution.{Known}
use ninjabot.Wallet.Progress.{
  Progress, Progress-refl, Progress-trans, set_free-Progress, set_lock-Progress, add_free-some,
  sub_lock-some,
}
use ninjabot.Wallet.Validity.{IsValid, IsValid-step}

module _ {V : Type 0} where
  -- What Cancel makes of one order.
  abbrev pub canceled_if : ℕ → Order V → Order V
  canceled_if id o = if o.exchange_id == id then record o { status = canceled } else o

  canceled_if-Became : (id : ℕ) (o : Order V) → Became o (canceled_if id o)
  canceled_if-Became id o = elim (Bool-cases (o.exchange_id == id)) [
    | inl hit ↦ rw hit (record { same = refl; not_renewed = λ h. cc })
    | inr miss ↦ rw miss (Became-refl o)
  ]

  canceled-Evolves : (id : ℕ) (os : List (Order V)) → Evolves os (map (canceled_if id) os)
  canceled-Evolves id [] = tt
  canceled-Evolves id (o ∷ os) = (canceled_if-Became id o, canceled-Evolves id os)

module _ {V : Type 0} ⦃fl : Float64 V⦄ (pairs : Pairs) where
  -- Funds move between the free and the locked part of one asset.
  abbrev pub moved : String → V → PaperWallet V → PaperWallet V
  moved k v w = let w1 = set_free k (free w k ⊕ v) w in set_lock k (lock w1 k ⊖ v) w1

  moved-some :
      (k : String) (v : V) (w : PaperWallet V)
      → has_key k w.assets ≡ true
      → (add_free k v w >>= sub_lock k v) ≡ some (moved k v w)
  moved-some k v w h =
      rw (add_free-some k v w h) (sub_lock-some k v _ ((set_free-Progress k _ w).kept k h))

  moved-Progress : (k : String) (v : V) (w : PaperWallet V) → Progress w (moved k v w)
  moved-Progress k v w = Progress-trans (set_free-Progress k _ w) (set_lock-Progress k _ _)

  unlock-Progress :
      (order o : Order V) (w : PaperWallet V)
      → Known pairs o w
      → (w' : PaperWallet V) × (unlock pairs order o w ≡ some w') × Progress w w'
  unfolding unlock
  unlock-Progress order o w known =
      let asset = (split_asset_quote pairs o.pair).0 in
      let quote = (split_asset_quote pairs o.pair).1 in
      let amount = order.price ⊗ order.quantity in
      elim (Bool-cases (lit 0 <? lock w asset && not (is_buy o.side))) [
        | inl sold ↦ (
          moved asset o.quantity w,
          rw (known.0, sold) (moved-some asset o.quantity w known.0),
          moved-Progress asset o.quantity w,
        )
        | inr rest ↦ elim (Bool-cases (lock w asset =? lit 0)) [
          | inl free_asset ↦ (
            moved quote amount w,
            rw (known.0, rest, free_asset) (moved-some quote amount w known.1),
            moved-Progress quote amount w,
          )
          | inr other ↦ (w, rw (known.0, rest, other), Progress-refl w)
        ]
      ]

  -- The loop cancels the orders with the id; the wallet that it threads keeps its orders.
  cancel_loop-Progress :
      (order : Order V) (os : List (Order V)) (w : PaperWallet V)
      → ((i : ℕ) (o : Order V) → get_elem? os i ≡ some o → Known pairs o w)
      → (w' : PaperWallet V) × (cancel_loop pairs order os w
          ≡ some (map (canceled_if order.exchange_id) os, w'))
        × Progress w w'
  unfolding cancel_loop
  cancel_loop-Progress order [] w known = (w, refl, Progress-refl w)
  cancel_loop-Progress order (o ∷ os) w known =
      elim (Bool-cases (o.exchange_id == order.exchange_id)) [
        | inl hit ↦
            let (w1, run, p) = unlock-Progress order o w (known 0 o refl) in
            let (w2, rest, q) =
              cancel_loop-Progress order os w1
                (λ i x e. let k = known (suc i) x e in (p.kept _ k.0, p.kept _ k.1)) in
            (w2, rw (hit, run, rest), Progress-trans p q)
        | inr miss ↦
            let (w2, rest, q) = cancel_loop-Progress order os w (λ i x e. known (suc i) x e) in
            (w2, rw (miss, rest), q)
      ]

  -- Cancel of a well-formed wallet returns a well-formed wallet, in which exactly the orders with
  -- the id are canceled and the others are as they were.
  pub cancel-IsValid :
      (order : Order V) (w : PaperWallet V)
      → IsValid pairs w
      → (w' : PaperWallet V) × (cancel pairs order w ≡ some w')
        × IsValid pairs w'
        × (w'.orders ≡ map (canceled_if order.exchange_id) w.orders)
  unfolding cancel
  cancel-IsValid order w v =
      let (w1, run, p) = cancel_loop-Progress order w.orders w (λ i o e. (v.fit i o e).0) in
      let w2 : PaperWallet V = record w1 {
        orders = map (canceled_if order.exchange_id) w.orders;
      } in
      (
        w2,
        rw run,
        IsValid-step pairs w w2 v (canceled-Evolves order.exchange_id w.orders) p.kept
            (λ k i m. rw p.same_pending at m) (λ k i m. inl (rw p.same_pending m)),
        refl,
      )
