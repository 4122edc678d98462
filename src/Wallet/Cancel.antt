-- ===== src/Wallet/Cancel.antt =====
-- Cancel of paperwallet.go.
use ninjabot.Prelude.{List, [], ◌∷◌, Option, none, some, ◌==◌, ◌&&◌, not, ◌>>=◌, if◌then◌else◌}
use ninjabot.Prelude.Map.{has_key}
use ninjabot.Float.{Float64, ◌⊗◌, ◌<?◌, ◌=?◌, lit}
use ninjabot.Model.Order.{is_buy, canceled, Order}
use ninjabot.Wallet.State.{PaperWallet, Pairs, split_asset_quote, lock}
use ninjabot.Wallet.Fill.{add_free, sub_lock}

module _ {V : Type 0} ⦃fl : Float64 V⦄ (pairs : Pairs) where
  -- The unlocking of the funds of the stored order `o`, asked for by `order`. Reading the lock of
  -- a missing asset is a panic.
  unfoldable pub unlock : Order V → Order V → PaperWallet V → Option (PaperWallet V)
  unlock order o w =
      let (asset, quote) = split_asset_quote pairs o.pair in
      let amount = order.price ⊗ order.quantity in
      let by_asset = add_free asset o.quantity w >>= sub_lock asset o.quantity in
      let by_quote = add_free quote amount w >>= sub_lock quote amount in
      if not (has_key asset w.assets)
      then none
      else if lit 0 <? lock w asset && not (is_buy o.side)
      then by_asset
      else if lock w asset =? lit 0
      then by_quote
      else some w

  -- The loop: what it changes is the orders with the id, and the funds.
  unfoldable pub cancel_loop :
      Order V → List (Order V) → PaperWallet V → Option (List (Order V) × PaperWallet V)
  cancel_loop order [] w = some ([], w)
  cancel_loop order (o ∷ os) w =
      let rest = λ (x : Order V) (w' : PaperWallet V).
        cancel_loop order os w' >>= λ r. some (x ∷ r.0, r.1) in
      if o.exchange_id == order.exchange_id
      then (unlock order o w >>= rest (record o { status = canceled }))
      else rest o w

  unfoldable pub cancel : Order V → PaperWallet V → Option (PaperWallet V)
  cancel order w = cancel_loop order w.orders w >>= λ r. some (record r.1 { orders = r.0 })
