-- ===== src/Wallet/Reservation.antt =====
-- What validateFunds leaves alone: it touches balances and average prices only, and leaves both
-- assets of the pair with an entry.
use ninjabot.Prelude.{◌≡◌, String, Bool, true, false, Bool-cases, if◌then◌else◌, inl, inr}
use ninjabot.Prelude.Map.{has_key}
use ninjabot.Float.{Float64, ◌⊗◌, ◌<?◌, lit}
use ninjabot.Model.Order.{SideType, buy, sell, is_buy}
use ninjabot.Wallet.State.{PaperWallet, Pairs, split_asset_quote, free, ensure_asset}
use ninjabot.Wallet.Funds.{
  update_average_price, validate_sell, validate_buy, validate_funds, take_free, give_free,
  give_lock, lock_both, sell_funds, sell_filled, buy_funds, amount_to_buy, buy_filled,
}
use ninjabot.Wallet.Progress.{
  Progress, Progress-refl, Progress-trans, set_free-Progress, set_lock-Progress,
  ensure_asset-Progress, ensure_asset-has_key, update_average_price-Progress,
}

module _ {V : Type 0} ⦃fl : Float64 V⦄ (pairs : Pairs) where
  Progress-if :
      (t : Bool) (w u v : PaperWallet V)
      → Progress w u
      → Progress w v
      → Progress w (if t then u else v)
  Progress-if true w u v p q = p
  Progress-if false w u v p q = q

  take_free-Progress : (k : String) (v : V) (w : PaperWallet V) → Progress w (take_free k v w)
  unfolding take_free
  take_free-Progress k v w = set_free-Progress k _ w

  give_free-Progress : (k : String) (v : V) (w : PaperWallet V) → Progress w (give_free k v w)
  unfolding give_free
  give_free-Progress k v w = set_free-Progress k _ w

  lock_both-Progress :
      (asset quote : String) (a q : V) (w : PaperWallet V)
      → Progress w (lock_both asset quote a q w)
  unfolding lock_both give_lock
  lock_both-Progress asset quote a q w =
      Progress-trans (set_lock-Progress asset _ w) (set_lock-Progress quote _ _)

  sell_filled-Progress :
      (asset quote pair : String) (amount value locked_quote : V) (w : PaperWallet V)
      → Progress w (sell_filled pairs asset quote pair amount value locked_quote w)
  unfolding sell_filled
  sell_filled-Progress asset quote pair amount value locked_quote w =
      let w1 = update_average_price pairs sell pair amount value w in
      Progress-trans (update_average_price-Progress pairs sell pair amount value w) (
        Progress-if (lit 0 <? locked_quote) w1 (take_free asset amount w1)
          (give_free quote (amount ⊗ value) w1) (take_free-Progress asset amount w1)
          (give_free-Progress quote (amount ⊗ value) w1))

  buy_filled-Progress :
      (asset pair : String) (amount value locked_asset : V) (w : PaperWallet V)
      → Progress w (buy_filled pairs asset pair amount value locked_asset w)
  unfolding buy_filled
  buy_filled-Progress asset pair amount value locked_asset w =
      Progress-trans (update_average_price-Progress pairs buy pair amount value w)
        (give_free-Progress asset _ _)

  validate_sell-Progress :
      (asset quote pair : String) (amount value : V) (fill : Bool) (w : PaperWallet V)
      → Progress w (validate_sell pairs asset quote pair amount value fill w).0
  unfolding validate_sell
  validate_sell-Progress asset quote pair amount value fill w =
      elim (Bool-cases (sell_funds asset quote value w <? amount ⊗ value)) [
        | inl short ↦ rw short (Progress-refl w)
        | inr enough ↦ rw enough (
            Progress-trans
              (Progress-trans (take_free-Progress asset _ w) (take_free-Progress quote _ _))
              (Progress-if fill _ _ _ (sell_filled-Progress asset quote pair amount value _ _)
                (lock_both-Progress asset quote _ _ _)))
      ]

  validate_buy-Progress :
      (asset quote pair : String) (amount value : V) (fill : Bool) (w : PaperWallet V)
      → Progress w (validate_buy pairs asset quote pair amount value fill w).0
  unfolding validate_buy
  validate_buy-Progress asset quote pair amount value fill w =
      elim (Bool-cases
        (buy_funds asset quote pair value w <? amount_to_buy (free w asset) amount ⊗ value)) [
          | inl short ↦ rw short (Progress-refl w)
          | inr enough ↦ rw enough (
              Progress-trans
                (Progress-trans (give_free-Progress asset _ w) (take_free-Progress quote _ _))
                (Progress-if fill _ _ _ (buy_filled-Progress asset pair amount value _ _)
                  (lock_both-Progress asset quote _ _ _)))
        ]

  -- Both assets have an entry, also where the call fails.
  pub validate_funds-Progress :
      (side : SideType) (pair : String) (amount value : V) (fill : Bool) (w : PaperWallet V)
      → let w' = (validate_funds pairs side pair amount value fill w).0 in
        Progress w w'
        × (has_key (split_asset_quote pairs pair).0 w'.assets ≡ true)
        × (has_key (split_asset_quote pairs pair).1 w'.assets ≡ true)
  unfolding validate_funds
  validate_funds-Progress side pair amount value fill w =
      let asset = (split_asset_quote pairs pair).0 in
      let quote = (split_asset_quote pairs pair).1 in
      let w1 = ensure_asset asset w in
      let w2 = ensure_asset quote w1 in
      let ensured : Progress w1 w2 = ensure_asset-Progress quote w1 in
      let rest = branch side asset quote w2 in
      (
        Progress-trans (ensure_asset-Progress asset w) (Progress-trans ensured rest),
        rest.kept asset (ensured.kept asset (ensure_asset-has_key asset w)),
        rest.kept quote (ensure_asset-has_key quote w1),
      )
    where
      branch :
          (s : SideType) (asset quote : String) (u : PaperWallet V)
          → Progress u
              (if is_buy s
                then validate_buy pairs asset quote pair amount value fill u
                else validate_sell pairs asset quote pair amount value fill u).0
      branch buy asset quote u = validate_buy-Progress asset quote pair amount value fill u
      branch sell asset quote u = validate_sell-Progress asset quote pair amount value fill u
