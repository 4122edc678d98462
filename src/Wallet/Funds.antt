-- ===== src/Wallet/Funds.antt =====
-- validateFunds and updateAveragePrice of paperwallet.go.
use ninjabot.Prelude.{String, Bool, not, ◌&&◌, Option, none, some, if◌then◌else◌}
use ninjabot.Prelude.Map.{insert, lookup_or}
use ninjabot.Float.{Float64, ◌⊕◌, ◌⊖◌, ◌⊗◌, ◌⊘◌, ◌<?◌, ◌≤?◌, ◌=?◌, lit, neg, min, max, abs}
use ninjabot.Model.Order.{SideType, buy, sell, is_buy}
use ninjabot.Wallet.State.{
  PaperWallet, Pairs, WalletError, insufficient_funds, split_asset_quote, info, free, lock,
  set_free, set_lock, ensure_asset, price_of,
}

module _ {V : Type 0} ⦃fl : Float64 V⦄ where
  -- `p.avgLongPrice[pair] = v` and `p.avgShortPrice[pair] = v`.
  abbrev pub set_avg_long : String → V → PaperWallet V → PaperWallet V
  set_avg_long pair v w = record w { avg_long_price = insert pair v w.avg_long_price }

  abbrev pub set_avg_short : String → V → PaperWallet V → PaperWallet V
  set_avg_short pair v w = record w { avg_short_price = insert pair v w.avg_short_price }

  -- `p.assets[k].Free -= v`, `p.assets[k].Free += v` and `p.assets[k].Lock += v`.
  unfoldable pub take_free : String → V → PaperWallet V → PaperWallet V
  take_free k v w = set_free k (free w k ⊖ v) w

  unfoldable pub give_free : String → V → PaperWallet V → PaperWallet V
  give_free k v w = set_free k (free w k ⊕ v) w

  unfoldable pub give_lock : String → V → PaperWallet V → PaperWallet V
  give_lock k v w = set_lock k (lock w k ⊕ v) w

  -- The end of both branches for an order that waits: what was taken is locked.
  unfoldable pub lock_both : String → String → V → V → PaperWallet V → PaperWallet V
  lock_both asset quote locked_asset locked_quote w =
      give_lock quote locked_quote (give_lock asset locked_asset w)

  -- The sell branch: the funds, and the part of the amount that is held.
  unfoldable pub sell_funds : String → String → V → PaperWallet V → V
  sell_funds asset quote value w =
      if lit 0 <? free w asset then free w quote ⊕ free w asset ⊗ value else free w quote

  unfoldable pub held_part : V → V → V
  held_part held amount = min (max held (lit 0)) amount

  -- The buy branch: what closing the short position brings in, the funds, the amount to buy, and
  -- the part of the amount that is owed.
  unfoldable pub liquid_short_value : String → String → V → PaperWallet V → V
  liquid_short_value asset pair value w =
      let v = abs (free w asset) in
      if free w asset <? lit 0
      then lit 2 ⊗ v ⊗ price_of w.avg_short_price pair ⊖ v ⊗ value
      else lit 0

  unfoldable pub buy_funds : String → String → String → V → PaperWallet V → V
  buy_funds asset quote pair value w =
      if free w asset <? lit 0
      then free w quote ⊕ liquid_short_value asset pair value w
      else free w quote

  unfoldable pub amount_to_buy : V → V → V
  amount_to_buy held amount = if held <? lit 0 then amount ⊕ held else amount

  unfoldable pub owed_part : V → V → V
  owed_part held amount = min (neg (min held (lit 0))) amount

module _ {V : Type 0} ⦃fl : Float64 V⦄ (pairs : Pairs) where
  -- The profit that the function logs is left out; it is not stored. A missing asset reads as 0.
  unfoldable pub update_average_price : SideType → String → V → V → PaperWallet V → PaperWallet V
  unfolding info split_asset_quote lookup_or insert
  update_average_price side pair amount value w =
      let asset = (split_asset_quote pairs pair).0 in
      let actual_qty = free w asset in
      let long = price_of w.avg_long_price pair in
      let short = price_of w.avg_short_price pair in
      if actual_qty =? lit 0
      then if is_buy side then set_avg_long pair value w else set_avg_short pair value w
      else if lit 0 <? actual_qty && is_buy side
      then set_avg_long pair ((long ⊗ actual_qty ⊕ amount ⊗ value) ⊘ (actual_qty ⊕ amount)) w
      else if lit 0 <? actual_qty && not (is_buy side)
      then if amount ≤? actual_qty then w else set_avg_short pair value w
      else if actual_qty <? lit 0 && not (is_buy side)
      then set_avg_short pair
          ((short ⊗ neg actual_qty ⊕ amount ⊗ value) ⊘ (neg actual_qty ⊕ amount)) w
      else if actual_qty <? lit 0 && is_buy side
      then if amount ≤? neg actual_qty then w else set_avg_long pair value w
      else w

  -- The end of the sell branch for an order that is executed at once.
  unfoldable pub sell_filled : String → String → String → V → V → V → PaperWallet V → PaperWallet V
  sell_filled asset quote pair amount value locked_quote w =
      let priced = update_average_price sell pair amount value w in
      if lit 0 <? locked_quote
      then take_free asset amount priced
      else give_free quote (amount ⊗ value) priced

  unfoldable pub validate_sell :
      String
      → String
      → String
      → V
      → V
      → Bool
      → PaperWallet V
      → PaperWallet V × Option (WalletError V)
  validate_sell asset quote pair amount value fill w =
      let locked_asset = held_part (free w asset) amount in
      let locked_quote = (amount ⊖ locked_asset) ⊗ value in
      let taken = take_free quote locked_quote (take_free asset locked_asset w) in
      if sell_funds asset quote value w <? amount ⊗ value
      then (w, some (insufficient_funds pair amount))
      else (
        (if fill
            then sell_filled asset quote pair amount value locked_quote taken
            else lock_both asset quote locked_asset locked_quote taken),
        none,
      )

  -- The end of the buy branch for an order that is executed at once.
  unfoldable pub buy_filled : String → String → V → V → V → PaperWallet V → PaperWallet V
  buy_filled asset pair amount value locked_asset w =
      give_free asset (amount ⊖ locked_asset) (update_average_price buy pair amount value w)

  unfoldable pub validate_buy :
      String
      → String
      → String
      → V
      → V
      → Bool
      → PaperWallet V
      → PaperWallet V × Option (WalletError V)
  validate_buy asset quote pair amount value fill w =
      let locked_asset = owed_part (free w asset) amount in
      let locked_quote = (amount ⊖ locked_asset) ⊗ value ⊖ liquid_short_value asset pair value w in
      let taken = take_free quote locked_quote (give_free asset locked_asset w) in
      if buy_funds asset quote pair value w <? amount_to_buy (free w asset) amount ⊗ value
      then (w, some (insufficient_funds pair amount))
      else (
        (if fill
            then buy_filled asset pair amount value locked_asset taken
            else lock_both asset quote locked_asset locked_quote taken),
        none,
      )

  -- validateFunds: the wallet after the call, and the error if there is one.
  unfoldable pub validate_funds :
      SideType → String → V → V → Bool → PaperWallet V → PaperWallet V × Option (WalletError V)
  validate_funds side pair amount value fill w =
      let (asset, quote) = split_asset_quote pairs pair in
      let w' = ensure_asset quote (ensure_asset asset w) in
      if is_buy side
      then validate_buy asset quote pair amount value fill w'
      else validate_sell asset quote pair amount value fill w'
