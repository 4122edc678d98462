-- ===== src/Wallet/Equity.antt =====
-- updateEquityValues of paperwallet.go. The loop over the assets runs in the order of the map's
-- list; Go leaves that order open.
use Prim.Native.Nat.{compare, Ordering}
use Prim.Native.Char.{Char, char, nul, code}
use Prim.Native.String.{◌++◌ as str_append}
use ninjabot.Prelude.{
  ℕ, ◌-◌, ◌≡◌, refl, String, List, [], ◌∷◌, none, some, leb, ◌==◌, ◌&&◌, if◌then◌else◌,
}
use ninjabot.Prelude.Map.{Map, lookup, lookup_or, insert}
use ninjabot.Float.{Float64, ◌⊕◌, ◌⊖◌, ◌⊗◌, ◌<?◌, lit, abs}
use ninjabot.Model.Candle.{Candle}
use ninjabot.Wallet.State.{PaperWallet, AssetInfo, AssetValue, last_close, price_of}

-- The character of a code below the surrogates, where the letters of asset names lie.
char_below : (n : ℕ) (o : Ordering) → compare n 55296 ≡ o → Char
char_below n Ordering.lt e = char n (rw e tt)
char_below n _ e = nul

upper_char : Char → Char
unfolding char_below
upper_char c =
    if leb b'a' (code c) && leb (code c) b'z'
    then char_below (code c - 32) (compare (code c - 32) 55296) refl
    else c

-- `strings.ToUpper`, on the ASCII letters.
unfoldable pub to_upper : String → String
unfolding upper_char
to_upper String.[] = String.[]
to_upper (String.◌∷◌ c s) = String.◌∷◌ (upper_char c) (to_upper s)

module _ {V : Type 0} where
  -- The value of the last entry is replaced if it has the candle's time, else an entry is added.
  unfoldable pub record_value : ℕ → V → List (AssetValue V) → List (AssetValue V)
  record_value time v [] = record { time = time; value = v } ∷ []
  record_value time v (x ∷ []) =
      if x.time == time
      then record x { value = v } ∷ []
      else x ∷ record { time = time; value = v } ∷ []
  record_value time v (x ∷ y ∷ xs) = x ∷ record_value time v (y ∷ xs)

module _ {V : Type 0} ⦃fl : Float64 V⦄ where
  -- What an amount of an asset is worth at the last close of its pair with the base coin.
  unfoldable pub liquid_value : PaperWallet V → String → AssetInfo V → V
  unfolding to_upper abs lookup lookup_or
  liquid_value w asset i =
      let amount = i.free ⊕ i.lock in
      let pair = to_upper (str_append asset w.base_coin) in
      let v = abs amount in
      if amount <? lit 0
      then lit 2 ⊗ v ⊗ price_of w.avg_short_price pair ⊖ v ⊗ last_close w pair
      else amount ⊗ last_close w pair

  unfoldable pub equity_loop :
      PaperWallet V
      → ℕ
      → Map (AssetInfo V)
      → V
      → Map (List (AssetValue V))
      → V × Map (List (AssetValue V))
  unfolding to_upper liquid_value record_value lookup lookup_or insert
  equity_loop w time [] total values = (total, values)
  equity_loop w time ((asset, i) ∷ assets) total values =
      let pair = to_upper (str_append asset w.base_coin) in
      let new_value = (i.free ⊕ i.lock) ⊗ last_close w pair in
      equity_loop w time assets (total ⊕ liquid_value w asset i)
        (insert asset (record_value time new_value (lookup_or [] asset values)) values)

  unfoldable pub update_equity_values : Candle V → PaperWallet V → PaperWallet V
  unfolding equity_loop record_value lookup
  update_equity_values candle w =
      let (total, values) = equity_loop w candle.time w.assets (lit 0) w.asset_values in
      let new_value : V = elim (lookup w.base_coin w.assets) [
        | some base ↦ total ⊕ base.lock ⊕ base.free
        | none ↦ total
      ] in
      if candle.complete
      then record w {
        asset_values = values;
        equity_values = record_value candle.time new_value w.equity_values;
      }
      else w
