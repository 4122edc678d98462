-- ===== src/Wallet/Refusal.antt =====
-- The CreateOrder methods of the paper wallet where they fail.
use ninjabot.Prelude.{
  ◌≡◌, ◌≢◌, refl, sym, ap, ◌∙◌, String, Bool, true, false, inl, inr, Option, none, some, Bool-cases,
  arith, subst, if◌then◌else◌,
}
use ninjabot.Prelude.Map.{has_key, lookup_or-insert_default}
use ninjabot.Float.{Float64, ◌⊗◌, ◌<?◌, ◌=?◌, lit}
use ninjabot.Model.Order.{SideType, sell, is_buy}
use ninjabot.Wallet.State.{
  PaperWallet, Pairs, Result, ok, err, WalletError, invalid_quantity, split_asset_quote,
  ensure_asset, free, lock, info, zero_info, last_close,
}
use ninjabot.Wallet.Funds.{
  validate_funds, validate_buy, validate_sell, sell_funds, buy_funds, amount_to_buy,
}
use ninjabot.Wallet.Create.{
  create_order_limit, create_order_stop, create_order_oco, create_order_market,
}

module _ {V : Type 0} ⦃fl : Float64 V⦄ where
  -- Orders, pending lists, counter and volume are the same, and so are the funds of every asset.
  pub record IsUntouched (w w' : PaperWallet V) : Type 0 where
    pub orders : w'.orders ≡ w.orders
    pub pending : w'.pending_orders ≡ w.pending_orders
    pub counter : w'.counter ≡ w.counter
    pub volume : w'.volume ≡ w.volume
    pub funds : (k : String) → (free w' k ≡ free w k) × (lock w' k ≡ lock w k)

  untouched : (w : PaperWallet V) → IsUntouched w w
  untouched w = record {
    orders = refl;
    pending = refl;
    counter = refl;
    volume = refl;
    funds = λ k. (refl, refl);
  }

  ensure_asset-IsUntouched :
      (k : String) (w w' : PaperWallet V) → IsUntouched w w' → IsUntouched w (ensure_asset k w')
  unfolding ensure_asset info
  ensure_asset-IsUntouched k w w' v = elim (Bool-cases (has_key k w'.assets)) [
    | inl there ↦ rw (ensure_asset, there) v
    | inr missing ↦
        let same = λ (j : String). lookup_or-insert_default zero_info k j w'.assets missing in
        rw (ensure_asset, missing)
          (record {
            orders = v.orders;
            pending = v.pending;
            counter = v.counter;
            volume = v.volume;
            funds = λ j. (
              ap (λ a. a.free) (same j) ∙ (v.funds j).0,
              ap (λ a. a.lock) (same j) ∙ (v.funds j).1,
            );
          })
  ]

module _ {V : Type 0} ⦃fl : Float64 V⦄ (pairs : Pairs) where
  validate_buy-failed :
      (asset quote pair : String) (amount value : V) (fill : Bool) (w : PaperWallet V)
      {e : WalletError V}
      → (validate_buy pairs asset quote pair amount value fill w).1 ≡ some e
      → (validate_buy pairs asset quote pair amount value fill w).0 ≡ w
  unfolding validate_buy
  validate_buy-failed asset quote pair amount value fill w h =
      elim (Bool-cases
        (buy_funds asset quote pair value w <? amount_to_buy (free w asset) amount ⊗ value)) [
          | inl short ↦ rw short
          | inr enough ↦ absurd (ground (arith, enough, h))
        ]

  validate_sell-failed :
      (asset quote pair : String) (amount value : V) (fill : Bool) (w : PaperWallet V)
      {e : WalletError V}
      → (validate_sell pairs asset quote pair amount value fill w).1 ≡ some e
      → (validate_sell pairs asset quote pair amount value fill w).0 ≡ w
  unfolding validate_sell
  validate_sell-failed asset quote pair amount value fill w h =
      elim (Bool-cases (sell_funds asset quote value w <? amount ⊗ value)) [
        | inl short ↦ rw short
        | inr enough ↦ absurd (ground (arith, enough, h))
      ]

  -- validateFunds that fails has made empty entries at most.
  validate_funds-failed :
      (side : SideType) (pair : String) (amount value : V) (fill : Bool) (w : PaperWallet V)
      {e : WalletError V}
      → (validate_funds pairs side pair amount value fill w).1 ≡ some e
      → IsUntouched w (validate_funds pairs side pair amount value fill w).0
  unfolding validate_funds
  validate_funds-failed side pair amount value fill w h =
      let (asset, quote) = split_asset_quote pairs pair in
      let w1 = ensure_asset quote (ensure_asset asset w) in
      let v =
        ensure_asset-IsUntouched quote w (ensure_asset asset w)
          (ensure_asset-IsUntouched asset w w (untouched w)) in
      elim (Bool-cases (is_buy side)) [
        | inl buys ↦
            rw (validate_funds, buys)
              (subst (IsUntouched w)
                (sym (validate_buy-failed asset quote pair amount value fill w1 (rw buys at h))) v)
        | inr sells ↦
            rw (validate_funds, sells)
              (subst (IsUntouched w)
                (sym (validate_sell-failed asset quote pair amount value fill w1 (rw sells at h)))
                v)
      ]

  -- The common tail of the methods.
  refused :
      {A : Type 0} (w w' : PaperWallet V) (done : PaperWallet V × Result V A)
      (o : Option (WalletError V)) (invalid : Bool) {e : WalletError V}
      → ((a : WalletError V) → o ≡ some a → IsUntouched w w')
      → ((x : WalletError V) → done.1 ≢ err x)
      → (if invalid
          then (w, err invalid_quantity)
          else elim o as (λ _. PaperWallet V × Result V A) [ some a ↦ (w', err a) | none ↦ done ]).1
        ≡ err e
      → IsUntouched w
          (if invalid
            then (w, err invalid_quantity)
            else elim o as (λ _. PaperWallet V × Result V A) [
              | some a ↦ (w', err a)
              | none ↦ done
            ]).0
  refused w w' done o true f d h = untouched w
  refused w w' done (some a) false f d h = f a refl
  refused w w' done none false {e} f d h = absurd (d e h)

abbrev error_of : {V A : Type 0} → Result V A → Option (WalletError V)
error_of (ok a) = none
error_of (err e) = some e

is_error : {V A : Type 0} (r : Result V A) {e : WalletError V} → error_of r ≡ some e → r ≡ err e
is_error {V} (ok a) h = cc
is_error {V} (err x) h = ap err (some_inj h)
  where
    some_inj : {x y : WalletError V} → some x ≡ some y → x ≡ y
    some_inj k = cc

-- A call of one of the methods.
pub data Placement (V : Type 0) : Type 0 where
  limit_call : SideType → String → V → V → Placement V
  stop_call : String → V → V → Placement V
  oco_call : SideType → String → V → V → V → V → Placement V
  market_call : SideType → String → V → Placement V

module _ {V : Type 0} ⦃fl : Float64 V⦄ (pairs : Pairs) where
  -- The wallet after the call, and the error if there is one.
  unfoldable pub place_order : Placement V → PaperWallet V → PaperWallet V × Option (WalletError V)
  unfolding create_order_limit create_order_stop create_order_oco create_order_market
  place_order (limit_call side pair size price) w =
      let r = create_order_limit pairs side pair size price w in (r.0, error_of r.1)
  place_order (stop_call pair size price) w =
      let r = create_order_stop pairs pair size price w in (r.0, error_of r.1)
  place_order (oco_call side pair size price stop stop_limit) w =
      let r = create_order_oco pairs side pair size price stop stop_limit w in (r.0, error_of r.1)
  place_order (market_call side pair size) w =
      let r = create_order_market pairs side pair size w in (r.0, error_of r.1)

  -- A call of CreateOrderLimit, CreateOrderStop, CreateOrderOCO or CreateOrderMarket that returns an
  -- error leaves the orders, the pending lists, the counter, the volume and the free and locked
  -- funds of every asset as they were.
  pub place_order-IsUntouched :
      (p : Placement V) (w : PaperWallet V) (e : WalletError V)
      → (place_order p w).1 ≡ some e
      → IsUntouched w (place_order p w).0
  unfolding place_order create_order_limit create_order_stop create_order_oco create_order_market
  place_order-IsUntouched (limit_call side pair size price) w e h =
      refused pairs w _ _ _ (size =? lit 0)
        (λ a. validate_funds-failed pairs side pair size price false w) (λ x g. cc) (is_error _ h)
  place_order-IsUntouched (stop_call pair size price) w e h =
      refused pairs w _ _ _ (size =? lit 0)
        (λ a. validate_funds-failed pairs sell pair size price false w) (λ x g. cc) (is_error _ h)
  place_order-IsUntouched (oco_call side pair size price stop stop_limit) w e h =
      refused pairs w _ _ _ (size =? lit 0)
        (λ a. validate_funds-failed pairs side pair size price false w) (λ x g. cc) (is_error _ h)
  place_order-IsUntouched (market_call side pair size) w e h =
      refused pairs w _ _ _ (size =? lit 0)
        (λ a. validate_funds-failed pairs side pair size (last_close w pair) true w) (λ x g. cc)
        (is_error _ h)
