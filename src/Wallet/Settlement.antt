-- ===== src/Wallet/Settlement.antt =====
-- The totals when an order is executed or canceled, in exact arithmetic.
use ninjabot.Prelude.{
  ◌≡◌, refl, sym, ap, ◌∙◌, String, Bool, true, false, not, ◌&&◌, List, [], ◌∷◌, Option, none, some,
  arith, Bool-cases, if◌then◌else◌, inl, inr, ◌==◌, ◌>>=◌, ◌⊎◌, str_eq, ℕ,
}
use ninjabot.Prelude.Map.{has_key, lookup_or}
use ninjabot.Float.{Float64, ◌⊕◌, ◌⊖◌, ◌⊗◌, ◌<?◌, ◌=?◌, lit}
use ninjabot.Float.Laws.{IsExact, sub_right, add_left, add-sub}
use ninjabot.Model.Candle.{Candle}
use ninjabot.Model.Order.{SideType, buy, sell, is_buy, Order}
use ninjabot.Wallet.State.{
  PaperWallet, Pairs, info, zero_info, split_asset_quote, free, lock, ensure_asset,
}
use ninjabot.Wallet.Funds.{update_average_price}
use ninjabot.Wallet.Fill.{add_free, sub_lock, add_volume, fill_buy, fill_sell, cancel_sibling}
use ninjabot.Wallet.Cancel.{unlock, cancel_loop, cancel}
use ninjabot.Wallet.Progress.{update_average_price-Same}
use ninjabot.Wallet.Execution.{Known, fill_buy-Progress, fill_sell-Progress}
use ninjabot.Wallet.Validity.{IsValid}
use ninjabot.Wallet.Cancellation.{cancel-IsValid}
use ninjabot.Wallet.Conservation.{
  total, total_after, info-set_free, info-set_lock, sum_of, plus, minus, total-ensure_asset,
}

>>=-eq-some {ℓ κ} :
    {A : Type ℓ} {B : Type κ} (m : Option A) (f : A → Option B) {b : B}
    → (m >>= f) ≡ some b
    → (a : A) × (m ≡ some a) × (f a ≡ some b)
>>=-eq-some none f e = cc
>>=-eq-some (some a) f e = (a, refl, e)

if_some {ℓ} :
    {A : Type ℓ} (t : Bool) (a : A) {b : A} → (if t then some a else none) ≡ some b → b ≡ a
if_some true a e = ground arith
if_some false a e = cc

first_of_three {ℓ} :
    {A : Type ℓ} (t u v : Bool) (a b : Option A) (c : A) {d : A}
    → (if t then none else if u then a else if v then b else some c) ≡ some d
    → (a ≡ some d) ⊎ (b ≡ some d) ⊎ (d ≡ c)
first_of_three true u v a b c e = cc
first_of_three false true v a b c e = inl e
first_of_three false false true a b c e = inr (inl e)
first_of_three false false false a b c e = inr (inr (cc e))

some_inj {ℓ} : {A : Type ℓ} {a b : A} → some a ≡ some b → a ≡ b
some_inj e = cc

second_of_some {ℓ κ} :
    {A : Type ℓ} {B : Type κ} {a c : A} {b d : B}
    → ◌≡◌ {A = Option (A × B)} (some (a, b)) (some (c, d))
    → b ≡ d
second_of_some {A} {B} e = ap {A = A × B} (λ p. p.1) (some_inj e)

module _ {V : Type 0} ⦃fl : Float64 V⦄ (x : IsExact fl) where
  add_free-total :
      (k j : String) (v : V) (w w' : PaperWallet V)
      → add_free k v w ≡ some w'
      → total w' j ≡ plus k v j (total w j)
  unfolding add_free total
  add_free-total k j v w w' e = rw (if_some _ _ e) (
      total_after k j w _ _ (λ t. t ⊕ v) (info-set_free k j (free w k ⊕ v) w)
        (add_left x (free w k) (lock w k) v))

  sub_lock-total :
      (k j : String) (v : V) (w w' : PaperWallet V)
      → sub_lock k v w ≡ some w'
      → total w' j ≡ minus k v j (total w j)
  unfolding sub_lock total
  sub_lock-total k j v w w' e = rw (if_some _ _ e) (
      total_after k j w _ _ (λ t. t ⊖ v) (info-set_lock k j (lock w k ⊖ v) w)
        (sub_right x (free w k) (lock w k) v))

  total-assets : (w w' : PaperWallet V) (j : String) → w'.assets ≡ w.assets → total w' j ≡ total w j
  unfolding total info
  total-assets w w' j e = ap (λ m. sum_of (lookup_or zero_info j m)) e

  module _ (pairs : Pairs) (candle : Candle V) (i : ℕ) (o : Order V) where
    -- The entry of an asset, the filling of the order and the new average price move nothing.
    prepared-total :
        (side : SideType) (k : String) (v price : V) (os : List (Order V)) (j : String)
        (w : PaperWallet V)
        → let w1 : PaperWallet V = add_volume candle.pair v (ensure_asset k w) in
          total
            (update_average_price pairs side o.pair o.quantity price (record w1 { orders = os }))
            j
          ≡ total w j
    prepared-total side k v price os j w =
        let w1 : PaperWallet V = add_volume candle.pair v (ensure_asset k w) in
        total-assets (ensure_asset k w) _ j
          (update_average_price-Same pairs side o.pair o.quantity price
            (record w1 { orders = os })).1
        ∙ total-ensure_asset k j w

    fill_buy-change :
        (j : String) (w w' : PaperWallet V)
        → fill_buy pairs candle i o w ≡ some w'
        → let (asset, quote) = split_asset_quote pairs o.pair in
          total w' j ≡ minus quote (o.price ⊗ o.quantity) j (plus asset o.quantity j (total w j))
    unfolding fill_buy
    fill_buy-change j w w' e =
        let asset = (split_asset_quote pairs o.pair).0 in
        let (w1, added, rest) = >>=-eq-some (add_free asset o.quantity _) _ e in
        sub_lock-total _ j _ w1 w' rest
        ∙ ap (minus _ (o.price ⊗ o.quantity) j) (
            add_free-total asset j o.quantity _ w1 added
            ∙ ap (plus asset o.quantity j) (prepared-total buy asset _ o.price _ j w))

    fill_sell-change :
        (price : V) (j : String) (w w' : PaperWallet V)
        → fill_sell pairs candle i o price w ≡ some w'
        → let (asset, quote) = split_asset_quote pairs o.pair in
          total w' j ≡ plus quote (o.quantity ⊗ price) j (minus asset o.quantity j (total w j))
    unfolding fill_sell
    fill_sell-change price j w w' e =
        let (asset, quote) = split_asset_quote pairs o.pair in
        let (w1, taken, rest) = >>=-eq-some (sub_lock asset o.quantity _) _ e in
        let w0 : PaperWallet V = record w { orders = cancel_sibling o candle.time w.orders } in
        add_free-total quote j _ w1 w' rest
        ∙ ap (plus quote (o.quantity ⊗ price) j) (
            sub_lock-total asset j o.quantity _ w1 taken
            ∙ ap (minus asset o.quantity j)
                (prepared-total sell quote _ price _ j w0 ∙ total-assets w w0 j refl))

    -- In exact arithmetic, on a wallet that has entries for the two assets of a buy order, its
    -- execution by OnCandle does not panic, adds its quantity to the total, free and locked, of the
    -- base asset, takes price times quantity from that of the quote asset, and changes no other
    -- total.
    pub fill_buy-total :
        (w : PaperWallet V)
        → Known pairs o w
        → (w' : PaperWallet V) × (fill_buy pairs candle i o w ≡ some w')
          × ((j : String)
              → let (asset, quote) = split_asset_quote pairs o.pair in
                total w' j
                ≡ minus quote (o.price ⊗ o.quantity) j (plus asset o.quantity j (total w j)))
    fill_buy-total w known =
        let (w', ran, _, _) = fill_buy-Progress pairs candle i o w known in
        (w', ran, λ j. fill_buy-change j w w' ran)

    -- In exact arithmetic, on a wallet that has entries for the two assets of a sell order, its
    -- execution by OnCandle does not panic, takes its quantity from the total, free and locked, of
    -- the base asset, adds the quantity times the price of the execution to that of the quote
    -- asset, and changes no other total.
    pub fill_sell-total :
        (price : V) (w : PaperWallet V)
        → Known pairs o w
        → (w' : PaperWallet V) × (fill_sell pairs candle i o price w ≡ some w')
          × ((j : String)
              → let (asset, quote) = split_asset_quote pairs o.pair in
                total w' j
                ≡ plus quote (o.quantity ⊗ price) j (minus asset o.quantity j (total w j)))
    fill_sell-total price w known =
        let (w', ran, _, _) = fill_sell-Progress pairs candle i o price w known in
        (w', ran, λ j. fill_sell-change price j w w' ran)

  -- Moving funds between the two parts of one asset changes no total.
  moved-total :
      (k j : String) (v : V) (w w' : PaperWallet V)
      → (add_free k v w >>= sub_lock k v) ≡ some w'
      → total w' j ≡ total w j
  moved-total k j v w w' e =
      let (w1, added, rest) = >>=-eq-some (add_free k v w) (sub_lock k v) e in
      sub_lock-total k j v w1 w' rest
      ∙ ap (minus k v j) (add_free-total k j v w w1 added)
      ∙ back (str_eq k j)
    where
      back :
          (t : Bool)
          → (if t
              then (if t then total w j ⊕ v else total w j) ⊖ v
              else (if t then total w j ⊕ v else total w j))
            ≡ total w j
      back true = add-sub x (total w j) v
      back false = refl

  module _ (pairs : Pairs) (order : Order V) (j : String) where
    unlock-total :
        (o : Order V) (w w' : PaperWallet V)
        → unlock pairs order o w ≡ some w'
        → total w' j ≡ total w j
    unfolding unlock
    unlock-total o w w' e =
        elim (first_of_three (not (has_key (split_asset_quote pairs o.pair).0 w.assets))
          (lit 0 <? lock w (split_asset_quote pairs o.pair).0 && not (is_buy o.side))
          (lock w (split_asset_quote pairs o.pair).0 =? lit 0) _ _ w e) [
            | inl by_asset ↦ moved-total _ j _ w w' by_asset
            | inr (inl by_quote) ↦ moved-total _ j _ w w' by_quote
            | inr (inr same) ↦ ap (λ u. total u j) same
          ]

    cancel_loop-total :
        (os ps : List (Order V)) (w w' : PaperWallet V)
        → cancel_loop pairs order os w ≡ some (ps, w')
        → total w' j ≡ total w j
    unfolding cancel_loop
    cancel_loop-total [] ps w w' e = ap (λ u. total u j) (sym (second_of_some e))
    cancel_loop-total (o ∷ os) ps w w' e = elim (Bool-cases (o.exchange_id == order.exchange_id)) [
      | inl hit ↦
          let (w1, unlocked, rest) = >>=-eq-some (unlock pairs order o w) _ (rw hit at e) in
          let (r, ran, end) = >>=-eq-some (cancel_loop pairs order os w1) _ rest in
          ap (λ u. total u j) (sym (second_of_some end))
          ∙ cancel_loop-total os r.0 w1 r.1 ran
          ∙ unlock-total o w w1 unlocked
      | inr miss ↦
          let (r, ran, end) = >>=-eq-some (cancel_loop pairs order os w) _ (rw miss at e) in
          ap (λ u. total u j) (sym (second_of_some end)) ∙ cancel_loop-total os r.0 w r.1 ran
    ]

    cancel-keep : (w w' : PaperWallet V) → cancel pairs order w ≡ some w' → total w' j ≡ total w j
    unfolding cancel
    cancel-keep w w' e =
        let (r, ran, end) = >>=-eq-some (cancel_loop pairs order w.orders w) _ e in
        let same : w' ≡ record r.1 { orders = r.0 } = sym (some_inj end) in
        ap (λ u. total u j) same
        ∙ total-assets r.1 (record r.1 { orders = r.0 }) j refl
        ∙ cancel_loop-total w.orders r.0 w r.1 ran

  -- In exact arithmetic, Cancel of a well-formed wallet does not panic, and moves funds between the
  -- free and the locked part of an asset only: no total changes.
  pub cancel-total :
      (pairs : Pairs) (order : Order V) (w : PaperWallet V)
      → IsValid pairs w
      → (w' : PaperWallet V) × (cancel pairs order w ≡ some w')
        × ((j : String) → total w' j ≡ total w j)
  cancel-total pairs order w valid =
      let (w', ran, _, _) = cancel-IsValid pairs order w valid in
      (w', ran, λ j. cancel-keep pairs order j w w' ran)
