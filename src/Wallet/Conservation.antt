-- ===== src/Wallet/Conservation.antt =====
-- What the methods do to the total, free and locked, of each asset, in exact arithmetic.
use ninjabot.Prelude.{
  ◌≡◌, refl, sym, ap, ◌∙◌, String, Bool, true, false, Bool-cases, if◌then◌else◌, inl, inr, str_eq,
  str_eq_iff,
}
use ninjabot.Prelude.Map.{has_key, lookup_or-insert, lookup_or-insert_default, is_some}
use mathlib.Core.Path.{ap₂}
use ninjabot.Float.{Float64, ◌⊕◌, ◌⊖◌, ◌⊗◌, ◌<?◌}
use ninjabot.Float.Laws.{IsExact, sub-add, sub_left, add_left, add_right_comm, sub-sub-add-add}
use ninjabot.Model.Order.{buy, sell}
use ninjabot.Wallet.State.{
  PaperWallet, Pairs, AssetInfo, info, zero_info, split_asset_quote, free, lock, set_free, set_lock,
  ensure_asset,
}
use ninjabot.Wallet.Funds.{
  take_free, give_free, give_lock, lock_both, sell_funds, owed_part, buy_funds, amount_to_buy,
  validate_sell, validate_buy, validate_funds,
}

module _ {V : Type 0} ⦃fl : Float64 V⦄ where
  abbrev pub sum_of : AssetInfo V → V
  sum_of i = i.free ⊕ i.lock

  -- All that the wallet holds of an asset.
  unfoldable pub total : PaperWallet V → String → V
  total w k = free w k ⊕ lock w k

  pub info-set_free :
      (k j : String) (v : V) (w : PaperWallet V)
      → info (set_free k v w) j
        ≡ (if str_eq k j then record { free = v; lock = lock w k } else info w j)
  unfolding set_free info
  info-set_free k j v w = lookup_or-insert zero_info k j _ w.assets

  pub info-set_lock :
      (k j : String) (v : V) (w : PaperWallet V)
      → info (set_lock k v w) j
        ≡ (if str_eq k j then record { free = free w k; lock = v } else info w j)
  unfolding set_lock info
  info-set_lock k j v w = lookup_or-insert zero_info k j _ w.assets

  info-ensure_asset : (k j : String) (w : PaperWallet V) → info (ensure_asset k w) j ≡ info w j
  unfolding ensure_asset info
  info-ensure_asset k j w = elim (Bool-cases (has_key k w.assets)) [
    | inl known ↦ rw (known, ensure_asset)
    | inr missing ↦
        rw (missing, ensure_asset) (lookup_or-insert_default zero_info k j w.assets missing)
  ]

  pub total-ensure_asset :
      (k j : String) (w : PaperWallet V) → total (ensure_asset k w) j ≡ total w j
  unfolding total
  total-ensure_asset k j w = ap sum_of (info-ensure_asset k j w)

  -- The total after one of the two parts of the asset `k` was replaced.
  pub total_after :
      (k j : String) (w : PaperWallet V) (i i' : AssetInfo V) (change : V → V)
      → i' ≡ (if str_eq k j then i else info w j)
      → sum_of i ≡ change (total w k)
      → sum_of i' ≡ (if str_eq k j then change (total w j) else total w j)
  unfolding total
  total_after k j w i i' change same changed = elim (Bool-cases (str_eq k j)) [
    | inl e ↦ rw (same, e) (changed ∙ ap (λ n. change (sum_of (info w n))) ((str_eq_iff k j).0 e))
    | inr e ↦ rw (same, e)
  ]

module _ {V : Type 0} ⦃fl : Float64 V⦄ (x : IsExact fl) where
  pub total-take_free :
      (k j : String) (v : V) (w : PaperWallet V)
      → total (take_free k v w) j ≡ (if str_eq k j then total w j ⊖ v else total w j)
  unfolding total take_free
  total-take_free k j v w =
      total_after k j w _ _ (λ t. t ⊖ v) (info-set_free k j (free w k ⊖ v) w)
        (sub_left x (free w k) (lock w k) v)

  pub total-give_free :
      (k j : String) (v : V) (w : PaperWallet V)
      → total (give_free k v w) j ≡ (if str_eq k j then total w j ⊕ v else total w j)
  unfolding total give_free
  total-give_free k j v w =
      total_after k j w _ _ (λ t. t ⊕ v) (info-set_free k j (free w k ⊕ v) w)
        (add_left x (free w k) (lock w k) v)

  pub total-give_lock :
      (k j : String) (v : V) (w : PaperWallet V)
      → total (give_lock k v w) j ≡ (if str_eq k j then total w j ⊕ v else total w j)
  unfolding total give_lock
  total-give_lock k j v w =
      total_after k j w _ _ (λ t. t ⊕ v) (info-set_lock k j (lock w k ⊕ v) w)
        (sym (x.add_assoc (free w k) (lock w k) v))

-- `t`, changed by `v` if `k` is the asset `j`.
module _ {V : Type 0} ⦃fl : Float64 V⦄ where
  abbrev pub plus : String → V → String → V → V
  plus k v j t = if str_eq k j then t ⊕ v else t

  abbrev pub minus : String → V → String → V → V
  minus k v j t = if str_eq k j then t ⊖ v else t

module _ {V : Type 0} ⦃fl : Float64 V⦄ (x : IsExact fl) where
  total-lock_both :
      (asset quote j : String) (a q : V) (w : PaperWallet V)
      → total (lock_both asset quote a q w) j ≡ plus quote q j (plus asset a j (total w j))
  unfolding lock_both
  total-lock_both asset quote j a q w =
      total-give_lock x quote j q _ ∙ ap (plus quote q j) (total-give_lock x asset j a w)

  -- The sell branch: what is taken from the free part of two assets is locked.
  total-sell_reserve :
      (asset quote j : String) (a q : V) (w : PaperWallet V)
      → total (lock_both asset quote a q (take_free quote q (take_free asset a w))) j ≡ total w j
  total-sell_reserve asset quote j a q w =
      total-lock_both asset quote j a q _
      ∙ ap (λ t. plus quote q j (plus asset a j t))
          (total-take_free x quote j q _ ∙ ap (minus quote q j) (total-take_free x asset j a w))
      ∙ back (str_eq asset j) (str_eq quote j) (total w j)
    where
      minus_if : Bool → V → V → V
      minus_if t v u = if t then u ⊖ v else u

      plus_if : Bool → V → V → V
      plus_if t v u = if t then u ⊕ v else u

      back : (s t : Bool) (v : V) → plus_if t q (plus_if s a (minus_if t q (minus_if s a v))) ≡ v
      back true true v = sub-sub-add-add x v a q
      back true false v = sub-add x v a
      back false true v = sub-add x v q
      back false false v = refl

  -- The buy branch: the part that is owed is added to the free and to the locked amount.
  total-buy_reserve :
      (asset quote j : String) (a q : V) (w : PaperWallet V)
      → total (lock_both asset quote a q (take_free quote q (give_free asset a w))) j
        ≡ (if str_eq asset j then total w j ⊕ a ⊕ a else total w j)
  total-buy_reserve asset quote j a q w =
      total-lock_both asset quote j a q _
      ∙ ap (λ t. plus quote q j (plus asset a j t))
          (total-take_free x quote j q _ ∙ ap (minus quote q j) (total-give_free x asset j a w))
      ∙ back (str_eq asset j) (str_eq quote j) (total w j)
    where
      minus_if : Bool → V → V → V
      minus_if t v u = if t then u ⊖ v else u

      plus_if : Bool → V → V → V
      plus_if t v u = if t then u ⊕ v else u

      back :
          (s t : Bool) (v : V)
          → plus_if t q (plus_if s a (minus_if t q (plus_if s a v))) ≡ (if s then v ⊕ a ⊕ a else v)
      back true true v = add_right_comm x (v ⊕ a ⊖ q) a q ∙ ap (λ t. t ⊕ a) (sub-add x (v ⊕ a) q)
      back true false v = refl
      back false true v = sub-add x v q
      back false false v = refl

module _ {V : Type 0} ⦃fl : Float64 V⦄ (x : IsExact fl) (pairs : Pairs) where
  ensured : String → PaperWallet V → PaperWallet V
  ensured pair w =
      ensure_asset (split_asset_quote pairs pair).1
        (ensure_asset (split_asset_quote pairs pair).0 w)

  total-ensured : (pair j : String) (w : PaperWallet V) → total (ensured pair w) j ≡ total w j
  unfolding ensured
  total-ensured pair j w =
      total-ensure_asset (split_asset_quote pairs pair).1 j _
      ∙ total-ensure_asset (split_asset_quote pairs pair).0 j w

  free-ensured : (pair j : String) (w : PaperWallet V) → free (ensured pair w) j ≡ free w j
  unfolding ensured
  free-ensured pair j w =
      ap (λ (i : AssetInfo V). i.free)
        (info-ensure_asset (split_asset_quote pairs pair).1 j _
          ∙ info-ensure_asset (split_asset_quote pairs pair).0 j w)

  validate_sell-total :
      (asset quote pair j : String) (amount value : V) (w : PaperWallet V)
      → total (validate_sell pairs asset quote pair amount value false w).0 j ≡ total w j
  unfolding validate_sell
  validate_sell-total asset quote pair j amount value w =
      elim (Bool-cases (sell_funds asset quote value w <? amount ⊗ value)) [
        | inl short ↦ rw short
        | inr enough ↦ rw enough (total-sell_reserve x asset quote j _ _ w)
      ]

  validate_buy-total :
      (asset quote pair j : String) (amount value : V) (w : PaperWallet V)
      → let owed = owed_part (free w asset) amount in
        let (w', failed) = validate_buy pairs asset quote pair amount value false w in
        total w' j ≡ (
          if is_some failed
          then total w j
          else if str_eq asset j
          then total w j ⊕ owed ⊕ owed
          else total w j)
  unfolding validate_buy
  validate_buy-total asset quote pair j amount value w =
      elim (Bool-cases
        (buy_funds asset quote pair value w <? amount_to_buy (free w asset) amount ⊗ value)) [
          | inl short ↦ rw short
          | inr enough ↦ rw enough (total-buy_reserve x asset quote j _ _ w)
        ]

  -- Reserving the funds of a sell order that waits, or failing to, leaves the total of every
  -- asset as it was.
  pub validate_funds-total_sell :
      (pair j : String) (amount value : V) (w : PaperWallet V)
      → total (validate_funds pairs sell pair amount value false w).0 j ≡ total w j
  unfolding validate_funds ensured
  validate_funds-total_sell pair j amount value w =
      validate_sell-total _ _ pair j amount value (ensured pair w) ∙ total-ensured pair j w

  -- A buy order that waits leaves the totals as they were where it fails, and else raises that of
  -- the base asset by twice the part of the amount that is owed on a short position.
  pub validate_funds-total_buy :
      (pair j : String) (amount value : V) (w : PaperWallet V)
      → let asset = (split_asset_quote pairs pair).0 in
        let owed = owed_part (free w asset) amount in
        let (w', failed) = validate_funds pairs buy pair amount value false w in
        total w' j ≡ (
          if is_some failed
          then total w j
          else if str_eq asset j
          then total w j ⊕ owed ⊕ owed
          else total w j)
  unfolding validate_funds ensured
  validate_funds-total_buy pair j amount value w =
      let asset = (split_asset_quote pairs pair).0 in
      let owed = λ (f : V). owed_part f amount in
      validate_buy-total asset (split_asset_quote pairs pair).1 pair j amount value (ensured pair w)
      ∙ ap₂
          (λ (t f : V).
            if is_some (validate_funds pairs buy pair amount value false w).1
            then t
            else if str_eq asset j
            then t ⊕ owed f ⊕ owed f
            else t)
          (total-ensured pair j w) (free-ensured pair asset w)
