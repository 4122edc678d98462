-- ===== src/Wallet/Progress.antt =====
-- What the execution of an order leaves alone, and that it cannot panic on known assets.
use ninjabot.Prelude.{
  ◌≡◌, refl, ◌∙◌, String, true, List, some, arith, str_eq, Bool-cases, inl, inr, if◌then◌else◌,
}
use ninjabot.Prelude.Map.{insert, has_key, lookup-insert, str_eq_refl}
use ninjabot.Float.{Float64, ◌⊕◌, ◌⊖◌}
use ninjabot.Model.Order.{SideType}
use ninjabot.Wallet.State.{PaperWallet, Pairs, free, lock, set_free, set_lock, ensure_asset}
use ninjabot.Wallet.Funds.{update_average_price}
use ninjabot.Wallet.Fill.{add_free, sub_lock}
use ninjabot.Wallet.Evolution.{Evolves, Evolves-refl, Evolves-trans}

pub has_key-insert {ℓ} :
    {A : Type ℓ} (k j : String) (v : A) (m : List (String × A))
    → has_key j (insert k v m) ≡ (if str_eq k j then true else has_key j m)
unfolding has_key
has_key-insert k j v m = elim (Bool-cases (str_eq k j)) [
  | inl e ↦ rw (lookup-insert k j v m, e)
  | inr e ↦ rw (lookup-insert k j v m, e)
]

module _ {V : Type 0} where
  -- The orders evolve, no asset is lost, and the pending lists and the counter stay.
  pub record Progress (w w' : PaperWallet V) : Type 0 where
    pub evolved : Evolves w.orders w'.orders
    pub kept : (k : String) → has_key k w.assets ≡ true → has_key k w'.assets ≡ true
    pub same_pending : w'.pending_orders ≡ w.pending_orders
    pub same_counter : w'.counter ≡ w.counter

  pub Progress-refl : (w : PaperWallet V) → Progress w w
  Progress-refl w = record {
    evolved = Evolves-refl w.orders;
    kept = λ k h. h;
    same_pending = refl;
    same_counter = refl;
  }

  pub Progress-trans : {u v w : PaperWallet V} → Progress u v → Progress v w → Progress u w
  Progress-trans {u} {v} {w} p q = record {
    evolved = Evolves-trans u.orders v.orders w.orders p.evolved q.evolved;
    kept = λ k h. q.kept k (p.kept k h);
    same_pending = q.same_pending ∙ p.same_pending;
    same_counter = q.same_counter ∙ p.same_counter;
  }

insert_keeps {ℓ} :
    {A : Type ℓ} (k : String) (v : A) (m : List (String × A)) (j : String)
    → has_key j m ≡ true
    → has_key j (insert k v m) ≡ true
insert_keeps k v m j h = rw has_key-insert (ground arith)

module _ {V : Type 0} ⦃fl : Float64 V⦄ where
  pub set_free-Progress : (k : String) (v : V) (w : PaperWallet V) → Progress w (set_free k v w)
  unfolding set_free
  set_free-Progress k v w = record {
    evolved = Evolves-refl w.orders;
    kept = insert_keeps k _ w.assets;
    same_pending = refl;
    same_counter = refl;
  }

  pub set_lock-Progress : (k : String) (v : V) (w : PaperWallet V) → Progress w (set_lock k v w)
  unfolding set_lock
  set_lock-Progress k v w = record {
    evolved = Evolves-refl w.orders;
    kept = insert_keeps k _ w.assets;
    same_pending = refl;
    same_counter = refl;
  }

  pub ensure_asset-Progress : (k : String) (w : PaperWallet V) → Progress w (ensure_asset k w)
  unfolding ensure_asset
  ensure_asset-Progress k w = elim (Bool-cases (has_key k w.assets)) [
    | inl e ↦ rw (e, ensure_asset) (Progress-refl w)
    | inr e ↦
        rw (e, ensure_asset)
          (record {
            evolved = Evolves-refl w.orders;
            kept = insert_keeps k _ w.assets;
            same_pending = refl;
            same_counter = refl;
          })
  ]

  pub ensure_asset-has_key :
      (k : String) (w : PaperWallet V) → has_key k (ensure_asset k w).assets ≡ true
  unfolding ensure_asset
  ensure_asset-has_key k w = elim (Bool-cases (has_key k w.assets)) [
    | inl e ↦ rw (e, ensure_asset) e
    | inr e ↦ rw (e, ensure_asset) (rw (has_key-insert, str_eq_refl))
  ]

  pub add_free-some :
      (k : String) (v : V) (w : PaperWallet V)
      → has_key k w.assets ≡ true
      → add_free k v w ≡ some (set_free k (free w k ⊕ v) w)
  unfolding add_free
  add_free-some k v w h = rw h

  pub sub_lock-some :
      (k : String) (v : V) (w : PaperWallet V)
      → has_key k w.assets ≡ true
      → sub_lock k v w ≡ some (set_lock k (lock w k ⊖ v) w)
  unfolding sub_lock
  sub_lock-some k v w h = rw h

  -- Average prices are all that updateAveragePrice writes.
  pub update_average_price-Same :
      (pairs : Pairs) (side : SideType) (pair : String) (amount value : V) (w : PaperWallet V)
      → let w' = update_average_price pairs side pair amount value w in
        (w'.orders ≡ w.orders)
        × (w'.assets ≡ w.assets)
        × (w'.pending_orders ≡ w.pending_orders)
        × (w'.counter ≡ w.counter)
  unfolding update_average_price
  update_average_price-Same pairs side pair amount value w = ground arith

  pub update_average_price-Progress :
      (pairs : Pairs) (side : SideType) (pair : String) (amount value : V) (w : PaperWallet V)
      → Progress w (update_average_price pairs side pair amount value w)
  update_average_price-Progress pairs side pair amount value w =
      let same = update_average_price-Same pairs side pair amount value w in
      record {
        evolved = rw (same.0) (Evolves-refl w.orders);
        kept = λ k h. rw (same.1) h;
        same_pending = same.2;
        same_counter = same.3;
      }
