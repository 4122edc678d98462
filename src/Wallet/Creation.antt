-- ===== src/Wallet/Creation.antt =====
-- The methods that create orders keep the wallet well formed, and change nothing but zero entries
-- of assets where they fail.
use ninjabot.Prelude.{
  ℕ, ◌≡◌, refl, String, Bool, true, false, Option, none, some, ◌>>=◌, ◌⊎◌, Option-cases, Bool-cases,
  inl, inr,
}
use ninjabot.Prelude.Map.{has_key}
use ninjabot.Float.{Float64, ◌=?◌, lit}
use ninjabot.Model.Order.{SideType, sell}
use ninjabot.Wallet.State.{PaperWallet, Pairs, split_asset_quote, last_close}
use ninjabot.Wallet.Funds.{validate_funds}
use ninjabot.Wallet.Create.{
  draft, next_id, submit, create_order_limit, create_order_stop, create_order_oco,
  create_order_market, create_order_market_quote, quantity_of,
}
use ninjabot.Wallet.Progress.{Progress}
use ninjabot.Wallet.Reservation.{validate_funds-Progress}
use ninjabot.Wallet.Validity.{IsValid, IsValid-step}
use ninjabot.Wallet.Submission.{IsValid-append, submit-IsValid}

module _ {V : Type 0} ⦃fl : Float64 V⦄ (pairs : Pairs) where
  IsValid-Progress : (w w' : PaperWallet V) → Progress w w' → IsValid pairs w → IsValid pairs w'
  IsValid-Progress w w' p v =
      IsValid-step pairs w w' v p.evolved p.kept (λ k i m. rw p.same_pending at m)
        (λ k i m. inl (rw p.same_pending m))

  module _ (w : PaperWallet V) (v : IsValid pairs w) where
    -- The wallet that validateFunds returns is well formed, and knows the assets of the pair.
    reserved :
        (side : SideType) (pair : String) (amount value : V) (fill : Bool)
        → let w' = (validate_funds pairs side pair amount value fill w).0 in
          IsValid pairs w'
          × (has_key (split_asset_quote pairs pair).0 w'.assets ≡ true)
          × (has_key (split_asset_quote pairs pair).1 w'.assets ≡ true)
    reserved side pair amount value fill =
        let (p, base, quote) = validate_funds-Progress pairs side pair amount value fill w in
        (IsValid-Progress w _ p v, base, quote)

    pub create_order_limit-IsValid :
        (side : SideType) (pair : String) (size price : V)
        → IsValid pairs (create_order_limit pairs side pair size price w).0
    unfolding create_order_limit draft
    create_order_limit-IsValid side pair size price =
        let w' = (validate_funds pairs side pair size price false w).0 in
        let (valid, base, quote) = reserved side pair size price false in
        elim (Bool-cases (size =? lit 0)) [
          | inl zero_size ↦ rw zero_size v
          | inr sized ↦ elim (Option-cases (validate_funds pairs side pair size price false w).1) [
            | inr (e, failed) ↦ rw (sized, failed) valid
            | inl passed ↦
                rw (sized, passed) (submit-IsValid pairs w' _ valid (base, quote) (λ h. cc))
          ]
        ]

    pub create_order_stop-IsValid :
        (pair : String) (size price : V)
        → IsValid pairs (create_order_stop pairs pair size price w).0
    unfolding create_order_stop draft
    create_order_stop-IsValid pair size price =
        let w' = (validate_funds pairs sell pair size price false w).0 in
        let (valid, base, quote) = reserved sell pair size price false in
        elim (Bool-cases (size =? lit 0)) [
          | inl zero_size ↦ rw zero_size v
          | inr sized ↦ elim (Option-cases (validate_funds pairs sell pair size price false w).1) [
            | inr (e, failed) ↦ rw (sized, failed) valid
            | inl passed ↦
                rw (sized, passed)
                  (submit-IsValid pairs w' _ valid (base, quote) (λ h. (price, refl)))
          ]
        ]

    pub create_order_oco-IsValid :
        (side : SideType) (pair : String) (size price stop stop_limit : V)
        → IsValid pairs (create_order_oco pairs side pair size price stop stop_limit w).0
    unfolding create_order_oco draft submit
    create_order_oco-IsValid side pair size price stop stop_limit =
        let w' = (validate_funds pairs side pair size price false w).0 in
        let g : PaperWallet V = record w' { counter = next_id w' } in
        let (valid, base, quote) = reserved side pair size price false in
        let numbered : IsValid pairs g = record {
          fit = valid.fit;
          indexed = valid.indexed;
          listed = valid.listed;
        } in
        elim (Bool-cases (size =? lit 0)) [
          | inl zero_size ↦ rw zero_size v
          | inr sized ↦ elim (Option-cases (validate_funds pairs side pair size price false w).1) [
            | inr (e, failed) ↦ rw (sized, failed) valid
            | inl passed ↦
                rw (sized, passed)
                  (submit-IsValid pairs _ _
                    (submit-IsValid pairs g _ numbered (base, quote) (λ h. cc)) (base, quote)
                    (λ h. (stop, refl)))
          ]
        ]

    pub create_order_market-IsValid :
        (side : SideType) (pair : String) (size : V)
        → IsValid pairs (create_order_market pairs side pair size w).0
    unfolding create_order_market draft
    create_order_market-IsValid side pair size =
        let close = last_close w pair in
        let w' = (validate_funds pairs side pair size close true w).0 in
        let (valid, base, quote) = reserved side pair size close true in
        elim (Bool-cases (size =? lit 0)) [
          | inl zero_size ↦ rw zero_size v
          | inr sized ↦ elim (Option-cases (validate_funds pairs side pair size close true w).1) [
            | inr (e, failed) ↦ rw (sized, failed) valid
            | inl passed ↦
                rw (sized, passed)
                  (IsValid-append pairs w' _ _ false valid (base, quote) (λ h. cc) (λ h. cc) refl
                    refl (λ k. refl))
          ]
        ]

    pub create_order_market_quote-IsValid :
        (lot_size : String → String → String → ℕ → Option String) (side : SideType) (pair : String)
        (quote_quantity : V)
        → (quantity_of pairs lot_size pair quote_quantity w ≡ none)
          ⊎ ((w' : PaperWallet V) × (create_order_market_quote pairs lot_size side pair
                    quote_quantity w
                  >>= (λ r. some r.0)
                ≡ some w')
              × IsValid pairs w')
    unfolding create_order_market_quote
    create_order_market_quote-IsValid lot_size side pair quote_quantity =
        elim (Option-cases (quantity_of pairs lot_size pair quote_quantity w)) [
          | inl refused ↦ inl refused
          | inr (quantity, answer) ↦ inr (elim (Option-cases (fl.parse quantity)) [
            | inl unread ↦ (w, rw (create_order_market_quote, answer, unread), v)
            | inr (size, read) ↦ (
              _,
              rw (create_order_market_quote, answer, read),
              create_order_market-IsValid side pair size,
            )
          ])
        ]
