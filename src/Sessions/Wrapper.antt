-- ===== src/Sessions/Wrapper.antt =====
-- SessionStorageWrapper of server/handler/signal_manager.go, and the assets that buildBot gives the
-- paper wallet of a session.
use ninjabot.Prelude.{String, List, [], ◌∷◌, if◌then◌else◌}
use ninjabot.Prelude.Map.{Map}
use ninjabot.Float.{Float64, ◌<?◌}
use ninjabot.Model.Session.{Session}
use ninjabot.OrderController.State.{Storage}
use ninjabot.Wallet.State.{Pairs, PaperWallet, with_paper_asset, new_paper_wallet}
use ninjabot.Sessions.Balances.{calculate_balances_from_orders}

-- The storage of the order controller, with the id of the session put into what is written.
unfoldable pub session_storage : {S V : Type 0} → String → Storage S V → Storage S V
session_storage id st = record st {
  create_order = λ o s. st.create_order (record o { session_id = id }) s;
  update_order = λ o s. st.update_order (record o { session_id = id }) s;
}

module _ {V : Type 0} ⦃fl : Float64 V⦄ (pairs : Pairs) where
  -- The options of the wallet, for the amounts above the least one that counts.
  unfoldable pub asset_options : V → Map V → List (PaperWallet V → PaperWallet V)
  unfolding with_paper_asset
  asset_options least [] = []
  asset_options least ((asset, amount) ∷ m) =
      let rest = asset_options least m in
      if least <? amount then with_paper_asset asset amount ∷ rest else rest

  unfoldable pub session_wallet : V → Session V → PaperWallet V
  unfolding asset_options calculate_balances_from_orders new_paper_wallet
  session_wallet least s =
      new_paper_wallet "USDT" (asset_options least (calculate_balances_from_orders pairs s))
