-- ===== src/Model/Account.antt =====
-- Balance and Account of model/model.go.
use ninjabot.Prelude.{String, Bool, false, not, ◌&&◌, ◌||◌, List, [], ◌∷◌, str_eq, if◌then◌else◌}
use ninjabot.Float.{Float64, ◌⊕◌, lit}

pub record Balance (V : Type 0) : Type 0 where
  pub asset : String
  pub free : V
  pub lock : V
  pub leverage : V

pub record Account (V : Type 0) : Type 0 where
  pub balances : List (Balance V)

module _ {V : Type 0} ⦃fl : Float64 V⦄ where
  unfoldable pub zero_balance : Balance V
  zero_balance = record { asset = ""; free = lit 0; lock = lit 0; leverage = lit 0 }

  -- The loop of `Account.Balance`: what is known of each balance, and whether it was set. It stops
  -- once both are set.
  unfoldable pub balance_loop :
      String
      → String
      → List (Balance V)
      → Balance V × Bool
      → Balance V × Bool
      → Balance V × Balance V
  balance_loop asset_tick quote_tick [] (a, a_set) (q, q_set) = (a, q)
  balance_loop asset_tick quote_tick (b ∷ bs) (a, a_set) (q, q_set) =
      let is_asset = str_eq b.asset asset_tick in
      let is_quote = not is_asset && str_eq b.asset quote_tick in
      let a' = if is_asset then b else a in
      let q' = if is_quote then b else q in
      let a_set' = is_asset || a_set in
      let q_set' = is_quote || q_set in
      let rest = balance_loop asset_tick quote_tick bs (a', a_set') (q', q_set') in
      if a_set' && q_set' then (a', q') else rest

  unfoldable pub balance : Account V → String → String → Balance V × Balance V
  unfolding balance_loop zero_balance
  balance acc asset_tick quote_tick =
      balance_loop asset_tick quote_tick acc.balances (zero_balance, false) (zero_balance, false)

  -- The loop of `Account.Equity`.
  unfoldable pub equity_loop : V → List (Balance V) → V
  equity_loop total [] = total
  equity_loop total (b ∷ bs) = equity_loop (total ⊕ b.free ⊕ b.lock) bs

  unfoldable pub equity : Account V → V
  unfolding equity_loop
  equity acc = equity_loop (lit 0) acc.balances
