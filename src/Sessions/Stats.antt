-- ===== src/Sessions/Stats.antt =====
-- computeSessionStats of server/handler/session_stats.go and SessionStats of model/session.go.
use ninjabot.Prelude.{
  ℕ, suc, String, Bool, not, ◌||◌, List, [], ◌∷◌, Option, none, some, if◌then◌else◌, str_eq, ltb,
}
use ninjabot.Float.{Float64, ◌⊕◌, ◌⊖◌, ◌⊗◌, ◌⊘◌, ◌<?◌, ◌≤?◌, ◌=?◌, lit}
use ninjabot.Model.Order.{Order, is_filled}
use ninjabot.Model.Account.{Balance}
use ninjabot.Model.Session.{Session}
use ninjabot.Wallet.State.{Pairs, split_asset_quote}

pub record SessionStats (V : Type 0) : Type 0 where
  pub quote : String
  pub current_price : Option V
  pub initial_value : Option V
  pub current_value : Option V
  pub pnl : Option V
  pub pnl_pct : Option V
  pub trades : ℕ
  pub closed_trades : ℕ
  pub wins : ℕ
  pub win_rate : Option V

-- The counts of the loop over the orders.
pub record Counts : Type 0 where
  pub trades : ℕ
  pub closed_trades : ℕ
  pub wins : ℕ

module _ {V : Type 0} ⦃fl : Float64 V⦄ where
  unfoldable pub count_order : Order V → Counts → Counts
  count_order o c =
      let traded : Counts = record c { trades = suc c.trades } in
      let closed : Counts = record traded { closed_trades = suc c.closed_trades } in
      if not (is_filled o.status)
      then c
      else if o.profit =? lit 0
      then traded
      else if lit 0 <? o.profit
      then record closed { wins = suc c.wins }
      else closed

  unfoldable pub count_orders : List (Order V) → Counts → Counts
  unfolding count_order
  count_orders [] c = c
  count_orders (o ∷ os) c = count_orders os (count_order o c)

  -- The value of an amount in the quote asset, for the two assets of the pair.
  abbrev pub value_of : String → String → V → String → V → Option V
  value_of base quote price asset amount =
      if str_eq asset quote
      then some amount
      else if str_eq asset base
      then some (amount ⊗ price)
      else none

  -- The loop over the balances; `none` for an amount of a third asset.
  unfoldable pub current_value_of : String → String → V → List (Balance V) → V → Option V
  current_value_of base quote price [] total = some total
  current_value_of base quote price (b ∷ bs) total =
      let amount = b.free ⊕ b.lock in
      let skipped = current_value_of base quote price bs total in
      elim (value_of base quote price b.asset amount) [
        | none ↦ if amount =? lit 0 then skipped else none
        | some value ↦ current_value_of base quote price bs (total ⊕ value)
      ]

  abbrev pub counted : String → Counts → SessionStats V
  counted quote c = record {
    quote = quote;
    current_price = none;
    initial_value = none;
    current_value = none;
    pnl = none;
    pnl_pct = none;
    trades = c.trades;
    closed_trades = c.closed_trades;
    wins = c.wins;
    win_rate = if ltb 0 c.closed_trades then some (lit c.wins ⊘ lit c.closed_trades) else none;
  }

  abbrev pub valued : V → V → V → SessionStats V → SessionStats V
  valued price initial current stats = record stats {
    current_price = some price;
    initial_value = some initial;
    current_value = some current;
    pnl = some (current ⊖ initial);
    pnl_pct = if lit 0 <? initial then some ((current ⊖ initial) ⊘ initial ⊗ lit 100) else none;
  }

  -- The values, which need those of the initial amount and of the wallet.
  abbrev pub with_values : V → Option V → Option V → SessionStats V → SessionStats V
  with_values price none current stats = stats
  with_values price (some initial) none stats = stats
  with_values price (some initial) (some current) stats = valued price initial current stats

  unfoldable pub compute_session_stats :
      Pairs → Session V → List (Balance V) → V → Bool → SessionStats V
  unfolding split_asset_quote count_orders current_value_of
  compute_session_stats pairs s balances price ok =
      let (base, quote) = split_asset_quote pairs s.pair in
      let stats =
        counted quote
          (count_orders s.orders (record { trades = 0; closed_trades = 0; wins = 0 })) in
      let initial = value_of base quote price s.initial_asset s.initial_amount in
      let current = current_value_of base quote price balances (lit 0) in
      if not ok || price ≤? lit 0 then stats else with_values price initial current stats
