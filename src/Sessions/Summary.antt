-- ===== src/Sessions/Summary.antt =====
-- What computeSessionStats counts and values, against counts and sums over the lists.
use ninjabot.Prelude.{
  ℕ, suc, ◌+◌, ◌≡◌, refl, String, Bool, true, false, not, ◌&&◌, ◌||◌, inl, inr, List, [], ◌∷◌,
  Option, none, some, ltb, arith, if◌then◌else◌, str_eq, Bool-cases,
}
use ninjabot.Float.{Float64, ◌⊕◌, ◌⊖◌, ◌⊗◌, ◌⊘◌, ◌<?◌, ◌≤?◌, ◌=?◌, lit}
use ninjabot.Model.Order.{Order, is_filled}
use ninjabot.Model.Account.{Balance}
use ninjabot.Model.Session.{Session}
use ninjabot.Wallet.State.{Pairs, split_asset_quote}
use ninjabot.Sessions.Stats.{
  SessionStats, Counts, count_order, count_orders, counted, valued, with_values, value_of,
  current_value_of, compute_session_stats,
}

module _ {V : Type 0} ⦃fl : Float64 V⦄ where
  -- How many orders pass the test.
  count : (Order V → Bool) → List (Order V) → ℕ
  count test [] = 0
  count test (o ∷ os) = if test o then suc (count test os) else count test os

  abbrev is_closed : Order V → Bool
  is_closed o = is_filled o.status && not (o.profit =? lit 0)

  abbrev is_won : Order V → Bool
  is_won o = is_closed o && lit 0 <? o.profit

  count_orders-count :
      (os : List (Order V)) (c : Counts)
      → let d = count_orders os c in
        (d.trades ≡ count (λ o. is_filled o.status) os + c.trades)
        × (d.closed_trades ≡ count is_closed os + c.closed_trades)
        × (d.wins ≡ count is_won os + c.wins)
  unfolding count_orders count_order count
  count_orders-count [] c = (ground arith, ground arith, ground arith)
  count_orders-count (o ∷ os) c =
      let (traded, closed, won) = count_orders-count os (count_order o c) in
      ground (arith, traded, closed, won)

  module _ (base quote : String) (price : V) where
    abbrev is_of_pair : String → Bool
    is_of_pair asset = str_eq asset quote || str_eq asset base

    -- An amount of an asset of the pair, in the quote asset.
    abbrev worth : String → V → V
    worth asset amount = if str_eq asset quote then amount else amount ⊗ price

    -- Some balance of a third asset is not zero.
    abbrev has_foreign : List (Balance V) → Bool
    has_foreign [] = false
    has_foreign (b ∷ bs) =
        (not (is_of_pair b.asset) && not (b.free ⊕ b.lock =? lit 0)) || has_foreign bs

    -- The amounts of the assets of the pair, in the quote asset.
    abbrev worths : List (Balance V) → List V
    worths [] = []
    worths (b ∷ bs) =
        if is_of_pair b.asset then worth b.asset (b.free ⊕ b.lock) ∷ worths bs else worths bs

    abbrev add_up : V → List V → V
    add_up total [] = total
    add_up total (v ∷ vs) = add_up (total ⊕ v) vs

    value_of-worth :
        (asset : String) (amount : V)
        → value_of base quote price asset amount
          ≡ (if is_of_pair asset then some (worth asset amount) else none)
    value_of-worth asset amount = elim (Bool-cases (str_eq asset quote)) [
      | inl e ↦ rw e
      | inr e ↦ elim (Bool-cases (str_eq asset base)) [ inl h ↦ rw (e, h) | inr h ↦ rw (e, h) ]
    ]

    current_value_of-sum :
        (bs : List (Balance V)) (total : V)
        → current_value_of base quote price bs total
          ≡ (if has_foreign bs then none else some (add_up total (worths bs)))
    unfolding current_value_of
    current_value_of-sum [] total = refl
    current_value_of-sum (b ∷ bs) total =
        let amount = b.free ⊕ b.lock in
        let known = value_of-worth b.asset amount in
        elim (Bool-cases (is_of_pair b.asset)) [
          | inl e ↦
              let known' : value_of base quote price b.asset amount ≡ some (worth b.asset amount) =
                rw e at known in
              rw (current_value_of, known', e)
                (current_value_of-sum bs (total ⊕ worth b.asset amount))
          | inr e ↦
              let unknown : value_of base quote price b.asset amount ≡ none = rw e at known in
              elim (Bool-cases (amount =? lit 0)) [
                | inl h ↦ rw (current_value_of, unknown, e, h) (current_value_of-sum bs total)
                | inr h ↦ rw (current_value_of, unknown, e, h)
              ]
        ]

  module _ (base quote : String) (s : Session V) (balances : List (Balance V)) (price : V)
      (ok : Bool) where
    -- The values are not known: no price above zero, or an asset that is not of the pair.
    abbrev is_unknown : Bool
    is_unknown =
        (not ok || price ≤? lit 0)
        || not (is_of_pair base quote price s.initial_asset)
        || has_foreign base quote price balances

    abbrev known : {A : Type 0} → A → Option A
    known a = if is_unknown then none else some a

    abbrev initial : V
    initial = worth base quote price s.initial_asset s.initial_amount

    abbrev current : V
    current = add_up base quote price (lit 0) (worths base quote price balances)

    abbrev percent : Option V
    percent = if lit 0 <? initial then some ((current ⊖ initial) ⊘ initial ⊗ lit 100) else none

    -- The counts are those of the orders, and the values are known all together or not at all.
    pub record IsSummary (r : SessionStats V) : Type 0 where
      named : r.quote ≡ quote
      traded : r.trades ≡ count (λ o. is_filled o.status) s.orders
      closed : r.closed_trades ≡ count is_closed s.orders
      won : r.wins ≡ count is_won s.orders
      rated : r.win_rate ≡ (
          if ltb 0 (count is_closed s.orders)
          then some (lit (count is_won s.orders) ⊘ lit (count is_closed s.orders))
          else none)
      priced : r.current_price ≡ known price
      started : r.initial_value ≡ known initial
      valued : r.current_value ≡ known current
      gained : r.pnl ≡ known (current ⊖ initial)
      rated_gain : r.pnl_pct ≡ (if is_unknown then none else percent)

    abbrev zero_counts : Counts
    zero_counts = record { trades = 0; closed_trades = 0; wins = 0 }

    abbrev exact : Counts
    exact = record {
      trades = count (λ o. is_filled o.status) s.orders;
      closed_trades = count is_closed s.orders;
      wins = count is_won s.orders;
    }

    count_orders-exact : count_orders s.orders zero_counts ≡ exact
    count_orders-exact =
        let (traded, closed, won) = count_orders-count s.orders zero_counts in
        ground (arith, traded, closed, won)

    IsSummary-unknown : is_unknown ≡ true → IsSummary (counted quote exact)
    IsSummary-unknown e = record {
      named = refl;
      traded = refl;
      closed = refl;
      won = refl;
      rated = refl;
      priced = rw e;
      started = rw e;
      valued = rw e;
      gained = rw e;
      rated_gain = rw e;
    }

    IsSummary-known :
        is_unknown ≡ false → IsSummary (valued price initial current (counted quote exact))
    IsSummary-known e = record {
      named = refl;
      traded = refl;
      closed = refl;
      won = refl;
      rated = refl;
      priced = rw e;
      started = rw e;
      valued = rw e;
      gained = rw e;
      rated_gain = rw e;
    }

    IsSummary-cases :
        (early own foreign : Bool)
        → is_unknown ≡ (early || not own || foreign)
        → IsSummary (
            if early
            then counted quote exact
            else with_values price
                (if own then some initial else none)
                (if foreign then none else some current)
                (counted quote exact))
    IsSummary-cases true own foreign e = IsSummary-unknown e
    IsSummary-cases false false foreign e = IsSummary-unknown e
    IsSummary-cases false true true e = IsSummary-unknown e
    IsSummary-cases false true false e = IsSummary-known e

  -- computeSessionStats counts as trades the filled orders, as closed trades those with a profit
  -- that is not zero and as wins those with one above zero, and its win rate is wins by closed trades
  -- if there is one. If the price is known and above zero, the initial asset is of the pair and no
  -- balance of a third asset is different from zero, the initial value is that of the initial amount,
  -- the current one the sum over the balances in the pair's assets, both in the quote asset, the
  -- profit their difference, and its percentage that of an initial value above zero; otherwise none
  -- of the values is known.
  pub compute_session_stats-IsSummary :
      (pairs : Pairs) (s : Session V) (balances : List (Balance V)) (price : V) (ok : Bool)
      → let (base, quote) = split_asset_quote pairs s.pair in
        IsSummary base quote s balances price ok (compute_session_stats pairs s balances price ok)
  unfolding compute_session_stats
  compute_session_stats-IsSummary pairs s balances price ok =
      let (base, quote) = split_asset_quote pairs s.pair in
      rw
        (
          count_orders-exact base quote s balances price ok,
          value_of-worth base quote price s.initial_asset s.initial_amount,
          current_value_of-sum base quote price balances (lit 0),
        )
        (IsSummary-cases base quote s balances price ok (not ok || price ≤? lit 0)
          (is_of_pair base quote price s.initial_asset) (has_foreign base quote price balances)
          refl)
