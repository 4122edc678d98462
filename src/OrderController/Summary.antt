-- ===== src/OrderController/Summary.antt =====
-- The type `summary` of order/controller.go: the realized results of a pair, and what is reported
-- of them. `math.Sqrt` is a parameter.
use ninjabot.Prelude.{
  ℕ, ◌+◌, String, Bool, true, false, List, [], ◌∷◌, ◌++◌, ◌==◌, length, if◌then◌else◌, ◌||◌,
}
use ninjabot.Float.{Float64, ◌⊕◌, ◌⊖◌, ◌⊗◌, ◌⊘◌, ◌≤?◌, ◌=?◌, lit, abs}
use ninjabot.Model.Order.{SideType, is_buy}

pub record Summary (V : Type 0) : Type 0 where
  pub pair : String
  pub win_long : List V
  pub win_long_percent : List V
  pub win_short : List V
  pub win_short_percent : List V
  pub lose_long : List V
  pub lose_long_percent : List V
  pub lose_short : List V
  pub lose_short_percent : List V
  pub volume : V
  pub cached_win : List V
  pub cached_win_percent : List V
  pub cached_lose : List V
  pub cached_lose_percent : List V
  pub cache_valid : Bool

module _ {V : Type 0} where
  abbrev pub invalidate_cache : Summary V → Summary V
  invalidate_cache s = record s { cache_valid = false }

  unfoldable pub rebuild_cache : Summary V → Summary V
  rebuild_cache s = record s {
    cached_win = s.win_long ++ s.win_short;
    cached_win_percent = s.win_long_percent ++ s.win_short_percent;
    cached_lose = s.lose_long ++ s.lose_short;
    cached_lose_percent = s.lose_long_percent ++ s.lose_short_percent;
    cache_valid = true;
  }

  -- What the four getters do to the summary before they read it.
  unfoldable pub refresh : Summary V → Summary V
  unfolding rebuild_cache
  refresh s = if s.cache_valid then s else rebuild_cache s

  -- `Win`, `WinPercent`, `Lose` and `LosePercent`: the list, and the summary with its cache.
  abbrev pub win : Summary V → List V × Summary V
  win s = ((refresh s).cached_win, refresh s)

  abbrev pub win_percent : Summary V → List V × Summary V
  win_percent s = ((refresh s).cached_win_percent, refresh s)

  abbrev pub lose : Summary V → List V × Summary V
  lose s = ((refresh s).cached_lose, refresh s)

  abbrev pub lose_percent : Summary V → List V × Summary V
  lose_percent s = ((refresh s).cached_lose_percent, refresh s)

  -- A getter whose result alone is used.
  abbrev pub wins : Summary V → List V
  wins s = (win s).0

  abbrev pub losses : Summary V → List V
  losses s = (lose s).0

  abbrev pub trades : Summary V → ℕ
  trades s = length (wins s) + length (losses s)

  -- The lists that the loops of Profit and SQN go through.
  abbrev pub all_results : Summary V → List V
  all_results s = wins s ++ losses s

module _ {V : Type 0} ⦃fl : Float64 V⦄ where
  -- `&summary{Pair: pair}`
  abbrev pub new_summary : String → Summary V
  new_summary pair = record {
    pair = pair;
    win_long = [];
    win_long_percent = [];
    win_short = [];
    win_short_percent = [];
    lose_long = [];
    lose_long_percent = [];
    lose_short = [];
    lose_short_percent = [];
    volume = lit 0;
    cached_win = [];
    cached_win_percent = [];
    cached_lose = [];
    cached_lose_percent = [];
    cache_valid = false;
  }

  -- `for _, value := range values { total += value }`
  unfoldable pub sum_from : V → List V → V
  sum_from total [] = total
  sum_from total (v ∷ vs) = sum_from (total ⊕ v) vs

  unfoldable pub profit : Summary V → V
  unfolding refresh sum_from
  profit s = sum_from (lit 0) (all_results s)

  -- The loop of SQN.
  unfoldable pub deviation_from : V → V → List V → V
  deviation_from average total [] = total
  deviation_from average total (v ∷ vs) =
      deviation_from average (total ⊕ (v ⊖ average) ⊗ (v ⊖ average)) vs

  -- SQN
  unfoldable pub sqn : (V → V) → Summary V → V
  unfolding refresh profit deviation_from
  sqn sqrt s =
      let total = lit (trades s) in
      let average = profit s ⊘ total in
      let deviation = sqrt (deviation_from average (lit 0) (all_results s) ⊘ total) in
      if total =? lit 0
      then lit 0
      else if deviation =? lit 0
      then lit 0
      else sqrt total ⊗ (profit s ⊘ total) ⊘ deviation

  unfoldable pub payoff : Summary V → V
  unfolding refresh sum_from abs
  payoff s =
      let won = sum_from (lit 0) (win_percent s).0 in
      let lost = sum_from (lit 0) (lose_percent s).0 in
      if length (wins s) == 0 || length (losses s) == 0 || lost =? lit 0
      then lit 0
      else won ⊘ lit (length (wins s)) ⊘ abs (lost ⊘ lit (length (losses s)))

  unfoldable pub profit_factor : Summary V → V
  unfolding refresh sum_from abs
  profit_factor s =
      if length (losses s) == 0
      then lit 0
      else sum_from (lit 0) (win_percent s).0 ⊘ abs (sum_from (lit 0) (lose_percent s).0)

  unfoldable pub win_percentage : Summary V → V
  unfolding refresh
  win_percentage s =
      if trades s == 0 then lit 0 else lit (length (wins s)) ⊘ lit (trades s) ⊗ lit 100

  -- The list of updatePosition that a result goes to, by its sign and the side of the position.
  unfoldable pub record_result : SideType → V → V → Summary V → Summary V
  record_result side percent value s =
      let t = invalidate_cache s in
      if lit 0 ≤? percent
      then (if is_buy side
          then record t {
            win_long = t.win_long ++ value ∷ [];
            win_long_percent = t.win_long_percent ++ percent ∷ [];
          }
          else record t {
            win_short = t.win_short ++ value ∷ [];
            win_short_percent = t.win_short_percent ++ percent ∷ [];
          })
      else (if is_buy side
          then record t {
            lose_long = t.lose_long ++ value ∷ [];
            lose_long_percent = t.lose_long_percent ++ percent ∷ [];
          }
          else record t {
            lose_short = t.lose_short ++ value ∷ [];
            lose_short_percent = t.lose_short_percent ++ percent ∷ [];
          })
