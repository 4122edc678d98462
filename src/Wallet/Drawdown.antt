-- ===== src/Wallet/Drawdown.antt =====
-- MaxDrawdown of paperwallet.go.
use ninjabot.Prelude.{ℕ, ◌||◌, List, [], ◌∷◌, if◌then◌else◌}
use ninjabot.Float.{Float64, ◌⊕◌, ◌⊖◌, ◌⊘◌, ◌<?◌, ◌≤?◌, ◌=?◌, lit, max_float}
use ninjabot.Wallet.State.{PaperWallet, AssetValue}

-- A window of the equity curve: the change over it, and its start and end.
pub record Window (V : Type 0) : Type 0 where
  pub min : V
  pub base : V
  pub start_time : ℕ
  pub end_time : ℕ

module _ {V : Type 0} ⦃fl : Float64 V⦄ where
  -- The local window, with the next value of the curve.
  unfoldable pub extend : AssetValue V → AssetValue V → Window V → Window V
  extend prev x l =
      let diff = x.value ⊖ prev.value in
      if lit 0 <? l.min
      then record { min = diff; base = prev.value; start_time = prev.time; end_time = x.time }
      else record l { min = l.min ⊕ diff; end_time = x.time }

  unfoldable pub keep_lower : Window V → Window V → Window V
  keep_lower l g = if l.min <? g.min then l else g

  unfoldable pub drawdown_loop : AssetValue V → List (AssetValue V) → Window V → Window V → Window V
  unfolding extend keep_lower
  drawdown_loop prev [] l g = g
  drawdown_loop prev (x ∷ xs) l g =
      drawdown_loop x xs (extend prev x l) (keep_lower (extend prev x l) g)

  abbrev pub start_window : V → Window V
  start_window m = record { min = m; base = lit 0; start_time = 0; end_time = 0 }

  -- The window that the loop finds, from two values on.
  unfoldable pub worst_window : AssetValue V → List (AssetValue V) → Window V
  unfolding drawdown_loop
  worst_window x xs = drawdown_loop x xs (start_window max_float) (start_window (lit 0))

  unfoldable pub drawdown_of : List (AssetValue V) → V × ℕ × ℕ
  unfolding worst_window
  drawdown_of [] = (lit 0, 0, 0)
  drawdown_of (x ∷ []) = (lit 0, 0, 0)
  drawdown_of (x ∷ y ∷ ys) =
      let g = worst_window x (y ∷ ys) in
      if g.min =? lit 0 || g.base ≤? lit 0
      then (lit 0, 0, 0)
      else (g.min ⊘ g.base, g.start_time, g.end_time)

  -- MaxDrawdown: the ratio of the drop to its base, and its two times.
  unfoldable pub max_drawdown : PaperWallet V → V × ℕ × ℕ
  unfolding drawdown_of
  max_drawdown w = drawdown_of w.equity_values
