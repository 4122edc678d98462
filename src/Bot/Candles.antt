-- ===== src/Bot/Candles.antt =====
-- processCandle, backtestCandles and onCandle of ninjabot.go.
use ninjabot.Prelude.{
  ℕ, zero, suc, String, List, [], ◌∷◌, Option, none, some, ◌>>=◌, ◌==◌, if◌then◌else◌,
}
use ninjabot.Prelude.Map.{Map, lookup, insert}
use ninjabot.Float.{Float64}
use ninjabot.Model.Candle.{Candle, less}
use ninjabot.Wallet.State.{PaperWallet, Pairs, has_pending_orders}
use ninjabot.Wallet.Fill as Wallet
use ninjabot.OrderController.State.{Storage, Exchange}
use ninjabot.OrderController.State as Orders
use ninjabot.OrderController.Trades.{update_orders}
use ninjabot.Strategy.Controller.{Dataframe, Strategy, HighFrequency, on_candle, on_partial_candle}
use ninjabot.Strategy.Controller as Frame
use ninjabot.Queue.{PriorityQueue, push, pop, len}

-- What the strategy controllers share: the order controller, whose exchange is the wallet, and the
-- state `U` of the strategy itself.
abbrev pub Shared : Type 0 → Type 0 → Type 0 → Type 0
Shared S U V = Orders.Controller S (PaperWallet V) V × U

pub record NinjaBot (S U V : Type 0) : Type 0 where
  pub shared : Shared S U V
  -- `strategiesControllers`, each without what is shared.
  pub strategies_controllers : Map (Frame.Controller (Unit {0}) V)

module _ {S U V : Type 0} where
  abbrev plug : Shared S U V → Frame.Controller (Unit {0}) V → Frame.Controller (Shared S U V) V
  plug shared c = record {
    dataframe = c.dataframe;
    strategy = shared;
    started = c.started;
    warmup_period = c.warmup_period;
  }

  abbrev unplug : Frame.Controller (Shared S U V) V → Frame.Controller (Unit {0}) V
  unplug c = record {
    dataframe = c.dataframe;
    strategy = tt;
    started = c.started;
    warmup_period = c.warmup_period;
  }

  -- A callback of the pair's strategy controller, which is a nil pointer for an unknown pair.
  unfoldable pub with_controller :
      String
      → (Frame.Controller (Shared S U V) V → Option (Frame.Controller (Shared S U V) V))
      → NinjaBot S U V
      → Option (NinjaBot S U V)
  unfolding lookup insert
  with_controller pair f n = lookup pair n.strategies_controllers >>= λ c.
      f (plug n.shared c) >>= λ c'. some (record {
        shared = c'.strategy;
        strategies_controllers = insert pair (unplug c') n.strategies_controllers;
      })

module _ {S U V : Type 0} ⦃fl : Float64 V⦄ (pairs : Pairs) (st : Storage S V)
    (ex : Exchange (PaperWallet V) V) (str : Strategy (Shared S U V) V)
    (fast : HighFrequency (Shared S U V) V) where
  -- The fills of the candle, before the strategy reacts to it.
  unfoldable pub settle : Candle V → NinjaBot S U V → Option (NinjaBot S U V)
  unfolding Wallet.on_candle update_orders has_pending_orders
  settle candle n =
      let (c, u) = n.shared in
      Wallet.on_candle pairs candle c.exchange >>= λ w.
      let c1 : Orders.Controller S (PaperWallet V) V = record c { exchange = w } in
      let updated = update_orders st ex c1 >>= λ c2. some (record n { shared = (c2, u) }) in
      if has_pending_orders c.exchange then updated else some (record n { shared = (c1, u) })

  -- The callbacks of the strategy, for a partial and for a complete candle.
  unfoldable pub run_strategies : Candle V → NinjaBot S U V → Option (NinjaBot S U V)
  unfolding with_controller on_candle on_partial_candle
  run_strategies candle n = with_controller candle.pair (on_partial_candle fast candle) n >>= λ n1.
      if candle.complete then with_controller candle.pair (on_candle str candle) n1 else some n1

  -- One round of backtestCandles.
  unfoldable pub backtest_candle : Candle V → NinjaBot S U V → Option (NinjaBot S U V)
  unfolding settle run_strategies
  backtest_candle candle n = settle candle n >>= run_strategies candle

  -- processCandle of a live bot with a paper wallet.
  unfoldable pub process_candle : Candle V → NinjaBot S U V → Option (NinjaBot S U V)
  unfolding run_strategies Wallet.on_candle Orders.on_candle
  process_candle candle n =
      let (c, u) = n.shared in
      Wallet.on_candle pairs candle c.exchange >>= λ w.
      run_strategies candle (record n { shared = (record c { exchange = w }, u) }) >>= λ n1.
      if candle.complete
      then some (record n1 { shared = (Orders.on_candle candle n1.shared.0, n1.shared.1) })
      else some n1

module _ {B V : Type 0} (round : Candle V → B → Option B) where
  -- The loop of backtestCandles around its round, with its rounds left; `none` is a panic or no
  -- rounds left.
  unfoldable pub backtest_candles : ℕ → PriorityQueue (Candle V) → B → Option B
  backtest_candles zero q b = none
  backtest_candles (suc k) q b =
      let step = pop less q >>= λ r. elim r.0 [
        | none ↦ none
        | some candle ↦ round candle b >>= λ b1. backtest_candles k r.1 b1
      ] in
      if len q == 0 then some b else step

  -- One candle after the other.
  unfoldable pub each_candle : List (Candle V) → B → Option B
  each_candle [] b = some b
  each_candle (c ∷ cs) b = round c b >>= each_candle cs

module _ {V : Type 0} where
  -- onCandle, for the candles that the data feed delivers in sequence.
  unfoldable pub enqueue :
      List (Candle V) → PriorityQueue (Candle V) → Option (PriorityQueue (Candle V))
  unfolding push
  enqueue [] q = some q
  enqueue (c ∷ cs) q = push less c q >>= enqueue cs
