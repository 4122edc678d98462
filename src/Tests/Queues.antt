-- ===== src/Tests/Queues.antt =====
-- The theorems of the priority queue and of the backtest at sample candles.
use mathlib.Core.List.{Perm as Same}
use ninjabot.Prelude.{
  ℕ, zero, suc, ◌+◌, sym, get_elem?, false, ◌≡◌, ◌⊎◌, ◌<◌, refl, List, [], ◌∷◌, Option, none, some,
  ◌>>=◌, length,
}
use ninjabot.Prelude.Int.{ℤ}
use ninjabot.Model.Candle.{Candle, less}
use ninjabot.Queue.{PriorityQueue, parent, new_priority_queue, push, pop}
use ninjabot.Queue.Operations.{IsValid, Popped, push-IsValid, new_priority_queue-IsValid}
use ninjabot.Queue.Removal.{pop-Popped}
use ninjabot.Queue.Candles.{less-IsWeakOrder}
use ninjabot.Bot.Candles.{backtest_candles, each_candle, enqueue}
use ninjabot.Bot.Chronology.{IsChronological, backtest_candles-IsChronological}
use ninjabot.Tests.Samples.{candle_at}

-- Three candles that arrive out of order.
abbrev three : List (Candle ℤ)
three = candle_at 120 9 ∷ candle_at 60 10 ∷ candle_at 180 11 ∷ []

-- The queue that holds them.
abbrev queue : PriorityQueue (Candle ℤ)
queue = record { items = candle_at 60 10 ∷ candle_at 120 9 ∷ candle_at 180 11 ∷ []; length = 3 }

queue-IsValid : IsValid less queue
unfolding less
queue-IsValid = record { counted = refl; heap = in_order }
  where
    some_inj : {u v : Candle ℤ} → some u ≡ some v → u ≡ v
    some_inj e = cc

    in_order :
        (c : ℕ) (x y : Candle ℤ)
        → 0 < c
        → get_elem? queue.items (parent c) ≡ some x
        → get_elem? queue.items c ≡ some y
        → less y x ≡ false
    in_order zero x y p above below = elim p [ ]
    in_order (suc zero) x y p above below = rw (sym (some_inj above), sym (some_inj below)) refl
    in_order (suc (suc zero)) x y p above below =
        rw (sym (some_inj above), sym (some_inj below)) refl
    in_order (suc (suc (suc c))) x y p above below = cc

new_priority_queue-IsValid_example :
    (q : PriorityQueue (Candle ℤ)) × (new_priority_queue less three ≡ some q)
    × IsValid less q
    × Same q.items three
new_priority_queue-IsValid_example = new_priority_queue-IsValid less less-IsWeakOrder three

push-IsValid_example :
    (q' : PriorityQueue (Candle ℤ)) × (push less (candle_at 30 8) queue ≡ some q')
    × IsValid less q'
    × Same q'.items (candle_at 30 8 ∷ queue.items)
push-IsValid_example = push-IsValid less less-IsWeakOrder (candle_at 30 8) queue queue-IsValid

pop-Popped_example :
    ((queue.length ≡ 0) × (pop less queue ≡ some (none, queue)))
    ⊎ ((0 < queue.length)
        × (top : Candle ℤ) × (rest : PriorityQueue (Candle ℤ)) × (pop less queue
            ≡ some (some top, rest))
        × Popped less queue top rest)
pop-Popped_example = pop-Popped less less-IsWeakOrder queue queue-IsValid

-- A round that adds up the times of the candles.
abbrev add_time : Candle ℤ → ℕ → Option ℕ
add_time c n = some (n + c.time)

backtest_candles-IsChronological_example :
    (q : PriorityQueue (Candle ℤ)) × ((new_priority_queue less [] >>= enqueue three) ≡ some q)
    × (cs : List (Candle ℤ)) × IsChronological cs
    × Same cs three
    × ((b : ℕ) → backtest_candles add_time (suc (length three)) q b ≡ each_candle add_time cs b)
backtest_candles-IsChronological_example = backtest_candles-IsChronological add_time three
