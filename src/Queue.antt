-- ===== src/Queue.antt =====
-- model/priorityqueue.go: a binary heap in a slice. An item is a value of any type with `Less`. The
-- callbacks of PopLock are left out; the mutex makes a method atomic.
pub mod Order
pub mod Exchange
pub mod Sink
pub mod Down
pub mod Up
pub mod Operations
pub mod Removal
pub mod Candles
use ninjabot.Prelude.{
  ℕ, zero, suc, ◌+◌, ◌-◌, ◌*◌, ◌/◌, Bool, true, false, ◌&&◌, not, List, [], ◌∷◌, ◌++◌, Option, none,
  some, ◌>>=◌, ltb, ◌==◌, length, get_elem?, set, take, if◌then◌else◌,
}

pub record PriorityQueue (A : Type 0) : Type 0 where
  pub items : List A
  pub length : ℕ

-- Len and Peek.
abbrev pub len : {A : Type 0} → PriorityQueue A → ℕ
len q = q.length

unfoldable pub peek : {A : Type 0} → PriorityQueue A → Option (Option A)
peek q = if q.length == 0 then some none else (get_elem? q.items 0 >>= λ top. some (some top))

abbrev pub parent : ℕ → ℕ
parent pos = (pos - 1) / 2

module _ {A : Type 0} (less : A → A → Bool) where
  -- The child of `pos` that the loop of `down` looks at, with its item.
  unfoldable pub best_child : ℕ → List A → ℕ → Option (ℕ × A)
  best_child n a pos =
      let left = 2 * pos + 1 in
      let right = left + 1 in
      get_elem? a left >>= λ best.
      if ltb right n
      then (get_elem? a right >>= λ other.
          some (if less other best then (right, other) else (left, best)))
      else some (left, best)

  -- The loop of `down` in the first `n` items, with its rounds; `none` is a panic or no rounds left.
  unfoldable pub down_loop : ℕ → ℕ → List A → A → ℕ → Option (List A)
  unfolding best_child
  down_loop zero n a item pos = none
  down_loop (suc k) n a item pos =
      let step = best_child n a pos >>= λ c.
      let sunk = down_loop k n (set a pos c.1) item c.0 in
      if less c.1 item then sunk else some (set a pos item) in
      if ltb pos (n / 2) then step else some (set a pos item)

  unfoldable pub down : ℕ → List A → ℕ → Option (List A)
  unfolding down_loop
  down n a pos = get_elem? a pos >>= λ item. down_loop (suc n) n a item pos

  -- The loop of `up`.
  unfoldable pub up_loop : ℕ → List A → A → ℕ → Option (List A)
  up_loop zero a item pos = none
  up_loop (suc k) a item pos =
      let step = get_elem? a (parent pos) >>= λ current.
      let risen = up_loop k (set a pos current) item (parent pos) in
      if less item current then risen else some (set a pos item) in
      if ltb 0 pos then step else some (set a pos item)

  unfoldable pub up : List A → ℕ → Option (List A)
  unfolding up_loop
  up a pos = get_elem? a pos >>= λ item. up_loop (suc pos) a item pos

  -- The loop of NewPriorityQueue, from `i` down to 0.
  unfoldable pub heapify : ℕ → List A → Option (List A)
  unfolding down
  heapify zero a = down (length a) a zero
  heapify (suc i) a = down (length a) a (suc i) >>= λ b. heapify i b

  unfoldable pub new_priority_queue : List A → Option (PriorityQueue A)
  unfolding heapify
  new_priority_queue [] = some (record { items = []; length = 0 })
  new_priority_queue (x ∷ xs) = heapify (length (x ∷ xs) / 2) (x ∷ xs) >>= λ b.
      some (record { items = b; length = length (x ∷ xs) })

  unfoldable pub push : A → PriorityQueue A → Option (PriorityQueue A)
  unfolding up
  push item q = up (q.items ++ item ∷ []) (q.length + 1 - 1) >>= λ b.
      some (record { items = b; length = q.length + 1 })

  -- The items after the first was read, and the length was lowered to `n`.
  unfoldable pub refill : ℕ → List A → Option (List A)
  unfolding down
  refill zero a = some a
  refill (suc n) a = get_elem? a (suc n) >>= λ last. down (suc n) (set a 0 last) 0

  -- The item and the next state; the item is nil for an empty queue.
  unfoldable pub pop : PriorityQueue A → Option (Option A × PriorityQueue A)
  unfolding refill
  pop q =
      let popped = get_elem? q.items 0 >>= λ top. refill (q.length - 1) q.items >>= λ b.
      some (some top, record { items = take (length b - 1) b; length = q.length - 1 }) in
      if q.length == 0 then some (none, q) else popped
