-- ===== src/Queue/Candles.antt =====
-- The queue of candles: `Candle.Less` of model/model.go is an order for it.
use ninjabot.Prelude.{◌≡◌, refl, String, true, false, arith}
use ninjabot.Model.Candle.{Candle, str_lt, less}
use ninjabot.Queue.Order.{IsWeakOrder}

str_lt-asymm : (s t : String) → str_lt s t ≡ true → str_lt t s ≡ false
unfolding str_lt
str_lt-asymm String.[] String.[] h = refl
str_lt-asymm String.[] (String.◌∷◌ d t) h = refl
str_lt-asymm (String.◌∷◌ c s) String.[] h = cc
str_lt-asymm (String.◌∷◌ c s) (String.◌∷◌ d t) h = ground (arith, str_lt-asymm s t)

str_lt_trans : (s t u : String) → str_lt t s ≡ false → str_lt u t ≡ false → str_lt u s ≡ false
unfolding str_lt
str_lt_trans String.[] String.[] String.[] h k = refl
str_lt_trans String.[] String.[] (String.◌∷◌ e u) h k = refl
str_lt_trans String.[] (String.◌∷◌ d t) String.[] h k = refl
str_lt_trans String.[] (String.◌∷◌ d t) (String.◌∷◌ e u) h k = refl
str_lt_trans (String.◌∷◌ c s) String.[] u h k = cc
str_lt_trans (String.◌∷◌ c s) (String.◌∷◌ d t) String.[] h k = cc
str_lt_trans (String.◌∷◌ c s) (String.◌∷◌ d t) (String.◌∷◌ e u) h k =
    ground (arith, str_lt_trans s t u)

module _ {V : Type 0} where
  less-asymm : (a b : Candle V) → less a b ≡ true → less b a ≡ false
  unfolding less
  less-asymm a b h = ground (arith, str_lt-asymm a.pair b.pair)

  less_trans : (a b c : Candle V) → less b a ≡ false → less c b ≡ false → less c a ≡ false
  unfolding less
  less_trans a b c h k = ground (arith, str_lt_trans a.pair b.pair c.pair)

  pub less-IsWeakOrder : IsWeakOrder (less {V = V})
  less-IsWeakOrder = record { asymm = less-asymm; trans = less_trans }
