-- ===== src/Float/Integers.antt =====
-- The integers as an exact instance: amounts that are whole multiples of a unit. Division rounds
-- towards zero; `max_float` and the two text functions are arbitrary values that suit the type.
use ninjabot.Prelude.{◌≡◌, true, some, arith}
use ninjabot.Prelude.Int.{
  ℤ, pos, ◌+ℤ◌, ◌-ℤ◌, ◌*ℤ◌, div_ℤ, ltb_ℤ, leb_ℤ, eqb_ℤ, int_laws, eq_of_parts,
}
use ninjabot.Float.{Float64}
use ninjabot.Float.Laws.{IsOrdered, IsExact}

instance abbrev pub integers : Float64 ℤ
integers = record {
  lit = pos;
  max_float = pos 1000000000000;
  add = ◌+ℤ◌;
  sub = ◌-ℤ◌;
  mul = ◌*ℤ◌;
  div = div_ℤ;
  neg = λ a. pos 0 -ℤ a;
  lt = ltb_ℤ;
  le = leb_ℤ;
  eq = eqb_ℤ;
  format = λ a. "0";
  parse = λ s. some (pos 1);
}

pub integers-IsOrdered : IsOrdered integers
integers-IsOrdered = record {
  le_refl = λ a. ground arith;
  le_trans = λ a b c p q. ground arith;
  le_total = λ a b. ground arith;
  le_antisym = λ a b p q. eq_of_parts a b (ground arith);
  lt-le = λ a b. ground arith;
  eq-refl = λ a. ground arith;
  eq_sound = λ a b p. eq_of_parts a b (ground arith);
}

+ℤ_mono : (a b c : ℤ) → leb_ℤ a b ≡ true → leb_ℤ (a +ℤ c) (b +ℤ c) ≡ true
unfolding ◌+ℤ◌
+ℤ_mono a b c h = ground arith

pub integers-IsExact : IsExact integers
integers-IsExact = record {
  ordered = integers-IsOrdered;
  add_comm = λ a b. omega int_laws;
  add_assoc = λ a b c. omega int_laws;
  add-zero = λ a. omega int_laws;
  sub-neg = λ a b. omega int_laws;
  add-neg = λ a. omega int_laws;
  add_mono = +ℤ_mono;
}
