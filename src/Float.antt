-- ===== src/Float.antt =====
-- Go's float64: a parameter of the development. `V` is the type of the values, and the record
-- lists the operations that the source uses. No law is part of it: a theorem that needs exact
-- arithmetic or an order takes `IsOrdered` or `IsExact` of Float/Laws as a hypothesis.
pub mod Laws
pub mod Integers
use ninjabot.Prelude.{ℕ, Bool, String, Option, if◌then◌else◌}

pub record Float64 (V : Type 0) : Type 0 where
  -- The value of a literal that is a whole number.
  pub lit : ℕ → V
  pub max_float : V
  pub add : V → V → V
  pub sub : V → V → V
  pub mul : V → V → V
  pub div : V → V → V
  pub neg : V → V
  pub lt : V → V → Bool
  pub le : V → V → Bool
  pub eq : V → V → Bool
  -- `strconv.FormatFloat(v, 'f', -1, 64)` and `strconv.ParseFloat(s, 64)`.
  pub format : V → String
  pub parse : String → Option V

module _ {V : Type 0} ⦃fl : Float64 V⦄ where
  infixl 65 ◌⊕◌ ◌⊖◌
  infixl 70 ◌⊗◌ ◌⊘◌
  infix 50 ◌<?◌ ◌≤?◌ ◌=?◌
  abbrev pub ◌⊕◌ : V → V → V
  a ⊕ b = fl.add a b

  abbrev pub ◌⊖◌ : V → V → V
  a ⊖ b = fl.sub a b

  abbrev pub ◌⊗◌ : V → V → V
  a ⊗ b = fl.mul a b

  abbrev pub ◌⊘◌ : V → V → V
  a ⊘ b = fl.div a b

  abbrev pub ◌<?◌ : V → V → Bool
  a <? b = fl.lt a b

  abbrev pub ◌≤?◌ : V → V → Bool
  a ≤? b = fl.le a b

  abbrev pub ◌=?◌ : V → V → Bool
  a =? b = fl.eq a b

  -- A literal, and the zero value of the type.
  abbrev pub lit : ℕ → V
  lit n = fl.lit n

  abbrev pub neg : V → V
  neg a = fl.neg a

  abbrev pub max_float : V
  max_float = fl.max_float

  -- `math.Min`, `math.Max` and `math.Abs` on values that are not NaN.
  unfoldable pub min : V → V → V
  min a b = if a <? b then a else b

  unfoldable pub max : V → V → V
  max a b = if b <? a then a else b

  unfoldable pub abs : V → V
  abs a = if a <? lit 0 then neg a else a
