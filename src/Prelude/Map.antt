-- ===== src/Prelude/Map.antt =====
-- A Go map with string keys, as an association list. `range` visits the entries in list order.
use Prim.Native.String.{String}
use mathlib.Core.Path.{◌≡◌, refl}
use mathlib.Core.Bool.{Bool, true, false}
use mathlib.Core.Option.{Option, none, some}
use mathlib.Core.List.{List, [], ◌∷◌}
use native.Mathlib.Omega.{arith}
use text.Mathlib.Text.{◌==◌ as str_eq}
use text.Mathlib.TextEquality.{eq_iff}
use ninjabot.Prelude.Tests.{if◌then◌else◌}

abbrev pub Map {ℓ} : Type ℓ → Type ℓ
Map A = List (String × A)

module _ {ℓ} {A : Type ℓ} where
  unfoldable pub lookup : String → Map A → Option A
  lookup key [] = none
  lookup key ((other, value) ∷ rest) = if str_eq other key then some value else lookup key rest

  -- `m[k] = v`
  unfoldable pub insert : String → A → Map A → Map A
  insert key value [] = (key, value) ∷ []
  insert key value ((other, old) ∷ rest) =
      let inserted = insert key value rest in
      if str_eq other key then (key, value) ∷ rest else (other, old) ∷ inserted

  -- `delete(m, k)`
  unfoldable pub erase : String → Map A → Map A
  erase k [] = []
  erase k ((j, w) ∷ m) = let rest = erase k m in if str_eq j k then rest else (j, w) ∷ rest

  -- `m[k]`, with the zero value of the type for a missing key.
  abbrev pub get_or : A → Option A → A
  get_or d none = d
  get_or d (some a) = a

  unfoldable pub lookup_or : A → String → Map A → A
  lookup_or d k m = get_or d (lookup k m)

  -- `_, ok := m[k]`
  abbrev pub is_some : Option A → Bool
  is_some none = false
  is_some (some _) = true

  unfoldable pub has_key : String → Map A → Bool
  has_key k m = is_some (lookup k m)

  pub lookup-nil : (k : String) → lookup k [] ≡ none
  unfolding lookup
  lookup-nil k = refl

  pub lookup-insert :
      (key sought : String) (value : A) (m : Map A)
      → lookup sought (insert key value m)
        ≡ (if str_eq key sought then some value else lookup sought m)
  unfolding lookup insert
  lookup-insert key sought value [] = refl
  lookup-insert key sought value ((other, old) ∷ rest) = ground (
    lookup-insert key sought value rest,
    eq_iff other sought,
    eq_iff other key,
    eq_iff key sought,
    arith,
  )

  pub lookup-erase :
      (k j : String) (m : Map A) → lookup j (erase k m) ≡ (if str_eq k j then none else lookup j m)
  unfolding lookup erase
  lookup-erase k j [] = ground arith
  lookup-erase k j ((i, w) ∷ m) =
      ground (arith, eq_iff k j, eq_iff i k, eq_iff i j, lookup-erase k j m)

  pub lookup_or-insert :
      (d : A) (k j : String) (v : A) (m : Map A)
      → lookup_or d j (insert k v m) ≡ (if str_eq k j then v else lookup_or d j m)
  unfolding lookup_or
  lookup_or-insert d k j v m = ground (arith, lookup-insert k j v m)

  pub lookup_or-erase :
      (d : A) (k j : String) (m : Map A)
      → lookup_or d j (erase k m) ≡ (if str_eq k j then d else lookup_or d j m)
  unfolding lookup_or
  lookup_or-erase d k j m = ground (arith, lookup-erase k j m)

  pub lookup_or-none : (d : A) (k : String) (m : Map A) → lookup k m ≡ none → lookup_or d k m ≡ d
  unfolding lookup_or
  lookup_or-none d k m e = rw e

  pub lookup_or-some :
      (d : A) (k : String) (m : Map A) {v : A} → lookup k m ≡ some v → lookup_or d k m ≡ v
  unfolding lookup_or
  lookup_or-some d k m e = rw e

  pub lookup_or-missing :
      (d : A) (k : String) (m : Map A) → has_key k m ≡ false → lookup_or d k m ≡ d
  unfolding lookup_or has_key
  lookup_or-missing d k m h = ground arith

  -- The default may be stored under a missing key.
  pub lookup_or-insert_default :
      (d : A) (k j : String) (m : Map A)
      → has_key k m ≡ false
      → lookup_or d j (insert k d m) ≡ lookup_or d j m
  lookup_or-insert_default d k j m h =
      ground (arith, eq_iff k j, lookup_or-insert d k j d m, lookup_or-missing d k m h)

pub str_eq_refl : (s : String) → str_eq s s ≡ true
str_eq_refl s = (eq_iff s s).1 refl
