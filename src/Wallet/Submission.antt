-- ===== src/Wallet/Submission.antt =====
-- The creation of orders keeps the wallet well formed.
use ninjabot.Prelude.{
  ℕ, zero, suc, ◌≡◌, refl, String, Bool, true, false, ◌&&◌, List, [], ◌∷◌, ◌++◌, some, arith,
  get_elem?, length, contains, contains-append, Bool-cases, if◌then◌else◌, inl, inr, ◌⊎◌, str_eq,
  str_eq_iff,
}
use ninjabot.Prelude.Map.{Map, lookup_or, insert, lookup_or-insert, str_eq_refl}
use ninjabot.Float.{Float64}
use ninjabot.Model.Order.{Order, is_new}
use ninjabot.Wallet.State.{PaperWallet, Pairs, pending_of}
use ninjabot.Wallet.Create.{submit}
use ninjabot.Wallet.Execution.{Known, Stopped}
use ninjabot.Wallet.Validity.{IsValid}

module _ {ℓ} {A : Type ℓ} where
  -- An element of a list with one more at the end is an old one, or the new one at the old length.
  pub last_or_old :
      (xs : List A) (y : A) (i : ℕ) {x : A}
      → get_elem? (xs ++ y ∷ []) i ≡ some x
      → (get_elem? xs i ≡ some x) ⊎ ((i ≡ length xs) × (x ≡ y))
  last_or_old [] y zero e = inr (refl, ground arith)
  last_or_old [] y (suc i) e = cc
  last_or_old (x ∷ xs) y zero e = inl e
  last_or_old (x ∷ xs) y (suc i) e = ground (arith, last_or_old xs y i e)

  pub stays :
      (xs : List A) (y : A) (i : ℕ) {x : A}
      → get_elem? xs i ≡ some x
      → get_elem? (xs ++ y ∷ []) i ≡ some x
  stays [] y i e = cc
  stays (x ∷ xs) y zero e = e
  stays (x ∷ xs) y (suc i) e = stays xs y i e

  pub is_last : (xs : List A) (y : A) → get_elem? (xs ++ y ∷ []) (length xs) ≡ some y
  is_last [] y = refl
  is_last (x ∷ xs) y = is_last xs y

-- A list of indices that a test may have extended.
abbrev grown : Bool → ℕ → List ℕ → List ℕ
grown t n xs = if t then xs ++ n ∷ [] else xs

grown-cases :
    (t : Bool) (n : ℕ) (xs : List ℕ) (i : ℕ)
    → contains (grown t n xs) i ≡ true
    → (contains xs i ≡ true) ⊎ ((t ≡ true) × (n ≡ i))
grown-cases t n xs i m = ground (arith, contains-append xs (n ∷ []) i)

grown-old :
    (t : Bool) (n : ℕ) (xs : List ℕ) (i : ℕ)
    → contains xs i ≡ true
    → contains (grown t n xs) i ≡ true
grown-old t n xs i m = ground (arith, contains-append xs (n ∷ []) i)

grown-new : (n : ℕ) (xs : List ℕ) → contains (grown true n xs) n ≡ true
grown-new n xs = ground (arith, contains-append xs (n ∷ []) n)

pushed :
    (j k : String) (n : ℕ) (m : Map (List ℕ))
    → lookup_or [] k (insert j (lookup_or [] j m ++ n ∷ []) m)
      ≡ (if str_eq j k then lookup_or [] k m ++ n ∷ [] else lookup_or [] k m)
pushed j k n m = elim (Bool-cases (str_eq j k)) [
  | inl e ↦ rw (lookup_or-insert, e) (rw ((str_eq_iff j k).0 e))
  | inr e ↦ rw (lookup_or-insert, e)
]

on_list_pair : (t : Bool) (j k : String) → (t && str_eq j k) ≡ true → j ≡ k
on_list_pair true j k e = (str_eq_iff j k).0 e
on_list_pair false j k e = cc

module _ {V : Type 0} ⦃fl : Float64 V⦄ where
  -- An order is appended; `on_list` says whether its index goes on the list of its pair.
  pub IsValid-append :
      (pairs : Pairs) (w w' : PaperWallet V) (o : Order V) (on_list : Bool)
      → IsValid pairs w
      → Known pairs o w
      → Stopped o
      → (is_new o.status ≡ true → on_list ≡ true)
      → w'.orders ≡ w.orders ++ o ∷ []
      → w'.assets ≡ w.assets
      → ((k : String)
          → pending_of w' k ≡ (
              if on_list && str_eq o.pair k
              then pending_of w k ++ length w.orders ∷ []
              else pending_of w k))
      → IsValid pairs w'
  IsValid-append pairs w w' o on_list v known stopped fresh_listed os as' lists = record {
    fit = λ i b e. elim (last_or_old w.orders o i (rw os at e)) [
      | inl old ↦ rw as' (v.fit i b old)
      | inr (at, same) ↦ rw (as', same) (known, stopped)
    ];
    indexed = λ k i m.
        let t = on_list && str_eq o.pair k in
        elim (grown-cases t (length w.orders) (pending_of w k) i (rw (lists k) at m)) [
          | inl old ↦
              let (a, at, pair) = v.indexed k i old in (a, rw os (stays w.orders o i at), pair)
          | inr (on, n) ↦ (o, rw (os, ← n) (is_last w.orders o), on_list_pair on_list o.pair k on)
        ];
    listed = λ i b e fresh. rw (lists b.pair) (elim (last_or_old w.orders o i (rw os at e)) [
      | inl old ↦
          grown-old (on_list && str_eq o.pair b.pair) (length w.orders) _ i (v.listed i b old fresh)
      | inr (n, same) ↦
          rw (same, fresh_listed (rw same at fresh), str_eq_refl o.pair, n)
            (grown-new (length w.orders) (pending_of w o.pair))
    ]);
  }

  -- A new order goes on the list of its pair.
  pub submit-IsValid :
      (pairs : Pairs) (w : PaperWallet V) (o : Order V)
      → IsValid pairs w
      → Known pairs o w
      → Stopped o
      → IsValid pairs (submit o w)
  unfolding submit
  submit-IsValid pairs w o v known stopped =
      IsValid-append pairs w (submit o w) o true v known stopped (λ h. refl) refl refl
        (λ k. pushed o.pair k (length w.orders) w.pending_orders)
