-- ===== src/Wallet/Validity.antt =====
-- The well-formedness of a wallet: the index of pending orders agrees with the list of orders.
use ninjabot.Prelude.{
  ℕ, ◌≡◌, refl, sym, ap, ◌∙◌, subst, String, true, false, List, [], ◌∷◌, some, arith, get_elem?,
  contains, Bool-cases, if◌then◌else◌, inl, inr, ◌⊎◌, str_eq, str_eq_iff,
}
use ninjabot.Prelude.Map.{lookup_or, insert, erase, has_key, Map, lookup_or-insert, lookup_or-erase}
use ninjabot.Float.{Float64}
use ninjabot.Model.Order.{Order, is_new}
use ninjabot.Wallet.State.{PaperWallet, Pairs, pending_of}
use ninjabot.Wallet.Fill.{without, remove_completed_orders}
use ninjabot.Wallet.Evolution.{Evolves, Evolves-origin, Evolves-next}
use ninjabot.Wallet.Execution.{Settled}
use ninjabot.Wallet.Rounds.{Fit, Fit-Evolves}

module _ {V : Type 0} ⦃fl : Float64 V⦄ where
  pub record IsValid (pairs : Pairs) (w : PaperWallet V) : Type 0 where
    -- The assets of every order have entries, and every stop order has its stop.
    pub fit : Fit pairs w
    -- What is on the list of a pair is the index of an order of the pair.
    pub indexed :
        (pair : String) (i : ℕ)
        → contains (pending_of w pair) i ≡ true
        → (o : Order V) × (get_elem? w.orders i ≡ some o) × (o.pair ≡ pair)
    -- Every new order is on the list of its pair.
    pub listed :
        (i : ℕ) (o : Order V)
        → get_elem? w.orders i ≡ some o
        → is_new o.status ≡ true
        → contains (pending_of w o.pair) i ≡ true

pub contains-without :
    (completed is : List ℕ) (i : ℕ)
    → contains (without completed is) i ≡ (if contains completed i then false else contains is i)
unfolding without
contains-without completed [] i = ground arith
contains-without completed (j ∷ is) i = ground (arith, contains-without completed is i)

without-nil : (is : List ℕ) → without [] is ≡ is
unfolding without
without-nil [] = refl
without-nil (i ∷ is) = ap (◌∷◌ i) (without-nil is)

-- The map that removeCompletedOrders stores.
pub stored-lookup :
    (left : List ℕ) (pair k : String) (m : Map (List ℕ))
    → lookup_or [] k (elim left [ [] ↦ erase pair m | i ∷ is ↦ insert pair (i ∷ is) m ])
      ≡ (if str_eq pair k then left else lookup_or [] k m)
stored-lookup [] pair k m = lookup_or-erase [] pair k m
stored-lookup (i ∷ is) pair k m = lookup_or-insert [] pair k (i ∷ is) m

module _ {V : Type 0} ⦃fl : Float64 V⦄ where
  -- The lists after removeCompletedOrders: only that of the pair has changed.
  pub pending_of-remove_completed :
      (pair : String) (completed : List ℕ) (w : PaperWallet V) (k : String)
      → pending_of (remove_completed_orders pair completed w) k
        ≡ (if str_eq pair k then without completed (pending_of w pair) else pending_of w k)
  unfolding remove_completed_orders
  pending_of-remove_completed pair [] w k = elim (Bool-cases (str_eq pair k)) [
    | inl e ↦ rw e (rw ((str_eq_iff pair k).0 e) (sym (without-nil _)))
    | inr e ↦ rw e
  ]
  pending_of-remove_completed pair (c ∷ cs) w k =
      stored-lookup (without (c ∷ cs) (pending_of w pair)) pair k w.pending_orders

  -- A step that evolves the orders and keeps the assets, and takes no new order off the lists.
  pub IsValid-step :
      (pairs : Pairs) (w w' : PaperWallet V)
      → IsValid pairs w
      → Evolves w.orders w'.orders
      → ((k : String) → has_key k w.assets ≡ true → has_key k w'.assets ≡ true)
      → ((k : String) (i : ℕ)
          → contains (pending_of w' k) i ≡ true
          → contains (pending_of w k) i ≡ true)
      → ((k : String) (i : ℕ)
          → contains (pending_of w k) i ≡ true
          → (contains (pending_of w' k) i ≡ true) ⊎ Settled i w')
      → IsValid pairs w'
  IsValid-step pairs w w' v evolved kept fewer taken = record {
    fit = Fit-Evolves pairs w w' evolved kept v.fit;
    indexed = λ k i m.
        let (a, at, same) = v.indexed k i (fewer k i m) in
        let (b, there, became) = Evolves-next w.orders w'.orders i evolved at in
        (b, there, ap (λ (o : Order V). o.pair) became.same ∙ same);
    listed = λ i b e fresh.
        let (a, at, became) = Evolves-origin w.orders w'.orders i evolved e in
        let pending = v.listed i a at (became.not_renewed fresh) in
        let same : a.pair ≡ b.pair = sym (ap (λ (o : Order V). o.pair) became.same) in
        elim (taken b.pair i (subst (λ k. contains (pending_of w k) i ≡ true) same pending)) [
          | inl m ↦ m
          | inr settled ↦ cc (settled b e)
        ];
  }
