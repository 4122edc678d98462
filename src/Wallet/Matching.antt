-- ===== src/Wallet/Matching.antt =====
-- OnCandle as a whole.
use ninjabot.Prelude.{
  ℕ, ◌≡◌, refl, sym, ap, ◌∙◌, subst, String, true, false, ◌&&◌, List, [], ◌∷◌, some, arith,
  get_elem?, contains, Option-cases, Bool-cases, if◌then◌else◌, inl, inr, ◌>>=◌, str_eq, str_eq_iff,
}
use mathlib.Core.Bool.{false≢true}
use ninjabot.Prelude.Map.{lookup, lookup_or-none, lookup_or-some}
use ninjabot.Float.{Float64}
use ninjabot.Model.Candle.{Candle}
use ninjabot.Model.Order.{Order, is_new}
use ninjabot.Wallet.State.{PaperWallet, Pairs, pending_of}
use ninjabot.Wallet.Equity.{update_equity_values}
use ninjabot.Wallet.Fill.{
  remove_completed_orders, process_pending, note_candle, note_volume, on_candle,
}
use ninjabot.Wallet.Evolution.{Evolves, Evolves-refl, Evolves-origin}
use ninjabot.Wallet.Execution.{triggered}
use ninjabot.Wallet.Rounds.{Ran, process_pending-Ran}
use ninjabot.Wallet.Validity.{IsValid, IsValid-step, pending_of-remove_completed, contains-without}

module _ {V : Type 0} ⦃fl : Float64 V⦄ where
  -- Orders, assets and pending lists are untouched.
  abbrev SameBook : PaperWallet V → PaperWallet V → Type 0
  SameBook w w' =
      (w'.orders ≡ w.orders) × (w'.assets ≡ w.assets) × (w'.pending_orders ≡ w.pending_orders)

  update_equity_values-SameBook :
      (candle : Candle V) (w : PaperWallet V) → SameBook w (update_equity_values candle w)
  unfolding update_equity_values
  update_equity_values-SameBook candle w = ground arith

  note_candle-SameBook : (candle : Candle V) (w : PaperWallet V) → SameBook w (note_candle candle w)
  unfolding note_candle
  note_candle-SameBook candle w = (refl, refl, refl)

  remove_completed_orders-SameOrders :
      (pair : String) (completed : List ℕ) (w : PaperWallet V)
      → let w' = remove_completed_orders pair completed w in
        (w'.orders ≡ w.orders) × (w'.assets ≡ w.assets)
  unfolding remove_completed_orders
  remove_completed_orders-SameOrders pair [] w = (refl, refl)
  remove_completed_orders-SameOrders pair (c ∷ cs) w = (refl, refl)

  note_volume-SameBook : (candle : Candle V) (w : PaperWallet V) → SameBook w (note_volume candle w)
  unfolding note_volume
  note_volume-SameBook candle w = ground arith

  IsValid-SameBook :
      (pairs : Pairs) (w w' : PaperWallet V) → SameBook w w' → IsValid pairs w → IsValid pairs w'
  IsValid-SameBook pairs w w' (os, as', ps) v =
      IsValid-step pairs w w' v (rw os (Evolves-refl w.orders)) (λ k h. rw as' h)
        (λ k i m. rw ps at m) (λ k i m. inl (rw ps m))

module _ {V : Type 0} ⦃fl : Float64 V⦄ (pairs : Pairs) (candle : Candle V) where
  -- No new order of the candle's pair is triggered by the candle.
  abbrev pub NoneLeft : PaperWallet V → Type 0
  NoneLeft w =
      (i : ℕ) (o : Order V)
      → get_elem? w.orders i ≡ some o
      → o.pair ≡ candle.pair
      → is_new o.status ≡ true
      → triggered candle o ≡ false

  -- What OnCandle does to a wallet.
  pub record Matched (w w' : PaperWallet V) : Type 0 where
    pub valid : IsValid pairs w'
    pub evolved : Evolves w.orders w'.orders
    pub none_left : NoneLeft w'

  -- The lists after the loop and removeCompletedOrders.
  lists_after :
      (w w2 : PaperWallet V) (completed : List ℕ) (k : String) (i : ℕ)
      → w2.pending_orders ≡ w.pending_orders
      → contains (pending_of (remove_completed_orders candle.pair completed w2) k) i ≡ (
          if str_eq candle.pair k && contains completed i
          then false
          else contains (pending_of w k) i)
  lists_after w w2 completed k i same =
      rw (pending_of-remove_completed candle.pair completed w2 k, same)
        (elim (Bool-cases (str_eq candle.pair k)) [
          | inl e ↦
              rw (e, contains-without completed (pending_of w candle.pair) i)
                (rw ((str_eq_iff candle.pair k).0 e))
          | inr e ↦ rw e
        ])

  -- Orders left new are on the list that the loop went through, which leaves them untriggered.
  quiet_everywhere :
      (w w1 : PaperWallet V) (r : PaperWallet V × List ℕ)
      → IsValid pairs w
      → Evolves w.orders r.0.orders
      → Ran pairs candle (pending_of w candle.pair) w1 r
      → NoneLeft r.0
  quiet_everywhere w w1 r v evolved ran i o e same fresh =
      let (a, at, became) = Evolves-origin w.orders r.0.orders i evolved e in
      let pending = v.listed i a at (became.not_renewed fresh) in
      let pair : a.pair ≡ candle.pair = sym (ap (λ (x : Order V). x.pair) became.same) ∙ same in
      ran.quiet i (subst (λ k. contains (pending_of w k) i ≡ true) pair pending) o e fresh

  matched :
      (w w1 : PaperWallet V) (r : PaperWallet V × List ℕ)
      → IsValid pairs w
      → SameBook w w1
      → Ran pairs candle (pending_of w candle.pair) w1 r
      → Matched w (remove_completed_orders candle.pair r.1 r.0)
  matched w w1 (w2, completed) v same ran =
      let w3 = remove_completed_orders candle.pair completed w2 in
      let kept_book = remove_completed_orders-SameOrders candle.pair completed w2 in
      let evolved : Evolves w.orders w2.orders = rw same.0 at ran.progress.evolved in
      let pending = ran.progress.same_pending ∙ same.2 in
      let lists = λ (k : String) (i : ℕ). lists_after w w2 completed k i pending in
      record {
        valid =
            IsValid-step pairs w w3 v (rw kept_book.0 evolved)
              (λ k h. rw kept_book.1 (ran.progress.kept k (rw same.1 h)))
              (λ k i m. ground (arith, lists k i))
              (λ k i m. elim (Bool-cases (contains completed i)) [
                | inl done ↦ inr (rw kept_book.0 (ran.settled i done))
                | inr open_yet ↦ inl (ground (arith, lists k i))
              ]);
        evolved = rw kept_book.0 evolved;
        none_left = rw kept_book.0 (quiet_everywhere w w1 (w2, completed) v evolved ran);
      }

  Matched-SameBook : (w w1 w2 : PaperWallet V) → Matched w w1 → SameBook w1 w2 → Matched w w2
  Matched-SameBook w w1 w2 m same = record {
    valid = IsValid-SameBook pairs w1 w2 same m.valid;
    evolved = rw same.0 m.evolved;
    none_left = rw same.0 m.none_left;
  }

  Matched-before : (w w1 w2 : PaperWallet V) → SameBook w w1 → Matched w1 w2 → Matched w w2
  Matched-before w w1 w2 same m = record {
    valid = m.valid;
    evolved = rw same.0 at m.evolved;
    none_left = m.none_left;
  }

  -- Without a list for the pair there is no new order of the pair.
  idle-Matched : (w : PaperWallet V) → IsValid pairs w → pending_of w candle.pair ≡ [] → Matched w w
  idle-Matched w v none_pending = record {
    valid = v;
    evolved = Evolves-refl w.orders;
    none_left = λ i o e same fresh.
        let pending = v.listed i o e fresh in
        absurd (
          false≢true
            (rw none_pending at (subst (λ k. contains (pending_of w k) i ≡ true) same pending)));
  }

  busy-Matched :
      (w : PaperWallet V)
      → IsValid pairs w
      → (w' : PaperWallet V) × ((process_pending pairs candle
              (pending_of w candle.pair)
              (note_volume candle w)
              []
            >>= λ r.
                some (update_equity_values candle (remove_completed_orders candle.pair r.1 r.0)))
          ≡ some w')
        × Matched w w'
  busy-Matched w v =
      let same = note_volume-SameBook candle w in
      let w1 = note_volume candle w in
      let v1 = IsValid-SameBook pairs w w1 same v in
      let (r, run, ran) =
        process_pending-Ran pairs candle (pending_of w candle.pair) w1 [] v1.fit
          (λ i m. let (o, at, p) = v1.indexed candle.pair i (rw same.2 m) in (o, at)) (λ i m. cc) in
      let w2 = remove_completed_orders candle.pair r.1 r.0 in
      (
        update_equity_values candle w2,
        rw run,
        Matched-SameBook w w2 (update_equity_values candle w2) (matched w w1 r v same ran)
            (update_equity_values-SameBook candle w2),
      )

  -- OnCandle on a well-formed wallet does not panic, keeps the wallet well formed, changes orders
  -- only in their status and time of update without ever making one new again, and leaves no new
  -- order of the candle's pair that the candle triggers.
  pub on_candle-Matched :
      (w : PaperWallet V)
      → IsValid pairs w
      → (w' : PaperWallet V) × (on_candle pairs candle w ≡ some w') × Matched w w'
  unfolding on_candle
  on_candle-Matched w v =
      let w1 = note_candle candle w in
      let same = note_candle-SameBook candle w in
      let v1 = IsValid-SameBook pairs w w1 same v in
      elim (Option-cases (lookup candle.pair w1.pending_orders)) [
        | inl e ↦
            let w2 = update_equity_values candle w1 in
            (
              w2,
              rw (e, on_candle),
              Matched-before w w1 w2 same (
                  Matched-SameBook w1 w1 w2
                    (idle-Matched w1 v1 (lookup_or-none [] candle.pair w1.pending_orders e))
                    (update_equity_values-SameBook candle w1)),
            )
        | inr (pending, e) ↦
            let (w2, run, m) = busy-Matched w1 v1 in
            (
              w2,
              rw (e, on_candle) (rw (lookup_or-some [] candle.pair w1.pending_orders e) at run),
              Matched-before w w1 w2 same m,
            )
      ]
