-- ===== src/Wallet/Rounds.antt =====
-- The loop of OnCandle over the pending indices.
use ninjabot.Prelude.{
  String, ℕ, ◌≡◌, refl, ◌∙◌, subst, Bool, true, false, List, [], ◌∷◌, ◌++◌, some, arith, get_elem?,
  contains, contains-append, Bool-cases, if◌then◌else◌, inl, inr, ◌⊎◌,
}
use ninjabot.Prelude.Map.{has_key}
use ninjabot.Float.{Float64}
use ninjabot.Model.Candle.{Candle}
use ninjabot.Model.Order.{Order, is_new}
use ninjabot.Wallet.State.{PaperWallet, Pairs}
use ninjabot.Wallet.Fill.{process_order, process_pending}
use ninjabot.Wallet.Evolution.{Became, Evolves, Evolves-origin, Evolves-next}
use ninjabot.Wallet.Progress.{Progress, Progress-refl, Progress-trans}
use ninjabot.Wallet.Execution.{Known, Settled, Stopped, Round, triggered, process_order-Round}

contains-cons :
    (i j : ℕ) (is : List ℕ) → contains (i ∷ is) j ≡ true → (i ≡ j) ⊎ (contains is j ≡ true)
contains-cons i j is m = ground arith

contains-head : (i : ℕ) (is : List ℕ) → contains (i ∷ is) i ≡ true
contains-head i is = ground arith

contains-tail : (i j : ℕ) (is : List ℕ) → contains is j ≡ true → contains (i ∷ is) j ≡ true
contains-tail i j is m = ground arith

added_is_last :
    (is : List ℕ) (i j : ℕ) → contains is j ≡ false → contains (is ++ i ∷ []) j ≡ true → i ≡ j
added_is_last is i j absent m = ground (arith, contains-append is (i ∷ []) j)

module _ {V : Type 0} where
  -- Each order has its assets and, if it is a stop order, its stop price.
  abbrev pub Fit : Pairs → PaperWallet V → Type 0
  Fit pairs w = (i : ℕ) (o : Order V) → get_elem? w.orders i ≡ some o → Known pairs o w × Stopped o

  pub Fit-Evolves :
      (pairs : Pairs) (w w' : PaperWallet V)
      → Evolves w.orders w'.orders
      → ((k : String) → has_key k w.assets ≡ true → has_key k w'.assets ≡ true)
      → Fit pairs w
      → Fit pairs w'
  Fit-Evolves pairs w w' evolved kept fit i b e =
      let (a, at, became) = Evolves-origin w.orders w'.orders i evolved e in
      let ((base, quote), stopped) = fit i a at in
      rw became.same ((kept _ base, kept _ quote), stopped)

  Fit-Progress : (pairs : Pairs) (w w' : PaperWallet V) → Progress w w' → Fit pairs w → Fit pairs w'
  Fit-Progress pairs w w' p = Fit-Evolves pairs w w' p.evolved p.kept

  pub Settled-Progress : (i : ℕ) (w w' : PaperWallet V) → Progress w w' → Settled i w → Settled i w'
  Settled-Progress i w w' p settled b e =
      let (a, at, became) = Evolves-origin w.orders w'.orders i p.evolved e in
      elim (Bool-cases (is_new b.status)) [
        | inl fresh ↦ cc (became.not_renewed fresh, settled a at)
        | inr old ↦ old
      ]

module _ {V : Type 0} ⦃fl : Float64 V⦄ (candle : Candle V) where
  pub triggered-Became : (a b : Order V) → Became a b → triggered candle b ≡ triggered candle a
  unfolding triggered
  triggered-Became a b became = rw became.same

module _ {V : Type 0} ⦃fl : Float64 V⦄ (pairs : Pairs) (candle : Candle V) where
  -- The indices that the loop has completed are settled.
  abbrev pub AllSettled : List ℕ → PaperWallet V → Type 0
  AllSettled completed w = (i : ℕ) → contains completed i ≡ true → Settled i w

  -- If the order at the index is new, then the candle does not trigger it.
  abbrev pub Quiet : ℕ → PaperWallet V → Type 0
  Quiet i w =
      (o : Order V)
      → get_elem? w.orders i ≡ some o
      → is_new o.status ≡ true
      → triggered candle o ≡ false

  abbrev pub AllQuiet : List ℕ → PaperWallet V → Type 0
  AllQuiet is w = (i : ℕ) → contains is i ≡ true → Quiet i w

  pub record Ran (is : List ℕ) (w : PaperWallet V) (r : PaperWallet V × List ℕ) : Type 0 where
    pub progress : Progress w r.0
    pub settled : AllSettled r.1 r.0
    pub quiet : AllQuiet is r.0

  Quiet-Progress : (i : ℕ) (w w' : PaperWallet V) → Progress w w' → Quiet i w → Quiet i w'
  Quiet-Progress i w w' p quiet b e fresh =
      let (a, at, became) = Evolves-origin w.orders w'.orders i p.evolved e in
      triggered-Became candle a b became ∙ quiet a at (became.not_renewed fresh)

  Settled-Quiet : (i : ℕ) (w : PaperWallet V) → Settled i w → Quiet i w
  Settled-Quiet i w settled o e fresh = cc (settled o e)

  -- What one round leaves, on both of its outcomes.
  after-Round :
      (i : ℕ) (o : Order V) (w : PaperWallet V) (r : PaperWallet V × Bool) (completed : List ℕ)
      → get_elem? w.orders i ≡ some o
      → Round pairs candle i o w r
      → AllSettled completed w
      → Progress w r.0
        × Quiet i r.0
        × AllSettled (if r.1 then completed ++ i ∷ [] else completed) r.0
  after-Round i o w (w', true) completed at (progress, settled) before = (
    progress,
    Settled-Quiet i w' settled,
    λ j m b e. elim (Bool-cases (contains completed j)) [
      | inl old ↦ Settled-Progress j w w' progress (before j old) b e
      | inr new ↦ settled b (rw (added_is_last completed i j new m) e)
    ],
  )
  after-Round i o w (w', false) completed at (same, waits) before =
      (rw same (Progress-refl w), λ b e fresh. cc, rw same before)

  AllQuiet-cons :
      (i : ℕ) (is : List ℕ) (w : PaperWallet V) → Quiet i w → AllQuiet is w → AllQuiet (i ∷ is) w
  AllQuiet-cons i is w here rest j m = elim (contains-cons i j is m) [
    | inl e ↦ subst (λ k. Quiet k w) e here
    | inr m' ↦ rest j m'
  ]

  process_pending-cons :
      (i : ℕ) (is : List ℕ) (w : PaperWallet V) (completed : List ℕ) (o : Order V)
      (r : PaperWallet V × Bool) (end : PaperWallet V × List ℕ)
      → get_elem? w.orders i ≡ some o
      → process_order pairs candle i o w ≡ some r
      → process_pending pairs candle is r.0 (if r.1 then completed ++ i ∷ [] else completed)
        ≡ some end
      → process_pending pairs candle (i ∷ is) w completed ≡ some end
  unfolding process_pending
  process_pending-cons i is w completed o r end at ran rest = rw (at, process_pending) (rw ran rest)

  -- The loop runs to its end, settles what it completes and misses no triggered order.
  pub process_pending-Ran :
      (is : List ℕ) (w : PaperWallet V) (completed : List ℕ)
      → Fit pairs w
      → ((i : ℕ) → contains is i ≡ true → (o : Order V) × (get_elem? w.orders i ≡ some o))
      → AllSettled completed w
      → (r : PaperWallet V × List ℕ) × (process_pending pairs candle is w completed ≡ some r)
        × Ran is w r
  unfolding process_pending
  process_pending-Ran [] w completed fit present settled = (
    (w, completed),
    refl,
    record { progress = Progress-refl w; settled = settled; quiet = λ i m. cc },
  )
  process_pending-Ran (i ∷ is) w completed fit present settled =
      let (o, at) = present i (contains-head i is) in
      let ((w1, done), ran, round) =
        process_order-Round pairs candle i o w at (fit i o at).0 (fit i o at).1 in
      let (progress, quiet, settled1) = after-Round i o w (w1, done) completed at round settled in
      let (r, rest, end) =
        process_pending-Ran is w1 (if done then completed ++ i ∷ [] else completed)
          (Fit-Progress pairs w w1 progress fit)
          (λ j m.
            let (a, there) = present j (contains-tail i j is m) in
            let (b, here, became) = Evolves-next w.orders w1.orders j progress.evolved there in
            (b, here))
          settled1 in
      (
        r,
        process_pending-cons i is w completed o (w1, done) r at ran rest,
        record {
          progress = Progress-trans progress end.progress;
          settled = end.settled;
          quiet = AllQuiet-cons i is r.0 (Quiet-Progress i w1 r.0 end.progress quiet) end.quiet;
        },
      )
