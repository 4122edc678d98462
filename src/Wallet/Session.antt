-- ===== src/Wallet/Session.antt =====
-- A run of the wallet: any sequence of calls of its methods, one after the other as the mutex
-- orders them.
use ninjabot.Prelude.{
  ℕ, ◌≡◌, refl, ap, ◌⊎◌, inl, inr, String, List, [], ◌∷◌, ◌++◌, Option, none, some, ◌>>=◌,
  get_elem?, contains, true,
}
use ninjabot.Prelude.Map.{lookup_or, lookup_or-none, lookup-nil}
use mathlib.Core.Bool.{false≢true}
use ninjabot.Float.{Float64}
use ninjabot.Model.Candle.{Candle}
use ninjabot.Model.Order.{Order, SideType}
use ninjabot.Wallet.State.{
  PaperWallet, Pairs, blank_wallet, with_paper_asset, with_paper_fee, apply_options,
  new_paper_wallet,
}
use ninjabot.Wallet.Create.{
  create_order_limit, create_order_stop, create_order_oco, create_order_market,
  create_order_market_quote, quantity_of,
}
use ninjabot.Wallet.Fill.{on_candle}
use ninjabot.Wallet.Cancel.{cancel}
use ninjabot.Wallet.Validity.{IsValid}
use ninjabot.Wallet.Creation.{
  create_order_limit-IsValid, create_order_stop-IsValid, create_order_oco-IsValid,
  create_order_market-IsValid, create_order_market_quote-IsValid,
}
use ninjabot.Wallet.Matching.{on_candle-Matched}
use ninjabot.Wallet.Cancellation.{cancel-IsValid}

-- The options that NewPaperWallet is given.
pub data WalletOption (V : Type 0) : Type 0 where
  paper_asset : String → V → WalletOption V
  paper_fee : V → V → WalletOption V

pub data Call (V : Type 0) : Type 0 where
  candle : Candle V → Call V
  limit_order : SideType → String → V → V → Call V
  stop_order : String → V → V → Call V
  oco_order : SideType → String → V → V → V → V → Call V
  market_order : SideType → String → V → Call V
  market_quote_order : SideType → String → V → Call V
  cancel_order : Order V → Call V

module _ {V : Type 0} ⦃fl : Float64 V⦄ where
  pub option_of : WalletOption V → PaperWallet V → PaperWallet V
  option_of (paper_asset pair amount) = with_paper_asset pair amount
  option_of (paper_fee maker taker) = with_paper_fee maker taker

  pub options_of : List (WalletOption V) → List (PaperWallet V → PaperWallet V)
  options_of [] = []
  options_of (o ∷ os) = option_of o ∷ options_of os

  -- Without orders and lists.
  abbrev pub Fresh : PaperWallet V → Type 0
  Fresh w = (w.orders ≡ []) × (w.pending_orders ≡ [])

  options-Fresh :
      (os : List (WalletOption V)) (w : PaperWallet V)
      → Fresh w
      → Fresh (apply_options (options_of os) w)
  unfolding apply_options options_of option_of with_paper_asset with_paper_fee
  options-Fresh [] w f = f
  options-Fresh (paper_asset pair amount ∷ os) w f = options-Fresh os _ f
  options-Fresh (paper_fee maker taker ∷ os) w f = options-Fresh os _ f

  pub new-Fresh :
      (base_coin : String) (os : List (WalletOption V))
      → Fresh (new_paper_wallet base_coin (options_of os))
  unfolding new_paper_wallet
  new-Fresh base_coin os = options-Fresh os (blank_wallet base_coin) (refl, refl)

  pub Fresh-IsValid : (pairs : Pairs) (w : PaperWallet V) → Fresh w → IsValid pairs w
  Fresh-IsValid pairs w (os, ps) = record {
    fit = λ i o e. let e' : get_elem? [] i ≡ some o = rw os at e in cc;
    indexed = λ k i m.
        let m' : contains (lookup_or [] k []) i ≡ true = rw ps at m in absurd (nothing k i m');
    listed = λ i o e fresh. let e' : get_elem? [] i ≡ some o = rw os at e in cc;
  }
    where
      nothing : (k : String) (i : ℕ) → ¬ (contains (lookup_or [] k []) i ≡ true)
      nothing k i m = false≢true (rw (lookup_or-none {A = List ℕ} [] k [] (lookup-nil k)) at m)

module _ {V : Type 0} ⦃fl : Float64 V⦄ (pairs : Pairs)
    (lot_size : String → String → String → ℕ → Option String) where
  -- The wallet after a call; `none` is a panic.
  unfoldable pub step : Call V → PaperWallet V → Option (PaperWallet V)
  step (candle c) w = on_candle pairs c w
  step (limit_order side pair size price) w =
      some (create_order_limit pairs side pair size price w).0
  step (stop_order pair size price) w = some (create_order_stop pairs pair size price w).0
  step (oco_order side pair size price stop stop_limit) w =
      some (create_order_oco pairs side pair size price stop stop_limit w).0
  step (market_order side pair size) w = some (create_order_market pairs side pair size w).0
  step (market_quote_order side pair quantity) w =
      create_order_market_quote pairs lot_size side pair quantity w >>= λ r. some r.0
  step (cancel_order o) w = cancel pairs o w

  unfoldable pub run : List (Call V) → PaperWallet V → Option (PaperWallet V)
  run [] w = some w
  run (c ∷ cs) w = step c w >>= run cs

  -- The call is a CreateOrderMarketQuote whose amount AmountToLotSize refuses, with a panic.
  abbrev pub IsRefused : Call V → PaperWallet V → Type 0
  IsRefused (candle c) w = ⊥
  IsRefused (limit_order side pair size price) w = ⊥
  IsRefused (stop_order pair size price) w = ⊥
  IsRefused (oco_order side pair size price stop stop_limit) w = ⊥
  IsRefused (market_order side pair size) w = ⊥
  IsRefused (market_quote_order side pair quantity) w =
      quantity_of pairs lot_size pair quantity w ≡ none
  IsRefused (cancel_order o) w = ⊥

  -- The calls go through and leave the wallet well formed.
  abbrev pub Succeeds : Option (PaperWallet V) → Type 0
  Succeeds o = (w' : PaperWallet V) × (o ≡ some w') × IsValid pairs w'

  step-IsValid :
      (c : Call V) (w : PaperWallet V) → IsValid pairs w → IsRefused c w ⊎ Succeeds (step c w)
  unfolding step
  step-IsValid (candle c) w v =
      let (w', ran, m) = on_candle-Matched pairs c w v in inr (w', ran, m.valid)
  step-IsValid (limit_order side pair size price) w v =
      inr (_, refl, create_order_limit-IsValid pairs w v side pair size price)
  step-IsValid (stop_order pair size price) w v =
      inr (_, refl, create_order_stop-IsValid pairs w v pair size price)
  step-IsValid (oco_order side pair size price stop stop_limit) w v =
      inr (_, refl, create_order_oco-IsValid pairs w v side pair size price stop stop_limit)
  step-IsValid (market_order side pair size) w v =
      inr (_, refl, create_order_market-IsValid pairs w v side pair size)
  step-IsValid (market_quote_order side pair quantity) w v =
      create_order_market_quote-IsValid pairs w v lot_size side pair quantity
  step-IsValid (cancel_order o) w v =
      let (w', ran, valid, os) = cancel-IsValid pairs o w v in inr (w', ran, valid)

  -- After some of the calls, which left a well-formed wallet, the next one is refused.
  pub record Refused (cs : List (Call V)) (w : PaperWallet V) : Type 0 where
    done_before : List (Call V)
    call : Call V
    after : List (Call V)
    reached : PaperWallet V
    split : cs ≡ done_before ++ call ∷ after
    ran : run done_before w ≡ some reached
    valid : IsValid pairs reached
    refused : IsRefused call reached
    panicked : run cs w ≡ none

  IsRefused-panics : (c : Call V) (w : PaperWallet V) → IsRefused c w → step c w ≡ none
  unfolding step create_order_market_quote
  IsRefused-panics (candle c) w r = absurd r
  IsRefused-panics (limit_order side pair size price) w r = absurd r
  IsRefused-panics (stop_order pair size price) w r = absurd r
  IsRefused-panics (oco_order side pair size price stop stop_limit) w r = absurd r
  IsRefused-panics (market_order side pair size) w r = absurd r
  IsRefused-panics (market_quote_order side pair quantity) w r = rw (step, r)
  IsRefused-panics (cancel_order o) w r = absurd r

  run-IsValid :
      (cs : List (Call V)) (w : PaperWallet V)
      → IsValid pairs w
      → Refused cs w ⊎ Succeeds (run cs w)
  unfolding run
  run-IsValid [] w v = inr (w, refl, v)
  run-IsValid (c ∷ cs) w v = elim (step-IsValid c w v) [
    | inl refused ↦ inl (record {
      done_before = [];
      call = c;
      after = cs;
      reached = w;
      split = refl;
      ran = refl;
      valid = v;
      refused = refused;
      panicked = rw (IsRefused-panics c w refused);
    })
    | inr (w1, ran, valid) ↦ elim (run-IsValid cs w1 valid) [
      | inr (w2, rest, end) ↦ inr (w2, rw ran rest, end)
      | inl r ↦ inl (record {
        done_before = c ∷ r.done_before;
        call = r.call;
        after = r.after;
        reached = r.reached;
        split = ap (λ ds. c ∷ ds) r.split;
        ran = rw ran r.ran;
        valid = r.valid;
        refused = r.refused;
        panicked = rw (ran, r.panicked);
      })
    ]
  ]

  -- Whatever the options of a new wallet and the calls that follow, all of them return and leave
  -- the wallet well formed, or they come to a CreateOrderMarketQuote whose amount AmountToLotSize
  -- refuses with a panic, and the wallet was well formed until then. No other call panics.
  pub session-IsValid :
      (base_coin : String) (os : List (WalletOption V)) (cs : List (Call V))
      → Refused cs (new_paper_wallet base_coin (options_of os))
        ⊎ Succeeds (run cs (new_paper_wallet base_coin (options_of os)))
  session-IsValid base_coin os cs =
      run-IsValid cs _ (Fresh-IsValid pairs _ (new-Fresh base_coin os))
