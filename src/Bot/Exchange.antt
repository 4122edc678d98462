-- ===== src/Bot/Exchange.antt =====
-- The paper wallet as the exchange of the order controller.
use ninjabot.Prelude.{ℕ, String, Bool, true, false, Option, none, some, ◌>>=◌}
use ninjabot.Float.{Float64}
use ninjabot.Model.Order.{Order}
use ninjabot.Wallet.State.{PaperWallet, Pairs, Result, ok, err, position, order}
use ninjabot.Wallet.Create as Create
use ninjabot.Wallet.Cancel.{cancel}
use ninjabot.OrderController.State.{Exchange}

module _ {V A : Type 0} where
  abbrev answer : Result V A → Option A
  answer (ok a) = some a
  answer (err e) = none

  -- A call on the wallet; `none` in place of the wallet is a panic of this call or of one before.
  abbrev call_on :
      (PaperWallet V → Option (PaperWallet V × Result V A))
      → Option (PaperWallet V)
      → Option A × Option (PaperWallet V)
  call_on method none = (none, none)
  call_on method (some w) = elim (method w) [
    | none ↦ (none, none)
    | some r ↦ (answer r.1, some r.0)
  ]

  abbrev total_call :
      (PaperWallet V → PaperWallet V × Result V A)
      → Option (PaperWallet V)
      → Option A × Option (PaperWallet V)
  total_call method = call_on (λ w. some (method w))

module _ {V : Type 0} ⦃fl : Float64 V⦄ where
  -- Cancel returns no error of its own.
  abbrev cancel_on : Pairs → Order V → Option (PaperWallet V) → Bool × Option (PaperWallet V)
  cancel_on pairs o w = elim (w >>= λ w1. cancel pairs o w1) [
    | none ↦ (false, none)
    | some w' ↦ (true, some w')
  ]

  -- The methods of PaperWallet that the order controller calls through service.Exchange, with
  -- AmountToLotSize of the binance client as `lot_size`.
  unfoldable pub wallet_exchange :
      Pairs → (String → String → String → ℕ → Option String) → Exchange (Option (PaperWallet V)) V
  wallet_exchange pairs lot_size = record {
    order = λ pair id w. w >>= λ w1. answer (order w1 id);
    position = λ pair w. w >>= λ w1. some (position pairs w1 pair);
    create_order_oco = λ side pair size price stop stop_limit.
        total_call (Create.create_order_oco pairs side pair size price stop stop_limit);
    create_order_limit =
        λ side pair size price. total_call (Create.create_order_limit pairs side pair size price);
    create_order_market =
        λ side pair size. total_call (Create.create_order_market pairs side pair size);
    create_order_market_quote = λ side pair amount.
        call_on (Create.create_order_market_quote pairs lot_size side pair amount);
    create_order_stop =
        λ pair size price. total_call (Create.create_order_stop pairs pair size price);
    cancel = cancel_on pairs;
  }
