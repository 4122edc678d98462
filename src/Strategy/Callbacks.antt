-- ===== src/Strategy/Callbacks.antt =====
-- OnCandle of strategy/controller.go: the dataframe around the callbacks of the strategy.
use ninjabot.Prelude.{
  ◌≡◌, refl, sym, ap, subst, ◌∙◌, List, [], ◌∷◌, some, leb, length, Bool-cases, inl, inr,
}
use ninjabot.Model.Candle.{Candle}
use ninjabot.Strategy.Controller.{
  Dataframe, Strategy, Controller, late, run_strategy, on_candle, on_candles,
}
use ninjabot.Strategy.Columns.{Ascending, IsAligned, update_data_frame-IsAligned}

-- What a callback does to the columns: nothing. It may write metadata.
pub record SameColumns {V : Type 0} (a b : Dataframe V) : Type 0 where
  pub close : a.close ≡ b.close
  pub open_price : a.open_price ≡ b.open_price
  pub high : a.high ≡ b.high
  pub low : a.low ≡ b.low
  pub volume : a.volume ≡ b.volume
  pub time : a.time ≡ b.time

module _ {V : Type 0} where
  IsAligned-SameColumns : (a b : Dataframe V) → SameColumns a b → IsAligned b → IsAligned a
  IsAligned-SameColumns a b s h = record {
    close = ap length s.close ∙ h.close ∙ sym (ap length s.time);
    open_price = ap length s.open_price ∙ h.open_price ∙ sym (ap length s.time);
    high = ap length s.high ∙ h.high ∙ sym (ap length s.time);
    low = ap length s.low ∙ h.low ∙ sym (ap length s.time);
    volume = ap length s.volume ∙ h.volume ∙ sym (ap length s.time);
    ascending = subst Ascending (sym s.time) h.ascending;
  }

  -- Candles without columns of their own.
  abbrev pub AllPlain : List (Candle V) → Type 0
  AllPlain [] = Unit {0}
  AllPlain (c ∷ cs) = (c.metadata ≡ []) × AllPlain cs

module _ {T V : Type 0} (str : Strategy T V) where
  -- The two callbacks of the strategy leave the columns of the dataframe alone.
  pub record KeepsColumns : Type 0 where
    pub indicators : (df : Dataframe V) (t : T) → SameColumns (str.indicators df t).0 df
    pub trade : (df : Dataframe V) (t : T) → SameColumns (str.trade df t).0 df

  module _ (keeps : KeepsColumns) where
    run_strategy-IsAligned :
        (s : Controller T V) → IsAligned s.dataframe → IsAligned (run_strategy str s).dataframe
    unfolding run_strategy
    run_strategy-IsAligned s h =
        let r = str.indicators s.dataframe s.strategy in
        let shown =
          IsAligned-SameColumns r.0 s.dataframe (keeps.indicators s.dataframe s.strategy) h in
        elim (Bool-cases (leb s.warmup_period (length s.dataframe.close))) [
          | inr e ↦ rw e h
          | inl e ↦ elim (Bool-cases s.started) [
            | inr f ↦ rw (e, f) shown
            | inl f ↦
                rw (e, f)
                  (IsAligned-SameColumns (str.trade r.0 r.1).0 r.0 (keeps.trade r.0 r.1) shown)
          ]
        ]

    on_candle-IsAligned :
        (c : Candle V) (s : Controller T V)
        → c.metadata ≡ []
        → IsAligned s.dataframe
        → (s' : Controller T V) × (on_candle str c s ≡ some s') × IsAligned s'.dataframe
    unfolding on_candle
    on_candle-IsAligned c s plain h = elim (Bool-cases (late c s.dataframe)) [
      | inl e ↦ (s, rw (e, on_candle), h)
      | inr e ↦
          let (df, ran, aligned) = update_data_frame-IsAligned c s.dataframe h plain e in
          let s1 : Controller T V = record s { dataframe = df } in
          (run_strategy str s1, rw (e, on_candle, ran), run_strategy-IsAligned s1 aligned)
    ]

    -- If the callbacks of the strategy leave the columns of the dataframe alone, then OnCandle of
    -- candles without metadata, late ones among them, never panics, and keeps a dataframe in which
    -- every column has a value for each time and the times rise.
    pub on_candles-IsAligned :
        (cs : List (Candle V)) (s : Controller T V)
        → AllPlain cs
        → IsAligned s.dataframe
        → (s' : Controller T V) × (on_candles str cs s ≡ some s') × IsAligned s'.dataframe
    unfolding on_candles
    on_candles-IsAligned [] s plain h = (s, refl, h)
    on_candles-IsAligned (c ∷ cs) s plain h =
        let (s1, ran, aligned) = on_candle-IsAligned c s plain.0 h in
        let (s2, rest, end) = on_candles-IsAligned cs s1 plain.1 aligned in (s2, rw ran rest, end)
