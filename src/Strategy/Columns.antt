-- ===== src/Strategy/Columns.antt =====
-- The rows of the dataframe that strategy/controller.go keeps.
use ninjabot.Prelude.{
  ℕ, suc, ◌-◌, ◌<◌, ◌≡◌, refl, sym, ap, ◌∙◌, Bool, true, false, List, [], ◌∷◌, ◌++◌, Option, none,
  some, ltb, ◌==◌, length, set, length-append, length-set, arith, Bool-cases, Option-cases, inl,
  inr,
}
use ninjabot.Model.Candle.{Candle}
use ninjabot.Strategy.Controller.{
  Dataframe, last_time, write_at, write_metadata, overwrite, append_row, update_data_frame, late,
}

-- Times that rise from each to the next.
abbrev pub Ascending : List ℕ → Type 0
Ascending [] = Unit {0}
Ascending (t ∷ []) = Unit {0}
Ascending (t ∷ u ∷ ts) = (t < u) × Ascending (u ∷ ts)

Ascending-snoc :
    (ts : List ℕ) (v : ℕ)
    → Ascending ts
    → ((t : ℕ) → last_time ts ≡ some t → t < v)
    → Ascending (ts ++ v ∷ [])
unfolding last_time
Ascending-snoc [] v a h = tt
Ascending-snoc (t ∷ []) v a h = (h t refl, tt)
Ascending-snoc (t ∷ u ∷ ts) v a h = (a.0, Ascending-snoc (u ∷ ts) v a.1 h)

last_time-nonempty : (ts : List ℕ) (t : ℕ) → last_time ts ≡ some t → length ts - 1 < length ts
unfolding last_time
last_time-nonempty [] t e = cc
last_time-nonempty (u ∷ ts) t e = omega arith

-- The last time written over itself.
set-last_time : (ts : List ℕ) (t : ℕ) → last_time ts ≡ some t → set ts (length ts - 1) t ≡ ts
unfolding last_time
set-last_time [] t e = refl
set-last_time (u ∷ []) t e = cc
set-last_time (u ∷ v ∷ ts) t e =
    ap (λ n. set (u ∷ v ∷ ts) n t) (suc_sub (length ts)) ∙ ap (◌∷◌ u) (set-last_time (v ∷ ts) t e)
  where
    suc_sub : (n : ℕ) → suc (suc n) - 1 ≡ suc (suc n - 1)
    suc_sub n = omega arith

out_of_range {ℓ} : {A : Type ℓ} (i n : ℕ) → i < n → ltb i n ≡ false → A
out_of_range i n h e = ground arith

write_at-some {ℓ} :
    {A : Type ℓ} (xs : List A) (i : ℕ) (v : A) → i < length xs → write_at xs i v ≡ some (set xs i v)
unfolding write_at
write_at-some xs i v h = elim (Bool-cases (ltb i (length xs))) [
  | inl e ↦ rw e
  | inr e ↦ out_of_range i (length xs) h e
]

append-length {ℓ} :
    {A : Type ℓ} (xs : List A) (x : A) (ts : List ℕ) (t : ℕ)
    → length xs ≡ length ts
    → length (xs ++ x ∷ []) ≡ length (ts ++ t ∷ [])
append-length xs x ts t e = omega (arith, length-append xs (x ∷ []), length-append ts (t ∷ []))

module _ {V : Type 0} where
  -- All columns have a value for each time, and the times rise.
  pub record IsAligned (df : Dataframe V) : Type 0 where
    pub close : length df.close ≡ length df.time
    pub open_price : length df.open_price ≡ length df.time
    pub high : length df.high ≡ length df.time
    pub low : length df.low ≡ length df.time
    pub volume : length df.volume ≡ length df.time
    pub ascending : Ascending df.time

  append_row-IsAligned :
      (c : Candle V) (df : Dataframe V)
      → IsAligned df
      → ((t : ℕ) → last_time df.time ≡ some t → t < c.time)
      → IsAligned (append_row c df)
  unfolding append_row
  append_row-IsAligned c df a later = record {
    close = append-length df.close c.close df.time c.time a.close;
    open_price = append-length df.open_price c.open_price df.time c.time a.open_price;
    high = append-length df.high c.high df.time c.time a.high;
    low = append-length df.low c.low df.time c.time a.low;
    volume = append-length df.volume c.volume df.time c.time a.volume;
    ascending = Ascending-snoc df.time c.time a.ascending later;
  }

  overwrite-IsAligned :
      (c : Candle V) (df : Dataframe V)
      → IsAligned df
      → c.metadata ≡ []
      → last_time df.time ≡ some c.time
      → (df' : Dataframe V) × (overwrite c df ≡ some df') × IsAligned df'
  unfolding overwrite write_metadata
  overwrite-IsAligned c df a plain at =
      let i = length df.time - 1 in
      let inside = last_time-nonempty df.time c.time at in
      let kept = set-last_time df.time c.time at in
      (
        record df {
          close = set df.close i c.close;
          open_price = set df.open_price i c.open_price;
          high = set df.high i c.high;
          low = set df.low i c.low;
          volume = set df.volume i c.volume;
        },
        rw (
          overwrite,
          write_at-some df.close i c.close (omega (arith, inside, a.close)),
          write_at-some df.open_price i c.open_price (omega (arith, inside, a.open_price)),
          write_at-some df.high i c.high (omega (arith, inside, a.high)),
          write_at-some df.low i c.low (omega (arith, inside, a.low)),
          write_at-some df.volume i c.volume (omega (arith, inside, a.volume)),
          write_at-some df.time i c.time inside,
          plain,
          kept,
        ),
        record {
          close = length-set df.close i c.close ∙ a.close;
          open_price = length-set df.open_price i c.open_price ∙ a.open_price;
          high = length-set df.high i c.high ∙ a.high;
          low = length-set df.low i c.low ∙ a.low;
          volume = length-set df.volume i c.volume ∙ a.volume;
          ascending = a.ascending;
        },
      )

  -- A candle that is not late and has no metadata of its own.
  pub update_data_frame-IsAligned :
      (c : Candle V) (df : Dataframe V)
      → IsAligned df
      → c.metadata ≡ []
      → late c df ≡ false
      → (df' : Dataframe V) × (update_data_frame c df ≡ some df') × IsAligned df'
  unfolding update_data_frame late
  update_data_frame-IsAligned c df a plain timely = elim (Option-cases (last_time df.time)) [
    | inl e ↦ (
      append_row c df,
      rw (e, update_data_frame),
      append_row-IsAligned c df a (λ t at. no_time (sym e ∙ at)),
    )
    | inr (t, e) ↦ elim (Bool-cases (c.time == t)) [
      | inl same ↦
          let (df', ran, aligned) =
            overwrite-IsAligned c df a plain (e ∙ ap some (sym (eq_of_test c.time t same))) in
          (df', rw (e, update_data_frame, same) ran, aligned)
      | inr other ↦ (
        append_row c df,
        rw (e, update_data_frame, other),
        append_row-IsAligned c df a
            (λ u at. later c.time t u (some_inj (sym e ∙ at)) (by_last e timely) other),
      )
    ]
  ]
    where
      no_time : {t : ℕ} {B : Type 0} → ◌≡◌ {A = Option ℕ} none (some t) → B
      no_time e = cc

      some_inj : {t u : ℕ} → ◌≡◌ {A = Option ℕ} (some t) (some u) → t ≡ u
      some_inj e = cc

      eq_of_test : (n m : ℕ) → (n == m) ≡ true → n ≡ m
      eq_of_test n m h = ground arith

      later : (n t u : ℕ) → t ≡ u → ltb n t ≡ false → (n == t) ≡ false → u < n
      later n t u e f g = ground arith

      by_last : {t : ℕ} → last_time df.time ≡ some t → late c df ≡ false → ltb c.time t ≡ false
      by_last e f =
          ap (λ o. elim o as (λ _. Bool) [ none ↦ false | some t ↦ ltb c.time t ]) (sym e) ∙ f
