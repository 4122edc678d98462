-- ===== src/Tools/Trailing.antt =====
-- tools/trailing.go: a stop price that follows a rising price.
use ninjabot.Prelude.{
  ◌≡◌, sym, ap, ◌∙◌, Bool, true, false, not, List, [], ◌∷◌, Bool-cases, if◌then◌else◌, inl, inr,
}
use ninjabot.Float.{Float64, ◌⊕◌, ◌⊖◌, ◌<?◌, ◌≤?◌, lit, neg}
use ninjabot.Float.Laws.{IsExact, zero-add, sub_self}

pub record TrailingStop (V : Type 0) : Type 0 where
  pub current : V
  pub stop : V
  pub active : Bool

module _ {V : Type 0} ⦃fl : Float64 V⦄ where
  abbrev pub new_trailing_stop : TrailingStop V
  new_trailing_stop = record { current = lit 0; stop = lit 0; active = false }

  abbrev pub start : V → V → TrailingStop V → TrailingStop V
  start current stop t = record { current = current; stop = stop; active = true }

  abbrev pub stop_trailing : TrailingStop V → TrailingStop V
  stop_trailing t = record t { active = false }

  -- Update: whether the stop is hit, and the next state.
  unfoldable pub update : V → TrailingStop V → Bool × TrailingStop V
  update current t =
      if not t.active
      then (false, t)
      else if t.current <? current
      then (false, record t { stop = t.stop ⊕ (current ⊖ t.current); current = current })
      else (current ≤? t.stop, record t { current = current })

  -- A sequence of prices; the answers are left out.
  unfoldable pub follow : List V → TrailingStop V → TrailingStop V
  unfolding update
  follow [] t = t
  follow (p ∷ ps) t = follow ps (update p t).1

module _ {V : Type 0} ⦃fl : Float64 V⦄ (x : IsExact fl) where
  le_of_lt : (a b : V) → (a <? b) ≡ true → (a ≤? b) ≡ true
  le_of_lt a b h = elim (x.ordered.le_total a b) [
    | inl le ↦ le
    | inr ge ↦ no_lt ge (sym (x.ordered.lt-le a b) ∙ h)
  ]
    where
      no_lt : {t : Bool} {r : Bool} → t ≡ true → not t ≡ true → r ≡ true
      no_lt {t = true} e f = cc
      no_lt {t = false} e f = cc

  -- A difference that is not negative raises what it is added to.
  le-add_difference : (s a b : V) → (a ≤? b) ≡ true → (s ≤? (s ⊕ (b ⊖ a))) ≡ true
  le-add_difference s a b h =
      ap (λ t. t ≤? (s ⊕ (b ⊖ a))) (sym (zero-add x s))
      ∙ ap (λ t. (lit 0 ⊕ s) ≤? t) (x.add_comm s (b ⊖ a))
      ∙ x.add_mono (lit 0) (b ⊖ a) s (
          ap (λ t. t ≤? (b ⊖ a)) (sym (sub_self x a))
          ∙ ap (λ t. t ≤? (b ⊖ a)) (x.sub-neg a a)
          ∙ ap (λ t. (a ⊕ neg a) ≤? t) (x.sub-neg b a)
          ∙ x.add_mono a b (neg a) h)

  update-stop : (p : V) (t : TrailingStop V) → (t.stop ≤? (update p t).1.stop) ≡ true
  unfolding update
  update-stop p t = elim (Bool-cases t.active) [
    | inr e ↦ rw e (x.ordered.le_refl t.stop)
    | inl e ↦ elim (Bool-cases (t.current <? p)) [
      | inl f ↦ rw (e, f) (le-add_difference t.stop t.current p (le_of_lt t.current p f))
      | inr f ↦ rw (e, f) (x.ordered.le_refl t.stop)
    ]
  ]

  -- In exact arithmetic, whatever prices Update is given, the stop price never falls.
  pub follow-stop : (ps : List V) (t : TrailingStop V) → (t.stop ≤? (follow ps t).stop) ≡ true
  unfolding follow
  follow-stop [] t = x.ordered.le_refl t.stop
  follow-stop (p ∷ ps) t =
      x.ordered.le_trans t.stop (update p t).1.stop (follow ps (update p t).1).stop
        (update-stop p t) (follow-stop ps (update p t).1)
