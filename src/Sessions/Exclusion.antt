-- ===== src/Sessions/Exclusion.antt =====
-- What the agreement of the maps with the goroutines means for the bots of a session.
use ninjabot.Prelude.{
  ℕ, ◌==◌, ◌≡◌, refl, String, Bool, true, false, List, Option, none, some, contains, arith, ap, sym,
  ◌∙◌, ◌⊎◌, inl, inr, Bool-cases, str_eq_iff, if◌then◌else◌,
}
use ninjabot.Prelude.Map.{lookup, erase, lookup-erase}
use ninjabot.Sessions.Manager.{SessionStore, SignalManager, cancel_some, take_session}
use ninjabot.Sessions.Threads.{Pc, World, Action, turn, act, acts, place, new_world}
use ninjabot.Sessions.Ownership.{reserves, lives}
use ninjabot.Sessions.Turns.{claim, FindsById}
use ninjabot.Sessions.Safety.{IsSafe, acts-IsSafe, new_world-IsSafe}

module _ {D V : Type 0} where
  -- A bot whose context is not cancelled is registered, and is the only such bot of its session; a
  -- registered bot is not cancelled, and its session is not starting.
  pub record IsExclusive (w : World D V) : Type 0 where
    pub single :
        (t u : ℕ) (id : String) (c d : ℕ)
        → w.goroutines t ≡ Pc.run id c
        → w.goroutines u ≡ Pc.run id d
        → contains w.manager.cancelled c ≡ false
        → contains w.manager.cancelled d ≡ false
        → t ≡ u
    pub found :
        (t : ℕ) (id : String) (c : ℕ)
        → w.goroutines t ≡ Pc.run id c
        → contains w.manager.cancelled c ≡ false
        → lookup id w.manager.bots ≡ some c
    pub unlike :
        (id : String) (c : ℕ)
        → lookup id w.manager.bots ≡ some c
        → (contains w.manager.cancelled c ≡ false) × (lookup id w.manager.starting ≡ none)

  IsSafe-IsExclusive : (w : World D V) → IsSafe w → IsExclusive w
  IsSafe-IsExclusive w v = record {
    single = λ t u id c d run_t run_u live_c live_d.
        let at_c = v.owned.registered t id c (ap claim run_t) live_c in
        let at_d = v.owned.registered u id d (ap claim run_u) live_d in
        let same : c ≡ d = cc in
        let home_t = v.owned.at_home t c (rw run_t refl) in
        let home_u = v.owned.at_home u d (rw run_u refl) in
        sym home_t.0 ∙ ap v.owned.home same ∙ home_u.0;
    found = λ t id c run_t live. v.owned.registered t id c (ap claim run_t) live;
    unlike = λ id c there. (v.owned.alive id c there, v.owned.apart id c there);
  }

  -- Whatever requests arrive and however the goroutines that serve them interleave, if the storage
  -- finds a session under its own id, then at any time a running bot whose context is not cancelled
  -- is registered and is the only such bot of its session; a registered bot is not cancelled, and
  -- its session is not starting.
  pub acts-IsExclusive :
      (st : SessionStore D V)
      → FindsById st
      → (actions : List (Action V)) (began : ℕ) (db : D)
      → IsExclusive (acts st actions (new_world st began db))
  acts-IsExclusive st finds actions began db =
      IsSafe-IsExclusive _
        (acts-IsSafe st finds actions (new_world st began db) (new_world-IsSafe st began db))

module _ {D : Type 0} where
  cancel_some-cancelled :
      (o : Option ℕ) (m : SignalManager D) (c : ℕ)
      → (o ≡ some c) ⊎ (contains m.cancelled c ≡ true)
      → contains (cancel_some o m).cancelled c ≡ true
  cancel_some-cancelled none m c h = ground arith
  cancel_some-cancelled (some d) m c h = ground arith

  cancel_some-maps :
      (o : Option ℕ) (m : SignalManager D)
      → ((cancel_some o m).bots ≡ m.bots) × ((cancel_some o m).starting ≡ m.starting)
  cancel_some-maps none m = (refl, refl)
  cancel_some-maps (some d) m = (refl, refl)

  -- What StopSession does under the lock.
  take_session-cancelled :
      (m : SignalManager D) (id : String) (c : ℕ)
      → (lookup id m.bots ≡ some c) ⊎ (lookup id m.starting ≡ some c)
      → contains (take_session id m).1.cancelled c ≡ true
  unfolding take_session
  take_session-cancelled m id c h =
      let m0 = record m { bots = erase id m.bots } in
      let m1 = cancel_some (lookup id m.bots) m0 in
      cancel_some-cancelled (lookup id m1.starting) m1 c (elim h [
        | inl there ↦ inr (cancel_some-cancelled (lookup id m.bots) m0 c (inl there))
        | inr there ↦ inl (ap (lookup id) (cancel_some-maps (lookup id m.bots) m0).1 ∙ there)
      ])

  take_session-bots :
      (m : SignalManager D) (id : String) → lookup id (take_session id m).1.bots ≡ none
  unfolding take_session
  take_session-bots m id =
      let m0 = record m { bots = erase id m.bots } in
      let m1 = cancel_some (lookup id m.bots) m0 in
      ap (lookup id) (
        (cancel_some-maps (lookup id m1.starting) m1).0
        ∙ (cancel_some-maps (lookup id m.bots) m0).0)
      ∙ ground (arith, lookup-erase id id m.bots, str_eq_iff id id)

  take_session-keeps :
      (m : SignalManager D) (id : String) (c : ℕ)
      → contains m.cancelled c ≡ true
      → contains (take_session id m).1.cancelled c ≡ true
  unfolding take_session
  take_session-keeps m id c h =
      let m0 = record m { bots = erase id m.bots } in
      let m1 = cancel_some (lookup id m.bots) m0 in
      cancel_some-cancelled (lookup id m1.starting) m1 c
        (inr (cancel_some-cancelled (lookup id m.bots) m0 c (inr h)))

module _ {V : Type 0} where
  -- A goroutine that runs a bot of the session, or may still register one, with its context.
  abbrev pub WorksOn : String → ℕ → Pc V → Type 0
  WorksOn id c pc = (claim pc ≡ lives id c) ⊎ (claim pc ≡ reserves id c)

module _ {D V : Type 0} where
  -- No bot of the session is registered, and whoever works on it is cancelled.
  pub record IsFinal (id : String) (w : World D V) : Type 0 where
    pub away : lookup id w.manager.bots ≡ none
    pub silenced : (u c : ℕ) → WorksOn id c (w.goroutines u) → contains w.manager.cancelled c ≡ true

  taken-IsFinal :
      (w : World D V) (t : ℕ) (id : String) (running starting : Bool)
      → IsSafe w
      → IsFinal id (place t (Pc.stop_get id running starting) (take_session id w.manager).1 w)
  taken-IsFinal w t id running starting v = record {
    away = take_session-bots w.manager id;
    silenced = λ u c h. others (t == u) u c h;
  }
    where
      working :
          (u c : ℕ)
          → WorksOn id c (w.goroutines u)
          → contains (take_session id w.manager).1.cancelled c ≡ true
      working u c (inr h) = take_session-cancelled w.manager id c (inr (v.owned.reserved u id c h))
      working u c (inl h) = elim (Bool-cases (contains w.manager.cancelled c)) [
        | inl done ↦ take_session-keeps w.manager id c done
        | inr live ↦ take_session-cancelled w.manager id c (inl (v.owned.registered u id c h live))
      ]

      others :
          (b : Bool) (u c : ℕ)
          → WorksOn id c (if b then Pc.stop_get id running starting else w.goroutines u)
          → contains (take_session id w.manager).1.cancelled c ≡ true
      others true u c h = ground arith
      others false u c h = working u c h

  -- If the storage finds a session under its own id, then once a StopSession has had the lock, in
  -- any world that requests and steps lead to, no bot of its session is registered, and the context
  -- of every goroutine that runs a bot of the session, or is about to start one, is cancelled.
  pub stop_take-IsFinal :
      (st : SessionStore D V)
      → FindsById st
      → (actions : List (Action V)) (began : ℕ) (db : D) (t now : ℕ) (good : Bool) (id : String)
      → (acts st actions (new_world st began db)).goroutines t ≡ Pc.stop_take id
      → IsFinal id (act st (Action.advance t now good) (acts st actions (new_world st began db)))
  unfolding act turn
  stop_take-IsFinal st finds actions began db t now good id at_stop =
      let w = acts st actions (new_world st began db) in
      let v = acts-IsSafe st finds actions (new_world st began db) (new_world-IsSafe st began db) in
      rw at_stop (taken-IsFinal w t id _ _ v)
