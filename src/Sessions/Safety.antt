-- ===== src/Sessions/Safety.antt =====
-- However the goroutines of the sessions interleave, the maps of SignalManager agree with them.
use ninjabot.Prelude.{
  ℕ, ◌==◌, ◌≡◌, refl, Bool, true, false, List, [], ◌∷◌, arith, if◌then◌else◌, subst,
}
use ninjabot.Prelude.Map.{lookup-nil}
use ninjabot.Sessions.Manager.{SessionStore, SignalManager}
use ninjabot.Sessions.Recovery.{new_signal_manager}
use ninjabot.Sessions.Threads.{
  Pc, Call, accept, place, turn, update, World, Action, act, acts, new_world,
}
use ninjabot.Sessions.Ownership.{IsOwned, keep-IsOwned}
use ninjabot.Sessions.Turns.{claim, IsKeyed, FindsById, turn-IsOwned}

module _ {V : Type 0} where
  -- The claims after one goroutine has moved.
  claim-update :
      (f : ℕ → Pc V) (t : ℕ) (pc : Pc V)
      → update (λ j. claim (f j)) t (claim pc) ≡ (λ j. claim (update f t pc j))
  claim-update f t pc = λ i j. pick (t == j) j i
    where
      pick :
          (b : Bool) (j : ℕ) → (if b then claim pc else claim (f j)) ≡ claim (if b then pc else f j)
      pick true j = refl
      pick false j = refl

  accept-Kept :
      (now : ℕ) (c : Call V) (pc : Pc V)
      → IsKeyed pc
      → (claim (accept now c pc) ≡ claim pc) × IsKeyed (accept now c pc)
  accept-Kept now (Call.start_session id req) Pc.idle k = (refl, tt)
  accept-Kept now (Call.resume_session id) Pc.idle k = (refl, tt)
  accept-Kept now (Call.stop_session id) Pc.idle k = (refl, tt)
  accept-Kept now c pc k = (refl, k)

module _ {D V : Type 0} where
  -- The maps agree with the goroutines, and each goroutine works on the session that it asked for.
  pub record IsSafe (w : World D V) : Type 0 where
    pub owned : IsOwned w.manager (λ t. claim (w.goroutines t))
    pub keyed : (t : ℕ) → IsKeyed (w.goroutines t)

  place-IsSafe :
      (t : ℕ) (pc : Pc V) (m : SignalManager D) (w : World D V)
      → IsOwned m (update (λ j. claim (w.goroutines j)) t (claim pc))
      → IsKeyed pc
      → ((j : ℕ) → IsKeyed (w.goroutines j))
      → IsSafe (place t pc m w)
  place-IsSafe t pc m w v k keyed = record {
    owned = subst (IsOwned m) (claim-update w.goroutines t pc) v;
    keyed = λ j. pick (t == j) j;
  }
    where
      pick : (b : Bool) (j : ℕ) → IsKeyed (if b then pc else w.goroutines j)
      pick true j = k
      pick false j = keyed j

  pub new_world-IsSafe : (st : SessionStore D V) (now : ℕ) (db : D) → IsSafe (new_world st now db)
  unfolding new_world new_signal_manager
  new_world-IsSafe st now db = record {
    owned = record {
      home = λ ctx. 0;
      at_home = λ t ctx h. cc;
      reserved = λ t id ctx h. cc;
      reserving = λ id ctx h. ground (arith, lookup-nil {A = ℕ} id);
      registered = λ t id ctx h. cc;
      running = λ id ctx h. ground (arith, lookup-nil {A = ℕ} id);
      alive = λ id ctx h. refl;
      apart = λ id ctx h. lookup-nil id;
    };
    keyed = λ t. tt;
  }

  act-IsSafe :
      (st : SessionStore D V)
      → FindsById st
      → (a : Action V) (w : World D V) → IsSafe w
      → IsSafe (act st a w)
  unfolding act
  act-IsSafe st finds (Action.request t now c) w v =
      let pc = w.goroutines t in
      let (same, k) = accept-Kept now c pc (v.keyed t) in
      place-IsSafe t (accept now c pc) w.manager w
        (rw same (keep-IsOwned w.manager _ v.owned t (claim pc) w.manager.db refl)) k v.keyed
  act-IsSafe st finds (Action.advance t now good) w v =
      let pc = w.goroutines t in
      let r = turn st now good pc w.manager in
      let (owned, k) = turn-IsOwned st finds now good t w.manager _ v.owned pc refl (v.keyed t) in
      place-IsSafe t r.0 r.1 w owned k v.keyed

  -- In every world that the requests and the steps of the goroutines lead to.
  pub acts-IsSafe :
      (st : SessionStore D V)
      → FindsById st
      → (actions : List (Action V)) (w : World D V) → IsSafe w
      → IsSafe (acts st actions w)
  unfolding acts
  acts-IsSafe st finds [] w v = v
  acts-IsSafe st finds (a ∷ actions) w v =
      acts-IsSafe st finds actions (act st a w) (act-IsSafe st finds a w v)
