-- ===== src/Sessions/Progress.antt =====
-- A launch comes to an end: no session stays busy because of one.
use ninjabot.Prelude.{
  ℕ, ◌==◌, ◌≡◌, refl, String, Bool, true, false, List, [], ◌∷◌, Option, none, some, contains, arith,
  ap, ◌∙◌, Bool-cases, inl, inr, str_eq, str_eq_iff, if◌then◌else◌, subst,
}
use ninjabot.Prelude.Map.{lookup, erase, lookup-erase}
use ninjabot.Model.Session.{Session}
use ninjabot.Sessions.Manager.{
  SessionStore, SignalManager, is_instance, drop_start, register, leave, record_session_event,
  mark_failed,
}
use ninjabot.Sessions.Threads.{Pc, World, Action, turn, act, acts, place, new_world}
use ninjabot.Sessions.Ownership.{reserves}
use ninjabot.Sessions.Turns.{claim, IsKeyed, FindsById}
use ninjabot.Sessions.Safety.{acts-IsSafe, new_world-IsSafe}

module _ {V : Type 0} where
  -- After the lock of launch, or a return.
  abbrev is_settled : Pc V → Bool
  is_settled Pc.idle = true
  is_settled (Pc.resume_cancel ctx) = true
  is_settled (Pc.launch_cancel s ctx built) = true
  is_settled (Pc.launch_failed s) = true
  is_settled (Pc.run id ctx) = true
  is_settled (Pc.run_leave id ctx) = true
  is_settled (Pc.run_cancel id ctx) = true
  is_settled (Pc.run_get id) = true
  is_settled (Pc.run_update id s) = true
  is_settled (Pc.run_event id) = true
  is_settled _ = false

module _ {D V : Type 0} (st : SessionStore D V) where
  -- One goroutine alone, at each step with the time and the outcome of buildBot.
  abbrev turns : List (ℕ × Bool) → Pc V × SignalManager D → Pc V × SignalManager D
  turns [] r = r
  turns ((now, good) ∷ rest) r = turns rest (turn st now good r.0 r.1)

  abbrev pub advances : ℕ → List (ℕ × Bool) → List (Action V)
  advances t [] = []
  advances t ((now, good) ∷ rest) = Action.advance t now good ∷ advances t rest

  acts-advances :
      (t : ℕ) (steps : List (ℕ × Bool)) (w : World D V)
      → (acts st (advances t steps) w).manager ≡ (turns steps (w.goroutines t, w.manager)).1
  unfolding acts act
  acts-advances t [] w = refl
  acts-advances t ((now, good) ∷ rest) w =
      let r = turn st now good (w.goroutines t) w.manager in
      let here : (t == t) ≡ true = ground arith in
      acts-advances t rest (place t r.0 r.1 w)
      ∙ ap (λ b. (turns rest (if b then r.0 else w.goroutines t, r.1)).1) here

  -- `starting` has no entry of the session, and the goroutine is past the launch.
  abbrev IsOver : String → Pc V × SignalManager D → Type 0
  IsOver id (pc, m) = (is_settled pc ≡ true) × (lookup id m.starting ≡ none)

  settled-IsOver :
      (id : String) (now : ℕ) (good : Bool) (pc : Pc V) (m : SignalManager D)
      → IsOver id (pc, m)
      → IsOver id (turn st now good pc m)
  unfolding turn leave record_session_event mark_failed
  settled-IsOver id now good Pc.idle m v = v
  settled-IsOver id now good (Pc.resume_cancel ctx) m v = v
  settled-IsOver id now good (Pc.launch_cancel s ctx true) m v = v
  settled-IsOver id now good (Pc.launch_cancel s ctx false) m v = v
  settled-IsOver id now good (Pc.launch_failed s) m v = v
  settled-IsOver id now good (Pc.run j ctx) m v = v
  settled-IsOver id now good (Pc.run_leave j ctx) m v =
      elim (Bool-cases (is_instance ctx (lookup j m.bots))) [ inl e ↦ rw e v | inr e ↦ rw e v ]
  settled-IsOver id now good (Pc.run_cancel j ctx) m v = v
  settled-IsOver id now good (Pc.run_get j) m v = go (st.session_by_id j m.db)
    where
      settled_either :
          (b : Bool) (s : Session V) → is_settled (if b then Pc.run_update j s else Pc.idle) ≡ true
      settled_either true s = refl
      settled_either false s = refl

      go :
          (o : Option (Session V))
          → IsOver id (elim o as (λ _. Pc V × SignalManager D) [
            | none ↦ (Pc.idle, m)
            | some s ↦ (if str_eq s.status "running" then Pc.run_update j s else Pc.idle, m)
          ])
      go none = v
      go (some s) = (settled_either (str_eq s.status "running") s, v.1)
  settled-IsOver id now good (Pc.run_update j s) m v = v
  settled-IsOver id now good (Pc.run_event j) m v = v
  settled-IsOver id now good pc m v = absurd cc

  erased : (id : String) (m : SignalManager D) → lookup id (erase id m.starting) ≡ none
  erased id m = ground (arith, lookup-erase id id m.starting, str_eq_iff id id)

  launched-IsOver :
      (now : ℕ) (good : Bool) (s : Session V) (ctx : ℕ) (m : SignalManager D)
      → IsOver s.id (turn st now good (Pc.launch s ctx) m)
  unfolding turn register drop_start
  launched-IsOver now false s ctx m = (refl, erased s.id m)
  launched-IsOver now true s ctx m = elim (Bool-cases (contains m.cancelled ctx)) [
    | inl late ↦ rw late (refl, erased s.id m)
    | inr live ↦ rw live (refl, erased s.id m)
  ]

  settled_turns-IsOver :
      (id : String) (steps : List (ℕ × Bool)) (r : Pc V × SignalManager D)
      → IsOver id r
      → IsOver id (turns steps r)
  settled_turns-IsOver id [] r v = v
  settled_turns-IsOver id ((now, good) ∷ rest) (pc, m) v =
      settled_turns-IsOver id rest (turn st now good pc m) (settled-IsOver id now good pc m v)

  -- Steps that begin with the launch, or with the drop of a session that could not be stored.
  launch_turns-IsOver :
      (id : String) (s : Session V) (ctx : ℕ) (m : SignalManager D) (p : ℕ × Bool)
      (rest : List (ℕ × Bool))
      → s.id ≡ id
      → IsOver id (turns (p ∷ rest) (Pc.launch s ctx, m))
  launch_turns-IsOver id s ctx m p rest same =
      subst (λ j. IsOver j (turns (p ∷ rest) (Pc.launch s ctx, m))) same
        (settled_turns-IsOver s.id rest _ (launched-IsOver p.0 p.1 s ctx m))

  drop_turns-IsOver :
      (id : String) (ctx : ℕ) (m : SignalManager D) (p : ℕ × Bool) (rest : List (ℕ × Bool))
      → IsOver id (turns (p ∷ rest) (Pc.resume_drop id ctx, m))
  unfolding turn drop_start
  drop_turns-IsOver id ctx m p rest =
      settled_turns-IsOver id rest (Pc.resume_cancel ctx, drop_start id m) (refl, erased id m)

  updated_turns-IsOver :
      (b : Bool) (id : String) (s : Session V) (ctx : ℕ) (m : SignalManager D) (q r : ℕ × Bool)
      → s.id ≡ id
      → IsOver id
          (turns (q ∷ r ∷ []) (if b then Pc.resume_event id s ctx else Pc.resume_drop id ctx, m))
  unfolding turn
  updated_turns-IsOver true id s ctx m q r same = launch_turns-IsOver id s ctx _ r [] same
  updated_turns-IsOver false id s ctx m q r same = drop_turns-IsOver id ctx m q (r ∷ [])

  -- Three steps end the launch of a goroutine that holds the reservation of a session.
  reserved_turns-IsOver :
      (id : String) (c : ℕ) (pc : Pc V) (m : SignalManager D) (p q r : ℕ × Bool)
      → claim pc ≡ reserves id c
      → IsKeyed pc
      → IsOver id (turns (p ∷ q ∷ r ∷ []) (pc, m))
  unfolding turn
  reserved_turns-IsOver id c (Pc.launch s ctx) m p q r e k =
      launch_turns-IsOver id s ctx m p (q ∷ r ∷ []) cc
  reserved_turns-IsOver id c (Pc.resume_event j s ctx) m p q r e k =
      launch_turns-IsOver id s ctx _ q (r ∷ []) cc
  reserved_turns-IsOver id c (Pc.resume_update j s ctx) m p q r e k =
      let same : j ≡ id = cc in
      subst (λ i. IsOver i (turns (p ∷ q ∷ r ∷ []) (Pc.resume_update j s ctx, m))) same
        (updated_turns-IsOver (st.update_session s m.db).0 j s ctx _ q r k)
  reserved_turns-IsOver id c (Pc.resume_drop j ctx) m p q r e k =
      let same : j ≡ id = cc in
      subst (λ i. IsOver i (turns (p ∷ q ∷ r ∷ []) (Pc.resume_drop j ctx, m))) same
        (drop_turns-IsOver j ctx m p (q ∷ r ∷ []))
  reserved_turns-IsOver id c pc m p q r e k = absurd cc

  -- If the storage finds a session under its own id, then in any world that requests and steps lead
  -- to, a session that is starting has a goroutine of which three further steps, whatever the time
  -- and the outcomes of the calls, leave the session without an entry in `starting`.
  pub starting-IsOver :
      FindsById st
      → (actions : List (Action V)) (began : ℕ) (db : D) (id : String) (c : ℕ)
      → lookup id (acts st actions (new_world st began db)).manager.starting ≡ some c
      → (t : ℕ) × ((p q r : ℕ × Bool)
          → lookup id
              (acts st
                (advances t (p ∷ q ∷ r ∷ []))
                (acts st actions (new_world st began db))).manager.starting
            ≡ none)
  starting-IsOver finds actions began db id c there =
      let w : World D V = acts st actions (new_world st began db) in
      let v = acts-IsSafe st finds actions (new_world st began db) (new_world-IsSafe st began db) in
      let t = v.owned.home c in
      (
        t,
        λ p q r.
            ap (λ m. lookup id m.starting) (acts-advances t (p ∷ q ∷ r ∷ []) w)
            ∙ (reserved_turns-IsOver id c (w.goroutines t) w.manager p q r
                (v.owned.reserving id c there) (v.keyed t)).1,
      )
