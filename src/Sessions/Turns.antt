-- ===== src/Sessions/Turns.antt =====
-- A step of a goroutine keeps the maps of SignalManager in agreement with the goroutines.
use ninjabot.Prelude.{
  ℕ, ◌≡◌, refl, String, Bool, true, false, Option, none, some, contains, arith, if◌then◌else◌,
  Option-cases, Bool-cases, inl, inr, str_eq, sym, ap, ◌∙◌, not, ◌&&◌,
}
use ninjabot.Prelude.Map.{lookup, has_key}
use ninjabot.Model.Session.{Session}
use ninjabot.Sessions.Manager.{
  SessionStore, SignalManager, is_instance, reserve, register, leave, take_session, with_status,
}
use ninjabot.Sessions.Threads.{Pc, turn, choose, fetched, reserved, update}
use ninjabot.Sessions.Eviction.{take_session-IsOwned}
use ninjabot.Sessions.Ownership.{
  Claim, nothing, reserves, lives, spends, context, IsOwned, keep-IsOwned, reserve-IsOwned,
  drop-IsOwned, register-IsOwned, leave-IsOwned, gone-IsOwned, cancel-IsOwned,
}

module _ {V : Type 0} where
  abbrev pub claim : Pc V → Claim
  claim (Pc.resume_update id s ctx) = reserves id ctx
  claim (Pc.resume_event id s ctx) = reserves id ctx
  claim (Pc.resume_drop id ctx) = reserves id ctx
  claim (Pc.resume_cancel ctx) = spends ctx
  claim (Pc.launch s ctx) = reserves s.id ctx
  claim (Pc.launch_cancel s ctx built) = spends ctx
  claim (Pc.run id ctx) = lives id ctx
  claim (Pc.run_leave id ctx) = lives id ctx
  claim (Pc.run_cancel id ctx) = spends ctx
  claim _ = nothing

  -- ResumeSession works on the session that it asked for.
  abbrev pub IsKeyed : Pc V → Type 0
  IsKeyed (Pc.resume_reserve id s) = s.id ≡ id
  IsKeyed (Pc.resume_update id s ctx) = s.id ≡ id
  IsKeyed (Pc.resume_event id s ctx) = s.id ≡ id
  IsKeyed _ = Unit {0}

module _ {D V : Type 0} (st : SessionStore D V) where
  -- The storage finds a session under its own id.
  abbrev pub FindsById : Type 0
  FindsById = (id : String) (db : D) (s : Session V) → st.session_by_id id db ≡ some s → s.id ≡ id

module _ {V : Type 0} where
  either :
      (b : Bool) (p q : Pc V)
      → claim p ≡ nothing
      → claim q ≡ nothing
      → IsKeyed p
      → IsKeyed q
      → (claim (if b then p else q) ≡ nothing) × IsKeyed (if b then p else q)
  either true p q e f k l = (e, k)
  either false p q e f k l = (f, l)

module _ {D V : Type 0} (st : SessionStore D V) (finds : FindsById st) (now : ℕ) (good : Bool)
    (t : ℕ) (m : SignalManager D) (held : ℕ → Claim) (v : IsOwned m held) where
  abbrev Kept : Pc V × SignalManager D → Type 0
  Kept (pc, m') = IsOwned m' (update held t (claim pc)) × IsKeyed pc

  -- A step that only uses the storage.
  kept : (db : D) (pc : Pc V) → held t ≡ claim pc → IsKeyed pc → Kept (pc, record m { db = db })
  kept db pc e k = (keep-IsOwned m held v t (claim pc) db e, k)

  choose-Kept :
      (p q : Pc V) (r : Bool × SignalManager D)
      → (r.0 ≡ true → Kept (p, r.1))
      → (r.0 ≡ false → Kept (q, r.1))
      → Kept (choose p q r)
  choose-Kept p q (true, m') f g = f refl
  choose-Kept p q (false, m') f g = g refl

  storing :
      (p q : Pc V) (r : Bool × D)
      → held t ≡ claim p
      → held t ≡ claim q
      → IsKeyed p
      → IsKeyed q
      → Kept (choose p q (r.0, record m { db = r.1 }))
  storing p q (true, db) e f k l = kept db p e k
  storing p q (false, db) e f k l = kept db q f l

  fetched-Kept :
      (id : String) (next : Session V → Pc V)
      → held t ≡ nothing
      → ((s : Session V) → s.id ≡ id → (claim (next s) ≡ nothing) × IsKeyed (next s))
      → Kept (fetched st id next m)
  fetched-Kept id next e f = elim (Option-cases (st.session_by_id id m.db)) [
    | inl none_found ↦ rw (fetched, none_found) (kept m.db Pc.idle e tt)
    | inr (s, found) ↦
        let (c, k) = f s (finds id m.db s found) in
        rw (fetched, found) (kept m.db (next s) (e ∙ sym c) k)
  ]

  reserved-Kept :
      (id : String) (next : ℕ → Pc V)
      → held t ≡ nothing
      → ((ctx : ℕ) → (claim (next ctx) ≡ reserves id ctx) × IsKeyed (next ctx))
      → Kept (reserved next (reserve id m))
  unfolding reserve has_key
  reserved-Kept id next e f = elim (Option-cases (lookup id m.bots)) [
    | inr (c, busy) ↦ rw busy (kept m.db Pc.idle e tt)
    | inl no_bot ↦ elim (Option-cases (lookup id m.starting)) [
      | inr (c, busy) ↦ rw (no_bot, busy) (kept m.db Pc.idle e tt)
      | inl no_start ↦
          let (c, k) = f m.next_context in
          rw (no_bot, no_start, c) (reserve-IsOwned m held v t id (ap context e) no_bot no_start, k)
    ]
  ]

  register-Kept :
      (s : Session V) (ctx : ℕ) (built : Bool)
      → held t ≡ reserves s.id ctx
      → Kept (choose (Pc.run s.id ctx) (Pc.launch_cancel s ctx built) (register built s.id ctx m))
  unfolding register
  register-Kept s ctx false e = (drop-IsOwned m held v t s.id ctx e, tt)
  register-Kept s ctx true e = elim (Bool-cases (contains m.cancelled ctx)) [
    | inl late ↦ rw late (drop-IsOwned m held v t s.id ctx e, tt)
    | inr live ↦ rw live (register-IsOwned m held v t s.id ctx e live, tt)
  ]

  leave-Kept :
      (id : String) (ctx : ℕ)
      → held t ≡ lives id ctx
      → Kept (choose (Pc.run_cancel id ctx) Pc.idle (leave id ctx m))
  unfolding leave
  leave-Kept id ctx e = elim (Bool-cases (is_instance ctx (lookup id m.bots))) [
    | inl mine ↦
        rw mine (leave-IsOwned m held v t id ctx e (instance_at (lookup id m.bots) mine), tt)
    | inr other ↦ rw other (gone-IsOwned m held v t id ctx e (λ there. ground (arith, other)), tt)
  ]
    where
      instance_at : (o : Option ℕ) → is_instance ctx o ≡ true → o ≡ some ctx
      instance_at none h = cc
      instance_at (some c) h = ground arith

  pub turn-IsOwned : (pc : Pc V) → held t ≡ claim pc → IsKeyed pc → Kept (turn st now good pc m)
  unfolding turn
  turn-IsOwned Pc.idle e k = (keep-IsOwned m held v t nothing m.db e, tt)
  turn-IsOwned (Pc.start_create s) e k =
      storing (Pc.start_event s) Pc.idle (st.create_session s m.db) e e tt tt
  turn-IsOwned (Pc.start_event s) e k = kept _ (Pc.start_reserve s) e tt
  turn-IsOwned (Pc.start_reserve s) e k =
      reserved-Kept s.id (λ ctx. Pc.launch s ctx) e (λ ctx. (refl, tt))
  turn-IsOwned (Pc.resume_get id) e k =
      fetched-Kept id (λ s. Pc.resume_reserve id s) e (λ s h. (refl, h))
  turn-IsOwned (Pc.resume_reserve id s) e k =
      reserved-Kept id (λ ctx. Pc.resume_update id (with_status "running" now s) ctx) e
        (λ ctx. (refl, k))
  turn-IsOwned (Pc.resume_update id s ctx) e k =
      storing (Pc.resume_event id s ctx) (Pc.resume_drop id ctx) (st.update_session s m.db) e e k tt
  turn-IsOwned (Pc.resume_event id s ctx) e k =
      kept _ (Pc.launch s ctx) (e ∙ ap (λ j. reserves j ctx) (sym k)) tt
  turn-IsOwned (Pc.resume_drop id ctx) e k = (drop-IsOwned m held v t id ctx e, tt)
  turn-IsOwned (Pc.resume_cancel ctx) e k = (cancel-IsOwned m held v t ctx e, tt)
  turn-IsOwned (Pc.launch s ctx) e k = register-Kept s ctx good e
  turn-IsOwned (Pc.launch_cancel s ctx true) e k = (cancel-IsOwned m held v t ctx e, tt)
  turn-IsOwned (Pc.launch_cancel s ctx false) e k = (cancel-IsOwned m held v t ctx e, tt)
  turn-IsOwned (Pc.launch_failed s) e k = kept _ Pc.idle e tt
  turn-IsOwned (Pc.run id ctx) e k = kept m.db (Pc.run_leave id ctx) e tt
  turn-IsOwned (Pc.run_leave id ctx) e k = leave-Kept id ctx e
  turn-IsOwned (Pc.run_cancel id ctx) e k = (cancel-IsOwned m held v t ctx e, tt)
  turn-IsOwned (Pc.run_get id) e k =
      fetched-Kept id (λ s. if str_eq s.status "running" then Pc.run_update id s else Pc.idle) e
        (λ s h. either (str_eq s.status "running") (Pc.run_update id s) Pc.idle refl refl tt tt)
  turn-IsOwned (Pc.run_update id s) e k = kept _ (Pc.run_event id) e tt
  turn-IsOwned (Pc.run_event id) e k = kept _ Pc.idle e tt
  turn-IsOwned (Pc.stop_take id) e k =
      let v' = take_session-IsOwned m held id v in
      (keep-IsOwned (take_session id m).1 held v' t nothing (take_session id m).1.db e, tt)
  turn-IsOwned (Pc.stop_get id running starting) e k =
      let guard : Session V → Bool =
        λ s. not (str_eq s.status "running") && not running && not starting in
      fetched-Kept id (λ s. if guard s then Pc.idle else Pc.stop_update id s) e
        (λ s h. either (guard s) Pc.idle (Pc.stop_update id s) refl refl tt tt)
  turn-IsOwned (Pc.stop_update id s) e k =
      storing (Pc.stop_event id) Pc.idle (st.update_session (with_status "stopped" now s) m.db) e e
        tt tt
  turn-IsOwned (Pc.stop_event id) e k = kept _ Pc.idle e tt
