-- ===== src/Sessions/Threads.antt =====
-- StartSession, ResumeSession, StopSession, launch and run of server/handler/signal_manager.go as
-- programs of concurrent goroutines. A step of a goroutine is a part of a method that runs under
-- the lock, one call of the storage, or the call of a cancel function; between two steps of one
-- goroutine any others may come. The goroutine that calls launch goes on as `run`: the caller has
-- only the notification of Telegram left to send.
use ninjabot.Prelude.{
  ℕ, ◌==◌, String, Bool, not, ◌&&◌, List, [], ◌∷◌, Option, none, some, str_eq, if◌then◌else◌,
}
use ninjabot.Model.Session.{Session, start, stop, resume}
use ninjabot.Sessions.Recovery.{new_signal_manager}
use ninjabot.Sessions.Manager.{
  SessionStore, SignalManager, StartSignalRequest, new_session, with_status, cancel, reserve,
  drop_start, register, leave, take_session, record_session_event, update_session, mark_failed,
}

-- Where a goroutine is: what it does next, with its local variables.
pub data Pc (V : Type 0) : Type 0 where
  idle : Pc V
  start_create : Session V → Pc V
  start_event : Session V → Pc V
  start_reserve : Session V → Pc V
  resume_get : String → Pc V
  resume_reserve : String → Session V → Pc V
  resume_update : String → Session V → ℕ → Pc V
  resume_event : String → Session V → ℕ → Pc V
  resume_drop : String → ℕ → Pc V
  resume_cancel : ℕ → Pc V
  launch : Session V → ℕ → Pc V
  launch_cancel : Session V → ℕ → Bool → Pc V
  launch_failed : Session V → Pc V
  run : String → ℕ → Pc V
  run_leave : String → ℕ → Pc V
  run_cancel : String → ℕ → Pc V
  run_get : String → Pc V
  run_update : String → Session V → Pc V
  run_event : String → Pc V
  stop_take : String → Pc V
  stop_get : String → Bool → Bool → Pc V
  stop_update : String → Session V → Pc V
  stop_event : String → Pc V

-- A family of goroutines with another at one place.
abbrev pub update : {A : Type 0} → (ℕ → A) → ℕ → A → ℕ → A
update f i a j = if i == j then a else f j

module _ {D V : Type 0} where
  -- After `reserve`, `next` for a context; an error returns.
  abbrev pub reserved : (ℕ → Pc V) → Option ℕ × SignalManager D → Pc V × SignalManager D
  reserved next (none, m) = (idle, m)
  reserved next (some ctx, m) = (next ctx, m)

  -- Two ways to go on after a call that may fail.
  abbrev pub choose : Pc V → Pc V → Bool × SignalManager D → Pc V × SignalManager D
  choose yes_pc no_pc (b, m) = (if b then yes_pc else no_pc, m)

module _ {D V : Type 0} (st : SessionStore D V) where
  -- A session that was read, or a return on an error.
  abbrev pub fetched : String → (Session V → Pc V) → SignalManager D → Pc V × SignalManager D
  fetched id next m = elim (st.session_by_id id m.db) [ none ↦ (idle, m) | some s ↦ (next s, m) ]

  -- The next step, at the time `now`. In `launch`, `good` is whether buildBot succeeds; whether the
  -- context is cancelled is read under the lock, as launch does. `run` ends when Bot.Run returns,
  -- and the wait of StopSession for it may time out at any time, so that it has no step.
  unfoldable pub turn : ℕ → Bool → Pc V → SignalManager D → Pc V × SignalManager D
  unfolding reserve drop_start register leave take_session record_session_event mark_failed
  turn now good idle m = (idle, m)
  turn now good (start_create s) m =
      let r = st.create_session s m.db in choose (start_event s) idle (r.0, record m { db = r.1 })
  turn now good (start_event s) m = (start_reserve s, record_session_event st s.id start now m)
  turn now good (start_reserve s) m = reserved (λ ctx. launch s ctx) (reserve s.id m)
  turn now good (resume_get id) m = fetched id (λ s. resume_reserve id s) m
  turn now good (resume_reserve id s) m =
      reserved (λ ctx. resume_update id (with_status "running" now s) ctx) (reserve id m)
  turn now good (resume_update id s ctx) m =
      choose (resume_event id s ctx) (resume_drop id ctx) (update_session st s m)
  turn now good (resume_event id s ctx) m =
      (launch s ctx, record_session_event st s.id resume now m)
  turn now good (resume_drop id ctx) m = (resume_cancel ctx, drop_start id m)
  turn now good (resume_cancel ctx) m = (idle, cancel ctx m)
  turn now good (launch s ctx) m =
      choose (run s.id ctx) (launch_cancel s ctx good) (register good s.id ctx m)
  -- A bot that was built was stopped while starting, which is no failure.
  turn now good (launch_cancel s ctx built) m =
      (if built then idle else launch_failed s, cancel ctx m)
  turn now good (launch_failed s) m = (idle, mark_failed st now s m)
  turn now good (run id ctx) m = (run_leave id ctx, m)
  turn now good (run_leave id ctx) m = choose (run_cancel id ctx) idle (leave id ctx m)
  turn now good (run_cancel id ctx) m = (run_get id, cancel ctx m)
  turn now good (run_get id) m =
      fetched id (λ s. if str_eq s.status "running" then run_update id s else idle) m
  turn now good (run_update id s) m =
      (run_event id, (update_session st (with_status "stopped" now s) m).1)
  turn now good (run_event id) m = (idle, record_session_event st id stop now m)
  turn now good (stop_take id) m =
      let ((running, starting), m1) = take_session id m in (stop_get id running starting, m1)
  turn now good (stop_get id running starting) m =
      fetched id
        (λ s.
          if not (str_eq s.status "running") && not running && not starting
          then idle
          else stop_update id s)
        m
  turn now good (stop_update id s) m =
      choose (stop_event id) idle (update_session st (with_status "stopped" now s) m)
  turn now good (stop_event id) m = (idle, record_session_event st id stop now m)

-- A request of the server, which an idle goroutine takes.
pub data Call (V : Type 0) : Type 0 where
  start_session : String → StartSignalRequest V → Call V
  resume_session : String → Call V
  stop_session : String → Call V

-- A request arrives at a goroutine, or a goroutine takes its next step; both with the time.
pub data Action (V : Type 0) : Type 0 where
  request : ℕ → ℕ → Call V → Action V
  advance : ℕ → ℕ → Bool → Action V

pub record World (D V : Type 0) : Type 0 where
  pub manager : SignalManager D
  pub goroutines : ℕ → Pc V

module _ {V : Type 0} where
  abbrev pub enter : ℕ → Call V → Pc V
  enter now (start_session id req) = start_create (new_session id now req)
  enter now (resume_session id) = resume_get id
  enter now (stop_session id) = stop_take id

  -- A new request is served by a goroutine that does nothing else.
  abbrev pub accept : ℕ → Call V → Pc V → Pc V
  accept now c idle = enter now c
  accept now c pc = pc

module _ {D V : Type 0} where
  abbrev pub place : ℕ → Pc V → SignalManager D → World D V → World D V
  place t pc m w = record { manager = m; goroutines = update w.goroutines t pc }

  unfoldable pub act : SessionStore D V → Action V → World D V → World D V
  unfolding turn new_session
  act st (request t now c) w = place t (accept now c (w.goroutines t)) w.manager w
  act st (advance t now good) w =
      let (pc, m) = turn st now good (w.goroutines t) w.manager in place t pc m w

  unfoldable pub acts : SessionStore D V → List (Action V) → World D V → World D V
  acts st [] w = w
  acts st (a ∷ rest) w = acts st rest (act st a w)

  -- A server that starts at the time.
  unfoldable pub new_world : SessionStore D V → ℕ → D → World D V
  unfolding new_signal_manager
  new_world st now db = record { manager = new_signal_manager st now db; goroutines = λ t. idle }
