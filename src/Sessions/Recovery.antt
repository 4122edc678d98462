-- ===== src/Sessions/Recovery.antt =====
-- RecoverStaleSessions and NewSignalManager of server/handler/signal_manager.go.
use ninjabot.Prelude.{
  ℕ, Bool, true, false, not, List, [], ◌∷◌, Option, none, some, ltb, if◌then◌else◌, str_eq,
}
use ninjabot.Model.Session.{Session, SessionEvent, SessionEventType, stop, is_stop}
use ninjabot.Sessions.Manager.{
  SessionStore, SignalManager, with_status, event_of, empty_signal_manager,
}

-- Whether an event is of the kind.
abbrev pub any_event : (SessionEventType → Bool) → List SessionEvent → Bool
any_event is [] = false
any_event is (e ∷ es) = if is e.type then true else any_event is es

module _ {D V : Type 0} (st : SessionStore D V) (now : ℕ) where
  abbrev pub stopped_at : Session V → ℕ
  stopped_at s = if ltb s.created_at s.updated_at then s.updated_at else s.created_at

  -- The STOP event, if the events could be read and have none.
  abbrev pub add_stop : Session V → Option (List SessionEvent) → D → D
  add_stop s none db = db
  add_stop s (some events) db =
      if any_event is_stop events
      then db
      else (st.create_session_event (event_of s.id stop (stopped_at s)) db).1

  -- A round of the loop.
  unfoldable pub recover_session : Session V → D → D
  recover_session s db =
      let (stored, db1) = st.update_session (with_status "stopped" now s) db in
      if not (str_eq s.status "running")
      then db
      else if not stored
      then db1
      else add_stop s (st.session_events s.id db1) db1

  unfoldable pub recover_sessions : List (Session V) → D → D
  unfolding recover_session
  recover_sessions [] db = db
  recover_sessions (s ∷ rest) db = recover_sessions rest (recover_session s db)

  unfoldable pub recover_stale_sessions : D → D
  unfolding recover_sessions
  recover_stale_sessions db = elim (st.sessions_by_type "REALTIME_SIGNAL" db) [
    | none ↦ db
    | some sessions ↦ recover_sessions sessions db
  ]

  unfoldable pub new_signal_manager : D → SignalManager D
  unfolding recover_stale_sessions
  new_signal_manager db = empty_signal_manager (recover_stale_sessions db)
