-- ===== src/Tests/Sessions.antt =====
-- The theorems on the sessions at a storage that is a list of sessions and a list of events.
use ninjabot.Prelude.{
  ℕ, zero, suc, ◌≡◌, refl, String, Bool, true, false, List, [], ◌∷◌, ◌++◌, Option, none, some,
  arith, str_eq, str_eq_iff, if◌then◌else◌, map,
}
use ninjabot.Prelude.Int.{ℤ, pos}
use ninjabot.Prelude.Map.{lookup, has_key, insert, erase}
use ninjabot.Model.Session.{Session, SessionEvent}
use ninjabot.Sessions.Recovery.{new_signal_manager, recover_stale_sessions, recover_sessions}
use ninjabot.Sessions.Manager.{
  SessionStore, StartSignalRequest, new_session, reserve, drop_start, register, leave, take_session,
  record_session_event, mark_failed,
}
use ninjabot.Sessions.Threads.{Pc, Action, Call, acts, act, turn, new_world}
use ninjabot.Sessions.Turns.{FindsById}
use ninjabot.Sessions.Exclusion.{IsExclusive, IsFinal, acts-IsExclusive, stop_take-IsFinal}
use ninjabot.Sessions.Progress.{advances, starting-IsOver}

abbrev Db : Type 0
Db = List (Session ℤ) × List SessionEvent

find_session : String → List (Session ℤ) → Option (Session ℤ)
find_session id [] = none
find_session id (s ∷ rest) =
    let found = find_session id rest in if str_eq s.id id then some s else found

-- A session takes the place of the one with its id.
upsert : Session ℤ → List (Session ℤ) → List (Session ℤ)
upsert s [] = s ∷ []
upsert s (x ∷ l) = let rest = upsert s l in if str_eq x.id s.id then s ∷ l else x ∷ rest

store : SessionStore Db ℤ
unfolding find_session upsert
store = record {
  create_session = λ s db. (true, (upsert s db.0, db.1));
  update_session = λ s db. (true, (upsert s db.0, db.1));
  sessions_by_type = λ type db. some db.0;
  session_by_id = λ id db. find_session id db.0;
  create_session_event = λ e db. (true, (db.0, db.1 ++ e ∷ []));
  session_events = λ id db. some db.1;
}

find_session_id :
    (id : String) (l : List (Session ℤ)) (s : Session ℤ) → find_session id l ≡ some s → s.id ≡ id
unfolding find_session
find_session_id id [] s h = cc
find_session_id id (x ∷ l) s h = ground (arith, find_session_id id l s, str_eq_iff x.id id)

store-FindsById : FindsById store
unfolding store
store-FindsById id db s h = find_session_id id db.0 s h

abbrev signal_request : StartSignalRequest ℤ
signal_request = record {
  pair = "BTCUSDT";
  timeframe = "1m";
  strategy = "emacross";
  initial_asset = "USDT";
  initial_amount = pos 1000;
  fast_period = pos 9;
  slow_period = pos 21;
  telegram_alerts = false;
}

-- A goroutine takes steps that succeed.
abbrev steps : ℕ → ℕ → List (Action ℤ)
steps t zero = []
steps t (suc k) = Action.advance t 5 true ∷ steps t k

-- A session is started, resumed by a second goroutine and stopped by a third.
abbrev history : List (Action ℤ)
history =
    Action.request 0 1 (Call.start_session "s" signal_request) ∷ steps 0 4
    ++ Action.request 1 6 (Call.resume_session "s") ∷ steps 1 2
    ++ Action.request 2 9 (Call.stop_session "s") ∷ []

abbrev empty_db : Db
empty_db = ([], [])

acts-IsExclusive_example : IsExclusive (acts store history (new_world store 0 empty_db))
acts-IsExclusive_example = acts-IsExclusive store store-FindsById history 0 empty_db

running_bot : (acts store history (new_world store 0 empty_db)).goroutines 0 ≡ Pc.run "s" 0
unfolding acts act turn store new_world new_session new_signal_manager recover_stale_sessions
    recover_sessions reserve drop_start register leave take_session record_session_event mark_failed
    lookup has_key insert erase find_session upsert
running_bot = refl

stop_take-IsFinal_example :
    IsFinal "s"
      (act store (Action.advance 2 9 true) (acts store history (new_world store 0 empty_db)))
unfolding acts act turn store new_world new_session new_signal_manager recover_stale_sessions
    recover_sessions reserve drop_start register leave take_session record_session_event mark_failed
    lookup has_key insert erase find_session upsert
stop_take-IsFinal_example =
    stop_take-IsFinal store store-FindsById history 0 empty_db 2 9 true "s" refl

-- The session waits for the steps of launch.
abbrev beginning : List (Action ℤ)
beginning = Action.request 0 1 (Call.start_session "s" signal_request) ∷ steps 0 3

starting-IsOver_example :
    (t : ℕ) × ((p q r : ℕ × Bool)
      → lookup "s"
          (acts store
            (advances store t (p ∷ q ∷ r ∷ []))
            (acts store beginning (new_world store 0 empty_db))).manager.starting
        ≡ none)
unfolding acts act turn store new_world new_session new_signal_manager recover_stale_sessions
    recover_sessions reserve drop_start register leave take_session record_session_event mark_failed
    lookup has_key insert erase find_session upsert
starting-IsOver_example = starting-IsOver store store-FindsById beginning 0 empty_db "s" 0 refl

-- A stop that comes between the reservation of a resume and its write of the status is lost: the
-- session stays stored as running, and has no bot.
abbrev lost_stop : List (Action ℤ)
lost_stop =
    Action.request 0 1 (Call.start_session "s" signal_request) ∷ steps 0 4
    ++ Action.request 1 2 (Call.stop_session "s") ∷ steps 1 4
    ++ Action.request 2 3 (Call.resume_session "s") ∷ steps 2 2
    ++ Action.request 3 4 (Call.stop_session "s") ∷ steps 3 4
    ++ steps 2 4

lost_stop-result :
    let w = acts store lost_stop (new_world store 0 empty_db) in
    (map (λ s. s.status) w.manager.db.0 ≡ "running" ∷ [])
    × (w.manager.bots ≡ [])
    × (w.goroutines 2 ≡ Pc.idle)
    × (w.goroutines 3 ≡ Pc.idle)
unfolding acts act turn store new_world new_session new_signal_manager recover_stale_sessions
    recover_sessions reserve drop_start register leave take_session record_session_event mark_failed
    lookup has_key insert erase find_session upsert
lost_stop-result = (refl, refl, refl, refl)

-- A server that crashed left a session as running.
abbrev crashed : Session ℤ
crashed = new_session "s" 7 signal_request
