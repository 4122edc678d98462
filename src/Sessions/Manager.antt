-- ===== src/Sessions/Manager.antt =====
-- SignalManager of server/handler/signal_manager.go: its maps, and the parts of its methods that run
-- under its lock or are one call of the storage. The storage is a parameter. A launch makes one
-- context and one bot, so that the number of the context stands for the bot instance too.
use ninjabot.Prelude.{
  ℕ, suc, ◌==◌, String, Bool, true, false, not, ◌||◌, List, [], ◌∷◌, Option, none, some, contains,
  if◌then◌else◌,
}
use ninjabot.Prelude.Int.{ℤ}
use ninjabot.Prelude.Map.{Map, lookup, insert, erase, has_key}
use ninjabot.Model.Session.{Session, SessionEvent, SessionEventType}

-- The methods of the storage. A write has whether it succeeded and the next state of the storage;
-- `none` is an error of a read.
pub record SessionStore (D V : Type 0) : Type 0 where
  pub create_session : Session V → D → Bool × D
  pub update_session : Session V → D → Bool × D
  pub sessions_by_type : String → D → Option (List (Session V))
  pub session_by_id : String → D → Option (Session V)
  pub create_session_event : SessionEvent → D → Bool × D
  pub session_events : String → D → Option (List SessionEvent)

pub record SignalManager (D : Type 0) : Type 0 where
  pub bots : Map ℕ
  pub starting : Map ℕ
  pub db : D
  -- The contexts that were cancelled, and the number of the next one.
  pub cancelled : List ℕ
  pub next_context : ℕ

pub record StartSignalRequest (V : Type 0) : Type 0 where
  pub pair : String
  pub timeframe : String
  pub strategy : String
  pub initial_asset : String
  pub initial_amount : V
  pub fast_period : ℤ
  pub slow_period : ℤ
  pub telegram_alerts : Bool

abbrev pub event_of : String → SessionEventType → ℕ → SessionEvent
event_of id type time = record { session_id = id; type = type; created_at = time }

module _ {V : Type 0} where
  -- The session that StartSession stores, with the id that uuid.New returns.
  unfoldable pub new_session : String → ℕ → StartSignalRequest V → Session V
  new_session id now req = record {
    id = id;
    type = "REALTIME_SIGNAL";
    status = "running";
    pair = req.pair;
    strategy = req.strategy;
    timeframe = req.timeframe;
    initial_asset = req.initial_asset;
    initial_amount = req.initial_amount;
    fast_period = req.fast_period;
    slow_period = req.slow_period;
    telegram_alerts = req.telegram_alerts;
    created_at = now;
    updated_at = now;
    orders = [];
    events = [];
  }

  abbrev pub with_status : String → ℕ → Session V → Session V
  with_status status now s = record s { status = status; updated_at = now }

-- `m.bots[sessionID] == instance`
abbrev pub is_instance : ℕ → Option ℕ → Bool
is_instance ctx none = false
is_instance ctx (some other) = other == ctx

module _ {D : Type 0} where
  -- The maps of a new manager.
  abbrev pub empty_signal_manager : D → SignalManager D
  empty_signal_manager db = record {
    bots = [];
    starting = [];
    db = db;
    cancelled = [];
    next_context = 0;
  }

  abbrev pub cancel : ℕ → SignalManager D → SignalManager D
  cancel ctx m = record m { cancelled = ctx ∷ m.cancelled }

  -- reserve; `none` is ErrSessionBusy.
  unfoldable pub reserve : String → SignalManager D → Option ℕ × SignalManager D
  unfolding has_key insert
  reserve id m =
      if has_key id m.bots then (none, m) else if has_key id m.starting then (none, m) else (
        some m.next_context,
        record m {
          starting = insert id m.next_context m.starting;
          next_context = suc m.next_context;
        },
      )

  -- What ResumeSession does under the lock if the session cannot be stored.
  unfoldable pub drop_start : String → SignalManager D → SignalManager D
  unfolding erase
  drop_start id m = record m { starting = erase id m.starting }

  -- launch under the lock, once buildBot has succeeded or failed; whether the bot is registered.
  unfoldable pub register : Bool → String → ℕ → SignalManager D → Bool × SignalManager D
  unfolding drop_start insert
  register built id ctx m =
      let m1 = drop_start id m in
      if not built
      then (false, m1)
      else if contains m1.cancelled ctx
      then (false, m1)
      else (true, record m1 { bots = insert id ctx m1.bots })

  -- run under the lock, after Run returned; whether the instance was still registered.
  unfoldable pub leave : String → ℕ → SignalManager D → Bool × SignalManager D
  unfolding lookup erase
  leave id ctx m =
      if is_instance ctx (lookup id m.bots)
      then (true, record m { bots = erase id m.bots })
      else (false, m)

  abbrev pub cancel_some : Option ℕ → SignalManager D → SignalManager D
  cancel_some none m = m
  cancel_some (some ctx) m = cancel ctx m

  -- StopSession under the lock, with whether there was a bot and whether one was starting.
  unfoldable pub take_session : String → SignalManager D → (Bool × Bool) × SignalManager D
  unfolding lookup erase has_key
  take_session id m =
      let m1 = cancel_some (lookup id m.bots) (record m { bots = erase id m.bots }) in
      ((has_key id m.bots, has_key id m.starting), cancel_some (lookup id m1.starting) m1)

  unfoldable pub is_running : String → SignalManager D → Bool
  unfolding has_key
  is_running id m = has_key id m.bots || has_key id m.starting

module _ {D V : Type 0} (st : SessionStore D V) where
  -- The calls of the storage; an error of `recordSessionEvent` and of `markFailed` is only logged.
  unfoldable pub record_session_event :
      String → SessionEventType → ℕ → SignalManager D → SignalManager D
  record_session_event id type now m = record m {
    db = (st.create_session_event (event_of id type now) m.db).1;
  }

  abbrev pub update_session : Session V → SignalManager D → Bool × SignalManager D
  update_session s m = let r = st.update_session s m.db in (r.0, record m { db = r.1 })

  unfoldable pub mark_failed : ℕ → Session V → SignalManager D → SignalManager D
  mark_failed now s m = (update_session (with_status "error" now s) m).1

  unfoldable pub set_telegram_alerts :
      String → Bool → SignalManager D → Option (Session V) × SignalManager D
  set_telegram_alerts id enabled m = elim (st.session_by_id id m.db) [
    | none ↦ (none, m)
    | some s ↦
        let s' = record s { telegram_alerts = enabled } in
        let r = update_session s' m in (if r.0 then some s' else none, r.1)
  ]
