-- ===== src/Model/Session.antt =====
-- model/session.go and model/session_event.go. What the API fills in for an answer, Balances and
-- Stats, is not part of a stored session.
use ninjabot.Prelude.{ℕ, String, Bool, true, false, List}
use ninjabot.Prelude.Int.{ℤ}
use ninjabot.Model.Order.{Order}

pub data SessionEventType : Type 0 where
  start stop resume : SessionEventType

pub record SessionEvent : Type 0 where
  pub session_id : String
  pub type : SessionEventType
  pub created_at : ℕ

pub record Session (V : Type 0) : Type 0 where
  pub id : String
  pub type : String
  pub status : String
  pub pair : String
  pub strategy : String
  pub timeframe : String
  pub initial_asset : String
  pub initial_amount : V
  pub fast_period : ℤ
  pub slow_period : ℤ
  pub telegram_alerts : Bool
  pub created_at : ℕ
  pub updated_at : ℕ
  pub orders : List (Order V)
  pub events : List SessionEvent

abbrev pub is_start : SessionEventType → Bool
is_start start = true
is_start _ = false

abbrev pub is_stop : SessionEventType → Bool
is_stop stop = true
is_stop _ = false
