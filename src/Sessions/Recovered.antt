-- ===== src/Sessions/Recovered.antt =====
-- After RecoverStaleSessions no session is stored as running.
use ninjabot.Prelude.{ℕ, ◌≡◌, String, true, false, List, [], ◌∷◌, some, if◌then◌else◌, str_eq}
use ninjabot.Model.Session.{Session, SessionEvent}
use ninjabot.Sessions.Manager.{SessionStore}

module _ {D V : Type 0} (st : SessionStore D V) where
  -- What a storage that never fails does with sessions and their events.
  pub record IsReliable : Type 0 where
    pub updates : (s : Session V) (db : D) → (st.update_session s db).0 ≡ true
    pub updated :
        (s : Session V) (db : D) (id : String)
        → st.session_by_id id (st.update_session s db).1
          ≡ (if str_eq s.id id then some s else st.session_by_id id db)
    pub recorded :
        (e : SessionEvent) (db : D) (id : String)
        → st.session_by_id id (st.create_session_event e db).1 ≡ st.session_by_id id db

  -- The session is stored with another status.
  abbrev pub IsAtRest : D → String → Type 0
  IsAtRest db id =
      (s : Session V) × (st.session_by_id id db ≡ some s) × (str_eq s.status "running" ≡ false)

  abbrev pub AllAtRest : D → List (Session V) → Type 0
  AllAtRest db [] = Unit {0}
  AllAtRest db (s ∷ l) = IsAtRest db s.id × AllAtRest db l

  -- The sessions are stored as they are listed.
  abbrev pub AllStored : D → List (Session V) → Type 0
  AllStored db [] = Unit {0}
  AllStored db (s ∷ l) = (st.session_by_id s.id db ≡ some s) × AllStored db l

  module _ (ok : IsReliable) (now : ℕ) where
    -- A session that is not running is at rest.
    abbrev AllStartable : D → List (Session V) → Type 0
    AllStartable db [] = Unit {0}
    AllStartable db (s ∷ l) =
        (str_eq s.status "running" ≡ false → IsAtRest db s.id) × AllStartable db l
