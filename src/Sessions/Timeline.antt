-- ===== src/Sessions/Timeline.antt =====
-- sessionEventsForDisplay of server/handler/signal_manager.go.
use mathlib.Core.List.{Perm as Same}
use mathlib.Core.List.Perm
use ninjabot.Prelude.{ℕ, ◌≤◌, ◌==◌, not, ◌&&◌, List, [], ◌∷◌, ◌++◌, leb, ltb, if◌then◌else◌, str_eq}
use ninjabot.Sessions.Manager.{event_of}
use ninjabot.Sessions.Recovery.{any_event}
use ninjabot.Model.Session.{Session, SessionEvent, start, stop, is_start, is_stop}

-- sort.Slice by the time, which leaves the sequence of equal times open.
unfoldable pub insert_event : SessionEvent → List SessionEvent → List SessionEvent
insert_event e [] = e ∷ []
insert_event e (f ∷ fs) =
    let rest = insert_event e fs in if leb e.created_at f.created_at then e ∷ f ∷ fs else f ∷ rest

unfoldable pub sort_events : List SessionEvent → List SessionEvent
unfolding insert_event
sort_events [] = []
sort_events (e ∷ es) = insert_event e (sort_events es)

module _ {V : Type 0} where
  -- The events that are put in for a start or a stop that was not recorded.
  unfoldable pub assumed_start : Session V → List SessionEvent
  assumed_start s =
      if not (any_event is_start s.events) && not (s.created_at == 0)
      then event_of s.id start s.created_at ∷ []
      else []

  unfoldable pub assumed_stop : Session V → List SessionEvent
  assumed_stop s =
      if not (any_event is_stop s.events)
        && not (str_eq s.status "running")
        && not (s.updated_at == 0)
        && ltb s.created_at s.updated_at
      then event_of s.id stop s.updated_at ∷ []
      else []

  unfoldable pub session_events_for_display : Session V → List SessionEvent
  unfolding sort_events assumed_start assumed_stop
  session_events_for_display s = sort_events ((s.events ++ assumed_start s) ++ assumed_stop s)

-- No event comes before the time.
abbrev pub AllFrom : ℕ → List SessionEvent → Type 0
AllFrom t [] = Unit {0}
AllFrom t (e ∷ es) = (t ≤ e.created_at) × AllFrom t es

-- No event stands before an earlier one.
abbrev pub IsTimeline : List SessionEvent → Type 0
IsTimeline [] = Unit {0}
IsTimeline (e ∷ es) = AllFrom e.created_at es × IsTimeline es
