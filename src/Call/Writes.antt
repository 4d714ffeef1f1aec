-- ===== src/Call/Writes.antt =====
-- The interface between the store and what is proved of the handlers: a property of the world that
-- the store's writes keep. A handler writes by these alone, so it keeps the property too.
use betterfly.Prelude.{
  ◌≡◌, refl, String, ℤ, ℕ, Bool, true, false, not, ◌||◌, Option, none, some, List, arith,
}
use betterfly.Call.Types.{
  CallState, ringing, active, ended, CallEndReason, Description, Session, CallEvent, PendingEvent,
}
use betterfly.Call.World.{World, Env}
use betterfly.Call.Store.{create_session_with_events, transition_session_with_events, drop_deadline}
use betterfly.Call.Events.{call_id_for_context}
use betterfly.Call.Keeps.{Keeps}
use betterfly.Call.Initiate.{publish_to_topic, is_ringing, is_open}
use betterfly.Call.Answer.{accepted_session, ended_session}

-- The life of a call.
infix 40 ◌⟶◌
pub data ◌⟶◌ : CallState → CallState → Type 0 where
  answered : ringing ⟶ active
  gave_up : ringing ⟶ ended
  finished : active ⟶ ended

-- A transition that the service asks for: one step of a call's life, between the same users, and
-- marked as terminal exactly where it ends the call.
pub record Edge (s t : Session) (terminal : Bool) : Type 0 where
  pub same_id : t.id ≡ s.id
  pub same_caller : t.caller ≡ s.caller
  pub same_callee : t.callee ≡ s.callee
  pub moves : s.state ⟶ t.state
  pub ends : terminal ≡ not (is_open t.state)

-- A created session is ringing and has the operation's own call id; every write is recorded
-- under an operation key of the kind that `IsOwn` describes.
pub record KeepsWrites (env : Env) (IsOwn : String → Type 0) (P : World → Type 0) : Type 0 where
  pub creates :
      (s : Session) (op : String) (events : List PendingEvent)
      → IsOwn op
      → s.state ≡ ringing
      → s.id ≡ call_id_for_context env
      → Keeps P (create_session_with_events env s op events)
  pub transitions :
      (s t : Session) (terminal : Bool) (op : String) (events : List PendingEvent)
      → IsOwn op
      → Edge s t terminal
      → Keeps P (transition_session_with_events env s t terminal op events)
  pub publishes :
      (topic : String) (user : ℤ) (event : CallEvent)
      → Keeps P (publish_to_topic env topic user event)
  pub drops : (id : String) (w : World) → P w → P (drop_deadline env id w)

from_open : (x : CallState) → not (is_open x) ≡ false → x ⟶ ended
from_open ringing h = gave_up
from_open active h = finished
from_open ended h = cc

from_ringing : (x y : CallState) → not (is_ringing x) ≡ false → ringing ⟶ y → x ⟶ y
from_ringing ringing y h m = m
from_ringing active y h m = cc
from_ringing ended y h m = cc

-- A call that is not over may be ended.
pub ended-Edge :
    (s : Session) (reason : CallEndReason) (message : String) (now : ℕ)
    → not (is_open s.state) ≡ false
    → Edge s (ended_session s reason message now) true
unfolding ended_session
ended-Edge s reason message now h = record {
  same_id = refl;
  same_caller = refl;
  same_callee = refl;
  moves = from_open s.state h;
  ends = refl;
}

pub is_open_of_ringing : (x : CallState) → not (is_ringing x) ≡ false → not (is_open x) ≡ false
is_open_of_ringing ringing h = refl
is_open_of_ringing active h = refl
is_open_of_ringing ended h = h

-- A ringing call may be accepted, whether its caller can still be reached or not.
pub accepted-Edge :
    (s : Session) (answer : Option Description) (route : Option String) (now : ℕ) (late : Bool)
    → (not (is_ringing s.state) || late) ≡ false
    → Edge s
        (accepted_session s answer route now)
        (not (is_open (accepted_session s answer route now).state))
unfolding accepted_session
accepted-Edge s answer none now late h = record {
  same_id = refl;
  same_caller = refl;
  same_callee = refl;
  moves = from_ringing s.state ended (ground arith) gave_up;
  ends = refl;
}
accepted-Edge s answer (some topic) now late h = record {
  same_id = refl;
  same_caller = refl;
  same_callee = refl;
  moves = from_ringing s.state active (ground arith) answered;
  ends = refl;
}
