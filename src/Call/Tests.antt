-- ===== src/Call/Tests.antt =====
-- Runs of the call service on concrete input, and the theorems applied to them.

use betterfly.Prelude.{
  ◌==◌, string_eq, ◌∷◌, ◌≡◌, refl, inl, ◌⊎◌, ◌+◌, ◌*◌, ◌<◌, String, ℤ, ℕ, codes, Bool, true, false,
  Option, none, some, [], arith, if◌then◌else◌, int_beq, is_positive,
}
use betterfly.Call.Types.{
  CallState, ringing, active, audio, Session, Session-discrete, ok, err, user_busy, forbidden,
  Description, ClientRequest, initiate, accept, InternalRequest,
}
use betterfly.Call.World.{World, Env, live, ◌>>=◌}
use betterfly.Call.Store.{
  created, transitioned, transition_ttl, create_session_with_events, transition_session_with_events,
  find_session, user_topic, operation_completed,
}
use betterfly.Call.Initiate.{initiate_call, new_session}
use betterfly.Call.Store.Config.{
  hour, operation_ttl, call_duration_env, operation_ttl_outlives_replays,
}
use betterfly.Call.Answer.{accepted_session, accept_call, hangup_call}
use betterfly.Call.Service.{dispatch, handle}
use betterfly.Call.Safety.{elapsed, here, next, handled, one_call_per_user}
use betterfly.Call.Lifecycle.{AllLive, invocations_follow_lifecycle}
use betterfly.Call.Once.{Untouched, handled_once}
use betterfly.Call.Relay.{StreamRecord, Relay, NoneLost, process, relay_loses_nothing}
use betterfly.Call.Outcome.{dispatch_atomic}

abbrev env_for : String → Env
env_for operation = record {
  operation = operation;
  ring_ttl = 45_000_000_000;
  store_ring_ttl = 45_000_000_000;
  active_ttl = 21_600_000_000_000;
  operation_ttl = 2_592_000_000_000_000;
  voip_topic = "push-service-voip";
  fails = λ c. false;
  loses = λ c. false;
  ice_servers = λ user now. [];
  sha256_hex = λ s. s;
  show_id = λ n. "n";
  random_id = "random";
}

-- Users 1 and 2 are connected; nobody is in a call.
abbrev empty_world : World
empty_world = record {
  clock = 1_000_000_000;
  user_calls = λ u. none;
  sessions = λ id. none;
  deadlines = [];
  operations = λ op. none;
  outbox = [];
  routes = λ u.
      if int_beq u (ℤ.pos 1)
      then some "df-1"
      else if int_beq u (ℤ.pos 2)
      then some "df-2"
      else none;
  leases = λ u. some (record {
    value = if int_beq u (ℤ.pos 1) then "df-1|7" else "df-2|7";
    expires_at = 90_000_000_000;
  });
  published = [];
}

abbrev from : ℕ → ClientRequest → InternalRequest
from user client = record {
  from_topic = if int_beq (ℤ.pos user) (ℤ.pos 1) then "df-1" else "df-2";
  user_id = ℤ.pos user;
  request = some client;
}

abbrev offer : Option Description
offer = some (record { kind = codes " Offer"; sdp = "v=0" })

abbrev answer : Option Description
answer = some (record { kind = codes "answer"; sdp = "v=0" })

abbrev dial : InternalRequest
dial = from 1 (initiate (ℤ.pos 2) audio offer)

abbrev call_id : String
call_id = "betterfly-call:op-1"

abbrev pick_up : InternalRequest
pick_up = from 2 (accept call_id answer)

abbrev rung : World
rung = (handle (env_for "op-1") dial empty_world).1

abbrev talking : World
talking = (handle (env_for "op-2") pick_up rung).1

abbrev state_of : World → String → Option CallState
state_of w id = elim (live w.clock (w.sessions id)) [ none ↦ none | some s ↦ some s.state ]

-- Opens what a run of the service computes with.
opened : Bool
unfolding handle dispatch initiate_call accept_call hangup_call ◌>>=◌ Session-discrete created
    transitioned transition_ttl create_session_with_events transition_session_with_events
    find_session user_topic operation_completed is_positive
opened = true

rings : state_of rung call_id ≡ some ringing
unfolding opened
rings = refl

talks : state_of talking call_id ≡ some active
unfolding opened
talks = refl

-- A third user who calls one of the two is told that the line is busy.
busy :
    (initiate_call
      (env_for "op-3")
      (from 3 (initiate (ℤ.pos 1) audio offer))
      (ℤ.pos 1)
      audio
      offer
      talking).0
    ≡ err user_busy
unfolding opened
busy = refl

abbrev session : Session
session = new_session (env_for "op-1") dial (ℤ.pos 2) audio offer 1_000_000_000

abbrev connected : Session
connected = accepted_session session answer (some "df-1") 1_000_000_000

one_call_per_user_example : ◌≡◌ {A = String} call_id call_id
unfolding opened
one_call_per_user_example =
    one_call_per_user {start = empty_world} {w = talking} (λ id. refl)
      (next (next here (handled (env_for "op-1") dial)) (handled (env_for "op-2") pick_up)) call_id
      call_id connected connected (ℤ.pos 1) refl refl refl refl (inl refl) (inl refl)

invocations_follow_lifecycle_example : AllLive (env_for "op-2") rung talking
invocations_follow_lifecycle_example =
    (invocations_follow_lifecycle (env_for "op-2") rung).0 pick_up

-- Another message is handled before the second delivery.
abbrev later : World
later = (handle (env_for "op-5") dial (record talking { clock = talking.clock + 5 })).1

handled_once_example :
    Untouched rung talking ⊎ (handle (env_for "op-2") pick_up later ≡ (ok tt, later))
unfolding opened
handled_once_example =
    handled_once (env_for "op-2") (env_for "op-2") pick_up pick_up rung later refl refl refl refl
      refl (next (next here (elapsed 5)) (handled (env_for "op-5") dial)) (omega arith)
      (refl, refl, λ e. cc)

dispatch_atomic_example :
    (dispatch (env_for "op-4") (from 1 (accept call_id answer)) (accept call_id answer) rung).1
    ≡ rung
unfolding opened
dispatch_atomic_example =
    dispatch_atomic (env_for "op-4") (from 1 (accept call_id answer)) (accept call_id answer) rung
      {e = forbidden} (λ c. refl) refl

-- A day of replays, and an operation record that the environment would keep for an hour.
operation_ttl_outlives_replays_example :
    (ttl : ℕ) × (operation_ttl (some (ℤ.pos (24 * hour))) (some (ℤ.pos hour)) ≡ ℤ.pos ttl)
    × (call_duration_env (some (ℤ.pos (24 * hour))) (7 * 24 * hour) < ttl)
operation_ttl_outlives_replays_example =
    operation_ttl_outlives_replays (some (ℤ.pos (24 * hour))) (some (ℤ.pos hour)) (omega arith)

-- The longest window but one makes the time to live negative.
wrapped_ttl :
    operation_ttl (some (ℤ.pos (2_562_047 * hour))) none ≡ ℤ.negsuc 9_223_288_473_709_551_615
unfolding operation_ttl
wrapped_ttl = refl

abbrev outbox_record : StreamRecord
outbox_record = record {
  id = "1-0";
  event_id = some "call-1";
  operation_key = some "op-1";
  topic = some "df-1";
  payload = some (codes "event");
}

abbrev relay_start : Relay
relay_start = record {
  unacknowledged = λ id. if id == "1-0" then some outbox_record else none;
  ledger = λ event. false;
  sent = [];
}

relay_loses_nothing_example :
    NoneLost relay_start (process (λ c. false) (outbox_record ∷ []) relay_start).1
relay_loses_nothing_example =
    relay_loses_nothing (λ c. false) (outbox_record ∷ []) relay_start (refl, tt)
