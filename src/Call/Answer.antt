-- ===== src/Call/Answer.antt =====
-- The rest of a call: `accept`, `reject`, `hangup` and `forwardICE` of
-- services/callService/internal/call/service.go.
use betterfly.Prelude.{
  ℕ, String, codes, is_blank, true, not, ◌||◌, Option, none, some, List, [], ◌∷◌, ltb, ◌==◌, int_eq,
  string_eq,
}
use betterfly.Call.Types.{
  CallState, ringing, active, ended, CallEndReason, rejected, disconnected, user_offline,
  invalid_state, forbidden, invalid_input, Result, ok, err, Description, Session, peer,
  IceCandidate, EventType, call_accepted, call_rejected, call_ended, ice_candidate_received,
  PendingEvent, InternalRequest,
}
use betterfly.Call.World.{
  World, Env, Action, pure, gets, lift, ◌>>=◌, ◌>>◌, refuse_if, unless_offline,
}
use betterfly.Call.Store.{transition_session_with_events, find_session, user_topic}
use betterfly.Call.Initiate.{⊤, publish_to_user, is_ringing, is_open}
use betterfly.Call.Events.{
  session_event, pending_call_delivery, valid_description, description_from_proto, hangup_reason,
  is_blank_candidate,
}

-- The session that an accepted call becomes, and its events: the call ends at once where the
-- caller has gone offline.
unfoldable pub accepted_session : Session → Option Description → Option String → ℕ → Session
unfolding description_from_proto
accepted_session s answer (some topic) now = record s {
  state = active;
  answer = some (description_from_proto answer);
  accepted_at = some now;
}
accepted_session s answer none now = record s {
  state = ended;
  answer = some (description_from_proto answer);
  accepted_at = some now;
  end_reason = disconnected;
  end_message = "caller unavailable after accept";
  ended_at = some now;
}

-- A session ended for a reason.
unfoldable pub ended_session : Session → CallEndReason → String → ℕ → Session
ended_session s reason message now = record s {
  state = ended;
  end_reason = reason;
  end_message = message;
  ended_at = some now;
}

module _ (env : Env) where
  -- The events of an acceptance.
  unfoldable pub accepted_events :
      InternalRequest → Session → Option Description → Option String → ℕ → List PendingEvent
  unfolding session_event pending_call_delivery description_from_proto
  accepted_events request t answer none now =
      pending_call_delivery env env.operation "callee-ended" request.from_topic t.callee
        (session_event call_ended t t.caller now)
      ∷ []
  accepted_events request t answer (some caller_topic) now =
      let to_caller = session_event call_accepted t t.callee now in
      pending_call_delivery env env.operation "callee-accepted" request.from_topic t.callee
        (session_event call_accepted t t.caller now)
      ∷ pending_call_delivery env env.operation "caller-accepted" caller_topic t.caller
          (record to_caller { session_description = some (description_from_proto answer) })
      ∷ []

  -- `acceptAtomic`.
  unfoldable pub accept_atomic : InternalRequest → String → Option Description → Action ⊤
  unfolding accepted_session accepted_events
  accept_atomic request id answer = do
    refuse_if (env.operation == "") invalid_input
    s ← find_session env id
    refuse_if (not (s.callee == request.user_id)) forbidden
    now ← gets World.clock
    refuse_if (not (is_ringing s.state) || not (ltb now s.ring_deadline)) invalid_state
    route ← unless_offline (user_topic env s.caller)
    let t = accepted_session s answer route now
    transition_session_with_events env s t (not (is_open t.state)) env.operation
        (accepted_events request t answer route now)
    pure tt

  -- `accept`.
  unfoldable pub accept_call : InternalRequest → String → Option Description → Action ⊤
  unfolding accept_atomic valid_description
  accept_call request id answer = do
    refuse_if (is_blank id || not (valid_description answer (codes "answer"))) invalid_input
    accept_atomic request id answer

  -- `terminalPendingEvents`.
  unfoldable pub terminal_pending_events :
      InternalRequest → Session → EventType → ℕ → Action (List PendingEvent)
  unfolding session_event pending_call_delivery peer
  terminal_pending_events request t kind now = do
    other ← lift (peer t request.user_id)
    let mine =
        pending_call_delivery env env.operation "requester-terminal" request.from_topic
          request.user_id (session_event kind t other now)
    route ← unless_offline (user_topic env other)
    pure (
        mine ∷ (elim route [
          | none ↦ []
          | some topic ↦
              pending_call_delivery env env.operation "peer-terminal" topic other
                (session_event kind t request.user_id now)
              ∷ []
        ]))

  -- The end of `rejectAtomic` and of `hangupAtomic`.
  unfoldable pub end_call : InternalRequest → Session → Session → EventType → ℕ → Action ⊤
  unfolding terminal_pending_events
  end_call request s t kind now = do
    events ← terminal_pending_events request t kind now
    transition_session_with_events env s t true env.operation events
    pure tt

  -- `rejectAtomic`.
  unfoldable pub reject_atomic : InternalRequest → String → String → Action ⊤
  unfolding end_call ended_session
  reject_atomic request id message = do
    refuse_if (env.operation == "") invalid_input
    s ← find_session env id
    refuse_if (not (s.callee == request.user_id)) forbidden
    refuse_if (not (is_ringing s.state)) invalid_state
    now ← gets World.clock
    end_call request s (ended_session s rejected message now) call_rejected now

  -- `reject`.
  unfoldable pub reject_call : InternalRequest → String → String → Action ⊤
  unfolding reject_atomic
  reject_call request id message = do
    refuse_if (is_blank id) invalid_input
    reject_atomic request id message

  -- `hangupAtomic`.
  unfoldable pub hangup_atomic : InternalRequest → String → CallEndReason → Action ⊤
  unfolding end_call ended_session peer
  hangup_atomic request id reason = do
    refuse_if (env.operation == "") invalid_input
    s ← find_session env id
    lift (peer s request.user_id)
    refuse_if (not (is_open s.state)) invalid_state
    now ← gets World.clock
    end_call request s (ended_session s reason "" now) call_ended now

  -- `hangup`.
  unfoldable pub hangup_call : InternalRequest → String → CallEndReason → Action ⊤
  unfolding hangup_atomic hangup_reason
  hangup_call request id reason = do
    refuse_if (is_blank id) invalid_input
    hangup_atomic request id (hangup_reason reason)

  -- The callee may still be woken by a push: a candidate that cannot be delivered is dropped.
  abbrev pub offline_as_done : CallState → Result ⊤ → Result ⊤
  offline_as_done ringing (err user_offline) = ok tt
  offline_as_done state r = r

  abbrev pub drop_if_ringing : CallState → Action ⊤ → Action ⊤
  drop_if_ringing state m w = let (r, w') = m w in (offline_as_done state r, w')

  -- `forwardICE`.
  unfoldable pub forward_ice : InternalRequest → String → Option IceCandidate → Action ⊤
  unfolding session_event publish_to_user peer is_blank_candidate
  forward_ice request id candidate = do
    refuse_if (is_blank id || is_blank_candidate candidate) invalid_input
    s ← find_session env id
    other ← lift (peer s request.user_id)
    refuse_if (not (is_open s.state)) invalid_state
    now ← gets World.clock
    let event = session_event ice_candidate_received s request.user_id now
    drop_if_ringing s.state (publish_to_user env other (record event { ice_candidate = candidate }))
