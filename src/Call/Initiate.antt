-- ===== src/Call/Initiate.antt =====
-- The publisher, the configuration and the start of a call: `getConfig`, `initiate` and
-- `resumeCall` of services/callService/internal/call/service.go. A handler reads the clock once.
use betterfly.Prelude.{
  ℕ, ℤ, String, codes, is_blank, is_positive, ◌+◌, Bool, true, false, not, ◌||◌, Option, none, some,
  List, [], ◌∷◌, ◌++◌, ltb, ◌==◌, int_eq, string_eq, if◌then◌else◌,
}
use betterfly.Call.Types.{
  CallState, ringing, ended, CallType, call_type_unspecified, end_unspecified, invalid_state,
  forbidden, invalid_input, delivery_failure, ok, err, Description, Session, call_config,
  outgoing_call, CallEvent, PendingEvent, InternalRequest,
}
use betterfly.Call.World.{
  World, Env, publish_to, Action, pure, gets, ◌>>=◌, ◌>>◌, refuse_if, unless_offline,
}
use betterfly.Call.Store.{create_session_with_events, find_session, user_topic}
use betterfly.Call.Events.{
  session_event, incoming_event, pending_call_delivery, pending_push_request, valid_description,
  description_from_proto, call_type_name, call_id_for_context,
}

abbrev pub ⊤ : Type 0
⊤ = Unit

abbrev is_some : Option String → Bool
is_some none = false
is_some (some a) = true

abbrev is_media : CallType → Bool
is_media call_type_unspecified = false
is_media _ = true

abbrev pub is_ringing : CallState → Bool
is_ringing ringing = true
is_ringing _ = false

-- Ringing or active.
abbrev pub is_open : CallState → Bool
is_open ended = false
is_open _ = true

module _ (env : Env) where
  -- `publishToTopic`.
  unfoldable pub publish_to_topic : String → ℤ → CallEvent → Action ⊤
  publish_to_topic topic user event w =
      if env.fails (publish_to topic) then (err delivery_failure, w) else (
        if env.loses (publish_to topic) then err delivery_failure else ok tt,
        record w {
          published = w.published ++ (topic, record { target_user_id = user; event = event }) ∷ [];
        },
      )

  -- `publishToUser`, whose callers give no fallback topic.
  unfoldable pub publish_to_user : ℤ → CallEvent → Action ⊤
  unfolding publish_to_topic
  publish_to_user user event = do publish_to_topic (← user_topic env user) user event

  -- `getConfig`.
  unfoldable pub get_call_config : InternalRequest → Action ⊤
  unfolding publish_to_topic
  get_call_config request = do
    now ← gets World.clock
    publish_to_topic request.from_topic request.user_id (record {
      event_type = call_config;
      call_id = "";
      peer_user_id = ℤ.pos 0;
      call_type = call_type_unspecified;
      state = none;
      session_description = none;
      ice_candidate = none;
      ice_servers = env.ice_servers request.user_id now;
      end_reason = end_unspecified;
      message = "";
      error = none;
      timestamp = now;
    })

  -- The session that `initiate` creates.
  unfoldable pub new_session : InternalRequest → ℤ → CallType → Option Description → ℕ → Session
  unfolding call_id_for_context description_from_proto
  new_session request callee call_type offer now = record {
    id = call_id_for_context env;
    caller = request.user_id;
    callee = callee;
    call_type = call_type;
    state = ringing;
    offer = description_from_proto offer;
    answer = none;
    end_reason = end_unspecified;
    end_message = "";
    created_at = now;
    accepted_at = none;
    ended_at = none;
    ring_deadline = now + env.ring_ttl;
  }

  -- `initiatePendingEvents`, with the caller's event and the push request of `initiate`.
  unfoldable pub initiate_pending_events :
      InternalRequest → Session → Option String → ℕ → List PendingEvent
  unfolding session_event incoming_event pending_call_delivery pending_push_request call_type_name
  initiate_pending_events request s route now =
      let outgoing = session_event outgoing_call s s.callee now in
      let caller =
        pending_call_delivery env env.operation "outgoing" request.from_topic s.caller
          (record outgoing {
            session_description = some s.offer;
            ice_servers = env.ice_servers s.caller now;
          }) in
      let push = pending_push_request env env.operation "voip-push" env.voip_topic (record {
        call_id = s.id;
        caller = s.caller;
        callee = s.callee;
        call_type = call_type_name s.call_type;
        result_topic = "call-service";
        expires_at = s.ring_deadline;
        required = not (is_some route);
      }) in
      caller ∷ (elim route [
        | none ↦ push ∷ []
        | some topic ↦
            pending_call_delivery env env.operation "incoming" topic s.callee
              (incoming_event env s now)
            ∷ push
            ∷ []
      ])

  -- `initiate`.
  unfoldable pub initiate_call : InternalRequest → ℤ → CallType → Option Description → Action ⊤
  unfolding initiate_pending_events new_session valid_description
  initiate_call request callee call_type offer = do
    refuse_if (not (is_positive callee) || callee == request.user_id) invalid_input
    refuse_if (not (is_media call_type)) invalid_input
    refuse_if (not (valid_description offer (codes "offer"))) invalid_input
    route ← unless_offline (user_topic env callee)
    now ← gets World.clock
    let s = new_session request callee call_type offer now
    refuse_if (env.operation == "") invalid_input
    create_session_with_events env s env.operation (initiate_pending_events request s route now)
    pure tt

  -- `resumeCall`.
  unfoldable pub resume_ringing_call : InternalRequest → String → Action ⊤
  unfolding incoming_event publish_to_topic
  resume_ringing_call request id = do
    refuse_if (is_blank id) invalid_input
    s ← find_session env id
    refuse_if (not (s.callee == request.user_id)) forbidden
    now ← gets World.clock
    refuse_if (not (is_ringing s.state) || not (ltb now s.ring_deadline)) invalid_state
    publish_to_topic request.from_topic s.callee (incoming_event env s now)
