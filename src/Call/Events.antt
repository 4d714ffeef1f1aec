-- ===== src/Call/Events.antt =====
-- The events and requests that the call service builds, and the tests that it makes of its input:
-- the helpers at the end of services/callService/internal/call/service.go.
use Prim.Native.String.{slice, ◌++◌ as str_append}
use betterfly.Prelude.{
  ℕ, ℤ, String, Text, is_blank, trim_space, lower_code, equal_fold, Bool, true, false, not, ◌&&◌,
  Option, none, some, [], map, ◌==◌, string_eq, if◌then◌else◌,
}
use betterfly.Call.Types.{
  CallErrorCode, code_invalid_argument, code_user_offline, code_user_busy, code_call_not_found,
  code_invalid_state, code_forbidden, code_internal_error, CallType, video, call_type_unspecified,
  CallEndReason, end_unspecified, rejected, hung_up, timeout, CallError, user_offline, user_busy,
  call_not_found, invalid_state, forbidden, invalid_input, store_failure, delivery_failure,
  Description, Session, IceCandidate, EventType, incoming_call, call_error, CallEvent, VoipCall,
  call_response, push_request, PendingEvent, ClientRequest, accept, reject, hangup, ice_candidate,
  resume_call,
}
use betterfly.Call.World.{Env}

-- `Service.sessionEvent`, at the time `now`.
unfoldable pub session_event : EventType → Session → ℤ → ℕ → CallEvent
session_event kind s peer now = record {
  event_type = kind;
  call_id = s.id;
  peer_user_id = peer;
  call_type = s.call_type;
  state = some s.state;
  session_description = none;
  ice_candidate = none;
  ice_servers = [];
  end_reason = s.end_reason;
  message = s.end_message;
  error = none;
  timestamp = now;
}

-- `err.Error()` of the service's errors.
error_text : CallError → String
error_text user_offline = "user offline"
error_text user_busy = "user busy"
error_text call_not_found = "call not found"
error_text invalid_state = "invalid call state"
error_text forbidden = "call operation forbidden"
error_text invalid_input = "invalid call request"
error_text store_failure = "store failure"
error_text delivery_failure = "delivery failure"

-- `errorCode`.
unfoldable pub error_code : CallError → CallErrorCode
error_code user_offline = code_user_offline
error_code user_busy = code_user_busy
error_code call_not_found = code_call_not_found
error_code invalid_state = code_invalid_state
error_code forbidden = code_forbidden
error_code invalid_input = code_invalid_argument
error_code _ = code_internal_error

-- `Service.errorEvent`.
unfoldable pub error_event : String → CallError → ℕ → CallEvent
unfolding error_text error_code
error_event id e now = record {
  event_type = call_error;
  call_id = id;
  peer_user_id = ℤ.pos 0;
  call_type = call_type_unspecified;
  state = none;
  session_description = none;
  ice_candidate = none;
  ice_servers = [];
  end_reason = end_unspecified;
  message = error_text e;
  error = some (error_code e);
  timestamp = now;
}

-- `isCallDomainError`.
abbrev pub is_domain_error : CallError → Bool
is_domain_error store_failure = false
is_domain_error delivery_failure = false
is_domain_error _ = true

-- `Service.incomingEvent`.
unfoldable pub incoming_event : Env → Session → ℕ → CallEvent
unfolding session_event
incoming_event env s now =
    let event = session_event incoming_call s s.caller now in
    record event { session_description = some s.offer; ice_servers = env.ice_servers s.callee now }

-- `callEventID`.
unfoldable pub call_event_id : Env → String → String → String
call_event_id env operation suffix = str_append "call-" (
    env.sha256_hex
      (str_append "betterfly-call-event:" (str_append operation (str_append ":" suffix))))

-- `pendingCallDelivery`. The envelope of a message always marshals.
unfoldable pub pending_call_delivery : Env → String → String → String → ℤ → CallEvent → PendingEvent
unfolding call_event_id
pending_call_delivery env operation suffix topic user event = record {
  event_id = call_event_id env operation suffix;
  operation_key = operation;
  topic = topic;
  payload = call_response (record { target_user_id = user; event = event });
}

-- `pendingPushRequest`.
unfoldable pub pending_push_request : Env → String → String → String → VoipCall → PendingEvent
unfolding call_event_id
pending_push_request env operation suffix topic call = record {
  event_id = call_event_id env operation suffix;
  operation_key = operation;
  topic = topic;
  payload = push_request call;
}

-- `validDescription`.
unfoldable pub valid_description : Option Description → Text → Bool
unfolding trim_space equal_fold is_blank
valid_description none kind = false
valid_description (some d) kind = equal_fold (trim_space d.kind) kind && not (is_blank d.sdp)

-- `descriptionFromProto`: an absent message reads as an empty one.
unfoldable pub description_from_proto : Option Description → Description
unfolding lower_code
description_from_proto none = record { kind = []; sdp = "" }
description_from_proto (some d) = record { kind = map lower_code d.kind; sdp = d.sdp }

-- `callTypeName`.
unfoldable pub call_type_name : CallType → String
call_type_name video = "video"
call_type_name _ = "audio"

-- `requestCallID`.
unfoldable pub request_call_id : ClientRequest → String
request_call_id (accept id answer) = id
request_call_id (reject id message) = id
request_call_id (hangup id reason) = id
request_call_id (ice_candidate id candidate) = id
request_call_id (resume_call id) = id
request_call_id _ = ""

-- `callIDForContext`.
unfoldable pub call_id_for_context : Env → String
call_id_for_context env =
    if env.operation == ""
    then env.random_id
    else slice (env.sha256_hex (str_append "betterfly-call:" env.operation)) 0 32

-- The reason of a hang-up, as `Service.hangup` reads it.
unfoldable pub hangup_reason : CallEndReason → CallEndReason
hangup_reason end_unspecified = hung_up
hangup_reason rejected = hung_up
hangup_reason timeout = hung_up
hangup_reason other = other

-- `payload.GetCandidate() == nil` or a blank candidate.
unfoldable pub is_blank_candidate : Option IceCandidate → Bool
unfolding is_blank
is_blank_candidate none = true
is_blank_candidate (some c) = is_blank c.candidate
