-- ===== src/Call/Types.antt =====
-- The call service's data: services/callService/internal/call/types.go, and the messages of
-- proto/call/call_interface.proto that it reads and writes. A session's JSON text is represented by
-- the session itself; times are nanoseconds since the epoch, read from one clock.
use betterfly.Prelude.{
  ℕ, ℤ, String, String_discrete, ℕ_discrete, ℤ_discrete, Text, Bool, Option, List, Eq,
  Eq_of_discrete, ◌==◌, int_eq, if◌then◌else◌,
}

pub data CallState : Type 0 where
  ringing active ended : CallState

pub data CallType : Type 0 where
  call_type_unspecified audio video : CallType

pub data CallEndReason : Type 0 where
  end_unspecified rejected hung_up cancelled timeout disconnected : CallEndReason

-- The errors that the service's callers tell apart. `store_failure` is any failure of Redis, and
-- `delivery_failure` the `deliveryError` of a publisher that failed.
pub data CallError : Type 0 where
  user_offline user_busy call_not_found invalid_state forbidden invalid_input : CallError
  store_failure delivery_failure : CallError

-- `CallErrorCode` of proto/call/call_interface.proto.
pub data CallErrorCode : Type 0 where
  code_invalid_argument code_user_offline code_user_busy code_call_not_found : CallErrorCode
  code_invalid_state code_forbidden code_internal_error : CallErrorCode

pub data Result (A : Type 0) : Type 0 where
  ok : A → Result A
  err : CallError → Result A

-- An SDP description; its type is kept as code points, since the program folds its case.
pub record Description : Type 0 where
  pub kind : Text
  pub sdp : String

pub record Session : Type 0 where
  pub id : String
  pub caller : ℤ
  pub callee : ℤ
  pub call_type : CallType
  pub state : CallState
  pub offer : Description
  pub answer : Option Description
  pub end_reason : CallEndReason
  pub end_message : String
  pub created_at : ℕ
  pub accepted_at : Option ℕ
  pub ended_at : Option ℕ
  pub ring_deadline : ℕ

unfoldable pub Session-discrete : Discrete Session
unfolding String_discrete ℕ_discrete ℤ_discrete
Session-discrete = hlevel (String_discrete, ℕ_discrete, ℤ_discrete)

-- The comparison of two payloads in the transition script.
instance abbrev pub session_eq : Eq Session
session_eq = Eq_of_discrete Session-discrete

-- `Session.Peer`.
unfoldable pub peer : Session → ℤ → Result ℤ
peer s user =
    if user == s.caller
    then ok s.callee
    else if user == s.callee
    then ok s.caller
    else err forbidden

pub record IceServer : Type 0 where
  pub urls : List String
  pub username : String
  pub credential : String

pub record IceCandidate : Type 0 where
  pub candidate : String
  pub sdp_mid : String
  pub sdp_mline_index : ℤ
  pub username_fragment : String

pub data EventType : Type 0 where
  call_config outgoing_call incoming_call call_accepted call_rejected call_ended : EventType
  ice_candidate_received call_error : EventType

pub record CallEvent : Type 0 where
  pub event_type : EventType
  pub call_id : String
  pub peer_user_id : ℤ
  pub call_type : CallType
  pub state : Option CallState
  pub session_description : Option Description
  pub ice_candidate : Option IceCandidate
  pub ice_servers : List IceServer
  pub end_reason : CallEndReason
  pub message : String
  pub error : Option CallErrorCode
  pub timestamp : ℕ

pub record Delivery : Type 0 where
  pub target_user_id : ℤ
  pub event : CallEvent

-- `VoIPCallRequest` of proto/push/push_interface.proto.
pub record VoipCall : Type 0 where
  pub call_id : String
  pub caller : ℤ
  pub callee : ℤ
  pub call_type : String
  pub result_topic : String
  pub expires_at : ℕ
  pub required : Bool

-- The two kinds of envelope that the service writes to its outbox.
pub data Payload : Type 0 where
  call_response : Delivery → Payload
  push_request : VoipCall → Payload

pub record PendingEvent : Type 0 where
  pub event_id : String
  pub operation_key : String
  pub topic : String
  pub payload : Payload

-- `ClientRequest`: `unset` is a request whose `oneof` holds nothing.
pub data ClientRequest : Type 0 where
  get_config unset : ClientRequest
  initiate : ℤ → CallType → Option Description → ClientRequest
  accept : String → Option Description → ClientRequest
  reject : String → String → ClientRequest
  hangup : String → CallEndReason → ClientRequest
  ice_candidate : String → Option IceCandidate → ClientRequest
  resume_call : String → ClientRequest

pub record InternalRequest : Type 0 where
  pub from_topic : String
  pub user_id : ℤ
  pub request : Option ClientRequest

-- `VoIPPushResult` of proto/push/push_interface.proto.
pub record PushResult : Type 0 where
  pub call_id : String
  pub caller : ℤ
  pub callee : ℤ
  pub accepted : Bool
  pub reason : String
  pub required : Bool
