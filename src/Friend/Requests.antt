-- ===== src/Friend/Requests.antt =====
-- The messages of the friend service, as far as its handlers read and write them: the requests that
-- change something, the queries of a group and of requests, and their responses.
use betterfly.Prelude.{
  Text, List, ℕ, ℤ, pos, negsuc, String, Bool, Option, none, some, length, leb, ◌==◌, string_eq,
  if◌then◌else◌,
}
use betterfly.Relations.Types.{
  RelationshipRequest, RelationError, relation_forbidden, relation_not_found, relation_expired,
  relation_invalid_state, already_related, Role, role_owner, role_admin, role_member, Status,
  status_accepted, status_rejected, status_cancelled,
}

-- `FriendResult`, without SERVICE_ERROR, which no response has.
pub data FriendResult : Type 0 where
  friend_ok record_not_exist already_exist invalid_argument already_friend request_pending :
      FriendResult
  forbidden request_expired invalid_state : FriendResult

-- `RequestDecision`, with the numbers that are none of the three.
pub data Decision : Type 0 where
  request_accept request_reject request_cancel no_decision : Decision

-- The payload of a request, by its oneof.
pub data Payload : Type 0 where
  remove_direct_friend : ℤ → ℤ → Payload
  update_friend_alias : ℤ → ℤ → String → Payload
  update_friend_notify : ℤ → ℤ → Bool → Payload
  create_group : ℤ → ℤ → String → Payload
  query_group : ℤ → ℤ → Bool → Payload
  update_group_avatar : ℤ → ℤ → String → Payload
  remove_group_member : ℤ → ℤ → ℤ → Payload
  update_group_name : ℤ → ℤ → String → Payload
  transfer_group_owner : ℤ → ℤ → ℤ → Payload
  add_direct_friend : ℤ → ℤ → Text → Payload
  add_group_member : ℤ → ℤ → Text → Payload
  invite_group_member : ℤ → ℤ → ℤ → Text → Payload
  resolve_friend_request resolve_group_join_request : ℤ → ℤ → Decision → Payload
  resolve_group_invitation : ℤ → ℤ → Decision → Payload
  query_friend_requests query_group_invitations : ℤ → Bool → Payload
  query_group_join_requests : ℤ → ℤ → Payload
  kick_group_member : ℤ → ℤ → ℤ → Payload
  update_group_member_role : ℤ → ℤ → ℤ → String → Payload

-- `FriendOperationRsp`; no update time is an empty one.
pub record FriendOperation : Type 0 where
  pub operation : String
  pub user : ℤ
  pub friend : ℤ
  pub update_time : Option ℕ

-- `GroupOperationRsp`.
pub record GroupOperation : Type 0 where
  pub operation : String
  pub group : ℤ
  pub user : ℤ
  pub role : String
  pub update_time : Option ℕ
  pub group_name : String
  pub previous_owner : ℤ

-- `GroupInfoRsp`.
pub record GroupInfo : Type 0 where
  pub group : ℤ
  pub group_name : String
  pub avatar : String
  pub owner : ℤ
  pub update_time : ℕ
  pub client_need_save : Bool

pub data Reply : Type 0 where
  no_reply : Reply
  friend_operation : FriendOperation → Reply
  group_operation : GroupOperation → Reply
  group_info : GroupInfo → Reply
  relationship_operation : String → Option RelationshipRequest → Reply
  relationship_list : List RelationshipRequest → Reply

-- `RequestMessage` and `ResponseMessage`.
pub record RequestMessage : Type 0 where
  pub from_kafka_topic : String
  pub target_user : ℤ
  pub payload : Payload

pub record ResponseMessage : Type 0 where
  pub result : FriendResult
  pub target_user : ℤ
  pub reply : Reply

-- `relationshipResult`.
abbrev pub relationship_result : RelationError → FriendResult
relationship_result relation_not_found = record_not_exist
relationship_result relation_forbidden = forbidden
relationship_result relation_expired = request_expired
relationship_result relation_invalid_state = invalid_state
relationship_result already_related = already_exist

-- `decisionStatus`.
abbrev pub decision_status : Decision → Option Status
decision_status request_accept = some status_accepted
decision_status request_reject = some status_rejected
decision_status request_cancel = some status_cancelled
decision_status no_decision = none

-- `validVerificationMessage`; the text of a message is valid.
abbrev pub valid_verification_message : Text → Bool
valid_verification_message message = leb (length message) 255

-- The role of a text. One that is no role is refused just as the owner's.
abbrev pub role_of_text : String → Role
role_of_text t =
    if t == "admin" then role_admin else if t == "member" then role_member else role_owner

abbrev pub natural : ℤ → ℕ
natural (pos n) = n
natural (negsuc n) = 0
