-- ===== src/Relations/Resolve.antt =====
-- The resolution of a request: `resolveRequest` of shared/db/util_relationship.go, with what it
-- calls. It is one transaction, which a refusal rolls back; a request that has run out is closed.
pub mod Keeps
use betterfly.Prelude.{
  ℕ, ℤ, Bool, true, false, not, ◌&&◌, Option, none, some, List, first, modify_where, leb, ◌==◌,
  int_eq, nat_eq, if◌then◌else◌,
}
use betterfly.Relations.Types.{
  RequestType, type_friend, type_group_join, type_group_invite, Status, status_pending,
  status_accepted, status_rejected, status_cancelled, status_expired, RelationError,
  relation_forbidden, relation_not_found, relation_expired, relation_invalid_state, Outcome,
  success, failure, RelationshipRequest, Db, update_time_of,
}
use betterfly.Relations.Friends.{add_direct_friend_pair}
use betterfly.Relations.Groups.{can_manage_group, group_role, add_group_member}
use betterfly.Relations.Requests.{is_pending, has_id}

abbrev pub same_type : RequestType → RequestType → Bool
same_type type_friend type_friend = true
same_type type_group_join type_group_join = true
same_type type_group_invite type_group_invite = true
same_type _ _ = false

abbrev pub same_status : Status → Status → Bool
same_status status_pending status_pending = true
same_status status_accepted status_accepted = true
same_status status_rejected status_rejected = true
same_status status_cancelled status_cancelled = true
same_status status_expired status_expired = true
same_status _ _ = false

-- `isResolutionDecision`. A decision that is not the text of a status is treated as `pending` is.
abbrev pub is_resolution_decision : Status → Bool
is_resolution_decision status_accepted = true
is_resolution_decision status_rejected = true
is_resolution_decision status_cancelled = true
is_resolution_decision _ = false

abbrev pub is_cancelled : Status → Bool
is_cancelled status_cancelled = true
is_cancelled _ = false

abbrev pub is_expired : Status → Bool
is_expired status_expired = true
is_expired _ = false

-- `canResolveRequest`.
unfoldable pub can_resolve_request : ℤ → RelationshipRequest → Status → Db → Bool
can_resolve_request actor r decision db =
    if is_cancelled decision then actor == r.requester else (elim r.request_type [
      | type_friend ↦ actor == r.target
      | type_group_invite ↦ actor == r.target
      | type_group_join ↦ can_manage_group (group_role db r.group actor)
    ])

-- `groupRequestUserID`.
abbrev pub group_request_user : RelationshipRequest → ℤ
group_request_user r = elim r.request_type [ type_group_invite ↦ r.target | _ ↦ r.requester ]

-- `closeRequest`.
abbrev pub closed : Status → ℤ → ℕ → RelationshipRequest → RelationshipRequest
closed status actor now r = record r {
  status = status;
  active_key = none;
  resolved_at = some now;
  resolved_by = actor;
}

unfoldable pub close_request : ℕ → Status → ℤ → ℕ → Db → Db
close_request id status actor now db = record db {
  requests = modify_where (has_id id) (closed status actor now) db.requests;
}

-- What acceptance makes of the other tables.
unfoldable pub carry_out : RelationshipRequest → ℕ → Db → Outcome Db
carry_out r now db = elim r.request_type [
  | type_friend ↦ success (add_direct_friend_pair r.requester r.target (update_time_of now) db)
  | _ ↦ add_group_member r.group (group_request_user r) (update_time_of now) db
]

-- The request as it is read again after the transaction.
abbrev pub reread : ℕ → Db → Outcome RelationshipRequest × Db
reread id db = elim (first (has_id id) db.requests) [
  | none ↦ (failure relation_not_found, db)
  | some r ↦ (success r, db)
]

-- A request that is no longer pending: a repetition of its resolution succeeds.
unfoldable pub resolve_again :
    ℤ → Status → RelationshipRequest → Db → Outcome RelationshipRequest × Db
resolve_again actor decision r db =
    if same_status r.status decision && r.resolved_by == actor && is_resolution_decision decision
    then reread r.id db
    else if is_expired r.status
    then (failure relation_expired, db)
    else (failure relation_invalid_state, db)

-- A pending request by an actor who may resolve it.
unfoldable pub decide : ℤ → Status → RelationshipRequest → ℕ → Db → Outcome RelationshipRequest × Db
unfolding close_request
decide actor decision r now db =
    if not (is_resolution_decision decision)
    then (failure relation_invalid_state, db)
    else if not (same_status decision status_accepted)
    then reread r.id (close_request r.id decision actor now db)
    else (elim (carry_out r now db) [
      | failure e ↦ (failure e, db)
      | success db' ↦ reread r.id (close_request r.id status_accepted actor now db')
    ])

-- `resolveRequest` with the row at hand.
unfoldable pub resolve_found :
    ℤ → RequestType → Status → RelationshipRequest → ℕ → Db → Outcome RelationshipRequest × Db
resolve_found actor kind decision r now db =
    if not (same_type r.request_type kind)
    then (failure relation_not_found, db)
    else if not (is_pending r.status)
    then resolve_again actor decision r db
    else if leb r.expires_at now
    then (failure relation_expired, close_request r.id status_expired actor now db)
    else if not (can_resolve_request actor r decision db)
    then (failure relation_forbidden, db)
    else decide actor decision r now db

-- `resolveRequest`, which `ResolveFriendRequestWithDB`, `ResolveGroupJoinRequestWithDB` and
-- `ResolveGroupInvitationWithDB` call, each with its type.
unfoldable pub resolve_request :
    ℤ → ℕ → RequestType → Status → ℕ → Db → Outcome RelationshipRequest × Db
resolve_request actor id kind decision now db = elim (first (has_id id) db.requests) [
  | none ↦ (failure relation_not_found, db)
  | some r ↦ resolve_found actor kind decision r now db
]
