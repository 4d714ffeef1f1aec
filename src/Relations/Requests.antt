-- ===== src/Relations/Requests.antt =====
-- Requests for a friendship, to join a group and to be invited to one: shared/db/
-- util_relationship.go. Each function is one transaction; `now` is in nanoseconds. The names that
-- the views join to a request are left out.
pub mod Keeps
use betterfly.Prelude.{
  ℕ, suc, ◌+◌, ◌*◌, ℤ, String, Text, trim_space, Bool, true, false, not, ◌&&◌, ◌||◌, Option, none,
  some, List, [], ◌∷◌, ◌++◌, first, modify_where, leb, ◌==◌, int_eq, nat_eq, int_ltb, is_positive,
  if◌then◌else◌,
}
use betterfly.Relations.Types.{
  RequestType, type_friend, type_group_join, type_group_invite, Status, status_pending,
  status_accepted, status_rejected, status_cancelled, status_expired, RelationError,
  relation_forbidden, relation_not_found, relation_expired, relation_invalid_state, already_related,
  Outcome, success, failure, ActiveKey, friend_key, group_join_key, group_invite_key, active_key_eq,
  RelationshipRequest, Group, GroupMember, Db, find_member, undeleted, update_time_of,
}
use betterfly.Relations.Friends.{friendship_active, add_direct_friend_pair}
use betterfly.Relations.Groups.{can_manage_group, group_role, add_group_member}

-- `relationshipRequestTTL`: seven days.
abbrev pub relationship_request_ttl : ℕ
relationship_request_ttl = 604_800_000_000_000

abbrev pub is_pending : Status → Bool
is_pending status_pending = true
is_pending _ = false

abbrev pub holds_key : ActiveKey → RelationshipRequest → Bool
holds_key key r = elim r.active_key [ none ↦ false | some k ↦ k == key ]

abbrev pub has_id : ℕ → RelationshipRequest → Bool
has_id id r = r.id == id

-- `Updates({"status": expired, "active_key": nil, "resolved_at": now})`.
abbrev pub expired_at : ℕ → RelationshipRequest → RelationshipRequest
expired_at now r = record r { status = status_expired; active_key = none; resolved_at = some now }

abbrev pub is_overdue : ℕ → RelationshipRequest → Bool
is_overdue now r = is_pending r.status && leb r.expires_at now

-- `expireActiveKey`.
abbrev pub expire_active_key : ActiveKey → ℕ → List RelationshipRequest → List RelationshipRequest
expire_active_key key now = modify_where (λ r. holds_key key r && is_overdue now r) (expired_at now)

-- What its callers give `createPendingRequest`.
pub record Draft : Type 0 where
  pub request_type : RequestType
  pub requester : ℤ
  pub target : ℤ
  pub group : ℤ
  pub message : Text
  pub key : ActiveKey

abbrev pub pending_request : Draft → ℕ → ℕ → RelationshipRequest
pending_request d id now = record {
  id = id;
  request_type = d.request_type;
  requester = d.requester;
  target = d.target;
  group = d.group;
  message = d.message;
  status = status_pending;
  active_key = some d.key;
  created_at = now;
  expires_at = now + relationship_request_ttl;
  resolved_at = none;
  resolved_by = ℤ.pos 0;
}

-- `createPendingRequest`: the request that holds the key, and whether it was created. Another
-- transaction cannot take the key between the look-up and the insertion.
unfoldable pub create_pending_request : Draft → ℕ → Db → (RelationshipRequest × Bool) × Db
create_pending_request d now db =
    let requests = expire_active_key d.key now db.requests in
    elim (first (holds_key d.key) requests) [
      | some existing ↦ ((existing, false), record db { requests = requests })
      | none ↦
          let r = pending_request d db.next_id now in
          ((r, true), record db { requests = requests ++ r ∷ []; next_id = suc db.next_id })
    ]

abbrev created_by : (RelationshipRequest × Bool) × Db → Outcome (RelationshipRequest × Bool) × Db
created_by result = (success result.0, result.1)

-- The key of a friend request: the two users, the smaller first.
abbrev pub friend_key_of : ℤ → ℤ → ActiveKey
friend_key_of u v = if int_ltb v u then friend_key v u else friend_key u v

-- The requests that the three functions below ask for.
abbrev pub friend_draft : ℤ → ℤ → Text → Draft
friend_draft u v message = record {
  request_type = type_friend;
  requester = u;
  target = v;
  group = ℤ.pos 0;
  message = trim_space message;
  key = friend_key_of u v;
}

-- `CreateFriendRequestWithDB`.
unfoldable pub create_friend_request :
    ℤ → ℤ → Text → ℕ → Db → Outcome (RelationshipRequest × Bool) × Db
create_friend_request u v message now db =
    if not (is_positive u) || not (is_positive v) || u == v
    then (failure relation_invalid_state, db)
    else if friendship_active db u v
    then (failure already_related, db)
    else created_by (create_pending_request (friend_draft u v message) now db)

abbrev pub is_some_member : Option GroupMember → Bool
is_some_member none = false
is_some_member (some m) = true

abbrev pub is_no_group : Option Group → Bool
is_no_group none = true
is_no_group (some g) = false

abbrev pub join_draft : ℤ → ℤ → Text → Draft
join_draft u g message = record {
  request_type = type_group_join;
  requester = u;
  target = ℤ.pos 0;
  group = g;
  message = trim_space message;
  key = group_join_key g u;
}

-- `CreateGroupJoinRequestWithDB`.
unfoldable pub create_group_join_request :
    ℤ → ℤ → Text → ℕ → Db → Outcome (RelationshipRequest × Bool) × Db
create_group_join_request u g message now db =
    if is_some_member (find_member db g u)
    then (failure already_related, db)
    else if is_no_group (undeleted (db.groups g))
    then (failure relation_not_found, db)
    else created_by (create_pending_request (join_draft u g message) now db)

abbrev pub invite_draft : ℤ → ℤ → ℤ → Text → Draft
invite_draft actor g u message = record {
  request_type = type_group_invite;
  requester = actor;
  target = u;
  group = g;
  message = trim_space message;
  key = group_invite_key g u;
}

-- `CreateGroupInvitationWithDB`.
unfoldable pub create_group_invitation :
    ℤ → ℤ → ℤ → Text → ℕ → Db → Outcome (RelationshipRequest × Bool) × Db
create_group_invitation actor g u message now db =
    if not (can_manage_group (group_role db g actor))
    then (failure relation_forbidden, db)
    else if is_some_member (find_member db g u)
    then (failure already_related, db)
    else created_by (create_pending_request (invite_draft actor g u message) now db)

-- `expireRequestsForUserWithDB` and `expireRequestsForGroupWithDB`, before a list of requests.
unfoldable pub expire_requests_for_user : ℤ → ℕ → Db → Db
expire_requests_for_user u now db = record db {
  requests =
      modify_where (λ r. is_overdue now r && (r.requester == u || r.target == u)) (expired_at now)
        db.requests;
}

unfoldable pub expire_requests_for_group : ℤ → ℕ → Db → Db
expire_requests_for_group g now db = record db {
  requests = modify_where (λ r. is_overdue now r && r.group == g) (expired_at now) db.requests;
}
