-- ===== src/Friend/Relationships.antt =====
-- The handlers of requests between users: services/friendService/internal/handler/handler_relationships.go.
use betterfly.Prelude.{
  ltb, take, select, List, [], ◌∷◌, ◌&&◌, Text, ℕ, ℤ, String, Bool, not, ◌||◌, none, some,
  is_positive, ◌==◌, int_eq, if◌then◌else◌,
}
use betterfly.Relations.Types.{
  Db, RelationshipRequest, already_related, Outcome, success, failure, RequestType,
  relation_forbidden, type_friend, type_group_join, type_group_invite,
}
use betterfly.Relations.Requests.{
  is_pending, expire_requests_for_user, expire_requests_for_group, create_friend_request,
  create_group_join_request, create_group_invitation,
}
use betterfly.Relations.Resolve.{same_type, resolve_request}
use betterfly.Relations.Groups.{can_manage_group, group_role}
use betterfly.Friend.Requests.{
  FriendResult, friend_ok, record_not_exist, already_friend, request_pending, invalid_argument,
  relationship_operation, relationship_list, relationship_result, Decision, decision_status,
  valid_verification_message, natural,
}
use betterfly.Friend.Friends.{Answer}

-- `relationshipError` without a request.
abbrev pub refused : FriendResult → String → Db → Answer
refused result operation db = ((result, relationship_operation operation none), db)

abbrev pub pending_or_ok : Bool → FriendResult
pending_or_ok created = if created then friend_ok else request_pending

-- A new request, one that was there, or an error.
abbrev pub asked : String → Outcome (RelationshipRequest × Bool) × Db → Answer
asked operation (success (request, created), db) =
    ((pending_or_ok created, relationship_operation operation (some request)), db)
asked operation (failure e, db) = refused (relationship_result e) operation db

-- Friends already are an error of its own.
abbrev pub asked_friend : Outcome (RelationshipRequest × Bool) × Db → Answer
asked_friend (failure already_related, db) = refused already_friend "create_friend_request" db
asked_friend (success r, db) = asked "create_friend_request" (success r, db)
asked_friend (failure e, db) = asked "create_friend_request" (failure e, db)

-- `handleAddDirectFriendWithDB`.
unfoldable pub handle_add_direct_friend : (ℤ → Bool) → ℤ → ℤ → Text → ℕ → Db → Answer
handle_add_direct_friend users u v message now db =
    if not (is_positive u)
      || not (is_positive v)
      || u == v
      || not (valid_verification_message message)
    then refused invalid_argument "create_friend_request" db
    else if not (users u) || not (users v)
    then refused record_not_exist "create_friend_request" db
    else asked_friend (create_friend_request u v message now db)

-- `handleAddGroupMemberWithDB`.
unfoldable pub handle_add_group_member : (ℤ → Bool) → ℤ → ℤ → Text → ℕ → Db → Answer
handle_add_group_member users u g message now db =
    if not (is_positive u) || not (is_positive g) || not (valid_verification_message message)
    then refused invalid_argument "create_group_join_request" db
    else if not (users u)
    then refused record_not_exist "create_group_join_request" db
    else asked "create_group_join_request" (create_group_join_request u g message now db)

-- `handleInviteGroupMemberWithDB`.
unfoldable pub handle_invite_group_member : (ℤ → Bool) → ℤ → ℤ → ℤ → Text → ℕ → Db → Answer
handle_invite_group_member users actor g u message now db =
    if not (is_positive actor)
      || not (is_positive g)
      || not (is_positive u)
      || actor == u
      || not (valid_verification_message message)
    then refused invalid_argument "invite_group_member" db
    else if not (users u)
    then refused record_not_exist "invite_group_member" db
    else asked "invite_group_member" (create_group_invitation actor g u message now db)

abbrev pub resolved : String → Outcome RelationshipRequest × Db → Answer
resolved operation (success request, db) =
    ((friend_ok, relationship_operation operation (some request)), db)
resolved operation (failure e, db) = refused (relationship_result e) operation db

-- `handleResolveFriendRequestWithDB`, `handleResolveGroupJoinRequestWithDB` and
-- `handleResolveGroupInvitationWithDB`, by the name of the operation and the type of request.
unfoldable pub handle_resolve : String → RequestType → ℤ → ℤ → Decision → ℕ → Db → Answer
handle_resolve operation kind actor id decision now db = elim (decision_status decision) [
  | none ↦ refused invalid_argument operation db
  | some status ↦
      if not (is_positive actor) || not (is_positive id)
      then refused invalid_argument operation db
      else resolved operation (resolve_request actor (natural id) kind status now db)
]

-- `relationshipViewQuery` with its order and limit: the rows that a test selects, the newest first and
-- at most a hundred. The names and avatars that it joins are left out, as is the order of rows of one
-- time, which the database chooses.
insert_newest : RelationshipRequest → List RelationshipRequest → List RelationshipRequest
insert_newest r [] = r ∷ []
insert_newest r (x ∷ xs) =
    let rest = insert_newest r xs in if ltb r.created_at x.created_at then x ∷ rest else r ∷ x ∷ xs

newest_first : List RelationshipRequest → List RelationshipRequest
newest_first [] = []
newest_first (r ∷ rs) = insert_newest r (newest_first rs)

unfoldable pub relationship_view_query :
    (RelationshipRequest → Bool) → List RelationshipRequest → List RelationshipRequest
unfolding insert_newest newest_first
relationship_view_query p rs = take 100 (newest_first (select p rs))

abbrev pub listed : (RelationshipRequest → Bool) → Db → Answer
listed p db = ((friend_ok, relationship_list (relationship_view_query p db.requests)), db)

-- The condition of `ListFriendRequestsWithDB`.
abbrev pub is_friend_request_of : ℤ → Bool → RelationshipRequest → Bool
is_friend_request_of u outgoing r =
    same_type r.request_type type_friend && (r.target == u || outgoing && r.requester == u)

-- The condition of `ListGroupInvitationsWithDB`.
abbrev pub is_invitation_of : ℤ → Bool → RelationshipRequest → Bool
is_invitation_of u outgoing r =
    is_pending r.status
    && (same_type r.request_type type_group_invite
          && (r.target == u || outgoing && r.requester == u)
        || outgoing && same_type r.request_type type_group_join && r.requester == u)

-- The condition of `ListGroupJoinRequestsWithDB`.
abbrev pub is_join_request_for : ℤ → RelationshipRequest → Bool
is_join_request_for g r =
    same_type r.request_type type_group_join && r.group == g && is_pending r.status

-- `handleQueryFriendRequestsWithDB`.
unfoldable pub handle_query_friend_requests : ℤ → Bool → ℕ → Db → Answer
handle_query_friend_requests u outgoing now db =
    if not (is_positive u)
    then ((invalid_argument, relationship_list []), db)
    else listed (is_friend_request_of u outgoing) (expire_requests_for_user u now db)

-- `handleQueryGroupInvitationsWithDB`.
unfoldable pub handle_query_group_invitations : ℤ → Bool → ℕ → Db → Answer
handle_query_group_invitations u outgoing now db =
    if not (is_positive u)
    then ((invalid_argument, relationship_list []), db)
    else listed (is_invitation_of u outgoing) (expire_requests_for_user u now db)

-- `handleQueryGroupJoinRequestsWithDB`.
unfoldable pub handle_query_group_join_requests : ℤ → ℤ → ℕ → Db → Answer
handle_query_group_join_requests actor g now db =
    if not (is_positive actor) || not (is_positive g)
    then ((invalid_argument, relationship_list []), db)
    else if not (can_manage_group (group_role db g actor))
    then ((relationship_result relation_forbidden, relationship_list []), db)
    else listed (is_join_request_for g) (expire_requests_for_group g now db)
