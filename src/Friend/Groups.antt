-- ===== src/Friend/Groups.antt =====
-- The handlers of groups: services/friendService/internal/handler/handler.go and
-- handler_group_management.go, with the two on members of handler_relationships.go.
use betterfly.Prelude.{
  codes, trim, ℕ, ℤ, pos, String, Bool, not, ◌||◌, ◌&&◌, Option, none, some, length, leb,
  is_positive, ◌==◌, int_eq, string_eq, if◌then◌else◌,
}
use betterfly.Relations.Types.{Db, Outcome, success, failure, undeleted, update_time_of}
use betterfly.Relations.Groups.{
  group_role, can_manage_group, create_group_with_owner, update_group_avatar,
  remove_user_from_group, update_group_name, transfer_group_owner, kick_group_member,
  update_group_member_role,
}
use betterfly.Friend.Requests.{
  FriendResult, friend_ok, record_not_exist, already_exist, invalid_argument, Reply, no_reply,
  group_operation, group_info, relationship_result, role_of_text,
}
use betterfly.Friend.Friends.{Answer, ok_if}

-- `groupManagementOperation`.
abbrev pub management_reply : String → ℤ → ℤ → String → Option ℕ → String → ℤ → Reply
management_reply operation g u role time name previous_owner = group_operation (record {
  operation = operation;
  group = g;
  user = u;
  role = role;
  update_time = time;
  group_name = name;
  previous_owner = previous_owner;
})

-- `groupOperation`.
abbrev pub group_reply : String → ℤ → ℤ → String → Option ℕ → Reply
group_reply operation g u role time = management_reply operation g u role time "" (pos 0)

abbrev pub refused : FriendResult → String → ℤ → ℤ → Db → Answer
refused result operation g u db = ((result, group_reply operation g u "" none), db)

abbrev pub created_result : Bool → FriendResult
created_result exists = if exists then already_exist else friend_ok

-- `handleCreateGroupWithDB`; `users` says whose account exists.
unfoldable pub handle_create_group : (ℤ → Bool) → ℤ → ℤ → String → ℕ → Db → Answer
handle_create_group users owner g name now db =
    let outcome = create_group_with_owner owner g name (update_time_of now) db in
    if not (is_positive owner) || not (is_positive g) || name == ""
    then refused invalid_argument "create_group" g owner db
    else if not (users owner)
    then refused record_not_exist "create_group" g owner db
    else (
      (created_result outcome.0, group_reply "create_group" g owner "" (some (update_time_of now))),
      outcome.1,
    )

-- `handleQueryGroupWithDB`.
unfoldable pub handle_query_group : ℤ → ℤ → Bool → Db → Answer
handle_query_group actor g client_need_save db =
    if not (is_positive actor) || not (is_positive g)
    then ((invalid_argument, no_reply), db)
    else elim (undeleted (db.groups g)) [
      | none ↦ ((record_not_exist, no_reply), db)
      | some group ↦ (
        (
          friend_ok,
          group_info (record {
            group = g;
            group_name = group.name;
            avatar = group.avatar;
            owner = group.owner;
            update_time = group.update_time;
            client_need_save = client_need_save;
          }),
        ),
        db,
      )
    ]

-- `handleUpdateGroupAvatarWithDB`.
unfoldable pub handle_update_group_avatar : ℤ → ℤ → String → ℕ → Db → Answer
handle_update_group_avatar actor g avatar now db =
    let outcome = update_group_avatar g avatar (update_time_of now) db in
    if not (is_positive actor) || not (is_positive g) || avatar == ""
    then refused invalid_argument "update_group_avatar" g actor db
    else if not (can_manage_group (group_role db g actor))
    then refused record_not_exist "update_group_avatar" g actor db
    else (
      (ok_if outcome.0, group_reply "update_group_avatar" g actor "" (some (update_time_of now))),
      outcome.1,
    )

-- `handleRemoveGroupMemberWithDB`: users remove themselves.
unfoldable pub handle_remove_group_member : ℤ → ℤ → ℤ → ℕ → Db → Answer
handle_remove_group_member actor g u now db =
    let outcome = remove_user_from_group g u (update_time_of now) db in
    if not (is_positive actor) || not (is_positive g) || not (is_positive u)
    then refused invalid_argument "remove_group_member" g u db
    else if not (actor == u)
    then refused invalid_argument "remove_group_member" g u db
    else (
      (
        ok_if (outcome.0.0 && outcome.0.1),
        group_reply "remove_group_member" g u "" (some (update_time_of now)),
      ),
      outcome.1,
    )

abbrev pub renamed : ℤ → ℤ → String → Outcome ℕ × Db → Answer
renamed actor g name (failure e, db) =
    ((relationship_result e, management_reply "update_group_name" g actor "" none name (pos 0)), db)
renamed actor g name (success time, db) =
    ((friend_ok, management_reply "update_group_name" g actor "" (some time) name (pos 0)), db)

-- `handleUpdateGroupNameWithDB`.
unfoldable pub handle_update_group_name : ℤ → ℤ → String → ℕ → Db → Answer
handle_update_group_name actor g raw now db =
    let name = trim raw in
    if not (is_positive actor)
      || not (is_positive g)
      || name == ""
      || not (leb (length (codes name)) 100)
    then ((invalid_argument, management_reply "update_group_name" g actor "" none name (pos 0)), db)
    else renamed actor g name (update_group_name actor g name (update_time_of now) db)

abbrev pub transferred : ℤ → ℤ → ℤ → ℕ → Outcome (String × ℤ) × Db → Answer
transferred actor g u time (failure e, db) =
    ((relationship_result e, management_reply "transfer_group_owner" g u "owner" none "" actor), db)
transferred actor g u time (success (name, previous), db) =
    ((friend_ok, management_reply "transfer_group_owner" g u "owner" (some time) name previous), db)

-- `handleTransferGroupOwnerWithDB`.
unfoldable pub handle_transfer_group_owner : ℤ → ℤ → ℤ → ℕ → Db → Answer
handle_transfer_group_owner actor g u now db =
    if not (is_positive actor) || not (is_positive g) || not (is_positive u) || actor == u
    then ((invalid_argument, management_reply "transfer_group_owner" g u "owner" none "" actor), db)
    else transferred actor g u (update_time_of now)
        (transfer_group_owner actor g u (update_time_of now) db)

abbrev pub changed : String → ℤ → ℤ → String → Outcome ℕ × Db → Answer
changed operation g u role (failure e, db) =
    ((relationship_result e, group_reply operation g u role none), db)
changed operation g u role (success time, db) =
    ((friend_ok, group_reply operation g u role (some time)), db)

-- `handleKickGroupMemberWithDB`.
unfoldable pub handle_kick_group_member : ℤ → ℤ → ℤ → ℕ → Db → Answer
handle_kick_group_member actor g u now db =
    if not (is_positive actor) || not (is_positive g) || not (is_positive u) || actor == u
    then ((invalid_argument, group_reply "kick_group_member" g u "" none), db)
    else changed "kick_group_member" g u "" (kick_group_member actor g u (update_time_of now) db)

-- `handleUpdateGroupMemberRoleWithDB`.
unfoldable pub handle_update_group_member_role : ℤ → ℤ → ℤ → String → ℕ → Db → Answer
handle_update_group_member_role actor g u role now db =
    if not (is_positive actor) || not (is_positive g) || not (is_positive u)
    then ((invalid_argument, group_reply "update_group_member_role" g u role none), db)
    else changed "update_group_member_role" g u role
        (update_group_member_role actor g u (role_of_text role) (update_time_of now) db)
