-- ===== src/Friend/Friends.antt =====
-- The handlers of friends: `handleRemoveDirectFriendWithDB`, `handleUpdateFriendAliasWithDB` and
-- `handleUpdateFriendNotifyWithDB` of services/friendService/internal/handler/handler.go.
use betterfly.Prelude.{
  ℕ, ℤ, String, Bool, not, ◌||◌, Option, none, some, is_positive, ◌==◌, int_eq, if◌then◌else◌,
}
use betterfly.Relations.Types.{Db, update_time_of}
use betterfly.Relations.Friends.{
  remove_direct_friend_pair, update_friend_alias, update_friend_notify,
}
use betterfly.Friend.Requests.{
  FriendResult, friend_ok, record_not_exist, invalid_argument, Reply, friend_operation,
}

-- A handler's answer and the tables after it.
abbrev pub Answer : Type 0
Answer = (FriendResult × Reply) × Db

abbrev pub operation_reply : String → ℤ → ℤ → Option ℕ → Reply
operation_reply operation u v time =
    friend_operation (record { operation = operation; user = u; friend = v; update_time = time })

abbrev pub ok_if : Bool → FriendResult
ok_if found = if found then friend_ok else record_not_exist

abbrev pub refused : String → ℤ → ℤ → Db → Answer
refused operation u v db = ((invalid_argument, operation_reply operation u v none), db)

abbrev pub answered : String → ℤ → ℤ → ℕ → Bool × Db → Answer
answered operation u v time outcome =
    ((ok_if outcome.0, operation_reply operation u v (some time)), outcome.1)

unfoldable pub handle_remove_direct_friend : ℤ → ℤ → ℕ → Db → Answer
handle_remove_direct_friend u v now db =
    if not (is_positive u) || not (is_positive v) || u == v
    then refused "remove_direct_friend" u v db
    else answered "remove_direct_friend" u v (update_time_of now)
        (remove_direct_friend_pair u v (update_time_of now) db)

unfoldable pub handle_update_friend_alias : ℤ → ℤ → String → ℕ → Db → Answer
handle_update_friend_alias u v alias now db =
    if not (is_positive u) || not (is_positive v)
    then refused "update_friend_alias" u v db
    else answered "update_friend_alias" u v (update_time_of now)
        (update_friend_alias u v alias (update_time_of now) db)

unfoldable pub handle_update_friend_notify : ℤ → ℤ → Bool → ℕ → Db → Answer
handle_update_friend_notify u v is_notify now db =
    if not (is_positive u) || not (is_positive v)
    then refused "update_friend_notify" u v db
    else answered "update_friend_notify" u v (update_time_of now)
        (update_friend_notify u v is_notify (update_time_of now) db)
