-- ===== src/Relations/Operations.antt =====
-- The operations on friends, groups and requests as one type, to speak of any sequence of them.
use betterfly.Prelude.{ℕ, ℤ, String, Text, Bool, List, [], ◌∷◌}
use betterfly.Relations.Types.{RequestType, Status, Role, Db, update_time_of}
use betterfly.Relations.Friends.{
  remove_direct_friend_pair, update_friend_alias, update_friend_notify,
}
use betterfly.Relations.Groups.{
  create_group_with_owner, kick_group_member, update_group_member_role, remove_user_from_group,
  update_group_avatar, update_group_name, transfer_group_owner,
}
use betterfly.Relations.Requests.{
  create_friend_request, create_group_join_request, create_group_invitation,
  expire_requests_for_user, expire_requests_for_group,
}
use betterfly.Relations.Resolve.{resolve_request}

pub data Operation : Type 0 where
  request_friend request_join : ℤ → ℤ → Text → Operation
  invite : ℤ → ℤ → ℤ → Text → Operation
  resolve : ℤ → ℕ → RequestType → Status → Operation
  expire_for_user expire_for_group : ℤ → Operation
  remove_friend : ℤ → ℤ → Operation
  set_alias : ℤ → ℤ → String → Operation
  set_notify : ℤ → ℤ → Bool → Operation
  create_group rename_group : ℤ → ℤ → String → Operation
  kick transfer : ℤ → ℤ → ℤ → Operation
  change_role : ℤ → ℤ → ℤ → Role → Operation
  leave_group : ℤ → ℤ → Operation
  set_avatar : ℤ → String → Operation

-- What an operation makes of the tables, at a time in nanoseconds.
unfoldable pub apply : Operation → ℕ → Db → Db
apply (request_friend u v message) now db = (create_friend_request u v message now db).1
apply (request_join u g message) now db = (create_group_join_request u g message now db).1
apply (invite actor g u message) now db = (create_group_invitation actor g u message now db).1
apply (resolve actor id kind decision) now db = (resolve_request actor id kind decision now db).1
apply (expire_for_user u) now db = expire_requests_for_user u now db
apply (expire_for_group g) now db = expire_requests_for_group g now db
apply (remove_friend u v) now db = (remove_direct_friend_pair u v (update_time_of now) db).1
apply (set_alias u v alias) now db = (update_friend_alias u v alias (update_time_of now) db).1
apply (set_notify u v notify) now db = (update_friend_notify u v notify (update_time_of now) db).1
apply (create_group u g name) now db = (create_group_with_owner u g name (update_time_of now) db).1
apply (rename_group actor g name) now db =
    (update_group_name actor g name (update_time_of now) db).1
apply (kick actor g u) now db = (kick_group_member actor g u (update_time_of now) db).1
apply (transfer actor g u) now db = (transfer_group_owner actor g u (update_time_of now) db).1
apply (change_role actor g u role) now db =
    (update_group_member_role actor g u role (update_time_of now) db).1
apply (leave_group g u) now db = (remove_user_from_group g u (update_time_of now) db).1
apply (set_avatar g avatar) now db = (update_group_avatar g avatar (update_time_of now) db).1

-- Operations one after another, each with its time.
unfoldable pub apply_all : List (ℕ × Operation) → Db → Db
unfolding apply
apply_all [] db = db
apply_all ((now, op) ∷ ops) db = apply_all ops (apply op now db)

-- A property that every operation keeps is kept by any sequence of them.
pub apply_all-keeps :
    (P : Db → Type 0)
    → ((op : Operation) (now : ℕ) (db : Db) → P db → P (apply op now db))
    → (ops : List (ℕ × Operation)) (db : Db) → P db
    → P (apply_all ops db)
unfolding apply_all
apply_all-keeps P step [] db h = h
apply_all-keeps P step ((now, op) ∷ ops) db h =
    apply_all-keeps P step ops (apply op now db) (step op now db h)
