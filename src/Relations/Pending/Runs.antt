-- ===== src/Relations/Pending/Runs.antt =====
-- Requests under any sequence of operations.
use betterfly.Prelude.{
  ℕ, ◌≤◌, ℤ, ◌≡◌, false, ◌&&◌, ◌||◌, Option, List, length, select, arith, ◌==◌, int_eq, nat_eq,
}
use betterfly.Relations.Types.{
  Status, success, ActiveKey, active_key_eq, RelationshipRequest, Friend, Db, empty_db,
}
use betterfly.Relations.Requests.{
  is_pending, has_id, is_overdue, expire_requests_for_user, expire_requests_for_group,
}
use betterfly.Relations.Friends.{
  remove_direct_friend_pair, update_friend_alias, update_friend_notify,
}
use betterfly.Relations.Requests.Keeps.{friend_request-keeps, join_request-keeps, invitation-keeps}
use betterfly.Relations.Resolve.{carry_out, close_request}
use betterfly.Relations.Resolve.Keeps.{Awaits, carry_out-requests, resolve-keeps}
use betterfly.Relations.Operations.{
  Operation, request_friend, request_join, invite, resolve, expire_for_user, expire_for_group,
  remove_friend, set_alias, set_notify, create_group, rename_group, kick, transfer, change_role,
  leave_group, set_avatar, apply, apply_all, apply_all-keeps,
}
use betterfly.Relations.Frames.{
  create_group-frame, group_name-frame, kick-frame, transfer-frame, role-frame, leave-frame,
  avatar-frame,
}
use betterfly.Relations.Pending.{
  IsKeyed, IsKeyedDb, request_key, expire-IsKeyed, close-IsKeyed, created-IsKeyed, pending_count-le,
}

abbrev KeyedTables : List RelationshipRequest → (ℤ → ℤ → Option Friend) → Type 0
KeyedTables requests friends = IsKeyed requests

closed-IsKeyed :
    (r : RelationshipRequest) (status : Status) (actor : ℤ) (now : ℕ) (db : Db)
    → is_pending status ≡ false
    → Awaits db r
    → IsKeyedDb db
    → IsKeyedDb (close_request r.id status actor now db)
unfolding close_request
closed-IsKeyed r status actor now db c w v =
    close-IsKeyed (has_id r.id) status actor now db.requests c v

carry_out-IsKeyed :
    (r : RelationshipRequest) (now : ℕ) (db db' : Db)
    → IsKeyedDb db
    → carry_out r now db ≡ success db'
    → IsKeyedDb db'
carry_out-IsKeyed r now db db' v h = rw (carry_out-requests r now db h) v

apply-IsKeyed : (op : Operation) (now : ℕ) (db : Db) → IsKeyedDb db → IsKeyedDb (apply op now db)
unfolding apply expire_requests_for_user expire_requests_for_group remove_direct_friend_pair
    update_friend_alias update_friend_notify
apply-IsKeyed (request_friend u v message) now db m =
    friend_request-keeps IsKeyedDb created-IsKeyed u v message now db m
apply-IsKeyed (request_join u g message) now db m =
    join_request-keeps IsKeyedDb created-IsKeyed u g message now db m
apply-IsKeyed (invite actor g u message) now db m =
    invitation-keeps IsKeyedDb created-IsKeyed actor g u message now db m
apply-IsKeyed (resolve actor id kind decision) now db m =
    resolve-keeps IsKeyedDb closed-IsKeyed carry_out-IsKeyed actor id kind decision now db m
apply-IsKeyed (expire_for_user u) now db m =
    expire-IsKeyed (λ r. is_overdue now r && (r.requester == u || r.target == u)) now db.requests m
apply-IsKeyed (expire_for_group g) now db m =
    expire-IsKeyed (λ r. is_overdue now r && r.group == g) now db.requests m
apply-IsKeyed (remove_friend u v) now db m = m
apply-IsKeyed (set_alias u v alias) now db m = m
apply-IsKeyed (set_notify u v notify) now db m = m
apply-IsKeyed (create_group u g name) now db m = create_group-frame KeyedTables _ db m u g name
apply-IsKeyed (rename_group actor g name) now db m =
    group_name-frame KeyedTables _ db m actor g name
apply-IsKeyed (kick actor g u) now db m = kick-frame KeyedTables _ db m actor g u
apply-IsKeyed (transfer actor g u) now db m = transfer-frame KeyedTables _ db m actor g u
apply-IsKeyed (change_role actor g u role) now db m = role-frame KeyedTables _ db m actor g u role
apply-IsKeyed (leave_group g u) now db m = leave-frame KeyedTables _ db m g u
apply-IsKeyed (set_avatar g avatar) now db m = avatar-frame KeyedTables _ db m g avatar

-- After any operations on empty tables, at most one request is pending with a given key: one
-- between two users, whichever of them asked, one of a user to join a group, and one invitation
-- of a user to a group.
pub one_pending_per_key :
    (ops : List (ℕ × Operation)) (k : ActiveKey)
    → length
        (select (λ r. is_pending r.status && request_key r == k) (apply_all ops empty_db).requests)
      ≤ 1
one_pending_per_key ops k =
    let (h, c) = apply_all-keeps IsKeyedDb apply-IsKeyed ops empty_db (tt, λ k. omega arith) in
    omega (arith, c k, pending_count-le k (apply_all ops empty_db).requests h)
