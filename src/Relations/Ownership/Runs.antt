-- ===== src/Relations/Ownership/Runs.antt =====
-- Groups under any sequence of operations.
use betterfly.Prelude.{ℕ, ◌≡◌, refl, inl, inr, List}
use betterfly.Relations.Types.{RelationshipRequest, success, Db, empty_db, update_time_of}
use betterfly.Relations.Friends.{
  add_direct_friend_pair, remove_direct_friend_pair, update_friend_alias, update_friend_notify,
}
use betterfly.Relations.Requests.{
  Draft, create_pending_request, expire_requests_for_user, expire_requests_for_group,
}
use betterfly.Relations.Requests.Keeps.{
  draft_key, create_pending-groups, create_pending-members, friend_request-keeps,
  join_request-keeps, invitation-keeps,
}
use betterfly.Relations.Resolve.{carry_out, close_request}
use betterfly.Relations.Resolve.Keeps.{carry_out-cases, resolve-keeps}
use betterfly.Relations.Operations.{
  Operation, request_friend, request_join, invite, resolve, expire_for_user, expire_for_group,
  remove_friend, set_alias, set_notify, create_group, rename_group, kick, transfer, change_role,
  leave_group, set_avatar, apply, apply_all, apply_all-keeps,
}
use betterfly.Relations.Ownership.Groups.{IsOwnedDb, kick-IsOwned, role-IsOwned}
use betterfly.Relations.Ownership.Transactions.{
  create-IsOwned, join-IsOwned, leave-IsOwned, avatar-IsOwned, name-IsOwned, transfer-IsOwned,
}

carry_out-IsOwned :
    (r : RelationshipRequest) (now : ℕ) (db db' : Db)
    → IsOwnedDb db
    → carry_out r now db ≡ success db'
    → IsOwnedDb db'
unfolding add_direct_friend_pair
carry_out-IsOwned r now db db' v h = elim (carry_out-cases r now db h) [
  | inl (kind, e) ↦ rw e v
  | inr (kind, e) ↦ join-IsOwned _ _ _ db db' e v
]

created-IsOwned :
    (d : Draft) (now : ℕ) (db : Db)
    → d.key ≡ draft_key d
    → IsOwnedDb db
    → IsOwnedDb (create_pending_request d now db).1
created-IsOwned d now db e v =
    rw (create_pending-groups d now db) (rw (create_pending-members d now db) v)

apply-IsOwned : (op : Operation) (now : ℕ) (db : Db) → IsOwnedDb db → IsOwnedDb (apply op now db)
unfolding apply expire_requests_for_user expire_requests_for_group remove_direct_friend_pair
    update_friend_alias update_friend_notify close_request
apply-IsOwned (request_friend u v message) now db h =
    friend_request-keeps IsOwnedDb created-IsOwned u v message now db h
apply-IsOwned (request_join u g message) now db h =
    join_request-keeps IsOwnedDb created-IsOwned u g message now db h
apply-IsOwned (invite actor g u message) now db h =
    invitation-keeps IsOwnedDb created-IsOwned actor g u message now db h
apply-IsOwned (resolve actor id kind decision) now db h =
    resolve-keeps IsOwnedDb (λ r status actor now db c w p. p) carry_out-IsOwned actor id kind
      decision now db h
apply-IsOwned (expire_for_user u) now db h = h
apply-IsOwned (expire_for_group g) now db h = h
apply-IsOwned (remove_friend u v) now db h = h
apply-IsOwned (set_alias u v alias) now db h = h
apply-IsOwned (set_notify u v notify) now db h = h
apply-IsOwned (create_group u g name) now db h = create-IsOwned u g name (update_time_of now) db h
apply-IsOwned (rename_group actor g name) now db h =
    name-IsOwned actor g name (update_time_of now) db h
apply-IsOwned (kick actor g u) now db h = kick-IsOwned actor g u (update_time_of now) db h
apply-IsOwned (transfer actor g u) now db h = transfer-IsOwned actor g u (update_time_of now) db h
apply-IsOwned (change_role actor g u role) now db h =
    role-IsOwned actor g u role (update_time_of now) db h
apply-IsOwned (leave_group g u) now db h = leave-IsOwned g u (update_time_of now) db h
apply-IsOwned (set_avatar g avatar) now db h = avatar-IsOwned g avatar (update_time_of now) db h

-- After any operations on empty tables, each group that is not deleted has its recorded owner as a
-- member with the owner's role, no other of its members has that role, and a group that is deleted
-- or does not exist has no members.
pub groups_stay_owned : (ops : List (ℕ × Operation)) → IsOwnedDb (apply_all ops empty_db)
groups_stay_owned ops = apply_all-keeps IsOwnedDb apply-IsOwned ops empty_db (λ g. refl)
