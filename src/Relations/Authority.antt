-- ===== src/Relations/Authority.antt =====
-- Who may do what: the resolution of requests, and changes of a group's members.
mod Decision
use betterfly.Prelude.{
  ℕ, ℤ, ◌<◌, ◌≡◌, ◌≢◌, refl, ◌⊎◌, inl, inr, true, false, Option, none, some, first, arith, int_eq,
  nat_eq, Option-cases,
}
use betterfly.Relations.Types.{
  RequestType, type_friend, type_group_join, type_group_invite, Status, status_accepted, Role,
  role_owner, role_admin, role_member, success, RelationshipRequest, GroupMember, Db, find_member,
  put_group, update_time_of,
}
use betterfly.Relations.Groups.{
  touch, delete_member, add_group_member, group_role, can_manage_group, can_kick_group_member,
  kick_group_member,
}
use betterfly.Relations.Friends.{add_direct_friend_pair}
use betterfly.Relations.Requests.{is_pending, has_id}
use betterfly.Relations.Resolve.{
  same_type, same_status, is_cancelled, group_request_user, is_resolution_decision, close_request,
}
use betterfly.Relations.Authority.Decision.{MayDecide}

-- The request's row says who decided, what and when, and it holds its key no more.
abbrev pub Closed : RelationshipRequest → ℤ → Status → ℕ → Db → Type 0
Closed r actor decision now db' =
    first (has_id r.id) db'.requests
    ≡ some (record r {
      status = decision;
      active_key = none;
      resolved_at = some now;
      resolved_by = actor;
    })

-- What acceptance makes of friends and members.
abbrev pub Granted : RelationshipRequest → ℕ → Db → Db → Type 0
Granted r now db db' =
    (r.request_type ≡ type_friend)
      × (db' ≡ add_direct_friend_pair r.requester r.target (update_time_of now) db)
    ⊎ (r.request_type ≢ type_friend)
      × (add_group_member r.group (group_request_user r) (update_time_of now) db ≡ success db')

-- What a successful resolution of a request makes of the tables.
abbrev pub Resolved : RelationshipRequest → ℤ → Status → ℕ → Db → Db → Type 0
Resolved r actor decision now db db' =
    Closed r actor decision now db'
    × ((same_status decision status_accepted ≡ false)
          × (db' ≡ close_request r.id decision actor now db)
        ⊎ ((granted : Db) × Granted r now db granted
            × (decision ≡ status_accepted)
            × (db' ≡ close_request r.id status_accepted actor now granted)))

abbrev pub Resolvable : RelationshipRequest → ℤ → RequestType → Status → ℕ → Db → Db → Type 0
Resolvable r actor kind decision now db db' =
    (same_type r.request_type kind ≡ true)
    × (is_resolution_decision decision ≡ true)
    × ((is_pending r.status ≡ false)
          × (same_status r.status decision ≡ true)
          × (r.resolved_by ≡ actor)
          × (db' ≡ db)
        ⊎ (is_pending r.status ≡ true)
          × (now < r.expires_at)
          × MayDecide actor r decision db
          × Resolved r actor decision now db db')

-- The actor's rank suffices, and the target's is not the owner's.
abbrev pub Outranks : Option Role → Role → Type 0
Outranks actor target =
    (target ≢ role_owner)
    × ((actor ≡ some role_owner) ⊎ (actor ≡ some role_admin) × (target ≡ role_member))

Outranks-ok :
    (actor : Option Role) (target : Role)
    → can_manage_group actor ≡ true
    → can_kick_group_member actor target ≡ true
    → Outranks actor target
Outranks-ok none target h k = cc
Outranks-ok (some role_owner) role_owner h k = cc
Outranks-ok (some role_owner) role_admin h k = (λ e. cc, inl refl)
Outranks-ok (some role_owner) role_member h k = (λ e. cc, inl refl)
Outranks-ok (some role_admin) role_owner h k = cc
Outranks-ok (some role_admin) role_admin h k = cc
Outranks-ok (some role_admin) role_member h k = (λ e. cc, inr (refl, refl))
Outranks-ok (some role_member) target h k = cc

-- A member who is removed by another ranked below them: an owner removes any member but the owner,
-- an administrator plain members only, a plain member or an outsider nobody; the member's rows go,
-- and those of other groups and other members stay.
pub kick_needs_rank :
    (actor g u : ℤ) (now : ℕ) (db : Db) {t : ℕ}
    → (kick_group_member actor g u now db).0 ≡ success t
    → (target : GroupMember) × (find_member db g u ≡ some target)
      × Outranks (group_role db g actor) target.role
      × ((kick_group_member actor g u now db).1
          ≡ put_group g (touch now (db.groups g)) (delete_member u (db.members g)) db)
unfolding kick_group_member
kick_needs_rank actor g u now db h = elim (Option-cases (find_member db g u)) [
  | inl e ↦ ground arith
  | inr (target, e) ↦ (
    target,
    e,
    Outranks-ok (group_role db g actor) target.role (ground arith) (ground arith),
    ground arith,
  )
]
