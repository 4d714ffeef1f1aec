-- ===== src/Relations/Tests.antt =====
-- Runs of the operations on friends and groups, and the theorems applied to them.
use betterfly.Prelude.{
  All, ◌↔◌, codes, trim_space, is_space, ℕ, ◌≤◌, ℤ, ◌≡◌, refl, Bool, true, ◌&&◌, none, some, List,
  [], ◌∷◌, ◌++◌, length, select, first, ◌==◌, is_positive, int_beq, int_ltb,
}
use betterfly.Relations.Types.{
  role_admin, role_member, type_friend, type_group_join, status_accepted, status_rejected,
  role_owner, failure, relation_forbidden, friend_key, active_key_eq, ActiveKey-discrete,
  RelationshipRequest, GroupMember, Db, empty_db, find_member, put_group,
}
use betterfly.Relations.Friends.{friendship_active, add_direct_friend_pair}
use betterfly.Relations.Groups.{
  new_group_member, group_role, touch, delete_member, add_group_member, create_group_with_owner,
  kick_group_member, remove_user_from_group, left_by, successor, least, precedes,
}
use betterfly.Relations.Requests.{
  is_pending, has_id, create_pending_request, create_friend_request, create_group_join_request,
}
use betterfly.Relations.Resolve.{
  can_resolve_request, close_request, carry_out, resolve_again, decide, resolve_found,
  resolve_request,
}
use betterfly.Relations.Operations.{
  Operation, request_friend, request_join, resolve, create_group, leave_group, apply, apply_all,
}
use betterfly.Relations.Ownership.Groups.{IsOwnedDb}
use betterfly.Relations.Ownership.Runs.{groups_stay_owned}
use betterfly.Relations.Ownership.Succession.{Goes, successor_comes_first}
use betterfly.Relations.Friendship.{friendship_stays_mutual}
use betterfly.Relations.Pending.{request_key}
use betterfly.Relations.Pending.Runs.{one_pending_per_key}
use betterfly.Relations.Finality.{closed_request_is_final}
use betterfly.Relations.Authority.{Outranks, kick_needs_rank}

-- Opens what a run computes with.
opened : Bool
unfolding apply apply_all trim_space is_space create_friend_request create_group_join_request
    create_pending_request create_group_with_owner kick_group_member remove_user_from_group left_by
    successor least precedes resolve_request resolve_found resolve_again decide close_request
    carry_out can_resolve_request add_direct_friend_pair add_group_member friendship_active
    ActiveKey-discrete is_positive int_beq int_ltb
opened = true

-- User 1 asks user 2, who accepts; user 2 asks in turn before that.
abbrev befriending : List (ℕ × Operation)
befriending =
    (10, request_friend (ℤ.pos 1) (ℤ.pos 2) (codes "hello "))
    ∷ (20, request_friend (ℤ.pos 2) (ℤ.pos 1) (codes "hi"))
    ∷ (30, resolve (ℤ.pos 2) 1 type_friend status_accepted)
    ∷ []

-- User 1 founds group 7, which user 2 joins.
abbrev founding : List (ℕ × Operation)
founding =
    (10, create_group (ℤ.pos 1) (ℤ.pos 7) "seven")
    ∷ (20, request_join (ℤ.pos 2) (ℤ.pos 7) [])
    ∷ (30, resolve (ℤ.pos 1) 1 type_group_join status_accepted)
    ∷ []

abbrev asked : Db
asked = apply_all ((10, request_friend (ℤ.pos 1) (ℤ.pos 2) (codes "hello ")) ∷ []) empty_db

abbrev befriended_db : Db
befriended_db = apply_all befriending empty_db

abbrev group_db : Db
group_db = apply_all founding empty_db

friends_now : friendship_active befriended_db (ℤ.pos 2) (ℤ.pos 1) ≡ true
unfolding opened
friends_now = refl

-- The second request between the two is the first one.
asked_once : length befriended_db.requests ≡ 1
unfolding opened
asked_once = refl

-- The requester cannot accept.
not_by_requester :
    (resolve_request (ℤ.pos 1) 1 type_friend status_accepted 20 asked).0
    ≡ failure relation_forbidden
unfolding opened
not_by_requester = refl

-- The owner leaves, and the other member owns the group.
succeeds :
    group_role (apply (leave_group (ℤ.pos 7) (ℤ.pos 1)) 40 group_db) (ℤ.pos 7) (ℤ.pos 2)
    ≡ some role_owner
unfolding opened
succeeds = refl

groups_stay_owned_example :
    IsOwnedDb (apply_all (founding ++ (40, leave_group (ℤ.pos 7) (ℤ.pos 1)) ∷ []) empty_db)
groups_stay_owned_example =
    groups_stay_owned (founding ++ (40, leave_group (ℤ.pos 7) (ℤ.pos 1)) ∷ [])

friendship_stays_mutual_example :
    friendship_active befriended_db (ℤ.pos 1) (ℤ.pos 2)
    ≡ friendship_active befriended_db (ℤ.pos 2) (ℤ.pos 1)
friendship_stays_mutual_example = friendship_stays_mutual befriending (ℤ.pos 1) (ℤ.pos 2)

one_pending_per_key_example :
    length (
      select
        (λ r. is_pending r.status && request_key r == friend_key (ℤ.pos 1) (ℤ.pos 2))
        (apply_all befriending empty_db).requests)
    ≤ 1
one_pending_per_key_example = one_pending_per_key befriending (friend_key (ℤ.pos 1) (ℤ.pos 2))

abbrev accepted_request : RelationshipRequest
accepted_request = record {
  id = 1;
  request_type = type_friend;
  requester = ℤ.pos 1;
  target = ℤ.pos 2;
  group = ℤ.pos 0;
  message = codes "hello";
  status = status_accepted;
  active_key = none;
  created_at = 10;
  expires_at = 604_800_000_000_010;
  resolved_at = some 30;
  resolved_by = ℤ.pos 2;
}

closed_request_is_final_example :
    first
      (has_id 1)
      (apply_all
        ((50, resolve (ℤ.pos 2) 1 type_friend status_rejected) ∷ [])
        befriended_db).requests
    ≡ some accepted_request
unfolding opened
closed_request_is_final_example =
    closed_request_is_final ((50, resolve (ℤ.pos 2) 1 type_friend status_rejected) ∷ [])
      befriended_db 1 accepted_request refl refl

kick_needs_rank_example :
    (target : GroupMember) × (find_member group_db (ℤ.pos 7) (ℤ.pos 2) ≡ some target)
    × Outranks (group_role group_db (ℤ.pos 7) (ℤ.pos 1)) target.role
    × ((kick_group_member (ℤ.pos 1) (ℤ.pos 7) (ℤ.pos 2) 40 group_db).1
        ≡ put_group
            (ℤ.pos 7)
            (touch 40 (group_db.groups (ℤ.pos 7)))
            (delete_member (ℤ.pos 2) (group_db.members (ℤ.pos 7)))
            group_db)
unfolding opened
kick_needs_rank_example = kick_needs_rank (ℤ.pos 1) (ℤ.pos 7) (ℤ.pos 2) 40 group_db {t = 40} refl

-- Two members beside the owner, of whom the administrator is the later one.
abbrev three_members : List GroupMember
three_members =
    new_group_member (ℤ.pos 1) role_owner 10
    ∷ new_group_member (ℤ.pos 2) role_member 20
    ∷ new_group_member (ℤ.pos 3) role_admin 30
    ∷ []

administrator_first :
    successor (ℤ.pos 1) three_members ≡ some (new_group_member (ℤ.pos 3) role_admin 30)
unfolding opened
administrator_first = refl

successor_comes_first_example :
    ((s : GroupMember)
      → successor (ℤ.pos 1) three_members ≡ some s
      → All (Goes s) (delete_member (ℤ.pos 1) three_members))
    × ((successor (ℤ.pos 1) three_members ≡ none) ↔ (delete_member (ℤ.pos 1) three_members ≡ []))
successor_comes_first_example = successor_comes_first (ℤ.pos 1) three_members
