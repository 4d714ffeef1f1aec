-- ===== src/Relations/Groups.antt =====
-- Groups and their members: shared/db/util_group.go, and the membership functions of
-- shared/db/util_relationship.go. Each function is one transaction, which a refusal rolls back.
use betterfly.Prelude.{
  ℕ, ℤ, String, Bool, true, false, not, ◌&&◌, ◌||◌, Option, none, some, List, [], ◌∷◌, ◌++◌, select,
  first, modify_where, ltb, ◌==◌, int_eq, nat_eq, int_ltb, is_positive, length, if◌then◌else◌,
}
use betterfly.Relations.Types.{
  Role, role_owner, role_admin, role_member, relation_forbidden, relation_not_found,
  relation_invalid_state, Outcome, success, failure, Group, GroupMember, Db, has_user, find_member,
  undeleted, put_group,
}

-- `newGroupMember`.
abbrev pub new_group_member : ℤ → Role → ℕ → GroupMember
new_group_member u role now = record { user = u; role = role; joined_at = now; update_time = now }

-- `groupMemberRoleUpdates`.
abbrev pub appointed : Role → ℕ → GroupMember → GroupMember
appointed role now m = record m { role = role; update_time = now }

abbrev pub set_role : ℤ → Role → ℕ → List GroupMember → List GroupMember
set_role u role now = modify_where (has_user u) (appointed role now)

abbrev pub delete_member : ℤ → List GroupMember → List GroupMember
delete_member u = select (λ m. not (has_user u m))

-- `groupRoleTx`.
abbrev pub role_of : Option GroupMember → Option Role
role_of none = none
role_of (some m) = some m.role

abbrev pub group_role : Db → ℤ → ℤ → Option Role
group_role db g u = role_of (find_member db g u)

-- `canManageGroup` on what `groupRoleTx` found.
abbrev pub can_manage_group : Option Role → Bool
can_manage_group (some role_owner) = true
can_manage_group (some role_admin) = true
can_manage_group _ = false

abbrev pub is_owner : Role → Bool
is_owner role_owner = true
is_owner _ = false

abbrev pub is_plain_member : Role → Bool
is_plain_member role_member = true
is_plain_member _ = false

-- `canKickGroupMember`, of an actor who manages the group.
abbrev pub can_kick_group_member : Option Role → Role → Bool
can_kick_group_member none target = false
can_kick_group_member (some actor) target =
    if not (can_manage_group (some actor)) || is_owner target
    then false
    else is_owner actor || is_plain_member target

-- `canChangeGroupMemberRole`.
abbrev pub can_change_group_member_role : Option Role → Role → Role → Bool
can_change_group_member_role none target role = false
can_change_group_member_role (some actor) target role =
    is_owner actor && not (is_owner target) && not (is_owner role)

-- `UPDATE groups SET update_time`.
abbrev pub touch : ℕ → Option Group → Option Group
touch now none = none
touch now (some group) = some (record group { update_time = now })

-- `addGroupMemberTx`: one who is a member already stays as they are.
abbrev pub joined : ℤ → ℕ → List GroupMember → List GroupMember
joined u now members = elim (first (has_user u) members) [
  | none ↦ members ++ new_group_member u role_member now ∷ []
  | some m ↦ members
]

unfoldable pub add_group_member : ℤ → ℤ → ℕ → Db → Outcome Db
add_group_member g u now db = elim (undeleted (db.groups g)) [
  | none ↦ failure relation_not_found
  | some group ↦ success (put_group g (touch now (some group)) (joined u now (db.members g)) db)
]

-- The rows that `CreateGroupWithOwnerWithDB` writes.
abbrev pub founded : ℤ → String → ℕ → Option Group → Group
founded u name now none = record {
  name = name;
  avatar = "";
  owner = u;
  is_delete = false;
  update_time = now;
}
founded u name now (some group) = record group {
  name = name;
  owner = u;
  is_delete = false;
  update_time = now;
}

abbrev pub owner_joined : ℤ → ℕ → List GroupMember → List GroupMember
owner_joined u now members = elim (first (has_user u) members) [
  | none ↦ members ++ new_group_member u role_owner now ∷ []
  | some m ↦ set_role u role_owner now members
]

-- `CreateGroupWithOwnerWithDB`: whether the group was there already.
unfoldable pub create_group_with_owner : ℤ → ℤ → String → ℕ → Db → Bool × Db
create_group_with_owner u g name now db = elim (undeleted (db.groups g)) [
  | some group ↦ (true, db)
  | none ↦ (
    false,
    put_group g (some (founded u name now (db.groups g))) (owner_joined u now (db.members g)) db,
  )
]

-- `KickGroupMemberByWithDB`.
unfoldable pub kick_group_member : ℤ → ℤ → ℤ → ℕ → Db → Outcome ℕ × Db
kick_group_member actor g u now db =
    if not (can_manage_group (group_role db g actor))
    then (failure relation_forbidden, db)
    else (elim (find_member db g u) [
      | none ↦ (failure relation_not_found, db)
      | some target ↦
          if not (can_kick_group_member (group_role db g actor) target.role)
          then (failure relation_forbidden, db)
          else (
            success now,
            put_group g (touch now (db.groups g)) (delete_member u (db.members g)) db,
          )
    ])

-- `UpdateGroupMemberRoleByWithDB`; a role that is none of the three is refused as an owner's is.
unfoldable pub update_group_member_role : ℤ → ℤ → ℤ → Role → ℕ → Db → Outcome ℕ × Db
update_group_member_role actor g u role now db =
    if is_owner role
    then (failure relation_invalid_state, db)
    else if not (can_manage_group (group_role db g actor))
    then (failure relation_forbidden, db)
    else (elim (find_member db g u) [
      | none ↦ (failure relation_not_found, db)
      | some target ↦
          if not (can_change_group_member_role (group_role db g actor) target.role role)
          then (failure relation_forbidden, db)
          else (
            success now,
            put_group g (touch now (db.groups g)) (set_role u role now (db.members g)) db,
          )
    ])

-- The order in which a successor is chosen: administrators first, then by update time and user.
abbrev pub rank : Role → ℕ
rank role_admin = 0
rank _ = 1

unfoldable pub precedes : GroupMember → GroupMember → Bool
precedes a b =
    ltb (rank a.role) (rank b.role)
    || rank a.role == rank b.role
      && (ltb a.update_time b.update_time
          || a.update_time == b.update_time && int_ltb a.user b.user)

unfoldable pub least : GroupMember → List GroupMember → GroupMember
least m [] = m
least m (x ∷ xs) = least (if precedes x m then x else m) xs

abbrev pub least_of : List GroupMember → Option GroupMember
least_of [] = none
least_of (m ∷ ms) = some (least m ms)

unfoldable pub successor : ℤ → List GroupMember → Option GroupMember
successor u members = least_of (delete_member u members)

-- The rows of a group after its owner has left, or another member.
unfoldable pub left_by : ℤ → ℕ → Group → List GroupMember → Group × List GroupMember
left_by u now group members =
    if group.owner == u
    then (elim (successor u members) [
      | none ↦ (record group { is_delete = true; update_time = now }, delete_member u members)
      | some s ↦ (
        record group { owner = s.user; update_time = now },
        delete_member u (set_role s.user role_owner now members),
      )
    ])
    else (record group { update_time = now }, delete_member u members)

-- `RemoveUserFromGroupWithDB`: whether the group was there, and whether the user was a member.
unfoldable pub remove_user_from_group : ℤ → ℤ → ℕ → Db → (Bool × Bool) × Db
remove_user_from_group g u now db = elim (undeleted (db.groups g)) [
  | none ↦ ((false, false), db)
  | some group ↦ elim (find_member db g u) [
    | none ↦ ((true, false), db)
    | some m ↦
        let rows = left_by u now group (db.members g) in
        ((true, true), put_group g (some rows.0) rows.1 db)
  ]
]

-- `UpdateGroupAvatarWithDB`: whether there was such a group.
unfoldable pub update_group_avatar : ℤ → String → ℕ → Db → Bool × Db
update_group_avatar g avatar now db = elim (undeleted (db.groups g)) [
  | none ↦ (false, db)
  | some group ↦ (
    true,
    put_group g (some (record group { avatar = avatar; update_time = now })) (db.members g) db,
  )
]

-- `UpdateGroupNameByWithDB`.
unfoldable pub update_group_name : ℤ → ℤ → String → ℕ → Db → Outcome ℕ × Db
update_group_name actor g name now db = elim (undeleted (db.groups g)) [
  | none ↦ (failure relation_not_found, db)
  | some group ↦
      if not (can_manage_group (group_role db g actor)) then (failure relation_forbidden, db) else (
        success now,
        put_group g (some (record group { name = name; update_time = now })) (db.members g) db,
      )
]

-- The members after a transfer: the target owns the group, and the owner before administers it.
abbrev pub transferred_members : ℤ → ℤ → ℕ → List GroupMember → List GroupMember
transferred_members actor u now members =
    set_role actor role_admin now (set_role u role_owner now members)

abbrev pub owner_count : List GroupMember → ℕ
owner_count members = length (select (λ m. is_owner m.role) members)

abbrev pub owns : Option GroupMember → Bool
owns none = false
owns (some m) = is_owner m.role

-- `TransferGroupOwnerWithDB`: the group's name and the owner before.
unfoldable pub transfer_group_owner : ℤ → ℤ → ℤ → ℕ → Db → Outcome (String × ℤ) × Db
transfer_group_owner actor g u now db =
    if not (is_positive actor) || not (is_positive g) || not (is_positive u) || actor == u
    then (failure relation_invalid_state, db)
    else (elim (undeleted (db.groups g)) [
      | none ↦ (failure relation_not_found, db)
      | some group ↦
          if not (group.owner == actor) || not (owns (find_member db g actor))
          then (failure relation_invalid_state, db)
          else (elim (find_member db g u) [
            | none ↦ (failure relation_not_found, db)
            | some target ↦
                let members = transferred_members actor u now (db.members g) in
                if not (owner_count members == 1 && owns (first (has_user u) members))
                then (failure relation_invalid_state, db)
                else (
                  success (group.name, actor),
                  put_group g (some (record group { owner = u; update_time = now })) members db,
                )
          ])
    ])
