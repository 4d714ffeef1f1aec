-- ===== src/Relations/Ownership/Groups.antt =====
-- The transactions on groups keep every group that is not deleted owned by one of its members, and
-- every other group without members.
use betterfly.Prelude.{
  ℕ, ℤ, ◌≡◌, ◌≢◌, refl, ap, ◌⊎◌, inl, inr, true, false, Option, none, some, List, [], first, arith,
  ◌==◌, int_eq, Bool-cases,
}
use betterfly.Relations.Types.{
  Role, role_owner, Group, GroupMember, Db, has_user, find_member, undeleted, put_group,
}
use betterfly.Relations.Groups.{
  touch, role_of, is_owner, owns, set_role, delete_member, kick_group_member,
  update_group_member_role,
}
use betterfly.Relations.Ownership.Rows.{OwnedBy}
use betterfly.Relations.Ownership.Changes.{OwnedBy-delete, OwnedBy-set_role}

-- The rows of one group.
abbrev pub GroupRows : Option Group → List GroupMember → Type 0
GroupRows none ms = ms ≡ []
GroupRows (some group) ms =
    (group.is_delete ≡ true) × (ms ≡ []) ⊎ (group.is_delete ≡ false) × OwnedBy group.owner ms

abbrev pub IsOwned : (ℤ → Option Group) → (ℤ → List GroupMember) → Type 0
IsOwned groups members = (g : ℤ) → GroupRows (groups g) (members g)

abbrev pub IsOwnedDb : Db → Type 0
IsOwnedDb db = IsOwned db.groups db.members

pub put_group-IsOwned :
    (g : ℤ) (o : Option Group) (ms : List GroupMember) (db : Db)
    → GroupRows o ms
    → IsOwnedDb db
    → IsOwnedDb (put_group g o ms db)
put_group-IsOwned g o ms db h v j = elim (Bool-cases (j == g)) [
  | inl e ↦ rw e h
  | inr e ↦ rw e (v j)
]

-- A group that is not deleted is owned by a member.
pub OwnedBy-undeleted :
    (o : Option Group) (ms : List GroupMember) {group : Group}
    → undeleted o ≡ some group
    → GroupRows o ms
    → (o ≡ some group) × (group.is_delete ≡ false) × OwnedBy group.owner ms
OwnedBy-undeleted none ms e h = cc
OwnedBy-undeleted (some x) ms {group} e h = elim h [
  | inl (d, n) ↦ ground arith
  | inr (l, k) ↦ ground arith
]

-- A group that is missing or deleted has no members.
pub members-undeleted :
    (o : Option Group) (ms : List GroupMember) → undeleted o ≡ none → GroupRows o ms → ms ≡ []
members-undeleted none ms e h = h
members-undeleted (some x) ms e h = elim h [ inl (d, n) ↦ n | inr (l, k) ↦ ground arith ]

owner-owns : (o : Option GroupMember) → role_of o ≡ some role_owner → owns o ≡ true
owner-owns none h = cc
owner-owns (some m) h = ground arith

not_owner :
    (o u : ℤ) (ms : List GroupMember) → OwnedBy o ms → owns (first (has_user u) ms) ≡ false → u ≢ o
not_owner o u ms (h, k) e same = cc (same, e, owner-owns (first (has_user o) ms) h)

GroupRows-kicked :
    (o : Option Group) (u : ℤ) (now : ℕ) (ms : List GroupMember)
    → owns (first (has_user u) ms) ≡ false
    → GroupRows o ms
    → GroupRows (touch now o) (delete_member u ms)
GroupRows-kicked none u now ms e h = rw h refl
GroupRows-kicked (some x) u now ms e h = elim h [
  | inl (d, n) ↦ inl (d, rw n refl)
  | inr (l, k) ↦ inr (l, OwnedBy-delete x.owner u ms (not_owner x.owner u ms k e) k)
]

GroupRows-role :
    (o : Option Group) (u : ℤ) (role : Role) (now : ℕ) (ms : List GroupMember)
    → owns (first (has_user u) ms) ≡ false
    → is_owner role ≡ false
    → GroupRows o ms
    → GroupRows (touch now o) (set_role u role now ms)
GroupRows-role none u role now ms e n h = rw h refl
GroupRows-role (some x) u role now ms e n h = elim h [
  | inl (d, z) ↦ inl (d, rw z refl)
  | inr (l, k) ↦ inr (
    l,
    OwnedBy-set_role x.owner u role now ms (not_owner x.owner u ms k e) (λ p. cc (ap is_owner p, n))
        k,
  )
]

kick-cases :
    (actor g u : ℤ) (now : ℕ) (db : Db)
    → let db' = (kick_group_member actor g u now db).1 in
      (db' ≡ db)
      ⊎ (db' ≡ put_group g (touch now (db.groups g)) (delete_member u (db.members g)) db)
        × (owns (find_member db g u) ≡ false)
unfolding kick_group_member
kick-cases actor g u now db = ground arith

role-cases :
    (actor g u : ℤ) (role : Role) (now : ℕ) (db : Db)
    → let db' = (update_group_member_role actor g u role now db).1 in
      (db' ≡ db)
      ⊎ (db' ≡ put_group g (touch now (db.groups g)) (set_role u role now (db.members g)) db)
        × (owns (find_member db g u) ≡ false)
        × (is_owner role ≡ false)
unfolding update_group_member_role
role-cases actor g u role now db = ground arith

pub kick-IsOwned :
    (actor g u : ℤ) (now : ℕ) (db : Db)
    → IsOwnedDb db
    → IsOwnedDb (kick_group_member actor g u now db).1
kick-IsOwned actor g u now db v = elim (kick-cases actor g u now db) [
  | inl e ↦ rw e v
  | inr (e, n) ↦ rw e (put_group-IsOwned g _ _ db (GroupRows-kicked _ u now _ n (v g)) v)
]

pub role-IsOwned :
    (actor g u : ℤ) (role : Role) (now : ℕ) (db : Db)
    → IsOwnedDb db
    → IsOwnedDb (update_group_member_role actor g u role now db).1
role-IsOwned actor g u role now db v = elim (role-cases actor g u role now db) [
  | inl e ↦ rw e v
  | inr (e, n, r) ↦ rw e (put_group-IsOwned g _ _ db (GroupRows-role _ u role now _ n r (v g)) v)
]
