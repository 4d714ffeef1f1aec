-- ===== src/Relations/Ownership/Transactions.antt =====
-- The remaining transactions on groups keep every group owned: foundation, joining, leaving, a new
-- name or avatar, and the transfer of a group.
use betterfly.Prelude.{
  ℕ, ℤ, String, ◌≡◌, ◌≢◌, refl, ◌⊎◌, inl, inr, true, false, Option, none, some, List, [], arith,
  ◌==◌, int_eq, int_beq_iff, Bool-cases, Option-cases,
}
use betterfly.Relations.Types.{success, Group, GroupMember, Db, find_member, undeleted, put_group}
use betterfly.Relations.Groups.{
  touch, joined, owner_joined, founded, transferred_members, left_by, successor, add_group_member,
  create_group_with_owner, remove_user_from_group, update_group_avatar, update_group_name,
  transfer_group_owner,
}
use betterfly.Relations.Ownership.Rows.{OwnedBy}
use betterfly.Relations.Ownership.Changes.{
  OwnedBy-delete, OwnedBy-joined, OwnedBy-founded, OwnedBy-transferred, OwnedBy-succeeded,
  successor-none,
}
use betterfly.Relations.Ownership.Groups.{
  GroupRows, IsOwnedDb, put_group-IsOwned, OwnedBy-undeleted, members-undeleted,
}

pub create-IsOwned :
    (u g : ℤ) (name : String) (now : ℕ) (db : Db)
    → IsOwnedDb db
    → IsOwnedDb (create_group_with_owner u g name now db).1
unfolding create_group_with_owner
create-IsOwned u g name now db v = elim (Option-cases (undeleted (db.groups g))) [
  | inr (group, e) ↦ rw (create_group_with_owner, e) v
  | inl e ↦
      rw (create_group_with_owner, e)
        (put_group-IsOwned g _ _ db
          (rw (members-undeleted _ _ e (v g)) (founded-rows (db.groups g))) v)
]
  where
    founded-rows :
        (o : Option Group) → GroupRows (some (founded u name now o)) (owner_joined u now [])
    founded-rows none = inr (refl, OwnedBy-founded u now)
    founded-rows (some x) = inr (refl, OwnedBy-founded u now)

pub join-IsOwned :
    (g u : ℤ) (now : ℕ) (db db' : Db)
    → add_group_member g u now db ≡ success db'
    → IsOwnedDb db
    → IsOwnedDb db'
unfolding add_group_member
join-IsOwned g u now db db' h v = elim (Option-cases (undeleted (db.groups g))) [
  | inl e ↦ cc (e, h)
  | inr (group, e) ↦
      let (same, l, k) = OwnedBy-undeleted _ _ e (v g) in
      let rows : db' ≡ put_group g (touch now (some group)) (joined u now (db.members g)) db =
        ground arith in
      rw rows (
        put_group-IsOwned g (touch now (some group)) _ db
          (inr (l, OwnedBy-joined group.owner u now (db.members g) k)) v)
]

left-rows :
    (u : ℤ) (now : ℕ) (group : Group) (ms : List GroupMember)
    → group.is_delete ≡ false
    → OwnedBy group.owner ms
    → GroupRows (some (left_by u now group ms).0) (left_by u now group ms).1
unfolding left_by
left-rows u now group ms l k = elim (Bool-cases (group.owner == u)) [
  | inr other ↦ rw other (
      inr
        (l, OwnedBy-delete group.owner u ms (λ same. ground (arith, int_beq_iff group.owner u)) k))
  | inl own ↦ elim (Option-cases (successor u ms)) [
    | inl nobody ↦ rw own (rw nobody (inl (refl, successor-none u ms nobody)))
    | inr (s, chosen) ↦
        let o-owns : OwnedBy u ms = rw⁻¹ ((int_beq_iff group.owner u).0 own) k in
        rw own (rw chosen (inr (l, OwnedBy-succeeded u now ms chosen o-owns)))
  ]
]

pub leave-IsOwned :
    (g u : ℤ) (now : ℕ) (db : Db) → IsOwnedDb db → IsOwnedDb (remove_user_from_group g u now db).1
unfolding remove_user_from_group
leave-IsOwned g u now db v = elim (Option-cases (undeleted (db.groups g))) [
  | inl e ↦ rw (remove_user_from_group, e) v
  | inr (group, e) ↦
      let (same, l, k) = OwnedBy-undeleted _ _ e (v g) in
      elim (Option-cases (find_member db g u)) [
        | inl f ↦ rw (remove_user_from_group, e, f) v
        | inr (m, f) ↦
            rw (remove_user_from_group, e, f)
              ((put_group-IsOwned g _ _ db (left-rows u now group (db.members g) l k) v))
      ]
]

pub avatar-IsOwned :
    (g : ℤ) (avatar : String) (now : ℕ) (db : Db)
    → IsOwnedDb db
    → IsOwnedDb (update_group_avatar g avatar now db).1
unfolding update_group_avatar
avatar-IsOwned g avatar now db v = elim (Option-cases (undeleted (db.groups g))) [
  | inl e ↦ rw (update_group_avatar, e) v
  | inr (group, e) ↦
      let (same, l, k) = OwnedBy-undeleted _ _ e (v g) in
      rw (update_group_avatar, e) (put_group-IsOwned g _ _ db (inr (l, k)) v)
]

name-cases :
    (actor g : ℤ) (name : String) (now : ℕ) (db : Db) {group : Group}
    → undeleted (db.groups g) ≡ some group
    → let db' = (update_group_name actor g name now db).1 in
      (db' ≡ db)
      ⊎ (db'
          ≡ put_group g (some (record group { name = name; update_time = now })) (db.members g) db)
unfolding update_group_name
name-cases actor g name now db e = ground arith

name-none :
    (actor g : ℤ) (name : String) (now : ℕ) (db : Db)
    → undeleted (db.groups g) ≡ none
    → (update_group_name actor g name now db).1 ≡ db
unfolding update_group_name
name-none actor g name now db e = ground arith

pub name-IsOwned :
    (actor g : ℤ) (name : String) (now : ℕ) (db : Db)
    → IsOwnedDb db
    → IsOwnedDb (update_group_name actor g name now db).1
name-IsOwned actor g name now db v = elim (Option-cases (undeleted (db.groups g))) [
  | inl e ↦ rw (name-none actor g name now db e) v
  | inr (group, e) ↦
      let (same, l, k) = OwnedBy-undeleted _ _ e (v g) in
      elim (name-cases actor g name now db e) [
        | inl f ↦ rw f v
        | inr f ↦ rw f (put_group-IsOwned g _ _ db (inr (l, k)) v)
      ]
]

transfer-cases :
    (actor g u : ℤ) (now : ℕ) (db : Db) {group : Group}
    → undeleted (db.groups g) ≡ some group
    → let db' = (transfer_group_owner actor g u now db).1 in
      (db' ≡ db)
      ⊎ (db'
          ≡ put_group g
              (some (record group { owner = u; update_time = now }))
              (transferred_members actor u now (db.members g))
              db)
        × ((actor == u) ≡ false)
        × ((group.owner == actor) ≡ true)
        × (find_member db g u ≢ none)
unfolding transfer_group_owner
transfer-cases actor g u now db e = ground arith

transfer-none :
    (actor g u : ℤ) (now : ℕ) (db : Db)
    → undeleted (db.groups g) ≡ none
    → (transfer_group_owner actor g u now db).1 ≡ db
unfolding transfer_group_owner
transfer-none actor g u now db e = ground arith

pub transfer-IsOwned :
    (actor g u : ℤ) (now : ℕ) (db : Db)
    → IsOwnedDb db
    → IsOwnedDb (transfer_group_owner actor g u now db).1
transfer-IsOwned actor g u now db v = elim (Option-cases (undeleted (db.groups g))) [
  | inl e ↦ rw (transfer-none actor g u now db e) v
  | inr (group, e) ↦
      let (same, l, k) = OwnedBy-undeleted _ _ e (v g) in
      elim (transfer-cases actor g u now db e) [
        | inl f ↦ rw f v
        | inr (f, apart, own, found) ↦ elim (Option-cases (find_member db g u)) [
          | inl missing ↦ absurd (found missing)
          | inr (m, there) ↦ rw f (
              put_group-IsOwned g _ _ db
                (inr (
                  l,
                  OwnedBy-transferred actor u now (db.members g)
                      (λ p. ground (arith, int_beq_iff actor u)) there
                      (rw⁻¹ ((int_beq_iff group.owner actor).0 own) k),
                ))
                v)
        ]
      ]
]
