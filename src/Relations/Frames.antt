-- ===== src/Relations/Frames.antt =====
-- What the operations leave alone.
use betterfly.Prelude.{ℕ, ℤ, String, ◌≡◌, Option, List, arith, int_eq}
use betterfly.Relations.Types.{RelationshipRequest, Friend, Role, Db}
use betterfly.Relations.Groups.{
  create_group_with_owner, kick_group_member, update_group_member_role, remove_user_from_group,
  update_group_avatar, update_group_name, transfer_group_owner,
}

-- The transactions on groups leave the requests and the friends alone, and so whatever can be said
-- of these.
module _ (P : List RelationshipRequest → (ℤ → ℤ → Option Friend) → Type 0) (now : ℕ) (db : Db)
    (h : P db.requests db.friends) where
  abbrev Held : Db → Type 0
  Held db' = P db'.requests db'.friends

  same-Held : (db' : Db) → db'.requests ≡ db.requests → db'.friends ≡ db.friends → Held db'
  same-Held db' r f = rw r (rw f h)

  pub create_group-frame :
      (u g : ℤ) (name : String) → Held (create_group_with_owner u g name now db).1
  unfolding create_group_with_owner
  create_group-frame u g name =
      same-Held (create_group_with_owner u g name now db).1 (ground arith) (ground arith)

  pub group_name-frame : (u g : ℤ) (name : String) → Held (update_group_name u g name now db).1
  unfolding update_group_name
  group_name-frame u g name =
      same-Held (update_group_name u g name now db).1 (ground arith) (ground arith)

  pub kick-frame : (a g u : ℤ) → Held (kick_group_member a g u now db).1
  unfolding kick_group_member
  kick-frame a g u = same-Held (kick_group_member a g u now db).1 (ground arith) (ground arith)

  pub transfer-frame : (a g u : ℤ) → Held (transfer_group_owner a g u now db).1
  unfolding transfer_group_owner
  transfer-frame a g u =
      same-Held (transfer_group_owner a g u now db).1 (ground arith) (ground arith)

  pub role-frame : (a g u : ℤ) (r : Role) → Held (update_group_member_role a g u r now db).1
  unfolding update_group_member_role
  role-frame a g u r =
      same-Held (update_group_member_role a g u r now db).1 (ground arith) (ground arith)

  pub leave-frame : (g u : ℤ) → Held (remove_user_from_group g u now db).1
  unfolding remove_user_from_group
  leave-frame g u = same-Held (remove_user_from_group g u now db).1 (ground arith) (ground arith)

  pub avatar-frame : (g : ℤ) (avatar : String) → Held (update_group_avatar g avatar now db).1
  unfolding update_group_avatar
  avatar-frame g avatar =
      same-Held (update_group_avatar g avatar now db).1 (ground arith) (ground arith)
