-- ===== src/Relations/Friendship.antt =====
-- Friendship goes both ways, under any sequence of operations.
use betterfly.Prelude.{
  ℕ, ℤ, ◌≡◌, refl, sym, ap, ◌∙◌, inl, inr, true, false, ◌&&◌, Option, none, some, List, arith, ◌==◌,
  int_eq, int_beq_iff, if◌then◌else◌, Bool-cases,
}
use betterfly.Relations.Types.{RelationshipRequest, Friend, success, Db, empty_db}
use betterfly.Relations.Friends.{
  put_friend, is_active, friendship_active, befriended, if_active, unfriended,
  add_direct_friend_pair, remove_direct_friend_pair, update_friend_alias, update_friend_notify,
}
use betterfly.Relations.Groups.{add_group_member}
use betterfly.Relations.Frames.{
  create_group-frame, group_name-frame, kick-frame, transfer-frame, role-frame, leave-frame,
  avatar-frame,
}
use betterfly.Relations.Requests.{
  Draft, create_pending_request, expire_requests_for_user, expire_requests_for_group,
}
use betterfly.Relations.Requests.Keeps.{
  draft_key, create_pending-friends, friend_request-keeps, join_request-keeps, invitation-keeps,
}
use betterfly.Relations.Resolve.{carry_out, close_request}
use betterfly.Relations.Resolve.Keeps.{carry_out-cases, resolve-keeps}
use betterfly.Relations.Operations.{
  Operation, request_friend, request_join, invite, resolve, expire_for_user, expire_for_group,
  remove_friend, set_alias, set_notify, create_group, rename_group, kick, transfer, change_role,
  leave_group, set_avatar, apply, apply_all, apply_all-keeps,
}

abbrev pub IsMutual : (ℤ → ℤ → Option Friend) → Type 0
IsMutual friends = (u v : ℤ) → is_active (friends u v) ≡ is_active (friends v u)

abbrev pub IsMutualDb : Db → Type 0
IsMutualDb db = IsMutual db.friends

-- Whether a row is active after a write to one row.
active-put :
    (u v : ℤ) (row : Option Friend) (db : Db) (a b : ℤ)
    → is_active ((put_friend u v row db).friends a b)
      ≡ (if a == u && b == v then is_active row else is_active (db.friends a b))
active-put u v row db a b = elim (Bool-cases (a == u)) [
  | inr e ↦ rw e refl
  | inl e ↦ elim (Bool-cases (b == v)) [
    | inl f ↦ rw e (rw f refl)
    | inr f ↦ rw e (rw f (ap (λ x. is_active (db.friends x b)) (sym ((int_beq_iff a u).0 e))))
  ]
]

-- Writing two rows of a pair, both active or neither.
pair-IsMutual :
    (u v : ℤ) (first second : Option Friend) (db : Db)
    → is_active first ≡ is_active second
    → IsMutualDb db
    → IsMutualDb (put_friend v u second (put_friend u v first db))
pair-IsMutual u v first second db same m a b =
    rw (active-put v u second (put_friend u v first db) a b) (
      rw (active-put v u second (put_friend u v first db) b a) (
        rw (active-put u v first db a b)
          (rw (active-put u v first db b a) (ground (arith, same, m a b)))))

-- Writing a row that is as active as it was.
touch-IsMutual :
    (u v : ℤ) (row : Option Friend) (db : Db)
    → is_active row ≡ is_active (db.friends u v)
    → IsMutualDb db
    → IsMutualDb (put_friend u v row db)
touch-IsMutual u v row db same m a b = rw (active-same a b) (rw (active-same b a) (m a b))
  where
    active-same :
        (a b : ℤ) → is_active ((put_friend u v row db).friends a b) ≡ is_active (db.friends a b)
    active-same a b = active-put u v row db a b ∙ (elim (Bool-cases (a == u && b == v)) [
      | inr e ↦ rw e refl
      | inl e ↦
          let left : a ≡ u = (int_beq_iff a u).0 (ground arith) in
          let right : b ≡ v = (int_beq_iff b v).0 (ground arith) in
          rw e (same ∙ (rw left (rw right refl)))
    ])

if_active-same :
    (f : Friend → Friend) (o : Option Friend)
    → ((row : Friend) → (f row).is_delete ≡ row.is_delete)
    → is_active (if_active f o) ≡ is_active o
if_active-same f none h = refl
if_active-same f (some row) h = ground (arith, h row)

unfriended-inactive :
    (now : ℕ) (o : Option Friend) → is_active (if_active (unfriended now) o) ≡ false
unfriended-inactive now none = refl
unfriended-inactive now (some row) = ground arith

befriended-active : (now : ℕ) (o : Option Friend) → is_active (some (befriended now o)) ≡ true
befriended-active now none = refl
befriended-active now (some row) = refl

pub add_pair-IsMutual :
    (u v : ℤ) (now : ℕ) (db : Db) → IsMutualDb db → IsMutualDb (add_direct_friend_pair u v now db)
unfolding add_direct_friend_pair
add_pair-IsMutual u v now db =
    pair-IsMutual u v _ _ db (befriended-active now _ ∙ sym (befriended-active now _))

remove_pair-IsMutual :
    (u v : ℤ) (now : ℕ) (db : Db)
    → IsMutualDb db
    → IsMutualDb (remove_direct_friend_pair u v now db).1
unfolding remove_direct_friend_pair
remove_pair-IsMutual u v now db =
    pair-IsMutual u v _ _ db (unfriended-inactive now _ ∙ sym (unfriended-inactive now _))

member-friends :
    (g u : ℤ) (now : ℕ) (db : Db) {db' : Db}
    → add_group_member g u now db ≡ success db'
    → db'.friends ≡ db.friends
unfolding add_group_member
member-friends g u now db h = ground arith

carry_out-IsMutual :
    (r : RelationshipRequest) (now : ℕ) (db db' : Db)
    → IsMutualDb db
    → carry_out r now db ≡ success db'
    → IsMutualDb db'
carry_out-IsMutual r now db db' m h = elim (carry_out-cases r now db h) [
  | inl (kind, e) ↦ rw e (add_pair-IsMutual r.requester r.target _ db m)
  | inr (kind, e) ↦ rw (member-friends _ _ _ db e) m
]

created-IsMutual :
    (d : Draft) (now : ℕ) (db : Db)
    → d.key ≡ draft_key d
    → IsMutualDb db
    → IsMutualDb (create_pending_request d now db).1
created-IsMutual d now db e m = rw (create_pending-friends d now db) m

abbrev IsMutualTables : List RelationshipRequest → (ℤ → ℤ → Option Friend) → Type 0
IsMutualTables requests friends = IsMutual friends

apply-IsMutual : (op : Operation) (now : ℕ) (db : Db) → IsMutualDb db → IsMutualDb (apply op now db)
unfolding apply close_request expire_requests_for_user expire_requests_for_group update_friend_alias
    update_friend_notify
apply-IsMutual (request_friend u v message) now db m =
    friend_request-keeps IsMutualDb created-IsMutual u v message now db m
apply-IsMutual (request_join u g message) now db m =
    join_request-keeps IsMutualDb created-IsMutual u g message now db m
apply-IsMutual (invite actor g u message) now db m =
    invitation-keeps IsMutualDb created-IsMutual actor g u message now db m
apply-IsMutual (resolve actor id kind decision) now db m =
    resolve-keeps IsMutualDb (λ r status actor now db c w p. p) carry_out-IsMutual actor id kind
      decision now db m
apply-IsMutual (expire_for_user u) now db m = m
apply-IsMutual (expire_for_group g) now db m = m
apply-IsMutual (remove_friend u v) now db m = remove_pair-IsMutual u v _ db m
apply-IsMutual (set_alias u v alias) now db m =
    touch-IsMutual u v _ db (if_active-same _ (db.friends u v) (λ row. refl)) m
apply-IsMutual (set_notify u v notify) now db m =
    touch-IsMutual u v _ db (if_active-same _ (db.friends u v) (λ row. refl)) m
apply-IsMutual (create_group u g name) now db m = create_group-frame IsMutualTables _ db m u g name
apply-IsMutual (rename_group actor g name) now db m =
    group_name-frame IsMutualTables _ db m actor g name
apply-IsMutual (kick actor g u) now db m = kick-frame IsMutualTables _ db m actor g u
apply-IsMutual (transfer actor g u) now db m = transfer-frame IsMutualTables _ db m actor g u
apply-IsMutual (change_role actor g u role) now db m =
    role-frame IsMutualTables _ db m actor g u role
apply-IsMutual (leave_group g u) now db m = leave-frame IsMutualTables _ db m g u
apply-IsMutual (set_avatar g avatar) now db m = avatar-frame IsMutualTables _ db m g avatar

-- After any operations on empty tables, a user is another's friend exactly if the other is theirs.
pub friendship_stays_mutual :
    (ops : List (ℕ × Operation)) (u v : ℤ)
    → friendship_active (apply_all ops empty_db) u v
      ≡ friendship_active (apply_all ops empty_db) v u
unfolding friendship_active
friendship_stays_mutual ops = apply_all-keeps IsMutualDb apply-IsMutual ops empty_db (λ u v. refl)
