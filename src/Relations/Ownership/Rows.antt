-- ===== src/Relations/Ownership/Rows.antt =====
-- How the operations on the rows of one group keep it owned by one of its members.
use betterfly.Prelude.{
  ℕ, ℤ, ◌≡◌, ◌≢◌, refl, ◌⊎◌, inl, inr, none, some, List, [], ◌∷◌, ◌++◌, All, All-select,
  All-modify_where, first, arith, int_eq, int_beq_iff, Bool-cases,
}
use betterfly.Relations.Types.{Role, role_owner, role_admin, GroupMember, has_user}
use betterfly.Relations.Groups.{role_of, appointed, set_role, delete_member, transferred_members}

-- The user is a member with the owner's role, and no other member has it.
abbrev pub OwnerIs : ℤ → GroupMember → Type 0
OwnerIs u m = m.role ≡ role_owner → m.user ≡ u

abbrev OwnerIn : ℤ → ℤ → GroupMember → Type 0
OwnerIn o u m = m.role ≡ role_owner → (m.user ≡ o) ⊎ (m.user ≡ u)

abbrev pub OnlyOwner : ℤ → List GroupMember → Type 0
OnlyOwner u = All (OwnerIs u)

abbrev pub OwnedBy : ℤ → List GroupMember → Type 0
OwnedBy u ms = (role_of (first (has_user u) ms) ≡ some role_owner) × OnlyOwner u ms

-- The rows of another user do not matter to the owner's.
module _ (o u : ℤ) (apart : u ≢ o) where
  pub first-delete_member :
      (ms : List GroupMember) → first (has_user o) (delete_member u ms) ≡ first (has_user o) ms
  first-delete_member [] = refl
  first-delete_member (m ∷ ms) =
      ground (arith, first-delete_member ms, int_beq_iff m.user u, int_beq_iff m.user o, apart)

  pub first-set_role :
      (role : Role) (now : ℕ) (ms : List GroupMember)
      → first (has_user o) (set_role u role now ms) ≡ first (has_user o) ms
  first-set_role role now [] = refl
  first-set_role role now (m ∷ ms) =
      ground (arith, first-set_role role now ms, int_beq_iff m.user u, int_beq_iff m.user o, apart)

  pub first-append :
      (x : GroupMember) (ms : List GroupMember)
      → x.user ≡ u
      → first (has_user o) (ms ++ x ∷ []) ≡ first (has_user o) ms
  first-append x [] e = ground (arith, int_beq_iff x.user o, apart)
  first-append x (m ∷ ms) e = ground (arith, first-append x ms e)

pub OnlyOwner-append :
    (o : ℤ) (x : GroupMember) (ms : List GroupMember)
    → (x.role ≡ role_owner → x.user ≡ o)
    → OnlyOwner o ms
    → OnlyOwner o (ms ++ x ∷ [])
OnlyOwner-append o x [] n h = (n, tt)
OnlyOwner-append o x (m ∷ ms) n (h, hs) = (h, OnlyOwner-append o x ms n hs)

pub OnlyOwner-delete :
    (o u : ℤ) (ms : List GroupMember) → OnlyOwner o ms → OnlyOwner o (delete_member u ms)
OnlyOwner-delete o u ms = All-select (OwnerIs o) (OwnerIs o) _ ms (λ m e h. h)

pub OnlyOwner-set_role :
    (o u : ℤ) (role : Role) (now : ℕ) (ms : List GroupMember)
    → role ≢ role_owner
    → OnlyOwner o ms
    → OnlyOwner o (set_role u role now ms)
OnlyOwner-set_role o u role now ms n =
    All-modify_where (OwnerIs o) (OwnerIs o) (has_user u) (appointed role now) ms
      (λ m e h p. absurd (n p)) (λ m e h. h)

pub first-appointed :
    (u : ℤ) (role : Role) (now : ℕ) (ms : List GroupMember)
    → role_of (first (has_user u) ms) ≢ none
    → role_of (first (has_user u) (set_role u role now ms)) ≡ some role
first-appointed u role now [] e = absurd (e refl)
first-appointed u role now (m ∷ ms) e = elim (Bool-cases (has_user u m)) [
  | inl h ↦ rw h (rw h refl)
  | inr h ↦ rw h (rw h (first-appointed u role now ms (rw h at e)))
]

-- Once a user is appointed, the rows with the owner's role are theirs and the former owner's.
OnlyOwners-appointed :
    (o u : ℤ) (now : ℕ) (ms : List GroupMember)
    → OnlyOwner o ms
    → All (OwnerIn o u) (set_role u role_owner now ms)
OnlyOwners-appointed o u now ms =
    All-modify_where (OwnerIs o) (OwnerIn o u) (has_user u) (appointed role_owner now) ms
      (λ m e h p. inr ((int_beq_iff m.user u).0 e)) (λ m e h p. inl (h p))

pub OnlyOwner-replaced :
    (o u : ℤ) (now : ℕ) (ms : List GroupMember)
    → OnlyOwner o ms
    → OnlyOwner u (delete_member o (set_role u role_owner now ms))
OnlyOwner-replaced o u now ms h =
    All-select (OwnerIn o u) (OwnerIs u) _ (set_role u role_owner now ms)
      (λ m e k p. ground (arith, k p, int_beq_iff m.user o)) (OnlyOwners-appointed o u now ms h)

pub OnlyOwner-transferred :
    (o u : ℤ) (now : ℕ) (ms : List GroupMember)
    → OnlyOwner o ms
    → OnlyOwner u (transferred_members o u now ms)
OnlyOwner-transferred o u now ms h =
    All-modify_where (OwnerIn o u) (OwnerIs u) (has_user o) (appointed role_admin now)
      (set_role u role_owner now ms) (λ m e k p. cc)
      (λ m e k p. ground (arith, k p, int_beq_iff m.user o)) (OnlyOwners-appointed o u now ms h)
