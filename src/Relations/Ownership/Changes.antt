-- ===== src/Relations/Ownership/Changes.antt =====
-- Each change of the rows of a group leaves it with one owner.
use betterfly.Prelude.{
  ℕ, ℤ, ◌≡◌, ◌≢◌, refl, sym, inl, inr, not, none, some, List, [], ◌∷◌, All, All-select, All-map,
  first, arith, int_eq, int_beq_iff, Bool-cases, Option-cases,
}
use betterfly.Relations.Types.{Role, role_owner, role_admin, role_member, GroupMember, has_user}
use betterfly.Relations.Groups.{
  role_of, new_group_member, set_role, delete_member, joined, owner_joined, transferred_members,
  least, least_of, successor, precedes,
}
use betterfly.Relations.Ownership.Rows.{
  OwnedBy, first-delete_member, first-set_role, first-append, OnlyOwner-append, OnlyOwner-delete,
  OnlyOwner-set_role, first-appointed, OnlyOwner-replaced, OnlyOwner-transferred,
}

pub OwnedBy-delete :
    (o u : ℤ) (ms : List GroupMember) → u ≢ o → OwnedBy o ms → OwnedBy o (delete_member u ms)
OwnedBy-delete o u ms apart (h, k) =
    (rw (first-delete_member o u apart ms) h, OnlyOwner-delete o u ms k)

pub OwnedBy-set_role :
    (o u : ℤ) (role : Role) (now : ℕ) (ms : List GroupMember)
    → u ≢ o
    → role ≢ role_owner
    → OwnedBy o ms
    → OwnedBy o (set_role u role now ms)
OwnedBy-set_role o u role now ms apart n (h, k) =
    (rw (first-set_role o u apart role now ms) h, OnlyOwner-set_role o u role now ms n k)

pub OwnedBy-joined :
    (o u : ℤ) (now : ℕ) (ms : List GroupMember) → OwnedBy o ms → OwnedBy o (joined u now ms)
OwnedBy-joined o u now ms (h, k) = elim (Option-cases (first (has_user u) ms)) [
  | inr (m, e) ↦ rw (joined, e) (h, k)
  | inl e ↦
      let apart : u ≢ o = λ same. cc (same, e, h) in
      rw (joined, e)
        (
          rw (first-append o u apart (new_group_member u role_member now) ms refl) h,
          OnlyOwner-append o (new_group_member u role_member now) ms (λ p. cc) k,
        )
]

pub OwnedBy-founded : (u : ℤ) (now : ℕ) → OwnedBy u (owner_joined u now [])
OwnedBy-founded u now = (rw ((int_beq_iff u u).1 refl) refl, (λ p. refl, tt))

pub OwnedBy-transferred :
    (o u : ℤ) (now : ℕ) (ms : List GroupMember) {m : GroupMember}
    → o ≢ u
    → first (has_user u) ms ≡ some m
    → OwnedBy o ms
    → OwnedBy u (transferred_members o u now ms)
OwnedBy-transferred o u now ms apart found (h, k) = (
  rw (first-set_role u o apart role_admin now (set_role u role_owner now ms))
      (first-appointed u role_owner now ms (λ e. cc (e, found))),
  OnlyOwner-transferred o u now ms k,
)

-- The row is one of the list's.
abbrev IsFound : List GroupMember → GroupMember → Type 0
IsFound ms x = role_of (first (has_user x.user) ms) ≢ none

IsFound-All : (ms : List GroupMember) → All (IsFound ms) ms
IsFound-All [] = tt
IsFound-All (m ∷ ms) = (
  rw ((int_beq_iff m.user m.user).1 refl) (λ e. cc),
  All-map (IsFound ms) (IsFound (m ∷ ms)) ms
      (λ x h. elim (Bool-cases (has_user x.user m)) [ inl e ↦ rw e (λ q. cc) | inr e ↦ rw e h ])
      (IsFound-All ms),
)

abbrev IsOther : ℤ → List GroupMember → GroupMember → Type 0
IsOther o ms x = (x.user ≢ o) × IsFound ms x

IsOther-delete : (o : ℤ) (ms : List GroupMember) → All (IsOther o ms) (delete_member o ms)
IsOther-delete o ms =
    All-select (IsFound ms) (IsOther o ms) (λ m. not (has_user o m)) ms
      (λ x e h. (λ same. ground (arith, int_beq_iff x.user o), h)) (IsFound-All ms)

least-holds :
    (P : GroupMember → Type 0) (m : GroupMember) (ms : List GroupMember)
    → P m
    → All P ms
    → P (least m ms)
unfolding least
least-holds P m [] h hs = h
least-holds P m (x ∷ xs) h (k, ks) = elim (Bool-cases (precedes x m)) [
  | inl e ↦ rw e (least-holds P x xs k ks)
  | inr e ↦ rw e (least-holds P m xs h ks)
]

least_of-holds :
    (P : GroupMember → Type 0) (ms : List GroupMember) {s : GroupMember}
    → least_of ms ≡ some s
    → All P ms
    → P s
least_of-holds P [] e h = cc
least_of-holds P (m ∷ ms) {s} e (h, hs) =
    let same : least m ms ≡ s = cc in rw⁻¹ same (least-holds P m ms h hs)

pub OwnedBy-succeeded :
    (o : ℤ) (now : ℕ) (ms : List GroupMember) {s : GroupMember}
    → successor o ms ≡ some s
    → OwnedBy o ms
    → OwnedBy s.user (delete_member o (set_role s.user role_owner now ms))
unfolding successor
OwnedBy-succeeded o now ms {s} e (h, k) =
    let (apart, found) =
      least_of-holds (IsOther o ms) (delete_member o ms) e (IsOther-delete o ms) in
    (
      rw (first-delete_member s.user o (λ p. apart (sym p)) (set_role s.user role_owner now ms))
          (first-appointed s.user role_owner now ms found),
      OnlyOwner-replaced o s.user now ms k,
    )

pub successor-none :
    (o : ℤ) (ms : List GroupMember) → successor o ms ≡ none → delete_member o ms ≡ []
unfolding successor
successor-none o ms e = nothing_least (delete_member o ms) e
  where
    nothing_least : (xs : List GroupMember) → least_of xs ≡ none → xs ≡ []
    nothing_least [] h = refl
    nothing_least (x ∷ xs) h = cc
