-- ===== src/Relations/Ownership/Succession.antt =====
-- Who succeeds an owner that leaves.
use betterfly.Prelude.{
  ℤ, ◌<◌, ◌≡◌, ◌≢◌, ◌⊎◌, ◌↔◌, refl, inl, inr, true, false, none, some, List, [], ◌∷◌, All, All-map,
  arith, nat_eq, int_eq, int_ltb, Bool-cases,
}
use betterfly.Relations.Types.{Role, role_owner, role_admin, role_member, GroupMember}
use betterfly.Relations.Groups.{delete_member, least, least_of, successor, precedes, rank}

int_ltb_trans : (a b c : ℤ) → int_ltb a b ≡ true → int_ltb b c ≡ true → int_ltb a c ≡ true
unfolding int_ltb
int_ltb_trans a b c h k = ground arith

int_ltb_weaken : (a b c : ℤ) → int_ltb a c ≡ true → int_ltb b c ≡ false → int_ltb a b ≡ true
unfolding int_ltb
int_ltb_weaken a b c h k = ground arith

precedes_trans :
    (a b c : GroupMember) → precedes a b ≡ true → precedes b c ≡ true → precedes a c ≡ true
unfolding precedes
precedes_trans a b c h k = ground (arith, int_ltb_trans a.user b.user c.user)

precedes_weaken :
    (a b c : GroupMember) → precedes a c ≡ true → precedes b c ≡ false → precedes a b ≡ true
unfolding precedes
precedes_weaken a b c h k = ground (arith, int_ltb_weaken a.user b.user c.user)

int_ltb_irrefl : (a : ℤ) → int_ltb a a ≡ false
unfolding int_ltb
int_ltb_irrefl (ℤ.pos n) = ground arith
int_ltb_irrefl (ℤ.negsuc n) = ground arith

precedes_irrefl : (a : GroupMember) → precedes a a ≡ false
unfolding precedes
precedes_irrefl a = ground (arith, int_ltb_irrefl a.user)

abbrev NotBefore : GroupMember → GroupMember → Type 0
NotBefore s m = precedes m s ≡ false

not_before : (a b : GroupMember) → ¬ (precedes a b ≡ true) → precedes a b ≡ false
not_before a b n = elim (Bool-cases (precedes a b)) [ inl p ↦ absurd (n p) | inr p ↦ p ]

-- Nothing that the least is chosen from is before it.
least-NotBefore :
    (m l : GroupMember) (ms : List GroupMember)
    → least m ms ≡ l
    → (precedes m l ≡ false) × All (NotBefore l) ms
unfolding least
least-NotBefore m l [] e = (rw⁻¹ e (precedes_irrefl m), tt)
least-NotBefore m l (x ∷ xs) e = elim (Bool-cases (precedes x m)) [
  | inl before ↦
      let (h, hs) = least-NotBefore x l xs (rw before at e) in
      (not_before m l (λ p. cc (precedes_trans x m l before p, h)), (h, hs))
  | inr level ↦
      let (h, hs) = least-NotBefore m l xs (rw level at e) in
      (h, (not_before x l (λ p. cc (precedes_weaken x m l p h, level)), hs))
]

least_of-NotBefore :
    (ms : List GroupMember) {s : GroupMember} → least_of ms ≡ some s → All (NotBefore s) ms
least_of-NotBefore [] e = cc
least_of-NotBefore (m ∷ ms) {s} e = least-NotBefore m s ms cc

-- The first member's claim is at least the second's: administrators come before plain members, then
-- who was updated earlier, then the smaller user id.
abbrev pub Goes : GroupMember → GroupMember → Type 0
Goes s m =
    (s.role ≡ role_admin) × (m.role ≢ role_admin)
    ⊎ ((s.role ≡ role_admin) ↔ (m.role ≡ role_admin))
      × ((s.update_time < m.update_time)
          ⊎ (s.update_time ≡ m.update_time) × (int_ltb m.user s.user ≡ false))

goes_by_time :
    (s m : GroupMember)
    → rank m.role ≡ rank s.role
    → precedes m s ≡ false
    → (s.update_time < m.update_time)
      ⊎ (s.update_time ≡ m.update_time) × (int_ltb m.user s.user ≡ false)
unfolding precedes
goes_by_time s m same h = ground arith

goes : (s m : GroupMember) (p q : Role) → s.role ≡ p → m.role ≡ q → NotBefore s m → Goes s m
unfolding precedes
goes s m role_admin role_admin e f h = inr ((λ x. f, λ x. e), goes_by_time s m (rw (e, f) refl) h)
goes s m role_admin role_owner e f h = inl (e, λ x. cc (x, f))
goes s m role_admin role_member e f h = inl (e, λ x. cc (x, f))
goes s m role_owner role_admin e f h = cc (rw (precedes, e, f) at h)
goes s m role_member role_admin e f h = cc (rw (precedes, e, f) at h)
goes s m role_owner role_owner e f h =
    inr ((λ x. cc (x, e), λ x. cc (x, f)), goes_by_time s m (rw (e, f) refl) h)
goes s m role_owner role_member e f h =
    inr ((λ x. cc (x, e), λ x. cc (x, f)), goes_by_time s m (rw (e, f) refl) h)
goes s m role_member role_owner e f h =
    inr ((λ x. cc (x, e), λ x. cc (x, f)), goes_by_time s m (rw (e, f) refl) h)
goes s m role_member role_member e f h =
    inr ((λ x. cc (x, e), λ x. cc (x, f)), goes_by_time s m (rw (e, f) refl) h)

-- The successor of an owner who leaves goes before each of the other members or is level with
-- them, in this order: administrators first, then by the time of the last update, then by user id.
-- It exists exactly if the group has other members.
pub successor_comes_first :
    (o : ℤ) (ms : List GroupMember)
    → ((s : GroupMember) → successor o ms ≡ some s → All (Goes s) (delete_member o ms))
      × ((successor o ms ≡ none) ↔ (delete_member o ms ≡ []))
unfolding successor
successor_comes_first o ms = (
  λ s e.
      All-map (NotBefore s) (Goes s) (delete_member o ms)
        (λ m h. goes s m s.role m.role refl refl h) (least_of-NotBefore (delete_member o ms) e),
  (λ e. none_left (delete_member o ms) e, λ e. rw (least_of, e) refl),
)
  where
    none_left : (xs : List GroupMember) → least_of xs ≡ none → xs ≡ []
    none_left [] e = refl
    none_left (x ∷ xs) e = cc
