-- ===== src/Relations/Authority/Decision.antt =====
-- Who may take which decision on a request: `canResolveRequest` of shared/db/util_relationship.go.
use betterfly.Prelude.{
  ℤ, ◌≡◌, ◌≢◌, refl, ◌⊎◌, inl, inr, true, false, Option, none, some, int_eq, int_beq_iff, nat_eq,
}
use betterfly.Relations.Types.{
  RequestType, type_friend, type_group_join, type_group_invite, Status, status_pending,
  status_accepted, status_rejected, status_cancelled, status_expired, Role, role_owner, role_admin,
  role_member, RelationshipRequest, Db,
}
use betterfly.Relations.Groups.{group_role, can_manage_group}
use betterfly.Relations.Resolve.{is_cancelled, can_resolve_request}

-- The actor is an owner or an administrator of the group.
abbrev pub Manages : Db → ℤ → ℤ → Type 0
Manages db g actor =
    (group_role db g actor ≡ some role_owner) ⊎ (group_role db g actor ≡ some role_admin)

-- Who may take a decision: the requester cancels; a friend request or an invitation is accepted or
-- rejected by its target, a request to join by a manager of the group.
abbrev pub MayDecide : ℤ → RelationshipRequest → Status → Db → Type 0
MayDecide actor r decision db =
    (decision ≡ status_cancelled) × (actor ≡ r.requester)
    ⊎ (decision ≢ status_cancelled) × (r.request_type ≢ type_group_join) × (actor ≡ r.target)
    ⊎ (decision ≢ status_cancelled) × (r.request_type ≡ type_group_join) × Manages db r.group actor

manages :
    (db : Db) (g actor : ℤ) → can_manage_group (group_role db g actor) ≡ true → Manages db g actor
manages db g actor h = go (group_role db g actor) refl h
  where
    go :
        (o : Option Role)
        → group_role db g actor ≡ o
        → can_manage_group o ≡ true
        → Manages db g actor
    go none e h' = cc h'
    go (some role_owner) e h' = inl e
    go (some role_admin) e h' = inr e
    go (some role_member) e h' = cc h'

allowed_by_kind :
    (actor : ℤ) (r : RelationshipRequest) (decision : Status) (db : Db) (kind : RequestType)
    → r.request_type ≡ kind
    → decision ≢ status_cancelled
    → is_cancelled decision ≡ false
    → can_resolve_request actor r decision db ≡ true
    → MayDecide actor r decision db
unfolding can_resolve_request
allowed_by_kind actor r decision db type_friend e n c h =
    inr (inl (n, (λ j. cc (e, j)), (int_beq_iff actor r.target).0 (rw (c, e) at h)))
allowed_by_kind actor r decision db type_group_invite e n c h =
    inr (inl (n, (λ j. cc (e, j)), (int_beq_iff actor r.target).0 (rw (c, e) at h)))
allowed_by_kind actor r decision db type_group_join e n c h =
    inr (inr (n, e, manages db r.group actor (rw (c, e) at h)))

pub allowed :
    (actor : ℤ) (r : RelationshipRequest) (decision : Status) (db : Db)
    → can_resolve_request actor r decision db ≡ true
    → MayDecide actor r decision db
unfolding can_resolve_request
allowed actor r status_cancelled db h = inl (refl, (int_beq_iff actor r.requester).0 h)
allowed actor r status_pending db h = allowed_by_kind actor r _ db _ refl (λ e. cc e) refl h
allowed actor r status_accepted db h = allowed_by_kind actor r _ db _ refl (λ e. cc e) refl h
allowed actor r status_rejected db h = allowed_by_kind actor r _ db _ refl (λ e. cc e) refl h
allowed actor r status_expired db h = allowed_by_kind actor r _ db _ refl (λ e. cc e) refl h
