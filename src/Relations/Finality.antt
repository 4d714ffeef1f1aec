-- ===== src/Relations/Finality.antt =====
-- A request that has been closed stays as it is.
use betterfly.Prelude.{
  ℕ, ℤ, ◌≡◌, refl, sym, ap, ◌∙◌, inl, inr, Bool, false, ◌&&◌, ◌||◌, Option, some, List, [], ◌∷◌,
  ◌++◌, first, modify_where, arith, ◌==◌, int_eq, nat_eq, nat_beq_iff, Bool-cases, Option-cases,
}
use betterfly.Relations.Types.{Status, success, active_key_eq, RelationshipRequest, Friend, Db}
use betterfly.Relations.Friends.{
  remove_direct_friend_pair, update_friend_alias, update_friend_notify,
}
use betterfly.Relations.Requests.{
  Draft, is_pending, has_id, holds_key, is_overdue, expired_at, expire_active_key, pending_request,
  create_pending_request, expire_requests_for_user, expire_requests_for_group,
}
use betterfly.Relations.Requests.Keeps.{
  draft_key, friend_request-keeps, join_request-keeps, invitation-keeps,
}
use betterfly.Relations.Resolve.{carry_out, closed, close_request}
use betterfly.Relations.Resolve.Keeps.{Awaits, carry_out-requests, first-id, resolve-keeps}
use betterfly.Relations.Operations.{
  Operation, request_friend, request_join, invite, resolve, expire_for_user, expire_for_group,
  remove_friend, set_alias, set_notify, create_group, rename_group, kick, transfer, change_role,
  leave_group, set_avatar, apply, apply_all, apply_all-keeps,
}
use betterfly.Relations.Frames.{
  create_group-frame, group_name-frame, kick-frame, transfer-frame, role-frame, leave-frame,
  avatar-frame,
}

-- An update that keeps every id leaves a row that it does not select.
first-modify_where :
    (id : ℕ) (r : RelationshipRequest) (p : RelationshipRequest → Bool)
    (f : RelationshipRequest → RelationshipRequest) (rs : List RelationshipRequest)
    → ((x : RelationshipRequest) → (f x).id ≡ x.id)
    → p r ≡ false
    → first (has_id id) rs ≡ some r
    → first (has_id id) (modify_where p f rs) ≡ some r
first-modify_where id r p f [] same out h = cc
first-modify_where id r p f (x ∷ xs) same out h = elim (Bool-cases (has_id id x)) [
  | inl e ↦
      let it : x ≡ r = some-injective (rw e at h) in
      let left_out : p x ≡ false = rw it out in rw (modify_where, left_out) (rw e (ap some it))
  | inr e ↦
      let rest = first-modify_where id r p f xs same out (rw e at h) in
      elim (Bool-cases (p x)) [
        | inr n ↦ rw (modify_where, n) (rw e rest)
        | inl y ↦ rw (modify_where, y) (rw (same x) (rw e rest))
      ]
]
  where
    some-injective :
        {a b : RelationshipRequest} → ◌≡◌ {A = Option RelationshipRequest} (some a) (some b) → a ≡ b
    some-injective e = cc

first-append :
    (id : ℕ) (r x : RelationshipRequest) (rs : List RelationshipRequest)
    → first (has_id id) rs ≡ some r
    → first (has_id id) (rs ++ x ∷ []) ≡ some r
first-append id r x [] h = cc
first-append id r x (y ∷ ys) h = elim (Bool-cases (has_id id y)) [
  | inl e ↦ rw e (rw e at h)
  | inr e ↦ rw e (first-append id r x ys (rw e at h))
]

module _ (id : ℕ) (r : RelationshipRequest) (done : is_pending r.status ≡ false) where
  abbrev Stays : Db → Type 0
  Stays db = first (has_id id) db.requests ≡ some r

  abbrev StaysIn : List RelationshipRequest → (ℤ → ℤ → Option Friend) → Type 0
  StaysIn requests friends = first (has_id id) requests ≡ some r

  created-Stays :
      (d : Draft) (now : ℕ) (db : Db)
      → d.key ≡ draft_key d
      → Stays db
      → Stays (create_pending_request d now db).1
  unfolding create_pending_request
  created-Stays d now db same h =
      let rs = expire_active_key d.key now db.requests in
      let kept : first (has_id id) rs ≡ some r =
        first-modify_where id r (λ x. holds_key d.key x && is_overdue now x) (expired_at now)
          db.requests (λ x. refl) (ground (arith, done)) h in
      elim (Option-cases (first (holds_key d.key) rs)) [
        | inr (x, e) ↦ rw (create_pending_request, e) kept
        | inl e ↦
            rw (create_pending_request, e)
              (first-append id r (pending_request d db.next_id now) rs kept)
      ]

  closed-Stays :
      (x : RelationshipRequest) (status : Status) (actor : ℤ) (now : ℕ) (db : Db)
      → is_pending status ≡ false
      → Awaits db x
      → Stays db
      → Stays (close_request x.id status actor now db)
  unfolding close_request
  closed-Stays x status actor now db c (there, pending) h =
      first-modify_where id r (has_id x.id) (closed status actor now) db.requests (λ y. refl)
        (elim (Bool-cases (has_id x.id r)) [
          | inr e ↦ e
          | inl e ↦
              let i : r.id ≡ x.id = (nat_beq_iff r.id x.id).0 e in
              let look : first (has_id x.id) db.requests ≡ first (has_id id) db.requests =
                ap (λ j. first (has_id j) db.requests) (sym i ∙ first-id id db.requests h) in
              cc (look, there, h, pending, done)
        ])
        h

  carried-Stays :
      (x : RelationshipRequest) (now : ℕ) (db db' : Db)
      → Stays db
      → carry_out x now db ≡ success db'
      → Stays db'
  carried-Stays x now db db' h e = rw (carry_out-requests x now db e) h

  apply-Stays : (op : Operation) (now : ℕ) (db : Db) → Stays db → Stays (apply op now db)
  unfolding apply expire_requests_for_user expire_requests_for_group remove_direct_friend_pair
      update_friend_alias update_friend_notify
  apply-Stays (request_friend u v message) now db m =
      friend_request-keeps Stays created-Stays u v message now db m
  apply-Stays (request_join u g message) now db m =
      join_request-keeps Stays created-Stays u g message now db m
  apply-Stays (invite actor g u message) now db m =
      invitation-keeps Stays created-Stays actor g u message now db m
  apply-Stays (resolve actor i kind decision) now db m =
      resolve-keeps Stays closed-Stays carried-Stays actor i kind decision now db m
  apply-Stays (expire_for_user u) now db m =
      first-modify_where id r (λ x. is_overdue now x && (x.requester == u || x.target == u))
        (expired_at now) db.requests (λ x. refl) (ground (arith, done)) m
  apply-Stays (expire_for_group g) now db m =
      first-modify_where id r (λ x. is_overdue now x && x.group == g) (expired_at now) db.requests
        (λ x. refl) (ground (arith, done)) m
  apply-Stays (remove_friend u v) now db m = m
  apply-Stays (set_alias u v alias) now db m = m
  apply-Stays (set_notify u v notify) now db m = m
  apply-Stays (create_group u g name) now db m = create_group-frame StaysIn _ db m u g name
  apply-Stays (rename_group actor g name) now db m = group_name-frame StaysIn _ db m actor g name
  apply-Stays (kick actor g u) now db m = kick-frame StaysIn _ db m actor g u
  apply-Stays (transfer actor g u) now db m = transfer-frame StaysIn _ db m actor g u
  apply-Stays (change_role actor g u role) now db m = role-frame StaysIn _ db m actor g u role
  apply-Stays (leave_group g u) now db m = leave-frame StaysIn _ db m g u
  apply-Stays (set_avatar g avatar) now db m = avatar-frame StaysIn _ db m g avatar

-- A request that is accepted, rejected, cancelled or expired is the same row, in every field, after
-- any further operations.
pub closed_request_is_final :
    (ops : List (ℕ × Operation)) (db : Db) (id : ℕ) (r : RelationshipRequest)
    → first (has_id id) db.requests ≡ some r
    → is_pending r.status ≡ false
    → first (has_id id) (apply_all ops db).requests ≡ some r
closed_request_is_final ops db id r h done =
    apply_all-keeps (Stays id r done) (apply-Stays id r done) ops db h
