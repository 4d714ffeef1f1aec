-- ===== src/Relations/Pending.antt =====
-- The key of a pending request is held once: what keeps it so.
pub mod Runs
use betterfly.Prelude.{
  ℕ, suc, ◌+◌, ◌≤◌, ℤ, String, ◌≡◌, refl, sym, ap, ◌∙◌, inl, inr, Bool, true, false, not, ◌&&◌,
  ◌||◌, Option, none, some, List, [], ◌∷◌, ◌++◌, All, All-modify_where, length, select, first,
  modify_where, arith, ◌==◌, int_eq, nat_eq, if◌then◌else◌, Bool-cases, Option-cases,
}
use betterfly.Relations.Types.{
  Status, Role, Outcome, success, ActiveKey, active_key_eq, RelationshipRequest, Db, empty_db,
  update_time_of,
}
use betterfly.Relations.Requests.{
  Draft, is_pending, holds_key, has_id, is_overdue, expired_at, expire_active_key, pending_request,
  create_pending_request, expire_requests_for_user, expire_requests_for_group,
}
use betterfly.Relations.Requests.Keeps.{
  key_of, draft_key, friend_request-keeps, join_request-keeps, invitation-keeps,
}
use betterfly.Relations.Resolve.{carry_out, closed, close_request}
use betterfly.Relations.Resolve.Keeps.{Awaits, carry_out-requests, resolve-keeps}

abbrev pub request_key : RelationshipRequest → ActiveKey
request_key r = key_of r.request_type r.requester r.target r.group

-- A request holds the key of what it asks for while it is pending, and afterwards none.
abbrev pub Keyed : RelationshipRequest → Type 0
Keyed r =
    (is_pending r.status ≡ true → r.active_key ≡ some (request_key r))
    × (is_pending r.status ≡ false → r.active_key ≡ none)

abbrev pub key_count : ActiveKey → List RelationshipRequest → ℕ
key_count k rs = length (select (holds_key k) rs)

abbrev pub IsKeyed : List RelationshipRequest → Type 0
IsKeyed rs = All Keyed rs × ((k : ActiveKey) → key_count k rs ≤ 1)

-- An update that takes the key of what it changes.
key_count-modify :
    (k : ActiveKey) (p : RelationshipRequest → Bool) (f : RelationshipRequest → RelationshipRequest)
    (rs : List RelationshipRequest)
    → ((r : RelationshipRequest) → holds_key k (f r) ≡ false)
    → key_count k (modify_where p f rs) ≤ key_count k rs
key_count-modify k p f [] h = omega arith
key_count-modify k p f (r ∷ rs) h =
    let rest = key_count-modify k p f rs h in
    elim (Bool-cases (p r)) [
      | inl e ↦
          rw (modify_where, e)
            (rw (h r) (elim (Bool-cases (holds_key k r)) [
              | inl i ↦ rw i (omega (arith, rest))
              | inr i ↦ rw i rest
            ]))
      | inr e ↦
          rw (modify_where, e)
            (elim (Bool-cases (holds_key k r)) [
              | inl i ↦ rw i (omega (arith, rest))
              | inr i ↦ rw i rest
            ])
    ]

pub expire-IsKeyed :
    (p : RelationshipRequest → Bool) (now : ℕ) (rs : List RelationshipRequest)
    → IsKeyed rs
    → IsKeyed (modify_where p (expired_at now) rs)
expire-IsKeyed p now rs (h, c) = (
  All-modify_where Keyed Keyed p (expired_at now) rs (λ r e k. ((λ q. cc), (λ q. refl)))
      (λ r e k. k) h,
  λ k. omega (arith, c k, key_count-modify k p (expired_at now) rs (λ r. refl)),
)

pub close-IsKeyed :
    (p : RelationshipRequest → Bool) (status : Status) (actor : ℤ) (now : ℕ)
    (rs : List RelationshipRequest)
    → is_pending status ≡ false
    → IsKeyed rs
    → IsKeyed (modify_where p (closed status actor now) rs)
close-IsKeyed p status actor now rs done (h, c) = (
  All-modify_where Keyed Keyed p (closed status actor now) rs
      (λ r e k. ((λ q. cc (q, done)), (λ q. refl))) (λ r e k. k) h,
  λ k. omega (arith, c k, key_count-modify k p (closed status actor now) rs (λ r. refl)),
)

-- A new request, whose key nobody holds.
key_count-unheld :
    (k : ActiveKey) (rs : List RelationshipRequest)
    → first (holds_key k) rs ≡ none
    → key_count k rs ≡ 0
key_count-unheld k [] h = refl
key_count-unheld k (r ∷ rs) h = elim (Bool-cases (holds_key k r)) [
  | inl e ↦ cc (rw e at h)
  | inr e ↦ rw e (key_count-unheld k rs (rw e at h))
]

key_count-append :
    (k : ActiveKey) (rs : List RelationshipRequest) (r : RelationshipRequest)
    → key_count k (rs ++ r ∷ []) ≡ key_count k rs + (if holds_key k r then 1 else 0)
key_count-append k [] r = elim (Bool-cases (holds_key k r)) [
  | inl e ↦ rw e refl
  | inr e ↦ rw e refl
]
key_count-append k (x ∷ rs) r =
    let rest = key_count-append k rs r in
    elim (Bool-cases (holds_key k x)) [ inl e ↦ rw e (omega (arith, rest)) | inr e ↦ rw e rest ]

All-append :
    (rs : List RelationshipRequest) (r : RelationshipRequest)
    → All Keyed rs
    → Keyed r
    → All Keyed (rs ++ r ∷ [])
All-append [] r h k = (k, tt)
All-append (x ∷ rs) r (h, hs) k = (h, All-append rs r hs k)

abbrev pub IsKeyedDb : Db → Type 0
IsKeyedDb db = IsKeyed db.requests

added-count :
    (key k : ActiveKey) (rs : List RelationshipRequest) (r : RelationshipRequest)
    → r.active_key ≡ some key
    → first (holds_key key) rs ≡ none
    → key_count k rs ≤ 1
    → key_count k (rs ++ r ∷ []) ≤ 1
added-count key k rs r given free c = rw (key_count-append k rs r) (
    rw given (elim (Bool-cases (key == k)) [
      | inr other ↦ rw other (omega (arith, c))
      | inl own ↦
          let same : key ≡ k = (active_key_eq.beq_iff key k).0 own in
          let nobody : key_count k rs ≡ 0 =
            ap (λ x. key_count x rs) (sym same) ∙ key_count-unheld key rs free in
          rw own (omega (arith, nobody))
    ]))

pub created-IsKeyed :
    (d : Draft) (now : ℕ) (db : Db)
    → d.key ≡ draft_key d
    → IsKeyedDb db
    → IsKeyedDb (create_pending_request d now db).1
unfolding create_pending_request
created-IsKeyed d now db same v =
    let rs = expire_active_key d.key now db.requests in
    let (h, c) = expire-IsKeyed (λ r. holds_key d.key r && is_overdue now r) now db.requests v in
    elim (Option-cases (first (holds_key d.key) rs)) [
      | inr (r, e) ↦ rw (create_pending_request, e) (h, c)
      | inl e ↦
          let r = pending_request d db.next_id now in
          rw (create_pending_request, e)
            (
              All-append rs r h ((λ q. ap some same), (λ q. cc)),
              λ k. added-count d.key k rs r refl e (c k),
            )
    ]

-- Pending requests with a key are among those that hold it.
pub pending_count-le :
    (k : ActiveKey) (rs : List RelationshipRequest)
    → All Keyed rs
    → length (select (λ r. is_pending r.status && request_key r == k) rs) ≤ key_count k rs
pending_count-le k [] h = omega arith
pending_count-le k (r ∷ rs) (h, hs) =
    let rest = pending_count-le k rs hs in
    elim (Bool-cases (is_pending r.status && request_key r == k)) [
      | inr e ↦ rw e (elim (Bool-cases (holds_key k r)) [
        | inl i ↦ rw i (omega (arith, rest))
        | inr i ↦ rw i rest
      ])
      | inl e ↦
          let pending : is_pending r.status ≡ true = ground arith in
          let own : (request_key r == k) ≡ true = ground arith in
          let held : holds_key k r ≡ true = rw (holds_key, h.0 pending) own in
          rw e (rw held (omega (arith, rest)))
    ]
