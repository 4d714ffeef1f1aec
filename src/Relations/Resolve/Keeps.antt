-- ===== src/Relations/Resolve/Keeps.antt =====
-- What a resolution can do to the tables: close a pending request, after carrying it out where it
-- is accepted.
use betterfly.Prelude.{
  ℕ, ℤ, ◌≡◌, ◌≢◌, refl, ap, ◌∙◌, ◌⊎◌, inl, inr, true, false, not, some, List, [], ◌∷◌, first,
  if-both, arith, nat_eq, Option-cases, leb,
}
use betterfly.Relations.Types.{
  RequestType, type_friend, update_time_of, Status, status_pending, status_accepted,
  status_rejected, status_expired, RelationError, Outcome, success, failure, RelationshipRequest,
  Db,
}
use betterfly.Relations.Groups.{add_group_member}
use betterfly.Relations.Friends.{add_direct_friend_pair}
use betterfly.Relations.Requests.{is_pending, has_id}
use betterfly.Relations.Resolve.{
  group_request_user, same_type, same_status, is_resolution_decision, can_resolve_request,
  carry_out, close_request, reread, resolve_again, decide, resolve_found, resolve_request,
}

pub reread-same : (id : ℕ) (db : Db) → (reread id db).1 ≡ db
reread-same id db = elim (Option-cases (first (has_id id) db.requests)) [
  | inl e ↦ rw (reread, e) refl
  | inr (r, e) ↦ rw (reread, e) refl
]

pub Outcome-cases :
    {A : Type 0} (o : Outcome A)
    → ((e : RelationError) × (o ≡ failure e)) ⊎ ((a : A) × (o ≡ success a))
Outcome-cases (success a) = inr (a, refl)
Outcome-cases (failure e) = inl (e, refl)

-- Carrying a request out leaves the requests alone.
pub carry_out-requests :
    (r : RelationshipRequest) (now : ℕ) (db : Db) {db' : Db}
    → carry_out r now db ≡ success db'
    → db'.requests ≡ db.requests
unfolding carry_out add_group_member add_direct_friend_pair
carry_out-requests r now db h = ground arith

-- It makes two users friends, or one user a member.
pub carry_out-cases :
    (r : RelationshipRequest) (now : ℕ) (db : Db) {db' : Db}
    → carry_out r now db ≡ success db'
    → (r.request_type ≡ type_friend)
        × (db' ≡ add_direct_friend_pair r.requester r.target (update_time_of now) db)
      ⊎ (r.request_type ≢ type_friend)
        × (add_group_member r.group (group_request_user r) (update_time_of now) db ≡ success db')
unfolding carry_out
carry_out-cases r now db h = ground arith

-- The request is there, and pending.
abbrev pub Awaits : Db → RelationshipRequest → Type 0
Awaits db r = (first (has_id r.id) db.requests ≡ some r) × (is_pending r.status ≡ true)

decided :
    (decision : Status)
    → not (is_resolution_decision decision) ≡ false
    → is_pending decision ≡ false
decided status_pending h = cc
decided status_accepted h = refl
decided status_rejected h = refl
decided Status.status_cancelled h = refl
decided status_expired h = cc

pub first-id :
    (id : ℕ) (rs : List RelationshipRequest) {r : RelationshipRequest}
    → first (has_id id) rs ≡ some r
    → r.id ≡ id
first-id id [] h = cc
first-id id (x ∷ xs) {r} h = ground (arith, first-id id xs {r = r})

pub resolve_again-same :
    (actor : ℤ) (decision : Status) (r : RelationshipRequest) (db : Db)
    → (resolve_again actor decision r db).1 ≡ db
unfolding resolve_again
resolve_again-same actor decision r db = ground (arith, reread-same r.id db)

module _ (P : Db → Type 0)
    (closes : (r : RelationshipRequest) (status : Status) (actor : ℤ) (now : ℕ) (db : Db)
      → is_pending status ≡ false
      → Awaits db r
      → P db
      → P (close_request r.id status actor now db))
    (carries : (r : RelationshipRequest) (now : ℕ) (db db' : Db)
      → P db
      → carry_out r now db ≡ success db'
      → P db') where
  decide-keeps :
      (actor : ℤ) (decision : Status) (r : RelationshipRequest) (now : ℕ) (db : Db)
      → Awaits db r
      → P db
      → P (decide actor decision r now db).1
  unfolding decide
  decide-keeps actor decision r now db w p =
      let Q : Outcome RelationshipRequest × Db → Type 0 = λ z. P z.1 in
      if-both Q (not (is_resolution_decision decision)) (λ bad. p)
        λ sound.
          if-both Q (not (same_status decision status_accepted))
            (λ other.
              rw (reread-same r.id (close_request r.id decision actor now db))
                (closes r decision actor now db (decided decision sound) w p))
            λ accepted. elim (Outcome-cases (carry_out r now db)) [
              | inl (e, h) ↦ rw h p
              | inr (db', h) ↦ rw h (
                  rw (reread-same r.id (close_request r.id status_accepted actor now db')) (
                    closes r status_accepted actor now db' refl
                      (rw (carry_out-requests r now db h) w.0, w.1) (carries r now db db' p h)))
            ]

  found-keeps :
      (actor : ℤ) (kind : RequestType) (decision : Status) (r : RelationshipRequest) (now : ℕ)
      (db : Db)
      → first (has_id r.id) db.requests ≡ some r
      → P db
      → P (resolve_found actor kind decision r now db).1
  unfolding resolve_found
  found-keeps actor kind decision r now db f p =
      let Q : Outcome RelationshipRequest × Db → Type 0 = λ z. P z.1 in
      if-both Q (not (same_type r.request_type kind)) (λ other. p)
        λ same.
          if-both Q (not (is_pending r.status))
            (λ done. rw (resolve_again-same actor decision r db) p)
            λ pending.
              let w : Awaits db r = (f, ground arith) in
              if-both Q (leb r.expires_at now)
                (λ late. closes r status_expired actor now db refl w p)
                λ in_time.
                  if-both Q (not (can_resolve_request actor r decision db)) (λ bad. p)
                    λ may. decide-keeps actor decision r now db w p

  pub resolve-keeps :
      (actor : ℤ) (id : ℕ) (kind : RequestType) (decision : Status) (now : ℕ) (db : Db)
      → P db
      → P (resolve_request actor id kind decision now db).1
  unfolding resolve_request
  resolve-keeps actor id kind decision now db p =
      elim (Option-cases (first (has_id id) db.requests)) [
        | inl e ↦ rw (resolve_request, e) p
        | inr (r, e) ↦
            let same : r.id ≡ id = first-id id db.requests e in
            rw (resolve_request, e)
              (found-keeps actor kind decision r now db
                (ap (λ i. first (has_id i) db.requests) same ∙ e) p)
      ]
