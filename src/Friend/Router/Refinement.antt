-- ===== src/Friend/Router/Refinement.antt =====
-- Each handler of the friend service carries out one operation of Relations, or none.
use betterfly.Prelude.{
  ℕ, ℤ, String, ◌≡◌, refl, ◌⊎◌, inl, inr, Bool, true, false, not, Option-cases, ◌||◌, ◌==◌, int_eq,
  string_eq, is_positive, trim, leb, length, codes, if◌then◌else◌,
}
use betterfly.Relations.Types.{
  Db, undeleted, Outcome, success, failure, RelationshipRequest, RequestType, already_related,
  relation_forbidden, relation_not_found, relation_expired, relation_invalid_state,
}
use betterfly.Relations.Groups.{can_manage_group, group_role}
use betterfly.Relations.Operations
use betterfly.Relations.Operations.{Operation, apply, apply_all}
use betterfly.Friend.Requests.{
  Payload, Decision, decision_status, natural, role_of_text, valid_verification_message,
}
use betterfly.Friend.Friends.{
  Answer, handle_remove_direct_friend, handle_update_friend_alias, handle_update_friend_notify,
}
use betterfly.Friend.Groups.{
  renamed, transferred, changed, handle_create_group, handle_query_group,
  handle_update_group_avatar, handle_remove_group_member, handle_update_group_name,
  handle_transfer_group_owner, handle_kick_group_member, handle_update_group_member_role,
}
use betterfly.Friend.Relationships.{
  asked, asked_friend, resolved, handle_add_direct_friend, handle_add_group_member,
  handle_invite_group_member, handle_resolve, handle_query_friend_requests,
  handle_query_group_invitations, handle_query_group_join_requests,
}
use betterfly.Friend.Router.{dispatch}

-- Nothing, or one operation.
abbrev pub Refines : ℕ → Db → Db → Type 0
Refines now db db' = (db' ≡ db) ⊎ ((op : Operation) × (db' ≡ apply op now db))

Fits : ℕ → Db → Answer → Type 0
Fits now db answer = Refines now db answer.1

unchanged : (now : ℕ) (db : Db) (x : Answer) → x.1 ≡ db → Fits now db x
unfolding Fits
unchanged now db x e = inl e

applied : (now : ℕ) (db : Db) (x : Answer) (op : Operation) → x.1 ≡ apply op now db → Fits now db x
unfolding Fits
applied now db x op e = inr (op, e)

-- A guard that refuses leaves the tables.
guarded :
    (now : ℕ) (db : Db) (b : Bool) (x y : Answer)
    → Fits now db x
    → Fits now db y
    → Fits now db (if b then x else y)
guarded now db true x y h k = h
guarded now db false x y h k = k

renamed_db : (actor g : ℤ) (name : String) (o : Outcome ℕ × Db) → (renamed actor g name o).1 ≡ o.1
renamed_db actor g name (failure e, db) = refl
renamed_db actor g name (success t, db) = refl

transferred_db :
    (actor g u : ℤ) (time : ℕ) (o : Outcome (String × ℤ) × Db)
    → (transferred actor g u time o).1 ≡ o.1
transferred_db actor g u time (failure e, db) = refl
transferred_db actor g u time (success (n, p), db) = refl

changed_db :
    (operation : String) (g u : ℤ) (role : String) (o : Outcome ℕ × Db)
    → (changed operation g u role o).1 ≡ o.1
changed_db operation g u role (failure e, db) = refl
changed_db operation g u role (success t, db) = refl

asked_db :
    (operation : String) (o : Outcome (RelationshipRequest × Bool) × Db)
    → (asked operation o).1 ≡ o.1
asked_db operation (success (r, c), db) = refl
asked_db operation (failure e, db) = refl

asked_friend_db : (o : Outcome (RelationshipRequest × Bool) × Db) → (asked_friend o).1 ≡ o.1
asked_friend_db (success (r, c), db) = refl
asked_friend_db (failure already_related, db) = refl
asked_friend_db (failure relation_forbidden, db) = refl
asked_friend_db (failure relation_not_found, db) = refl
asked_friend_db (failure relation_expired, db) = refl
asked_friend_db (failure relation_invalid_state, db) = refl

resolved_db :
    (operation : String) (o : Outcome RelationshipRequest × Db) → (resolved operation o).1 ≡ o.1
resolved_db operation (success r, db) = refl
resolved_db operation (failure e, db) = refl

resolve-Fits :
    (operation : String) (kind : RequestType) (actor id : ℤ) (decision : Decision) (now : ℕ)
    (db : Db)
    → Fits now db (handle_resolve operation kind actor id decision now db)
unfolding handle_resolve apply
resolve-Fits operation kind actor id decision now db =
    elim (Option-cases (decision_status decision)) [
      | inl e ↦ rw (handle_resolve, e) (unchanged now db _ refl)
      | inr (status, e) ↦
          rw (handle_resolve, e)
            (guarded now db (not (is_positive actor) || not (is_positive id)) _ _
              (unchanged now db _ refl)
              (applied now db _ (Operations.resolve actor (natural id) kind status)
                (resolved_db operation _)))
    ]

query-Fits :
    (actor g : ℤ) (save : Bool) (now : ℕ) (db : Db)
    → Fits now db (handle_query_group actor g save db)
unfolding handle_query_group
query-Fits actor g save now db = elim (Option-cases (undeleted (db.groups g))) [
  | inl e ↦
      rw (handle_query_group, e)
        (guarded now db (not (is_positive actor) || not (is_positive g)) _ _
          (unchanged now db _ refl) (unchanged now db _ refl))
  | inr (group, e) ↦
      rw (handle_query_group, e)
        (guarded now db (not (is_positive actor) || not (is_positive g)) _ _
          (unchanged now db _ refl) (unchanged now db _ refl))
]

dispatch-Fits :
    (users : ℤ → Bool) (payload : Payload) (now : ℕ) (db : Db)
    → Fits now db (dispatch users payload now db)
unfolding dispatch handle_remove_direct_friend handle_update_friend_alias
    handle_update_friend_notify handle_create_group handle_update_group_avatar
    handle_remove_group_member handle_update_group_name handle_transfer_group_owner
    handle_kick_group_member handle_update_group_member_role handle_add_direct_friend
    handle_add_group_member handle_invite_group_member handle_query_friend_requests
    handle_query_group_invitations handle_query_group_join_requests apply
dispatch-Fits users (Payload.remove_direct_friend u v) now db =
    guarded now db (not (is_positive u) || not (is_positive v) || u == v) _ _
      (unchanged now db _ refl) (applied now db _ (Operations.remove_friend u v) (refl))
dispatch-Fits users (Payload.update_friend_alias u v alias) now db =
    guarded now db (not (is_positive u) || not (is_positive v)) _ _ (unchanged now db _ refl)
      (applied now db _ (Operations.set_alias u v alias) (refl))
dispatch-Fits users (Payload.update_friend_notify u v b) now db =
    guarded now db (not (is_positive u) || not (is_positive v)) _ _ (unchanged now db _ refl)
      (applied now db _ (Operations.set_notify u v b) (refl))
dispatch-Fits users (Payload.create_group owner g name) now db =
    guarded now db (not (is_positive owner) || not (is_positive g) || name == "") _ _
      (unchanged now db _ refl)
      (guarded now db (not (users owner)) _ _ (unchanged now db _ refl)
        (applied now db _ (Operations.create_group owner g name) (refl)))
dispatch-Fits users (Payload.query_group actor g save) now db = query-Fits actor g save now db
dispatch-Fits users (Payload.update_group_avatar actor g avatar) now db =
    guarded now db (not (is_positive actor) || not (is_positive g) || avatar == "") _ _
      (unchanged now db _ refl)
      (guarded now db (not (can_manage_group (group_role db g actor))) _ _ (unchanged now db _ refl)
        (applied now db _ (Operations.set_avatar g avatar) (refl)))
dispatch-Fits users (Payload.remove_group_member actor g u) now db =
    guarded now db (not (is_positive actor) || not (is_positive g) || not (is_positive u)) _ _
      (unchanged now db _ refl)
      (guarded now db (not (actor == u)) _ _ (unchanged now db _ refl)
        (applied now db _ (Operations.leave_group g u) (refl)))
dispatch-Fits users (Payload.update_group_name actor g name) now db =
    guarded now db
      (not (is_positive actor)
        || not (is_positive g)
        || trim name == ""
        || not (leb (length (codes (trim name))) 100))
      _ _ (unchanged now db _ refl)
      (applied now db _ (Operations.rename_group actor g _) (renamed_db actor g _ _))
dispatch-Fits users (Payload.transfer_group_owner actor g u) now db =
    guarded now db
      (not (is_positive actor) || not (is_positive g) || not (is_positive u) || actor == u) _ _
      (unchanged now db _ refl)
      (applied now db _ (Operations.transfer actor g u) (transferred_db actor g u _ _))
dispatch-Fits users (Payload.add_direct_friend u v message) now db =
    guarded now db
      (not (is_positive u)
        || not (is_positive v)
        || u == v
        || not (valid_verification_message message))
      _ _ (unchanged now db _ refl)
      (guarded now db (not (users u) || not (users v)) _ _ (unchanged now db _ refl)
        (applied now db _ (Operations.request_friend u v message) (asked_friend_db _)))
dispatch-Fits users (Payload.add_group_member u g message) now db =
    guarded now db
      (not (is_positive u) || not (is_positive g) || not (valid_verification_message message)) _ _
      (unchanged now db _ refl)
      (guarded now db (not (users u)) _ _ (unchanged now db _ refl)
        (applied now db _ (Operations.request_join u g message) (asked_db _ _)))
dispatch-Fits users (Payload.invite_group_member actor g u message) now db =
    guarded now db
      (not (is_positive actor)
        || not (is_positive g)
        || not (is_positive u)
        || actor == u
        || not (valid_verification_message message))
      _ _ (unchanged now db _ refl)
      (guarded now db (not (users u)) _ _ (unchanged now db _ refl)
        (applied now db _ (Operations.invite actor g u message) (asked_db _ _)))
dispatch-Fits users (Payload.resolve_friend_request u id decision) now db =
    resolve-Fits _ _ u id decision now db
dispatch-Fits users (Payload.resolve_group_join_request u id decision) now db =
    resolve-Fits _ _ u id decision now db
dispatch-Fits users (Payload.resolve_group_invitation u id decision) now db =
    resolve-Fits _ _ u id decision now db
dispatch-Fits users (Payload.query_friend_requests u outgoing) now db =
    guarded now db (not (is_positive u)) _ _ (unchanged now db _ refl)
      (applied now db _ (Operations.expire_for_user u) refl)
dispatch-Fits users (Payload.query_group_invitations u outgoing) now db =
    guarded now db (not (is_positive u)) _ _ (unchanged now db _ refl)
      (applied now db _ (Operations.expire_for_user u) refl)
dispatch-Fits users (Payload.query_group_join_requests actor g) now db =
    guarded now db (not (is_positive actor) || not (is_positive g)) _ _ (unchanged now db _ refl) (
      guarded now db (not (can_manage_group (group_role db g actor))) _ _ (unchanged now db _ refl)
        (applied now db _ (Operations.expire_for_group g) refl))
dispatch-Fits users (Payload.kick_group_member actor g u) now db =
    guarded now db
      (not (is_positive actor) || not (is_positive g) || not (is_positive u) || actor == u) _ _
      (unchanged now db _ refl)
      (applied now db _ (Operations.kick actor g u) (changed_db _ g u _ _))
dispatch-Fits users (Payload.update_group_member_role actor g u role) now db =
    guarded now db (not (is_positive actor) || not (is_positive g) || not (is_positive u)) _ _
      (unchanged now db _ refl)
      (applied now db _ (Operations.change_role actor g u (role_of_text role))
        (changed_db _ g u role _))

pub dispatch-Refines :
    (users : ℤ → Bool) (payload : Payload) (now : ℕ) (db : Db)
    → Refines now db (dispatch users payload now db).1
unfolding Fits
dispatch-Refines users payload now db = dispatch-Fits users payload now db
