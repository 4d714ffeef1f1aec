-- ===== src/Relations/Requests/Keeps.antt =====
-- What the three functions that make a request can do to the tables: nothing, or what
-- `createPendingRequest` does with their draft.
use betterfly.Prelude.{
  ℕ, ℤ, Text, ◌≡◌, refl, Bool, not, ◌||◌, if-both, arith, ◌==◌, int_eq, is_positive,
}
use betterfly.Relations.Types.{
  RequestType, type_friend, type_group_join, type_group_invite, Outcome, ActiveKey, group_join_key,
  group_invite_key, RelationshipRequest, Db, find_member, undeleted,
}
use betterfly.Relations.Friends.{friendship_active}
use betterfly.Relations.Groups.{can_manage_group, group_role}
use betterfly.Relations.Requests.{
  Draft, friend_draft, join_draft, invite_draft, friend_key_of, create_pending_request,
  create_friend_request, create_group_join_request, create_group_invitation, is_some_member,
  is_no_group,
}

-- The key of a request, by what it asks for.
abbrev pub key_of : RequestType → ℤ → ℤ → ℤ → ActiveKey
key_of type_friend requester target group = friend_key_of requester target
key_of type_group_join requester target group = group_join_key group requester
key_of type_group_invite requester target group = group_invite_key group target

abbrev pub draft_key : Draft → ActiveKey
draft_key d = key_of d.request_type d.requester d.target d.group

pub create_pending-groups :
    (d : Draft) (now : ℕ) (db : Db) → (create_pending_request d now db).1.groups ≡ db.groups
unfolding create_pending_request
create_pending-groups d now db = ground arith

pub create_pending-members :
    (d : Draft) (now : ℕ) (db : Db) → (create_pending_request d now db).1.members ≡ db.members
unfolding create_pending_request
create_pending-members d now db = ground arith

pub create_pending-friends :
    (d : Draft) (now : ℕ) (db : Db) → (create_pending_request d now db).1.friends ≡ db.friends
unfolding create_pending_request
create_pending-friends d now db = ground arith

module _ (P : Db → Type 0)
    (creates : (d : Draft) (now : ℕ) (db : Db)
      → d.key ≡ draft_key d
      → P db
      → P (create_pending_request d now db).1) where
  pub friend_request-keeps :
      (u v : ℤ) (message : Text) (now : ℕ) (db : Db)
      → P db
      → P (create_friend_request u v message now db).1
  unfolding create_friend_request
  friend_request-keeps u v message now db p =
      let Q : Outcome (RelationshipRequest × Bool) × Db → Type 0 = λ z. P z.1 in
      if-both Q (not (is_positive u) || not (is_positive v) || u == v) (λ e. p)
        λ e.
          if-both Q (friendship_active db u v) (λ e. p)
            λ e. creates (friend_draft u v message) now db refl p

  pub join_request-keeps :
      (u g : ℤ) (message : Text) (now : ℕ) (db : Db)
      → P db
      → P (create_group_join_request u g message now db).1
  unfolding create_group_join_request
  join_request-keeps u g message now db p =
      let Q : Outcome (RelationshipRequest × Bool) × Db → Type 0 = λ z. P z.1 in
      if-both Q (is_some_member (find_member db g u)) (λ e. p)
        λ e.
          if-both Q (is_no_group (undeleted (db.groups g))) (λ e. p)
            λ e. creates (join_draft u g message) now db refl p

  pub invitation-keeps :
      (actor g u : ℤ) (message : Text) (now : ℕ) (db : Db)
      → P db
      → P (create_group_invitation actor g u message now db).1
  unfolding create_group_invitation
  invitation-keeps actor g u message now db p =
      let Q : Outcome (RelationshipRequest × Bool) × Db → Type 0 = λ z. P z.1 in
      if-both Q (not (can_manage_group (group_role db g actor))) (λ e. p)
        λ e.
          if-both Q (is_some_member (find_member db g u)) (λ e. p)
            λ e. creates (invite_draft actor g u message) now db refl p
