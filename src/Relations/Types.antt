-- ===== src/Relations/Types.antt =====
-- The tables of friends, groups, members and requests: shared/db/models.go, with the constants and
-- errors of shared/db/util_relationship.go. Times are nanoseconds since the epoch, whose texts of a
-- fixed width the database compares; an `update_time` is kept to the second.
use betterfly.Prelude.{
  Text, ℕ, ℤ, ◌/◌, String, ℤ_discrete, Bool, Option, none, some, List, [], Eq, Eq_of_discrete, ◌==◌,
  int_eq, nat_eq, first, if◌then◌else◌, update,
}

pub data RequestType : Type 0 where
  type_friend type_group_join type_group_invite : RequestType

pub data Status : Type 0 where
  status_pending status_accepted status_rejected status_cancelled status_expired : Status

pub data Role : Type 0 where
  role_owner role_admin role_member : Role

pub data RelationError : Type 0 where
  relation_forbidden relation_not_found relation_expired relation_invalid_state : RelationError
  already_related : RelationError

pub data Outcome (A : Type 0) : Type 0 where
  success : A → Outcome A
  failure : RelationError → Outcome A

-- The key that a pending request holds: "friend:lo:hi", "group_join:group:user" and
-- "group_invite:group:user".
pub data ActiveKey : Type 0 where
  friend_key group_join_key group_invite_key : ℤ → ℤ → ActiveKey

unfoldable pub ActiveKey-discrete : Discrete ActiveKey
unfolding ℤ_discrete
ActiveKey-discrete = hlevel ℤ_discrete

instance abbrev pub active_key_eq : Eq ActiveKey
active_key_eq = Eq_of_discrete ActiveKey-discrete

pub record RelationshipRequest : Type 0 where
  pub id : ℕ
  pub request_type : RequestType
  pub requester : ℤ
  pub target : ℤ
  pub group : ℤ
  pub message : Text
  pub status : Status
  pub active_key : Option ActiveKey
  pub created_at : ℕ
  pub expires_at : ℕ
  pub resolved_at : Option ℕ
  pub resolved_by : ℤ

-- The fields of a row of `friends` beside its key, which is the two users.
pub record Friend : Type 0 where
  pub is_notify : Bool
  pub alias : String
  pub is_delete : Bool
  pub update_time : ℕ

-- The fields of a row of `groups` beside its key, the group's id.
pub record Group : Type 0 where
  pub name : String
  pub avatar : String
  pub owner : ℤ
  pub is_delete : Bool
  pub update_time : ℕ

pub record GroupMember : Type 0 where
  pub user : ℤ
  pub role : Role
  pub joined_at : ℕ
  pub update_time : ℕ

-- The tables: rows by primary key; the rows of `group_members` are kept by group.
pub record Db : Type 0 where
  pub requests : List RelationshipRequest
  pub next_id : ℕ
  pub friends : ℤ → ℤ → Option Friend
  pub groups : ℤ → Option Group
  pub members : ℤ → List GroupMember

abbrev pub empty_db : Db
empty_db = record {
  requests = [];
  next_id = 1;
  friends = λ u v. none;
  groups = λ g. none;
  members = λ g. [];
}

-- `relationshipUpdateTime`.
abbrev pub update_time_of : ℕ → ℕ
update_time_of now = now / 1_000_000_000

abbrev pub has_user : ℤ → GroupMember → Bool
has_user u m = m.user == u

-- `tx.Where("group_id = ? AND user_id = ?", ...).First(&member)`.
abbrev pub find_member : Db → ℤ → ℤ → Option GroupMember
find_member db g u = first (has_user u) (db.members g)

-- `GetGroupByIDWithDB`: a group that is not deleted.
abbrev pub undeleted : Option Group → Option Group
undeleted none = none
undeleted (some group) = if group.is_delete then none else some group

-- The rows of one group, both its own and its members'.
abbrev pub put_group : ℤ → Option Group → List GroupMember → Db → Db
put_group g group members db = record db {
  groups = update g group db.groups;
  members = update g members db.members;
}
