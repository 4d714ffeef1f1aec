-- ===== src/Relations/Friends.antt =====
-- The rows of `friends`: shared/db/util_friend.go and `addDirectFriendPairTx` of
-- shared/db/util_relationship.go.
use betterfly.Prelude.{
  ℕ, ℤ, String, Bool, true, false, not, ◌||◌, Option, none, some, update, int_eq, if◌then◌else◌,
}
use betterfly.Relations.Types.{Friend, Db}

abbrev pub put_friend : ℤ → ℤ → Option Friend → Db → Db
put_friend u v row db = record db { friends = update u (update v row (db.friends u)) db.friends }

-- A row that is there and not deleted: `friendshipActiveWithDB`.
abbrev pub is_active : Option Friend → Bool
is_active none = false
is_active (some f) = not f.is_delete

unfoldable pub friendship_active : Db → ℤ → ℤ → Bool
friendship_active db u v = is_active (db.friends u v)

-- What `addDirectFriendPairTx` makes of one of the two rows.
abbrev pub befriended : ℕ → Option Friend → Friend
befriended now none = record { is_notify = true; alias = ""; is_delete = false; update_time = now }
befriended now (some f) = record f { is_delete = false; update_time = now }

-- `addDirectFriendPairTx`.
unfoldable pub add_direct_friend_pair : ℤ → ℤ → ℕ → Db → Db
add_direct_friend_pair u v now db =
    let first_row = put_friend u v (some (befriended now (db.friends u v))) db in
    put_friend v u (some (befriended now (first_row.friends v u))) first_row

-- An update of the rows that are not deleted.
abbrev pub if_active : (Friend → Friend) → Option Friend → Option Friend
if_active f none = none
if_active f (some row) = if row.is_delete then some row else some (f row)

abbrev pub unfriended : ℕ → Friend → Friend
unfriended now f = record f { is_delete = true; update_time = now }

-- `RemoveDirectFriendPairWithDB`: whether any row was deleted.
unfoldable pub remove_direct_friend_pair : ℤ → ℤ → ℕ → Db → Bool × Db
remove_direct_friend_pair u v now db =
    let first_row = put_friend u v (if_active (unfriended now) (db.friends u v)) db in
    (
      is_active (db.friends u v) || is_active (first_row.friends v u),
      put_friend v u (if_active (unfriended now) (first_row.friends v u)) first_row,
    )

-- `UpdateFriendAliasWithDB`.
unfoldable pub update_friend_alias : ℤ → ℤ → String → ℕ → Db → Bool × Db
update_friend_alias u v alias now db = (
  is_active (db.friends u v),
  put_friend u v (if_active (λ f. record f { alias = alias; update_time = now }) (db.friends u v))
      db,
)

-- `UpdateFriendNotifyWithDB`.
unfoldable pub update_friend_notify : ℤ → ℤ → Bool → ℕ → Db → Bool × Db
update_friend_notify u v is_notify now db = (
  is_active (db.friends u v),
  put_friend u v
      (if_active (λ f. record f { is_notify = is_notify; update_time = now }) (db.friends u v)) db,
)
