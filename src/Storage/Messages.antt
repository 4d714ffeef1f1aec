-- ===== src/Storage/Messages.antt =====
-- The table of messages, their storing, reading and recall: shared/db/util_message.go and `Message`
-- of shared/db/models.go. A time of the table is in seconds since the epoch, as its RFC 3339 text
-- says it, and the clock is in nanoseconds. Rows are kept newest first.
pub mod Identity
pub mod Once
pub mod Recalls
pub mod Final
pub mod Granted
use betterfly.Prelude.{
  ℕ, suc, ◌+◌, ◌*◌, ◌/◌, ◌≤◌, ◌<◌, ℤ, pos, String, ◌≡◌, Bool, true, false, not, ◌&&◌, ◌||◌, Option,
  none, some, List, [], ◌∷◌, ltb, leb, first, modify_where, if◌then◌else◌, ◌==◌, int_eq, nat_eq,
  string_eq, is_positive, trim,
}
use betterfly.Relations.Types.{GroupMember, Db, find_member}

pub record Message : Type 0 where
  pub message_id : ℕ
  pub client_message_id : Option String
  pub from_user : ℤ
  pub to_user : ℤ
  pub content : String
  pub timestamp : ℕ
  pub message_type : String
  pub real_file_name : String
  pub is_group : Bool
  pub is_recalled : Bool
  pub recalled_at : Option ℕ
  pub recalled_by : ℤ

pub record Table : Type 0 where
  pub rows : List Message
  pub next_id : ℕ

abbrev pub empty_table : Table
empty_table = record { rows = []; next_id = 1 }

-- The parameters of `StoreNewMessageWithDB` beside the database.
pub record Draft : Type 0 where
  pub from_user : ℤ
  pub to_user : ℤ
  pub content : String
  pub message_type : String
  pub real_file_name : String
  pub is_group : Bool
  pub client_message_id : String

abbrev pub second : ℕ
second = 1_000_000_000

-- `MessageRecallWindow`.
abbrev pub message_recall_window : ℕ
message_recall_window = 120 * second

abbrev pub new_message : Draft → Option String → ℕ → ℕ → Message
new_message d client id now = record {
  message_id = id;
  client_message_id = client;
  from_user = d.from_user;
  to_user = d.to_user;
  content = d.content;
  timestamp = now / second;
  message_type = d.message_type;
  real_file_name = d.real_file_name;
  is_group = d.is_group;
  is_recalled = false;
  recalled_at = none;
  recalled_by = pos 0;
}

abbrev pub is_text : String → Option String → Bool
is_text c none = false
is_text c (some d) = d == c

-- The columns of the unique index on the sender and the client's id.
abbrev pub has_client : ℤ → String → Message → Bool
has_client u c m = (m.from_user == u) && is_text c m.client_message_id

abbrev pub insert_message : Draft → Option String → ℕ → Table → (Message × Bool) × Table
insert_message d client now t =
    let m = new_message d client t.next_id now in
    ((m, true), record t { rows = m ∷ t.rows; next_id = suc t.next_id })

-- `StoreNewMessageWithDB`: the message, whether it is new, and the table.
unfoldable pub store_new_message : Draft → ℕ → Table → (Message × Bool) × Table
store_new_message d now t =
    let client = trim d.client_message_id in
    if client == ""
    then insert_message d none now t
    else (elim (first (has_client d.from_user client) t.rows) [
      | none ↦ insert_message d (some client) now t
      | some existing ↦ ((existing, false), t)
    ])

abbrev pub has_message_id : ℤ → Message → Bool
has_message_id i m = pos m.message_id == i

-- `GetMessageByIDWithDB`.
unfoldable pub get_message_by_id : ℤ → List Message → Option Message
get_message_by_id i ms = first (has_message_id i) ms

abbrev pub joined_before : ℕ → Option GroupMember → Bool
joined_before time none = false
joined_before time (some m) = leb m.joined_at time

-- `CanUserReadMessageWithDB`; every row of `group_members` has its time of joining.
unfoldable pub can_user_read_message : Db → ℤ → Message → Bool
can_user_read_message db u m =
    if not (is_positive u)
    then false
    else if not m.is_group
    then u == m.from_user || u == m.to_user
    else u == m.from_user || joined_before m.timestamp (find_member db m.to_user u)

pub data MessageRecallStatus : Type 0 where
  recall_ok recall_not_found recall_forbidden recall_already recall_expired : MessageRecallStatus

pub record MessageRecallOutcome : Type 0 where
  pub message : Option Message
  pub status : MessageRecallStatus

abbrev pub recalled : ℤ → ℕ → Message → Message
recalled operator now m = record m {
  is_recalled = true;
  recalled_at = some (now / second);
  recalled_by = operator;
}

abbrev pub is_open : ℕ → Message → Bool
is_open i m = (m.message_id == i) && not m.is_recalled

-- `RecallMessageWithDB` once the row is read and locked.
unfoldable pub recall_found : Db → ℤ → ℕ → Message → Table → MessageRecallOutcome × Table
recall_found db operator now m t =
    if not (m.from_user == operator)
    then (
      record {
        message = some m;
        status = if can_user_read_message db operator m then recall_forbidden else recall_not_found;
      },
      t,
    )
    else if m.is_recalled
    then (record { message = some m; status = recall_already }, t)
    else if ltb (m.timestamp * second + message_recall_window) now
    then (record { message = some m; status = recall_expired }, t)
    else (
      record { message = some (recalled operator now m); status = recall_ok },
      record t { rows = modify_where (is_open m.message_id) (recalled operator now) t.rows },
    )

-- `RecallMessageWithDB`.
unfoldable pub recall_message : Db → ℤ → ℤ → ℕ → Table → MessageRecallOutcome × Table
recall_message db operator i now t =
    if not (is_positive operator) || not (is_positive i)
    then (record { message = none; status = recall_not_found }, t)
    else (elim (get_message_by_id i t.rows) [
      | none ↦ (record { message = none; status = recall_not_found }, t)
      | some m ↦ recall_found db operator now m t
    ])

-- What writes the table: a message stored, or recalled by a user of the groups as they are then.
pub data Operation : Type 0 where
  store : Draft → ℕ → Operation
  recall : Db → ℤ → ℤ → ℕ → Operation

unfoldable pub apply : Operation → Table → Table
apply (store d now) t = (store_new_message d now t).1
apply (recall db operator i now) t = (recall_message db operator i now t).1

abbrev pub apply_all : List Operation → Table → Table
apply_all [] t = t
apply_all (op ∷ ops) t = apply_all ops (apply op t)
