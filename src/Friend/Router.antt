-- ===== src/Friend/Router.antt =====
-- A message of the friend service from its topic to its response: `HandleMessage` and the modules that
-- register the handlers, services/friendService/internal/handler, with shared/dispatch/oneof.go.
pub mod Refinement
pub mod Messages
use betterfly.Prelude.{
  ℕ, ℤ, String, Bool, false, trim, Option, none, some, List, [], ◌∷◌, if◌then◌else◌,
}
use betterfly.Relations.Types.{Db, empty_db, type_friend, type_group_join, type_group_invite}
use betterfly.Reliable.Inbox.{
  PendingOutboxEvent, OutboxEvent, Store, Work, Execution, failed, execute_inbox_outbox,
}
use betterfly.Friend.Requests.{
  Payload, remove_direct_friend, update_friend_alias, update_friend_notify, create_group,
  query_group, update_group_avatar, remove_group_member, update_group_name, transfer_group_owner,
  add_direct_friend, add_group_member, invite_group_member, resolve_friend_request,
  resolve_group_join_request, resolve_group_invitation, query_friend_requests,
  query_group_join_requests, query_group_invitations, kick_group_member, update_group_member_role,
  RequestMessage, ResponseMessage,
}
use betterfly.Friend.Friends.{
  Answer, handle_remove_direct_friend, handle_update_friend_alias, handle_update_friend_notify,
}
use betterfly.Friend.Groups.{
  handle_create_group, handle_query_group, handle_update_group_avatar, handle_remove_group_member,
  handle_update_group_name, handle_transfer_group_owner, handle_kick_group_member,
  handle_update_group_member_role,
}
use betterfly.Friend.Relationships.{
  handle_add_direct_friend, handle_add_group_member, handle_invite_group_member, handle_resolve,
  handle_query_friend_requests, handle_query_group_join_requests, handle_query_group_invitations,
}

-- The router: the handler that is registered for the type of a payload.
unfoldable pub dispatch : (ℤ → Bool) → Payload → ℕ → Db → Answer
dispatch users (remove_direct_friend u v) now db = handle_remove_direct_friend u v now db
dispatch users (update_friend_alias u v alias) now db = handle_update_friend_alias u v alias now db
dispatch users (update_friend_notify u v b) now db = handle_update_friend_notify u v b now db
dispatch users (create_group owner g name) now db = handle_create_group users owner g name now db
dispatch users (query_group actor g save) now db = handle_query_group actor g save db
dispatch users (update_group_avatar actor g avatar) now db =
    handle_update_group_avatar actor g avatar now db
dispatch users (remove_group_member actor g u) now db = handle_remove_group_member actor g u now db
dispatch users (update_group_name actor g name) now db =
    handle_update_group_name actor g name now db
dispatch users (transfer_group_owner actor g u) now db =
    handle_transfer_group_owner actor g u now db
dispatch users (add_direct_friend u v message) now db =
    handle_add_direct_friend users u v message now db
dispatch users (add_group_member u g message) now db =
    handle_add_group_member users u g message now db
dispatch users (invite_group_member actor g u message) now db =
    handle_invite_group_member users actor g u message now db
dispatch users (resolve_friend_request u id decision) now db =
    handle_resolve "resolve_friend_request" type_friend u id decision now db
dispatch users (resolve_group_join_request actor id decision) now db =
    handle_resolve "resolve_group_join_request" type_group_join actor id decision now db
dispatch users (resolve_group_invitation u id decision) now db =
    handle_resolve "resolve_group_invitation" type_group_invite u id decision now db
dispatch users (query_friend_requests u outgoing) now db =
    handle_query_friend_requests u outgoing now db
dispatch users (query_group_join_requests actor g) now db =
    handle_query_group_join_requests actor g now db
dispatch users (query_group_invitations u outgoing) now db =
    handle_query_group_invitations u outgoing now db
dispatch users (kick_group_member actor g u) now db = handle_kick_group_member actor g u now db
dispatch users (update_group_member_role actor g u role) now db =
    handle_update_group_member_role actor g u role now db

-- What a message meets: its time, the accounts there are, whether the database fails, and the hash of
-- `StableEventID`.
pub record Env : Type 0 where
  pub now : ℕ
  pub users : ℤ → Bool
  pub fails : Bool
  pub stable_event_id : String → String → String → String

abbrev pub response_to : RequestMessage → Answer → ResponseMessage
response_to req answer = record {
  result = answer.0.0;
  target_user = req.target_user;
  reply = answer.0.1;
}

-- The event of a response.
abbrev pub answer_event :
    Env → String → RequestMessage → ResponseMessage → PendingOutboxEvent ResponseMessage
answer_event env key req response = record {
  event_id = env.stable_event_id "friend" key "response";
  topic = req.from_kafka_topic;
  payload = response;
  is_empty = false;
}

-- The row that the event becomes.
abbrev pub outbox_row :
    Env → String → RequestMessage → ResponseMessage → OutboxEvent ResponseMessage
outbox_row env key req response = record {
  event_id = env.stable_event_id "friend" key "response";
  service = trim "friend";
  operation_key = trim key;
  topic = req.from_kafka_topic;
  payload = response;
  created_at = env.now;
}

-- The work of a message in its transaction: the response, its event and the tables.
abbrev pub work_of : Env → String → RequestMessage → Work Db ResponseMessage ResponseMessage
work_of env key req db =
    let answer = dispatch env.users req.payload env.now db in
    if env.fails
    then none
    else some
        (response_to req answer, answer_event env key req (response_to req answer) ∷ [], answer.1)

abbrev pub Tables : Type 0
Tables = Store Db ResponseMessage ResponseMessage

abbrev pub empty_tables : Tables
empty_tables = record { inbox = λ s k. none; outbox = []; business = empty_db }

-- `HandleMessage`, with the operation key of the context and the message, if it can be decoded.
unfoldable pub handle_message :
    Env → Option String → Option RequestMessage → Tables → Execution ResponseMessage × Tables
handle_message env none message w = (failed, w)
handle_message env (some key) none w = (failed, w)
handle_message env (some key) (some req) w =
    execute_inbox_outbox "friend" key env.now (work_of env key req) w

-- Messages one after another.
abbrev pub Delivery : Type 0
Delivery = Env × Option String × Option RequestMessage

unfoldable pub handle_all : List Delivery → Tables → Tables
handle_all [] w = w
handle_all ((env, key, message) ∷ rest) w = handle_all rest (handle_message env key message w).1
