-- ===== src/Friend/Tests.antt =====
-- Messages to the friend service, and the theorems applied to them.
use betterfly.Prelude.{
  trim, is_space, codes, ℕ, ℤ, ◌≡◌, refl, Bool, true, false, none, some, List, [], ◌∷◌, is_positive,
  int_beq, int_ltb,
}
use betterfly.Relations.Types.{empty_db, ActiveKey-discrete}
use betterfly.Relations.Friends.{friendship_active, add_direct_friend_pair}
use betterfly.Relations.Requests.{create_pending_request, create_friend_request}
use betterfly.Relations.Resolve.{
  can_resolve_request, close_request, carry_out, resolve_again, decide, resolve_found,
  resolve_request,
}
use betterfly.Relations.Operations.{Operation, apply_all}
use betterfly.Reliable.Inbox.{execute_inbox_outbox}
use betterfly.Reliable.Inbox.Once.{done}
use betterfly.Friend.Requests.{
  Payload, add_direct_friend, resolve_friend_request, request_accept, RequestMessage,
  ResponseMessage,
}
use betterfly.Friend.Relationships.{handle_add_direct_friend, handle_resolve}
use betterfly.Friend.Router.{
  Env, dispatch, handle_message, handle_all, Delivery, empty_tables, response_to, outbox_row,
}
use betterfly.Friend.Router.Messages.{messages_refine_operations, executed_answers}

-- Opens what a run computes with.
opened : Bool
unfolding trim is_space is_positive int_beq int_ltb create_pending_request create_friend_request
    can_resolve_request close_request carry_out resolve_again decide resolve_found resolve_request
    add_direct_friend_pair friendship_active ActiveKey-discrete execute_inbox_outbox
    handle_add_direct_friend handle_resolve dispatch handle_message handle_all
opened = true

abbrev env : ℕ → Env
env now = record { now = now; users = λ u. true; fails = false; stable_event_id = λ s k x. k }

abbrev from_user : ℤ → Payload → RequestMessage
from_user u payload = record { from_kafka_topic = "df-1"; target_user = u; payload = payload }

abbrev ask : RequestMessage
ask = from_user (ℤ.pos 1) (add_direct_friend (ℤ.pos 1) (ℤ.pos 2) (codes "hello"))

abbrev accept : RequestMessage
accept = from_user (ℤ.pos 2) (resolve_friend_request (ℤ.pos 2) (ℤ.pos 1) request_accept)

-- User 1 asks, in a message that is delivered twice, and user 2 accepts.
abbrev deliveries : List Delivery
deliveries =
    (env 10, some "t/0/1", some ask)
    ∷ (env 11, some "t/0/1", some ask)
    ∷ (env 12, some "t/0/2", none)
    ∷ (env 20, some "t/0/3", some accept)
    ∷ []

friends_now :
    friendship_active (handle_all deliveries empty_tables).business (ℤ.pos 2) (ℤ.pos 1) ≡ true
unfolding opened
friends_now = refl

messages_refine_operations_example :
    (ops : List (ℕ × Operation)) × ((handle_all deliveries empty_tables).business
      ≡ apply_all ops empty_db)
messages_refine_operations_example = messages_refine_operations deliveries

abbrev asked : ResponseMessage
asked = response_to ask (dispatch (λ u. true) ask.payload 10 empty_db)

executed_answers_example :
    (asked ≡ response_to ask (dispatch (λ u. true) ask.payload 10 empty_db))
    × ((handle_message (env 10) (some "t/0/1") (some ask) empty_tables).1.business
        ≡ (dispatch (λ u. true) ask.payload 10 empty_db).1)
    × ((handle_message (env 10) (some "t/0/1") (some ask) empty_tables).1.outbox
        ≡ outbox_row (env 10) "t/0/1" ask asked ∷ [])
    × ((handle_message (env 10) (some "t/0/1") (some ask) empty_tables).1.inbox
          (trim "friend")
          (trim "t/0/1")
        ≡ some (done 10 asked))
unfolding opened
executed_answers_example = executed_answers (env 10) "t/0/1" ask empty_tables asked refl
