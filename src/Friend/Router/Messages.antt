-- ===== src/Friend/Router/Messages.antt =====
-- Whatever messages the friend service handles, its tables are those of a sequence of the operations of
-- Relations, so all that holds of any sequence of operations holds of the service; and each message is
-- answered together with what it changes.
use betterfly.Prelude.{
  ℕ, String, ◌≡◌, refl, sym, ap, ◌∙◌, inl, inr, false, Option, none, some, Bool-cases, List, [],
  ◌∷◌, ◌++◌, any, some_injective, ◌||◌, ◌==◌, int_eq, string_eq, trim,
}
use betterfly.Relations.Types.{Db, empty_db}
use betterfly.Relations.Operations.{Operation, apply, apply_all}
use betterfly.Reliable.Inbox.{
  add_events, has_event, OutboxEvent, PendingOutboxEvent, executed, execute_inbox_outbox,
}
use betterfly.Reliable.Inbox.Once.{mark_self, execute-Effect, done}
use betterfly.Friend.Requests.{RequestMessage, ResponseMessage}
use betterfly.Friend.Router.{
  Env, dispatch, response_to, answer_event, outbox_row, work_of, Tables, handle_message, Delivery,
  handle_all, empty_tables,
}
use betterfly.Friend.Router.Refinement.{Refines, dispatch-Refines}

-- What the work of a message comes to when it succeeds.
work_of-some :
    (env : Env) (key : String) (req : RequestMessage) (db db' : Db) (r : ResponseMessage)
    (events : List (PendingOutboxEvent ResponseMessage))
    → work_of env key req db ≡ some (r, events, db')
    → (r ≡ response_to req (dispatch env.users req.payload env.now db))
      × (events ≡ answer_event env key req r ∷ [])
      × (db' ≡ (dispatch env.users req.payload env.now db).1)
work_of-some env key req db db' r events e = elim (Bool-cases env.fails) [
  | inl f ↦ cc (rw f at e)
  | inr f ↦
      let same = some_injective (rw f at e) in
      let told : response_to req (dispatch env.users req.payload env.now db) ≡ r =
        ap (λ p. p.0) same in
      (
        sym told,
        sym (ap (λ p. p.1) same) ∙ ap (λ x. answer_event env key req x ∷ []) told,
        sym (ap (λ p. p.2) same),
      )
]

message-Refines :
    (env : Env) (key : Option String) (message : Option RequestMessage) (w : Tables)
    → Refines env.now w.business (handle_message env key message w).1.business
unfolding handle_message execute_inbox_outbox
message-Refines env none message w = inl refl
message-Refines env (some key) none w = inl refl
message-Refines env (some key) (some req) w =
    elim (execute-Effect (trim "friend") (trim key) env.now (work_of env key req) w) [
      | inl (r, p, c) ↦
          rw (c.after, (work_of-some env key req w.business c.business r c.events c.worked).2)
            (dispatch-Refines env.users req.payload env.now w.business)
      | inr (same, p) ↦ rw same (inl refl)
    ]

apply_all_snoc :
    (ops : List (ℕ × Operation)) (now : ℕ) (op : Operation) (db : Db)
    → apply_all (ops ++ ((now, op) ∷ [])) db ≡ apply op now (apply_all ops db)
unfolding apply_all
apply_all_snoc [] now op db = refl
apply_all_snoc ((t, x) ∷ ops) now op db = apply_all_snoc ops now op (apply x t db)

abbrev pub IsReached : Db → Type 0
IsReached db = (ops : List (ℕ × Operation)) × (db ≡ apply_all ops empty_db)

IsReached-after : (now : ℕ) (db db' : Db) → Refines now db db' → IsReached db → IsReached db'
IsReached-after now db db' (inl e) (ops, p) = (ops, e ∙ p)
IsReached-after now db db' (inr (op, e)) (ops, p) =
    (ops ++ ((now, op) ∷ []), e ∙ ap (apply op now) p ∙ sym (apply_all_snoc ops now op empty_db))

handle_all-IsReached :
    (ms : List Delivery) (w : Tables) → IsReached w.business → IsReached (handle_all ms w).business
unfolding handle_all
handle_all-IsReached [] w h = h
handle_all-IsReached ((env, key, message) ∷ ms) w h =
    handle_all-IsReached ms (handle_message env key message w).1
      (IsReached-after env.now w.business _ (message-Refines env key message w) h)

-- After any deliveries of messages to the friend service, of every kind but the lists of friends, of
-- members and of joined groups, and also repeated, undecodable and failing ones, the tables of friends, groups and requests are those of some sequence of the operations of Relations
-- on empty tables: each message carried out one operation, or none.
pub messages_refine_operations :
    (ms : List Delivery)
    → (ops : List (ℕ × Operation)) × ((handle_all ms empty_tables).business
        ≡ apply_all ops empty_db)
unfolding apply_all
messages_refine_operations ms = handle_all-IsReached ms empty_tables ([], refl)

add_one :
    (env : Env) (key : String) (req : RequestMessage) (r : ResponseMessage)
    (old rows : List (OutboxEvent ResponseMessage))
    → add_events (trim "friend") (trim key) env.now (answer_event env key req r ∷ []) old
      ≡ some rows
    → rows ≡ old ++ (outbox_row env key req r ∷ [])
add_one env key req r old rows e =
    elim (Bool-cases (
      trim (env.stable_event_id "friend" key "response") == ""
      || trim req.from_kafka_topic == ""
      || false
      || any (has_event (env.stable_event_id "friend" key "response")) old)) [
        | inl b ↦ cc (rw b at e)
        | inr b ↦ sym (some_injective (rw b at e))
      ]

executed_injective : {R : Type 0} {a b : R} → executed a ≡ executed b → a ≡ b
executed_injective e = cc e

-- A message that is handled for the first time, and whose handling succeeds, writes three things at
-- once: the tables that its handler leaves, a single event with the handler's response for the topic
-- that the request names, and the record by which a redelivery is recognised.
pub executed_answers :
    (env : Env) (key : String) (req : RequestMessage) (w : Tables) (r : ResponseMessage)
    → (handle_message env (some key) (some req) w).0 ≡ executed r
    → let answer = dispatch env.users req.payload env.now w.business in
      let after = (handle_message env (some key) (some req) w).1 in
      (r ≡ response_to req answer)
      × (after.business ≡ answer.1)
      × (after.outbox ≡ w.outbox ++ (outbox_row env key req r ∷ []))
      × (after.inbox (trim "friend") (trim key) ≡ some (done env.now r))
unfolding handle_message execute_inbox_outbox
executed_answers env key req w r e =
    elim (execute-Effect (trim "friend") (trim key) env.now (work_of env key req) w) [
      | inr (same, p) ↦ absurd (p r e)
      | inl (r', p, c) ↦
          let told = work_of-some env key req w.business c.business r' c.events c.worked in
          let r'≡r : r' ≡ r = executed_injective (sym p ∙ e) in
          let rows = add_one env key req r' w.outbox c.rows (
            ap (λ es. add_events (trim "friend") (trim key) env.now es w.outbox) (sym told.1)
            ∙ c.added) in
          rw c.after (
            sym r'≡r ∙ told.0,
            told.2,
            rows ∙ ap (λ x. w.outbox ++ (outbox_row env key req x ∷ [])) r'≡r,
            mark_self (trim "friend") (trim key) (done env.now r')
                  (record w { outbox = c.rows; business = c.business })
                ∙ ap (λ x. some (done env.now x)) r'≡r,
          )
    ]
