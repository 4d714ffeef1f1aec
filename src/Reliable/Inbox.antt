-- ===== src/Reliable/Inbox.antt =====
-- The inbox and the outbox in one transaction: shared/db/inbox_outbox.go, and how shared/db/retention.go
-- cleans the inbox. The tables of the business are
-- of any type, as are responses and payloads.
pub mod Once
use betterfly.Prelude.{
  trim, ℕ, String, ◌≡◌, refl, Bool, true, false, not, ◌||◌, Option, none, some, List, [], ◌∷◌, ◌++◌,
  update, any, ltb, ◌&&◌, ◌==◌, string_eq, Eq, Eq_of_discrete, String_discrete, if◌then◌else◌,
}

-- `PendingOutboxEvent`, with whether its payload is empty.
pub record PendingOutboxEvent (P : Type 0) : Type 0 where
  pub event_id : String
  pub topic : String
  pub payload : P
  pub is_empty : Bool

-- The fields of a new row of `outbox_events`; Reliable/Outbox has those that the relay changes.
pub record OutboxEvent (P : Type 0) : Type 0 where
  pub event_id : String
  pub service : String
  pub operation_key : String
  pub topic : String
  pub payload : P
  pub created_at : ℕ

pub data InboxStatus : Type 0 where
  processing completed : InboxStatus

pub record ConsumerInbox (R : Type 0) : Type 0 where
  pub status : InboxStatus
  pub response_payload : Option R
  pub completed_at : Option ℕ

pub record Store (S R P : Type 0) : Type 0 where
  pub inbox : String → String → Option (ConsumerInbox R)
  pub outbox : List (OutboxEvent P)
  pub business : S

-- What `execute` returns in the transaction: nothing when it fails.
abbrev pub Work : (S R P : Type 0) → Type 0
Work S R P = S → Option (R × List (PendingOutboxEvent P) × S)

-- `InboxExecution`, or an error.
pub data Execution (R : Type 0) : Type 0 where
  executed : R → Execution R
  replayed : Option R → Execution R
  invalid incomplete failed : Execution R

abbrev pub has_event : {P : Type 0} → String → OutboxEvent P → Bool
has_event id e = e.event_id == id

-- The rows of the events; a blank field or a repeated id is an error.
abbrev pub add_events :
    {P : Type 0}
    → String
    → String
    → ℕ
    → List (PendingOutboxEvent P)
    → List (OutboxEvent P)
    → Option (List (OutboxEvent P))
add_events service key now [] rows = some rows
add_events service key now (e ∷ es) rows =
    let row : OutboxEvent _ = record {
      event_id = e.event_id;
      service = service;
      operation_key = key;
      topic = e.topic;
      payload = e.payload;
      created_at = now;
    } in
    let rest = add_events service key now es (rows ++ (row ∷ [])) in
    if trim e.event_id == "" || trim e.topic == "" || e.is_empty || any (has_event e.event_id) rows
    then none
    else rest

abbrev pub replay_as : {R : Type 0} → InboxStatus → Option R → Execution R
replay_as processing response = incomplete
replay_as completed response = replayed response

abbrev pub replay : {R : Type 0} → ConsumerInbox R → Execution R
replay row = replay_as row.status row.response_payload

module _ {S R P : Type 0} where
  -- The marker of an operation in the inbox.
  abbrev pub mark : String → String → ConsumerInbox R → Store S R P → Store S R P
  mark service key row w = record w {
    inbox = update service (update key row' (w.inbox service)) w.inbox;
  }
    where
      row' : Option (ConsumerInbox R)
      row' = some row

  -- The transaction after the marker is inserted; a failure leaves the store as it was.
  abbrev pub complete :
      String
      → String
      → ℕ
      → Store S R P
      → Option (R × List (PendingOutboxEvent P) × S)
      → Execution R × Store S R P
  complete service key now w none = (failed, w)
  complete service key now w (some (response, events, business)) =
      elim (add_events service key now events w.outbox) [
        | none ↦ (failed, w)
        | some rows ↦ (
          executed response,
          mark service key
              (record {
                status = completed;
                response_payload = some response;
                completed_at = some now;
              })
              (record w { outbox = rows; business = business }),
        )
      ]

  -- `ExecuteInboxOutbox` with a trimmed service and key.
  abbrev pub execute_trimmed :
      String → String → ℕ → Work S R P → Store S R P → Execution R × Store S R P
  execute_trimmed service key now work w =
      if service == "" || key == "" then (invalid, w) else elim (w.inbox service key) [
        | some row ↦ (replay row, w)
        | none ↦ complete service key now w (work w.business)
      ]

  -- `ExecuteInboxOutbox`.
  unfoldable pub execute_inbox_outbox :
      String → String → ℕ → Work S R P → Store S R P → Execution R × Store S R P
  execute_inbox_outbox service key now work w = execute_trimmed (trim service) (trim key) now work w

-- The condition on a row of `CleanupReliabilityState`: completed before the cutoff, and among the rows
-- that the limit of one pass lets through.
abbrev pub is_overdue : {R : Type 0} → ℕ → Bool → Option (ConsumerInbox R) → Bool
is_overdue cutoff within none = false
is_overdue cutoff within (some row) = elim row.status [
  | processing ↦ false
  | completed ↦ elim row.completed_at [ none ↦ within | some t ↦ ltb t cutoff && within ]
]

-- The deletion from `consumer_inboxes` of `CleanupReliabilityState`.
unfoldable pub cleanup_inbox :
    {S R P : Type 0} → ℕ → (String → String → Bool) → Store S R P → Store S R P
cleanup_inbox cutoff within w = record w {
  inbox = λ s k. if is_overdue cutoff (within s k) (w.inbox s k) then none else w.inbox s k;
}
