-- ===== src/Reliable/Tests.antt =====
-- Messages, operations and events on their way, and the theorems applied to them.
use betterfly.Prelude.{
  ◌*◌, trim, is_space, ℕ, suc, ◌<◌, pos, String, ◌≡◌, ◌↔◌, ◌⊎◌, refl, Bool, true, false, none, some,
  List, [], ◌∷◌, ◌++◌, All, first, ltb, is_blank, if◌then◌else◌, arith,
}
use betterfly.Reliable.Consumer.{
  success, transient, Config, Attempts, normalized, dead_letter, publish_dead_letter, attempt_from,
  process_with_retry,
}
use betterfly.Reliable.Consumer.Partition.{consume_claim, IsDone, partition_loses_nothing}
use betterfly.Reliable.Consumer.Delays.{IsPatient, retries_are_bounded}
use betterfly.Reliable.Inbox.{Store, Work, replayed, failed, execute_inbox_outbox, cleanup_inbox}
use betterfly.Reliable.Inbox.Once.{
  Execute, Happening, execution, cleaning, execute, happen_all, effect_once,
}
use betterfly.Reliable.Outbox
use betterfly.Reliable.Outbox.{
  Row, pending, published, normalize, backoff, is_ready, has_id, World, here, next, done, more,
  claim, add, crash, publish, timeout_within_lease,
}
use betterfly.Reliable.Outbox.Delivery.{accepts, BecomesReady, no_event_is_lost}

-- Opens what a run computes with.
opened : Bool
unfolding trim is_space is_blank normalized publish_dead_letter attempt_from process_with_retry
    consume_claim execute_inbox_outbox cleanup_inbox normalize backoff is_ready
opened = true

-- A message that succeeds at its third attempt, and one that never does.
abbrev third_time : Attempts
third_time = record {
  value = "paid";
  source = record { topic = "orders"; partition = 0; offset = 7 };
  processor = λ n. record { outcome = if ltb n 2 then transient else success; retry_after = none };
  cancelled_before = λ n. false;
  cancelled_after = λ n. false;
  cancelled_waiting = λ n. false;
  has_publisher = true;
  published = true;
}

abbrev never : Attempts
never = record third_time { processor = λ n. record { outcome = transient; retry_after = none } }

abbrev unpublished : Attempts
unpublished = record never { published = false }

abbrev config : Config
config = record { dlq_topic = "dead"; max_retries = 3; initial_backoff = 100; max_backoff = 250 }

third_time_delays : (process_with_retry config third_time).delays ≡ 100 ∷ 200 ∷ []
unfolding opened
third_time_delays = refl

never_is_dead :
    (process_with_retry config never).verdict
    ≡ dead_letter (record {
      dlq_topic = "dead";
      value = "paid";
      source = never.source;
      outcome = transient;
      retries = 3;
    })
unfolding opened
never_is_dead = refl

partition_loses_nothing_example :
    let ms = third_time ∷ never ∷ unpublished ∷ third_time ∷ [] in
    (rest : List Attempts) × (ms ≡ (consume_claim config ms).marked ++ rest)
    × All (IsDone config (consume_claim config ms).letters) (consume_claim config ms).marked
    × (((consume_claim config ms).is_finished ≡ true) ↔ (rest ≡ []))
partition_loses_nothing_example =
    partition_loses_nothing config (third_time ∷ never ∷ unpublished ∷ third_time ∷ [])

-- Without a topic of dead letters a message that always fails stops its partition.
nowhere_to_publish :
    (consume_claim (record config { dlq_topic = " " }) (never ∷ [])).is_finished ≡ false
unfolding opened
nowhere_to_publish = refl

retries_are_bounded_example :
    IsPatient 3 250
      (process_with_retry (normalized "dead" (pos 3) (pos 100) (pos 250)) third_time).delays
unfolding opened
retries_are_bounded_example =
    retries_are_bounded "dead" (pos 3) (pos 100) (pos 250) third_time 250 (λ n. omega arith)
      (omega arith)

-- A counter as the business.
abbrev counter : Store ℕ String String
counter = record { inbox = λ s k. none; outbox = []; business = 0 }

abbrev count : Work ℕ String String
count n =
    some
      ("ok", record { event_id = "e1"; topic = "t"; payload = "p"; is_empty = false } ∷ [], suc n)

abbrev count_for : String → Execute ℕ String String
count_for key = record { service = "friend"; operation_key = key; now = 1; work = count }

-- The second operation repeats the first one's event id, and fails.
second_fails : (execute (count_for "b") (execute (count_for "a") counter).1).0 ≡ failed
unfolding opened
second_fails = refl

-- Another operation, and a cleaning of what was completed before the first one.
abbrev in_between : List (Happening ℕ String String)
in_between = execution (count_for "b") ∷ cleaning 1 (λ s k. true) ∷ []

-- A cleaning with a later cutoff forgets the operation: it is not replayed, and fails as its event
-- repeats an id.
cleaned_is_forgotten :
    (execute (count_for "a") (cleanup_inbox 2 (λ s k. true) (execute (count_for "a") counter).1)).0
    ≡ failed
unfolding opened
cleaned_is_forgotten = refl

effect_once_example :
    let later = happen_all in_between (execute (count_for "a") counter).1 in
    execute (count_for " a") later ≡ (replayed (some "ok"), later)
unfolding opened
effect_once_example =
    effect_once (count_for "a") (count_for " a") in_between counter "ok" refl
      (tt, (omega arith, tt)) refl refl

abbrev relay_config : Outbox.Config
relay_config = normalize (pos 30) (pos 0) (pos 1) (pos 8)

timeout_within_lease_example :
    let c = normalize (pos 30) (pos 40) (pos 1) (pos 8) in
    (c.publish_timeout < c.lease)
    × (backoff c 1 ≡ Outbox.least c.initial_backoff c.max_backoff)
    × ((n : ℕ) → backoff c (suc (suc n)) ≡ Outbox.least (2 * backoff c (suc n)) c.max_backoff)
timeout_within_lease_example = timeout_within_lease (pos 30) (pos 40) (pos 1) (pos 8)

-- An event is claimed by a relay that crashes.
abbrev fresh : Row
fresh = record {
  event_id = "e1";
  status = pending;
  attempt = 0;
  claim_token = none;
  lease_until = none;
  next_attempt_at = none;
}

abbrev empty_world : World
empty_world = record { rows = []; accepted = []; next_token = 0; workers = λ r. Outbox.idle }

abbrev added : World
added = record empty_world { rows = fresh ∷ [] }

abbrev claimed_world : World
claimed_world =
    Outbox.set_worker 0 (Outbox.holds (Outbox.claim_row relay_config 5 0 fresh))
      (record added { rows = Outbox.claim_row relay_config 5 0 fresh ∷ []; next_token = 1 })

abbrev crashed : World
crashed = Outbox.set_worker 0 Outbox.idle claimed_world

crashing : Outbox.Run relay_config added crashed
unfolding opened
crashing = more (more done (claim added 0 5 fresh refl)) (crash claimed_world 0)

no_event_is_lost_example :
    (row : Row) × (first (has_id "e1") crashed.rows ≡ some row)
    × (((row.status ≡ published) × (accepts row.event_id crashed.accepted ≡ true))
        ⊎ BecomesReady row)
no_event_is_lost_example =
    no_event_is_lost relay_config added crashed "e1" (next here (add empty_world fresh refl)) refl
      crashing
