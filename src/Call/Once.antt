-- ===== src/Call/Once.antt =====
-- Redelivery: an operation that has written to the store is done, and its message changes nothing
-- when Kafka delivers it again.
use betterfly.Prelude.{
  ◌≡◌, refl, ◌≢◌, ◌⊎◌, inl, inr, String, ℤ, ℕ, ◌+◌, ◌*◌, ◌/◌, ◌<◌, Bool, true, false, none, some,
  List, arith, ltb, ◌==◌, string_eq, Bool-cases, Option-cases, is_positive,
}
use betterfly.Call.Types.{Session, ok, PendingEvent, InternalRequest, CallEvent, Delivery}
use betterfly.Call.World.{Timed, World, Env, publish_to, remove_deadline, exists_operation, ◌>>=◌}
use betterfly.Call.Store.{
  millisecond, created, transitioned, run_create, run_transition, create_session_with_events,
  transition_session_with_events, drop_deadline, operation_completed,
}
use betterfly.Call.Store.Outcomes.{run_create-cases, run_transition-cases, read_reply-same}
use betterfly.Call.Initiate.{publish_to_topic}
use betterfly.Call.Keeps.{Keeps, Keeps-command}
use betterfly.Call.Writes.{KeepsWrites}
use betterfly.Call.Service.{handle, handle_with, is_completed}
use betterfly.Call.Follow.{handle-Keeps}
use betterfly.Call.Safety.{Reach}
use betterfly.Call.Record.{Reach-Kept}

-- No call data was written: events may have been published.
pub record Untouched (w w' : World) : Type 0 where
  pub sessions : w'.sessions ≡ w.sessions
  pub user_calls : w'.user_calls ≡ w.user_calls
  pub outbox : w'.outbox ≡ w.outbox
  pub operations : w'.operations ≡ w.operations

-- The operation has a record that lasts for the retention period from the time of the start.
abbrev pub Recorded : Env → World → World → Type 0
Recorded env w w' =
    (w'.clock ≡ w.clock)
    × (w'.operations (env.sha256_hex env.operation)
        ≡ some (record {
          value = "1";
          expires_at = w.clock + env.operation_ttl / millisecond * millisecond;
        }))

module _ (env : Env) (start : World) where
  abbrev P : World → Type 0
  P w = (w.clock ≡ start.clock) × (Untouched start w ⊎ Recorded env start w)

  abbrev IsOwn : String → Type 0
  IsOwn op = op ≡ env.operation

  created-P :
      (s : Session) (op : String) (events : List PendingEvent) (w : World)
      → IsOwn op
      → P w
      → P (created env s op events w)
  unfolding created
  created-P s op events w own (c, p) =
      (c, inr (c, rw own (rw ((string_eq.beq_iff _ _).1 refl) (rw c))))

  transitioned-P :
      (t : Session) (terminal : Bool) (op : String) (events : List PendingEvent) (w : World)
      → IsOwn op
      → P w
      → P (transitioned env t terminal op events w)
  unfolding transitioned
  transitioned-P t terminal op events w own (c, p) =
      (c, inr (c, rw own (rw ((string_eq.beq_iff _ _).1 refl) (rw c))))

  create-Keeps :
      (s : Session) (op : String) (events : List PendingEvent)
      → IsOwn op
      → Keeps P (create_session_with_events env s op events)
  unfolding create_session_with_events
  create-Keeps s op events own = Keeps-command env _ (record {
    keep = λ w p.
        let (reply, w') = run_create env s op events w in
        rw (read_reply-same _ reply w') (elim (run_create-cases env s op events w) [
          | inl same ↦ rw same.1 p
          | inr (guards, e) ↦ rw e (created-P s op events w own p)
        ]);
  })

  transition-Keeps :
      (s t : Session) (terminal : Bool) (op : String) (events : List PendingEvent)
      → IsOwn op
      → Keeps P (transition_session_with_events env s t terminal op events)
  unfolding transition_session_with_events
  transition-Keeps s t terminal op events own = Keeps-command env _ (record {
    keep = λ w p.
        let (reply, w') = run_transition env s t terminal op events w in
        rw (read_reply-same _ reply w') (elim (run_transition-cases env s t terminal op events w) [
          | inl same ↦ rw same.1 p
          | inr (guards, e) ↦ rw e (transitioned-P t terminal op events w own p)
        ]);
  })

  published : (w : World) (l : List (String × Delivery)) → P w → P (record w { published = l })
  published w l (c, inl u) = (
    c,
    inl (record {
      sessions = u.sessions;
      user_calls = u.user_calls;
      outbox = u.outbox;
      operations = u.operations;
    }),
  )
  published w l (c, inr r) = (c, inr r)

  publish-Keeps :
      (topic : String) (user : ℤ) (event : CallEvent)
      → Keeps P (publish_to_topic env topic user event)
  unfolding publish_to_topic
  publish-Keeps topic user event = record {
    keep = λ w v. elim (Bool-cases (env.fails (publish_to topic))) [
      | inl e ↦ rw e v
      | inr e ↦ rw e (published w _ v)
    ];
  }

  dropped : (w : World) (l : List (String × ℕ)) → P w → P (record w { deadlines = l })
  dropped w l (c, inl u) = (
    c,
    inl (record {
      sessions = u.sessions;
      user_calls = u.user_calls;
      outbox = u.outbox;
      operations = u.operations;
    }),
  )
  dropped w l (c, inr r) = (c, inr r)

  drop-keeps : (id : String) (w : World) → P w → P (drop_deadline env id w)
  unfolding drop_deadline
  drop-keeps id w v = elim (Bool-cases (env.fails (remove_deadline id))) [
    | inl e ↦ rw e v
    | inr e ↦ rw e (dropped w _ v)
  ]

  P-KeepsWrites : KeepsWrites env IsOwn P
  P-KeepsWrites = record {
    creates = λ s op events own r i. create-Keeps s op events own;
    transitions = λ s t terminal op events own e. transition-Keeps s t terminal op events own;
    publishes = publish-Keeps;
    drops = drop-keeps;
  }

  handle-P : (r : InternalRequest) → P (handle env r start).1
  handle-P r =
      (handle-Keeps env P-KeepsWrites refl r).keep start (
        refl,
        inl (record { sessions = refl; user_calls = refl; outbox = refl; operations = refl }),
      )

-- The request passes the checks that come before the look-up of its operation.
abbrev pub IsComplete : InternalRequest → Type 0
IsComplete r = (is_positive r.user_id ≡ true) × ((r.from_topic == "") ≡ false) × (r.request ≢ none)

-- A request whose operation has a record is acknowledged, and nothing is written or published.
completed_is_done :
    (env : Env) (r : InternalRequest) (w : World) {k : Timed String}
    → IsComplete r
    → (env.operation == "") ≡ false
    → env.fails exists_operation ≡ false
    → env.loses exists_operation ≡ false
    → w.operations (env.sha256_hex env.operation) ≡ some k
    → ltb w.clock k.expires_at ≡ true
    → handle env r w ≡ (ok tt, w)
unfolding handle handle_with is_completed operation_completed ◌>>=◌
completed_is_done env r w (a, b, c) op up heard e l = elim (Option-cases r.request) [
  | inl none_given ↦ absurd (c none_given)
  | inr (client, given) ↦
      rw (given, handle_with) (rw a (rw b (rw op (rw up (rw heard (rw e (rw l)))))))
]

-- After a request with an operation key is handled, either no call data was written, or its
-- operation is recorded: then, whatever invocations, changes of routes and times come in between, any
-- complete request with the same operation key that is handled within the retention period, and
-- whose look-up of the operation is answered, is acknowledged without writing or publishing anything.
pub handled_once :
    (env env' : Env) (r r' : InternalRequest) (w v : World)
    → env'.operation ≡ env.operation
    → env'.sha256_hex ≡ env.sha256_hex
    → (env.operation == "") ≡ false
    → env'.fails exists_operation ≡ false
    → env'.loses exists_operation ≡ false
    → Reach (handle env r w).1 v
    → v.clock < w.clock + env.operation_ttl / millisecond * millisecond
    → IsComplete r'
    → Untouched w (handle env r w).1 ⊎ (handle env' r' v ≡ (ok tt, v))
handled_once env env' r r' w v same_op same_hash op up heard between soon complete =
    elim (handle-P env w r).1 [
      | inl u ↦ inl u
      | inr (c, e) ↦
          let k : Timed String = record {
            value = "1";
            expires_at = w.clock + env.operation_ttl / millisecond * millisecond;
          } in
          inr (
            completed_is_done env' r' v {k = k} complete (rw same_op op) up heard
              (rw (same_op, same_hash)
                (Reach-Kept (env.sha256_hex env.operation) k between (λ l. e) soon))
              (ground arith))
    ]
