-- ===== src/Call/Record.antt =====
-- The record of an operation stays as it is until it expires, whatever the service does.
use betterfly.Prelude.{
  ◌≡◌, String, ℤ, ◌<◌, Bool, true, false, some, List, arith, ltb, ◌==◌, string_eq, Bool-cases, inl,
  inr, sym,
}
use betterfly.Call.Types.{Session, PendingEvent, CallEvent}
use betterfly.Call.World.{Timed, World, Env, exists, publish_to, remove_deadline}
use betterfly.Call.Store.{
  created, transitioned, run_create, run_transition, create_session_with_events,
  transition_session_with_events, drop_deadline,
}
use betterfly.Call.Store.Outcomes.{run_create-cases, run_transition-cases, read_reply-same}
use betterfly.Call.Initiate.{publish_to_topic}
use betterfly.Call.Keeps.{Keeps, Keeps-command}
use betterfly.Call.Writes.{KeepsWrites}
use betterfly.Call.Follow.{handle-Keeps, handle_push_result-Keeps, sweep_expired-Keeps}
use betterfly.Call.Safety.{
  Step, handled, push_answered, swept, elapsed, rerouted, relayed, Reach, here, next,
}

module _ (key : String) (k : Timed String) where
  abbrev pub Kept : World → Type 0
  Kept w = w.clock < k.expires_at → w.operations key ≡ some k

  -- A script that commits has found no live record under the key that it writes.
  other_key :
      (own : String) (w : World)
      → Kept w
      → w.clock < k.expires_at
      → exists w.clock (w.operations own) ≡ false
      → (key == own) ≡ false
  other_key own w h l free = elim (Bool-cases (key == own)) [
    | inr n ↦ n
    | inl e ↦
        let lives : ltb w.clock k.expires_at ≡ true = ground arith in
        cc (rw (sym ((string_eq.beq_iff key own).0 e), h l) at free, lives)
  ]

  created-Kept :
      (env : Env) (s : Session) (op : String) (events : List PendingEvent) (w : World)
      → exists w.clock (w.operations (env.sha256_hex op)) ≡ false
      → Kept w
      → Kept (created env s op events w)
  unfolding created
  created-Kept env s op events w free h l = rw (other_key (env.sha256_hex op) w h l free) (h l)

  transitioned-Kept :
      (env : Env) (t : Session) (terminal : Bool) (op : String) (events : List PendingEvent)
      (w : World)
      → exists w.clock (w.operations (env.sha256_hex op)) ≡ false
      → Kept w
      → Kept (transitioned env t terminal op events w)
  unfolding transitioned
  transitioned-Kept env t terminal op events w free h l =
      rw (other_key (env.sha256_hex op) w h l free) (h l)

  abbrev AnyKey : String → Type 0
  AnyKey op = Unit

  module _ (env : Env) where
    create-Keeps :
        (s : Session) (op : String) (events : List PendingEvent)
        → Keeps Kept (create_session_with_events env s op events)
    unfolding create_session_with_events
    create-Keeps s op events = Keeps-command env _ (record {
      keep = λ w p.
          let (reply, w') = run_create env s op events w in
          rw (read_reply-same _ reply w') (elim (run_create-cases env s op events w) [
            | inl same ↦ rw same.1 p
            | inr (guards, e) ↦ rw e (created-Kept env s op events w guards.is_new p)
          ]);
    })

    transition-Keeps :
        (s t : Session) (terminal : Bool) (op : String) (events : List PendingEvent)
        → Keeps Kept (transition_session_with_events env s t terminal op events)
    unfolding transition_session_with_events
    transition-Keeps s t terminal op events = Keeps-command env _ (record {
      keep = λ w p.
          let (reply, w') = run_transition env s t terminal op events w in
          rw (read_reply-same _ reply w')
            (elim (run_transition-cases env s t terminal op events w) [
              | inl same ↦ rw same.1 p
              | inr (guards, e) ↦
                  rw e (transitioned-Kept env t terminal op events w guards.is_new p)
            ]);
    })

    publish-Keeps :
        (topic : String) (user : ℤ) (event : CallEvent)
        → Keeps Kept (publish_to_topic env topic user event)
    unfolding publish_to_topic
    publish-Keeps topic user event = record {
      keep = λ w v. elim (Bool-cases (env.fails (publish_to topic))) [
        | inl e ↦ rw e v
        | inr e ↦ rw e v
      ];
    }

    drop-keeps : (id : String) (w : World) → Kept w → Kept (drop_deadline env id w)
    unfolding drop_deadline
    drop-keeps id w v = elim (Bool-cases (env.fails (remove_deadline id))) [
      | inl e ↦ rw e v
      | inr e ↦ rw e v
    ]

    Kept-KeepsWrites : KeepsWrites env AnyKey Kept
    Kept-KeepsWrites = record {
      creates = λ s op events o r i. create-Keeps s op events;
      transitions = λ s t terminal op events o e. transition-Keeps s t terminal op events;
      publishes = publish-Keeps;
      drops = drop-keeps;
    }

  Step-Kept : {w w' : World} → Step w w' → Kept w → Kept w'
  Step-Kept (handled {w} env r) v = (handle-Keeps env (Kept-KeepsWrites env) tt r).keep w v
  Step-Kept (push_answered {w} env r) v =
      (handle_push_result-Keeps env (Kept-KeepsWrites env) tt r).keep w v
  Step-Kept (swept {w} env) v = (sweep_expired-Keeps env (Kept-KeepsWrites env) (λ s. tt)).keep w v
  Step-Kept (elapsed {w} n) v = λ l. v (omega arith)
  Step-Kept (rerouted routes leases) v = v
  Step-Kept (relayed outbox) v = v

  pub Reach-Kept : {w w' : World} → Reach w w' → Kept w → Kept w'
  Reach-Kept here v = v
  Reach-Kept (next r s) v = Step-Kept s (Reach-Kept r v)
