-- ===== src/Call/Safety.antt =====
-- Mutual exclusion of calls: over every run of the service, a user is in one active call at most.
use betterfly.Prelude.{
  ◌≡◌, refl, ◌∙◌, sym, ◌⊎◌, inl, inr, String, ℤ, ℕ, ◌+◌, Bool, true, false, Option, none, some,
  List, arith, ltb, Bool-cases, not,
}
use betterfly.Call.Types.{
  active, ringing, Session, PendingEvent, InternalRequest, PushResult, CallEvent,
}
use betterfly.Call.World.{Timed, World, Env, live, publish_to, remove_deadline}
use betterfly.Call.Store.{
  run_create, run_transition, create_session_with_events, transition_session_with_events,
  drop_deadline,
}
use betterfly.Call.Store.Outcomes.{read_reply-same}
use betterfly.Call.Store.Locks.{Locks}
use betterfly.Call.Store.Exclusive.{
  IsExclusive, run_create-IsExclusive, run_transition-IsExclusive, tick-IsExclusive,
}
use betterfly.Call.Initiate.{is_open, publish_to_topic}
use betterfly.Call.Keeps.{Keeps, Keeps-command}
use betterfly.Call.Writes.{KeepsWrites}
use betterfly.Call.Service.{handle, handle_push_result, sweep_expired}
use betterfly.Call.Follow.{handle-Keeps, handle_push_result-Keeps, sweep_expired-Keeps}

abbrev AnyKey : String → Type 0
AnyKey op = Unit

closes_of_ends :
    (s : Session) (terminal : Bool)
    → terminal ≡ not (is_open s.state)
    → s.state ≡ active
    → terminal ≡ false
closes_of_ends s terminal e a = ground arith

module _ (env : Env) where
  create-Keeps :
      (s : Session) (op : String) (events : List PendingEvent)
      → s.state ≡ ringing
      → Keeps IsExclusive (create_session_with_events env s op events)
  unfolding create_session_with_events
  create-Keeps s op events r = Keeps-command env _ (record {
    keep = λ w v.
        let (reply, w') = run_create env s op events w in
        rw (read_reply-same _ reply w') (run_create-IsExclusive env s op events w r v);
  })

  transition-Keeps :
      (s t : Session) (terminal : Bool) (op : String) (events : List PendingEvent)
      → (t.state ≡ active → terminal ≡ false)
      → Keeps IsExclusive (transition_session_with_events env s t terminal op events)
  unfolding transition_session_with_events
  transition-Keeps s t terminal op events closes = Keeps-command env _ (record {
    keep = λ w v.
        let (reply, w') = run_transition env s t terminal op events w in
        rw (read_reply-same _ reply w')
          (run_transition-IsExclusive env s t terminal op events w closes v);
  })

  publish-Keeps :
      (topic : String) (user : ℤ) (event : CallEvent)
      → Keeps IsExclusive (publish_to_topic env topic user event)
  unfolding publish_to_topic
  publish-Keeps topic user event = record {
    keep =
        λ w v. elim (Bool-cases (env.fails (publish_to topic))) [ inl e ↦ rw e v | inr e ↦ rw e v ];
  }

  drop-keeps : (id : String) (w : World) → IsExclusive w → IsExclusive (drop_deadline env id w)
  unfolding drop_deadline
  drop-keeps id w v = elim (Bool-cases (env.fails (remove_deadline id))) [
    | inl e ↦ rw e v
    | inr e ↦ rw e v
  ]

  IsExclusive-KeepsWrites : KeepsWrites env AnyKey IsExclusive
  IsExclusive-KeepsWrites = record {
    creates = λ s op events o r i. create-Keeps s op events r;
    transitions = λ s t terminal op events o e.
        transition-Keeps s t terminal op events (closes_of_ends t terminal e.ends);
    publishes = publish-Keeps;
    drops = drop-keeps;
  }

-- What can happen: an invocation of an entry point in any environment, the passing of time, the
-- connection service's changes to routes and leases, and the relay's to the outbox.
pub data Step : World → World → Type 0 where
  handled : {w : World} (env : Env) (r : InternalRequest) → Step w (handle env r w).1
  push_answered : {w : World} (env : Env) (r : PushResult) → Step w (handle_push_result env r w).1
  swept : {w : World} (env : Env) → Step w (sweep_expired env w).1
  elapsed : {w : World} (n : ℕ) → Step w (record w { clock = w.clock + n })
  rerouted :
      {w : World} (routes : ℤ → Option String) (leases : ℤ → Option (Timed String))
      → Step w (record w { routes = routes; leases = leases })
  relayed : {w : World} (outbox : List PendingEvent) → Step w (record w { outbox = outbox })

-- Any sequence of steps.
pub data Reach (start : World) : World → Type 0 where
  here : Reach start start
  next : {w w' : World} → Reach start w → Step w w' → Reach start w'

Step-IsExclusive : {w w' : World} → Step w w' → IsExclusive w → IsExclusive w'
Step-IsExclusive (handled {w} env r) v =
    (handle-Keeps env (IsExclusive-KeepsWrites env) tt r).keep w v
Step-IsExclusive (push_answered {w} env r) v =
    (handle_push_result-Keeps env (IsExclusive-KeepsWrites env) tt r).keep w v
Step-IsExclusive (swept {w} env) v =
    (sweep_expired-Keeps env (IsExclusive-KeepsWrites env) (λ s. tt)).keep w v
Step-IsExclusive (elapsed {w} n) v = tick-IsExclusive w n v
Step-IsExclusive (rerouted routes leases) v = v
Step-IsExclusive (relayed outbox) v = v

Reach-IsExclusive : {w w' : World} → IsExclusive w → Reach w w' → IsExclusive w'
Reach-IsExclusive v here = v
Reach-IsExclusive v (next r s) = Step-IsExclusive s (Reach-IsExclusive v r)

-- The user takes part in the call.
abbrev pub IsParty : ℤ → Session → Type 0
IsParty u s = (u ≡ s.caller) ⊎ (u ≡ s.callee)

live-some :
    (now : ℕ) (o : Option (Timed Session)) {s : Session}
    → live now o ≡ some s
    → (t : Timed Session) × (o ≡ some t) × (t.value ≡ s) × (ltb now t.expires_at ≡ true)
live-some now none h = cc
live-some now (some t) h = (t, refl, ground arith, ground arith)

party-Locks :
    (w : World) (id : String) (s : Session) (u : ℤ)
    → IsExclusive w
    → live w.clock (w.sessions id) ≡ some s
    → s.state ≡ active
    → IsParty u s
    → (until : ℕ) × Locks (w.user_calls u) id until
party-Locks w id s u v l a p =
    let (t, stored, same, unexpired) = live-some w.clock (w.sessions id) l in
    let k = v id t stored in
    let a' : t.value.state ≡ active = rw same a in
    elim p [
      | inl e ↦ (t.expires_at, rw (e, ← same) (k.caller_locked a' unexpired))
      | inr e ↦ (t.expires_at, rw (e, ← same) (k.callee_locked a' unexpired))
    ]

Locks-same :
    (o : Option (Timed String)) (i j : String) (m n : ℕ) → Locks o i m → Locks o j n → i ≡ j
Locks-same none i j m n h k = absurd h
Locks-same (some t) i j m n h k = sym h.0 ∙ k.0

-- From a store without sessions, after any steps, two active sessions that have not expired and
-- have a user in common are one session.
pub one_call_per_user :
    {start w : World}
    → ((id : String) → start.sessions id ≡ none)
    → Reach start w
    → (i j : String) (s t : Session) (u : ℤ) → live w.clock (w.sessions i) ≡ some s
    → live w.clock (w.sessions j) ≡ some t
    → s.state ≡ active
    → t.state ≡ active
    → IsParty u s
    → IsParty u t
    → i ≡ j
one_call_per_user {start} {w} empty r i j s t u li lj ai aj pi pj =
    let v = Reach-IsExclusive (λ id x e. absurd (cc (empty id, e))) r in
    let (m, lock-i) = party-Locks w i s u v li ai pi in
    let (n, lock-j) = party-Locks w j t u v lj aj pj in
    Locks-same (w.user_calls u) i j m n lock-i lock-j
