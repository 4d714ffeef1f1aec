-- ===== src/Call/Lifecycle.antt =====
-- What one invocation does to a stored session: it moves along the life of a call.
use betterfly.Prelude.{
  ◌≡◌, ◌≢◌, ◌∙◌, inl, inr, String, ℤ, ℕ, Bool, true, Option, none, some, List, arith, ◌==◌,
  string_eq, Bool-cases,
}
use betterfly.Call.Types.{Session, session_eq, PendingEvent, InternalRequest, PushResult, CallEvent}
use betterfly.Call.World.{Timed, World, Env, live, publish_to, remove_deadline}
use betterfly.Call.Store.{
  created, transitioned, run_create, run_transition, create_session_with_events,
  transition_session_with_events, drop_deadline, holds, is_current,
}
use betterfly.Call.Store.Outcomes.{run_create-cases, run_transition-cases, read_reply-same}
use betterfly.Call.Initiate.{publish_to_topic}
use betterfly.Call.Events.{call_id_for_context}
use betterfly.Call.Keeps.{Keeps, Keeps-command}
use betterfly.Call.Writes.{Edge, KeepsWrites}
use betterfly.Call.Service.{handle, handle_push_result, sweep_expired}
use betterfly.Call.Follow.{handle-Keeps, handle_push_result-Keeps, sweep_expired-Keeps}

-- A session's life: no change, or steps of the call's state machine between the same users.
pub data Lives (s : Session) : Session → Type 0 where
  stays : Lives s s
  moves : {t u : Session} {terminal : Bool} → Lives s t → Edge t u terminal → Lives s u

-- The session at a key is still there, and has lived on.
abbrev pub LivesOn : Option (Timed Session) → Option (Timed Session) → Type 0
LivesOn none after = Unit
LivesOn (some s) none = ⊥
LivesOn (some s) (some t) = Lives s.value t.value

-- All sessions live on, but for the one id that the invocation may create.
abbrev pub AllLive : Env → World → World → Type 0
AllLive env w w' =
    (id : String) → id ≢ call_id_for_context env → LivesOn (w.sessions id) (w'.sessions id)

LivesOn-refl : (o : Option (Timed Session)) → LivesOn o o
LivesOn-refl none = tt
LivesOn-refl (some t) = Lives.stays

LivesOn-Edge :
    (o o' : Option (Timed Session)) {s t : Session} {terminal : Bool} (now until : ℕ)
    → LivesOn o o'
    → holds (λ x. x == s) (live now o') ≡ true
    → Edge s t terminal
    → LivesOn o (some (record { value = t; expires_at = until }))
LivesOn-Edge none o' now until l h e = tt
LivesOn-Edge (some a) none now until l h e = absurd l
LivesOn-Edge (some a) (some b) {s} now until l h e = Lives.moves (rw found at l) e
  where
    found : b.value ≡ s
    found = ground (arith, session_eq.beq_iff b.value s)

module _ (env : Env) (start : World) where
  abbrev P : World → Type 0
  P = AllLive env start

  created-AllLive :
      (s : Session) (op : String) (events : List PendingEvent) (w : World)
      → s.id ≡ call_id_for_context env
      → P w
      → P (created env s op events w)
  unfolding created
  created-AllLive s op events w own p id ne = elim (Bool-cases (string_eq.beq id s.id)) [
    | inl e ↦ absurd (ne ((string_eq.beq_iff id s.id).0 e ∙ own))
    | inr e ↦ rw e (p id ne)
  ]

  transitioned-AllLive :
      (s t : Session) (terminal : Bool) (op : String) (events : List PendingEvent) (w : World)
      → is_current w t.id s ≡ true
      → Edge s t terminal
      → P w
      → P (transitioned env t terminal op events w)
  unfolding transitioned
  transitioned-AllLive s t terminal op events w current e p id ne =
      elim (Bool-cases (string_eq.beq id t.id)) [
        | inl q ↦
            let same = (string_eq.beq_iff id t.id).0 q in
            rw q (
              LivesOn-Edge (start.sessions id) (w.sessions id) w.clock _ (p id ne) (rw same current)
                e)
        | inr q ↦ rw q (p id ne)
      ]

  create-Keeps :
      (s : Session) (op : String) (events : List PendingEvent)
      → s.id ≡ call_id_for_context env
      → Keeps P (create_session_with_events env s op events)
  unfolding create_session_with_events
  create-Keeps s op events own = Keeps-command env _ (record {
    keep = λ w p.
        let (reply, w') = run_create env s op events w in
        rw (read_reply-same _ reply w') (elim (run_create-cases env s op events w) [
          | inl same ↦ rw same.1 p
          | inr (guards, e) ↦ rw e (created-AllLive s op events w own p)
        ]);
  })

  transition-Keeps :
      (s t : Session) (terminal : Bool) (op : String) (events : List PendingEvent)
      → Edge s t terminal
      → Keeps P (transition_session_with_events env s t terminal op events)
  unfolding transition_session_with_events
  transition-Keeps s t terminal op events edge = Keeps-command env _ (record {
    keep = λ w p.
        let (reply, w') = run_transition env s t terminal op events w in
        rw (read_reply-same _ reply w') (elim (run_transition-cases env s t terminal op events w) [
          | inl same ↦ rw same.1 p
          | inr (guards, e) ↦
              rw e (transitioned-AllLive s t terminal op events w guards.current edge p)
        ]);
  })

  publish-Keeps :
      (topic : String) (user : ℤ) (event : CallEvent)
      → Keeps P (publish_to_topic env topic user event)
  unfolding publish_to_topic
  publish-Keeps topic user event = record {
    keep =
        λ w v. elim (Bool-cases (env.fails (publish_to topic))) [ inl e ↦ rw e v | inr e ↦ rw e v ];
  }

  drop-keeps : (id : String) (w : World) → P w → P (drop_deadline env id w)
  unfolding drop_deadline
  drop-keeps id w v = elim (Bool-cases (env.fails (remove_deadline id))) [
    | inl e ↦ rw e v
    | inr e ↦ rw e v
  ]

  AllLive-KeepsWrites : KeepsWrites env (λ op. Unit {0}) P
  AllLive-KeepsWrites = record {
    creates = λ s op events o r own. create-Keeps s op events own;
    transitions = λ s t terminal op events o e. transition-Keeps s t terminal op events e;
    publishes = publish-Keeps;
    drops = drop-keeps;
  }

  unchanged : P start
  unchanged id ne = LivesOn-refl (start.sessions id)

-- A request, a push result or a sweep leaves every stored session in place, apart from the one id
-- that its own operation key names, or moves it from ringing to active or from either to ended,
-- between the same two users and under the same id; of these, a session that has ended stays ended.
-- The id of the invocation's own operation key is left out: a session is created under it.
pub invocations_follow_lifecycle :
    (env : Env) (w : World)
    → ((r : InternalRequest) → AllLive env w (handle env r w).1)
      × ((r : PushResult) → AllLive env w (handle_push_result env r w).1)
      × AllLive env w (sweep_expired env w).1
invocations_follow_lifecycle env w =
    let k = AllLive-KeepsWrites env w in
    let start = unchanged env w in
    (
      λ r. (handle-Keeps env k tt r).keep w start,
      λ r. (handle_push_result-Keeps env k tt r).keep w start,
      (sweep_expired-Keeps env k (λ s. tt)).keep w start,
    )
