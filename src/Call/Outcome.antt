-- ===== src/Call/Outcome.antt =====
-- What the handlers answer: failures leave the world alone, and a success tells what was so.
use betterfly.Prelude.{
  false, ◌≡◌, refl, ◌∙◌, String, ℤ, ℕ, Bool, Option, List, arith, string_eq, int_eq,
}
use betterfly.Call.Types.{
  CallError, CallState, ringing, active, Session, session_eq, Result, ok, err, PendingEvent,
  Description, ClientRequest, InternalRequest, CallType, CallEndReason, IceCandidate, EventType,
  CallEvent, get_config, unset, initiate, accept, reject, hangup, ice_candidate, resume_call,
}
use betterfly.Call.World.{
  Command, create_script, transition_script, publish_to, World, Env, Action, pure, raise, gets,
  lift, continue, ◌>>=◌, ◌>>◌, refuse_if, unless_offline,
}
use betterfly.Call.Store.{create_session_with_events, transition_session_with_events, user_topic}
use betterfly.Call.Keeps.{Reads, reads, Reads-user_topic}
use betterfly.Call.Initiate.{
  ⊤, publish_to_topic, publish_to_user, get_call_config, initiate_call, resume_ringing_call,
}
use betterfly.Call.Answer.{
  accept_call, terminal_pending_events, end_call, reject_call, hangup_call, offline_as_done,
  drop_if_ringing, forward_ice,
}
use betterfly.Call.Service.{dispatch}

-- An action that fails has changed nothing.
pub record Atomic {A : Type 0} (m : Action A) : Type 0 where
  pub same : (w : World) {e : CallError} → (m w).0 ≡ err e → (m w).1 ≡ w

module _ {A B : Type 0} where
  Atomic-continue :
      (r : Result A) (f : A → Action B) (w w' : World) {e : CallError}
      → w' ≡ w
      → ((a : A) → Atomic (f a))
      → (continue r f w').0 ≡ err e
      → (continue r f w').1 ≡ w
  Atomic-continue (ok a) f w w' same k h = (k a).same w' h ∙ same
  Atomic-continue (err c) f w w' same k h = same

  -- Reading first keeps an action atomic.
  Atomic-Reads :
      (m : Action A) (f : A → Action B) → Reads m → ((a : A) → Atomic (f a)) → Atomic (m >>= f)
  unfolding ◌>>=◌
  Atomic-Reads m f r k = record { same = λ w h. Atomic-continue (m w).0 f w (m w).1 (r.same w) k h }

  Reads-continue :
      (r : Result A) (f : A → Action B) (w w' : World)
      → w' ≡ w
      → ((a : A) → Reads (f a))
      → (continue r f w').1 ≡ w
  Reads-continue (ok a) f w w' same k = (k a).same w' ∙ same
  Reads-continue (err c) f w w' same k = same

  Reads->>= :
      (m : Action A) (f : A → Action B) → Reads m → ((a : A) → Reads (f a)) → Reads (m >>= f)
  unfolding ◌>>=◌
  Reads->>= m f r k = record { same = λ w. Reads-continue (m w).0 f w (m w).1 (r.same w) k }

module _ {A : Type 0} where
  -- An action whose last step is its only write.
  Atomic-finish : (m : Action A) → Atomic m → Atomic (m >> pure tt)
  unfolding ◌>>=◌
  Atomic-finish m k = record { same = λ w h. go (m w).0 w refl h }
    where
      go :
          (r : Result A) (w : World) {e : CallError}
          → (m w).0 ≡ r
          → (continue r (λ a. pure tt) (m w).1).0 ≡ err e
          → (continue r (λ a. pure tt) (m w).1).1 ≡ w
      go (ok a) w q h = cc
      go (err c) w q h = k.same w q

  Reads-pure : (a : A) → Reads (pure a)
  unfolding pure
  Reads-pure a = record { same = λ w. refl }

  Reads-gets : (f : World → A) → Reads (gets f)
  unfolding gets
  Reads-gets f = record { same = λ w. refl }

  Reads-lift : (r : Result A) → Reads (lift r)
  unfolding lift
  Reads-lift r = record { same = λ w. refl }

  pub Reads-unless_offline : (m : Action A) → Reads m → Reads (unless_offline m)
  unfolding unless_offline
  Reads-unless_offline m r = record { same = λ w. r.same w }

Reads-refuse_if : (b : Bool) (e : CallError) → Reads (refuse_if b e)
unfolding refuse_if
Reads-refuse_if b e = record { same = λ w. refl }

-- Every command whose effect has come about is answered.
abbrev pub IsHeard : Env → Type 0
IsHeard env = (c : Command) → env.loses c ≡ false

Atomic-publish :
    (env : Env) (topic : String) (user : ℤ) (event : CallEvent)
    → IsHeard env
    → Atomic (publish_to_topic env topic user event)
unfolding publish_to_topic
Atomic-publish env topic user event heard = record {
  same = λ w h. ground (arith, heard (publish_to topic));
}

Atomic-user :
    (env : Env) (user : ℤ) (event : CallEvent)
    → IsHeard env
    → Atomic (publish_to_user env user event)
unfolding publish_to_user
Atomic-user env user event heard =
    Atomic-Reads (user_topic env user) _ (Reads-user_topic env user)
      λ topic. Atomic-publish env topic user event heard

ruleset atomic = (
  Atomic-Reads, Reads-gets, Reads-lift, Reads-unless_offline, Reads-refuse_if, reads,
  Atomic-publish,
)

offline_as_done-err :
    (env : Env) (state : CallState) (r : Result ⊤) {e : CallError}
    → offline_as_done env state r ≡ err e
    → (c : CallError) × (r ≡ err c)
offline_as_done-err env ringing (ok a) h = cc
offline_as_done-err env active (ok a) h = cc
offline_as_done-err env CallState.ended (ok a) h = cc
offline_as_done-err env state (err c) h = (c, refl)

module _ (env : Env) (heard : IsHeard env) where
  Atomic-drop : (state : CallState) (m : Action ⊤) → Atomic m → Atomic (drop_if_ringing env state m)
  Atomic-drop state m k = record {
    same = λ w h. k.same w (offline_as_done-err env state (m w).0 h).1;
  }

  Atomic-get_config : (r : InternalRequest) → Atomic (get_call_config env r)
  unfolding get_call_config
  Atomic-get_config r = search atomic depth 8

  Atomic-create :
      (s : Session) (op : String) (events : List PendingEvent)
      → Atomic (create_session_with_events env s op events)
  unfolding create_session_with_events
  Atomic-create s op events = record { same = λ w h. ground (arith, heard create_script) }

  Atomic-transition :
      (s t : Session) (terminal : Bool) (op : String) (events : List PendingEvent)
      → Atomic (transition_session_with_events env s t terminal op events)
  unfolding transition_session_with_events
  Atomic-transition s t terminal op events = record {
    same = λ w h. ground (arith, heard transition_script);
  }

  ruleset writes = (atomic, Atomic-finish, Atomic-create, Atomic-transition)

  Atomic-initiate :
      (r : InternalRequest) (callee : ℤ) (c : CallType) (offer : Option Description)
      → Atomic (initiate_call env r callee c offer)
  unfolding initiate_call
  Atomic-initiate r callee c offer = search writes depth 14

  Atomic-resume : (r : InternalRequest) (id : String) → Atomic (resume_ringing_call env r id)
  unfolding resume_ringing_call
  Atomic-resume r id = search writes depth 14

  Atomic-accept :
      (r : InternalRequest) (id : String) (a : Option Description) → Atomic (accept_call env r id a)
  unfolding accept_call
  Atomic-accept r id a = search writes depth 14

  -- The events of the end of a call are gathered by reading.
  Reads-terminal :
      (r : InternalRequest) (t : Session) (kind : EventType) (now : ℕ)
      → Reads (terminal_pending_events env r t kind now)
  unfolding terminal_pending_events
  Reads-terminal r t kind now =
      search (Reads->>=, Reads-pure, Reads-lift, Reads-unless_offline, reads)

  Atomic-end_call :
      (r : InternalRequest) (s t : Session) (kind : EventType) (now : ℕ)
      → Atomic (end_call env r s t kind now)
  unfolding end_call
  Atomic-end_call r s t kind now = search (writes, Reads-terminal) depth 10

  Atomic-reject :
      (r : InternalRequest) (id message : String) → Atomic (reject_call env r id message)
  unfolding reject_call
  Atomic-reject r id message = search (writes, Atomic-end_call) depth 14

  Atomic-hangup :
      (r : InternalRequest) (id : String) (reason : CallEndReason)
      → Atomic (hangup_call env r id reason)
  unfolding hangup_call
  Atomic-hangup r id reason = search (writes, Atomic-end_call) depth 14

  Atomic-ice :
      (r : InternalRequest) (id : String) (c : Option IceCandidate)
      → Atomic (forward_ice env r id c)
  unfolding forward_ice
  Atomic-ice r id c = search (writes, Atomic-drop, Atomic-user) depth 14

-- A client request that fails, for whatever reason but that the reply of a command that ran is lost,
-- has neither written to Redis nor published: the one write of a handler is its last step. The handlers' answers to failures come after this.
pub dispatch_atomic :
    (env : Env) (r : InternalRequest) (c : ClientRequest) (w : World) {e : CallError}
    → IsHeard env
    → (dispatch env r c w).0 ≡ err e
    → (dispatch env r c w).1 ≡ w
unfolding dispatch raise
dispatch_atomic env r get_config w heard h = (Atomic-get_config env heard r).same w h
dispatch_atomic env r unset w heard h = refl
dispatch_atomic env r (initiate callee c offer) w heard h =
    (Atomic-initiate env heard r callee c offer).same w h
dispatch_atomic env r (accept id a) w heard h = (Atomic-accept env heard r id a).same w h
dispatch_atomic env r (reject id message) w heard h =
    (Atomic-reject env heard r id message).same w h
dispatch_atomic env r (hangup id reason) w heard h = (Atomic-hangup env heard r id reason).same w h
dispatch_atomic env r (ice_candidate id c) w heard h = (Atomic-ice env heard r id c).same w h
dispatch_atomic env r (resume_call id) w heard h = (Atomic-resume env heard r id).same w h
