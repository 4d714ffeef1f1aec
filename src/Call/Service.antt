-- ===== src/Call/Service.antt =====
-- The entry points of the call service: `Handle`, `HandlePushResult` and `SweepExpired` of
-- services/callService/internal/call/service.go.
use Prim.Native.String.{◌++◌ as str_append}
use betterfly.Prelude.{
  ℕ, ℤ, String, is_blank, is_positive, Bool, true, false, not, ◌||◌, Option, none, some, List, [],
  ◌∷◌, ◌++◌, ◌==◌, int_eq, string_eq, if◌then◌else◌,
}
use betterfly.Call.Types.{
  cancelled, timeout, invalid_state, invalid_input, call_not_found, Result, ok, err, Session,
  call_ended, PendingEvent, ClientRequest, get_config, unset, initiate, accept, reject, hangup,
  ice_candidate, resume_call, InternalRequest, PushResult,
}
use betterfly.Call.World.{
  World, Env, Action, pure, raise, gets, lift, ◌>>=◌, ◌>>◌, refuse_if, attempt, unless_offline,
}
use betterfly.Call.Store.{
  transition_session_with_events, operation_completed, find_session, user_topic, expired_ringing,
}
use betterfly.Call.Initiate.{
  ⊤, publish_to_topic, get_call_config, initiate_call, resume_ringing_call, is_ringing,
}
use betterfly.Call.Answer.{accept_call, reject_call, hangup_call, forward_ice, ended_session}
use betterfly.Call.Events.{
  session_event, error_event, is_domain_error, pending_call_delivery, request_call_id,
}

module _ (env : Env) where
  -- The `switch` of `Handle`.
  unfoldable pub dispatch : InternalRequest → ClientRequest → Action ⊤
  dispatch request get_config = get_call_config env request
  dispatch request unset = raise invalid_input
  dispatch request (initiate callee call_type offer) =
      initiate_call env request callee call_type offer
  dispatch request (accept id answer) = accept_call env request id answer
  dispatch request (reject id message) = reject_call env request id message
  dispatch request (hangup id reason) = hangup_call env request id reason
  dispatch request (ice_candidate id candidate) = forward_ice env request id candidate
  dispatch request (resume_call id) = resume_ringing_call env request id

  -- A domain error is answered with an error event; any other is returned.
  unfoldable pub answer : InternalRequest → ClientRequest → Result ⊤ → Action ⊤
  unfolding publish_to_topic error_event request_call_id
  answer request client (ok a) w = (ok tt, w)
  answer request client (err e) w =
      if is_domain_error e
      then publish_to_topic env request.from_topic request.user_id
          (error_event (request_call_id client) e w.clock) w
      else (err e, w)

  -- Whether the operation has a record; without an operation key the store is not asked.
  unfoldable pub is_completed : Action Bool
  is_completed = if env.operation == "" then pure false else operation_completed env env.operation

  unfoldable pub serve : InternalRequest → ClientRequest → Action ⊤
  unfolding answer
  serve request client = do
    outcome ← attempt (dispatch request client)
    answer request client outcome

  -- `Handle`.
  unfoldable pub handle_with : InternalRequest → Option ClientRequest → Action ⊤
  unfolding serve is_completed
  handle_with request none = raise invalid_input
  handle_with request (some client) = do
    refuse_if (not (is_positive request.user_id) || request.from_topic == "") invalid_input
    completed ← is_completed
    if completed then pure tt else serve request client

  unfoldable pub handle : InternalRequest → Action ⊤
  unfolding handle_with
  handle request = handle_with request request.request

  -- What a call that a push could not announce becomes, and the event for its caller.
  unfoldable pub push_failure_events : Session → Option String → ℕ → List PendingEvent
  unfolding session_event pending_call_delivery
  push_failure_events t none now = []
  push_failure_events t (some topic) now =
      pending_call_delivery env env.operation "push-failure-ended" topic t.caller
        (session_event call_ended t t.callee now)
      ∷ []

  -- `handlePushResultAtomic` with the session at hand.
  unfoldable pub cancel_unannounced : PushResult → Session → Action ⊤
  unfolding push_failure_events ended_session
  cancel_unannounced result s =
      if not (s.caller == result.caller)
        || not (s.callee == result.callee)
        || not (is_ringing s.state)
      then pure tt
      else (do
        route ← unless_offline (user_topic env s.caller)
        now ← gets World.clock
        let t = ended_session s cancelled result.reason now
        transition_session_with_events env s t true env.operation (push_failure_events t route now)
        pure tt)

  -- A call that is not found is done with.
  abbrev pub unless_missing : (Session → Action ⊤) → Result Session → Action ⊤
  unless_missing f (ok s) = f s
  unless_missing f (err call_not_found) = pure tt
  unless_missing f (err e) = raise e

  -- `handlePushResultAtomic`.
  unfoldable pub cancel_call : PushResult → Action ⊤
  unfolding cancel_unannounced
  cancel_call result = do
    refuse_if (env.operation == "") invalid_input
    found ← attempt (find_session env result.call_id)
    unless_missing (cancel_unannounced result) found

  -- `HandlePushResult`.
  unfoldable pub handle_push_result : PushResult → Action ⊤
  unfolding cancel_call
  handle_push_result result = do
    refuse_if (is_blank result.call_id) invalid_input
    if result.accepted || not result.required then pure tt else cancel_call result

  -- The timeout event for one of the two users, if there is a route to them.
  unfoldable pub timeout_event : String → Session → ℤ → ℤ → ℕ → Action (List PendingEvent)
  unfolding session_event pending_call_delivery
  timeout_event operation t user other now = do
    route ← unless_offline (user_topic env user)
    pure (elim route [
      | none ↦ []
      | some topic ↦
          pending_call_delivery env operation (str_append "timeout-" (env.show_id user)) topic user
            (session_event call_ended t other now)
          ∷ []
    ])

  -- An invalid state means that another transition was first.
  abbrev pub outrun_as_done : Result Bool → Result ⊤
  outrun_as_done (ok b) = ok tt
  outrun_as_done (err invalid_state) = ok tt
  outrun_as_done (err e) = err e

  -- The operation key of a timeout.
  unfoldable pub timeout_operation : Session → String
  timeout_operation s =
      str_append "call-timeout:"
        (str_append s.id (str_append ":" (env.show_id (ℤ.pos s.ring_deadline))))

  -- The body of the loop of `SweepExpired`.
  unfoldable pub time_out : ℕ → Session → Action ⊤
  unfolding timeout_event timeout_operation ended_session
  time_out now s = do
    let t = ended_session s timeout "call timed out" now
    let operation = timeout_operation s
    to_caller ← timeout_event operation t s.caller s.callee now
    to_callee ← timeout_event operation t s.callee s.caller now
    outcome ←
        attempt (transition_session_with_events env s t true operation (to_caller ++ to_callee))
    lift (outrun_as_done outcome)

  unfoldable pub time_out_all : ℕ → List Session → Action ⊤
  unfolding time_out
  time_out_all now [] = pure tt
  time_out_all now (s ∷ rest) = do time_out now s; time_out_all now rest

  -- `SweepExpired`.
  unfoldable pub sweep_expired : Action ⊤
  unfolding time_out_all
  sweep_expired = do
    now ← gets World.clock
    sessions ← expired_ringing env now 100
    time_out_all now sessions
