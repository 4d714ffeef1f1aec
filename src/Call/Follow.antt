-- ===== src/Call/Follow.antt =====
-- Every handler of the call service keeps what the store's writes keep.
use betterfly.Prelude.{
  ◌≡◌, refl, String, ℤ, ℕ, Bool, true, false, not, ◌||◌, Option, none, some, List, [], ◌∷◌, ◌++◌,
  arith, string_eq, All, Bool-cases, ◌⊎◌, inl, inr,
}
use betterfly.Call.Types.{
  CallState, CallType, CallEndReason, ringing, CallError, call_not_found, Description, IceCandidate,
  EventType, Session, Result, ok, err, CallEvent, ClientRequest, get_config, unset, initiate,
  accept, reject, hangup, ice_candidate, resume_call, InternalRequest, PushResult,
}
use betterfly.Call.World.{World, Env, Action, range_deadlines}
use betterfly.Call.Store.{find_session, drop_deadline, found_due, expired_of, expired_ringing}
use betterfly.Call.Keeps.{Keeps, keeps, Keeps-gets, Keeps-command, Keeps-returned, Keeps->>=}
use betterfly.Call.Initiate.{
  ⊤, publish_to_user, get_call_config, initiate_call, new_session, resume_ringing_call, is_ringing,
  is_open,
}
use betterfly.Call.Answer.{
  accept_call, terminal_pending_events, end_call, reject_call, hangup_call, drop_if_ringing,
  forward_ice,
}
use betterfly.Call.Events.{is_domain_error}
use betterfly.Call.Service.{
  dispatch, answer, is_completed, serve, handle_with, handle, cancel_unannounced, unless_missing,
  cancel_call, handle_push_result, timeout_event, timeout_operation, time_out, time_out_all,
  sweep_expired,
}
use betterfly.Call.Writes.{Edge, KeepsWrites, ended-Edge, is_open_of_ringing, accepted-Edge}

abbrev AllRinging : List Session → Type 0
AllRinging = All (λ s. s.state ≡ ringing)

AllRinging-snoc :
    (l : List Session) (s : Session) → AllRinging l → s.state ≡ ringing → AllRinging (l ++ s ∷ [])
AllRinging-snoc [] s h e = (e, tt)
AllRinging-snoc (t ∷ l) s h e = (h.0, AllRinging-snoc l s h.1 e)

ringing_of_due :
    (now : ℕ) (r : Result Session) {s : Session} → found_due now r ≡ ok (some s) → s.state ≡ ringing
unfolding found_due
ringing_of_due now (ok t) h = ground arith
ringing_of_due now (err e) h = absurd (no_session e h)
  where
    no_session : (e : CallError) {s : Session} → found_due now (err e) ≡ ok (some s) → ⊥
    no_session e h = ground arith

ok-value : {A : Type 0} {a b : A} → ok a ≡ ok b → a ≡ b
ok-value e = cc

Due-cases :
    (r : Result (Option Session))
    → ((s : Session) × (r ≡ ok (some s))) ⊎ ((r ≡ ok none) ⊎ ((c : CallError) × (r ≡ err c)))
Due-cases (ok (some s)) = inl (s, refl)
Due-cases (ok none) = inr (inl refl)
Due-cases (err c) = inr (inr (c, refl))

no-value : {A : Type 0} {c : CallError} {a : A} → err c ≡ ok a → ⊥
no-value e = cc

-- The sessions that `ExpiredRinging` returns are ringing.
expired_of-ringing :
    (env : Env) (now : ℕ) (ids : List String) (found : List Session) (w : World) {l : List Session}
    → AllRinging found
    → (expired_of env now ids found w).0 ≡ ok l
    → AllRinging l
unfolding expired_of
expired_of-ringing env now [] found w h e = rw (← ok-value e) h
expired_of-ringing env now (id ∷ ids) found w h e =
    elim (Due-cases (found_due now (find_session env id w).0)) [
      | inl (s, d) ↦
          expired_of-ringing env now ids (found ++ s ∷ []) w
            (AllRinging-snoc found s h (ringing_of_due now (find_session env id w).0 d))
            (rw (d, expired_of) at e)
      | inr (inl d) ↦
          expired_of-ringing env now ids found (drop_deadline env id w) h (rw (d, expired_of) at e)
      | inr (inr (c, d)) ↦ absurd (no-value (rw (d, expired_of) at e))
    ]

ringing_of_tests :
    (a b : Bool) (x : CallState)
    → (a || b || not (is_ringing x)) ≡ false
    → not (is_ringing x) ≡ false
ringing_of_tests a b x h = ground arith

module _ (env : Env) {IsOwn : String → Type 0} {P : World → Type 0} (k : KeepsWrites env IsOwn P)
    (own : IsOwn env.operation) where
  open k use {creates, transitions, publishes, drops}

  publish_to_user-Keeps : (user : ℤ) (event : CallEvent) → Keeps P (publish_to_user env user event)
  unfolding publish_to_user
  publish_to_user-Keeps user event = search (keeps, publishes)

  get_call_config-Keeps : (r : InternalRequest) → Keeps P (get_call_config env r)
  unfolding get_call_config
  get_call_config-Keeps r = search (keeps, publishes)

  initiate_call-Keeps :
      (r : InternalRequest) (callee : ℤ) (c : CallType) (offer : Option Description)
      → Keeps P (initiate_call env r callee c offer)
  unfolding initiate_call new_session
  initiate_call-Keeps r callee c offer = search (keeps, creates, own) depth 14

  resume_ringing_call-Keeps :
      (r : InternalRequest) (id : String) → Keeps P (resume_ringing_call env r id)
  unfolding resume_ringing_call
  resume_ringing_call-Keeps r id = search (keeps, publishes) depth 14

  accept_call-Keeps :
      (r : InternalRequest) (id : String) (answer : Option Description)
      → Keeps P (accept_call env r id answer)
  unfolding accept_call
  accept_call-Keeps r id answer = search (keeps, transitions, own, accepted-Edge) depth 14

  terminal_pending_events-Keeps :
      (r : InternalRequest) (t : Session) (kind : EventType) (now : ℕ)
      → Keeps P (terminal_pending_events env r t kind now)
  unfolding terminal_pending_events
  terminal_pending_events-Keeps r t kind now = search keeps depth 10

  end_call-Keeps :
      (r : InternalRequest) (s t : Session) (kind : EventType) (now : ℕ)
      → Edge s t true
      → Keeps P (end_call env r s t kind now)
  unfolding end_call
  end_call-Keeps r s t kind now e =
      search (keeps, terminal_pending_events-Keeps, transitions, own) depth 10

  reject_call-Keeps :
      (r : InternalRequest) (id message : String) → Keeps P (reject_call env r id message)
  unfolding reject_call
  reject_call-Keeps r id message =
      search (keeps, end_call-Keeps, ended-Edge, is_open_of_ringing) depth 14

  hangup_call-Keeps :
      (r : InternalRequest) (id : String) (reason : CallEndReason)
      → Keeps P (hangup_call env r id reason)
  unfolding hangup_call
  hangup_call-Keeps r id reason = search (keeps, end_call-Keeps, ended-Edge) depth 14

  drop_if_ringing-Keeps :
      (state : CallState) (m : Action ⊤) → Keeps P m → Keeps P (drop_if_ringing env state m)
  drop_if_ringing-Keeps state m h = record { keep = λ w p. h.keep w p }

  forward_ice-Keeps :
      (r : InternalRequest) (id : String) (c : Option IceCandidate)
      → Keeps P (forward_ice env r id c)
  unfolding forward_ice
  forward_ice-Keeps r id c = search (keeps, drop_if_ringing-Keeps, publish_to_user-Keeps) depth 14

  dispatch-Keeps : (r : InternalRequest) (c : ClientRequest) → Keeps P (dispatch env r c)
  unfolding dispatch
  dispatch-Keeps r get_config = get_call_config-Keeps r
  dispatch-Keeps r unset = search keeps
  dispatch-Keeps r (initiate callee c offer) = initiate_call-Keeps r callee c offer
  dispatch-Keeps r (accept id answer) = accept_call-Keeps r id answer
  dispatch-Keeps r (reject id message) = reject_call-Keeps r id message
  dispatch-Keeps r (hangup id reason) = hangup_call-Keeps r id reason
  dispatch-Keeps r (ice_candidate id c) = forward_ice-Keeps r id c
  dispatch-Keeps r (resume_call id) = resume_ringing_call-Keeps r id

  answer-Keeps :
      (r : InternalRequest) (c : ClientRequest) (o : Result ⊤) → Keeps P (answer env r c o)
  unfolding answer
  answer-Keeps r c (ok a) = record { keep = λ w p. p }
  answer-Keeps r c (err e) = record {
    keep = λ w p. elim (Bool-cases (is_domain_error e)) [
      | inl d ↦ rw d ((publishes _ _ _).keep w p)
      | inr d ↦ rw d p
    ];
  }

  is_completed-Keeps : Keeps P (is_completed env)
  unfolding is_completed
  is_completed-Keeps = search keeps

  serve-Keeps : (r : InternalRequest) (c : ClientRequest) → Keeps P (serve env r c)
  unfolding serve
  serve-Keeps r c = search (keeps, dispatch-Keeps, answer-Keeps)

  handle_with-Keeps :
      (r : InternalRequest) (o : Option ClientRequest) → Keeps P (handle_with env r o)
  unfolding handle_with
  handle_with-Keeps r none = search keeps
  handle_with-Keeps r (some c) = search (keeps, is_completed-Keeps, serve-Keeps) depth 8

  pub handle-Keeps : (r : InternalRequest) → Keeps P (handle env r)
  unfolding handle
  handle-Keeps r = handle_with-Keeps r r.request

  cancel_unannounced-Keeps :
      (result : PushResult) (s : Session) → Keeps P (cancel_unannounced env result s)
  unfolding cancel_unannounced
  cancel_unannounced-Keeps result s =
      search (keeps, transitions, own, ended-Edge, is_open_of_ringing, ringing_of_tests) depth 14

  unless_missing-Keeps :
      (result : PushResult) (o : Result Session)
      → Keeps P (unless_missing env (cancel_unannounced env result) o)
  unless_missing-Keeps result (ok s) = cancel_unannounced-Keeps result s
  unless_missing-Keeps result (err call_not_found) = search keeps
  unless_missing-Keeps result (err e) = search keeps

  cancel_call-Keeps : (result : PushResult) → Keeps P (cancel_call env result)
  unfolding cancel_call
  cancel_call-Keeps result = search (keeps, unless_missing-Keeps) depth 8

  pub handle_push_result-Keeps : (result : PushResult) → Keeps P (handle_push_result env result)
  unfolding handle_push_result
  handle_push_result-Keeps result = search (keeps, cancel_call-Keeps) depth 8

module _ (env : Env) {IsOwn : String → Type 0} {P : World → Type 0} (k : KeepsWrites env IsOwn P)
    (own : (s : Session) → IsOwn (timeout_operation env s)) where
  open k use {transitions, drops}

  expired_of-Keeps :
      (now : ℕ) (ids : List String) (found : List Session) → Keeps P (expired_of env now ids found)
  unfolding expired_of
  expired_of-Keeps now [] found = record { keep = λ w p. p }
  expired_of-Keeps now (id ∷ ids) found = record {
    keep = λ w p. elim (Due-cases (found_due now (find_session env id w).0)) [
      | inl (s, d) ↦ rw (d, expired_of) ((expired_of-Keeps now ids (found ++ s ∷ [])).keep w p)
      | inr (inl d) ↦
          rw (d, expired_of)
            ((expired_of-Keeps now ids found).keep (drop_deadline env id w) (drops id w p))
      | inr (inr (c, d)) ↦ rw (d, expired_of) p
    ];
  }

  expired_ringing-Keeps : (now limit : ℕ) → Keeps P (expired_ringing env now limit)
  unfolding expired_ringing
  expired_ringing-Keeps now limit =
      Keeps-command env _ (record { keep = λ w p. (expired_of-Keeps now _ []).keep w p })

  timeout_event-Keeps :
      (op : String) (t : Session) (user other : ℤ) (now : ℕ)
      → Keeps P (timeout_event env op t user other now)
  unfolding timeout_event
  timeout_event-Keeps op t user other now = search keeps

  time_out-Keeps : (now : ℕ) (s : Session) → s.state ≡ ringing → Keeps P (time_out env now s)
  unfolding time_out
  time_out-Keeps now s r =
      let closed : not (is_open s.state) ≡ false = rw r in
      search (keeps, transitions, own, ended-Edge, timeout_event-Keeps, closed) depth 14

  time_out_all-Keeps :
      (now : ℕ) (l : List Session) → AllRinging l → Keeps P (time_out_all env now l)
  unfolding time_out_all
  time_out_all-Keeps now [] h = search keeps
  time_out_all-Keeps now (s ∷ l) h =
      Keeps->>= (time_out-Keeps now s h.0) λ _. time_out_all-Keeps now l h.1

  expired_ringing-ringing :
      (now limit : ℕ) (w : World) {l : List Session}
      → (expired_ringing env now limit w).0 ≡ ok l
      → AllRinging l
  unfolding expired_ringing
  expired_ringing-ringing now limit w e = elim (Bool-cases (env.fails range_deadlines)) [
    | inl f ↦ absurd (no-value (rw (f, expired_ringing) at e))
    | inr f ↦ elim (Bool-cases (env.loses range_deadlines)) [
      | inl l ↦ absurd (no-value (rw (f, l, expired_ringing) at e))
      | inr l ↦ expired_of-ringing env now _ [] w tt (rw (f, l, expired_ringing) at e)
    ]
  ]

  pub sweep_expired-Keeps : Keeps P (sweep_expired env)
  unfolding sweep_expired
  sweep_expired-Keeps = Keeps->>= (Keeps-gets _) λ now.
      Keeps-returned (expired_ringing env now 100) _ (expired_ringing-Keeps now 100)
        λ l w e. time_out_all-Keeps now l (expired_ringing-ringing now 100 w e)
