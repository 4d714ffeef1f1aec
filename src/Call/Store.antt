-- ===== src/Call/Store.antt =====
-- The Redis store of the call service: services/callService/internal/call/store.go. Each Lua
-- script is one function on the whole state, as Redis runs it; `none` is a script that Redis
-- aborts, which here it does before the first write, at an expiry of no whole millisecond.
pub mod Config
pub mod Locks
pub mod Outcomes
pub mod Exclusive
use Prim.Native.String.{compare, ◌++◌ as str_append}
use text.Mathlib.Text.{is_lt, starts_with}
use betterfly.Prelude.{
  ℕ, ℤ, String, ◌+◌, ◌-◌, ◌*◌, ◌/◌, ◌≤◌, Bool, true, false, not, ◌&&◌, ◌||◌, Option, none, some,
  List, [], ◌∷◌, ◌++◌, ltb, leb, ◌==◌, nat_eq, int_eq, string_eq, update, take, map, if◌then◌else◌,
}
use betterfly.Call.Types.{
  CallState, ringing, active, ended, CallError, user_offline, user_busy, call_not_found,
  invalid_state, store_failure, Result, ok, err, Session, session_eq, PendingEvent,
}
use betterfly.Call.World.{
  Timed, World, Command, exists_operation, create_script, transition_script, range_deadlines,
  get_route, get_lease, get_session, remove_deadline, Env, live, exists, Action,
}

abbrev pub millisecond : ℕ
millisecond = 1_000_000

abbrev pub second : ℕ
second = 1_000_000_000

abbrev pub minute : ℕ
minute = 60_000_000_000

-- `terminatedTTL` and `cleanupGrace` of `NewRedisStore`.
abbrev pub terminated_ttl : ℕ
terminated_ttl = 5 * minute

abbrev pub cleanup_grace : ℕ
cleanup_grace = minute

-- `SET ... PX` takes whole milliseconds.
abbrev pub set_px : {V : Type 0} → ℕ → ℕ → V → Option (Timed V)
set_px now ttl v = some (record { value = v; expires_at = now + ttl / millisecond * millisecond })

-- The order of a sorted set: by score, then by member.
abbrev before : String × ℕ → String × ℕ → Bool
before (m, s) (n, t) = ltb s t || s == t && is_lt (compare m n)

insert_sorted : String × ℕ → List (String × ℕ) → List (String × ℕ)
insert_sorted e [] = e ∷ []
insert_sorted e (d ∷ ds) =
    let rest = insert_sorted e ds in if before e d then e ∷ d ∷ ds else d ∷ rest

-- `ZREM`.
unfoldable pub zrem : String → List (String × ℕ) → List (String × ℕ)
zrem m [] = []
zrem m ((n, t) ∷ ds) = let rest = zrem m ds in if n == m then rest else (n, t) ∷ rest

-- `ZADD`.
unfoldable pub zadd : String → ℕ → List (String × ℕ) → List (String × ℕ)
unfolding insert_sorted zrem
zadd m t ds = insert_sorted (m, t) (zrem m ds)

-- The members of `ZRANGEBYSCORE key -inf max`.
unfoldable pub members_upto : ℕ → List (String × ℕ) → List String
members_upto max [] = []
members_upto max ((m, t) ∷ ds) =
    let rest = members_upto max ds in if leb t max then m ∷ rest else rest

-- What a script returns: 0, 1 or 2.
pub data Reply : Type 0 where
  refused done replayed : Reply

-- The time to live of a new session: `time.Until(session.RingDeadline)`, or the configured one.
unfoldable pub create_ttl : Env → Session → World → ℕ
create_ttl env s w =
    if leb s.ring_deadline w.clock then env.store_ring_ttl else s.ring_deadline - w.clock

-- The writes of `createSessionWithEventsScript`.
unfoldable pub created : Env → Session → String → List PendingEvent → World → World
unfolding create_ttl zadd
created env s operation events w =
    let ttl = create_ttl env s w in
    record w {
      user_calls =
          update s.callee (set_px w.clock ttl s.id)
            (update s.caller (set_px w.clock ttl s.id) w.user_calls);
      sessions = update s.id (set_px w.clock (ttl + cleanup_grace) s) w.sessions;
      deadlines = zadd s.id (s.ring_deadline / second) w.deadlines;
      operations =
          update (env.sha256_hex operation) (set_px w.clock env.operation_ttl "1") w.operations;
      outbox = w.outbox ++ events;
    }

-- `createSessionWithEventsScript`.
unfoldable pub run_create :
    Env → Session → String → List PendingEvent → World → Option Reply × World
run_create env s operation events w =
    if exists w.clock (w.operations (env.sha256_hex operation))
    then (some replayed, w)
    else if exists w.clock (w.user_calls s.caller) || exists w.clock (w.user_calls s.callee)
    then (some refused, w)
    else if create_ttl env s w / millisecond == 0
    then (none, w)
    else (some done, created env s operation events w)

-- `GET key == value`.
abbrev pub holds : {V : Type 0} → (V → Bool) → Option V → Bool
holds p none = false
holds p (some v) = p v

-- `if GET key == id then DEL key end`.
abbrev pub release : ℕ → ℤ → String → (ℤ → Option (Timed String)) → ℤ → Option (Timed String)
release now user id calls =
    if holds (λ v. v == id) (live now (calls user)) then update user none calls else calls

-- `PEXPIRE` of a key that exists.
abbrev pub expire : ℕ → ℕ → ℤ → (ℤ → Option (Timed String)) → ℤ → Option (Timed String)
expire now ttl user calls = elim (calls user) [
  | none ↦ calls
  | some t ↦ update user (set_px now ttl t.value) calls
]

-- The time to live of an updated session, by its state.
unfoldable pub transition_ttl : Env → CallState → ℕ → ℕ → ℕ
transition_ttl env ended deadline now = terminated_ttl
transition_ttl env ringing deadline now = deadline + cleanup_grace - now
transition_ttl env active deadline now = env.active_ttl

-- The writes of `transitionSessionWithEventsScript`.
unfoldable pub transitioned : Env → Session → Bool → String → List PendingEvent → World → World
unfolding transition_ttl zrem
transitioned env updated terminal operation events w =
    let ttl = transition_ttl env updated.state updated.ring_deadline w.clock in
    record w {
      sessions = update updated.id (set_px w.clock ttl updated) w.sessions;
      deadlines = zrem updated.id w.deadlines;
      user_calls =
          if terminal
          then release w.clock updated.callee updated.id
              (release w.clock updated.caller updated.id w.user_calls)
          else expire w.clock ttl updated.callee (expire w.clock ttl updated.caller w.user_calls);
      operations =
          update (env.sha256_hex operation) (set_px w.clock env.operation_ttl "1") w.operations;
      outbox = w.outbox ++ events;
    }

-- `GET call:user:<user> == id`.
abbrev pub is_held : World → ℤ → String → Bool
is_held w user id = holds (λ v. v == id) (live w.clock (w.user_calls user))

-- `GET call:session:<id> == expected`.
abbrev pub is_current : World → String → Session → Bool
is_current w id expected = holds (λ s. s == expected) (live w.clock (w.sessions id))

-- `transitionSessionWithEventsScript`.
unfoldable pub run_transition :
    Env → Session → Session → Bool → String → List PendingEvent → World → Option Reply × World
run_transition env expected updated terminal operation events w =
    if exists w.clock (w.operations (env.sha256_hex operation))
    then (some replayed, w)
    else if not (is_current w updated.id expected)
    then (some refused, w)
    else if not terminal
        && not (is_held w updated.caller updated.id && is_held w updated.callee updated.id)
    then (some refused, w)
    else if transition_ttl env updated.state updated.ring_deadline w.clock / millisecond == 0
    then (none, w)
    else (some done, transitioned env updated terminal operation events w)

-- What the Go code makes of a script's reply; 0 is the given error.
abbrev pub read_reply : CallError → Option Reply × World → Result Bool × World
read_reply e (none, w) = (err store_failure, w)
read_reply e (some refused, w) = (err e, w)
read_reply e (some done, w) = (ok false, w)
read_reply e (some replayed, w) = (ok true, w)

-- A command may fail and change nothing; one that runs with its reply lost is an error as well.
abbrev pub command : {A : Type 0} → Env → Command → Action A → Action A
command env c m w =
    if env.fails c
    then (err store_failure, w)
    else if env.loses c
    then (err store_failure, (m w).1)
    else m w

-- `CreateSessionWithEvents`: whether the operation was a replay.
unfoldable pub create_session_with_events : Env → Session → String → List PendingEvent → Action Bool
unfolding run_create
create_session_with_events env s operation events =
    command env create_script (λ w. read_reply user_busy (run_create env s operation events w))

-- `TransitionSessionWithEvents`.
unfoldable pub transition_session_with_events :
    Env → Session → Session → Bool → String → List PendingEvent → Action Bool
unfolding run_transition
transition_session_with_events env expected updated terminal operation events =
    command env transition_script (λ w.
      read_reply invalid_state (run_transition env expected updated terminal operation events w))

-- `OperationCompleted`.
unfoldable pub operation_completed : Env → String → Action Bool
operation_completed env operation =
    command env exists_operation
      (λ w. (ok (exists w.clock (w.operations (env.sha256_hex operation))), w))

-- `GetSession`.
unfoldable pub find_session : Env → String → Action Session
find_session env id = command env (get_session id) (λ w. elim (live w.clock (w.sessions id)) [
  | none ↦ (err call_not_found, w)
  | some s ↦ (ok s, w)
])

abbrev pub lease_of : String → Option String → Result String
lease_of topic none = err user_offline
lease_of topic (some lease) =
    if lease == "" || not (starts_with lease (str_append topic "|"))
    then err user_offline
    else ok topic

-- `UserTopic`: the user's route, with a live lease by the same connection service.
unfoldable pub user_topic : Env → ℤ → Action String
user_topic env user = command env (get_route user) (λ w. elim (w.routes user) [
  | none ↦ (err user_offline, w)
  | some topic ↦
      if topic == ""
      then (err user_offline, w)
      else command env (get_lease user)
          (λ w'. (lease_of topic (live w'.clock (w'.leases user)), w')) w
])

abbrev pub is_due : ℕ → Session → Bool
is_due now s = elim s.state [ ringing ↦ leb s.ring_deadline now | _ ↦ false ]

-- The loop of `ExpiredRinging`: a session that cannot be read ends it with the error.
unfoldable pub found_due : ℕ → Result Session → Result (Option Session)
found_due now (ok s) = ok (if is_due now s then some s else none)
found_due now (err call_not_found) = ok none
found_due now (err e) = err e

-- `_ = ZREM`: its failure is ignored.
unfoldable pub drop_deadline : Env → String → World → World
drop_deadline env id w =
    if env.fails (remove_deadline id) then w else record w { deadlines = zrem id w.deadlines }

unfoldable pub expired_of : Env → ℕ → List String → List Session → Action (List Session)
unfolding find_session drop_deadline found_due
expired_of env now [] found w = (ok found, w)
expired_of env now (id ∷ ids) found w = elim (found_due now (find_session env id w).0) [
  | ok (some s) ↦ expired_of env now ids (found ++ s ∷ []) w
  | ok none ↦ expired_of env now ids found (drop_deadline env id w)
  | err e ↦ (err e, w)
]

-- `ExpiredRinging`.
unfoldable pub expired_ringing : Env → ℕ → ℕ → Action (List Session)
unfolding expired_of members_upto
expired_ringing env now limit = command env range_deadlines (λ w.
    expired_of env now
      (take (if limit == 0 then 100 else limit) (members_upto (now / second) w.deadlines)) [] w)
