-- ===== src/Call/World.antt =====
-- What a handler of the call service works on: Redis and the log of what was published, with the
-- environment of one invocation, and the actions over them. Times are nanoseconds.
use betterfly.Prelude.{ℕ, ℤ, String, Bool, false, Option, none, some, List, ltb, if◌then◌else◌}
use betterfly.Call.Types.{
  CallError, user_offline, Result, ok, err, Session, IceServer, Delivery, PendingEvent,
}

-- A Redis value with the time at which it expires.
pub record Timed (V : Type 0) : Type 0 where
  pub value : V
  pub expires_at : ℕ

-- Redis, keyed by what follows each fixed prefix (`call:user:`, `call:session:`,
-- `call:operation:`, `ws_route_lease:`), and the deliveries that reached Kafka.
pub record World : Type 0 where
  pub clock : ℕ
  pub user_calls : ℤ → Option (Timed String)
  pub sessions : String → Option (Timed Session)
  pub deadlines : List (String × ℕ)
  pub operations : String → Option (Timed String)
  pub outbox : List PendingEvent
  pub routes : ℤ → Option String
  pub leases : ℤ → Option (Timed String)
  pub published : List (String × Delivery)

-- The commands to Redis and to Kafka, each of which may fail, or run with its reply lost.
pub data Command : Type 0 where
  exists_operation create_script transition_script range_deadlines : Command
  get_route get_lease : ℤ → Command
  get_session remove_deadline : String → Command
  publish_to : String → Command

-- One invocation: the operation key of its Kafka message (empty where there is none), the
-- configuration, which commands fail without effect and of which only the reply is lost, and the library code that the
-- service calls: SHA-256 in hexadecimal, and an integer in decimal.
pub record Env : Type 0 where
  pub operation : String
  pub ring_ttl : ℕ
  pub store_ring_ttl : ℕ
  pub active_ttl : ℕ
  pub operation_ttl : ℕ
  pub voip_topic : String
  pub fails : Command → Bool
  pub loses : Command → Bool
  pub ice_servers : ℤ → ℕ → List IceServer
  pub sha256_hex : String → String
  pub show_id : ℤ → String
  pub random_id : String

-- What a key holds at a time: an expired key holds nothing.
abbrev pub live : {V : Type 0} → ℕ → Option (Timed V) → Option V
live now none = none
live now (some t) = if ltb now t.expires_at then some t.value else none

-- `EXISTS`.
abbrev pub exists : {V : Type 0} → ℕ → Option (Timed V) → Bool
exists now none = false
exists now (some t) = ltb now t.expires_at

abbrev pub Action : Type 0 → Type 0
Action A = World → Result A × World

module _ {A : Type 0} where
  unfoldable pub pure : A → Action A
  pure a w = (ok a, w)

  unfoldable pub raise : CallError → Action A
  raise e w = (err e, w)

  unfoldable pub gets : (World → A) → Action A
  gets f w = (ok (f w), w)

  unfoldable pub lift : Result A → Action A
  lift r w = (r, w)

  -- A call whose error the caller looks at.
  unfoldable pub attempt : Action A → Action (Result A)
  attempt m w = let (r, w') = m w in (ok r, w')

  -- `errors.Is(err, ErrUserOffline)` read as a missing value; other errors are returned.
  abbrev pub offline_as_none : Result A → Result (Option A)
  offline_as_none (ok a) = ok (some a)
  offline_as_none (err user_offline) = ok none
  offline_as_none (err e) = err e

  unfoldable pub unless_offline : Action A → Action (Option A)
  unless_offline m w = let (r, w') = m w in (offline_as_none r, w')

-- `if bad { return e }`.
unfoldable pub refuse_if : Bool → CallError → Action (Unit {0})
refuse_if bad e w = (if bad then err e else ok tt, w)

abbrev pub continue : {A B : Type 0} → Result A → (A → Action B) → Action B
continue (ok a) f w = f a w
continue (err e) f w = (err e, w)

-- Opening this opens the actions above.
infixl 5 ◌>>=◌ ◌>>◌
unfoldable pub ◌>>=◌ : {A B : Type 0} → Action A → (A → Action B) → Action B
unfolding pure raise gets lift attempt unless_offline refuse_if
◌>>=◌ m f w = let (r, w') = m w in continue r f w'

abbrev pub ◌>>◌ : {A B : Type 0} → Action A → Action B → Action B
m >> k = m >>= λ _. k
