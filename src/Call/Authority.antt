-- ===== src/Call/Authority.antt =====
-- Who may do what, and when: what a success of `accept` and of `hangup` tells.
use betterfly.Prelude.{
  ◌≡◌, none, false, ◌==◌, string_eq, ℤ, ◌⊎◌, String, ◌<◌, true, false, not, Option, some, int_eq,
}
use Prim.Native.String.{◌++◌ as str_append}
use text.Mathlib.Text.{starts_with}
use betterfly.Call.Types.{
  CallState, ringing, active, ended, Session, Result, Description, InternalRequest,
}
use betterfly.Call.World.{World, Env, live, exists}
use betterfly.Call.Store.{transitioned}
use betterfly.Call.Initiate.{⊤, is_open}
use betterfly.Call.Answer.{accepted_session, accepted_events}

-- The user is connected: a route names a topic, and the lease of that topic's service is live.
abbrev pub Online : World → ℤ → String → Type 0
Online w u topic =
    (w.routes u ≡ some topic)
    × ((topic == "") ≡ false)
    × ((lease : String) × (live w.clock (w.leases u) ≡ some lease)
        × ((lease == "") ≡ false)
        × (starts_with lease (str_append topic "|") ≡ true))

-- The topic that a connected user is reached at, or that the user is not connected.
abbrev pub IsRoute : World → ℤ → Option String → Type 0
IsRoute w u none = (topic : String) → ¬ Online w u topic
IsRoute w u (some topic) = Online w u topic

-- The accepted call is active where the caller is reached, and otherwise ended.
abbrev pub state_by : Option String → CallState
state_by none = ended
state_by (some topic) = active

-- What an accepted call was, and what became of the world.
abbrev pub Accepted :
    Env → InternalRequest → String → Option Description → World → Result ⊤ × World → Type 0
Accepted env r id answer w (result, w') =
    (s : Session) × (live w.clock (w.sessions id) ≡ some s)
    × (s.callee ≡ r.user_id)
    × (s.state ≡ ringing)
    × (w.clock < s.ring_deadline)
    × ((exists w.clock (w.operations (env.sha256_hex env.operation)) ≡ true) × (w' ≡ w)
        ⊎ ((route : Option String) × IsRoute w s.caller route
            × ((accepted_session s answer route w.clock).state ≡ state_by route)
            × (let t = accepted_session s answer route w.clock in
                w'
                ≡ transitioned env t (not (is_open t.state)) env.operation
                    (accepted_events env r t answer route w.clock) w)))
