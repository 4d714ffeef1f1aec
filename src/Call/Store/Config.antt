-- ===== src/Call/Store/Config.antt =====
-- The configuration of the call service: `NewService`, `NewRedisStore` and `callDurationEnv`.
use betterfly.Prelude.{
  ℕ, ℤ, pos, negsuc, ◌≡◌, refl, true, ltb, Bool-cases, inl, inr, ◌-◌, ◌%◌, ◌+◌, ◌*◌, ◌<◌, Option,
  none, some, arith, leb, ◌==◌, nat_eq, if◌then◌else◌,
}

abbrev pub hour : ℕ
hour = 3_600_000_000_000

-- `callDurationEnv`: the parsed value of the variable, or the fallback.
abbrev pub call_duration_env : Option ℤ → ℕ → ℕ
call_duration_env none fallback = fallback
call_duration_env (some (pos n)) fallback = if n == 0 then fallback else n
call_duration_env (some (negsuc n)) fallback = fallback

-- `ringTTL` of `NewService` and of `NewRedisStore`.
pub ring_ttl_or_default : ℤ → ℕ
ring_ttl_or_default ttl = call_duration_env (some ttl) 45_000_000_000

pub active_ttl_or_default : ℤ → ℕ
active_ttl_or_default ttl = call_duration_env (some ttl) (6 * hour)

-- The sum of two durations, which wraps around at 64 bits.
abbrev pub duration_sum : ℕ → ℕ → ℤ
duration_sum a b =
    let n = (a + b) % 18_446_744_073_709_551_616 in
    if ltb n 9_223_372_036_854_775_808 then pos n else negsuc (18_446_744_073_709_551_615 - n)

unwrapped : (a b : ℕ) → a + b < 9_223_372_036_854_775_808 → duration_sum a b ≡ pos (a + b)
unwrapped a b h =
    let whole : (a + b) % 18_446_744_073_709_551_616 ≡ a + b = omega arith in
    let small : ltb (a + b) 9_223_372_036_854_775_808 ≡ true = ground arith in
    rw (whole, small) refl

-- `operationTTL` of `NewRedisStore`, from KAFKA_MAX_REPLAY_WINDOW and CALL_OPERATION_RETENTION.
unfoldable pub operation_ttl : Option ℤ → Option ℤ → ℤ
operation_ttl window retention =
    let replay_window = call_duration_env window (7 * 24 * hour) in
    let ttl = call_duration_env retention (30 * 24 * hour) in
    if leb ttl replay_window then duration_sum replay_window (24 * hour) else pos ttl

-- A window of replays that lies at least a day below the longest duration is outlived by the record
-- of an operation, whatever retention the environment asks for.
pub operation_ttl_outlives_replays :
    (window retention : Option ℤ)
    → call_duration_env window (7 * 24 * hour) + 24 * hour < 9_223_372_036_854_775_808
    → (ttl : ℕ) × (operation_ttl window retention ≡ pos ttl)
      × (call_duration_env window (7 * 24 * hour) < ttl)
unfolding operation_ttl
operation_ttl_outlives_replays window retention h =
    let replay_window = call_duration_env window (7 * 24 * hour) in
    let ttl = call_duration_env retention (30 * 24 * hour) in
    elim (Bool-cases (leb ttl replay_window)) [
      | inr longer ↦ (ttl, rw longer refl, ground arith)
      | inl short ↦
          (replay_window + 24 * hour, rw short (unwrapped replay_window (24 * hour) h), omega arith)
    ]
