-- ===== src/Reliable/Consumer/Delays.antt =====
-- How often and how late a message is tried again.
use betterfly.Prelude.{
  ℕ, zero, suc, ◌≤◌, ℤ, String, Option, none, some, List, length, All, Bool-cases, inl, inr, arith,
}
use betterfly.Reliable.Consumer.{
  Outcome, success, permanent, transient, other, Config, normalized, Attempts, Course, judge,
  doubled, wait_of, delay_of, attempt_from, process_with_retry,
}

-- At most so many delays, none longer than so long.
abbrev pub IsPatient : ℕ → ℕ → List ℕ → Type 0
IsPatient count longest delays = (length delays ≤ count) × All (λ d. d ≤ longest) delays

delay_bound :
    (backoff longest : ℕ) (after : Option ℕ)
    → backoff ≤ longest
    → delay_of 0 after ≤ longest
    → delay_of backoff after ≤ longest
delay_bound backoff longest none h k = h
delay_bound backoff longest (some t) h k = ground arith

doubled_bound :
    (config : Config) (backoff : ℕ) → wait_of (doubled config backoff) ≤ config.max_backoff
doubled_bound config backoff = ground arith

wait_of_bound : (backoff : ℕ) → wait_of backoff ≤ backoff
wait_of_bound backoff = ground arith

judge-IsPatient :
    (config : Config) (env : Attempts) (o : Outcome) (after : Option ℕ) (k backoff left longest : ℕ)
    (rest : Course)
    → delay_of (wait_of backoff) after ≤ longest
    → IsPatient left longest rest.delays
    → IsPatient (suc left) longest (judge config env o after k backoff (some rest)).delays
judge-IsPatient config env success after k backoff left longest rest h p = (omega arith, tt)
judge-IsPatient config env permanent after k backoff left longest rest h p = (omega arith, tt)
judge-IsPatient config env (other text) after k backoff left longest rest h p = (omega arith, tt)
judge-IsPatient config env transient after k backoff left longest rest h p =
    elim (Bool-cases (env.cancelled_waiting k)) [
      | inl c ↦ rw c (omega arith, (h, tt))
      | inr c ↦ rw c (omega (arith, p.0), (h, p.1))
    ]

last-IsPatient :
    (config : Config) (env : Attempts) (o : Outcome) (after : Option ℕ) (k backoff longest : ℕ)
    → IsPatient 0 longest (judge config env o after k backoff none).delays
last-IsPatient config env success after k backoff longest = (omega arith, tt)
last-IsPatient config env permanent after k backoff longest = (omega arith, tt)
last-IsPatient config env transient after k backoff longest = (omega arith, tt)
last-IsPatient config env (other text) after k backoff longest = (omega arith, tt)

attempt_from-IsPatient :
    (config : Config) (env : Attempts) (left k backoff longest : ℕ)
    → ((n : ℕ) → delay_of 0 (env.processor n).retry_after ≤ longest)
    → config.max_backoff ≤ longest
    → wait_of backoff ≤ longest
    → IsPatient left longest (attempt_from config env left k backoff).delays
unfolding attempt_from
attempt_from-IsPatient config env zero k backoff longest asked h b =
    elim (Bool-cases (env.cancelled_before k)) [
      | inl e ↦ rw e (omega arith, tt)
      | inr e ↦ rw e (
          last-IsPatient config env (env.processor k).outcome (env.processor k).retry_after k
            backoff longest)
    ]
attempt_from-IsPatient config env (suc left) k backoff longest asked h b =
    let later = doubled_bound config backoff in
    elim (Bool-cases (env.cancelled_before k)) [
      | inl e ↦ rw e (omega arith, tt)
      | inr e ↦ rw e (
          judge-IsPatient config env (env.processor k).outcome (env.processor k).retry_after k
            backoff left longest _
            (delay_bound (wait_of backoff) longest (env.processor k).retry_after b (asked k))
            (attempt_from-IsPatient config env left (suc k) (doubled config backoff) longest asked h
              (omega arith)))
    ]

normalized_order :
    (topic : String) (retries start longest : ℤ)
    → (normalized topic retries start longest).initial_backoff
      ≤ (normalized topic retries start longest).max_backoff
unfolding normalized
normalized_order topic retries start longest = ground arith

-- Under any configuration a message is tried again at most as often as configured, and each wait is no
-- longer than the longest backoff and the longest delay that an error asks for: handling a message ends.
pub retries_are_bounded :
    (topic : String) (retries start backoff : ℤ) (env : Attempts) (longest : ℕ)
    → ((n : ℕ) → delay_of 0 (env.processor n).retry_after ≤ longest)
    → (normalized topic retries start backoff).max_backoff ≤ longest
    → IsPatient
        (normalized topic retries start backoff).max_retries
        longest
        (process_with_retry (normalized topic retries start backoff) env).delays
unfolding process_with_retry
retries_are_bounded topic retries start backoff env longest asked h =
    let config = normalized topic retries start backoff in
    let order = normalized_order topic retries start backoff in
    let first = wait_of_bound config.initial_backoff in
    attempt_from-IsPatient config env config.max_retries 0 config.initial_backoff longest asked h
      (omega arith)
