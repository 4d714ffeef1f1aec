-- ===== src/Reliable/Consumer/Partition.antt =====
-- A partition's messages in order: `ConsumeClaim` of shared/kafkaconsumer/consumer.go, and what marking
-- a message means.
use betterfly.Prelude.{
  ℕ, zero, suc, ◌+◌, ◌≤◌, ◌≡◌, ◌↔◌, refl, ap, Bool, true, false, Option, none, some, List, [], ◌∷◌,
  ◌++◌, All, All-map, ◌⊎◌, Bool-cases, inl, inr, arith, if◌then◌else◌, is_blank,
}
use betterfly.Reliable.Consumer.{
  Outcome, success, permanent, transient, other, Config, DeadLetter, Attempts, Verdict, processed,
  dead_letter, stopped, Course, give_up, judge, doubled, publish_dead_letter, attempt_from,
  process_with_retry,
}

abbrev pub is_stopped : Verdict → Bool
is_stopped processed = false
is_stopped (dead_letter l) = false
is_stopped stopped = true

-- The dead letters before others that a verdict adds to.
abbrev pub and_letters : Verdict → List DeadLetter → List DeadLetter
and_letters processed ls = ls
and_letters (dead_letter l) ls = l ∷ ls
and_letters stopped ls = ls

-- The messages that are marked, the dead letters that the broker took, and whether it ends without
-- an error.
pub record Claim : Type 0 where
  pub marked : List Attempts
  pub letters : List DeadLetter
  pub is_finished : Bool

-- `ConsumeClaim`.
unfoldable pub consume_claim : Config → List Attempts → Claim
consume_claim config [] = record { marked = []; letters = []; is_finished = true }
consume_claim config (m ∷ ms) =
    let rest = consume_claim config ms in
    let verdict = (process_with_retry config m).verdict in
    if is_stopped verdict
    then record { marked = []; letters = []; is_finished = false }
    else record {
      marked = m ∷ rest.marked;
      letters = and_letters verdict rest.letters;
      is_finished = rest.is_finished;
    }

-- A dead letter of the message, in the topic of dead letters, which has a name.
abbrev pub IsLetterOf : Config → Attempts → DeadLetter → Type 0
IsLetterOf config env l =
    (l.dlq_topic ≡ config.dlq_topic)
    × (is_blank l.dlq_topic ≡ false)
    × (l.value ≡ env.value)
    × (l.source ≡ env.source)

-- Why a message counts as done, after attempts of a range.
abbrev pub Justified : Config → Attempts → ℕ → ℕ → Verdict → Type 0
Justified config env low high processed =
    (n : ℕ) × (low ≤ n) × (n ≤ high) × ((env.processor n).outcome ≡ success)
Justified config env low high (dead_letter l) =
    (low ≤ l.retries) × (l.retries ≤ high) × IsLetterOf config env l
Justified config env low high stopped = Unit

wider :
    (config : Config) (env : Attempts) (low high : ℕ) (v : Verdict)
    → Justified config env (suc low) high v
    → Justified config env low high v
wider config env low high processed (n, l, h, e) = (n, omega arith, h, e)
wider config env low high (dead_letter letter) (l, h, p) = (omega arith, h, p)
wider config env low high stopped j = tt

publish-Justified :
    (config : Config) (env : Attempts) (o : Outcome) (k low high : ℕ)
    → low ≤ k
    → k ≤ high
    → Justified config env low high (publish_dead_letter config env o k)
unfolding publish_dead_letter
publish-Justified config env o k low high l h = elim (Bool-cases (is_blank config.dlq_topic)) [
  | inl e ↦ rw e tt
  | inr e ↦ elim (Bool-cases env.has_publisher) [
    | inr p ↦ rw (e, p) tt
    | inl p ↦ elim (Bool-cases env.published) [
      | inl q ↦ rw (e, p, q) (l, h, (refl, e, refl, refl))
      | inr q ↦ rw (e, p, q) tt
    ]
  ]
]

give_up-Justified :
    (config : Config) (env : Attempts) (o : Outcome) (k high : ℕ)
    → k ≤ high
    → Justified config env k high (give_up config env o k).verdict
give_up-Justified config env o k high h = elim (Bool-cases (env.cancelled_after k)) [
  | inl e ↦ rw e tt
  | inr e ↦ rw e (publish-Justified config env o k k high (omega arith) h)
]

judge_last-Justified :
    (config : Config) (env : Attempts) (o : Outcome) (after : Option ℕ) (k backoff high : ℕ)
    → (env.processor k).outcome ≡ o
    → k ≤ high
    → Justified config env k high (judge config env o after k backoff none).verdict
judge_last-Justified config env success after k backoff high e h = (k, omega arith, h, e)
judge_last-Justified config env permanent after k backoff high e h =
    give_up-Justified config env permanent k high h
judge_last-Justified config env transient after k backoff high e h =
    give_up-Justified config env transient k high h
judge_last-Justified config env (other text) after k backoff high e h =
    give_up-Justified config env permanent k high h

judge-Justified :
    (config : Config) (env : Attempts) (o : Outcome) (after : Option ℕ) (k backoff high : ℕ)
    (rest : Course)
    → (env.processor k).outcome ≡ o
    → k ≤ high
    → Justified config env (suc k) high rest.verdict
    → Justified config env k high (judge config env o after k backoff (some rest)).verdict
judge-Justified config env success after k backoff high rest e h later = (k, omega arith, h, e)
judge-Justified config env permanent after k backoff high rest e h later =
    give_up-Justified config env permanent k high h
judge-Justified config env (other text) after k backoff high rest e h later =
    give_up-Justified config env permanent k high h
judge-Justified config env transient after k backoff high rest e h later =
    elim (Bool-cases (env.cancelled_waiting k)) [
      | inl c ↦ rw c tt
      | inr c ↦ rw c (wider config env k high rest.verdict later)
    ]

attempt_from-Justified :
    (config : Config) (env : Attempts) (left k backoff high : ℕ)
    → k + left ≤ high
    → Justified config env k high (attempt_from config env left k backoff).verdict
unfolding attempt_from
attempt_from-Justified config env zero k backoff high h =
    elim (Bool-cases (env.cancelled_before k)) [
      | inl e ↦ rw e tt
      | inr e ↦ rw e (
          judge_last-Justified config env (env.processor k).outcome (env.processor k).retry_after k
            backoff high refl (omega arith))
    ]
attempt_from-Justified config env (suc left) k backoff high h =
    elim (Bool-cases (env.cancelled_before k)) [
      | inl e ↦ rw e tt
      | inr e ↦ rw e (
          judge-Justified config env (env.processor k).outcome (env.processor k).retry_after k
            backoff high _ refl (omega arith)
            (attempt_from-Justified config env left (suc k) (doubled config backoff) high
              (omega arith)))
    ]

process_with_retry-Justified :
    (config : Config) (env : Attempts)
    → Justified config env 0 config.max_retries (process_with_retry config env).verdict
unfolding process_with_retry
process_with_retry-Justified config env =
    attempt_from-Justified config env config.max_retries 0 config.initial_backoff config.max_retries
      (omega arith)

-- One of the letters.
abbrev pub IsIn : DeadLetter → List DeadLetter → Type 0
IsIn l [] = ⊥
IsIn l (x ∷ xs) = (l ≡ x) ⊎ IsIn l xs

-- A message is done: processed by one of the attempts, or among the dead letters.
abbrev pub IsDone : Config → List DeadLetter → Attempts → Type 0
IsDone config letters env =
    ((n : ℕ) × (n ≤ config.max_retries) × ((env.processor n).outcome ≡ success))
    ⊎ ((l : DeadLetter) × IsIn l letters
        × IsLetterOf config env l
        × (l.retries ≤ config.max_retries))

not_stopped-IsDone :
    (config : Config) (env : Attempts) (ls : List DeadLetter) (v : Verdict)
    → is_stopped v ≡ false
    → Justified config env 0 config.max_retries v
    → IsDone config (and_letters v ls) env
not_stopped-IsDone config env ls processed e (n, l, h, s) = inl (n, h, s)
not_stopped-IsDone config env ls (dead_letter letter) e (l, h, p) = inr (letter, inl refl, p, h)
not_stopped-IsDone config env ls stopped e j = cc e

IsDone-and_letters :
    (config : Config) (ls : List DeadLetter) (v : Verdict) (env : Attempts)
    → IsDone config ls env
    → IsDone config (and_letters v ls) env
IsDone-and_letters config ls processed env d = d
IsDone-and_letters config ls stopped env d = d
IsDone-and_letters config ls (dead_letter x) env (inl p) = inl p
IsDone-and_letters config ls (dead_letter x) env (inr (l, i, p, h)) = inr (l, inr i, p, h)

-- Of the messages of a partition, those that are marked come first and in order. Each of them was
-- processed successfully by one of its attempts, at most one more than the retries, or its value
-- was taken by the broker as a dead letter that names its place, in the topic of dead letters, which
-- then has a name. Without an error all messages are marked, and with one there is a message that is
-- not.
pub partition_loses_nothing :
    (config : Config) (ms : List Attempts)
    → (rest : List Attempts) × (ms ≡ (consume_claim config ms).marked ++ rest)
      × All (IsDone config (consume_claim config ms).letters) (consume_claim config ms).marked
      × (((consume_claim config ms).is_finished ≡ true) ↔ (rest ≡ []))
unfolding consume_claim
partition_loses_nothing config [] = ([], refl, tt, (λ e. refl, λ e. refl))
partition_loses_nothing config (m ∷ ms) =
    let verdict = (process_with_retry config m).verdict in
    elim (Bool-cases (is_stopped verdict)) [
      | inl e ↦ rw e (m ∷ ms, refl, tt, (λ p. cc p, λ p. cc p))
      | inr e ↦
          let later = partition_loses_nothing config ms in
          let ls = (consume_claim config ms).letters in
          rw e (
            later.0,
            ap (λ xs. m ∷ xs) later.1,
            (
              not_stopped-IsDone config m ls verdict e (process_with_retry-Justified config m),
              All-map (IsDone config ls) (IsDone config (and_letters verdict ls))
                  (consume_claim config ms).marked (λ x d. IsDone-and_letters config ls verdict x d)
                  later.2,
            ),
            later.3,
          )
    ]
