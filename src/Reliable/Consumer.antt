-- ===== src/Reliable/Consumer.antt =====
-- The retries of a message and the dead letters: shared/kafkaconsumer/consumer.go.
pub mod Partition
pub mod Delays
use betterfly.Prelude.{
  not, ℕ, zero, suc, ◌+◌, ◌*◌, ◌%◌, ◌≤◌, ℤ, pos, negsuc, String, ◌≡◌, refl, Bool, true, false,
  Option, none, some, List, [], ◌∷◌, length, All, ltb, leb, is_blank, if◌then◌else◌, Bool-cases,
  inl, inr, arith,
}

-- `Outcome`, with the text of one that is none of the three.
pub data Outcome : Type 0 where
  success permanent transient : Outcome
  other : String → Outcome

-- `Result`; its error may say when to retry.
pub record Result : Type 0 where
  pub outcome : Outcome
  pub retry_after : Option ℕ

pub record Config : Type 0 where
  pub dlq_topic : String
  pub max_retries : ℕ
  pub initial_backoff : ℕ
  pub max_backoff : ℕ

positive_or : ℤ → ℕ → ℕ
positive_or (pos zero) fallback = fallback
positive_or (pos (suc n)) fallback = suc n
positive_or (negsuc n) fallback = fallback

natural : ℤ → ℕ
natural (pos n) = n
natural (negsuc n) = 0

-- `normalized`.
unfoldable pub normalized : String → ℤ → ℤ → ℤ → Config
unfolding positive_or natural
normalized dlq_topic max_retries initial_backoff max_backoff =
    let longest = positive_or max_backoff 2_000_000_000 in
    let start = positive_or initial_backoff 100_000_000 in
    record {
      dlq_topic = dlq_topic;
      max_retries = natural max_retries;
      initial_backoff = if ltb longest start then longest else start;
      max_backoff = longest;
    }

-- A message's place: its topic, partition and offset.
pub record Source : Type 0 where
  pub topic : String
  pub partition : ℕ
  pub offset : ℕ

-- A message that was published as a dead letter: the topic, the value and what its headers say.
pub record DeadLetter : Type 0 where
  pub dlq_topic : String
  pub value : String
  pub source : Source
  pub outcome : Outcome
  pub retries : ℕ

-- A message and what happens to it: what the processor answers at each attempt, when its context is found
-- cancelled, and whether there is a publisher of dead letters that succeeds.
pub record Attempts : Type 0 where
  pub value : String
  pub source : Source
  pub processor : ℕ → Result
  pub cancelled_before : ℕ → Bool
  pub cancelled_after : ℕ → Bool
  pub cancelled_waiting : ℕ → Bool
  pub has_publisher : Bool
  pub published : Bool

-- `processWithRetry` returns nil in the first two cases.
pub data Verdict : Type 0 where
  processed : Verdict
  dead_letter : DeadLetter → Verdict
  stopped : Verdict

-- A verdict with the delays before it.
pub record Course : Type 0 where
  pub delays : List ℕ
  pub verdict : Verdict

abbrev pub at_once : Verdict → Course
at_once v = record { delays = []; verdict = v }

-- `publishDeadLetter`.
unfoldable pub publish_dead_letter : Config → Attempts → Outcome → ℕ → Verdict
publish_dead_letter config env outcome retries =
    if is_blank config.dlq_topic
    then stopped
    else if not env.has_publisher
    then stopped
    else if env.published
    then dead_letter (record {
      dlq_topic = config.dlq_topic;
      value = env.value;
      source = env.source;
      outcome = outcome;
      retries = retries;
    })
    else stopped

-- The end of the loop: the message is given up.
abbrev pub give_up : Config → Attempts → Outcome → ℕ → Course
give_up config env outcome attempt = at_once (
    if env.cancelled_after attempt then stopped else publish_dead_letter config env outcome attempt)

-- The delay of a backoff's wait, or the time that an error asks for where that is longer.
abbrev pub delay_of : ℕ → Option ℕ → ℕ
delay_of backoff none = backoff
delay_of backoff (some after) = if ltb backoff after then after else backoff

-- A backoff is a signed number of 64 bits, kept as the number that its bits make; one that is negative
-- is waited for no time.
abbrev pub sign_bit : ℕ
sign_bit = 9_223_372_036_854_775_808

abbrev pub wait_of : ℕ → ℕ
wait_of backoff = if ltb backoff sign_bit then backoff else 0

-- The next backoff; the product wraps around.
abbrev pub doubled : Config → ℕ → ℕ
doubled config backoff =
    let next = 2 * backoff % 18_446_744_073_709_551_616 in
    if ltb next sign_bit
    then (if ltb config.max_backoff next then config.max_backoff else next)
    else next

abbrev pub wait_then : Bool → ℕ → Course → Course
wait_then cancelled delay rest = record {
  delays = delay ∷ (if cancelled then [] else rest.delays);
  verdict = if cancelled then stopped else rest.verdict;
}

-- One pass of the loop after the processor's answer, with the passes that are left.
abbrev pub judge : Config → Attempts → Outcome → Option ℕ → ℕ → ℕ → Option Course → Course
judge config env success retry_after attempt backoff later = at_once processed
judge config env permanent retry_after attempt backoff later = give_up config env permanent attempt
judge config env (other text) retry_after attempt backoff later =
    give_up config env permanent attempt
judge config env transient retry_after attempt backoff none = give_up config env transient attempt
judge config env transient retry_after attempt backoff (some rest) =
    wait_then (env.cancelled_waiting attempt) (delay_of (wait_of backoff) retry_after) rest

-- The loop, with the retries that are left.
unfoldable pub attempt_from : Config → Attempts → ℕ → ℕ → ℕ → Course
attempt_from config env zero attempt backoff =
    let answer = env.processor attempt in
    if env.cancelled_before attempt
    then at_once stopped
    else judge config env answer.outcome answer.retry_after attempt backoff none
attempt_from config env (suc left) attempt backoff =
    let answer = env.processor attempt in
    let rest = attempt_from config env left (suc attempt) (doubled config backoff) in
    if env.cancelled_before attempt
    then at_once stopped
    else judge config env answer.outcome answer.retry_after attempt backoff (some rest)

-- `processWithRetry`.
unfoldable pub process_with_retry : Config → Attempts → Course
process_with_retry config env = attempt_from config env config.max_retries 0 config.initial_backoff
