-- ===== src/Reliable/Outbox.antt =====
-- The relay that publishes outbox events: shared/outbox/relay.go. Several relays share the table, each
-- step of theirs a transaction, and a relay may stop at any point.
pub mod Delivery
use betterfly.Prelude.{
  refl, ap, ◌∙◌, ℕ, suc, ◌+◌, ◌*◌, ◌^◌, ◌-◌, ◌≤◌, ◌<◌, ◌/◌, ℤ, pos, negsuc, String, ◌≡◌, Bool, true,
  false, not, ◌&&◌, ◌||◌, Option, none, some, List, [], ◌∷◌, ◌++◌, first, any, modify_where, update,
  nat_eq, string_eq, ◌==◌, leb, ltb, if◌then◌else◌, arith,
}

pub data Status : Type 0 where
  pending claimed retryable failed published : Status

-- The row of an event, by its id and the fields that the relay reads and changes. An empty time is
-- `none`, and an empty claim token too.
pub record Row : Type 0 where
  pub event_id : String
  pub status : Status
  pub attempt : ℕ
  pub claim_token : Option ℕ
  pub lease_until : Option ℕ
  pub next_attempt_at : Option ℕ

pub record Config : Type 0 where
  pub lease : ℕ
  pub publish_timeout : ℕ
  pub initial_backoff : ℕ
  pub max_backoff : ℕ

abbrev pub positive_or : ℤ → ℕ → ℕ
positive_or (pos n) other = if leb n 0 then other else n
positive_or (negsuc n) other = other

abbrev natural : ℤ → ℕ
natural (pos n) = n
natural (negsuc n) = 0

-- `normalize`.
unfoldable pub normalize : ℤ → ℤ → ℤ → ℤ → Config
normalize lease publish_timeout initial_backoff max_backoff =
    let kept = positive_or lease 30_000_000_000 in
    let timeout = natural publish_timeout in
    let start = positive_or initial_backoff 1_000_000_000 in
    record {
      lease = kept;
      publish_timeout = if leb timeout 0 || leb kept timeout then kept / 2 else timeout;
      initial_backoff = start;
      max_backoff = if ltb (natural max_backoff) start then 60_000_000_000 else natural max_backoff;
    }

-- `backoff` of an attempt.
unfoldable pub backoff : Config → ℕ → ℕ
backoff config attempt =
    let delay = config.initial_backoff * 2 ^ (attempt - 1) in
    if ltb config.max_backoff delay then config.max_backoff else delay

-- `next_attempt_at = '' OR next_attempt_at <= now`.
abbrev pub is_due : ℕ → Option ℕ → Bool
is_due now none = true
is_due now (some t) = leb t now

-- An empty lease compares below every time.
abbrev pub has_lapsed : ℕ → Option ℕ → Bool
has_lapsed now none = true
has_lapsed now (some t) = leb t now

-- The condition of the query that `claim` makes, of the rows of the relay's own service: the table of
-- the model holds no others.
unfoldable pub is_ready : ℕ → Row → Bool
is_ready now row = elim row.status [
  | claimed ↦ has_lapsed now row.lease_until
  | published ↦ false
  | _ ↦ is_due now row.next_attempt_at
]

abbrev pub has_id : String → Row → Bool
has_id id row = row.event_id == id

-- What a claim writes to a row.
abbrev pub claim_row : Config → ℕ → ℕ → Row → Row
claim_row config now token row = record row {
  status = claimed;
  claim_token = some token;
  lease_until = some (now + config.lease);
  attempt = suc row.attempt;
}

abbrev is_claimed : Status → Bool
is_claimed claimed = true
is_claimed _ = false

abbrev same_token : Option ℕ → Option ℕ → Bool
same_token none none = true
same_token none (some t) = false
same_token (some s) none = false
same_token (some s) (some t) = s == t

-- `event_id = ? AND status = claimed AND claim_token = ?` for the row that a relay holds.
abbrev pub is_held : Row → Row → Bool
is_held mine row =
    has_id mine.event_id row && is_claimed row.status && same_token row.claim_token mine.claim_token

abbrev pub publish_row : Row → Row
publish_row row = record row { status = published; claim_token = none; lease_until = none }

abbrev pub retry_row : ℕ → Row → Row
retry_row at row = record row {
  status = retryable;
  claim_token = none;
  lease_until = none;
  next_attempt_at = some at;
}

-- The relays: what each has in hand, and whether the broker has accepted it.
pub data Worker : Type 0 where
  idle : Worker
  holds sent : Row → Worker

-- The table in the order of its query, the ids of the events that the broker has accepted, the next fresh token, and the relays.
pub record World : Type 0 where
  pub rows : List Row
  pub accepted : List String
  pub next_token : ℕ
  pub workers : ℕ → Worker

abbrev pub set_worker : ℕ → Worker → World → World
set_worker r x w = record w { workers = update r x w.workers }

-- The steps. Tokens are random, so each is fresh. The broker may accept an event and the relay
-- not learn of it, in which case it marks a failure.
pub data Step (config : Config) : World → World → Type 0 where
  claim :
      (w : World) (r now : ℕ) (row : Row)
      → first (is_ready now) w.rows ≡ some row
      → Step config w (
          set_worker r (holds (claim_row config now w.next_token row)) (record w {
            rows = modify_where (has_id row.event_id) (claim_row config now w.next_token) w.rows;
            next_token = suc w.next_token;
          }))
  publish :
      (w : World) (r : ℕ) (mine : Row)
      → w.workers r ≡ holds mine
      → Step config w
          (set_worker r (sent mine) (record w { accepted = mine.event_id ∷ w.accepted }))
  publish_unnoticed :
      (w : World) (r : ℕ) (mine : Row)
      → w.workers r ≡ holds mine
      → Step config w (record w { accepted = mine.event_id ∷ w.accepted })
  mark_published :
      (w : World) (r : ℕ) (mine : Row)
      → w.workers r ≡ sent mine
      → Step config w
          (set_worker r idle (record w { rows = modify_where (is_held mine) publish_row w.rows }))
  mark_failure :
      (w : World) (r now : ℕ) (mine : Row)
      → w.workers r ≡ holds mine
      → Step config w (
          set_worker r idle (record w {
            rows =
                modify_where (is_held mine) (retry_row (now + backoff config mine.attempt)) w.rows;
          }))
  crash : (w : World) (r : ℕ) → Step config w (set_worker r idle w)
  add :
      (w : World) (row : Row)
      → row.status ≡ pending
      → Step config w (record w { rows = w.rows ++ (row ∷ []) })

pub data Reach (config : Config) : World → Type 0 where
  here : Reach config (record { rows = []; accepted = []; next_token = 0; workers = λ r. idle })
  next : {w v : World} → Reach config w → Step config w v → Reach config v

pub data Run (config : Config) (w : World) : World → Type 0 where
  done : Run config w w
  more : {u v : World} → Run config w u → Step config u v → Run config w v

positive_or_positive : (z : ℤ) (other : ℕ) → 0 < other → 0 < positive_or z other
positive_or_positive (pos n) other h = ground arith
positive_or_positive (negsuc n) other h = h

-- The smaller of two numbers.
abbrev pub least : ℕ → ℕ → ℕ
least a b = if ltb a b then a else b

doubled_product : (a n : ℕ) → a * 2 ^ suc n ≡ 2 * (a * 2 ^ n)
doubled_product a n = grind arith

capped_doubled : (longest d : ℕ) → least (2 * d) longest ≡ least (2 * least d longest) longest
capped_doubled longest d = ground arith

backoff-least :
    (config : Config) (n : ℕ)
    → backoff config (suc n) ≡ least (config.initial_backoff * 2 ^ n) config.max_backoff
unfolding backoff
backoff-least config n = ground arith

backoff_first :
    (config : Config) → backoff config 1 ≡ least config.initial_backoff config.max_backoff
backoff_first config = backoff-least config 0 ∙ ap (λ d. least d config.max_backoff) (omega arith)

backoff_next :
    (config : Config) (n : ℕ)
    → backoff config (suc (suc n)) ≡ least (2 * backoff config (suc n)) config.max_backoff
backoff_next config n =
    rw
      (
        backoff-least config (suc n),
        backoff-least config n,
        doubled_product config.initial_backoff n,
      )
      (capped_doubled config.max_backoff (config.initial_backoff * 2 ^ n))

-- Whatever is configured, the timeout of a publication that the relay works with is shorter than its
-- lease, and the delays that it computes after one attempt, two and so on begin with the initial
-- backoff and double, each cut to the longest one.
pub timeout_within_lease :
    (lease publish_timeout initial_backoff max_backoff : ℤ)
    → let config = normalize lease publish_timeout initial_backoff max_backoff in
      (config.publish_timeout < config.lease)
      × (backoff config 1 ≡ least config.initial_backoff config.max_backoff)
      × ((n : ℕ)
          → backoff config (suc (suc n)) ≡ least (2 * backoff config (suc n)) config.max_backoff)
unfolding normalize
timeout_within_lease lease publish_timeout initial_backoff max_backoff =
    let config = normalize lease publish_timeout initial_backoff max_backoff in
    let positive = positive_or_positive lease 30_000_000_000 (omega arith) in
    (ground (arith, positive), backoff_first config, λ n. backoff_next config n)
