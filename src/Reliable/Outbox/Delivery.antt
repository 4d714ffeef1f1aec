-- ===== src/Reliable/Outbox/Delivery.antt =====
-- Events are delivered at least once: none is lost, and none counts as published that the broker
-- has not accepted.
use betterfly.Prelude.{
  ℕ, ◌+◌, ◌≤◌, String, ◌≡◌, ◌≢◌, refl, sym, ◌⊎◌, inl, inr, Bool, true, Option, none, some, List, [],
  ◌∷◌, any-append, any-modify_where, any-first, first-All, All, All-append, All-map,
  All-modify_where, first, any, update, if-both, nat_eq, string_eq, ◌==◌, Bool-cases, arith,
}
use betterfly.Reliable.Outbox.{
  Status, pending, claimed, retryable, failed, published, Row, Config, backoff, is_due, has_lapsed,
  is_ready, has_id, claim_row, is_held, publish_row, retry_row, Worker, idle, holds, sent, World,
  Step, claim, publish, publish_unnoticed, mark_published, mark_failure, crash, add, Reach, here,
  next, Run, done, more,
}

abbrev pub accepts : String → List String → Bool
accepts id ids = any (λ a. a == id) ids

abbrev WasAccepted : List String → Row → Type 0
WasAccepted ids row = row.status ≡ published → accepts row.event_id ids ≡ true

abbrev IsHonest : List String → Worker → Type 0
IsHonest ids idle = Unit
IsHonest ids (holds mine) = Unit
IsHonest ids (sent mine) = accepts mine.event_id ids ≡ true

record IsSound (w : World) : Type 0 where
  rows_accepted : All (WasAccepted w.accepted) w.rows
  workers_honest : (r : ℕ) → IsHonest w.accepted (w.workers r)

grown : (a id : String) (ids : List String) → accepts id ids ≡ true → accepts id (a ∷ ids) ≡ true
grown a id ids e = elim (Bool-cases (a == id)) [ inl p ↦ rw p refl | inr p ↦ rw (p, e) refl ]

IsHonest-grown :
    (a : String) (ids : List String) (x : Worker) → IsHonest ids x → IsHonest (a ∷ ids) x
IsHonest-grown a ids idle h = tt
IsHonest-grown a ids (holds mine) h = tt
IsHonest-grown a ids (sent mine) h = grown a mine.event_id ids h

set-IsHonest :
    (ids : List String) (r k : ℕ) (x : Worker) (f : ℕ → Worker)
    → IsHonest ids x
    → ((j : ℕ) → IsHonest ids (f j))
    → IsHonest ids (update r x f k)
set-IsHonest ids r k x f h hs = if-both (IsHonest ids) (nat_eq.beq k r) (λ e. h) (λ e. hs k)

not_published : {x : Status} → x ≢ published → x ≡ published → ⊥
not_published n e = n e

rows_grown :
    (a : String) (ids : List String) (rows : List Row)
    → All (WasAccepted ids) rows
    → All (WasAccepted (a ∷ ids)) rows
rows_grown a ids rows =
    All-map (WasAccepted ids) (WasAccepted (a ∷ ids)) rows
      (λ row h e. grown a row.event_id ids (h e))

self_accepted : (a : String) (ids : List String) → accepts a (a ∷ ids) ≡ true
self_accepted a ids = rw ((string_eq.beq_iff a a).1 refl) refl

held_id : (mine row : Row) → is_held mine row ≡ true → row.event_id ≡ mine.event_id
held_id mine row e = (string_eq.beq_iff row.event_id mine.event_id).0 (ground arith)

worker_at : (w : World) (r : ℕ) {x : Worker} → w.workers r ≡ x → IsSound w → IsHonest w.accepted x
worker_at w r e h = rw (sym e) (h.workers_honest r)

Step-IsSound : (config : Config) {w v : World} → Step config w v → IsSound w → IsSound v
Step-IsSound config (claim w r now row e) h = record {
  rows_accepted =
      All-modify_where (WasAccepted w.accepted) (WasAccepted w.accepted) (has_id row.event_id)
        (claim_row config now w.next_token) w.rows (λ x p a q. cc q) (λ x p a. a) h.rows_accepted;
  workers_honest = λ k. set-IsHonest w.accepted r k _ w.workers tt h.workers_honest;
}
Step-IsSound config (publish w r mine e) h = record {
  rows_accepted = rows_grown mine.event_id w.accepted w.rows h.rows_accepted;
  workers_honest = λ k.
      set-IsHonest (mine.event_id ∷ w.accepted) r k (sent mine) w.workers
        (self_accepted mine.event_id w.accepted)
        (λ j. IsHonest-grown mine.event_id w.accepted (w.workers j) (h.workers_honest j));
}
Step-IsSound config (publish_unnoticed w r mine e) h = record {
  rows_accepted = rows_grown mine.event_id w.accepted w.rows h.rows_accepted;
  workers_honest = λ j. IsHonest-grown mine.event_id w.accepted (w.workers j) (h.workers_honest j);
}
Step-IsSound config (mark_published w r mine e) h =
    let ours : accepts mine.event_id w.accepted ≡ true = worker_at w r e h in
    record {
      rows_accepted =
          All-modify_where (WasAccepted w.accepted) (WasAccepted w.accepted) (is_held mine)
            publish_row w.rows (λ x p a q. rw (held_id mine x p) ours) (λ x p a. a) h.rows_accepted;
      workers_honest = λ k. set-IsHonest w.accepted r k idle w.workers tt h.workers_honest;
    }
Step-IsSound config (mark_failure w r now mine e) h = record {
  rows_accepted =
      All-modify_where (WasAccepted w.accepted) (WasAccepted w.accepted) (is_held mine)
        (retry_row (now + backoff config mine.attempt)) w.rows (λ x p a q. cc q) (λ x p a. a)
        h.rows_accepted;
  workers_honest = λ k. set-IsHonest w.accepted r k idle w.workers tt h.workers_honest;
}
Step-IsSound config (crash w r) h = record {
  rows_accepted = h.rows_accepted;
  workers_honest = λ k. set-IsHonest w.accepted r k idle w.workers tt h.workers_honest;
}
Step-IsSound config (add w row e) h = record {
  rows_accepted =
      All-append (WasAccepted w.accepted) w.rows (row ∷ []) h.rows_accepted ((λ q. cc (e, q)), tt);
  workers_honest = h.workers_honest;
}

Reach-IsSound : (config : Config) {w : World} → Reach config w → IsSound w
Reach-IsSound config here = record { rows_accepted = tt; workers_honest = λ r. tt }
Reach-IsSound config (next h s) = Step-IsSound config s (Reach-IsSound config h)

-- A step removes no row.
Step-has_id :
    (config : Config) (id : String) {w v : World}
    → Step config w v
    → any (has_id id) w.rows ≡ true
    → any (has_id id) v.rows ≡ true
Step-has_id config id (claim w r now row e) h =
    rw
      (any-modify_where (has_id id) (has_id row.event_id) (claim_row config now w.next_token) w.rows
        (λ x. refl))
      h
Step-has_id config id (publish w r mine e) h = h
Step-has_id config id (publish_unnoticed w r mine e) h = h
Step-has_id config id (mark_published w r mine e) h =
    rw (any-modify_where (has_id id) (is_held mine) publish_row w.rows (λ x. refl)) h
Step-has_id config id (mark_failure w r now mine e) h =
    rw
      (any-modify_where (has_id id) (is_held mine) (retry_row (now + backoff config mine.attempt))
        w.rows (λ x. refl))
      h
Step-has_id config id (crash w r) h = h
Step-has_id config id (add w row e) h = any-append (has_id id) w.rows (row ∷ []) h

Run-has_id :
    (config : Config) (id : String) {w v : World}
    → Run config w v
    → any (has_id id) w.rows ≡ true
    → any (has_id id) v.rows ≡ true
Run-has_id config id done h = h
Run-has_id config id (more run s) h = Step-has_id config id s (Run-has_id config id run h)

Run-IsSound : (config : Config) {w v : World} → Run config w v → IsSound w → IsSound v
Run-IsSound config done h = h
Run-IsSound config (more run s) h = Step-IsSound config s (Run-IsSound config run h)

-- From some time on, the query of a claim finds the row.
abbrev pub BecomesReady : Row → Type 0
BecomesReady row = (t : ℕ) × ((now : ℕ) → t ≤ now → is_ready now row ≡ true)

due : (o : Option ℕ) → (t : ℕ) × ((now : ℕ) → t ≤ now → is_due now o ≡ true)
due none = (0, λ now h. refl)
due (some t) = (t, λ now h. ground arith)

lapsed : (o : Option ℕ) → (t : ℕ) × ((now : ℕ) → t ≤ now → has_lapsed now o ≡ true)
lapsed none = (0, λ now h. refl)
lapsed (some t) = (t, λ now h. ground arith)

ready_or_published :
    (row : Row) (s : Status) → row.status ≡ s → (row.status ≡ published) ⊎ BecomesReady row
unfolding is_ready
ready_or_published row pending e =
    let d = due row.next_attempt_at in inr (d.0, λ now h. rw e (d.1 now h))
ready_or_published row retryable e =
    let d = due row.next_attempt_at in inr (d.0, λ now h. rw e (d.1 now h))
ready_or_published row failed e =
    let d = due row.next_attempt_at in inr (d.0, λ now h. rw e (d.1 now h))
ready_or_published row claimed e =
    let d = lapsed row.lease_until in inr (d.0, λ now h. rw e (d.1 now h))
ready_or_published row published e = inl e

-- Whatever relays do, fail to do or crash at, an event that is in the table stays there, and its row is
-- either published, and then the broker has accepted the event, or from some time on ready for a relay
-- to claim.
pub no_event_is_lost :
    (config : Config) (w v : World) (id : String)
    → Reach config w
    → any (has_id id) w.rows ≡ true
    → Run config w v
    → (row : Row) × (first (has_id id) v.rows ≡ some row)
      × (((row.status ≡ published) × (accepts row.event_id v.accepted ≡ true)) ⊎ BecomesReady row)
no_event_is_lost config w v id reach h run =
    let found = any-first (has_id id) v.rows (Run-has_id config id run h) in
    let row = found.0 in
    let sound = Run-IsSound config run (Reach-IsSound config reach) in
    let told =
      (first-All (WasAccepted v.accepted) (has_id id) row v.rows found.1 sound.rows_accepted).0 in
    (
      row,
      found.1,
      elim (ready_or_published row row.status refl) [ inl p ↦ inl (p, told p) | inr r ↦ inr r ],
    )
