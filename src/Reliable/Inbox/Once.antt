-- ===== src/Reliable/Inbox/Once.antt =====
-- An operation takes effect once, together with its events, while its record is retained.
use betterfly.Prelude.{
  trim, Bool, All, ltb, arith, ◌≤◌, ℕ, String, ◌≡◌, ◌≢◌, refl, sym, ap, ◌∙◌, false, ◌||◌, Option,
  none, some, List, [], ◌∷◌, update, update_self, ◌==◌, string_eq, Bool-cases, Option-cases, inl,
  inr, ◌⊎◌,
}
use betterfly.Reliable.Inbox.{
  PendingOutboxEvent, OutboxEvent, InboxStatus, processing, completed, ConsumerInbox, Store, Work,
  Execution, executed, replayed, add_events, mark, complete, replay_as, execute_trimmed,
  execute_inbox_outbox, cleanup_inbox,
}

-- An execution of an operation, and a run of them.
pub record Execute (S R P : Type 0) : Type 0 where
  pub service : String
  pub operation_key : String
  pub now : ℕ
  pub work : Work S R P

abbrev pub done : {R : Type 0} → ℕ → R → ConsumerInbox R
done now r = record { status = completed; response_payload = some r; completed_at = some now }

-- An execution, or a pass of the cleaning with its cutoff and the rows that its limit lets through.
pub data Happening (S R P : Type 0) : Type 0 where
  execution : Execute S R P → Happening S R P
  cleaning : ℕ → (String → String → Bool) → Happening S R P

replay_not_executed :
    {R : Type 0} (status : InboxStatus) (o : Option R) (r : R) → replay_as status o ≢ executed r
replay_not_executed processing o r = λ p. cc p
replay_not_executed completed o r = λ p. cc p

module _ {S R P : Type 0} where
  abbrev pub execute : Execute S R P → Store S R P → Execution R × Store S R P
  execute x w = execute_inbox_outbox x.service x.operation_key x.now x.work w

  -- What happens to the tables, one after another.
  abbrev pub happen : Happening S R P → Store S R P → Store S R P
  happen (execution x) w = (execute x w).1
  happen (cleaning cutoff within) w = cleanup_inbox cutoff within w

  abbrev pub happen_all : List (Happening S R P) → Store S R P → Store S R P
  happen_all [] w = w
  happen_all (x ∷ xs) w = happen_all xs (happen x w)

  -- Cleanings spare the rows that were completed at a time or later.
  abbrev pub Spares : ℕ → Happening S R P → Type 0
  Spares t (execution x) = Unit
  Spares t (cleaning cutoff within) = cutoff ≤ t

  -- What a transaction does: nothing, or everything.
  pub record IsCommitted (service key : String) (now : ℕ) (work : Work S R P) (w v : Store S R P)
      (r : R) : Type 0 where
    pub events : List (PendingOutboxEvent P)
    pub business : S
    pub rows : List (OutboxEvent P)
    pub named : (service == "" || key == "") ≡ false
    pub free : w.inbox service key ≡ none
    pub worked : work w.business ≡ some (r, events, business)
    pub added : add_events service key now events w.outbox ≡ some rows
    pub after : v ≡ mark service key (done now r) (record w { outbox = rows; business = business })

  abbrev pub Effect :
      String → String → ℕ → Work S R P → Store S R P → Execution R × Store S R P → Type 0
  Effect service key now work w ev =
      ((r : R) × (ev.0 ≡ executed r) × IsCommitted service key now work w ev.1 r)
      ⊎ ((ev.1 ≡ w) × ((r : R) → ev.0 ≢ executed r))

  complete-Effect :
      (service key : String) (now : ℕ) (work : Work S R P) (w : Store S R P)
      (o : Option (R × List (PendingOutboxEvent P) × S))
      → (service == "" || key == "") ≡ false
      → w.inbox service key ≡ none
      → work w.business ≡ o
      → Effect service key now work w (complete service key now w o)
  complete-Effect service key now work w none named free e = inr (refl, λ r p. cc p)
  complete-Effect service key now work w (some (r, events, business)) named free e =
      elim (Option-cases (add_events service key now events w.outbox)) [
        | inl p ↦ rw (complete, p) (inr (refl, λ r' q. cc q))
        | inr (rows, p) ↦
            rw (complete, p)
              (inl (
                r,
                refl,
                record {
                  events = events;
                  business = business;
                  rows = rows;
                  named = named;
                  free = free;
                  worked = e;
                  added = p;
                  after = refl;
                },
              ))
      ]

  pub execute-Effect :
      (service key : String) (now : ℕ) (work : Work S R P) (w : Store S R P)
      → Effect service key now work w (execute_trimmed service key now work w)
  execute-Effect service key now work w = elim (Bool-cases (service == "" || key == "")) [
    | inl e ↦ rw e (inr (refl, λ r p. cc p))
    | inr e ↦ elim (Option-cases (w.inbox service key)) [
      | inl p ↦ rw (e, p) (complete-Effect service key now work w (work w.business) e p refl)
      | inr (row, p) ↦
          rw (e, p) (inr (refl, λ r q. replay_not_executed row.status row.response_payload r q))
    ]
  ]

  pub mark_self :
      (s k : String) (row : ConsumerInbox R) (w : Store S R P)
      → (mark s k row w).inbox s k ≡ some row
  mark_self s k row w =
      ap (λ f. f k) (update_self s (update k (some row) (w.inbox s)) w.inbox)
      ∙ update_self k (some row) (w.inbox s)

  mark_other :
      (s k s' k' : String) (row old : ConsumerInbox R) (w : Store S R P)
      → w.inbox s k ≡ none
      → w.inbox s' k' ≡ some old
      → (mark s k row w).inbox s' k' ≡ some old
  mark_other s k s' k' row old w free e = elim (Bool-cases (s' == s)) [
    | inr p ↦ rw p e
    | inl p ↦ elim (Bool-cases (k' == k)) [
      | inr q ↦ rw (p, q, sym ((string_eq.beq_iff s' s).0 p)) e
      | inl q ↦ cc (rw ((string_eq.beq_iff s' s).0 p, (string_eq.beq_iff k' k).0 q, free) at e)
    ]
  ]

  -- A completed row stays.
  kept :
      (x : Execute S R P) (w : Store S R P) (s k : String) (t : ℕ) (r : R)
      → w.inbox s k ≡ some (done t r)
      → (execute x w).1.inbox s k ≡ some (done t r)
  unfolding execute_inbox_outbox
  kept x w s k t r e =
      elim (execute-Effect (trim x.service) (trim x.operation_key) x.now x.work w) [
        | inl (r', p, c) ↦ rw c.after (
            mark_other (trim x.service) (trim x.operation_key) s k (done x.now r') (done t r)
              (record w { outbox = c.rows; business = c.business }) c.free e)
        | inr (same, p) ↦ rw same e
      ]

  kept_happen :
      (x : Happening S R P) (w : Store S R P) (s k : String) (t : ℕ) (r : R)
      → Spares t x
      → w.inbox s k ≡ some (done t r)
      → (happen x w).inbox s k ≡ some (done t r)
  unfolding cleanup_inbox
  kept_happen (execution x) w s k t r h e = kept x w s k t r e
  kept_happen (cleaning cutoff within) w s k t r h e =
      let young : ltb t cutoff ≡ false = ground arith in rw (e, young) refl

  survives_between :
      (xs : List (Happening S R P)) (w : Store S R P) (s k : String) (t : ℕ) (r : R)
      → All (Spares t) xs
      → w.inbox s k ≡ some (done t r)
      → (happen_all xs w).inbox s k ≡ some (done t r)
  survives_between [] w s k t r h e = e
  survives_between (x ∷ xs) w s k t r (h, hs) e =
      survives_between xs (happen x w) s k t r hs (kept_happen x w s k t r h e)

  marked_replays :
      (service key : String) (now : ℕ) (work : Work S R P) (w : Store S R P) (t : ℕ) (r : R)
      → (service == "" || key == "") ≡ false
      → w.inbox service key ≡ some (done t r)
      → execute_trimmed service key now work w ≡ (replayed (some r), w)
  marked_replays service key now work w t r named marked = rw (execute_trimmed, named, marked) refl

  executed_marks :
      (x : Execute S R P) (w : Store S R P) (r : R)
      → (execute x w).0 ≡ executed r
      → ((trim x.service == "" || trim x.operation_key == "") ≡ false)
        × ((execute x w).1.inbox (trim x.service) (trim x.operation_key) ≡ some (done x.now r))
  unfolding execute_inbox_outbox
  executed_marks x w r e =
      elim (execute-Effect (trim x.service) (trim x.operation_key) x.now x.work w) [
        | inl (r', p, c) ↦
            let r'≡r : r' ≡ r = cc (p, e) in
            (
              c.named,
              rw (c.after, r'≡r)
                  (mark_self (trim x.service) (trim x.operation_key) (done x.now r)
                    (record w { outbox = c.rows; business = c.business })),
            )
        | inr (same, p) ↦ absurd (p r e)
      ]

  -- An operation that has been executed takes effect no second time while its record is retained:
  -- whatever is executed after it, and however the inbox is cleaned with cutoffs that are not later
  -- than its execution, a later execution of the same operation, even of other work, answers with the
  -- first response, as a replay, and changes nothing.
  pub effect_once :
      (first again : Execute S R P) (between : List (Happening S R P)) (w : Store S R P) (r : R)
      → (execute first w).0 ≡ executed r
      → All (Spares first.now) between
      → trim again.service ≡ trim first.service
      → trim again.operation_key ≡ trim first.operation_key
      → let later = happen_all between (execute first w).1 in
        execute again later ≡ (replayed (some r), later)
  unfolding execute_inbox_outbox
  effect_once first again between w r e spared s k =
      let marked = executed_marks first w r e in
      let later = happen_all between (execute first w).1 in
      marked_replays (trim again.service) (trim again.operation_key) again.now again.work later
        first.now r (rw (s, k) marked.0)
        (rw (s, k)
          (survives_between between (execute first w).1 (trim first.service)
            (trim first.operation_key) first.now r spared marked.1))
