-- ===== src/Call/Relay.antt =====
-- The relay of the outbox to Kafka: `process` of services/callService/internal/call/event_relay.go.
-- The ledger of sent events does not run out within one batch.
use betterfly.Prelude.{
  ℕ, String, ◌≡◌, refl, ap, ◌∙◌, ◌⊎◌, inl, inr, Bool, true, false, ◌||◌, Option, none, some, List,
  [], ◌∷◌, ◌++◌, All, any, is_empty, update, ◌==◌, string_eq, if◌then◌else◌, if-both, Bool-cases,
}

-- A record of the stream, whose fields may be absent.
pub record StreamRecord : Type 0 where
  pub id : String
  pub event_id : Option String
  pub operation_key : Option String
  pub topic : Option String
  pub payload : Option (List ℕ)

-- What reaches Kafka.
pub record Published : Type 0 where
  pub to : String
  pub body : List ℕ
  pub event : String
  pub operation : String

-- The records that are not acknowledged, the ledger of sent events, and Kafka.
pub record Relay : Type 0 where
  pub unacknowledged : String → Option StreamRecord
  pub ledger : String → Bool
  pub sent : List Published

pub data RelayCommand : Type 0 where
  acknowledge look_up publish commit : String → RelayCommand

-- `streamString`: an absent field is a nil, which `fmt.Sprint` prints.
abbrev pub stream_string : Option String → String
stream_string none = "<nil>"
stream_string (some s) = s

-- `streamBytes`.
abbrev pub stream_bytes : Option (List ℕ) → List ℕ
stream_bytes none = []
stream_bytes (some bytes) = bytes

abbrev pub event_of : StreamRecord → String
event_of m = stream_string m.event_id

-- A damaged record, which is dropped.
abbrev pub is_damaged : StreamRecord → Bool
is_damaged m = event_of m == "" || stream_string m.topic == "" || is_empty (stream_bytes m.payload)

abbrev pub published_of : StreamRecord → Published
published_of m = record {
  to = stream_string m.topic;
  body = stream_bytes m.payload;
  event = event_of m;
  operation = stream_string m.operation_key;
}

abbrev pub acknowledged : StreamRecord → Relay → Relay
acknowledged m r = record r { unacknowledged = update m.id none r.unacknowledged }

abbrev pub published : StreamRecord → Relay → Relay
published m r = record r { sent = r.sent ++ published_of m ∷ [] }

-- The pipeline that records the event as sent, and acknowledges and deletes it.
abbrev pub committed : StreamRecord → Relay → Relay
committed m r = record r {
  ledger = update (event_of m) true r.ledger;
  unacknowledged = update m.id none r.unacknowledged;
}

module _ (fails : RelayCommand → Bool) where
  unfoldable pub finish : StreamRecord → Relay → Bool × Relay
  finish m r = if fails (commit m.id) then (false, r) else (true, committed m r)

  -- One record: whether the batch goes on, and what is left.
  unfoldable pub process_one : StreamRecord → Relay → Bool × Relay
  unfolding finish
  process_one m r =
      if is_damaged m
      then (if fails (acknowledge m.id) then (false, r) else (true, acknowledged m r))
      else if fails (look_up (event_of m))
      then (false, r)
      else if r.ledger (event_of m)
      then finish m r
      else if fails (publish m.id)
      then (false, r)
      else finish m (published m r)

  -- `process`.
  unfoldable pub process : List StreamRecord → Relay → Bool × Relay
  unfolding process_one
  process [] r = (true, r)
  process (m ∷ ms) r =
      let (goes_on, r') = process_one m r in
      let rest = process ms r' in if goes_on then rest else (false, r')

some_injective : {a b : StreamRecord} → ◌≡◌ {A = Option StreamRecord} (some a) (some b) → a ≡ b
some_injective e = cc

module _ (start : Relay) where
  -- A record of the start is still there, or damaged, or its event is in the ledger; what is in
  -- the ledger was there at the start or has been published.
  pub record NoneLost (r : Relay) : Type 0 where
    pub kept :
        (id : String) (m : StreamRecord)
        → start.unacknowledged id ≡ some m
        → (r.unacknowledged id ≡ some m) ⊎ (is_damaged m ≡ true) ⊎ (r.ledger (event_of m) ≡ true)
    pub backed :
        (event : String)
        → r.ledger event ≡ true
        → (start.ledger event ≡ true) ⊎ (any (λ p. p.event == event) r.sent ≡ true)

  committed-NoneLost :
      (m : StreamRecord) (r : Relay)
      → start.unacknowledged m.id ≡ some m
      → (start.ledger (event_of m) ≡ true) ⊎ (any (λ p. p.event == event_of m) r.sent ≡ true)
      → NoneLost r
      → NoneLost (committed m r)
  committed-NoneLost m r there done v = record {
    kept = λ id x h. elim (Bool-cases (id == m.id)) [
      | inl i ↦
          let same_id : id ≡ m.id = (string_eq.beq_iff id m.id).0 i in
          let same : x ≡ m = some_injective (cc (ap start.unacknowledged same_id, h, there)) in
          inr (inr (rw ((string_eq.beq_iff (event_of x) (event_of m)).1 (ap event_of same)) refl))
      | inr i ↦ elim (v.kept id x h) [
        | inl u ↦ inl (rw i u)
        | inr (inl d) ↦ inr (inl d)
        | inr (inr l) ↦ inr (
            inr
              (elim (Bool-cases (event_of x == event_of m)) [ inl c ↦ rw c refl | inr c ↦ rw c l ]))
      ]
    ];
    backed = λ event h. elim (Bool-cases (event == event_of m)) [
      | inl i ↦ rw ((string_eq.beq_iff event (event_of m)).0 i) done
      | inr i ↦ v.backed event (rw i at h)
    ];
  }

  acknowledged-NoneLost :
      (m : StreamRecord) (r : Relay)
      → start.unacknowledged m.id ≡ some m
      → is_damaged m ≡ true
      → NoneLost r
      → NoneLost (acknowledged m r)
  acknowledged-NoneLost m r there bad v = record {
    kept = λ id x h. elim (Bool-cases (id == m.id)) [
      | inl i ↦
          let same_id : id ≡ m.id = (string_eq.beq_iff id m.id).0 i in
          let same : x ≡ m = some_injective (cc (ap start.unacknowledged same_id, h, there)) in
          inr (inl (ap is_damaged same ∙ bad))
      | inr i ↦ elim (v.kept id x h) [ inl u ↦ inl (rw i u) | inr d ↦ inr d ]
    ];
    backed = v.backed;
  }

  published-NoneLost : (m : StreamRecord) (r : Relay) → NoneLost r → NoneLost (published m r)
  published-NoneLost m r v = record {
    kept = v.kept;
    backed = λ event h. elim (v.backed event h) [
      | inl s ↦ inl s
      | inr s ↦ inr (any-append _ r.sent (published_of m) s)
    ];
  }
    where
      any-append :
          (p : Published → Bool) (ps : List Published) (x : Published)
          → any p ps ≡ true
          → any p (ps ++ x ∷ []) ≡ true
      any-append p [] x h = cc
      any-append p (y ∷ ys) x h = elim (Bool-cases (p y)) [
        | inl e ↦ rw e refl
        | inr e ↦ rw e (any-append p ys x (rw e at h))
      ]

  any-published :
      (m : StreamRecord) (ps : List Published)
      → any (λ p. p.event == event_of m) (ps ++ published_of m ∷ []) ≡ true
  any-published m [] = rw ((string_eq.beq_iff (event_of m) (event_of m)).1 refl) refl
  any-published m (p ∷ ps) = elim (Bool-cases (p.event == event_of m)) [
    | inl e ↦ rw e refl
    | inr e ↦ rw e (any-published m ps)
  ]

  module _ (fails : RelayCommand → Bool) where
    finish-NoneLost :
        (m : StreamRecord) (r : Relay)
        → start.unacknowledged m.id ≡ some m
        → (start.ledger (event_of m) ≡ true) ⊎ (any (λ p. p.event == event_of m) r.sent ≡ true)
        → NoneLost r
        → NoneLost (finish fails m r).1
    unfolding finish
    finish-NoneLost m r there done v =
        let Q : Bool × Relay → Type 0 = λ z. NoneLost z.1 in
        if-both Q (fails (commit m.id)) (λ e. v) (λ e. committed-NoneLost m r there done v)

    process_one-NoneLost :
        (m : StreamRecord) (r : Relay)
        → start.unacknowledged m.id ≡ some m
        → NoneLost r
        → NoneLost (process_one fails m r).1
    unfolding process_one
    process_one-NoneLost m r there v =
        let Q : Bool × Relay → Type 0 = λ z. NoneLost z.1 in
        if-both Q (is_damaged m)
          (λ bad.
            if-both Q (fails (acknowledge m.id)) (λ e. v)
              (λ e. acknowledged-NoneLost m r there bad v))
          λ sound.
            if-both Q (fails (look_up (event_of m))) (λ e. v)
              λ up.
                if-both Q (r.ledger (event_of m))
                  (λ sent. finish-NoneLost m r there (v.backed (event_of m) sent) v)
                  λ new.
                    if-both Q (fails (publish m.id)) (λ e. v)
                      λ e.
                        finish-NoneLost m (published m r) there (inr (any-published m r.sent))
                          (published-NoneLost m r v)

    process-NoneLost :
        (ms : List StreamRecord) (r : Relay)
        → All (λ m. start.unacknowledged m.id ≡ some m) ms
        → NoneLost r
        → NoneLost (process fails ms r).1
    unfolding process
    process-NoneLost [] r h v = v
    process-NoneLost (m ∷ ms) r (there, h) v =
        let next = process_one-NoneLost m r there v in
        let Q : Bool × Relay → Type 0 = λ z. NoneLost z.1 in
        if-both Q (process_one fails m r).0 (λ e. process-NoneLost ms _ h next) (λ e. next)

-- Whatever commands fail, and wherever a batch of records of the stream stops: each record that was
-- in the stream is still there for another try, or it is damaged, or its event is in the ledger; and
-- an event in the ledger was there at the start or has been published.
pub relay_loses_nothing :
    (fails : RelayCommand → Bool) (ms : List StreamRecord) (start : Relay)
    → All (λ m. start.unacknowledged m.id ≡ some m) ms
    → NoneLost start (process fails ms start).1
relay_loses_nothing fails ms start h =
    process-NoneLost start fails ms start h
      (record { kept = λ id m e. inl e; backed = λ event e. inl e })
