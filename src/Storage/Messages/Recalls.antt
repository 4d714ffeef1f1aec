-- ===== src/Storage/Messages/Recalls.antt =====
-- A recall is its sender's, and in time: `RecallMessageWithDB` of shared/db/util_message.go.
use betterfly.Prelude.{
  ℕ, ◌+◌, ◌*◌, ◌/◌, ◌≤◌, ◌<◌, ℤ, ◌≡◌, refl, sym, inl, inr, Bool, true, false, not, ◌||◌, some, List,
  [], ◌∷◌, All, All-both, All-map, All-modify_where, Bool-cases, Option-cases, some_injective,
  first, if-both, ltb, ◌==◌, arith, int_eq, nat_eq, nat_beq_iff, trim, string_eq, int_beq,
  int_beq_iff, is_positive,
}
use betterfly.Relations.Types.{Db}
use betterfly.Storage.Messages.{
  Message, Table, empty_table, Draft, second, message_recall_window, store_new_message, has_client,
  has_message_id, get_message_by_id, recalled, is_open, recall_found, recall_message,
  MessageRecallOutcome, Operation, store, recall, apply, apply_all,
}
use betterfly.Storage.Messages.Identity.{
  IsNumbered, IsFresh, first-below, apply-Written, Written-IsFresh,
}

-- A recalled message was recalled by its sender, at most two minutes after it was sent.
abbrev pub IsHonest : Message → Type 0
IsHonest m =
    m.is_recalled ≡ true
    → (m.recalled_by ≡ m.from_user)
      × ((at : ℕ) × (m.recalled_at ≡ some at) × (at ≤ m.timestamp + 120))

pub Numbered-below :
    (n b : ℕ) (ms : List Message) → n ≤ b → IsNumbered n ms → All (λ r. r.message_id < b) ms
Numbered-below n b [] l h = tt
Numbered-below n b (m ∷ ms) l (k, h) =
    (omega arith, Numbered-below m.message_id b ms (omega arith) h)

-- No other row has the id of a row that is found.
Only : Message → Message → Type 0
Only m r = r.message_id ≡ m.message_id → r ≡ m

get-Only :
    (i : ℤ) (n : ℕ) (m : Message) (ms : List Message)
    → IsNumbered n ms
    → first (has_message_id i) ms ≡ some m
    → All (Only m) ms
unfolding Only int_beq
get-Only i n m [] h e = tt
get-Only i n m (x ∷ xs) (l, h) e = elim (Bool-cases (has_message_id i x)) [
  | inl q ↦
      let x≡m : x ≡ m = some_injective (rw q at e) in
      (
        λ k. x≡m,
        All-map (λ r. r.message_id < m.message_id) (Only m) xs (λ r b k. ground arith)
            (rw (sym x≡m) (Numbered-below x.message_id x.message_id xs (omega arith) h)),
      )
  | inr q ↦
      let b = first-below (has_message_id i) x.message_id m xs h (rw q at e) in
      (λ k. ground arith, get-Only i x.message_id m xs h (rw q at e))
]

Honest : MessageRecallOutcome × Table → Type 0
Honest r = All IsHonest r.1.rows

recalled-IsHonest :
    (operator : ℤ) (now : ℕ) (m r : Message)
    → not (m.from_user == operator) ≡ false
    → ltb (m.timestamp * second + message_recall_window) now ≡ false
    → r ≡ m
    → IsHonest (recalled operator now r)
recalled-IsHonest operator now m r a c e = rw e (λ z. (
  elim (Bool-cases (m.from_user == operator)) [
    | inl t ↦ sym ((int_beq_iff m.from_user operator).0 t)
    | inr f ↦ cc (rw f at a)
  ],
  (
    now / second,
    refl,
    (let late : now ≤ m.timestamp * second + message_recall_window = ground arith in omega arith),
  ),
))

open_id : (i : ℕ) (r : Message) → is_open i r ≡ true → r.message_id ≡ i
open_id i r q = elim (Bool-cases (r.message_id == i)) [
  | inl e ↦ (nat_beq_iff r.message_id i).0 e
  | inr e ↦ cc (rw e at q)
]

recall_found-Honest :
    (db : Db) (operator : ℤ) (now : ℕ) (m : Message) (t : Table)
    → All (Only m) t.rows
    → All IsHonest t.rows
    → Honest (recall_found db operator now m t)
unfolding recall_found Only Honest
recall_found-Honest db operator now m t only h =
    if-both Honest (not (m.from_user == operator)) (λ a. h)
      (λ a.
        if-both Honest m.is_recalled (λ b. h)
          (λ b.
            if-both Honest (ltb (m.timestamp * second + message_recall_window) now) (λ c. h)
              (λ c.
                All-modify_where (λ r. Only m r × IsHonest r) IsHonest (is_open m.message_id)
                  (recalled operator now) t.rows
                  (λ r q k. recalled-IsHonest operator now m r a c (k.0 (open_id m.message_id r q)))
                  (λ r q k. k.1) (All-both (Only m) IsHonest t.rows only h))))

found-Only :
    (i : ℤ) (t : Table) (m : Message)
    → IsFresh t
    → get_message_by_id i t.rows ≡ some m
    → All (Only m) t.rows
unfolding get_message_by_id
found-Only i t m fresh q = get-Only i t.next_id m t.rows fresh q

recall-Honest :
    (db : Db) (operator i : ℤ) (now : ℕ) (t : Table)
    → IsFresh t
    → All IsHonest t.rows
    → Honest (recall_message db operator i now t)
unfolding recall_message Honest
recall-Honest db operator i now t fresh h =
    if-both Honest (not (is_positive operator) || not (is_positive i)) (λ e. h)
      (λ e. elim (Option-cases (get_message_by_id i t.rows)) [
        | inl q ↦ rw q h
        | inr (m, q) ↦ rw q (recall_found-Honest db operator now m t (found-Only i t m fresh q) h)
      ])

HonestStore : (Message × Bool) × Table → Type 0
HonestStore r = All IsHonest r.1.rows

store-HonestStore :
    (d : Draft) (now : ℕ) (t : Table)
    → All IsHonest t.rows
    → HonestStore (store_new_message d now t)
unfolding store_new_message HonestStore
store-HonestStore d now t h =
    if-both HonestStore (trim d.client_message_id == "") (λ e. (λ z. cc z, h))
      (λ e. elim (Option-cases (first (has_client d.from_user (trim d.client_message_id)) t.rows)) [
        | inl q ↦ rw q (λ z. cc z, h)
        | inr (m, q) ↦ rw q h
      ])

apply-IsHonest :
    (op : Operation) (t : Table) → IsFresh t → All IsHonest t.rows → All IsHonest (apply op t).rows
unfolding apply Honest HonestStore
apply-IsHonest (store d now) t fresh h = store-HonestStore d now t h
apply-IsHonest (recall db operator i now) t fresh h = recall-Honest db operator i now t fresh h

apply_all-IsHonest :
    (ops : List Operation) (t : Table)
    → IsFresh t
    → All IsHonest t.rows
    → All IsHonest (apply_all ops t).rows
apply_all-IsHonest [] t fresh h = h
apply_all-IsHonest (op ∷ ops) t fresh h =
    apply_all-IsHonest ops (apply op t) (Written-IsFresh t (apply op t) (apply-Written op t) fresh)
      (apply-IsHonest op t fresh h)

-- Whatever messages are stored and whoever asks for recalls, a message that is recalled was
-- recalled by the user who sent it, at a time not later than two minutes after it was sent.
pub recalls_in_time : (ops : List Operation) → All IsHonest (apply_all ops empty_table).rows
recalls_in_time ops = apply_all-IsHonest ops empty_table tt tt
