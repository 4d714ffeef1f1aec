-- ===== src/Storage/Messages/Granted.antt =====
-- A recall that is asked for in time is granted: `RecallMessageWithDB` of
-- shared/db/util_message.go.
use betterfly.Prelude.{
  ◌/◌, ℕ, ◌+◌, ◌*◌, ◌≤◌, ℤ, ◌≡◌, refl, ap, inl, inr, true, false, some, List, [], ◌∷◌, Bool-cases,
  some_injective, first, modify_where, ltb, ◌==◌, arith, int_eq, nat_eq, nat_beq_iff, int_beq_iff,
  is_positive,
}
use betterfly.Relations.Types.{Db}
use betterfly.Storage.Messages.Identity.{Written-IsFresh, recall-Written, apply_all-IsFresh}
use betterfly.Storage.Messages.Final.{apply_all-stays}
use betterfly.Storage.Messages.{
  Operation, apply, apply_all, empty_table, Message, recall_ok, Table, second,
  message_recall_window, has_message_id, get_message_by_id, recalled, is_open, recall_found,
  recall_message,
}

first-recalled :
    (i : ℤ) (m : Message) (now : ℕ) (u : ℤ) (ms : List Message)
    → m.is_recalled ≡ false
    → first (has_message_id i) ms ≡ some m
    → first (has_message_id i) (modify_where (is_open m.message_id) (recalled u now) ms)
      ≡ some (recalled u now m)
first-recalled i m now u [] r e = cc e
first-recalled i m now u (x ∷ xs) r e = elim (Bool-cases (has_message_id i x)) [
  | inl q ↦
      let x≡m : x ≡ m = some_injective (rw q at e) in
      let opens : is_open m.message_id x ≡ true =
        rw (x≡m, r, (nat_beq_iff m.message_id m.message_id).1 refl) refl in
      rw (opens, q) (ap (λ y. some (recalled u now y)) x≡m)
  | inr q ↦
      let rest = first-recalled i m now u xs r (rw q at e) in
      elim (Bool-cases (is_open m.message_id x)) [ inl o ↦ rw (o, q) rest | inr o ↦ rw (o, q) rest ]
]

found-recalled :
    (i : ℤ) (m : Message) (now : ℕ) (u : ℤ) (t : Table)
    → m.is_recalled ≡ false
    → get_message_by_id i t.rows ≡ some m
    → get_message_by_id i (modify_where (is_open m.message_id) (recalled u now) t.rows)
      ≡ some (recalled u now m)
unfolding get_message_by_id
found-recalled i m now u t r e = first-recalled i m now u t.rows r e

-- The message as it was, but for what says that a user recalled it at a time.
pub record IsTakenBack (operator : ℤ) (at : ℕ) (m r : Message) : Type 0 where
  pub is_recalled : r.is_recalled ≡ true
  pub by_operator : r.recalled_by ≡ operator
  pub at_time : r.recalled_at ≡ some at
  pub message_id : r.message_id ≡ m.message_id
  pub client_message_id : r.client_message_id ≡ m.client_message_id
  pub from_user : r.from_user ≡ m.from_user
  pub to_user : r.to_user ≡ m.to_user
  pub content : r.content ≡ m.content
  pub timestamp : r.timestamp ≡ m.timestamp
  pub message_type : r.message_type ≡ m.message_type
  pub real_file_name : r.real_file_name ≡ m.real_file_name
  pub is_group : r.is_group ≡ m.is_group

recalled-IsTakenBack :
    (operator : ℤ) (now : ℕ) (m : Message)
    → IsTakenBack operator (now / 1_000_000_000) m (recalled operator now m)
recalled-IsTakenBack operator now m = record {
  is_recalled = refl;
  by_operator = refl;
  at_time = refl;
  message_id = refl;
  client_message_id = refl;
  from_user = refl;
  to_user = refl;
  content = refl;
  timestamp = refl;
  message_type = refl;
  real_file_name = refl;
  is_group = refl;
}

granted :
    (db : Db) (operator i : ℤ) (now : ℕ) (m : Message) (t : Table)
    → is_positive operator ≡ true
    → is_positive i ≡ true
    → get_message_by_id i t.rows ≡ some m
    → m.from_user ≡ operator
    → m.is_recalled ≡ false
    → now ≤ m.timestamp * second + message_recall_window
    → let answer = recall_message db operator i now t in
      (answer.0 ≡ record { message = some (recalled operator now m); status = recall_ok })
      × (get_message_by_id i answer.1.rows ≡ some (recalled operator now m))
unfolding recall_message recall_found
granted db operator i now m t p q e s r l =
    let mine : (m.from_user == operator) ≡ true = (int_beq_iff m.from_user operator).1 s in
    let early : ltb (m.timestamp * second + message_recall_window) now ≡ false = ground arith in
    rw (p, q, e, mine, r, early) (refl, found-recalled i m now operator t r e)

-- The sender of a stored message that is not recalled, asking at most two minutes after the second
-- at which it was sent began, is answered that it is recalled and with the recalled message. After
-- any messages are stored and recalled later it is read as that message: recalled by the sender at
-- the second of the request, and otherwise as it was sent.
pub recall_is_granted :
    (before later : List Operation) (db : Db) (operator i : ℤ) (now : ℕ) (m : Message)
    → let t = apply_all before empty_table in
      is_positive operator ≡ true
      → is_positive i ≡ true
      → get_message_by_id i t.rows ≡ some m
      → m.from_user ≡ operator
      → m.is_recalled ≡ false
      → now ≤ (m.timestamp + 120) * 1_000_000_000
      → let answer = recall_message db operator i now t in
        (r : Message) × IsTakenBack operator (now / 1_000_000_000) m r
        × (answer.0.status ≡ recall_ok)
        × (answer.0.message ≡ some r)
        × (get_message_by_id i (apply_all later answer.1).rows ≡ some r)
unfolding apply
recall_is_granted before later db operator i now m p q e s n l =
    let t = apply_all before empty_table in
    let (told, read) = granted db operator i now m t p q e s n (omega arith) in
    (
      recalled operator now m,
      recalled-IsTakenBack operator now m,
      rw told refl,
      rw told refl,
      apply_all-stays i (recalled operator now m) later (recall_message db operator i now t).1
          (Written-IsFresh t (recall_message db operator i now t).1
            (recall-Written db operator i now t) (apply_all-IsFresh before empty_table tt))
          refl read,
    )
