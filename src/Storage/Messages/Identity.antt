-- ===== src/Storage/Messages/Identity.antt =====
-- A message is read back as it was stored: shared/db/util_message.go.
use betterfly.Prelude.{
  ℕ, ◌<◌, ℤ, pos, String, ◌≡◌, refl, sym, inl, inr, Bool, true, false, ◌||◌, Option, none, some,
  List, [], ◌∷◌, Bool-cases, Option-cases, some_injective, first, modify_where, if-both, ◌==◌,
  arith, trim, nat_beq_iff, int_beq, string_eq, int_eq, nat_eq, is_positive, not, ltb, ◌+◌, ◌*◌,
}
use betterfly.Relations.Types.{Db}
use betterfly.Storage.Messages.{
  Message, Table, Draft, second, message_recall_window, is_text, has_client, insert_message,
  store_new_message, has_message_id, get_message_by_id, recalled, is_open, recall_found,
  recall_message, empty_table, Operation, store, recall, apply, apply_all,
}

-- Ids descend from a bound that the table has not given out.
abbrev pub IsNumbered : ℕ → List Message → Type 0
IsNumbered n [] = Unit
IsNumbered n (m ∷ ms) = (m.message_id < n) × IsNumbered m.message_id ms

abbrev pub IsFresh : Table → Type 0
IsFresh t = IsNumbered t.next_id t.rows

-- What writes the table: a new row on top of it, or rows recalled.
pub data Written (t : Table) : Table → Type 0 where
  kept : Written t t
  stored :
      (d : Draft) (client : Option String) (now : ℕ)
      → ((u : ℤ) (c : String)
          → is_text c client ≡ true
          → d.from_user ≡ u
          → first (has_client u c) t.rows ≡ none)
      → Written t (insert_message d client now t).1
  changed :
      (i now : ℕ) (u : ℤ)
      → Written t (record t { rows = modify_where (is_open i) (recalled u now) t.rows })

pub first-below :
    (p : Message → Bool) (n : ℕ) (m : Message) (ms : List Message)
    → IsNumbered n ms
    → first p ms ≡ some m
    → m.message_id < n
first-below p n m [] h e = cc e
first-below p n m (x ∷ xs) (l, h) e = elim (Bool-cases (p x)) [
  | inl q ↦ let x≡m : x ≡ m = some_injective (rw q at e) in rw (sym x≡m) l
  | inr q ↦ let b = first-below p x.message_id m xs h (rw q at e) in omega arith
]

-- The first row that a query finds is the row with its id.
first-has_message_id :
    (p : Message → Bool) (n : ℕ) (m : Message) (ms : List Message)
    → IsNumbered n ms
    → first p ms ≡ some m
    → first (has_message_id (pos m.message_id)) ms ≡ some m
unfolding int_beq
first-has_message_id p n m [] h e = cc e
first-has_message_id p n m (x ∷ xs) (l, h) e = elim (Bool-cases (p x)) [
  | inl q ↦
      let x≡m : x ≡ m = some_injective (rw q at e) in
      rw (x≡m, (nat_beq_iff m.message_id m.message_id).1 refl) refl
  | inr q ↦
      let below = first-below p x.message_id m xs h (rw q at e) in
      let differs : (x.message_id == m.message_id) ≡ false = ground arith in
      rw differs (first-has_message_id p x.message_id m xs h (rw q at e))
]

abbrev Writes : {A : Type 0} → Table → A × Table → Type 0
Writes t r = Written t r.1

pub store-Written : (d : Draft) (now : ℕ) (t : Table) → Written t (store_new_message d now t).1
unfolding store_new_message
store-Written d now t =
    if-both (Writes t) (trim d.client_message_id == "") (λ e. stored d none now (λ u c h. cc h))
      (λ e. elim (Option-cases (first (has_client d.from_user (trim d.client_message_id)) t.rows)) [
        | inl q ↦ rw q (
            stored d (some (trim d.client_message_id)) now
              (λ u c h k. rw (sym k, sym ((string_eq.beq_iff (trim d.client_message_id) c).0 h)) q))
        | inr (m, q) ↦ rw q kept
      ])

pub recall-Written :
    (db : Db) (operator i : ℤ) (now : ℕ) (t : Table)
    → Written t (recall_message db operator i now t).1
unfolding recall_message recall_found
recall-Written db operator i now t =
    if-both (Writes t) (not (is_positive operator) || not (is_positive i)) (λ e. kept)
      (λ e. elim (Option-cases (get_message_by_id i t.rows)) [
        | inl q ↦ rw q kept
        | inr (m, q) ↦ rw q (
            if-both (Writes t) (not (m.from_user == operator)) (λ a. kept)
              (λ a.
                if-both (Writes t) m.is_recalled (λ b. kept)
                  (λ b.
                    if-both (Writes t) (ltb (m.timestamp * second + message_recall_window) now)
                      (λ c. kept) (λ c. changed m.message_id now operator))))
      ])

pub apply-Written : (op : Operation) (t : Table) → Written t (apply op t)
unfolding apply
apply-Written (store d now) t = store-Written d now t
apply-Written (recall db operator i now) t = recall-Written db operator i now t

IsNumbered-modify_where :
    (n : ℕ) (p : Message → Bool) (f : Message → Message) (ms : List Message)
    → ((m : Message) → (f m).message_id ≡ m.message_id)
    → IsNumbered n ms
    → IsNumbered n (modify_where p f ms)
IsNumbered-modify_where n p f [] k h = tt
IsNumbered-modify_where n p f (m ∷ ms) k (l, h) = elim (Bool-cases (p m)) [
  | inl e ↦ rw (e, k m) (l, IsNumbered-modify_where m.message_id p f ms k h)
  | inr e ↦ rw e (l, IsNumbered-modify_where m.message_id p f ms k h)
]

pub Written-IsFresh : (t t' : Table) → Written t t' → IsFresh t → IsFresh t'
Written-IsFresh t _ kept h = h
Written-IsFresh t _ (stored d client now free) h = (omega arith, h)
Written-IsFresh t _ (changed i now u) h =
    IsNumbered-modify_where t.next_id (is_open i) (recalled u now) t.rows (λ m. refl) h

pub apply_all-IsFresh : (ops : List Operation) (t : Table) → IsFresh t → IsFresh (apply_all ops t)
apply_all-IsFresh [] t h = h
apply_all-IsFresh (op ∷ ops) t h =
    apply_all-IsFresh ops (apply op t) (Written-IsFresh t (apply op t) (apply-Written op t) h)

-- The answer's message is read by its id from the table that is left.
IsRead : (Message × Bool) × Table → Type 0
IsRead r = get_message_by_id (pos r.0.0.message_id) r.1.rows ≡ some r.0.0

insert-IsRead :
    (d : Draft) (client : Option String) (now : ℕ) (t : Table)
    → IsRead (insert_message d client now t)
unfolding IsRead get_message_by_id int_beq
insert-IsRead d client now t = rw ((nat_beq_iff t.next_id t.next_id).1 refl) refl

found-IsRead :
    (d : Draft) (t : Table) (m : Message)
    → IsFresh t
    → first (has_client d.from_user (trim d.client_message_id)) t.rows ≡ some m
    → IsRead ((m, false), t)
unfolding IsRead get_message_by_id
found-IsRead d t m fresh q =
    first-has_message_id (has_client d.from_user (trim d.client_message_id)) t.next_id m t.rows
      fresh q

store-IsRead : (d : Draft) (now : ℕ) (t : Table) → IsFresh t → IsRead (store_new_message d now t)
unfolding store_new_message
store-IsRead d now t fresh =
    if-both IsRead (trim d.client_message_id == "") (λ e. insert-IsRead d none now t)
      (λ e. elim (Option-cases (first (has_client d.from_user (trim d.client_message_id)) t.rows)) [
        | inl q ↦ rw q (insert-IsRead d (some (trim d.client_message_id)) now t)
        | inr (m, q) ↦ rw q (found-IsRead d t m fresh q)
      ])

-- A message that a user stores is read back by its id exactly as the answer gave it, whether the
-- call stored it or a call before did, whatever messages were stored and recalled before.
pub stored_is_read :
    (ops : List Operation) (d : Draft) (now : ℕ)
    → let answer = store_new_message d now (apply_all ops empty_table) in
      get_message_by_id (pos answer.0.0.message_id) answer.1.rows ≡ some answer.0.0
unfolding IsRead
stored_is_read ops d now =
    store-IsRead d now (apply_all ops empty_table) (apply_all-IsFresh ops empty_table tt)
