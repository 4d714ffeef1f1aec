-- ===== src/Storage/Messages/Once.antt =====
-- A message is stored once: shared/db/util_message.go.
use betterfly.Prelude.{
  ℕ, ℤ, String, ◌≡◌, refl, inl, inr, Bool, false, some, List, [], ◌∷◌, Bool-cases, Option-cases,
  some_injective, first, modify_where, ◌==◌, trim, string_eq, int_eq, nat_eq,
}
use betterfly.Storage.Messages.{
  Message, Table, Draft, new_message, is_text, has_client, store_new_message, recalled, is_open,
  Operation, apply, apply_all,
}
use betterfly.Storage.Messages.Identity.{Written, kept, stored, changed, apply-Written}

-- The row that holds a client's id, and its id.
abbrev pub Holds : ℤ → String → ℕ → List Message → Type 0
Holds u c i ms = (m : Message) × (first (has_client u c) ms ≡ some m) × (m.message_id ≡ i)

Holds-modify_where :
    (u v : ℤ) (c : String) (i j now : ℕ) (ms : List Message)
    → Holds u c i ms
    → Holds u c i (modify_where (is_open j) (recalled v now) ms)
Holds-modify_where u v c i j now [] (m, e, k) = cc e
Holds-modify_where u v c i j now (x ∷ xs) (m, e, k) = elim (Bool-cases (has_client u c x)) [
  | inl q ↦
      let x≡m : x ≡ m = some_injective (rw q at e) in
      elim (Bool-cases (is_open j x)) [
        | inl o ↦ rw (o, q) (recalled v now x, refl, rw x≡m k)
        | inr o ↦ rw (o, q) (x, refl, rw x≡m k)
      ]
  | inr q ↦
      let rest = Holds-modify_where u v c i j now xs (m, rw q at e, k) in
      elim (Bool-cases (is_open j x)) [ inl o ↦ rw (o, q) rest | inr o ↦ rw (o, q) rest ]
]

Written-Holds :
    (u : ℤ) (c : String) (i : ℕ) (t t' : Table)
    → Written t t'
    → Holds u c i t.rows
    → Holds u c i t'.rows
Written-Holds u c i t _ kept h = h
Written-Holds u c i t _ (stored d client now free) (m, e, k) =
    elim (Bool-cases (d.from_user == u)) [
      | inr a ↦ rw a (m, e, k)
      | inl a ↦ elim (Bool-cases (is_text c client)) [
        | inr b ↦ rw (a, b) (m, e, k)
        | inl b ↦ cc (free u c b ((int_eq.beq_iff d.from_user u).0 a), e)
      ]
    ]
Written-Holds u c i t _ (changed j now v) h = Holds-modify_where u v c i j now t.rows h

apply_all-Holds :
    (u : ℤ) (c : String) (i : ℕ) (ops : List Operation) (t : Table)
    → Holds u c i t.rows
    → Holds u c i (apply_all ops t).rows
apply_all-Holds u c i [] t h = h
apply_all-Holds u c i (op ∷ ops) t h =
    apply_all-Holds u c i ops (apply op t)
      (Written-Holds u c i t (apply op t) (apply-Written op t) h)

HoldsAnswer : ℤ → String → (Message × Bool) × Table → Type 0
HoldsAnswer u c r = Holds u c r.0.0.message_id r.1.rows

store-HoldsAnswer :
    (d : Draft) (now : ℕ) (t : Table)
    → (trim d.client_message_id == "") ≡ false
    → HoldsAnswer d.from_user (trim d.client_message_id) (store_new_message d now t)
unfolding store_new_message HoldsAnswer
store-HoldsAnswer d now t h =
    rw h (elim (Option-cases (first (has_client d.from_user (trim d.client_message_id)) t.rows)) [
      | inl q ↦
          rw
            (
              q,
              (int_eq.beq_iff d.from_user d.from_user).1 refl,
              (string_eq.beq_iff (trim d.client_message_id) (trim d.client_message_id)).1 refl,
            )
            (new_message d (some (trim d.client_message_id)) t.next_id now, refl, refl)
      | inr (m, q) ↦ rw (q, q) (m, refl, refl)
    ])

store_again :
    (e : Draft) (now : ℕ) (t : Table) (m : Message)
    → (trim e.client_message_id == "") ≡ false
    → first (has_client e.from_user (trim e.client_message_id)) t.rows ≡ some m
    → store_new_message e now t ≡ ((m, false), t)
unfolding store_new_message
store_again e now t m h q = rw (h, q) refl

-- A sender who sends a client's id again, with spaces around it or not and with whatever content,
-- after any messages were stored and recalled, gets the id of the message stored first, is told
-- that it is not new, and changes nothing; an id that is blank identifies no message.
pub stored_once :
    (ops : List Operation) (d e : Draft) (now later : ℕ) (t : Table)
    → (trim d.client_message_id == "") ≡ false
    → trim e.client_message_id ≡ trim d.client_message_id
    → e.from_user ≡ d.from_user
    → let answer = store_new_message d now t in
      let after = apply_all ops answer.1 in
      let again = store_new_message e later after in
      (again.0.0.message_id ≡ answer.0.0.message_id) × (again.0.1 ≡ false) × (again.1 ≡ after)
unfolding HoldsAnswer
stored_once ops d e now later t h k s =
    let answer = store_new_message d now t in
    let (m, q, i) =
      apply_all-Holds d.from_user (trim d.client_message_id) answer.0.0.message_id ops answer.1
        (store-HoldsAnswer d now t h) in
    rw (store_again e later (apply_all ops answer.1) m (rw k h) (rw (k, s) q)) (i, refl, refl)
