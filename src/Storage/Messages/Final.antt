-- ===== src/Storage/Messages/Final.antt =====
-- A recall is final: `RecallMessageWithDB` of shared/db/util_message.go.
use betterfly.Prelude.{
  ℕ, ◌<◌, ℤ, pos, ◌≡◌, refl, ap, inl, inr, Bool, true, false, ◌&&◌, some, List, [], ◌∷◌, Bool-cases,
  some_injective, first, first-All, modify_where, ◌==◌, arith, int_eq, nat_eq, string_eq, int_beq,
  int_beq_iff,
}
use betterfly.Storage.Messages.{
  Message, Table, empty_table, has_message_id, get_message_by_id, recalled, is_open, Operation,
  apply, apply_all,
}
use betterfly.Storage.Messages.Identity.{
  IsNumbered, IsFresh, Written, kept, stored, changed, apply-Written, Written-IsFresh,
  apply_all-IsFresh,
}
use betterfly.Storage.Messages.Recalls.{Numbered-below}

-- The id that the table gives out next is not that of a row that is found.
other_id :
    (i : ℤ) (n : ℕ) (m : Message) (ms : List Message)
    → IsNumbered n ms
    → first (has_message_id i) ms ≡ some m
    → int_beq (pos n) i ≡ false
other_id i n m ms h e =
    let (below, found) =
      first-All (λ r. r.message_id < n) (has_message_id i) m ms e
        (Numbered-below n n ms (omega arith) h) in
    elim (Bool-cases (int_beq (pos n) i)) [
      | inl q ↦
          let n≡id : n ≡ m.message_id =
            cc ((int_beq_iff (pos n) i).0 q, (int_beq_iff (pos m.message_id) i).0 found) in
          ground arith
      | inr q ↦ q
    ]

shut_by : (b : Bool) → b && false ≡ false
shut_by true = refl
shut_by false = refl

changed-stays :
    (i : ℤ) (m : Message) (j now : ℕ) (u : ℤ) (ms : List Message)
    → m.is_recalled ≡ true
    → first (has_message_id i) ms ≡ some m
    → first (has_message_id i) (modify_where (is_open j) (recalled u now) ms) ≡ some m
changed-stays i m j now u [] r e = e
changed-stays i m j now u (x ∷ xs) r e = elim (Bool-cases (has_message_id i x)) [
  | inl q ↦
      let x≡m : x ≡ m = some_injective (rw q at e) in
      let shut : is_open j x ≡ false = rw (x≡m, r) (shut_by (m.message_id == j)) in
      rw (shut, q) (ap some x≡m)
  | inr q ↦
      let rest = changed-stays i m j now u xs r (rw q at e) in
      elim (Bool-cases (is_open j x)) [ inl o ↦ rw (o, q) rest | inr o ↦ rw (o, q) rest ]
]

Written-stays :
    (i : ℤ) (m : Message) (t t' : Table)
    → IsFresh t
    → m.is_recalled ≡ true
    → get_message_by_id i t.rows ≡ some m
    → Written t t'
    → get_message_by_id i t'.rows ≡ some m
unfolding get_message_by_id
Written-stays i m t _ fresh r e kept = e
Written-stays i m t _ fresh r e (stored d client now free) =
    rw (other_id i t.next_id m t.rows fresh e) e
Written-stays i m t _ fresh r e (changed j now u) = changed-stays i m j now u t.rows r e

pub apply_all-stays :
    (i : ℤ) (m : Message) (ops : List Operation) (t : Table)
    → IsFresh t
    → m.is_recalled ≡ true
    → get_message_by_id i t.rows ≡ some m
    → get_message_by_id i (apply_all ops t).rows ≡ some m
apply_all-stays i m [] t fresh r e = e
apply_all-stays i m (op ∷ ops) t fresh r e =
    let w = apply-Written op t in
    apply_all-stays i m ops (apply op t) (Written-IsFresh t (apply op t) w fresh) r
      (Written-stays i m t (apply op t) fresh r e w)

-- A message that is recalled reads the same after whatever is stored and recalled later.
pub recalls_are_final :
    (before later : List Operation) (i : ℤ) (m : Message)
    → get_message_by_id i (apply_all before empty_table).rows ≡ some m
    → m.is_recalled ≡ true
    → get_message_by_id i (apply_all later (apply_all before empty_table)).rows ≡ some m
recalls_are_final before later i m e r =
    apply_all-stays i m later (apply_all before empty_table)
      (apply_all-IsFresh before empty_table tt) r e
