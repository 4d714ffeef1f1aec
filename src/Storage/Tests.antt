-- ===== src/Storage/Tests.antt =====
-- Messages stored, sent again and recalled, and the theorems applied to them.
use betterfly.Prelude.{
  ◌/◌, arith, trim, is_space, pos, ◌≡◌, ◌+◌, refl, Bool, true, false, some, List, [], ◌∷◌, All,
  is_positive, int_beq, ◌*◌,
}
use betterfly.Relations.Types.{empty_db}
use betterfly.Storage.Messages.{
  Message, empty_table, Draft, second, new_message, store_new_message, get_message_by_id,
  can_user_read_message, recall_ok, recall_already, recall_forbidden, recall_expired, recalled,
  recall_found, recall_message, Operation, store, recall, apply, apply_all,
}
use betterfly.Storage.Messages.Identity.{stored_is_read}
use betterfly.Storage.Messages.Once.{stored_once}
use betterfly.Storage.Messages.Recalls.{IsHonest, recalls_in_time}
use betterfly.Storage.Messages.Final.{recalls_are_final}
use betterfly.Storage.Messages.Granted.{IsTakenBack, recall_is_granted}

-- Opens what a run computes with.
opened : Bool
unfolding trim is_space is_positive int_beq store_new_message get_message_by_id
    can_user_read_message recall_found recall_message apply
opened = true

abbrev hello : Draft
hello = record {
  from_user = pos 1;
  to_user = pos 2;
  content = "hello";
  message_type = "text";
  real_file_name = "";
  is_group = false;
  client_message_id = "a7 ";
}

abbrev again : Draft
again = record hello { client_message_id = " a7"; content = "other" }

abbrev day : List Operation
day =
    store hello (5 * second)
    ∷ store (record hello { client_message_id = "" }) (6 * second)
    ∷ recall empty_db (pos 1) (pos 1) (50 * second)
    ∷ recall empty_db (pos 1) (pos 2) (200 * second)
    ∷ []

abbrev sent : Message
sent = new_message hello (some "a7") 1 (5 * second)

recalled_in_time :
    (recall_message empty_db
      (pos 1)
      (pos 1)
      (125 * second)
      (apply (store hello (5 * second)) empty_table)).0.status
    ≡ recall_ok
unfolding opened
recalled_in_time = refl

recalled_too_late :
    (recall_message empty_db
      (pos 1)
      (pos 2)
      (126 * second + 1)
      (apply_all day empty_table)).0.status
    ≡ recall_expired
unfolding opened
recalled_too_late = refl

recalled_twice :
    (recall_message empty_db (pos 1) (pos 1) (60 * second) (apply_all day empty_table)).0.status
    ≡ recall_already
unfolding opened
recalled_twice = refl

recalled_by_the_reader :
    (recall_message empty_db (pos 2) (pos 2) (60 * second) (apply_all day empty_table)).0.status
    ≡ recall_forbidden
unfolding opened
recalled_by_the_reader = refl

stored_is_read_example :
    get_message_by_id
      (pos (store_new_message again (300 * second) (apply_all day empty_table)).0.0.message_id)
      (store_new_message again (300 * second) (apply_all day empty_table)).1.rows
    ≡ some (store_new_message again (300 * second) (apply_all day empty_table)).0.0
stored_is_read_example = stored_is_read day again (300 * second)

stored_once_example :
    let answer = store_new_message hello (5 * second) empty_table in
    let after = apply_all day answer.1 in
    let answer' = store_new_message again (300 * second) after in
    (answer'.0.0.message_id ≡ answer.0.0.message_id) × (answer'.0.1 ≡ false) × (answer'.1 ≡ after)
unfolding opened
stored_once_example =
    stored_once day hello again (5 * second) (300 * second) empty_table refl refl refl

recalls_in_time_example : All IsHonest (apply_all day empty_table).rows
recalls_in_time_example = recalls_in_time day

recalls_are_final_example :
    get_message_by_id (pos 1) (apply_all day (apply_all day empty_table)).rows
    ≡ some (recalled (pos 1) (50 * second) sent)
unfolding opened
recalls_are_final_example =
    recalls_are_final day day (pos 1) (recalled (pos 1) (50 * second) sent) refl refl

recall_is_granted_example :
    let t = apply_all (store hello (5 * second) ∷ []) empty_table in
    let answer = recall_message empty_db (pos 1) (pos 1) (125 * second) t in
    (r : Message) × IsTakenBack (pos 1) (125 * second / second) sent r
    × (answer.0.status ≡ recall_ok)
    × (answer.0.message ≡ some r)
    × (get_message_by_id (pos 1) (apply_all day answer.1).rows ≡ some r)
unfolding opened
recall_is_granted_example =
    recall_is_granted (store hello (5 * second) ∷ []) day empty_db (pos 1) (pos 1) (125 * second)
      sent refl refl refl refl refl (omega arith)
