-- ===== src/AbTest/Serving.antt =====
-- What a rolled-out experiment serves: the store and the evaluation of
-- services/abTestService/internal/abtest together.
use betterfly.Prelude.{
  first-All, some_injective, trim, ℕ, suc, String, ◌≡◌, refl, ap, ◌∙◌, Bool, true, false, some,
  List, [], ◌∷◌, any, first, select, ◌==◌, Bool-cases, inl, inr, string_eq, nat_eq,
}
use betterfly.AbTest.Types.{
  rolled_out, Group, Experiment, ExperimentRow, EvaluateRequest, Assignment, Times,
}
use betterfly.AbTest.Evaluate.{
  has_key, build_assignment, rollout_group, roll_out, experiment_type_matches, evaluate_experiment,
}
use betterfly.AbTest.Normalize.{ok}
use betterfly.AbTest.Store.{
  Db, empty_db, has_id, of_experiment, load_experiment, find_row, get_experiment, modify_first,
}
use betterfly.AbTest.Changes.{is_target, with_status, push_full_group}
use betterfly.AbTest.Commands.{Command, run_all}
use betterfly.AbTest.Rollout.{serves, IsServed, IsSoundRow, IsSound}
use betterfly.AbTest.Rollout.Kept.{push_full-IsSound, run_all-IsSound}

pub Finds : String → List Group → Type 0
Finds key gs = (g : Group) × (first (has_key key) gs ≡ some g) × (g.group_key ≡ key)

serves-Finds :
    (id : ℕ) (key : String) (gs : List Group)
    → any (serves id key) gs ≡ true
    → Finds key (select (of_experiment id) gs)
unfolding Finds
serves-Finds id key [] e = cc e
serves-Finds id key (g ∷ gs) e = elim (Bool-cases (of_experiment id g)) [
  | inl p ↦ elim (Bool-cases (has_key key g)) [
    | inl q ↦ rw (p, q) (g, refl, (string_eq.beq_iff g.group_key key).0 q)
    | inr q ↦ rw (p, q) (serves-Finds id key gs (rw (p, q) at e))
  ]
  | inr p ↦ rw p (serves-Finds id key gs (rw p at e))
]

-- An assignment to a group by its key, from a version of the experiment.
pub Assigns : Times → Experiment → EvaluateRequest → ℕ → String → Type 0
Assigns times e req now key =
    (a : Assignment) × (evaluate_experiment times e req now ≡ some a)
    × (a.group_key ≡ key)
    × (a.version ≡ e.version)

rolled_out-evaluate :
    (times : Times) (e : Experiment) (req : EvaluateRequest) (now : ℕ)
    → (e.status == rolled_out) ≡ true
    → experiment_type_matches e.experiment_type req.subject_type ≡ true
    → evaluate_experiment times e req now ≡ roll_out e (rollout_group e)
unfolding evaluate_experiment
rolled_out-evaluate times e req now status matches = rw (evaluate_experiment, matches, status) refl

keyed-rollout_group :
    (e : Experiment) (key : String) (g : Group)
    → trim e.rollout_group_key ≡ key
    → (key == "") ≡ false
    → first (has_key key) e.groups ≡ some g
    → rollout_group e ≡ some g
unfolding rollout_group
keyed-rollout_group e key g trimmed nonempty found =
    rw (rollout_group, trimmed, nonempty, found) refl

served-Assigns :
    (times : Times) (db : Db) (row : ExperimentRow) (req : EvaluateRequest) (now : ℕ) (all : Bool)
    → (row.status == rolled_out) ≡ true
    → IsServed db.groups row
    → experiment_type_matches row.experiment_type req.subject_type ≡ true
    → Assigns times (load_experiment db all row) req now row.rollout_group_key
unfolding Finds Assigns
served-Assigns times db row req now all status (served, trimmed, nonempty) matches =
    let found = serves-Finds row.id row.rollout_group_key db.groups served in
    (
      build_assignment (load_experiment db all row) found.0.group_key found.0.config false,
      rolled_out-evaluate times (load_experiment db all row) req now status matches
          ∙ ap (roll_out (load_experiment db all row)) (
              keyed-rollout_group (load_experiment db all row) row.rollout_group_key found.0 trimmed
                nonempty found.1),
      found.2,
      refl,
    )

first-modify_first :
    (id : ℕ) (f : ExperimentRow → ExperimentRow) (row : ExperimentRow) (rows : List ExperimentRow)
    → ((r : ExperimentRow) → has_id id (f r) ≡ has_id id r)
    → first (has_id id) rows ≡ some row
    → first (has_id id) (modify_first id f rows) ≡ some (f row)
first-modify_first id f row [] same e = cc e
first-modify_first id f row (r ∷ rows) same e = elim (Bool-cases (has_id id r)) [
  | inl q ↦ rw (q, same r, q) (ap (λ x. some (f x)) (some_injective (rw q at e)))
  | inr q ↦ rw (q, q) (first-modify_first id f row rows same (rw q at e))
]

push_full-find_row :
    (db : Db) (now : String) (id group_id : ℕ) (row : ExperimentRow) (target : Group)
    → find_row db id ≡ some row
    → first (is_target group_id id) db.groups ≡ some target
    → find_row (push_full_group now id group_id db).1 id
      ≡ some (with_status rolled_out target.group_key (suc row.version) now row)
unfolding push_full_group
push_full-find_row db now id group_id row target found targeted =
    rw (push_full_group, found, targeted)
      (first-modify_first id (with_status rolled_out target.group_key (suc row.version) now) row
        db.experiments (λ r. refl) found)

found-get_experiment :
    (db : Db) (id : ℕ) (row : ExperimentRow)
    → find_row db id ≡ some row
    → get_experiment db id ≡ ok (load_experiment db true row)
unfolding get_experiment
found-get_experiment db id row e = rw (get_experiment, e) refl

push_full_rereads :
    (db : Db) (now : String) (id group_id : ℕ) (row : ExperimentRow) (target : Group)
    → find_row db id ≡ some row
    → first (is_target group_id id) db.groups ≡ some target
    → (push_full_group now id group_id db).0
      ≡ get_experiment (push_full_group now id group_id db).1 id
unfolding push_full_group
push_full_rereads db now id group_id row target found targeted =
    rw (push_full_group, found, targeted) refl

push_full_result :
    (db : Db) (now : String) (id group_id : ℕ) (row : ExperimentRow) (target : Group)
    → find_row db id ≡ some row
    → first (is_target group_id id) db.groups ≡ some target
    → (push_full_group now id group_id db).0
      ≡ ok (
          load_experiment
            (push_full_group now id group_id db).1
            true
            (with_status rolled_out target.group_key (suc row.version) now row))
push_full_result db now id group_id row target found targeted =
    push_full_rereads db now id group_id row target found targeted
    ∙ found-get_experiment (push_full_group now id group_id db).1 id
        (with_status rolled_out target.group_key (suc row.version) now row)
        (push_full-find_row db now id group_id row target found targeted)

-- The experiment that a push returns, as the push leaves it.
pushed-Assigns :
    (times : Times) (db : Db) (now : String) (id group_id : ℕ) (row : ExperimentRow)
    (target : Group) (req : EvaluateRequest) (later : ℕ)
    → IsSound db
    → find_row db id ≡ some row
    → first (is_target group_id id) db.groups ≡ some target
    → experiment_type_matches row.experiment_type req.subject_type ≡ true
    → (e : Experiment) × ((push_full_group now id group_id db).0 ≡ ok e)
      × Assigns times e req later target.group_key
      × (e.version ≡ suc row.version)
pushed-Assigns times db now id group_id row target req later sound found targeted matches =
    let db' = (push_full_group now id group_id db).1 in
    let row' = with_status rolled_out target.group_key (suc row.version) now row in
    let found' : find_row db' id ≡ some row' =
      push_full-find_row db now id group_id row target found targeted in
    let sound' : IsSound db' = push_full-IsSound now id group_id db sound in
    let row_sound =
      (first-All (IsSoundRow db'.groups) (has_id id) row' db'.experiments found' sound'.0).0 in
    (
      load_experiment db' true row',
      push_full_result db now id group_id row target found targeted,
      served-Assigns times db' row' req later true refl (row_sound.0 refl) matches,
      refl,
    )

-- Pushing a group of an experiment to everyone does so: in any state that a run of the service
-- leads to, the push of an existing group answers with the experiment, whose version it has raised by
-- one, and from then on each subject of the experiment's type is assigned to a group with the target's key.
pub push_full_reaches_everyone :
    (times : Times) (cs : List (ℕ × Command)) (now : String) (id group_id : ℕ) (row : ExperimentRow)
    (target : Group) (req : EvaluateRequest) (later : ℕ)
    → find_row (run_all times cs empty_db) id ≡ some row
    → first (is_target group_id id) (run_all times cs empty_db).groups ≡ some target
    → experiment_type_matches row.experiment_type req.subject_type ≡ true
    → (e : Experiment) × ((push_full_group now id group_id (run_all times cs empty_db)).0 ≡ ok e)
      × Assigns times e req later target.group_key
      × (e.version ≡ suc row.version)
push_full_reaches_everyone times cs now id group_id row target req later =
    pushed-Assigns times (run_all times cs empty_db) now id group_id row target req later
      (run_all-IsSound times cs empty_db (tt, tt))
