-- ===== src/AbTest/Store.antt =====
-- The tables of the A/B test service and the operations on them: `GormStore` of
-- services/abTestService/internal/abtest/store.go. Rows stand in the order of their ids.
use betterfly.Prelude.{
  ◌≡◌, refl, ℕ, String, Bool, true, false, ◌&&◌, ◌||◌, Option, none, some, List, [], ◌∷◌, map,
  select, first, any, ◌==◌, nat_eq, string_eq, if◌then◌else◌,
}
use betterfly.AbTest.Types.{running, rolled_out, Group, Override, Experiment, ExperimentRow}
use betterfly.AbTest.Normalize.{not_found, Result, ok, err}

pub record Db : Type 0 where
  pub experiments : List ExperimentRow
  pub groups : List Group
  pub overrides : List Override
  pub next_experiment : ℕ
  pub next_group : ℕ
  pub next_override : ℕ

abbrev pub empty_db : Db
empty_db = record {
  experiments = [];
  groups = [];
  overrides = [];
  next_experiment = 1;
  next_group = 1;
  next_override = 1;
}

abbrev pub has_id : ℕ → ExperimentRow → Bool
has_id id row = row.id == id

abbrev pub of_experiment : ℕ → Group → Bool
of_experiment id g = g.experiment_id == id

-- One experiment of `loadExperiments`, with `experimentFromModel`.
abbrev pub load_experiment : Db → Bool → ExperimentRow → Experiment
load_experiment db include_overrides row = record {
  id = row.id;
  experiment_key = row.experiment_key;
  name = row.name;
  description = row.description;
  experiment_type = row.experiment_type;
  status = row.status;
  start_time = row.start_time;
  duration_seconds = row.duration_seconds;
  end_time = row.end_time;
  salt = row.salt;
  rollout_group_key = row.rollout_group_key;
  targeting = row.targeting;
  version = row.version;
  groups = select (of_experiment row.id) db.groups;
  overrides =
      if include_overrides then select (λ o. o.experiment_id == row.id) db.overrides else [];
  created_at = row.created_at;
  updated_at = row.updated_at;
}

-- `GetExperiment`, before its groups and overrides are loaded.
abbrev pub find_row : Db → ℕ → Option ExperimentRow
find_row db id = first (has_id id) db.experiments

-- `GetExperiment`.
unfoldable pub get_experiment : Db → ℕ → Result Experiment
get_experiment db id = elim (find_row db id) [
  | none ↦ err not_found
  | some row ↦ ok (load_experiment db true row)
]

abbrev is_evaluated : ExperimentRow → Bool
is_evaluated row = row.status == running || row.status == rolled_out

-- `ListEvaluationExperiments`.
unfoldable pub list_evaluation_experiments : Db → List Experiment
list_evaluation_experiments db = map (load_experiment db false) (select is_evaluated db.experiments)

-- `ListEvaluationExperiments` where writes come between its two queries: the rows of the experiments
-- are read from the first tables, and by `loadExperiments` their groups from the second.
unfoldable pub list_experiments_between : Db → Db → List Experiment
list_experiments_between first later =
    map (load_experiment later false) (select is_evaluated first.experiments)

-- Without a write between them the queries read the same tables.
pub list_experiments_between_same :
    (db : Db) → list_experiments_between db db ≡ list_evaluation_experiments db
unfolding list_experiments_between list_evaluation_experiments
list_experiments_between_same db = refl

abbrev one_of : ℕ → List ℕ → Bool
one_of id ids = any (λ i. i == id) ids

-- `ListOverridesForSubject`.
unfoldable pub list_overrides_for_subject : Db → String → String → List ℕ → List Override
list_overrides_for_subject db subject_type subject_id ids =
    select
      (λ o.
        o.subject_type == subject_type && o.subject_id == subject_id && one_of o.experiment_id ids)
      db.overrides

-- `UPDATE ab_experiments ... WHERE id = ?`: ids are unique.
abbrev pub modify_first :
    ℕ → (ExperimentRow → ExperimentRow) → List ExperimentRow → List ExperimentRow
modify_first id f [] = []
modify_first id f (row ∷ rows) =
    let others = modify_first id f rows in if has_id id row then f row ∷ rows else row ∷ others

abbrev pub update_row : ℕ → (ExperimentRow → ExperimentRow) → Db → Db
update_row id f db = record db { experiments = modify_first id f db.experiments }

-- An operation's result and the tables after it; an error leaves them.
abbrev pub Op : Type 0 → Type 0
Op A = Result A × Db

-- The experiment that a write returns, read back.
abbrev pub reread : ℕ → Db → Op Experiment
reread id db = (get_experiment db id, db)
