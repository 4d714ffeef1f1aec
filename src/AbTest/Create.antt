-- ===== src/AbTest/Create.antt =====
-- `CreateExperiment` of services/abTestService/internal/abtest/store.go.
use betterfly.Prelude.{
  ℕ, suc, ◌+◌, String, Bool, List, [], ◌∷◌, ◌++◌, length, any, ◌==◌, nat_eq, string_eq,
  if◌then◌else◌,
}
use betterfly.AbTest.Values.{Fields}
use betterfly.AbTest.Types.{
  Group, Experiment, ExperimentRow, GroupInput, CreateExperimentRequest, Times,
}
use betterfly.AbTest.Normalize.{
  duplicate_key, Result, ok, err, and_then, normalize_group_input, normalize_create_experiment,
}
use betterfly.AbTest.Store.{Db, Op, reread}

abbrev pub new_row : Db → CreateExperimentRequest → String → ExperimentRow
new_row db req now = record {
  id = db.next_experiment;
  experiment_key = req.experiment_key;
  name = req.name;
  description = req.description;
  experiment_type = req.experiment_type;
  status = req.status;
  start_time = req.start_time;
  duration_seconds = req.duration_seconds;
  end_time = req.end_time;
  salt = req.salt;
  rollout_group_key = "";
  targeting = req.targeting;
  version = 1;
  created_at = now;
  updated_at = now;
}

abbrev pub new_group : ℕ → ℕ → String × ℕ → Fields → String → Group
new_group id experiment_id (key, points) config now = record {
  id = id;
  experiment_id = experiment_id;
  group_key = key;
  traffic_basis_points = points;
  config = config;
  created_at = now;
  updated_at = now;
}

-- The groups of a new experiment, or the first error.
abbrev pub new_groups : ℕ → ℕ → String → List GroupInput → Result (List Group)
new_groups id experiment_id now [] = ok []
new_groups id experiment_id now (req ∷ reqs) =
    let rest = new_groups (suc id) experiment_id now reqs in
    and_then (normalize_group_input req) (λ accepted.
      and_then rest (λ groups. ok (new_group id experiment_id accepted req.config now ∷ groups)))

abbrev pub with_key : String → ExperimentRow → Bool
with_key key row = row.experiment_key == key

abbrev pub inserted : Db → ExperimentRow → List Group → Db
inserted db row groups = record db {
  experiments = db.experiments ++ (row ∷ []);
  groups = db.groups ++ groups;
  next_experiment = suc db.next_experiment;
  next_group = db.next_group + length groups;
}

-- The transaction of `CreateExperiment`: the keys are unique.
abbrev pub insert_experiment : Db → CreateExperimentRequest → String → Op Experiment
insert_experiment db req now =
    let groups = new_groups db.next_group db.next_experiment now req.groups in
    if any (with_key req.experiment_key) db.experiments
    then (err duplicate_key, db)
    else elim groups [
      | err e ↦ (err e, db)
      | ok gs ↦ reread db.next_experiment (inserted db (new_row db req now) gs)
    ]

-- `CreateExperiment`.
unfoldable pub create_experiment : Times → ℕ → CreateExperimentRequest → Db → Op Experiment
create_experiment times now req db = elim (normalize_create_experiment times now req) [
  | err e ↦ (err e, db)
  | ok accepted ↦ insert_experiment db accepted (times.format now)
]
