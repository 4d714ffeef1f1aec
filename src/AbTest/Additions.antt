-- ===== src/AbTest/Additions.antt =====
-- `AddGroup` and `AddOverride` of services/abTestService/internal/abtest/store.go.
use betterfly.Prelude.{ℕ, suc, String, none, some, [], ◌∷◌, ◌++◌, nat_eq, string_eq}
use betterfly.AbTest.Types.{Group, Override, Experiment, ExperimentRow, GroupInput, OverrideInput}
use betterfly.AbTest.Normalize.{not_found, ok, err, normalize_group_input, normalize_override_input}
use betterfly.AbTest.Store.{Db, find_row, update_row, Op, reread}
use betterfly.AbTest.Create.{new_group}

abbrev pub with_version : ℕ → String → ExperimentRow → ExperimentRow
with_version version now row = record row { version = version; updated_at = now }

-- `bumpExperimentVersion`.
unfoldable pub bump_experiment_version : String → ℕ → Db → Op Experiment
bump_experiment_version now id db = elim (find_row db id) [
  | none ↦ (err not_found, db)
  | some current ↦ reread id (update_row id (with_version (suc current.version) now) db)
]

-- `AddGroup`.
unfoldable pub add_group : String → ℕ → GroupInput → Db → Op Group
add_group now experiment_id req db = elim (find_row db experiment_id) [
  | none ↦ (err not_found, db)
  | some current ↦ elim (normalize_group_input req) [
    | err e ↦ (err e, db)
    | ok accepted ↦
        let group = new_group db.next_group experiment_id accepted req.config now in
        let grown = record db {
          groups = db.groups ++ (group ∷ []);
          next_group = suc db.next_group;
        } in
        (ok group, (bump_experiment_version now experiment_id grown).1)
  ]
]

abbrev pub new_override : ℕ → ℕ → OverrideInput → String → Override
new_override id experiment_id req now = record {
  id = id;
  experiment_id = experiment_id;
  subject_type = req.subject_type;
  subject_id = req.subject_id;
  action = req.action;
  group_key = req.group_key;
  config = req.config;
  created_at = now;
  updated_at = now;
}

-- `AddOverride`.
unfoldable pub add_override : String → ℕ → OverrideInput → Db → Op Override
add_override now experiment_id req db = elim (find_row db experiment_id) [
  | none ↦ (err not_found, db)
  | some current ↦ elim (normalize_override_input req) [
    | err e ↦ (err e, db)
    | ok accepted ↦
        let override = new_override db.next_override experiment_id accepted now in
        let grown = record db {
          overrides = db.overrides ++ (override ∷ []);
          next_override = suc db.next_override;
        } in
        (ok override, (bump_experiment_version now experiment_id grown).1)
  ]
]
