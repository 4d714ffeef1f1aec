-- ===== src/AbTest/Changes.antt =====
-- `UpdateExperiment`, `SetExperimentStatus`, `PushFullGroup` and `WithdrawExperiment` of
-- services/abTestService/internal/abtest/store.go.
use betterfly.Prelude.{
  trim, ℕ, suc, String, Bool, ◌&&◌, Option, none, some, first, modify_where, ◌==◌, nat_eq,
  string_eq, if◌then◌else◌,
}
use betterfly.AbTest.Types.{
  stopped, rolled_out, Group, Experiment, ExperimentRow, UpdateExperimentRequest,
}
use betterfly.AbTest.Normalize.{
  not_found, invalid_type, invalid_status, needs_push, Result, ok, err, normalize_experiment_type,
  normalize_status, rollout_group_key_for_status,
}
use betterfly.AbTest.Store.{Db, of_experiment, find_row, update_row, Op, reread}

abbrev pub set_text : Option String → String → String
set_text none old = old
set_text (some new) old = new

abbrev pub set_trimmed : Option String → String → String
set_trimmed none old = old
set_trimmed (some new) old = trim new

abbrev pub set_any {ℓ} : {A : Type ℓ} → Option A → A → A
set_any none old = old
set_any (some new) old = new

-- The type that an update writes, if it writes one.
abbrev pub updated_type : Option String → Result (Option String)
updated_type none = ok none
updated_type (some raw) =
    if normalize_experiment_type raw == ""
    then err invalid_type
    else ok (some (normalize_experiment_type raw))

-- The status that an update writes, if it writes one.
abbrev pub updated_status : Option String → String → Result (Option String)
updated_status none current_key = ok none
updated_status (some raw) current_key =
    if normalize_status raw == ""
    then err invalid_status
    else if normalize_status raw == rolled_out && trim current_key == ""
    then err needs_push
    else ok (some (normalize_status raw))

abbrev pub updated_key : Option String → String → String
updated_key none current = current
updated_key (some status) current = rollout_group_key_for_status status current

abbrev pub update_with :
    UpdateExperimentRequest
    → Option String
    → Option String
    → ℕ
    → String
    → ExperimentRow
    → ExperimentRow
update_with req experiment_type status version now row = record row {
  name = set_trimmed req.name row.name;
  description = set_text req.description row.description;
  experiment_type = set_text experiment_type row.experiment_type;
  status = set_text status row.status;
  rollout_group_key = updated_key status row.rollout_group_key;
  start_time = set_trimmed req.start_time row.start_time;
  duration_seconds = set_any req.duration_seconds row.duration_seconds;
  end_time = set_trimmed req.end_time row.end_time;
  salt = set_trimmed req.salt row.salt;
  targeting = set_any req.targeting row.targeting;
  version = version;
  updated_at = now;
}

-- `UpdateExperiment`.
unfoldable pub update_experiment : String → ℕ → UpdateExperimentRequest → Db → Op Experiment
update_experiment now id req db = elim (find_row db id) [
  | none ↦ (err not_found, db)
  | some current ↦ elim (updated_type req.experiment_type) [
    | err e ↦ (err e, db)
    | ok experiment_type ↦ elim (updated_status req.status current.rollout_group_key) [
      | err e ↦ (err e, db)
      | ok status ↦
          reread id
            (update_row id (update_with req experiment_type status (suc current.version) now) db)
    ]
  ]
]

abbrev pub with_status : String → String → ℕ → String → ExperimentRow → ExperimentRow
with_status status key version now row = record row {
  status = status;
  rollout_group_key = key;
  version = version;
  updated_at = now;
}

-- `SetExperimentStatus`.
unfoldable pub set_experiment_status : String → ℕ → String → Db → Op Experiment
set_experiment_status now id raw db =
    let status = normalize_status raw in
    if status == "" then (err invalid_status, db) else elim (find_row db id) [
      | none ↦ (err not_found, db)
      | some current ↦
          if status == rolled_out && trim current.rollout_group_key == ""
          then (err needs_push, db)
          else reread id (
              update_row id
                (with_status status (rollout_group_key_for_status status current.rollout_group_key)
                  (suc current.version) now)
                db)
    ]

abbrev pub is_target : ℕ → ℕ → Group → Bool
is_target group_id experiment_id g = g.id == group_id && g.experiment_id == experiment_id

abbrev pub with_traffic : ℕ → String → Group → Group
with_traffic points now g = record g { traffic_basis_points = points; updated_at = now }

abbrev pub set_traffic : (Group → Bool) → ℕ → String → Db → Db
set_traffic p points now db = record db {
  groups = modify_where p (with_traffic points now) db.groups;
}

-- `PushFullGroup`.
unfoldable pub push_full_group : String → ℕ → ℕ → Db → Op Experiment
push_full_group now experiment_id group_id db = elim (find_row db experiment_id) [
  | none ↦ (err not_found, db)
  | some current ↦ elim (first (is_target group_id experiment_id) db.groups) [
    | none ↦ (err not_found, db)
    | some target ↦
        let cleared = set_traffic (of_experiment experiment_id) 0 now db in
        let full = set_traffic (is_target group_id experiment_id) 10000 now cleared in
        reread experiment_id (
          update_row experiment_id
            (with_status rolled_out target.group_key (suc current.version) now) full)
  ]
]

-- `WithdrawExperiment`.
unfoldable pub withdraw_experiment : String → ℕ → Db → Op Experiment
withdraw_experiment now id db = elim (find_row db id) [
  | none ↦ (err not_found, db)
  | some current ↦ reread id (update_row id (with_status stopped "" (suc current.version) now) db)
]
