-- ===== src/AbTest/Types.antt =====
-- The data of the A/B test service: services/abTestService/internal/abtest/types.go.
use betterfly.Prelude.{ℕ, ℤ, String, Bool, Option, List}
use betterfly.AbTest.Values.{Fields}
use betterfly.AbTest.Targeting.{Context}

-- The types of an experiment.
abbrev pub for_all : String
for_all = "all"

abbrev pub for_client : String
for_client = "client"

abbrev pub for_server : String
for_server = "server"

-- The states of an experiment.
abbrev pub draft : String
draft = "draft"

abbrev pub running : String
running = "running"

abbrev pub paused : String
paused = "paused"

abbrev pub stopped : String
stopped = "stopped"

abbrev pub rolled_out : String
rolled_out = "rolled_out"

-- The subject that a client experiment is for.
abbrev pub device : String
device = "device"

-- What an override does.
abbrev pub force_group : String
force_group = "force_group"

abbrev pub exclude : String
exclude = "exclude"

abbrev pub merge_only : String
merge_only = "merge_config"

-- `Group`. Ids come from a sequence of the database.
pub record Group : Type 0 where
  pub id : ℕ
  pub experiment_id : ℕ
  pub group_key : String
  pub traffic_basis_points : ℕ
  pub config : Fields
  pub created_at : String
  pub updated_at : String

pub record Override : Type 0 where
  pub id : ℕ
  pub experiment_id : ℕ
  pub subject_type : String
  pub subject_id : String
  pub action : String
  pub group_key : String
  pub config : Fields
  pub created_at : String
  pub updated_at : String

pub record Experiment : Type 0 where
  pub id : ℕ
  pub experiment_key : String
  pub name : String
  pub description : String
  pub experiment_type : String
  pub status : String
  pub start_time : String
  pub duration_seconds : ℤ
  pub end_time : String
  pub salt : String
  pub rollout_group_key : String
  pub targeting : Fields
  pub version : ℕ
  pub groups : List Group
  pub overrides : List Override
  pub created_at : String
  pub updated_at : String

-- A row of `ab_experiments`: `ABExperiment` of shared/db/models.go. The JSON columns of the three
-- tables hold the fields that are written to them and read back.
pub record ExperimentRow : Type 0 where
  pub id : ℕ
  pub experiment_key : String
  pub name : String
  pub description : String
  pub experiment_type : String
  pub status : String
  pub start_time : String
  pub duration_seconds : ℤ
  pub end_time : String
  pub salt : String
  pub rollout_group_key : String
  pub targeting : Fields
  pub version : ℕ
  pub created_at : String
  pub updated_at : String

-- `int(req.TrafficRatio * 100)` stands for a ratio that is above 0.
pub record GroupInput : Type 0 where
  pub group_key : String
  pub traffic_basis_points : ℤ
  pub traffic_ratio : Option ℤ
  pub config : Fields

pub record OverrideInput : Type 0 where
  pub subject_type : String
  pub subject_id : String
  pub action : String
  pub group_key : String
  pub config : Fields

pub record CreateExperimentRequest : Type 0 where
  pub experiment_key : String
  pub name : String
  pub description : String
  pub experiment_type : String
  pub status : String
  pub start_time : String
  pub duration_seconds : ℤ
  pub end_time : String
  pub salt : String
  pub targeting : Fields
  pub groups : List GroupInput

pub record UpdateExperimentRequest : Type 0 where
  pub name : Option String
  pub description : Option String
  pub experiment_type : Option String
  pub status : Option String
  pub start_time : Option String
  pub duration_seconds : Option ℤ
  pub end_time : Option String
  pub salt : Option String
  pub targeting : Option Fields

-- `EvaluateRequest`.
pub record EvaluateRequest : Type 0 where
  pub subject_type : String
  pub subject_id : String
  pub context : Context

pub record Assignment : Type 0 where
  pub experiment_id : ℕ
  pub experiment_key : String
  pub experiment_type : String
  pub group_key : String
  pub version : ℕ
  pub start_time : String
  pub end_time : String
  pub duration_seconds : ℤ
  pub config : Fields
  pub override_applied : Bool

-- `time.Parse(time.RFC3339, text)` and `t.Format(time.RFC3339)`. An instant counts the nanoseconds
-- since three centuries before the year 0, more than any duration.
pub record Times : Type 0 where
  pub parse : String → Option ℕ
  pub format : ℕ → String
