-- ===== src/AbTest/Commands.antt =====
-- The operations of the A/B test service on its tables as commands, and runs of them: the interface
-- `Store` of services/abTestService/internal/abtest/types.go.
use betterfly.Prelude.{ℕ, String, List, [], ◌∷◌}
use betterfly.AbTest.Types.{
  GroupInput, OverrideInput, CreateExperimentRequest, UpdateExperimentRequest, Times,
}
use betterfly.AbTest.Store.{Db}
use betterfly.AbTest.Create.{create_experiment}
use betterfly.AbTest.Changes.{
  update_experiment, set_experiment_status, push_full_group, withdraw_experiment,
}
use betterfly.AbTest.Additions.{add_group, add_override}

pub data Command : Type 0 where
  create : CreateExperimentRequest → Command
  update : ℕ → UpdateExperimentRequest → Command
  set_status : ℕ → String → Command
  push_full : ℕ → ℕ → Command
  withdraw : ℕ → Command
  group : ℕ → GroupInput → Command
  override : ℕ → OverrideInput → Command

-- The tables after a command at a time.
unfoldable pub run : Times → ℕ → Command → Db → Db
run times now (create req) db = (create_experiment times now req db).1
run times now (update id req) db = (update_experiment (times.format now) id req db).1
run times now (set_status id status) db = (set_experiment_status (times.format now) id status db).1
run times now (push_full id group_id) db = (push_full_group (times.format now) id group_id db).1
run times now (withdraw id) db = (withdraw_experiment (times.format now) id db).1
run times now (group id req) db = (add_group (times.format now) id req db).1
run times now (override id req) db = (add_override (times.format now) id req db).1

unfoldable pub run_all : Times → List (ℕ × Command) → Db → Db
run_all times [] db = db
run_all times ((now, c) ∷ cs) db = run_all times cs (run times now c db)
