-- ===== src/AbTest/Tests.antt =====
-- Evaluations and runs of the store, and the theorems applied to them.
use betterfly.Prelude.{
  string_eq, nat_eq, update, trim, is_space, ℕ, ◌≤◌, ◌<◌, pos, String, ◌≡◌, ◌≢◌, ◌↔◌, refl, Bool,
  true, none, some, List, [], ◌∷◌, is_positive,
}
use betterfly.AbTest.Values.{text, no_fields, field, lookup}
use betterfly.AbTest.Types.{
  Group, Experiment, ExperimentRow, EvaluateRequest, GroupInput, CreateExperimentRequest, Times,
}
use betterfly.AbTest.Versions.{
  fields_func, atoi, split_version, compare_parts, compare_version, version_range_matches, less,
  greater,
}
use betterfly.AbTest.Versions.Order.{VersionAtMost, range_is_interval}
use betterfly.AbTest.Targeting.{
  contains_string, string_set_matches, string_set_matches_any, generic_include_exclude_matches,
  targeting_matches,
}
use betterfly.AbTest.Evaluate.{
  fnv32a, stable_bucket, pick, select_group, rollout_group, experiment_type_matches, add_seconds,
  experiment_window_matches, assign_group, evaluate_experiment, assignments, evaluate, sort_groups,
  EvaluateResponse,
}
use betterfly.AbTest.Normalize.{
  ok, normalize_experiment_type, normalize_status, normalize_group_input, normalize_override_input,
  normalize_create_experiment,
}
use betterfly.AbTest.Store.{
  Db, empty_db, load_experiment, get_experiment, list_evaluation_experiments,
  list_experiments_between, list_overrides_for_subject,
}
use betterfly.AbTest.Create.{create_experiment}
use betterfly.AbTest.Changes.{
  update_experiment, set_experiment_status, push_full_group, withdraw_experiment,
}
use betterfly.AbTest.Additions.{bump_experiment_version, add_group, add_override}
use betterfly.AbTest.Commands.{Command, create, push_full, withdraw, run, run_all}
use betterfly.AbTest.Serving.{Assigns, push_full_reaches_everyone}
use betterfly.AbTest.Selection.{Share, total, shares_are_exact}
use betterfly.AbTest.Merging.{last_value, merged_config_is_last}
use betterfly.AbTest.Cache.{
  new_service, Snapshot, World, started, got, checked, here, next, write, drop, begin, choose,
  query, fly, loading, check, store, asking, chose, answered, commit, invalidate, move, load, Reach,
  cache_ttl_bounds,
}
use betterfly.AbTest.Cache.Freshness.{evaluations_see_answered_writes}

-- Opens what a run computes with.
opened : Bool
unfolding trim is_space is_positive fields_func atoi split_version compare_parts compare_version
    version_range_matches contains_string string_set_matches string_set_matches_any
    generic_include_exclude_matches targeting_matches fnv32a stable_bucket pick select_group
    rollout_group experiment_type_matches add_seconds experiment_window_matches assign_group
    evaluate_experiment assignments evaluate normalize_experiment_type normalize_status
    normalize_group_input normalize_override_input normalize_create_experiment get_experiment
    list_evaluation_experiments list_overrides_for_subject create_experiment update_experiment
    set_experiment_status push_full_group withdraw_experiment bump_experiment_version add_group
    add_override run run_all new_service VersionAtMost
opened = true

-- A clock on which every text is the start of the epoch.
abbrev epoch : Times
epoch = record { parse = λ s. some 0; format = λ t. "1970-01-01T00:00:00Z" }

fnv_of_a : fnv32a (97 ∷ []) ≡ 0xe40c292c
unfolding opened
fnv_of_a = refl

-- A missing part counts as 0, and a part that is no number too.
later_patch : compare_version "1.2" "1.2.0.1" ≡ less
unfolding opened
later_patch = refl

numbers_not_texts : compare_version "1.10" "1.9-beta" ≡ greater
unfolding opened
numbers_not_texts = refl

range_is_interval_example : version_range_matches " 1.5.2 " "1.2" "2.0" ≡ true
unfolding opened
range_is_interval_example =
    range_is_interval "1.2" " 1.5.2 " "1.10" "1.2" "2.0" refl refl (λ e. cc e) (λ e. cc e)
      (λ e. cc ((string_eq.beq_iff "1.5.2" "").1 e))

abbrev half : String → GroupInput
half key = record {
  group_key = key;
  traffic_basis_points = pos 5000;
  traffic_ratio = none;
  config = field "button" (text key) no_fields;
}

abbrev colours : CreateExperimentRequest
colours = record {
  experiment_key = " colours ";
  name = "Colours";
  description = "";
  experiment_type = "all";
  status = "running";
  start_time = "";
  duration_seconds = pos 60;
  end_time = "";
  salt = "";
  targeting = no_fields;
  groups = half "red" ∷ half " blue" ∷ [];
}

abbrev pushing : List (ℕ × Command)
pushing = (10, create colours) ∷ (20, push_full 1 2) ∷ []

abbrev someone : EvaluateRequest
someone = record { subject_type = "user"; subject_id = "42"; context = [] }

abbrev red_db : Db
red_db = run_all epoch ((10, create colours) ∷ []) empty_db

abbrev blue_db : Db
blue_db = run_all epoch pushing empty_db

withdrawn_again : list_evaluation_experiments (run epoch 30 (withdraw 1) blue_db) ≡ []
unfolding opened
withdrawn_again = refl

-- The row of the experiment in either state.
abbrev colours_row : String → String → ℕ → ExperimentRow
colours_row status key version = record {
  id = 1;
  experiment_key = "colours";
  name = "Colours";
  description = "";
  experiment_type = "all";
  status = status;
  start_time = "1970-01-01T00:00:00Z";
  duration_seconds = pos 60;
  end_time = "1970-01-01T00:00:00Z";
  salt = "colours";
  rollout_group_key = key;
  targeting = no_fields;
  version = version;
  created_at = "1970-01-01T00:00:00Z";
  updated_at = "1970-01-01T00:00:00Z";
}

abbrev half_group : ℕ → String → Group
half_group id key = record {
  id = id;
  experiment_id = 1;
  group_key = key;
  traffic_basis_points = 5000;
  config = field "button" (text key) no_fields;
  created_at = "1970-01-01T00:00:00Z";
  updated_at = "1970-01-01T00:00:00Z";
}

abbrev red : Group
red = half_group 1 "red"

abbrev blue : Group
blue = record (half_group 2 "blue") { config = field "button" (text " blue") no_fields }

push_full_reaches_everyone_example :
    (e : Experiment) × ((push_full_group "1970-01-01T00:00:00Z" 1 2 red_db).0 ≡ ok e)
    × Assigns epoch e someone 99 "blue"
    × (e.version ≡ 2)
unfolding opened
push_full_reaches_everyone_example =
    push_full_reaches_everyone epoch ((10, create colours) ∷ []) "1970-01-01T00:00:00Z" 1 2
      (colours_row "running" "" 1) blue someone 99 refl refl refl

abbrev colours_experiment : Experiment
colours_experiment = load_experiment red_db true (colours_row "running" "" 1)

shares_are_exact_example :
    ((g : Group)
      → (select_group colours_experiment "42" none ≡ some g)
        ↔ Share
            (stable_bucket "42" "colours" "colours")
            0
            (sort_groups colours_experiment.groups)
            g)
    × (10000 ≤ total colours_experiment.groups → select_group colours_experiment "42" none ≢ none)
unfolding opened
shares_are_exact_example = shares_are_exact colours_experiment "42" none refl

-- Two experiments on one key.
abbrev pushed_red : Experiment
pushed_red = record colours_experiment { id = 2; status = "rolled_out"; rollout_group_key = "red" }

abbrev answer : EvaluateResponse
answer = record {
  server_time = "1970-01-01T00:00:00Z";
  merged_config = field "button" (text "red") no_fields;
  experiments = assignments epoch someone 0 (pushed_red ∷ []);
}

merged_config_is_last_example :
    lookup "button" answer.merged_config ≡ last_value "button" answer.experiments none
unfolding opened
merged_config_is_last_example =
    merged_config_is_last epoch someone 0 (pushed_red ∷ []) [] answer "button" refl

cache_ttl_bounds_example :
    (0 < (new_service (pos 0) (some (pos 7_000_000_000))).0)
    × ((new_service (pos 0) (some (pos 7_000_000_000))).0 ≤ 5_000_000_000)
    × (0 < (new_service (pos 0) (some (pos 7_000_000_000))).1)
    × ((new_service (pos 0) (some (pos 7_000_000_000))).1
        ≤ (new_service (pos 0) (some (pos 7_000_000_000))).0)
    × ((new_service (pos 0) (some (pos 7_000_000_000))).1 ≤ 3_000_000_000)
cache_ttl_bounds_example = cache_ttl_bounds (pos 0) (some (pos 7_000_000_000))

-- A write is committed and answered, and an evaluation begins, loads and stores what it loaded.
abbrev written : World
written = invalidate (commit red_db started)

abbrev begun : World
begun = move 0 (chose 1 1) (move 0 (asking 1) written)

abbrev asked : World
asked = move 0 (loading 1 1 1) begun

abbrev loaded : Snapshot
loaded = load 1 1 50 asked

abbrev flown : World
flown = move 0 (got 1 1 loaded) (record asked { flights = update 1 (some loaded) asked.flights })

abbrev settled : World
settled =
    move 0 (answered 1 loaded)
      (record (move 0 (checked 1 1 loaded) flown) { snapshot = some loaded })

settled-Reach : Reach 3_000_000_000 settled
settled-Reach =
    let w₂ : Reach 3_000_000_000 written =
      next (next here (write started red_db)) (drop (commit red_db started)) in
    let w₄ : Reach 3_000_000_000 begun =
      next (next w₂ (begin written 0)) (choose (move 0 (asking 1) written) 0 1 refl) in
    let w₅ : Reach 3_000_000_000 flown =
      next (next w₄ (query begun 0 1 1 refl)) (fly asked 0 1 1 1 50 refl) in
    next (next w₅ (check flown 0 1 1 loaded refl refl))
      (store (move 0 (checked 1 1 loaded) flown) 0 1 1 loaded refl)

evaluations_see_answered_writes_example :
    (1 ≤ loaded.rows_seen)
    × (loaded.rows_seen ≤ loaded.groups_seen)
    × (loaded.groups_seen ≤ settled.writes)
    × (loaded.experiments
        ≡ list_experiments_between (settled.log loaded.rows_seen) (settled.log loaded.groups_seen))
evaluations_see_answered_writes_example =
    evaluations_see_answered_writes 3_000_000_000 settled 0 1 loaded settled-Reach refl
