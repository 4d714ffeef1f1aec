-- ===== src/AbTest/Evaluate.antt =====
-- Which assignments a subject gets: `evaluateExperiment` and its helpers of
-- services/abTestService/internal/abtest/evaluator.go.

use Prim.Native.Nat.{bit_xor}
use betterfly.Prelude.{
  select, map, nat_beq, codes, trim, ℕ, suc, ◌+◌, ◌-◌, ◌*◌, ◌/◌, ◌%◌, ◌^◌, ℤ, pos, negsuc, String,
  Bool, true, false, not, ◌&&◌, ◌||◌, Option, none, some, List, [], ◌∷◌, ◌++◌, first, ltb, leb,
  ◌==◌, string_eq, if◌then◌else◌,
}
use betterfly.AbTest.Values.{Fields, no_fields, merge_config}
use betterfly.AbTest.Targeting.{targeting_matches}
use betterfly.AbTest.Types.{
  for_all, for_client, for_server, running, rolled_out, device, force_group, exclude, merge_only,
  Group, Override, Experiment, EvaluateRequest, Assignment, Times,
}

-- The bytes of a code point in UTF-8, which is what `[]byte(s)` is made of.
abbrev utf8 : ℕ → List ℕ
utf8 c =
    if ltb c 0x80
    then c ∷ []
    else if ltb c 0x800
    then (0xc0 + c / 64) ∷ (0x80 + c % 64) ∷ []
    else if ltb c 0x10000
    then (0xe0 + c / 4096) ∷ (0x80 + c / 64 % 64) ∷ (0x80 + c % 64) ∷ []
    else (0xf0 + c / 262144) ∷ (0x80 + c / 4096 % 64) ∷ (0x80 + c / 64 % 64) ∷ (0x80 + c % 64) ∷ []

abbrev utf8_all : List ℕ → List ℕ
utf8_all [] = []
utf8_all (c ∷ cs) = utf8 c ++ utf8_all cs

-- `fnv.New32a`.
abbrev fnv_from : ℕ → List ℕ → ℕ
fnv_from hash [] = hash
fnv_from hash (b ∷ bs) = fnv_from (bit_xor hash b * 16_777_619 % 2 ^ 32) bs

unfoldable pub fnv32a : List ℕ → ℕ
fnv32a bytes = fnv_from 2_166_136_261 bytes

-- `stableBucket`.
unfoldable pub stable_bucket : String → String → String → ℕ
unfolding fnv32a
stable_bucket subject_id experiment_key salt =
    fnv32a (utf8_all (codes subject_id ++ (b':' ∷ codes experiment_key) ++ (b':' ∷ codes salt)))
    % 10000

-- `sort.SliceStable` by id.
abbrev pub insert_group : Group → List Group → List Group
insert_group g [] = g ∷ []
insert_group g (h ∷ rest) =
    let later = insert_group g rest in if leb g.id h.id then g ∷ h ∷ rest else h ∷ later

abbrev pub sort_groups : List Group → List Group
sort_groups [] = []
sort_groups (g ∷ rest) = insert_group g (sort_groups rest)

-- The loop over the groups: the first whose share ends after the bucket.
unfoldable pub pick : ℕ → ℕ → List Group → Option Group
pick bucket upper [] = none
pick bucket upper (g ∷ rest) =
    let later = pick bucket (upper + g.traffic_basis_points) rest in
    if ltb bucket (upper + g.traffic_basis_points) then some g else later

abbrev pub has_key : String → Group → Bool
has_key key g = g.group_key == key

abbrev pub does : String → Option Override → Bool
does action none = false
does action (some o) = o.action == action

abbrev pub forced_key : Option Override → String
forced_key none = ""
forced_key (some o) = o.group_key

-- `selectGroup`.
unfoldable pub select_group : Experiment → String → Option Override → Option Group
unfolding pick
select_group e subject_id override =
    let groups = sort_groups e.groups in
    if does force_group override
    then first (has_key (forced_key override)) groups
    else pick (stable_bucket subject_id e.experiment_key e.salt) 0 groups

-- `rolloutGroup`.
unfoldable pub rollout_group : Experiment → Option Group
rollout_group e =
    let key = trim e.rollout_group_key in if key == "" then none else first (has_key key) e.groups

abbrev is_for : String → String → Override → Bool
is_for subject_type subject_id o = o.subject_type == subject_type && o.subject_id == subject_id

-- `findOverride`.
abbrev pub find_override : List Override → String → String → Option Override
find_override overrides subject_type subject_id = first (is_for subject_type subject_id) overrides

-- `experimentTypeMatches`.
unfoldable pub experiment_type_matches : String → String → Bool
experiment_type_matches experiment_type subject_type =
    if experiment_type == "" || experiment_type == for_all
    then true
    else if subject_type == device
    then experiment_type == for_client
    else experiment_type == for_server

-- `start.Add(time.Duration(seconds) * time.Second)`, whose product wraps around.
abbrev pub nanoseconds : ℤ → ℕ
nanoseconds (pos n) = n * 1_000_000_000 % 2 ^ 64
nanoseconds (negsuc n) = (2 ^ 64 - suc n * 1_000_000_000 % 2 ^ 64) % 2 ^ 64

unfoldable pub add_seconds : ℕ → ℤ → ℕ
add_seconds start seconds =
    let d = nanoseconds seconds in if ltb d (2 ^ 63) then start + d else start - (2 ^ 64 - d)

abbrev end_of : Times → Experiment → ℕ → ℕ
end_of times e start =
    let lasting = add_seconds start e.duration_seconds in
    if e.end_time == ""
    then lasting
    else elim (times.parse e.end_time) [ none ↦ lasting | some parsed ↦ parsed ]

-- `experimentWindowMatches`.
unfoldable pub experiment_window_matches : Times → Experiment → ℕ → Bool
experiment_window_matches times e now = elim (times.parse e.start_time) [
  | none ↦ false
  | some start ↦ leb start now && ltb now (end_of times e start)
]

-- `buildAssignment`.
abbrev pub build_assignment : Experiment → String → Fields → Bool → Assignment
build_assignment e group_key config override_applied = record {
  experiment_id = e.id;
  experiment_key = e.experiment_key;
  experiment_type = e.experiment_type;
  group_key = group_key;
  version = e.version;
  start_time = e.start_time;
  end_time = e.end_time;
  duration_seconds = e.duration_seconds;
  config = config;
  override_applied = override_applied;
}

abbrev config_of : Option Override → Fields
config_of none = no_fields
config_of (some o) = o.config

-- The part of `evaluateExperiment` after the checks: the group's assignment, with the override's.
unfoldable pub assign_group : Experiment → Option Override → Option Group → Option Assignment
assign_group e override none =
    if does merge_only override
    then some (build_assignment e "override" (config_of override) true)
    else none
assign_group e override (some g) =
    if does force_group override || does merge_only override
    then some (build_assignment e g.group_key (merge_config g.config (config_of override)) true)
    else some (build_assignment e g.group_key g.config false)

abbrev pub roll_out : Experiment → Option Group → Option Assignment
roll_out e none = none
roll_out e (some g) = some (build_assignment e g.group_key g.config false)

-- `evaluateExperiment`.
unfoldable pub evaluate_experiment : Times → Experiment → EvaluateRequest → ℕ → Option Assignment
evaluate_experiment times e req now =
    let override = find_override e.overrides req.subject_type req.subject_id in
    let assigned = assign_group e override (select_group e req.subject_id override) in
    if not (experiment_type_matches e.experiment_type req.subject_type)
    then none
    else if e.status == rolled_out
    then roll_out e (rollout_group e)
    else if not (e.status == running)
    then none
    else if not (experiment_window_matches times e now)
    then none
    else if not (targeting_matches e.targeting req.context)
    then none
    else if does exclude override
    then none
    else assigned

-- The loop of `Evaluate`: the assignments in the order of the experiments, and their configurations
-- merged one after the other.
abbrev pub cons_some : Option Assignment → List Assignment → List Assignment
cons_some none as₁ = as₁
cons_some (some a) as₁ = a ∷ as₁

unfoldable pub assignments : Times → EvaluateRequest → ℕ → List Experiment → List Assignment
assignments times req now [] = []
assignments times req now (e ∷ es) =
    cons_some (evaluate_experiment times e req now) (assignments times req now es)

abbrev pub merge_all : Fields → List Assignment → Fields
merge_all merged [] = merged
merge_all merged (a ∷ as₁) = merge_all (merge_config merged a.config) as₁

pub record EvaluateResponse : Type 0 where
  pub server_time : String
  pub merged_config : Fields
  pub experiments : List Assignment

-- `overridesByExperiment[experiment.ID]`.
abbrev pub with_overrides : List Override → Experiment → Experiment
with_overrides overrides e = record e {
  overrides = select (λ o. nat_beq o.experiment_id e.id) overrides;
}

abbrev pub trimmed : EvaluateRequest → EvaluateRequest
trimmed req = record req { subject_type = trim req.subject_type; subject_id = trim req.subject_id }

-- `Evaluate`, from the snapshot's experiments and the subject's overrides; without a subject it is an
-- error.
unfoldable pub evaluate :
    Times → EvaluateRequest → ℕ → List Experiment → List Override → Option EvaluateResponse
evaluate times req now experiments overrides =
    let subject = trimmed req in
    let found = assignments times subject now (map (with_overrides overrides) experiments) in
    if subject.subject_type == "" || subject.subject_id == ""
    then none
    else some (record {
      server_time = times.format now;
      merged_config = merge_all no_fields found;
      experiments = found;
    })
