-- ===== src/AbTest/Normalize.antt =====
-- What the store accepts: the `normalize` functions of
-- services/abTestService/internal/abtest/store.go.
use betterfly.Prelude.{
  ◌≡◌, refl, ◌⊎◌, inl, inr, trim, ℕ, ℤ, pos, negsuc, String, not, ◌||◌, Option, none, some, leb,
  ◌==◌, nat_eq, string_eq, is_positive, if◌then◌else◌,
}
use betterfly.AbTest.Types.{
  for_all, for_client, for_server, draft, running, paused, stopped, rolled_out, force_group,
  exclude, merge_only, GroupInput, OverrideInput, CreateExperimentRequest, Times,
}
use betterfly.AbTest.Evaluate.{add_seconds}

pub data StoreError : Type 0 where
  not_found duplicate_key missing_key_or_name invalid_type invalid_status needs_push : StoreError
  bad_duration bad_start bad_end missing_group_key bad_traffic missing_subject : StoreError
  missing_forced_group invalid_action : StoreError

pub data Result (A : Type 0) : Type 0 where
  ok : A → Result A
  err : StoreError → Result A

pub Result-cases :
    {A : Type 0} (r : Result A) → ((a : A) × (r ≡ ok a)) ⊎ ((e : StoreError) × (r ≡ err e))
Result-cases (ok a) = inl (a, refl)
Result-cases (err e) = inr (e, refl)

abbrev pub and_then : {A B : Type 0} → Result A → (A → Result B) → Result B
and_then (ok a) f = f a
and_then (err e) f = err e

-- `normalizeExperimentType`: "" for what is no type.
unfoldable pub normalize_experiment_type : String → String
normalize_experiment_type value =
    let v = trim value in
    if v == "" || v == for_client
    then for_client
    else if v == for_server
    then for_server
    else if v == for_all
    then for_all
    else ""

-- `normalizeStatus`: "" for what is no status.
unfoldable pub normalize_status : String → String
normalize_status value =
    let v = trim value in
    if v == "" || v == draft
    then draft
    else if v == running
    then running
    else if v == paused
    then paused
    else if v == stopped
    then stopped
    else if v == rolled_out
    then rolled_out
    else ""

-- `rolloutGroupKeyForStatus`.
abbrev pub rollout_group_key_for_status : String → String → String
rollout_group_key_for_status status current = if status == rolled_out then current else ""

abbrev pub nonzero_or_ratio : ℤ → Option ℤ → ℤ
nonzero_or_ratio points none = points
nonzero_or_ratio (pos n) (some ratio) = if n == 0 then ratio else pos n
nonzero_or_ratio (negsuc n) (some ratio) = negsuc n

abbrev pub basis_points : ℤ → Result ℕ
basis_points (pos n) = if leb n 10000 then ok n else err bad_traffic
basis_points (negsuc n) = err bad_traffic

-- `normalizeGroupInput`: the key and the traffic.
unfoldable pub normalize_group_input : GroupInput → Result (String × ℕ)
normalize_group_input req =
    if trim req.group_key == ""
    then err missing_group_key
    else and_then (basis_points (nonzero_or_ratio req.traffic_basis_points req.traffic_ratio))
        (λ n. ok (trim req.group_key, n))

-- `normalizeOverrideInput`.
unfoldable pub normalize_override_input : OverrideInput → Result OverrideInput
normalize_override_input raw =
    let req = record raw {
      subject_type = trim raw.subject_type;
      subject_id = trim raw.subject_id;
      action = trim raw.action;
    } in
    if req.subject_type == "" || req.subject_id == "" || req.action == ""
    then err missing_subject
    else if req.action == force_group
    then (if trim req.group_key == "" then err missing_forced_group else ok req)
    else if req.action == exclude || req.action == merge_only
    then ok req
    else err invalid_action

abbrev start_of : Times → ℕ → String → String
start_of times now start_time = if start_time == "" then times.format now else start_time

-- `normalizeCreateExperiment`, at the time `now`.
unfoldable pub normalize_create_experiment :
    Times → ℕ → CreateExperimentRequest → Result CreateExperimentRequest
normalize_create_experiment times now raw =
    let req = record raw {
      experiment_key = trim raw.experiment_key;
      name = trim raw.name;
      experiment_type = normalize_experiment_type raw.experiment_type;
      status = normalize_status raw.status;
      start_time = start_of times now raw.start_time;
    } in
    let salted = if req.salt == "" then record req { salt = req.experiment_key } else req in
    if req.experiment_key == "" || req.name == ""
    then err missing_key_or_name
    else if req.experiment_type == ""
    then err invalid_type
    else if req.status == ""
    then err invalid_status
    else if req.status == rolled_out
    then err needs_push
    else if not (is_positive req.duration_seconds)
    then err bad_duration
    else elim (times.parse req.start_time) [
      | none ↦ err bad_start
      | some start ↦
          if req.end_time == ""
          then ok
              (record salted { end_time = times.format (add_seconds start req.duration_seconds) })
          else elim (times.parse req.end_time) [ none ↦ err bad_end | some _ ↦ ok salted ]
    ]
