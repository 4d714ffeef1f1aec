-- ===== src/AbTest/Merging.antt =====
-- The configuration that a subject gets: the merging of `Evaluate` of
-- services/abTestService/internal/abtest/evaluator.go.
use betterfly.Prelude.{
  some_injective, trim, ◌||◌, ◌==◌, string_eq, Bool-cases, sym, inl, inr, map, ℕ, String, ◌≡◌, refl,
  Option, none, some, List, [], ◌∷◌,
}
use betterfly.AbTest.Values.{
  merge_config, Value, Fields, no_fields, lookup, or_else, lookup-merge_config,
}
use betterfly.AbTest.Types.{Assignment, EvaluateRequest, Experiment, Override, Times}
use betterfly.AbTest.Evaluate.{
  merge_all, assignments, trimmed, with_overrides, evaluate, EvaluateResponse,
}

-- The value of a key in the last assignment that has it, or else another.
abbrev pub last_value : String → List Assignment → Option Value → Option Value
last_value k [] old = old
last_value k (a ∷ rest) old = last_value k rest (or_else (lookup k a.config) old)

lookup-merge_all :
    (k : String) (merged : Fields) (found : List Assignment)
    → lookup k (merge_all merged found) ≡ last_value k found (lookup k merged)
lookup-merge_all k merged [] = refl
lookup-merge_all k merged (a ∷ rest) =
    rw
      (
        lookup-merge_all k (merge_config merged a.config) rest,
        lookup-merge_config k merged a.config,
      )
      refl

-- In the response to an evaluation, each key of the merged configuration has the value of the last
-- assignment, in the order of the experiments, whose configuration has that key; a key that no
-- assignment has is not there.
pub merged_config_is_last :
    (times : Times) (req : EvaluateRequest) (now : ℕ) (experiments : List Experiment)
    (overrides : List Override) (response : EvaluateResponse) (k : String)
    → evaluate times req now experiments overrides ≡ some response
    → lookup k response.merged_config ≡ last_value k response.experiments none
unfolding evaluate
merged_config_is_last times req now experiments overrides response k e =
    elim (Bool-cases (trim req.subject_type == "" || trim req.subject_id == "")) [
      | inl b ↦ cc (rw (evaluate, b) at e)
      | inr b ↦
          let same = some_injective (rw (evaluate, b) at e) in
          rw (sym same) (
            lookup-merge_all k no_fields
              (assignments times (trimmed req) now (map (with_overrides overrides) experiments)))
    ]
