-- ===== src/AbTest/Targeting.antt =====
-- The targeting rules of an experiment: `targetingMatches` and its helpers of
-- services/abTestService/internal/abtest/evaluator.go.
use betterfly.Prelude.{
  trim, String, Bool, true, false, not, ◌&&◌, ◌||◌, Option, none, some, List, [], ◌∷◌, is_empty,
  any, ◌==◌, string_eq, if◌then◌else◌,
}
use betterfly.AbTest.Values.{
  Value, text, texts, array, object, rules, Items, no_items, item, Fields, no_fields, field, lookup,
}
use betterfly.AbTest.Versions.{version_range_matches}

-- The context of a request: `map[string]string`, where a missing key reads as "".
abbrev pub Context : Type 0
Context = List (String × String)

abbrev pub in_context : Context → String → String
in_context [] k = ""
in_context ((j, v) ∷ rest) k = let other = in_context rest k in if j == k then v else other

abbrev pub string_items : Items → List String
string_items no_items = []
string_items (item (text s) rest) = trim s ∷ string_items rest
string_items (item _ rest) = string_items rest

-- `stringSlice`; a nil slice and an empty one are told apart nowhere.
abbrev pub string_slice : Option Value → List String
string_slice (some (text s)) = if trim s == "" then [] else trim s ∷ []
string_slice (some (texts ss)) = ss
string_slice (some (array items)) = string_items items
string_slice _ = []

-- `stringFromTargeting`.
abbrev pub string_from_targeting : Fields → String → String
string_from_targeting targeting key = elim (lookup key targeting) [
  | some (text s) ↦ trim s
  | _ ↦ ""
]

-- `containsString`.
unfoldable pub contains_string : List String → String → Bool
contains_string items value = any (λ s. s == value) items

-- `stringSetMatches`.
unfoldable pub string_set_matches : Fields → Context → String → String → Bool
string_set_matches targeting context context_key targeting_key =
    let allowed = string_slice (lookup targeting_key targeting) in
    if is_empty allowed
    then true
    else contains_string allowed (trim (in_context context context_key))

-- `stringSetMatchesAny`: the first key that the rules have.
unfoldable pub string_set_matches_any : Fields → Context → String → List String → Bool
string_set_matches_any targeting context context_key [] = true
string_set_matches_any targeting context context_key (k ∷ ks) =
    let rest = string_set_matches_any targeting context context_key ks in
    elim (lookup k targeting) [
      | none ↦ rest
      | some v ↦ string_set_matches targeting context context_key k
    ]

abbrev rules_of : Fields → List (String × List String)
rules_of no_fields = []
rules_of (field k v rest) = (k, string_slice (some v)) ∷ rules_of rest

-- `stringRuleMap`.
abbrev pub string_rule_map : Option Value → Option (List (String × List String))
string_rule_map (some (rules rs)) = some rs
string_rule_map (some (object fs)) = some (rules_of fs)
string_rule_map _ = none

abbrev pub included : Context → List (String × List String) → Bool
included context [] = true
included context ((k, allowed) ∷ rest) =
    (is_empty allowed || contains_string allowed (in_context context k)) && included context rest

abbrev pub excluded : Context → List (String × List String) → Bool
excluded context [] = false
excluded context ((k, denied) ∷ rest) =
    contains_string denied (in_context context k) || excluded context rest

-- `genericIncludeExcludeMatches`.
unfoldable pub generic_include_exclude_matches : Fields → Context → Bool
generic_include_exclude_matches targeting context =
    let include_matches : Bool = elim (string_rule_map (lookup "include" targeting)) [
      | none ↦ true
      | some rs ↦ included context rs
    ] in
    let exclude_matches : Bool = elim (string_rule_map (lookup "exclude" targeting)) [
      | none ↦ true
      | some rs ↦ not (excluded context rs)
    ] in
    include_matches && exclude_matches

abbrev has_no_fields : Fields → Bool
has_no_fields no_fields = true
has_no_fields (field k v rest) = false

-- `targetingMatches`.
unfoldable pub targeting_matches : Fields → Context → Bool
targeting_matches targeting context =
    has_no_fields targeting
    || string_set_matches targeting context "platform" "platforms"
      && string_set_matches_any targeting context "os" ("os" ∷ "oses" ∷ "operating_systems" ∷ [])
      && string_set_matches targeting context "app_version" "app_versions"
      && string_set_matches targeting context "system_version" "system_versions"
      && version_range_matches (in_context context "app_version")
          (string_from_targeting targeting "min_app_version")
          (string_from_targeting targeting "max_app_version")
      && version_range_matches (in_context context "system_version")
          (string_from_targeting targeting "min_system_version")
          (string_from_targeting targeting "max_system_version")
      && generic_include_exclude_matches targeting context
