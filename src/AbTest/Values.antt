-- ===== src/AbTest/Values.antt =====
-- The JSON values of configurations and targeting rules, and `mergeConfig` of
-- services/abTestService/internal/abtest/evaluator.go. A map is a list of fields, of which the first
-- with a key counts.
use betterfly.Prelude.{
  String, ◌≡◌, refl, Bool, true, false, Option, none, some, List, ◌==◌, string_eq, if◌then◌else◌,
  Bool-cases, inl, inr,
}

-- `interface{}`: what `encoding/json` decodes to, with the two Go types that the rules may also have.
-- A number stands as its literal.
mutual
  pub data Value : Type 0 where
    null : Value
    boolean : Bool → Value
    number text : String → Value
    texts : List String → Value
    array : Items → Value
    object : Fields → Value
    rules : List (String × List String) → Value

  pub data Items : Type 0 where
    no_items : Items
    item : Value → Items → Items

  -- `map[string]interface{}`.
  pub data Fields : Type 0 where
    no_fields : Fields
    field : String → Value → Fields → Fields

abbrev pub lookup : String → Fields → Option Value
lookup k no_fields = none
lookup k (field j v rest) = let other = lookup k rest in if j == k then some v else other

-- `target[key] = value`.
abbrev pub assign : String → Value → Fields → Fields
assign k v no_fields = field k v no_fields
assign k v (field j w rest) =
    let other = assign k v rest in if j == k then field k v rest else field j w other

-- `mergeConfig(target, source)`.
abbrev pub merge_config : Fields → Fields → Fields
merge_config target no_fields = target
merge_config target (field k v rest) = assign k v (merge_config target rest)

-- The value of a key, or else another.
abbrev pub or_else {ℓ} : {A : Type ℓ} → Option A → Option A → Option A
or_else none other = other
or_else (some a) other = some a

if_again {ℓ} :
    {A : Type ℓ} (b : Bool) (x y z : A)
    → (if b then x else z) ≡ (if b then x else if b then y else z)
if_again true x y z = refl
if_again false x y z = refl

if_swap {ℓ} :
    {A : Type ℓ} (a b : Bool) (x y z : A)
    → ¬ ((a ≡ true) × (b ≡ true))
    → (if a then x else if b then y else z) ≡ (if b then y else if a then x else z)
if_swap true true x y z h = absurd (h (refl, refl))
if_swap true false x y z h = refl
if_swap false true x y z h = refl
if_swap false false x y z h = refl

not_both : (i j k : String) → (i == j) ≡ false → ¬ (((i == k) ≡ true) × ((j == k) ≡ true))
not_both i j k e (p, q) =
    let i≡j : i ≡ j = cc ((string_eq.beq_iff i k).0 p, (string_eq.beq_iff j k).0 q) in
    cc ((string_eq.beq_iff i j).1 i≡j, e)

pub lookup-assign :
    (k j : String) (v : Value) (fs : Fields)
    → lookup k (assign j v fs) ≡ (if j == k then some v else lookup k fs)
lookup-assign k j v no_fields = refl
lookup-assign k j v (field i w rest) =
    let ih = lookup-assign k j v rest in
    elim (Bool-cases (i == j)) [
      | inl e ↦ rw (e, (string_eq.beq_iff i j).0 e) (if_again (j == k) _ _ _)
      | inr e ↦ rw (e, ih) (if_swap (i == k) (j == k) _ _ _ (not_both i j k e))
    ]

pub lookup-merge_config :
    (k : String) (target source : Fields)
    → lookup k (merge_config target source) ≡ or_else (lookup k source) (lookup k target)
lookup-merge_config k target no_fields = refl
lookup-merge_config k target (field j v rest) =
    rw (lookup-assign k j v (merge_config target rest), lookup-merge_config k target rest)
      (elim (Bool-cases (j == k)) [ inl e ↦ rw e refl | inr e ↦ rw e refl ])
