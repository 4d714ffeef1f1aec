-- ===== src/AbTest/Rollout/Rows.antt =====
-- The changes of a row keep it sound.
use betterfly.Prelude.{
  first-All, trim, trim_again, ℕ, ◌≤◌, leb, String, ◌≡◌, refl, ap, sym, false, some, List, ◌==◌,
  ◌&&◌, Bool-cases, inl, inr, arith, string_eq, nat_eq, ℤ, pos, negsuc,
}
use betterfly.AbTest.Types.{
  rolled_out, Group, GroupInput, ExperimentRow, CreateExperimentRequest, Times,
}
use betterfly.AbTest.Normalize.{
  Result-cases, ok, rollout_group_key_for_status, normalize_group_input, basis_points,
  nonzero_or_ratio, normalize_create_experiment,
}
use betterfly.AbTest.Store.{Db, has_id, update_row, find_row}
use betterfly.AbTest.Changes.{with_status}
use betterfly.AbTest.Rollout.{IsSoundRow, IsSound, All-modify_first}

trim_nothing : (key : String) → key ≡ "" → trim key ≡ ""
unfolding trim
trim_nothing key e = rw e refl

not_blank : (key : String) → key ≡ "" → ¬ ((trim key == "") ≡ false)
not_blank key k h = cc ((string_eq.beq_iff (trim key) "").1 (trim_nothing key k), h)

-- A status may become "rolled_out" only where the row has a key, so where it is "rolled_out" already.
pub with_status-IsSoundRow :
    (gs : List Group) (row : ExperimentRow) (status : String) (version : ℕ) (now : String)
    → IsSoundRow gs row
    → (status == rolled_out && trim row.rollout_group_key == "") ≡ false
    → IsSoundRow gs (
        with_status status
          (rollout_group_key_for_status status row.rollout_group_key)
          version
          now
          row)
with_status-IsSoundRow gs row status version now sound guard = (
  λ e. elim (Bool-cases (row.status == rolled_out)) [
    | inl r ↦ rw e (sound.0 r)
    | inr r ↦ absurd (not_blank row.rollout_group_key (sound.1 r) (rw e at guard))
  ],
  λ e. rw e refl,
)

-- The row that an update by its id changes.
pub update_row-IsSound :
    (id : ℕ) (f : ExperimentRow → ExperimentRow) (row : ExperimentRow) (db : Db)
    → find_row db id ≡ some row
    → (IsSoundRow db.groups row → IsSoundRow db.groups (f row))
    → IsSound db
    → IsSound (update_row id f db)
update_row-IsSound id f row db e new (rows, groups) = (
  All-modify_first (IsSoundRow db.groups) id f row db.experiments e
      (new (first-All (IsSoundRow db.groups) (has_id id) row db.experiments e rows).0) rows,
  groups,
)

basis_points_bound : (z : ℤ) (n : ℕ) → basis_points z ≡ ok n → n ≤ 10000
basis_points_bound (pos m) n e = elim (Bool-cases (leb m 10000)) [
  | inl h ↦ ground (arith, rw h at e)
  | inr h ↦ cc (rw h at e)
]
basis_points_bound (negsuc m) n e = cc e

pub ok_injective : {A : Type 0} {a b : A} → ok a ≡ ok b → a ≡ b
ok_injective e = cc e

ok-pair : {a b : String × ℕ} → ok a ≡ ok b → (a.0 ≡ b.0) × (a.1 ≡ b.1)
ok-pair e = let same = ok_injective e in (ap (λ p. p.0) same, ap (λ p. p.1) same)

pub normalize_group_input_ok :
    (req : GroupInput) (key : String) (points : ℕ)
    → normalize_group_input req ≡ ok (key, points)
    → (trim key ≡ key) × ((key == "") ≡ false) × (points ≤ 10000)
unfolding normalize_group_input
normalize_group_input_ok req key points e = elim (Bool-cases (trim req.group_key == "")) [
  | inl q ↦ cc (rw q at e)
  | inr q ↦
      elim (Result-cases
        (basis_points (nonzero_or_ratio req.traffic_basis_points req.traffic_ratio))) [
          | inl (n, p) ↦
              let same : (trim req.group_key ≡ key) × (n ≡ points) = ok-pair (rw (q, p) at e) in
              (
                rw (sym same.0) (trim_again req.group_key),
                rw (sym same.0) q,
                rw (sym same.1) (
                    basis_points_bound (nonzero_or_ratio req.traffic_basis_points req.traffic_ratio)
                      n p),
              )
          | inr (x, p) ↦ cc (rw (q, p) at e)
        ]
]

-- A new experiment is not rolled out.
pub normalize_create_experiment_ok :
    (times : Times) (now : ℕ) (raw req : CreateExperimentRequest)
    → normalize_create_experiment times now raw ≡ ok req
    → (req.status == rolled_out) ≡ false
unfolding normalize_create_experiment
normalize_create_experiment_ok times now raw req e = ground arith
