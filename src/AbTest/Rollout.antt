-- ===== src/AbTest/Rollout.antt =====
-- A rolled-out experiment has a group to serve, and no other experiment keeps the key of one.
pub mod Rows
pub mod Groups
pub mod Kept
use betterfly.Prelude.{
  any-append, All, All-map, All-modify_where, trim, ℕ, ◌≤◌, String, ◌≡◌, refl, sym, Bool, true,
  false, Option, none, some, List, [], ◌∷◌, ◌++◌, any, first, modify_where, ◌==◌, ◌&&◌, Bool-cases,
  Option-cases, inl, inr, arith, string_eq, nat_eq,
}
use betterfly.AbTest.Types.{rolled_out, Group, ExperimentRow}
use betterfly.AbTest.Store.{Db, has_id, modify_first, update_row, find_row}

abbrev pub serves : ℕ → String → Group → Bool
serves id key g = g.experiment_id == id && g.group_key == key

abbrev pub IsServed : List Group → ExperimentRow → Type 0
IsServed groups row =
    (any (serves row.id row.rollout_group_key) groups ≡ true)
    × (trim row.rollout_group_key ≡ row.rollout_group_key)
    × ((row.rollout_group_key == "") ≡ false)

abbrev pub IsSoundRow : List Group → ExperimentRow → Type 0
IsSoundRow groups row =
    (((row.status == rolled_out) ≡ true) → IsServed groups row)
    × (((row.status == rolled_out) ≡ false) → row.rollout_group_key ≡ "")

abbrev pub IsSoundGroup : Group → Type 0
IsSoundGroup g =
    (trim g.group_key ≡ g.group_key)
    × ((g.group_key == "") ≡ false)
    × (g.traffic_basis_points ≤ 10000)

abbrev pub IsSound : Db → Type 0
IsSound db = All (IsSoundRow db.groups) db.experiments × All IsSoundGroup db.groups

-- The groups that one list serves, another serves too.
abbrev pub Extends : List Group → List Group → Type 0
Extends gs hs =
    (id : ℕ) (key : String) → any (serves id key) gs ≡ true → any (serves id key) hs ≡ true

pub append-Extends : (gs hs : List Group) → Extends gs (gs ++ hs)
append-Extends gs hs id key = any-append (serves id key) gs hs

pub rows_kept :
    (gs hs : List Group) (rows : List ExperimentRow)
    → Extends gs hs
    → All (IsSoundRow gs) rows
    → All (IsSoundRow hs) rows
rows_kept gs hs rows x =
    All-map (IsSoundRow gs) (IsSoundRow hs) rows
      (λ row h. (λ e. let s = h.0 e in (x row.id row.rollout_group_key s.0, s.1, s.2), h.1))

pub All-modify_first :
    (P : ExperimentRow → Type 0) (id : ℕ) (f : ExperimentRow → ExperimentRow) (row : ExperimentRow)
    (rows : List ExperimentRow)
    → first (has_id id) rows ≡ some row
    → P (f row)
    → All P rows
    → All P (modify_first id f rows)
All-modify_first P id f row [] e new h = h
All-modify_first P id f row (r ∷ rows) e new (h, hs) = elim (Bool-cases (has_id id r)) [
  | inl q ↦ let r≡row : r ≡ row = cc (rw q at e) in rw q (rw r≡row new, hs)
  | inr q ↦ rw q (h, All-modify_first P id f row rows (rw q at e) new hs)
]
