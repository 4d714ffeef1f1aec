-- ===== src/AbTest/Rollout/Groups.antt =====
-- The changes of the groups keep them sound, and keep what they serve.
use betterfly.Prelude.{
  any-modify_where, All, All-append, All-modify_where, ℕ, suc, ◌≤◌, String, ◌≡◌, refl, sym, Bool,
  List, [], ◌∷◌, ◌++◌, modify_where, inl, inr, string_eq, nat_eq,
}
use betterfly.AbTest.Types.{Group, GroupInput}
use betterfly.AbTest.Normalize.{Result-cases, ok, normalize_group_input}
use betterfly.AbTest.Store.{Db}
use betterfly.AbTest.Changes.{with_traffic, set_traffic}
use betterfly.AbTest.Create.{new_groups}
use betterfly.AbTest.Rollout.{IsSoundRow, IsSoundGroup, IsSound, serves, append-Extends, rows_kept}
use betterfly.AbTest.Rollout.Rows.{ok_injective, normalize_group_input_ok}

-- More groups.
pub append-IsSound :
    (db : Db) (gs : List Group)
    → All IsSoundGroup gs
    → IsSound db
    → All (IsSoundRow (db.groups ++ gs)) db.experiments × All IsSoundGroup (db.groups ++ gs)
append-IsSound db gs new (rows, groups) = (
  rows_kept db.groups (db.groups ++ gs) db.experiments (append-Extends db.groups gs) rows,
  All-append IsSoundGroup db.groups gs groups new,
)

-- Other traffic.
pub set_traffic-IsSound :
    (p : Group → Bool) (points : ℕ) (now : String) (db : Db)
    → points ≤ 10000
    → IsSound db
    → IsSound (set_traffic p points now db)
set_traffic-IsSound p points now db bound (rows, groups) = (
  rows_kept db.groups (modify_where p (with_traffic points now) db.groups) db.experiments
      (λ id key h.
        rw (any-modify_where (serves id key) p (with_traffic points now) db.groups (λ g. refl)) h)
      rows,
  All-modify_where IsSoundGroup IsSoundGroup p (with_traffic points now) db.groups
      (λ g e h. (h.0, h.1, bound)) (λ g e h. h) groups,
)

pub new_groups-IsSoundGroup :
    (id experiment_id : ℕ) (now : String) (reqs : List GroupInput) (gs : List Group)
    → new_groups id experiment_id now reqs ≡ ok gs
    → All IsSoundGroup gs
new_groups-IsSoundGroup id experiment_id now [] gs e = rw (sym (ok_injective e)) tt
new_groups-IsSoundGroup id experiment_id now (req ∷ reqs) gs e =
    elim (Result-cases (normalize_group_input req)) [
      | inl ((key, points), p) ↦ elim (Result-cases (new_groups (suc id) experiment_id now reqs)) [
        | inl (rest, q) ↦ rw (sym (ok_injective (rw (p, q) at e))) (
          normalize_group_input_ok req key points p,
          new_groups-IsSoundGroup (suc id) experiment_id now reqs rest q,
        )
        | inr (x, q) ↦ cc (rw (p, q) at e)
      ]
      | inr (x, p) ↦ cc (rw p at e)
    ]
