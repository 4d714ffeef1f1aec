-- ===== src/AbTest/Rollout/Kept.antt =====
-- Every command keeps the tables sound, so every run does.
use betterfly.Prelude.{
  any-modify_where, first-All, All-append, some_injective, trim, ℕ, suc, String, ◌≡◌, refl, sym, ap,
  true, false, Option, none, some, List, [], ◌∷◌, ◌++◌, any, first, ◌==◌, ◌&&◌, Bool-cases,
  Option-cases, inl, inr, arith, string_eq, nat_eq,
}
use betterfly.AbTest.Types.{
  Group, GroupInput, OverrideInput, ExperimentRow, UpdateExperimentRequest, CreateExperimentRequest,
  Times, rolled_out,
}
use betterfly.AbTest.Normalize.{
  Result-cases, ok, normalize_group_input, normalize_status, normalize_override_input,
  normalize_create_experiment,
}
use betterfly.AbTest.Store.{Db, has_id, find_row, of_experiment}
use betterfly.AbTest.Changes.{
  updated_type, updated_status, update_with, with_traffic, set_traffic, is_target,
  update_experiment, set_experiment_status, push_full_group, withdraw_experiment,
}
use betterfly.AbTest.Create.{new_groups, with_key, create_experiment}
use betterfly.AbTest.Additions.{bump_experiment_version, add_group, add_override}
use betterfly.AbTest.Commands.{
  Command, create, update, set_status, push_full, withdraw, group, override, run, run_all,
}
use betterfly.AbTest.Rollout.{IsSoundRow, IsSoundGroup, IsSound, serves}
use betterfly.AbTest.Rollout.Rows.{
  with_status-IsSoundRow, update_row-IsSound, ok_injective, normalize_group_input_ok,
  normalize_create_experiment_ok,
}
use betterfly.AbTest.Rollout.Groups.{append-IsSound, set_traffic-IsSound, new_groups-IsSoundGroup}

bump-IsSound :
    (now : String) (id : ℕ) (db : Db) → IsSound db → IsSound (bump_experiment_version now id db).1
unfolding bump_experiment_version
bump-IsSound now id db sound = elim (Option-cases (find_row db id)) [
  | inl e ↦ rw (bump_experiment_version, e) sound
  | inr (row, e) ↦ rw (bump_experiment_version, e) (update_row-IsSound id _ row db e (λ h. h) sound)
]

add_group-IsSound :
    (now : String) (id : ℕ) (req : GroupInput) (db : Db)
    → IsSound db
    → IsSound (add_group now id req db).1
unfolding add_group
add_group-IsSound now id req db sound = elim (Option-cases (find_row db id)) [
  | inl e ↦ rw (add_group, e) sound
  | inr (row, e) ↦ elim (Result-cases (normalize_group_input req)) [
    | inl ((key, points), p) ↦
        rw (add_group, e, p)
          (bump-IsSound now id _
            (append-IsSound db _ (normalize_group_input_ok req key points p, tt) sound))
    | inr (x, p) ↦ rw (add_group, e, p) sound
  ]
]

add_override-IsSound :
    (now : String) (id : ℕ) (req : OverrideInput) (db : Db)
    → IsSound db
    → IsSound (add_override now id req db).1
unfolding add_override
add_override-IsSound now id req db sound = elim (Option-cases (find_row db id)) [
  | inl e ↦ rw (add_override, e) sound
  | inr (row, e) ↦ elim (Result-cases (normalize_override_input req)) [
    | inl (accepted, p) ↦ rw (add_override, e, p) (bump-IsSound now id _ sound)
    | inr (x, p) ↦ rw (add_override, e, p) sound
  ]
]

withdraw-IsSound :
    (now : String) (id : ℕ) (db : Db) → IsSound db → IsSound (withdraw_experiment now id db).1
unfolding withdraw_experiment
withdraw-IsSound now id db sound = elim (Option-cases (find_row db id)) [
  | inl e ↦ rw (withdraw_experiment, e) sound
  | inr (row, e) ↦
      rw (withdraw_experiment, e)
        (update_row-IsSound id _ row db e (λ h. (λ r. cc r, λ r. refl)) sound)
]

set_status-IsSound :
    (now : String) (id : ℕ) (status : String) (db : Db)
    → IsSound db
    → IsSound (set_experiment_status now id status db).1
unfolding set_experiment_status
set_status-IsSound now id raw db sound = elim (Bool-cases (normalize_status raw == "")) [
  | inl b ↦ rw b sound
  | inr b ↦ elim (Option-cases (find_row db id)) [
    | inl e ↦ rw (b, e) sound
    | inr (row, e) ↦
        elim (Bool-cases (normalize_status raw == rolled_out && trim row.rollout_group_key == "")) [
          | inl g ↦ rw (b, e, g) sound
          | inr g ↦
              rw (b, e, g)
                (update_row-IsSound id _ row db e
                  (λ h.
                    with_status-IsSoundRow db.groups row (normalize_status raw) (suc row.version)
                      now h g)
                  sound)
        ]
  ]
]

updated_status_guard :
    (asked : Option String) (key status : String)
    → updated_status asked key ≡ ok (some status)
    → (status == rolled_out && trim key == "") ≡ false
updated_status_guard none key status e = cc (ok_injective e)
updated_status_guard (some raw) key status e = elim (Bool-cases (normalize_status raw == "")) [
  | inl b ↦ cc (rw b at e)
  | inr b ↦ elim (Bool-cases (normalize_status raw == rolled_out && trim key == "")) [
    | inl g ↦ cc (rw (b, g) at e)
    | inr g ↦
        let same : normalize_status raw ≡ status = some_injective (ok_injective (rw (b, g) at e)) in
        rw (sym same) g
  ]
]

update_with-IsSoundRow :
    (gs : List Group) (row : ExperimentRow) (req : UpdateExperimentRequest)
    (type status : Option String) (now : String)
    → updated_status req.status row.rollout_group_key ≡ ok status
    → IsSoundRow gs row
    → IsSoundRow gs (update_with req type status (suc row.version) now row)
update_with-IsSoundRow gs row req type none now q sound = sound
update_with-IsSoundRow gs row req type (some status) now q sound =
    with_status-IsSoundRow gs row status (suc row.version) now sound
      (updated_status_guard req.status row.rollout_group_key status q)

update-IsSound :
    (now : String) (id : ℕ) (req : UpdateExperimentRequest) (db : Db)
    → IsSound db
    → IsSound (update_experiment now id req db).1
unfolding update_experiment
update-IsSound now id req db sound = elim (Option-cases (find_row db id)) [
  | inl e ↦ rw (update_experiment, e) sound
  | inr (row, e) ↦ elim (Result-cases (updated_type req.experiment_type)) [
    | inr (x, p) ↦ rw (update_experiment, e, p) sound
    | inl (type, p) ↦ elim (Result-cases (updated_status req.status row.rollout_group_key)) [
      | inr (x, q) ↦ rw (update_experiment, e, p, q) sound
      | inl (status, q) ↦
          rw (update_experiment, e, p, q)
            (update_row-IsSound id _ row db e
              (update_with-IsSoundRow db.groups row req type status now q) sound)
    ]
  ]
]

-- The target of a push is a group of the experiment, so the experiment's new key names it.
found_serves :
    (experiment_id group_id : ℕ) (target : Group) (gs : List Group)
    → first (is_target group_id experiment_id) gs ≡ some target
    → any (serves experiment_id target.group_key) gs ≡ true
found_serves experiment_id group_id target [] e = cc e
found_serves experiment_id group_id target (g ∷ gs) e =
    elim (Bool-cases (is_target group_id experiment_id g)) [
      | inl q ↦
          let g≡target : g ≡ target = some_injective (rw q at e) in
          let named : (g.group_key == target.group_key) ≡ true =
            (string_eq.beq_iff g.group_key target.group_key).1 (ap (λ x. x.group_key) g≡target) in
          ground arith
      | inr q ↦
          let rest = found_serves experiment_id group_id target gs (rw q at e) in
          elim (Bool-cases (serves experiment_id target.group_key g)) [
            | inl s ↦ rw s refl
            | inr s ↦ rw (s, rest) refl
          ]
    ]

pub push_full-IsSound :
    (now : String) (id group_id : ℕ) (db : Db)
    → IsSound db
    → IsSound (push_full_group now id group_id db).1
unfolding push_full_group
push_full-IsSound now id group_id db sound = elim (Option-cases (find_row db id)) [
  | inl e ↦ rw (push_full_group, e) sound
  | inr (row, e) ↦ elim (Option-cases (first (is_target group_id id) db.groups)) [
    | inl p ↦ rw (push_full_group, e, p) sound
    | inr (target, p) ↦
        let target_sound =
          (first-All IsSoundGroup (is_target group_id id) target db.groups p sound.1).0 in
        let cleared = set_traffic (of_experiment id) 0 now db in
        let full = set_traffic (is_target group_id id) 10000 now cleared in
        let full_sound : IsSound full =
          set_traffic-IsSound (is_target group_id id) 10000 now cleared (omega arith)
            (set_traffic-IsSound (of_experiment id) 0 now db (omega arith) sound) in
        let keyed : row.id ≡ id =
          (nat_eq.beq_iff row.id id).0
            (first-All (IsSoundRow db.groups) (has_id id) row db.experiments e sound.0).1 in
        let served : any (serves row.id target.group_key) full.groups ≡ true =
          rw
            (
              keyed,
              any-modify_where (serves id target.group_key) (is_target group_id id)
                  (with_traffic 10000 now) cleared.groups (λ g. refl),
              any-modify_where (serves id target.group_key) (of_experiment id) (with_traffic 0 now)
                  db.groups (λ g. refl),
            )
            (found_serves id group_id target db.groups p) in
        rw (push_full_group, e, p)
          (update_row-IsSound id _ row full e
            (λ h. (λ r. (served, target_sound.0, target_sound.1), λ r. cc r)) full_sound)
  ]
]

create-IsSound :
    (times : Times) (now : ℕ) (req : CreateExperimentRequest) (db : Db)
    → IsSound db
    → IsSound (create_experiment times now req db).1
unfolding create_experiment
create-IsSound times now req db sound =
    elim (Result-cases (normalize_create_experiment times now req)) [
      | inr (x, e) ↦ rw (create_experiment, e) sound
      | inl (accepted, e) ↦
          elim (Bool-cases (any (with_key accepted.experiment_key) db.experiments)) [
            | inl b ↦ rw (create_experiment, e, b) sound
            | inr b ↦
                elim (Result-cases (
                  new_groups db.next_group db.next_experiment (times.format now) accepted.groups)) [
                    | inr (x, p) ↦ rw (create_experiment, e, b, p) sound
                    | inl (gs, p) ↦
                        let kept =
                          append-IsSound db gs
                            (new_groups-IsSoundGroup db.next_group db.next_experiment
                              (times.format now) accepted.groups gs p)
                            sound in
                        rw (create_experiment, e, b, p)
                          (
                            All-append (IsSoundRow (db.groups ++ gs)) db.experiments (_ ∷ []) kept.0
                                (
                                  (
                                    λ r. cc (
                                      normalize_create_experiment_ok times now req accepted e,
                                      r,
                                    ),
                                    λ r. refl,
                                  ),
                                  tt,
                                ),
                            kept.1,
                          )
                  ]
          ]
    ]

pub run-IsSound :
    (times : Times) (now : ℕ) (c : Command) (db : Db) → IsSound db → IsSound (run times now c db)
unfolding run
run-IsSound times now (create req) db = create-IsSound times now req db
run-IsSound times now (update id req) db = update-IsSound (times.format now) id req db
run-IsSound times now (set_status id status) db = set_status-IsSound (times.format now) id status db
run-IsSound times now (push_full id group_id) db =
    push_full-IsSound (times.format now) id group_id db
run-IsSound times now (withdraw id) db = withdraw-IsSound (times.format now) id db
run-IsSound times now (group id req) db = add_group-IsSound (times.format now) id req db
run-IsSound times now (override id req) db = add_override-IsSound (times.format now) id req db

pub run_all-IsSound :
    (times : Times) (cs : List (ℕ × Command)) (db : Db) → IsSound db → IsSound (run_all times cs db)
unfolding run_all
run_all-IsSound times [] db sound = sound
run_all-IsSound times ((now, c) ∷ cs) db sound =
    run_all-IsSound times cs (run times now c db) (run-IsSound times now c db sound)
