-- ===== src/AbTest/Selection.antt =====
-- The groups of an experiment share the buckets out: `selectGroup` of
-- services/abTestService/internal/abtest/evaluator.go.
use betterfly.Prelude.{
  some_injective, ◌≢◌, ℕ, ◌+◌, ◌≤◌, ◌<◌, String, ◌≡◌, refl, sym, ap, ◌↔◌, false, Option, none, some,
  List, [], ◌∷◌, ◌++◌, ltb, leb, Bool-cases, inl, inr, arith,
}
use betterfly.AbTest.Types.{force_group, Group, Experiment, Override}
use betterfly.AbTest.Evaluate.{stable_bucket, insert_group, sort_groups, pick, does, select_group}

abbrev pub total : List Group → ℕ
total [] = 0
total (g ∷ gs) = g.traffic_basis_points + total gs

-- The bucket lies in the group's share: past the shares of the groups before it.
pub record Share (bucket upper : ℕ) (gs : List Group) (g : Group) : Type 0 where
  pub before : List Group
  pub after : List Group
  pub split : gs ≡ before ++ (g ∷ after)
  pub starts : upper + total before ≤ bucket
  pub ends : bucket < upper + total before + g.traffic_basis_points

pick-Share :
    (bucket upper : ℕ) (gs : List Group) (g : Group)
    → upper ≤ bucket
    → pick bucket upper gs ≡ some g
    → Share bucket upper gs g
unfolding pick
pick-Share bucket upper [] g h e = cc e
pick-Share bucket upper (x ∷ gs) g h e =
    elim (Bool-cases (ltb bucket (upper + x.traffic_basis_points))) [
      | inl b ↦
          let x≡g : x ≡ g = some_injective (rw b at e) in
          record {
            before = [];
            after = gs;
            split = ap (λ y. y ∷ gs) x≡g;
            starts = omega arith;
            ends = rw (sym x≡g) (ground arith);
          }
      | inr b ↦
          let later =
            pick-Share bucket (upper + x.traffic_basis_points) gs g (ground arith) (rw b at e) in
          record {
            before = x ∷ later.before;
            after = later.after;
            split = ap (λ ys. x ∷ ys) later.split;
            starts = omega (arith, later.starts);
            ends = omega (arith, later.ends);
          }
    ]

Share-pick :
    (bucket upper : ℕ) (before after : List Group) (g : Group)
    → upper + total before ≤ bucket
    → bucket < upper + total before + g.traffic_basis_points
    → pick bucket upper (before ++ (g ∷ after)) ≡ some g
unfolding pick
Share-pick bucket upper [] after g starts ends = ground arith
Share-pick bucket upper (x ∷ before) after g starts ends =
    let later =
      Share-pick bucket (upper + x.traffic_basis_points) before after g (omega arith)
        (omega arith) in
    ground arith

pick-none :
    (bucket upper : ℕ) (gs : List Group)
    → upper ≤ bucket
    → pick bucket upper gs ≡ none
    → upper + total gs ≤ bucket
unfolding pick
pick-none bucket upper [] h e = omega arith
pick-none bucket upper (g ∷ gs) h e =
    elim (Bool-cases (ltb bucket (upper + g.traffic_basis_points))) [
      | inl b ↦ cc (rw b at e)
      | inr b ↦
          let later =
            pick-none bucket (upper + g.traffic_basis_points) gs (ground arith) (rw b at e) in
          omega (arith, later)
    ]

stable_bucket_bound : (subject_id key salt : String) → stable_bucket subject_id key salt < 10000
unfolding stable_bucket
stable_bucket_bound subject_id key salt = omega arith

total-insert_group : (g : Group) (gs : List Group) → total (insert_group g gs) ≡ total (g ∷ gs)
total-insert_group g [] = refl
total-insert_group g (h ∷ gs) = elim (Bool-cases (leb g.id h.id)) [
  | inl e ↦ rw e refl
  | inr e ↦ rw e (omega (arith, total-insert_group g gs))
]

total-sort_groups : (gs : List Group) → total (sort_groups gs) ≡ total gs
total-sort_groups [] = refl
total-sort_groups (g ∷ gs) =
    omega (arith, total-insert_group g (sort_groups gs), total-sort_groups gs)

-- Where no override forces a group, a subject is assigned to a group exactly if its bucket lies in the
-- group's share of the basis points, counted over the groups in the order of their ids; and it is
-- assigned to some group whenever the shares add up to 10000.
pub shares_are_exact :
    (e : Experiment) (subject_id : String) (override : Option Override)
    → does force_group override ≡ false
    → ((g : Group)
        → (select_group e subject_id override ≡ some g)
          ↔ Share (stable_bucket subject_id e.experiment_key e.salt) 0 (sort_groups e.groups) g)
      × (10000 ≤ total e.groups → select_group e subject_id override ≢ none)
unfolding select_group
shares_are_exact e subject_id override free =
    let bucket = stable_bucket subject_id e.experiment_key e.salt in
    let groups = sort_groups e.groups in
    (
      λ g. (
        λ p. pick-Share bucket 0 groups g (omega arith) (rw (select_group, free) at p),
        λ s.
            rw (select_group, free, s.split)
              (Share-pick bucket 0 s.before s.after g s.starts s.ends),
      ),
      λ full p. absurd (
          omega (
            arith,
            total-sort_groups e.groups,
            stable_bucket_bound subject_id e.experiment_key e.salt,
            pick-none bucket 0 groups (omega arith) (rw (select_group, free) at p),
          )),
    )
