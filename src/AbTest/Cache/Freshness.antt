-- ===== src/AbTest/Cache/Freshness.antt =====
-- No evaluation answers from tables older than the writes that its process had answered when it began.
use betterfly.Prelude.{
  ℕ, ◌≤◌, suc, ◌≡◌, refl, sym, ap, ◌∙◌, some, some_injective, update, update_ne, update_self,
  nat_eq, if-both, Bool-cases, inl, inr, arith,
}
use betterfly.AbTest.Store.{Db, list_experiments_between}
use betterfly.AbTest.Cache.{
  Snapshot, Reader, idle, asking, chose, loading, got, checked, answered, World, commit, invalidate,
  move, load, Step, write, drop, begin, choose, hit, query, fly, join, fail, fail_loading, retry,
  check, store, Reach, here, next,
}

-- A snapshot holds what the tables were after some numbers of writes, one for each query, and at least
-- those before its generation.
abbrev Good : World → Snapshot → Type 0
Good w s =
    (s.generation ≤ w.generation)
    × (w.floor s.generation ≤ s.rows_seen)
    × (s.rows_seen ≤ s.groups_seen)
    × (s.groups_seen ≤ w.writes)
    × (s.experiments ≡ list_experiments_between (w.log s.rows_seen) (w.log s.groups_seen))

abbrev IsRight : World → Reader → Type 0
IsRight w idle = Unit
IsRight w (asking b) = b ≤ w.floor w.generation
IsRight w (chose b g) = (g ≤ w.generation) × (b ≤ w.floor g)
IsRight w (loading b g i) = (g ≤ w.generation) × (b ≤ w.floor g) × (w.floor g ≤ i) × (i ≤ w.writes)
IsRight w (got b g s) = (b ≤ w.floor g) × (s.generation ≡ g) × Good w s
IsRight w (checked b g s) = (b ≤ w.floor g) × (s.generation ≡ g) × Good w s
IsRight w (answered b s) = (b ≤ s.rows_seen) × Good w s

record IsConsistent (w : World) : Type 0 where
  bounded : w.floor w.generation ≤ w.writes
  rising : (g : ℕ) → g ≤ w.generation → w.floor g ≤ w.floor w.generation
  cached : (s : Snapshot) → w.snapshot ≡ some s → Good w s
  flown : (g : ℕ) (s : Snapshot) → w.flights g ≡ some s → (s.generation ≡ g) × Good w s
  reading : (r : ℕ) → IsRight w (w.readers r)

-- What a step leaves of the past.
record Later (w v : World) : Type 0 where
  generations : w.generation ≤ v.generation
  floors : (g : ℕ) → g ≤ w.generation → v.floor g ≡ w.floor g
  counts : w.writes ≤ v.writes
  logs : (i : ℕ) → i ≤ w.writes → v.log i ≡ w.log i
  tops : w.floor w.generation ≤ v.floor v.generation

Good-later : (w v : World) (s : Snapshot) → Later w v → Good w s → Good v s
Good-later w v s l (known, after, order, past, right) = (
  omega (arith, l.generations),
  rw (l.floors s.generation known) after,
  order,
  omega (arith, l.counts),
  rw (l.logs s.rows_seen (omega arith), l.logs s.groups_seen past) right,
)

IsRight-later : (w v : World) (r : Reader) → Later w v → IsRight w r → IsRight v r
IsRight-later w v idle l h = tt
IsRight-later w v (asking b) l h = omega (arith, l.tops)
IsRight-later w v (chose b g) l (k, h) = (omega (arith, l.generations), rw (l.floors g k) h)
IsRight-later w v (loading b g i) l (k, h, low, high) = (
  omega (arith, l.generations),
  rw (l.floors g k) h,
  rw (l.floors g k) low,
  omega (arith, l.counts),
)
IsRight-later w v (got b g s) l (h, e, good) =
    (rw (l.floors g (rw (sym e) good.0)) h, e, Good-later w v s l good)
IsRight-later w v (checked b g s) l (h, e, good) =
    (rw (l.floors g (rw (sym e) good.0)) h, e, Good-later w v s l good)
IsRight-later w v (answered b s) l (h, good) = (h, Good-later w v s l good)

all-update {ℓ κ} :
    {V : Type ℓ} (P : V → Type κ) (k j : ℕ) (v : V) (f : ℕ → V) → P v → P (f j) → P (update k v f j)
all-update P k j v f h hs = if-both P (nat_eq.beq j k) (λ e. h) (λ e. hs)

same :
    (w v : World)
    → ((i : ℕ) → v.log i ≡ w.log i)
    → ((g : ℕ) → v.floor g ≡ w.floor g)
    → v.generation ≡ w.generation
    → v.writes ≡ w.writes
    → Later w v
same w v logs floors gens writes = record {
  generations = omega arith;
  floors = λ g h. floors g;
  counts = omega arith;
  logs = λ i h. logs i;
  tops = rw (gens, floors w.generation) (le_refl (w.floor w.generation));
}
  where
    le_refl : (n : ℕ) → n ≤ n
    le_refl n = omega arith

-- A reader moves, and nothing else changes.
move-IsConsistent :
    (w : World) (r : ℕ) (x : Reader) → IsRight w x → IsConsistent w → IsConsistent (move r x w)
move-IsConsistent w r x h c = record {
  bounded = c.bounded;
  rising = c.rising;
  cached = c.cached;
  flown = c.flown;
  reading = λ j.
      all-update (IsRight (move r x w)) r j x w.readers
        (IsRight-later w (move r x w) x (same w (move r x w) (λ i. refl) (λ g. refl) refl refl) h)
        (IsRight-later w (move r x w) (w.readers j)
          (same w (move r x w) (λ i. refl) (λ g. refl) refl refl) (c.reading j));
}

commit-Later : (db : Db) (w : World) → Later w (commit db w)
commit-Later db w = record {
  generations = omega arith;
  floors = λ g h. refl;
  counts = omega arith;
  logs = λ i h. update_ne (suc w.writes) i db w.log (λ e. absurd (omega arith));
  tops = omega arith;
}

invalidate-Later : (w : World) → IsConsistent w → Later w (invalidate w)
invalidate-Later w c = record {
  generations = omega arith;
  floors = λ g h. update_ne (suc w.generation) g w.writes w.floor (λ e. absurd (omega arith));
  counts = omega arith;
  logs = λ i h. refl;
  tops = rw (update_self (suc w.generation) w.writes w.floor) c.bounded;
}

later-cached :
    (w v : World) → Later w v → IsConsistent w → (s : Snapshot) → w.snapshot ≡ some s → Good v s
later-cached w v l c s e = Good-later w v s l (c.cached s e)

later-flown :
    (w v : World)
    → Later w v
    → IsConsistent w
    → (g : ℕ) (s : Snapshot) → w.flights g ≡ some s
    → (s.generation ≡ g) × Good v s
later-flown w v l c g s e = ((c.flown g s e).0, Good-later w v s l (c.flown g s e).1)

commit-IsConsistent : (db : Db) (w : World) → IsConsistent w → IsConsistent (commit db w)
commit-IsConsistent db w c =
    let l = commit-Later db w in
    record {
      bounded = omega (arith, c.bounded);
      rising = c.rising;
      cached = later-cached w (commit db w) l c;
      flown = later-flown w (commit db w) l c;
      reading = λ r. IsRight-later w (commit db w) (w.readers r) l (c.reading r);
    }

invalidate-IsConsistent : (w : World) → IsConsistent w → IsConsistent (invalidate w)
invalidate-IsConsistent w c =
    let l = invalidate-Later w c in
    record {
      bounded = rw (update_self (suc w.generation) w.writes w.floor) (omega arith);
      rising = λ g h. ground (arith, c.bounded, c.rising g);
      cached = λ s e. cc e;
      flown = later-flown w (invalidate w) l c;
      reading = λ r. IsRight-later w (invalidate w) (w.readers r) l (c.reading r);
    }

load-Good : (w : World) (b g i now : ℕ) → IsRight w (loading b g i) → Good w (load g i now w)
load-Good w b g i now (h, before, low, high) = (h, low, high, omega arith, refl)

flights-IsConsistent :
    (w : World) (g : ℕ) (s : Snapshot)
    → s.generation ≡ g
    → Good w s
    → IsConsistent w
    → IsConsistent (record w { flights = update g (some s) w.flights })
flights-IsConsistent w g s e good c = record {
  bounded = c.bounded;
  rising = c.rising;
  cached = c.cached;
  flown = λ h t p. elim (Bool-cases (nat_eq.beq h g)) [
    | inl q ↦ rw (sym (some_injective (rw q at p))) (e ∙ sym ((nat_eq.beq_iff h g).0 q), good)
    | inr q ↦ c.flown h t (rw q at p)
  ];
  reading = λ r.
      IsRight-later w (record w { flights = update g (some s) w.flights }) (w.readers r)
        (same w (record w { flights = update g (some s) w.flights }) (λ i. refl) (λ g. refl) refl
          refl)
        (c.reading r);
}

snapshot-IsConsistent :
    (w : World) (s : Snapshot)
    → Good w s
    → IsConsistent w
    → IsConsistent (record w { snapshot = some s })
snapshot-IsConsistent w s good c = record {
  bounded = c.bounded;
  rising = c.rising;
  cached = λ t e. rw (sym (some_injective e)) good;
  flown = c.flown;
  reading = λ r.
      IsRight-later w (record w { snapshot = some s }) (w.readers r)
        (same w (record w { snapshot = some s }) (λ i. refl) (λ g. refl) refl refl) (c.reading r);
}

-- What holds of a reader whose state is known.
state : (w : World) (r : ℕ) {x : Reader} → w.readers r ≡ x → IsConsistent w → IsRight w x
state w r e c = rw (sym e) (c.reading r)

Step-IsConsistent : {ttl : ℕ} {w v : World} → Step ttl w v → IsConsistent w → IsConsistent v
Step-IsConsistent (write w db) c = commit-IsConsistent db w c
Step-IsConsistent (drop w) c = invalidate-IsConsistent w c
Step-IsConsistent (begin w r) c = move-IsConsistent w r _ (omega arith) c
Step-IsConsistent (choose w r b e) c = move-IsConsistent w r _ (omega arith, state w r e c) c
Step-IsConsistent (hit w r b g now s e p q fresh) c =
    let good = c.cached s p in
    let h = state w r e c in
    move-IsConsistent w r _ (omega (arith, h.1, good.1, ap w.floor q), good) c
Step-IsConsistent (query w r b g e) c =
    let h = state w r e c in
    move-IsConsistent w r _ (h.0, h.1, omega (arith, c.bounded, c.rising g h.0), omega arith) c
Step-IsConsistent (fly w r b g i now e) c =
    let h = state w r e c in
    let good = load-Good w b g i now h in
    move-IsConsistent _ r _ (h.1, refl, good)
      (flights-IsConsistent w g (load g i now w) refl good c)
Step-IsConsistent (join w r b g s e p) c =
    let h = state w r e c in move-IsConsistent w r _ (h.1, (c.flown g s p).0, (c.flown g s p).1) c
Step-IsConsistent (fail w r b g e) c = move-IsConsistent w r idle tt c
Step-IsConsistent (fail_loading w r b g i e) c = move-IsConsistent w r idle tt c
Step-IsConsistent (retry w r b g s e n) c =
    let h = state w r e c in
    move-IsConsistent w r _ (omega (arith, h.0, c.rising g (omega (arith, h.1, h.2.0)))) c
Step-IsConsistent (check w r b g s e n) c = move-IsConsistent w r _ (state w r e c) c
Step-IsConsistent (store w r b g s e) c =
    let h = state w r e c in
    move-IsConsistent _ r _ (omega (arith, h.0, h.2.1, ap w.floor h.1), h.2)
      (snapshot-IsConsistent w s h.2 c)

Reach-IsConsistent : {ttl : ℕ} {w : World} → Reach ttl w → IsConsistent w
Reach-IsConsistent here = record {
  bounded = omega arith;
  rising = λ g h. omega arith;
  cached = λ s e. cc e;
  flown = λ g s e. cc e;
  reading = λ r. tt;
}
Reach-IsConsistent (next h s) = Step-IsConsistent s (Reach-IsConsistent h)

-- However the evaluations of a process interleave with its writes and those of others, the experiments
-- that an evaluation ends up with were read, first their rows and then their groups, when every
-- write was committed whose local invalidation had finished before the evaluation began.
pub evaluations_see_answered_writes :
    (ttl : ℕ) (w : World) (r b : ℕ) (s : Snapshot)
    → Reach ttl w
    → w.readers r ≡ answered b s
    → (b ≤ s.rows_seen)
      × (s.rows_seen ≤ s.groups_seen)
      × (s.groups_seen ≤ w.writes)
      × (s.experiments ≡ list_experiments_between (w.log s.rows_seen) (w.log s.groups_seen))
evaluations_see_answered_writes ttl w r b s h e =
    let found = state w r e (Reach-IsConsistent h) in (found.0, found.1.2, found.1.3, found.1.4)
