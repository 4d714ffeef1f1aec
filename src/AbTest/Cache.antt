-- ===== src/AbTest/Cache.antt =====
-- The cache of snapshots that concurrent evaluations share, beside the writes that drop it:
-- `evaluationSnapshot`, `invalidateLocal` and `newService` of
-- services/abTestService/internal/abtest/evaluator.go.
pub mod Freshness
use betterfly.Prelude.{
  ℕ, ◌+◌, ◌-◌, ◌≤◌, ◌<◌, suc, ℤ, pos, negsuc, ◌≡◌, ◌≢◌, Bool, true, Option, none, some, List,
  update, nat_eq, ltb, leb, is_positive, if◌then◌else◌, ◌||◌, not, arith,
}
use betterfly.AbTest.Types.{Experiment}
use betterfly.AbTest.Store.{Db, empty_db, list_experiments_between}

-- `evaluationCacheTTL`, from ABTEST_CACHE_MAX_STALENESS as parsed.
abbrev pub evaluation_cache_ttl : Option ℤ → ℕ
evaluation_cache_ttl none = 5_000_000_000
evaluation_cache_ttl (some (pos n)) = if leb n 0 || ltb 5_000_000_000 n then 5_000_000_000 else n
evaluation_cache_ttl (some (negsuc n)) = 5_000_000_000

abbrev positive_or : ℤ → ℕ → ℕ
positive_or (pos n) other = if leb n 0 then other else n
positive_or (negsuc n) other = other

abbrev at_most : ℕ → ℕ → ℕ
at_most bound n = if ltb bound n then bound else n

-- `newService`: how long a snapshot and a subject's overrides are kept.
unfoldable pub new_service : ℤ → Option ℤ → ℕ × ℕ
new_service asked env =
    let cache_ttl = at_most 5_000_000_000 (positive_or asked (evaluation_cache_ttl env)) in
    (cache_ttl, at_most cache_ttl 3_000_000_000)

-- `evaluationSnapshot`, with the numbers of writes that were committed when the rows of the experiments
-- were read, and when their groups were.
pub record Snapshot : Type 0 where
  pub experiments : List Experiment
  pub loaded_at : ℕ
  pub generation : ℕ
  pub rows_seen : ℕ
  pub groups_seen : ℕ

-- An evaluation on its way through the loop of `evaluationSnapshot`: each state but the first
-- has the number of writes that were answered when the evaluation began; one that loads has also
-- the number of writes at its first query.
pub data Reader : Type 0 where
  idle : Reader
  asking : ℕ → Reader
  chose : ℕ → ℕ → Reader
  loading : ℕ → ℕ → ℕ → Reader
  got checked : ℕ → ℕ → Snapshot → Reader
  answered : ℕ → Snapshot → Reader

-- The tables after each number of writes, and the service: `floor` is the number of writes at the
-- start of a generation; a flight is the load that the evaluations of a generation share.
pub record World : Type 0 where
  pub log : ℕ → Db
  pub writes : ℕ
  pub floor : ℕ → ℕ
  pub generation : ℕ
  pub snapshot : Option Snapshot
  pub flights : ℕ → Option Snapshot
  pub readers : ℕ → Reader

abbrev pub started : World
started = record {
  log = λ i. empty_db;
  writes = 0;
  floor = λ g. 0;
  generation = 0;
  snapshot = none;
  flights = λ g. none;
  readers = λ r. idle;
}

-- A write to the tables, by this process or another.
abbrev pub commit : Db → World → World
commit db w = record w { log = update (suc w.writes) db w.log; writes = suc w.writes }

-- `invalidateLocal`, after which the write is answered.
abbrev pub invalidate : World → World
invalidate w = record w {
  floor = update (suc w.generation) w.writes w.floor;
  generation = suc w.generation;
  snapshot = none;
}

abbrev pub move : ℕ → Reader → World → World
move r reader w = record w { readers = update r reader w.readers }

-- What `ListEvaluationExperiments` loads for a generation, whose first query was made after a number of
-- writes and whose second is made now.
abbrev pub load : ℕ → ℕ → ℕ → World → Snapshot
load g i now w = record {
  experiments = list_experiments_between (w.log i) (w.log w.writes);
  loaded_at = now;
  generation = g;
  rows_seen = i;
  groups_seen = w.writes;
}

-- `now.Sub(current.loadedAt) < s.cacheTTL`.
abbrev pub is_fresh : ℕ → ℕ → Snapshot → Bool
is_fresh ttl now s = ltb now (s.loaded_at + ttl)

-- The steps of the writers and of the evaluations, in any order.
pub data Step (ttl : ℕ) : World → World → Type 0 where
  write : (w : World) (db : Db) → Step ttl w (commit db w)
  drop : (w : World) → Step ttl w (invalidate w)
  begin : (w : World) (r : ℕ) → Step ttl w (move r (asking (w.floor w.generation)) w)
  choose :
      (w : World) (r b : ℕ) → w.readers r ≡ asking b → Step ttl w (move r (chose b w.generation) w)
  hit :
      (w : World) (r b g now : ℕ) (s : Snapshot)
      → w.readers r ≡ chose b g
      → w.snapshot ≡ some s
      → s.generation ≡ g
      → is_fresh ttl now s ≡ true
      → Step ttl w (move r (answered b s) w)
  query :
      (w : World) (r b g : ℕ)
      → w.readers r ≡ chose b g
      → Step ttl w (move r (loading b g w.writes) w)
  fly :
      (w : World) (r b g i now : ℕ)
      → w.readers r ≡ loading b g i
      → Step ttl w (
          move r
            (got b g (load g i now w))
            (record w { flights = update g (some (load g i now w)) w.flights }))
  join :
      (w : World) (r b g : ℕ) (s : Snapshot)
      → w.readers r ≡ chose b g
      → w.flights g ≡ some s
      → Step ttl w (move r (got b g s) w)
  fail : (w : World) (r b g : ℕ) → w.readers r ≡ chose b g → Step ttl w (move r idle w)
  fail_loading :
      (w : World) (r b g i : ℕ) → w.readers r ≡ loading b g i → Step ttl w (move r idle w)
  retry :
      (w : World) (r b g : ℕ) (s : Snapshot)
      → w.readers r ≡ got b g s
      → g ≢ w.generation
      → Step ttl w (move r (asking b) w)
  check :
      (w : World) (r b g : ℕ) (s : Snapshot)
      → w.readers r ≡ got b g s
      → g ≡ w.generation
      → Step ttl w (move r (checked b g s) w)
  store :
      (w : World) (r b g : ℕ) (s : Snapshot)
      → w.readers r ≡ checked b g s
      → Step ttl w (move r (answered b s) (record w { snapshot = some s }))

pub data Reach (ttl : ℕ) : World → Type 0 where
  here : Reach ttl started
  next : {w v : World} → Reach ttl w → Step ttl w v → Reach ttl v

evaluation_cache_ttl_positive : (env : Option ℤ) → 0 < evaluation_cache_ttl env
evaluation_cache_ttl_positive none = omega arith
evaluation_cache_ttl_positive (some (pos n)) = ground arith
evaluation_cache_ttl_positive (some (negsuc n)) = omega arith

positive_or_positive : (asked : ℤ) (other : ℕ) → 0 < other → 0 < positive_or asked other
positive_or_positive (pos n) other h = ground arith
positive_or_positive (negsuc n) other h = h

at_most_bounds :
    (bound n : ℕ)
    → 0 < bound
    → 0 < n
    → (0 < at_most bound n) × (at_most bound n ≤ bound) × (at_most bound n ≤ n)
at_most_bounds bound n h k = ground arith

-- A snapshot is kept for more than no time and at most five seconds, whatever is configured, and a
-- subject's overrides for no longer than that, and for at most three seconds.
pub cache_ttl_bounds :
    (asked : ℤ) (env : Option ℤ)
    → (0 < (new_service asked env).0)
      × ((new_service asked env).0 ≤ 5_000_000_000)
      × (0 < (new_service asked env).1)
      × ((new_service asked env).1 ≤ (new_service asked env).0)
      × ((new_service asked env).1 ≤ 3_000_000_000)
unfolding new_service
cache_ttl_bounds asked env =
    let ttl = positive_or asked (evaluation_cache_ttl env) in
    let outer =
      at_most_bounds 5_000_000_000 ttl (omega arith) (
        positive_or_positive asked (evaluation_cache_ttl env)
          (evaluation_cache_ttl_positive env)) in
    let inner = at_most_bounds (at_most 5_000_000_000 ttl) 3_000_000_000 outer.0 (omega arith) in
    (outer.0, outer.1, inner.0, inner.1, inner.2)
