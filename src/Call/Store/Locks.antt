-- ===== src/Call/Store/Locks.antt =====
-- The keys `call:user:` as locks: what the two scripts' writes do to the lock of another call.
use betterfly.Prelude.{
  ℕ, ℤ, String, ◌+◌, ◌*◌, ◌/◌, ◌≤◌, ◌≡◌, refl, ap, ◌∙◌, ◌≢◌, inl, inr, true, false, Option, none,
  some, arith, ltb, ◌==◌, int_eq, int_beq, int_beq_iff, string_eq, update, Bool-cases, Option-cases,
}
use betterfly.Call.World.{Timed, live, exists}
use betterfly.Call.Store.{millisecond, release, expire, holds}

-- A key holds the call until a time at least.
abbrev pub Locks : Option (Timed String) → String → ℕ → Type 0
Locks none id until = ⊥
Locks (some k) id until = (k.value ≡ id) × (until ≤ k.expires_at)

-- The call that a key names, expired or not.
abbrev pub owner : Option (Timed String) → Option String
owner none = none
owner (some k) = some k.value

Locks-exists :
    (o : Option (Timed String)) (id : String) (until now : ℕ)
    → Locks o id until
    → ltb now until ≡ true
    → exists now o ≡ true
Locks-exists none id until now l h = absurd l
Locks-exists (some k) id until now l h = ground arith

pub holds-owner :
    (o : Option (Timed String)) (id : String) (now : ℕ)
    → holds (λ v. v == id) (live now o) ≡ true
    → owner o ≡ some id
holds-owner none id now h = cc
holds-owner (some k) id now h = ground (arith, string_eq.beq_iff k.value id)

module _ (now : ℕ) (f : ℤ → Option (Timed String)) (j : ℤ) (id : String) (until : ℕ) where
  -- A write to keys that are free leaves a lock that is in force.
  pub Locks-update_free :
      (k l : ℤ) (v : Option (Timed String))
      → exists now (f k) ≡ false
      → exists now (f l) ≡ false
      → ltb now until ≡ true
      → Locks (f j) id until
      → Locks (update l v (update k v f) j) id until
  Locks-update_free k l v hk hl ht h =
      let e : exists now (f j) ≡ true = Locks-exists (f j) id until now h ht in
      elim (Bool-cases (int_beq j l)) [
        | inl p ↦ absurd (cc (e, hl, (int_beq_iff j l).0 p))
        | inr p ↦ elim (Bool-cases (int_beq j k)) [
          | inl q ↦ absurd (cc (e, hk, (int_beq_iff j k).0 q))
          | inr q ↦ rw p (rw q h)
        ]
      ]

  -- `release` deletes no lock of another call.
  pub Locks-release :
      (user : ℤ) (other : String)
      → id ≢ other
      → Locks (f j) id until
      → Locks (release now user other f j) id until
  Locks-release user other ne h = elim (Bool-cases (holds (λ v. v == other) (live now (f user)))) [
    | inl held ↦ elim (Bool-cases (int_beq j user)) [
      | inl p ↦ absurd (mine (f j) h (named ((int_beq_iff j user).0 p) held))
      | inr p ↦ rw held (rw p h)
    ]
    | inr free ↦ rw free h
  ]
    where
      named :
          j ≡ user → holds (λ v. v == other) (live now (f user)) ≡ true → owner (f j) ≡ some other
      named p held = rw p (holds-owner (f user) other now held)

      mine : (o : Option (Timed String)) → Locks o id until → owner o ≡ some other → ⊥
      mine none l e = absurd l
      mine (some k) l e = ne (cc (l.0, e))

  -- `expire` on the key of another call leaves a lock.
  pub Locks-expire_other :
      (ttl : ℕ) (user : ℤ) {other : String}
      → owner (f user) ≡ some other
      → id ≢ other
      → Locks (f j) id until
      → Locks (expire now ttl user f j) id until
  Locks-expire_other ttl user {other} o ne h = elim (Option-cases (f user)) [
    | inl e ↦ rw (e, expire) h
    | inr (k, e) ↦ elim (Bool-cases (int_beq j user)) [
      | inl p ↦ absurd (mine (f j) h (rw ((int_beq_iff j user).0 p) o))
      | inr p ↦ rw (e, expire) (rw p h)
    ]
  ]
    where
      mine : (o' : Option (Timed String)) → Locks o' id until → owner o' ≡ some other → ⊥
      mine none l e = absurd l
      mine (some k) l e = ne (cc (l.0, e))

module _ (now ttl : ℕ) (f : ℤ → Option (Timed String)) where
  abbrev end_of : ℕ
  end_of = now + ttl / millisecond * millisecond

  pub owner-expire : (user j : ℤ) → owner (expire now ttl user f j) ≡ owner (f j)
  owner-expire user j = elim (Option-cases (f user)) [
    | inl e ↦ rw (e, expire)
    | inr (k, e) ↦ elim (Bool-cases (int_beq j user)) [
      | inl p ↦ rw (e, expire) (rw p (rw ((int_beq_iff j user).0 p) (rw e)))
      | inr p ↦ rw (e, expire) (rw p)
    ]
  ]

  -- `expire` makes its own call's key a lock until the new expiry.
  pub Locks-expire_self :
      (user : ℤ) (id : String)
      → owner (f user) ≡ some id
      → Locks (expire now ttl user f user) id end_of
  Locks-expire_self user id o = elim (Option-cases (f user)) [
    | inl e ↦ cc
    | inr (k, e) ↦
        rw (e, expire) (rw ((int_beq_iff user user).1 refl) (cc (ap owner e, o), omega arith))
  ]

  pub Locks-expire_kept :
      (user j : ℤ) (id : String) → Locks (f j) id end_of → Locks (expire now ttl user f j) id end_of
  Locks-expire_kept user j id h = elim (Option-cases (f user)) [
    | inl e ↦ rw (e, expire) h
    | inr (k, e) ↦ elim (Bool-cases (int_beq j user)) [
      | inl p ↦ rw (e, expire) (rw p (names (rw ((int_beq_iff j user).0 p) at h) e, omega arith))
      | inr p ↦ rw (e, expire) (rw p h)
    ]
  ]
    where
      names : {k : Timed String} → Locks (f user) id end_of → f user ≡ some k → k.value ≡ id
      names l e = (rw e at l).0

-- The two keys of a call, the caller's `k` and then the callee's `l`.
module _ (now : ℕ) (f : ℤ → Option (Timed String)) (k l : ℤ) where
  pub Locks-release_both :
      (j : ℤ) (id : String) (until : ℕ) (other : String)
      → id ≢ other
      → Locks (f j) id until
      → Locks (release now l other (release now k other f) j) id until
  Locks-release_both j id until other ne h =
      Locks-release now (release now k other f) j id until l other ne
        (Locks-release now f j id until k other ne h)

  pub Locks-expire_both :
      (ttl : ℕ) (j : ℤ) (id : String) (until : ℕ) {other : String}
      → owner (f k) ≡ some other
      → owner (f l) ≡ some other
      → id ≢ other
      → Locks (f j) id until
      → Locks (expire now ttl l (expire now ttl k f) j) id until
  Locks-expire_both ttl j id until ok ol ne h =
      Locks-expire_other now (expire now ttl k f) j id until ttl l (owner-expire now ttl f k l ∙ ol)
        ne (Locks-expire_other now f j id until ttl k ok ne h)

  pub Locks-expire_both_first :
      (ttl : ℕ) (id : String)
      → owner (f k) ≡ some id
      → Locks (expire now ttl l (expire now ttl k f) k) id (end_of now ttl f)
  Locks-expire_both_first ttl id o =
      Locks-expire_kept now ttl (expire now ttl k f) l k id (Locks-expire_self now ttl f k id o)

  pub Locks-expire_both_second :
      (ttl : ℕ) (id : String)
      → owner (f l) ≡ some id
      → Locks (expire now ttl l (expire now ttl k f) l) id (end_of now ttl f)
  Locks-expire_both_second ttl id o =
      Locks-expire_self now ttl (expire now ttl k f) l id (owner-expire now ttl f k l ∙ o)
