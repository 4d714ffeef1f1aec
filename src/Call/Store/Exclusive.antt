-- ===== src/Call/Store/Exclusive.antt =====
-- An active call holds the locks of both its users: the invariant of the store, and its
-- preservation by the two scripts and by time.
use betterfly.Prelude.{
  ℕ, ℤ, String, ◌+◌, ◌*◌, ◌≡◌, refl, ◌≢◌, sym, inl, inr, Bool, true, false, Option, some, List,
  arith, ltb, int_eq, string_eq, nat_eq, Bool-cases, ◌/◌,
}
use betterfly.Call.Types.{CallState, ringing, active, Session, PendingEvent}
use betterfly.Call.World.{Timed, World, Env, exists}
use betterfly.Call.Store.{
  millisecond, transition_ttl, is_held, created, transitioned, run_create, run_transition,
}
use betterfly.Call.Store.Outcomes.{run_create-cases, run_transition-cases, TransitionGuards}
use betterfly.Call.Store.Locks.{
  Locks, holds-owner, Locks-update_free, Locks-release_both, Locks-expire_both,
  Locks-expire_both_first, Locks-expire_both_second,
}

-- What the store keeps of one session: it stands under its own id, and while it is active and has
-- not expired, its users' keys name it for at least as long.
pub record IsKept (now : ℕ) (calls : ℤ → Option (Timed String)) (id : String) (t : Timed Session)
    : Type 0 where
  pub keyed : t.value.id ≡ id
  pub caller_locked :
      t.value.state ≡ active
      → ltb now t.expires_at ≡ true
      → Locks (calls t.value.caller) id t.expires_at
  pub callee_locked :
      t.value.state ≡ active
      → ltb now t.expires_at ≡ true
      → Locks (calls t.value.callee) id t.expires_at

abbrev pub IsExclusive : World → Type 0
IsExclusive w =
    (id : String) (t : Timed Session) → w.sessions id ≡ some t → IsKept w.clock w.user_calls id t

some-value : {V : Type 0} {a b : Timed V} → some a ≡ some b → a.value ≡ b.value
some-value e = ground arith

not-both : {x : CallState} → x ≡ ringing → x ≡ active → ⊥
not-both r a = cc

-- The new session is ringing, so it needs no lock; its keys were free, so no lock is lost.
created-IsExclusive :
    (env : Env) (s : Session) (op : String) (events : List PendingEvent) (w : World)
    → s.state ≡ ringing
    → exists w.clock (w.user_calls s.caller) ≡ false
    → exists w.clock (w.user_calls s.callee) ≡ false
    → IsExclusive w
    → IsExclusive (created env s op events w)
unfolding created
created-IsExclusive env s op events w r free₁ free₂ v id t e =
    elim (Bool-cases (string_eq.beq id s.id)) [
      | inl p ↦
          let new : s ≡ t.value = some-value (rw p at e) in
          record {
            keyed = rw (← new) (sym ((string_eq.beq_iff id s.id).0 p));
            caller_locked = λ a l. absurd (not-both r (rw (← new) at a));
            callee_locked = λ a l. absurd (not-both r (rw (← new) at a));
          }
      | inr p ↦
          let old = v id t (rw p at e) in
          record {
            keyed = old.keyed;
            caller_locked = λ a l.
                Locks-update_free w.clock w.user_calls t.value.caller id t.expires_at s.caller
                  s.callee _ free₁ free₂ l (old.caller_locked a l);
            callee_locked = λ a l.
                Locks-update_free w.clock w.user_calls t.value.callee id t.expires_at s.caller
                  s.callee _ free₁ free₂ l (old.callee_locked a l);
          }
    ]

pub run_create-IsExclusive :
    (env : Env) (s : Session) (op : String) (events : List PendingEvent) (w : World)
    → s.state ≡ ringing
    → IsExclusive w
    → IsExclusive (run_create env s op events w).1
run_create-IsExclusive env s op events w r v = elim (run_create-cases env s op events w) [
  | inl same ↦ rw same.1 v
  | inr (guards, e) ↦
      rw e (created-IsExclusive env s op events w r guards.caller_free guards.callee_free v)
]

-- A terminal transition leaves a session that is not active, and releases only its own locks;
-- another one has found both keys in its own call's hands, and gives them its session's expiry.
module _ (env : Env) (s : Session) (op : String) (events : List PendingEvent) (w : World) where
  abbrev ttl : ℕ
  ttl = transition_ttl env s.state s.ring_deadline w.clock

  keeps_other :
      (terminal : Bool) (id : String) (t : Timed Session)
      → (terminal ≡ false → is_held w s.caller s.id ≡ true)
      → (terminal ≡ false → is_held w s.callee s.id ≡ true)
      → id ≢ s.id
      → IsKept w.clock w.user_calls id t
      → IsKept w.clock (transitioned env s terminal op events w).user_calls id t
  unfolding transitioned
  keeps_other true id t _ _ ne k = record {
    keyed = k.keyed;
    caller_locked = λ a l.
        Locks-release_both w.clock w.user_calls s.caller s.callee t.value.caller id t.expires_at
          s.id ne (k.caller_locked a l);
    callee_locked = λ a l.
        Locks-release_both w.clock w.user_calls s.caller s.callee t.value.callee id t.expires_at
          s.id ne (k.callee_locked a l);
  }
  keeps_other false id t h₁ h₂ ne k =
      let o₁ = holds-owner (w.user_calls s.caller) s.id w.clock (h₁ refl) in
      let o₂ = holds-owner (w.user_calls s.callee) s.id w.clock (h₂ refl) in
      record {
        keyed = k.keyed;
        caller_locked = λ a l.
            Locks-expire_both w.clock w.user_calls s.caller s.callee ttl t.value.caller id
              t.expires_at o₁ o₂ ne (k.caller_locked a l);
        callee_locked = λ a l.
            Locks-expire_both w.clock w.user_calls s.caller s.callee ttl t.value.callee id
              t.expires_at o₁ o₂ ne (k.callee_locked a l);
      }

  keeps_own :
      (terminal : Bool)
      → (s.state ≡ active → terminal ≡ false)
      → (terminal ≡ false → is_held w s.caller s.id ≡ true)
      → (terminal ≡ false → is_held w s.callee s.id ≡ true)
      → IsKept w.clock
          (transitioned env s terminal op events w).user_calls
          s.id
          (record { value = s; expires_at = w.clock + ttl / millisecond * millisecond })
  unfolding transitioned
  keeps_own true closes _ _ = record {
    keyed = refl;
    caller_locked = λ a l. absurd (cc (closes a));
    callee_locked = λ a l. absurd (cc (closes a));
  }
  keeps_own false closes h₁ h₂ = record {
    keyed = refl;
    caller_locked = λ a l.
        Locks-expire_both_first w.clock w.user_calls s.caller s.callee ttl s.id
          (holds-owner (w.user_calls s.caller) s.id w.clock (h₁ refl));
    callee_locked = λ a l.
        Locks-expire_both_second w.clock w.user_calls s.caller s.callee ttl s.id
          (holds-owner (w.user_calls s.callee) s.id w.clock (h₂ refl));
  }

some-eq : {V : Type 0} {a b : V} → some a ≡ some b → a ≡ b
some-eq e = cc

module _ (env : Env) (expected s : Session) (terminal : Bool) (op : String)
    (events : List PendingEvent) (w : World) where
  transitioned-IsExclusive :
      (s.state ≡ active → terminal ≡ false)
      → TransitionGuards env expected s terminal op w
      → IsExclusive w
      → IsExclusive (transitioned env s terminal op events w)
  unfolding transitioned
  transitioned-IsExclusive closes guards v id t e = elim (Bool-cases (string_eq.beq id s.id)) [
    | inl p ↦ rw ((string_eq.beq_iff id s.id).0 p) (
        rw (← some-eq (rw p at e))
          (keeps_own env s op events w terminal closes guards.caller_held guards.callee_held))
    | inr p ↦
        keeps_other env s op events w terminal id t guards.caller_held guards.callee_held
          (λ q. cc ((string_eq.beq_iff id s.id).1 q, p)) (v id t (rw p at e))
  ]

  pub run_transition-IsExclusive :
      (s.state ≡ active → terminal ≡ false)
      → IsExclusive w
      → IsExclusive (run_transition env expected s terminal op events w).1
  run_transition-IsExclusive closes v =
      elim (run_transition-cases env expected s terminal op events w) [
        | inl same ↦ rw same.1 v
        | inr (guards, e) ↦ rw e (transitioned-IsExclusive closes guards v)
      ]

-- As time passes an unexpired session had not expired before.
pub tick-IsExclusive :
    (w : World) (n : ℕ) → IsExclusive w → IsExclusive (record w { clock = w.clock + n })
tick-IsExclusive w n v id t e =
    let k = v id t e in
    record {
      keyed = k.keyed;
      caller_locked = λ a l. k.caller_locked a (ground arith);
      callee_locked = λ a l. k.callee_locked a (ground arith);
    }
