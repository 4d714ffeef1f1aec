-- ===== src/Call/Keeps.antt =====
-- A property of the world that an action keeps, with a rule for each way to build an action: the
-- handlers are then followed by `search`.
use betterfly.Prelude.{
  ◌≡◌, refl, String, ℤ, Bool, true, false, arith, Bool-cases, inl, inr, string_eq, if◌then◌else◌,
}
use betterfly.Call.Types.{CallError, Result, ok, err}
use betterfly.Call.World.{
  World, Command, Env, Action, pure, raise, gets, lift, continue, ◌>>=◌, ◌>>◌, refuse_if, attempt,
  unless_offline,
}
use betterfly.Call.Store.{command, operation_completed, find_session, user_topic}

-- An action that only reads.
pub record Reads {A : Type 0} (m : Action A) : Type 0 where
  pub same : (w : World) → (m w).1 ≡ w

Reads-command :
    {A : Type 0} (env : Env) (c : Command) (m : Action A) → Reads m → Reads (command env c m)
Reads-command env c m r = record {
  same = λ w. elim (Bool-cases (env.fails c)) [
    | inl e ↦ rw e
    | inr e ↦ elim (Bool-cases (env.loses c)) [
      | inl l ↦ rw (e, l) (r.same w)
      | inr l ↦ rw (e, l) (r.same w)
    ]
  ];
}

pub Reads-find_session : (env : Env) (id : String) → Reads (find_session env id)
unfolding find_session
Reads-find_session env id = Reads-command env _ _ (record { same = λ w. ground arith })

pub Reads-user_topic : (env : Env) (user : ℤ) → Reads (user_topic env user)
unfolding user_topic
Reads-user_topic env user = Reads-command env _ _ (record { same = λ w. ground arith })

pub Reads-operation_completed : (env : Env) (op : String) → Reads (operation_completed env op)
unfolding operation_completed
Reads-operation_completed env op = Reads-command env _ _ (record { same = λ w. refl })

pub ruleset reads = (Reads-find_session, Reads-user_topic, Reads-operation_completed)

module _ (P : World → Type 0) where
  pub record Keeps {A : Type 0} (m : Action A) : Type 0 where
    pub keep : (w : World) → P w → P (m w).1

module _ {P : World → Type 0} {A : Type 0} where
  pub Keeps-Reads : {m : Action A} → Reads m → Keeps P m
  Keeps-Reads r = record { keep = λ w h. rw (r.same w) h }

  pub Keeps-pure : (a : A) → Keeps P (pure a)
  unfolding pure
  Keeps-pure a = record { keep = λ w h. h }

  pub Keeps-raise : (e : CallError) → Keeps P (raise {A = A} e)
  unfolding raise
  Keeps-raise e = record { keep = λ w h. h }

  pub Keeps-gets : (f : World → A) → Keeps P (gets f)
  unfolding gets
  Keeps-gets f = record { keep = λ w h. h }

  pub Keeps-lift : (r : Result A) → Keeps P (lift r)
  unfolding lift
  Keeps-lift r = record { keep = λ w h. h }

  pub Keeps-attempt : {m : Action A} → Keeps P m → Keeps P (attempt m)
  unfolding attempt
  Keeps-attempt k = record { keep = λ w h. k.keep w h }

  pub Keeps-unless_offline : {m : Action A} → Keeps P m → Keeps P (unless_offline m)
  unfolding unless_offline
  Keeps-unless_offline k = record { keep = λ w h. k.keep w h }

  pub Keeps-command :
      (env : Env) (c : Command) {m : Action A} → Keeps P m → Keeps P (command env c m)
  Keeps-command env c k = record {
    keep = λ w h. elim (Bool-cases (env.fails c)) [
      | inl e ↦ rw e h
      | inr e ↦ elim (Bool-cases (env.loses c)) [
        | inl l ↦ rw (e, l) (k.keep w h)
        | inr l ↦ rw (e, l) (k.keep w h)
      ]
    ];
  }

  pub Keeps-if :
      (b : Bool) {m n : Action A}
      → (b ≡ true → Keeps P m)
      → (b ≡ false → Keeps P n)
      → Keeps P (if b then m else n)
  Keeps-if true k l = k refl
  Keeps-if false k l = l refl

module _ {P : World → Type 0} {A B : Type 0} where
  keep-continue :
      (r : Result A) (f : A → Action B) (w : World)
      → ((a : A) → Keeps P (f a))
      → P w
      → P (continue r f w).1
  keep-continue (ok a) f w k h = (k a).keep w h
  keep-continue (err e) f w k h = h

  pub Keeps->>= :
      {m : Action A} {f : A → Action B} → Keeps P m → ((a : A) → Keeps P (f a)) → Keeps P (m >>= f)
  unfolding ◌>>=◌
  Keeps->>= {m} {f} k l = record { keep = λ w h. keep-continue (m w).0 f (m w).1 l (k.keep w h) }

  -- What follows a call may suppose that its value was returned.
  pub Keeps-returned :
      (m : Action A) (f : A → Action B)
      → Keeps P m
      → ((a : A) (w : World) → (m w).0 ≡ ok a → Keeps P (f a))
      → Keeps P (m >>= f)
  unfolding ◌>>=◌
  Keeps-returned m f k l = record { keep = λ w h. go (m w).0 w refl (k.keep w h) }
    where
      go : (r : Result A) (w : World) → (m w).0 ≡ r → P (m w).1 → P (continue r f (m w).1).1
      go (ok a) w e h = (l a w e).keep (m w).1 h
      go (err c) w e h = h

module _ {P : World → Type 0} {B : Type 0} where
  -- What follows a guard may suppose that it passed.
  pub Keeps-refuse_if :
      (bad : Bool) (e : CallError) {m : Action B}
      → (bad ≡ false → Keeps P m)
      → Keeps P (refuse_if bad e >> m)
  unfolding ◌>>=◌
  Keeps-refuse_if true e k = record { keep = λ w h. h }
  Keeps-refuse_if false e k = k refl

pub ruleset keeps = (
  Keeps-Reads, Keeps-pure, Keeps-raise, Keeps-gets, Keeps-lift, Keeps-attempt, Keeps-unless_offline,
  Keeps->>=, Keeps-refuse_if, Keeps-if, reads,
)
