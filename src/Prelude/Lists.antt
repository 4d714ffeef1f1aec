-- ===== src/Prelude/Lists.antt =====
-- Lists measured by native numbers, and predicates over lists by recursion.
use Prim.Native.Nat.{ℕ, zero, suc, ◌+◌}
use mathlib.Core.Path.{◌≡◌, refl, sym}
use mathlib.Core.Bool.{Bool, true, false, ◌||◌}
use mathlib.Core.Option.{Option, none, some}
use mathlib.Core.List.{List, [], ◌∷◌, ◌++◌}
use native.Mathlib.Omega.{arith}
use mathlib.Core.Logic.{inl, inr}
use betterfly.Prelude.Tests.{if◌then◌else◌, Bool-cases}

module _ {ℓ} {A : Type ℓ} where
  abbrev pub length : List A → ℕ
  length [] = 0
  length (x ∷ xs) = suc (length xs)

  abbrev pub take : ℕ → List A → List A
  take zero xs = []
  take (suc n) [] = []
  take (suc n) (x ∷ xs) = x ∷ take n xs

  abbrev pub is_empty : List A → Bool
  is_empty [] = true
  is_empty (x ∷ xs) = false

  pub length-append : (xs ys : List A) → length (xs ++ ys) ≡ length xs + length ys
  length-append [] ys = omega arith
  length-append (x ∷ xs) ys = omega (arith, length-append xs ys)

  -- The rows of a list that pass a test, and the first of them.
  abbrev pub select : (A → Bool) → List A → List A
  select p [] = []
  select p (x ∷ xs) = let rest = select p xs in if p x then x ∷ rest else rest

  abbrev pub first : (A → Bool) → List A → Option A
  first p [] = none
  first p (x ∷ xs) = let rest = first p xs in if p x then some x else rest

  -- The rows that pass a test, changed by a function.
  abbrev pub modify_where : (A → Bool) → (A → A) → List A → List A
  modify_where p f [] = []
  modify_where p f (x ∷ xs) = (if p x then f x else x) ∷ modify_where p f xs

  abbrev pub any : (A → Bool) → List A → Bool
  any p [] = false
  any p (x ∷ xs) = p x || any p xs

-- A predicate by recursion computes to tuples, which the tactics read and build.
abbrev pub All {ℓ κ} : {A : Type ℓ} → (A → Type κ) → List A → Type κ
All P [] = Unit
All P (x ∷ xs) = P x × All P xs

pub All-append {ℓ κ} :
    {A : Type ℓ} (P : A → Type κ) (xs ys : List A) → All P xs → All P ys → All P (xs ++ ys)
All-append P [] ys h k = k
All-append P (x ∷ xs) ys (h, hs) k = (h, All-append P xs ys hs k)

module _ {ℓ κ μ} {A : Type ℓ} (P : A → Type κ) (Q : A → Type μ) where
  pub All-select :
      (p : A → Bool) (xs : List A)
      → ((x : A) → p x ≡ true → P x → Q x)
      → All P xs
      → All Q (select p xs)
  All-select p [] f h = tt
  All-select p (x ∷ xs) f (h, hs) = elim (Bool-cases (p x)) [
    | inl e ↦ rw e (f x e h, All-select p xs f hs)
    | inr e ↦ rw e (All-select p xs f hs)
  ]

  pub All-modify_where :
      (p : A → Bool) (f : A → A) (xs : List A)
      → ((x : A) → p x ≡ true → P x → Q (f x))
      → ((x : A) → p x ≡ false → P x → Q x)
      → All P xs
      → All Q (modify_where p f xs)
  All-modify_where p f [] g k h = tt
  All-modify_where p f (x ∷ xs) g k (h, hs) = elim (Bool-cases (p x)) [
    | inl e ↦ rw e (g x e h, All-modify_where p f xs g k hs)
    | inr e ↦ rw e (k x e h, All-modify_where p f xs g k hs)
  ]

  pub All-map : (xs : List A) → ((x : A) → P x → Q x) → All P xs → All Q xs
  All-map [] f h = tt
  All-map (x ∷ xs) f (h, hs) = (f x h, All-map xs f hs)

module _ {ℓ} {A : Type ℓ} where
  pub any-append : (p : A → Bool) (gs hs : List A) → any p gs ≡ true → any p (gs ++ hs) ≡ true
  any-append p [] hs h = cc h
  any-append p (g ∷ gs) hs h = elim (Bool-cases (p g)) [
    | inl e ↦ rw e refl
    | inr e ↦ rw e (any-append p gs hs (rw e at h))
  ]

  pub any-modify_where :
      (p q : A → Bool) (f : A → A) (gs : List A)
      → ((g : A) → p (f g) ≡ p g)
      → any p (modify_where q f gs) ≡ any p gs
  any-modify_where p q f [] h = refl
  any-modify_where p q f (g ∷ gs) h = elim (Bool-cases (q g)) [
    | inl e ↦ rw (e, h g, any-modify_where p q f gs h) refl
    | inr e ↦ rw (e, any-modify_where p q f gs h) refl
  ]

  pub first-All {κ} :
      (P : A → Type κ) (p : A → Bool) (x : A) (xs : List A)
      → first p xs ≡ some x
      → All P xs
      → P x × (p x ≡ true)
  first-All P p x [] e h = cc e
  first-All P p x (y ∷ ys) e (h, hs) = elim (Bool-cases (p y)) [
    | inl q ↦ let y≡x : y ≡ x = cc (rw q at e) in (rw (sym y≡x) h, rw (sym y≡x) q)
    | inr q ↦ first-All P p x ys (rw q at e) hs
  ]

  pub any-first : (p : A → Bool) (xs : List A) → any p xs ≡ true → (x : A) × (first p xs ≡ some x)
  any-first p [] e = cc e
  any-first p (x ∷ xs) e = elim (Bool-cases (p x)) [
    | inl q ↦ rw q (x, refl)
    | inr q ↦ rw q (any-first p xs (rw q at e))
  ]

pub All-both {ℓ κ μ} :
    {A : Type ℓ} (P : A → Type κ) (Q : A → Type μ) (xs : List A)
    → All P xs
    → All Q xs
    → All (λ x. P x × Q x) xs
All-both P Q [] h k = tt
All-both P Q (x ∷ xs) (h, hs) (k, ks) = ((h, k), All-both P Q xs hs ks)
