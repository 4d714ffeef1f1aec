-- ===== src/AbTest/Versions/Order.antt =====
-- Versions are ordered by `compareVersion`, and a range of them is an interval of that order.
use betterfly.Prelude.{
  trim, ℕ, ◌==◌, string_eq, sym, zero, suc, String, ◌≡◌, refl, ◌≢◌, ◌⊎◌, ◌<◌, true, false, List, [],
  ◌∷◌, arith, ltb, Bool-cases, inl, inr,
}
use betterfly.AbTest.Versions.{
  is_less, is_greater, Comparison, less, same, greater, compare_part, compare_parts,
  compare_version, split_version, version_range_matches,
}

-- The part of a version at a place.
abbrev pub part : List ℕ → ℕ → ℕ
part [] i = 0
part (a ∷ as₁) zero = a
part (a ∷ as₁) (suc i) = part as₁ i

compare_parts_refl : (as₁ : List ℕ) → compare_parts as₁ as₁ ≡ same
unfolding compare_parts
compare_parts_refl [] = refl
compare_parts_refl (a ∷ as₁) = ground (arith, compare_parts_refl as₁)

-- `a` is no later than `b`.
abbrev pub IsAtMost : List ℕ → List ℕ → Type 0
IsAtMost as₁ bs = compare_parts as₁ bs ≢ greater

swap : Comparison → Comparison
swap less = greater
swap same = same
swap greater = less

compare_parts-swap : (as₁ bs : List ℕ) → compare_parts bs as₁ ≡ swap (compare_parts as₁ bs)
unfolding compare_parts swap
compare_parts-swap [] [] = refl
compare_parts-swap [] (b ∷ bs) = ground (arith, compare_parts-swap [] bs)
compare_parts-swap (a ∷ as₁) [] = ground (arith, compare_parts-swap as₁ [])
compare_parts-swap (a ∷ as₁) (b ∷ bs) = ground (arith, compare_parts-swap as₁ bs)

-- What a comparison of the heads leaves to the tails.
IsAtMost-part :
    (a b : ℕ) (rest : Comparison)
    → compare_part a b rest ≢ greater
    → (a < b) ⊎ ((a ≡ b) × (rest ≢ greater))
IsAtMost-part a b rest h = ground (arith, Bool-cases (ltb a b), Bool-cases (ltb b a))

part-IsAtMost :
    (a b : ℕ) (rest : Comparison)
    → (a < b) ⊎ ((a ≡ b) × (rest ≢ greater))
    → compare_part a b rest ≢ greater
part-IsAtMost a b rest h = ground arith

both_parts :
    (a b c : ℕ) (p q r : Comparison)
    → (p ≢ greater → q ≢ greater → r ≢ greater)
    → compare_part a b p ≢ greater
    → compare_part b c q ≢ greater
    → compare_part a c r ≢ greater
both_parts a b c p q r f h k = part-IsAtMost a c r (elim (IsAtMost-part a b p h) [
  | inl x ↦ elim (IsAtMost-part b c q k) [ inl y ↦ inl (omega arith) | inr y ↦ inl (omega arith) ]
  | inr x ↦ elim (IsAtMost-part b c q k) [
    | inl y ↦ inl (omega arith)
    | inr y ↦ inr (omega arith, f x.1 y.1)
  ]
])

pub IsAtMost-trans : (as₁ bs cs : List ℕ) → IsAtMost as₁ bs → IsAtMost bs cs → IsAtMost as₁ cs
unfolding compare_parts
IsAtMost-trans [] [] cs h k = k
IsAtMost-trans [] (b ∷ bs) [] h k = ground arith
IsAtMost-trans (a ∷ as₁) [] [] h k = h
IsAtMost-trans [] (b ∷ bs) (c ∷ cs) h k = both_parts 0 b c _ _ _ (IsAtMost-trans [] bs cs) h k
IsAtMost-trans (a ∷ as₁) [] (c ∷ cs) h k = both_parts a 0 c _ _ _ (IsAtMost-trans as₁ [] cs) h k
IsAtMost-trans (a ∷ as₁) (b ∷ bs) [] h k = both_parts a b 0 _ _ _ (IsAtMost-trans as₁ bs []) h k
IsAtMost-trans (a ∷ as₁) (b ∷ bs) (c ∷ cs) h k =
    both_parts a b c _ _ _ (IsAtMost-trans as₁ bs cs) h k

not_less : (c : Comparison) → is_less c ≡ false → swap c ≢ greater
unfolding swap
not_less less h = cc
not_less same h = λ e. cc
not_less greater h = λ e. cc

is_less-swap : (c : Comparison) → swap c ≢ greater → is_less c ≡ false
unfolding swap
is_less-swap less h = absurd (h refl)
is_less-swap same h = refl
is_less-swap greater h = refl

not_greater : (c : Comparison) → is_greater c ≡ false → c ≢ greater
not_greater less h = λ e. cc
not_greater same h = λ e. cc
not_greater greater h = cc

is_greater-not : (c : Comparison) → c ≢ greater → is_greater c ≡ false
is_greater-not less h = refl
is_greater-not same h = refl
is_greater-not greater h = absurd (h refl)

-- The order of versions, without the space around them.
unfoldable pub VersionAtMost : String → String → Type 0
VersionAtMost v w = compare_version (trim v) (trim w) ≢ greater

-- What a range lets through.
record Within (version min_version max_version : String) : Type 0 where
  named : (trim version == "") ≡ true → ((min_version == "") ≡ true) × ((max_version == "") ≡ true)
  above : (min_version == "") ≡ false → is_less (compare_version (trim version) min_version) ≡ false
  below :
      (max_version == "") ≡ false → is_greater (compare_version (trim version) max_version) ≡ false

range-Within :
    (version min_version max_version : String)
    → version_range_matches version min_version max_version ≡ true
    → Within version min_version max_version
unfolding version_range_matches
range-Within version lo hi h = record {
  named = λ e. ground arith;
  above = λ e. ground arith;
  below = λ e. ground arith;
}

Within-range :
    (version min_version max_version : String)
    → Within version min_version max_version
    → version_range_matches version min_version max_version ≡ true
unfolding version_range_matches
Within-range version lo hi h = elim (Bool-cases (trim version == "")) [
  | inl e ↦ rw (e, (h.named e).0, (h.named e).1) refl
  | inr e ↦ rw e (elim (Bool-cases (lo == "")) [
    | inl p ↦ elim (Bool-cases (hi == "")) [
      | inl q ↦ rw (p, q) refl
      | inr q ↦ rw (p, q, h.below q) refl
    ]
    | inr p ↦ elim (Bool-cases (hi == "")) [
      | inl q ↦ rw (p, q, h.above p) refl
      | inr q ↦ rw (p, q, h.above p, h.below q) refl
    ]
  ])
]

compare_version_trans :
    (u v w : String)
    → compare_version u v ≢ greater
    → compare_version v w ≢ greater
    → compare_version u w ≢ greater
unfolding compare_version
compare_version_trans u v w = IsAtMost-trans (split_version u) (split_version v) (split_version w)

compare_version-swap : (v w : String) → compare_version w v ≡ swap (compare_version v w)
unfolding compare_version
compare_version-swap v w = compare_parts-swap (split_version v) (split_version w)

above_min : (v m : String) → is_less (compare_version v m) ≡ false → compare_version m v ≢ greater
above_min v m h = rw (compare_version-swap v m) (not_less (compare_version v m) h)

min_above : (v m : String) → compare_version m v ≢ greater → is_less (compare_version v m) ≡ false
min_above v m h = is_less-swap (compare_version v m) (rw (sym (compare_version-swap v m)) h)

-- A version that is not blank and lies between two versions of a range is of that range, whatever its
-- bounds: `compareVersion` orders versions, so a range has no gaps.
pub range_is_interval :
    (low version high min_version max_version : String)
    → version_range_matches low min_version max_version ≡ true
    → version_range_matches high min_version max_version ≡ true
    → VersionAtMost low version
    → VersionAtMost version high
    → trim version ≢ ""
    → version_range_matches version min_version max_version ≡ true
unfolding VersionAtMost
range_is_interval low version high lo hi h k p q nonblank =
    let from = range-Within low lo hi h in
    let till = range-Within high lo hi k in
    Within-range version lo hi (record {
      named = λ e. absurd (nonblank ((string_eq.beq_iff (trim version) "").0 e));
      above = λ e. min_above (trim version) lo (
          compare_version_trans lo (trim low) (trim version)
            (above_min (trim low) lo (from.above e)) p);
      below = λ e. is_greater-not (compare_version (trim version) hi) (
          compare_version_trans (trim version) (trim high) hi q
            (not_greater (compare_version (trim high) hi) (till.below e)));
    })
