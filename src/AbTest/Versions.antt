-- ===== src/AbTest/Versions.antt =====
-- Versions such as "1.12.0-beta_3": `compareVersion`, `splitVersion` and `versionRangeMatches` of
-- services/abTestService/internal/abtest/evaluator.go.
pub mod Order
use betterfly.Prelude.{
  Text, codes, trim, ℕ, zero, suc, ◌+◌, ◌-◌, ◌*◌, ◌^◌, String, ◌≡◌, Bool, true, false, not, ◌&&◌,
  ◌||◌, List, [], ◌∷◌, is_empty, ltb, leb, nat_beq, ◌==◌, string_eq, if◌then◌else◌,
}

is_separator : ℕ → Bool
is_separator c = nat_beq c b'.' || nat_beq c b'-' || nat_beq c b'_'

-- `strings.FieldsFunc`: the runs of other code points, the first of them still being read.
abbrev close_field : Text → List Text → List Text
close_field [] parts = parts
close_field (c ∷ cs) parts = (c ∷ cs) ∷ parts

abbrev cons_first : ℕ → List Text → List Text
cons_first c [] = (c ∷ []) ∷ []
cons_first c (part ∷ parts) = (c ∷ part) ∷ parts

-- The text up to the first separator, and the fields after it.
fields_from : Text → Text × List Text
unfolding is_separator
fields_from [] = ([], [])
fields_from (c ∷ cs) =
    let rest = fields_from cs in
    if is_separator c then ([], close_field rest.0 rest.1) else (c ∷ rest.0, rest.1)

unfoldable pub fields_func : Text → List Text
unfolding fields_from
fields_func t = close_field (fields_from t).0 (fields_from t).1

is_digit : ℕ → Bool
is_digit c = leb b'0' c && leb c b'9'

all_digits : Text → Bool
all_digits [] = true
all_digits (c ∷ cs) = is_digit c && all_digits cs

abbrev decimal : ℕ → Text → ℕ
decimal n [] = n
decimal n (c ∷ cs) = decimal (10 * n + (c - b'0')) cs

abbrev max_int : ℕ
max_int = 2 ^ 63 - 1

abbrev drop_plus : Text → Text
drop_plus [] = []
drop_plus (c ∷ cs) = if nat_beq c b'+' then cs else c ∷ cs

-- What `strconv.Atoi` returns beside its error, on a text without a minus: the greatest int when the
-- number is out of range, 0 when there is none.
unfoldable pub atoi : Text → ℕ
unfolding all_digits is_digit
atoi t =
    let digits = drop_plus t in
    let n = decimal 0 digits in
    if not (is_empty digits) && all_digits digits then (if ltb max_int n then max_int else n) else 0

abbrev atois : List Text → List ℕ
atois [] = []
atois (t ∷ ts) = atoi t ∷ atois ts

unfoldable pub split_version : String → List ℕ
unfolding fields_func atoi
split_version version = atois (fields_func (codes version))

pub data Comparison : Type 0 where
  less same greater : Comparison

abbrev compare_part : ℕ → ℕ → Comparison → Comparison
compare_part a b rest = if ltb a b then less else if ltb b a then greater else rest

-- The loop of `compareVersion`: a missing part counts as 0.
unfoldable pub compare_parts : List ℕ → List ℕ → Comparison
compare_parts [] [] = same
compare_parts [] (b ∷ bs) = compare_part 0 b (compare_parts [] bs)
compare_parts (a ∷ as₁) [] = compare_part a 0 (compare_parts as₁ [])
compare_parts (a ∷ as₁) (b ∷ bs) = compare_part a b (compare_parts as₁ bs)

unfoldable pub compare_version : String → String → Comparison
unfolding compare_parts split_version
compare_version a b = compare_parts (split_version a) (split_version b)

abbrev is_less : Comparison → Bool
is_less less = true
is_less same = false
is_less greater = false

abbrev is_greater : Comparison → Bool
is_greater less = false
is_greater same = false
is_greater greater = true

-- `versionRangeMatches`: an empty bound is no bound.
unfoldable pub version_range_matches : String → String → String → Bool
version_range_matches raw min_version max_version =
    let version = trim raw in
    if version == "" && (not (min_version == "") || not (max_version == ""))
    then false
    else if not (min_version == "") && is_less (compare_version version min_version)
    then false
    else if not (max_version == "") && is_greater (compare_version version max_version)
    then false
    else true
