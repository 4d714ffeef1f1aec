-- ===== src/Prelude/Texts.antt =====
-- Text as code points, for the parts of Go's `strings` and `unicode` packages that the program uses.
use Prim.Native.Char.{code}
use Prim.Native.Nat.{ℕ, ◌+◌}
use Prim.Native.String.{String}
use mathlib.Core.Bool.{Bool, true, false, ◌&&◌, ◌||◌}
use mathlib.Core.List.{List, [], ◌∷◌, reverse}
use betterfly.Prelude.Tests.{leb, nat_beq, if◌then◌else◌}

abbrev pub Text : Type 0
Text = List ℕ

-- The code points of a text. `String` has its own `[]` and `∷`.
abbrev pub codes : String → Text
codes String.[] = []
codes (String.◌∷◌ c s) = code c ∷ codes s

-- `unicode.IsSpace`.
unfoldable pub is_space : ℕ → Bool
is_space c =
    nat_beq c 32
    || leb 9 c && leb c 13
    || nat_beq c 0x85
    || nat_beq c 0xa0
    || nat_beq c 0x1680
    || leb 0x2000 c && leb c 0x200a
    || nat_beq c 0x2028
    || nat_beq c 0x2029
    || nat_beq c 0x202f
    || nat_beq c 0x205f
    || nat_beq c 0x3000

drop_spaces : Text → Text
drop_spaces [] = []
drop_spaces (c ∷ cs) = let rest = drop_spaces cs in if is_space c then rest else c ∷ cs

-- `strings.TrimSpace`.
unfoldable pub trim_space : Text → Text
unfolding drop_spaces is_space
trim_space t = reverse (drop_spaces (reverse (drop_spaces t)))

all_spaces : Text → Bool
all_spaces [] = true
all_spaces (c ∷ cs) = is_space c && all_spaces cs

-- `strings.TrimSpace(s) == ""`.
unfoldable pub is_blank : String → Bool
unfolding all_spaces is_space
is_blank s = all_spaces (codes s)

-- `unicode.ToLower` on the ASCII letters.
unfoldable pub lower_code : ℕ → ℕ
lower_code c = if leb b'A' c && leb c b'Z' then c + 32 else c

-- The ASCII letter that a code point folds to: the long s and the Kelvin sign are the only code
-- points outside ASCII that Unicode's simple folding takes to one.
unfoldable pub fold_code : ℕ → ℕ
unfolding lower_code
fold_code c = if nat_beq c 0x17f then b's' else if nat_beq c 0x212a then b'k' else lower_code c

unfoldable pub text_eq : Text → Text → Bool
text_eq [] [] = true
text_eq [] (d ∷ ds) = false
text_eq (c ∷ cs) [] = false
text_eq (c ∷ cs) (d ∷ ds) = nat_beq c d && text_eq cs ds

-- `strings.EqualFold(s, t)` for a `t` of lower-case ASCII letters.
unfoldable pub equal_fold : Text → Text → Bool
unfolding fold_code
equal_fold [] [] = true
equal_fold [] (d ∷ ds) = false
equal_fold (c ∷ cs) [] = false
equal_fold (c ∷ cs) (d ∷ ds) = nat_beq (fold_code c) d && equal_fold cs ds
