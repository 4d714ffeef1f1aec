-- ===== src/Prelude/Trims.antt =====
-- `strings.TrimSpace` on strings, which leaves nothing to trim.
use Prim.Native.Char.{code}
use Prim.Native.String.{String}
use mathlib.Core.Path.{◌≡◌, refl}
use mathlib.Core.Logic.{inl, inr}
use mathlib.Core.Bool.{Bool, true, false, ◌&&◌}
use betterfly.Prelude.Tests.{if◌then◌else◌, Bool-cases}
use betterfly.Prelude.Texts.{is_space}

trim_left : String → String
trim_left String.[] = String.[]
trim_left (String.◌∷◌ c s) =
    let rest = trim_left s in if is_space (code c) then rest else String.◌∷◌ c s

is_nil : String → Bool
is_nil String.[] = true
is_nil (String.◌∷◌ c s) = false

trim_right : String → String
trim_right String.[] = String.[]
trim_right (String.◌∷◌ c s) =
    let rest = trim_right s in
    if is_nil rest && is_space (code c) then String.[] else String.◌∷◌ c rest

unfoldable pub trim : String → String
unfolding trim_left trim_right is_nil is_space
trim s = trim_right (trim_left s)

trim_right_again : (s : String) → trim_right (trim_right s) ≡ trim_right s
unfolding trim_right
trim_right_again String.[] = refl
trim_right_again (String.◌∷◌ c s) = elim (Bool-cases (is_nil (trim_right s) && is_space (code c))) [
  | inl e ↦ rw e refl
  | inr e ↦ rw (e, trim_right_again s, e) refl
]

starts_blank : String → Bool
starts_blank String.[] = false
starts_blank (String.◌∷◌ c s) = is_space (code c)

trim_left-starts_blank : (s : String) → starts_blank (trim_left s) ≡ false
unfolding trim_left starts_blank
trim_left-starts_blank String.[] = refl
trim_left-starts_blank (String.◌∷◌ c s) = elim (Bool-cases (is_space (code c))) [
  | inl e ↦ rw e (trim_left-starts_blank s)
  | inr e ↦ rw e e
]

trim_left_started : (s : String) → starts_blank s ≡ false → trim_left s ≡ s
unfolding trim_left starts_blank
trim_left_started String.[] h = refl
trim_left_started (String.◌∷◌ c s) h = rw h refl

trim_right-starts_blank :
    (s : String) → starts_blank s ≡ false → starts_blank (trim_right s) ≡ false
unfolding trim_right starts_blank
trim_right-starts_blank String.[] h = refl
trim_right-starts_blank (String.◌∷◌ c s) h =
    elim (Bool-cases (is_nil (trim_right s) && is_space (code c))) [
      | inl e ↦ rw e refl
      | inr e ↦ rw e h
    ]

pub trim_again : (s : String) → trim (trim s) ≡ trim s
unfolding trim
trim_again s =
    rw
      (
        trim_left_started (trim_right (trim_left s))
            (trim_right-starts_blank (trim_left s) (trim_left-starts_blank s)),
        trim_right_again (trim_left s),
      )
      refl
