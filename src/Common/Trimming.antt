-- ===== src/Common/Trimming.antt =====
-- strings.TrimSpace.
use Prim.Native.Nat.{ℕ}
use mathlib.Core.Path.{◌≡◌, refl, ap, ◌∙◌}
use mathlib.Core.Logic.{inl, inr}
use mathlib.Core.Bool.{true, false, not}
use mathlib.Core.List.{[], ◌∷◌, map}
use native.Mathlib.Omega.{arith}
use varkiv.Common.Tests.{if◌then◌else◌, Bool-cases}
use varkiv.Common.Lists.{all}
use varkiv.Common.Texts.{Text, is_space}

trim_left : Text → Text
trim_left [] = []
trim_left (c ∷ s) = if is_space c then trim_left s else c ∷ s

keep : ℕ → Text → Text
keep c [] = if is_space c then [] else c ∷ []
keep c (d ∷ s) = c ∷ d ∷ s

trim_right : Text → Text
unfolding keep
trim_right [] = []
trim_right (c ∷ s) = keep c (trim_right s)

unfoldable pub trim : Text → Text
unfolding trim_left trim_right is_space
trim s = trim_right (trim_left s)

trim_right_solid : (s : Text) → all (λ c. not (is_space c)) s ≡ true → trim_right s ≡ s
unfolding trim_right
trim_right_solid [] h = refl
trim_right_solid (c ∷ []) h = ground arith
trim_right_solid (c ∷ d ∷ s) h = ap (keep c) (trim_right_solid (d ∷ s) (ground arith))

-- A text without white space is its own trimming.
pub trim_solid : (s : Text) → all (λ c. not (is_space c)) s ≡ true → trim s ≡ s
unfolding trim_left trim
trim_solid [] h = refl
trim_solid (c ∷ s) h = ground (arith, trim_right_solid (c ∷ s) h)

keep_idem : (c : ℕ) (s : Text) → trim_right s ≡ s → trim_right (keep c s) ≡ keep c s
unfolding trim_right
keep_idem c [] h = ground arith
keep_idem c (d ∷ s) h = ap (keep c) h

trim_right_idem : (s : Text) → trim_right (trim_right s) ≡ trim_right s
unfolding trim_right
trim_right_idem [] = refl
trim_right_idem (c ∷ s) = keep_idem c (trim_right s) (trim_right_idem s)

trim_left-keep : (c : ℕ) (s : Text) → is_space c ≡ false → trim_left (keep c s) ≡ keep c s
unfolding trim_left keep
trim_left-keep c [] h = ground arith
trim_left-keep c (d ∷ s) h = ground arith

trim_left-trim : (s : Text) → trim_left (trim s) ≡ trim s
unfolding trim
trim_left-trim [] = refl
trim_left-trim (c ∷ s) = elim (Bool-cases (is_space c)) [
  | inl e ↦ rw e (trim_left-trim s)
  | inr e ↦ rw e (trim_left-keep c (trim_right s) e)
]

pub trim_idem : (s : Text) → trim (trim s) ≡ trim s
unfolding trim
trim_idem s = ap trim_right (trim_left-trim s) ∙ trim_right_idem (trim_left s)

-- A map of the characters that keeps white space commutes with trimming.
module _ (f : ℕ → ℕ) (keeps : (c : ℕ) → is_space (f c) ≡ is_space c) where
  trim_left-map : (s : Text) → trim_left (map f s) ≡ map f (trim_left s)
  unfolding trim_left
  trim_left-map [] = refl
  trim_left-map (c ∷ s) = elim (Bool-cases (is_space c)) [
    | inl e ↦ rw (keeps c, e) (trim_left-map s)
    | inr e ↦ rw (keeps c, e) refl
  ]

  keep-map : (c : ℕ) (s : Text) → keep (f c) (map f s) ≡ map f (keep c s)
  unfolding keep
  keep-map c [] = elim (Bool-cases (is_space c)) [
    | inl e ↦ rw (keeps c, e) refl
    | inr e ↦ rw (keeps c, e) refl
  ]
  keep-map c (d ∷ s) = refl

  trim_right-map : (s : Text) → trim_right (map f s) ≡ map f (trim_right s)
  unfolding trim_right
  trim_right-map [] = refl
  trim_right-map (c ∷ s) = ap (keep (f c)) (trim_right-map s) ∙ keep-map c (trim_right s)

  pub trim-map : (s : Text) → trim (map f s) ≡ map f (trim s)
  unfolding trim
  trim-map s = ap trim_right (trim_left-map s) ∙ trim_right-map (trim_left s)
