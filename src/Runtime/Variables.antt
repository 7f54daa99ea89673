-- ===== src/Runtime/Variables.antt =====
-- The loop of regexpVariables ends.
use varkiv.Common.{
  some_injective, ℕ, zero, suc, ◌<◌, Text, ◌≡◌, refl, ap, sym, ◌∙◌, ◌&&◌, ◌==◌, Option, none, some,
  List, [], ◌∷◌, length, arith, inl, inr, Bool-cases, Option-cases,
}
use varkiv.Runtime.Names.{cut_twice}
use varkiv.Runtime.Arguments.{next_variable, variables_loop, regexp_variables, or_nothing}

none_some : {A B : Type 0} (x : A) → (let n : Option A = none in n) ≡ some x → B
none_some x h = cc

no_less : (n : ℕ) → ¬ (n < 0)
no_less n h = omega (arith, h)

cut_shorter :
    (c : ℕ) (s before after : Text) → cut_twice c s ≡ some (before, after) → length after < length s
unfolding cut_twice
cut_shorter c [] before after h = cc
cut_shorter c (d ∷ []) before after h = cc
cut_shorter c (d ∷ e ∷ s) before after h = elim (Bool-cases (d == c && e == c)) [
  | inl y ↦
      let eq : ([], s) ≡ (before, after) =
        some_injective ([], s) (before, after) (sym (rw y refl) ∙ h) in
      let same = ap (λ p. length p.1) eq in omega (arith, same)
  | inr n ↦ elim (Option-cases (cut_twice c (e ∷ s))) [
    | inl x ↦ none_some (before, after) (sym (rw (n, x) refl) ∙ h)
    | inr ((b, r), x) ↦
        let eq : (d ∷ b, r) ≡ (before, after) =
          some_injective (d ∷ b, r) (before, after) (sym (rw (n, x) refl) ∙ h) in
        let same = ap (λ p. length p.1) eq in
        let shorter = cut_shorter c (e ∷ s) b r x in omega (arith, same, shorter)
  ]
]

next_shorter : (s name rest : Text) → next_variable s ≡ some (name, rest) → length rest < length s
unfolding next_variable
next_shorter s name rest h = elim (Option-cases (cut_twice b'{' s)) [
  | inl x ↦ none_some (name, rest) (sym (rw x refl) ∙ h)
  | inr ((b, r), x) ↦
      let first = cut_shorter b'{' s b r x in
      let second = cut_shorter b'}' r name rest (sym (rw x refl) ∙ h) in
      omega (arith, first, second)
]

-- More fuel than characters is enough, and gives what any other such fuel gives.
enough :
    (fuel more : ℕ) (s : Text)
    → length s < fuel
    → length s < more
    → (names : List Text) × (variables_loop fuel s ≡ some names)
      × (variables_loop more s ≡ some names)
unfolding variables_loop
enough zero more s h k = absurd (no_less (length s) h)
enough (suc fuel) zero s h k = absurd (no_less (length s) k)
enough (suc fuel) (suc more) s h k = elim (Option-cases (next_variable s)) [
  | inl x ↦ ([], rw x refl, rw x refl)
  | inr ((name, rest), x) ↦
      let shorter = next_shorter s name rest x in
      let (names, e, f) =
        enough fuel more rest (omega (arith, h, shorter)) (omega (arith, k, shorter)) in
      (name ∷ names, rw (x, e) refl, rw (x, f) refl)
]

-- The loop of regexpVariables ends: with any fuel above the number of characters it gives the
-- names that it is taken to give.
pub variables_loop_ends :
    (fuel : ℕ) (s : Text) → length s < fuel → variables_loop fuel s ≡ some (regexp_variables s)
unfolding regexp_variables
variables_loop_ends fuel s h =
    let (names, e, f) = enough fuel (suc (length s)) s h (omega arith) in
    e ∙ sym (ap (λ o. some (or_nothing o)) f)
