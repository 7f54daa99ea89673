-- ===== src/Common/Maps.antt =====
-- Go maps keyed by strings, as association lists: the first entry of a key counts.
use mathlib.Core.Path.{◌≡◌}
use mathlib.Core.Option.{Option, none, some}
use mathlib.Core.List.{List, [], ◌∷◌}
use native.Mathlib.Omega.{arith}
use varkiv.Common.Tests.{if◌then◌else◌}
use varkiv.Common.Texts.{Text, ◌=ᵗ◌, text_eq_iff}

abbrev pub Map {ℓ} : Type ℓ → Type ℓ
Map V = List (Text × V)

module _ {ℓ} {V : Type ℓ} where
  -- m[k]
  unfoldable pub lookup : Text → Map V → Option V
  lookup k [] = none
  lookup k ((j, v) ∷ m) = if j =ᵗ k then some v else lookup k m

  -- delete(m, k)
  unfoldable pub delete : Text → Map V → Map V
  delete k [] = []
  delete k ((j, v) ∷ m) = let rest = delete k m in if j =ᵗ k then rest else (j, v) ∷ rest

  -- m[k] = v
  unfoldable pub insert : Text → V → Map V → Map V
  insert k v m = (k, v) ∷ delete k m

  pub lookup-delete :
      (k j : Text) (m : Map V) → lookup j (delete k m) ≡ (if k =ᵗ j then none else lookup j m)
  unfolding lookup delete
  lookup-delete k j [] = ground arith
  lookup-delete k j ((i, v) ∷ m) =
      ground (arith, lookup-delete k j m, text_eq_iff i k, text_eq_iff i j, text_eq_iff k j)

  pub lookup-insert :
      (k j : Text) (v : V) (m : Map V)
      → lookup j (insert k v m) ≡ (if k =ᵗ j then some v else lookup j m)
  unfolding lookup insert
  lookup-insert k j v m = ground (arith, lookup-delete k j m)
