-- ===== src/Common/Sorting.antt =====
-- sort.Strings: by bytes, which for UTF-8 is by code points.
use mathlib.Core.Path.{◌≡◌, refl}
use mathlib.Core.Bool.{Bool, true, false, ◌&&◌, ◌||◌}
use mathlib.Core.List.{List, [], ◌∷◌}
use native.Mathlib.Omega.{arith}
use varkiv.Common.Tests.{ltb, ◌==◌, if◌then◌else◌}
use varkiv.Common.Lists.{is_empty}
use varkiv.Common.Texts.{Text, ◌=ᵗ◌, member}

unfoldable pub text_le : Text → Text → Bool
text_le [] t = true
text_le (c ∷ s) [] = false
text_le (c ∷ s) (d ∷ t) = ltb c d || ((c == d) && text_le s t)

unfoldable pub insert_sorted : Text → List Text → List Text
insert_sorted t [] = t ∷ []
insert_sorted t (x ∷ xs) =
    let rest = insert_sorted t xs in if text_le t x then t ∷ x ∷ xs else x ∷ rest

unfoldable pub sort_texts : List Text → List Text
unfolding insert_sorted
sort_texts [] = []
sort_texts (t ∷ ts) = insert_sorted t (sort_texts ts)

member-insert_sorted :
    (k t : Text) (xs : List Text) → member k (insert_sorted t xs) ≡ ((t =ᵗ k) || member k xs)
unfolding insert_sorted
member-insert_sorted k t [] = refl
member-insert_sorted k t (x ∷ xs) = ground (arith, member-insert_sorted k t xs)

-- Sorting keeps the members.
pub member-sort_texts : (k : Text) (xs : List Text) → member k (sort_texts xs) ≡ member k xs
unfolding sort_texts
member-sort_texts k [] = refl
member-sort_texts k (x ∷ xs) =
    ground (arith, member-insert_sorted k x (sort_texts xs), member-sort_texts k xs)

is_empty-insert_sorted : (t : Text) (xs : List Text) → is_empty (insert_sorted t xs) ≡ false
unfolding insert_sorted
is_empty-insert_sorted t [] = refl
is_empty-insert_sorted t (x ∷ xs) = ground arith

pub is_empty-sort_texts : (xs : List Text) → is_empty (sort_texts xs) ≡ is_empty xs
unfolding sort_texts
is_empty-sort_texts [] = refl
is_empty-sort_texts (x ∷ xs) = is_empty-insert_sorted x (sort_texts xs)

-- sort.Slice by a total preorder, of elements that it tells apart.
module _ {ℓ} {A : Type ℓ} (le : A → A → Bool) where
  unfoldable pub insert_by : A → List A → List A
  insert_by t [] = t ∷ []
  insert_by t (x ∷ xs) = let rest = insert_by t xs in if le t x then t ∷ x ∷ xs else x ∷ rest

  unfoldable pub sort_by : List A → List A
  unfolding insert_by
  sort_by [] = []
  sort_by (t ∷ ts) = insert_by t (sort_by ts)
