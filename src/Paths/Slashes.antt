-- ===== src/Paths/Slashes.antt =====
-- strings.Split and strings.Join at one character, and path.Clean.
use varkiv.Common.{
  ℕ, Text, codes, ◌≡◌, refl, ap, Bool, false, ◌||◌, ◌==◌, ◌=ᵗ◌, List, [], ◌∷◌, ◌++◌, is_empty, any,
  if◌then◌else◌, arith, ◌≢◌, ◌∙◌, List-cases, inl, inr,
}

abbrev pub cons_head : ℕ → List Text → List Text
cons_head c [] = (c ∷ []) ∷ []
cons_head c (p ∷ ps) = (c ∷ p) ∷ ps

-- strings.Split(s, sep)
unfoldable pub split : ℕ → Text → List Text
split sep [] = [] ∷ []
split sep (c ∷ s) = let rest = split sep s in if c == sep then [] ∷ rest else cons_head c rest

-- strings.Join(parts, sep)
unfoldable pub join : ℕ → List Text → Text
join sep [] = []
join sep (p ∷ []) = p
join sep (p ∷ q ∷ ps) = p ++ (sep ∷ join sep (q ∷ ps))

-- The components of a cleaned path, last first: `..` takes back the one before it, and at the root
-- it is dropped.
unfoldable pub push : Bool → List Text → Text → List Text
push rooted [] part =
    if is_empty part || (part =ᵗ codes ".")
    then []
    else if part =ᵗ codes ".."
    then (if rooted then [] else part ∷ [])
    else part ∷ []
push rooted (q ∷ qs) part =
    if is_empty part || (part =ᵗ codes ".")
    then q ∷ qs
    else if part =ᵗ codes ".."
    then (if q =ᵗ codes ".." then part ∷ q ∷ qs else qs)
    else part ∷ q ∷ qs

unfoldable pub push_all : Bool → List Text → List Text → List Text
push_all rooted stack [] = stack
push_all rooted stack (p ∷ ps) = push_all rooted (push rooted stack p) ps

abbrev pub reverse_onto : List Text → List Text → List Text
reverse_onto [] acc = acc
reverse_onto (x ∷ xs) acc = reverse_onto xs (x ∷ acc)

unfoldable pub is_rooted : Text → Bool
is_rooted [] = false
is_rooted (c ∷ s) = c == b'/'

-- path.Clean
unfoldable pub clean : Text → Text
unfolding push_all push is_rooted
clean path =
    let body = join b'/' (reverse_onto (push_all (is_rooted path) [] (split b'/' path)) []) in
    if is_rooted path then b'/' ∷ body else if is_empty body then codes "." else body

abbrev pub has : ℕ → Text → Bool
has c = any (λ d. d == c)

pub split-ne-nil : (sep : ℕ) (s : Text) → split sep s ≢ []
unfolding split
split-ne-nil sep [] h = cc
split-ne-nil sep (c ∷ s) h = elim (List-cases (split sep s)) [
  | inl e ↦ ground arith
  | inr (p, ps, e) ↦ ground arith
]

join-cons :
    (sep c : ℕ) (parts : List Text)
    → parts ≢ []
    → join sep (if c == sep then [] ∷ parts else cons_head c parts) ≡ c ∷ join sep parts
unfolding join
join-cons sep c [] h = absurd (h refl)
join-cons sep c (p ∷ []) h = ground arith
join-cons sep c (p ∷ q ∷ ps) h = ground arith

-- Joining what was split gives the text again.
pub join-split : (sep : ℕ) (s : Text) → join sep (split sep s) ≡ s
unfolding split
join-split sep [] = unfold join in refl
join-split sep (c ∷ s) =
    join-cons sep c (split sep s) (split-ne-nil sep s) ∙ ap (◌∷◌ c) (join-split sep s)
