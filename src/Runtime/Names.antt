-- ===== src/Runtime/Names.antt =====
-- What is used of packages strings and filepath for file names and templates.
use varkiv.Common.{
  ℕ, zero, suc, Text, codes, Bool, true, false, not, ◌&&◌, ◌==◌, Option, none, some, List, [], ◌∷◌,
  ◌++◌, is_empty, if◌then◌else◌,
}
use varkiv.Paths.Slashes.{split, has}

-- filepath.Ext
unfoldable pub ext : Text → Text
ext [] = []
ext (c ∷ s) =
    let rest = ext s in if is_empty rest && c == b'.' && not (has b'/' s) then c ∷ s else rest

abbrev last_named : Text → List Text → Text
last_named found [] = found
last_named found (p ∷ ps) = last_named (if is_empty p then found else p) ps

-- filepath.Base
unfoldable pub base : Text → Text
base [] = codes "."
base (c ∷ s) = last_named (codes "/") (split b'/' (c ∷ s))

abbrev pub with_head : ℕ → Option (Text × Text) → Option (Text × Text)
with_head d none = none
with_head d (some (before, after)) = some (d ∷ before, after)

-- strings.Cut at a character that is written twice: what comes before and after.
unfoldable pub cut_twice : ℕ → Text → Option (Text × Text)
cut_twice c [] = none
cut_twice c (d ∷ []) = none
cut_twice c (d ∷ e ∷ s) =
    let rest = with_head d (cut_twice c (e ∷ s)) in if d == c && e == c then some ([], s) else rest

-- strings.Contains(s, "cc")
abbrev pub is_cut : Option (Text × Text) → Bool
is_cut none = false
is_cut (some parts) = true

unfoldable pub has_twice : ℕ → Text → Bool
unfolding cut_twice
has_twice c s = is_cut (cut_twice c s)

-- The rest of a text after a prefix.
unfoldable pub without_prefix : Text → Text → Option Text
without_prefix [] s = some s
without_prefix (c ∷ p) [] = none
without_prefix (c ∷ p) (d ∷ s) = if c == d then without_prefix p s else none

abbrev pub or_text : Text → Option Text → Text
or_text s none = s
or_text s (some t) = t

abbrev pub is_some : Option Text → Bool
is_some none = false
is_some (some t) = true

-- strings.ReplaceAll for a text that is not empty; the fuel is the length of the text.
unfoldable pub replace : ℕ → Text → Text → Text → Text
unfolding without_prefix
replace zero old new s = s
replace (suc fuel) old new [] = []
replace (suc fuel) old new (c ∷ s) =
    let here = replace fuel old new (or_text [] (without_prefix old (c ∷ s))) in
    let there = replace fuel old new s in
    if is_some (without_prefix old (c ∷ s)) then new ++ here else c ∷ there
