-- ===== src/Bundler/Files.antt =====
-- What internal/bundler uses of package filepath, on a system whose separator is the slash, and the
-- files below a directory, as os.Lstat sees them.
use varkiv.Common.{
  ℕ, Text, codes, trim, Bool, true, false, not, ◌&&◌, ◌||◌, ◌==◌, ◌=ᵗ◌, Option, none, some, List,
  [], ◌∷◌, ◌++◌, is_empty, Result, ok, err, if◌then◌else◌,
}
use varkiv.Common.Maps.{Map, lookup}
use varkiv.Paths.Slashes.{split, join, clean, is_rooted}

-- `special` is a symbolic link or a device, with what reading it gives; the mode is the permission
-- bits.
pub data Node : Type 0 where
  directory : Node
  regular : List ℕ → ℕ → Node
  special : Option (List ℕ) → Node

-- The nodes below a directory by their paths from it.
abbrev pub Files : Type 0
Files = Map Node

abbrev pub content : Node → Option (List ℕ)
content directory = none
content (regular bytes mode) = some bytes
content (special bytes) = bytes

-- info.IsDir() && info.Mode()&os.ModeSymlink == 0
abbrev pub is_directory : Option Node → Bool
is_directory (some directory) = true
is_directory (some (regular bytes mode)) = false
is_directory (some (special bytes)) = false
is_directory none = false

-- strings.HasPrefix
unfoldable pub has_prefix : Text → Text → Bool
has_prefix [] s = true
has_prefix (c ∷ p) [] = false
has_prefix (c ∷ p) (d ∷ s) = c == d && has_prefix p s

-- filepath.Join of two elements
unfoldable pub join_path : Text → Text → Text
join_path a b = if is_empty a then (if is_empty b then [] else clean b) else clean (a ++ b'/' ∷ b)

-- The parents of a path, from the top: the values that `current` takes in the loop of
-- validateManagedTargetParents over components[:len(components)-1].
unfoldable pub prefixes : Text → List Text → List Text
prefixes current [] = []
prefixes current (p ∷ []) = []
prefixes current (p ∷ q ∷ ps) =
    let next = if is_empty current then p else current ++ b'/' ∷ p in next ∷ prefixes next (q ∷ ps)

unfoldable pub parents : Text → List Text
unfolding prefixes
parents path = prefixes [] (split b'/' path)

-- filepath.Clean comes first.
unfoldable pub above : Text → List Text
unfolding parents
above path = parents (clean path)

-- The components of filepath.Rel of absolute paths.
abbrev named : List Text → List Text
named [] = []
named (p ∷ ps) = let rest = named ps in if is_empty p then rest else p ∷ rest

abbrev up : List Text → List Text → List Text
up [] target = target
up (p ∷ ps) target = codes ".." ∷ up ps target

abbrev steps : List Text → List Text → List Text
steps [] target = target
steps (b ∷ base) [] = up (b ∷ base) []
steps (b ∷ base) (t ∷ target) =
    let inside = steps base target in if b =ᵗ t then inside else up (b ∷ base) (t ∷ target)

-- filepath.Rel
unfoldable pub rel : Text → Text → Text
rel base target =
    let path = join b'/' (steps (named (split b'/' base)) (named (split b'/' target))) in
    if is_empty path then codes "." else path

unfoldable pub path_within : Text → Text → Bool
unfolding rel has_prefix
path_within base target =
    let relative = rel base target in
    not (relative =ᵗ codes "..") && not (has_prefix (codes "../") relative)

pub data BundleError : Type 0 where
  unsafe_path not_independent bad_locator reserved_target not_real_parent not_regular : BundleError
  recovery_root file_exists no_snapshot bad_copy unreadable unmanaged_target : BundleError

unfoldable pub clean_relative : Text → Result BundleError Text
unfolding has_prefix
clean_relative value =
    let path = clean (trim value) in
    if path =ᵗ codes "."
      || is_empty path
      || is_rooted path
      || path =ᵗ codes ".."
      || has_prefix (codes "../") path
    then err unsafe_path
    else ok path

abbrev continue : Option Node → Result BundleError Unit → Result BundleError Unit
continue none rest = ok tt
continue (some directory) rest = rest
continue (some (regular bytes mode)) rest = err not_real_parent
continue (some (special bytes)) rest = err not_real_parent

unfoldable pub validate_parents : Files → List Text → Result BundleError Unit
validate_parents fs [] = ok tt
validate_parents fs (p ∷ ps) = continue (lookup p fs) (validate_parents fs ps)

unfoldable pub validate_managed_target_parents : Files → Text → Result BundleError Unit
unfolding validate_parents
validate_managed_target_parents fs relative = validate_parents fs (above relative)
