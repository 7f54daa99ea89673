-- ===== src/Runtime/Arguments.antt =====
-- Argument templates: ValidateLaunchArguments of internal/catalog/runtime_store.go, renderArgument
-- and regexpVariables of internal/runtimecfg/resolver.go.
use varkiv.Common.{
  ℕ, zero, suc, Text, codes, trim, byte_len, Bool, ◌&&◌, ◌||◌, ◌==◌, ltb, leb, member, Option, none,
  some, List, [], ◌∷◌, ◌++◌, is_empty, any, length, Result, ok, if◌then◌else◌, reject, ◌>>◌,
}
use varkiv.Common.Maps.{Map, lookup}
use varkiv.Paths.Slashes.{has}
use varkiv.Runtime.Names.{cut_twice, has_twice, replace}

pub data LaunchError : Type 0 where
  ids_required no_rows not_enabled wrong_platform wrong_target no_artifact no_core : LaunchError
  too_many_arguments bad_argument unknown_variable unavailable unresolved : LaunchError

abbrev pub allowed_launch_variables : List Text
allowed_launch_variables =
    codes "edition.id"
    ∷ codes "edition.title"
    ∷ codes "edition.save_namespace"
    ∷ codes "edition.serial"
    ∷ codes "edition.product_code"
    ∷ codes "edition.title_id"
    ∷ codes "edition.title_id_high"
    ∷ codes "edition.title_id_low"
    ∷ codes "platform.id"
    ∷ codes "rom.path"
    ∷ codes "rom.source_path"
    ∷ codes "rom.stem"
    ∷ codes "core.id"
    ∷ codes "core.library"
    ∷ codes "device.id"
    ∷ codes "device.target"
    ∷ codes "device.config_dir"
    ∷ codes "device.save_dir"
    ∷ codes "device.core_dir"
    ∷ codes "device.emulator_dir"
    ∷ []

-- [a-z0-9_.]
abbrev is_name_character : ℕ → Bool
is_name_character c =
    (leb b'a' c && leb c b'z') || (leb b'0' c && leb c b'9') || c == b'_' || c == b'.'

-- The longest run of such characters, and what comes after it.
unfoldable pub name_run : Text → Text × Text
name_run [] = ([], [])
name_run (c ∷ s) =
    let (name, rest) = name_run s in if is_name_character c then (c ∷ name, rest) else ([], c ∷ s)

abbrev before_braces : Text × Text → Option (Text × Text)
before_braces ([], rest) = none
before_braces (c ∷ name, []) = none
before_braces (c ∷ name, d ∷ []) = none
before_braces (c ∷ name, d ∷ e ∷ rest) =
    if d == b'}' && e == b'}' then some (c ∷ name, rest) else none

-- A match of launchVariablePattern at the start of a text, and what comes after it.
unfoldable pub match_variable : Text → Option (Text × Text)
unfolding name_run
match_variable [] = none
match_variable (c ∷ []) = none
match_variable (c ∷ d ∷ s) = if c == b'{' && d == b'{' then before_braces (name_run s) else none

abbrev pub after_match : Text → Option (Text × Text) → Text
after_match s none = s
after_match s (some (name, rest)) = rest

-- What ReplaceAllStringFunc puts for a match, or the next character.
abbrev pub cleaned_head : ℕ → Option (Text × Text) → Text
cleaned_head c none = c ∷ []
cleaned_head c (some (name, rest)) =
    if member name allowed_launch_variables then [] else codes "{{" ++ name ++ codes "}}"

-- The text without its allowed variables; the fuel is the length of the text.
unfoldable pub cleaned : ℕ → Text → Text
unfolding match_variable
cleaned zero s = s
cleaned (suc fuel) [] = []
cleaned (suc fuel) (c ∷ s) =
    cleaned_head c (match_variable (c ∷ s)) ++ cleaned fuel (after_match s (match_variable (c ∷ s)))

unfoldable pub validate_argument : Text → Result LaunchError Unit
unfolding cleaned
validate_argument argument =
    let rest = cleaned (length argument) argument in
    reject (ltb 2048 (byte_len argument) || has 0 argument || has 13 argument || has 10 argument)
      bad_argument
    >> reject (has b'{' rest || has b'}' rest) unknown_variable

abbrev validate_all : List Text → Result LaunchError Unit
validate_all [] = ok tt
validate_all (a ∷ rest) = validate_argument a >> validate_all rest

unfoldable pub validate_launch_arguments : List Text → Result LaunchError Unit
unfolding validate_argument
validate_launch_arguments arguments =
    reject (ltb 32 (length arguments)) too_many_arguments >> validate_all arguments

abbrev pub after_open : Option (Text × Text) → Option (Text × Text)
after_open none = none
after_open (some (before, rest)) = cut_twice b'}' rest

-- One round of the loop: the next variable, and what comes after it.
unfoldable pub next_variable : Text → Option (Text × Text)
unfolding cut_twice
next_variable s = after_open (cut_twice b'{' s)

abbrev pub and_then : Option (Text × Text) → Option (List Text) → Option (List Text)
and_then none names = some []
and_then (some (name, rest)) none = none
and_then (some (name, rest)) (some names) = some (name ∷ names)

abbrev pub or_nothing : Option (List Text) → List Text
or_nothing none = []
or_nothing (some names) = names

abbrev pub or_empty : Option Text → Text
or_empty none = []
or_empty (some t) = t

-- The loop of regexpVariables, which gives nothing when the fuel is used up.
unfoldable pub variables_loop : ℕ → Text → Option (List Text)
unfolding next_variable
variables_loop zero s = none
variables_loop (suc fuel) s =
    and_then (next_variable s) (variables_loop fuel (after_match [] (next_variable s)))

-- regexpVariables, with more fuel than there are characters.
unfoldable pub regexp_variables : Text → List Text
unfolding variables_loop
regexp_variables s = or_nothing (variables_loop (suc (length s)) s)

unfoldable pub value_of : Text → Map Text → Text
value_of name values = or_empty (lookup name values)

unfoldable pub replace_all : Map Text → Text → Text
unfolding replace
replace_all [] s = s
replace_all ((key, value) ∷ values) s =
    replace_all values (replace (length s) (codes "{{" ++ key ++ codes "}}") value s)

-- The values in the order in which the range over the map gives them.
unfoldable pub render_argument : Text → Map Text → Result LaunchError Text
unfolding regexp_variables value_of replace_all validate_launch_arguments
render_argument argument values = do
  validate_launch_arguments (argument ∷ [])
  reject (any (λ name. is_empty (trim (value_of name values))) (regexp_variables argument))
      unavailable
  reject
      (has_twice b'{' (replace_all values argument) || has_twice b'}' (replace_all values argument))
      unresolved
  ok (replace_all values argument)
