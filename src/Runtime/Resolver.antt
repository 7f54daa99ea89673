-- ===== src/Runtime/Resolver.antt =====
-- Resolve of internal/runtimecfg/resolver.go, and ResolveLaunchBinding and ResolveCore of
-- internal/catalog/runtime_store.go, on the rows of the tables.
use varkiv.Common.{
  ℕ, zero, suc, ℤ, pos, negsuc, Text, codes, Stdlib, trim, lower, Bool, true, false, not, ◌&&◌,
  ◌||◌, ◌==◌, ltb, ◌=ᵗ◌, member, Option, none, some, List, [], ◌∷◌, is_empty, length, Result, ok,
  err, if◌then◌else◌, or_fail, reject, ◌>>=◌, ◌>>◌, eq_ℤ,
}
use varkiv.Common.Maps.{Map, lookup}
use varkiv.Common.Sorting.{text_le}
use varkiv.Common.Hex.{decode}
use varkiv.Paths.Slashes.{has, clean, is_rooted}
use varkiv.Paths.SaveLogical.{stem}
use varkiv.Runtime.Names.{base}
use varkiv.Bundler.Files.{has_prefix}
use varkiv.Runtime.Artifacts.{Artifact, select_launch_artifact}
use varkiv.Runtime.Arguments.{
  LaunchError, ids_required, no_rows, not_enabled, wrong_platform, wrong_target, no_artifact,
  no_core, render_argument, value_of,
}

pub record EditionRow : Type 0 where
  pub id : Text
  pub game_id : Text
  pub display_title : Text
  pub save_namespace : Text
  pub serial : Text
  pub product_code : Text
  pub title_id : Text
  pub artifacts : List Artifact

pub record GameRow : Type 0 where
  pub id : Text
  pub platform : Text

pub record DeviceRow : Type 0 where
  pub id : Text
  pub target : Text
  pub os_family : Text
  pub default_frontend_id : Text
  pub paths : Map Text
  pub enabled : Bool

-- An empty device profile, frontend or core stands for NULL.
pub record LaunchBinding : Type 0 where
  pub edition_id : Text
  pub device_profile_id : Text
  pub driver_id : Text
  pub frontend_adapter_id : Text
  pub core_id : Text
  pub arguments : List Text
  pub enabled : Bool

pub record Driver : Type 0 where
  pub id : Text
  pub platforms : List Text
  pub targets : List Text
  pub enabled : Bool
  pub requires_core : Bool
  pub arguments : List Text
  pub executables : Map (List Text)
  pub android_package : Text
  pub android_activity : Text
  pub android_intent : Option (Text × Text)

pub record Core : Type 0 where
  pub id : Text
  pub library_names : List Text

pub record CoreMapping : Type 0 where
  pub id : Text
  pub platform_id : Text
  pub scope_type : Text
  pub scope_key : Text
  pub core_id : Text
  pub priority : ℤ

pub record LaunchStore : Type 0 where
  pub editions : List EditionRow
  pub games : List GameRow
  pub device_profiles : List DeviceRow
  pub launch_bindings : List LaunchBinding
  pub drivers : List Driver
  pub frontend_adapters : List Text
  pub cores : List Core
  pub core_mappings : List CoreMapping

-- The rows that the launch is made of.
pub record Parts : Type 0 where
  pub edition : EditionRow
  pub game : GameRow
  pub device : DeviceRow
  pub binding : LaunchBinding
  pub driver : Driver

pub record LaunchResolution : Type 0 where
  pub parts : Parts
  pub artifact : Artifact
  pub frontend_adapter : Text
  pub core : Option Core
  pub arguments : List Text
  pub executable_hints : List Text
  pub android_package : Text
  pub android_activity : Text
  pub has_warning : Bool

module _ {A : Type 0} where
  -- The row of a query, in the order of the table.
  abbrev pub first : (A → Bool) → List A → Option A
  first p [] = none
  first p (x ∷ xs) = let rest = first p xs in if p x then some x else rest

abbrev is_dash_or_space : ℕ → Bool
is_dash_or_space c = c == b'-' || c == b' '

abbrev without : (ℕ → Bool) → Text → Text
without p [] = []
without p (c ∷ s) = let rest = without p s in if p c then rest else c ∷ rest

-- s[:n] and s[n:]
abbrev take : ℕ → Text → Text
take n [] = []
take zero (c ∷ s) = []
take (suc n) (c ∷ s) = c ∷ take n s

abbrev drop : ℕ → Text → Text
drop n [] = []
drop zero (c ∷ s) = c ∷ s
drop (suc n) (c ∷ s) = drop n s

abbrev halves : Text → Option (List ℕ) → Text × Text
halves s none = ([], [])
halves s (some bytes) = if length bytes == 8 then (take 8 s, drop 8 s) else ([], [])

-- titleIDParts
unfoldable pub title_id_parts : Text → Text × Text
title_id_parts value = let s = without is_dash_or_space (trim value) in halves s (decode s)

-- portableSourcePath
unfoldable pub portable_source_path : Text → Text
portable_source_path value =
    let path = clean (trim value) in
    if is_empty (trim value)
      || has b'\\' (trim value)
      || has b':' (trim value)
      || is_rooted (trim value)
      || path =ᵗ codes "."
      || path =ᵗ codes ".."
      || has_prefix (codes "../") path
    then []
    else path

-- One query after another.
abbrev pub or_other : {A : Type 0} → Option A → Option A → Option A
or_other none o = o
or_other (some a) o = some a

abbrev is_binding : Text → Text → LaunchBinding → Bool
is_binding edition device b =
    (b.edition_id =ᵗ edition) && (b.device_profile_id =ᵗ device) && b.enabled

-- A binding for the device goes before one for every device.
unfoldable pub resolve_launch_binding : Text → Text → LaunchStore → Option LaunchBinding
resolve_launch_binding edition device st =
    let own = first (is_binding (trim edition) (trim device)) st.launch_bindings in
    let general = first (is_binding (trim edition) []) st.launch_bindings in
    if is_empty (trim device) then general else or_other own general

-- ORDER BY priority DESC,id
abbrev lt_ℤ : ℤ → ℤ → Bool
lt_ℤ (pos a) (pos b) = ltb a b
lt_ℤ (pos a) (negsuc b) = false
lt_ℤ (negsuc a) (pos b) = true
lt_ℤ (negsuc a) (negsuc b) = ltb b a

abbrev goes_before : CoreMapping → CoreMapping → Bool
goes_before a b = lt_ℤ b.priority a.priority || (eq_ℤ a.priority b.priority && text_le a.id b.id)

abbrev preferred : CoreMapping → Option CoreMapping → CoreMapping
preferred a none = a
preferred a (some b) = if goes_before a b then a else b

unfoldable pub best_mapping : (CoreMapping → Bool) → List CoreMapping → Option CoreMapping
best_mapping p [] = none
best_mapping p (x ∷ xs) =
    let rest = best_mapping p xs in if p x then some (preferred x rest) else rest

abbrev is_mapping : Text → Text → Text → CoreMapping → Bool
is_mapping platform scope key c =
    (c.platform_id =ᵗ platform) && (c.scope_type =ᵗ scope) && (c.scope_key =ᵗ key)

-- The loop over the candidates: the first scope with a mapping decides.
unfoldable pub mapping_of : Text → List (Text × Text) → LaunchStore → Option CoreMapping
unfolding best_mapping
mapping_of platform [] st = none
mapping_of platform ((scope, key) ∷ candidates) st =
    let rest = mapping_of platform candidates st in
    let found = best_mapping (is_mapping platform scope key) st.core_mappings in
    if is_empty key && ((scope =ᵗ codes "edition") || (scope =ᵗ codes "device_profile"))
    then rest
    else or_other found rest

abbrev core_of : Option CoreMapping → LaunchStore → Result LaunchError Core
core_of none st = err no_core
core_of (some mapping) st = or_fail (first (λ c. c.id =ᵗ mapping.core_id) st.cores) no_rows

module _ ⦃lib : Stdlib⦄ where
  -- ResolveCore, for a driver that requires a core.
  unfoldable pub resolve_core : Text → Text → Text → LaunchStore → Result LaunchError Core
  unfolding mapping_of
  resolve_core platform edition device st =
      core_of
        (mapping_of (lower (trim platform))
          ((codes "edition", trim edition)
            ∷ (codes "device_profile", trim device)
            ∷ (codes "platform", [])
            ∷ (codes "global", [])
            ∷ [])
          st)
        st

  unfoldable pub choose_core :
      GameRow
      → EditionRow
      → DeviceRow
      → LaunchBinding
      → Driver
      → LaunchStore
      → Result LaunchError (Option Core)
  unfolding resolve_core
  choose_core game edition device binding driver st =
      if not (is_empty binding.core_id)
      then (or_fail (first (λ c. c.id =ᵗ binding.core_id) st.cores) no_rows >>= λ c. ok (some c))
      else if driver.requires_core
      then (resolve_core game.platform edition.id device.id st >>= λ c. ok (some c))
      else ok none

abbrev core_id_of : Option Core → Text
core_id_of none = []
core_id_of (some core) = core.id

abbrev head_of : List Text → Text
head_of [] = []
head_of (t ∷ ts) = t

abbrev library_of : Option Core → Text
library_of none = []
library_of (some core) = head_of core.library_names

-- The map `values`, in one of the orders in which a range may give it.
unfoldable pub launch_values : EditionRow → GameRow → DeviceRow → Artifact → Option Core → Map Text
unfolding title_id_parts portable_source_path value_of
launch_values edition game device artifact core =
    let (high, low) = title_id_parts edition.title_id in
    (codes "edition.id", edition.id)
    ∷ (codes "edition.title", edition.display_title)
    ∷ (codes "edition.save_namespace", edition.save_namespace)
    ∷ (codes "edition.serial", edition.serial)
    ∷ (codes "edition.product_code", edition.product_code)
    ∷ (codes "edition.title_id", edition.title_id)
    ∷ (codes "edition.title_id_high", high)
    ∷ (codes "edition.title_id_low", low)
    ∷ (codes "platform.id", game.platform)
    ∷ (codes "rom.path", artifact.path)
    ∷ (codes "rom.source_path", portable_source_path artifact.source_path)
    ∷ (codes "rom.stem", stem (base artifact.path))
    ∷ (codes "core.id", core_id_of core)
    ∷ (codes "core.library", library_of core)
    ∷ (codes "device.id", device.id)
    ∷ (codes "device.target", device.target)
    ∷ (codes "device.config_dir", value_of (codes "config_dir") device.paths)
    ∷ (codes "device.save_dir", value_of (codes "save_dir") device.paths)
    ∷ (codes "device.core_dir", value_of (codes "core_dir") device.paths)
    ∷ (codes "device.emulator_dir", value_of (codes "emulator_dir") device.paths)
    ∷ []

unfoldable pub render_all : Map Text → List Text → Result LaunchError (List Text)
unfolding render_argument
render_all values [] = ok []
render_all values (a ∷ rest) = do
  rendered ← render_argument a values
  others ← render_all values rest
  ok (rendered ∷ others)

abbrev or_no_hints : Option (List Text) → List Text
or_no_hints none = []
or_no_hints (some hints) = hints

abbrev or_pair : Option (Text × Text) → Text × Text → Text × Text
or_pair none p = p
or_pair (some q) p = q

abbrev android : Driver → DeviceRow → Text × Text
android driver device =
    if device.os_family =ᵗ codes "android"
    then or_pair driver.android_intent (driver.android_package, driver.android_activity)
    else ([], [])

abbrev pub adapter_id : LaunchBinding → DeviceRow → Text
adapter_id binding device =
    if is_empty binding.frontend_adapter_id
    then device.default_frontend_id
    else binding.frontend_adapter_id

unfoldable pub find_parts : Text → Text → LaunchStore → Result LaunchError Parts
unfolding resolve_launch_binding
find_parts edition_id device_profile_id st = do
  edition ← or_fail (first (λ e. e.id =ᵗ edition_id) st.editions) no_rows
  game ← or_fail (first (λ g. g.id =ᵗ edition.game_id) st.games) no_rows
  device ← or_fail (first (λ d. d.id =ᵗ device_profile_id) st.device_profiles) no_rows
  binding ← or_fail (resolve_launch_binding edition_id device_profile_id st) no_rows
  driver ← or_fail (first (λ d. d.id =ᵗ binding.driver_id) st.drivers) no_rows
  ok (record {
    edition = edition;
    game = game;
    device = device;
    binding = binding;
    driver = driver;
  })

unfoldable pub check_parts : Parts → Result LaunchError Unit
check_parts p =
    reject (not p.driver.enabled || not p.device.enabled || not p.binding.enabled) not_enabled
    >> (reject (not (member p.game.platform p.driver.platforms)) wrong_platform
        >> reject (not (member p.device.target p.driver.targets)) wrong_target)

unfoldable pub check_adapter : Parts → LaunchStore → Result LaunchError Unit
check_adapter p st =
    reject
      (not (is_empty (adapter_id p.binding p.device))
        && not (member (adapter_id p.binding p.device) st.frontend_adapters))
      no_rows

abbrev pub templates : Parts → List Text
templates p = if is_empty p.binding.arguments then p.driver.arguments else p.binding.arguments

unfoldable pub resolution : Parts → Artifact → Option Core → List Text → LaunchResolution
resolution p artifact core arguments = record {
  parts = p;
  artifact = artifact;
  frontend_adapter = adapter_id p.binding p.device;
  core = core;
  arguments = arguments;
  executable_hints = or_no_hints (lookup p.device.target p.driver.executables);
  android_package = (android p.driver p.device).0;
  android_activity = (android p.driver p.device).1;
  has_warning =
      is_empty (or_no_hints (lookup p.device.target p.driver.executables))
      && is_empty (android p.driver p.device).0;
}

module _ ⦃lib : Stdlib⦄ (arrange : Map Text → Map Text) where
  unfoldable pub complete_launch : Parts → LaunchStore → Result LaunchError LaunchResolution
  unfolding select_launch_artifact check_adapter choose_core launch_values render_all resolution
  complete_launch p st = do
    (index, artifact) ← or_fail (select_launch_artifact p.edition.artifacts) no_artifact
    check_adapter p st
    core ← choose_core p.game p.edition p.device p.binding p.driver st
    arguments ←
        render_all (arrange (launch_values p.edition p.game p.device artifact core)) (templates p)
    ok (resolution p artifact core arguments)

  unfoldable pub resolve : Text → Text → LaunchStore → Result LaunchError LaunchResolution
  unfolding find_parts check_parts complete_launch
  resolve edition_id device_profile_id st = do
    reject (is_empty (trim edition_id) || is_empty (trim device_profile_id)) ids_required
    parts ← find_parts (trim edition_id) (trim device_profile_id) st
    check_parts parts
    complete_launch parts st
