-- ===== src/Runtime/Tests.antt =====
-- A small catalog of launches, and the theorems at it.
use varkiv.Common.{
  ℕ, ◌≡◌, refl, codes, Text, Stdlib, pos, true, false, some, none, Option, List, [], ◌∷◌, ok, err,
  Result, ◌<◌, suc, length, arith, ◌++◌,
}
use varkiv.Common.Maps.{Map}
use varkiv.Runtime.Artifacts.{Artifact, select_launch_artifact}
use varkiv.Runtime.Selection.{IsFound, select_launch_artifact-IsFound}
use varkiv.Runtime.Arguments.{unresolved, render_argument, variables_loop, regexp_variables}
use varkiv.Runtime.Variables.{variables_loop_ends}
use varkiv.Runtime.Resolver.{EditionRow, LaunchStore, LaunchResolution, resolve}
use varkiv.Runtime.Resolving.{is_runnable, resolve-is_runnable}

-- No case beyond ASCII.
instance abbrev plain : Stdlib
plain = record { lower_wide = λ c. c; upper_wide = λ c. c; sha256 = λ t. t; sha256_bytes = λ t. t }

abbrev artifact : Text → Text → Artifact
artifact path role = record {
  path = path;
  source_path = [];
  role = role;
  disc_index = pos 0;
  missing = false;
}

abbrev discs : List Artifact
discs = artifact (codes "g.iso") (codes "rom") ∷ artifact (codes "g.m3u") (codes "rom") ∷ []

select_launch_artifact-IsFound_example : IsFound (select_launch_artifact discs) discs
select_launch_artifact-IsFound_example = select_launch_artifact-IsFound discs

playlist_first : select_launch_artifact discs ≡ some (1, artifact (codes "g.m3u") (codes "rom"))
unfolding select_launch_artifact varkiv.Runtime.Artifacts.is_launch_artifact_role
    varkiv.Common.lower varkiv.Common.trim varkiv.Common.◌=ᵗ◌ varkiv.Runtime.Artifacts.score
    varkiv.Runtime.Names.ext
playlist_first = refl

variables_loop_ends_example :
    variables_loop 20 (codes "-L {{a}} {{b}}") ≡ some (regexp_variables (codes "-L {{a}} {{b}}"))
variables_loop_ends_example = variables_loop_ends 20 (codes "-L {{a}} {{b}}") (omega arith)

both_named : regexp_variables (codes "-L {{a}} {{b}}") ≡ codes "a" ∷ codes "b" ∷ []
unfolding regexp_variables
both_named = refl

abbrev titled : Text × Text
titled = (codes "edition.title", codes "{{rom.path}}")

abbrev located : Text × Text
located = (codes "rom.path", codes "r")

-- The same map in two orders.
title_first : render_argument (codes "{{edition.title}}") (titled ∷ located ∷ []) ≡ ok (codes "r")
unfolding render_argument varkiv.Common.byte_len varkiv.Common.◌=ᵗ◌ varkiv.Common.trim
    varkiv.Common.Maps.lookup varkiv.Runtime.Names.has_twice
title_first = refl

title_last : render_argument (codes "{{edition.title}}") (located ∷ titled ∷ []) ≡ err unresolved
unfolding render_argument varkiv.Common.byte_len varkiv.Common.◌=ᵗ◌ varkiv.Common.trim
    varkiv.Common.Maps.lookup varkiv.Runtime.Names.has_twice
title_last = refl

abbrev edition : EditionRow
edition = record {
  id = codes "e";
  game_id = codes "g";
  display_title = codes "t";
  save_namespace = codes "n";
  serial = [];
  product_code = [];
  title_id = [];
  artifacts = artifact (codes "r") (codes "rom") ∷ [];
}

abbrev store : LaunchStore
store = record {
  editions = edition ∷ [];
  games = record { id = codes "g"; platform = codes "gba" } ∷ [];
  device_profiles =
      record {
        id = codes "d";
        target = codes "linux";
        os_family = codes "linux";
        default_frontend_id = [];
        paths = [];
        enabled = true;
      }
      ∷ [];
  launch_bindings =
      record {
        edition_id = codes "e";
        device_profile_id = [];
        driver_id = codes "v";
        frontend_adapter_id = [];
        core_id = [];
        arguments = codes "x" ∷ [];
        enabled = true;
      }
      ∷ [];
  drivers =
      record {
        id = codes "v";
        platforms = codes "gba" ∷ [];
        targets = codes "linux" ∷ [];
        enabled = true;
        requires_core = false;
        arguments = [];
        executables = [];
        android_package = [];
        android_activity = [];
        android_intent = none;
      }
      ∷ [];
  frontend_adapters = [];
  cores = [];
  core_mappings = [];
}

abbrev launch : LaunchResolution
launch = record {
  parts = record {
    edition = edition;
    game = record { id = codes "g"; platform = codes "gba" };
    device = record {
      id = codes "d";
      target = codes "linux";
      os_family = codes "linux";
      default_frontend_id = [];
      paths = [];
      enabled = true;
    };
    binding = record {
      edition_id = codes "e";
      device_profile_id = [];
      driver_id = codes "v";
      frontend_adapter_id = [];
      core_id = [];
      arguments = codes "x" ∷ [];
      enabled = true;
    };
    driver = record {
      id = codes "v";
      platforms = codes "gba" ∷ [];
      targets = codes "linux" ∷ [];
      enabled = true;
      requires_core = false;
      arguments = [];
      executables = [];
      android_package = [];
      android_activity = [];
      android_intent = none;
    };
  };
  artifact = artifact (codes "r") (codes "rom");
  frontend_adapter = [];
  core = none;
  arguments = codes "x" ∷ [];
  executable_hints = [];
  android_package = [];
  android_activity = [];
  has_warning = true;
}

resolved_launch : resolve (λ v. v) (codes "e") (codes "d") store ≡ ok launch
unfolding resolve varkiv.Common.trim varkiv.Common.◌=ᵗ◌
    varkiv.Runtime.Artifacts.is_launch_artifact_role varkiv.Common.lower varkiv.Common.byte_len
    varkiv.Runtime.Names.has_twice varkiv.Common.Maps.lookup
resolved_launch = refl

resolve-is_runnable_example : is_runnable launch ≡ true
resolve-is_runnable_example =
    resolve-is_runnable (λ v. v) (codes "e") (codes "d") store launch resolved_launch
