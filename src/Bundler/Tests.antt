-- ===== src/Bundler/Tests.antt =====
-- Packages in a small output, and the theorems at it.
use varkiv.Common.{
  ℕ, ◌≡◌, ◌⊎◌, refl, codes, Text, Stdlib, pos, negsuc, true, false, is_empty, some, none, Option,
  List, [], ◌∷◌, ok, err, all, member,
}
use varkiv.Common.Maps.{Map, lookup, insert}
use varkiv.Bundler.Files.{Files, directory, regular}
use varkiv.Bundler.Model.{PlanItem, Plan, BuildRecovery}
use varkiv.Bundler.Targets.{add_targets}
use varkiv.Bundler.Recovery.{prepare_build_recovery, restore, RecoveryDraws, new_entry}
use varkiv.Bundler.Rollback.{Build, done, write_file, make_directory, has_parents, paths}
use varkiv.Bundler.Snapshot.{restore_undoes}
use varkiv.Bundler.Ownership.{
  add_targets-MayWrite, may_write, has_single_writers, new_plan, is_written,
}
use varkiv.Bundler.References.{reference_twice_managed}
use varkiv.Bundler.Device.{DeviceProfile, DeviceError, apply_device_preflight}
use varkiv.Bundler.Collisions.{apply_device_preflight-Agrees, passes, agrees}

-- No case beyond ASCII, and digests that are the content.
instance abbrev plain : Stdlib
plain = record { lower_wide = λ c. c; upper_wide = λ c. c; sha256 = λ t. t; sha256_bytes = λ t. t }

abbrev item : Text → Text → Text → PlanItem
item target action sha256 = record {
  kind = codes "rom";
  edition_id = codes "e";
  source = target;
  target = target;
  action = action;
  size = pos 1;
  sha256 = sha256;
  detail = [];
}

-- A file of an earlier package.
abbrev output : Files
output = (codes "a", regular (7 ∷ []) 420) ∷ []

abbrev planned_items : List PlanItem
planned_items =
    item (codes "a") (codes "copy") (8 ∷ []) ∷ item (codes "n/c") (codes "generate") (9 ∷ []) ∷ []

abbrev plan : Plan
plan = record { items = planned_items; managed_paths = []; conflicts = []; warnings = [] }

abbrev draws : RecoveryDraws
draws = record { base = ok (codes "/r"); name = codes "x"; describe = λ es. [] }

abbrev recovery : BuildRecovery
recovery = record {
  root = codes "/r/x";
  relative = codes "l/x";
  entries =
      record {
        path = codes "a";
        existed = true;
        sha256 = 7 ∷ [];
        size = 1;
        mode = 420;
        backup_rel = codes "files/a";
      }
      ∷ new_entry (codes "n/c")
      ∷ [];
  files = (codes "snapshot.json", []) ∷ (codes "files/a", 7 ∷ []) ∷ [];
}

prepared :
    prepare_build_recovery (codes "/o") (codes "/r") (codes "l") draws output plan ≡ ok recovery
unfolding prepare_build_recovery varkiv.Bundler.Files.path_within varkiv.Common.◌=ᵗ◌
    varkiv.Paths.Slashes.join varkiv.Paths.Slashes.split varkiv.Paths.Slashes.clean
    varkiv.Bundler.Files.clean_relative varkiv.Common.trim varkiv.Common.Sorting.sort_texts
    varkiv.Common.Sorting.text_le varkiv.Bundler.Targets.is_reserved
    varkiv.Bundler.Files.validate_managed_target_parents varkiv.Bundler.Files.above lookup insert
    varkiv.Bundler.Files.join_path varkiv.Common.Maps.delete
prepared = refl

with_parents : all (has_parents output (paths recovery.entries)) recovery.entries ≡ true
unfolding varkiv.Bundler.Files.above varkiv.Paths.Slashes.split varkiv.Paths.Slashes.clean
    varkiv.Paths.Slashes.join varkiv.Common.◌=ᵗ◌ lookup
with_parents = refl

abbrev made : Files
unfolding insert
made = insert (codes "n") directory output

abbrev written : Files
unfolding insert
written = insert (codes "n/c") (regular (9 ∷ []) 384) made

abbrev failed : Files
unfolding insert
failed = insert (codes "a") (regular (8 ∷ []) 384) written

build : Build (paths recovery.entries) output failed
unfolding varkiv.Common.◌=ᵗ◌ lookup made varkiv.Common.Maps.delete
build = make_directory (codes "n") output failed refl refl (
    write_file (codes "n/c") (9 ∷ []) 384 made failed refl refl
      (write_file (codes "a") (8 ∷ []) 384 written failed refl refl (done failed)))

restore_undoes_example :
    ((restore recovery failed).1 ≡ [])
    × ((lookup (codes "a") (restore recovery failed).0 ≡ lookup (codes "a") output)
        ⊎ ((member (codes "a") (paths recovery.entries) ≡ false)
            × (lookup (codes "a") output ≡ none)
            × (lookup (codes "a") (restore recovery failed).0 ≡ some directory)))
restore_undoes_example =
    restore_undoes (codes "/o") (codes "/r") (codes "l") draws output failed plan recovery
      (codes "a") prepared with_parents build

abbrev manifest : Map Text
manifest = (codes "a", 7 ∷ []) ∷ []

no_conflict : is_empty (add_targets output manifest planned_items new_plan).plan.conflicts ≡ true
unfolding add_targets varkiv.Common.◌=ᵗ◌ varkiv.Bundler.Files.has_prefix lookup insert
    varkiv.Common.Maps.delete
no_conflict = refl

add_targets-MayWrite_example :
    (all (may_write output manifest) (add_targets output manifest planned_items new_plan).plan.items
      ≡ true)
    × (has_single_writers (add_targets output manifest planned_items new_plan).plan.items ≡ true)
add_targets-MayWrite_example = add_targets-MayWrite output manifest planned_items no_conflict

-- A file that the last package did not leave so is not overwritten.
modified :
    (add_targets output ((codes "a", 6 ∷ []) ∷ []) planned_items new_plan).plan.conflicts
    ≡ codes "a" ∷ []
unfolding add_targets varkiv.Common.◌=ᵗ◌ varkiv.Bundler.Files.has_prefix lookup insert
    varkiv.Common.Maps.delete
modified = refl

abbrev cover : PlanItem
cover = item (codes "c.png") (codes "reference") (5 ∷ [])

abbrev rom : PlanItem
rom = item (codes "a") (codes "reference") (6 ∷ [])

covers : List PlanItem
covers = rom ∷ cover ∷ rom ∷ cover ∷ rom ∷ []

reference_twice_managed_example :
    (member (codes "c.png") (add_targets output [] covers new_plan).plan.managed_paths ≡ true)
    × (is_written (codes "c.png") (add_targets output [] covers new_plan).plan.items ≡ false)
unfolding covers varkiv.Common.◌=ᵗ◌ varkiv.Bundler.Targets.is_reserved
    varkiv.Bundler.Files.has_prefix lookup
reference_twice_managed_example =
    reference_twice_managed output [] cover cover (rom ∷ []) (rom ∷ []) (rom ∷ []) refl refl refl

abbrev device : DeviceProfile
device = record {
  id = codes "d";
  target = codes "windows";
  path_style = codes "windows";
  case_sensitive = false;
  max_path = pos 200;
  illegal_characters = codes "<>:";
  supports_hardlink = false;
  enabled = true;
}

abbrev two_cases : Plan
two_cases = record {
  items =
      item (codes "R.bin") (codes "copy") (5 ∷ [])
      ∷ item (codes "r.bin") (codes "copy") (6 ∷ [])
      ∷ [];
  managed_paths = [];
  conflicts = [];
  warnings = [];
}

abbrev checked : Plan
unfolding apply_device_preflight
checked = apply_device_preflight device (λ e. []) (codes "windows") (codes "copy") two_cases

collision_found : checked.conflicts ≡ codes "R.bin" ∷ codes "r.bin" ∷ []
unfolding checked varkiv.Common.◌=ᵗ◌ varkiv.Common.trim varkiv.Paths.Slashes.split
    varkiv.Paths.SaveLogical.ends_with varkiv.Common.upper lookup insert varkiv.Common.lower
    varkiv.Bundler.Device.target_at
collision_found = refl

apply_device_preflight-Agrees_example :
    (all (passes device) checked.items ≡ true)
    × (all (λ a. all (agrees device a) checked.items) checked.items ≡ true)
unfolding apply_device_preflight
apply_device_preflight-Agrees_example =
    apply_device_preflight-Agrees device (λ e. []) (codes "windows") (codes "copy") two_cases
