-- ===== src/Bundler/Recovery.antt =====
-- internal/bundler/recovery.go, and copyAtomic of bundler.go. The node and the files of the output
-- are those that package os reports; the names drawn and the encoded snapshot are arguments.
use varkiv.Common.{
  ℕ, Text, codes, Stdlib, Bool, true, false, not, ◌&&◌, ◌||◌, ◌=ᵗ◌, Option, none, some, List, [],
  ◌∷◌, ◌++◌, is_empty, any, member, length, Result, ok, err, if◌then◌else◌, reject, ◌>>=◌, ◌>>◌,
}
use varkiv.Common.Maps.{Map, lookup, insert, delete}
use varkiv.Common.Sorting.{sort_texts}
use varkiv.Paths.Slashes.{clean}
use varkiv.Bundler.Files.{
  Node, directory, regular, special, Files, content, is_directory, join_path, above, path_within,
  BundleError, not_independent, reserved_target, not_regular, file_exists, no_snapshot, bad_copy,
  clean_relative, validate_managed_target_parents,
}
use varkiv.Bundler.Model.{PlanItem, Plan, RecoveryEntry, BuildRecovery}
use varkiv.Bundler.Targets.{is_reserved}

unfoldable pub action_writes_target : Text → Bool
action_writes_target action = not (
    (action =ᵗ codes "unchanged")
    || (action =ᵗ codes "reference")
    || (action =ᵗ codes "missing")
    || (action =ᵗ codes "conflict")
    || (action =ᵗ codes "deduplicated"))

-- The keys of the map `targets`.
unfoldable pub written_targets : List PlanItem → List Text
unfolding action_writes_target
written_targets [] = []
written_targets (item ∷ items) =
    let rest = written_targets items in
    if action_writes_target item.action && not (member item.target rest)
    then item.target ∷ rest
    else rest

abbrev pub new_entry : Text → RecoveryEntry
new_entry path = record {
  path = path;
  existed = false;
  sha256 = [];
  size = 0;
  mode = 0;
  backup_rel = [];
}

module _ ⦃lib : Stdlib⦄ where
  -- The entry of a target by what os.Lstat reports.
  unfoldable pub inspect_node : Text → Option Node → Result BundleError RecoveryEntry
  inspect_node path none = ok (new_entry path)
  inspect_node path (some directory) = err not_regular
  inspect_node path (some (special bytes)) = err not_regular
  inspect_node path (some (regular bytes mode)) = ok (record (new_entry path) {
    existed = true;
    sha256 = lib.sha256_bytes bytes;
    size = length bytes;
    mode = mode;
  })

  unfoldable pub inspect_target : Files → Text → Result BundleError RecoveryEntry
  unfolding inspect_node
  inspect_target fs portable = do
    path ← clean_relative portable
    reject (is_reserved path) reserved_target
    validate_managed_target_parents fs path
    inspect_node path (lookup path fs)

  unfoldable pub inspect_targets : Files → List Text → Result BundleError (List RecoveryEntry)
  unfolding inspect_target
  inspect_targets fs [] = ok []
  inspect_targets fs (path ∷ paths) = do
    entry ← inspect_target fs path
    entries ← inspect_targets fs paths
    ok (entry ∷ entries)

abbrev pub write_absent :
    Text → Option (List ℕ) → List ℕ → Map (List ℕ) → Result BundleError (Map (List ℕ))
write_absent path none bytes files = ok (insert path bytes files)
write_absent path (some old) bytes files = err file_exists

-- copyRecoveryExclusive and writeRecoveryExclusive for what was read.
unfoldable pub write_exclusive :
    Text → Option (List ℕ) → Map (List ℕ) → Result BundleError (Map (List ℕ))
write_exclusive path none files = err bad_copy
write_exclusive path (some bytes) files = write_absent path (lookup path files) bytes files

abbrev pub read : Option Node → Option (List ℕ)
read none = none
read (some node) = content node

-- The loop that copies what existed.
unfoldable pub save_entry :
    Files → RecoveryEntry → Map (List ℕ) → Result BundleError (RecoveryEntry × Map (List ℕ))
unfolding write_exclusive
save_entry fs e files =
    let backup = join_path (codes "files") e.path in
    if e.existed
    then (write_exclusive backup (read (lookup e.path fs)) files >>= λ written.
        ok (record e { backup_rel = backup }, written))
    else ok (e, files)

unfoldable pub snapshot :
    Files
    → List RecoveryEntry
    → Map (List ℕ)
    → Result BundleError (List RecoveryEntry × Map (List ℕ))
unfolding save_entry
snapshot fs [] files = ok ([], files)
snapshot fs (e ∷ es) files = do
  (saved, written) ← save_entry fs e files
  (rest, all) ← snapshot fs es written
  ok (saved ∷ rest, all)

-- What prepareBuildRecovery draws: the result of ensureRecoveryDirectory, the name of the fresh
-- directory, and the bytes of the snapshot's description.
pub record RecoveryDraws : Type 0 where
  pub base : Result BundleError Text
  pub name : Text
  pub describe : List RecoveryEntry → List ℕ

unfoldable pub take_snapshot :
    RecoveryDraws → Text → Files → List RecoveryEntry → Result BundleError BuildRecovery
unfolding snapshot
take_snapshot d locator fs entries = do
  base ← d.base
  (saved, files) ← snapshot fs entries []
  all ← write_exclusive (codes "snapshot.json") (some (d.describe saved)) files
  ok (record {
    root = base ++ b'/' ∷ d.name;
    relative = join_path locator d.name;
    entries = saved;
    files = all;
  })

module _ ⦃lib : Stdlib⦄ where
  unfoldable pub prepare_build_recovery :
      Text → Text → Text → RecoveryDraws → Files → Plan → Result BundleError BuildRecovery
  unfolding inspect_targets take_snapshot written_targets
  prepare_build_recovery out recovery_base locator d fs plan = do
    reject
        (path_within (clean out) (clean recovery_base)
          || path_within (clean recovery_base) (clean out))
        not_independent
    place ← clean_relative locator
    entries ← inspect_targets fs (sort_texts (written_targets plan.items))
    if any (λ e. e.existed) entries
        then take_snapshot d place fs entries
        else ok (record { root = []; relative = []; entries = entries; files = [] })

-- The directory of a path, where a file is made for it.
unfoldable pub has_directory : Files → List Text → Bool
has_directory fs [] = true
has_directory fs (p ∷ []) = is_directory (lookup p fs)
has_directory fs (p ∷ q ∷ ps) = has_directory fs (q ∷ ps)

-- copyAtomic, whose last step replaces the target unless it is a directory, and os.Chmod
unfoldable pub copy_atomic : Text → Option (List ℕ) → ℕ → Files → Result BundleError Files
unfolding has_directory
copy_atomic target none mode fs = err bad_copy
copy_atomic target (some bytes) mode fs =
    if has_directory fs (above target) && not (is_directory (lookup target fs))
    then ok (insert target (regular bytes mode) fs)
    else err bad_copy

unfoldable pub remove_new : Text → Option Node → Files → Result BundleError Files
remove_new target none fs = ok fs
remove_new target (some directory) fs = err not_regular
remove_new target (some (special bytes)) fs = err not_regular
remove_new target (some (regular bytes mode)) fs = ok (delete target fs)

-- The body of the loop of restore.
unfoldable pub restore_entry : BuildRecovery → RecoveryEntry → Files → Result BundleError Files
unfolding copy_atomic remove_new
restore_entry r e fs = do
  validate_managed_target_parents fs e.path
  if e.existed
      then (reject (is_empty r.root || is_empty e.backup_rel) no_snapshot
          >> copy_atomic e.path (lookup e.backup_rel r.files) e.mode fs)
      else remove_new e.path (lookup e.path fs) fs

-- The files after an entry, and the errors so far.
abbrev pub collect : Result BundleError Files → Files × List BundleError → Files × List BundleError
collect (ok fs) (old, errors) = (fs, errors)
collect (err e) (old, errors) = (old, errors ++ e ∷ [])

unfoldable pub restore_entries :
    BuildRecovery → List RecoveryEntry → Files × List BundleError → Files × List BundleError
unfolding restore_entry
restore_entries r [] (fs, errors) = (fs, errors)
restore_entries r (e ∷ es) (fs, errors) =
    restore_entries r es (collect (restore_entry r e fs) (fs, errors))

unfoldable pub restore : BuildRecovery → Files → Files × List BundleError
unfolding restore_entries
restore r fs = restore_entries r r.entries (fs, [])
