-- ===== src/Agent/LocalSets.antt =====
-- The content hash of a set, addLocalFile, stableSingleFileLogicalPath, collectLocalSets,
-- resolveDeviceLocalROMStems and reconcileDeviceTarget of internal/deviceagent/sync.go.
use varkiv.Common.{
  ℕ, ◌+◌, pos, Text, codes, Stdlib, trim, lower, byte_len, format_int, Bool, not, ◌&&◌, ◌||◌, ◌==◌,
  ltb, leb, ◌=ᵗ◌, member, Option, none, some, List, [], ◌∷◌, ◌++◌, is_empty, any, all, length,
  Result, ok, err, if◌then◌else◌, reject, ◌>>=◌, ◌>>◌,
}
use varkiv.Common.Maps.{Map, lookup, insert}
use varkiv.Common.Sorting.{text_le, sort_by}
use varkiv.Paths.SaveLogical.{
  PathError, clean_save_logical, max_save_revision_bytes, max_save_revision_files,
}
use varkiv.Runtime.Names.{ext}
use varkiv.Agent.Model.{
  LocalFile, LocalSet, AgentError, over_limit, unsafe_logical_path, duplicate_path, unreadable,
  no_stream_id, inconsistent_binding, ambiguous_stem, target_unavailable, target_drift,
}

-- What is hashed for one file.
unfoldable pub hashed_files : List LocalFile → Text
hashed_files [] = []
hashed_files (f ∷ fs) =
    f.logical_path ++ 0 ∷ f.checksum ++ 0 ∷ format_int (pos f.size) ++ 0 ∷ hashed_files fs

abbrev pub by_path : LocalFile → LocalFile → Bool
by_path a b = text_le a.logical_path b.logical_path

abbrev portable : Result PathError Text → Result AgentError Text
portable (ok p) = ok p
portable (err e) = err unsafe_logical_path

abbrev without_dot : Text → Text
without_dot [] = []
without_dot (c ∷ s) = if c == b'.' then s else c ∷ s

-- [a-z0-9]
abbrev is_plain : ℕ → Bool
is_plain c = (leb b'a' c && leb c b'z') || (leb b'0' c && leb c b'9')

module _ ⦃lib : Stdlib⦄ where
  unfoldable pub content_hash : List LocalFile → Text
  unfolding hashed_files sort_by
  content_hash files = lib.sha256 (hashed_files (sort_by by_path files))

  unfoldable pub portable_logical_path : Text → Result AgentError Text
  unfolding clean_save_logical
  portable_logical_path value = portable (clean_save_logical value)

  -- The file is regular, and its content and mode are what was found.
  unfoldable pub append_file : Text → ℕ → Option (List ℕ) → LocalSet → Result AgentError LocalSet
  append_file logical mode none set = err unreadable
  append_file logical mode (some bytes) set =
      reject
        (ltb max_save_revision_bytes (set.total_size + length bytes)
          || leb max_save_revision_files (length set.files))
        over_limit
      >> ok (record set {
        files =
            set.files
            ++ record {
              logical_path = logical;
              checksum = lib.sha256_bytes bytes;
              size = length bytes;
              mode = mode;
              content = some bytes;
            }
              ∷ [];
        total_size = set.total_size + length bytes;
      })

  unfoldable pub add_local_file : Text → ℕ → Option (List ℕ) → LocalSet → Result AgentError LocalSet
  unfolding portable_logical_path append_file
  add_local_file value mode bytes set = do
    logical ← portable_logical_path value
    reject (any (λ f. f.logical_path =ᵗ logical) set.files) duplicate_path
    append_file logical mode bytes set

  unfoldable pub add_local_files :
      List (Text × ℕ × Option (List ℕ)) → LocalSet → Result AgentError LocalSet
  unfolding add_local_file
  add_local_files [] set = ok set
  add_local_files ((value, mode, bytes) ∷ found) set = do
    next ← add_local_file value mode bytes set
    add_local_files found next

  -- enumerateBinding, whose walk has found these files at these paths.
  unfoldable pub enumerate_binding :
      List Text → List (Text × ℕ × Option (List ℕ)) → Result AgentError LocalSet
  unfolding add_local_files content_hash
  enumerate_binding paths found = do
    set ←
        add_local_files found
          (record { rendered_paths = paths; files = []; content_hash = []; total_size = 0 })
    ok (record set { content_hash = if is_empty set.files then [] else content_hash set.files })

  unfoldable pub stable_single_file_logical_path : Text → Text
  stable_single_file_logical_path path =
      let extension = without_dot (lower (ext path)) in
      if is_empty extension || ltb 16 (byte_len extension) || not (all is_plain extension)
      then codes "primary"
      else codes "primary." ++ extension

abbrev collect_one :
    Text
    → LocalSet
    → Text
    → Option Text
    → Map LocalSet
    → Map Text
    → Result AgentError (Map LocalSet × Map Text)
collect_one stream set new none sets identities =
    ok (insert stream set sets, insert stream new identities)
collect_one stream set new (some previous) sets identities =
    reject (not (previous =ᵗ new)) inconsistent_binding >> ok (sets, identities)

-- One binding after another: `identity` is localSetBindingIdentity, whose JSON text is hashed.
unfoldable pub collect_local_sets :
    (LocalSet → Text)
    → List (Text × Result AgentError LocalSet)
    → Map LocalSet
    → Map Text
    → Result AgentError (Map LocalSet)
collect_local_sets identity [] sets identities = ok sets
collect_local_sets identity ((stream, found) ∷ bindings) sets identities = do
  reject (is_empty (trim stream)) no_stream_id
  set ← found
  next ←
      collect_one (trim stream) set (identity set) (lookup (trim stream) identities) sets identities
  collect_local_sets identity bindings next.0 next.1

-- A file of the inventory, by its platform, digest and local name.
pub record LocalRomName : Type 0 where
  pub platform_id : Text
  pub sha256 : Text
  pub stem : Text

-- The set `stems`.
unfoldable pub stems_of : Text → Text → List LocalRomName → List Text
stems_of platform hash [] = []
stems_of platform hash (name ∷ names) =
    let rest = stems_of platform hash names in
    if name.platform_id =ᵗ platform
      && name.sha256 =ᵗ hash
      && not (is_empty (trim name.stem))
      && not (member name.stem rest)
    then name.stem ∷ rest
    else rest

abbrev pub one_stem : Text → List Text → Result AgentError Text
one_stem before [] = ok before
one_stem before (stem ∷ []) = ok stem
one_stem before (stem ∷ other ∷ stems) = err ambiguous_stem

module _ ⦃lib : Stdlib⦄ where
  -- The name of a binding whose paths use {{rom.stem}}.
  unfoldable pub resolve_device_local_rom_stem :
      Text → Text → Text → List LocalRomName → Result AgentError Text
  unfolding stems_of
  resolve_device_local_rom_stem platform match_sha256 before names =
      let hash = lower (trim match_sha256) in
      let found = one_stem before (stems_of platform hash names) in
      if is_empty hash then ok before else found

  -- The target that the configuration then holds.
  unfoldable pub reconcile_device_target : Text → Text → Result AgentError Text
  reconcile_device_target configured remote =
      let target = lower (trim remote) in
      if is_empty target
      then err target_unavailable
      else if not (is_empty configured) && not (configured =ᵗ target)
      then err target_drift
      else ok target
