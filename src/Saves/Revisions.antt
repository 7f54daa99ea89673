-- ===== src/Saves/Revisions.antt =====
-- AddSaveRevision of internal/catalog/save_store.go and what it calls: one transaction, whose
-- statements fail where the schema refuses the row.
use varkiv.Saves.Streams.{ensure_legacy_stream}
use varkiv.Common.{
  ℕ, suc, ◌+◌, ◌-◌, ℤ, pos, negsuc, is_negative, Text, codes, Stdlib, trim, format_int, Bool, not,
  ◌&&◌, ◌||◌, ◌=ᵗ◌, ltb, member, List, [], ◌∷◌, ◌++◌, map, any, is_empty, length, Result, ok, err,
  if◌then◌else◌, reject, ◌>>=◌, ◌>>◌,
}
use varkiv.Common.Sorting.{text_le, sort_by}
use varkiv.Paths.SaveLogical.{
  PathError, clean_save_logical, max_save_revision_bytes, max_save_revision_files,
}
use varkiv.Saves.Model.{
  Store, RevisionRow, SaveFile, SaveRevision, SaveError, DeviceRow, NewSaveFile, NewSaveRevision,
  Draws, Outcome, constraint, device_required, file_count, unsafe_path, duplicate_path, bad_file,
  too_large, bad_status,
}
use varkiv.Saves.Queries.{is_current, get_save_revision}

unfoldable pub add_save_revision_size : ℤ → ℤ → Result SaveError ℤ
add_save_revision_size (pos total) (pos size) =
    if ltb max_save_revision_bytes total || ltb (max_save_revision_bytes - total) size
    then err too_large
    else ok (pos (total + size))
add_save_revision_size (pos total) (negsuc size) = err too_large
add_save_revision_size (negsuc total) size = err too_large

-- What is hashed for one file: its path, checksum and size, each ended by a zero byte.
unfoldable pub hashed_fields : List NewSaveFile → Text
hashed_fields [] = []
hashed_fields (f ∷ fs) =
    f.logical_path ++ 0 ∷ f.checksum ++ 0 ∷ format_int f.size ++ 0 ∷ hashed_fields fs

-- The loop of AddSaveRevision over the files: the cleaned files and their total size.
abbrev pub with_path : Text → Text → NewSaveFile → NewSaveFile
with_path path id f = record {
  id = if is_empty f.id then id else f.id;
  logical_path = path;
  checksum = f.checksum;
  size = f.size;
  blob_path = f.blob_path;
  mtime_ns = f.mtime_ns;
  mode = f.mode;
}

abbrev safe : Result PathError Text → Result SaveError Text
safe (ok p) = ok p
safe (err e) = err unsafe_path

module _ ⦃lib : Stdlib⦄ where
  unfoldable pub revision_content_hash : List NewSaveFile → Text
  unfolding hashed_fields sort_by text_le
  revision_content_hash files =
      lib.sha256 (hashed_fields (sort_by (λ a b. text_le a.logical_path b.logical_path) files))

  unfoldable pub clean_save_logical_path : Text → Result SaveError Text
  unfolding clean_save_logical
  clean_save_logical_path value = safe (clean_save_logical value)

  unfoldable pub clean_files :
      Draws → ℕ → List Text → ℤ → List NewSaveFile → Result SaveError (List NewSaveFile × ℤ)
  unfolding clean_save_logical_path add_save_revision_size
  clean_files d index seen total [] = ok ([], total)
  clean_files d index seen total (f ∷ fs) = do
    path ← clean_save_logical_path f.logical_path
    reject (member path seen) duplicate_path
    reject (is_empty (trim f.checksum) || is_empty (trim f.blob_path) || is_negative f.size)
        bad_file
    sum ← add_save_revision_size total f.size
    (rest, all) ← clean_files d (suc index) (path ∷ seen) sum fs
    ok (with_path path (d.file_id index) f ∷ rest, all)

-- A file of the revision that is given by itself.
unfoldable pub revision_files : NewSaveRevision → List NewSaveFile
revision_files i =
    if is_empty i.files
    then record {
      id = [];
      logical_path = i.relative_path;
      checksum = i.checksum;
      size = i.size;
      blob_path = i.blob_path;
      mtime_ns = pos 0;
      mode = pos 0;
    }
      ∷ []
    else i.files

abbrev pub default_status : NewSaveRevision → Text
default_status i =
    if is_empty i.status
    then (if i.conflict then codes "conflict" else codes "current")
    else i.status

abbrev pub is_status : Text → Bool
is_status s =
    (s =ᵗ codes "current")
    || (s =ᵗ codes "superseded")
    || (s =ᵗ codes "conflict")
    || (s =ᵗ codes "quarantined")

-- UPDATE save_revisions SET status='superseded' WHERE stream_id=? AND status='current'
abbrev pub with_status : Text → RevisionRow → RevisionRow
with_status s r = record {
  id = r.id;
  stream_id = r.stream_id;
  device_id = r.device_id;
  parent_revision_id = r.parent_revision_id;
  content_hash = r.content_hash;
  total_size = r.total_size;
  file_count = r.file_count;
  status = s;
  created_at = r.created_at;
}

abbrev pub mark : Text → RevisionRow → RevisionRow
mark stream r = if is_current stream r then with_status (codes "superseded") r else r

unfoldable pub supersede : Text → List RevisionRow → List RevisionRow
supersede stream = map (mark stream)

abbrev pub set_revisions : List RevisionRow → Store → Store
set_revisions rs st = record {
  editions = st.editions;
  devices = st.devices;
  streams = st.streams;
  stream_editions = st.stream_editions;
  revisions = rs;
  files = st.files;
}

-- INSERT INTO save_files for each file: the id is unique, and so is the path in the revision.
unfoldable pub insert_files :
    Text → List NewSaveFile → List SaveFile → Result SaveError (List SaveFile)
insert_files revision [] rows = ok rows
insert_files revision (f ∷ fs) rows = do
  reject
      (any
        (λ r. (r.id =ᵗ f.id) || ((r.revision_id =ᵗ revision) && (r.logical_path =ᵗ f.logical_path)))
        rows)
      constraint
  insert_files revision fs (
      record {
        id = f.id;
        revision_id = revision;
        logical_path = f.logical_path;
        checksum = f.checksum;
        size = f.size;
        blob_path = f.blob_path;
        mtime_ns = f.mtime_ns;
        mode = f.mode;
      }
      ∷ rows)

-- The row is refused when its id is taken or its device or its parent is missing.
unfoldable pub insert_revision : RevisionRow → Store → Result SaveError (List RevisionRow)
insert_revision r st = do
  reject (any (λ s. s.id =ᵗ r.id) st.revisions) constraint
  reject (not (any (λ d. d.id =ᵗ r.device_id) st.devices)) constraint
  reject
      (not (is_empty r.parent_revision_id)
        && not (any (λ s. s.id =ᵗ r.parent_revision_id) st.revisions))
      constraint
  ok (r ∷ st.revisions)

-- UPDATE devices SET last_seen_at=?,updated_at=? WHERE id=?
abbrev seen : Text → Text → DeviceRow → DeviceRow
seen device time d =
    if d.id =ᵗ device then record { id = d.id; updated_at = time; last_seen_at = time } else d

-- The statements of the transaction after the stream is known.
unfoldable pub write_revision : RevisionRow → List NewSaveFile → Store → Result SaveError Store
unfolding supersede insert_revision insert_files
write_revision row files st =
    let before =
      if row.status =ᵗ codes "current"
      then supersede row.stream_id st.revisions
      else st.revisions in
    do
      rows ← insert_revision row (set_revisions before st)
      all ← insert_files row.id files st.files
      ok (record {
        editions = st.editions;
        devices = map (seen row.device_id row.created_at) st.devices;
        streams = st.streams;
        stream_editions = st.stream_editions;
        revisions = rows;
        files = all;
      })

abbrev pub or_else : Text → Text → Text
or_else a b = if is_empty a then b else a

-- A transaction that fails leaves the store as it was.
abbrev pub commit :
    Store
    → Result SaveError Store
    → (Store → Result SaveError SaveRevision)
    → Outcome Store SaveRevision
commit st (ok new) read = (new, read new)
commit st (err e) read = (st, err e)

module _ ⦃lib : Stdlib⦄ where
  unfoldable pub new_row : Draws → NewSaveRevision → List NewSaveFile → ℤ → Text → RevisionRow
  unfolding revision_content_hash
  new_row d i files total stream = record {
    id = or_else i.id d.revision_id;
    stream_id = stream;
    device_id = i.device_id;
    parent_revision_id = or_else i.parent_revision_id i.base_revision_id;
    content_hash = or_else i.content_hash (revision_content_hash files);
    total_size = total;
    file_count = length files;
    status = default_status i;
    created_at = d.time;
  }

  unfoldable pub save_transaction : Draws → NewSaveRevision → Store → Result SaveError Store
  unfolding revision_files clean_files ensure_legacy_stream new_row write_revision
  save_transaction d i st = do
    reject (is_empty i.device_id) device_required
    reject (ltb max_save_revision_files (length (revision_files i))) file_count
    (files, total) ← clean_files d 0 [] (pos 0) (revision_files i)
    reject (not (is_status (default_status i))) bad_status
    (stream, st) ← ensure_legacy_stream d i st
    write_revision (new_row d i files total stream) files st

  unfoldable pub add_save_revision : Draws → NewSaveRevision → Store → Outcome Store SaveRevision
  unfolding save_transaction
  add_save_revision d i st =
      commit st (save_transaction d i st) (get_save_revision (or_else i.id d.revision_id))
