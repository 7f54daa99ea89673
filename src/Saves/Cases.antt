-- ===== src/Saves/Cases.antt =====
-- What a transaction of AddSaveRevision did when it was committed.
use varkiv.Common.{
  ◌≡◌, refl, ◌≤◌, ℤ, pos, Text, codes, Stdlib, List, [], ◌∷◌, ◌=ᵗ◌, ok, arith, length,
  if◌then◌else◌, bind_ok, reject_bind_ok, ltb, is_empty, not,
}
use varkiv.Saves.Model.{
  Store, NewSaveFile, NewSaveRevision, Draws, RevisionRow, file_count, device_required, bad_status,
}
use varkiv.Saves.Streams.{
  ensure_legacy_stream, owned_stream, link_stream, create_stream, link_edition, insert_stream,
}
use varkiv.Saves.Revisions.{
  clean_files, new_row, write_revision, insert_revision, insert_files, supersede, revision_files,
  save_transaction, is_status, default_status,
}
use varkiv.Paths.SaveLogical.{max_save_revision_files}

-- Only streams and links are written before the revision.
pub record IsExtension (st mid : Store) : Type 0 where
  pub revisions : mid.revisions ≡ st.revisions
  pub files : mid.files ≡ st.files
  pub devices : mid.devices ≡ st.devices

IsExtension-refl : (st : Store) → IsExtension st st
IsExtension-refl st = record { revisions = refl; files = refl; devices = refl }

module _ (d : Draws) (st : Store) where
  link_stream_lem :
      (edition stream s : Text) (mid : Store)
      → link_stream d edition stream st ≡ ok (s, mid)
      → IsExtension st mid
  unfolding link_stream link_edition
  link_stream_lem edition stream s mid h = ground arith

  create_stream_lem :
      (edition owner_type owner_key driver s : Text) (mid : Store)
      → create_stream d edition owner_type owner_key driver st ≡ ok (s, mid)
      → IsExtension st mid
  unfolding create_stream link_edition insert_stream
  create_stream_lem edition owner_type owner_key driver s mid h = ground arith

  owned_stream_lem :
      (i : NewSaveRevision) (s : Text) (mid : Store)
      → owned_stream d i st ≡ ok (s, mid)
      → IsExtension st mid
  unfolding owned_stream
  owned_stream_lem i s mid h = grind (arith, link_stream_lem, create_stream_lem)

  pub ensure_lem :
      (i : NewSaveRevision) (s : Text) (mid : Store)
      → ensure_legacy_stream d i st ≡ ok (s, mid)
      → IsExtension st mid
  unfolding ensure_legacy_stream
  ensure_lem i s mid h = ground (arith, owned_stream_lem i s mid, IsExtension-refl st)

abbrev pub superseded : RevisionRow → List RevisionRow → List RevisionRow
superseded row rs = if row.status =ᵗ codes "current" then supersede row.stream_id rs else rs

write_lem :
    (row : RevisionRow) (files : List NewSaveFile) (st new : Store)
    → write_revision row files st ≡ ok new
    → new.revisions ≡ row ∷ superseded row st.revisions
unfolding write_revision insert_revision
write_lem row files st new h = ground arith

write_files_lem :
    (row : RevisionRow) (files : List NewSaveFile) (st new : Store)
    → write_revision row files st ≡ ok new
    → insert_files row.id files st.files ≡ ok new.files
unfolding write_revision insert_revision
write_files_lem row files st new h = ground arith

module _ ⦃lib : Stdlib⦄ where
  -- The committed transaction, from the files that were cleaned to the rows that it wrote.
  pub record Saved (d : Draws) (i : NewSaveRevision) (st new : Store) : Type 0 where
    pub files : List NewSaveFile
    pub total : ℤ
    pub stream : Text
    pub mid : Store
    pub few : length (revision_files i) ≤ max_save_revision_files
    pub cleaned : clean_files d 0 [] (pos 0) (revision_files i) ≡ ok (files, total)
    pub found : ensure_legacy_stream d i st ≡ ok (stream, mid)
    pub written : write_revision (new_row d i files total stream) files mid ≡ ok new

  pub saved :
      (d : Draws) (i : NewSaveRevision) (st new : Store)
      → save_transaction d i st ≡ ok new
      → Saved d i st new
  unfolding save_transaction
  saved d i st new h =
      let (few, h2) =
        reject_bind_ok (ltb max_save_revision_files (length (revision_files i))) file_count _ new
          (reject_bind_ok (is_empty i.device_id) device_required _ new h).1 in
      let ((files, total), hc, h3) =
        bind_ok (clean_files d 0 [] (pos 0) (revision_files i)) _ new h2 in
      let h4 = (reject_bind_ok (not (is_status (default_status i))) bad_status _ new h3).1 in
      let ((stream, mid), hf, h5) = bind_ok (ensure_legacy_stream d i st) _ new h4 in
      record {
        files = files;
        total = total;
        stream = stream;
        mid = mid;
        few = ground arith;
        cleaned = hc;
        found = hf;
        written = h5;
      }

  pub Saved-revisions :
      {d : Draws} {i : NewSaveRevision} {st new : Store} (w : Saved d i st new)
      → let row = new_row d i w.files w.total w.stream in
        new.revisions ≡ row ∷ superseded row st.revisions
  Saved-revisions {d} {i} {st} {new} w = ground (
    arith,
    write_lem (new_row d i w.files w.total w.stream) w.files w.mid new w.written,
    (ensure_lem d st i w.stream w.mid w.found).revisions,
  )

  pub Saved-files :
      {d : Draws} {i : NewSaveRevision} {st new : Store} (w : Saved d i st new)
      → insert_files (new_row d i w.files w.total w.stream).id w.files st.files ≡ ok new.files
  Saved-files {d} {i} {st} {new} w = ground (
    arith,
    write_files_lem (new_row d i w.files w.total w.stream) w.files w.mid new w.written,
    (ensure_lem d st i w.stream w.mid w.found).files,
  )
