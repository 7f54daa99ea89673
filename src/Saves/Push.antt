-- ===== src/Saves/Push.antt =====
-- PushSet of internal/saves/repository.go.
use varkiv.Common.Maps.{Map}
use varkiv.Saves.Revisions.{revision_content_hash, add_save_revision}
use varkiv.Saves.Blobs.{Bytes, Staged, stage, check_blobs, store_blobs}
use varkiv.Saves.Queries.{
  resolve_save_stream, current_stream_revision, find_stream_revision_by_content_hash,
}
use varkiv.Saves.Model.{
  PushSetInput, PushResult, Repository, base_unavailable, other_stream, content_hash_mismatch,
  names_required,
}
use varkiv.Common.Maps.{Map}
use varkiv.Common.{
  pos, Text, codes, Stdlib, trim, Bool, true, false, not, ◌&&◌, ◌||◌, ◌=ᵗ◌, ltb, List, [], map,
  is_empty, length, Result, ok, err, if◌then◌else◌, reject, ◌>>=◌, ◌>>◌, lower,
}
use varkiv.Paths.SaveLogical.{max_save_revision_files}
use varkiv.Saves.Model.{
  Store, SaveStream, SaveRevision, SaveError, NewSaveFile, NewSaveRevision, Draws, Outcome,
  file_count, bad_scope,
}
use varkiv.Saves.Queries.{get_save_revision}

-- What a push does to the catalog: nothing, since the revision is there, or a new revision.
pub data Decision : Type 0 where
  found : SaveRevision → Decision
  add : Bool → Decision

unfoldable pub with_defaults : PushSetInput → PushSetInput
with_defaults i = record {
  edition_id = i.edition_id;
  device_id = i.device_id;
  driver_id = if is_empty i.driver_id then codes "manual" else i.driver_id;
  scope_type = if is_empty i.scope_type then codes "game" else i.scope_type;
  scope_key = i.scope_key;
  base_revision_id = i.base_revision_id;
  expected_content_hash = i.expected_content_hash;
  files = i.files;
}

abbrev is_scope : Text → Bool
is_scope s = (s =ᵗ codes "game") || (s =ᵗ codes "platform") || (s =ᵗ codes "container")

unfoldable pub check_input : PushSetInput → Result SaveError Unit
check_input i =
    reject (is_empty (trim i.edition_id) || is_empty (trim i.device_id)) names_required
    >> (reject (not (is_scope i.scope_type)) bad_scope
        >> reject (is_empty i.files || ltb max_save_revision_files (length i.files)) file_count)

abbrev base_in_stream : Text → Result SaveError SaveRevision → Result SaveError Unit
base_in_stream stream (ok base) = reject (not (base.row.stream_id =ᵗ stream)) other_stream
base_in_stream stream (err e) = err base_unavailable

unfoldable pub check_base : Text → Result SaveError SaveStream → Store → Result SaveError Unit
unfolding get_save_revision
check_base base (ok stream) st =
    if is_empty (trim base) then ok tt else base_in_stream stream.id (get_save_revision base st)
check_base base (err e) st = reject (not (is_empty (trim base))) base_unavailable

abbrev pub unless_found : Result SaveError SaveRevision → Decision
unless_found (ok existing) = found existing
unless_found (err e) = add true

abbrev pub against : Text → Text → Text → Store → Result SaveError SaveRevision → Decision
against hash base stream st (ok latest) =
    if latest.row.content_hash =ᵗ hash
    then found latest
    else if base =ᵗ latest.row.id
    then add false
    else unless_found (find_stream_revision_by_content_hash stream hash st)
against hash base stream st (err e) = add false

unfoldable pub decide : Text → Text → Result SaveError SaveStream → Store → Decision
unfolding find_stream_revision_by_content_hash current_stream_revision
decide hash base (ok stream) st =
    against hash base stream.id st (current_stream_revision stream.id st)
decide hash base (err e) st = add false

abbrev pub stream_id_of : Result SaveError SaveStream → Text
stream_id_of (ok stream) = stream.id
stream_id_of (err e) = []

unfoldable pub new_revision : PushSetInput → Text → Text → Bool → List NewSaveFile → NewSaveRevision
new_revision i stream hash conflict files = record {
  id = [];
  stream_id = stream;
  parent_revision_id = i.base_revision_id;
  content_hash = hash;
  status = [];
  files = files;
  edition_id = i.edition_id;
  device_id = i.device_id;
  driver_id = i.driver_id;
  relative_path = [];
  scope_type = i.scope_type;
  scope_key = i.scope_key;
  checksum = [];
  size = pos 0;
  blob_path = [];
  base_revision_id = [];
  conflict = conflict;
}

-- What a push has found out before it changes anything.
pub record Pending : Type 0 where
  pub staged : List Staged
  pub hash : Text
  pub stream : Result SaveError SaveStream
  pub decision : Decision

abbrev pub PushOutcome : Type 0
PushOutcome = Repository × Result SaveError PushResult

abbrev pub finish : Bool → Map Bytes → Outcome Store SaveRevision → PushOutcome
finish conflict blobs (st, r) = (
  record { store = st; blobs = blobs },
  r >>= λ revision. ok (record { revision = revision; created = true; conflict = conflict }),
)

module _ ⦃lib : Stdlib⦄ where
  -- A new revision of the files whose blobs are stored.
  unfoldable pub record_revision :
      Draws
      → PushSetInput
      → Text
      → Text
      → Bool
      → Store
      → Map Bytes × Result SaveError (List NewSaveFile)
      → PushOutcome
  unfolding add_save_revision new_revision
  record_revision d i stream hash conflict st (blobs, ok files) =
      finish conflict blobs (add_save_revision d (new_revision i stream hash conflict files) st)
  record_revision d i stream hash conflict st (blobs, err e) =
      (record { store = st; blobs = blobs }, err e)

  unfoldable pub perform :
      Text → Draws → PushSetInput → Repository → Pending → Decision → PushOutcome
  unfolding store_blobs record_revision
  perform root d i r p (found revision) =
      (r, ok (record { revision = revision; created = false; conflict = revision.conflict }))
  perform root d i r p (add conflict) =
      record_revision d i (stream_id_of p.stream) p.hash conflict r.store
        (store_blobs root p.staged r.blobs)

  -- The part of PushSet that reads.
  unfoldable pub negotiate : Text → PushSetInput → Repository → Result SaveError Pending
  unfolding check_input stage revision_content_hash check_blobs resolve_save_stream check_base
      decide
  negotiate root i r = do
    check_input i
    staged ← stage [] 0 i.files
    let hash = revision_content_hash (map (λ s. s.file) staged)
    let expected = lower (trim i.expected_content_hash)
    reject (not (is_empty expected) && not (hash =ᵗ expected)) content_hash_mismatch
    check_blobs root staged r.blobs
    let stream = resolve_save_stream i.edition_id i.driver_id i.scope_type i.scope_key r.store
    check_base i.base_revision_id stream r.store
    ok (record {
      staged = staged;
      hash = hash;
      stream = stream;
      decision = decide hash i.base_revision_id stream r.store;
    })

  abbrev conclude :
      Text → Draws → PushSetInput → Repository → Result SaveError Pending → PushOutcome
  unfolding perform
  conclude root d i r (err e) = (r, err e)
  conclude root d i r (ok p) = perform root d i r p p.decision

  unfoldable pub push_set : Text → Draws → PushSetInput → Repository → PushOutcome
  unfolding negotiate perform with_defaults
  push_set root d i r = let full = with_defaults i in conclude root d full r (negotiate root full r)
