-- ===== src/Sync/Plan.antt =====
-- The plan of createSyncSession in internal/server/sync_api.go: one operation for each save state.
use varkiv.Common.{
  ℕ, pos, Text, codes, Stdlib, trim, lower, Bool, false, not, ◌&&◌, ◌||◌, ◌==◌, ltb, ◌=ᵗ◌, member,
  Option, none, some, List, [], ◌∷◌, is_empty, length, Result, ok, err, if◌then◌else◌, reject,
  ◌>>=◌, ◌>>◌,
}
use varkiv.Common.Hex
use varkiv.Common.Sorting.{text_le, sort_by}
use varkiv.Saves.Model.{Store, SaveRevision, SaveStream, SaveError}
use varkiv.Saves.Queries.{get_save_revision, get_save_stream, current_stream_revision}
use varkiv.Sync.Model.{
  NewSyncOperation, SyncSaveState, SyncError, no_rows, stream_required, not_attested,
  bad_content_hash, bad_base, too_many,
}

abbrev proposal : SyncSaveState → Text → Text → NewSyncOperation
proposal s action status = record {
  id = [];
  stream_id = s.stream_id;
  action = action;
  status = status;
  base_revision_id = s.base_revision_id;
  target_revision_id = [];
  expected_hash = s.content_hash;
  bytes = pos 0;
  detail = [];
}

abbrev download : SyncSaveState → SaveRevision → NewSyncOperation
download s current = record (proposal s (codes "download") (codes "proposed")) {
  target_revision_id = current.row.id;
  expected_hash = current.row.content_hash;
  bytes = current.row.total_size;
}

abbrev is_unchanged : SyncSaveState → Option SaveRevision → Bool
is_unchanged s none = false
is_unchanged s (some base) = s.content_hash =ᵗ base.row.content_hash

-- The switch, for a base that was read and the current revision, `none` for sql.ErrNoRows.
unfoldable pub plan_operation :
    SyncSaveState → Option SaveRevision → Option SaveRevision → NewSyncOperation
plan_operation s base none =
    if s.has_local_data
    then proposal s (codes "upload") (codes "proposed")
    else proposal s (codes "noop") (codes "complete")
plan_operation s base (some current) =
    if not s.has_local_data
    then download s current
    else if s.content_hash =ᵗ current.row.content_hash
    then record (proposal s (codes "noop") (codes "complete")) {
      target_revision_id = current.row.id;
    }
    else if is_unchanged s base
    then download s current
    else if s.base_revision_id =ᵗ current.row.id
    then proposal s (codes "upload") (codes "proposed")
    else record (proposal s (codes "conflict") (codes "complete")) {
      target_revision_id = current.row.id;
      detail =
          (codes "reason", codes "server_and_client_advanced")
          ∷ (codes "server_content_hash", current.row.content_hash)
          ∷ [];
    }

abbrev pub is_digest : Option (List ℕ) → Bool
is_digest none = false
is_digest (some bytes) = length bytes == 32

abbrev pub or_none : Result SaveError SaveRevision → Option SaveRevision
or_none (ok r) = some r
or_none (err e) = none

abbrev base_of : Text → Result SaveError SaveRevision → Result SyncError (Option SaveRevision)
base_of stream (ok base) = if base.row.stream_id =ᵗ stream then ok (some base) else err bad_base
base_of stream (err e) = err bad_base

unfoldable pub read_base : SyncSaveState → Store → Result SyncError (Option SaveRevision)
unfolding get_save_revision
read_base s st =
    if is_empty s.base_revision_id
    then ok none
    else base_of s.stream_id (get_save_revision s.base_revision_id st)

abbrev pub known_stream : Result SaveError SaveStream → Result SyncError Unit
known_stream (ok s) = ok tt
known_stream (err e) = err no_rows

module _ ⦃lib : Stdlib⦄ where
  -- The fields as they are trimmed; without local data there is no hash and no base.
  unfoldable pub clean_state : SyncSaveState → SyncSaveState
  clean_state s = record {
    stream_id = trim s.stream_id;
    base_revision_id = if s.has_local_data then trim s.base_revision_id else [];
    content_hash = if s.has_local_data then lower (trim s.content_hash) else [];
    has_local_data = s.has_local_data;
  }

  -- The loop over the save states.
  unfoldable pub plan_saves :
      (Text → Bool)
      → Store
      → List Text
      → List SyncSaveState
      → Result SyncError (List NewSyncOperation)
  unfolding plan_operation read_base clean_state current_stream_revision Hex.decode
  plan_saves authorized st seen [] = ok []
  plan_saves authorized st seen (raw ∷ raws) =
      let s = clean_state raw in
      do
        reject (is_empty s.stream_id || member s.stream_id seen) stream_required
        reject (not (authorized s.stream_id)) not_attested
        reject (s.has_local_data && not (is_digest (Hex.decode s.content_hash))) bad_content_hash
        known_stream (get_save_stream s.stream_id st)
        base ← read_base s st
        rest ← plan_saves authorized st (s.stream_id ∷ seen) raws
        ok (plan_operation s base (or_none (current_stream_revision s.stream_id st)) ∷ rest)

  -- The states in the order of their streams, as they were sent.
  unfoldable pub plan :
      (Text → Bool) → Store → List SyncSaveState → Result SyncError (List NewSyncOperation)
  unfolding plan_saves sort_by text_le
  plan authorized st states =
      reject (ltb 4096 (length states)) too_many
      >> plan_saves authorized st [] (sort_by (λ a b. text_le a.stream_id b.stream_id) states)
