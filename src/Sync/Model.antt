-- ===== src/Sync/Model.antt =====
-- The types of internal/catalog/sync_models.go; instants are the texts of the columns. The details
-- of an operation, a JSON object of strings, are its fields.
use varkiv.Common.{ℕ, ℤ, Text, Bool, List, Result}

pub record SyncOperation : Type 0 where
  pub id : Text
  pub session_id : Text
  pub stream_id : Text
  pub action : Text
  pub status : Text
  pub base_revision_id : Text
  pub target_revision_id : Text
  pub expected_hash : Text
  pub actual_hash : Text
  pub bytes : ℤ
  pub failure_code : Text
  pub detail : List (Text × Text)
  pub created_at : Text
  pub updated_at : Text

-- A row of sync_sessions; its operations are read from their own table.
pub record SyncSession : Type 0 where
  pub id : Text
  pub device_id : Text
  pub idempotency_key : Text
  pub status : Text
  pub base_manifest_hash : Text
  pub operation_plan_hash : Text
  pub uploaded_count : ℕ
  pub downloaded_count : ℕ
  pub conflict_count : ℕ
  pub failure_code : Text
  pub created_at : Text
  pub updated_at : Text
  pub finished_at : Text

pub record NewSyncOperation : Type 0 where
  pub id : Text
  pub stream_id : Text
  pub action : Text
  pub status : Text
  pub base_revision_id : Text
  pub target_revision_id : Text
  pub expected_hash : Text
  pub bytes : ℤ
  pub detail : List (Text × Text)

pub record SyncStore : Type 0 where
  pub sessions : List SyncSession
  pub operations : List SyncOperation

-- What a device says of its save of a stream.
pub record SyncSaveState : Type 0 where
  pub stream_id : Text
  pub base_revision_id : Text
  pub content_hash : Text
  pub has_local_data : Bool

pub data SyncError : Type 0 where
  no_rows idempotency_conflict operation_hash_mismatch failure_code_required : SyncError
  invalid_key invalid_status invalid_match invalid_operation constraint : SyncError
  stream_required not_attested bad_content_hash bad_base too_many : SyncError

abbrev pub Outcome : Type 0 → Type 0
Outcome A = SyncStore × Result SyncError A
