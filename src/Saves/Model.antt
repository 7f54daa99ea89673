-- ===== src/Saves/Model.antt =====
-- The rows of the save tables (internal/catalog/migrations.go) and the types of
-- internal/catalog/models.go and internal/saves/repository.go. Instants are the texts that the
-- columns hold. A column that no modelled operation reads or writes is left out.
use varkiv.Common.{ℕ, ℤ, Text, Bool, Option, List, Result}
use varkiv.Common.Maps.{Map}

pub record EditionRow : Type 0 where
  pub id : Text
  pub save_namespace : Text

pub record DeviceRow : Type 0 where
  pub id : Text
  pub updated_at : Text
  pub last_seen_at : Text

pub record SaveStream : Type 0 where
  pub id : Text
  pub namespace : Text
  pub owner_type : Text
  pub owner_key : Text
  pub driver_id : Text
  pub portability : Text
  pub compatibility_group_id : Text
  pub created_at : Text
  pub updated_at : Text

pub record SaveStreamEdition : Type 0 where
  pub stream_id : Text
  pub edition_id : Text
  pub compatibility : Text
  pub created_at : Text

-- A row of save_revisions; `parent_revision_id` is empty for NULL.
pub record RevisionRow : Type 0 where
  pub id : Text
  pub stream_id : Text
  pub device_id : Text
  pub parent_revision_id : Text
  pub content_hash : Text
  pub total_size : ℤ
  pub file_count : ℕ
  pub status : Text
  pub created_at : Text

pub record SaveFile : Type 0 where
  pub id : Text
  pub revision_id : Text
  pub logical_path : Text
  pub checksum : Text
  pub size : ℤ
  pub blob_path : Text
  pub mtime_ns : ℤ
  pub mode : ℤ

pub record Store : Type 0 where
  pub editions : List EditionRow
  pub devices : List DeviceRow
  pub streams : List SaveStream
  pub stream_editions : List SaveStreamEdition
  pub revisions : List RevisionRow
  pub files : List SaveFile

pub record NewSaveFile : Type 0 where
  pub id : Text
  pub logical_path : Text
  pub checksum : Text
  pub size : ℤ
  pub blob_path : Text
  pub mtime_ns : ℤ
  pub mode : ℤ

pub record NewSaveRevision : Type 0 where
  pub id : Text
  pub stream_id : Text
  pub parent_revision_id : Text
  pub content_hash : Text
  pub status : Text
  pub files : List NewSaveFile
  pub edition_id : Text
  pub device_id : Text
  pub driver_id : Text
  pub relative_path : Text
  pub scope_type : Text
  pub scope_key : Text
  pub checksum : Text
  pub size : ℤ
  pub blob_path : Text
  pub base_revision_id : Text
  pub conflict : Bool

-- A revision as it is read: its row, its files in the order of their paths, and its stream, from
-- which the remaining fields of the source's struct are copied.
pub record SaveRevision : Type 0 where
  pub row : RevisionRow
  pub files : List SaveFile
  pub stream : SaveStream
  pub conflict : Bool

-- What a call draws from outside the store: fresh identifiers and the time.
pub record Draws : Type 0 where
  pub stream_id : Text
  pub revision_id : Text
  pub file_id : ℕ → Text
  pub stream_time : Text
  pub time : Text

-- `no_rows` is sql.ErrNoRows and `constraint` a statement that the schema refuses.
pub data SaveError : Type 0 where
  no_rows constraint device_required file_count unsafe_path duplicate_path bad_file too_large :
      SaveError
  bad_status owner_required bad_scope : SaveError
  names_required no_reader content_hash_mismatch blob_integrity base_unavailable other_stream :
      SaveError

-- The content of a reader; `none` is a nil reader.
pub record IncomingFile : Type 0 where
  pub logical_path : Text
  pub reader : Option (List ℕ)
  pub mtime_ns : ℤ
  pub mode : ℤ

pub record PushSetInput : Type 0 where
  pub edition_id : Text
  pub device_id : Text
  pub driver_id : Text
  pub scope_type : Text
  pub scope_key : Text
  pub base_revision_id : Text
  pub expected_content_hash : Text
  pub files : List IncomingFile

pub record PushResult : Type 0 where
  pub revision : SaveRevision
  pub created : Bool
  pub conflict : Bool

-- The store, and the blobs by their paths.
pub record Repository : Type 0 where
  pub store : Store
  pub blobs : Map (List ℕ)

-- A fallible call on a state.
abbrev pub Outcome : Type 0 → Type 0 → Type 0
Outcome S A = S × Result SaveError A
