-- ===== src/Agent/Model.antt =====
-- The types of internal/deviceagent/sync.go. What a path holds is `content`, where reading may fail.
use varkiv.Common.{ℕ, Text, Option, List}

pub record LocalFile : Type 0 where
  pub logical_path : Text
  pub checksum : Text
  pub size : ℕ
  pub mode : ℕ
  pub content : Option (List ℕ)

-- A binding rendered on the device, with the files that were found.
pub record LocalSet : Type 0 where
  pub rendered_paths : List Text
  pub files : List LocalFile
  pub content_hash : Text
  pub total_size : ℕ

pub record StreamState : Type 0 where
  pub revision_id : Text
  pub content_hash : Text

pub record SyncResult : Type 0 where
  pub session_id : Text
  pub status : Text
  pub uploaded : ℕ
  pub downloaded : ℕ
  pub conflicts : ℕ

pub data AgentError : Type 0 where
  over_limit unsafe_logical_path duplicate_path unreadable no_stream_id inconsistent_binding :
      AgentError
  ambiguous_stem target_unavailable target_drift bad_segment other_revision failed_download :
      AgentError
  not_verified one_root_required untracked_target local_change single_file backup_failed :
      AgentError
  stage_failed install_failed restore_failed unconfigured_stream unknown_action : AgentError
  inconsistent_upload bad_noop sync_conflict request_failed exists : AgentError
