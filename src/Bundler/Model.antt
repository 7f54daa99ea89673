-- ===== src/Bundler/Model.antt =====
-- The types of internal/bundler/plan.go and recovery.go. The fields of a plan that no modelled
-- function reads or writes are left out.
use varkiv.Common.{ℕ, ℤ, Text, Bool, List}
use varkiv.Common.Maps.{Map}

pub record PlanItem : Type 0 where
  pub kind : Text
  pub edition_id : Text
  pub source : Text
  pub target : Text
  pub action : Text
  pub size : ℤ
  pub sha256 : Text
  pub detail : Text

pub record Plan : Type 0 where
  pub items : List PlanItem
  pub managed_paths : List Text
  pub conflicts : List Text
  pub warnings : List Text

pub record RecoveryEntry : Type 0 where
  pub path : Text
  pub existed : Bool
  pub sha256 : Text
  pub size : ℕ
  pub mode : ℕ
  pub backup_rel : Text

-- `files` are those below `root`.
pub record BuildRecovery : Type 0 where
  pub root : Text
  pub relative : Text
  pub entries : List RecoveryEntry
  pub files : Map (List ℕ)
