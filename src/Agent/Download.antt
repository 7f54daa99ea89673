-- ===== src/Agent/Download.antt =====
-- The protocol's identifiers of internal/deviceagent/client.go, and remainingSaveDownloadBudget and
-- the verification of downloadRevision of sync.go. The hub's answers are arguments.
use varkiv.Common.{
  ℕ, ◌+◌, ◌-◌, ℤ, pos, negsuc, Text, Stdlib, trim, lower, Bool, true, false, not, ◌&&◌, ◌||◌, ◌==◌,
  ltb, leb, ◌=ᵗ◌, Option, none, some, List, [], ◌∷◌, is_empty, any, all, length, Result, ok, err,
  if◌then◌else◌, reject, ◌>>=◌, ◌>>◌,
}
use varkiv.Paths.SaveLogical.{max_save_revision_bytes, max_save_revision_files}
use varkiv.Agent.Model.{
  LocalFile, LocalSet, AgentError, over_limit, bad_segment, other_revision, failed_download,
  not_verified, one_root_required, untracked_target, local_change, exists,
}
use varkiv.Agent.LocalSets.{content_hash, portable_logical_path}

-- declared >= 0 && declared > remaining
abbrev pub declares_more : ℤ → ℕ → Bool
declares_more (pos declared) remaining = ltb remaining declared
declares_more (negsuc declared) remaining = false

-- int64 sums and comparisons of the budget.
unfoldable pub remaining_save_download_budget : ℤ → ℤ → ℤ → Result AgentError ℕ
remaining_save_download_budget (pos total) declared (pos file_count) =
    reject (ltb max_save_revision_files file_count || ltb max_save_revision_bytes total) over_limit
    >> (reject (declares_more declared (max_save_revision_bytes - total)) over_limit
        >> ok (max_save_revision_bytes - total))
remaining_save_download_budget (pos total) declared (negsuc file_count) = err over_limit
remaining_save_download_budget (negsuc total) declared file_count = err over_limit

abbrev is_alphanumeric : ℕ → Bool
is_alphanumeric c =
    (leb b'A' c && leb c b'Z') || (leb b'a' c && leb c b'z') || (leb b'0' c && leb c b'9')

abbrev is_segment_character : ℕ → Bool
is_segment_character c = is_alphanumeric c || c == b'.' || c == b'_' || c == b'~' || c == b'-'

-- protocolIDPattern
abbrev is_segment : Text → Bool
is_segment [] = false
is_segment (c ∷ s) = is_alphanumeric c && all is_segment_character s && leb (length s) 127

unfoldable pub protocol_path_segment : Text → Result AgentError Text
protocol_path_segment value = if is_segment value then ok value else err bad_segment

abbrev is_hash_character : ℕ → Bool
is_hash_character c = (leb b'0' c && leb c b'9') || (leb b'a' c && leb c b'f')

-- A file of the revision, and the answer with its content: the declared length, and the body.
pub record DownloadedFile : Type 0 where
  pub id : Text
  pub logical_path : Text
  pub mode : ℕ
  pub content_length : ℤ
  pub body : Option (List ℕ)

pub record DownloadedRevision : Type 0 where
  pub id : Text
  pub content_hash : Text
  pub files : List DownloadedFile

module _ ⦃lib : Stdlib⦄ where
  unfoldable pub protocol_sha256 : Text → Result AgentError Text
  protocol_sha256 value =
      let hash = lower (trim value) in
      if length hash == 64 && all is_hash_character hash then ok hash else err bad_segment

  abbrev pub received : Text → ℕ → List ℕ → LocalFile
  received logical mode bytes = record {
    logical_path = logical;
    checksum = lib.sha256_bytes bytes;
    size = length bytes;
    mode = mode;
    content = some bytes;
  }

  -- The body, of which at most one byte more than what remains is read.
  unfoldable pub receive : Text → ℕ → ℕ → Option (List ℕ) → Result AgentError LocalFile
  receive logical mode remaining none = err failed_download
  receive logical mode remaining (some bytes) =
      if ltb remaining (length bytes) then err failed_download else ok (received logical mode bytes)

  -- The loop over the files of a revision that has `count` files, with those that were staged.
  unfoldable pub download_files :
      ℕ → ℕ → List LocalFile → List DownloadedFile → Result AgentError (List LocalFile)
  unfolding protocol_path_segment portable_logical_path remaining_save_download_budget receive
  download_files count total done [] = ok []
  download_files count total done (d ∷ ds) = do
    id ← protocol_path_segment d.id
    logical ← portable_logical_path d.logical_path
    remaining ← remaining_save_download_budget (pos total) d.content_length (pos count)
    reject (any (λ f. f.logical_path =ᵗ logical) done) exists
    file ← receive logical d.mode remaining d.body
    rest ← download_files count (total + file.size) (file ∷ done) ds
    ok (file ∷ rest)

  -- What is at the target: nothing, or the content hash of the files there now.
  unfoldable pub check_target : LocalSet → Option (Result AgentError Text) → Result AgentError Bool
  check_target set none = ok false
  check_target set (some (err e)) =
      if is_empty set.content_hash then err untracked_target else err local_change
  check_target set (some (ok now)) =
      if is_empty set.content_hash
      then err untracked_target
      else if now =ᵗ set.content_hash
      then ok true
      else err local_change

  -- downloadRevision up to the installation: the files, and whether the target is replaced.
  unfoldable pub download_revision :
      Text
      → Text
      → LocalSet
      → Option (Result AgentError Text)
      → DownloadedRevision
      → Result AgentError (List LocalFile × Bool)
  unfolding download_files check_target content_hash protocol_path_segment
      remaining_save_download_budget
  download_revision target_revision_id expected_hash set now revision = do
    wanted ← protocol_path_segment target_revision_id
    reject (not (revision.id =ᵗ wanted)) other_revision
    allowed ← remaining_save_download_budget (pos 0) (negsuc 0) (pos (length revision.files))
    files ← download_files (length revision.files) 0 [] revision.files
    reject
        (not (content_hash files =ᵗ revision.content_hash)
          || not (content_hash files =ᵗ expected_hash))
        not_verified
    reject (not (length set.rendered_paths == 1)) one_root_required
    target_exists ← check_target set now
    ok (files, target_exists)
