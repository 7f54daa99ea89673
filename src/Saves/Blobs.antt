-- ===== src/Saves/Blobs.antt =====
-- The files and the blobs of PushSet of internal/saves/repository.go. Directories, symbolic links and failures of the file
-- system are left out: a temporary file is its content, and the blobs are a map from their paths.
use varkiv.Common.Maps.{Map, lookup, insert}
use varkiv.Saves.Revisions.{clean_save_logical_path}
use varkiv.Common.{
  ℕ, ◌+◌, ◌-◌, pos, Text, codes, Stdlib, Bool, not, ◌&&◌, ◌||◌, ◌=ᵗ◌, ltb, member, Option, none,
  some, List, [], ◌∷◌, ◌++◌, length, Result, ok, err, if◌then◌else◌, or_fail, reject, ◌>>=◌, ◌>>◌,
  leb, byte_len, eq_ℤ, ◌==◌, all,
}
use varkiv.Paths.SaveLogical.{max_save_revision_bytes}
use varkiv.Saves.Model.{
  SaveError, NewSaveFile, IncomingFile, no_reader, duplicate_path, too_large, blob_integrity,
}

abbrev pub Bytes : Type 0
Bytes = List ℕ

pub record Staged : Type 0 where
  pub file : NewSaveFile
  pub content : Bytes

-- copyIncomingSave: the bytes that arrived, unless they are more than what remains.
unfoldable pub copy_incoming_save : ℕ → Bytes → Result SaveError Bytes
copy_incoming_save remaining content =
    if ltb remaining (length content) then err too_large else ok content

abbrev is_lower_hex : ℕ → Bool
is_lower_hex c = (leb b'0' c && leb c b'9') || (leb b'a' c && leb c b'f')

abbrev two : Text → Text
two (a ∷ b ∷ s) = a ∷ b ∷ []
two s = s

unfoldable pub blob_path : Text → Text → Result SaveError Text
blob_path root checksum = do
  reject (not (byte_len checksum == 64) || not (all is_lower_hex checksum)) blob_integrity
  ok (root ++ codes "/blobs/" ++ two checksum ++ b'/' ∷ checksum)

abbrev pub with_blob : Text → NewSaveFile → NewSaveFile
with_blob path f = record {
  id = f.id;
  logical_path = f.logical_path;
  checksum = f.checksum;
  size = f.size;
  blob_path = path;
  mtime_ns = f.mtime_ns;
  mode = f.mode;
}

module _ ⦃lib : Stdlib⦄ where
  -- The loop that stages the incoming files.
  unfoldable pub stage : List Text → ℕ → List IncomingFile → Result SaveError (List Staged)
  unfolding clean_save_logical_path copy_incoming_save
  stage seen total [] = ok []
  stage seen total (f ∷ fs) = do
    path ← clean_save_logical_path f.logical_path
    reject (member path seen) duplicate_path
    reader ← or_fail f.reader no_reader
    content ← copy_incoming_save (max_save_revision_bytes - total) reader
    rest ← stage (path ∷ seen) (total + length content) fs
    ok (
        record {
          file = record {
            id = [];
            logical_path = path;
            checksum = lib.sha256_bytes content;
            size = pos (length content);
            blob_path = [];
            mtime_ns = f.mtime_ns;
            mode = f.mode;
          };
          content = content;
        }
        ∷ rest)

  -- openVerifiedBlob on what is stored under a path
  unfoldable pub is_intact : NewSaveFile → Bytes → Bool
  is_intact f content =
      eq_ℤ (pos (length content)) f.size && (lib.sha256_bytes content =ᵗ f.checksum)

  abbrev pub verify : NewSaveFile → Option Bytes → Result SaveError Unit
  verify f none = ok tt
  verify f (some content) = reject (not (is_intact f content)) blob_integrity

  -- Blobs that are there already have to be intact, before anything is stored.
  unfoldable pub check_blobs : Text → List Staged → Map Bytes → Result SaveError Unit
  unfolding blob_path is_intact lookup
  check_blobs root [] blobs = ok tt
  check_blobs root (s ∷ ss) blobs = do
    path ← blob_path root s.file.checksum
    verify s.file (lookup path blobs)
    check_blobs root ss blobs

  abbrev pub keep_blob : Text → Staged → Option Bytes → Map Bytes → Map Bytes
  keep_blob path s none blobs = insert path s.content blobs
  keep_blob path s (some content) blobs = blobs

  -- The loop that moves the staged files to their blobs, as far as it comes.
  unfoldable pub store_blobs :
      Text → List Staged → Map Bytes → Map Bytes × Result SaveError (List NewSaveFile)
  unfolding blob_path is_intact lookup insert
  store_blobs root [] blobs = (blobs, ok [])
  store_blobs root (s ∷ ss) blobs =
      let checked =
        blob_path root s.file.checksum >>= λ path. verify s.file (lookup path blobs) >> ok path in
      elim checked [
        | err e ↦ (blobs, err e)
        | ok path ↦
            let (after, rest) = store_blobs root ss (keep_blob path s (lookup path blobs) blobs) in
            (after, rest >>= λ files. ok (with_blob path s.file ∷ files))
      ]
