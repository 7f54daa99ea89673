-- ===== src/Agent/Install.antt =====
-- installDownloadedSave and verifyInstalledSave of internal/deviceagent/sync.go. The device's disk
-- has what stands at the paths that the function names, each a file or a directory of files; every
-- call of its saveInstallOps and of package os may fail, which `Faults` says for one run.
use varkiv.Common.{
  ℕ, Text, Stdlib, Bool, true, false, not, ◌&&◌, ◌||◌, ◌==◌, ◌=ᵗ◌, Option, none, some, List, [],
  ◌∷◌, length, Result, ok, err, if◌then◌else◌, or_fail, reject, ◌>>=◌, ◌>>◌,
}
use varkiv.Common.Maps.{Map, lookup, insert, delete}
use varkiv.Agent.Model.{
  LocalFile, AgentError, unreadable, exists, not_verified, single_file, backup_failed, stage_failed,
  install_failed, restore_failed,
}
use varkiv.Agent.LocalSets.{content_hash}

pub data Tree : Type 0 where
  single : List ℕ → Tree
  folder : Map (List ℕ) → Tree

abbrev pub Disk : Type 0
Disk = Map Tree

-- Which calls fail: for the backup, the staging, and the three renames.
pub record Faults : Type 0 where
  pub prepare_backup : Bool
  pub copy_backup : Bool
  pub prepare_stage : Bool
  pub copy_payload : Bool
  pub draw_previous : Bool
  pub move_aside : Bool
  pub move_in : Bool
  pub move_back : Bool
  pub remove_stage : Bool
  pub remove_previous : Bool

-- The paths that are drawn: the backup, the payload in its staging directory, and the directory
-- that the old target is moved to.
pub record Places : Type 0 where
  pub target : Text
  pub backup : Text
  pub staged : Text
  pub previous : Text

-- The content at path/logical, or at the path itself for a single file.
unfoldable pub read_part : Bool → Text → Option Tree → Option (List ℕ)
read_part one logical none = none
read_part true logical (some (single bytes)) = some bytes
read_part true logical (some (folder files)) = none
read_part false logical (some (single bytes)) = none
read_part false logical (some (folder files)) = lookup logical files

abbrev is_there : Option (List ℕ) → Bool
is_there none = false
is_there (some bytes) = true

-- The files of a new directory, each created exclusively.
unfoldable pub folder_files : List LocalFile → Map (List ℕ) → Result AgentError (Map (List ℕ))
folder_files [] files = ok files
folder_files (f ∷ fs) files = do
  bytes ← or_fail f.content unreadable
  reject (is_there (lookup f.logical_path files)) exists
  folder_files fs (insert f.logical_path bytes files)

-- An exclusive creation at a path.
abbrev pub create : Text → Option Tree → Result AgentError Tree → Disk → Result AgentError Disk
create path (some old) new disk = err exists
create path none (err e) disk = err e
create path none (ok tree) disk = ok (insert path tree disk)

-- installDirectory, which takes back what it has made when it fails
unfoldable pub install_directory : Bool → Text → List LocalFile → Disk → Result AgentError Disk
unfolding folder_files
install_directory fails path files disk =
    if fails
    then err stage_failed
    else create path (lookup path disk) (folder_files files [] >>= λ made. ok (folder made)) disk

abbrev only_content : List LocalFile → Result AgentError Tree
only_content [] = err unreadable
only_content (f ∷ fs) = or_fail f.content unreadable >>= λ bytes. ok (single bytes)

-- copyFile of the first downloaded file
unfoldable pub copy_file : Bool → Text → List LocalFile → Disk → Result AgentError Disk
copy_file fails path files disk =
    if fails then err stage_failed else create path (lookup path disk) (only_content files) disk

-- What rename leaves at the new path: a file replaces a file, nothing replaces a directory.
abbrev pub may_move : Tree → Option Tree → Bool
may_move tree none = true
may_move (single bytes) (some (single old)) = true
may_move (folder files) (some (single old)) = false
may_move tree (some (folder old)) = false

abbrev pub move_tree : Text → Text → Option Tree → Disk → Result AgentError Disk
move_tree source target none disk = err install_failed
move_tree source target (some tree) disk =
    if may_move tree (lookup target disk)
    then ok (insert target tree (delete source disk))
    else err install_failed

unfoldable pub rename : Bool → Text → Text → Disk → Result AgentError Disk
rename fails source target disk =
    if fails then err install_failed else move_tree source target (lookup source disk) disk

-- removeAll, whose error is not looked at
unfoldable pub remove_all : Bool → Text → Disk → Disk
remove_all fails path disk = if fails then disk else delete path disk

abbrev pub Outcome : Type 0
Outcome = Disk × Result AgentError Unit

-- The next call on the disk that a call leaves, or its error on the disk before it.
abbrev pub on_disk : AgentError → Result AgentError Disk → Disk → (Disk → Outcome) → Outcome
on_disk e (ok disk) before next = next disk
on_disk e (err x) before next = (before, err e)

abbrev pub checked : AgentError → Result AgentError Unit → Disk → Outcome → Outcome
checked e (ok u) disk next = next
checked e (err x) disk next = (disk, err e)

module _ ⦃lib : Stdlib⦄ where
  unfoldable pub verify_files :
      Bool → Option Tree → List LocalFile → Result AgentError (List LocalFile)
  unfolding read_part
  verify_files one tree [] = ok []
  verify_files one tree (f ∷ fs) = do
    bytes ← or_fail (read_part one f.logical_path tree) unreadable
    reject (not (lib.sha256_bytes bytes =ᵗ f.checksum) || not (length bytes == f.size)) not_verified
    rest ← verify_files one tree fs
    ok (
        record {
          logical_path = f.logical_path;
          checksum = lib.sha256_bytes bytes;
          size = length bytes;
          mode = 0;
          content = none;
        }
        ∷ rest)

  unfoldable pub verify_installed_save :
      Bool → Option Tree → List LocalFile → Result AgentError Unit
  unfolding verify_files content_hash
  verify_installed_save one tree files = do
    verified ← verify_files one tree files
    reject (not (content_hash verified =ᵗ content_hash files)) not_verified

  module _ (f : Faults) (p : Places) (one : Bool) (current downloaded : List LocalFile) where
    -- A directory that is there is moved aside, and back if the new one cannot take its place.
    unfoldable pub replace_directory : Disk → Outcome
    unfolding rename remove_all
    replace_directory disk =
        if f.draw_previous
        then (disk, err install_failed)
        else on_disk install_failed (rename f.move_aside p.target p.previous disk) disk (λ aside.
          elim (rename f.move_in p.staged p.target aside) [
            | ok placed ↦ (remove_all f.remove_previous p.previous placed, ok tt)
            | err e ↦
                on_disk restore_failed (rename f.move_back p.previous p.target aside) aside
                  (λ back. (back, err install_failed))
          ])

    unfoldable pub place_staged : Bool → Disk → Outcome
    unfolding rename replace_directory
    place_staged target_exists disk =
        if not target_exists || one
        then on_disk install_failed (rename f.move_in p.staged p.target disk) disk (λ d. (d, ok tt))
        else replace_directory disk

    -- The payload is staged, verified and put in place; the staging directory is removed at last.
    unfoldable pub stage_and_place : Bool → Disk → Outcome
    unfolding copy_file install_directory verify_installed_save place_staged remove_all
    stage_and_place target_exists disk =
        let copy = if one then copy_file else install_directory in
        if f.prepare_stage
        then (disk, err stage_failed)
        else on_disk stage_failed (copy f.copy_payload p.staged downloaded disk) disk (λ staged.
          let (after, r) =
            checked not_verified (verify_installed_save one (lookup p.staged staged) downloaded)
              staged (place_staged target_exists staged) in
          (remove_all f.remove_stage p.staged after, r))

    -- The old files are copied and verified first.
    unfoldable pub back_up : Disk → (Disk → Outcome) → Outcome
    unfolding install_directory verify_installed_save
    back_up disk next =
        if f.prepare_backup
        then (disk, err backup_failed)
        else on_disk backup_failed (install_directory f.copy_backup p.backup current disk) disk
            (λ copied.
              checked backup_failed (verify_installed_save false (lookup p.backup copied) current)
                copied (next copied))

    unfoldable pub install_downloaded_save : Bool → Disk → Outcome
    unfolding back_up stage_and_place
    install_downloaded_save target_exists disk =
        if one && not (length downloaded == 1)
        then (disk, err single_file)
        else if target_exists
        then back_up disk (stage_and_place true)
        else stage_and_place false disk
