-- ===== src/Agent/Tests.antt =====
-- A device with one save, and the theorems at it.
use varkiv.Common.{
  ◌≤◌, ◌≢◌, length, all, if◌then◌else◌, ℕ, ◌≡◌, refl, codes, Text, Stdlib, pos, ℤ, true, false,
  is_empty, some, none, Option, List, [], ◌∷◌, ok, err, Result, map, ◌⊎◌,
}
use varkiv.Common.Maps.{Map, lookup}
use varkiv.Saves.Revisions.{revision_content_hash}
use varkiv.Saves.Blobs.{Staged, stage}
use varkiv.Agent.Model.{LocalFile, LocalSet}
use varkiv.Agent.LocalSets.{enumerate_binding}
use varkiv.Agent.Install.{Tree, folder, Disk, Faults, Places, install_downloaded_save}
use varkiv.Paths.SaveLogical.{max_save_revision_bytes, max_save_revision_files}
use varkiv.Agent.Model.{AgentError, failed_download, sync_conflict}
use varkiv.Agent.LocalSets.{content_hash}
use varkiv.Agent.Download.{DownloadedRevision, download_revision}
use varkiv.Agent.Budget.{total_size, has_fresh_paths, download_revision_lem}
use varkiv.Agent.Loop.{Task, AgentConfig, choose_key, run_session, state}
use varkiv.Agent.Retrying.{is_aside, run_session_keeps, choose_key_again}
use varkiv.Agent.Agreement.{incoming, AllSame, stage-enumerate_binding}
use varkiv.Agent.Recoverable.{KeepsSave, install_downloaded_save_lem}

-- No case beyond ASCII, and digests that are the content.
instance abbrev plain : Stdlib
plain = record { lower_wide = λ c. c; upper_wide = λ c. c; sha256 = λ t. t; sha256_bytes = λ t. t }

abbrev found : List (Text × ℕ × Option (List ℕ))
found = (codes "b", 420, some (2 ∷ [])) ∷ (codes "a", 420, some (1 ∷ [])) ∷ []

abbrev file : Text → List ℕ → LocalFile
file path bytes = record {
  logical_path = path;
  checksum = bytes;
  size = varkiv.Common.length bytes;
  mode = 420;
  content = some bytes;
}

abbrev save : LocalSet
save = record {
  rendered_paths = codes "/s" ∷ [];
  files = file (codes "b") (2 ∷ []) ∷ file (codes "a") (1 ∷ []) ∷ [];
  content_hash = 97 ∷ 0 ∷ 1 ∷ 0 ∷ 49 ∷ 0 ∷ 98 ∷ 0 ∷ 2 ∷ 0 ∷ 49 ∷ 0 ∷ [];
  total_size = 2;
}

enumerated : enumerate_binding (codes "/s" ∷ []) found ≡ ok save
unfolding enumerate_binding varkiv.Common.◌=ᵗ◌ varkiv.Common.trim varkiv.Common.byte_len
    varkiv.Paths.Slashes.is_rooted varkiv.Paths.SaveLogical.to_slashes
    varkiv.Paths.SaveLogical.ends_with varkiv.Paths.SaveLogical.has_double_slash
    varkiv.Paths.Slashes.clean varkiv.Paths.Slashes.join varkiv.Paths.Slashes.split
    varkiv.Paths.SaveLogical.refuses_part varkiv.Paths.SaveLogical.is_forbidden
    varkiv.Paths.SaveLogical.windows_reserved varkiv.Common.upper
    varkiv.Paths.SaveLogical.is_control varkiv.Common.Sorting.text_le
    varkiv.Agent.LocalSets.hashed_files varkiv.Common.Sorting.insert_by
    varkiv.Common.Sorting.sort_by varkiv.Common.format_int
enumerated = refl

stage-enumerate_binding_example :
    (staged : List Staged) × (stage [] 0 (map (incoming (λ f. pos 0)) save.files) ≡ ok staged)
    × (revision_content_hash (map (λ s. s.file) staged) ≡ save.content_hash)
    × AllSame (map (λ s. s.file) staged) save.files
stage-enumerate_binding_example =
    stage-enumerate_binding (codes "/s" ∷ []) found (λ f. pos 0) save enumerated refl

abbrev places : Places
places = record {
  target = codes "/s";
  backup = codes "/b";
  staged = codes "/i";
  previous = codes "/p";
}

-- The new directory cannot be moved in.
abbrev faults : Faults
faults = record {
  prepare_backup = false;
  copy_backup = false;
  prepare_stage = false;
  copy_payload = false;
  draw_previous = false;
  move_aside = false;
  move_in = true;
  move_back = false;
  remove_stage = false;
  remove_previous = false;
}

abbrev old : Tree
old = folder ((codes "a", 1 ∷ []) ∷ (codes "b", 2 ∷ []) ∷ [])

abbrev disk : Disk
disk = (codes "/s", old) ∷ []

abbrev downloaded : List LocalFile
downloaded = file (codes "a") (3 ∷ []) ∷ []

there : lookup (codes "/s") disk ≡ some old
unfolding lookup varkiv.Common.◌=ᵗ◌
there = refl

apart : varkiv.Agent.Recoverable.are_apart places ≡ true
unfolding varkiv.Common.◌=ᵗ◌
apart = refl

install_downloaded_save_example :
    KeepsSave faults places false save.files downloaded old apart
      (install_downloaded_save faults places false save.files downloaded true disk)
install_downloaded_save_example =
    install_downloaded_save_lem faults places false save.files downloaded old apart disk there

abbrev revision : DownloadedRevision
revision = record {
  id = codes "r1";
  content_hash = 97 ∷ 0 ∷ 3 ∷ 0 ∷ 49 ∷ 0 ∷ [];
  files =
      record {
        id = codes "f1";
        logical_path = codes "a";
        mode = 420;
        content_length = pos 1;
        body = some (3 ∷ []);
      }
      ∷ [];
}

abbrev now_there : Option (Result AgentError Text)
now_there = some (ok save.content_hash)

let_through :
    download_revision (codes "r1") (97 ∷ 0 ∷ 3 ∷ 0 ∷ 49 ∷ 0 ∷ []) save now_there revision
    ≡ ok (downloaded, true)
unfolding download_revision varkiv.Common.◌=ᵗ◌ varkiv.Common.trim varkiv.Common.byte_len
    varkiv.Paths.Slashes.is_rooted varkiv.Paths.SaveLogical.to_slashes
    varkiv.Paths.SaveLogical.ends_with varkiv.Paths.SaveLogical.has_double_slash
    varkiv.Paths.Slashes.clean varkiv.Paths.Slashes.join varkiv.Paths.Slashes.split
    varkiv.Paths.SaveLogical.refuses_part varkiv.Paths.SaveLogical.is_forbidden
    varkiv.Paths.SaveLogical.windows_reserved varkiv.Common.upper
    varkiv.Paths.SaveLogical.is_control varkiv.Common.Sorting.text_le
    varkiv.Agent.LocalSets.hashed_files varkiv.Common.Sorting.insert_by
    varkiv.Common.Sorting.sort_by varkiv.Common.format_int
let_through = refl

download_revision_example :
    (total_size downloaded ≤ max_save_revision_bytes)
    × (length downloaded ≡ length revision.files)
    × (length downloaded ≤ max_save_revision_files)
    × (has_fresh_paths [] downloaded ≡ true)
    × (content_hash downloaded ≡ 97 ∷ 0 ∷ 3 ∷ 0 ∷ 49 ∷ 0 ∷ [])
    × (now_there ≡ (if true then some (ok save.content_hash) else none))
download_revision_example =
    download_revision_lem (codes "r1") (97 ∷ 0 ∷ 3 ∷ 0 ∷ 49 ∷ 0 ∷ []) save now_there revision
      downloaded true let_through

abbrev task : Text → Text → Task
task id action = record {
  operation_id = id;
  stream_id = codes "s";
  action = action;
  target_revision_id = [];
  expected_hash = [];
  uploaded = err failed_download;
  downloaded = err failed_download;
  acknowledged = ok tt;
}

abbrev config : AgentConfig
config = record { streams = (codes "s", state (codes "r0") (codes "h0")) ∷ []; pending = none }

abbrev sets : Map LocalSet
sets = (codes "s", save) ∷ []

only_conflicts : all (is_aside (codes "s")) (task (codes "o1") (codes "conflict") ∷ []) ≡ true
unfolding varkiv.Common.◌=ᵗ◌
only_conflicts = refl

run_session_keeps_example :
    lookup
      (codes "s")
      (run_session sets (codes "x") [] (task (codes "o1") (codes "conflict") ∷ []) config).0.streams
    ≡ lookup (codes "s") config.streams
run_session_keeps_example =
    run_session_keeps sets (codes "x") [] (task (codes "o1") (codes "conflict") ∷ []) config
      (codes "s") only_conflicts

not_conflict : failed_download ≢ sync_conflict
not_conflict h = cc

upload_failed :
    (run_session sets
      (codes "x")
      []
      (task (codes "o1") (codes "upload") ∷ [])
      (choose_key (codes "p") (codes "k") config).0).1.1
    ≡ err failed_download
unfolding run_session lookup varkiv.Common.◌=ᵗ◌
upload_failed = refl

choose_key_again_example :
    choose_key
      (codes "p")
      (codes "n")
      (run_session sets
        (codes "x")
        []
        (task (codes "o1") (codes "upload") ∷ [])
        (choose_key (codes "p") (codes "k") config).0).0
    ≡ choose_key (codes "p") (codes "k") config
choose_key_again_example =
    choose_key_again sets (codes "x") [] (codes "p") (codes "k") (codes "n")
      (task (codes "o1") (codes "upload") ∷ []) config failed_download upload_failed not_conflict
