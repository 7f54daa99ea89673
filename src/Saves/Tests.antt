-- ===== src/Saves/Tests.antt =====
-- A repository with one stream, and the theorems at it.
use varkiv.Common.{
  ℕ, zero, suc, ◌≡◌, ◌≢◌, refl, codes, Text, Stdlib, trim, ◌=ᵗ◌, pos, ℤ, true, false, is_empty,
  some, none, Option, List, [], ◌∷◌, ok, err, arith, if◌then◌else◌, lower, byte_len, leb, length,
  Result, text_eq_iff, format_int, map, ◌++◌, ◌+◌, ◌⊎◌,
}
use varkiv.Common.Hex.{encode}
use varkiv.Common.Maps.{Map, lookup, insert}
use varkiv.Common.Sorting.{text_le, sort_by}
use varkiv.Saves.Model.{
  Store, SaveStream, RevisionRow, SaveRevision, NewSaveRevision, Draws, PushSetInput, PushResult,
  Repository, SaveError, no_rows,
}
use varkiv.Saves.Queries.{
  current_stream_revision, get_save_revision, current_row, owner, find, is_owned, or_manual,
}
use varkiv.Saves.Revisions.{save_transaction, add_save_revision}
use varkiv.Saves.Currency.{IsSound, currents, add_save_revision-IsSound}
use varkiv.Saves.Bounds.{IsWithin, save_transaction-IsWithin}
use varkiv.Saves.Push.{push_set, with_defaults}
use varkiv.Saves.Blobs.{Staged, stage, store_blobs, Bytes}
use varkiv.Saves.Storing.{push_set_keeps_blobs, staged_files_stored, has_blob}
use varkiv.Common.{all}
use varkiv.Common.Maps.{Map, lookup}
use varkiv.Saves.Model.{NewSaveFile, SaveError}
use varkiv.Saves.Safety.{resolved, push_set_keeps_current}
use varkiv.Saves.Advance.{IsNewest, push_set_advances, push_set_unlinked}

abbrev pad : ℕ → Text → Text
pad zero t = []
pad (suc n) [] = b'0' ∷ pad n []
pad (suc n) (c ∷ t) = c ∷ pad n t

-- No case beyond ASCII, and digests that are the padded text.
instance abbrev plain : Stdlib
unfolding encode
plain = record {
  lower_wide = λ c. c;
  upper_wide = λ c. c;
  sha256 = λ t. t;
  sha256_bytes = λ bs. pad 64 (encode bs);
}

abbrev first_row : RevisionRow
first_row = record {
  id = codes "r1";
  stream_id = codes "s1";
  device_id = codes "d1";
  parent_revision_id = [];
  content_hash = codes "first";
  total_size = pos 3;
  file_count = 1;
  status = codes "current";
  created_at = codes "2025-01-01T00:00:00Z";
}

abbrev stream : SaveStream
stream = record {
  id = codes "s1";
  namespace = codes "platform:gba:manual";
  owner_type = codes "platform";
  owner_key = codes "gba";
  driver_id = codes "manual";
  portability = codes "portable";
  compatibility_group_id = [];
  created_at = [];
  updated_at = [];
}

abbrev store : Store
store = record {
  editions =
      record { id = codes "e1"; save_namespace = codes "one" }
      ∷ record { id = codes "e2"; save_namespace = codes "two" }
      ∷ [];
  devices = record { id = codes "d1"; updated_at = []; last_seen_at = [] } ∷ [];
  streams = stream ∷ [];
  stream_editions =
      record {
        stream_id = codes "s1";
        edition_id = codes "e1";
        compatibility = codes "native";
        created_at = [];
      }
      ∷ [];
  revisions = first_row ∷ [];
  files = [];
}

abbrev repository : Repository
repository = record { store = store; blobs = [] }

abbrev first : SaveRevision
first = record { row = first_row; files = []; stream = stream; conflict = false }

abbrev draws : Draws
draws = record {
  stream_id = codes "s2";
  revision_id = codes "r2";
  file_id = λ n. codes "f" ++ (b'0' + n) ∷ [];
  stream_time = codes "2025-01-02T00:00:00Z";
  time = codes "2025-01-02T00:00:01Z";
}

abbrev push : Text → Text → PushSetInput
push edition base = record {
  edition_id = edition;
  device_id = codes "d1";
  driver_id = [];
  scope_type = codes "platform";
  scope_key = codes "gba";
  base_revision_id = base;
  expected_content_hash = [];
  files =
      record {
        logical_path = codes "game.srm";
        reader = some (1 ∷ 2 ∷ []);
        mtime_ns = pos 0;
        mode = pos 0;
      }
      ∷ record {
        logical_path = codes "states/game.st0";
        reader = some (255 ∷ []);
        mtime_ns = pos 0;
        mode = pos 0;
      }
      ∷ [];
}

abbrev revision : NewSaveRevision
revision = record {
  id = [];
  stream_id = codes "s1";
  parent_revision_id = codes "r1";
  content_hash = [];
  status = [];
  files = [];
  edition_id = [];
  device_id = codes "d1";
  driver_id = [];
  relative_path = codes "saves\\game.srm";
  scope_type = [];
  scope_key = [];
  checksum = codes "abc";
  size = pos 8192;
  blob_path = codes "/blobs/ab/abc";
  base_revision_id = [];
  conflict = false;
}

store_IsSound : IsSound store
unfolding IsSound currents
store_IsSound s = ground arith

add_save_revision-IsSound_example : IsSound (add_save_revision draws revision store).0
add_save_revision-IsSound_example = add_save_revision-IsSound draws revision store store_IsSound

abbrev after : Store
unfolding add_save_revision
after = (add_save_revision draws revision store).0

revision_saved : save_transaction draws revision store ≡ ok after
unfolding save_transaction trim byte_len ◌=ᵗ◌ varkiv.Paths.Slashes.is_rooted
    varkiv.Paths.SaveLogical.to_slashes varkiv.Paths.SaveLogical.ends_with
    varkiv.Paths.SaveLogical.has_double_slash varkiv.Paths.Slashes.clean varkiv.Paths.Slashes.join
    varkiv.Paths.Slashes.split varkiv.Paths.SaveLogical.refuses_part
    varkiv.Paths.SaveLogical.is_forbidden varkiv.Paths.SaveLogical.windows_reserved
    varkiv.Common.upper varkiv.Paths.SaveLogical.is_control varkiv.Saves.Queries.is_current after
revision_saved = refl

save_transaction-IsWithin_example : IsWithin revision store after
save_transaction-IsWithin_example =
    save_transaction-IsWithin draws revision store after revision_saved

resolved_store : resolved (push (codes "e1") (codes "r1")) repository ≡ ok stream
unfolding with_defaults ◌=ᵗ◌ trim varkiv.Saves.Queries.resolve_save_stream
resolved_store = refl

current_store : current_stream_revision (codes "s1") store ≡ ok first
unfolding current_stream_revision varkiv.Saves.Queries.latest varkiv.Saves.Queries.is_current ◌=ᵗ◌
    sort_by
current_store = refl

apart : [] ≢ codes "r1"
apart = λ e. absurd (ground arith)

resolved_unbased : resolved (push (codes "e1") []) repository ≡ ok stream
unfolding with_defaults ◌=ᵗ◌ trim varkiv.Saves.Queries.resolve_save_stream
resolved_unbased = refl

push_set_keeps_current_example :
    current_row
      (codes "s1")
      (push_set (codes "/saves") draws (push (codes "e1") []) repository).0.store
    ≡ current_row (codes "s1") store
push_set_keeps_current_example =
    push_set_keeps_current (codes "/saves") draws (push (codes "e1") []) repository stream first
      resolved_unbased current_store apart

abbrev value : Result SaveError PushResult → PushResult
value (ok r) = r
value (err e) = record { revision = first; created = false; conflict = false }

abbrev outcome : Text → Text → Repository × Result SaveError PushResult
unfolding push_set
outcome edition base = push_set (codes "/saves") draws (push edition base) repository

based_pushed :
    push_set (codes "/saves") draws (push (codes "e1") (codes "r1")) repository
    ≡ ((outcome (codes "e1") (codes "r1")).0, ok (value (outcome (codes "e1") (codes "r1")).1))
unfolding plain outcome push_set encode trim ◌=ᵗ◌ byte_len lower varkiv.Common.Maps.delete insert
    lookup varkiv.Common.Sorting.insert_by sort_by text_le format_int varkiv.Common.is_space
    varkiv.Common.lower_rune varkiv.Common.upper_rune varkiv.Common.upper
    varkiv.Paths.SaveLogical.clean_save_logical varkiv.Paths.SaveLogical.stem
    varkiv.Paths.Slashes.push varkiv.Paths.Slashes.push_all varkiv.Paths.Slashes.is_rooted
    varkiv.Paths.SaveLogical.to_slashes varkiv.Paths.SaveLogical.ends_with
    varkiv.Paths.SaveLogical.has_double_slash varkiv.Paths.Slashes.clean varkiv.Paths.Slashes.join
    varkiv.Paths.Slashes.split varkiv.Paths.SaveLogical.refuses_part
    varkiv.Paths.SaveLogical.is_forbidden varkiv.Paths.SaveLogical.windows_reserved
    varkiv.Paths.SaveLogical.is_control varkiv.Saves.Blobs.blob_path varkiv.Saves.Blobs.check_blobs
    varkiv.Saves.Blobs.copy_incoming_save varkiv.Saves.Blobs.is_intact varkiv.Saves.Blobs.stage
    varkiv.Saves.Blobs.store_blobs varkiv.Saves.Push.check_base varkiv.Saves.Push.check_input
    varkiv.Saves.Push.decide varkiv.Saves.Push.negotiate varkiv.Saves.Push.new_revision
    varkiv.Saves.Push.perform varkiv.Saves.Push.record_revision with_defaults current_row
    current_stream_revision get_save_revision
    varkiv.Saves.Queries.find_stream_revision_by_content_hash varkiv.Saves.Queries.has_content
    varkiv.Saves.Queries.hydrate varkiv.Saves.Queries.is_current varkiv.Saves.Queries.latest
    varkiv.Saves.Queries.resolve_save_stream add_save_revision save_transaction
    varkiv.Saves.Revisions.add_save_revision_size varkiv.Saves.Revisions.clean_files
    varkiv.Saves.Revisions.clean_save_logical_path varkiv.Saves.Revisions.hashed_fields
    varkiv.Saves.Revisions.insert_files varkiv.Saves.Revisions.insert_revision
    varkiv.Saves.Revisions.new_row varkiv.Saves.Revisions.revision_content_hash
    varkiv.Saves.Revisions.revision_files varkiv.Saves.Revisions.supersede
    varkiv.Saves.Revisions.write_revision varkiv.Saves.Streams.create_stream
    varkiv.Saves.Streams.ensure_legacy_stream varkiv.Saves.Streams.insert_stream
    varkiv.Saves.Streams.link_edition varkiv.Saves.Streams.link_stream
    varkiv.Saves.Streams.new_namespace varkiv.Saves.Streams.owned_stream
based_pushed = refl

push_set_advances_example :
    ((value (outcome (codes "e1") (codes "r1")).1
        ≡ record { revision = first; created = false; conflict = false })
      × ((outcome (codes "e1") (codes "r1")).0 ≡ repository))
    ⊎ (((value (outcome (codes "e1") (codes "r1")).1).created ≡ true)
        × ((value (outcome (codes "e1") (codes "r1")).1).conflict ≡ false)
        × IsNewest draws
            (with_defaults (push (codes "e1") (codes "r1")))
            (codes "s1")
            (outcome (codes "e1") (codes "r1")).0.store)
push_set_advances_example =
    push_set_advances (codes "/saves") draws (push (codes "e1") (codes "r1")) repository
      (outcome (codes "e1") (codes "r1")).0 (value (outcome (codes "e1") (codes "r1")).1) stream
      first resolved_store refl current_store refl based_pushed

unlinked : resolved (push (codes "e2") []) repository ≡ err no_rows
unfolding with_defaults varkiv.Saves.Queries.resolve_save_stream ◌=ᵗ◌ trim
unlinked = refl

unlinked_pushed :
    push_set (codes "/saves") draws (push (codes "e2") []) repository
    ≡ ((outcome (codes "e2") []).0, ok (value (outcome (codes "e2") []).1))
unfolding plain outcome push_set encode trim ◌=ᵗ◌ byte_len lower varkiv.Common.Maps.delete insert
    lookup varkiv.Common.Sorting.insert_by sort_by text_le format_int varkiv.Common.is_space
    varkiv.Common.lower_rune varkiv.Common.upper_rune varkiv.Common.upper
    varkiv.Paths.SaveLogical.clean_save_logical varkiv.Paths.SaveLogical.stem
    varkiv.Paths.Slashes.push varkiv.Paths.Slashes.push_all varkiv.Paths.Slashes.is_rooted
    varkiv.Paths.SaveLogical.to_slashes varkiv.Paths.SaveLogical.ends_with
    varkiv.Paths.SaveLogical.has_double_slash varkiv.Paths.Slashes.clean varkiv.Paths.Slashes.join
    varkiv.Paths.Slashes.split varkiv.Paths.SaveLogical.refuses_part
    varkiv.Paths.SaveLogical.is_forbidden varkiv.Paths.SaveLogical.windows_reserved
    varkiv.Paths.SaveLogical.is_control varkiv.Saves.Blobs.blob_path varkiv.Saves.Blobs.check_blobs
    varkiv.Saves.Blobs.copy_incoming_save varkiv.Saves.Blobs.is_intact varkiv.Saves.Blobs.stage
    varkiv.Saves.Blobs.store_blobs varkiv.Saves.Push.check_base varkiv.Saves.Push.check_input
    varkiv.Saves.Push.decide varkiv.Saves.Push.negotiate varkiv.Saves.Push.new_revision
    varkiv.Saves.Push.perform varkiv.Saves.Push.record_revision with_defaults current_row
    current_stream_revision get_save_revision
    varkiv.Saves.Queries.find_stream_revision_by_content_hash varkiv.Saves.Queries.has_content
    varkiv.Saves.Queries.hydrate varkiv.Saves.Queries.is_current varkiv.Saves.Queries.latest
    varkiv.Saves.Queries.resolve_save_stream add_save_revision save_transaction
    varkiv.Saves.Revisions.add_save_revision_size varkiv.Saves.Revisions.clean_files
    varkiv.Saves.Revisions.clean_save_logical_path varkiv.Saves.Revisions.hashed_fields
    varkiv.Saves.Revisions.insert_files varkiv.Saves.Revisions.insert_revision
    varkiv.Saves.Revisions.new_row varkiv.Saves.Revisions.revision_content_hash
    varkiv.Saves.Revisions.revision_files varkiv.Saves.Revisions.supersede
    varkiv.Saves.Revisions.write_revision varkiv.Saves.Streams.create_stream
    varkiv.Saves.Streams.ensure_legacy_stream varkiv.Saves.Streams.insert_stream
    varkiv.Saves.Streams.link_edition varkiv.Saves.Streams.link_stream
    varkiv.Saves.Streams.new_namespace varkiv.Saves.Streams.owned_stream
unlinked_pushed = refl

owned :
    (let full = with_defaults (push (codes "e2") []) in
      let o = owner full.edition_id full.scope_type full.scope_key in
      find (is_owned o.0 o.1 (or_manual (trim full.driver_id))) repository.store.streams)
    ≡ some stream
unfolding with_defaults ◌=ᵗ◌ trim
owned = refl

push_set_unlinked_example :
    ((value (outcome (codes "e2") []).1).created ≡ true)
    × ((value (outcome (codes "e2") []).1).conflict ≡ false)
    × IsNewest draws
        (with_defaults (push (codes "e2") []))
        (codes "s1")
        (outcome (codes "e2") []).0.store
push_set_unlinked_example =
    push_set_unlinked (codes "/saves") draws (push (codes "e2") []) repository
      (outcome (codes "e2") []).0 (value (outcome (codes "e2") []).1) no_rows stream unlinked owned
      unlinked_pushed

abbrev staged : Result SaveError (List Staged)
unfolding stage
staged = stage [] 0 (push (codes "e1") []).files

abbrev staged_value : List Staged
staged_value = elim staged as (λ _. List Staged) [ ok s ↦ s | err e ↦ [] ]

are_staged : stage [] 0 (push (codes "e1") []).files ≡ ok staged_value
unfolding stage ◌=ᵗ◌ trim byte_len varkiv.Paths.Slashes.is_rooted
    varkiv.Paths.SaveLogical.to_slashes varkiv.Paths.SaveLogical.ends_with
    varkiv.Paths.SaveLogical.has_double_slash varkiv.Paths.Slashes.clean varkiv.Paths.Slashes.join
    varkiv.Paths.Slashes.split varkiv.Paths.SaveLogical.refuses_part
    varkiv.Paths.SaveLogical.is_forbidden varkiv.Paths.SaveLogical.windows_reserved
    varkiv.Common.upper varkiv.Paths.SaveLogical.is_control
are_staged = refl

abbrev stored_value : List NewSaveFile
unfolding store_blobs
stored_value = elim (store_blobs (codes "/saves") staged_value []).1 as (λ _. List NewSaveFile) [
  | ok files ↦ files
  | err e ↦ []
]

are_stored : (store_blobs (codes "/saves") staged_value []).1 ≡ ok stored_value
unfolding store_blobs staged stored_value plain encode stage ◌=ᵗ◌ trim byte_len
    varkiv.Paths.Slashes.is_rooted varkiv.Paths.SaveLogical.to_slashes
    varkiv.Paths.SaveLogical.ends_with varkiv.Paths.SaveLogical.has_double_slash
    varkiv.Paths.Slashes.clean varkiv.Paths.Slashes.join varkiv.Paths.Slashes.split
    varkiv.Paths.SaveLogical.refuses_part varkiv.Paths.SaveLogical.is_forbidden
    varkiv.Paths.SaveLogical.windows_reserved varkiv.Common.upper
    varkiv.Paths.SaveLogical.is_control varkiv.Common.Maps.delete insert lookup
    varkiv.Common.is_space varkiv.Common.upper_rune varkiv.Paths.SaveLogical.clean_save_logical
    varkiv.Paths.SaveLogical.is_device varkiv.Paths.SaveLogical.stem varkiv.Paths.Slashes.push
    varkiv.Paths.Slashes.push_all varkiv.Saves.Blobs.blob_path varkiv.Saves.Blobs.copy_incoming_save
    varkiv.Saves.Blobs.is_intact varkiv.Saves.Revisions.clean_save_logical_path
are_stored = refl

staged_files_stored_example :
    all (has_blob (store_blobs (codes "/saves") staged_value []).0) stored_value ≡ true
staged_files_stored_example =
    staged_files_stored (codes "/saves") (push (codes "e1") []).files staged_value [] stored_value
      are_staged are_stored

abbrev old_blobs : Map Bytes
old_blobs = (codes "/saves/blobs/ab/abc", 7 ∷ []) ∷ []

is_there : lookup (codes "/saves/blobs/ab/abc") old_blobs ≡ some (7 ∷ [])
unfolding lookup ◌=ᵗ◌
is_there = refl

push_set_keeps_blobs_example :
    lookup
      (codes "/saves/blobs/ab/abc")
      (push_set
        (codes "/saves")
        draws
        (push (codes "e1") (codes "r1"))
        (record { store = store; blobs = old_blobs })).0.blobs
    ≡ some (7 ∷ [])
push_set_keeps_blobs_example =
    push_set_keeps_blobs (codes "/saves") (codes "/saves/blobs/ab/abc") draws
      (push (codes "e1") (codes "r1")) (record { store = store; blobs = old_blobs }) (7 ∷ [])
      is_there
