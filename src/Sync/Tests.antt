-- ===== src/Sync/Tests.antt =====
-- A session with a download and an upload, a plan, and the theorems at them.
use varkiv.Common.{
  ℕ, ℤ, pos, ◌≡◌, ◌↔◌, ◌≤◌, refl, codes, Text, Stdlib, Bool, true, false, Option, none, some, List,
  [], ◌∷◌, any, length, Result, ok, err, if◌then◌else◌, arith,
}
use varkiv.Common.Sorting.{sort_by, text_le}
use varkiv.Saves.Model.{Store, SaveStream, RevisionRow}
use varkiv.Sync.Model.{SyncOperation, SyncSession, SyncStore, SyncSaveState, NewSyncOperation}
use varkiv.Sync.Operations.{
  find_operation, complete_sync_operation, recalculate_sync_session, is_pending, in_session,
}
use varkiv.Sync.Progress.{
  Call, completes, fails, recalculates, run, complete_is_final, complete_again, is_open,
  recalculate_complete_iff,
}
use varkiv.Common.{◌++◌, ◌=ᵗ◌, trim}
use varkiv.Sync.Model.{SyncError, idempotency_conflict}
use varkiv.Sync.Creation.{
  Created, Drawn, NewSyncSession, SessionStore, create_sync_session, check_new_session,
}
use varkiv.Sync.Keeping.{SessionCall, creates, on_operations, session_run}
use varkiv.Sync.Creation.{SessionView, get_sync_session}
use varkiv.Sync.Idempotence.{create_sync_session_again}
use varkiv.Sync.Plan.{plan}
use varkiv.Sync.Planning.{AreSafe, plan-AreSafe}

-- No case beyond ASCII, and digests that are the text.
instance abbrev plain : Stdlib
plain = record { lower_wide = λ c. c; upper_wide = λ c. c; sha256 = λ t. t; sha256_bytes = λ t. t }

abbrev operation : Text → Text → Text → SyncOperation
operation id action status = record {
  id = id;
  session_id = codes "s";
  stream_id = codes "saves";
  action = action;
  status = status;
  base_revision_id = [];
  target_revision_id = codes "r1";
  expected_hash = codes "abc";
  actual_hash = [];
  bytes = pos 3;
  failure_code = [];
  detail = [];
  created_at = [];
  updated_at = [];
}

abbrev session : SyncSession
session = record {
  id = codes "s";
  device_id = codes "d";
  idempotency_key = codes "key-0001";
  status = codes "proposed";
  base_manifest_hash = [];
  operation_plan_hash = [];
  uploaded_count = 0;
  downloaded_count = 0;
  conflict_count = 0;
  failure_code = [];
  created_at = [];
  updated_at = [];
  finished_at = [];
}

abbrev store : SyncStore
store = record {
  sessions = session ∷ [];
  operations =
      operation (codes "o1") (codes "download") (codes "proposed")
      ∷ operation (codes "o2") (codes "noop") (codes "complete")
      ∷ [];
}

abbrev done : SyncOperation
done = record (operation (codes "o1") (codes "download") (codes "complete")) {
  actual_hash = codes "abc";
  updated_at = codes "12:00";
}

abbrev after : SyncStore
after = record store {
  operations = done ∷ operation (codes "o2") (codes "noop") (codes "complete") ∷ [];
}

abbrev calls : List Call
calls =
    completes (codes "s") (codes "o2") (codes "other") (codes "r2") (pos 9) (codes "12:01")
    ∷ fails (codes "s") (codes "o2") (codes "server_advanced") [] (codes "12:02")
    ∷ recalculates (codes "s") (codes "12:03") (codes "12:04")
    ∷ []

complete_is_final_example :
    find_operation (codes "s") (codes "o2") (run store calls).operations
    ≡ some (operation (codes "o2") (codes "noop") (codes "complete"))
unfolding find_operation varkiv.Common.◌=ᵗ◌
complete_is_final_example =
    complete_is_final (codes "s") (codes "o2") store
      (operation (codes "o2") (codes "noop") (codes "complete")) calls refl refl

o1_completed :
    complete_sync_operation
      (codes "s")
      (codes "o1")
      (codes "abc")
      (codes "r1")
      (pos 3)
      (codes "12:00")
      store
    ≡ (after, ok done)
unfolding complete_sync_operation varkiv.Common.◌=ᵗ◌
o1_completed = refl

complete_again_example :
    (find_operation (codes "s") (codes "o1") after.operations ≡ some done)
    × (done.status ≡ codes "complete")
    × (done.actual_hash ≡ codes "abc")
    × (done.target_revision_id ≡ codes "r1")
    × (complete_sync_operation
          (codes "s")
          (codes "o1")
          (codes "abc")
          (codes "r1")
          (pos 3)
          (codes "13:00")
          after
        ≡ (after, ok done))
complete_again_example =
    complete_again (codes "s") (codes "o1") (codes "abc") (codes "r1") (pos 3) (codes "12:00") store
      after done o1_completed (codes "13:00")

abbrev finished_session : SyncSession
finished_session = record session {
  status = codes "complete";
  downloaded_count = 1;
  finished_at = codes "12:03";
  updated_at = codes "12:04";
}

recalculated_after :
    recalculate_sync_session (codes "s") (codes "12:03") (codes "12:04") after
    ≡ (record after { sessions = finished_session ∷ [] }, ok finished_session)
unfolding recalculate_sync_session varkiv.Common.◌=ᵗ◌
recalculated_after = refl

recalculate_complete_iff_example :
    ((finished_session.status ≡ codes "complete")
      ↔ (any (in_session (codes "s") is_open) after.operations ≡ false))
    × (finished_session.finished_at
        ≡ (if any (in_session (codes "s") is_pending) after.operations then [] else codes "12:03"))
recalculate_complete_iff_example =
    recalculate_complete_iff (codes "s") (codes "12:03") (codes "12:04") after
      (record after { sessions = finished_session ∷ [] }) finished_session recalculated_after

abbrev revision : Text → Text → Text → Text → RevisionRow
revision id stream hash status = record {
  id = id;
  stream_id = stream;
  device_id = codes "d";
  parent_revision_id = [];
  content_hash = hash;
  total_size = pos 3;
  file_count = 1;
  status = status;
  created_at = id;
}

abbrev stream : Text → SaveStream
stream id = record {
  id = id;
  namespace = id;
  owner_type = codes "edition";
  owner_key = id;
  driver_id = codes "manual";
  portability = codes "portable";
  compatibility_group_id = [];
  created_at = [];
  updated_at = [];
}

abbrev old : Text
old = codes "0000000000000000000000000000000000000000000000000000000000000001"

abbrev new : Text
new = codes "0000000000000000000000000000000000000000000000000000000000000002"

abbrev catalog : Store
catalog = record {
  editions = [];
  devices = [];
  streams = stream (codes "a") ∷ stream (codes "b") ∷ [];
  stream_editions = [];
  revisions =
      revision (codes "r1") (codes "a") old (codes "superseded")
      ∷ revision (codes "r2") (codes "a") new (codes "current")
      ∷ [];
  files = [];
}

abbrev states : List SyncSaveState
states =
    record {
      stream_id = codes "b";
      base_revision_id = [];
      content_hash = new;
      has_local_data = true;
    }
    ∷ record {
      stream_id = codes "a";
      base_revision_id = codes "r1";
      content_hash = old;
      has_local_data = true;
    }
    ∷ []

abbrev planned : List NewSyncOperation
planned =
    record {
      id = [];
      stream_id = codes "a";
      action = codes "download";
      status = codes "proposed";
      base_revision_id = codes "r1";
      target_revision_id = codes "r2";
      expected_hash = new;
      bytes = pos 3;
      detail = [];
    }
    ∷ record {
      id = [];
      stream_id = codes "b";
      action = codes "upload";
      status = codes "proposed";
      base_revision_id = [];
      target_revision_id = [];
      expected_hash = new;
      bytes = pos 0;
      detail = [];
    }
    ∷ []

proposed : plan (λ _. true) catalog states ≡ ok planned
unfolding plan varkiv.Common.trim varkiv.Common.lower varkiv.Common.◌=ᵗ◌ varkiv.Saves.Queries.latest
    varkiv.Saves.Queries.is_current
proposed = refl

plan-AreSafe_example :
    AreSafe (λ _. true) catalog (sort_by (λ a b. text_le a.stream_id b.stream_id) states) planned
    × (length states ≤ 4096)
plan-AreSafe_example = plan-AreSafe (λ _. true) catalog states planned proposed

abbrev request : NewSyncSession
request = record {
  id = [];
  device_id = codes " d";
  idempotency_key = codes "key-0001";
  status = codes "proposed";
  base_manifest_hash = codes "m";
  operation_plan_hash = codes "p";
  operations = planned;
  inventory =
      record {
        id = [];
        client_item_id = codes "c";
        platform_id = codes "gb";
        sha256 = [];
        serial = [];
        product_code = [];
        title_id = [];
        size = pos 1;
        match_status = codes "matched";
        matched_edition_id = codes "e";
        match_method = codes "sha256";
      }
      ∷ [];
}

-- The request after the answer was lost, with a plan that has changed since.
abbrev request_again : NewSyncSession
request_again = record request { device_id = codes "d"; operations = []; operation_plan_hash = [] }

abbrev drawn : Text → Drawn
drawn id = record {
  session = id;
  item = λ n. id ++ n ∷ [];
  operation = λ n. id ++ n ∷ [];
  now = codes "12:00";
}

abbrev tables : SessionStore
tables = record {
  sync = record { sessions = []; operations = [] };
  inventory = [];
  devices = codes "d" ∷ [];
  streams = codes "a" ∷ codes "b" ∷ [];
  editions = codes "e" ∷ [];
}

abbrev answer : Result SyncError Created
answer = create_sync_session (drawn (codes "s1")) request tables

abbrev answered : Created
answered = elim answer as (λ _. Created) [
  | ok created ↦ created
  | err e ↦ (tables, ((session, []), false))
]

is_answered :
    create_sync_session (drawn (codes "s1")) request tables
    ≡ ok (answered.0, (answered.1.0, answered.1.1))
unfolding create_sync_session trim varkiv.Common.byte_len ◌=ᵗ◌ varkiv.Sync.Creation.null_if_empty
    varkiv.Sync.Operations.find_session
is_answered = refl

has_two_operations : length answered.1.0.1 ≡ 2
unfolding create_sync_session trim varkiv.Common.byte_len ◌=ᵗ◌ varkiv.Sync.Creation.null_if_empty
    varkiv.Sync.Operations.find_session sort_by text_le
has_two_operations = refl

is_request : check_new_session request_again ≡ ok tt
unfolding check_new_session trim varkiv.Common.byte_len ◌=ᵗ◌
is_request = refl

same_device : varkiv.Common.trim request_again.device_id ≡ varkiv.Common.trim request.device_id
unfolding varkiv.Common.trim
same_device = refl

-- In between, an operation is completed, another session is made, and the first is summarised.
abbrev between : List SessionCall
between =
    on_operations
      (completes (codes "s1") (codes "s1" ++ 0 ∷ []) new (codes "r2") (pos 3) (codes "12:01"))
    ∷ creates (drawn (codes "s3")) (record request { idempotency_key = codes "key-0002" })
    ∷ on_operations (recalculates (codes "s1") (codes "12:02") (codes "12:02"))
    ∷ []

create_sync_session_again_example :
    let final = session_run answered.0 between in
    (now : SessionView) × (get_sync_session answered.1.0.0.id final.sync ≡ ok now)
    × (now.0.id ≡ answered.1.0.0.id)
    × (create_sync_session (drawn (codes "s2")) request_again final ≡ (
        if request.base_manifest_hash =ᵗ request_again.base_manifest_hash
        then ok (final, (now, true))
        else err idempotency_conflict))
create_sync_session_again_example =
    create_sync_session_again (drawn (codes "s1")) (drawn (codes "s2")) request request_again tables
      answered.0 answered.1.0 answered.1.1 between is_answered is_request same_device refl
