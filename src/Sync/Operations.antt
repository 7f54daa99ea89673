-- ===== src/Sync/Operations.antt =====
-- The operations of a sync session: internal/catalog/sync_session_store.go.
use varkiv.Common.{
  ℕ, ℤ, suc, Text, codes, trim, Bool, not, ◌&&◌, ◌||◌, ◌==◌, ltb, ◌=ᵗ◌, Option, none, some, List,
  [], ◌∷◌, map, any, is_empty, Result, ok, err, if◌then◌else◌, or_fail,
}
use varkiv.Sync.Model.{
  SyncOperation, SyncSession, SyncStore, SyncError, Outcome, no_rows, idempotency_conflict,
  operation_hash_mismatch, failure_code_required,
}

-- WHERE session_id=? AND id=?
abbrev pub is_operation : Text → Text → SyncOperation → Bool
is_operation session id op = (op.session_id =ᵗ session) && (op.id =ᵗ id)

unfoldable pub find_operation : Text → Text → List SyncOperation → Option SyncOperation
find_operation session id [] = none
find_operation session id (op ∷ ops) =
    if is_operation session id op then some op else find_operation session id ops

-- UPDATE sync_operations SET ... for the rows that pass
unfoldable pub update :
    (SyncOperation → Bool)
    → (SyncOperation → SyncOperation)
    → List SyncOperation
    → List SyncOperation
update p f = map (λ op. if p op then f op else op)

unfoldable pub get_sync_operation : Text → Text → SyncStore → Result SyncError SyncOperation
unfolding find_operation
get_sync_operation session id st = or_fail (find_operation session id st.operations) no_rows

abbrev set_operations : List SyncOperation → SyncStore → SyncStore
set_operations ops st = record st { operations = ops }

abbrev pub completed : Text → Text → ℤ → Text → SyncOperation → SyncOperation
completed actual target bytes now op = record op {
  status = codes "complete";
  actual_hash = actual;
  target_revision_id = target;
  bytes = bytes;
  updated_at = now;
}

abbrev pub failed : Text → Text → Text → SyncOperation → SyncOperation
failed code actual now op = record op {
  status = codes "failed";
  failure_code = code;
  actual_hash = actual;
  updated_at = now;
}

-- CompleteSyncOperation for the row that was read.
unfoldable pub complete_operation :
    Text → Text → Text → Text → ℤ → Text → SyncStore → SyncOperation → Outcome SyncOperation
unfolding update get_sync_operation
complete_operation session id actual target bytes now st op =
    let mismatched =
      set_operations
        (update (is_operation session id) (failed (codes "hash_mismatch") actual now) st.operations)
        st in
    let done =
      set_operations
        (update (is_operation session id) (completed actual target bytes now) st.operations) st in
    if op.status =ᵗ codes "complete"
    then (
      st,
      if not (op.actual_hash =ᵗ actual) || not (op.target_revision_id =ᵗ target)
          then err idempotency_conflict
          else ok op,
    )
    else if (op.status =ᵗ codes "failed") || (op.status =ᵗ codes "skipped")
    then (st, err idempotency_conflict)
    else if not (is_empty op.expected_hash) && not (op.expected_hash =ᵗ actual)
    then (mismatched, err operation_hash_mismatch)
    else (done, get_sync_operation session id done)

abbrev on_operation :
    Result SyncError SyncOperation
    → SyncStore
    → (SyncOperation → Outcome SyncOperation)
    → Outcome SyncOperation
on_operation (ok op) st k = k op
on_operation (err e) st k = (st, err e)

unfoldable pub complete_sync_operation :
    Text → Text → Text → Text → ℤ → Text → SyncStore → Outcome SyncOperation
unfolding complete_operation get_sync_operation
complete_sync_operation session id actual target bytes now st =
    on_operation (get_sync_operation session id st) st
      (complete_operation session id actual target bytes now st)

-- The rows that FailSyncOperation updates.
abbrev pub can_fail : Text → Text → SyncOperation → Bool
can_fail session id op = is_operation session id op && not (op.status =ᵗ codes "complete")

unfoldable pub fail_sync_operation :
    Text → Text → Text → Text → Text → SyncStore → Outcome SyncOperation
unfolding update get_sync_operation
fail_sync_operation session id code actual now st =
    let after =
      set_operations (update (can_fail session id) (failed code actual now) st.operations) st in
    if is_empty (trim code)
    then (st, err failure_code_required)
    else if not (any (can_fail session id) st.operations)
    then (st, err idempotency_conflict)
    else (after, get_sync_operation session id after)

-- SUM(CASE WHEN ... THEN 1 ELSE 0 END) over the operations of a session
unfoldable pub count : (SyncOperation → Bool) → List SyncOperation → ℕ
count p [] = 0
count p (op ∷ ops) = let rest = count p ops in if p op then suc rest else rest

abbrev pub is_pending : SyncOperation → Bool
is_pending op = not (
    (op.status =ᵗ codes "complete")
    || (op.status =ᵗ codes "failed")
    || (op.status =ᵗ codes "skipped"))

abbrev pub is_failed : SyncOperation → Bool
is_failed op = op.status =ᵗ codes "failed"

abbrev pub is_done : Text → SyncOperation → Bool
is_done action op = (op.action =ᵗ action) && (op.status =ᵗ codes "complete")

abbrev pub in_session : Text → (SyncOperation → Bool) → SyncOperation → Bool
in_session id p op = (op.session_id =ᵗ id) && p op

unfoldable pub find_session : Text → List SyncSession → Option SyncSession
find_session id [] = none
find_session id (s ∷ ss) = if s.id =ᵗ id then some s else find_session id ss

-- The row of a session from its operations; `finished` and `now` are the two readings of the clock.
unfoldable pub recalculated : Text → Text → Text → List SyncOperation → SyncSession → SyncSession
unfolding count
recalculated id finished now ops s =
    let pending = count (in_session id is_pending) ops in
    let failures = count (in_session id is_failed) ops in
    record s {
      status =
          if not (pending == 0)
          then codes "transferring"
          else if ltb 0 failures
          then codes "partial"
          else codes "complete";
      uploaded_count = count (in_session id (is_done (codes "upload"))) ops;
      downloaded_count = count (in_session id (is_done (codes "download"))) ops;
      conflict_count = count (in_session id (λ op. op.action =ᵗ codes "conflict")) ops;
      failure_code = if pending == 0 && ltb 0 failures then codes "operation_failed" else [];
      updated_at = now;
      finished_at = if pending == 0 then finished else [];
    }

unfoldable pub recalculate_sync_session : Text → Text → Text → SyncStore → Outcome SyncSession
unfolding recalculated find_session
recalculate_sync_session id finished now st =
    let after = record st {
      sessions =
          map (λ s. if s.id =ᵗ id then recalculated id finished now st.operations s else s)
            st.sessions;
    } in
    (after, or_fail (find_session id after.sessions) no_rows)
