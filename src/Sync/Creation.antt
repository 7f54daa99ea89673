-- ===== src/Sync/Creation.antt =====
-- CreateSyncSession and GetSyncSession of internal/catalog/sync_session_store.go. The identifiers
-- that NewID draws and the one reading of the clock are arguments.
use varkiv.Common.{
  ℕ, suc, ℤ, Text, codes, trim, byte_len, Bool, not, ◌&&◌, ◌||◌, ltb, ◌=ᵗ◌, ◌==◌, Option, none,
  some, List, [], ◌∷◌, any, member, is_empty, Result, ok, if◌then◌else◌, or_fail, reject, ◌>>=◌,
  ◌>>◌, false, true,
}
use varkiv.Common.Sorting.{sort_by, text_le}
use varkiv.Sync.Model.{
  SyncOperation, SyncSession, SyncStore, NewSyncOperation, SyncError, no_rows, idempotency_conflict,
  invalid_key, invalid_status, invalid_match, invalid_operation, constraint,
}
use varkiv.Sync.Operations.{find_session}

pub record InventoryItem : Type 0 where
  pub id : Text
  pub session_id : Text
  pub client_item_id : Text
  pub platform_id : Text
  pub sha256 : Text
  pub serial : Text
  pub product_code : Text
  pub title_id : Text
  pub size : ℤ
  pub match_status : Text
  pub matched_edition_id : Option Text
  pub match_method : Text
  pub created_at : Text

pub record NewInventoryItem : Type 0 where
  pub id : Text
  pub client_item_id : Text
  pub platform_id : Text
  pub sha256 : Text
  pub serial : Text
  pub product_code : Text
  pub title_id : Text
  pub size : ℤ
  pub match_status : Text
  pub matched_edition_id : Text
  pub match_method : Text

pub record NewSyncSession : Type 0 where
  pub id : Text
  pub device_id : Text
  pub idempotency_key : Text
  pub status : Text
  pub base_manifest_hash : Text
  pub operation_plan_hash : Text
  pub operations : List NewSyncOperation
  pub inventory : List NewInventoryItem

-- The tables, and the keys of those that they refer to.
pub record SessionStore : Type 0 where
  pub sync : SyncStore
  pub inventory : List InventoryItem
  pub devices : List Text
  pub streams : List Text
  pub editions : List Text

-- What NewID gives for the session and for the rows of the two loops, and the time.
pub record Drawn : Type 0 where
  pub session : Text
  pub item : ℕ → Text
  pub operation : ℕ → Text
  pub now : Text

unfoldable pub valid_sync_status : Text → Bool
valid_sync_status value = member value (
    codes "proposed"
    ∷ codes "negotiating"
    ∷ codes "transferring"
    ∷ codes "verifying"
    ∷ codes "complete"
    ∷ codes "partial"
    ∷ codes "aborted"
    ∷ codes "failed"
    ∷ [])

unfoldable pub valid_operation : Text → Text → Bool
valid_operation action status =
    member action (codes "upload" ∷ codes "download" ∷ codes "conflict" ∷ codes "noop" ∷ [])
    && member status (
        codes "proposed"
        ∷ codes "transferring"
        ∷ codes "verified"
        ∷ codes "complete"
        ∷ codes "failed"
        ∷ codes "skipped"
        ∷ [])

-- strings.ContainsAny(key, "\x00\r\n")
abbrev is_control_byte : ℕ → Bool
is_control_byte c = (c == 0) || (c == 13) || (c == 10)

abbrev pub or_else : Text → Text → Text
or_else value fallback = if is_empty value then fallback else value

unfoldable pub null_if_empty : Text → Option Text
null_if_empty value = if is_empty (trim value) then none else some value

-- The session of a device with a key.
unfoldable pub find_by_key : Text → Text → List SyncSession → Option SyncSession
find_by_key device key [] = none
find_by_key device key (s ∷ ss) =
    if (s.device_id =ᵗ device) && (s.idempotency_key =ᵗ key)
    then some s
    else find_by_key device key ss

abbrev pub SessionView : Type 0
SessionView = SyncSession × List SyncOperation

unfoldable pub operations_of : Text → List SyncOperation → List SyncOperation
operations_of id [] = []
operations_of id (op ∷ ops) =
    let rest = operations_of id ops in if op.session_id =ᵗ id then op ∷ rest else rest

-- The row, with its operations in the order of their identifiers.
unfoldable pub get_sync_session : Text → SyncStore → Result SyncError SessionView
unfolding operations_of
get_sync_session id st = do
  s ← or_fail (find_session id st.sessions) no_rows
  ok (s, sort_by (λ a b. text_le a.id b.id) (operations_of id st.operations))

abbrev pub session_row : Text → Text → NewSyncSession → SyncSession
session_row id now new = record {
  id = id;
  device_id = trim new.device_id;
  idempotency_key = trim new.idempotency_key;
  status = or_else new.status (codes "proposed");
  base_manifest_hash = new.base_manifest_hash;
  operation_plan_hash = new.operation_plan_hash;
  uploaded_count = 0;
  downloaded_count = 0;
  conflict_count = 0;
  failure_code = [];
  created_at = now;
  updated_at = now;
  finished_at = [];
}

-- INSERT INTO sync_sessions
unfoldable pub insert_session : SyncSession → SessionStore → Result SyncError SessionStore
unfolding valid_sync_status
insert_session row st = do
  reject (any (λ s. s.id =ᵗ row.id) st.sync.sessions) constraint
  reject (not (member row.device_id st.devices) || not (valid_sync_status row.status)) constraint
  ok (record st { sync = record st.sync { sessions = row ∷ st.sync.sessions } })

abbrev pub inventory_row : Text → Text → Text → NewInventoryItem → InventoryItem
inventory_row session id now new = record {
  id = id;
  session_id = session;
  client_item_id = new.client_item_id;
  platform_id = new.platform_id;
  sha256 = new.sha256;
  serial = new.serial;
  product_code = new.product_code;
  title_id = new.title_id;
  size = new.size;
  match_status = new.match_status;
  matched_edition_id = null_if_empty new.matched_edition_id;
  match_method = new.match_method;
  created_at = now;
}

abbrev is_dangling : List Text → Option Text → Bool
is_dangling keys none = false
is_dangling keys (some key) = not (member key keys)

-- INSERT INTO inventory_items
unfoldable pub insert_inventory_item : InventoryItem → SessionStore → Result SyncError SessionStore
insert_inventory_item row st = do
  reject
      (any
        (λ i.
          (i.id =ᵗ row.id)
          || ((i.session_id =ᵗ row.session_id) && (i.client_item_id =ᵗ row.client_item_id)))
        st.inventory)
      constraint
  reject (is_dangling st.editions row.matched_edition_id) constraint
  ok (record st { inventory = row ∷ st.inventory })

unfoldable pub insert_inventory :
    Drawn → Text → ℕ → List NewInventoryItem → SessionStore → Result SyncError SessionStore
unfolding insert_inventory_item
insert_inventory d session index [] st = ok st
insert_inventory d session index (new ∷ news) st = do
  reject
      (not (member new.match_status (codes "matched" ∷ codes "ambiguous" ∷ codes "unmatched" ∷ [])))
      invalid_match
  after ← insert_inventory_item (inventory_row session (or_else new.id (d.item index)) d.now new) st
  insert_inventory d session (suc index) news after

abbrev pub operation_row : Text → Text → Text → NewSyncOperation → SyncOperation
operation_row session id now new = record {
  id = id;
  session_id = session;
  stream_id = new.stream_id;
  action = new.action;
  status = or_else new.status (codes "proposed");
  base_revision_id = new.base_revision_id;
  target_revision_id = new.target_revision_id;
  expected_hash = new.expected_hash;
  actual_hash = [];
  bytes = new.bytes;
  failure_code = [];
  detail = new.detail;
  created_at = now;
  updated_at = now;
}

-- INSERT INTO sync_operations
unfoldable pub insert_operation : SyncOperation → SessionStore → Result SyncError SessionStore
insert_operation row st = do
  reject (any (λ o. o.id =ᵗ row.id) st.sync.operations) constraint
  reject (not (member row.stream_id st.streams)) constraint
  ok (record st { sync = record st.sync { operations = row ∷ st.sync.operations } })

unfoldable pub insert_operations :
    Drawn → Text → ℕ → List NewSyncOperation → SessionStore → Result SyncError SessionStore
unfolding insert_operation valid_operation
insert_operations d session index [] st = ok st
insert_operations d session index (new ∷ news) st = do
  reject (not (valid_operation new.action (or_else new.status (codes "proposed"))))
      invalid_operation
  after ← insert_operation (operation_row session (or_else new.id (d.operation index)) d.now new) st
  insert_operations d session (suc index) news after

-- The transaction.
unfoldable pub insert_all :
    Drawn → Text → NewSyncSession → SessionStore → Result SyncError SessionStore
unfolding insert_session insert_inventory insert_operations
insert_all d id new st = do
  opened ← insert_session (session_row id d.now new) st
  filled ← insert_inventory d id 0 new.inventory opened
  insert_operations d id 0 new.operations filled

unfoldable pub check_new_session : NewSyncSession → Result SyncError Unit
unfolding valid_sync_status
check_new_session new =
    let key = trim new.idempotency_key in
    reject
      (is_empty (trim new.device_id)
        || ltb (byte_len key) 8
        || ltb 128 (byte_len key)
        || any is_control_byte key)
      invalid_key
    >> reject (not (valid_sync_status (or_else new.status (codes "proposed")))) invalid_status

abbrev pub Created : Type 0
Created = SessionStore × (SessionView × Bool)

-- The answer for the session that has the key, if there is one.
unfoldable pub create_or_get :
    Drawn → NewSyncSession → SessionStore → Option SyncSession → Result SyncError Created
unfolding insert_all get_sync_session
create_or_get d new st (some old) = do
  reject (not (old.base_manifest_hash =ᵗ new.base_manifest_hash)) idempotency_conflict
  view ← get_sync_session old.id st.sync
  ok (st, (view, true))
create_or_get d new st none = do
  after ← insert_all d (or_else new.id d.session) new st
  view ← get_sync_session (or_else new.id d.session) after.sync
  ok (after, (view, false))

-- The store afterwards, the session, and whether it was there.
unfoldable pub create_sync_session :
    Drawn → NewSyncSession → SessionStore → Result SyncError Created
unfolding check_new_session create_or_get find_by_key
create_sync_session d new st = do
  check_new_session new
  create_or_get d new st
      (find_by_key (trim new.device_id) (trim new.idempotency_key) st.sync.sessions)
