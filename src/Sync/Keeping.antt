-- ===== src/Sync/Keeping.antt =====
-- Which session a key of a device stands for, and that no call on the sessions changes it.
use varkiv.Common.{
  ℕ, suc, Text, trim, ◌≡◌, refl, sym, ap, ◌∙◌, subst, Bool, true, false, not, ◌=ᵗ◌, text_eq_iff,
  text_eq_refl, Option, none, some, List, [], ◌∷◌, ok, err, if◌then◌else◌, arith, inl, inr,
  Bool-cases, bind_ok, reject_bind_ok, ok_injective, Option-cases, Result, Result-cases,
}
use varkiv.Common.{or_fail, or_fail_ok, ◌&&◌}
use varkiv.Common.Sorting.{sort_by, text_le}
use varkiv.Sync.Operations.{
  find_session, complete_sync_operation, complete_operation, fail_sync_operation,
  recalculate_sync_session, recalculated, get_sync_operation,
}
use varkiv.Common.{some_injective, ℤ, map, ◌⊎◌}
use varkiv.Sync.Progress.{Call, step, completes, fails, recalculates}
use varkiv.Sync.Model.{
  SyncStore, no_rows, SyncSession, SyncOperation, NewSyncOperation, idempotency_conflict, SyncError,
}
use varkiv.Sync.Creation.{
  Created, SessionStore, NewSyncSession, NewInventoryItem, Drawn, SessionView, InventoryItem,
  find_by_key, get_sync_session, insert_session, insert_inventory_item, insert_inventory,
  insert_operation, insert_operations, insert_all, operations_of, check_new_session, create_or_get,
  create_sync_session, session_row, inventory_row, operation_row, or_else,
}

-- What the statements leave when they are not refused.
insert_session_lem :
    (row : SyncSession) (st after : SessionStore)
    → insert_session row st ≡ ok after
    → after.sync.sessions ≡ row ∷ st.sync.sessions
unfolding insert_session
insert_session_lem row st after h = ground arith

insert_inventory_item_lem :
    (row : InventoryItem) (st after : SessionStore)
    → insert_inventory_item row st ≡ ok after
    → after.sync.sessions ≡ st.sync.sessions
unfolding insert_inventory_item
insert_inventory_item_lem row st after h = ground arith

insert_operation_lem :
    (row : SyncOperation) (st after : SessionStore)
    → insert_operation row st ≡ ok after
    → after.sync.sessions ≡ st.sync.sessions
unfolding insert_operation
insert_operation_lem row st after h = ground arith

none_some : {A B : Type 0} (a : A) (o : Option A) → o ≡ none → o ≡ some a → B
none_some a o e h = cc

abbrev pub is_some : {A : Type 0} → Option A → Bool
is_some none = false
is_some (some a) = true

-- The two loops leave the sessions alone,
insert_inventory_sessions :
    (d : Drawn) (session : Text) (index : ℕ) (news : List NewInventoryItem)
    (st after : SessionStore)
    → insert_inventory d session index news st ≡ ok after
    → after.sync.sessions ≡ st.sync.sessions
unfolding insert_inventory
insert_inventory_sessions d session index [] st after h =
    ap (λ s. s.sync.sessions) (sym (ok_injective st after h))
insert_inventory_sessions d session index (new ∷ news) st after h =
    let (_, h1) = reject_bind_ok _ _ _ after h in
    let row = inventory_row session (or_else new.id (d.item index)) d.now new in
    let (next, e, h2) = bind_ok (insert_inventory_item row st) _ after h1 in
    insert_inventory_sessions d session (suc index) news next after h2
    ∙ insert_inventory_item_lem row st next e

insert_operations_sessions :
    (d : Drawn) (session : Text) (index : ℕ) (news : List NewSyncOperation)
    (st after : SessionStore)
    → insert_operations d session index news st ≡ ok after
    → after.sync.sessions ≡ st.sync.sessions
unfolding insert_operations
insert_operations_sessions d session index [] st after h =
    ap (λ s. s.sync.sessions) (sym (ok_injective st after h))
insert_operations_sessions d session index (new ∷ news) st after h =
    let (_, h1) = reject_bind_ok _ _ _ after h in
    let row = operation_row session (or_else new.id (d.operation index)) d.now new in
    let (next, e, h2) = bind_ok (insert_operation row st) _ after h1 in
    insert_operations_sessions d session (suc index) news next after h2
    ∙ insert_operation_lem row st next e

-- so that the new one comes before them.
insert_all_sessions :
    (d : Drawn) (id : Text) (new : NewSyncSession) (st after : SessionStore)
    → insert_all d id new st ≡ ok after
    → after.sync.sessions ≡ session_row id d.now new ∷ st.sync.sessions
unfolding insert_all
insert_all_sessions d id new st after h =
    let row = session_row id d.now new in
    let (opened, e, h1) = bind_ok (insert_session row st) _ after h in
    let (filled, i, h2) = bind_ok (insert_inventory d id 0 new.inventory opened) _ after h1 in
    insert_operations_sessions d id 0 new.operations filled after h2
    ∙ insert_inventory_sessions d id 0 new.inventory opened filled i
    ∙ insert_session_lem row st opened e

-- The session `id` is the one that a request with the key finds.
pub record IsKept (device key hash id : Text) (st : SessionStore) : Type 0 where
  pub row : SyncSession
  pub found : find_by_key device key st.sync.sessions ≡ some row
  pub same_hash : row.base_manifest_hash ≡ hash
  pub same_id : row.id ≡ id
  pub there : is_some (find_session id st.sync.sessions) ≡ true

find_by_key_first :
    (s : SyncSession) (ss : List SyncSession)
    → find_by_key s.device_id s.idempotency_key (s ∷ ss) ≡ some s
unfolding find_by_key
find_by_key_first s ss = rw (text_eq_refl s.device_id, text_eq_refl s.idempotency_key) refl

find_session_first : (s : SyncSession) (ss : List SyncSession) → find_session s.id (s ∷ ss) ≡ some s
unfolding find_session
find_session_first s ss = rw (text_eq_refl s.id) refl

find_session_more :
    (id : Text) (s : SyncSession) (ss : List SyncSession)
    → is_some (find_session id ss) ≡ true
    → is_some (find_session id (s ∷ ss)) ≡ true
unfolding find_session
find_session_more id s ss h = ground arith

find_session_id :
    (id : Text) (ss : List SyncSession) (s : SyncSession) → find_session id ss ≡ some s → s.id ≡ id
unfolding find_session
find_session_id id [] s h = cc
find_session_id id (x ∷ xs) s h = ground (arith, text_eq_iff x.id id, find_session_id id xs s)

-- What GetSyncSession gives is the session that it was asked for.
pub view_id :
    (id : Text) (st : SyncStore) (view : SessionView)
    → get_sync_session id st ≡ ok view
    → (view.0.id ≡ id) × (is_some (find_session id st.sessions) ≡ true)
unfolding get_sync_session
view_id id st view h =
    let (s, e, k) = bind_ok (or_fail (find_session id st.sessions) no_rows) _ view h in
    let found = or_fail_ok (find_session id st.sessions) no_rows s e in
    let same : s ≡ view.0 = ap (λ v. v.0) (ok_injective (s, _) view k) in
    (ap (λ x. x.id) (sym same) ∙ find_session_id id st.sessions s found, rw found refl)

pub view_there :
    (id : Text) (st : SyncStore)
    → is_some (find_session id st.sessions) ≡ true
    → (view : SessionView) × (get_sync_session id st ≡ ok view)
unfolding get_sync_session
view_there id st h = elim (Option-cases (find_session id st.sessions)) [
  | inl e ↦ ground arith
  | inr (s, e) ↦
      ((s, sort_by (λ a b. text_le a.id b.id) (operations_of id st.operations)), rw e refl)
]

-- After a creation, the session that it returns is kept under its key,
pub create_or_get-IsKept :
    (d : Drawn) (new : NewSyncSession) (st after : SessionStore) (view : SessionView) (there : Bool)
    (o : Option SyncSession)
    → find_by_key (trim new.device_id) (trim new.idempotency_key) st.sync.sessions ≡ o
    → create_or_get d new st o ≡ ok (after, (view, there))
    → IsKept (trim new.device_id) (trim new.idempotency_key) new.base_manifest_hash view.0.id after
unfolding create_or_get
create_or_get-IsKept d new st after view there (some old) f h =
    let result : SessionStore × (SessionView × Bool) = (after, (view, there)) in
    let (same, h1) =
      reject_bind_ok (not (old.base_manifest_hash =ᵗ new.base_manifest_hash)) idempotency_conflict _
        result h in
    let (v, r, h2) = bind_ok (get_sync_session old.id st.sync) _ result h1 in
    let e = ok_injective (st, (v, true)) result h2 in
    let (same_id, there) = view_id old.id st.sync v r in
    subst
      (λ c.
        IsKept (trim new.device_id) (trim new.idempotency_key) new.base_manifest_hash c.1.0.0.id
          c.0)
      e
      (record {
        row = old;
        found = f;
        same_hash = (text_eq_iff old.base_manifest_hash new.base_manifest_hash).0 (ground arith);
        same_id = sym same_id;
        there = subst (λ i. is_some (find_session i st.sync.sessions) ≡ true) (sym same_id) there;
      })
create_or_get-IsKept d new st after view there none f h =
    let result : SessionStore × (SessionView × Bool) = (after, (view, there)) in
    let id = or_else new.id d.session in
    let (filled, i, h1) = bind_ok (insert_all d id new st) _ result h in
    let (v, r, h2) = bind_ok (get_sync_session id filled.sync) _ result h1 in
    let e = ok_injective (filled, (v, false)) result h2 in
    let row = session_row id d.now new in
    let (same_id, there) = view_id id filled.sync v r in
    subst
      (λ c.
        IsKept (trim new.device_id) (trim new.idempotency_key) new.base_manifest_hash c.1.0.0.id
          c.0)
      e
      (record {
        row = row;
        found =
            ap (find_by_key (trim new.device_id) (trim new.idempotency_key))
              (insert_all_sessions d id new st filled i)
            ∙ find_by_key_first row st.sync.sessions;
        same_hash = refl;
        same_id = sym same_id;
        there =
            subst (λ i. is_some (find_session i filled.sync.sessions) ≡ true) (sym same_id) there;
      })

pub checked :
    (d : Drawn) (new : NewSyncSession) (st : SessionStore) (result : Created)
    → create_sync_session d new st ≡ ok result
    → (u : Unit) × (check_new_session new ≡ ok u)
      × (create_or_get d new st
            (find_by_key (trim new.device_id) (trim new.idempotency_key) st.sync.sessions)
          ≡ ok result)
unfolding create_sync_session
checked d new st result h = bind_ok (check_new_session new) _ result h

-- The calls of the hub on its sessions: creations, and the calls on operations.
pub data SessionCall : Type 0 where
  creates : Drawn → NewSyncSession → SessionCall
  on_operations : Call → SessionCall

abbrev pub stored_after : SessionStore → Result SyncError Created → SessionStore
stored_after st (ok (after, answer)) = after
stored_after st (err e) = st

unfoldable pub session_step : SessionStore → SessionCall → SessionStore
session_step st (creates d new) = stored_after st (create_sync_session d new st)
session_step st (on_operations call) = record st { sync = step st.sync call }

unfoldable pub session_run : SessionStore → List SessionCall → SessionStore
unfolding session_step
session_run st [] = st
session_run st (c ∷ cs) = session_run (session_step st c) cs

-- The columns of a session that no call changes.
abbrev IsSame : SyncSession → SyncSession → Type 0
IsSame s t =
    (t.id ≡ s.id)
    × (t.device_id ≡ s.device_id)
    × (t.idempotency_key ≡ s.idempotency_key)
    × (t.base_manifest_hash ≡ s.base_manifest_hash)

completed_sessions :
    (session op actual target : Text) (bytes : ℤ) (now : Text) (st : SyncStore)
    → (complete_sync_operation session op actual target bytes now st).0.sessions ≡ st.sessions
unfolding complete_sync_operation
completed_sessions session op actual target bytes now st =
    elim (Result-cases (get_sync_operation session op st)) [
      | inr (x, e) ↦ rw e refl
      | inl (o, e) ↦ rw e (unfold complete_operation in ground arith)
    ]

module _ (device key hash id : Text) where
  -- which no other creation,
  more_sessions :
      (s : SyncSession) (ss : List SyncSession) (row : SyncSession)
      → find_by_key device key ss ≡ some row
      → find_by_key s.device_id s.idempotency_key ss ≡ none
      → find_by_key device key (s ∷ ss) ≡ some row
  unfolding find_by_key
  more_sessions s ss row h n =
      elim (Bool-cases ((s.device_id =ᵗ device) && (s.idempotency_key =ᵗ key))) [
        | inr e ↦ rw e h
        | inl e ↦
            let same_device = (text_eq_iff s.device_id device).0 (ground arith) in
            let same_key = (text_eq_iff s.idempotency_key key).0 (ground arith) in
            none_some row (find_by_key s.device_id s.idempotency_key ss) n
              (rw (same_device, same_key) h)
      ]

  created-IsKept :
      (d : Drawn) (new : NewSyncSession) (st after : SessionStore) (view : SessionView)
      (there : Bool) (o : Option SyncSession)
      → find_by_key (trim new.device_id) (trim new.idempotency_key) st.sync.sessions ≡ o
      → create_or_get d new st o ≡ ok (after, (view, there))
      → IsKept device key hash id st
      → IsKept device key hash id after
  unfolding create_or_get
  created-IsKept d new st after view there (some old) f h kept =
      let result : SessionStore × (SessionView × Bool) = (after, (view, there)) in
      let (_, h1) =
        reject_bind_ok (not (old.base_manifest_hash =ᵗ new.base_manifest_hash)) idempotency_conflict
          _ result h in
      let (v, _, h2) = bind_ok (get_sync_session old.id st.sync) _ result h1 in
      subst (λ c. IsKept device key hash id c.0) (ok_injective (st, (v, true)) result h2) kept
  created-IsKept d new st after view there none f h kept =
      let result : SessionStore × (SessionView × Bool) = (after, (view, there)) in
      let new_id = or_else new.id d.session in
      let (filled, i, h1) = bind_ok (insert_all d new_id new st) _ result h in
      let (v, _, h2) = bind_ok (get_sync_session new_id filled.sync) _ result h1 in
      let row = session_row new_id d.now new in
      let sessions = insert_all_sessions d new_id new st filled i in
      subst (λ c. IsKept device key hash id c.0) (ok_injective (filled, (v, false)) result h2)
        (record {
          row = kept.row;
          found =
              ap (find_by_key device key) sessions
              ∙ more_sessions row st.sync.sessions kept.row kept.found f;
          same_hash = kept.same_hash;
          same_id = kept.same_id;
          there =
              ap (λ ss. is_some (find_session id ss)) sessions
              ∙ find_session_more id row st.sync.sessions kept.there;
        })

  -- no call on an operation,
  step_sessions :
      (st : SyncStore) (call : Call)
      → ((step st call).sessions ≡ st.sessions)
        ⊎ ((f : SyncSession → SyncSession) × ((step st call).sessions ≡ map f st.sessions)
            × ((s : SyncSession) → IsSame s (f s)))
  unfolding step complete_sync_operation complete_operation fail_sync_operation
      recalculate_sync_session recalculated
  step_sessions st (completes session op actual target bytes now) =
      inl (completed_sessions session op actual target bytes now st)
  step_sessions st (fails session op code actual now) = inl (ground arith)
  step_sessions st (recalculates session finished now) = inr (
    (λ s. if s.id =ᵗ session then recalculated session finished now st.operations s else s),
    refl,
    λ s. elim (Bool-cases (s.id =ᵗ session)) [
      | inl e ↦ rw e (refl, refl, refl, refl)
      | inr e ↦ rw e (refl, refl, refl, refl)
    ],
  )

  mapped_found :
      (f : SyncSession → SyncSession)
      → ((s : SyncSession) → IsSame s (f s))
      → (ss : List SyncSession) (row : SyncSession) → find_by_key device key ss ≡ some row
      → find_by_key device key (map f ss) ≡ some (f row)
  unfolding find_by_key
  mapped_found f same [] row h = cc
  mapped_found f same (s ∷ ss) row h =
      let (_, a, b, _) = same s in
      let same_test : (((f s).device_id =ᵗ device) && ((f s).idempotency_key =ᵗ key))
          ≡ ((s.device_id =ᵗ device) && (s.idempotency_key =ᵗ key)) =
        ap (λ t. (t =ᵗ device) && ((f s).idempotency_key =ᵗ key)) a
        ∙ ap (λ t. (s.device_id =ᵗ device) && (t =ᵗ key)) b in
      elim (Bool-cases ((s.device_id =ᵗ device) && (s.idempotency_key =ᵗ key))) [
        | inl e ↦ rw (same_test ∙ e) (ap some (ap f (some_injective s row (sym (rw e refl) ∙ h))))
        | inr e ↦ rw (same_test ∙ e) (mapped_found f same ss row (sym (rw e refl) ∙ h))
      ]

  mapped_there :
      (f : SyncSession → SyncSession)
      → ((s : SyncSession) → IsSame s (f s))
      → (ss : List SyncSession) → is_some (find_session id ss) ≡ true
      → is_some (find_session id (map f ss)) ≡ true
  unfolding find_session
  mapped_there f same [] h = h
  mapped_there f same (s ∷ ss) h =
      let (a, _, _, _) = same s in
      elim (Bool-cases (s.id =ᵗ id)) [
        | inl e ↦ rw (a, e) refl
        | inr e ↦ rw (a, e) (mapped_there f same ss (sym (rw e refl) ∙ h))
      ]

  -- and hence no call puts away.
  session_step-IsKept :
      (st : SessionStore) (call : SessionCall)
      → IsKept device key hash id st
      → IsKept device key hash id (session_step st call)
  unfolding session_step
  session_step-IsKept st (creates d new) kept = elim (Result-cases (create_sync_session d new st)) [
    | inr (x, e) ↦ rw e kept
    | inl ((after, (view, there)), e) ↦
        let (_, _, made) = checked d new st (after, (view, there)) e in
        rw e (created-IsKept d new st after view there _ refl made kept)
  ]
  session_step-IsKept st (on_operations call) kept = elim (step_sessions st.sync call) [
    | inl e ↦ record {
      row = kept.row;
      found = ap (find_by_key device key) e ∙ kept.found;
      same_hash = kept.same_hash;
      same_id = kept.same_id;
      there = ap (λ ss. is_some (find_session id ss)) e ∙ kept.there;
    }
    | inr (f, e, same) ↦
        let (a, _, _, b) = same kept.row in
        record {
          row = f kept.row;
          found =
              ap (find_by_key device key) e
              ∙ mapped_found f same st.sync.sessions kept.row kept.found;
          same_hash = b ∙ kept.same_hash;
          same_id = a ∙ kept.same_id;
          there =
              ap (λ ss. is_some (find_session id ss)) e
              ∙ mapped_there f same st.sync.sessions kept.there;
        }
  ]

  pub session_run-IsKept :
      (st : SessionStore) (calls : List SessionCall)
      → IsKept device key hash id st
      → IsKept device key hash id (session_run st calls)
  unfolding session_run
  session_run-IsKept st [] kept = kept
  session_run-IsKept st (c ∷ cs) kept =
      session_run-IsKept (session_step st c) cs (session_step-IsKept st c kept)
