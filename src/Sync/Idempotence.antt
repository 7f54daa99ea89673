-- ===== src/Sync/Idempotence.antt =====
-- A session is created once for each key of a device.
use varkiv.Sync.Keeping.{
  IsKept, SessionCall, session_run, session_run-IsKept, view_id, view_there, create_or_get-IsKept,
  checked,
}
use varkiv.Common.{
  Text, trim, ◌≡◌, refl, ap, ◌∙◌, Bool, true, ◌=ᵗ◌, List, ok, err, if◌then◌else◌, inl, inr,
  Bool-cases,
}
use varkiv.Sync.Model.{idempotency_conflict}
use varkiv.Sync.Creation.{
  SessionStore, NewSyncSession, Drawn, SessionView, get_sync_session, check_new_session,
  create_or_get, create_sync_session,
}

module _ (device key hash id : Text) where
  -- The two branches of a request with the key of a session that is kept.
  again :
      (d : Drawn) (new : NewSyncSession) (st : SessionStore) (view : SessionView)
      → IsKept device key hash id st
      → get_sync_session id st.sync ≡ ok view
      → check_new_session new ≡ ok tt
      → trim new.device_id ≡ device
      → trim new.idempotency_key ≡ key
      → create_sync_session d new st ≡ (
          if hash =ᵗ new.base_manifest_hash
          then ok (st, (view, true))
          else err idempotency_conflict)
  unfolding create_sync_session create_or_get
  again d new st view kept reads valid same_device same_key =
      let reads_row = ap (λ i. get_sync_session i st.sync) kept.same_id ∙ reads in
      elim (Bool-cases (hash =ᵗ new.base_manifest_hash)) [
        | inl e ↦ rw (valid, same_device, same_key, kept.found, kept.same_hash, e, reads_row) refl
        | inr e ↦ rw (valid, same_device, same_key, kept.found, kept.same_hash, e) refl
      ]

-- If a request to create a session succeeds, whether it made the session or found it, then
-- whatever creations, completions and failures of operations and recalculations of sessions
-- follow, GetSyncSession still finds that session; and a valid request of the same device with the
-- same key, whatever else it asks for and whatever identifiers are drawn for it, is then answered
-- with what GetSyncSession gives, reported as there before, and changes nothing, if it has the
-- manifest hash of the first; with another hash it is refused as a conflict of idempotency.
pub create_sync_session_again :
    (d later : Drawn) (new repeated : NewSyncSession) (st after : SessionStore) (view : SessionView)
    (there : Bool) (calls : List SessionCall)
    → create_sync_session d new st ≡ ok (after, (view, there))
    → check_new_session repeated ≡ ok tt
    → trim repeated.device_id ≡ trim new.device_id
    → trim repeated.idempotency_key ≡ trim new.idempotency_key
    → let final = session_run after calls in
      (now : SessionView) × (get_sync_session view.0.id final.sync ≡ ok now)
      × (now.0.id ≡ view.0.id)
      × (create_sync_session later repeated final ≡ (
          if new.base_manifest_hash =ᵗ repeated.base_manifest_hash
          then ok (final, (now, true))
          else err idempotency_conflict))
create_sync_session_again d later new repeated st after view there calls h valid same_device
      same_key =
    let result : SessionStore × (SessionView × Bool) = (after, (view, there)) in
    let (_, _, made) = checked d new st result h in
    let final = session_run after calls in
    let kept =
      session_run-IsKept (trim new.device_id) (trim new.idempotency_key) new.base_manifest_hash
        view.0.id after calls (create_or_get-IsKept d new st after view there _ refl made) in
    let (now, reads) = view_there view.0.id final.sync kept.there in
    (
      now,
      reads,
      (view_id view.0.id final.sync now reads).0,
      again (trim new.device_id) (trim new.idempotency_key) new.base_manifest_hash view.0.id later
          repeated final now kept reads valid same_device same_key,
    )
