-- ===== src/Sync/Progress.antt =====
-- How the operations of a session progress: completion is final, repeatable and checked.
use varkiv.Common.{
  ℤ, ◌≡◌, refl, sym, ◌∙◌, ◌↔◌, inl, inr, Text, codes, Bool, false, ◌||◌, ◌=ᵗ◌, text_eq_iff, some,
  List, [], ◌∷◌, any, ok, if◌then◌else◌, arith, Bool-cases, Option-cases, map,
}
use varkiv.Sync.Model.{SyncOperation, SyncSession, SyncStore}
use varkiv.Sync.Operations.{
  is_operation, find_operation, update, completed, failed, can_fail, get_sync_operation,
  complete_operation, complete_sync_operation, fail_sync_operation, recalculate_sync_session,
  recalculated, find_session, count, is_pending, is_failed, in_session,
}

-- The calls on the operations and the sessions, with the times that they read.
pub data Call : Type 0 where
  completes : Text → Text → Text → Text → ℤ → Text → Call
  fails : Text → Text → Text → Text → Text → Call
  recalculates : Text → Text → Text → Call

unfoldable pub step : SyncStore → Call → SyncStore
unfolding complete_sync_operation fail_sync_operation recalculate_sync_session
step st (completes session id actual target bytes now) =
    (complete_sync_operation session id actual target bytes now st).0
step st (fails session id code actual now) = (fail_sync_operation session id code actual now st).0
step st (recalculates id finished now) = (recalculate_sync_session id finished now st).0

unfoldable pub run : SyncStore → List Call → SyncStore
unfolding step
run st [] = st
run st (c ∷ cs) = run (step st c) cs

module _ (session id : Text) (f : SyncOperation → SyncOperation)
    (same : (x : SyncOperation) → is_operation session id (f x) ≡ is_operation session id x) where
  -- A row that is not updated is still the one that is found,
  find-update_other :
      (p : SyncOperation → Bool) (ops : List SyncOperation) (op : SyncOperation)
      → find_operation session id ops ≡ some op
      → p op ≡ false
      → find_operation session id (update p f ops) ≡ some op
  unfolding find_operation update
  find-update_other p [] op h n = h
  find-update_other p (x ∷ xs) op h n = ground (arith, same x, find-update_other p xs op)

  -- and the update of a row is found in its place.
  find-update_this :
      (ops : List SyncOperation) (op : SyncOperation)
      → find_operation session id ops ≡ some op
      → find_operation session id (update (is_operation session id) f ops) ≡ some (f op)
  unfolding find_operation update
  find-update_this [] op h = ground arith
  find-update_this (x ∷ xs) op h = ground (arith, same x, find-update_this xs op)

found_key :
    (session id : Text) (ops : List SyncOperation) (op : SyncOperation)
    → find_operation session id ops ≡ some op
    → (op.session_id ≡ session) × (op.id ≡ id)
unfolding find_operation
found_key session id [] op h = ground arith
found_key session id (x ∷ xs) op h =
    ground
      (arith, text_eq_iff x.session_id session, text_eq_iff x.id id, found_key session id xs op)

module _ (session id : Text) (st : SyncStore) (op : SyncOperation)
    (h : find_operation session id st.operations ≡ some op) (c : op.status ≡ codes "complete") where
  -- The update of a row that is not complete is another row's.
  other :
      (session' id' : Text) (op' : SyncOperation)
      → find_operation session' id' st.operations ≡ some op'
      → (op'.status =ᵗ codes "complete") ≡ false
      → is_operation session' id' op ≡ false
  other session' id' op' h' n = elim (Bool-cases (is_operation session' id' op)) [
    | inr e ↦ e
    | inl e ↦
        let (a, b) = found_key session id st.operations op h in
        let (a', b') : (op.session_id ≡ session') × (op.id ≡ id') =
          ground (arith, text_eq_iff op.session_id session', text_eq_iff op.id id') in
        let found : find_operation session id st.operations ≡ some op' =
          rw (sym a ∙ a') (rw (sym b ∙ b') h') in
        ground (arith, text_eq_iff op.status (codes "complete"))
  ]

  complete_keeps :
      (session' id' actual target : Text) (bytes : ℤ) (now : Text)
      → find_operation session id
          (complete_sync_operation session' id' actual target bytes now st).0.operations
        ≡ some op
  unfolding complete_sync_operation complete_operation get_sync_operation update
  complete_keeps session' id' actual target bytes now =
      elim (Option-cases (find_operation session' id' st.operations)) [
        | inl e ↦ rw e h
        | inr (op', e) ↦ rw e (elim (Bool-cases (op'.status =ᵗ codes "complete")) [
          | inl k ↦ rw k h
          | inr k ↦ ground (
            arith,
            other session' id' op' e k,
            find-update_other session id (failed (codes "hash_mismatch") actual now) (λ x. refl)
                (is_operation session' id') st.operations op h,
            find-update_other session id (completed actual target bytes now) (λ x. refl)
                (is_operation session' id') st.operations op h,
          )
        ])
      ]

  fail_keeps :
      (session' id' code actual now : Text)
      → find_operation session id (fail_sync_operation session' id' code actual now st).0.operations
        ≡ some op
  unfolding fail_sync_operation update
  fail_keeps session' id' code actual now = ground (
    arith,
    text_eq_iff op.status (codes "complete"),
    find-update_other session id (failed code actual now) (λ x. refl) (can_fail session' id')
        st.operations op h,
  )

  step_keeps : (k : Call) → find_operation session id (step st k).operations ≡ some op
  unfolding step recalculate_sync_session
  step_keeps (completes session' id' actual target bytes now) =
      complete_keeps session' id' actual target bytes now
  step_keeps (fails session' id' code actual now) = fail_keeps session' id' code actual now
  step_keeps (recalculates id' finished now) = h

-- Whatever completions and failures of operations and recalculations of sessions follow, the row of
-- an operation that is complete stays as it is.
pub complete_is_final :
    (session id : Text) (st : SyncStore) (op : SyncOperation) (calls : List Call)
    → find_operation session id st.operations ≡ some op
    → op.status ≡ codes "complete"
    → find_operation session id (run st calls).operations ≡ some op
unfolding run
complete_is_final session id st op [] h c = h
complete_is_final session id st op (k ∷ ks) h c =
    complete_is_final session id (step st k) op ks (step_keeps session id st op h c k) c

-- What CompleteSyncOperation does when it succeeds.
module _ (session id actual target : Text) (bytes : ℤ) (now : Text) (st st' : SyncStore)
    (op : SyncOperation)
    (h : complete_sync_operation session id actual target bytes now st ≡ (st', ok op)) where
  reported :
      (find_operation session id st'.operations ≡ some op)
      × (op.status ≡ codes "complete")
      × (op.actual_hash ≡ actual)
      × (op.target_revision_id ≡ target)
  unfolding complete_sync_operation complete_operation get_sync_operation ◌=ᵗ◌
  reported = elim (Option-cases (find_operation session id st.operations)) [
    | inl e ↦ ground arith
    | inr (o, e) ↦ ground (
      arith,
      find-update_this session id (completed actual target bytes now) (λ x. refl) st.operations o e,
      text_eq_iff o.status (codes "complete"),
      text_eq_iff o.actual_hash actual,
      text_eq_iff o.target_revision_id target,
    )
  ]

  -- A completion that succeeds, possibly again, is recorded with the hash and the revision that it
  -- names, and the same request, at whatever time, then succeeds again and changes nothing.
  pub complete_again :
      (now' : Text)
      → (find_operation session id st'.operations ≡ some op)
        × (op.status ≡ codes "complete")
        × (op.actual_hash ≡ actual)
        × (op.target_revision_id ≡ target)
        × (complete_sync_operation session id actual target bytes now' st' ≡ (st', ok op))
  unfolding complete_sync_operation complete_operation get_sync_operation
  complete_again now' =
      let (f, s, a, t) = reported in
      (
        f,
        s,
        a,
        t,
        ground (
          arith,
          f,
          text_eq_iff op.status (codes "complete"),
          text_eq_iff op.actual_hash actual,
          text_eq_iff op.target_revision_id target,
        ),
      )

count_zero :
    (p : SyncOperation → Bool) (ops : List SyncOperation) → (count p ops ≡ 0) ↔ (any p ops ≡ false)
unfolding count
count_zero p [] = ground arith
count_zero p (x ∷ xs) = ground (arith, count_zero p xs)

-- What stands in the way of a complete session.
abbrev pub is_open : SyncOperation → Bool
is_open op = is_pending op || is_failed op

any_open :
    (id : Text) (ops : List SyncOperation)
    → any (in_session id is_open) ops
      ≡ (any (in_session id is_pending) ops || any (in_session id is_failed) ops)
any_open id [] = refl
any_open id (x ∷ xs) = ground (arith, any_open id xs)

recalculated_lem :
    (id finished now : Text) (ops : List SyncOperation) (s : SyncSession)
    → (((recalculated id finished now ops s).status ≡ codes "complete")
        ↔ (any (in_session id is_open) ops ≡ false))
      × ((recalculated id finished now ops s).finished_at
          ≡ (if any (in_session id is_pending) ops then [] else finished))
unfolding recalculated
recalculated_lem id finished now ops s = ground (
  arith,
  count_zero (in_session id is_pending) ops,
  count_zero (in_session id is_failed) ops,
  any_open id ops,
)

session_lem :
    (id finished now : Text) (ops : List SyncOperation) (ss : List SyncSession) (s : SyncSession)
    → find_session id (map (λ s. if s.id =ᵗ id then recalculated id finished now ops s else s) ss)
      ≡ some s
    → (x : SyncSession) × (s ≡ recalculated id finished now ops x)
unfolding find_session recalculated
session_lem id finished now ops [] s h = ground arith
session_lem id finished now ops (x ∷ xs) s h = elim (Bool-cases (x.id =ᵗ id)) [
  | inl e ↦ (x, ground arith)
  | inr e ↦ session_lem id finished now ops xs s (ground arith)
]

-- The session that RecalculateSyncSession returns is complete exactly when none of its operations
-- is pending or has failed; it has the time of the call as its finish when none is pending, and
-- no finish otherwise.
pub recalculate_complete_iff :
    (id finished now : Text) (st st' : SyncStore) (s : SyncSession)
    → recalculate_sync_session id finished now st ≡ (st', ok s)
    → ((s.status ≡ codes "complete") ↔ (any (in_session id is_open) st.operations ≡ false))
      × (s.finished_at ≡ (if any (in_session id is_pending) st.operations then [] else finished))
unfolding recalculate_sync_session
recalculate_complete_iff id finished now st st' s h =
    let (x, e) = session_lem id finished now st.operations st.sessions s (ground arith) in
    rw e (recalculated_lem id finished now st.operations x)
