-- ===== src/Agent/Retrying.antt =====
-- What the agent keeps over its runs.
use varkiv.Common.{
  Text, codes, Stdlib, ◌≡◌, ◌≢◌, refl, sym, ap, ◌∙◌, subst, Bool, true, false, not, ◌||◌, ◌=ᵗ◌,
  text_eq_iff, text_eq_refl, ltb, Option, none, some, List, [], ◌∷◌, is_empty, all, Result, ok, err,
  arith, Bool-cases, Result-cases, inl, inr, bind_ok, ok_injective, or_fail, ◌>>=◌,
}
use varkiv.Common.Maps.{Map, lookup, insert, lookup-insert}
use varkiv.Agent.Model.{LocalSet, StreamState, AgentError, sync_conflict, unconfigured_stream}
use varkiv.Agent.Download.{protocol_path_segment, protocol_sha256}
use varkiv.Agent.Loop.{
  AgentConfig, Task, Progress, choose_key, key_for, same_hash, no_hash, finish, add_conflict,
  do_upload, do_download, do_noop, do_task, do_tasks, run_session, state,
}

-- A task on another stream, or a conflict.
abbrev pub is_aside : Text → Task → Bool
is_aside stream t = not (t.stream_id =ᵗ stream) || (t.action =ᵗ codes "conflict")

abbrev pub is_conflict : Task → Bool
is_conflict t = t.action =ᵗ codes "conflict"

err_not_ok :
    {A : Type 0} (e : AgentError) → (let r : Result AgentError Unit = err e in r) ≡ ok tt → A
err_not_ok e h = cc

abbrev begin : Text → Text → AgentConfig → Progress
begin session status config = record {
  streams = config.streams;
  result = record {
    session_id = session;
    status = status;
    uploaded = 0;
    downloaded = 0;
    conflicts = 0;
  };
}

failed_ok :
    {A : Type 0} (p q : Progress) (e : AgentError)
    → (let r : Progress × Result AgentError Unit = (p, err e) in r) ≡ (q, ok tt)
    → A
failed_ok p q e h = err_not_ok e (ap (λ x. x.1) h)

insert_other :
    (key other : Text) (v : StreamState) (m : Map StreamState)
    → (key =ᵗ other) ≡ false
    → lookup other (insert key v m) ≡ lookup other m
insert_other key other v m h = lookup-insert key other v m ∙ rw h refl

module _ ⦃lib : Stdlib⦄ where
  do_upload_lem :
      (t : Task) (set : LocalSet) (p q : Progress) (stream : Text)
      → do_upload t set p ≡ ok q
      → (t.stream_id =ᵗ stream) ≡ false
      → lookup stream q.streams ≡ lookup stream p.streams
  unfolding do_upload
  do_upload_lem t set p q stream h other =
      let ((answer, status), e1, h1) = bind_ok t.uploaded _ q h in
      let (revision, e2, h2) = bind_ok (protocol_path_segment answer.revision_id) _ q h1 in
      let (hash, e3, h3) =
        bind_ok (same_hash set.content_hash (protocol_sha256 answer.content_hash)) _ q h2 in
      subst (λ x. lookup stream x.streams ≡ lookup stream p.streams) (ok_injective _ q h3)
        (insert_other t.stream_id stream (state revision hash) p.streams other)

  do_download_lem :
      (t : Task) (p q : Progress) (stream : Text)
      → do_download t p ≡ ok q
      → (t.stream_id =ᵗ stream) ≡ false
      → lookup stream q.streams ≡ lookup stream p.streams
  unfolding do_download
  do_download_lem t p q stream h other =
      let (revision, e1, h1) = bind_ok t.downloaded _ q h in
      let (u, e2, h2) = bind_ok t.acknowledged _ q h1 in
      subst (λ x. lookup stream x.streams ≡ lookup stream p.streams) (ok_injective _ q h2)
        (insert_other t.stream_id stream revision p.streams other)

  noop_opened :
      (t : Task) (p q : Progress)
      → is_empty t.target_revision_id ≡ false
      → do_noop t p ≡ ok q
      → (no_hash (protocol_path_segment t.target_revision_id) >>= λ revision.
          no_hash (protocol_sha256 t.expected_hash) >>= λ hash.
          ok (record p { streams = insert t.stream_id (state revision hash) p.streams }))
        ≡ ok q
  unfolding do_noop
  noop_opened t p q e h = sym (rw e refl) ∙ h

  do_noop_lem :
      (t : Task) (p q : Progress) (stream : Text)
      → do_noop t p ≡ ok q
      → (t.stream_id =ᵗ stream) ≡ false
      → lookup stream q.streams ≡ lookup stream p.streams
  unfolding do_noop
  do_noop_lem t p q stream h other = elim (Bool-cases (is_empty t.target_revision_id)) [
    | inl e ↦ ap (λ x. lookup stream x.streams) (sym (ok_injective p q (sym (rw e refl) ∙ h)))
    | inr e ↦
        let (revision, e1, h1) =
          bind_ok (no_hash (protocol_path_segment t.target_revision_id)) _ q
            (noop_opened t p q e h) in
        let (hash, e2, h2) = bind_ok (no_hash (protocol_sha256 t.expected_hash)) _ q h1 in
        subst (λ x. lookup stream x.streams ≡ lookup stream p.streams) (ok_injective _ q h2)
          (insert_other t.stream_id stream (state revision hash) p.streams other)
  ]

  do_task_conflict :
      (sets : Map LocalSet) (t : Task) (p q : Progress)
      → t.action ≡ codes "conflict"
      → do_task sets t p ≡ ok q
      → q ≡ add_conflict p
  unfolding do_task
  do_task_conflict sets t p q a h =
      let (id, e1, h1) = bind_ok (protocol_path_segment t.operation_id) _ q h in
      let (set, e2, h2) = bind_ok (or_fail (lookup t.stream_id sets) unconfigured_stream) _ q h1 in
      let counted : Result AgentError Progress = ok (add_conflict p) in
      let opened : counted ≡ ok q = unfold ◌=ᵗ◌ in rw a at h2 in
      sym (ok_injective (add_conflict p) q opened)

  do_task_other :
      (sets : Map LocalSet) (t : Task) (p q : Progress) (stream : Text)
      → (t.stream_id =ᵗ stream) ≡ false
      → is_conflict t ≡ false
      → do_task sets t p ≡ ok q
      → lookup stream q.streams ≡ lookup stream p.streams
  unfolding do_task
  do_task_other sets t p q stream other n h =
      let (id, e1, h1) = bind_ok (protocol_path_segment t.operation_id) _ q h in
      let (set, e2, h2) = bind_ok (or_fail (lookup t.stream_id sets) unconfigured_stream) _ q h1 in
      elim (Bool-cases (t.action =ᵗ codes "upload")) [
        | inl u ↦ do_upload_lem t set p q stream (sym (rw u refl) ∙ h2) other
        | inr u ↦ elim (Bool-cases (t.action =ᵗ codes "download")) [
          | inl d ↦ do_download_lem t p q stream (sym (rw (u, d) refl) ∙ h2) other
          | inr d ↦ elim (Bool-cases (t.action =ᵗ codes "noop")) [
            | inl o ↦ do_noop_lem t p q stream (sym (rw (u, d, o) refl) ∙ h2) other
            | inr o ↦ ground (arith, u, d, o, n, h2)
          ]
        ]
      ]

  do_task_aside :
      (sets : Map LocalSet) (t : Task) (p q : Progress) (stream : Text)
      → is_aside stream t ≡ true
      → do_task sets t p ≡ ok q
      → lookup stream q.streams ≡ lookup stream p.streams
  do_task_aside sets t p q stream aside h = elim (Bool-cases (is_conflict t)) [
    | inl c ↦
        ap (λ x. lookup stream x.streams)
          (do_task_conflict sets t p q ((text_eq_iff t.action (codes "conflict")).0 c) h)
    | inr n ↦ do_task_other sets t p q stream (ground arith) n h
  ]

  do_tasks_lem :
      (sets : Map LocalSet) (ts : List Task) (p q : Progress) (stream : Text)
      → all (is_aside stream) ts ≡ true
      → do_tasks sets ts p ≡ (q, ok tt)
      → lookup stream q.streams ≡ lookup stream p.streams
  unfolding do_tasks
  do_tasks_lem sets [] p q stream aside h = ap (λ x. lookup stream x.0.streams) (sym h)
  do_tasks_lem sets (t ∷ ts) p q stream aside h = elim (Result-cases (do_task sets t p)) [
    | inl (mid, e) ↦
        do_tasks_lem sets ts mid q stream (ground arith) (sym (rw e refl) ∙ h)
        ∙ do_task_aside sets t p mid stream (ground arith) e
    | inr (x, e) ↦ failed_ok p q x (sym (rw e refl) ∙ h)
  ]

  pair_ok : (d : Progress × Result AgentError Unit) → d.1 ≡ ok tt → d ≡ (d.0, ok tt)
  pair_ok (p, r) h = ap (λ x. (p, x)) h

  finish_ok :
      (config : AgentConfig) (d : Progress × Result AgentError Unit) (stream : Text)
      → d.1 ≡ ok tt
      → lookup stream (finish config d).0.streams ≡ lookup stream d.0.streams
  finish_ok config (p, ok u) stream h = refl
  finish_ok config (p, err e) stream h = err_not_ok e h

  finish_err :
      (config : AgentConfig) (d : Progress × Result AgentError Unit) (e : AgentError)
      → d.1 ≡ err e
      → (finish config d).0 ≡ config
  finish_err config (p, ok u) e h = err_not_ok e (sym h)
  finish_err config (p, err x) e h = refl

  finish_conflict :
      (config : AgentConfig) (d : Progress × Result AgentError Unit) (e : AgentError)
      → d.1 ≡ ok tt
      → (finish config d).1.1 ≡ err e
      → e ≡ sync_conflict
  finish_conflict config (p, err x) e h k = err_not_ok x h
  finish_conflict config (p, ok u) e h k = elim (Bool-cases (ltb 0 p.result.conflicts)) [
    | inl c ↦ ground (arith, c, k)
    | inr c ↦ ground (arith, c, k)
  ]

  key_same :
      (fingerprint drawn next : Text) (config : AgentConfig) (o : Option (Text × Text))
      → config.pending ≡ o
      → key_for fingerprint next
          (key_for fingerprint drawn config o).0
          (key_for fingerprint drawn config o).0.pending
        ≡ key_for fingerprint drawn config o
  key_same fingerprint drawn next config none h = rw (text_eq_refl fingerprint) refl
  key_same fingerprint drawn next config (some (key, before)) h =
      elim (Bool-cases (before =ᵗ fingerprint)) [
        | inl e ↦ rw (e, h, e) refl
        | inr e ↦ rw (e, text_eq_refl fingerprint) refl
      ]

  choose_same :
      (fingerprint drawn next : Text) (config : AgentConfig)
      → choose_key fingerprint next (choose_key fingerprint drawn config).0
        ≡ choose_key fingerprint drawn config
  unfolding choose_key
  choose_same fingerprint drawn next config =
      key_same fingerprint drawn next config config.pending refl

  -- A stream on which the session has no operation but conflicts: whatever the hub answers to the
  -- operations, and whether the run succeeds or not, the agent keeps what it has recorded of it.
  pub run_session_keeps :
      (sets : Map LocalSet) (session status : Text) (tasks : List Task) (config : AgentConfig)
      (stream : Text)
      → all (is_aside stream) tasks ≡ true
      → lookup stream (run_session sets session status tasks config).0.streams
        ≡ lookup stream config.streams
  unfolding run_session
  run_session_keeps sets session status tasks config stream aside =
      let start : Progress = begin session status config in
      elim (Result-cases (do_tasks sets tasks start).1) [
        | inl (tt, e) ↦
            finish_ok config (do_tasks sets tasks start) stream e
            ∙ do_tasks_lem sets tasks start (do_tasks sets tasks start).0 stream aside
                (pair_ok (do_tasks sets tasks start) e)
        | inr (x, e) ↦
            ap (λ c. lookup stream c.streams) (finish_err config (do_tasks sets tasks start) x e)
      ]

  -- A run that fails before all operations are done, in whichever of them, leaves the key of the
  -- request pending: the next run with the same request sends the same key, whatever key it could
  -- draw, and writes nothing for it.
  pub choose_key_again :
      (sets : Map LocalSet) (session status fingerprint drawn next : Text) (tasks : List Task)
      (config : AgentConfig) (e : AgentError)
      → (run_session sets session status tasks (choose_key fingerprint drawn config).0).1.1 ≡ err e
      → e ≢ sync_conflict
      → choose_key fingerprint next
          (run_session sets session status tasks (choose_key fingerprint drawn config).0).0
        ≡ choose_key fingerprint drawn config
  unfolding run_session
  choose_key_again sets session status fingerprint drawn next tasks config e h other =
      let config1 = (choose_key fingerprint drawn config).0 in
      let done = do_tasks sets tasks (begin session status config1) in
      elim (Result-cases done.1) [
        | inl (tt, r) ↦ absurd (other (finish_conflict config1 done e r h))
        | inr (x, r) ↦
            ap (λ c. choose_key fingerprint next c) (finish_err config1 done x r)
            ∙ choose_same fingerprint drawn next config
      ]
