-- ===== src/Agent/Loop.antt =====
-- syncOnce of internal/deviceagent/sync.go from the choice of the key: what the agent keeps of its
-- streams and of the pending request. The hub's answers to the operations are arguments.
use varkiv.Common.{
  suc, Text, codes, Stdlib, ltb, ◌=ᵗ◌, Option, none, some, List, [], ◌∷◌, is_empty, Result, ok, err,
  if◌then◌else◌, or_fail, ◌>>=◌, ◌>>◌,
}
use varkiv.Common.Maps.{Map, lookup, insert}
use varkiv.Agent.Model.{
  LocalSet, StreamState, SyncResult, AgentError, unconfigured_stream, unknown_action,
  inconsistent_upload, bad_noop, sync_conflict,
}
use varkiv.Agent.Download.{protocol_path_segment, protocol_sha256}

-- The pending request: its key and its fingerprint.
pub record AgentConfig : Type 0 where
  pub streams : Map StreamState
  pub pending : Option (Text × Text)

abbrev fresh_key : Text → Text → AgentConfig → AgentConfig × Text
fresh_key fingerprint drawn config = (record config { pending = some (drawn, fingerprint) }, drawn)

abbrev pub key_for : Text → Text → AgentConfig → Option (Text × Text) → AgentConfig × Text
key_for fingerprint drawn config none = fresh_key fingerprint drawn config
key_for fingerprint drawn config (some (key, before)) =
    if before =ᵗ fingerprint then (config, key) else fresh_key fingerprint drawn config

-- The key of the request, which is written down before the request is sent.
unfoldable pub choose_key : Text → Text → AgentConfig → AgentConfig × Text
choose_key fingerprint drawn config = key_for fingerprint drawn config config.pending

-- An operation of the session, and what came of the calls for it.
pub record Task : Type 0 where
  pub operation_id : Text
  pub stream_id : Text
  pub action : Text
  pub target_revision_id : Text
  pub expected_hash : Text
  pub uploaded : Result AgentError (StreamState × Text)
  pub downloaded : Result AgentError StreamState
  pub acknowledged : Result AgentError Unit

-- The streams and the result as the loop changes them.
pub record Progress : Type 0 where
  pub streams : Map StreamState
  pub result : SyncResult

abbrev pub state : Text → Text → StreamState
state revision hash = record { revision_id = revision; content_hash = hash }

module _ ⦃lib : Stdlib⦄ where
  abbrev pub same_hash : Text → Result AgentError Text → Result AgentError Text
  same_hash hash (err e) = err inconsistent_upload
  same_hash hash (ok answer) = if answer =ᵗ hash then ok answer else err inconsistent_upload

  abbrev pub no_hash : Result AgentError Text → Result AgentError Text
  no_hash (err e) = err bad_noop
  no_hash (ok t) = ok t

  unfoldable pub do_upload : Task → LocalSet → Progress → Result AgentError Progress
  unfolding protocol_path_segment protocol_sha256 insert
  do_upload t set p = do
    (answer, status) ← t.uploaded
    revision ← protocol_path_segment answer.revision_id
    hash ← same_hash set.content_hash (protocol_sha256 answer.content_hash)
    ok (record {
      streams = insert t.stream_id (state revision hash) p.streams;
      result = record p.result { uploaded = suc p.result.uploaded; status = status };
    })

  unfoldable pub do_download : Task → Progress → Result AgentError Progress
  unfolding insert
  do_download t p = do
    revision ← t.downloaded
    t.acknowledged
    ok (record {
      streams = insert t.stream_id revision p.streams;
      result = record p.result { downloaded = suc p.result.downloaded };
    })

  unfoldable pub do_noop : Task → Progress → Result AgentError Progress
  unfolding protocol_path_segment protocol_sha256 insert
  do_noop t p =
      if is_empty t.target_revision_id
      then ok p
      else (no_hash (protocol_path_segment t.target_revision_id) >>= λ revision.
          no_hash (protocol_sha256 t.expected_hash) >>= λ hash.
          ok (record p { streams = insert t.stream_id (state revision hash) p.streams }))

  abbrev pub add_conflict : Progress → Progress
  add_conflict p = record p { result = record p.result { conflicts = suc p.result.conflicts } }

  unfoldable pub do_task : Map LocalSet → Task → Progress → Result AgentError Progress
  unfolding do_upload do_download do_noop
  do_task sets t p = do
    id ← protocol_path_segment t.operation_id
    set ← or_fail (lookup t.stream_id sets) unconfigured_stream
    if t.action =ᵗ codes "upload"
        then do_upload t set p
        else if t.action =ᵗ codes "download"
        then do_download t p
        else if t.action =ᵗ codes "noop"
        then do_noop t p
        else if t.action =ᵗ codes "conflict"
        then ok (add_conflict p)
        else err unknown_action

  -- The loop, which stops at the first error with what it has done so far.
  abbrev pub go_on :
      Result AgentError Progress
      → Progress
      → (Progress → Progress × Result AgentError Unit)
      → Progress × Result AgentError Unit
  go_on (ok p) before next = next p
  go_on (err e) before next = (before, err e)

  unfoldable pub do_tasks : Map LocalSet → List Task → Progress → Progress × Result AgentError Unit
  unfolding do_task
  do_tasks sets [] p = (p, ok tt)
  do_tasks sets (t ∷ ts) p = go_on (do_task sets t p) p (do_tasks sets ts)

  abbrev pub finish :
      AgentConfig
      → Progress × Result AgentError Unit
      → AgentConfig × (SyncResult × Result AgentError Unit)
  finish config (p, err e) = (config, (p.result, err e))
  finish config (p, ok u) = (
    record { streams = p.streams; pending = none },
    if ltb 0 p.result.conflicts
        then (p.result, err sync_conflict)
        else (record p.result { status = codes "complete" }, ok tt),
  )

  -- The configuration is written once all operations are done.
  unfoldable pub run_session :
      Map LocalSet
      → Text
      → Text
      → List Task
      → AgentConfig
      → AgentConfig × (SyncResult × Result AgentError Unit)
  unfolding do_tasks
  run_session sets session status tasks config = finish config (
      do_tasks sets tasks (record {
        streams = config.streams;
        result = record {
          session_id = session;
          status = status;
          uploaded = 0;
          downloaded = 0;
          conflicts = 0;
        };
      }))
