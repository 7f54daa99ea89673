-- ===== src/Saves/Safety.antt =====
-- A push never replaces a save that it was not based on.
use varkiv.Common.{
  ◌≡◌, ◌≢◌, refl, ℤ, Text, codes, Stdlib, true, false, List, ◌=ᵗ◌, text_eq_iff, Result, ok, err,
  arith, inl, inr, Result-cases,
}
use varkiv.Saves.Model.{
  Store, NewSaveFile, NewSaveRevision, Draws, SaveRevision, SaveStream, SaveError, Repository,
  PushSetInput,
}
use varkiv.Saves.Queries.{is_current, current_row, current_stream_revision, resolve_save_stream}
use varkiv.Common.Maps.{Map}
use varkiv.Saves.Revisions.{new_row, save_transaction, add_save_revision, default_status}
use varkiv.Saves.Cases.{saved}
use varkiv.Saves.Currency.{current_row-saved}
use varkiv.Saves.Blobs.{store_blobs, Bytes}
use varkiv.Saves.Push.{
  push_set, perform, negotiate, decide, Pending, Decision, found, add, new_revision, with_defaults,
  record_revision, stream_id_of,
}

-- The stream that a push is for.
abbrev pub resolved : PushSetInput → Repository → Result SaveError SaveStream
resolved i r =
    let full = with_defaults i in
    resolve_save_stream full.edition_id full.driver_id full.scope_type full.scope_key r.store

module _ ⦃lib : Stdlib⦄ where
  row_aside :
      (d : Draws) (i : NewSaveRevision) (files : List NewSaveFile) (total : ℤ) (stream s : Text)
      → (default_status i =ᵗ codes "current") ≡ false
      → is_current s (new_row d i files total stream) ≡ false
  unfolding is_current new_row
  row_aside d i files total stream s h = ground arith

  -- Adding a revision that does not come as the current one leaves the current ones alone.
  aside :
      (d : Draws) (i : NewSaveRevision) (st : Store) (s : Text)
      → (default_status i =ᵗ codes "current") ≡ false
      → current_row s (add_save_revision d i st).0 ≡ current_row s st
  unfolding add_save_revision
  aside d i st s h = elim (Result-cases (save_transaction d i st)) [
    | inl (new, e) ↦
        let w = saved d i st new e in
        rw e (
          ground
            (arith, current_row-saved d i st new w s, row_aside d i w.files w.total w.stream s h))
    | inr (x, e) ↦ rw e refl
  ]

  conflict_aside :
      (i : PushSetInput) (stream hash : Text) (files : List NewSaveFile)
      → (default_status (new_revision i stream hash true files) =ᵗ codes "current") ≡ false
  unfolding new_revision ◌=ᵗ◌
  conflict_aside i stream hash files = refl

  record_aside :
      (d : Draws) (i : PushSetInput) (stream hash s : Text) (st : Store)
      (b : Map Bytes × Result SaveError (List NewSaveFile))
      → current_row s (record_revision d i stream hash true st b).0.store ≡ current_row s st
  unfolding record_revision
  record_aside d i stream hash s st (blobs, ok files) =
      aside d (new_revision i stream hash true files) st s (conflict_aside i stream hash files)
  record_aside d i stream hash s st (blobs, err e) = refl

  perform_aside :
      (root : Text) (d : Draws) (i : PushSetInput) (r : Repository) (p : Pending) (s : Text)
      (k : Decision)
      → (k ≢ add false)
      → current_row s (perform root d i r p k).0.store ≡ current_row s r.store
  unfolding perform
  perform_aside root d i r p s (found revision) h = refl
  perform_aside root d i r p s (add false) h = absurd (h refl)
  perform_aside root d i r p s (add true) h =
      record_aside d i (stream_id_of p.stream) p.hash s r.store (store_blobs root p.staged r.blobs)

  pub negotiate_lem :
      (root : Text) (i : PushSetInput) (r : Repository) (p : Pending)
      → negotiate root i r ≡ ok p
      → (p.stream ≡ resolve_save_stream i.edition_id i.driver_id i.scope_type i.scope_key r.store)
        × (p.decision ≡ decide p.hash i.base_revision_id p.stream r.store)
  unfolding negotiate
  negotiate_lem root i r p h = ground arith

  decide_lem :
      (hash base : Text) (stream : SaveStream) (st : Store) (c : SaveRevision)
      → current_stream_revision stream.id st ≡ ok c
      → base ≢ c.row.id
      → decide hash base (ok stream) st ≢ add false
  unfolding decide
  decide_lem hash base stream st c hc hb = ground (arith, text_eq_iff base c.row.id)

  -- A push that resolves to a stream with a readable current revision, and whose base is another
  -- one, leaves that revision the current one, whether the push succeeds or not.
  pub push_set_keeps_current :
      (root : Text) (d : Draws) (i : PushSetInput) (r : Repository) (stream : SaveStream)
      (c : SaveRevision)
      → resolved i r ≡ ok stream
      → current_stream_revision stream.id r.store ≡ ok c
      → i.base_revision_id ≢ c.row.id
      → current_row stream.id (push_set root d i r).0.store ≡ current_row stream.id r.store
  unfolding push_set
  push_set_keeps_current root d i r stream c hs hc hb =
      elim (Result-cases (negotiate root (with_defaults i) r)) [
        | inl (p, e) ↦
            let (es, ed) = negotiate_lem root (with_defaults i) r p e in
            let not_now : decide p.hash (with_defaults i).base_revision_id (ok stream) r.store
                ≢ add false =
              unfold with_defaults in decide_lem p.hash i.base_revision_id stream r.store c hc hb in
            rw e (perform_aside root d (with_defaults i) r p stream.id p.decision (λ k. not_now cc))
        | inr (x, e) ↦ rw e refl
      ]
