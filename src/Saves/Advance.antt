-- ===== src/Saves/Advance.antt =====
-- What becomes current when a push is accepted without a conflict.
use varkiv.Common.{
  ◌≡◌, refl, sym, ◌∙◌, ap, ℤ, is_empty, trim, Text, Stdlib, true, false, some, List, [], ◌∷◌, ◌=ᵗ◌,
  text_eq_iff, text_eq_refl, Result, ok, err, arith, inl, inr, Bool-cases, Result-cases,
  Option-cases, ◌⊎◌,
}
use varkiv.Common.Maps.{Map}
use varkiv.Saves.Model.{
  Store, NewSaveFile, NewSaveRevision, Draws, Outcome, SaveRevision, SaveStream, RevisionRow,
  SaveError, Repository, PushSetInput, PushResult,
}
use varkiv.Saves.Queries.{
  is_current, current_row, find, current_stream_revision, owner, or_manual, is_owned,
}
use varkiv.Saves.Streams.{ensure_legacy_stream, owned_stream, link_stream}
use varkiv.Saves.Revisions.{new_row, save_transaction, add_save_revision, or_else}
use varkiv.Saves.Cases.{Saved, saved}
use varkiv.Saves.Currency.{current_row-saved, saved_row}
use varkiv.Saves.Blobs.{Bytes, store_blobs}
use varkiv.Saves.Push.{
  push_set, perform, negotiate, decide, Pending, found, add, new_revision, with_defaults,
  record_revision, finish, stream_id_of,
}
use varkiv.Saves.Safety.{resolved, negotiate_lem}

or_else_nil : (t : Text) → or_else t [] ≡ t
or_else_nil [] = refl
or_else_nil (c ∷ t) = refl

module _ ⦃lib : Stdlib⦄ where
  -- A revision that was added as the current one.
  pub record Advanced (d : Draws) (i : PushSetInput) (stream hash : Text) (st after : Store)
      : Type 0 where
    pub files : List NewSaveFile
    pub saving : Saved d (new_revision i stream hash false files) st after

  committed :
      (d : Draws) (i : NewSaveRevision) (st : Store) (rev : SaveRevision)
      → (add_save_revision d i st).1 ≡ ok rev
      → save_transaction d i st ≡ ok (add_save_revision d i st).0
  unfolding add_save_revision
  committed d i st rev h = ground arith

  finish_lem :
      (blobs : Map Bytes) (o : Outcome Store SaveRevision) (r : Repository) (res : PushResult)
      → finish false blobs o ≡ (r, ok res)
      → (res.created ≡ true) × (res.conflict ≡ false) × (o.1 ≡ ok res.revision) × (r.store ≡ o.0)
  finish_lem blobs (st, ok rev) r res h = ground arith
  finish_lem blobs (st, err e) r res h = ground arith

  advanced :
      (d : Draws) (i : PushSetInput) (stream hash : Text) (st : Store)
      (b : Map Bytes × Result SaveError (List NewSaveFile)) (r : Repository) (res : PushResult)
      → record_revision d i stream hash false st b ≡ (r, ok res)
      → (res.created ≡ true) × (res.conflict ≡ false) × Advanced d i stream hash st r.store
  unfolding record_revision
  advanced d i stream hash st (blobs, err e) r res h = ground arith
  advanced d i stream hash st (blobs, ok files) r res h =
      let n = new_revision i stream hash false files in
      let (a, b, e, s) = finish_lem blobs (add_save_revision d n st) r res h in
      (
        a,
        b,
        rw s (record {
          files = files;
          saving = saved d n st (add_save_revision d n st).0 (committed d n st res.revision e);
        }),
      )

  row_current :
      (d : Draws) (i : PushSetInput) (stream hash s : Text) (files fs : List NewSaveFile)
      (total : ℤ)
      → is_current s (new_row d (new_revision i stream hash false files) fs total s) ≡ true
  unfolding is_current new_row new_revision ◌=ᵗ◌
  row_current d i stream hash s files fs total = ground (arith, text_eq_refl s)

  found_id :
      (id : Text) (ss : List SaveStream) (s : SaveStream)
      → find (λ s. s.id =ᵗ id) ss ≡ some s
      → s.id ≡ id
  found_id id [] s h = cc
  found_id id (t ∷ ss) s h = ground (arith, text_eq_iff t.id id, found_id id ss s)

  -- Where the revision goes: to the stream that was found,
  known_stream :
      (d : Draws) (i : NewSaveRevision) (st mid : Store) (s : Text)
      → is_empty i.stream_id ≡ false
      → ensure_legacy_stream d i st ≡ ok (s, mid)
      → s ≡ i.stream_id
  unfolding ensure_legacy_stream
  known_stream d i st mid s h e = elim (Option-cases (find (λ t. t.id =ᵗ i.stream_id) st.streams)) [
    | inl n ↦ ground arith
    | inr (t, f) ↦ ground (arith, found_id i.stream_id st.streams t f)
  ]

  -- or to the one of the owner.
  owner_stream :
      (d : Draws) (i : NewSaveRevision) (st mid : Store) (s : Text) (t : SaveStream)
      → is_empty i.stream_id ≡ true
      → find
          (let o = owner i.edition_id i.scope_type i.scope_key in
            is_owned o.0 o.1 (or_manual (trim i.driver_id)))
          st.streams
        ≡ some t
      → ensure_legacy_stream d i st ≡ ok (s, mid)
      → s ≡ t.id
  unfolding ensure_legacy_stream owned_stream link_stream
  owner_stream d i st mid s t h f e = ground arith

  -- The revision that an accepted push added is the newest current one of its stream.
  pub record IsNewest (d : Draws) (i : PushSetInput) (stream : Text) (after : Store) : Type 0 where
    pub row : RevisionRow
    pub newest : current_row stream after ≡ some row
    pub id : row.id ≡ d.revision_id
    pub device : row.device_id ≡ i.device_id
    pub parent : row.parent_revision_id ≡ i.base_revision_id

  newest :
      (d : Draws) (i : PushSetInput) (stream hash s : Text) (st after : Store)
      (a : Advanced d i stream hash st after)
      → a.saving.stream ≡ s
      → IsNewest d i s after
  unfolding new_row new_revision
  newest d i stream hash s st after a e =
      let w = a.saving in
      let n = new_revision i stream hash false a.files in
      record {
        row = saved_row d n st after w;
        newest = ground (
          arith,
          current_row-saved d n st after w s,
          row_current d i stream hash s a.files w.files w.total,
        );
        id = refl;
        device = refl;
        parent = or_else_nil i.base_revision_id;
      }

  performed :
      (root : Text) (d : Draws) (i : PushSetInput) (r r' : Repository) (p : Pending)
      (res : PushResult)
      → p.decision ≡ add false
      → perform root d i r p p.decision ≡ (r', ok res)
      → (res.created ≡ true)
        × (res.conflict ≡ false)
        × Advanced d i (stream_id_of p.stream) p.hash r.store r'.store
  unfolding perform
  performed root d i r r' p res k h =
      advanced d i (stream_id_of p.stream) p.hash r.store (store_blobs root p.staged r.blobs) r' res
        (sym (ap (perform root d i r p) k) ∙ h)

  decided :
      (hash base : Text) (stream : SaveStream) (st : Store) (c : SaveRevision)
      → current_stream_revision stream.id st ≡ ok c
      → base ≡ c.row.id
      → (decide hash base (ok stream) st ≡ found c) ⊎ (decide hash base (ok stream) st ≡ add false)
  unfolding decide
  decided hash base stream st c hc hb = elim (Bool-cases (c.row.content_hash =ᵗ hash)) [
    | inl e ↦ inl (ground arith)
    | inr e ↦ inr (ground (arith, text_eq_iff base c.row.id))
  ]

  replaced :
      (root : Text) (d : Draws) (i : PushSetInput) (r r' : Repository) (p : Pending)
      (res : PushResult) (stream : SaveStream)
      → p.stream ≡ ok stream
      → is_empty stream.id ≡ false
      → p.decision ≡ add false
      → perform root d i r p p.decision ≡ (r', ok res)
      → (res.created ≡ true) × (res.conflict ≡ false) × IsNewest d i stream.id r'.store
  unfolding new_revision
  replaced root d i r r' p res stream e he k h =
      let (a, b, w) = performed root d i r r' p res k h in
      let n = new_revision i (stream_id_of p.stream) p.hash false w.files in
      let same : stream_id_of p.stream ≡ stream.id = ap stream_id_of e in
      let ids : w.saving.stream ≡ stream.id =
        known_stream d n r.store w.saving.mid w.saving.stream (rw same he) w.saving.found ∙ same in
      (a, b, newest d i (stream_id_of p.stream) p.hash stream.id r.store r'.store w ids)

  pushed :
      (root : Text) (d : Draws) (i : PushSetInput) (r r' : Repository) (res : PushResult)
      → push_set root d i r ≡ (r', ok res)
      → (p : Pending) × (p.stream ≡ resolved i r)
        × (p.decision ≡ decide p.hash i.base_revision_id p.stream r.store)
        × (perform root d (with_defaults i) r p p.decision ≡ (r', ok res))
  unfolding push_set
  pushed root d i r r' res h = elim (Result-cases (negotiate root (with_defaults i) r)) [
    | inr (x, e) ↦ ground arith
    | inl (p, e) ↦
        let (es, ed) = negotiate_lem root (with_defaults i) r p e in
        (p, es, unfold with_defaults in ed, ground arith)
  ]

  kept :
      (root : Text) (d : Draws) (i : PushSetInput) (r r' : Repository) (p : Pending)
      (res : PushResult) (c : SaveRevision)
      → p.decision ≡ found c
      → perform root d i r p p.decision ≡ (r', ok res)
      → (res ≡ record { revision = c; created = false; conflict = c.conflict }) × (r' ≡ r)
  unfolding perform
  kept root d i r r' p res c k h = ground arith

  -- A push that succeeds and is based on the readable current revision of the stream it resolves
  -- to, whose id is not empty, either returns that revision and changes nothing, or creates without
  -- a conflict a revision with the drawn id, the device of the push and the base as its parent,
  -- which is then the current one.
  pub push_set_advances :
      (root : Text) (d : Draws) (i : PushSetInput) (r r' : Repository) (res : PushResult)
      (stream : SaveStream) (c : SaveRevision)
      → resolved i r ≡ ok stream
      → is_empty stream.id ≡ false
      → current_stream_revision stream.id r.store ≡ ok c
      → i.base_revision_id ≡ c.row.id
      → push_set root d i r ≡ (r', ok res)
      → ((res ≡ record { revision = c; created = false; conflict = c.conflict }) × (r' ≡ r))
        ⊎ ((res.created ≡ true)
            × (res.conflict ≡ false)
            × IsNewest d (with_defaults i) stream.id r'.store)
  unfolding push_set
  push_set_advances root d i r r' res stream c hs he hc hb h =
      let (p, es, ed, hp) = pushed root d i r r' res h in
      let at = ed ∙ ap (λ s. decide p.hash i.base_revision_id s r.store) (es ∙ hs) in
      elim (decided p.hash i.base_revision_id stream r.store c hc hb) [
        | inl k ↦ inl (kept root d (with_defaults i) r r' p res c (at ∙ k) hp)
        | inr k ↦ inr (replaced root d (with_defaults i) r r' p res stream (es ∙ hs) he (at ∙ k) hp)
      ]

  -- A push that succeeds for an edition for which no stream is resolved, while the owner of its
  -- scope has one, creates without a conflict a revision that is then the current one of that
  -- stream, whatever revision was current.
  pub push_set_unlinked :
      (root : Text) (d : Draws) (i : PushSetInput) (r r' : Repository) (res : PushResult)
      (x : SaveError) (t : SaveStream)
      → resolved i r ≡ err x
      → (let full = with_defaults i in
          let o = owner full.edition_id full.scope_type full.scope_key in
          find (is_owned o.0 o.1 (or_manual (trim full.driver_id))) r.store.streams)
        ≡ some t
      → push_set root d i r ≡ (r', ok res)
      → (res.created ≡ true) × (res.conflict ≡ false) × IsNewest d (with_defaults i) t.id r'.store
  unfolding push_set
  push_set_unlinked root d i r r' res x t hs ht h =
      let (p, es, ed, hp) = pushed root d i r r' res h in
      let none_yet : p.decision ≡ add false =
        ed
        ∙ ap (λ s. decide p.hash i.base_revision_id s r.store) (es ∙ hs)
        ∙ (unfold decide in refl) in
      let (a, b, w) = performed root d (with_defaults i) r r' p res none_yet hp in
      let ids : w.saving.stream ≡ t.id =
        owner_stream d (new_revision (with_defaults i) (stream_id_of p.stream) p.hash false w.files)
          r.store w.saving.mid w.saving.stream t (ap is_empty (ap stream_id_of (es ∙ hs))) ht
          w.saving.found in
      (a, b, newest d (with_defaults i) (stream_id_of p.stream) p.hash t.id r.store r'.store w ids)
