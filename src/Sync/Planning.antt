-- ===== src/Sync/Planning.antt =====
-- What a plan never does to a save.
use varkiv.Common.{
  ◌≡◌, sym, inl, inr, Text, codes, Stdlib, trim, Bool, true, false, not, ◌&&◌, ◌||◌, ◌=ᵗ◌,
  text_eq_iff, text_eq_refl, member, Option, none, some, List, [], ◌∷◌, any, is_empty, length,
  Result, ok, err, arith, Bool-cases, Option-cases, Result-cases, bind_ok, reject_bind_ok,
  ok_injective, ◌≤◌, ltb,
}
use varkiv.Common.Hex
use varkiv.Common.Sorting.{sort_by, text_le}
use varkiv.Saves.Model.{Store, SaveRevision, RevisionRow, SaveError}
use varkiv.Saves.Queries.{
  find, get_save_revision, get_save_stream, current_stream_revision, hydrate,
}
use varkiv.Sync.Model.{
  NewSyncOperation, SyncSaveState, stream_required, not_attested, bad_content_hash, too_many,
}
use varkiv.Sync.Plan.{
  plan_operation, plan_saves, read_base, clean_state, plan, or_none, is_digest, known_stream,
}

-- Is there a revision of the stream with this content?
abbrev pub keeps_content : Store → Text → Text → Bool
keeps_content st stream hash =
    any (λ r. (r.stream_id =ᵗ stream) && (r.content_hash =ᵗ hash)) st.revisions

-- A download over data of which the hub has no copy.
unfoldable pub loses : Store → SyncSaveState → NewSyncOperation → Bool
loses st s op =
    (op.action =ᵗ codes "download")
    && s.has_local_data
    && not (keeps_content st s.stream_id s.content_hash)

abbrev is_other : Text → Result SaveError SaveRevision → Bool
is_other base (ok current) = not (base =ᵗ current.row.id)
is_other base (err e) = false

-- An upload that is not based on the current revision of its stream.
unfoldable pub outruns : Store → NewSyncOperation → Bool
outruns st op =
    (op.action =ᵗ codes "upload")
    && is_other op.base_revision_id (current_stream_revision op.stream_id st)

found_row :
    (p : RevisionRow → Bool) (rs : List RevisionRow) (r : RevisionRow)
    → find p rs ≡ some r
    → (q : RevisionRow → Bool) → q r ≡ true
    → any q rs ≡ true
found_row p [] r h q k = cc
found_row p (x ∷ xs) r h q k = elim (Bool-cases (p x)) [
  | inl e ↦ ground arith
  | inr e ↦ ground (arith, found_row p xs r (ground arith) q k)
]

revision_row :
    (id : Text) (st : Store) (b : SaveRevision)
    → get_save_revision id st ≡ ok b
    → find (λ r. r.id =ᵗ id) st.revisions ≡ some b.row
unfolding get_save_revision hydrate
revision_row id st b h = elim (Option-cases (find (λ r. r.id =ᵗ id) st.revisions)) [
  | inl e ↦ ground arith
  | inr (row, e) ↦ elim (Option-cases (find (λ s. s.id =ᵗ row.stream_id) st.streams)) [
    | inl f ↦ ground arith
    | inr (stream, f) ↦ ground arith
  ]
]

base_kept :
    (s : SyncSaveState) (st : Store) (b : SaveRevision)
    → read_base s st ≡ ok (some b)
    → keeps_content st s.stream_id b.row.content_hash ≡ true
unfolding read_base
base_kept s st b h = elim (Result-cases (get_save_revision s.base_revision_id st)) [
  | inr (x, e) ↦ ground arith
  | inl (c, e) ↦
      found_row (λ r. r.id =ᵗ s.base_revision_id) st.revisions b.row
        (revision_row s.base_revision_id st b (ground arith))
        (λ r. (r.stream_id =ᵗ s.stream_id) && (r.content_hash =ᵗ b.row.content_hash))
        (ground (arith, text_eq_refl b.row.content_hash))
]

plan_operation_lem :
    (s : SyncSaveState) (base : Option SaveRevision) (st : Store)
    → read_base s st ≡ ok base
    → let op = plan_operation s base (or_none (current_stream_revision s.stream_id st)) in
      (loses st s op ≡ false) × (outruns st op ≡ false) × (op.stream_id ≡ s.stream_id)
unfolding plan_operation loses outruns ◌=ᵗ◌
plan_operation_lem s none st h = elim (Result-cases (current_stream_revision s.stream_id st)) [
  | inl (c, e) ↦ ground arith
  | inr (x, e) ↦ ground arith
]
plan_operation_lem s (some b) st h = elim (Result-cases (current_stream_revision s.stream_id st)) [
  | inl (c, e) ↦ ground (arith, text_eq_iff s.content_hash b.row.content_hash, base_kept s st b h)
  | inr (x, e) ↦ ground arith
]

module _ ⦃lib : Stdlib⦄ where
  -- One operation for each state, on its stream, which is authorized; none of them loses local data
  -- or outruns the hub.
  abbrev pub AreSafe : (Text → Bool) → Store → List SyncSaveState → List NewSyncOperation → Type 0
  AreSafe authorized st [] [] = Unit
  AreSafe authorized st [] (op ∷ ops) = ⊥
  AreSafe authorized st (raw ∷ raws) [] = ⊥
  AreSafe authorized st (raw ∷ raws) (op ∷ ops) =
      (op.stream_id ≡ trim raw.stream_id)
      × (authorized op.stream_id ≡ true)
      × (loses st (clean_state raw) op ≡ false)
      × (outruns st op ≡ false)
      × AreSafe authorized st raws ops

  plan_saves-AreSafe :
      (authorized : Text → Bool) (st : Store) (seen : List Text) (raws : List SyncSaveState)
      (ops : List NewSyncOperation)
      → plan_saves authorized st seen raws ≡ ok ops
      → AreSafe authorized st raws ops
  unfolding plan_saves
  plan_saves-AreSafe authorized st seen [] [] h = tt
  plan_saves-AreSafe authorized st seen [] (op ∷ ops) h = ground arith
  plan_saves-AreSafe authorized st seen (raw ∷ raws) ops h =
      let s = clean_state raw in
      let h1 =
        (reject_bind_ok (is_empty s.stream_id || member s.stream_id seen) stream_required _ ops
          h).1 in
      let (a, h2) = reject_bind_ok (not (authorized s.stream_id)) not_attested _ ops h1 in
      let h3 =
        (reject_bind_ok (s.has_local_data && not (is_digest (Hex.decode s.content_hash)))
          bad_content_hash _ ops h2).1 in
      let (u, hu, h4) = bind_ok (known_stream (get_save_stream s.stream_id st)) _ ops h3 in
      let (base, hb, h5) = bind_ok (read_base s st) _ ops h4 in
      let (rest, hr, h6) = bind_ok (plan_saves authorized st (s.stream_id ∷ seen) raws) _ ops h5 in
      let op = plan_operation s base (or_none (current_stream_revision s.stream_id st)) in
      let (l, o, i) = plan_operation_lem s base st hb in
      rw (sym (ok_injective (op ∷ rest) ops h6)) (
        i,
        ground (arith, a),
        l,
        o,
        plan_saves-AreSafe authorized st (s.stream_id ∷ seen) raws rest hr,
      )

  -- A plan has one operation for each of at most 4096 save states, in the order of their streams,
  -- on the stream of the state, which the device may use. A download is only planned where there
  -- is no local data or the hub keeps a revision of the stream with the content of that data; an
  -- upload only where the stream has no current revision that can be read or that is its base.
  pub plan-AreSafe :
      (authorized : Text → Bool) (st : Store) (states : List SyncSaveState)
      (ops : List NewSyncOperation)
      → plan authorized st states ≡ ok ops
      → AreSafe authorized st (sort_by (λ a b. text_le a.stream_id b.stream_id) states) ops
        × (length states ≤ 4096)
  unfolding plan
  plan-AreSafe authorized st states ops h =
      let (few, h1) = reject_bind_ok (ltb 4096 (length states)) too_many _ ops h in
      (
        plan_saves-AreSafe authorized st []
            (sort_by (λ a b. text_le a.stream_id b.stream_id) states) ops h1,
        ground arith,
      )
