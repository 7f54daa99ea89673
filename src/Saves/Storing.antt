-- ===== src/Saves/Storing.antt =====
-- What a push does to the blobs that files are stored in.
use varkiv.Common.{
  ℕ, ◌+◌, ◌-◌, Text, Stdlib, ◌≡◌, refl, sym, ap, ◌∙◌, subst, Bool, true, false, ◌=ᵗ◌, text_eq_refl,
  text_eq_iff, Option, none, some, List, [], ◌∷◌, all, length, member, Result, ok, err, arith, inl,
  inr, Bool-cases, Option-cases, Result-cases, bind_ok, reject_bind_ok, ok_injective, or_fail,
  ◌>>=◌, ◌>>◌,
}
use varkiv.Common.Maps.{Map, lookup, lookup-insert}
use varkiv.Paths.SaveLogical.{max_save_revision_bytes}
use varkiv.Saves.Model.{
  Draws, Store, SaveError, NewSaveFile, IncomingFile, PushSetInput, Repository, duplicate_path,
  no_reader,
}
use varkiv.Saves.Revisions.{clean_save_logical_path}
use varkiv.Saves.Blobs.{
  Bytes, Staged, blob_path, is_intact, store_blobs, stage, copy_incoming_save, keep_blob, verify,
  with_blob,
}
use varkiv.Saves.Push.{
  push_set, perform, negotiate, record_revision, with_defaults, Pending, Decision, found, add,
}

none_not_some : {A B : Type 0} (a : A) (o : Option A) → o ≡ none → o ≡ some a → B
none_not_some a o e h = cc

failed_not_ok :
    {A B : Type 0} {E : Type 0} (e : E) (a : A) → (let r : Result E A = err e in r) ≡ ok a → B
failed_not_ok e a h = cc

module _ ⦃lib : Stdlib⦄ where
  keep_blob_keeps :
      (path p : Text) (s : Staged) (c : Bytes) (blobs : Map Bytes)
      → lookup p blobs ≡ some c
      → lookup p (keep_blob path s (lookup path blobs) blobs) ≡ some c
  keep_blob_keeps path p s c blobs h = elim (Option-cases (lookup path blobs)) [
    | inr (old, e) ↦ rw e h
    | inl e ↦ elim (Bool-cases (path =ᵗ p)) [
      | inl q ↦
          none_not_some c (lookup path blobs) e
            (ap (λ x. lookup x blobs) ((text_eq_iff path p).0 q) ∙ h)
      | inr q ↦ rw e (lookup-insert path p s.content blobs ∙ rw q h)
    ]
  ]

  -- The test of a staged file against what is stored.
  abbrev checked_blob : Text → Staged → Map Bytes → Result SaveError Text
  checked_blob root s blobs =
      blob_path root s.file.checksum >>= λ path. verify s.file (lookup path blobs) >> ok path

  stored_one :
      (root path : Text) (s : Staged) (ss : List Staged) (blobs : Map Bytes)
      → checked_blob root s blobs ≡ ok path
      → (let (after, rest) = store_blobs root ss (keep_blob path s (lookup path blobs) blobs) in
          store_blobs root (s ∷ ss) blobs
          ≡ (after, rest >>= λ files. ok (with_blob path s.file ∷ files)))
  unfolding store_blobs blob_path
  stored_one root path s ss blobs e = rw (e, store_blobs) refl

  stored_none :
      (root : Text) (x : SaveError) (s : Staged) (ss : List Staged) (blobs : Map Bytes)
      → checked_blob root s blobs ≡ err x
      → store_blobs root (s ∷ ss) blobs ≡ (blobs, err x)
  unfolding store_blobs blob_path
  stored_none root x s ss blobs e = rw (e, store_blobs) refl

  store_blobs_keeps :
      (root p : Text) (c : Bytes) (ss : List Staged) (blobs : Map Bytes)
      → lookup p blobs ≡ some c
      → lookup p (store_blobs root ss blobs).0 ≡ some c
  store_blobs_keeps root p c [] blobs h = unfold store_blobs in h
  store_blobs_keeps root p c (s ∷ ss) blobs h = elim (Result-cases (checked_blob root s blobs)) [
    | inr (x, e) ↦ ap (λ r. lookup p r.0) (stored_none root x s ss blobs e) ∙ h
    | inl (path, e) ↦
        ap (λ r. lookup p r.0) (stored_one root path s ss blobs e)
        ∙ store_blobs_keeps root p c ss (keep_blob path s (lookup path blobs) blobs)
            (keep_blob_keeps path p s c blobs h)
  ]

  abbrev is_stored : NewSaveFile → Option Bytes → Bool
  is_stored f none = false
  is_stored f (some content) = is_intact f content

  -- A file is stored when the blob that it names has its size and digest.
  abbrev pub has_blob : Map Bytes → NewSaveFile → Bool
  has_blob blobs f = is_stored f (lookup f.blob_path blobs)

  -- What was staged is what its checksum says.
  stage_intact :
      (seen : List Text) (total : ℕ) (fs : List IncomingFile) (staged : List Staged)
      → stage seen total fs ≡ ok staged
      → all (λ s. is_intact s.file s.content) staged ≡ true
  unfolding stage is_intact
  stage_intact seen total [] staged h =
      ap (all (λ s. is_intact s.file s.content)) (sym (ok_injective [] staged h))
  stage_intact seen total (f ∷ fs) staged h =
      let (path, _, h1) = bind_ok (clean_save_logical_path f.logical_path) _ staged h in
      let (_, h2) = reject_bind_ok (member path seen) duplicate_path _ staged h1 in
      let (reader, _, h3) = bind_ok (or_fail f.reader no_reader) _ staged h2 in
      let (content, _, h4) =
        bind_ok (copy_incoming_save (max_save_revision_bytes - total) reader) _ staged h3 in
      let (rest, e, h5) = bind_ok (stage (path ∷ seen) (total + length content) fs) _ staged h4 in
      ap (all (λ s. is_intact s.file s.content)) (sym (ok_injective _ staged h5))
      ∙ (ground (
        arith,
        stage_intact (path ∷ seen) (total + length content) fs rest e,
        text_eq_refl (lib.sha256_bytes content),
      ))

  -- The blob of one file after the step for it.
  keep_blob_stores :
      (path : Text) (s : Staged) (blobs : Map Bytes)
      → is_intact s.file s.content ≡ true
      → verify s.file (lookup path blobs) ≡ ok tt
      → (c : Bytes) × (lookup path (keep_blob path s (lookup path blobs) blobs) ≡ some c)
        × (is_intact s.file c ≡ true)
  keep_blob_stores path s blobs fits h = elim (Option-cases (lookup path blobs)) [
    | inl e ↦
        rw e
          (s.content, lookup-insert path path s.content blobs ∙ rw (text_eq_refl path) refl, fits)
    | inr (old, e) ↦ (old, rw e e, ground (arith, subst (λ o. verify s.file o ≡ ok tt) e h))
  ]

  checked_blob_lem :
      (root path : Text) (s : Staged) (blobs : Map Bytes)
      → checked_blob root s blobs ≡ ok path
      → verify s.file (lookup path blobs) ≡ ok tt
  checked_blob_lem root path s blobs h =
      let (q, _, h1) = bind_ok (blob_path root s.file.checksum) _ path h in
      let (_, v, h2) = bind_ok (verify s.file (lookup q blobs)) _ path h1 in
      subst (λ x. verify s.file (lookup x blobs) ≡ ok tt) (ok_injective q path h2) v

  is_intact-with_blob :
      (path : Text) (f : NewSaveFile) (c : Bytes) → is_intact (with_blob path f) c ≡ is_intact f c
  unfolding is_intact
  is_intact-with_blob path f c = refl

  store_blobs_stores :
      (root : Text) (ss : List Staged) (blobs : Map Bytes) (files : List NewSaveFile)
      → all (λ s. is_intact s.file s.content) ss ≡ true
      → (store_blobs root ss blobs).1 ≡ ok files
      → all (has_blob (store_blobs root ss blobs).0) files ≡ true
  store_blobs_stores root [] blobs files fits h =
      unfold store_blobs in ap (all (has_blob blobs)) (sym (ok_injective [] files h))
  store_blobs_stores root (s ∷ ss) blobs files fits h =
      elim (Result-cases (checked_blob root s blobs)) [
        | inr (x, e) ↦
            failed_not_ok x files (sym (ap (λ r. r.1) (stored_none root x s ss blobs e)) ∙ h)
        | inl (path, e) ↦
            let kept = keep_blob path s (lookup path blobs) blobs in
            let step = stored_one root path s ss blobs e in
            let (rest, r, h1) =
              bind_ok (store_blobs root ss kept).1 _ files (sym (ap (λ r. r.1) step) ∙ h) in
            let (c, there, same) =
              keep_blob_stores path s blobs (ground arith) (checked_blob_lem root path s blobs e) in
            let later = store_blobs_keeps root path c ss kept there in
            let others = store_blobs_stores root ss kept rest (ground arith) r in
            ap (λ r. all (has_blob r.0) files) step
            ∙ ap (all (has_blob (store_blobs root ss kept).0))
                (sym (ok_injective (with_blob path s.file ∷ rest) files h1))
            ∙ rw later (ground (arith, same, others, is_intact-with_blob path s.file c))
      ]

  add_revision_keeps :
      (d : Draws) (i : PushSetInput) (stream hash : Text) (conflict : Bool) (st : Store)
      (blobs : Map Bytes) (files : List NewSaveFile)
      → (record_revision d i stream hash conflict st (blobs, ok files)).0.blobs ≡ blobs
  unfolding record_revision
  add_revision_keeps d i stream hash conflict st blobs files = refl

  record_revision_keeps :
      (d : Draws) (i : PushSetInput) (stream hash : Text) (conflict : Bool) (st : Store)
      (stored : Map Bytes × Result SaveError (List NewSaveFile))
      → (record_revision d i stream hash conflict st stored).0.blobs ≡ stored.0
  record_revision_keeps d i stream hash conflict st (blobs, ok files) =
      add_revision_keeps d i stream hash conflict st blobs files
  record_revision_keeps d i stream hash conflict st (blobs, err e) = unfold record_revision in refl

  perform_keeps :
      (root path : Text) (d : Draws) (i : PushSetInput) (r : Repository) (p : Pending)
      (decision : Decision) (c : Bytes)
      → lookup path r.blobs ≡ some c
      → lookup path (perform root d i r p decision).0.blobs ≡ some c
  unfolding perform
  perform_keeps root path d i r p (found revision) c h = h
  perform_keeps root path d i r p (add conflict) c h =
      ap (lookup path)
        (record_revision_keeps d i _ p.hash conflict r.store (store_blobs root p.staged r.blobs))
      ∙ store_blobs_keeps root path c p.staged r.blobs h

  -- Whatever is pushed, and whether it is recorded, refused or fails on the way, a blob that is
  -- stored keeps its content.
  pub push_set_keeps_blobs :
      (root path : Text) (d : Draws) (i : PushSetInput) (r : Repository) (c : Bytes)
      → lookup path r.blobs ≡ some c
      → lookup path (push_set root d i r).0.blobs ≡ some c
  unfolding push_set
  push_set_keeps_blobs root path d i r c h =
      elim (Result-cases (negotiate root (with_defaults i) r)) [
        | inl (p, e) ↦ rw e (perform_keeps root path d (with_defaults i) r p p.decision c h)
        | inr (x, e) ↦ rw e h
      ]

  -- If files are staged and storing them succeeds, whatever blobs there were before, then each file
  -- names a blob that is there afterwards, with the size and the digest recorded for the file.
  pub staged_files_stored :
      (root : Text) (incoming : List IncomingFile) (staged : List Staged) (blobs : Map Bytes)
      (files : List NewSaveFile)
      → stage [] 0 incoming ≡ ok staged
      → (store_blobs root staged blobs).1 ≡ ok files
      → all (has_blob (store_blobs root staged blobs).0) files ≡ true
  staged_files_stored root incoming staged blobs files taken stored =
      store_blobs_stores root staged blobs files (stage_intact [] 0 incoming staged taken) stored
