-- ===== src/Saves/Bounds.antt =====
-- The files of a revision that AddSaveRevision accepts: their paths, their sizes and their number.
use varkiv.Common.{
  sym, subst, ok_injective, ◌=ᵗ◌, ◌&&◌, ℕ, suc, ◌≡◌, refl, ◌∙◌, ap, ◌≤◌, ◌+◌, ℤ, pos, negsuc,
  is_negative, is_empty, trim, Text, Stdlib, false, ◌||◌, List, [], ◌∷◌, member, any, All, map,
  Result, ok, err, arith, length, bind_ok, reject_bind_ok, Result-cases, ◌>>=◌, inl, inr,
}
use varkiv.Paths.SaveLogical.{max_save_revision_bytes, max_save_revision_files, clean_save_logical}
use varkiv.Paths.Portable.{clean_save_logical_iff, IsPortable}
use varkiv.Paths.Again.{clean_save_logical_again}
use varkiv.Saves.Model.{
  Store, NewSaveFile, NewSaveRevision, Draws, duplicate_path, bad_file, constraint, SaveFile,
  SaveError, RevisionRow,
}
use varkiv.Saves.Revisions.{
  new_row, clean_files, with_path, revision_files, add_save_revision_size, clean_save_logical_path,
  save_transaction, insert_files,
}
use varkiv.Saves.Cases.{saved, Saved-revisions, superseded, Saved-files}
use varkiv.Saves.Currency.{saved_row}

-- The rows of files, each on top of the one before it.
abbrev pub on_top : Text → List NewSaveFile → List SaveFile → List SaveFile
on_top revision [] rows = rows
on_top revision (f ∷ fs) rows = on_top revision fs (
    record {
      id = f.id;
      revision_id = revision;
      logical_path = f.logical_path;
      checksum = f.checksum;
      size = f.size;
      blob_path = f.blob_path;
      mtime_ns = f.mtime_ns;
      mode = f.mode;
    }
    ∷ rows)

insert_files_lem :
    (revision : Text) (files : List NewSaveFile) (rows all : List SaveFile)
    → insert_files revision files rows ≡ ok all
    → all ≡ on_top revision files rows
unfolding insert_files
insert_files_lem revision [] rows all h = sym (ok_injective rows all h)
insert_files_lem revision (f ∷ fs) rows all h =
    insert_files_lem revision fs _ all
      (reject_bind_ok
        (any
          (λ r.
            (r.id =ᵗ f.id) || ((r.revision_id =ᵗ revision) && (r.logical_path =ᵗ f.logical_path)))
          rows)
        constraint _ all h).1

-- A file as it was given, but for its path and the identifier drawn for it.
abbrev pub content : NewSaveFile → Text × ℤ × Text × ℤ × ℤ
content f = (f.checksum, f.size, f.blob_path, f.mtime_ns, f.mode)

abbrev size_of : ℤ → ℕ
size_of (pos n) = n
size_of (negsuc n) = 0

abbrev pub bytes : List NewSaveFile → ℕ
bytes [] = 0
bytes (f ∷ fs) = size_of f.size + bytes fs

abbrev pub paths : List NewSaveFile → List Text
paths = map (λ f. f.logical_path)

-- No path twice, and none of `seen`.
abbrev pub Distinct : List Text → List Text → Type 0
Distinct seen [] = Unit
Distinct seen (p ∷ ps) = (member p seen ≡ false) × Distinct (p ∷ seen) ps

size_lem :
    (t : ℕ) (size next : ℤ)
    → add_save_revision_size (pos t) size ≡ ok next
    → (next ≡ pos (t + size_of size)) × (t + size_of size ≤ max_save_revision_bytes)
unfolding add_save_revision_size
size_lem t (pos n) next h = ground arith
size_lem t (negsuc n) next h = cc

last :
    (f : NewSaveFile) (m : Result SaveError (List NewSaveFile × ℤ)) (files : List NewSaveFile)
    (sum : ℤ)
    → ◌>>=◌ {B = List NewSaveFile × ℤ} m (λ r. ok (f ∷ r.0, r.1)) ≡ ok (files, sum)
    → (rest : List NewSaveFile) × (m ≡ ok (rest, sum)) × (files ≡ f ∷ rest)
last f (ok (rest, all)) files sum h = (rest, ground arith, ground arith)
last f (err e) files sum h = cc

module _ ⦃lib : Stdlib⦄ where
  record Taking (d : Draws) (index : ℕ) (seen : List Text) (total sum : ℤ) (f : NewSaveFile)
      (fs files : List NewSaveFile) : Type 0 where
    path : Text
    next : ℤ
    rest : List NewSaveFile
    cleaned : clean_save_logical_path f.logical_path ≡ ok path
    fresh : member path seen ≡ false
    added : add_save_revision_size total f.size ≡ ok next
    more : clean_files d (suc index) (path ∷ seen) next fs ≡ ok (rest, sum)
    shape : files ≡ with_path path (d.file_id index) f ∷ rest

  taken :
      (d : Draws) (index : ℕ) (seen : List Text) (total sum : ℤ) (f : NewSaveFile)
      (fs files : List NewSaveFile)
      → clean_files d index seen total (f ∷ fs) ≡ ok (files, sum)
      → Taking d index seen total sum f fs files
  unfolding clean_files
  taken d index seen total sum f fs files h =
      let (path, hp, h1) = bind_ok (clean_save_logical_path f.logical_path) _ (files, sum) h in
      let (fresh, h2) = reject_bind_ok (member path seen) duplicate_path _ (files, sum) h1 in
      let h3 =
        (reject_bind_ok
          (is_empty (trim f.checksum) || is_empty (trim f.blob_path) || is_negative f.size) bad_file
          _ (files, sum) h2).1 in
      let (next, hn, h4) = bind_ok (add_save_revision_size total f.size) _ (files, sum) h3 in
      let (rest, more, shape) =
        last (with_path path (d.file_id index) f) (clean_files d (suc index) (path ∷ seen) next fs)
          files sum h4 in
      record {
        path = path;
        next = next;
        rest = rest;
        cleaned = hp;
        fresh = fresh;
        added = hn;
        more = more;
        shape = shape;
      }

  -- A path that was accepted is portable as it stands.
  safe_path : (v p : Text) → clean_save_logical_path v ≡ ok p → IsPortable p
  unfolding clean_save_logical_path
  safe_path v p h = elim (Result-cases (clean_save_logical v)) [
    | inl (q, e) ↦
        let same : q ≡ p = ground arith in
        subst IsPortable same ((clean_save_logical_iff q q).0 (clean_save_logical_again v q e)).0
    | inr (x, e) ↦ ground arith
  ]

  -- What holds of the files that were accepted after `t` bytes and the paths `seen`.
  record IsTidy (t : ℕ) (seen : List Text) (sum : ℤ) (fs files : List NewSaveFile) : Type 0 where
    total : sum ≡ pos (t + bytes files)
    bounded : t + bytes files ≤ max_save_revision_bytes
    distinct : Distinct seen (paths files)
    safe : All IsPortable (paths files)
    cleans : map (λ f. clean_save_logical_path f.logical_path) fs ≡ map ok (paths files)
    same : map content files ≡ map content fs
    same_length : length files ≡ length fs

  clean_files-IsTidy :
      (d : Draws) (index : ℕ) (seen : List Text) (t : ℕ) (sum : ℤ) (fs files : List NewSaveFile)
      → t ≤ max_save_revision_bytes
      → clean_files d index seen (pos t) fs ≡ ok (files, sum)
      → IsTidy t seen sum fs files
  unfolding clean_files
  clean_files-IsTidy d index seen t sum [] files b h = ground arith
  clean_files-IsTidy d index seen t sum (f ∷ fs) files b h =
      let s = taken d index seen (pos t) sum f fs files h in
      let (e, c) = size_lem t f.size s.next s.added in
      let r =
        clean_files-IsTidy d (suc index) (s.path ∷ seen) (t + size_of f.size) sum fs s.rest c
          (ground (arith, s.more)) in
      rw s.shape (record {
        total = ground (arith, r.total);
        bounded = ground (arith, r.bounded);
        distinct = (s.fresh, r.distinct);
        safe = (safe_path f.logical_path s.path s.cleaned, r.safe);
        cleans = rw (s.cleaned, r.cleans) refl;
        same = rw r.same refl;
        same_length = ap suc r.same_length;
      })

  -- A revision within the limits, with the rows of its files.
  pub record IsWithin (i : NewSaveRevision) (before after : Store) : Type 0 where
    pub row : RevisionRow
    pub files : List NewSaveFile
    pub added : after.revisions ≡ row ∷ superseded row before.revisions
    pub stored : after.files ≡ on_top row.id files before.files
    pub total : row.total_size ≡ pos (bytes files)
    pub bounded : bytes files ≤ max_save_revision_bytes
    pub count : row.file_count ≡ length files
    pub few : length files ≤ max_save_revision_files
    pub distinct : Distinct [] (paths files)
    pub safe : All IsPortable (paths files)
    pub cleans :
        map (λ f. clean_save_logical_path f.logical_path) (revision_files i) ≡ map ok (paths files)
    pub same : map content files ≡ map content (revision_files i)

  -- A committed transaction adds one revision of at most 4096 files and 240 MiB in all, and puts a
  -- row for each of its files on top of those that were there, with the digest, size and blob that
  -- were given and the path that CleanSaveLogical makes of the one given. The paths are different,
  -- not empty, without white space at their ends, at most 1024 bytes long and without a part that is
  -- refused; the row of the revision records the number and the total size of the files.
  pub save_transaction-IsWithin :
      (d : Draws) (i : NewSaveRevision) (st new : Store)
      → save_transaction d i st ≡ ok new
      → IsWithin i st new
  save_transaction-IsWithin d i st new h =
      let w = saved d i st new h in
      let t =
        clean_files-IsTidy d 0 [] 0 w.total (revision_files i) w.files (omega arith) w.cleaned in
      record {
        row = saved_row d i st new w;
        files = w.files;
        added = Saved-revisions w;
        stored = insert_files_lem _ w.files st.files new.files (Saved-files w);
        total = unfold new_row in t.total ∙ ap pos (omega arith);
        bounded = omega (arith, t.bounded);
        count = unfold new_row in refl;
        few = ground (arith, t.same_length, w.few);
        distinct = t.distinct;
        safe = t.safe;
        cleans = t.cleans;
        same = t.same;
      }
