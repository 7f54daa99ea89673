-- ===== src/Agent/Agreement.antt =====
-- The hub on the files that the agent has found.
use varkiv.Common.{
  ℕ, ◌+◌, ◌-◌, ◌≤◌, ℤ, pos, Text, Stdlib, ◌≡◌, refl, sym, ap, ◌∙◌, subst, Bool, false, ◌||◌, ◌=ᵗ◌,
  ltb, leb, member, Option, none, some, List, [], ◌∷◌, ◌++◌, map, is_empty, any, length, ok,
  if◌then◌else◌, arith, Bool-cases, inl, inr, bind_ok, reject_bind_ok, ok_injective, format_int,
  Result-cases,
}
use varkiv.Common.Sorting.{text_le, insert_by, sort_by}
use varkiv.Paths.SaveLogical.{clean_save_logical, max_save_revision_bytes, max_save_revision_files}
use varkiv.Paths.Again.{clean_save_logical_again}
use varkiv.Saves.Model.{IncomingFile, NewSaveFile}
use varkiv.Saves.Revisions.{revision_content_hash, hashed_fields, clean_save_logical_path}
use varkiv.Saves.Blobs.{Staged, stage, copy_incoming_save}
use varkiv.Agent.Model.{LocalFile, LocalSet, duplicate_path, over_limit}
use varkiv.Agent.LocalSets.{
  hashed_files, by_path, content_hash, portable_logical_path, append_file, add_local_file,
  add_local_files, enumerate_binding,
}

-- The same path, checksum and size.
-- A staged file has the path, the digest and the size of the local one.
abbrev pub IsSame : NewSaveFile → LocalFile → Type 0
IsSame n f = (n.logical_path ≡ f.logical_path) × (n.checksum ≡ f.checksum) × (n.size ≡ pos f.size)

abbrev pub AllSame : List NewSaveFile → List LocalFile → Type 0
AllSame [] [] = Unit
AllSame [] (f ∷ fs) = ⊥
AllSame (n ∷ ns) [] = ⊥
AllSame (n ∷ ns) (f ∷ fs) = IsSame n f × AllSame ns fs

abbrev by_new_path : NewSaveFile → NewSaveFile → Bool
by_new_path a b = text_le a.logical_path b.logical_path

hashed_same :
    (ns : List NewSaveFile) (fs : List LocalFile)
    → AllSame ns fs
    → hashed_fields ns ≡ hashed_files fs
unfolding hashed_fields hashed_files
hashed_same [] [] h = refl
hashed_same [] (f ∷ fs) h = absurd h
hashed_same (n ∷ ns) [] h = absurd h
hashed_same (n ∷ ns) (f ∷ fs) ((p, c, s), h) =
    rw (p, c, s)
      (ap (λ t. f.logical_path ++ 0 ∷ f.checksum ++ 0 ∷ format_int (pos f.size) ++ 0 ∷ t)
        (hashed_same ns fs h))

insert_same :
    (n : NewSaveFile) (f : LocalFile) (ns : List NewSaveFile) (fs : List LocalFile)
    → IsSame n f
    → AllSame ns fs
    → AllSame (insert_by by_new_path n ns) (insert_by by_path f fs)
unfolding insert_by
insert_same n f [] [] s h = (s, tt)
insert_same n f [] (g ∷ fs) s h = absurd h
insert_same n f (m ∷ ns) [] s h = absurd h
insert_same n f (m ∷ ns) (g ∷ fs) s (t, h) =
    let order : by_new_path n m ≡ by_path f g = rw (s.0, t.0) refl in
    elim (Bool-cases (by_path f g)) [
      | inl e ↦ rw (order, e) (s, (t, h))
      | inr e ↦ rw (order, e) (t, insert_same n f ns fs s h)
    ]

sort_same :
    (ns : List NewSaveFile) (fs : List LocalFile)
    → AllSame ns fs
    → AllSame (sort_by by_new_path ns) (sort_by by_path fs)
unfolding sort_by
sort_same [] [] h = tt
sort_same [] (f ∷ fs) h = absurd h
sort_same (n ∷ ns) [] h = absurd h
sort_same (n ∷ ns) (f ∷ fs) (s, h) =
    insert_same n f (sort_by by_new_path ns) (sort_by by_path fs) s (sort_same ns fs h)

module _ ⦃lib : Stdlib⦄ where
  hash_same :
      (ns : List NewSaveFile) (fs : List LocalFile)
      → AllSame ns fs
      → revision_content_hash ns ≡ content_hash fs
  unfolding revision_content_hash content_hash
  hash_same ns fs h =
      ap lib.sha256 (hashed_same (sort_by by_new_path ns) (sort_by by_path fs) (sort_same ns fs h))

  -- Files that the hub takes, after these paths and this many bytes.
  abbrev Takes : List Text → ℕ → List LocalFile → Type 0
  Takes seen total [] = Unit
  Takes seen total (f ∷ fs) =
      (clean_save_logical f.logical_path ≡ ok f.logical_path)
      × (member f.logical_path seen ≡ false)
      × (bytes : List ℕ) × (f.content ≡ some bytes)
      × (f.checksum ≡ lib.sha256_bytes bytes)
      × (f.size ≡ length bytes)
      × (total + length bytes ≤ max_save_revision_bytes)
      × Takes (f.logical_path ∷ seen) (total + length bytes) fs

  abbrev sum : List LocalFile → ℕ
  sum [] = 0
  sum (f ∷ fs) = f.size + sum fs

  -- The files of the agent as the hub reads them from the request.
  abbrev pub incoming : (LocalFile → ℤ) → LocalFile → IncomingFile
  incoming times f = record {
    logical_path = f.logical_path;
    reader = f.content;
    mtime_ns = times f;
    mode = pos f.mode;
  }

  abbrev staged_file : LocalFile → List ℕ → ℤ → Staged
  staged_file f bytes time = record {
    file = record {
      id = [];
      logical_path = f.logical_path;
      checksum = lib.sha256_bytes bytes;
      size = pos (length bytes);
      blob_path = [];
      mtime_ns = time;
      mode = pos f.mode;
    };
    content = bytes;
  }

  copies : (n : ℕ) (bytes : List ℕ) → length bytes ≤ n → copy_incoming_save n bytes ≡ ok bytes
  unfolding copy_incoming_save
  copies n bytes h = ground (arith, h)

  safe_path : (p : Text) → clean_save_logical p ≡ ok p → clean_save_logical_path p ≡ ok p
  unfolding clean_save_logical_path
  safe_path p h = rw h refl

  staged_lem :
      (times : LocalFile → ℤ) (seen : List Text) (total : ℕ) (fs : List LocalFile)
      → Takes seen total fs
      → (staged : List Staged) × (stage seen total (map (incoming times) fs) ≡ ok staged)
        × AllSame (map (λ s. s.file) staged) fs
  unfolding stage
  staged_lem times seen total [] h = ([], refl, tt)
  staged_lem times seen total (f ∷ fs) (clean, fresh, bytes, content, checksum, size, fits, h) =
      let (rest, e, same) = staged_lem times (f.logical_path ∷ seen) (total + length bytes) fs h in
      let first = staged_file f bytes (times f) in
      let copied : copy_incoming_save (max_save_revision_bytes - total) bytes ≡ ok bytes =
        copies (max_save_revision_bytes - total) bytes (omega (arith, fits)) in
      let path : clean_save_logical_path f.logical_path ≡ ok f.logical_path =
        safe_path f.logical_path clean in
      (
        first ∷ rest,
        rw (path, fresh, content, copied, e) refl,
        ((refl, sym checksum, ap pos (sym size)), same),
      )

  appended_Takes :
      (seen : List Text) (total : ℕ) (fs : List LocalFile) (f : LocalFile) (bytes : List ℕ)
      → Takes seen total fs
      → clean_save_logical f.logical_path ≡ ok f.logical_path
      → member f.logical_path seen ≡ false
      → any (λ g. g.logical_path =ᵗ f.logical_path) fs ≡ false
      → f.content ≡ some bytes
      → f.checksum ≡ lib.sha256_bytes bytes
      → f.size ≡ length bytes
      → total + sum fs + length bytes ≤ max_save_revision_bytes
      → Takes seen total (fs ++ f ∷ [])
  appended_Takes seen total [] f bytes h clean fresh other content checksum size fits =
      (clean, fresh, bytes, content, checksum, size, omega (arith, fits), tt)
  appended_Takes seen total (g ∷ fs) f bytes (gc, gf, gb, gn, gs, gz, gt, h) clean fresh other
        content checksum size fits =
      (
        gc,
        gf,
        gb,
        gn,
        gs,
        gz,
        gt,
        appended_Takes (g.logical_path ∷ seen) (total + length gb) fs f bytes h clean
            (ground (arith, fresh, other)) (ground (arith, other)) content checksum size
            (omega (arith, fits, gz)),
      )

  -- A set whose files the hub takes, with the total of their sizes.
  abbrev IsUploadable : LocalSet → Type 0
  IsUploadable set = Takes [] 0 set.files × (set.total_size ≡ sum set.files)

  sum-append : (fs : List LocalFile) (f : LocalFile) → sum (fs ++ f ∷ []) ≡ sum fs + f.size
  sum-append [] f = omega arith
  sum-append (g ∷ fs) f = omega (arith, sum-append fs f)

  abbrev found_file : Text → ℕ → List ℕ → LocalFile
  found_file logical mode bytes = record {
    logical_path = logical;
    checksum = lib.sha256_bytes bytes;
    size = length bytes;
    mode = mode;
    content = some bytes;
  }

  fits_total :
      (total sizes more : ℕ) (many : Bool)
      → total ≡ sizes
      → (ltb max_save_revision_bytes (total + more) || many) ≡ false
      → 0 + sizes + more ≤ max_save_revision_bytes
  fits_total total sizes more many e h = ground (arith, e)

  portable_clean :
      (value logical : Text)
      → portable_logical_path value ≡ ok logical
      → clean_save_logical value ≡ ok logical
  unfolding portable_logical_path
  portable_clean value logical h = elim (Result-cases (clean_save_logical value)) [
    | inl (p, e) ↦ e ∙ ap ok (ok_injective p logical (sym (rw e refl) ∙ h))
    | inr (x, e) ↦ ground (arith, e, h)
  ]

  append_file-IsUploadable :
      (logical : Text) (mode : ℕ) (bytes : Option (List ℕ)) (set next : LocalSet)
      → clean_save_logical logical ≡ ok logical
      → any (λ g. g.logical_path =ᵗ logical) set.files ≡ false
      → append_file logical mode bytes set ≡ ok next
      → IsUploadable set
      → IsUploadable next
  unfolding append_file
  append_file-IsUploadable logical mode none set next clean other h u = cc
  append_file-IsUploadable logical mode (some bytes) set next clean other h (takes, total) =
      let (fits, h1) =
        reject_bind_ok
          (ltb max_save_revision_bytes (set.total_size + length bytes)
            || leb max_save_revision_files (length set.files))
          over_limit _ next h in
      let f = found_file logical mode bytes in
      let made : LocalSet = record set {
        files = set.files ++ f ∷ [];
        total_size = set.total_size + length bytes;
      } in
      subst IsUploadable (ok_injective made next h1) (
        appended_Takes [] 0 set.files f bytes takes clean refl other refl refl refl (
            fits_total set.total_size (sum set.files) (length bytes)
              (leb max_save_revision_files (length set.files)) total fits),
        omega (arith, total, sum-append set.files f),
      )

  add_local_file-IsUploadable :
      (value : Text) (mode : ℕ) (bytes : Option (List ℕ)) (set next : LocalSet)
      → add_local_file value mode bytes set ≡ ok next
      → IsUploadable set
      → IsUploadable next
  unfolding add_local_file
  add_local_file-IsUploadable value mode bytes set next h u =
      let (logical, e, h1) = bind_ok (portable_logical_path value) _ next h in
      let (other, h2) =
        reject_bind_ok (any (λ f. f.logical_path =ᵗ logical) set.files) duplicate_path _ next h1 in
      append_file-IsUploadable logical mode bytes set next
        (clean_save_logical_again value logical (portable_clean value logical e)) other h2 u

  add_local_files-IsUploadable :
      (found : List (Text × ℕ × Option (List ℕ))) (set next : LocalSet)
      → add_local_files found set ≡ ok next
      → IsUploadable set
      → IsUploadable next
  unfolding add_local_files
  add_local_files-IsUploadable [] set next h u = subst IsUploadable (ok_injective set next h) u
  add_local_files-IsUploadable ((value, mode, bytes) ∷ found) set next h u =
      let (one, e, h1) = bind_ok (add_local_file value mode bytes set) _ next h in
      add_local_files-IsUploadable found one next h1
        (add_local_file-IsUploadable value mode bytes set one e u)

  -- What the agent has found for a binding, of which at least one file: the hub, which cleans the
  -- paths, measures and hashes the contents again, stages without a refusal one file for each, with
  -- the same path, digest and size, and its hash of the revision is the one that the agent has
  -- computed.
  pub stage-enumerate_binding :
      (paths : List Text) (found : List (Text × ℕ × Option (List ℕ))) (times : LocalFile → ℤ)
      (set : LocalSet)
      → enumerate_binding paths found ≡ ok set
      → is_empty set.files ≡ false
      → (staged : List Staged) × (stage [] 0 (map (incoming times) set.files) ≡ ok staged)
        × (revision_content_hash (map (λ s. s.file) staged) ≡ set.content_hash)
        × AllSame (map (λ s. s.file) staged) set.files
  unfolding enumerate_binding
  stage-enumerate_binding paths found times set h some_file =
      let start : LocalSet = record {
        rendered_paths = paths;
        files = [];
        content_hash = [];
        total_size = 0;
      } in
      let (filled, e, h1) = bind_ok (add_local_files found start) _ set h in
      let made : LocalSet = record filled {
        content_hash = if is_empty filled.files then [] else content_hash filled.files;
      } in
      let same : made ≡ set = ok_injective made set h1 in
      let (takes, total) = add_local_files-IsUploadable found start filled e (tt, refl) in
      let (staged, f, all_same) = staged_lem times [] 0 filled.files takes in
      let some_filled : is_empty filled.files ≡ false =
        ap (λ s. is_empty s.files) same ∙ some_file in
      subst
        (λ s.
          (staged : List Staged) × (stage [] 0 (map (incoming times) s.files) ≡ ok staged)
          × (revision_content_hash (map (λ x. x.file) staged) ≡ s.content_hash)
          × AllSame (map (λ x. x.file) staged) s.files)
        same
        (
          staged,
          f,
          rw some_filled (hash_same (map (λ x. x.file) staged) filled.files all_same),
          all_same,
        )
