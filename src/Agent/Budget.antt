-- ===== src/Agent/Budget.antt =====
-- What a verified download is.
use varkiv.Common.{
  ℕ, ◌+◌, ◌-◌, ◌≤◌, ℤ, pos, negsuc, Text, Stdlib, ◌≡◌, refl, sym, ap, ◌∙◌, subst, Bool, true, false,
  not, ◌&&◌, ◌||◌, ◌=ᵗ◌, text_eq_iff, ltb, ◌==◌, Option, none, some, List, [], ◌∷◌, any, length,
  Result, ok, err, if◌then◌else◌, arith, Bool-cases, inl, inr, bind_ok, reject_bind_ok,
  ok_injective,
}
use varkiv.Paths.SaveLogical.{max_save_revision_bytes, max_save_revision_files}
use varkiv.Agent.Model.{
  LocalFile, LocalSet, AgentError, exists, over_limit, other_revision, not_verified,
  one_root_required,
}
use varkiv.Agent.LocalSets.{content_hash, portable_logical_path}
use varkiv.Agent.Download.{
  DownloadedFile, DownloadedRevision, remaining_save_download_budget, protocol_path_segment,
  receive, received, download_files, check_target, download_revision, declares_more,
}

abbrev pub total_size : List LocalFile → ℕ
total_size [] = 0
total_size (f ∷ fs) = f.size + total_size fs

-- No path occurs twice, and none of these occurs.
abbrev pub has_fresh_paths : List LocalFile → List LocalFile → Bool
has_fresh_paths done [] = true
has_fresh_paths done (f ∷ fs) =
    not (any (λ g. g.logical_path =ᵗ f.logical_path) done) && has_fresh_paths (f ∷ done) fs

budget_lem :
    (total : ℕ) (declared : ℤ) (count remaining : ℕ)
    → remaining_save_download_budget (pos total) declared (pos count) ≡ ok remaining
    → (remaining ≡ max_save_revision_bytes - total)
      × (total ≤ max_save_revision_bytes)
      × (count ≤ max_save_revision_files)
unfolding remaining_save_download_budget
budget_lem total declared count remaining h =
    let (few, h1) =
      reject_bind_ok (ltb max_save_revision_files count || ltb max_save_revision_bytes total)
        over_limit _ remaining h in
    let (more, h2) =
      reject_bind_ok (declares_more declared (max_save_revision_bytes - total)) over_limit _
        remaining h1 in
    (sym (ok_injective (max_save_revision_bytes - total) remaining h2), ground arith, ground arith)

module _ ⦃lib : Stdlib⦄ where
  receive_lem :
      (logical : Text) (mode remaining : ℕ) (body : Option (List ℕ)) (f : LocalFile)
      → receive logical mode remaining body ≡ ok f
      → (f.logical_path ≡ logical) × (f.size ≤ remaining)
  unfolding receive
  receive_lem logical mode remaining none f h = cc
  receive_lem logical mode remaining (some bytes) f h =
      elim (Bool-cases (ltb remaining (length bytes))) [
        | inl e ↦ ground arith
        | inr e ↦
            let same = ok_injective (received logical mode bytes) f (sym (rw e refl) ∙ h) in
            (
              sym (ap (λ g. g.logical_path) same),
              subst (λ g. g.size ≤ remaining) same (ground arith),
            )
      ]

  download_files_lem :
      (count total : ℕ) (done : List LocalFile) (ds : List DownloadedFile) (fs : List LocalFile)
      → download_files count total done ds ≡ ok fs
      → total ≤ max_save_revision_bytes
      → (total + total_size fs ≤ max_save_revision_bytes)
        × (length fs ≡ length ds)
        × (has_fresh_paths done fs ≡ true)
  unfolding download_files
  download_files_lem count total done [] fs h le =
      subst
        (λ x.
          (total + total_size x ≤ max_save_revision_bytes)
          × (length x ≡ 0)
          × (has_fresh_paths done x ≡ true))
        (ok_injective [] fs h) (omega (arith, le), refl, refl)
  download_files_lem count total done (d ∷ ds) fs h le =
      let (i, e1, h1) = bind_ok (protocol_path_segment d.id) _ fs h in
      let (logical, e2, h2) = bind_ok (portable_logical_path d.logical_path) _ fs h1 in
      let (remaining, e3, h3) =
        bind_ok (remaining_save_download_budget (pos total) d.content_length (pos count)) _ fs h2 in
      let (fresh, h4) = reject_bind_ok (any (λ f. f.logical_path =ᵗ logical) done) exists _ fs h3 in
      let (f, e5, h5) = bind_ok (receive logical d.mode remaining d.body) _ fs h4 in
      let (rest, e6, h6) = bind_ok (download_files count (total + f.size) (f ∷ done) ds) _ fs h5 in
      let (left, below, few) = budget_lem total d.content_length count remaining e3 in
      let (named, fits) = receive_lem logical d.mode remaining d.body f e5 in
      let (size, number, paths) =
        download_files_lem count (total + f.size) (f ∷ done) ds rest e6
          (omega (arith, left, below, fits)) in
      let new : any (λ g. g.logical_path =ᵗ f.logical_path) done ≡ false =
        subst (λ l. any (λ g. g.logical_path =ᵗ l) done ≡ false) (sym named) fresh in
      subst
        (λ x.
          (total + total_size x ≤ max_save_revision_bytes)
          × (length x ≡ length (d ∷ ds))
          × (has_fresh_paths done x ≡ true))
        (ok_injective (f ∷ rest) fs h6) (omega (arith, size), omega (arith, number), rw new paths)

  check_target_lem :
      (set : LocalSet) (now : Option (Result AgentError Text)) (there : Bool)
      → check_target set now ≡ ok there
      → now ≡ (if there then some (ok set.content_hash) else none)
  unfolding check_target
  check_target_lem set none true h = cc
  check_target_lem set none false h = refl
  check_target_lem set (some (err e)) there h = ground arith
  check_target_lem set (some (ok hash)) true h =
      ap (λ t. some (ok t)) ((text_eq_iff hash set.content_hash).0 (ground arith))
  check_target_lem set (some (ok hash)) false h = ground arith

  -- A download that is let through has all the files of the revision, at most 4096 of at most
  -- 240 MiB in all, under different paths, with the content hash that the operation expects; and it
  -- replaces a target only where the files there have the hash of those that were negotiated.
  pub download_revision_lem :
      (target_revision_id expected_hash : Text) (set : LocalSet)
      (now : Option (Result AgentError Text)) (revision : DownloadedRevision)
      (files : List LocalFile) (target_exists : Bool)
      → download_revision target_revision_id expected_hash set now revision
        ≡ ok (files, target_exists)
      → (total_size files ≤ max_save_revision_bytes)
        × (length files ≡ length revision.files)
        × (length files ≤ max_save_revision_files)
        × (has_fresh_paths [] files ≡ true)
        × (content_hash files ≡ expected_hash)
        × (now ≡ (if target_exists then some (ok set.content_hash) else none))
  unfolding download_revision
  download_revision_lem target expected set now revision files target_exists h =
      let result : List LocalFile × Bool = (files, target_exists) in
      let (wanted, e1, h1) = bind_ok (protocol_path_segment target) _ result h in
      let (same, h2) = reject_bind_ok (not (revision.id =ᵗ wanted)) other_revision _ result h1 in
      let (all_left, e2, h3) =
        bind_ok (remaining_save_download_budget (pos 0) (negsuc 0) (pos (length revision.files))) _
          result h2 in
      let (fs, e3, h4) =
        bind_ok (download_files (length revision.files) 0 [] revision.files) _ result h3 in
      let (verified, h5) =
        reject_bind_ok
          (not (content_hash fs =ᵗ revision.content_hash) || not (content_hash fs =ᵗ expected))
          not_verified _ result h4 in
      let (one, h6) =
        reject_bind_ok (not (length set.rendered_paths == 1)) one_root_required _ result h5 in
      let (there, e4, h7) = bind_ok (check_target set now) _ result h6 in
      let (size, number, paths) =
        download_files_lem (length revision.files) 0 [] revision.files fs e3 (omega arith) in
      let (left, below, few) = budget_lem 0 (negsuc 0) (length revision.files) all_left e2 in
      let hash = (text_eq_iff (content_hash fs) expected).0 (ground arith) in
      subst
        (λ x.
          (total_size x.0 ≤ max_save_revision_bytes)
          × (length x.0 ≡ length revision.files)
          × (length x.0 ≤ max_save_revision_files)
          × (has_fresh_paths [] x.0 ≡ true)
          × (content_hash x.0 ≡ expected)
          × (now ≡ (if x.1 then some (ok set.content_hash) else none)))
        (ok_injective (fs, there) result h7)
        (
          omega (arith, size),
          number,
          omega (arith, number, few),
          paths,
          hash,
          check_target_lem set now there e4,
        )
