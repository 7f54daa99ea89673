-- ===== src/Agent/Recoverable.antt =====
-- Whatever call fails, an installation loses no save.
use varkiv.Common.{
  Text, Stdlib, ◌≡◌, refl, sym, ap, ◌∙◌, subst, Bool, true, false, not, ◌&&◌, ◌==◌, ◌=ᵗ◌,
  text_eq_iff, some, List, length, Result, ok, err, ◌⊎◌, inl, inr, if◌then◌else◌, arith, Bool-cases,
  Option-cases, Result-cases, ok_injective, text_eq_refl,
}
use varkiv.Common.Maps.{lookup, insert, delete, lookup-insert, lookup-delete}
use varkiv.Agent.Model.{
  LocalFile, AgentError, stage_failed, install_failed, restore_failed, not_verified, backup_failed,
  single_file,
}
use varkiv.Agent.Install.{
  Tree, Disk, Faults, Places, create, install_directory, copy_file, may_move, rename, remove_all,
  Outcome, on_disk, verify_installed_save, replace_directory, place_staged, stage_and_place,
  back_up, install_downloaded_save,
}

-- No two of the paths are the same.
abbrev pub are_apart : Places → Bool
are_apart p =
    not (p.target =ᵗ p.backup)
    && not (p.target =ᵗ p.staged)
    && not (p.target =ᵗ p.previous)
    && not (p.backup =ᵗ p.staged)
    && not (p.backup =ᵗ p.previous)
    && not (p.staged =ᵗ p.previous)

rename_lem :
    (fails : Bool) (source target : Text) (disk after : Disk)
    → rename fails source target disk ≡ ok after
    → (tree : Tree) × (lookup source disk ≡ some tree)
      × (after ≡ insert target tree (delete source disk))
unfolding rename
rename_lem true source target disk after h = cc
rename_lem false source target disk after h = elim (Option-cases (lookup source disk)) [
  | inl e ↦ ground arith
  | inr (tree, e) ↦ elim (Bool-cases (may_move tree (lookup target disk))) [
    | inl m ↦ (
      tree,
      e,
      sym (ok_injective (insert target tree (delete source disk)) after (sym (rw (e, m) refl) ∙ h)),
    )
    | inr m ↦ ground arith
  ]
]

-- What an exclusive creation leaves elsewhere.
create_lem :
    (path : Text) (new : Result AgentError Tree) (disk after : Disk)
    → create path (lookup path disk) new disk ≡ ok after
    → (tree : Tree) × (after ≡ insert path tree disk)
create_lem path new disk after h = elim (Option-cases (lookup path disk)) [
  | inr (old, e) ↦ ground arith
  | inl e ↦ elim (Result-cases new) [
    | inl (tree, n) ↦
        (tree, sym (ok_injective (insert path tree disk) after (sym (rw (e, n) refl) ∙ h)))
    | inr (x, n) ↦ ground arith
  ]
]

-- What stands where a tree was moved to, and at a path that is neither of the two.
moved_here :
    (source target : Text) (tree : Tree) (disk after : Disk)
    → after ≡ insert target tree (delete source disk)
    → lookup target after ≡ some tree
moved_here source target tree disk after h =
    ap (lookup target) h
    ∙ lookup-insert target target tree (delete source disk)
    ∙ rw (text_eq_refl target) refl

moved_else :
    (source target path : Text) (tree : Tree) (disk after : Disk)
    → after ≡ insert target tree (delete source disk)
    → (target =ᵗ path) ≡ false
    → (source =ᵗ path) ≡ false
    → lookup path after ≡ lookup path disk
moved_else source target path tree disk after h a b =
    ap (lookup path) h
    ∙ ground (
      arith,
      lookup-insert target path tree (delete source disk),
      lookup-delete source path disk,
      a,
      b,
    )

created :
    (path other : Text) (tree : Tree) (disk after : Disk)
    → after ≡ insert path tree disk
    → (path =ᵗ other) ≡ false
    → lookup other after ≡ lookup other disk
created path other tree disk after h a =
    ap (lookup other) h ∙ lookup-insert path other tree disk ∙ rw a refl

if_true : {A : Type 0} (b : Bool) (x y : A) → b ≡ true → (if b then x else y) ≡ x
if_true b x y h = rw h refl

if_false : {A : Type 0} (b : Bool) (x y : A) → b ≡ false → (if b then x else y) ≡ y
if_false b x y h = rw h refl

text_ne_sym : (s t : Text) → (s =ᵗ t) ≡ false → (t =ᵗ s) ≡ false
text_ne_sym s t h = ground (arith, h, text_eq_iff s t, text_eq_iff t s)

install_directory_lem :
    (fails : Bool) (path : Text) (files : List LocalFile) (disk after : Disk)
    → install_directory fails path files disk ≡ ok after
    → (tree : Tree) × (after ≡ insert path tree disk)
unfolding install_directory
install_directory_lem true path files disk after h = cc
install_directory_lem false path files disk after h = create_lem path _ disk after h

copy_file_lem :
    (fails : Bool) (path : Text) (files : List LocalFile) (disk after : Disk)
    → copy_file fails path files disk ≡ ok after
    → (tree : Tree) × (after ≡ insert path tree disk)
unfolding copy_file
copy_file_lem true path files disk after h = cc
copy_file_lem false path files disk after h = create_lem path _ disk after h

copy_lem :
    (one fails : Bool) (path : Text) (files : List LocalFile) (disk after : Disk)
    → (if one then copy_file else install_directory) fails path files disk ≡ ok after
    → (tree : Tree) × (after ≡ insert path tree disk)
copy_lem true fails path files disk after h = copy_file_lem fails path files disk after h
copy_lem false fails path files disk after h = install_directory_lem fails path files disk after h

module _ ⦃lib : Stdlib⦄ (f : Faults) (p : Places) (one : Bool) (current downloaded : List LocalFile)
    (t : Tree) (apart : are_apart p ≡ true) where
  abbrev pub IsBacked : Disk → Type 0
  IsBacked disk = verify_installed_save false (lookup p.backup disk) current ≡ ok tt

  -- After a run: the new save is in place and the old one backed up, or after an error the old one
  -- is in place, or where the run left it, and backed up.
  abbrev pub IsSafe : Outcome → Type 0
  IsSafe (disk, r) =
      ((r ≡ ok tt)
        × (verify_installed_save one (lookup p.target disk) downloaded ≡ ok tt)
        × IsBacked disk)
      ⊎ ((e : AgentError) × (r ≡ err e)
          × ((lookup p.target disk ≡ some t) ⊎ ((lookup p.previous disk ≡ some t) × IsBacked disk)))

  -- What a change elsewhere leaves.
  IsSafe-elsewhere :
      (disk after : Disk) (r : Result AgentError Unit)
      → lookup p.target after ≡ lookup p.target disk
      → lookup p.backup after ≡ lookup p.backup disk
      → lookup p.previous after ≡ lookup p.previous disk
      → IsSafe (disk, r)
      → IsSafe (after, r)
  IsSafe-elsewhere disk after r a b c (inl (e, new, old)) = inl (e, rw a new, rw b old)
  IsSafe-elsewhere disk after r a b c (inr (x, e, inl old)) = inr (x, e, inl (a ∙ old))
  IsSafe-elsewhere disk after r a b c (inr (x, e, inr (old, backed))) =
      inr (x, e, inr (c ∙ old, rw b backed))

  -- Before the placing: the old save is at the target and backed up, the new one verified.
  abbrev IsReady : Disk → Type 0
  IsReady disk =
      (lookup p.target disk ≡ some t)
      × IsBacked disk
      × (verify_installed_save one (lookup p.staged disk) downloaded ≡ ok tt)

  place_one_lem :
      (disk : Disk)
      → IsReady disk
      → IsSafe
          (on_disk install_failed (rename f.move_in p.staged p.target disk) disk (λ d. (d, ok tt)))
  place_one_lem disk (old, backed, new) =
      elim (Result-cases (rename f.move_in p.staged p.target disk)) [
        | inr (x, e) ↦ rw e (inr (install_failed, refl, inl old))
        | inl (after, e) ↦
            let (tree, from, made) = rename_lem f.move_in p.staged p.target disk after e in
            let at_target = moved_here p.staged p.target tree disk after made in
            let at_backup =
              moved_else p.staged p.target p.backup tree disk after made (ground arith)
                (ground (arith, text_eq_iff p.staged p.backup, text_eq_iff p.backup p.staged)) in
            rw e (inl (refl, rw at_target (rw from at new), rw at_backup backed))
      ]

  removed :
      (fails : Bool) (path other : Text) (disk : Disk)
      → (path =ᵗ other) ≡ false
      → lookup other (remove_all fails path disk) ≡ lookup other disk
  unfolding remove_all
  removed true path other disk h = refl
  removed false path other disk h = lookup-delete path other disk ∙ rw h refl

  -- The old directory stands aside.
  move_in_lem :
      (aside : Disk)
      → lookup p.previous aside ≡ some t
      → IsBacked aside
      → verify_installed_save one (lookup p.staged aside) downloaded ≡ ok tt
      → IsSafe (elim (rename f.move_in p.staged p.target aside) [
        | ok placed ↦ (remove_all f.remove_previous p.previous placed, ok tt)
        | err e ↦
            on_disk restore_failed
              (rename f.move_back p.previous p.target aside)
              aside
              (λ back. (back, err install_failed))
      ])
  move_in_lem aside kept backed new =
      elim (Result-cases (rename f.move_in p.staged p.target aside)) [
        | inl (placed, e) ↦
            let (tree, from, made) = rename_lem f.move_in p.staged p.target aside placed e in
            let at_target = moved_here p.staged p.target tree aside placed made in
            let at_backup =
              moved_else p.staged p.target p.backup tree aside placed made (ground arith)
                (text_ne_sym p.backup p.staged (ground arith)) in
            let target_stays =
              removed f.remove_previous p.previous p.target placed
                (text_ne_sym p.target p.previous (ground arith)) in
            let backup_stays =
              removed f.remove_previous p.previous p.backup placed
                (text_ne_sym p.backup p.previous (ground arith)) in
            rw e (
              inl (
                refl,
                rw (target_stays, at_target) (rw from at new),
                rw (backup_stays, at_backup) backed,
              ))
        | inr (x, e) ↦ elim (Result-cases (rename f.move_back p.previous p.target aside)) [
          | inr (y, b) ↦ rw (e, b) (inr (restore_failed, refl, inr (kept, backed)))
          | inl (back, b) ↦
              let (tree, from, made) = rename_lem f.move_back p.previous p.target aside back b in
              rw (e, b)
                (inr (
                  install_failed,
                  refl,
                  inl (moved_here p.previous p.target tree aside back made ∙ sym from ∙ kept),
                ))
        ]
      ]

  replace_directory_lem :
      (disk : Disk) → IsReady disk → IsSafe (replace_directory f p one current downloaded disk)
  unfolding replace_directory
  replace_directory_lem disk (old, backed, new) = elim (Bool-cases f.draw_previous) [
    | inl d ↦ rw d (inr (install_failed, refl, inl old))
    | inr d ↦ elim (Result-cases (rename f.move_aside p.target p.previous disk)) [
      | inr (x, e) ↦ rw (d, e) (inr (install_failed, refl, inl old))
      | inl (aside, e) ↦
          let (tree, from, made) = rename_lem f.move_aside p.target p.previous disk aside e in
          let kept : lookup p.previous aside ≡ some t =
            moved_here p.target p.previous tree disk aside made ∙ sym from ∙ old in
          let at_backup : lookup p.backup aside ≡ lookup p.backup disk =
            moved_else p.target p.previous p.backup tree disk aside made
              (text_ne_sym p.backup p.previous (ground arith)) (ground arith) in
          let at_staged : lookup p.staged aside ≡ lookup p.staged disk =
            moved_else p.target p.previous p.staged tree disk aside made
              (text_ne_sym p.staged p.previous (ground arith)) (ground arith) in
          rw (d, e) (move_in_lem aside kept (rw at_backup backed) (rw at_staged new))
    ]
  ]

  place_staged_lem :
      (disk : Disk) → IsReady disk → IsSafe (place_staged f p one current downloaded true disk)
  unfolding place_staged
  place_staged_lem disk ready = elim (Bool-cases one) [
    | inl e ↦ subst IsSafe (sym (if_true one _ _ e)) (place_one_lem disk ready)
    | inr e ↦ subst IsSafe (sym (if_false one _ _ e)) (replace_directory_lem disk ready)
  ]

  -- The staging directory is removed, whatever came of the placing.
  unstaged : (o : Outcome) → IsSafe o → IsSafe (remove_all f.remove_stage p.staged o.0, o.1)
  unstaged (disk, r) safe =
      IsSafe-elsewhere disk (remove_all f.remove_stage p.staged disk) r
        (removed f.remove_stage p.staged p.target disk
          (text_ne_sym p.target p.staged (ground arith)))
        (removed f.remove_stage p.staged p.backup disk
          (text_ne_sym p.backup p.staged (ground arith)))
        (removed f.remove_stage p.staged p.previous disk (ground arith)) safe

  stage_and_place_lem :
      (disk : Disk)
      → lookup p.target disk ≡ some t
      → IsBacked disk
      → IsSafe (stage_and_place f p one current downloaded true disk)
  unfolding stage_and_place
  stage_and_place_lem disk old backed = elim (Bool-cases f.prepare_stage) [
    | inl s ↦ rw s (inr (stage_failed, refl, inl old))
    | inr s ↦
        elim (Result-cases (
          (if one then copy_file else install_directory) f.copy_payload p.staged downloaded disk)) [
            | inr (x, c) ↦ rw (s, c) (inr (stage_failed, refl, inl old))
            | inl (staged, c) ↦
                let (tree, made) = copy_lem one f.copy_payload p.staged downloaded disk staged c in
                let old_staged : lookup p.target staged ≡ some t =
                  created p.staged p.target tree disk staged made
                    (text_ne_sym p.target p.staged (ground arith))
                  ∙ old in
                let backup_staged : lookup p.backup staged ≡ lookup p.backup disk =
                  created p.staged p.backup tree disk staged made
                    (text_ne_sym p.backup p.staged (ground arith)) in
                elim (Result-cases
                  (verify_installed_save one (lookup p.staged staged) downloaded)) [
                    | inr (x, v) ↦
                        rw (s, c, v)
                          (unstaged (staged, err not_verified)
                            (inr (not_verified, refl, inl old_staged)))
                    | inl (tt, v) ↦
                        rw (s, c, v)
                          (unstaged (place_staged f p one current downloaded true staged)
                            (place_staged_lem staged (old_staged, rw backup_staged backed, v)))
                  ]
          ]
  ]

  unfoldable pub KeepsSave : Outcome → Type 0
  KeepsSave o = IsSafe o

  -- If something stands at the target, an installation that succeeds has put the new save there,
  -- verified, and a verified copy of the old files in the backup. If it fails, whichever call
  -- failed, the old save is still at the target, or it stands at the path where the directory was
  -- moved aside and the backup is verified. The paths that the run draws are different.
  pub install_downloaded_save_lem :
      (disk : Disk)
      → lookup p.target disk ≡ some t
      → KeepsSave (install_downloaded_save f p one current downloaded true disk)
  unfolding KeepsSave install_downloaded_save back_up
  install_downloaded_save_lem disk old = elim (Bool-cases (one && not (length downloaded == 1))) [
    | inl m ↦ rw m (inr (single_file, refl, inl old))
    | inr m ↦ elim (Bool-cases f.prepare_backup) [
      | inl b ↦ rw (m, b) (inr (backup_failed, refl, inl old))
      | inr b ↦ elim (Result-cases (install_directory f.copy_backup p.backup current disk)) [
        | inr (x, c) ↦ rw (m, b, c) (inr (backup_failed, refl, inl old))
        | inl (copied, c) ↦
            let (tree, made) = install_directory_lem f.copy_backup p.backup current disk copied c in
            let old_copied : lookup p.target copied ≡ some t =
              created p.backup p.target tree disk copied made
                (text_ne_sym p.target p.backup (ground arith))
              ∙ old in
            elim (Result-cases (verify_installed_save false (lookup p.backup copied) current)) [
              | inr (x, v) ↦ rw (m, b, c, v) (inr (backup_failed, refl, inl old_copied))
              | inl (tt, v) ↦ rw (m, b, c, v) (stage_and_place_lem copied old_copied v)
            ]
      ]
    ]
  ]
