-- ===== src/Bundler/Snapshot.antt =====
-- What prepareBuildRecovery of internal/bundler/recovery.go has saved, and the roll back with it.
use varkiv.Common.{
  ℕ, Text, codes, Stdlib, ◌≡◌, refl, ap, sym, ◌∙◌, true, false, ◌||◌, text_eq_iff, text_eq_refl,
  member, Option, none, some, List, [], ◌∷◌, ◌++◌, is_empty, all, any, All, ok, ◌⊎◌, inl, inr,
  arith, Bool-cases, Option-cases, bind_ok, reject_bind_ok, ok_injective, subst, length,
}
use varkiv.Common.Maps.{Map, lookup, insert, lookup-insert}
use varkiv.Paths.Slashes.{clean}
use varkiv.Common.Sorting.{sort_texts}
use varkiv.Bundler.Targets.{is_reserved}
use varkiv.Bundler.Files.{
  path_within, reserved_target, validate_managed_target_parents, Node, directory, regular, special,
  Files, join_path, clean_relative, not_independent,
}
use varkiv.Bundler.Model.{Plan, RecoveryEntry, BuildRecovery}
use varkiv.Bundler.Recovery.{
  inspect_node, inspect_target, inspect_targets, write_exclusive, write_absent, snapshot,
  take_snapshot, RecoveryDraws, prepare_build_recovery, restore, read, new_entry, save_entry,
  written_targets,
}
use varkiv.Bundler.Rollback.{
  is_file, build_grows, file_build, saved_file, Build, Saved, has_parents, paths, restored,
}

abbrev existing : ⦃lib : Stdlib⦄ → Text → List ℕ → ℕ → RecoveryEntry
existing ⦃lib⦄ path bytes mode = record (new_entry path) {
  existed = true;
  sha256 = lib.sha256_bytes bytes;
  size = length bytes;
  mode = mode;
}

abbrev Inspected : Files → RecoveryEntry → Type 0
Inspected fs e =
    ((e.existed ≡ false) × (lookup e.path fs ≡ none))
    ⊎ ((e.existed ≡ true) × (bytes : List ℕ) × (lookup e.path fs ≡ some (regular bytes e.mode)))

abbrev Kept : Files → Map (List ℕ) → RecoveryEntry → Type 0
Kept fs files e =
    ((e.existed ≡ false) × (lookup e.path fs ≡ none))
    ⊎ ((e.existed ≡ true)
        × (is_empty e.backup_rel ≡ false)
        × (bytes : List ℕ) × (lookup e.path fs ≡ some (regular bytes e.mode))
        × (lookup e.backup_rel files ≡ some bytes))

-- Every file of the first is in the second.
abbrev Extends : Map (List ℕ) → Map (List ℕ) → Type 0
Extends old new = (k : Text) (v : List ℕ) → lookup k old ≡ some v → lookup k new ≡ some v

module _ ⦃lib : Stdlib⦄ (fs : Files) where
  inspect_node-Inspected :
      (path : Text) (n : Option Node) (e : RecoveryEntry)
      → inspect_node path n ≡ ok e
      → lookup path fs ≡ n
      → Inspected fs e
  unfolding inspect_node
  inspect_node-Inspected path none e h at =
      subst (Inspected fs) (ok_injective (new_entry path) e h) (inl (refl, at))
  inspect_node-Inspected path (some directory) e h at = cc
  inspect_node-Inspected path (some (special b)) e h at = cc
  inspect_node-Inspected path (some (regular b m)) e h at =
      subst (Inspected fs) (ok_injective (existing path b m) e h) (inr (refl, b, at))

  inspect_target-Inspected :
      (portable : Text) (e : RecoveryEntry) → inspect_target fs portable ≡ ok e → Inspected fs e
  unfolding inspect_target
  inspect_target-Inspected portable e h =
      let (path, c, h1) = bind_ok (clean_relative portable) _ e h in
      let (free, h2) = reject_bind_ok (is_reserved path) reserved_target _ e h1 in
      let (u, v, h3) = bind_ok (validate_managed_target_parents fs path) _ e h2 in
      inspect_node-Inspected path (lookup path fs) e h3 refl

  inspect_targets-Inspected :
      (targets : List Text) (es : List RecoveryEntry)
      → inspect_targets fs targets ≡ ok es
      → All (Inspected fs) es
  unfolding inspect_targets
  inspect_targets-Inspected [] es h = subst (All (Inspected fs)) (ok_injective [] es h) tt
  inspect_targets-Inspected (t ∷ ts) es h =
      let (e, h1, h2) = bind_ok (inspect_target fs t) _ es h in
      let (rest, h3, h4) = bind_ok (inspect_targets fs ts) _ es h2 in
      subst (All (Inspected fs)) (ok_injective (e ∷ rest) es h4)
        (inspect_target-Inspected t e h1, inspect_targets-Inspected ts rest h3)

write_exclusive-Extends :
    (k : Text) (o : Option (List ℕ)) (old new : Map (List ℕ))
    → write_exclusive k o old ≡ ok new
    → Extends old new × (b : List ℕ) × (o ≡ some b) × (lookup k new ≡ some b)
unfolding write_exclusive
write_exclusive-Extends k none old new h = cc
write_exclusive-Extends k (some b) old new h = elim (Option-cases (lookup k old)) [
  | inl free ↦
      let e : insert k b old ≡ new =
        ok_injective (insert k b old) new (sym (ap (λ o. write_absent k o b old) free) ∙ h) in
      subst (λ m. Extends old m × (c : List ℕ) × (some b ≡ some c) × (lookup k m ≡ some c)) e
        (
          λ j v at. ground (arith, lookup-insert k j b old, text_eq_iff k j),
          b,
          refl,
          ground (arith, lookup-insert k k b old, text_eq_refl k),
        )
  | inr (v, taken) ↦ ground arith
]

join_path_named : (a b : Text) → is_empty a ≡ false → is_empty (join_path a b) ≡ false
unfolding join_path clean
join_path_named [] b h = cc
join_path_named (c ∷ a) b h = ground arith

All-Kept :
    (fs : Files) (old new : Map (List ℕ)) (e : RecoveryEntry)
    → Extends old new
    → Kept fs old e
    → Kept fs new e
All-Kept fs old new e more (inl k) = inl k
All-Kept fs old new e more (inr (x, n, b, at, saved)) = inr (x, n, b, at, more e.backup_rel b saved)

save_entry-Kept :
    (fs : Files) (e saved : RecoveryEntry) (old new : Map (List ℕ))
    → Inspected fs e
    → save_entry fs e old ≡ ok (saved, new)
    → Kept fs new saved × Extends old new
unfolding save_entry
save_entry-Kept fs e saved old new (inl (n, free)) h =
    let same : (e, old) ≡ (saved, new) = ok_injective (e, old) (saved, new) (sym (rw n refl) ∙ h) in
    subst (λ x. Kept fs x.1 x.0 × Extends old x.1) same (inl (n, free), λ k v at. at)
save_entry-Kept fs e saved old new (inr (x, b, at)) h =
    let backup = join_path (codes "files") e.path in
    let result : RecoveryEntry × Map (List ℕ) = (saved, new) in
    let (written, h1, h2) =
      bind_ok (write_exclusive backup (read (lookup e.path fs)) old)
        (λ w. ok (record e { backup_rel = backup }, w)) result (sym (rw x refl) ∙ h) in
    let same = ok_injective (record e { backup_rel = backup }, written) result h2 in
    let (more, c, o, stored) =
      write_exclusive-Extends backup (read (lookup e.path fs)) old written h1 in
    let content : some b ≡ some c = sym (rw at refl) ∙ o in
    subst (λ x. Kept fs x.1 x.0 × Extends old x.1) same
      (inr (x, join_path_named (codes "files") e.path refl, b, at, stored ∙ sym content), more)

snapshot-Kept :
    (fs : Files) (es saved : List RecoveryEntry) (old new : Map (List ℕ))
    → All (Inspected fs) es
    → snapshot fs es old ≡ ok (saved, new)
    → All (Kept fs new) saved × Extends old new
unfolding snapshot
snapshot-Kept fs [] saved old new hs h =
    let e = ok_injective ([], old) (saved, new) h in
    subst (λ x. All (Kept fs x.1) x.0 × Extends old x.1) e (tt, λ k v at. at)
snapshot-Kept fs (e ∷ es) saved old new (i, is) h =
    let result : List RecoveryEntry × Map (List ℕ) = (saved, new) in
    let ((one, written), h1, h2) = bind_ok (save_entry fs e old) _ result h in
    let ((rest, all), h3, h4) = bind_ok (snapshot fs es written) _ result h2 in
    let (kept, more) = save_entry-Kept fs e one old written i h1 in
    let (keeps, mores) = snapshot-Kept fs es rest written all is h3 in
    subst (λ x. All (Kept fs x.1) x.0 × Extends old x.1) (ok_injective (one ∷ rest, all) result h4)
      ((All-Kept fs written all one mores kept, keeps), λ k v at. mores k v (more k v at))

Kept-Saved :
    (r : BuildRecovery) (fs : Files) (files : Map (List ℕ)) (es : List RecoveryEntry)
    → is_empty r.root ≡ false
    → Extends files r.files
    → All (Kept fs files) es
    → All (Saved r fs) es
Kept-Saved r fs files [] named more h = tt
Kept-Saved r fs files (e ∷ es) named more (inl k, ks) =
    (inl k, Kept-Saved r fs files es named more ks)
Kept-Saved r fs files (e ∷ es) named more (inr (x, n, b, at, saved), ks) = (
  inr (x, ground arith, b, at, more e.backup_rel b saved),
  Kept-Saved r fs files es named more ks,
)

-- Without an existing target there is nothing to save.
new-Saved :
    (r : BuildRecovery) (fs : Files) (es : List RecoveryEntry)
    → any (λ e. e.existed) es ≡ false
    → All (Inspected fs) es
    → All (Saved r fs) es
new-Saved r fs [] h is = tt
new-Saved r fs (e ∷ es) h (inl k, is) = (inl k, new-Saved r fs es (ground arith) is)
new-Saved r fs (e ∷ es) h (inr (x, b, at), is) = ground arith

is_empty-below : (base name : Text) → is_empty (base ++ b'/' ∷ name) ≡ false
is_empty-below [] name = refl
is_empty-below (c ∷ base) name = refl

take_snapshot-Saved :
    (d : RecoveryDraws) (locator : Text) (fs : Files) (es : List RecoveryEntry) (r : BuildRecovery)
    → All (Inspected fs) es
    → take_snapshot d locator fs es ≡ ok r
    → All (Saved r fs) r.entries
unfolding take_snapshot
take_snapshot-Saved d locator fs es r is h =
    let (base, h1, h2) = bind_ok d.base _ r h in
    let ((saved, files), h3, h4) = bind_ok (snapshot fs es []) _ r h2 in
    let (all, h5, h6) =
      bind_ok (write_exclusive (codes "snapshot.json") (some (d.describe saved)) files) _ r h4 in
    let (more, c, o, at) =
      write_exclusive-Extends (codes "snapshot.json") (some (d.describe saved)) files all h5 in
    let (kept, new) = snapshot-Kept fs es saved [] files is h3 in
    let made : BuildRecovery = record {
      root = base ++ b'/' ∷ d.name;
      relative = join_path locator d.name;
      entries = saved;
      files = all;
    } in
    subst (λ r. All (Saved r fs) r.entries) (ok_injective made r h6)
      (Kept-Saved made fs files saved (is_empty-below base d.name) more kept)

members :
    (es : List RecoveryEntry) (targets : List Text)
    → ((q : Text) → member q (paths es) ≡ true → member q targets ≡ true)
    → all (λ e. member e.path targets) es ≡ true
members [] targets h = refl
members (e ∷ es) targets h =
    let here = h e.path (ground (arith, text_eq_refl e.path)) in
    let rest = members es targets (λ q m. h q (ground (arith, m))) in ground (arith, here, rest)

saved_files :
    (r : BuildRecovery) (fs after : Files) (targets : List Text) (es : List RecoveryEntry)
    → Build targets fs after
    → All (Saved r fs) es
    → all (λ e. member e.path targets) es ≡ true
    → all (λ e. is_file (lookup e.path after)) es ≡ true
saved_files r fs after targets [] build ss h = refl
saved_files r fs after targets (e ∷ es) build (s, ss) h =
    let here = file_build targets fs after build e.path (ground arith) (saved_file r fs e s) in
    let rest = saved_files r fs after targets es build ss (ground arith) in
    ground (arith, here, rest)

module _ ⦃lib : Stdlib⦄ where
  prepare-Saved :
      (out base locator : Text) (d : RecoveryDraws) (fs : Files) (plan : Plan) (r : BuildRecovery)
      → prepare_build_recovery out base locator d fs plan ≡ ok r
      → All (Saved r fs) r.entries
  unfolding prepare_build_recovery
  prepare-Saved out base locator d fs plan r h =
      let (u, h1) =
        reject_bind_ok
          (path_within (clean out) (clean base) || path_within (clean base) (clean out))
          not_independent _ r h in
      let (place, h2, h3) = bind_ok (clean_relative locator) _ r h1 in
      let (es, h4, h5) =
        bind_ok (inspect_targets fs (sort_texts (written_targets plan.items))) _ r h3 in
      let is = inspect_targets-Inspected fs (sort_texts (written_targets plan.items)) es h4 in
      elim (Bool-cases (any (λ e. e.existed) es)) [
        | inl some_existed ↦
            take_snapshot-Saved d place fs es r is (sym (rw some_existed refl) ∙ h5)
        | inr none_existed ↦
            let made : BuildRecovery = record {
              root = [];
              relative = [];
              entries = es;
              files = [];
            } in
            subst (λ r. All (Saved r fs) r.entries)
              (ok_injective made r (sym (rw none_existed refl) ∙ h5))
              (new-Saved made fs es none_existed is)
      ]

  -- A build that stops after any of its steps, each of which writes a planned target or makes a
  -- directory, is rolled back without an error: every target is again what it was when the recovery
  -- was prepared, and elsewhere at most directories are left that did not exist. Above each target
  -- there were only directories or nothing, only directories if it existed, and no other target.
  pub restore_undoes :
      (out base locator : Text) (d : RecoveryDraws) (fs after : Files) (plan : Plan)
      (r : BuildRecovery) (p : Text)
      → prepare_build_recovery out base locator d fs plan ≡ ok r
      → all (has_parents fs (paths r.entries)) r.entries ≡ true
      → Build (paths r.entries) fs after
      → ((restore r after).1 ≡ [])
        × ((lookup p (restore r after).0 ≡ lookup p fs)
            ⊎ ((member p (paths r.entries) ≡ false)
                × (lookup p fs ≡ none)
                × (lookup p (restore r after).0 ≡ some directory)))
  unfolding restore
  restore_undoes out base locator d fs after plan r p h parents build =
      let ss = prepare-Saved out base locator d fs plan r h in
      let inside = members r.entries (paths r.entries) (λ q m. m) in
      let grown = build_grows (paths r.entries) fs after build in
      let (no_errors, at) =
        restored r fs (paths r.entries) r.entries after parents ss inside grown
          (saved_files r fs after (paths r.entries) r.entries build ss inside) in
      (
        no_errors,
        elim (Bool-cases (member p (paths r.entries))) [
          | inl m ↦ inl (at p ∙ rw m refl)
          | inr m ↦ elim (grown p m) [
            | inl e ↦ inl (at p ∙ rw m e)
            | inr (n, e) ↦ inr (m, n, at p ∙ rw m e)
          ]
        ],
      )
