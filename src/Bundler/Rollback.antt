-- ===== src/Bundler/Rollback.antt =====
-- What restore of internal/bundler/recovery.go gives back after a build that failed.
use varkiv.Common.{
  ℕ, Text, ◌≡◌, refl, ap, sym, ◌∙◌, Bool, true, false, not, ◌&&◌, ◌||◌, ◌=ᵗ◌, text_eq_iff, member,
  Option, none, some, List, [], ◌∷◌, map, is_empty, all, All, ok, ◌⊎◌, inl, inr, if◌then◌else◌,
  arith, Bool-cases, Option-cases,
}
use varkiv.Common.Maps.{lookup, insert, delete, lookup-insert, lookup-delete}
use varkiv.Bundler.Files.{
  Node, directory, regular, special, Files, is_directory, above, validate_parents,
  validate_managed_target_parents,
}
use varkiv.Bundler.Model.{RecoveryEntry, BuildRecovery}
use varkiv.Bundler.Recovery.{
  has_directory, copy_atomic, remove_new, restore_entry, restore_entries, collect,
}

-- What a build does to its output: it replaces targets by files, through a rename, which leaves a
-- directory as it is, and makes directories where there is nothing and no target.
pub data Build (targets : List Text) : Files → Files → Type 0 where
  done : (fs : Files) → Build targets fs fs
  write_file :
      (p : Text) (bytes : List ℕ) (mode : ℕ) (fs after : Files)
      → member p targets ≡ true
      → is_directory (lookup p fs) ≡ false
      → Build targets (insert p (regular bytes mode) fs) after
      → Build targets fs after
  make_directory :
      (p : Text) (fs after : Files)
      → member p targets ≡ false
      → lookup p fs ≡ none
      → Build targets (insert p directory fs) after
      → Build targets fs after

abbrev pub is_file : Option Node → Bool
is_file none = true
is_file (some directory) = false
is_file (some (regular bytes mode)) = true
is_file (some (special bytes)) = false

abbrev is_open : Option Node → Bool
is_open none = true
is_open (some directory) = true
is_open (some (regular bytes mode)) = false
is_open (some (special bytes)) = false

abbrev pub paths : List RecoveryEntry → List Text
paths = map (λ e. e.path)

-- Above an entry there are only directories and what does not exist, only directories if it exists
-- itself, and no other entry.
abbrev pub has_parents : Files → List Text → RecoveryEntry → Bool
has_parents fs targets e =
    all (λ q. is_open (lookup q fs)) (above e.path)
    && (not e.existed || all (λ q. is_directory (lookup q fs)) (above e.path))
    && all (λ q. not (member q targets)) (above e.path)

-- A node before and after a build, where there is no target.
abbrev pub Grown : Option Node → Option Node → Type 0
Grown before after = (after ≡ before) ⊎ ((before ≡ none) × (after ≡ some directory))

-- What the recovery knows of the files before the build.
abbrev pub Saved : BuildRecovery → Files → RecoveryEntry → Type 0
Saved r fs e =
    ((e.existed ≡ false) × (lookup e.path fs ≡ none))
    ⊎ ((e.existed ≡ true)
        × ((is_empty r.root || is_empty e.backup_rel) ≡ false)
        × (bytes : List ℕ) × (lookup e.path fs ≡ some (regular bytes e.mode))
        × (lookup e.backup_rel r.files ≡ some bytes))

pub build_grows :
    (targets : List Text) (fs after : Files)
    → Build targets fs after
    → (q : Text) → member q targets ≡ false
    → Grown (lookup q fs) (lookup q after)
build_grows targets _ _ (done fs) q h = inl refl
build_grows targets _ _ (write_file p bytes mode fs after m d b) q h =
    elim (build_grows targets (insert p (regular bytes mode) fs) after b q h) [
      | inl e ↦ inl (e ∙ ground (arith, lookup-insert p q (regular bytes mode) fs, text_eq_iff p q))
      | inr (n, e) ↦
          inr (ground (arith, lookup-insert p q (regular bytes mode) fs, text_eq_iff p q), e)
    ]
build_grows targets _ _ (make_directory p fs after m d b) q h =
    elim (build_grows targets (insert p directory fs) after b q h) [
      | inl e ↦ elim (Bool-cases (p =ᵗ q)) [
        | inl s ↦ inr (
          ap (λ x. lookup x fs) (sym ((text_eq_iff p q).0 s)) ∙ d,
          e ∙ ground (arith, lookup-insert p q directory fs),
        )
        | inr s ↦ inl (e ∙ ground (arith, lookup-insert p q directory fs))
      ]
      | inr (n, e) ↦ inr (ground (arith, lookup-insert p q directory fs), e)
    ]

pub file_build :
    (targets : List Text) (fs after : Files)
    → Build targets fs after
    → (q : Text) → member q targets ≡ true
    → is_file (lookup q fs) ≡ true
    → is_file (lookup q after) ≡ true
file_build targets _ _ (done fs) q h f = f
file_build targets _ _ (write_file p bytes mode fs after m d b) q h f =
    file_build targets (insert p (regular bytes mode) fs) after b q h
      (ground (arith, lookup-insert p q (regular bytes mode) fs))
file_build targets _ _ (make_directory p fs after m d b) q h f =
    file_build targets (insert p directory fs) after b q h
      (ground (arith, lookup-insert p q directory fs, text_eq_iff p q))

file_plain : (n : Option Node) → is_file n ≡ true → is_directory n ≡ false
file_plain none h = refl
file_plain (some directory) h = ground arith
file_plain (some (regular bytes mode)) h = refl
file_plain (some (special bytes)) h = refl

validate_open :
    (g : Files) (ps : List Text)
    → all (λ q. is_open (lookup q g)) ps ≡ true
    → validate_parents g ps ≡ ok tt
unfolding validate_parents
validate_open g [] h = refl
validate_open g (p ∷ ps) h = elim (Option-cases (lookup p g)) [
  | inl e ↦ rw e refl
  | inr (directory, e) ↦ rw e (validate_open g ps (ground arith))
  | inr (regular bytes mode, e) ↦ ground arith
  | inr (special bytes, e) ↦ ground arith
]

all_directories :
    (g : Files) (ps : List Text)
    → all (λ q. is_directory (lookup q g)) ps ≡ true
    → has_directory g ps ≡ true
unfolding has_directory
all_directories g [] h = refl
all_directories g (p ∷ []) h = ground arith
all_directories g (p ∷ q ∷ ps) h = all_directories g (q ∷ ps) (ground arith)

-- A test that growing keeps holds above an entry after a build as before it.
above_grows :
    (fs g : Files) (targets ps : List Text) (test : Option Node → Bool)
    → test (some directory) ≡ true
    → ((q : Text) → member q targets ≡ false → Grown (lookup q fs) (lookup q g))
    → all (λ q. not (member q targets)) ps ≡ true
    → all (λ q. test (lookup q fs)) ps ≡ true
    → all (λ q. test (lookup q g)) ps ≡ true
above_grows fs g targets [] test d grown free h = refl
above_grows fs g targets (p ∷ ps) test d grown free h =
    let rest = above_grows fs g targets ps test d grown (ground arith) (ground arith) in
    elim (grown p (ground arith)) [ inl e ↦ rw e (ground arith) | inr (n, e) ↦ rw e (ground arith) ]

module _ (r : BuildRecovery) (fs g : Files) (e : RecoveryEntry) where
  replaced :
      (targets : List Text)
      → has_parents fs targets e ≡ true
      → Saved r fs e
      → ((q : Text) → member q targets ≡ false → Grown (lookup q fs) (lookup q g))
      → is_file (lookup e.path g) ≡ true
      → (g2 : Files) × (restore_entry r e g ≡ ok g2)
        × ((q : Text) → lookup q g2 ≡ (if e.path =ᵗ q then lookup q fs else lookup q g))
  unfolding restore_entry validate_managed_target_parents
  replaced targets parents saved grown file =
      let valid = validate_open g (above e.path) (
        above_grows fs g targets (above e.path) is_open refl grown (ground arith) (ground arith)) in
      elim saved [
        | inl (n, none_before) ↦ elim (Option-cases (lookup e.path g)) [
          | inl absent ↦ (
            g,
            unfold remove_new in rw (valid, n, absent) refl,
            λ q. ground (arith, text_eq_iff e.path q),
          )
          | inr (directory, there) ↦ ground arith
          | inr (special b, there) ↦ ground arith
          | inr (regular b m, there) ↦ (
            delete e.path g,
            unfold remove_new in rw (valid, n, there) refl,
            λ q. ground (arith, lookup-delete e.path q g, text_eq_iff e.path q),
          )
        ]
        | inr (x, named, bytes, before, backup) ↦ (
          insert e.path (regular bytes e.mode) g,
          (let dirs = all_directories g (above e.path) (
                above_grows fs g targets (above e.path) is_directory refl grown (ground arith)
                  (ground arith)) in
              let plain : is_directory (lookup e.path g) ≡ false =
                file_plain (lookup e.path g) file in
              unfold copy_atomic in rw (valid, x, named, backup, dirs, plain) refl),
          λ q.
              ground (arith, lookup-insert e.path q (regular bytes e.mode) g, text_eq_iff e.path q),
        )
      ]

pub saved_file :
    (r : BuildRecovery) (fs : Files) (e : RecoveryEntry)
    → Saved r fs e
    → is_file (lookup e.path fs) ≡ true
saved_file r fs e (inl (n, h)) = rw h refl
saved_file r fs e (inr (x, named, bytes, before, backup)) = rw before refl

-- Files stay files where an entry of a file has been restored.
files_after :
    (fs g g2 : Files) (p : Text) (es : List RecoveryEntry)
    → is_file (lookup p fs) ≡ true
    → ((q : Text) → lookup q g2 ≡ (if p =ᵗ q then lookup q fs else lookup q g))
    → all (λ e. is_file (lookup e.path g)) es ≡ true
    → all (λ e. is_file (lookup e.path g2)) es ≡ true
files_after fs g g2 p [] f at h = refl
files_after fs g g2 p (e ∷ es) f at h =
    let rest = files_after fs g g2 p es f at (ground arith) in
    ground (arith, at e.path, text_eq_iff p e.path)

pub restored :
    (r : BuildRecovery) (fs : Files) (targets : List Text) (es : List RecoveryEntry) (g : Files)
    → all (has_parents fs targets) es ≡ true
    → All (Saved r fs) es
    → all (λ e. member e.path targets) es ≡ true
    → ((q : Text) → member q targets ≡ false → Grown (lookup q fs) (lookup q g))
    → all (λ e. is_file (lookup e.path g)) es ≡ true
    → ((restore_entries r es (g, [])).1 ≡ [])
      × ((q : Text)
          → lookup q (restore_entries r es (g, [])).0
            ≡ (if member q (paths es) then lookup q fs else lookup q g))
unfolding restore_entries
restored r fs targets [] g hp hs hm grown hf = (refl, λ q. refl)
restored r fs targets (e ∷ es) g hp (s, ss) hm grown hf =
    let (g2, step, at) = replaced r fs g e targets (ground arith) s grown (ground arith) in
    let later =
      restored r fs targets es g2 (ground arith) ss (ground arith)
        (λ q out. elim (grown q out) [
          | inl same ↦ inl (ground (arith, at q, text_eq_iff e.path q))
          | inr (n, d) ↦ inr (n, ground (arith, at q, text_eq_iff e.path q))
        ])
        (files_after fs g g2 e.path es (saved_file r fs e s) at (ground arith)) in
    let opened : restore_entries r (e ∷ es) (g, []) ≡ restore_entries r es (g2, []) =
      ap (λ x. restore_entries r es (collect x (g, []))) step in
    rw opened (later.0, λ q. ground (arith, later.1 q, at q))
