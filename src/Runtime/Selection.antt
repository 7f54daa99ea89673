-- ===== src/Runtime/Selection.antt =====
-- Which artifact of an edition is launched.
use varkiv.Common.{
  zero, ℕ, suc, ◌+◌, ◌≤◌, Stdlib, ◌≡◌, refl, ap, sym, ◌∙◌, Bool, true, false, not, ◌&&◌, ◌||◌, ltb,
  leb, Option, none, some, List, [], ◌∷◌, any, arith, Bool-cases, ◌⊎◌, inl, inr,
}
use varkiv.Runtime.Artifacts.{Artifact, is_candidate, score, select_from, select_launch_artifact}

-- artifacts[index]
abbrev pub at : ℕ → List Artifact → Option Artifact
at n [] = none
at zero (artifact ∷ artifacts) = some artifact
at (suc n) (artifact ∷ artifacts) = at n artifacts

module _ ⦃lib : Stdlib⦄ where
  -- No candidate from an index on has a lower score.
  abbrev pub is_lowest : ℕ → ℕ → List Artifact → Bool
  is_lowest s index [] = true
  is_lowest s index (artifact ∷ artifacts) =
      (not (is_candidate artifact) || leb s (score index artifact))
      && is_lowest s (suc index) artifacts

  -- No artifact is found where there is no candidate; otherwise one of the candidates that have the
  -- lowest score.
  abbrev pub IsFound : Option (ℕ × Artifact) → List Artifact → Type 0
  IsFound none artifacts = any is_candidate artifacts ≡ false
  IsFound (some (index, artifact)) artifacts =
      (at index artifacts ≡ some artifact)
      × (is_candidate artifact ≡ true)
      × (is_lowest (score index artifact) 0 artifacts ≡ true)

  -- The place of the best one, seen one artifact earlier.
  abbrev IsPlaced : ℕ → ℕ × Artifact → List Artifact → ℕ × Artifact → Type 0
  IsPlaced index before artifacts r =
      (before ≡ r) ⊎ ((k : ℕ) × (r.0 ≡ k + index) × (at k artifacts ≡ some r.1))

  kept :
      (index i : ℕ) (a x : Artifact) (rest : List Artifact) (r : ℕ × Artifact)
      → IsPlaced (suc index) (i, a) rest r
      → IsPlaced index (i, a) (x ∷ rest) r
  kept index i a x rest r (inl e) = inl e
  kept index i a x rest r (inr (k, e, h)) = inr (suc k, omega (arith, e), h)

  taken :
      (index : ℕ) (x : Artifact) (rest : List Artifact) (r : ℕ × Artifact)
      → IsPlaced (suc index) (index, x) rest r
      → (k : ℕ) × (r.0 ≡ k + index) × (at k (x ∷ rest) ≡ some r.1)
  taken index x rest r (inl e) = (0, sym (ap (λ p. p.0) e) ∙ omega arith, ap (λ p. some p.1) e)
  taken index x rest r (inr (k, e, h)) = (suc k, omega (arith, e), h)

  -- What comes of the best one so far.
  abbrev Later : ℕ → ℕ × Artifact → List Artifact → ℕ × Artifact → Type 0
  Later index before artifacts r =
      IsPlaced index before artifacts r
      × (is_candidate r.1 ≡ true)
      × (is_lowest (score r.0 r.1) index artifacts ≡ true)
      × (score r.0 r.1 ≤ score before.0 before.1)

  running :
      (index i : ℕ) (a : Artifact) (artifacts : List Artifact)
      → is_candidate a ≡ true
      → (r : ℕ × Artifact) × (select_from index (some (i, a)) artifacts ≡ some r)
        × Later index (i, a) artifacts r
  unfolding select_from
  running index i a [] c = ((i, a), refl, (inl refl, c, refl, omega arith))
  running index i a (x ∷ rest) c = elim (Bool-cases (is_candidate x)) [
    | inl y ↦ elim (Bool-cases (ltb (score index x) (score i a))) [
      | inl l ↦
          let (r, e, (place, d, low, le)) = running (suc index) index x rest y in
          (r, rw (y, l) e, (inr (taken index x rest r place), d, ground arith, ground arith))
      | inr l ↦
          let (r, e, (place, d, low, le)) = running (suc index) i a rest c in
          (r, rw (y, l) e, (kept index i a x rest r place, d, ground arith, le))
    ]
    | inr n ↦
        let (r, e, (place, d, low, le)) = running (suc index) i a rest c in
        (r, rw n e, (kept index i a x rest r place, d, ground arith, le))
  ]

  starting :
      (index : ℕ) (artifacts : List Artifact)
      → ((select_from index none artifacts ≡ none) × (any is_candidate artifacts ≡ false))
        ⊎ ((r : ℕ × Artifact) × (select_from index none artifacts ≡ some r)
            × ((k : ℕ) × (r.0 ≡ k + index) × (at k artifacts ≡ some r.1))
            × (is_candidate r.1 ≡ true)
            × (is_lowest (score r.0 r.1) index artifacts ≡ true))
  unfolding select_from
  starting index [] = inl (refl, refl)
  starting index (x ∷ rest) = elim (Bool-cases (is_candidate x)) [
    | inl y ↦
        let (r, e, (place, d, low, le)) = running (suc index) index x rest y in
        inr (r, rw y e, taken index x rest r place, d, ground arith)
    | inr n ↦ elim (starting (suc index) rest) [
      | inl (e, none_found) ↦ inl (rw n e, ground arith)
      | inr (r, e, (k, h, p), d, low) ↦
          inr (r, rw n e, (suc k, omega (arith, h), p), d, ground arith)
    ]
  ]

  -- SelectLaunchArtifact finds no artifact exactly where none is a candidate, that is, present and
  -- of a role that is launched. Otherwise it gives a candidate of the list whose score no other
  -- candidate undercuts.
  pub select_launch_artifact-IsFound :
      (artifacts : List Artifact) → IsFound (select_launch_artifact artifacts) artifacts
  unfolding select_launch_artifact
  select_launch_artifact-IsFound artifacts = elim (starting 0 artifacts) [
    | inl (e, none_found) ↦ rw e none_found
    | inr ((j, b), e, (k, h, p), d, low) ↦
        let here : at j artifacts ≡ some b = ap (λ n. at n artifacts) (h ∙ omega arith) ∙ p in
        rw e (here, d, low)
  ]
