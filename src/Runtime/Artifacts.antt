-- ===== src/Runtime/Artifacts.antt =====
-- SelectLaunchArtifact and IsLaunchArtifactRole of internal/catalog/models.go.
use varkiv.Common.{
  ℕ, suc, ◌+◌, ℤ, pos, negsuc, Text, codes, Stdlib, trim, lower, Bool, not, ◌&&◌, ◌||◌, ltb, ◌=ᵗ◌,
  Option, none, some, List, [], ◌∷◌, is_empty, if◌then◌else◌,
}
use varkiv.Runtime.Names.{ext}

-- The fields of catalog.Artifact that are read here.
pub record Artifact : Type 0 where
  pub path : Text
  pub source_path : Text
  pub role : Text
  pub disc_index : ℤ
  pub missing : Bool

-- A number that is added if it is positive.
abbrev pub above_zero : ℤ → ℕ
above_zero (pos n) = n
above_zero (negsuc n) = 0

module _ ⦃lib : Stdlib⦄ where
  unfoldable pub is_launch_artifact_role : Text → Bool
  is_launch_artifact_role value =
      let role = lower (trim value) in
      is_empty role
      || (role =ᵗ codes "rom")
      || (role =ᵗ codes "executable")
      || (role =ᵗ codes "disc")

  unfoldable pub rom_score : ℕ → Text → ℕ
  rom_score index path =
      let extension = lower (ext path) in
      if extension =ᵗ codes ".m3u"
      then index
      else if extension =ᵗ codes ".cue"
      then 50 + index
      else 100 + index

  unfoldable pub score : ℕ → Artifact → ℕ
  unfolding rom_score
  score index artifact =
      let role = lower (trim artifact.role) in
      if is_empty role || (role =ᵗ codes "rom")
      then rom_score index artifact.path
      else if role =ᵗ codes "executable"
      then 200 + index
      else if role =ᵗ codes "disc"
      then 300 + index + above_zero artifact.disc_index
      else 1000 + index

  abbrev pub is_candidate : Artifact → Bool
  is_candidate artifact = not artifact.missing && is_launch_artifact_role artifact.role

  -- The better of an artifact and the best one so far, each with its index.
  unfoldable pub better : ℕ × Artifact → Option (ℕ × Artifact) → ℕ × Artifact
  better (index, artifact) none = (index, artifact)
  better (index, artifact) (some (best_index, best)) =
      if ltb (score index artifact) (score best_index best)
      then (index, artifact)
      else (best_index, best)

  unfoldable pub select_from : ℕ → Option (ℕ × Artifact) → List Artifact → Option (ℕ × Artifact)
  unfolding better
  select_from index best [] = best
  select_from index best (artifact ∷ artifacts) =
      select_from (suc index)
        (if is_candidate artifact then some (better (index, artifact) best) else best) artifacts

  unfoldable pub select_launch_artifact : List Artifact → Option (ℕ × Artifact)
  unfolding select_from
  select_launch_artifact artifacts = select_from 0 none artifacts
