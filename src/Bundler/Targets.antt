-- ===== src/Bundler/Targets.antt =====
-- The closure addTarget of planWithStorage in internal/bundler/plan.go.
use varkiv.Common.{
  Text, codes, Stdlib, Bool, true, false, not, ◌||◌, ◌=ᵗ◌, Option, none, some, List, [], ◌∷◌, ◌++◌,
  is_empty, if◌then◌else◌, ℕ,
}
use varkiv.Common.Maps.{Map, lookup, insert}
use varkiv.Bundler.Files.{Node, Files, content, has_prefix}
use varkiv.Bundler.Model.{PlanItem, Plan}

abbrev pub recovery_directory : Text
recovery_directory = codes ".varkiv-recovery"

abbrev pub legacy_recovery_directory : Text
legacy_recovery_directory = codes ".varkiv-backups"

unfoldable pub is_reserved : Text → Bool
is_reserved t =
    (t =ᵗ recovery_directory)
    || has_prefix (recovery_directory ++ codes "/") t
    || (t =ᵗ legacy_recovery_directory)
    || has_prefix (legacy_recovery_directory ++ codes "/") t

-- The plan and the map plannedTargets.
pub record Planned : Type 0 where
  pub plan : Plan
  pub targets : Map PlanItem

abbrev pub refused : Text → PlanItem → PlanItem
refused why item = record item { action = codes "conflict"; detail = why }

unfoldable pub append_conflict : PlanItem → Plan → Plan
append_conflict item plan = record plan {
  items = plan.items ++ item ∷ [];
  conflicts = plan.conflicts ++ item.target ∷ [];
}

unfoldable pub append_item : PlanItem → Plan → Plan
append_item item plan = record plan { items = plan.items ++ item ∷ [] }

unfoldable pub append_managed : PlanItem → Plan → Plan
append_managed item plan = record plan {
  items = plan.items ++ item ∷ [];
  managed_paths = plan.managed_paths ++ item.target ∷ [];
}

-- The item against an earlier one for the same target.
unfoldable pub against_planned : PlanItem → Option PlanItem → PlanItem
against_planned item none = item
against_planned item (some previous) =
    if is_empty previous.sha256 || is_empty item.sha256 || not (previous.sha256 =ᵗ item.sha256)
    then refused (codes "multiple planned writers target the same path") item
    else record item { action = codes "deduplicated" }

unfoldable pub remember : PlanItem → Option PlanItem → Map PlanItem → Map PlanItem
remember item none targets = insert item.target item targets
remember item (some previous) targets = targets

module _ ⦃lib : Stdlib⦄ where
  -- hashErr == nil && currentHash == expectedHash
  unfoldable pub is_hash : Text → Option (List ℕ) → Bool
  is_hash expected none = false
  is_hash expected (some bytes) = lib.sha256_bytes bytes =ᵗ expected

  -- May a target be overwritten, by its node and its entry in `owned`?
  unfoldable pub may_replace : Option Node → Option Text → Bool
  unfolding is_hash
  may_replace none expected = true
  may_replace (some node) none = false
  may_replace (some node) (some expected) = is_empty expected || is_hash expected (content node)

  abbrev pub why : Option Text → Text
  why none = codes "target exists but is not owned by a previous Varkiv manifest"
  why (some expected) = codes "managed target was modified after the previous release"

  -- The part of addTarget after the look at plannedTargets.
  unfoldable pub place : Files → Map Text → PlanItem → Plan → Plan
  unfolding may_replace append_conflict append_item append_managed
  place out owned item plan =
      if item.action =ᵗ codes "conflict"
      then append_conflict item plan
      else if (item.action =ᵗ codes "reference") || (item.action =ᵗ codes "missing")
      then append_item item plan
      else if may_replace (lookup item.target out) (lookup item.target owned)
      then append_managed item plan
      else append_conflict (refused (why (lookup item.target owned)) item) plan

  unfoldable pub add_target : Files → Map Text → PlanItem → Planned → Planned
  unfolding is_reserved against_planned remember place append_conflict
  add_target out owned item p =
      let previous = lookup item.target p.targets in
      if is_reserved item.target
      then record p {
        plan =
            append_conflict (refused (codes "target uses the reserved recovery directory") item)
              p.plan;
      }
      else if item.action =ᵗ codes "conflict"
      then record p { plan = append_conflict item p.plan }
      else if item.action =ᵗ codes "missing"
      then record p { plan = place out owned item p.plan }
      else record {
        plan = place out owned (against_planned item previous) p.plan;
        targets = remember item previous p.targets;
      }

  unfoldable pub add_targets : Files → Map Text → List PlanItem → Planned → Planned
  unfolding add_target
  add_targets out owned [] p = p
  add_targets out owned (item ∷ items) p = add_targets out owned items (add_target out owned item p)
