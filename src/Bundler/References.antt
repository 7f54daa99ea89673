-- ===== src/Bundler/References.antt =====
-- Packages by reference, whose plan names a file twice: the media of a game are planned once for
-- each of its editions.
use varkiv.Common.{
  Text, codes, Stdlib, ◌≡◌, refl, sym, ap, ◌∙◌, subst, Bool, true, false, not, ◌&&◌, ◌=ᵗ◌,
  text_eq_refl, text_eq_iff, none, some, List, [], ◌∷◌, ◌++◌, is_empty, all, member, arith, inl,
}
use varkiv.Common.Maps.{Map, lookup, lookup-insert}
use varkiv.Bundler.Files.{Files}
use varkiv.Bundler.Model.{PlanItem, Plan}
use varkiv.Bundler.Targets.{
  Planned, is_reserved, may_replace, place, against_planned, remember, add_target, add_targets,
  append_item, append_managed,
}
use varkiv.Bundler.Recovery.{action_writes_target}
use varkiv.Bundler.Ownership.{new_plan, add_planned, is_written}
use varkiv.Bundler.Additions.{
  IsUnwritten, other-IsUnwritten, known-IsUnwritten, managed_stays, member_last, unwritten_more,
}

abbrev pub is_reference : PlanItem → Bool
is_reference item =
    (item.action =ᵗ codes "reference")
    && not (is_empty item.sha256)
    && not (is_reserved item.target)

-- Two items of one file, by reference.
abbrev pub is_again : PlanItem → PlanItem → Bool
is_again item again =
    is_reference item
    && is_reference again
    && again.target =ᵗ item.target
    && again.sha256 =ᵗ item.sha256

-- None of the items has the target.
abbrev pub is_absent : Text → List PlanItem → Bool
is_absent target = all (λ i. not (i.target =ᵗ target))

reference_action :
    (item : PlanItem)
    → is_reference item ≡ true
    → ((item.action =ᵗ codes "conflict") ≡ false) × ((item.action =ᵗ codes "missing") ≡ false)
reference_action item h =
    let e = (text_eq_iff item.action (codes "reference")).0 (ground arith) in
    rw e (unfold ◌=ᵗ◌ in (refl, refl))

module _ ⦃lib : Stdlib⦄ (out : Files) (owned : Map Text) where
  add_targets-append :
      (is js : List PlanItem) (p : Planned)
      → add_targets out owned (is ++ js) p ≡ add_targets out owned js (add_targets out owned is p)
  unfolding add_targets
  add_targets-append [] js p = refl
  add_targets-append (i ∷ is) js p = add_targets-append is js (add_target out owned i p)

  add_targets-cons :
      (i : PlanItem) (is : List PlanItem) (p : Planned)
      → add_targets out owned (i ∷ is) p ≡ add_targets out owned is (add_target out owned i p)
  unfolding add_targets
  add_targets-cons i is p = refl

  absent-IsUnwritten :
      (t : Text) (is : List PlanItem) (p : Planned)
      → is_absent t is ≡ true
      → IsUnwritten out owned t none p
      → IsUnwritten out owned t none (add_targets out owned is p)
  unfolding add_targets
  absent-IsUnwritten t [] p absent h = h
  absent-IsUnwritten t (i ∷ is) p absent h =
      absent-IsUnwritten t is (add_target out owned i p) (ground arith)
        (other-IsUnwritten out owned t none i p (ground arith) h)

  later-IsUnwritten :
      (t : Text) (q : PlanItem) (is : List PlanItem) (p : Planned)
      → IsUnwritten out owned t (some q) p
      → IsUnwritten out owned t (some q) (add_targets out owned is p)
  unfolding add_targets
  later-IsUnwritten t q [] p h = h
  later-IsUnwritten t q (i ∷ is) p h =
      later-IsUnwritten t q is (add_target out owned i p) (known-IsUnwritten out owned t q i p h)

  later_managed :
      (t : Text) (is : List PlanItem) (p : Planned)
      → member t p.plan.managed_paths ≡ true
      → member t (add_targets out owned is p).plan.managed_paths ≡ true
  unfolding add_targets
  later_managed t [] p h = h
  later_managed t (i ∷ is) p h =
      later_managed t is (add_target out owned i p) (managed_stays out owned t i p h)

  placed_reference :
      (item : PlanItem) (plan : Plan)
      → is_reference item ≡ true
      → is_written item.target plan.items ≡ false
      → is_written item.target (place out owned item plan).items ≡ false
  placed_reference item plan h free =
      let (c, m) = reference_action item h in
      unfold place append_item in
      ground (
        arith,
        unwritten_more out owned item.target plan.items item free
            (inl (unfold action_writes_target in ground arith)),
      )

  -- The first item for the target is remembered, and writes nothing.
  first-IsUnwritten :
      (item : PlanItem) (p : Planned)
      → is_reference item ≡ true
      → IsUnwritten out owned item.target none p
      → IsUnwritten out owned item.target (some item) (add_target out owned item p)
  first-IsUnwritten item p h free =
      let (c, m) = reference_action item h in
      subst (IsUnwritten out owned item.target (some item))
        (sym (add_planned out owned item p (ground arith) c m))
        (rw free.found (
          unfold remember against_planned in
          record {
            found =
                lookup-insert item.target item.target item p.targets
                ∙ rw (text_eq_refl item.target) refl;
            unwritten = placed_reference item p.plan h free.unwritten;
          }))

  place_deduplicated :
      (item : PlanItem) (plan : Plan)
      → lookup item.target out ≡ none
      → (place out owned (record item { action = codes "deduplicated" }) plan).managed_paths
        ≡ plan.managed_paths ++ item.target ∷ []
  unfolding place ◌=ᵗ◌ may_replace append_managed
  place_deduplicated item plan free = rw free refl

  against_first :
      (item again : PlanItem)
      → is_again item again ≡ true
      → against_planned again (some item) ≡ record again { action = codes "deduplicated" }
  unfolding against_planned
  against_first item again h =
      let hash = (text_eq_iff again.sha256 item.sha256).0 (ground arith) in
      ground (arith, text_eq_refl item.sha256)

  -- The second one makes its target a managed path.
  second_managed :
      (item again : PlanItem) (p : Planned)
      → is_again item again ≡ true
      → lookup again.target out ≡ none
      → lookup again.target p.targets ≡ some item
      → member again.target (add_target out owned again p).plan.managed_paths ≡ true
  second_managed item again p h free known =
      let (c, m) = reference_action again (ground arith) in
      ap (λ q. member again.target q.plan.managed_paths)
        (add_planned out owned again p (ground arith) c m)
      ∙ rw (known, against_first item again h)
          (ap (member again.target) (place_deduplicated again p.plan free)
            ∙ member_last again.target p.plan.managed_paths)

  -- If a plan has two references to the same file, with the same hash that is not empty, the first
  -- of which is the first item for its target, outside the reserved directories, and the output has
  -- nothing at that target, then the target becomes a managed path of the package, although no item of the plan writes it. This
  -- holds whatever other items come before, between and after the two.
  pub reference_twice_managed :
      (item again : PlanItem) (before between after : List PlanItem)
      → is_again item again ≡ true
      → is_absent item.target before ≡ true
      → lookup item.target out ≡ none
      → let plan =
          (add_targets out owned (before ++ item ∷ (between ++ again ∷ after)) new_plan).plan in
        (member item.target plan.managed_paths ≡ true) × (is_written item.target plan.items ≡ false)
  reference_twice_managed item again before between after h absent free =
      let t = item.target in
      let same : again.target ≡ t = (text_eq_iff again.target t).0 (ground arith) in
      let p0 = add_targets out owned before new_plan in
      let p1 = add_target out owned item p0 in
      let p2 = add_targets out owned between p1 in
      let p3 = add_target out owned again p2 in
      let steps : add_targets out owned (before ++ item ∷ (between ++ again ∷ after)) new_plan
          ≡ add_targets out owned after p3 =
        add_targets-append before (item ∷ (between ++ again ∷ after)) new_plan
        ∙ add_targets-cons item (between ++ again ∷ after) p0
        ∙ add_targets-append between (again ∷ after) p1
        ∙ add_targets-cons again after p2 in
      let u0 =
        absent-IsUnwritten t before new_plan absent
          (record { found = unfold lookup in refl; unwritten = refl }) in
      let u2 = later-IsUnwritten t item between p1 (first-IsUnwritten item p0 (ground arith) u0) in
      let u3 = known-IsUnwritten out owned t item again p2 u2 in
      let managed =
        second_managed item again p2 h (ap (λ x. lookup x out) same ∙ free)
          (ap (λ x. lookup x p2.targets) same ∙ u2.found) in
      (
        ap (λ q. member t q.plan.managed_paths) steps
            ∙ later_managed t after p3
                (subst (λ x. member x p3.plan.managed_paths ≡ true) same managed),
        ap (λ q. is_written t q.plan.items) steps
            ∙ (later-IsUnwritten t item after p3 u3).unwritten,
      )
