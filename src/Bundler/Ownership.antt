-- ===== src/Bundler/Ownership.antt =====
-- What a plan without conflicts may overwrite.
use varkiv.Common.{
  ℕ, Text, codes, Stdlib, ◌≡◌, refl, ap, sym, ◌∙◌, Bool, true, false, not, ◌&&◌, ◌||◌, ◌=ᵗ◌,
  text_eq_iff, Option, none, some, List, [], ◌∷◌, ◌++◌, is_empty, all, any, all-append, any-append,
  arith, inl, inr, Bool-cases, Option-cases, ◌≢◌, subst, text_eq_refl,
}
use varkiv.Common.Maps.{Map, lookup, lookup-insert, insert}
use varkiv.Bundler.Files.{Files, Node, content}
use varkiv.Bundler.Model.{PlanItem, Plan}
use varkiv.Bundler.Targets.{
  Planned, is_hash, is_reserved, may_replace, place, against_planned, remember, add_target,
  add_targets, append_conflict, append_item, append_managed, refused, why,
}
use varkiv.Bundler.Recovery.{action_writes_target}

abbrev pub is_known : Option PlanItem → Bool
is_known none = false
is_known (some item) = true

abbrev pub writes : PlanItem → Bool
writes item = action_writes_target item.action

-- Does an item of the plan write the target?
abbrev pub is_written : Text → List PlanItem → Bool
is_written target = any (λ item. writes item && item.target =ᵗ target)

-- No target is written by two items.
abbrev pub has_single_writers : List PlanItem → Bool
has_single_writers [] = true
has_single_writers (item ∷ items) =
    (not (writes item) || not (is_written item.target items)) && has_single_writers items

module _ ⦃lib : Stdlib⦄ where
  abbrev has_digest : Text → Option (List ℕ) → Bool
  has_digest digest none = false
  has_digest digest (some bytes) = lib.sha256_bytes bytes =ᵗ digest

  -- Nothing is there, or a node that the manifest lists, with the digest listed if there is one.
  abbrev pub is_left_so : Option Node → Option Text → Bool
  is_left_so none listed = true
  is_left_so (some node) none = false
  is_left_so (some node) (some digest) = is_empty digest || has_digest digest (content node)

  has_digest-is_hash :
      (digest : Text) (bytes : Option (List ℕ)) → is_hash digest bytes ≡ has_digest digest bytes
  unfolding is_hash
  has_digest-is_hash digest none = refl
  has_digest-is_hash digest (some bytes) = refl

  may_replace_lem :
      (node : Option Node) (listed : Option Text) → may_replace node listed ≡ is_left_so node listed
  unfolding may_replace
  may_replace_lem none listed = refl
  may_replace_lem (some node) none = refl
  may_replace_lem (some node) (some digest) =
      ap (λ b. is_empty digest || b) (has_digest-is_hash digest (content node))

  -- What is written is not reserved, and replaces nothing but a file of an earlier package that is
  -- as that package left it.
  abbrev pub may_write : Files → Map Text → PlanItem → Bool
  may_write out owned item =
      not (writes item)
      || (not (is_reserved item.target)
          && is_left_so (lookup item.target out) (lookup item.target owned))

  -- The targets of the writers are known, and the rest holds if there is no conflict.
  record Holds (out : Files) (owned : Map Text) (p : Planned) : Type 0 where
    known : all (λ i. not (writes i) || is_known (lookup i.target p.targets)) p.plan.items ≡ true
    safe :
        is_empty p.plan.conflicts ≡ true
        → (all (may_write out owned) p.plan.items ≡ true) × (has_single_writers p.plan.items ≡ true)

is_empty-append : {A : Type 0} (xs : List A) (x : A) → is_empty (xs ++ x ∷ []) ≡ false
is_empty-append [] x = refl
is_empty-append (y ∷ xs) x = refl

-- An item after the others that writes nothing, or whose target the others do not write.
has_single_writers-append :
    (items : List PlanItem) (item : PlanItem)
    → has_single_writers items ≡ true
    → (not (writes item) || not (is_written item.target items)) ≡ true
    → has_single_writers (items ++ item ∷ []) ≡ true
has_single_writers-append [] item h k = ground arith
has_single_writers-append (i ∷ is) item h k = ground (
  arith,
  has_single_writers-append is item (ground arith) (ground arith),
  any-append (λ j. writes j && j.target =ᵗ i.target) is (item ∷ []),
  text_eq_iff i.target item.target,
  text_eq_iff item.target i.target,
)

-- A target that is not known is not written.
unknown_target :
    (t : Text) (targets : Map PlanItem) (items : List PlanItem)
    → all (λ i. not (writes i) || is_known (lookup i.target targets)) items ≡ true
    → is_known (lookup t targets) ≡ false
    → is_written t items ≡ false
unknown_target t targets [] h k = refl
unknown_target t targets (i ∷ is) h k = elim (Bool-cases (i.target =ᵗ t)) [
  | inl e ↦ ground (
    arith,
    unknown_target t targets is (ground arith) k,
    ap (λ x. is_known (lookup x targets)) ((text_eq_iff i.target t).0 e),
  )
  | inr e ↦ ground (arith, unknown_target t targets is (ground arith) k)
]

is_known-remember :
    (item : PlanItem) (targets : Map PlanItem) (t : Text)
    → (not (is_known (lookup t targets))
        || is_known (lookup t (remember item (lookup item.target targets) targets)))
      ≡ true
is_known-remember item targets t = elim (Option-cases (lookup item.target targets)) [
  | inl e ↦ rw e (unfold remember in ground (arith, lookup-insert item.target t item targets))
  | inr (q, e) ↦ rw e (unfold remember in ground arith)
]

pub refused_silent : (reason : Text) (item : PlanItem) → writes (refused reason item) ≡ false
unfolding action_writes_target ◌=ᵗ◌
refused_silent reason item = refl

-- An item for a target that is known writes nothing, under the same target.
pub against_some :
    (item q : PlanItem)
    → (writes (against_planned item (some q)) ≡ false)
      × ((against_planned item (some q)).target ≡ item.target)
unfolding against_planned ◌=ᵗ◌
against_some item q =
    elim (Bool-cases (is_empty q.sha256 || is_empty item.sha256 || not (q.sha256 =ᵗ item.sha256))) [
      | inl e ↦ rw e (unfold action_writes_target in refl, refl)
      | inr e ↦ rw e (unfold action_writes_target in refl, refl)
    ]

true_not_false : true ≢ false
true_not_false h = cc

known-remember :
    (item : PlanItem) (targets : Map PlanItem) (items : List PlanItem)
    → all (λ i. not (writes i) || is_known (lookup i.target targets)) items ≡ true
    → all
        (λ i.
          not (writes i)
          || is_known (lookup i.target (remember item (lookup item.target targets) targets)))
        items
      ≡ true
known-remember item targets [] h = refl
known-remember item targets (i ∷ is) h =
    ground (
      arith,
      known-remember item targets is (ground arith),
      is_known-remember item targets i.target,
    )

module _ ⦃lib : Stdlib⦄ (out : Files) (owned : Map Text) where
  -- An item that writes nothing is added with a conflict.
  conflict_Holds :
      (p : Planned) (targets : Map PlanItem) (item : PlanItem)
      → all (λ i. not (writes i) || is_known (lookup i.target targets)) p.plan.items ≡ true
      → writes item ≡ false
      → Holds out owned (record { plan = append_conflict item p.plan; targets = targets })
  unfolding append_conflict
  conflict_Holds p targets item known h = record {
    known =
        all-append (λ i. not (writes i) || is_known (lookup i.target targets)) p.plan.items
          (item ∷ [])
        ∙ ground arith;
    safe =
        λ none. absurd (true_not_false (sym none ∙ is_empty-append p.plan.conflicts item.target));
  }

  item_Holds :
      (p : Planned) (targets : Map PlanItem) (item : PlanItem) (plan : Plan)
      → Holds out owned p
      → plan.items ≡ p.plan.items ++ item ∷ []
      → plan.conflicts ≡ p.plan.conflicts
      → all (λ i. not (writes i) || is_known (lookup i.target targets)) p.plan.items ≡ true
      → (not (writes item) || is_known (lookup item.target targets)) ≡ true
      → may_write out owned item ≡ true
      → (not (writes item) || not (is_written item.target p.plan.items)) ≡ true
      → Holds out owned (record { plan = plan; targets = targets })
  item_Holds p targets item plan holds hi hc known here may single = record {
    known = rw hi (
        all-append (λ i. not (writes i) || is_known (lookup i.target targets)) p.plan.items
          (item ∷ [])
        ∙ ground arith);
    safe = λ none.
        let (all_may, singles) = holds.safe (sym (ap is_empty hc) ∙ none) in
        (
          rw hi (all-append (may_write out owned) p.plan.items (item ∷ []) ∙ ground arith),
          rw hi (has_single_writers-append p.plan.items item singles single),
        );
  }

  place-Holds :
      (p : Planned) (targets : Map PlanItem) (item : PlanItem)
      → Holds out owned p
      → all (λ i. not (writes i) || is_known (lookup i.target targets)) p.plan.items ≡ true
      → is_reserved item.target ≡ false
      → (not (writes item) || is_known (lookup item.target targets)) ≡ true
      → (not (writes item) || not (is_written item.target p.plan.items)) ≡ true
      → Holds out owned (record { plan = place out owned item p.plan; targets = targets })
  unfolding place
  place-Holds p targets item holds known free here single =
      elim (Bool-cases (item.action =ᵗ codes "conflict")) [
        | inl c ↦
            rw c (conflict_Holds p targets item known (unfold action_writes_target in ground arith))
        | inr c ↦
            elim (Bool-cases
              ((item.action =ᵗ codes "reference") || (item.action =ᵗ codes "missing"))) [
                | inl m ↦
                    rw (c, m)
                      (item_Holds p targets item (append_item item p.plan) holds
                        (unfold append_item in refl) (unfold append_item in refl) known here
                        (unfold action_writes_target in ground arith) single)
                | inr m ↦
                    elim (Bool-cases
                      (may_replace (lookup item.target out) (lookup item.target owned))) [
                        | inl r ↦
                            rw (c, m, r)
                              (item_Holds p targets item (append_managed item p.plan) holds
                                (unfold append_managed in refl) (unfold append_managed in refl)
                                known here
                                (ground (
                                  arith,
                                  may_replace_lem (lookup item.target out)
                                      (lookup item.target owned),
                                ))
                                single)
                        | inr r ↦
                            rw (c, m, r)
                              (conflict_Holds p targets
                                (refused (why (lookup item.target owned)) item) known
                                (refused_silent (why (lookup item.target owned)) item))
                      ]
              ]
      ]

  -- An item that is looked up among those before it.
  planned_Holds :
      (p : Planned) (item : PlanItem)
      → Holds out owned p
      → is_reserved item.target ≡ false
      → Holds out owned (record {
        plan = place out owned (against_planned item (lookup item.target p.targets)) p.plan;
        targets = remember item (lookup item.target p.targets) p.targets;
      })
  planned_Holds p item holds free =
      let known = known-remember item p.targets p.plan.items holds.known in
      elim (Option-cases (lookup item.target p.targets)) [
        | inl e ↦
            let before =
              unknown_target item.target p.targets p.plan.items holds.known (rw e refl) in
            let known_item : all
                  (λ i.
                    not (writes i)
                    || is_known (lookup i.target (insert item.target item p.targets)))
                  p.plan.items
                ≡ true =
              unfold remember in
              subst
                (λ o.
                  all
                    (λ i. not (writes i) || is_known (lookup i.target (remember item o p.targets)))
                    p.plan.items
                  ≡ true)
                e known in
            rw e (
              unfold against_planned remember in
              place-Holds p (insert item.target item p.targets) item holds known_item free
                (ground (
                  arith,
                  lookup-insert item.target item.target item p.targets,
                  text_eq_refl item.target,
                ))
                (ground arith))
        | inr (q, e) ↦
            let silent = against_some item q in
            rw e (
              unfold remember in
              place-Holds p p.targets (against_planned item (some q)) holds holds.known
                (rw silent.1 free) (ground arith) (ground arith))
      ]

  pub add_missing :
      (item : PlanItem) (p : Planned)
      → is_reserved item.target ≡ false
      → (item.action =ᵗ codes "conflict") ≡ false
      → (item.action =ᵗ codes "missing") ≡ true
      → add_target out owned item p
        ≡ record { plan = place out owned item p.plan; targets = p.targets }
  unfolding add_target
  add_missing item p r c m = ground arith

  pub add_planned :
      (item : PlanItem) (p : Planned)
      → is_reserved item.target ≡ false
      → (item.action =ᵗ codes "conflict") ≡ false
      → (item.action =ᵗ codes "missing") ≡ false
      → add_target out owned item p ≡ record {
        plan = place out owned (against_planned item (lookup item.target p.targets)) p.plan;
        targets = remember item (lookup item.target p.targets) p.targets;
      }
  unfolding add_target
  add_planned item p r c m = ground arith

  add_target-Holds :
      (p : Planned) (item : PlanItem)
      → Holds out owned p
      → Holds out owned (add_target out owned item p)
  unfolding add_target
  add_target-Holds p item holds = elim (Bool-cases (is_reserved item.target)) [
    | inl r ↦ rw r (
        conflict_Holds p p.targets
          (refused (codes "target uses the reserved recovery directory") item) holds.known
          (refused_silent (codes "target uses the reserved recovery directory") item))
    | inr r ↦ elim (Bool-cases (item.action =ᵗ codes "conflict")) [
      | inl c ↦
          rw (r, c)
            (conflict_Holds p p.targets item holds.known
              (unfold action_writes_target in ground arith))
      | inr c ↦ elim (Bool-cases (item.action =ᵗ codes "missing")) [
        | inl m ↦ subst (Holds out owned) (sym (add_missing item p r c m)) (
            place-Holds p p.targets item holds holds.known r
              (unfold action_writes_target in ground arith)
              (unfold action_writes_target in ground arith))
        | inr m ↦
            subst (Holds out owned) (sym (add_planned item p r c m)) (planned_Holds p item holds r)
      ]
    ]
  ]

  add_targets-Holds :
      (items : List PlanItem) (p : Planned)
      → Holds out owned p
      → Holds out owned (add_targets out owned items p)
  unfolding add_targets
  add_targets-Holds [] p holds = holds
  add_targets-Holds (item ∷ items) p holds =
      add_targets-Holds items (add_target out owned item p) (add_target-Holds p item holds)

abbrev pub new_plan : Planned
new_plan = record {
  plan = record { items = []; managed_paths = []; conflicts = []; warnings = [] };
  targets = [];
}

module _ ⦃lib : Stdlib⦄ where
  -- If the targets of a package are planned without a conflict, whatever the files are that stand
  -- in its output, then no item of the plan writes a path of the recovery directories, each item
  -- that writes either finds nothing at its target, or a file of the previous manifest with the hash
  -- recorded there if it has one, and no target is written by two items.
  pub add_targets-MayWrite :
      (out : Files) (owned : Map Text) (items : List PlanItem)
      → is_empty (add_targets out owned items new_plan).plan.conflicts ≡ true
      → (all (may_write out owned) (add_targets out owned items new_plan).plan.items ≡ true)
        × (has_single_writers (add_targets out owned items new_plan).plan.items ≡ true)
  add_targets-MayWrite out owned items h =
      (add_targets-Holds out owned items new_plan
          (record { known = refl; safe = λ e. (refl, refl) })).safe
        h
