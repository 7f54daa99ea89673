-- ===== src/Bundler/Additions.antt =====
-- What one call of the closure addTarget of internal/bundler/plan.go adds to a plan.
use varkiv.Common.{
  Text, codes, Stdlib, ◌≡◌, refl, sym, ap, ◌∙◌, subst, true, false, ◌&&◌, ◌||◌, ◌=ᵗ◌, text_eq_refl,
  text_eq_iff, Option, none, some, List, [], ◌∷◌, ◌++◌, any-append, member, arith, ◌⊎◌, inl, inr,
  Bool-cases, Option-cases,
}
use varkiv.Common.Maps.{Map, lookup, lookup-insert}
use varkiv.Bundler.Files.{Files}
use varkiv.Bundler.Model.{PlanItem, Plan}
use varkiv.Bundler.Targets.{
  Planned, is_reserved, may_replace, place, against_planned, remember, add_target, append_item,
  append_managed, append_conflict, refused, why,
}
use varkiv.Bundler.Recovery.{action_writes_target}
use varkiv.Bundler.Ownership.{
  add_planned, add_missing, writes, is_written, against_some, refused_silent,
}

none_some : {A B : Type 0} (a : A) (o : Option A) → o ≡ none → o ≡ some a → B
none_some a o e h = cc

member_left : (t : Text) (xs ys : List Text) → member t xs ≡ true → member t (xs ++ ys) ≡ true
member_left t [] ys h = cc
member_left t (x ∷ xs) ys h = ground (arith, member_left t xs ys)

pub member_last : (t : Text) (xs : List Text) → member t (xs ++ t ∷ []) ≡ true
member_last t [] = ground (arith, text_eq_refl t)
member_last t (x ∷ xs) = ground (arith, member_last t xs)

-- What a call of addTarget for the item `i` adds to the plan: the item `x`, of the same target,
-- and the target to the managed paths at most; and what it remembers.
pub record IsAdded (i : PlanItem) (p q : Planned) : Type 0 where
  pub x : PlanItem
  pub items : q.plan.items ≡ p.plan.items ++ x ∷ []
  pub target : x.target ≡ i.target
  pub silent : (writes x ≡ false) ⊎ (lookup i.target p.targets ≡ none)
  pub managed :
      (q.plan.managed_paths ≡ p.plan.managed_paths)
      ⊎ (q.plan.managed_paths ≡ p.plan.managed_paths ++ i.target ∷ [])
  pub targets :
      (q.targets ≡ p.targets) ⊎ (q.targets ≡ remember i (lookup i.target p.targets) p.targets)

module _ ⦃lib : Stdlib⦄ (out : Files) (owned : Map Text) where
  -- The item that `place` appends, which writes only if the one that it was given does.
  record IsPlaced (i : PlanItem) (plan next : Plan) : Type 0 where
    x : PlanItem
    items : next.items ≡ plan.items ++ x ∷ []
    target : x.target ≡ i.target
    silent : (writes i ≡ false) → (writes x ≡ false)
    managed :
        (next.managed_paths ≡ plan.managed_paths)
        ⊎ (next.managed_paths ≡ plan.managed_paths ++ i.target ∷ [])

  conflict-IsPlaced :
      (i x : PlanItem) (plan : Plan)
      → x.target ≡ i.target
      → ((writes i ≡ false) → (writes x ≡ false))
      → IsPlaced i plan (append_conflict x plan)
  unfolding append_conflict
  conflict-IsPlaced i x plan t s = record {
    x = x;
    items = refl;
    target = t;
    silent = s;
    managed = inl refl;
  }

  place-IsPlaced : (i : PlanItem) (plan : Plan) → IsPlaced i plan (place out owned i plan)
  unfolding place
  place-IsPlaced i plan = elim (Bool-cases (i.action =ᵗ codes "conflict")) [
    | inl c ↦ rw c (conflict-IsPlaced i i plan refl (λ h. h))
    | inr c ↦ elim (Bool-cases ((i.action =ᵗ codes "reference") || (i.action =ᵗ codes "missing"))) [
      | inl m ↦
          rw (c, m)
            (unfold append_item in
              record { x = i; items = refl; target = refl; silent = λ h. h; managed = inl refl })
      | inr m ↦ elim (Bool-cases (may_replace (lookup i.target out) (lookup i.target owned))) [
        | inl r ↦
            rw (c, m, r)
              (unfold append_managed in
                record { x = i; items = refl; target = refl; silent = λ h. h; managed = inr refl })
        | inr r ↦
            rw (c, m, r)
              (conflict-IsPlaced i (refused (why (lookup i.target owned)) i) plan refl
                (λ _. refused_silent (why (lookup i.target owned)) i))
      ]
    ]
  ]

  missing_silent : (i : PlanItem) → (i.action =ᵗ codes "missing") ≡ true → writes i ≡ false
  missing_silent i h = unfold action_writes_target in ground arith

  -- An item against what is remembered for its target.
  planned-IsAdded :
      (i : PlanItem) (p : Planned)
      → IsAdded i p (record {
        plan = place out owned (against_planned i (lookup i.target p.targets)) p.plan;
        targets = remember i (lookup i.target p.targets) p.targets;
      })
  planned-IsAdded i p = elim (Option-cases (lookup i.target p.targets)) [
    | inl e ↦
        let k = place-IsPlaced i p.plan in
        rw e (
          unfold against_planned in
          record {
            x = k.x;
            items = k.items;
            target = k.target;
            silent = inr e;
            managed = k.managed;
            targets = inr (rw e refl);
          })
    | inr (q, e) ↦
        let (silent, same) = against_some i q in
        let k = place-IsPlaced (against_planned i (some q)) p.plan in
        rw e (record {
          x = k.x;
          items = k.items;
          target = k.target ∙ same;
          silent = inl (k.silent silent);
          managed =
              subst
                (λ t.
                  ((place out owned (against_planned i (some q)) p.plan).managed_paths
                    ≡ p.plan.managed_paths)
                  ⊎ ((place out owned (against_planned i (some q)) p.plan).managed_paths
                      ≡ p.plan.managed_paths ++ t ∷ []))
                same k.managed;
          targets = inr (rw e refl);
        })
  ]

  pub add_target-IsAdded : (i : PlanItem) (p : Planned) → IsAdded i p (add_target out owned i p)
  unfolding add_target
  add_target-IsAdded i p = elim (Bool-cases (is_reserved i.target)) [
    | inl r ↦
        rw (r, add_target)
          (unfold append_conflict in
            record {
              x = refused (codes "target uses the reserved recovery directory") i;
              items = refl;
              target = refl;
              silent = inl (refused_silent (codes "target uses the reserved recovery directory") i);
              managed = inl refl;
              targets = inl refl;
            })
    | inr r ↦ elim (Bool-cases (i.action =ᵗ codes "conflict")) [
      | inl c ↦
          rw (r, c, add_target)
            (unfold append_conflict action_writes_target in
              record {
                x = i;
                items = refl;
                target = refl;
                silent = inl (ground arith);
                managed = inl refl;
                targets = inl refl;
              })
      | inr c ↦ elim (Bool-cases (i.action =ᵗ codes "missing")) [
        | inl m ↦
            let k = place-IsPlaced i p.plan in
            subst (IsAdded i p) (sym (add_missing out owned i p r c m)) (record {
              x = k.x;
              items = k.items;
              target = k.target;
              silent = inl (k.silent (missing_silent i m));
              managed = k.managed;
              targets = inl refl;
            })
        | inr m ↦ subst (IsAdded i p) (sym (add_planned out owned i p r c m)) (planned-IsAdded i p)
      ]
    ]
  ]

  -- What is remembered for a target that nothing writes.
  pub record IsUnwritten (t : Text) (known : Option PlanItem) (p : Planned) : Type 0 where
    pub found : lookup t p.targets ≡ known
    pub unwritten : is_written t p.plan.items ≡ false

  remember_known :
      (i q : PlanItem) (ts : Map PlanItem) (t : Text)
      → lookup t ts ≡ some q
      → lookup t (remember i (lookup i.target ts) ts) ≡ some q
  unfolding remember
  remember_known i q ts t h = elim (Option-cases (lookup i.target ts)) [
    | inr (x, e) ↦ rw (e, remember) h
    | inl e ↦ elim (Bool-cases (i.target =ᵗ t)) [
      | inl s ↦
          none_some q (lookup i.target ts) e
            (ap (λ x. lookup x ts) ((text_eq_iff i.target t).0 s) ∙ h)
      | inr s ↦ rw (e, remember) (lookup-insert i.target t i ts ∙ rw s h)
    ]
  ]

  remember_other :
      (i : PlanItem) (o : Option PlanItem) (ts : Map PlanItem) (t : Text)
      → (i.target =ᵗ t) ≡ false
      → lookup t (remember i o ts) ≡ lookup t ts
  unfolding remember
  remember_other i none ts t s = lookup-insert i.target t i ts ∙ rw s refl
  remember_other i (some q) ts t s = refl

  pub unwritten_more :
      (t : Text) (items : List PlanItem) (x : PlanItem)
      → is_written t items ≡ false
      → (writes x ≡ false) ⊎ ((x.target =ᵗ t) ≡ false)
      → is_written t (items ++ x ∷ []) ≡ false
  unwritten_more t items x h k =
      any-append (λ i. writes i && i.target =ᵗ t) items (x ∷ []) ∙ ground arith

  -- Another target's items do not change this,
  pub other-IsUnwritten :
      (t : Text) (known : Option PlanItem) (i : PlanItem) (p : Planned)
      → (i.target =ᵗ t) ≡ false
      → IsUnwritten t known p
      → IsUnwritten t known (add_target out owned i p)
  other-IsUnwritten t known i p s h =
      let k = add_target-IsAdded i p in
      record {
        found = elim k.targets [
          | inl e ↦ ap (lookup t) e ∙ h.found
          | inr e ↦
              ap (lookup t) e ∙ remember_other i (lookup i.target p.targets) p.targets t s ∙ h.found
        ];
        unwritten =
            ap (is_written t) k.items
            ∙ unwritten_more t p.plan.items k.x h.unwritten (inr (ap (λ u. u =ᵗ t) k.target ∙ s));
      }

  -- and once there is an item for the target, no item does.
  pub known-IsUnwritten :
      (t : Text) (q i : PlanItem) (p : Planned)
      → IsUnwritten t (some q) p
      → IsUnwritten t (some q) (add_target out owned i p)
  known-IsUnwritten t q i p h = elim (Bool-cases (i.target =ᵗ t)) [
    | inr s ↦ other-IsUnwritten t (some q) i p s h
    | inl s ↦
        let k = add_target-IsAdded i p in
        let same = (text_eq_iff i.target t).0 s in
        record {
          found = elim k.targets [
            | inl e ↦ ap (lookup t) e ∙ h.found
            | inr e ↦ ap (lookup t) e ∙ remember_known i q p.targets t h.found
          ];
          unwritten =
              ap (is_written t) k.items
              ∙ unwritten_more t p.plan.items k.x h.unwritten (elim k.silent [
                | inl e ↦ inl e
                | inr e ↦
                    none_some q (lookup i.target p.targets) e
                      (ap (λ u. lookup u p.targets) same ∙ h.found)
              ]);
        }
  ]

  pub managed_stays :
      (t : Text) (i : PlanItem) (p : Planned)
      → member t p.plan.managed_paths ≡ true
      → member t (add_target out owned i p).plan.managed_paths ≡ true
  managed_stays t i p h = elim (add_target-IsAdded i p).managed [
    | inl e ↦ ap (member t) e ∙ h
    | inr e ↦ ap (member t) e ∙ member_left t p.plan.managed_paths (i.target ∷ []) h
  ]
