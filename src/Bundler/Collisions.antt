-- ===== src/Bundler/Collisions.antt =====
-- What the preflight of a plan lets pass.
use varkiv.Common.{
  ℕ, Text, Stdlib, ◌≡◌, refl, ap, sym, ◌∙◌, Bool, true, false, not, ◌&&◌, ◌||◌, ◌=ᵗ◌, text_eq_iff,
  Option, none, some, List, [], ◌∷◌, ◌++◌, all, All, All-append, Result, ok, err, inl, inr, arith,
  Bool-cases, length, suc, zero, ◌≢◌, text_eq_refl, map, some_injective,
}
use varkiv.Common.Maps.{Map, lookup, insert, lookup-insert}
use varkiv.Bundler.Model.{PlanItem, Plan}
use varkiv.Bundler.Device.{
  DeviceProfile, DeviceError, Preflight, is_live, in_conflict, collides, retire, target_at,
  update_at, pointed, key_of, look_up, check_target, check_item, check_items,
  apply_device_preflight, validate_device_target_path, device_warnings,
}

retire_target : (t : Text) (i : PlanItem) → (retire t i).target ≡ i.target
retire_target t i = ground arith

true_not_false : true ≢ false
true_not_false h = cc

none_some : {A B : Type 0} (x : A) → (let n : Option A = none in n) ≡ some x → B
none_some x h = cc

some_target :
    (a b : ℕ) (s t : Text) → (let x : Option (ℕ × Text) = some (a, s) in x) ≡ some (b, t) → t ≡ s
some_target a b s t h = cc

abbrev pub is_ok : {E A : Type 0} → Result E A → Bool
is_ok (ok a) = true
is_ok (err e) = false

conflict_idle : (d : Text) (i : PlanItem) → is_live (in_conflict d i) ≡ false
unfolding ◌=ᵗ◌
conflict_idle d i = refl

retire_idle : (t : Text) (i : PlanItem) → is_live (retire t i) ≡ false
retire_idle t i = elim (Bool-cases (is_live i)) [
  | inl e ↦ rw e (conflict_idle (collides t) i)
  | inr e ↦ rw e e
]

target_at-append :
    (n : ℕ) (items : List PlanItem) (item : PlanItem) (t : Text)
    → target_at n items ≡ some t
    → target_at n (items ++ item ∷ []) ≡ some t
unfolding target_at
target_at-append n [] item t h = cc
target_at-append zero (i ∷ is) item t h = h
target_at-append (suc n) (i ∷ is) item t h = target_at-append n is item t h

target_at-length :
    (items : List PlanItem) (item : PlanItem)
    → target_at (length items) (items ++ item ∷ []) ≡ some item.target
unfolding target_at
target_at-length [] item = refl
target_at-length (i ∷ is) item = target_at-length is item

target_at-update_at :
    (n m : ℕ) (t : Text) (items : List PlanItem)
    → target_at n (update_at m (retire t) items) ≡ target_at n items
unfolding target_at update_at
target_at-update_at n m t [] = refl
target_at-update_at zero zero t (i ∷ is) = ap some (retire_target t i)
target_at-update_at zero (suc m) t (i ∷ is) = refl
target_at-update_at (suc n) zero t (i ∷ is) = refl
target_at-update_at (suc n) (suc m) t (i ∷ is) = target_at-update_at n m t is

module _ ⦃lib : Stdlib⦄ (device : DeviceProfile) where
  -- The map points from the key of an item to an item of the same target.
  abbrev Sound : Map ℕ → List PlanItem → PlanItem → Type 0
  Sound seen items i =
      is_live i ≡ true
      → (validate_device_target_path device i.target ≡ ok tt)
        × (n : ℕ) × (lookup (key_of device i.target) seen ≡ some n)
        × (target_at n items ≡ some i.target)

  keep-Sound :
      (seen : Map ℕ) (items : List PlanItem) (item i : PlanItem)
      → Sound seen items i
      → Sound seen (items ++ item ∷ []) i
  keep-Sound seen items item i s live =
      let (v, n, at, t) = s live in (v, n, at, target_at-append n items item i.target t)

  keep-All :
      (seen : Map ℕ) (items is : List PlanItem) (item : PlanItem)
      → All (Sound seen items) is
      → All (Sound seen (items ++ item ∷ [])) is
  keep-All seen items [] item ss = tt
  keep-All seen items (i ∷ is) item (s, ss) =
      (keep-Sound seen items item i s, keep-All seen items is item ss)

  -- An item that is not live is put last.
  idle-All :
      (seen : Map ℕ) (items : List PlanItem) (item : PlanItem)
      → is_live item ≡ false
      → All (Sound seen items) items
      → All (Sound seen (items ++ item ∷ [])) (items ++ item ∷ [])
  idle-All seen items item idle ss =
      All-append (Sound seen (items ++ item ∷ [])) items (item ∷ [])
        (keep-All seen items items item ss)
        ((λ live. absurd (true_not_false (sym live ∙ idle))), tt)

  retire-Sound :
      (seen : Map ℕ) (items : List PlanItem) (m : ℕ) (t : Text) (i : PlanItem)
      → Sound seen items i
      → Sound seen (update_at m (retire t) items) i
  retire-Sound seen items m t i s live =
      let (v, n, at, h) = s live in (v, n, at, target_at-update_at n m t items ∙ h)

  retire_others :
      (seen : Map ℕ) (items is : List PlanItem) (m : ℕ) (t : Text)
      → All (Sound seen items) is
      → All (Sound seen (update_at m (retire t) items)) is
  retire_others seen items [] m t ss = tt
  retire_others seen items (i ∷ is) m t (s, ss) =
      (retire-Sound seen items m t i s, retire_others seen items is m t ss)

  retire-All :
      (seen : Map ℕ) (items is : List PlanItem) (m k : ℕ) (t : Text)
      → All (Sound seen items) is
      → All (Sound seen (update_at m (retire t) items)) (update_at k (retire t) is)
  unfolding update_at
  retire-All seen items [] m k t ss = tt
  retire-All seen items (i ∷ is) m zero t (s, ss) = (
    λ live. absurd (true_not_false (sym live ∙ retire_idle t i)),
    retire_others seen items is m t ss,
  )
  retire-All seen items (i ∷ is) m (suc k) t (s, ss) =
      (retire-Sound seen items m t i s, retire-All seen items is m k t ss)

  module _ (seen : Map ℕ) (items : List PlanItem) (item : PlanItem) where
    abbrev IsFresh : Type 0
    IsFresh =
        (n : ℕ) (t : Text)
        → lookup (key_of device item.target) seen ≡ some n
        → target_at n items ≡ some t
        → t ≡ item.target

    insert-Sound :
        (i : PlanItem)
        → IsFresh
        → Sound seen items i
        → Sound (insert (key_of device item.target) (length items) seen) (items ++ item ∷ []) i
    insert-Sound i fresh s live =
        let (v, n, at, t) = s live in
        let known =
          lookup-insert (key_of device item.target) (key_of device i.target) (length items) seen in
        elim (Bool-cases (key_of device item.target =ᵗ key_of device i.target)) [
          | inl e ↦
              let same =
                fresh n i.target
                  (ap (λ k. lookup k seen)
                      ((text_eq_iff (key_of device item.target) (key_of device i.target)).0 e)
                    ∙ at)
                  t in
              (v, length items, known ∙ rw e refl, target_at-length items item ∙ ap some (sym same))
          | inr e ↦ (v, n, known ∙ rw e at, target_at-append n items item i.target t)
        ]

    insert-All :
        (is : List PlanItem)
        → IsFresh
        → All (Sound seen items) is
        → All
            (Sound (insert (key_of device item.target) (length items) seen) (items ++ item ∷ []))
            is
    insert-All [] fresh ss = tt
    insert-All (i ∷ is) fresh (s, ss) = (insert-Sound i fresh s, insert-All is fresh ss)

    last-Sound :
        validate_device_target_path device item.target ≡ ok tt
        → Sound (insert (key_of device item.target) (length items) seen) (items ++ item ∷ []) item
    last-Sound v live = (
      v,
      length items,
      lookup-insert (key_of device item.target) (key_of device item.target) (length items) seen
          ∙ rw (text_eq_refl (key_of device item.target)) refl,
      target_at-length items item,
    )

    add-All :
        validate_device_target_path device item.target ≡ ok tt
        → IsFresh
        → All (Sound seen items) items
        → All
            (Sound (insert (key_of device item.target) (length items) seen) (items ++ item ∷ []))
            (items ++ item ∷ [])
    add-All v fresh ss =
        All-append
          (Sound (insert (key_of device item.target) (length items) seen) (items ++ item ∷ []))
          items (item ∷ []) (insert-All items fresh ss) (last-Sound v, tt)

  abbrev AllSound : Preflight → Type 0
  AllSound p = All (Sound p.seen p.items) p.items

  module _ (describe : DeviceError → Text) where
    pointed_known :
        (seen : Map ℕ) (items : List PlanItem) (k : Text) (n : ℕ) (t : Text)
        → lookup k seen ≡ some n
        → target_at n items ≡ some t
        → pointed (lookup k seen) items ≡ some (n, t)
    pointed_known seen items k n t h at = rw (h, at) refl

    look_up-AllSound :
        (item : PlanItem) (p : Preflight) (o : Option (ℕ × Text))
        → o ≡ pointed (lookup (key_of device item.target) p.seen) p.items
        → validate_device_target_path device item.target ≡ ok tt
        → AllSound p
        → AllSound (look_up device describe item o p)
    unfolding look_up
    look_up-AllSound item p none e v ss =
        add-All p.seen p.items item v
          (λ n t h at.
            none_some (n, t)
              (e ∙ pointed_known p.seen p.items (key_of device item.target) n t h at))
          ss
    look_up-AllSound item p (some (index, target)) e v ss =
        elim (Bool-cases (target =ᵗ item.target)) [
          | inl same ↦
              let fresh : IsFresh p.seen p.items item = λ n t h at.
                some_target index n target t
                  (e ∙ pointed_known p.seen p.items (key_of device item.target) n t h at)
                ∙ (text_eq_iff target item.target).0 same in
              rw same (add-All p.seen p.items item v fresh ss)
          | inr other ↦ rw other (
              idle-All p.seen (update_at index (retire item.target) p.items)
                (in_conflict (collides target) item) (conflict_idle (collides target) item)
                (retire-All p.seen p.items p.items index index item.target ss))
        ]

    check_target-AllSound :
        (item : PlanItem) (p : Preflight) (r : Result DeviceError Unit)
        → validate_device_target_path device item.target ≡ r
        → AllSound p
        → AllSound (check_target device describe item r p)
    unfolding check_target
    check_target-AllSound item p (err x) e ss =
        idle-All p.seen p.items (in_conflict (describe x) item) (conflict_idle (describe x) item) ss
    check_target-AllSound item p (ok tt) e ss =
        look_up-AllSound item p (pointed (lookup (key_of device item.target) p.seen) p.items) refl e
          ss

    check_items-AllSound :
        (items : List PlanItem) (p : Preflight)
        → AllSound p
        → AllSound (check_items device describe items p)
    unfolding check_items
    check_items-AllSound [] p ss = ss
    check_items-AllSound (item ∷ items) p ss =
        check_items-AllSound items (check_item device describe item p)
          (elim (Bool-cases (is_live item)) [
            | inl live ↦
                unfold check_item in
                rw live (
                  check_target-AllSound item p (validate_device_target_path device item.target) refl
                    ss)
            | inr idle ↦ unfold check_item in rw idle (idle-All p.seen p.items item idle ss)
          ])

  abbrev pub passes : PlanItem → Bool
  passes item = not (is_live item) || is_ok (validate_device_target_path device item.target)

  abbrev pub agrees : PlanItem → PlanItem → Bool
  agrees a b =
      not (is_live a)
      || not (is_live b)
      || not (key_of device a.target =ᵗ key_of device b.target)
      || a.target =ᵗ b.target

  passed :
      (seen : Map ℕ) (items is : List PlanItem) → All (Sound seen items) is → all passes is ≡ true
  passed seen items [] ss = refl
  passed seen items (i ∷ is) (s, ss) = elim (Bool-cases (is_live i)) [
    | inl live ↦ rw (live, (s live).0) (passed seen items is ss)
    | inr idle ↦ rw idle (passed seen items is ss)
  ]

  agrees_two :
      (seen : Map ℕ) (items : List PlanItem) (a b : PlanItem)
      → Sound seen items a
      → Sound seen items b
      → agrees a b ≡ true
  agrees_two seen items a b sa sb =
      elim (Bool-cases
        (is_live a && is_live b && key_of device a.target =ᵗ key_of device b.target)) [
          | inl e ↦
              let (va, n, at, ta) = sa (ground arith) in
              let (vb, m, bt, tb) = sb (ground arith) in
              let same =
                (text_eq_iff (key_of device a.target) (key_of device b.target)).0 (ground arith) in
              let pointers : some n ≡ some m = sym at ∙ ap (λ k. lookup k seen) same ∙ bt in
              let targets : some a.target ≡ some b.target =
                sym ta ∙ ap (λ x. target_at x items) (some_injective n m pointers) ∙ tb in
              let equal =
                (text_eq_iff a.target b.target).1 (some_injective a.target b.target targets) in
              ground (arith, equal)
          | inr e ↦ ground arith
        ]

  agrees_one :
      (seen : Map ℕ) (items is : List PlanItem) (a : PlanItem)
      → Sound seen items a
      → All (Sound seen items) is
      → all (agrees a) is ≡ true
  agrees_one seen items [] a sa ss = refl
  agrees_one seen items (i ∷ is) a sa (s, ss) =
      rw (agrees_two seen items a i sa s) (agrees_one seen items is a sa ss)

  agreed :
      (seen : Map ℕ) (items is js : List PlanItem)
      → All (Sound seen items) is
      → All (Sound seen items) js
      → all (λ a. all (agrees a) js) is ≡ true
  agreed seen items [] js ss ts = refl
  agreed seen items (i ∷ is) js (s, ss) ts =
      rw (agrees_one seen items js i s ts) (agreed seen items is js ss ts)

  -- After the preflight, whatever was planned, every item that is neither missing nor a conflict has
  -- a target that the device accepts, and two such items whose targets are the same up to case, on a
  -- device that does not tell case apart, have the same target.
  pub apply_device_preflight-Agrees :
      (describe : DeviceError → Text) (target mode : Text) (plan : Plan)
      → (all passes (apply_device_preflight device describe target mode plan).items ≡ true)
        × (all
              (λ a. all (agrees a) (apply_device_preflight device describe target mode plan).items)
              (apply_device_preflight device describe target mode plan).items
            ≡ true)
  unfolding apply_device_preflight
  apply_device_preflight-Agrees describe target mode plan =
      let found = device_warnings device describe target mode in
      let start : Preflight = record {
        items = [];
        seen = [];
        conflicts = plan.conflicts ++ map (λ w. w.0) found;
      } in
      let p = check_items device describe plan.items start in
      let ss = check_items-AllSound describe plan.items start tt in
      (passed p.seen p.items p.items ss, agreed p.seen p.items p.items p.items ss ss)
