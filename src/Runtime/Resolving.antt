-- ===== src/Runtime/Resolving.antt =====
-- What a resolved launch is.
use varkiv.Common.{
  Text, Stdlib, trim, ◌≡◌, refl, ap, sym, ◌∙◌, Bool, true, not, ◌&&◌, ◌||◌, ◌=ᵗ◌, member, some,
  List, [], ◌∷◌, is_empty, all, ok, inl, inr, arith, bind_ok, reject_bind_ok, reject_ok, or_fail_ok,
  or_fail, ok_injective, subst, Bool-cases, some_injective, ℕ, any,
}
use varkiv.Common.Maps.{Map}
use varkiv.Runtime.Names.{has_twice}
use varkiv.Runtime.Artifacts.{Artifact, is_candidate, select_launch_artifact}
use varkiv.Runtime.Selection.{select_launch_artifact-IsFound, IsFound}
use varkiv.Runtime.Arguments.{
  render_argument, replace_all, validate_launch_arguments, ids_required, no_rows, value_of,
  not_enabled, regexp_variables, wrong_platform, unavailable, wrong_target, unresolved, no_artifact,
}
use varkiv.Runtime.Resolver.{
  LaunchStore, LaunchResolution, first, resolve_launch_binding, choose_core, launch_values,
  render_all, resolve, Parts, find_parts, check_parts, check_adapter, templates, resolution,
  complete_launch,
}

-- No placeholder is left.
abbrev pub is_rendered : Text → Bool
is_rendered argument = not (has_twice b'{' argument || has_twice b'}' argument)

first_holds : {A : Type 0} (p : A → Bool) (xs : List A) (x : A) → first p xs ≡ some x → p x ≡ true
first_holds p [] x h = cc
first_holds p (y ∷ ys) x h = elim (Bool-cases (p y)) [
  | inl e ↦ ap p (sym (some_injective y x (sym (rw e refl) ∙ h))) ∙ e
  | inr e ↦ first_holds p ys x (sym (rw e refl) ∙ h)
]

render_argument-is_rendered :
    (argument : Text) (values : Map Text) (t : Text)
    → render_argument argument values ≡ ok t
    → is_rendered t ≡ true
unfolding render_argument
render_argument-is_rendered argument values t h =
    let (u, v, h1) = bind_ok (validate_launch_arguments (argument ∷ [])) _ t h in
    let (w, h2) =
      reject_bind_ok
        (any (λ name. is_empty (trim (value_of name values))) (regexp_variables argument))
        unavailable _ t h1 in
    let (clear, h3) =
      reject_bind_ok
        (has_twice b'{' (replace_all values argument)
          || has_twice b'}' (replace_all values argument))
        unresolved _ t h2 in
    subst (λ x. is_rendered x ≡ true) (ok_injective (replace_all values argument) t h3)
      (rw clear refl)

render_all-is_rendered :
    (values : Map Text) (arguments ts : List Text)
    → render_all values arguments ≡ ok ts
    → all is_rendered ts ≡ true
unfolding render_all
render_all-is_rendered values [] ts h =
    subst (λ x. all is_rendered x ≡ true) (ok_injective [] ts h) refl
render_all-is_rendered values (a ∷ rest) ts h =
    let (t, h1, h2) = bind_ok (render_argument a values) _ ts h in
    let (us, h3, h4) = bind_ok (render_all values rest) _ ts h2 in
    subst (λ x. all is_rendered x ≡ true) (ok_injective (t ∷ us) ts h4)
      (rw (render_argument-is_rendered a values t h1) (render_all-is_rendered values rest us h3))

-- The driver, the device profile and the binding are enabled, and the driver supports the others.
abbrev pub are_fit : Parts → Bool
are_fit p =
    p.driver.enabled
    && p.device.enabled
    && p.binding.enabled
    && member p.game.platform p.driver.platforms
    && member p.device.target p.driver.targets

abbrev pub is_named : Parts → Bool
is_named p = p.driver.id =ᵗ p.binding.driver_id

check_parts_lem : (p : Parts) (u : Unit) → check_parts p ≡ ok u → are_fit p ≡ true
unfolding check_parts
check_parts_lem p u h =
    let (on, h1) =
      reject_bind_ok (not p.driver.enabled || not p.device.enabled || not p.binding.enabled)
        not_enabled _ u h in
    let (platform, h2) =
      reject_bind_ok (not (member p.game.platform p.driver.platforms)) wrong_platform _ u h1 in
    let target = reject_ok (not (member p.device.target p.driver.targets)) wrong_target u h2 in
    ground (arith, on, platform, target)

find_parts_lem :
    (edition device : Text) (st : LaunchStore) (p : Parts)
    → find_parts edition device st ≡ ok p
    → is_named p ≡ true
unfolding find_parts
find_parts_lem edition_id device_id st p h =
    let (edition, e1, h1) =
      bind_ok (or_fail (first (λ e. e.id =ᵗ edition_id) st.editions) no_rows) _ p h in
    let (game, e2, h2) =
      bind_ok (or_fail (first (λ g. g.id =ᵗ edition.game_id) st.games) no_rows) _ p h1 in
    let (device, e3, h3) =
      bind_ok (or_fail (first (λ d. d.id =ᵗ device_id) st.device_profiles) no_rows) _ p h2 in
    let (binding, e4, h4) =
      bind_ok (or_fail (resolve_launch_binding edition_id device_id st) no_rows) _ p h3 in
    let (driver, e5, h5) =
      bind_ok (or_fail (first (λ d. d.id =ᵗ binding.driver_id) st.drivers) no_rows) _ p h4 in
    let made : Parts = record {
      edition = edition;
      game = game;
      device = device;
      binding = binding;
      driver = driver;
    } in
    subst (λ x. is_named x ≡ true) (ok_injective made p h5)
      (first_holds (λ d. d.id =ᵗ binding.driver_id) st.drivers driver
        (or_fail_ok (first (λ d. d.id =ᵗ binding.driver_id) st.drivers) no_rows driver e5))

module _ ⦃lib : Stdlib⦄ where
  selected :
      (artifacts : List Artifact) (r : ℕ × Artifact)
      → select_launch_artifact artifacts ≡ some r
      → is_candidate r.1 ≡ true
  selected artifacts r h =
      (subst (λ o. IsFound o artifacts) h (select_launch_artifact-IsFound artifacts)).1

  -- What holds of a launch that was resolved.
  abbrev pub is_runnable : LaunchResolution → Bool
  is_runnable r =
      are_fit r.parts && is_named r.parts && is_candidate r.artifact && all is_rendered r.arguments

  complete_launch_lem :
      (arrange : Map Text → Map Text) (p : Parts) (st : LaunchStore) (r : LaunchResolution)
      → complete_launch arrange p st ≡ ok r
      → (r.parts ≡ p) × (is_candidate r.artifact ≡ true) × (all is_rendered r.arguments ≡ true)
  unfolding complete_launch
  complete_launch_lem arrange p st r h =
      let ((index, artifact), e1, h1) =
        bind_ok (or_fail (select_launch_artifact p.edition.artifacts) no_artifact) _ r h in
      let (u, e2, h2) = bind_ok (check_adapter p st) _ r h1 in
      let (core, e3, h3) =
        bind_ok (choose_core p.game p.edition p.device p.binding p.driver st) _ r h2 in
      let values = arrange (launch_values p.edition p.game p.device artifact core) in
      let (arguments, e4, h4) = bind_ok (render_all values (templates p)) _ r h3 in
      let candidate =
        selected p.edition.artifacts (index, artifact)
          (or_fail_ok (select_launch_artifact p.edition.artifacts) no_artifact (index, artifact)
            e1) in
      subst
        (λ x.
          (x.parts ≡ p) × (is_candidate x.artifact ≡ true) × (all is_rendered x.arguments ≡ true))
        (ok_injective (resolution p artifact core arguments) r h4)
        (unfold resolution in
          (refl, candidate, render_all-is_rendered values (templates p) arguments e4))

  -- A launch that Resolve gives, in whatever order the values are substituted, has a driver, a
  -- device profile and a binding that are enabled; the driver is that of the binding and supports
  -- the platform of the game and the target of the device; the artifact is present and of a role
  -- that is launched; and no argument has an opening or closing of a placeholder left.
  pub resolve-is_runnable :
      (arrange : Map Text → Map Text) (edition device : Text) (st : LaunchStore)
      (r : LaunchResolution)
      → resolve arrange edition device st ≡ ok r
      → is_runnable r ≡ true
  unfolding resolve
  resolve-is_runnable arrange edition device st r h =
      let (ids, h1) =
        reject_bind_ok (is_empty (trim edition) || is_empty (trim device)) ids_required _ r h in
      let (p, e1, h2) = bind_ok (find_parts (trim edition) (trim device) st) _ r h1 in
      let (u, e2, h3) = bind_ok (check_parts p) _ r h2 in
      let (same, candidate, rendered) = complete_launch_lem arrange p st r h3 in
      let fit : are_fit r.parts ≡ true = ap are_fit same ∙ check_parts_lem p u e2 in
      let named : is_named r.parts ≡ true =
        ap is_named same ∙ find_parts_lem (trim edition) (trim device) st p e1 in
      rw (fit, named, candidate) rendered
