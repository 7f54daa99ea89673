-- ===== src/Paths/Again.antt =====
-- CleanSaveLogical on what it has accepted.
use varkiv.Common.{
  ℕ, ◌≡◌, refl, sym, ap, ◌∙◌, Text, Stdlib, trim, byte_len, trim-map, Bool, false, not, ◌||◌, ◌==◌,
  ◌=ᵗ◌, text_eq_iff, [], ◌∷◌, is_empty, any, ok, err, Result, Bool-cases, inl, inr, arith, ltb,
  if◌then◌else◌, ok_injective, subst, is_space,
}
use varkiv.Paths.Slashes.{split, clean, is_rooted}
use varkiv.Paths.SaveLogical.{
  PathError, clean_save_logical, to_slashes, refuses_part, ends_with, has_double_slash,
  max_save_logical_bytes, unsafe_save_logical_path,
}

abbrev slashed : ℕ → ℕ
slashed c = if c == b'\\' then b'/' else c

slashed_space : (c : ℕ) → is_space (slashed c) ≡ is_space c
unfolding is_space
slashed_space c = elim (Bool-cases (c == b'\\')) [ inl e ↦ ground arith | inr e ↦ rw e refl ]

byte_len-to_slashes : (s : Text) → byte_len (to_slashes s) ≡ byte_len s
unfolding byte_len to_slashes
byte_len-to_slashes [] = refl
byte_len-to_slashes (c ∷ s) = ground (arith, byte_len-to_slashes s)

to_slashes_idem : (s : Text) → to_slashes (to_slashes s) ≡ to_slashes s
unfolding to_slashes
to_slashes_idem [] = refl
to_slashes_idem (c ∷ s) = ground (arith, to_slashes_idem s)

is_empty-to_slashes : (s : Text) → is_empty (to_slashes s) ≡ is_empty s
unfolding to_slashes
is_empty-to_slashes [] = refl
is_empty-to_slashes (c ∷ s) = refl

trim-to_slashes : (s : Text) → trim (to_slashes s) ≡ to_slashes (trim s)
unfolding to_slashes
trim-to_slashes s = trim-map slashed slashed_space s

err_ok :
    {A : Type 0} (t : Text)
    → (let r : Result PathError Text = err unsafe_save_logical_path in r) ≡ ok t
    → A
err_ok t h = cc

abbrev is_improper : Text → Bool
is_improper value =
    is_empty value || not (value =ᵗ trim value) || ltb max_save_logical_bytes (byte_len value)

improper_slashes :
    (value : Text) → is_improper value ≡ false → is_improper (to_slashes value) ≡ false
improper_slashes value h =
    let trimmed = (text_eq_iff value (trim value)).0 (ground arith) in
    let again =
      (text_eq_iff (to_slashes value) (trim (to_slashes value))).1
        (ap to_slashes trimmed ∙ sym (trim-to_slashes value)) in
    ground (arith, again, is_empty-to_slashes value, byte_len-to_slashes value)

module _ ⦃lib : Stdlib⦄ where
  abbrev is_unclean : Text → Bool
  is_unclean normalized =
      is_rooted normalized
      || ends_with b'/' normalized
      || has_double_slash normalized
      || not (clean normalized =ᵗ normalized)

  abbrev has_refused : Text → Bool
  has_refused normalized = any refuses_part (split b'/' normalized)

  -- What was tested on a value that was accepted.
  accepted :
      (value path : Text)
      → clean_save_logical value ≡ ok path
      → (is_improper value ≡ false)
        × (is_unclean (to_slashes value) ≡ false)
        × (has_refused (to_slashes value) ≡ false)
        × (to_slashes value ≡ path)
  unfolding clean_save_logical
  accepted value path h = elim (Bool-cases (is_improper value)) [
    | inl e ↦ err_ok path (sym (rw e refl) ∙ h)
    | inr e ↦ elim (Bool-cases (is_unclean (to_slashes value))) [
      | inl x ↦ err_ok path (sym (rw (e, x) refl) ∙ h)
      | inr x ↦ elim (Bool-cases (has_refused (to_slashes value))) [
        | inl y ↦ err_ok path (sym (rw (e, x, y) refl) ∙ h)
        | inr y ↦ (e, x, y, ok_injective (to_slashes value) path (sym (rw (e, x, y) refl) ∙ h))
      ]
    ]
  ]

  accepts :
      (value : Text)
      → is_improper value ≡ false
      → is_unclean value ≡ false
      → has_refused value ≡ false
      → to_slashes value ≡ value
      → clean_save_logical value ≡ ok value
  unfolding clean_save_logical
  accepts value a b c e = rw (e, a, b, c) refl

  -- A path that was accepted is accepted again, as it is.
  pub clean_save_logical_again :
      (value path : Text) → clean_save_logical value ≡ ok path → clean_save_logical path ≡ ok path
  clean_save_logical_again value path h =
      let (a, b, c, e) = accepted value path h in
      subst (λ p. clean_save_logical p ≡ ok p) e
        (accepts (to_slashes value) (improper_slashes value a) b c (to_slashes_idem value))
