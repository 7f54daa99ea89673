-- ===== src/Paths/Portable.antt =====
-- Which paths CleanSaveLogical of internal/portablepath/save.go accepts.
use varkiv.Common.{
  ℕ, ◌≡◌, ◌≢◌, refl, sym, ◌∙◌, ◌↔◌, inl, inr, Text, codes, Stdlib, trim, byte_len, Bool, true,
  false, ◌||◌, ◌=ᵗ◌, text_eq_iff, text_eq_refl, List, [], ◌∷◌, is_empty, any, ok, Bool-cases,
  List-cases, arith, ◌++◌, ◌≤◌,
}
use mathlib.Core.Bool.{false≢true}
use mathlib.Core.List.{append-nil}
use varkiv.Paths.Slashes.{
  split, split-ne-nil, join-split, clean, push, push_all, is_rooted, reverse_onto, cons_head,
}
use varkiv.Paths.SaveLogical.{
  ends_with, has_double_slash, to_slashes, refuses_part, clean_save_logical, max_save_logical_bytes,
}

abbrev tail : List Text → List Text
tail [] = []
tail (p ∷ ps) = ps

any-tail : (p : Text → Bool) (xs : List Text) → any p (tail xs) ≡ true → any p xs ≡ true
any-tail p [] h = h
any-tail p (x ∷ xs) h = ground arith

tail-cons_head : (c : ℕ) (xs : List Text) → xs ≢ [] → tail (cons_head c xs) ≡ tail xs
tail-cons_head c [] h = absurd (h refl)
tail-cons_head c (x ∷ xs) h = refl

-- An empty part of the tail stays one when a character is put in front.
tail-split :
    (c : ℕ) (s : Text)
    → any is_empty (tail (split b'/' s)) ≡ true
    → any is_empty (tail (split b'/' (c ∷ s))) ≡ true
unfolding split
tail-split c s h = ground (
  arith,
  tail-cons_head c (split b'/' s) (split-ne-nil b'/' s),
  any-tail is_empty (split b'/' s) h,
)

double_slash_part :
    (s : Text) → has_double_slash s ≡ true → any is_empty (tail (split b'/' s)) ≡ true
unfolding has_double_slash
double_slash_part [] h = cc
double_slash_part (c ∷ []) h = cc
double_slash_part (c ∷ d ∷ s) h = elim (Bool-cases (has_double_slash (d ∷ s))) [
  | inl again ↦ tail-split c (d ∷ s) (double_slash_part (d ∷ s) again)
  | inr once ↦ unfold split in ground arith
]

end_slash_part : (s : Text) → ends_with b'/' s ≡ true → any is_empty (tail (split b'/' s)) ≡ true
unfolding ends_with
end_slash_part [] h = cc
end_slash_part (c ∷ []) h = unfold split in ground arith
end_slash_part (c ∷ d ∷ s) h = tail-split c (d ∷ s) (end_slash_part (d ∷ s) h)

root_part : (s : Text) → is_rooted s ≡ true → any is_empty (split b'/' s) ≡ true
unfolding is_rooted split
root_part [] h = cc
root_part (c ∷ s) h = ground arith

reverse_onto_twice :
    (xs ys zs : List Text) → reverse_onto (reverse_onto xs ys) zs ≡ reverse_onto ys (xs ++ zs)
reverse_onto_twice [] ys zs = refl
reverse_onto_twice (x ∷ xs) ys zs = reverse_onto_twice xs (x ∷ ys) zs

module _ ⦃lib : Stdlib⦄ where
  plain_part :
      (p : Text)
      → refuses_part p ≡ false
      → ((is_empty p || (p =ᵗ codes ".")) ≡ false) × ((p =ᵗ codes "..") ≡ false)
  unfolding refuses_part
  plain_part p h = ground arith

  push_plain :
      (stack : List Text) (p : Text) → refuses_part p ≡ false → push false stack p ≡ p ∷ stack
  unfolding push
  push_plain [] p h = let (a, b) = plain_part p h in rw (a, b)
  push_plain (q ∷ qs) p h = let (a, b) = plain_part p h in rw (a, b)

  push_all_plain :
      (stack ps : List Text)
      → any refuses_part ps ≡ false
      → push_all false stack ps ≡ reverse_onto ps stack
  unfolding push_all
  push_all_plain stack [] h = refl
  push_all_plain stack (p ∷ ps) h =
      rw (push_plain stack p (ground arith)) (push_all_plain (p ∷ stack) ps (ground arith))

  no_empty_part : (ps : List Text) → any refuses_part ps ≡ false → any is_empty ps ≡ false
  no_empty_part [] h = refl
  no_empty_part (p ∷ ps) h = ground (arith, no_empty_part ps, plain_part p)

  -- A text whose parts all pass is relative and clean.
  module _ (n : Text) (h : any refuses_part (split b'/' n) ≡ false) where
    not_rooted : is_rooted n ≡ false
    not_rooted = ground (arith, root_part n, no_empty_part (split b'/' n) h)

    no_double_slash : has_double_slash n ≡ false
    no_double_slash = ground (
      arith,
      double_slash_part n,
      any-tail is_empty (split b'/' n),
      no_empty_part (split b'/' n) h,
    )

    no_end_slash : ends_with b'/' n ≡ false
    no_end_slash =
        ground (
          arith,
          end_slash_part n,
          any-tail is_empty (split b'/' n),
          no_empty_part (split b'/' n) h,
        )

    components : reverse_onto (push_all false [] (split b'/' n)) [] ≡ split b'/' n
    components =
        rw (push_all_plain [] (split b'/' n) h)
          (reverse_onto_twice (split b'/' n) [] [] ∙ append-nil (split b'/' n))

    not_empty : is_empty n ≡ false
    unfolding split
    not_empty = elim (List-cases n) [
      | inl e ↦ absurd (false≢true (sym h ∙ rw (e, split) (unfold refuses_part in refl)))
      | inr (c, r, e) ↦ rw e
    ]

    clean_plain : clean n ≡ n
    unfolding clean
    clean_plain = rw not_rooted (rw components (rw (join-split b'/' n) (rw not_empty)))

  -- What a path has to be to be kept as it is, but for its slashes.
  pub record IsPortable (value : Text) : Type 0 where
    pub not_blank : is_empty value ≡ false
    pub trimmed : value ≡ trim value
    pub short : byte_len value ≤ max_save_logical_bytes
    pub parts : any refuses_part (split b'/' (to_slashes value)) ≡ false

  accepted :
      (value n : Text)
      → clean_save_logical value ≡ ok n
      → ((value =ᵗ trim value) ≡ true)
        × (is_empty value ≡ false)
        × (byte_len value ≤ max_save_logical_bytes)
        × (any refuses_part (split b'/' (to_slashes value)) ≡ false)
        × (n ≡ to_slashes value)
  unfolding clean_save_logical
  accepted value n h = ground arith

  -- CleanSaveLogical accepts a value exactly when it is not empty, has no white space at its ends,
  -- is at most 1024 bytes long, and no part between slashes or backslashes is refused; the result
  -- is the value with its backslashes turned into slashes.
  pub clean_save_logical_iff :
      (value n : Text)
      → (clean_save_logical value ≡ ok n) ↔ (IsPortable value × (n ≡ to_slashes value))
  unfolding clean_save_logical
  clean_save_logical_iff value n = (
    λ h.
        let (a, b, c, d, e) = accepted value n h in
        (
          record {
            not_blank = b;
            trimmed = (text_eq_iff value (trim value)).0 a;
            short = c;
            parts = d;
          },
          e,
        ),
    λ (r, e).
        let m = to_slashes value in
        rw
          (
            r.not_blank,
            (text_eq_iff value (trim value)).1 r.trimmed,
            not_rooted m r.parts,
            no_end_slash m r.parts,
            no_double_slash m r.parts,
            clean_plain m r.parts,
            text_eq_refl m,
            r.parts,
          )
          (ground (arith, r.short)),
  )
