-- ===== src/Paths/Reserved.antt =====
-- windowsReserved of internal/portablepath/save.go on names with two extensions.
use varkiv.Common.{
  ◌≡◌, refl, Text, Stdlib, upper, upper_rune, true, false, ◌=ᵗ◌, [], ◌∷◌, ◌++◌, arith,
}
use varkiv.Paths.Slashes.{has}
use varkiv.Paths.SaveLogical.{stem, is_device, windows_reserved}

has_middle : (a b : Text) → has b'.' (a ++ b'.' ∷ b) ≡ true
has_middle [] b = refl
has_middle (c ∷ a) b = ground (arith, has_middle a b)

stem-last : (a x : Text) → has b'.' x ≡ false → stem (a ++ b'.' ∷ x) ≡ a
unfolding stem
stem-last [] x h = ground arith
stem-last (c ∷ a) x h = ground (arith, has_middle a x, stem-last a x h)

-- No device has a dot in its name.
not_device : (t : Text) → has b'.' t ≡ true → is_device t ≡ false
unfolding is_device ◌=ᵗ◌
not_device [] h = cc
not_device (a ∷ []) h = ground arith
not_device (a ∷ b ∷ []) h = ground arith
not_device (a ∷ b ∷ c ∷ []) h = ground arith
not_device (a ∷ b ∷ c ∷ d ∷ []) h = ground arith
not_device (a ∷ b ∷ c ∷ d ∷ e ∷ t) h = ground arith

module _ ⦃lib : Stdlib⦄ where
  has-upper : (t : Text) → has b'.' t ≡ true → has b'.' (upper t) ≡ true
  unfolding upper upper_rune
  has-upper [] h = cc
  has-upper (c ∷ t) h = ground (arith, has-upper t)

  -- A name with two extensions, of which the first may be empty, is never taken for a reserved
  -- Windows device, whatever comes before the extensions.
  pub windows_reserved_two :
      (device first second : Text)
      → has b'.' second ≡ false
      → windows_reserved ((device ++ b'.' ∷ first) ++ b'.' ∷ second) ≡ false
  unfolding windows_reserved
  windows_reserved_two device first second h = rw (stem-last (device ++ b'.' ∷ first) second h) (
      not_device (upper (device ++ b'.' ∷ first))
        (has-upper (device ++ b'.' ∷ first) (has_middle device first)))
