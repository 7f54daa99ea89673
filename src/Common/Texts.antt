-- ===== src/Common/Texts.antt =====
-- Go strings as their code points. A Go string is a sequence of bytes; a text here is a valid UTF-8
-- string, of which `byte_len` is the `len`. Case mapping beyond ASCII and SHA-256 are arguments.
use Prim.Native.Nat.{zero, ℕ, ◌+◌, ◌-◌, suc, ◌/◌, ◌%◌}
use Prim.Native.Char.{code}
use Prim.Native.String.{String}
use mathlib.Core.Path.{◌≡◌, refl}
use mathlib.Core.Logic.{◌↔◌}
use mathlib.Core.Bool.{Bool, true, false, ◌&&◌, ◌||◌}
use mathlib.Core.List.{List, [], ◌∷◌, map}
use native.Mathlib.Omega.{arith}
use varkiv.Common.Tests.{ltb, leb, ◌==◌, if◌then◌else◌, ℤ, pos, negsuc}

abbrev pub Text : Type 0
Text = List ℕ

-- A literal.
abbrev pub codes : String → Text
codes String.[] = []
codes (String.◌∷◌ c s) = code c ∷ codes s

-- What the model takes from Go's library as it is: the case tables of package unicode beyond ASCII,
-- and crypto/sha256 of a text and of bytes, in lower-case hexadecimal.
pub record Stdlib : Type 0 where
  pub lower_wide : ℕ → ℕ
  pub upper_wide : ℕ → ℕ
  pub sha256 : Text → Text
  pub sha256_bytes : List ℕ → Text

infix 50 ◌=ᵗ◌
unfoldable pub ◌=ᵗ◌ : Text → Text → Bool
[] =ᵗ [] = true
[] =ᵗ (d ∷ t) = false
(c ∷ s) =ᵗ [] = false
(c ∷ s) =ᵗ (d ∷ t) = (c == d) && (s =ᵗ t)

pub text_eq_iff : (s t : Text) → ((s =ᵗ t) ≡ true) ↔ (s ≡ t)
unfolding ◌=ᵗ◌
text_eq_iff [] [] = ground arith
text_eq_iff [] (d ∷ t) = ground arith
text_eq_iff (c ∷ s) [] = ground arith
text_eq_iff (c ∷ s) (d ∷ t) = ground (arith, text_eq_iff s t)

pub text_eq_refl : (s : Text) → (s =ᵗ s) ≡ true
text_eq_refl s = (text_eq_iff s s).1 refl

abbrev pub member : Text → List Text → Bool
member t [] = false
member t (x ∷ xs) = (x =ᵗ t) || member t xs

-- The UTF-8 width of a code point.
abbrev pub width : ℕ → ℕ
width c = if ltb c 0x80 then 1 else if ltb c 0x800 then 2 else if ltb c 0x10000 then 3 else 4

-- len(s)
unfoldable pub byte_len : Text → ℕ
byte_len [] = 0
byte_len (c ∷ s) = width c + byte_len s

-- unicode.IsSpace
unfoldable pub is_space : ℕ → Bool
is_space c =
    (leb 9 c && leb c 13)
    || c == 0x20
    || c == 0x85
    || c == 0xA0
    || c == 0x1680
    || (leb 0x2000 c && leb c 0x200a)
    || c == 0x2028
    || c == 0x2029
    || c == 0x202f
    || c == 0x205f
    || c == 0x3000

module _ ⦃lib : Stdlib⦄ where
  unfoldable pub lower_rune : ℕ → ℕ
  lower_rune c =
      if ltb c 0x80 then (if leb b'A' c && leb c b'Z' then c + 32 else c) else lib.lower_wide c

  unfoldable pub upper_rune : ℕ → ℕ
  upper_rune c =
      if ltb c 0x80 then (if leb b'a' c && leb c b'z' then c - 32 else c) else lib.upper_wide c

  -- strings.ToLower
  unfoldable pub lower : Text → Text
  unfolding lower_rune
  lower = map lower_rune

  -- strings.ToUpper
  unfoldable pub upper : Text → Text
  unfolding upper_rune
  upper = map upper_rune

abbrev digits : ℕ → ℕ → Text → Text
digits zero n s = s
digits (suc fuel) n s =
    let more = digits fuel (n / 10) ((b'0' + n % 10) ∷ s) in
    if ltb n 10 then (b'0' + n) ∷ s else more

-- strconv.FormatInt(n, 10); a number has fewer digits than its successor.
unfoldable pub format_int : ℤ → Text
format_int (pos n) = digits (suc n) n []
format_int (negsuc n) = b'-' ∷ digits (suc (suc n)) (suc n) []
