-- ===== src/Common/Hex.antt =====
-- encoding/hex: two lower-case digits for a byte; both cases are read back.
use Prim.Native.Nat.{ℕ, ◌+◌, ◌-◌, ◌*◌, ◌/◌, ◌%◌, ◌<◌}
use mathlib.Core.Path.{◌≡◌, refl}
use mathlib.Core.Bool.{true, not, ◌&&◌}
use mathlib.Core.List.{List, [], ◌∷◌}
use mathlib.Core.Option.{Option, none, some}
use native.Mathlib.Omega.{arith}
use varkiv.Common.Tests.{ltb, leb, if◌then◌else◌}
use varkiv.Common.Lists.{all, All}
use varkiv.Common.Texts.{Text, is_space}
use varkiv.Common.Trimming.{trim, trim_solid}

abbrev digit : ℕ → ℕ
digit n = if ltb n 10 then b'0' + n else b'a' + (n - 10)

-- hex.EncodeToString
unfoldable pub encode : List ℕ → Text
encode [] = []
encode (b ∷ bs) = digit (b / 16) ∷ digit (b % 16) ∷ encode bs

abbrev value : ℕ → Option ℕ
value c =
    if leb b'0' c && leb c b'9'
    then some (c - b'0')
    else if leb b'a' c && leb c b'f'
    then some (c - b'a' + 10)
    else if leb b'A' c && leb c b'F'
    then some (c - b'A' + 10)
    else none

abbrev byte : Option ℕ → Option ℕ → Option (List ℕ) → Option (List ℕ)
byte (some h) (some l) (some bs) = some ((h * 16 + l) ∷ bs)
byte (some h) (some l) none = none
byte (some h) none r = none
byte none l r = none

-- hex.DecodeString; `none` is its error.
unfoldable pub decode : Text → Option (List ℕ)
decode [] = some []
decode (c ∷ []) = none
decode (c ∷ d ∷ s) = byte (value c) (value d) (decode s)

abbrev pub IsByte : ℕ → Type 0
IsByte b = b < 256

value-digit : (n : ℕ) → n < 16 → value (digit n) ≡ some n
value-digit n h = ground arith

-- Decoding undoes encoding.
pub decode-encode : (bs : List ℕ) → All IsByte bs → decode (encode bs) ≡ some bs
unfolding decode encode
decode-encode [] h = refl
decode-encode (b ∷ bs) h =
    rw
      (value-digit (b / 16) (omega arith), value-digit (b % 16) (omega arith), decode-encode bs h.1)
      (ground arith)

digit_solid : (n : ℕ) → n < 16 → not (is_space (digit n)) ≡ true
unfolding is_space
digit_solid n h = ground arith

encode_solid : (bs : List ℕ) → All IsByte bs → all (λ c. not (is_space c)) (encode bs) ≡ true
unfolding encode
encode_solid [] h = refl
encode_solid (b ∷ bs) h =
    rw (digit_solid (b / 16) (omega arith), digit_solid (b % 16) (omega arith))
      (encode_solid bs h.1)

-- So a token survives TrimSpace.
pub trim-encode : (bs : List ℕ) → All IsByte bs → trim (encode bs) ≡ encode bs
trim-encode bs h = trim_solid (encode bs) (encode_solid bs h)
