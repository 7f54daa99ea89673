-- ===== src/Paths/SaveLogical.antt =====
-- internal/portablepath/save.go. A text is valid UTF-8, so `utf8.ValidString` always passes.
use varkiv.Common.{
  ℕ, ◌*◌, Text, codes, Stdlib, trim, upper, byte_len, Bool, false, not, ◌&&◌, ◌||◌, ◌==◌, ltb, leb,
  ◌=ᵗ◌, [], ◌∷◌, map, is_empty, any, Result, ok, err, if◌then◌else◌,
}
use varkiv.Paths.Slashes.{split, clean, is_rooted, has}

abbrev pub max_save_logical_bytes : ℕ
max_save_logical_bytes = 1024

abbrev pub max_save_revision_files : ℕ
max_save_revision_files = 4096

-- 240 MiB
abbrev pub max_save_revision_bytes : ℕ
max_save_revision_bytes = 240 * 1_048_576

pub data PathError : Type 0 where
  unsafe_save_logical_path : PathError

-- strings.HasSuffix(s, c) for one character
unfoldable pub ends_with : ℕ → Text → Bool
ends_with c [] = false
ends_with c (d ∷ []) = d == c
ends_with c (d ∷ e ∷ s) = ends_with c (e ∷ s)

-- strings.Contains(s, "//")
unfoldable pub has_double_slash : Text → Bool
has_double_slash [] = false
has_double_slash (c ∷ []) = false
has_double_slash (c ∷ d ∷ s) = (c == b'/' && d == b'/') || has_double_slash (d ∷ s)

-- strings.TrimSuffix(part, path.Ext(part)) for a part without a slash
unfoldable pub stem : Text → Text
stem [] = []
stem (c ∷ s) = if c == b'.' && not (has b'.' s) then [] else c ∷ stem s

-- COM1 to COM9 and LPT1 to LPT9
abbrev is_port : Text → Bool
is_port (a ∷ b ∷ c ∷ d ∷ []) =
    ((a ∷ b ∷ c ∷ [] =ᵗ codes "COM") || (a ∷ b ∷ c ∷ [] =ᵗ codes "LPT"))
    && (leb b'1' d && leb d b'9')
is_port base = false

-- strings.ReplaceAll(value, `\`, "/")
unfoldable pub to_slashes : Text → Text
to_slashes = map (λ c. if c == b'\\' then b'/' else c)

unfoldable pub is_forbidden : ℕ → Bool
is_forbidden c = any (λ d. d == c) (codes "<>:\"|?*")

unfoldable pub is_control : ℕ → Bool
is_control c = ltb c 0x20 || c == 0x7f

unfoldable pub is_device : Text → Bool
is_device base =
    (base =ᵗ codes "CON")
    || (base =ᵗ codes "PRN")
    || (base =ᵗ codes "AUX")
    || (base =ᵗ codes "NUL")
    || is_port base

module _ ⦃lib : Stdlib⦄ where
  unfoldable pub windows_reserved : Text → Bool
  unfolding stem is_device
  windows_reserved value = is_device (upper (stem value))

  -- What the loop over the parts refuses.
  unfoldable pub refuses_part : Text → Bool
  refuses_part part =
      is_empty part
      || (part =ᵗ codes ".")
      || (part =ᵗ codes "..")
      || ltb 255 (byte_len part)
      || ends_with b'.' part
      || ends_with b' ' part
      || any is_forbidden part
      || windows_reserved part
      || any is_control part

  unfoldable pub clean_save_logical : Text → Result PathError Text
  clean_save_logical value =
      let normalized = to_slashes value in
      if is_empty value || not (value =ᵗ trim value) || ltb max_save_logical_bytes (byte_len value)
      then err unsafe_save_logical_path
      else if is_rooted normalized
          || ends_with b'/' normalized
          || has_double_slash normalized
          || not (clean normalized =ᵗ normalized)
      then err unsafe_save_logical_path
      else if any refuses_part (split b'/' normalized)
      then err unsafe_save_logical_path
      else ok normalized
