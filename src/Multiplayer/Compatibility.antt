-- ===== src/Multiplayer/Compatibility.antt =====
-- compatibilityMismatches of internal/multiplayer/broker.go.
use varkiv.Common.{
  ◌≡◌, refl, ◌∙◌, ◌↔◌, Text, ◌=ᵗ◌, text_eq_iff, eq_ℤ, eq_ℤ_iff, is_empty, Bool, true, false, ◌&&◌,
  List, [], ◌∷◌, ◌++◌, arith,
}
use varkiv.Common.Sorting.{is_empty-sort_texts}
use varkiv.Multiplayer.Model.{ContentIdentity, RuntimeIdentity, JoinSessionInput, Session}
use varkiv.Multiplayer.Input.{noted, mismatched_fields, compatibility_mismatches}

is_empty-append : (xs ys : List Text) → is_empty (xs ++ ys) ≡ (is_empty xs && is_empty ys)
is_empty-append [] ys = refl
is_empty-append (x ∷ xs) ys = refl

is_empty-noted : (same : Bool) (field : Text) → is_empty (noted same field) ≡ same
is_empty-noted true field = refl
is_empty-noted false field = refl

same_content : ContentIdentity → ContentIdentity → Bool
same_content a b = (a.sha256 =ᵗ b.sha256) && (eq_ℤ a.size b.size && (a.platform =ᵗ b.platform))

same_content_iff : (a b : ContentIdentity) → (same_content a b ≡ true) ↔ (a ≡ b)
unfolding same_content
same_content_iff a b = ground (
  arith,
  text_eq_iff a.sha256 b.sha256,
  eq_ℤ_iff a.size b.size,
  text_eq_iff a.platform b.platform,
)

same_runtime : RuntimeIdentity → RuntimeIdentity → Bool
same_runtime a b =
    (a.emulator =ᵗ b.emulator)
    && ((a.version =ᵗ b.version) && ((a.core =ᵗ b.core) && (a.core_version =ᵗ b.core_version)))

same_runtime_iff : (a b : RuntimeIdentity) → (same_runtime a b ≡ true) ↔ (a ≡ b)
unfolding same_runtime
same_runtime_iff a b = ground (
  arith,
  text_eq_iff a.emulator b.emulator,
  text_eq_iff a.version b.version,
  text_eq_iff a.core b.core,
  text_eq_iff a.core_version b.core_version,
)

is_empty-mismatches :
    (s : Session) (input : JoinSessionInput)
    → is_empty (compatibility_mismatches s input)
      ≡ (same_content input.content s.content && same_runtime input.runtime s.runtime)
unfolding compatibility_mismatches same_content same_runtime
is_empty-mismatches s input =
    is_empty-sort_texts (mismatched_fields s input)
    ∙ simp (is_empty-append, is_empty-noted) (ground arith)

-- A request has no mismatches with a session exactly when it names the same content and runtime.
pub mismatches_empty_iff :
    (s : Session) (input : JoinSessionInput)
    → (is_empty (compatibility_mismatches s input) ≡ true)
      ↔ ((input.content ≡ s.content) × (input.runtime ≡ s.runtime))
mismatches_empty_iff s input = ground (
  arith,
  is_empty-mismatches s input,
  same_content_iff input.content s.content,
  same_runtime_iff input.runtime s.runtime,
)
