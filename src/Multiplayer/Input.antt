-- ===== src/Multiplayer/Input.antt =====
-- Normalisation and validation of the requests in internal/multiplayer/broker.go.
use varkiv.Common.{
  ℕ, Text, codes, Stdlib, trim, lower, byte_len, ◌=ᵗ◌, is_empty, Bool, not, ◌&&◌, ◌||◌, ltb, ◌==◌,
  is_positive, eq_ℤ, none, some, List, [], ◌∷◌, ◌++◌, Result, ◌>>◌, reject, if◌then◌else◌,
}
use varkiv.Common.Hex
use varkiv.Common.Sorting.{sort_texts}
use varkiv.Multiplayer.Model.{
  Error, unsupported_profile, bad_sha256, bad_content, bad_runtime, runtime_too_long, bad_transport,
  bad_save_policy, bad_emulator_js, bad_participant, ContentIdentity, RuntimeIdentity,
  ParticipantInput, CreateSessionInput, JoinSessionInput, Session, profile_retro_arch,
  profile_emulator_js,
}

module _ ⦃lib : Stdlib⦄ where
  unfoldable pub normalize_content : ContentIdentity → ContentIdentity
  normalize_content value = record value {
    sha256 = lower (trim value.sha256);
    platform = lower (trim value.platform);
  }

  unfoldable pub normalize_runtime : RuntimeIdentity → RuntimeIdentity
  normalize_runtime value = record {
    emulator = lower (trim value.emulator);
    version = trim value.version;
    core = lower (trim value.core);
    core_version = trim value.core_version;
  }

unfoldable pub normalize_participant : ParticipantInput → ParticipantInput
normalize_participant value = record {
  client_id = trim value.client_id;
  display_name = trim value.display_name;
}

module _ ⦃lib : Stdlib⦄ where
  unfoldable pub normalize_create : CreateSessionInput → CreateSessionInput
  unfolding normalize_content normalize_runtime normalize_participant
  normalize_create input = record {
    profile_id = lower (trim input.profile_id);
    content = normalize_content input.content;
    runtime = normalize_runtime input.runtime;
    transport = lower (trim input.transport);
    save_policy = lower (trim input.save_policy);
    creator = normalize_participant input.creator;
  }

  unfoldable pub normalize_join : JoinSessionInput → JoinSessionInput
  unfolding normalize_content normalize_runtime normalize_participant
  normalize_join input = record {
    join_token = trim input.join_token;
    content = normalize_content input.content;
    runtime = normalize_runtime input.runtime;
    client = normalize_participant input.client;
  }

unfoldable pub max_participants : Text → ℕ
max_participants profile_id = if profile_id =ᵗ profile_emulator_js then 2 else 4

is_hex : Text → Bool
is_hex value = elim (Hex.decode value) [ none ↦ Bool.false | some bytes ↦ Bool.true ]

unfoldable pub validate_content : ContentIdentity → Result Error Unit
unfolding is_hex
validate_content value = do
  reject (not (byte_len value.sha256 == 64)) bad_sha256
  reject (not (is_hex value.sha256)) bad_sha256
  reject
      (not (is_positive value.size) || is_empty value.platform || ltb 64 (byte_len value.platform))
      bad_content

unfoldable pub validate_runtime : Text → RuntimeIdentity → Result Error Unit
validate_runtime profile_id value = do
  let want = if profile_id =ᵗ profile_emulator_js then codes "emulatorjs" else codes "retroarch"
  reject
      (not (value.emulator =ᵗ want)
        || is_empty value.version
        || is_empty value.core
        || is_empty value.core_version)
      bad_runtime
  reject
      (ltb 64 (byte_len value.version)
        || ltb 64 (byte_len value.core)
        || ltb 128 (byte_len value.core_version))
      runtime_too_long

unfoldable pub validate_participant : ParticipantInput → Result Error Unit
validate_participant value =
    reject
      (is_empty value.client_id
        || ltb 128 (byte_len value.client_id)
        || is_empty value.display_name
        || ltb 80 (byte_len value.display_name))
      bad_participant

unfoldable pub validate_create : CreateSessionInput → Result Error Unit
unfolding validate_content validate_runtime validate_participant
validate_create input = do
  reject
      (not (input.profile_id =ᵗ profile_retro_arch)
        && not (input.profile_id =ᵗ profile_emulator_js))
      unsupported_profile
  validate_content input.content
  validate_runtime input.profile_id input.runtime
  reject (not (input.transport =ᵗ codes "relay") && not (input.transport =ᵗ codes "direct"))
      bad_transport
  reject
      (not (input.save_policy =ᵗ codes "isolated")
        && not (input.save_policy =ᵗ codes "host-authoritative")
        && not (input.save_policy =ᵗ codes "no-persist"))
      bad_save_policy
  reject
      ((input.profile_id =ᵗ profile_emulator_js)
        && (not (input.transport =ᵗ codes "direct")
            || not (input.save_policy =ᵗ codes "no-persist")))
      bad_emulator_js
  validate_participant input.creator

abbrev pub noted : Bool → Text → List Text
noted same field = if same then [] else field ∷ []

unfoldable pub mismatched_fields : Session → JoinSessionInput → List Text
mismatched_fields session input =
    noted (input.content.sha256 =ᵗ session.content.sha256) (codes "content.sha256")
    ++ (noted (eq_ℤ input.content.size session.content.size) (codes "content.size")
        ++ (noted (input.content.platform =ᵗ session.content.platform) (codes "content.platform")
            ++ (noted (input.runtime.emulator =ᵗ session.runtime.emulator)
                  (codes "runtime.emulator")
                ++ (noted (input.runtime.version =ᵗ session.runtime.version)
                      (codes "runtime.version")
                    ++ (noted (input.runtime.core =ᵗ session.runtime.core) (codes "runtime.core")
                        ++ noted (input.runtime.core_version =ᵗ session.runtime.core_version)
                            (codes "runtime.core_version"))))))

unfoldable pub compatibility_mismatches : Session → JoinSessionInput → List Text
unfolding mismatched_fields
compatibility_mismatches session input = sort_texts (mismatched_fields session input)
