-- ===== src/Multiplayer/Model.antt =====
-- The data of internal/multiplayer/broker.go. Times are nanoseconds.
use varkiv.Common.{ℕ, ◌*◌, ℤ, Text, codes, List}
use varkiv.Common.Maps.{Map}

abbrev pub profile_retro_arch : Text
profile_retro_arch = codes "retroarch-netplay-v1"

abbrev pub profile_emulator_js : Text
profile_emulator_js = codes "emulatorjs-webrtc-v1"

abbrev pub protocol_version : Text
protocol_version = codes "v1"

-- Four hours.
abbrev pub session_lifetime : ℕ
session_lifetime = 4 * 3600 * 1_000_000_000

pub data Error : Type 0 where
  not_found expired closed invalid_token full : Error
  incompatible : List Text → Error
  unsupported_profile bad_sha256 bad_content bad_runtime runtime_too_long : Error
  bad_transport bad_save_policy bad_emulator_js bad_participant no_randomness : Error

pub record ContentIdentity : Type 0 where
  pub sha256 : Text
  pub size : ℤ
  pub platform : Text

pub record RuntimeIdentity : Type 0 where
  pub emulator : Text
  pub version : Text
  pub core : Text
  pub core_version : Text

pub record ParticipantInput : Type 0 where
  pub client_id : Text
  pub display_name : Text

pub data Role : Type 0 where
  host player : Role

pub record Participant : Type 0 where
  pub client_id : Text
  pub display_name : Text
  pub role : Role
  pub joined_at : ℕ

pub record CreateSessionInput : Type 0 where
  pub profile_id : Text
  pub content : ContentIdentity
  pub runtime : RuntimeIdentity
  pub transport : Text
  pub save_policy : Text
  pub creator : ParticipantInput

pub record JoinSessionInput : Type 0 where
  pub join_token : Text
  pub content : ContentIdentity
  pub runtime : RuntimeIdentity
  pub client : ParticipantInput

pub data State : Type 0 where
  waiting ready closed : State

pub record Session : Type 0 where
  pub id : Text
  pub protocol : Text
  pub profile_id : Text
  pub state : State
  pub content : ContentIdentity
  pub runtime : RuntimeIdentity
  pub transport : Text
  pub save_policy : Text
  pub participants : List Participant
  pub created_at : ℕ
  pub expires_at : ℕ

pub record CreatedSession : Type 0 where
  pub session : Session
  pub join_token : Text

-- storedSession: the join token is kept as its hash only.
pub record StoredSession : Type 0 where
  pub session : Session
  pub token_hash : Text

pub record Broker : Type 0 where
  pub sessions : Map StoredSession
