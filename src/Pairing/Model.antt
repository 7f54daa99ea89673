-- ===== src/Pairing/Model.antt =====
-- The rows of the pairing tables and the inputs of internal/catalog/sync_store.go. Times are
-- nanoseconds since Go's zero time; the columns hold their texts. JSON columns are what is read from
-- them, and of the devices' columns only those are kept that pairing or authentication reads.
use varkiv.Common.{ℕ, Text, Bool, Option, List}

-- Package time: the text of an instant as RFC3339Nano in UTC, and the instant of a text.
pub record Clock : Type 0 where
  pub time_text : ℕ → Text
  pub time_of : Text → ℕ

-- `requested_profile` is the device_profile_id of the stored request, `none` where that is not a
-- string.
pub record PairingCode : Type 0 where
  pub id : Text
  pub code_hash : Text
  pub requested_profile : Option Text
  pub expires_at : Text
  pub redeemed_at : Text
  pub created_at : Text

pub record Device : Type 0 where
  pub id : Text
  pub name : Text
  pub device_profile_id : Text
  pub os_family : Text
  pub architecture : Text
  pub status : Text
  pub updated_at : Text
  pub revoked_at : Text

pub record DeviceProfile : Type 0 where
  pub id : Text
  pub target : Text
  pub os_family : Text
  pub architecture : Text
  pub enabled : Bool

pub record TokenRow : Type 0 where
  pub id : Text
  pub device_id : Text
  pub token_hash : Text
  pub scopes : List Text
  pub issued_at : Text
  pub expires_at : Text
  pub revoked_at : Text

pub record PairingStore : Type 0 where
  pub pairing_codes : List PairingCode
  pub devices : List Device
  pub profiles : List DeviceProfile
  pub tokens : List TokenRow

pub record NewPairingCode : Type 0 where
  pub id : Text
  pub code_hash : Text
  pub requested_profile : Option Text
  pub expires_at : ℕ

pub record NewDevice : Type 0 where
  pub id : Text
  pub name : Text
  pub device_profile_id : Text
  pub os_family : Text
  pub architecture : Text

pub record ClientIdentity : Type 0 where
  pub token_id : Text
  pub device_id : Text
  pub scopes : List Text

pub data PairingError : Type 0 where
  code_invalid code_expired code_redeemed profile_mismatch profile_unavailable : PairingError
  profile_incompatible token_invalid future_expiry_required name_required request_invalid :
      PairingError
  no_rows constraint : PairingError

-- What a redemption is given and draws.
pub record Redemption : Type 0 where
  pub code_hash : Text
  pub token_hash : Text
  pub device : NewDevice
  pub scopes : List Text
  pub token_expires : ℕ
  pub drawn_device : Text
  pub drawn_token : Text

-- The device, its token and the target of its profile, which is empty without a profile.
pub record Redeemed : Type 0 where
  pub device : Device
  pub token : TokenRow
  pub target : Text
