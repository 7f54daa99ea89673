-- ===== src/Pairing/Store.antt =====
-- The pairing part of internal/catalog/sync_store.go: codes, tokens and the revocation of devices.
use varkiv.Pairing.Model.{
  ClientIdentity, Clock, Device, DeviceProfile, NewDevice, NewPairingCode, PairingCode,
  PairingError, PairingStore, Redeemed, Redemption, TokenRow, code_expired, code_invalid,
  code_redeemed, constraint, future_expiry_required, name_required, no_rows, profile_incompatible,
  profile_mismatch, profile_unavailable, request_invalid, token_invalid,
}
use varkiv.Common.{
  ℕ, Text, codes, Stdlib, trim, lower, Bool, not, ◌&&◌, ◌||◌, ◌==◌, ltb, ◌=ᵗ◌, member, Option, none,
  some, List, [], ◌∷◌, map, any, is_empty, Result, ok, err, if◌then◌else◌, or_fail, reject, ◌>>=◌,
  ◌>>◌,
}
use varkiv.Common.Sorting.{text_le}

unfoldable pub find_code : Text → List PairingCode → Option PairingCode
find_code hash [] = none
find_code hash (c ∷ cs) = if c.code_hash =ᵗ hash then some c else find_code hash cs

abbrev find_profile : Text → List DeviceProfile → Option DeviceProfile
find_profile id [] = none
find_profile id (p ∷ ps) = if p.id =ᵗ id then some p else find_profile id ps

unfoldable pub find_device : Text → List Device → Option Device
find_device id [] = none
find_device id (d ∷ ds) = if d.id =ᵗ id then some d else find_device id ds

-- t.token_hash=? AND t.revoked_at='' AND t.expires_at>? AND d.status<>'revoked'
unfoldable pub is_valid : Text → Text → List Device → TokenRow → Bool
is_valid hash now devices t =
    (t.token_hash =ᵗ hash)
    && is_empty t.revoked_at
    && not (text_le t.expires_at now)
    && any (λ d. (d.id =ᵗ t.device_id) && not (d.status =ᵗ codes "revoked")) devices

unfoldable pub find_token : (TokenRow → Bool) → List TokenRow → Option TokenRow
find_token p [] = none
find_token p (t ∷ ts) = if p t then some t else find_token p ts

abbrev identity : TokenRow → ClientIdentity
identity t = record { token_id = t.id; device_id = t.device_id; scopes = t.scopes }

abbrev identified : Option TokenRow → Result PairingError ClientIdentity
identified none = err token_invalid
identified (some t) = ok (identity t)

-- `now` is the text of the time of the call.
unfoldable pub authenticate_client_token :
    Text → Text → PairingStore → Result PairingError ClientIdentity
unfolding find_token is_valid text_le
authenticate_client_token hash now st =
    identified (find_token (is_valid hash now st.devices) st.tokens)

-- The two updates of RevokeDevice.
abbrev pub revoked_device : Text → Text → Device → Device
revoked_device id now d =
    if (d.id =ᵗ id) && not (d.status =ᵗ codes "revoked")
    then record d { status = codes "revoked"; revoked_at = now; updated_at = now }
    else d

abbrev pub revoked_token : Text → Text → TokenRow → TokenRow
revoked_token id now t =
    if (t.device_id =ᵗ id) && is_empty t.revoked_at then record t { revoked_at = now } else t

unfoldable pub revoke_device :
    Text → Text → PairingStore → PairingStore × Result PairingError Device
unfolding find_device
revoke_device id now st =
    let after = record st {
      devices = map (revoked_device id now) st.devices;
      tokens = map (revoked_token id now) st.tokens;
    } in
    if any (λ d. d.id =ᵗ id) st.devices
    then (after, or_fail (find_device id after.devices) no_rows)
    else (st, err no_rows)

module _ ⦃clock : Clock⦄ where
  unfoldable pub create_pairing_code :
      Text → ℕ → NewPairingCode → PairingStore → PairingStore × Result PairingError PairingCode
  create_pairing_code drawn now i st =
      let row : PairingCode = record {
        id = if is_empty i.id then drawn else i.id;
        code_hash = i.code_hash;
        requested_profile = i.requested_profile;
        expires_at = clock.time_text i.expires_at;
        redeemed_at = [];
        created_at = clock.time_text now;
      } in
      if is_empty (trim i.code_hash) || i.expires_at == 0 || not (ltb now i.expires_at)
      then (st, err future_expiry_required)
      else if any (λ c. (c.id =ᵗ row.id) || (c.code_hash =ᵗ row.code_hash)) st.pairing_codes
      then (st, err constraint)
      else (record st { pairing_codes = row ∷ st.pairing_codes }, ok row)

-- The profile that the device gets: the one requested, if any, or its own.
unfoldable pub choose_profile : Text → Text → Result PairingError Text
choose_profile requested own =
    if is_empty requested
    then ok own
    else if not (is_empty own) && not (own =ᵗ requested)
    then err profile_mismatch
    else ok requested

abbrev default_scopes : List Text → List Text
default_scopes [] = codes "sync:read" ∷ codes "sync:write" ∷ codes "device:heartbeat" ∷ []
default_scopes (s ∷ ss) = s ∷ ss

abbrev pub redeemed : Text → Text → PairingCode → PairingCode
redeemed id now c =
    if (c.id =ᵗ id) && is_empty c.redeemed_at then record c { redeemed_at = now } else c

abbrev target_of : Option DeviceProfile → Text
target_of none = []
target_of (some p) = p.target

module _ ⦃lib : Stdlib⦄ where
  unfoldable pub normalize_pairing_architecture : Text → Text
  normalize_pairing_architecture value =
      let v = lower (trim value) in
      if member v (codes "x86_64" ∷ codes "amd64" ∷ [])
      then codes "amd64"
      else if member v (codes "aarch64" ∷ codes "arm64" ∷ codes "arm64-v8a" ∷ [])
      then codes "arm64"
      else if member v (codes "arm" ∷ codes "armv7" ∷ codes "armv7l" ∷ codes "armeabi-v7a" ∷ [])
      then codes "arm"
      else if member v (codes "x86" ∷ codes "386" ∷ codes "i386" ∷ codes "i686" ∷ [])
      then codes "386"
      else v

  unfoldable pub pairing_profile_compatible : Text → Text → Text → Text → Bool
  unfolding normalize_pairing_architecture
  pairing_profile_compatible profile_os profile_architecture device_os device_architecture =
      let p = lower (trim profile_os) in
      let d = lower (trim device_os) in
      let a = normalize_pairing_architecture profile_architecture in
      let b = normalize_pairing_architecture device_architecture in
      ((p =ᵗ d) || ((p =ᵗ codes "handheld-linux") && (d =ᵗ codes "linux")))
      && (is_empty a || is_empty b || (a =ᵗ b))

  abbrev check_profile : NewDevice → Option DeviceProfile → Result PairingError Unit
  check_profile d none = err profile_unavailable
  check_profile d (some p) =
      reject (not p.enabled) profile_unavailable
      >> reject
          (not (pairing_profile_compatible p.os_family p.architecture d.os_family d.architecture))
          profile_incompatible

  module _ ⦃clock : Clock⦄ where
    -- The checks of the transaction, in their order; the code and the profile of the device.
    unfoldable pub check_redemption :
        ℕ → Redemption → PairingStore → Result PairingError (PairingCode × Text)
    unfolding find_code choose_profile pairing_profile_compatible
    check_redemption now r st = do
      c ← or_fail (find_code r.code_hash st.pairing_codes) code_invalid
      reject (not (is_empty c.redeemed_at)) code_redeemed
      reject (not (ltb now (clock.time_of c.expires_at))) code_expired
      reject (is_empty (trim r.device.name) || is_empty (trim r.device.os_family)) name_required
      requested ← or_fail c.requested_profile request_invalid
      profile ← choose_profile (trim requested) (trim r.device.device_profile_id)
      (if is_empty profile
            then ok tt
            else check_profile r.device (find_profile profile st.profiles))
          >> ok (c, profile)

    abbrev pub device_id : Redemption → Text
    device_id r = if is_empty r.device.id then r.drawn_device else r.device.id

    abbrev new_device : Text → Redemption → Text → Device
    new_device now r profile = record {
      id = device_id r;
      name = trim r.device.name;
      device_profile_id = trim profile;
      os_family = trim r.device.os_family;
      architecture = trim r.device.architecture;
      status = codes "active";
      updated_at = now;
      revoked_at = [];
    }

    abbrev new_token : Text → Redemption → TokenRow
    new_token now r = record {
      id = r.drawn_token;
      device_id = device_id r;
      token_hash = r.token_hash;
      scopes = default_scopes r.scopes;
      issued_at = now;
      expires_at = clock.time_text r.token_expires;
      revoked_at = [];
    }

    -- The rows that are written; `now` is the text of the time.
    unfoldable pub write_redemption :
        Text
        → Redemption
        → PairingStore
        → PairingCode × Text
        → Result PairingError (PairingStore × Redeemed)
    write_redemption now r st (c, profile) = do
      reject (any (λ d. d.id =ᵗ device_id r) st.devices) constraint
      reject (any (λ t. (t.id =ᵗ r.drawn_token) || (t.token_hash =ᵗ r.token_hash)) st.tokens)
          constraint
      ok (
        record st {
          pairing_codes = map (redeemed c.id now) st.pairing_codes;
          devices = new_device now r profile ∷ st.devices;
          tokens = new_token now r ∷ st.tokens;
        },
        record {
          device = new_device now r profile;
          token = new_token now r;
          target = trim (target_of (find_profile profile st.profiles));
        },
      )

    abbrev pub committed :
        PairingStore
        → Result PairingError (PairingStore × Redeemed)
        → PairingStore × Result PairingError Redeemed
    committed st (ok (after, result)) = (after, ok result)
    committed st (err e) = (st, err e)

    -- `checked_at` and `now` are the readings of the clock.
    unfoldable pub redeem_pairing_code :
        ℕ → ℕ → Redemption → PairingStore → PairingStore × Result PairingError Redeemed
    unfolding check_redemption write_redemption
    redeem_pairing_code checked_at now r st =
        committed st
          (check_redemption checked_at r st >>= write_redemption (clock.time_text now) r st)
