-- ===== src/Pairing/Tests.antt =====
-- A hub with one paired device and one code, and the theorems at it.
use varkiv.Common.{
  ℕ, ◌≡◌, ◌≢◌, refl, codes, Text, Stdlib, true, false, Option, none, some, List, [], ◌∷◌, Result,
  ok, err, is_empty,
}
use varkiv.Pairing.Model.{
  Clock, Device, TokenRow, PairingStore, Redemption, Redeemed, code_redeemed, PairingError,
}
use varkiv.Pairing.Store.{authenticate_client_token, revoke_device, redeem_pairing_code}
use varkiv.Pairing.Revocation.{redeems, revokes, run, revocation_is_final}
use varkiv.Pairing.Redeeming.{redeemed_once}

-- No case beyond ASCII, and digests that are the text.
instance abbrev plain : Stdlib
plain = record { lower_wide = λ c. c; upper_wide = λ c. c; sha256 = λ t. t; sha256_bytes = λ t. t }

abbrev first_code : Text → ℕ
first_code [] = 0
first_code (c ∷ t) = c

-- Instants as texts of one character.
instance abbrev one_character : Clock
one_character = record { time_text = λ n. n ∷ []; time_of = first_code }

abbrev device : Text → Device
device id = record {
  id = id;
  name = codes "Deck";
  device_profile_id = [];
  os_family = codes "linux";
  architecture = [];
  status = codes "active";
  updated_at = [];
  revoked_at = [];
}

abbrev token : Text → Text → Text → TokenRow
token id device hash = record {
  id = id;
  device_id = device;
  token_hash = hash;
  scopes = codes "sync:read" ∷ [];
  issued_at = [];
  expires_at = 900 ∷ [];
  revoked_at = [];
}

abbrev store : PairingStore
store = record {
  pairing_codes =
      record {
        id = codes "p1";
        code_hash = codes "code";
        requested_profile = some [];
        expires_at = 500 ∷ [];
        redeemed_at = [];
        created_at = 100 ∷ [];
      }
      ∷ [];
  devices = device (codes "d1") ∷ [];
  profiles = [];
  tokens = token (codes "t1") (codes "d1") (codes "first") ∷ [];
}

abbrev redemption : Redemption
redemption = record {
  code_hash = codes "code";
  token_hash = codes "second";
  device = record {
    id = [];
    name = codes "Phone";
    device_profile_id = [];
    os_family = codes "android";
    architecture = codes "aarch64";
  };
  scopes = [];
  token_expires = 900;
  drawn_device = codes "d2";
  drawn_token = codes "t2";
}

abbrev outcome : PairingStore × Result PairingError Redeemed
unfolding redeem_pairing_code
outcome = redeem_pairing_code 200 201 redemption store

abbrev paired : PairingStore
unfolding outcome
paired = outcome.0

abbrev result : Redeemed
result = record {
  device = record (device (codes "d2")) {
    name = codes "Phone";
    os_family = codes "android";
    architecture = codes "aarch64";
    updated_at = 201 ∷ [];
  };
  token = record (token (codes "t2") (codes "d2") (codes "second")) {
    scopes = codes "sync:read" ∷ codes "sync:write" ∷ codes "device:heartbeat" ∷ [];
    issued_at = 201 ∷ [];
  };
  target = [];
}

redemption_accepted : redeem_pairing_code 200 201 redemption store ≡ (paired, ok result)
unfolding redeem_pairing_code varkiv.Common.◌=ᵗ◌ varkiv.Common.trim
redemption_accepted = refl

redeemed_once_example :
    redeem_pairing_code 300 301 redemption (run paired (revokes (codes "d2") (250 ∷ []) ∷ []))
    ≡ (run paired (revokes (codes "d2") (250 ∷ []) ∷ []), err code_redeemed)
redeemed_once_example =
    redeemed_once 200 201 redemption store paired result (revokes (codes "d2") (250 ∷ []) ∷ []) 300
      301 redemption refl redemption_accepted refl

abbrev without_first : PairingStore
without_first = record store {
  devices =
      record (device (codes "d1")) {
        status = codes "revoked";
        updated_at = 150 ∷ [];
        revoked_at = 150 ∷ [];
      }
      ∷ [];
  tokens = record (token (codes "t1") (codes "d1") (codes "first")) { revoked_at = 150 ∷ [] } ∷ [];
}

first_revoked : revoke_device (codes "d1") (150 ∷ []) store ≡ (
  without_first,
  ok (record (device (codes "d1")) {
    status = codes "revoked";
    updated_at = 150 ∷ [];
    revoked_at = 150 ∷ [];
  }),
)
unfolding revoke_device varkiv.Common.◌=ᵗ◌
first_revoked = refl

second_authenticated :
    authenticate_client_token
      (codes "second")
      (300 ∷ [])
      (run without_first (redeems 200 201 redemption ∷ []))
    ≡ ok (record {
      token_id = codes "t2";
      device_id = codes "d2";
      scopes = codes "sync:read" ∷ codes "sync:write" ∷ codes "device:heartbeat" ∷ [];
    })
unfolding authenticate_client_token run varkiv.Common.◌=ᵗ◌ varkiv.Common.trim
second_authenticated = refl

revocation_is_final_example : codes "d2" ≢ codes "d1"
revocation_is_final_example =
    revocation_is_final (codes "d1") (150 ∷ []) (codes "second") (300 ∷ []) store without_first
      (record (device (codes "d1")) {
        status = codes "revoked";
        updated_at = 150 ∷ [];
        revoked_at = 150 ∷ [];
      })
      (redeems 200 201 redemption ∷ [])
      (record {
        token_id = codes "t2";
        device_id = codes "d2";
        scopes = codes "sync:read" ∷ codes "sync:write" ∷ codes "device:heartbeat" ∷ [];
      })
      first_revoked second_authenticated
