-- ===== src/Pairing/Revocation.antt =====
-- A code is used once, and a revoked device stays out.
use varkiv.Common.{
  ℕ, ◌≡◌, ◌≢◌, refl, ap, inl, inr, Text, codes, Stdlib, Bool, true, false, not, ◌&&◌, ◌=ᵗ◌,
  text_eq_iff, some, List, [], ◌∷◌, map, any, ok, arith, Bool-cases, Option-cases, Result-cases,
}
use varkiv.Pairing.Model.{
  Clock, PairingCode, Device, TokenRow, PairingStore, NewPairingCode, ClientIdentity, Redemption,
}
use varkiv.Pairing.Store.{
  is_valid, find_token, authenticate_client_token, revoked_device, revoke_device,
  create_pairing_code, check_redemption, write_redemption, redeem_pairing_code, device_id,
  committed,
}

abbrev known : Text → List Device → Bool
known id = any (λ d. d.id =ᵗ id)

abbrev active : Text → List Device → Bool
active id = any (λ d. (d.id =ᵗ id) && not (d.status =ᵗ codes "revoked"))

-- The device is there, and no row of it is active.
abbrev IsOut : Text → PairingStore → Type 0
IsOut id st = (known id st.devices ≡ true) × (active id st.devices ≡ false)

known-revoked :
    (id id' now : Text) (ds : List Device)
    → known id (map (revoked_device id' now) ds) ≡ known id ds
known-revoked id id' now [] = refl
known-revoked id id' now (d ∷ ds) = ground (arith, known-revoked id id' now ds)

active-revoked :
    (id id' now : Text) (ds : List Device)
    → active id ds ≡ false
    → active id (map (revoked_device id' now) ds) ≡ false
unfolding ◌=ᵗ◌
active-revoked id id' now [] h = refl
active-revoked id id' now (d ∷ ds) h = ground (arith, active-revoked id id' now ds)

active-revoked_same :
    (id now : Text) (ds : List Device) → active id (map (revoked_device id now) ds) ≡ false
unfolding ◌=ᵗ◌
active-revoked_same id now [] = refl
active-revoked_same id now (d ∷ ds) = ground (arith, active-revoked_same id now ds)

found_valid :
    (hash now : Text) (ds : List Device) (ts : List TokenRow) (t : TokenRow)
    → find_token (is_valid hash now ds) ts ≡ some t
    → is_valid hash now ds t ≡ true
unfolding find_token
found_valid hash now ds [] t h = ground arith
found_valid hash now ds (x ∷ xs) t h = ground (arith, found_valid hash now ds xs t)

valid_active :
    (hash now : Text) (ds : List Device) (t : TokenRow)
    → is_valid hash now ds t ≡ true
    → active t.device_id ds ≡ true
unfolding is_valid
valid_active hash now ds t h = ground arith

out_unauthenticated :
    (id hash now : Text) (st : PairingStore) (who : ClientIdentity)
    → active id st.devices ≡ false
    → authenticate_client_token hash now st ≡ ok who
    → who.device_id ≢ id
unfolding authenticate_client_token
out_unauthenticated id hash now st who a h e =
    elim (Option-cases (find_token (is_valid hash now st.devices) st.tokens)) [
      | inl n ↦ ground arith
      | inr (t, f) ↦
          let v =
            valid_active hash now st.devices t (found_valid hash now st.devices st.tokens t f) in
          let same : t.device_id ≡ id = ground arith in
          ground (arith, v, ap (λ i. active i st.devices) same)
    ]

-- The calls of pairing, with what they read and draw.
pub data Call : Type 0 where
  creates : Text → ℕ → NewPairingCode → Call
  redeems : ℕ → ℕ → Redemption → Call
  revokes : Text → Text → Call

module _ ⦃lib : Stdlib⦄ ⦃clock : Clock⦄ where
  unfoldable pub step : PairingStore → Call → PairingStore
  unfolding create_pairing_code redeem_pairing_code revoke_device
  step st (creates drawn now i) = (create_pairing_code drawn now i st).0
  step st (redeems checked_at now r) = (redeem_pairing_code checked_at now r st).0
  step st (revokes id now) = (revoke_device id now st).0

  unfoldable pub run : PairingStore → List Call → PairingStore
  unfolding step
  run st [] = st
  run st (c ∷ cs) = run (step st c) cs

  fresh_device :
      (id new : Text) (ds : List Device)
      → known id ds ≡ true
      → known new ds ≡ false
      → (new =ᵗ id) ≡ false
  fresh_device id new ds k n = elim (Bool-cases (new =ᵗ id)) [
    | inr e ↦ e
    | inl e ↦
        let same : new ≡ id = (text_eq_iff new id).0 e in ground (arith, ap (λ i. known i ds) same)
  ]

  write-IsOut :
      (id now : Text) (r : Redemption) (c : PairingCode) (profile : Text) (st : PairingStore)
      → IsOut id st
      → IsOut id (committed st (write_redemption now r st (c, profile))).0
  unfolding write_redemption
  write-IsOut id now r c profile st (k, a) =
      ground (arith, fresh_device id (device_id r) st.devices k)

  redeem-IsOut :
      (id : Text) (checked_at now : ℕ) (r : Redemption) (st : PairingStore)
      → IsOut id st
      → IsOut id (redeem_pairing_code checked_at now r st).0
  unfolding redeem_pairing_code
  redeem-IsOut id checked_at now r st (k, a) =
      elim (Result-cases (check_redemption checked_at r st)) [
        | inr (x, e) ↦ rw e (k, a)
        | inl ((c, profile), e) ↦ rw e (write-IsOut id (clock.time_text now) r c profile st (k, a))
      ]

  step-IsOut : (id : Text) (st : PairingStore) (c : Call) → IsOut id st → IsOut id (step st c)
  unfolding step create_pairing_code revoke_device
  step-IsOut id st (creates drawn now i) h = ground arith
  step-IsOut id st (redeems checked_at now r) h = redeem-IsOut id checked_at now r st h
  step-IsOut id st (revokes id' now) (k, a) =
      ground (arith, known-revoked id id' now st.devices, active-revoked id id' now st.devices a)

  run-IsOut :
      (id : Text) (st : PairingStore) (calls : List Call) → IsOut id st → IsOut id (run st calls)
  unfolding run
  run-IsOut id st [] h = h
  run-IsOut id st (c ∷ cs) h = run-IsOut id (step st c) cs (step-IsOut id st c h)

  -- Once RevokeDevice has succeeded, no token authenticates as the device, at any time and whatever
  -- calls of pairing come in between.
  pub revocation_is_final :
      (id now hash later : Text) (st st' : PairingStore) (d : Device) (calls : List Call)
      (who : ClientIdentity)
      → revoke_device id now st ≡ (st', ok d)
      → authenticate_client_token hash later (run st' calls) ≡ ok who
      → who.device_id ≢ id
  unfolding revoke_device
  revocation_is_final id now hash later st st' d calls who h =
      out_unauthenticated id hash later (run st' calls) who
        (run-IsOut id st' calls (
          ground
            (arith, known-revoked id id now st.devices, active-revoked_same id now st.devices))).1
