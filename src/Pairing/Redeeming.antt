-- ===== src/Pairing/Redeeming.antt =====
-- A pairing code is redeemed at most once.
use varkiv.Common.{
  ℕ, ◌≡◌, inl, inr, Text, Stdlib, Bool, true, false, not, ◌||◌, ◌=ᵗ◌, text_eq_iff, Option, none,
  some, List, [], ◌∷◌, map, any, is_empty, ok, err, if◌then◌else◌, arith, Bool-cases, Option-cases,
  Result-cases,
}
use varkiv.Pairing.Model.{
  Clock, PairingCode, PairingStore, NewPairingCode, Redemption, Redeemed, code_redeemed,
}
use varkiv.Pairing.Store.{
  find_code, revoke_device, create_pairing_code, check_redemption, write_redemption,
  redeem_pairing_code, redeemed, committed,
}
use varkiv.Pairing.Revocation.{Call, creates, redeems, revokes, step, run}

-- The code is there and has been redeemed.
abbrev is_used : Option PairingCode → Bool
is_used none = false
is_used (some c) = not (is_empty c.redeemed_at)

abbrev IsUsed : Text → PairingStore → Type 0
IsUsed hash st = is_used (find_code hash st.pairing_codes) ≡ true

used-redeemed :
    (hash id now : Text) (cs : List PairingCode)
    → is_used (find_code hash cs) ≡ true
    → is_used (find_code hash (map (redeemed id now) cs)) ≡ true
unfolding find_code
used-redeemed hash id now [] h = h
used-redeemed hash id now (c ∷ cs) h = ground (arith, used-redeemed hash id now cs)

-- The update reaches the code that was found.
found-redeemed :
    (hash now : Text) (cs : List PairingCode) (c : PairingCode)
    → is_empty now ≡ false
    → find_code hash cs ≡ some c
    → is_used (find_code hash (map (redeemed c.id now) cs)) ≡ true
unfolding find_code
found-redeemed hash now [] c n h = ground arith
found-redeemed hash now (x ∷ xs) c n h = elim (Bool-cases (x.code_hash =ᵗ hash)) [
  | inl e ↦ ground (arith, text_eq_iff x.id c.id)
  | inr e ↦ ground (arith, found-redeemed hash now xs c n)
]

found_hash :
    (hash : Text) (cs : List PairingCode)
    → is_used (find_code hash cs) ≡ true
    → any (λ c. c.code_hash =ᵗ hash) cs ≡ true
unfolding find_code
found_hash hash [] h = ground arith
found_hash hash (c ∷ cs) h = ground (arith, found_hash hash cs)

any_weaken :
    (id hash : Text) (cs : List PairingCode)
    → any (λ c. c.code_hash =ᵗ hash) cs ≡ true
    → any (λ c. (c.id =ᵗ id) || (c.code_hash =ᵗ hash)) cs ≡ true
any_weaken id hash [] h = h
any_weaken id hash (c ∷ cs) h = ground (arith, any_weaken id hash cs)

module _ ⦃lib : Stdlib⦄ ⦃clock : Clock⦄ where
  create-IsUsed :
      (hash drawn : Text) (now : ℕ) (i : NewPairingCode) (st : PairingStore)
      → IsUsed hash st
      → IsUsed hash (create_pairing_code drawn now i st).0
  unfolding create_pairing_code find_code
  create-IsUsed hash drawn now i st u = elim (Bool-cases (i.code_hash =ᵗ hash)) [
    | inr e ↦ ground arith
    | inl e ↦
        let same : i.code_hash ≡ hash = (text_eq_iff i.code_hash hash).0 e in
        let id : Text = if is_empty i.id then drawn else i.id in
        let taken : any (λ c. (c.id =ᵗ id) || (c.code_hash =ᵗ i.code_hash)) st.pairing_codes
            ≡ true =
          rw same (any_weaken id hash st.pairing_codes (found_hash hash st.pairing_codes u)) in
        ground (arith, taken)
  ]

  write-IsUsed :
      (hash now : Text) (r : Redemption) (c : PairingCode) (profile : Text) (st : PairingStore)
      → IsUsed hash st
      → IsUsed hash (committed st (write_redemption now r st (c, profile))).0
  unfolding write_redemption
  write-IsUsed hash now r c profile st u =
      ground (arith, used-redeemed hash c.id now st.pairing_codes u)

  redeem-IsUsed :
      (hash : Text) (checked_at now : ℕ) (r : Redemption) (st : PairingStore)
      → IsUsed hash st
      → IsUsed hash (redeem_pairing_code checked_at now r st).0
  unfolding redeem_pairing_code
  redeem-IsUsed hash checked_at now r st u =
      elim (Result-cases (check_redemption checked_at r st)) [
        | inr (x, e) ↦ rw e u
        | inl ((c, profile), e) ↦ rw e (write-IsUsed hash (clock.time_text now) r c profile st u)
      ]

  step-IsUsed :
      (hash : Text) (st : PairingStore) (c : Call) → IsUsed hash st → IsUsed hash (step st c)
  unfolding step revoke_device
  step-IsUsed hash st (creates drawn now i) u = create-IsUsed hash drawn now i st u
  step-IsUsed hash st (redeems checked_at now r) u = redeem-IsUsed hash checked_at now r st u
  step-IsUsed hash st (revokes id now) u = ground arith

  run-IsUsed :
      (hash : Text) (st : PairingStore) (calls : List Call)
      → IsUsed hash st
      → IsUsed hash (run st calls)
  unfolding run
  run-IsUsed hash st [] u = u
  run-IsUsed hash st (c ∷ cs) u = run-IsUsed hash (step st c) cs (step-IsUsed hash st c u)

  refused :
      (checked_at now : ℕ) (r : Redemption) (st : PairingStore)
      → IsUsed r.code_hash st
      → redeem_pairing_code checked_at now r st ≡ (st, err code_redeemed)
  unfolding redeem_pairing_code check_redemption
  refused checked_at now r st u = ground arith

  uses :
      (checked_at now : ℕ) (r : Redemption) (st st' : PairingStore) (x : Redeemed)
      → is_empty (clock.time_text now) ≡ false
      → redeem_pairing_code checked_at now r st ≡ (st', ok x)
      → IsUsed r.code_hash st'
  unfolding redeem_pairing_code check_redemption write_redemption
  uses checked_at now r st st' x n h =
      elim (Option-cases (find_code r.code_hash st.pairing_codes)) [
        | inl e ↦ ground arith
        | inr (c, e) ↦
            ground (arith, found-redeemed r.code_hash (clock.time_text now) st.pairing_codes c n e)
      ]

  -- Once a code has been redeemed, at a time whose text is not empty, then whatever calls of
  -- pairing follow, redeeming a code with that hash is refused as redeemed and changes nothing.
  pub redeemed_once :
      (checked_at now : ℕ) (r : Redemption) (st st' : PairingStore) (x : Redeemed)
      (calls : List Call) (checked_later later : ℕ) (again : Redemption)
      → is_empty (clock.time_text now) ≡ false
      → redeem_pairing_code checked_at now r st ≡ (st', ok x)
      → again.code_hash ≡ r.code_hash
      → redeem_pairing_code checked_later later again (run st' calls)
        ≡ (run st' calls, err code_redeemed)
  redeemed_once checked_at now r st st' x calls checked_later later again n h s =
      refused checked_later later again (run st' calls)
        (rw s (run-IsUsed r.code_hash st' calls (uses checked_at now r st st' x n h)))
