-- ===== src/Multiplayer/Cases.antt =====
-- The branches of the broker's operations, each with the tests that lead to it.
use varkiv.Common.{
  ℕ, ◌≡◌, refl, inl, inr, Text, Stdlib, trim, ◌=ᵗ◌, true, false, ltb, leb, is_empty, length, Option,
  none, some, List, Result, ◌>>=◌, ◌>>◌, ok, err, Bool-cases, Option-cases, Bool,
}
use varkiv.Common.Hex
use varkiv.Common.Maps.{lookup, delete, insert}
use varkiv.Multiplayer.Model
use varkiv.Multiplayer.Model.{
  Error, not_found, expired, invalid_token, full, incompatible, CreateSessionInput,
  JoinSessionInput, Session, CreatedSession, StoredSession, no_randomness, Broker,
}
use varkiv.Multiplayer.Input.{
  max_participants, compatibility_mismatches, normalize_join, normalize_create, validate_create,
  validate_participant,
}
use varkiv.Multiplayer.Broker.{
  Outcome, active, has_client, add_player, close, admit, admit_active, join, is_closed, new_session,
  create, store_created, random_token,
}

pub active_cases {ℓ} :
    (P : Outcome StoredSession → Type ℓ) (b : Broker) (now : ℕ) (id : Text)
    → (lookup id b.sessions ≡ none → P (err not_found, b))
    → ((stored : StoredSession)
        → lookup id b.sessions ≡ some stored
        → is_closed stored.session.state ≡ true
        → P (err Model.Error.closed, b))
    → ((stored : StoredSession)
        → lookup id b.sessions ≡ some stored
        → is_closed stored.session.state ≡ false
        → ltb now stored.session.expires_at ≡ false
        → P (err expired, record b { sessions = delete id b.sessions }))
    → ((stored : StoredSession)
        → lookup id b.sessions ≡ some stored
        → is_closed stored.session.state ≡ false
        → ltb now stored.session.expires_at ≡ true
        → P (ok stored, b))
    → P (active b now id)
unfolding active
active_cases P b now id missing shut over live = elim (Option-cases (lookup id b.sessions)) [
  | inl e ↦ rw (e, active) (missing e)
  | inr (stored, e) ↦
      rw (e, active)
        (elim (Bool-cases (is_closed stored.session.state)) [
          | inl s ↦ rw s (shut stored e s)
          | inr s ↦ rw s (elim (Bool-cases (ltb now stored.session.expires_at)) [
            | inl t ↦ rw t (live stored e s t)
            | inr t ↦ rw t (over stored e s t)
          ])
        ])
]

pub close_cases {ℓ} :
    (P : Outcome Session → Type ℓ) (b : Broker) (id : Text)
    → (lookup (trim id) b.sessions ≡ none → P (err not_found, b))
    → ((stored : StoredSession)
        → lookup (trim id) b.sessions ≡ some stored
        → is_closed stored.session.state ≡ true
        → P (ok stored.session, b))
    → ((stored : StoredSession)
        → lookup (trim id) b.sessions ≡ some stored
        → is_closed stored.session.state ≡ false
        → let s : Session = record stored.session { state = Model.State.closed } in
          P (
            ok s,
            record b { sessions = insert (trim id) (record stored { session = s }) b.sessions },
          ))
    → P (close b id)
unfolding close
close_cases P b id missing shut live = elim (Option-cases (lookup (trim id) b.sessions)) [
  | inl e ↦ rw (e, close) (missing e)
  | inr (stored, e) ↦
      rw (e, close)
        (elim (Bool-cases (is_closed stored.session.state)) [
          | inl s ↦ rw s (shut stored e s)
          | inr s ↦ rw s (live stored e s)
        ])
]

module _ ⦃lib : Stdlib⦄ where
  abbrev pub right_token : StoredSession → JoinSessionInput → Bool
  right_token stored input = lib.sha256 input.join_token =ᵗ stored.token_hash

  abbrev pub fits : StoredSession → JoinSessionInput → Bool
  fits stored input = is_empty (compatibility_mismatches stored.session input)

  abbrev pub seated : StoredSession → JoinSessionInput → Bool
  seated stored input = has_client input.client.client_id stored.session.participants

  abbrev pub crowded : StoredSession → Bool
  crowded stored =
      leb (max_participants stored.session.profile_id) (length stored.session.participants)

  pub admit_cases {ℓ} :
      (P : Outcome Session → Type ℓ) (b : Broker) (joined_at : ℕ) (id : Text)
      (stored : StoredSession) (input : JoinSessionInput)
      → (right_token stored input ≡ false → P (err invalid_token, b))
      → (right_token stored input ≡ true
          → fits stored input ≡ false
          → P (err (incompatible (compatibility_mismatches stored.session input)), b))
      → (right_token stored input ≡ true
          → fits stored input ≡ true
          → seated stored input ≡ true
          → P (ok stored.session, b))
      → (right_token stored input ≡ true
          → fits stored input ≡ true
          → seated stored input ≡ false
          → crowded stored ≡ true
          → P (err full, b))
      → (right_token stored input ≡ true
          → fits stored input ≡ true
          → seated stored input ≡ false
          → crowded stored ≡ false
          → let s = add_player stored.session joined_at input in
            P (ok s, record b { sessions = insert id (record stored { session = s }) b.sessions }))
      → P (admit b joined_at id stored input)
  unfolding admit
  admit_cases P b joined_at id stored input wrong unfit again refused fresh =
      elim (Bool-cases (right_token stored input)) [
        | inr t ↦ rw t (wrong t)
        | inl t ↦ rw t (elim (Bool-cases (fits stored input)) [
          | inr m ↦ rw m (unfit t m)
          | inl m ↦ rw m (elim (Bool-cases (seated stored input)) [
            | inl h ↦ rw h (again t m h)
            | inr h ↦ rw h (elim (Bool-cases (crowded stored)) [
              | inl f ↦ rw f (refused t m h f)
              | inr f ↦ rw f (fresh t m h f)
            ])
          ])
        ])
      ]

  -- A refused client, or what comes of the session that is found.
  pub join_cases {ℓ} :
      (P : Outcome Session → Type ℓ) (b : Broker) (now joined_at : ℕ) (id : Text)
      (input : JoinSessionInput)
      → ((e : Error) → P (err e, b))
      → P (admit_active joined_at (trim id) (normalize_join input) (active b now (trim id)))
      → P (join b now joined_at id input)
  unfolding join
  join_cases P b now joined_at id input refused accepted =
      elim (validate_participant (normalize_join input).client)
        as (λ r. P (elim r [
          | err e ↦ (err e, b)
          | ok _ ↦ admit_active joined_at (trim id) (normalize_join input) (active b now (trim id))
        ])) [ err e ↦ refused e | ok _ ↦ accepted ]

  -- The session that Create returns for an accepted request.
  abbrev pub created : List ℕ → List ℕ → ℕ → CreateSessionInput → CreatedSession
  created id_bytes token_bytes now input = record {
    session = new_session (Hex.encode id_bytes) now (normalize_create input);
    join_token = Hex.encode token_bytes;
  }

  module _ {ℓ} (P : Outcome CreatedSession → Type ℓ) (b : Broker) (now : ℕ)
      (input : CreateSessionInput) (refused : (e : Error) → P (err e, b)) where
    create_branches :
        (checked : Result Error Unit) (drawn_id drawn_token : Option (List ℕ))
        → ((id_bytes token_bytes : List ℕ)
            → checked ≡ ok tt
            → drawn_id ≡ some id_bytes
            → drawn_token ≡ some token_bytes
            → P (store_created b (ok (created id_bytes token_bytes now input))))
        → P (
            store_created b (do
              checked
              id ← random_token drawn_id
              join_token ← random_token drawn_token
              ok (record {
                session = new_session id now (normalize_create input);
                join_token = join_token;
              })))
    unfolding store_created random_token
    create_branches (err e) drawn_id drawn_token stored = refused e
    create_branches (ok _) none drawn_token stored = refused no_randomness
    create_branches (ok _) (some i) none stored = refused no_randomness
    create_branches (ok _) (some i) (some t) stored = stored i t refl refl refl

    pub create_cases :
        (drawn_id drawn_token : Option (List ℕ))
        → ((id_bytes token_bytes : List ℕ)
            → validate_create (normalize_create input) ≡ ok tt
            → drawn_id ≡ some id_bytes
            → drawn_token ≡ some token_bytes
            → P (store_created b (ok (created id_bytes token_bytes now input))))
        → P (create b drawn_id drawn_token now input)
    unfolding create
    create_cases drawn_id drawn_token stored =
        create_branches (validate_create (normalize_create input)) drawn_id drawn_token stored
