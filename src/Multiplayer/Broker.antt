-- ===== src/Multiplayer/Broker.antt =====
-- The operations of the broker in internal/multiplayer/broker.go. The lock makes each of them one
-- step; the clock's readings and the random bytes are arguments.
use varkiv.Common.{
  ℕ, ◌+◌, Text, Stdlib, trim, ◌=ᵗ◌, is_empty, Bool, not, ltb, leb, length, any, Option, none, some,
  List, [], ◌∷◌, ◌++◌, Result, ok, err, ◌>>=◌, ◌>>◌, if◌then◌else◌,
}
use varkiv.Common.Hex
use varkiv.Common.Maps.{lookup, delete, insert}
use varkiv.Multiplayer.Model
use varkiv.Multiplayer.Model.{
  Error, not_found, expired, invalid_token, full, incompatible, no_randomness, Participant, host,
  player, CreateSessionInput, JoinSessionInput, Session, CreatedSession, StoredSession, Broker,
  State, waiting, ready, protocol_version, session_lifetime,
}
use varkiv.Multiplayer.Input.{
  normalize_create, normalize_join, validate_create, validate_participant, max_participants,
  compatibility_mismatches,
}

-- The broker may change although the call fails: an expired session is dropped.
abbrev pub Outcome : Type 0 → Type 0
Outcome A = Result Error A × Broker

unfoldable pub new_broker : Broker
new_broker = record { sessions = [] }

-- randomToken: the bytes that rand.Read delivers, if it does.
unfoldable pub random_token : Option (List ℕ) → Result Error Text
random_token drawn = elim drawn [ none ↦ err no_randomness | some bytes ↦ ok (Hex.encode bytes) ]

unfoldable pub new_session : Text → ℕ → CreateSessionInput → Session
new_session id now input = record {
  id = id;
  protocol = protocol_version;
  profile_id = input.profile_id;
  state = waiting;
  content = input.content;
  runtime = input.runtime;
  transport = input.transport;
  save_policy = input.save_policy;
  participants =
      record {
        client_id = input.creator.client_id;
        display_name = input.creator.display_name;
        role = host;
        joined_at = now;
      }
      ∷ [];
  created_at = now;
  expires_at = now + session_lifetime;
}

abbrev pub is_closed : State → Bool
is_closed Model.State.closed = Bool.true
is_closed waiting = Bool.false
is_closed ready = Bool.false

-- Broker.active
unfoldable pub active : Broker → ℕ → Text → Outcome StoredSession
active b now id = elim (lookup id b.sessions) [
  | none ↦ (err not_found, b)
  | some stored ↦
      if is_closed stored.session.state
      then (err Model.Error.closed, b)
      else if not (ltb now stored.session.expires_at)
      then (err expired, record b { sessions = delete id b.sessions })
      else (ok stored, b)
]

unfoldable pub session_of : Result Error StoredSession → Result Error Session
session_of (ok stored) = ok stored.session
session_of (err e) = err e

unfoldable pub get : Broker → ℕ → Text → Outcome Session
get b now id = let (r, b') = active b now (trim id) in (session_of r, b')

abbrev pub has_client : Text → List Participant → Bool
has_client client_id = any (λ p. p.client_id =ᵗ client_id)

unfoldable pub add_player : Session → ℕ → JoinSessionInput → Session
add_player session joined_at input = record session {
  participants = joined;
  state = if ltb 1 (length joined) then ready else session.state;
}
  where
    joined : List Participant
    joined =
        session.participants
        ++ record {
          client_id = input.client.client_id;
          display_name = input.client.display_name;
          role = player;
          joined_at = joined_at;
        }
          ∷ []

unfoldable pub close : Broker → Text → Outcome Session
close b id = elim (lookup (trim id) b.sessions) [
  | none ↦ (err not_found, b)
  | some stored ↦
      let closed_session : Session = record stored.session { state = Model.State.closed } in
      if is_closed stored.session.state then (ok stored.session, b) else (
        ok closed_session,
        record b {
          sessions = insert (trim id) (record stored { session = closed_session }) b.sessions;
        },
      )
]

module _ ⦃lib : Stdlib⦄ where
  -- What Create computes before it takes the lock.
  unfoldable pub prepare :
      Option (List ℕ) → Option (List ℕ) → ℕ → CreateSessionInput → Result Error CreatedSession
  prepare drawn_id drawn_token now raw = do
    let input = normalize_create raw
    validate_create input
    id ← random_token drawn_id
    join_token ← random_token drawn_token
    ok (record { session = new_session id now input; join_token = join_token })

  unfoldable pub store_created : Broker → Result Error CreatedSession → Outcome CreatedSession
  store_created b (err e) = (err e, b)
  store_created b (ok c) = (
    ok c,
    record b {
      sessions =
          insert c.session.id (record { session = c.session; token_hash = lib.sha256 c.join_token })
            b.sessions;
    },
  )

  unfoldable pub create :
      Broker → Option (List ℕ) → Option (List ℕ) → ℕ → CreateSessionInput → Outcome CreatedSession
  unfolding prepare store_created
  create b drawn_id drawn_token now input = store_created b (prepare drawn_id drawn_token now input)

  -- Join behind the call of `active`.
  unfoldable pub admit : Broker → ℕ → Text → StoredSession → JoinSessionInput → Outcome Session
  admit b joined_at id stored input =
      let fields = compatibility_mismatches stored.session input in
      let session = add_player stored.session joined_at input in
      if not (lib.sha256 input.join_token =ᵗ stored.token_hash)
      then (err invalid_token, b)
      else if not (is_empty fields)
      then (err (incompatible fields), b)
      else if has_client input.client.client_id stored.session.participants
      then (ok stored.session, b)
      else if leb (max_participants stored.session.profile_id) (length stored.session.participants)
      then (err full, b)
      else (
        ok session,
        record b { sessions = insert id (record stored { session = session }) b.sessions },
      )

  unfoldable pub admit_active :
      ℕ → Text → JoinSessionInput → Outcome StoredSession → Outcome Session
  admit_active joined_at id input (err e, b) = (err e, b)
  admit_active joined_at id input (ok stored, b) = admit b joined_at id stored input

  -- `joined_at` is the second reading of the clock.
  unfoldable pub join : Broker → ℕ → ℕ → Text → JoinSessionInput → Outcome Session
  unfolding admit_active
  join b now joined_at id raw =
      let input = normalize_join raw in
      elim (validate_participant input.client) [
        | err e ↦ (err e, b)
        | ok _ ↦ admit_active joined_at (trim id) input (active b now (trim id))
      ]

-- A request to the broker, with what the clock and the random source give it.
pub data Call : Type 0 where
  creates : Option (List ℕ) → Option (List ℕ) → ℕ → CreateSessionInput → Call
  gets : ℕ → Text → Call
  joins : ℕ → ℕ → Text → JoinSessionInput → Call
  closes : Text → Call

module _ ⦃lib : Stdlib⦄ where
  unfoldable pub step : Broker → Call → Broker
  step b (creates drawn_id drawn_token now input) = (create b drawn_id drawn_token now input).1
  step b (gets now id) = (get b now id).1
  step b (joins now joined_at id input) = (join b now joined_at id input).1
  step b (closes id) = (close b id).1

  unfoldable pub run : Broker → List Call → Broker
  run b [] = b
  run b (c ∷ cs) = run (step b c) cs
