-- ===== src/Multiplayer/Expiry.antt =====
-- Expiry and creation of sessions in internal/multiplayer/broker.go.
use varkiv.Common.{
  refl, ap, leb, length, ℕ, ◌+◌, ◌≤◌, ◌<◌, ◌≡◌, Text, Stdlib, trim, ◌=ᵗ◌, text_eq_refl, false, none,
  some, List, ok, err, All, arith, true,
}
use varkiv.Common.Hex
use varkiv.Common.Hex.{IsByte, trim-encode}
use varkiv.Common.Maps.{lookup, delete, insert, lookup-delete, lookup-insert}
use varkiv.Multiplayer.Model.{
  not_found, expired, JoinSessionInput, ParticipantInput, CreateSessionInput, Session,
  StoredSession, Broker, ready, session_lifetime,
}
use varkiv.Multiplayer.Input.{
  max_participants, normalize_create, normalize_join, normalize_participant, validate_create,
  validate_participant,
}
use varkiv.Multiplayer.Cases.{created}
use varkiv.Multiplayer.Joining.{has_client-add_player, IsOpen, IsInvited, join-IsInvited}
use varkiv.Multiplayer.Broker.{
  active, get, join, create, store_created, random_token, new_session, add_player, is_closed,
  session_of, has_client,
}

active_over :
    (b : Broker) (now : ℕ) (id : Text) (stored : StoredSession)
    → lookup id b.sessions ≡ some stored
    → is_closed stored.session.state ≡ false
    → stored.session.expires_at ≤ now
    → active b now id ≡ (err expired, record b { sessions = delete id b.sessions })
unfolding active
active_over b now id stored e live over = rw (e, active) (rw live (ground arith))

active_missing :
    (b : Broker) (now : ℕ) (id : Text)
    → lookup id b.sessions ≡ none
    → active b now id ≡ (err not_found, b)
unfolding active
active_missing b now id e = rw (e, active)

-- At the expiry of a session that is not closed, or after it, Get reports that it has expired; the
-- next Get, at any time, reports that there is no such session.
pub get_expired :
    (b : Broker) (now later : ℕ) (id : Text) (stored : StoredSession)
    → lookup (trim id) b.sessions ≡ some stored
    → is_closed stored.session.state ≡ false
    → stored.session.expires_at ≤ now
    → ((get b now id).0 ≡ err expired) × ((get (get b now id).1 later id).0 ≡ err not_found)
unfolding get session_of
get_expired b now later id stored e live over =
    rw (active_over b now (trim id) stored e live over)
      (refl, rw (active_missing _ later (trim id) gone))
  where
    gone : lookup (trim id) (delete (trim id) b.sessions) ≡ none
    gone = ground (arith, lookup-delete (trim id) (trim id) b.sessions, text_eq_refl (trim id))

module _ ⦃lib : Stdlib⦄ where
  pub create_accepted :
      (b : Broker) (id_bytes token_bytes : List ℕ) (now : ℕ) (input : CreateSessionInput)
      → validate_create (normalize_create input) ≡ ok tt
      → create b (some id_bytes) (some token_bytes) now input
        ≡ store_created b (ok (created id_bytes token_bytes now input))
  unfolding create random_token
  create_accepted b id_bytes token_bytes now input valid = rw (valid, create)

  -- The request of a client that repeats what the host said of content and runtime.
  abbrev pub invitation : Text → CreateSessionInput → ParticipantInput → JoinSessionInput
  invitation token input client = record {
    join_token = token;
    content = input.content;
    runtime = input.runtime;
    client = client;
  }

  abbrev entry : List ℕ → List ℕ → ℕ → CreateSessionInput → StoredSession
  entry id_bytes token_bytes now input = record {
    session = (created id_bytes token_bytes now input).session;
    token_hash = lib.sha256 (Hex.encode token_bytes);
  }

  module _ (b : Broker) (id_bytes token_bytes : List ℕ) (now : ℕ) (input : CreateSessionInput) where
    entry-IsOpen :
        (later : ℕ)
        → All IsByte id_bytes
        → later < now + session_lifetime
        → let e = entry id_bytes token_bytes now input in
          IsOpen
            (record b { sessions = insert (Hex.encode id_bytes) e b.sessions })
            later
            (trim (Hex.encode id_bytes))
            e
    unfolding new_session
    entry-IsOpen later h time = rw (trim-encode id_bytes h) (record {
      found = ground (
        arith,
        lookup-insert (Hex.encode id_bytes) (Hex.encode id_bytes)
            (entry id_bytes token_bytes now input) b.sessions,
        text_eq_refl (Hex.encode id_bytes),
      );
      live = refl;
      in_time = time;
    })

    entry-IsInvited :
        (client : ParticipantInput)
        → All IsByte token_bytes
        → IsInvited
            (entry id_bytes token_bytes now input)
            (normalize_join (invitation (Hex.encode token_bytes) input client))
    unfolding new_session normalize_join normalize_create
    entry-IsInvited client h = record {
      token = ap lib.sha256 (trim-encode token_bytes h);
      content = refl;
      runtime = refl;
    }

    -- The first client finds a free seat.
    seat_free :
        (client : ParticipantInput)
        → (trim input.creator.client_id =ᵗ trim client.client_id) ≡ false
        → let s = (created id_bytes token_bytes now input).session in
          (has_client (trim client.client_id) s.participants ≡ false)
          × (leb (max_participants s.profile_id) (length s.participants) ≡ false)
    unfolding new_session normalize_create normalize_participant max_participants
    seat_free client h = ground arith

  -- From an accepted Create to the first Join: a client with acceptable names, another id than the
  -- host's, the token that Create returned and the host's words for content and runtime, who comes
  -- under the returned id less than four hours later, is admitted, and the session is ready.
  pub create_then_join :
      (b : Broker) (id_bytes token_bytes : List ℕ) (now later joined_at : ℕ)
      (input : CreateSessionInput) (client : ParticipantInput)
      → All IsByte id_bytes
      → All IsByte token_bytes
      → validate_create (normalize_create input) ≡ ok tt
      → validate_participant (normalize_participant client) ≡ ok tt
      → (trim input.creator.client_id =ᵗ trim client.client_id) ≡ false
      → later < now + session_lifetime
      → let c = created id_bytes token_bytes now input in
        let b' = (create b (some id_bytes) (some token_bytes) now input).1 in
        let r = join b' later joined_at c.session.id (invitation c.join_token input client) in
        ((create b (some id_bytes) (some token_bytes) now input).0 ≡ ok c)
        × (s : Session) × (r.0 ≡ ok s)
        × (s.state ≡ ready)
        × (has_client (trim client.client_id) s.participants ≡ true)
  unfolding store_created new_session add_player normalize_join normalize_participant
  create_then_join b id_bytes token_bytes now later joined_at input client hi ht valid fine other
        time =
      let raw = invitation (Hex.encode token_bytes) input client in
      let stored = entry id_bytes token_bytes now input in
      let (unseated, room) = seat_free b id_bytes token_bytes now input client other in
      rw (create_accepted b id_bytes token_bytes now input valid) (
        refl,
        add_player stored.session joined_at (normalize_join raw),
        rw (
          join-IsInvited _ later joined_at (Hex.encode id_bytes) raw stored fine
              (entry-IsOpen b id_bytes token_bytes now input later hi time)
              (entry-IsInvited b id_bytes token_bytes now input client ht),
          unseated,
          room,
        ),
        refl,
        has_client-add_player stored.session joined_at (normalize_join raw),
      )
