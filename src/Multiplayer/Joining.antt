-- ===== src/Multiplayer/Joining.antt =====
-- Who gets into a session: Broker.Join of internal/multiplayer/broker.go.
use varkiv.Common.{
  ◌++◌, ℕ, ◌<◌, ◌≡◌, refl, ◌⊎◌, inl, inr, Text, Stdlib, trim, ◌=ᵗ◌, text_eq_iff, text_eq_refl, true,
  false, leb, ltb→lt, is_empty, length, any-append, some, [], ◌∷◌, ok, err, if◌then◌else◌, arith,
  lt→ltb,
}
use varkiv.Common.Maps.{lookup, insert, lookup-insert}
use varkiv.Multiplayer.Model.{
  full, player, Participant, JoinSessionInput, Session, StoredSession, Broker,
}
use varkiv.Multiplayer.Input.{
  max_participants, compatibility_mismatches, normalize_join, validate_participant,
}
use varkiv.Multiplayer.Compatibility.{mismatches_empty_iff}
use varkiv.Multiplayer.Cases.{right_token, fits, active_cases, admit_cases, join_cases}
use varkiv.Multiplayer.Broker.{
  Outcome, active, has_client, add_player, admit, admit_active, join, is_closed,
}

-- The entry of a client that joins.
abbrev pub new_player : ℕ → JoinSessionInput → Participant
new_player joined_at input = record {
  client_id = input.client.client_id;
  display_name = input.client.display_name;
  role = player;
  joined_at = joined_at;
}

-- A session that a client may enter at the time `now`.
pub record IsOpen (b : Broker) (now : ℕ) (id : Text) (stored : StoredSession) : Type 0 where
  pub found : lookup id b.sessions ≡ some stored
  pub live : is_closed stored.session.state ≡ false
  pub in_time : now < stored.session.expires_at

-- `active` finds an open session and changes nothing.
pub active_open :
    (b : Broker) (now : ℕ) (id : Text) (stored : StoredSession)
    → IsOpen b now id stored
    → active b now id ≡ (ok stored, b)
unfolding active
active_open b now id stored h = rw (h.found, active) (rw (h.live, lt→ltb _ _ h.in_time))

pub has_client-add_player :
    (s : Session) (joined_at : ℕ) (input : JoinSessionInput)
    → has_client input.client.client_id (add_player s joined_at input).participants ≡ true
unfolding add_player
has_client-add_player s joined_at input = ground (
  arith,
  any-append (λ p. p.client_id =ᵗ input.client.client_id) s.participants
      (new_player joined_at input ∷ []),
  text_eq_refl input.client.client_id,
)

module _ ⦃lib : Stdlib⦄ where
  -- The invitation that a session asks for, and the game that it plays.
  pub record IsInvited (stored : StoredSession) (input : JoinSessionInput) : Type 0 where
    pub token : lib.sha256 input.join_token ≡ stored.token_hash
    pub content : input.content ≡ stored.session.content
    pub runtime : input.runtime ≡ stored.session.runtime

  -- What a join that returned the session `s` and left the broker `after` shows.
  pub record Joined (b : Broker) (now joined_at : ℕ) (id : Text) (input : JoinSessionInput)
      (s : Session) (after : Broker) : Type 0 where
    pub stored : StoredSession
    pub is_open : IsOpen b now id stored
    pub invited : IsInvited stored input
    pub seated : has_client input.client.client_id s.participants ≡ true
    pub change :
        ((s ≡ stored.session) × (after ≡ b))
        ⊎ ((s ≡ add_player stored.session joined_at input)
            × (length stored.session.participants < max_participants stored.session.profile_id)
            × (lookup id after.sessions ≡ some (record stored { session = s }))
            × (s.participants ≡ stored.session.participants ++ new_player joined_at input ∷ []))

  -- What a result of `admit` shows, if it is a session.
  abbrev pub Shows : (Session → Broker → Type 0) → Outcome Session → Type 0
  Shows P (ok s, after) = P s after
  Shows P (err e, after) = Unit

  admit-Joined :
      (b : Broker) (now joined_at : ℕ) (id : Text) (stored : StoredSession)
      (input : JoinSessionInput)
      → IsOpen b now id stored
      → Shows (Joined b now joined_at id input) (admit b joined_at id stored input)
  admit-Joined b now joined_at id stored input is_open =
      admit_cases (Shows (Joined b now joined_at id input)) b joined_at id stored input (λ _. tt)
        (λ _ _. tt)
        (λ t m h. record {
          stored = stored;
          is_open = is_open;
          invited = invited t m;
          seated = h;
          change = inl (refl, refl);
        })
        (λ _ _ _ _. tt)
        (λ t m h f. record {
          stored = stored;
          is_open = is_open;
          invited = invited t m;
          seated = has_client-add_player stored.session joined_at input;
          change = inr (
            refl,
            ground arith,
            ground (
              arith,
              lookup-insert id id
                  (record stored { session = add_player stored.session joined_at input })
                  b.sessions,
              text_eq_refl id,
            ),
            unfold add_player in refl,
          );
        })
    where
      invited :
          (lib.sha256 input.join_token =ᵗ stored.token_hash) ≡ true
          → is_empty (compatibility_mismatches stored.session input) ≡ true
          → IsInvited stored input
      invited t m =
          let (same_content, same_runtime) = (mismatches_empty_iff stored.session input).0 m in
          record { token = (text_eq_iff _ _).0 t; content = same_content; runtime = same_runtime }

  -- A join that succeeds found a live session before its expiry, with the invitation token of that
  -- session and exactly its content and runtime; the client is among the participants that are
  -- returned; and either it was there before and nothing changed, or there was a free seat, and the
  -- session that is returned and stored has the participants from before and this client as the last,
  -- as a player with the names that it gave and the time of the join.
  pub join-Joined :
      (b : Broker) (now joined_at : ℕ) (id : Text) (input : JoinSessionInput)
      → Shows
          (Joined b now joined_at (trim id) (normalize_join input))
          (join b now joined_at id input)
  unfolding admit_active
  join-Joined b now joined_at id input =
      join_cases (Shows (Joined b now joined_at (trim id) (normalize_join input))) b now joined_at
        id input (λ _. tt)
        (active_cases
          (λ r.
            Shows (Joined b now joined_at (trim id) (normalize_join input))
              (admit_active joined_at (trim id) (normalize_join input) r))
          b now (trim id) (λ _. tt) (λ _ _ _. tt) (λ _ _ _ _. tt)
          λ stored e live in_time.
            admit-Joined b now joined_at (trim id) stored (normalize_join input)
              (record { found = e; live = live; in_time = ltb→lt _ _ in_time }))

  invited_tests :
      (stored : StoredSession) (input : JoinSessionInput)
      → IsInvited stored input
      → (right_token stored input ≡ true) × (fits stored input ≡ true)
  invited_tests stored input i = (
    (text_eq_iff _ _).1 i.token,
    (mismatches_empty_iff stored.session input).1 (i.content, i.runtime),
  )

  -- A client whose names are acceptable and who brings the invitation to an open session gets that
  -- session as it is, if it is seated there; an error and no change, if all seats are taken; and
  -- otherwise the session with this client as its last participant, which is also stored.
  pub join-IsInvited :
      (b : Broker) (now joined_at : ℕ) (id : Text) (raw : JoinSessionInput) (stored : StoredSession)
      → validate_participant (normalize_join raw).client ≡ ok tt
      → IsOpen b now (trim id) stored
      → IsInvited stored (normalize_join raw)
      → let input = normalize_join raw in
        let s = add_player stored.session joined_at input in
        join b now joined_at id raw ≡ (
          if has_client input.client.client_id stored.session.participants
          then (ok stored.session, b)
          else if leb
              (max_participants stored.session.profile_id)
              (length stored.session.participants)
          then (err full, b)
          else (
            ok s,
            record b { sessions = insert (trim id) (record stored { session = s }) b.sessions },
          ))
  unfolding join admit admit_active
  join-IsInvited b now joined_at id raw stored valid is_open invited =
      let (token, fit) = invited_tests stored (normalize_join raw) invited in
      rw (valid, join)
        (rw (active_open b now (trim id) stored is_open, admit_active) (rw (token, fit)))
