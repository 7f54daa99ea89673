-- ===== src/Multiplayer/Invariant.antt =====
-- What every session of the broker satisfies, after any calls.
use varkiv.Common.{
  ℕ, suc, ◌+◌, ◌≤◌, ◌≡◌, refl, Text, Stdlib, trim, ◌=ᵗ◌, text_eq_iff, Bool, true, false, not, ◌&&◌,
  length, length-append, any-append, Option, some, List, [], ◌∷◌, ◌++◌, arith, All, All-append,
}
use varkiv.Common.Maps.{lookup, delete, insert, lookup-delete, lookup-insert}
use varkiv.Multiplayer.Model
use varkiv.Multiplayer.Model.{
  Participant, host, player, CreateSessionInput, JoinSessionInput, Session, StoredSession, Broker,
  waiting, ready, session_lifetime,
}
use varkiv.Multiplayer.Input.{max_participants, normalize_join, normalize_create}
use varkiv.Multiplayer.Cases.{active_cases, close_cases, admit_cases, join_cases, create_cases}
use varkiv.Multiplayer.Broker.{
  new_broker, new_session, active, get, has_client, add_player, close, store_created, create, admit,
  admit_active, join, Call, creates, gets, joins, closes, step, run,
}

-- No client takes two seats.
abbrev pub has_distinct_clients : List Participant → Bool
has_distinct_clients [] = true
has_distinct_clients (p ∷ ps) = not (has_client p.client_id ps) && has_distinct_clients ps

-- The first participant is the host, and the only one.
abbrev pub IsHosted : List Participant → Type 0
IsHosted [] = ⊥
IsHosted (p ∷ ps) = (p.role ≡ host) × All (λ q. q.role ≡ player) ps

pub record IsValid (s : Session) : Type 0 where
  pub hosted : IsHosted s.participants
  pub distinct : has_distinct_clients s.participants ≡ true
  pub bounded : length s.participants ≤ max_participants s.profile_id
  pub waiting_alone : s.state ≡ waiting → length s.participants ≡ 1
  pub ready_joined : s.state ≡ ready → 2 ≤ length s.participants
  pub lifetime : s.expires_at ≡ s.created_at + session_lifetime

new_session-IsValid :
    (id : Text) (now : ℕ) (input : CreateSessionInput) → IsValid (new_session id now input)
unfolding new_session max_participants
new_session-IsValid id now input = ground arith

distinct-append :
    (ps : List Participant) (p : Participant)
    → has_client p.client_id ps ≡ false
    → has_distinct_clients ps ≡ true
    → has_distinct_clients (ps ++ p ∷ []) ≡ true
distinct-append [] p h d = refl
distinct-append (q ∷ ps) p h d = ground (
  arith,
  distinct-append ps p,
  any-append (λ r. r.client_id =ᵗ q.client_id) ps (p ∷ []),
  text_eq_iff p.client_id q.client_id,
  text_eq_iff q.client_id p.client_id,
)

IsHosted-append :
    (ps : List Participant) (p : Participant)
    → p.role ≡ player
    → IsHosted ps
    → IsHosted (ps ++ p ∷ [])
IsHosted-append [] p r h = absurd h
IsHosted-append (q ∷ ps) p r h = (h.0, All-append (λ q. q.role ≡ player) ps (p ∷ []) h.1 (r, tt))

IsHosted-length : (ps : List Participant) → IsHosted ps → 1 ≤ length ps
IsHosted-length [] h = absurd h
IsHosted-length (p ∷ ps) h = omega arith

abbrev new_player : ℕ → JoinSessionInput → Participant
new_player joined_at input = record {
  client_id = input.client.client_id;
  display_name = input.client.display_name;
  role = player;
  joined_at = joined_at;
}

add_player-IsValid :
    (s : Session) (joined_at : ℕ) (input : JoinSessionInput)
    → has_client input.client.client_id s.participants ≡ false
    → suc (length s.participants) ≤ max_participants s.profile_id
    → IsValid s
    → IsValid (add_player s joined_at input)
unfolding add_player
add_player-IsValid s joined_at input fresh room v = record {
  hosted = IsHosted-append s.participants _ refl v.hosted;
  distinct = distinct-append s.participants _ fresh v.distinct;
  bounded = omega (arith, length-append s.participants _);
  waiting_alone = λ e. ground (
    arith,
    length-append s.participants (new_player joined_at input ∷ []),
    IsHosted-length s.participants v.hosted,
  );
  ready_joined =
      λ e. omega (arith, length-append s.participants _, IsHosted-length s.participants v.hosted);
  lifetime = v.lifetime;
}

-- Each session stands under its own id and is valid.
pub record IsSound (b : Broker) : Type 0 where
  pub at_id :
      (id : Text) (stored : StoredSession)
      → lookup id b.sessions ≡ some stored
      → IsValid stored.session × (stored.session.id ≡ id)

new_broker-IsSound : IsSound new_broker
unfolding new_broker lookup
new_broker-IsSound = record { at_id = λ id stored h. cc }

insert-IsSound :
    (b : Broker) (id : Text) (stored : StoredSession)
    → IsValid stored.session
    → stored.session.id ≡ id
    → IsSound b
    → IsSound (record b { sessions = insert id stored b.sessions })
insert-IsSound b id stored v e sound = record {
  at_id = λ j found h.
      ground (arith, lookup-insert id j stored b.sessions, text_eq_iff id j, sound.at_id j found);
}

delete-IsSound :
    (b : Broker) (id : Text) → IsSound b → IsSound (record b { sessions = delete id b.sessions })
delete-IsSound b id sound = record {
  at_id = λ j found h. ground (arith, lookup-delete id j b.sessions, sound.at_id j found);
}

close-IsValid : (s : Session) → IsValid s → IsValid (record s { state = Model.State.closed })
close-IsValid s v = record {
  hosted = v.hosted;
  distinct = v.distinct;
  bounded = v.bounded;
  waiting_alone = λ e. cc;
  ready_joined = λ e. cc;
  lifetime = v.lifetime;
}

active-IsSound : (b : Broker) (now : ℕ) (id : Text) → IsSound b → IsSound (active b now id).1
active-IsSound b now id sound =
    active_cases (λ r. IsSound r.1) b now id (λ _. sound) (λ _ _ _. sound)
      (λ _ _ _ _. delete-IsSound b id sound) (λ _ _ _ _. sound)

get-IsSound : (b : Broker) (now : ℕ) (id : Text) → IsSound b → IsSound (get b now id).1
unfolding get
get-IsSound b now id sound = active-IsSound b now (trim id) sound

close-IsSound : (b : Broker) (id : Text) → IsSound b → IsSound (close b id).1
close-IsSound b id sound =
    close_cases (λ r. IsSound r.1) b id (λ _. sound) (λ _ _ _. sound)
      λ stored e _.
        let (v, same) = sound.at_id (trim id) stored e in
        insert-IsSound b (trim id) _ (close-IsValid stored.session v) same sound

module _ ⦃lib : Stdlib⦄ where
  admit-IsSound :
      (b : Broker) (joined_at : ℕ) (id : Text) (stored : StoredSession) (input : JoinSessionInput)
      → IsSound b
      → lookup id b.sessions ≡ some stored
      → IsSound (admit b joined_at id stored input).1
  unfolding add_player
  admit-IsSound b joined_at id stored input sound e =
      admit_cases (λ r. IsSound r.1) b joined_at id stored input (λ _. sound) (λ _ _. sound)
        (λ _ _ _. sound) (λ _ _ _ _. sound)
        λ _ _ fresh room.
          let (v, same) = sound.at_id id stored e in
          insert-IsSound b id _
            (add_player-IsValid stored.session joined_at input fresh (ground arith) v) same sound

  join-IsSound :
      (b : Broker) (now joined_at : ℕ) (id : Text) (input : JoinSessionInput)
      → IsSound b
      → IsSound (join b now joined_at id input).1
  unfolding admit_active
  join-IsSound b now joined_at id input sound =
      join_cases (λ r. IsSound r.1) b now joined_at id input (λ _. sound)
        (active_cases (λ r. IsSound (admit_active joined_at (trim id) (normalize_join input) r).1) b
          now (trim id) (λ _. sound) (λ _ _ _. sound) (λ _ _ _ _. delete-IsSound b (trim id) sound)
          (λ stored e _ _.
            admit-IsSound b joined_at (trim id) stored (normalize_join input) sound e))

  create-IsSound :
      (b : Broker) (drawn_id drawn_token : Option (List ℕ)) (now : ℕ) (input : CreateSessionInput)
      → IsSound b
      → IsSound (create b drawn_id drawn_token now input).1
  unfolding store_created new_session
  create-IsSound b drawn_id drawn_token now input sound =
      create_cases (λ r. IsSound r.1) b now input (λ _. sound) drawn_id drawn_token
        λ id_bytes token_bytes _ _ _.
          insert-IsSound b _ _ (new_session-IsValid _ now (normalize_create input)) refl sound

  step-IsSound : (b : Broker) (c : Call) → IsSound b → IsSound (step b c)
  unfolding step
  step-IsSound b (creates drawn_id drawn_token now input) sound =
      create-IsSound b drawn_id drawn_token now input sound
  step-IsSound b (gets now id) sound = get-IsSound b now id sound
  step-IsSound b (joins now joined_at id input) sound = join-IsSound b now joined_at id input sound
  step-IsSound b (closes id) sound = close-IsSound b id sound

  run-IsSound : (b : Broker) (cs : List Call) → IsSound b → IsSound (run b cs)
  unfolding run
  run-IsSound b [] sound = sound
  run-IsSound b (c ∷ cs) sound = run-IsSound (step b c) cs (step-IsSound b c sound)

  -- After any calls to a new broker, every session stands under its own id; its first participant
  -- is the host and the others are players; no client takes two seats, and the seats of the profile
  -- are not exceeded; a waiting session has the host alone and a ready one at least two
  -- participants; and it expires four hours after its creation.
  pub run-new_broker-IsSound : (cs : List Call) → IsSound (run new_broker cs)
  run-new_broker-IsSound cs = run-IsSound new_broker cs new_broker-IsSound
