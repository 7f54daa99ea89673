-- ===== src/Multiplayer/Lifetime.antt =====
-- Sessions of internal/multiplayer/broker.go do not disturb one another, and a closed one stays so.
use varkiv.Common.{
  ℕ, ◌≡◌, ◌≢◌, refl, Text, Stdlib, trim, text_eq_iff, text_eq_refl, true, false, none, some, List,
  [], ◌∷◌, ok, err, All, arith, ◌∙◌,
}
use varkiv.Common.Hex
use varkiv.Common.Maps.{lookup, delete, insert, lookup-delete, lookup-insert}
use varkiv.Multiplayer.Model
use varkiv.Multiplayer.Model.{Error, JoinSessionInput, Session, StoredSession, Broker}
use varkiv.Multiplayer.Input.{normalize_join}
use varkiv.Multiplayer.Cases.{active_cases, admit_cases, join_cases, close_cases, create_cases}
use varkiv.Multiplayer.Broker.{
  active, get, close, admit, admit_active, join, store_created, Call, creates, gets, joins, closes,
  step, run, is_closed, session_of, new_session,
}

-- The session that a call is about; for a creation, the id that it draws.
abbrev pub About : Call → Text → Type 0
About (creates none drawn_token now input) id = ⊥
About (creates (some bytes) drawn_token now input) id = Hex.encode bytes ≡ id
About (gets now raw) id = trim raw ≡ id
About (joins now joined_at raw input) id = trim raw ≡ id
About (closes raw) id = trim raw ≡ id

-- The broker `after` has the same entry under `j` as `b`.
abbrev Keeps : Broker → Text → Broker → Type 0
Keeps b j after = lookup j after.sessions ≡ lookup j b.sessions

insert-Keeps :
    (b : Broker) (i j : Text) (stored : StoredSession)
    → i ≢ j
    → Keeps b j (record b { sessions = insert i stored b.sessions })
insert-Keeps b i j stored h = ground (arith, lookup-insert i j stored b.sessions, text_eq_iff i j)

delete-Keeps :
    (b : Broker) (i j : Text) → i ≢ j → Keeps b j (record b { sessions = delete i b.sessions })
delete-Keeps b i j h = ground (arith, lookup-delete i j b.sessions, text_eq_iff i j)

active-Keeps : (b : Broker) (now : ℕ) (i j : Text) → i ≢ j → Keeps b j (active b now i).1
active-Keeps b now i j h =
    active_cases (λ r. Keeps b j r.1) b now i (λ _. refl) (λ _ _ _. refl)
      (λ _ _ _ _. delete-Keeps b i j h) (λ _ _ _ _. refl)

module _ ⦃lib : Stdlib⦄ where
  admit-Keeps :
      (b : Broker) (joined_at : ℕ) (i j : Text) (stored : StoredSession) (input : JoinSessionInput)
      → i ≢ j
      → Keeps b j (admit b joined_at i stored input).1
  admit-Keeps b joined_at i j stored input h =
      admit_cases (λ r. Keeps b j r.1) b joined_at i stored input (λ _. refl) (λ _ _. refl)
        (λ _ _ _. refl) (λ _ _ _ _. refl) (λ _ _ _ _. insert-Keeps b i j _ h)

  join-Keeps :
      (b : Broker) (now joined_at : ℕ) (id j : Text) (input : JoinSessionInput)
      → trim id ≢ j
      → Keeps b j (join b now joined_at id input).1
  unfolding admit_active
  join-Keeps b now joined_at id j input h =
      join_cases (λ r. Keeps b j r.1) b now joined_at id input (λ _. refl)
        (active_cases (λ r. Keeps b j (admit_active joined_at (trim id) (normalize_join input) r).1)
          b now (trim id) (λ _. refl) (λ _ _ _. refl) (λ _ _ _ _. delete-Keeps b (trim id) j h)
          (λ stored _ _ _. admit-Keeps b joined_at (trim id) j stored (normalize_join input) h))

  -- A call changes the entry of no other session than the one that it is about.
  pub step-Keeps :
      (b : Broker) (c : Call) (j : Text)
      → ¬ About c j
      → lookup j (step b c).sessions ≡ lookup j b.sessions
  unfolding step get store_created new_session
  step-Keeps b (creates drawn_id drawn_token now input) j h =
      create_cases (λ r. Keeps b j r.1) b now input (λ _. refl) drawn_id drawn_token
        λ id_bytes token_bytes _ e _. insert-Keeps b _ j _ (λ p. h (rw (e, About) p))
  step-Keeps b (gets now id) j h = active-Keeps b now (trim id) j h
  step-Keeps b (joins now joined_at id input) j h = join-Keeps b now joined_at id j input h
  step-Keeps b (closes id) j h =
      close_cases (λ r. Keeps b j r.1) b id (λ _. refl) (λ _ _ _. refl)
        (λ stored e _. insert-Keeps b (trim id) j _ h)

-- The session `id` is closed.
abbrev pub IsClosedAt : Broker → Text → Type 0
IsClosedAt b id =
    (stored : StoredSession) × (lookup id b.sessions ≡ some stored)
    × (is_closed stored.session.state ≡ true)

active_closed :
    (b : Broker) (now : ℕ) (id : Text)
    → IsClosedAt b id
    → active b now id ≡ (err Model.Error.closed, b)
unfolding active
active_closed b now id (stored, e, shut) = rw (e, active) (rw shut)

close-IsClosedAt :
    (b : Broker) (id : Text) (s : Session)
    → (close b id).0 ≡ ok s
    → IsClosedAt (close b id).1 (trim id)
close-IsClosedAt b id =
    close_cases (λ r. (s : Session) → r.0 ≡ ok s → IsClosedAt r.1 (trim id)) b id (λ _ s h. cc)
      (λ stored e shut s h. (stored, e, shut))
      (λ stored e live s h. (
        record stored { session = record stored.session { state = Model.State.closed } },
        ground (
          arith,
          lookup-insert (trim id) (trim id)
              (record stored { session = record stored.session { state = Model.State.closed } })
              b.sessions,
          text_eq_refl (trim id),
        ),
        refl,
      ))

-- An open session is another than a closed one, so what is done to it leaves the closed one alone.
open_ne_closed :
    (b : Broker) (i id : Text) (stored : StoredSession)
    → lookup i b.sessions ≡ some stored
    → is_closed stored.session.state ≡ false
    → IsClosedAt b id
    → i ≢ id
open_ne_closed b i id stored e live (other, f, shut) p = ground arith

Keeps-IsClosedAt :
    (b after : Broker) (id : Text) → Keeps b id after → IsClosedAt b id → IsClosedAt after id
Keeps-IsClosedAt b after id k (stored, e, shut) = (stored, k ∙ e, shut)

module _ (b : Broker) (i id : Text) (stored : StoredSession) (e : lookup i b.sessions ≡ some stored)
    (live : is_closed stored.session.state ≡ false) (shut : IsClosedAt b id) where
  delete-IsClosedAt : IsClosedAt (record b { sessions = delete i b.sessions }) id
  delete-IsClosedAt =
      Keeps-IsClosedAt b _ id (delete-Keeps b i id (open_ne_closed b i id stored e live shut)) shut

  insert-IsClosedAt :
      (s : StoredSession) → IsClosedAt (record b { sessions = insert i s b.sessions }) id
  insert-IsClosedAt s =
      Keeps-IsClosedAt b _ id (insert-Keeps b i id s (open_ne_closed b i id stored e live shut))
        shut

module _ ⦃lib : Stdlib⦄ where
  -- No creation draws this id again.
  abbrev pub Avoids : Text → Call → Type 0
  Avoids id (creates drawn_id drawn_token now input) =
      ¬ About (creates drawn_id drawn_token now input) id
  Avoids id (gets now raw) = Unit
  Avoids id (joins now joined_at raw input) = Unit
  Avoids id (closes raw) = Unit

  step-IsClosedAt :
      (b : Broker) (c : Call) (id : Text) → Avoids id c → IsClosedAt b id → IsClosedAt (step b c) id
  unfolding step get admit_active
  step-IsClosedAt b (creates drawn_id drawn_token now input) id h shut =
      Keeps-IsClosedAt b _ id (step-Keeps b (creates drawn_id drawn_token now input) id h) shut
  step-IsClosedAt b (gets now raw) id h shut =
      active_cases (λ r. IsClosedAt r.1 id) b now (trim raw) (λ _. shut) (λ _ _ _. shut)
        (λ stored e live _. delete-IsClosedAt b (trim raw) id stored e live shut) (λ _ _ _ _. shut)
  step-IsClosedAt b (joins now joined_at raw input) id h shut =
      join_cases (λ r. IsClosedAt r.1 id) b now joined_at raw input (λ _. shut)
        (active_cases
          (λ r. IsClosedAt (admit_active joined_at (trim raw) (normalize_join input) r).1 id) b now
          (trim raw) (λ _. shut) (λ _ _ _. shut)
          (λ stored e live _. delete-IsClosedAt b (trim raw) id stored e live shut)
          (λ stored e live _.
            admit_cases (λ r. IsClosedAt r.1 id) b joined_at (trim raw) stored
              (normalize_join input) (λ _. shut) (λ _ _. shut) (λ _ _ _. shut) (λ _ _ _ _. shut)
              (λ _ _ _ _. insert-IsClosedAt b (trim raw) id stored e live shut _)))
  step-IsClosedAt b (closes raw) id h shut =
      close_cases (λ r. IsClosedAt r.1 id) b raw (λ _. shut) (λ _ _ _. shut)
        (λ stored e live. insert-IsClosedAt b (trim raw) id stored e live shut _)

  run-IsClosedAt :
      (b : Broker) (cs : List Call) (id : Text)
      → All (Avoids id) cs
      → IsClosedAt b id
      → IsClosedAt (run b cs) id
  unfolding run
  run-IsClosedAt b [] id h shut = shut
  run-IsClosedAt b (c ∷ cs) id h shut =
      run-IsClosedAt (step b c) cs id h.1 (step-IsClosedAt b c id h.0 shut)

  join_closed :
      (b : Broker) (now joined_at : ℕ) (id : Text) (input : JoinSessionInput) (s : Session)
      → IsClosedAt b (trim id)
      → (join b now joined_at id input).0 ≢ ok s
  unfolding admit_active
  join_closed b now joined_at id input s shut =
      join_cases (λ r. r.0 ≢ ok s) b now joined_at id input (λ e p. cc)
        (rw (active_closed b now (trim id) shut, admit_active) (λ p. cc))

  -- Once Close has returned a session, then whatever calls follow, unless a creation draws the same
  -- id again, Get answers at any time that the session is closed, and no Join succeeds.
  pub close_is_final :
      (b : Broker) (id : Text) (s : Session) (cs : List Call)
      → (close b id).0 ≡ ok s
      → All (Avoids (trim id)) cs
      → (now joined_at : ℕ) (input : JoinSessionInput) (t : Session)
      → ((get (run (close b id).1 cs) now id).0 ≡ err Model.Error.closed)
        × ((join (run (close b id).1 cs) now joined_at id input).0 ≢ ok t)
  unfolding get session_of
  close_is_final b id s cs e h now joined_at input t =
      let shut = run-IsClosedAt (close b id).1 cs (trim id) h (close-IsClosedAt b id s e) in
      (rw (active_closed _ now (trim id) shut), join_closed _ now joined_at id input t shut)
