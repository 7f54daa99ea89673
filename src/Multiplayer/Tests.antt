-- ===== src/Multiplayer/Tests.antt =====
-- Runs of the broker, and its theorems at concrete sessions.
use varkiv.Common.{
  ℕ, ◌≡◌, refl, codes, Stdlib, trim, ◌=ᵗ◌, pos, true, is_empty, some, List, [], ◌∷◌, ok, err, arith,
  if◌then◌else◌, lower, byte_len, leb, length,
}
use varkiv.Common.Hex
use varkiv.Common.Maps.{lookup, insert}
use varkiv.Multiplayer.Model.{
  Error, expired, not_found, CreateSessionInput, JoinSessionInput, ParticipantInput, Session,
  StoredSession, Broker, State,
}
use varkiv.Multiplayer.Input.{
  normalize_create, normalize_join, validate_create, validate_participant, compatibility_mismatches,
  normalize_participant,
}
use varkiv.Multiplayer.Compatibility.{mismatches_empty_iff}
use varkiv.Multiplayer.Cases.{created}
use varkiv.Multiplayer.Invariant.{IsSound, run-new_broker-IsSound}
use varkiv.Multiplayer.Joining.{join-Joined, IsOpen, IsInvited, Shows, Joined}
use varkiv.Multiplayer.Lifetime.{step-Keeps, close_is_final}
use varkiv.Multiplayer.Expiry.{get_expired, create_then_join, invitation}
use varkiv.Multiplayer.Broker.{
  new_broker, create, join, get, close, step, run, creates, gets, joins, closes, Call, new_session,
  has_client, add_player,
}

-- No case beyond ASCII, and a digest that is the text itself.
instance abbrev plain : Stdlib
plain = record { lower_wide = λ c. c; upper_wide = λ c. c; sha256 = λ t. t; sha256_bytes = λ t. t }

abbrev request : CreateSessionInput
request = record {
  profile_id = codes " RetroArch-Netplay-v1";
  content = record {
    sha256 = codes "00112233445566778899AABBCCDDEEFF00112233445566778899aabbccddeeff";
    size = pos 4096;
    platform = codes "GBA";
  };
  runtime = record {
    emulator = codes "RetroArch";
    version = codes "1.19.1";
    core = codes "mgba";
    core_version = codes "0.10";
  };
  transport = codes "relay";
  save_policy = codes "isolated";
  creator = record { client_id = codes "host-1"; display_name = codes "Host" };
}

abbrev guest : ParticipantInput
guest = record { client_id = codes "guest-1 "; display_name = codes "Guest" }

abbrev id_bytes : List ℕ
id_bytes = 1 ∷ 254 ∷ []

abbrev token_bytes : List ℕ
token_bytes = 171 ∷ 205 ∷ []

abbrev calls : List Call
calls =
    creates (some id_bytes) (some token_bytes) 100 request
    ∷ joins 200 201 (codes "01fe") (invitation (codes "abcd") request guest)
    ∷ gets 300 (codes "01fe")
    ∷ closes (codes "01fe")
    ∷ []

request_valid : validate_create (normalize_create request) ≡ ok tt
unfolding validate_create normalize_create trim lower byte_len ◌=ᵗ◌ Hex.decode
request_valid = refl

guest_valid : validate_participant (normalize_participant guest) ≡ ok tt
unfolding validate_participant normalize_participant trim byte_len
guest_valid = refl

abbrev stored : StoredSession
stored = record {
  session = (created id_bytes token_bytes 100 request).session;
  token_hash = codes "abcd";
}

abbrev opened : Broker
opened = record { sessions = (codes "01fe", stored) ∷ [] }

abbrev entry : JoinSessionInput
entry = invitation (codes "abcd") request guest

opened-IsOpen : IsOpen opened 200 (trim (codes "01fe")) stored
unfolding trim lookup ◌=ᵗ◌ new_session
opened-IsOpen = record { found = refl; live = refl; in_time = omega arith }

entry-IsInvited : IsInvited stored (normalize_join entry)
unfolding normalize_join normalize_create new_session trim
entry-IsInvited = record { token = refl; content = refl; runtime = refl }

opened_id : lookup (trim (codes " 01fe")) opened.sessions ≡ some stored
unfolding trim lookup ◌=ᵗ◌
opened_id = refl

run-new_broker-IsSound_example : IsSound (run new_broker calls)
run-new_broker-IsSound_example = run-new_broker-IsSound calls

mismatches_empty_iff_example :
    is_empty (compatibility_mismatches stored.session (normalize_join entry)) ≡ true
mismatches_empty_iff_example =
    (mismatches_empty_iff stored.session (normalize_join entry)).1
      (entry-IsInvited.content, entry-IsInvited.runtime)

join-Joined_example :
    Shows
      (Joined opened 200 201 (trim (codes "01fe")) (normalize_join entry))
      (join opened 200 201 (codes "01fe") entry)
join-Joined_example = join-Joined opened 200 201 (codes "01fe") entry

entered : Session
entered = add_player stored.session 201 (normalize_join entry)

entered_broker : Broker
entered_broker = record {
  sessions = insert (codes "01fe") (record stored { session = entered }) opened.sessions;
}

step-Keeps_example :
    lookup (codes "01fe") (step opened (closes (codes "02"))).sessions
    ≡ lookup (codes "01fe") opened.sessions
unfolding trim
step-Keeps_example = step-Keeps opened (closes (codes "02")) (codes "01fe") (λ e. ground (arith, e))

closed_session : Session
closed_session = record stored.session { state = State.closed }

close-opened : (close opened (codes "01fe")).0 ≡ ok closed_session
unfolding close closed_session trim lookup ◌=ᵗ◌ new_session
close-opened = refl

close_is_final_example :
    (get (run (close opened (codes "01fe")).1 (gets 300 (codes "x") ∷ [])) 400 (codes "01fe")).0
    ≡ err Error.closed
close_is_final_example =
    (close_is_final opened (codes "01fe") closed_session (gets 300 (codes "x") ∷ []) close-opened
      (tt, tt) 400 401 entry closed_session).0

get_expired_example :
    ((get opened 14_400_000_000_100 (codes " 01fe")).0 ≡ err expired)
    × ((get (get opened 14_400_000_000_100 (codes " 01fe")).1 14_400_000_000_101 (codes " 01fe")).0
        ≡ err not_found)
unfolding new_session
get_expired_example =
    get_expired opened 14_400_000_000_100 14_400_000_000_101 (codes " 01fe") stored opened_id refl
      (omega arith)

create_then_join_example :
    (create new_broker (some id_bytes) (some token_bytes) 100 request).0
    ≡ ok (created id_bytes token_bytes 100 request)
unfolding trim ◌=ᵗ◌
create_then_join_example =
    (create_then_join new_broker id_bytes token_bytes 100 200 201 request guest (omega arith)
      (omega arith) request_valid guest_valid refl (omega arith)).0
