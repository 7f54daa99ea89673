-- ===== src/Saves/Streams.antt =====
-- ensureLegacyStreamTx of internal/catalog/save_store.go: the stream that a revision is added to.
use varkiv.Common.{
  Text, codes, trim, Bool, not, ◌&&◌, ◌||◌, ◌=ᵗ◌, Option, none, some, [], ◌∷◌, ◌++◌, any, is_empty,
  Result, ok, if◌then◌else◌, or_fail, reject, ◌>>=◌, ◌>>◌,
}
use varkiv.Saves.Model.{
  Store, SaveStream, SaveError, no_rows, NewSaveRevision, Draws, constraint, owner_required,
  bad_scope,
}
use varkiv.Saves.Queries.{find, get_save_stream, or_manual, is_owned, is_linked, owner}

-- INSERT INTO save_stream_editions, with the edition as a foreign key
unfoldable pub link_edition : Text → Text → Text → Store → Result SaveError Store
link_edition stream edition time st = do
  reject (not (any (λ e. e.id =ᵗ edition) st.editions)) constraint
  ok (record {
    editions = st.editions;
    devices = st.devices;
    streams = st.streams;
    stream_editions =
        record {
          stream_id = stream;
          edition_id = edition;
          compatibility = codes "native";
          created_at = time;
        }
        ∷ st.stream_editions;
    revisions = st.revisions;
    files = st.files;
  })

-- INSERT INTO save_streams, whose id and namespace are unique
unfoldable pub insert_stream : SaveStream → Store → Result SaveError Store
insert_stream s st = do
  reject (any (λ t. (t.id =ᵗ s.id) || (t.namespace =ᵗ s.namespace)) st.streams) constraint
  ok (record {
    editions = st.editions;
    devices = st.devices;
    streams = s ∷ st.streams;
    stream_editions = st.stream_editions;
    revisions = st.revisions;
    files = st.files;
  })

-- The name of a new stream.
unfoldable pub new_namespace : Text → Text → Text → Store → Text → Result SaveError Text
new_namespace owner_type owner_key driver st edition =
    if owner_type =ᵗ codes "edition"
    then (or_fail (find (λ e. e.id =ᵗ edition) st.editions) no_rows >>= λ row.
        ok (row.save_namespace ++ b':' ∷ driver))
    else ok (owner_type ++ b':' ∷ owner_key ++ b':' ∷ driver)

-- INSERT OR IGNORE into save_stream_editions; the edition of a link that is there exists.
unfoldable pub link_stream : Draws → Text → Text → Store → Result SaveError (Text × Store)
unfolding link_edition
link_stream d edition stream st =
    if is_linked stream edition st
    then ok (stream, st)
    else (link_edition stream edition d.stream_time st >>= λ linked. ok (stream, linked))

unfoldable pub create_stream :
    Draws → Text → Text → Text → Text → Store → Result SaveError (Text × Store)
unfolding link_edition insert_stream new_namespace
create_stream d edition owner_type owner_key driver st = do
  namespace ← new_namespace owner_type owner_key driver st edition
  inserted ←
      insert_stream
        (record {
          id = d.stream_id;
          namespace = namespace;
          owner_type = owner_type;
          owner_key = owner_key;
          driver_id = driver;
          portability = codes "driver-dependent";
          compatibility_group_id = [];
          created_at = d.stream_time;
          updated_at = d.stream_time;
        })
        st
  linked ← link_edition d.stream_id edition d.stream_time inserted
  ok (d.stream_id, linked)

abbrev use_stream :
    Draws → Text → Text → Text → Text → Option SaveStream → Store → Result SaveError (Text × Store)
use_stream d edition owner_type owner_key driver (some s) st = link_stream d edition s.id st
use_stream d edition owner_type owner_key driver none st =
    create_stream d edition owner_type owner_key driver st

abbrev is_owner : Text × Text → Bool
is_owner (owner_type, owner_key) =
    ((owner_type =ᵗ codes "edition")
      || (owner_type =ᵗ codes "platform")
      || (owner_type =ᵗ codes "container"))
    && not (is_empty owner_key)

-- The stream of the owner is used, and linked to the edition; without one a new stream is created.
unfoldable pub owned_stream : Draws → NewSaveRevision → Store → Result SaveError (Text × Store)
unfolding link_stream create_stream
owned_stream d i st =
    let (owner_type, owner_key) = owner i.edition_id i.scope_type i.scope_key in
    let driver = or_manual (trim i.driver_id) in
    reject (is_empty i.edition_id) owner_required
    >> (reject (not (is_owner (owner_type, owner_key))) bad_scope
        >> use_stream d i.edition_id owner_type owner_key driver
            (find (is_owned owner_type owner_key driver) st.streams) st)

unfoldable pub ensure_legacy_stream :
    Draws → NewSaveRevision → Store → Result SaveError (Text × Store)
unfolding owned_stream
ensure_legacy_stream d i st =
    if not (is_empty i.stream_id)
    then (get_save_stream i.stream_id st >>= λ s. ok (s.id, st))
    else owned_stream d i st
