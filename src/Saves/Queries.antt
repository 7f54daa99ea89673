-- ===== src/Saves/Queries.antt =====
-- The queries of internal/catalog/save_store.go.
use varkiv.Common.{
  Text, codes, trim, Bool, not, ◌&&◌, ◌||◌, ◌=ᵗ◌, Option, none, some, List, [], ◌∷◌, any, is_empty,
  Result, ok, if◌then◌else◌, or_fail, ◌>>=◌,
}
use varkiv.Common.Sorting.{text_le, sort_by}
use varkiv.Saves.Model.{Store, SaveStream, RevisionRow, SaveFile, SaveRevision, SaveError, no_rows}

module _ {ℓ} {A : Type ℓ} where
  -- The first row of a query without an order.
  abbrev pub find : (A → Bool) → List A → Option A
  find p [] = none
  find p (x ∷ xs) = if p x then some x else find p xs

  abbrev pub filter : (A → Bool) → List A → List A
  filter p [] = []
  filter p (x ∷ xs) = let rest = filter p xs in if p x then x ∷ rest else rest

-- ORDER BY created_at DESC,id DESC: does `a` come before `b`?
abbrev pub newer : RevisionRow → RevisionRow → Bool
newer a b =
    if a.created_at =ᵗ b.created_at then text_le b.id a.id else text_le b.created_at a.created_at

abbrev pub newest_of : RevisionRow → Option RevisionRow → RevisionRow
newest_of r none = r
newest_of r (some s) = if newer r s then r else s

-- The rows that pass, ORDER BY created_at DESC,id DESC LIMIT 1
unfoldable pub latest : (RevisionRow → Bool) → List RevisionRow → Option RevisionRow
latest p [] = none
latest p (r ∷ rs) = let rest = latest p rs in if p r then some (newest_of r rest) else rest

unfoldable pub is_current : Text → RevisionRow → Bool
is_current stream r = (r.stream_id =ᵗ stream) && (r.status =ᵗ codes "current")

unfoldable pub has_content : Text → Text → RevisionRow → Bool
has_content stream hash r =
    (r.stream_id =ᵗ stream) && (r.content_hash =ᵗ hash) && not (r.status =ᵗ codes "quarantined")

abbrev pub get_save_stream : Text → Store → Result SaveError SaveStream
get_save_stream id st = or_fail (find (λ s. s.id =ᵗ id) st.streams) no_rows

abbrev pub load_save_files : Text → Store → List SaveFile
load_save_files id st =
    sort_by (λ a b. text_le a.logical_path b.logical_path)
      (filter (λ f. f.revision_id =ᵗ id) st.files)

-- GetSaveRevision for a row that has been found.
unfoldable pub hydrate : RevisionRow → Store → Result SaveError SaveRevision
hydrate row st = do
  stream ← get_save_stream row.stream_id st
  ok (record {
    row = row;
    files = load_save_files row.id st;
    stream = stream;
    conflict = row.status =ᵗ codes "conflict";
  })

unfoldable pub get_save_revision : Text → Store → Result SaveError SaveRevision
unfolding hydrate
get_save_revision id st = do
  row ← or_fail (find (λ r. r.id =ᵗ id) st.revisions) no_rows
  hydrate row st

-- The query of CurrentStreamRevision, whose row the caller then reads.
unfoldable pub current_row : Text → Store → Option RevisionRow
current_row stream st = latest (is_current stream) st.revisions

unfoldable pub current_stream_revision : Text → Store → Result SaveError SaveRevision
unfolding current_row get_save_revision
current_stream_revision stream st = do
  row ← or_fail (current_row stream st) no_rows
  get_save_revision row.id st

unfoldable pub find_stream_revision_by_content_hash :
    Text → Text → Store → Result SaveError SaveRevision
unfolding latest has_content get_save_revision
find_stream_revision_by_content_hash stream hash st = do
  row ← or_fail (latest (has_content stream hash) st.revisions) no_rows
  get_save_revision row.id st

abbrev pub or_manual : Text → Text
or_manual driver = if is_empty driver then codes "manual" else driver

abbrev pub is_owned : Text → Text → Text → SaveStream → Bool
is_owned owner_type owner_key driver s =
    (s.owner_type =ᵗ owner_type) && (s.owner_key =ᵗ owner_key) && (s.driver_id =ᵗ driver)

abbrev pub is_linked : Text → Text → Store → Bool
is_linked stream edition st =
    any (λ r. (r.stream_id =ᵗ stream) && (r.edition_id =ᵗ edition)) st.stream_editions

-- The type and the key of the owner of a scope.
abbrev pub owner : Text → Text → Text → Text × Text
owner edition scope_type scope_key =
    if is_empty scope_type || (scope_type =ᵗ codes "game")
    then (codes "edition", edition)
    else (scope_type, trim scope_key)

unfoldable pub resolve_save_stream : Text → Text → Text → Text → Store → Result SaveError SaveStream
resolve_save_stream edition driver scope_type scope_key st =
    let (owner_type, owner_key) = owner edition scope_type scope_key in
    or_fail
      (find (λ s. is_owned owner_type owner_key (or_manual driver) s && is_linked s.id edition st)
        st.streams)
      no_rows
