-- ===== src/Saves/Currency.antt =====
-- The state of a stream after AddSaveRevision: which revision is the current one.
use varkiv.Common.{
  ℕ, ◌≡◌, refl, ◌≤◌, ◌+◌, Text, codes, Stdlib, true, false, none, some, List, [], ◌∷◌, ◌=ᵗ◌,
  text_eq_iff, text_eq_refl, arith, if◌then◌else◌, inl, inr, Bool-cases, Result-cases,
}
use varkiv.Saves.Model.{Store, NewSaveRevision, Draws, RevisionRow}
use varkiv.Saves.Queries.{is_current, latest, current_row}
use varkiv.Saves.Revisions.{
  new_row, supersede, with_status, save_transaction, add_save_revision, mark,
}
use varkiv.Saves.Cases.{Saved, saved, Saved-revisions, superseded}

-- How many current revisions a stream has.
unfoldable pub currents : Text → List RevisionRow → ℕ
currents s [] = 0
currents s (r ∷ rs) = let rest = currents s rs in if is_current s r then 1 + rest else rest

-- At most one in every stream.
unfoldable pub IsSound : Store → Type 0
IsSound st = (s : Text) → currents s st.revisions ≤ 1

not_current :
    (s t : Text) (r : RevisionRow) → is_current s (with_status (codes "superseded") r) ≡ false
unfolding is_current ◌=ᵗ◌
not_current s t r = ground arith

is_current_stream : (s : Text) (r : RevisionRow) → is_current s r ≡ true → r.stream_id ≡ s
unfolding is_current
is_current_stream s r h = ground (arith, text_eq_iff r.stream_id s)

apart :
    (s t : Text) (r : RevisionRow)
    → (t =ᵗ s) ≡ false
    → is_current t r ≡ true
    → is_current s r ≡ false
apart s t r h c = elim (Bool-cases (is_current s r)) [
  | inl e ↦ ground (arith, text_eq_iff t s, is_current_stream s r e, is_current_stream t r c)
  | inr e ↦ e
]

is_current-mark :
    (s t : Text) (r : RevisionRow)
    → is_current s (mark t r) ≡ (if t =ᵗ s then false else is_current s r)
is_current-mark s t r = ground (arith, not_current s t r, apart s t r, text_eq_iff t s)

mark_other :
    (s t : Text) (r : RevisionRow) → (t =ᵗ s) ≡ false → is_current s r ≡ true → mark t r ≡ r
mark_other s t r h c = ground (arith, apart s t r)

currents-supersede :
    (s t : Text) (rs : List RevisionRow)
    → currents s (supersede t rs) ≡ (if t =ᵗ s then 0 else currents s rs)
unfolding currents supersede
currents-supersede s t [] = ground arith
currents-supersede s t (r ∷ rs) = ground (arith, is_current-mark s t r, currents-supersede s t rs)

latest-supersede :
    (t : Text) (rs : List RevisionRow) → latest (is_current t) (supersede t rs) ≡ none
unfolding latest supersede
latest-supersede t [] = refl
latest-supersede t (r ∷ rs) =
    ground (arith, is_current-mark t t r, text_eq_refl t, latest-supersede t rs)

latest-supersede_other :
    (s t : Text) (rs : List RevisionRow)
    → (t =ᵗ s) ≡ false
    → latest (is_current s) (supersede t rs) ≡ latest (is_current s) rs
unfolding latest supersede
latest-supersede_other s t [] h = refl
latest-supersede_other s t (r ∷ rs) h =
    ground (arith, is_current-mark s t r, mark_other s t r, latest-supersede_other s t rs)

module _ (row : RevisionRow) (rs : List RevisionRow) (s : Text) where
  latest-superseded :
      latest (is_current s) (row ∷ superseded row rs)
      ≡ (if is_current s row then some row else latest (is_current s) rs)
  unfolding latest is_current
  latest-superseded = ground (
    arith,
    latest-supersede row.stream_id rs,
    latest-supersede_other s row.stream_id rs,
    text_eq_iff row.stream_id s,
  )

  currents-superseded : currents s rs ≤ 1 → currents s (row ∷ superseded row rs) ≤ 1
  unfolding currents is_current
  currents-superseded h = ground (arith, currents-supersede s row.stream_id rs)

module _ ⦃lib : Stdlib⦄ where
  abbrev pub saved_row :
      (d : Draws) (i : NewSaveRevision) (st new : Store) → Saved d i st new → RevisionRow
  saved_row d i st new w = new_row d i w.files w.total w.stream

  module _ (d : Draws) (i : NewSaveRevision) (st new : Store) (w : Saved d i st new) where
    pub current_row-saved :
        (s : Text)
        → current_row s new ≡ (
            if is_current s (saved_row d i st new w)
            then some (saved_row d i st new w)
            else current_row s st)
    unfolding current_row
    current_row-saved s =
        rw (Saved-revisions w) (latest-superseded (saved_row d i st new w) st.revisions s)

    currents-saved : IsSound st → IsSound new
    unfolding IsSound
    currents-saved h s =
        rw (Saved-revisions w) (currents-superseded (saved_row d i st new w) st.revisions s (h s))

  -- If no stream has two current revisions, none has after AddSaveRevision either.
  pub add_save_revision-IsSound :
      (d : Draws) (i : NewSaveRevision) (st : Store)
      → IsSound st
      → IsSound (add_save_revision d i st).0
  unfolding add_save_revision
  add_save_revision-IsSound d i st h = elim (Result-cases (save_transaction d i st)) [
    | inl (new, e) ↦ rw e (currents-saved d i st new (saved d i st new e) h)
    | inr (x, e) ↦ rw e h
  ]
