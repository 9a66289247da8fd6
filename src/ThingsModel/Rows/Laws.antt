-- ===== src/ThingsModel/Rows/Laws.antt =====
-- What the handlers of the rows in web/src/pages/Admin/ThingsModelManagement.tsx change, and what
-- the objects of rows contain.
use linkflow_v.Prelude.{
  change_found, row_at, row_at-change_row, row_at-remove_row, String, none, some, List, [], ◌∷◌,
  ◌==◌, ◌≡◌, ◌≢◌, refl, arith, eq_iff, eq_refl, All, if◌then◌else◌, Bool-cases, inl, inr, Attempt,
  ok, >>=-eq-ok,
}
use linkflow_v.Js.Json.{Json, Fields, end}
use linkflow_v.Js.Object.{get, assign}
use linkflow_v.Js.Object.Laws.{get-assign}
use linkflow_v.Js.Number.{Numbers}
use linkflow_v.Js.Text.{trim}
use linkflow_v.ThingsModel.Types.{PropertyDraftRow}
use linkflow_v.ThingsModel.Build.{reduce_rows, define_property, object_from_property_rows}
use linkflow_v.ThingsModel.Rows.{
  handle_remove_property, PropertyChange, set_property, update_property_row,
}

set_property-local_id :
    (c : PropertyChange) (row : PropertyDraftRow) → (set_property c row).local_id ≡ row.local_id
set_property-local_id (PropertyChange.param c) row = refl
set_property-local_id (PropertyChange.access_mode m) row = refl

-- After a field of one property is changed, the row with that id has the change, and the row with
-- any other id is as it was.
pub row_at-update_property_row :
    (local_id id : String) (c : PropertyChange) (rows : List PropertyDraftRow)
    → row_at (λ row. row.local_id) id (update_property_row local_id c rows)
      ≡ change_found (id == local_id) (set_property c) (row_at (λ row. row.local_id) id rows)
unfolding update_property_row
row_at-update_property_row local_id id c rows =
    row_at-change_row (λ row. row.local_id) local_id id (set_property c) rows
      (set_property-local_id c)

module _ {R : Type 0} (identifier : R → String) where
  -- The trimmed identifier of a row is an ordinary key.
  abbrev pub HasKey : R → Type 0
  HasKey row = (trim (identifier row) ≢ "") × (trim (identifier row) ≢ "__proto__")

  abbrev pub HaveDistinctKeys : List R → Type 0
  HaveDistinctKeys [] = Unit
  HaveDistinctKeys (row ∷ rows) =
      All (λ other. trim (identifier row) ≢ trim (identifier other)) rows × HaveDistinctKeys rows

module _ {N : Type 0} {R : Type 0} (identifier : R → String) (define : R → Attempt (Json N)) where
  -- The object has the definition of the row.
  abbrev pub IsSavedIn : Fields N → R → Type 0
  IsSavedIn o row = (v : Json N) × (define row ≡ ok v) × (get (trim (identifier row)) o ≡ some v)

  reduce_rows-step :
      (row : R) (rows : List R) (acc o : Fields N)
      → trim (identifier row) ≢ ""
      → reduce_rows identifier define (row ∷ rows) acc ≡ ok o
      → (v : Json N) × (define row ≡ ok v)
        × (reduce_rows identifier define rows (assign (trim (identifier row)) v acc) ≡ ok o)
  unfolding reduce_rows
  reduce_rows-step row rows acc o ne e = elim (Bool-cases (trim (identifier row) == "")) [
    | inl p ↦ absurd (ne ((eq_iff _ _).0 p))
    | inr p ↦ >>=-eq-ok (define row) _ (rw (p, reduce_rows) at e)
  ]

  -- A key that no row has keeps its value.
  get-reduce_rows :
      (k : String) (rows : List R) (acc o : Fields N)
      → All (HasKey identifier) rows
      → All (λ other. k ≢ trim (identifier other)) rows
      → reduce_rows identifier define rows acc ≡ ok o
      → get k o ≡ get k acc
  unfolding reduce_rows
  get-reduce_rows k [] acc o h d e = let same : acc ≡ o = cc in rw same refl
  get-reduce_rows k (row ∷ rows) acc o ((ne, np), h) (dk, d) e =
      let (v, made, rest) = reduce_rows-step row rows acc o ne e in
      rw (get-reduce_rows k rows _ o h d rest, get-assign (trim (identifier row)) k v acc np)
        (ground (arith, eq_iff (trim (identifier row)) k))

  reduce_rows-IsSavedIn :
      (rows : List R) (acc o : Fields N)
      → All (HasKey identifier) rows
      → HaveDistinctKeys identifier rows
      → reduce_rows identifier define rows acc ≡ ok o
      → All (IsSavedIn o) rows
  reduce_rows-IsSavedIn [] acc o h d e = tt
  reduce_rows-IsSavedIn (row ∷ rows) acc o ((ne, np), h) (dk, d) e =
      let (v, made, rest) = reduce_rows-step row rows acc o ne e in
      (
        (
          v,
          made,
          rw
              (
                get-reduce_rows (trim (identifier row)) rows _ o h dk rest,
                get-assign (trim (identifier row)) (trim (identifier row)) v acc np,
                eq_refl,
              )
              refl,
        ),
        reduce_rows-IsSavedIn rows _ o h d rest,
      )

-- If the trimmed identifiers of property rows are not empty, not `__proto__` and pairwise distinct,
-- then the object of the rows has under the identifier of every row the definition of this row.
pub object_from_property_rows-IsSavedIn :
    {N : Type 0} (ops : Numbers N) (rows : List PropertyDraftRow) (o : Fields N)
    → All (HasKey (λ row. row.identifier)) rows
    → HaveDistinctKeys (λ row. row.identifier) rows
    → object_from_property_rows ops rows ≡ ok o
    → All (IsSavedIn (λ row. row.identifier) (define_property ops) o) rows
unfolding object_from_property_rows
object_from_property_rows-IsSavedIn ops rows o h d e =
    reduce_rows-IsSavedIn (λ row. row.identifier) (define_property ops) rows end o h d e

-- After a property is removed there is no row with its id, and the row with any other id is as it
-- was.
pub row_at-handle_remove_property :
    (local_id id : String) (rows : List PropertyDraftRow)
    → row_at (λ row. row.local_id) id (handle_remove_property local_id rows)
      ≡ (if id == local_id then none else row_at (λ row. row.local_id) id rows)
unfolding handle_remove_property
row_at-handle_remove_property local_id id rows =
    row_at-remove_row (λ row. row.local_id) local_id id rows
