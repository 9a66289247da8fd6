-- ===== src/Prelude/Keyed.antt =====
-- Lists of rows with ids: the source changes a row by mapping over the list, and removes one by
-- filtering it.
use mathlib.Core.Path.{◌≡◌, refl}
use mathlib.Core.Bool.{Bool, false, not}
use mathlib.Core.Option.{Option, none, some}
use mathlib.Core.List.{List, [], ◌∷◌, map}
use mathlib.Core.Logic.{inl, inr}
use Prim.Native.String.{String}
use native.Mathlib.Omega.{arith}
use text.Mathlib.Text.{◌==◌}
use text.Mathlib.TextEquality.{eq_iff}
use linkflow_v.Prelude.Tests.{if◌then◌else◌, Bool-cases}
use linkflow_v.Prelude.Lists.{keep, find, any}

-- What becomes of a row that was looked up.
abbrev pub change_found {ℓ} : {R : Type ℓ} → Bool → (R → R) → Option R → Option R
change_found same change none = none
change_found same change (some row) = some (if same then change row else row)

pub change_found-false {ℓ} :
    {R : Type ℓ} (change : R → R) (o : Option R) → change_found false change o ≡ o
change_found-false change none = refl
change_found-false change (some row) = refl

module _ {ℓ} {R : Type ℓ} (id_of : R → String) where
  -- `rows.map((row) => row.id === id ? change(row) : row)`.
  abbrev pub change_row : String → (R → R) → List R → List R
  change_row id change rows = map (λ row. if id_of row == id then change row else row) rows

  -- `rows.filter((row) => row.id !== id)`.
  abbrev pub remove_row : String → List R → List R
  remove_row id rows = keep (λ row. not (id_of row == id)) rows

  -- The first row with an id.
  abbrev pub row_at : String → List R → Option R
  row_at id rows = find (λ row. id_of row == id) rows

  pub row_at-change_row :
      (local_id id : String) (change : R → R) (rows : List R)
      → ((row : R) → id_of (change row) ≡ id_of row)
      → row_at id (change_row local_id change rows)
        ≡ change_found (id == local_id) change (row_at id rows)
  row_at-change_row local_id id change [] h = refl
  row_at-change_row local_id id change (row ∷ rows) h =
      let ih = row_at-change_row local_id id change rows h in
      elim (Bool-cases (id_of row == local_id)) [
        | inl here ↦
            rw (here, h row)
              (ground
                (arith, ih, eq_iff (id_of row) local_id, eq_iff (id_of row) id, eq_iff id local_id))
        | inr other ↦ rw other (
            ground
              (arith, ih, eq_iff (id_of row) local_id, eq_iff (id_of row) id, eq_iff id local_id))
      ]

  pub row_at-remove_row :
      (local_id id : String) (rows : List R)
      → row_at id (remove_row local_id rows) ≡ (if id == local_id then none else row_at id rows)
  row_at-remove_row local_id id [] = ground (arith)
  row_at-remove_row local_id id (row ∷ rows) = ground (
    arith,
    eq_iff (id_of row) local_id,
    eq_iff (id_of row) id,
    eq_iff id local_id,
    row_at-remove_row local_id id rows,
  )

  -- No row has an id that none was found to have.
  pub row_at-any :
      (id : String) (rows : List R)
      → any (λ row. id_of row == id) rows ≡ false
      → row_at id rows ≡ none
  row_at-any id [] h = refl
  row_at-any id (row ∷ rows) h = ground (arith, row_at-any id rows)
