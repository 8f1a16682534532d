-- ===== src/Matrix/Literals.antt =====
-- The matrix constants of the grammar: the productions `float_list` and `float_array_list`.
use mathlib.Core.List.{append_assoc, append-nil}
use matcc.Prelude.{
  ℕ, ◌≡◌, refl, sym, ◌∙◌, inl, inr, Option, none, some, List, [], ◌∷◌, ◌++◌, Outcome, abort,
  Returns, row_size, length, flatten, Bool-cases, arith, ◌==◌, if◌then◌else◌,
}
use matcc.Matrix.{
  Float, Matrix, new, append_value, new_with_value, append_values, float_list, append_rows,
  matrix_delete, float_array_list,
}
use matcc.Matrix.Rows.{Holds, append_value-Holds, append_row-Holds, append_row-row_size}

abbrev pub row_of : Float × List Float → List Float
row_of (v, vs) = v ∷ vs

abbrev pub rows_of : List (Float × List Float) → List (List Float)
rows_of [] = []
rows_of (r ∷ rs) = row_of r ∷ rows_of rs

-- The width of the first row that has not width `w`.
abbrev pub ragged : ℕ → List (Float × List Float) → Option ℕ
ragged w [] = none
ragged w (r ∷ rs) = if length (row_of r) == w then ragged w rs else some (length (row_of r))

-- A constant whose rows have one width is the matrix of its rows; any other is refused with the
-- width of the first row that differs.
abbrev pub Literal : Outcome Matrix → List (List Float) → ℕ → Option ℕ → Type 0
Literal r rows w none = Returns r λ m. Holds m rows
Literal r rows w (some n) = r ≡ abort (row_size n w)

module _ (junk : Float) where
  append_values-Holds :
      (m : Matrix) (r vs : List Float)
      → Holds m (r ∷ [])
      → Returns (append_values junk m vs) λ m'. Holds m' ((r ++ vs) ∷ [])
  unfolding append_values
  append_values-Holds m r [] h = (m, refl, rw (append-nil r) h)
  append_values-Holds m r (v ∷ vs) h =
      let (m', run, h') = append_value-Holds junk r v h in
      rw (run, ← append_assoc r (v ∷ []) vs) (append_values-Holds m' (r ++ v ∷ []) vs h')

  pub float_list-Holds :
      (v : Float) (vs : List Float) → Returns (float_list junk v vs) λ m. Holds m ((v ∷ vs) ∷ [])
  unfolding float_list new_with_value append_value new flatten
  float_list-Holds v vs =
      append_values-Holds (record { height = 1; width = 1; values = v ∷ [] }) (v ∷ []) vs
        (record { height = refl; width = (refl, tt); values = refl })

  append_rows-Literal :
      (m : Matrix) (w : ℕ) (rows : List (List Float)) (rs : List (Float × List Float))
      → m.width ≡ w
      → Holds m rows
      → Literal (append_rows junk m rs) (rows ++ rows_of rs) w (ragged w rs)
  unfolding append_rows matrix_delete
  append_rows-Literal m w rows [] same h = (m, refl, rw (append-nil rows) h)
  append_rows-Literal m w rows ((v, vs) ∷ rs) same h =
      let (row, run, r) = float_list-Holds v vs in
      elim (Bool-cases (length (v ∷ vs) == w)) [
        | inl e ↦
            let (m', run', (kept, h')) = append_row-Holds junk rows (v ∷ vs) h r (ground arith) in
            rw (run, e, run', ← append_assoc rows ((v ∷ vs) ∷ []) (rows_of rs))
              (append_rows-Literal m' w (rows ++ (v ∷ vs) ∷ []) rs (kept ∙ same) h')
        | inr e ↦ rw (run, e, append_row-row_size junk m (v ∷ vs) r (ground arith), same)
      ]

  -- A matrix constant whose rows have one width is the matrix of those rows; any other constant is
  -- refused, and the message names the first width that differs.
  pub float_array_list-Literal :
      (r : Float × List Float) (rs : List (Float × List Float))
      → Literal
          (float_array_list junk r rs)
          (rows_of (r ∷ rs))
          (length (row_of r))
          (ragged (length (row_of r)) rs)
  unfolding float_array_list
  float_array_list-Literal (v, vs) rs =
      let (m, run, h) = float_list-Holds v vs in
      let w = length (v ∷ vs) in
      rw run (append_rows-Literal m w ((v ∷ vs) ∷ []) rs (sym h.width.0) h)
