-- ===== src/Matrix.antt =====
-- src/matrix.c and src/matrix.h: the matrix constants that the parser builds value by value and
-- row by row, with the productions of src/parsing/parser.y that call it.
-- A `float` is the pattern of its 32 bits: the compiler copies and prints floats, and computes
-- nothing with them. `height * width * sizeof(float)` is the size of a block that is in memory, so
-- it does not wrap; exhausted memory ends the process in `check_pointer` and is not modelled.
pub mod Literals
pub mod Rows
mod Tests
use matcc.Prelude.{
  ℕ, ◌+◌, ◌-◌, ◌*◌, List, [], ◌∷◌, ◌++◌, Outcome, ok, abort, ◌>>=◌, multi_dimensional, row_size,
  row_height, length, take, replicate, set, ltb, ◌==◌, not, if◌then◌else◌,
}

abbrev pub Float : Type 0
Float = ℕ

pub record Matrix : Type 0 where
  pub height : ℕ
  pub width : ℕ
  pub values : List Float

pub record MatrixSize : Type 0 where
  pub height : ℕ
  pub width : ℕ

-- `matrix_new`: calloc
pub new : Matrix
new = record { height = 0; width = 0; values = [] }

-- The `memcpy` of a row: `src` goes to the cells of `dest` from index `i` on.
copy_to : List Float → ℕ → List Float → List Float
copy_to dest i [] = dest
copy_to dest i (x ∷ src) = copy_to (set dest i x) (i + 1) src

-- A matrix is a value of the model, with its cells: what holds it no longer has them.
unfoldable pub matrix_delete : Matrix → Outcome (Unit {0})
matrix_delete m = ok tt

-- `junk` is what `realloc` leaves in the cells that it adds.
module _ (junk : Float) where
  -- `realloc` to `n` cells
  resize : List Float → ℕ → List Float
  resize values n = take n values ++ replicate (n - length values) junk

  pub append_value : Matrix → Float → Outcome Matrix
  unfolding resize
  append_value m value =
      if ltb 1 m.height
      then abort multi_dimensional
      else (if m.height == 0
          then ok (record { height = 1; width = 1; values = value ∷ [] })
          else ok (record m {
            width = m.width + 1;
            values = set (resize m.values (m.height * (m.width + 1))) m.width value;
          }))

  pub append_row : Matrix → Matrix → Outcome Matrix
  unfolding resize copy_to
  append_row m row =
      if not (m.width == row.width)
      then abort (row_size row.width m.width)
      else (if not (row.height == 1)
          then abort (row_height row.height)
          else ok (record m {
            height = m.height + 1;
            values =
                copy_to (resize m.values ((m.height + row.height) * m.width)) (m.height * m.width)
                  (take row.width row.values);
          }))

  -- `matrix_new_with_value`
  pub new_with_value : Float → Outcome Matrix
  unfolding new append_value
  new_with_value value = append_value new value

  pub append_values : Matrix → List Float → Outcome Matrix
  unfolding append_value
  append_values m [] = ok m
  append_values m (v ∷ vs) = append_value m v >>= λ m'. append_values m' vs

  -- The production `float_list`: a first value and the values behind the commas.
  unfoldable pub float_list : Float → List Float → Outcome Matrix
  unfolding new_with_value append_values
  float_list v vs = new_with_value v >>= λ m. append_values m vs

  unfoldable pub append_rows : Matrix → List (Float × List Float) → Outcome Matrix
  unfolding float_list append_row matrix_delete
  append_rows m [] = ok m
  append_rows m ((v, vs) ∷ rows) = do
    row ← float_list v vs
    m' ← append_row m row
    matrix_delete row >>= λ _. append_rows m' rows

  -- The production `float_array_list`: a first row and the rows behind the commas.
  unfoldable pub float_array_list : Float × List Float → List (Float × List Float) → Outcome Matrix
  unfolding append_rows
  float_array_list (v, vs) rows = float_list v vs >>= λ m. append_rows m rows
