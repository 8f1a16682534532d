-- ===== src/Matrix/Tests.antt =====
-- The matrix constants at small inputs, and the theorems at them.
use matcc.Prelude.{◌≡◌, refl, [], ◌∷◌, ok, abort, row_size}
use matcc.Matrix.{
  Matrix, new, copy_to, resize, append_value, append_row, new_with_value, append_values, float_list,
  append_rows, float_array_list,
}
use matcc.Matrix.Literals.{Literal, rows_of, ragged, float_array_list-Literal}

program : Unit {0}
unfolding new copy_to resize append_value append_row new_with_value append_values float_list
    append_rows float_array_list
program = tt

abbrev two_by_two : Matrix
two_by_two = record { height = 2; width = 2; values = 1 ∷ 2 ∷ 3 ∷ 4 ∷ [] }

-- { { 1, 2 }, { 3, 4 } }
float_array_list_square : float_array_list 9 (1, 2 ∷ []) ((3, 4 ∷ []) ∷ []) ≡ ok two_by_two
unfolding program
float_array_list_square = refl

-- { { 1, 2 }, { 3 } }
float_array_list_ragged : float_array_list 9 (1, 2 ∷ []) ((3, []) ∷ []) ≡ abort (row_size 1 2)
unfolding program
float_array_list_ragged = refl

-- A value that is appended to a matrix of two rows is refused, and one appended to none is its first.
append_value_empty : append_value 9 new 5 ≡ ok (record { height = 1; width = 1; values = 5 ∷ [] })
unfolding program
append_value_empty = refl

float_array_list-Literal_example :
    Literal
      (float_array_list 9 (1, 2 ∷ []) ((3, 4 ∷ []) ∷ []))
      (rows_of ((1, 2 ∷ []) ∷ (3, 4 ∷ []) ∷ []))
      2
      (ragged 2 ((3, 4 ∷ []) ∷ []))
float_array_list-Literal_example = float_array_list-Literal 9 (1, 2 ∷ []) ((3, 4 ∷ []) ∷ [])
