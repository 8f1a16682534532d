-- ===== src/SymbolTable/Printing.antt =====
-- src/symbol_table.c: the two functions that print the table. What `%f` prints of a float, and what
-- reading a member of a union gives when another was written last, are parameters; a pointer that is
-- read from such a union is a fault.
pub mod DataSection
use matcc.Prelude.{
  ℕ, zero, suc, ◌+◌, ◌*◌, ◌%◌, ◌^◌, Bool, true, false, Option, none, some, List, [], ◌∷◌, ◌++◌,
  flatten, Outcome, ok, abort, fault, out_of_fuel, ◌>>=◌, Text, codes, get_elem?, if◌then◌else◌,
}
use matcc.Format.{decimal, format_int, pad}
use matcc.Matrix.{Matrix, Float}
use matcc.HashTable.{HashTable}
use matcc.Types.{
  Ptr, SymbolType, int, float, string, matrix, InitialValue, indeterminate, intval, floatval,
  stringval, matrixval, int_of, Symbol,
}
use matcc.Compiler.{Store}

abbrev pub newline : Text
newline = b'\n' ∷ []

-- `initial_value.stringval` and `initial_value.matrixval`
abbrev pub string_of : InitialValue → Outcome Text
string_of (stringval t) = ok t
string_of indeterminate = fault
string_of (intval n) = fault
string_of (floatval x) = fault
string_of (matrixval m) = fault

abbrev pub matrix_of : InitialValue → Outcome Matrix
matrix_of (matrixval m) = ok m
matrix_of indeterminate = fault
matrix_of (intval n) = fault
matrix_of (floatval x) = fault
matrix_of (stringval t) = fault

-- SYMBOL_TYPE_STR
abbrev pub type_text : SymbolType → Text
type_text int = codes "int"
type_text float = codes "float"
type_text string = codes "string"
type_text matrix = codes "matrix"

abbrev pub labelled : Text → Text → Text
labelled name text = name ++ (codes ": " ++ text)

-- `.word %zu\n.word %zu\n`
abbrev pub two_words : ℕ → ℕ → Text
two_words m n =
    codes ".word " ++ (decimal m ++ (newline ++ (codes ".word " ++ (decimal n ++ newline))))

unfoldable pub variable_data : SymbolType → Symbol → Text
unfolding decimal
variable_data int s = labelled s.name (codes ".word 0" ++ newline)
variable_data float s = labelled s.name (codes ".float 0.0" ++ newline)
variable_data string s = []
variable_data matrix s = labelled s.name (
    two_words s.matrix_size.height s.matrix_size.width
    ++ (codes ".space "
        ++ (decimal (4 * s.matrix_size.height * s.matrix_size.width % 2 ^ 64) ++ newline)))

abbrev pub size_text : SymbolType → Symbol → Text
size_text matrix s =
    codes " ("
    ++ (decimal s.matrix_size.height ++ (b'x' ∷ (decimal s.matrix_size.width ++ codes " floats)")))
size_text int s = []
size_text float s = []
size_text string s = []

-- The two loops over the table, with the text of one symbol.
unfoldable pub for_each_text :
    (Symbol → Outcome Text) → Store Symbol → List (Text × Ptr) → Outcome Text
for_each_text text h [] = ok []
for_each_text text h ((_, p) ∷ entries) = elim (h.cell p) [
  | none ↦ fault
  | some s ↦ do t ← text s; rest ← for_each_text text h entries; ok (t ++ rest)
]

-- How the members of a union and floats are printed.
pub record Reading : Type 0 where
  pub format_float : Float → Text
  pub raw_int : InitialValue → ℕ
  pub raw_float : InitialValue → Float

module _ (reading : Reading) where
  abbrev pub float_of : InitialValue → Float
  float_of (floatval x) = x
  float_of indeterminate = reading.raw_float indeterminate
  float_of (intval n) = reading.raw_float (intval n)
  float_of (stringval t) = reading.raw_float (stringval t)
  float_of (matrixval m) = reading.raw_float (matrixval m)

  -- `fprintf(f, ".float %f\n", x)`
  unfoldable pub float_line : Float → Text
  float_line x = codes ".float " ++ (reading.format_float x ++ newline)

  -- The inner loop, from column `c` on, with `n` columns left.
  unfoldable pub row_lines : Matrix → ℕ → ℕ → ℕ → Outcome Text
  unfolding float_line
  row_lines m l c zero = ok []
  row_lines m l c (suc n) = elim (get_elem? m.values (l * m.width + c)) [
    | none ↦ fault
    | some x ↦ do rest ← row_lines m l (c + 1) n; ok (float_line x ++ rest)
  ]

  -- The outer loop, from row `l` on, with `n` rows left.
  unfoldable pub matrix_lines : Matrix → ℕ → ℕ → Outcome Text
  unfolding row_lines
  matrix_lines m l zero = ok []
  matrix_lines m l (suc n) = do
    row ← row_lines m l 0 m.width
    rest ← matrix_lines m (l + 1) n
    ok (row ++ rest)

  unfoldable pub constant_data : SymbolType → Text → InitialValue → Outcome Text
  unfolding decimal format_int matrix_lines float_line
  constant_data int name v =
      ok (labelled name (codes ".word " ++ (format_int (int_of reading.raw_int v) ++ newline)))
  constant_data float name v = ok (labelled name (float_line (float_of v)))
  constant_data string name v = do
    t ← string_of v
    ok (labelled name (codes ".align 4" ++ (newline ++ (codes ".asciiz " ++ (t ++ newline)))))
  constant_data matrix name v = do
    m ← matrix_of v
    lines ← matrix_lines m 0 m.height
    ok (labelled name (two_words m.height m.width ++ lines))

  unfoldable pub symbol_data : Symbol → Outcome Text
  unfolding constant_data variable_data
  symbol_data s =
      if s.constant
      then constant_data s.type s.name s.initial_value
      else ok (variable_data s.type s)

  -- One line of `symbol_table_print_variables`.
  unfoldable pub constant_line : SymbolType → Symbol → Outcome Text
  unfolding decimal format_int
  constant_line int s = ok (format_int (int_of reading.raw_int s.initial_value))
  constant_line float s = ok (reading.format_float (float_of s.initial_value))
  constant_line string s = string_of s.initial_value
  constant_line matrix s = do
    m ← matrix_of s.initial_value
    ok (b'(' ∷ (decimal m.height ++ (b'x' ∷ (decimal m.width ++ codes " floats)"))))

  unfoldable pub variable_line : Symbol → Outcome Text
  unfolding constant_line pad
  variable_line s =
      let front = pad 6 (type_text s.type) ++ (b' ' ∷ pad 6 s.name) in
      let rest = do t ← constant_line s.type s; ok (front ++ (b' ' ∷ (t ++ newline)))
      in if s.constant then rest else ok (front ++ (size_text s.type s ++ newline))

  unfoldable pub symbol_table_print_variables : HashTable Ptr → Store Symbol → Outcome Text
  unfolding for_each_text variable_line
  symbol_table_print_variables table h = for_each_text variable_line h (flatten table.buckets)

  unfoldable pub symbol_table_print_data_section : HashTable Ptr → Store Symbol → Outcome Text
  unfolding for_each_text symbol_data
  symbol_table_print_data_section table h = do
    text ← for_each_text symbol_data h (flatten table.buckets)
    ok (codes ".data" ++ (newline ++ text))
