-- ===== src/SymbolTable/Printing/DataSection.antt =====
-- src/symbol_table.c: `symbol_table_print_data_section`, with a matrix constant printed from its list of
-- values instead of by rows and columns.
use matcc.Prelude.{
  ℕ, zero, suc, ◌+◌, ◌*◌, ◌≤◌, ◌<◌, ◌≡◌, refl, sym, ◌∙◌, ap, true, some, List, [], ◌∷◌, ◌++◌,
  flatten, ok, ◌>>=◌, Text, codes, length, take, drop, get_elem?, arith, Bool-cases, inl, inr,
  if◌then◌else◌,
}
use mathlib.Core.List.{append_assoc}
use matcc.Format.{format_int}
use matcc.Matrix.{Matrix, Float}
use matcc.HashTable.{HashTable}
use matcc.Types.{
  Ptr, SymbolType, int, float, string, matrix, InitialValue, indeterminate, intval, floatval,
  stringval, matrixval, Symbol,
}
use matcc.Compiler.{Store}
use matcc.SymbolTable.Printing.{
  Reading, newline, float_line, row_lines, matrix_lines, labelled, two_words, constant_data,
  variable_data, symbol_data, for_each_text, symbol_table_print_data_section,
}

-- A value is of the type: the member of that type was written last, and a matrix has all its cells.
pub data IsOfType : SymbolType → InitialValue → Type 0 where
  int_value : (n : ℕ) → IsOfType int (intval n)
  float_value : (x : Float) → IsOfType float (floatval x)
  string_value : (t : Text) → IsOfType string (stringval t)
  matrix_value : (m : Matrix) → length m.values ≡ m.height * m.width → IsOfType matrix (matrixval m)

module _ {A : Type 0} where
  take-append-drop : (n : ℕ) (xs : List A) → take n xs ++ drop n xs ≡ xs
  take-append-drop zero xs = refl
  take-append-drop (suc n) [] = refl
  take-append-drop (suc n) (x ∷ xs) = ap (λ t. x ∷ t) (take-append-drop n xs)

  drop-nil : (n : ℕ) → drop {A = A} n [] ≡ []
  drop-nil zero = refl
  drop-nil (suc n) = refl

  drop-drop : (m n : ℕ) (xs : List A) → drop n (drop m xs) ≡ drop (m + n) xs
  drop-drop zero n xs = ap (λ k. drop k xs) (omega arith)
  drop-drop (suc m) n [] = drop-nil n ∙ sym (drop-nil (suc m + n))
  drop-drop (suc m) n (x ∷ xs) =
      let shift : suc m + n ≡ suc (m + n) = omega arith in
      drop-drop m n xs ∙ ap (λ k. drop k (x ∷ xs)) (sym shift)

  drop-length : (n : ℕ) (xs : List A) → length xs ≤ n → drop n xs ≡ []
  drop-length n [] h = drop-nil n
  drop-length zero (x ∷ xs) h = absurd (omega arith)
  drop-length (suc n) (x ∷ xs) h = drop-length n xs (omega arith)

  drop-cons :
      (xs : List A) (i : ℕ)
      → i < length xs
      → (x : A) × (get_elem? xs i ≡ some x) × (drop i xs ≡ x ∷ drop (suc i) xs)
  drop-cons [] i h = absurd (omega arith)
  drop-cons (x ∷ xs) zero h = (x, refl, refl)
  drop-cons (x ∷ xs) (suc i) h = drop-cons xs i (omega arith)

  -- A part and what follows it.
  drop-split :
      (i n j : ℕ) (xs : List A) → j ≡ i + n → take n (drop (i + 0) xs) ++ drop j xs ≡ drop i xs
  drop-split i n j xs e =
      let same : i + 0 ≡ i = omega arith in
      rw (same, e)
        (ap (λ t. take n (drop i xs) ++ t) (sym (drop-drop i n xs))
          ∙ take-append-drop n (drop i xs))

module _ (reading : Reading) where
  -- One line for each float.
  abbrev pub float_lines : List Float → Text
  float_lines [] = []
  float_lines (x ∷ xs) = float_line reading x ++ float_lines xs

  float_lines-append :
      (xs ys : List Float) → float_lines (xs ++ ys) ≡ float_lines xs ++ float_lines ys
  float_lines-append [] ys = refl
  float_lines-append (x ∷ xs) ys =
      rw (float_lines-append xs ys)
        (sym (append_assoc (float_line reading x) (float_lines xs) (float_lines ys)))

  row_lines-take :
      (m : Matrix) (l c n : ℕ)
      → l * m.width + c + n ≤ length m.values
      → row_lines reading m l c n ≡ ok (float_lines (take n (drop (l * m.width + c) m.values)))
  unfolding row_lines
  row_lines-take m l c zero h = refl
  row_lines-take m l c (suc n) h =
      let (x, at_c, e) = drop-cons m.values (l * m.width + c) (omega arith) in
      let next : suc (l * m.width + c) ≡ l * m.width + (c + 1) = omega arith in
      rw (row_lines, at_c, e, row_lines-take m l (c + 1) n (omega arith), next, ◌>>=◌) refl

  matrix_lines-drop :
      (m : Matrix) (l n : ℕ)
      → (l + n) * m.width ≡ length m.values
      → matrix_lines reading m l n ≡ ok (float_lines (drop (l * m.width) m.values))
  unfolding matrix_lines
  matrix_lines-drop m l zero h = rw (drop-length (l * m.width) m.values (grind arith)) refl
  matrix_lines-drop m l (suc n) h =
      let row = row_lines-take m l 0 m.width (grind arith) in
      let rest = matrix_lines-drop m (l + 1) n (ap (λ k. k * m.width) (omega arith) ∙ h) in
      rw (row, ◌>>=◌, rest)
        (ap ok (
          sym (
            float_lines-append (take m.width (drop (l * m.width + 0) m.values))
              (drop ((l + 1) * m.width) m.values))
          ∙ ap float_lines
              (drop-split (l * m.width) m.width ((l + 1) * m.width) m.values (grind arith))))

  -- What the section has behind the name of a constant with a value.
  abbrev pub value_text : InitialValue → Text
  value_text indeterminate = []
  value_text (intval n) = codes ".word " ++ (format_int n ++ newline)
  value_text (floatval x) = float_line reading x
  value_text (stringval t) = codes ".align 4" ++ (newline ++ (codes ".asciiz " ++ (t ++ newline)))
  value_text (matrixval m) = two_words m.height m.width ++ float_lines m.values

  abbrev pub definition : Symbol → Text
  definition s =
      if s.constant then labelled s.name (value_text s.initial_value) else variable_data s.type s

  abbrev pub definitions : List Symbol → Text
  definitions [] = []
  definitions (s ∷ symbols) = definition s ++ definitions symbols

  constant_data-value :
      (type : SymbolType) (name : Text) (v : InitialValue)
      → IsOfType type v
      → constant_data reading type name v ≡ ok (labelled name (value_text v))
  unfolding constant_data
  constant_data-value int name _ (int_value n) = refl
  constant_data-value float name _ (float_value x) = refl
  constant_data-value string name _ (string_value t) = refl
  constant_data-value matrix name _ (matrix_value m cells) =
      let start : 0 * m.width ≡ 0 = omega arith in
      rw (matrix_lines-drop m 0 m.height (grind arith), ◌>>=◌, start) refl

  symbol_data-definition :
      (s : Symbol)
      → (s.constant ≡ true → IsOfType s.type s.initial_value)
      → symbol_data reading s ≡ ok (definition s)
  unfolding symbol_data
  symbol_data-definition s typed = elim (Bool-cases s.constant) [
    | inl constant ↦
        rw constant (constant_data-value s.type s.name s.initial_value (typed constant))
    | inr variable ↦ rw variable refl
  ]

-- The entries point to the symbols, and the constants among them have a value of their type.
abbrev pub ArePrintable : Store Symbol → List (Text × Ptr) → List Symbol → Type 0
ArePrintable h [] [] = Unit
ArePrintable h [] (s ∷ symbols) = ⊥
ArePrintable h (entry ∷ entries) [] = ⊥
ArePrintable h (entry ∷ entries) (s ∷ symbols) =
    (h.cell entry.1 ≡ some s)
    × ((s.constant ≡ true → IsOfType s.type s.initial_value) × ArePrintable h entries symbols)

module _ (reading : Reading) (h : Store Symbol) where
  for_each_text-definitions :
      (entries : List (Text × Ptr)) (symbols : List Symbol)
      → ArePrintable h entries symbols
      → for_each_text (symbol_data reading) h entries ≡ ok (definitions reading symbols)
  unfolding for_each_text
  for_each_text-definitions [] [] _ = refl
  for_each_text-definitions [] (s ∷ symbols) bad = elim bad [ ]
  for_each_text-definitions (entry ∷ entries) [] bad = elim bad [ ]
  for_each_text-definitions ((name, p) ∷ entries) (s ∷ symbols) (at_p, (typed, others)) =
      rw
        (
          for_each_text,
          at_p,
          symbol_data-definition reading s typed,
          ◌>>=◌,
          for_each_text-definitions entries symbols others,
        )
        refl

  -- When every entry of the table points to a symbol, and every constant has a value of its type,
  -- with all cells if it is a matrix, the data section ends normally and is ".data" with the
  -- definitions of the symbols in the order of the table; a matrix constant is printed as the list
  -- of its values, so no cell outside of them is read.
  pub symbol_table_print_data_section-definitions :
      (table : HashTable Ptr) (symbols : List Symbol)
      → ArePrintable h (flatten table.buckets) symbols
      → symbol_table_print_data_section reading table h
        ≡ ok (codes ".data" ++ (newline ++ definitions reading symbols))
  unfolding symbol_table_print_data_section
  symbol_table_print_data_section-definitions table symbols printable =
      rw (for_each_text-definitions (flatten table.buckets) symbols printable, ◌>>=◌) refl
