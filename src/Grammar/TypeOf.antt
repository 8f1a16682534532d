-- ===== src/Grammar/TypeOf.antt =====
-- src/parsing/parser.y: the types of the expressions.
use matcc.Prelude.{
  ℕ, ◌+◌, ◌≡◌, refl, Option, none, some, Outcome, abort, Abort, Returns, Text, length, ◌==◌,
  if◌then◌else◌,
}
use matcc.Matrix.Literals.{row_of, ragged}
use matcc.Types.{SymbolType, int, float, string, matrix}
use matcc.Compiler.{Compiler}
use matcc.Actions.Expressions.{ExprAttr, type_index}
use matcc.Grammar.{
  FloatMatrix, one_row, several_rows, Expression, integerconst, floatconst, stringconst,
  matrixconst, identifier, negated, computed, parenthesized,
}
use matcc.Grammar.Making.{HasType}

-- The rows of a matrix constant have one width.
abbrev pub width_error : FloatMatrix → Option ℕ
width_error (one_row v vs) = none
width_error (several_rows row rows) = ragged (length (row_of row)) rows

abbrev pub type_of_matrix : Option ℕ → Option SymbolType
type_of_matrix none = some matrix
type_of_matrix (some width) = none

-- Both operands have the type of the result.
abbrev pub type_of_operation : Option SymbolType → Option SymbolType → Option SymbolType
type_of_operation none t2 = none
type_of_operation (some t1) none = none
type_of_operation (some t1) (some t2) = if type_index t1 == type_index t2 then some t1 else none

-- The type of an expression, if it has one.
abbrev pub type_of : (Text → Option SymbolType) → Expression → Option SymbolType
type_of types (integerconst n) = some int
type_of types (floatconst x) = some float
type_of types (stringconst t) = some string
type_of types (matrixconst m) = type_of_matrix (width_error m)
type_of types (identifier name) = types name
type_of types (negated e) = type_of types e
type_of types (computed e1 op e2) = type_of_operation (type_of types e1) (type_of types e2)
type_of types (parenthesized e) = type_of types e

-- The constants and operations of an expression.
abbrev pub size : Expression → ℕ
size (integerconst n) = 1
size (floatconst x) = 1
size (stringconst t) = 1
size (matrixconst m) = 1
size (identifier name) = 0
size (negated e) = size e + 1
size (computed e1 op e2) = size e1 + size e2 + 1
size (parenthesized e) = size e

pub type_of-same :
    (f g : Text → Option SymbolType)
    → ((name : Text) → f name ≡ g name)
    → (e : Expression) → type_of f e ≡ type_of g e
type_of-same f g same (integerconst n) = refl
type_of-same f g same (floatconst x) = refl
type_of-same f g same (stringconst t) = refl
type_of-same f g same (matrixconst m) = refl
type_of-same f g same (identifier name) = same name
type_of-same f g same (negated e) = type_of-same f g same e
type_of-same f g same (computed e1 op e2) =
    rw (type_of-same f g same e1, type_of-same f g same e2) refl
type_of-same f g same (parenthesized e) = type_of-same f g same e

-- With a type the action returns a symbol of it; without one it ends the process with an error.
abbrev pub Checked : ℕ → Compiler → Option SymbolType → Outcome (ExprAttr × Compiler) → Type 0
Checked n s none r = (e : Abort) × (r ≡ abort e)
Checked n s (some type) r = Returns r (HasType n s type)
