-- ===== src/Grammar/Trees.antt =====
-- src/parsing/parser.y: the parse trees of the grammar.
use matcc.Prelude.{ℕ, List, Text}
use matcc.Matrix.{Float}
use matcc.Types.{SymbolType, int, float, QuadOp, add, sub, mul, div, be, bne, blt, bgt, blte, bgte}

-- `type`
pub data DeclaredType : Type 0 where
  t_int t_float : DeclaredType

abbrev pub type_of_declared : DeclaredType → SymbolType
type_of_declared t_int = int
type_of_declared t_float = float

-- `size_expr`
pub data SizeExpr : Type 0 where
  row_size : ℕ → SizeExpr
  matrix_size : ℕ → ℕ → SizeExpr

-- `float_matrix`
pub data FloatMatrix : Type 0 where
  one_row : Float → List Float → FloatMatrix
  several_rows : Float × List Float → List (Float × List Float) → FloatMatrix

pub data ArithmeticOp : Type 0 where
  plus minus times over : ArithmeticOp

abbrev pub arithmetic_op : ArithmeticOp → QuadOp
arithmetic_op plus = add
arithmetic_op minus = sub
arithmetic_op times = mul
arithmetic_op over = div

pub data Expression : Type 0 where
  integerconst : ℕ → Expression
  floatconst : Float → Expression
  stringconst : Text → Expression
  matrixconst : FloatMatrix → Expression
  identifier : Text → Expression
  negated : Expression → Expression
  computed : Expression → ArithmeticOp → Expression → Expression
  parenthesized : Expression → Expression

pub data ComparOp : Type 0 where
  eq neq lt gt lte gte : ComparOp

abbrev pub compar_op : ComparOp → QuadOp
compar_op eq = be
compar_op neq = bne
compar_op lt = blt
compar_op gt = bgt
compar_op lte = blte
compar_op gte = bgte

pub data Condition : Type 0 where
  either both : Condition → Condition → Condition
  negation : Condition → Condition
  in_parentheses : Condition → Condition
  always never : Condition
  nonzero : Expression → Condition
  compared : Expression → ComparOp → Expression → Condition

pub data VariableDeclaration : Type 0 where
  variable : DeclaredType → Text → VariableDeclaration
  initialized : DeclaredType → Text → Expression → VariableDeclaration
  matrix_variable : Text → SizeExpr → VariableDeclaration

-- `statement` with `instruction` and `control_structure`, and `statements`.
mutual
  pub data Statement : Type 0 where
    declares : VariableDeclaration → Statement
    assigns : Text → Expression → Statement
    calls : Text → Expression → Statement
    returns : Statement
    if_then : Condition → Statements → Statement
    if_then_else : Condition → Statements → Statements → Statement
    while_do : Condition → Statements → Statement
    do_while : Statements → Condition → Statement
    for_do : VariableDeclaration → Condition → Text → Expression → Statements → Statement

  pub data Statements : Type 0 where
    last_statement : Statement → Statements
    next_statement : Statement → Statements → Statements
    empty_block : Statements
    block : Statements → Statements
