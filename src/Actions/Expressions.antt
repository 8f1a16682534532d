-- ===== src/Actions/Expressions.antt =====
-- src/parsing/actions.c, lines 9 to 125: declarations, constants, assignments and arithmetic.
use matcc.Prelude.{
  ℕ, ◌+◌, ◌*◌, ◌%◌, ◌^◌, ◌==◌, Option, none, some, [], ◌∷◌, Text, types_do_not_match, if◌then◌else◌,
}
use matcc.Matrix.{Matrix, MatrixSize, Float}
use matcc.Types.{
  Ptr, SymbolType, int, float, string, matrix, InitialValue, intval, floatval, stringval, matrixval,
  QuadOp, move, assigned,
}
use matcc.Compiler.{Runtime, M, pure, ◌>>=◌, ◌>>◌, abort_parsing, symbol_at, set_symbol}
use matcc.Symbol.{symbol_new_user, symbol_new_temp, symbol_new_const}
use matcc.SymbolTable.{symbol_table_push}
use matcc.Quad.{quad_new, quad_set_comment}
use matcc.QuadList.{quad_list_new, quad_list_concat}

pub record ExprAttr : Type 0 where
  pub code : Option Ptr
  pub symbol : Option Ptr

-- The number of the enumerator.
abbrev pub type_index : SymbolType → ℕ
type_index int = 0
type_index float = 1
type_index string = 2
type_index matrix = 3

unfoldable pub ensure_type_match : Option Ptr → Option Ptr → M (Unit {0})
ensure_type_match p1 p2 = do
  s1 ← symbol_at p1
  s2 ← symbol_at p2
  if type_index s1.type == type_index s2.type
      then pure tt
      else abort_parsing (types_do_not_match s1.name s2.name)

unfoldable pub declare_matrix_size : ℕ → ℕ → MatrixSize
declare_matrix_size height width = record { height = height; width = width }

module _ (rt : Runtime) where
  unfoldable pub declare : SymbolType → Text → M Ptr
  declare type name = symbol_new_user rt name type >>= symbol_table_push

  unfoldable pub assign : Option Ptr → ExprAttr → M ExprAttr
  assign dest src = do
    q ← quad_new move dest src.symbol none
    d ← symbol_at dest
    v ← symbol_at src.symbol
    quad_set_comment q (assigned d.name v.initial_value)
    l ← quad_list_new q
    code ← quad_list_concat rt (src.code ∷ some l ∷ [])
    pure (record { code = code; symbol = dest })

  unfoldable pub declare_and_assign : SymbolType → Text → ExprAttr → M ExprAttr
  declare_and_assign type name expr = do s ← declare type name; assign (some s) expr

  -- `declare_int_constant` and its three siblings differ in the type and the member.
  unfoldable pub declare_constant : SymbolType → InitialValue → M ExprAttr
  declare_constant type value = do
    p ← symbol_new_const rt type value
    symbol ← symbol_table_push p
    pure (record { code = none; symbol = some symbol })

  unfoldable pub declare_int_constant : ℕ → M ExprAttr
  declare_int_constant value = declare_constant int (intval value)

  unfoldable pub declare_float_constant : Float → M ExprAttr
  declare_float_constant value = declare_constant float (floatval value)

  unfoldable pub declare_string_constant : Text → M ExprAttr
  declare_string_constant value = declare_constant string (stringval value)

  unfoldable pub declare_matrix_constant : Matrix → M ExprAttr
  declare_matrix_constant value = declare_constant matrix (matrixval value)

  unfoldable pub declare_matrix : Text → MatrixSize → M Ptr
  declare_matrix name size = do
    p ← declare matrix name
    s ← symbol_at (some p)
    set_symbol p
        (record s { size = (8 + size.height * size.width * 4) % 2 ^ 64; matrix_size = size })
    pure p

  unfoldable pub unary_arithmetic_op : QuadOp → ExprAttr → M ExprAttr
  unary_arithmetic_op op expr = do
    s ← symbol_at expr.symbol
    t ← symbol_new_temp rt s.type
    q ← quad_new op (some t) expr.symbol none
    l ← quad_list_new q
    _ ← symbol_table_push t
    pure (record { code = some l; symbol = some t })

  unfoldable pub binary_arithmetic_op : ExprAttr → QuadOp → ExprAttr → M ExprAttr
  binary_arithmetic_op expr1 op expr2 = do
    ensure_type_match expr1.symbol expr2.symbol
    s ← symbol_at expr1.symbol
    t ← symbol_new_temp rt s.type
    q ← quad_new op (some t) expr1.symbol expr2.symbol
    l ← quad_list_new q
    _ ← symbol_table_push t
    pure (record { code = some l; symbol = some t })
