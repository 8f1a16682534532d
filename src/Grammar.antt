-- ===== src/Grammar.antt =====
-- src/parsing/parser.y: the actions of the productions on the parse trees of Trees, in the order in
-- which the parser reduces them: from left to right, the empty productions `tag`, `tag1` and
-- `tag2` at their places. How the generated parser finds the tree of a text is not modelled, nor what
-- it does on a text that has none.
use matcc.Prelude.{
  ℕ, ◌+◌, ◌-◌, ◌%◌, ◌^◌, ltb, if◌then◌else◌, Bool, true, Option, none, some, List, [], ◌∷◌, Outcome,
  ok, abort, fault, out_of_fuel, Text,
}
use matcc.Matrix.{Float, Matrix, MatrixSize, float_list, float_array_list}
use matcc.Types.{
  Ptr, SymbolType, int, float, QuadOp, neg, add, sub, mul, div, be, bne, blt, bgt, blte, bgte,
}
use matcc.Compiler.{Runtime, M, pure, ◌>>=◌, ◌>>◌, lift}
use matcc.SymbolTable.{symbol_table_lookup_user}
use matcc.QuadList.{quad_list_concat}
use matcc.Actions.Expressions.{
  ExprAttr, declare, assign, declare_and_assign, declare_int_constant, declare_float_constant,
  declare_string_constant, declare_matrix_constant, declare_matrix_size, declare_matrix,
  unary_arithmetic_op, binary_arithmetic_op,
}
use matcc.Actions.Conditions.{
  CondAttr, condition_or, condition_and, condition_not, condition_true, condition_false,
  condition_from_expression, condition_compare_expressions,
}
use matcc.Actions.Control.{
  control_if, control_if_else, control_while, control_do_while, control_for, control_return,
  call_function_with_expr,
}
pub use Trees.*
mod Trees
pub mod Environment
pub mod Entering
pub mod Making
pub mod TypeOf
pub mod Leaves
pub mod Typing
pub mod Declaring
mod Tests

-- `tag`, `tag1` and `tag2`: a constant with the number of a quad to come.
unfoldable pub tag_at : Runtime → ℕ → M (Option Ptr)
unfolding declare_int_constant
tag_at rt ahead s =
    (do e ← declare_int_constant rt ((s.next_quad + ahead) % 2 ^ 32); pure e.symbol) s

-- An `int` becomes a `size_t`.
unfoldable pub to_size : ℕ → ℕ
to_size n = if ltb n (2 ^ 31) then n else n + (2 ^ 64 - 2 ^ 32)

unfoldable pub size_expr : SizeExpr → MatrixSize
unfolding declare_matrix_size to_size
size_expr (row_size width) = declare_matrix_size 1 (to_size width)
size_expr (matrix_size height width) = declare_matrix_size (to_size height) (to_size width)

module _ (rt : Runtime) (junk : Float) where
  unfoldable pub float_matrix : FloatMatrix → Outcome Matrix
  float_matrix (one_row v vs) = float_list junk v vs
  float_matrix (several_rows row rows) = float_array_list junk row rows

  unfoldable pub expression : Expression → M ExprAttr
  unfolding declare_int_constant declare_float_constant declare_string_constant
      declare_matrix_constant unary_arithmetic_op binary_arithmetic_op float_matrix
      symbol_table_lookup_user
  expression (integerconst n) = declare_int_constant rt n
  expression (floatconst x) = declare_float_constant rt x
  expression (stringconst t) = declare_string_constant rt t
  expression (matrixconst m) = do matrix ← lift (float_matrix m); declare_matrix_constant rt matrix
  expression (identifier name) = do
    p ← symbol_table_lookup_user name
    pure (record { code = none; symbol = p })
  expression (negated e) = do operand ← expression e; unary_arithmetic_op rt neg operand
  expression (computed e1 op e2) = do
    operand1 ← expression e1
    operand2 ← expression e2
    binary_arithmetic_op rt operand1 (arithmetic_op op) operand2
  expression (parenthesized e) = expression e

  unfoldable pub condition : Condition → M CondAttr
  unfolding tag_at expression condition_or condition_and condition_not condition_true
      condition_false condition_from_expression condition_compare_expressions
  condition (either c1 c2) = do
    cond1 ← condition c1
    tag ← tag_at rt 0
    cond2 ← condition c2
    condition_or rt cond1 tag cond2
  condition (both c1 c2) = do
    cond1 ← condition c1
    tag ← tag_at rt 0
    cond2 ← condition c2
    condition_and rt cond1 tag cond2
  condition (negation c) = do cond ← condition c; pure (condition_not cond)
  condition (in_parentheses c) = condition c
  condition always = condition_true
  condition never = condition_false
  condition (nonzero e) = do operand ← expression e; condition_from_expression rt operand
  condition (compared e1 op e2) = do
    operand1 ← expression e1
    operand2 ← expression e2
    condition_compare_expressions rt operand1 (compar_op op) operand2

  -- The member `symbol` is read only when the action sets it.
  unfoldable pub variable_declaration : VariableDeclaration → M ExprAttr
  unfolding declare declare_and_assign declare_matrix size_expr expression
  variable_declaration (variable type name) = do
    p ← declare rt (type_of_declared type) name
    pure (record { code = none; symbol = some p })
  variable_declaration (initialized type name e) = do
    value ← expression e
    declare_and_assign rt (type_of_declared type) name value
  variable_declaration (matrix_variable name size) = do
    p ← declare_matrix rt name (size_expr size)
    pure (record { code = none; symbol = some p })

  unfoldable pub assignation : Text → Expression → M ExprAttr
  unfolding assign expression symbol_table_lookup_user
  assignation name e = do
    dest ← symbol_table_lookup_user name
    value ← expression e
    assign rt dest value

  unfoldable mutual
    unfolding tag_at expression condition variable_declaration assignation control_if
        control_if_else control_while control_do_while control_for control_return
        call_function_with_expr

    pub statement : Statement → M (Option Ptr)
    statement (declares d) = do e ← variable_declaration d; pure e.code
    statement (assigns name value) = do e ← assignation name value; pure e.code
    statement (calls name value) = do e ← expression value; call_function_with_expr rt name e
    statement returns = control_return
    statement (if_then c body) = do
      cond ← condition c
      true_tag ← tag_at rt 0
      code ← statements body
      end_tag ← tag_at rt 0
      control_if rt cond true_tag code end_tag
    statement (if_then_else c body other) = do
      cond ← condition c
      true_tag ← tag_at rt 0
      true_statements ← statements body
      false_tag ← tag_at rt 1
      false_statements ← statements other
      end_tag ← tag_at rt 1
      control_if_else rt cond true_tag true_statements false_tag false_statements end_tag
    statement (while_do c body) = do
      condition_tag ← tag_at rt 0
      cond ← condition c
      statements_tag ← tag_at rt 0
      code ← statements body
      end_tag ← tag_at rt 1
      control_while rt condition_tag cond statements_tag code end_tag
    statement (do_while body c) = do
      statements_tag ← tag_at rt 0
      code ← statements body
      cond ← condition c
      end_tag ← tag_at rt 0
      control_do_while rt statements_tag code cond end_tag
    statement (for_do d c name value body) = do
      declaration ← variable_declaration d
      condition_tag ← tag_at rt 0
      cond ← condition c
      iteration_tag ← tag_at rt 0
      iteration ← assignation name value
      statements_tag ← tag_at rt 1
      code ← statements body
      end_tag ← tag_at rt 2
      control_for rt declaration condition_tag cond iteration_tag iteration statements_tag code
          end_tag

    pub statements : Statements → M (Option Ptr)
    statements (last_statement first) = statement first
    statements (next_statement first rest) = do
      code ← statement first
      code' ← statements rest
      quad_list_concat rt (code ∷ code' ∷ [])
    statements empty_block = pure none
    statements (block body) = statements body

  -- `functions`: each function writes the global list of quads.
  unfoldable pub functions : Statements → List Statements → M (Unit {0})
  functions body [] = do code ← statements body; λ s. ok (tt, record s { quad_list = code })
  functions body (next ∷ others) = do
    code ← statements body
    λ s. (functions next others) (record s { quad_list = code })

  -- `program`, with the value of `parse_successful`.
  unfoldable pub program : Statements → List Statements → M Bool
  unfolding functions
  program body others = do functions body others; pure true
