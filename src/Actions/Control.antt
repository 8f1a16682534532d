-- ===== src/Actions/Control.antt =====
-- src/parsing/actions.c, lines 216 to 287: control structures and calls. Where the source allocates
-- in two arguments of one call, the order is the compiler's choice; here it is left to right.
use matcc.Prelude.{
  ◌||◌, Option, none, some, [], ◌∷◌, Text, str_eq, unknown_function, codes, if◌then◌else◌,
}
use matcc.Types.{
  Ptr, SymbolType, int, float, string, matrix, QuadOp, b, prti, prtf, prts, ret, text,
}
use matcc.Compiler.{Runtime, M, pure, ◌>>=◌, ◌>>◌, abort_parsing, symbol_at}
use matcc.Quad.{quad_new, quad_new_empty, quad_set_comment}
use matcc.QuadList.{quad_list_new, quad_list_concat, quad_list_complete}
use matcc.Actions.Expressions.{ExprAttr}
use matcc.Actions.Conditions.{CondAttr}

-- `quad_new(B, label, NULL, NULL)` with its comment.
unfoldable pub jump_to : Option Ptr → Text → M Ptr
jump_to label comment = do q ← quad_new b label none none; quad_set_comment q (text comment); pure q

module _ (rt : Runtime) where
  unfoldable pub control_if : CondAttr → Option Ptr → Option Ptr → Option Ptr → M (Option Ptr)
  control_if condition true_tag true_statements end_tag = do
    quad_list_complete rt condition.true_list true_tag
    quad_list_complete rt condition.false_list end_tag
    quad_list_concat rt (condition.code ∷ true_statements ∷ [])

  unfoldable pub control_if_else :
      CondAttr → Option Ptr → Option Ptr → Option Ptr → Option Ptr → Option Ptr → M (Option Ptr)
  control_if_else condition true_tag true_statements false_tag false_statements end_tag = do
    quad_list_complete rt condition.true_list true_tag
    quad_list_complete rt condition.false_list false_tag
    goto_end ← jump_to end_tag (codes "jump to the end of if-else control")
    l ← quad_list_new goto_end
    quad_list_concat rt (condition.code ∷ true_statements ∷ some l ∷ false_statements ∷ [])

  unfoldable pub control_while :
      Option Ptr → CondAttr → Option Ptr → Option Ptr → Option Ptr → M (Option Ptr)
  control_while condition_tag condition statements_tag statements end_tag = do
    quad_list_complete rt condition.true_list statements_tag
    quad_list_complete rt condition.false_list end_tag
    goto_condition ← jump_to condition_tag (codes "jump to the condition of while control")
    l ← quad_list_new goto_condition
    quad_list_concat rt (condition.code ∷ statements ∷ some l ∷ [])

  unfoldable pub control_do_while : Option Ptr → Option Ptr → CondAttr → Option Ptr → M (Option Ptr)
  control_do_while statements_tag statements condition end_tag = do
    quad_list_complete rt condition.true_list statements_tag
    quad_list_complete rt condition.false_list end_tag
    quad_list_concat rt (statements ∷ condition.code ∷ [])

  unfoldable pub control_for :
      ExprAttr
      → Option Ptr
      → CondAttr
      → Option Ptr
      → ExprAttr
      → Option Ptr
      → Option Ptr
      → Option Ptr
      → M (Option Ptr)
  control_for variable_declaration condition_tag condition iteration_tag iteration statements_tag
        statements end_tag =
      do
        quad_list_complete rt condition.true_list statements_tag
        quad_list_complete rt condition.false_list end_tag
        goto_condition ← jump_to condition_tag (codes "jump to the condition of for control")
        goto_iteration ← jump_to iteration_tag (codes "jump to the iteration of for control")
        c ← quad_list_new goto_condition
        i ← quad_list_new goto_iteration
        quad_list_concat rt (
            variable_declaration.code
            ∷ condition.code
            ∷ iteration.code
            ∷ some c
            ∷ statements
            ∷ some i
            ∷ [])

  -- The quad that prints a symbol, behind the code of the expression.
  unfoldable pub print_with : QuadOp → ExprAttr → M (Option Ptr)
  print_with op expr = do
    q ← quad_new op expr.symbol none none
    l ← quad_list_new q
    quad_list_concat rt (expr.code ∷ some l ∷ [])

  -- Matrices are not printed.
  unfoldable pub print_by_type : SymbolType → ExprAttr → M (Option Ptr)
  print_by_type int expr = print_with prti expr
  print_by_type float expr = print_with prtf expr
  print_by_type string expr = print_with prts expr
  print_by_type matrix expr = pure none

  unfoldable pub call_function_with_expr : Text → ExprAttr → M (Option Ptr)
  call_function_with_expr function_name expr =
      if str_eq function_name (codes "print") || str_eq function_name (codes "printf")
      then (do s ← symbol_at expr.symbol; print_by_type s.type expr)
      else abort_parsing (unknown_function function_name)

unfoldable pub control_return : M (Option Ptr)
control_return = do q ← quad_new_empty ret; l ← quad_list_new q; pure (some l)
