-- ===== src/Actions/Conditions.antt =====
-- src/parsing/actions.c, lines 127 to 214: conditions. A condition has its code and the lists of the
-- jumps that wait for their label. These lists are made of the nodes of the code itself.
use matcc.Prelude.{Option, none, some, [], ◌∷◌, Text, codes}
use matcc.Types.{Ptr, int, intval, QuadOp, b, bne, text}
use matcc.Compiler.{Runtime, M, pure, ◌>>=◌, ◌>>◌}
use matcc.Symbol.{symbol_new_const}
use matcc.SymbolTable.{symbol_table_push}
use matcc.Quad.{quad_new, quad_new_empty, quad_set_comment}
use matcc.QuadList.{quad_list_new, quad_list_concat, quad_list_complete}
use matcc.Actions.Expressions.{ExprAttr}

pub record CondAttr : Type 0 where
  pub code : Option Ptr
  pub true_list : Option Ptr
  pub false_list : Option Ptr

abbrev pub to_true : Text
to_true = codes "jump to the true statements"

abbrev pub to_false : Text
to_false = codes "jump to the false statements"

module _ (rt : Runtime) where
  unfoldable pub condition_or : CondAttr → Option Ptr → CondAttr → M CondAttr
  condition_or cond1 tag cond2 = do
    quad_list_complete rt cond1.false_list tag
    code ← quad_list_concat rt (cond1.code ∷ cond2.code ∷ [])
    true_list ← quad_list_concat rt (cond1.true_list ∷ cond2.true_list ∷ [])
    pure (record { code = code; true_list = true_list; false_list = cond2.false_list })

  unfoldable pub condition_and : CondAttr → Option Ptr → CondAttr → M CondAttr
  condition_and cond1 tag cond2 = do
    quad_list_complete rt cond1.false_list tag
    code ← quad_list_concat rt (cond1.code ∷ cond2.code ∷ [])
    false_list ← quad_list_concat rt (cond1.false_list ∷ cond2.false_list ∷ [])
    pure (record { code = code; true_list = cond2.true_list; false_list = false_list })

  unfoldable pub condition_from_expression : ExprAttr → M CondAttr
  condition_from_expression expr = do
    p ← symbol_new_const rt int (intval 0)
    zero_symbol ← symbol_table_push p
    goto_true ← quad_new bne none expr.symbol (some zero_symbol)
    quad_set_comment goto_true (text to_true)
    goto_true_list ← quad_list_new goto_true
    goto_false ← quad_new_empty b
    quad_set_comment goto_false (text to_false)
    goto_false_list ← quad_list_new goto_false
    code ← quad_list_concat rt (expr.code ∷ some goto_true_list ∷ some goto_false_list ∷ [])
    pure
        (record { code = code; true_list = some goto_true_list; false_list = some goto_false_list })

  unfoldable pub condition_compare_expressions : ExprAttr → QuadOp → ExprAttr → M CondAttr
  condition_compare_expressions expr1 quad_op expr2 = do
    goto_true ← quad_new quad_op none expr1.symbol expr2.symbol
    quad_set_comment goto_true (text to_true)
    goto_true_list ← quad_list_new goto_true
    goto_false ← quad_new_empty b
    quad_set_comment goto_false (text to_false)
    goto_false_list ← quad_list_new goto_false
    code ←
        quad_list_concat rt
          (expr1.code ∷ expr2.code ∷ some goto_true_list ∷ some goto_false_list ∷ [])
    pure
        (record { code = code; true_list = some goto_true_list; false_list = some goto_false_list })

unfoldable pub condition_not : CondAttr → CondAttr
condition_not op = record { code = op.code; true_list = op.false_list; false_list = op.true_list }

unfoldable pub condition_true : M CondAttr
condition_true = do
  q ← quad_new_empty b
  l ← quad_list_new q
  pure (record { code = some l; true_list = some l; false_list = none })

unfoldable pub condition_false : M CondAttr
condition_false = do
  q ← quad_new_empty b
  l ← quad_list_new q
  pure (record { code = some l; true_list = none; false_list = some l })
