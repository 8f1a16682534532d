-- ===== src/Actions/Tests/ForLoops.antt =====
-- A `for` loop at the state of the tests, with a declaration that has no code.
use matcc.Prelude.{refl, none, some, [], ◌∷◌, Returns, codes, arith}
use matcc.Compiler.{IsStore}
use matcc.QuadList.Segments.{Cells}
use matcc.QuadList.Concat.{AreLists}
use matcc.Actions.Expressions.{ExprAttr}
use matcc.Actions.Control.{control_for}
use matcc.Actions.Loops.{goto_quad}
use matcc.Actions.ForLoops.{ForJumps, control_for-ForJumps}
use matcc.Actions.Jumps.{IsComparison-Waits}
use matcc.Actions.Tests.{runtime, state, first, first-IsComparison, code, body}

abbrev declaration : ExprAttr
declaration = record { code = none; symbol = some 0 }

abbrev iteration : ExprAttr
iteration = record { code = some 2; symbol = some 1 }

abbrev step : Cells
step = (2, 2) ∷ (3, 3) ∷ []

state-IsStore : IsStore state.nodes
state-IsStore = record { free = λ p le. ground arith }

parts : AreLists state.nodes ((none, []) ∷ (some 0, code) ∷ (some 2, step) ∷ (some 4, body) ∷ [])
parts = (
  (refl, tt),
  (λ a i. ground arith, (λ a i. ground arith, (λ a i. ground arith, tt))),
  (
    first-IsComparison.code,
    (λ a i. ground arith, (λ a i. ground arith, tt)),
    (
      ((refl, (some 3, refl, (refl, (none, refl, refl)))), (refl, (refl, tt))),
      (λ a i. ground arith, tt),
      (((refl, (none, refl, refl)), (refl, tt)), tt, tt),
    ),
  ),
)

control_for-ForJumps_example :
    Returns
      (control_for runtime declaration
        (some 6)
        first
        (some 7)
        iteration
        (some 8)
        (some 4)
        (some 9)
        state)
      (ForJumps state
        ((0, 0) ∷ (1, 1) ∷ (2, 2) ∷ (3, 3) ∷ (5, 5) ∷ (4, 4) ∷ (6, 6) ∷ [])
        code
        ((1, 1) ∷ [])
        (some 8)
        (some 9)
        (goto_quad (some 6) (codes "jump to the condition of for control"))
        (goto_quad (some 7) (codes "jump to the iteration of for control")))
control_for-ForJumps_example =
    control_for-ForJumps runtime state declaration iteration first (some 6) (some 7) (some 8)
      (some 4) (some 9) [] code step body code ((1, 1) ∷ []) (IsComparison-Waits first-IsComparison)
      parts state-IsStore (omega arith) (omega arith) (omega arith)
