-- ===== src/Actions/Tests/Loops.antt =====
-- The control structures with a jump of their own, at the state of the tests.
use matcc.Prelude.{refl, none, some, [], ◌∷◌, ◌++◌, Returns, codes, arith}
use matcc.Actions.Control.{control_if_else, control_while}
use matcc.Actions.Loops.{Jumps, goto_quad, control_while-Jumps, control_if_else-Jumps}
use matcc.Actions.Jumps.{IsComparison-Waits}
use matcc.Actions.Tests.{
  runtime, state, first, first-IsComparison, second-IsComparison, code, body, with_body,
}

control_while-Jumps_example :
    Returns (control_while runtime (some 6) first (some 7) (some 4) (some 8) state) (
      Jumps state
        (code ++ (body ++ (5, 5) ∷ []))
        code
        ((1, 1) ∷ [])
        (some 7)
        (some 8)
        (goto_quad (some 6) (codes "jump to the condition of while control")))
control_while-Jumps_example =
    control_while-Jumps runtime state first (some 6) (some 7) (some 4) (some 8) code body code
      ((1, 1) ∷ []) (IsComparison-Waits first-IsComparison) with_body refl (omega arith)
      (omega arith) (omega arith)

control_if_else-Jumps_example :
    Returns (control_if_else runtime first (some 6) (some 4) (some 7) (some 2) (some 8) state) (
      Jumps state
        (code ++ (body ++ (5, 5) ∷ (2, 2) ∷ (3, 3) ∷ []))
        code
        ((1, 1) ∷ [])
        (some 6)
        (some 7)
        (goto_quad (some 8) (codes "jump to the end of if-else control")))
control_if_else-Jumps_example =
    control_if_else-Jumps runtime state first (some 6) (some 4) (some 7) (some 2) (some 8) code body
      ((2, 2) ∷ (3, 3) ∷ []) code ((1, 1) ∷ []) (IsComparison-Waits first-IsComparison)
      (
        first-IsComparison.code,
        (λ a i. ground arith, (λ a i. ground arith, tt)),
        (
          ((refl, (none, refl, refl)), (refl, tt)),
          (λ a i. ground arith, tt),
          (second-IsComparison.code, tt, tt),
        ),
      )
      refl (omega arith) (omega arith) (omega arith)
