-- ===== src/Actions/Tests/Numbering.antt =====
-- The numbers of the quads in a loop and in two branches.
use matcc.Prelude.{ℕ, suc, ◌+◌, ◌≡◌, refl, none, some, [], ◌∷◌, Returns, length, get_elem?, arith}
use matcc.Types.{Ptr}
use matcc.Actions.Control.{control_if_else, control_while}
use matcc.Actions.Jumps.{IsComparison-Waits}
use matcc.Actions.Numbering.{InStep, Numbered, control_while-Numbered, control_if_else-shifted}
use matcc.QuadList.Segments.{Cells, IsList}
use matcc.QuadList.Concat.{AreLists}
use matcc.Actions.Tests.{
  runtime, state, first, second, first-IsComparison, second-IsComparison, code, body,
}

abbrev middle : Cells
middle = (2, 2) ∷ (3, 3) ∷ []

loop_lists : AreLists state.nodes ((some 2, middle) ∷ (some 4, body) ∷ [])
loop_lists = (
  second-IsComparison.code,
  (λ a i. ground arith, tt),
  (((refl, (none, refl, refl)), (refl, tt)), tt, tt),
)

branch_lists : AreLists state.nodes ((some 0, code) ∷ (some 2, middle) ∷ (some 4, body) ∷ [])
branch_lists =
    (first-IsComparison.code, (λ a i. ground arith, (λ a i. ground arith, tt)), loop_lists)

control_while-Numbered_example :
    Returns (control_while runtime (some 6) second (some 7) (some 4) (some 8) state) λ r.
      (zs : Cells) × IsList r.1.nodes r.0 zs
      × Numbered 2 zs
      × (length zs ≡ length middle + length body + 1)
      × InStep r.1
      × (r.1.next_quad ≡ 2 + length zs)
control_while-Numbered_example =
    control_while-Numbered runtime state second 2 middle body middle ((3, 3) ∷ [])
      (IsComparison-Waits second-IsComparison) refl (omega arith) (omega arith) refl (omega arith)
      (refl, (refl, tt)) (refl, tt) (some 6) (some 7) (some 4) (some 8) loop_lists (omega arith)
      refl

control_if_else-shifted_example :
    Returns (control_if_else runtime first (some 6) (some 2) (some 7) (some 4) (some 8) state) λ r.
      (zs : Cells) × IsList r.1.nodes r.0 zs
      × ((k : ℕ) (a q : Ptr)
          → get_elem? body k ≡ some (a, q)
          → (place : ℕ) × (get_elem? zs place ≡ some (a, q)) × (suc q ≡ 0 + place))
      × (get_elem? zs (length code + length middle) ≡ some (state.nodes.next, state.next_quad))
      × InStep r.1
      × (r.1.next_quad ≡ 0 + length zs)
control_if_else-shifted_example =
    control_if_else-shifted runtime state first 0 code middle code ((1, 1) ∷ [])
      (IsComparison-Waits first-IsComparison) refl (omega arith) (omega arith) refl (omega arith)
      (refl, (refl, tt)) (refl, (refl, tt)) body (some 6) (some 2) (some 7) (some 4) (some 8)
      branch_lists (omega arith) (refl, tt) refl
