-- ===== src/Actions/Tests.antt =====
-- Conditions and control structures at a small state, and the theorems there.
mod ForLoops
mod Joined
mod Numbering
mod Loops
use matcc.Prelude.{
  ℕ, ◌≡◌, ◌≢◌, refl, false, Option, none, some, [], ◌∷◌, ◌++◌, ok, Returns, codes, arith, ◌==◌,
}
use matcc.Types.{Ptr, Symbol, int, indeterminate, point_init, Quad, nop, b, blt, text}
use matcc.HashTable.{ht_ok}
use matcc.Compiler.{Compiler, Runtime, ◌>>=◌, write}
use matcc.QuadList.Segments.{Cells, IsList}
use matcc.QuadList.Concat.{AreLists, Concatenated, quad_list_concat-Concatenated}
use matcc.QuadList.Complete.{Completed, with_res, quad_list_complete-Completed}
use matcc.QuadList.{quad_list_concat, quad_list_complete}
use matcc.Actions.Conditions.{
  CondAttr, condition_not, condition_or, condition_and, condition_compare_expressions, to_true,
  to_false,
}
use matcc.Actions.Control.{control_if, control_if_else, control_while, control_do_while}
use matcc.Actions.Code.{Controls, control_if-Controls, control_do_while-Controls}
use matcc.Actions.Loops.{Jumps, goto_quad, control_while-Jumps, control_if_else-Jumps}
use matcc.Actions.Jumps.{
  IsComparison, IsComparison-Waits, control_if-IsComparison, control_if-condition_not,
}
use matcc.Actions.Jumps.Made.{compare-IsComparison, true_jump, false_jump}
use matcc.Actions.Jumps.Joined.{Join, condition_or-hangs, condition_and-hangs}

abbrev blank_symbol : Symbol
blank_symbol = record {
  name = [];
  type = int;
  initial_value = indeterminate;
  constant = false;
  matrix_size = record { height = 0; width = 0 };
  start_point = point_init;
  end_point = point_init;
  life_time = 0;
  size = 0;
  affected_register = none;
  stack_location = 0;
}

abbrev runtime : Runtime
runtime = record { fuel = 50; raw_symbol = λ p. blank_symbol }

abbrev empty_store {ℓ} : {A : Type ℓ} → ℕ → Option A
empty_store p = none

-- The quads 0 and 2 compare and jump, 1 and 3 jump, and 4 is a statement. The nodes of the same
-- numbers carry them: 0 leads to 1, and 2 to 3.
abbrev jump_quad : Quad
jump_quad = record { op = b; res = none; op1 = none; op2 = none; comment = some (text to_false) }

abbrev compare_quad : Quad
compare_quad = record {
  op = blt;
  res = none;
  op1 = some 0;
  op2 = some 1;
  comment = some (text to_true);
}

abbrev state : Compiler
state = record {
  symbols = record { next = 0; cell = empty_store };
  quads =
      write
        (write
          (write
            (write (write (record { next = 5; cell = empty_store }) 0 compare_quad) 1 jump_quad) 2
            compare_quad)
          3 jump_quad)
        4 (record jump_quad { op = nop });
  nodes =
      write
        (write
          (write
            (write
              (write (record { next = 5; cell = empty_store }) 0
                (record { quad = 0; successor = some 1 }))
              1 (record { quad = 1; successor = none }))
            2 (record { quad = 2; successor = some 3 }))
          3 (record { quad = 3; successor = none }))
        4 (record { quad = 4; successor = none });
  symbol_table = record { size = 16; buckets = []; last_error = ht_ok };
  next_quad = 5;
  temps_count = 0;
  constants_count = 0;
  quad_list = none;
}

abbrev first : CondAttr
first = record { code = some 0; true_list = some 0; false_list = some 1 }

abbrev second : CondAttr
second = record { code = some 2; true_list = some 2; false_list = some 3 }

first-IsComparison : IsComparison state first [] (0, 0) (1, 1)
first-IsComparison = record {
  code = ((refl, (some 1, refl, (refl, (none, refl, refl)))), (refl, (refl, tt)));
  true_list = refl;
  false_list = refl;
  jumps = ((compare_quad, refl), ((jump_quad, refl), tt));
  differ = refl;
}

second-IsComparison : IsComparison state second [] (2, 2) (3, 3)
second-IsComparison = record {
  code = ((refl, (some 3, refl, (refl, (none, refl, refl)))), (refl, (refl, tt)));
  true_list = refl;
  false_list = refl;
  jumps = ((compare_quad, refl), ((jump_quad, refl), tt));
  differ = refl;
}

abbrev code : Cells
code = (0, 0) ∷ (1, 1) ∷ []

abbrev body : Cells
body = (4, 4) ∷ []

with_body : AreLists state.nodes ((some 0, code) ∷ (some 4, body) ∷ [])
with_body = (
  first-IsComparison.code,
  (λ a i. ground arith, tt),
  (((refl, (none, refl, refl)), (refl, tt)), tt, tt),
)

body_first : AreLists state.nodes ((some 4, body) ∷ (some 0, code) ∷ [])
body_first = (
  ((refl, (none, refl, refl)), (refl, tt)),
  (λ a i. ground arith, tt),
  (first-IsComparison.code, tt, tt),
)

compare-IsComparison_example :
    Returns
      (condition_compare_expressions runtime
        (record { code = some 4; symbol = some 0 })
        blt
        (record { code = none; symbol = some 1 })
        state)
      λ r.
        IsComparison r.1 r.0 (body ++ []) (true_jump state) (false_jump state)
        × (r.1.quads.cell 5
            ≡ some (record {
              op = blt;
              res = none;
              op1 = some 0;
              op2 = some 1;
              comment = some (text to_true);
            }))
        × (r.1.quads.cell 6
            ≡ some (record {
              op = b;
              res = none;
              op1 = none;
              op2 = none;
              comment = some (text to_false);
            }))
compare-IsComparison_example =
    compare-IsComparison runtime state (record { code = some 4; symbol = some 0 })
      (record { code = none; symbol = some 1 }) blt body []
      (((refl, (none, refl, refl)), (refl, tt)), (λ a i. refl, tt), ((refl, tt), tt, tt))
      (record { free = λ p le. ground arith }) (omega arith)

quad_list_concat-Concatenated_example :
    Returns
      (quad_list_concat runtime (some 0 ∷ none ∷ some 4 ∷ []) state)
      (Concatenated state (code ++ body))
quad_list_concat-Concatenated_example =
    quad_list_concat-Concatenated runtime state ((some 0, code) ∷ (none, []) ∷ (some 4, body) ∷ [])
      (
        first-IsComparison.code,
        (λ a i. refl, (λ a i. ground arith, tt)),
        ((refl, tt), (λ a i. cc, tt), (((refl, (none, refl, refl)), (refl, tt)), tt, tt)),
      )
      (omega arith)

quad_list_complete-Completed_example :
    (s' : Compiler) × (quad_list_complete runtime (some 0) (some 9) state ≡ ok (tt, s'))
    × Completed code (some 9) state s'
quad_list_complete-Completed_example =
    quad_list_complete-Completed runtime state (some 0) (some 9) code first-IsComparison.code.0
      first-IsComparison.jumps (omega arith)

control_if-Controls_example :
    Returns
      (control_if runtime first (some 7) (some 4) (some 8) state)
      (Controls state (code ++ body) code ((1, 1) ∷ []) (some 7) (some 8))
control_if-Controls_example =
    control_if-Controls runtime state first (some 7) (some 4) (some 8) code body code ((1, 1) ∷ [])
      (IsComparison-Waits first-IsComparison) with_body (omega arith) (omega arith) (omega arith)

control_do_while-Controls_example :
    Returns
      (control_do_while runtime (some 7) (some 4) first (some 8) state)
      (Controls state (body ++ code) code ((1, 1) ∷ []) (some 7) (some 8))
control_do_while-Controls_example =
    control_do_while-Controls runtime state first (some 7) (some 4) (some 8) code body code
      ((1, 1) ∷ []) (IsComparison-Waits first-IsComparison) body_first (omega arith) (omega arith)
      (omega arith)

control_if-IsComparison_example :
    Returns (control_if runtime first (some 7) (some 4) (some 8) state) λ r.
      IsList r.1.nodes r.0 (code ++ body)
      × (r.1.quads.cell 0 ≡ with_res (some 7) (some compare_quad))
      × (r.1.quads.cell 1 ≡ with_res (some 8) (some jump_quad))
      × ((q : Ptr) → (q == 0) ≡ false → (q == 1) ≡ false → r.1.quads.cell q ≡ state.quads.cell q)
control_if-IsComparison_example =
    control_if-IsComparison first-IsComparison runtime (some 7) (some 4) (some 8) body with_body
      (omega arith) (omega arith)

control_if-condition_not_example :
    Returns (control_if runtime (condition_not first) (some 7) (some 4) (some 8) state) λ r.
      IsList r.1.nodes r.0 (code ++ body)
      × (r.1.quads.cell 0 ≡ with_res (some 8) (some compare_quad))
      × (r.1.quads.cell 1 ≡ with_res (some 8) (some jump_quad))
control_if-condition_not_example =
    control_if-condition_not first-IsComparison runtime (some 7) (some 4) (some 8) body with_body
      (omega arith) (omega arith)
