-- ===== src/Translation/Generate.antt =====
-- src/mips/translation.c: `generate_code`, the loop over the quads behind the allocation of the
-- registers. `raw_int` is what reading `intval` gives of a union that holds another member.
pub mod Chunks
pub mod Labels
pub mod Ready
pub mod Emits
use matcc.Prelude.{
  ℕ, zero, suc, Option, none, some, List, [], ◌∷◌, ◌++◌, Outcome, ok, abort, fault, out_of_fuel,
  Text, codes, take,
}
use matcc.Format.{format_int}
use matcc.Types.{Ptr, Point, Symbol, InitialValue, Comment, text, assigned, Quad}
use matcc.Quad.Printing.{comment_of}
use matcc.Compiler.{Compiler, Runtime, M, pure, ◌>>=◌, ◌>>◌, lift, node_at, quad_at}
use matcc.Registers.{Allocator, linear_scan_register_allocation}
use matcc.Instructions.{Instruction, instruction_new_label, instruction_list_push, push_all}
use matcc.Translation.{count}
use matcc.Translation.Select.{label_text, select}

module _ (raw_int : InitialValue → ℕ) where
  unfoldable pub generate_loop : ℕ → Option Ptr → ℕ → List Instruction → M (List Instruction)
  unfolding count
  generate_loop fuel none quad_counter instructions s = pure instructions s
  generate_loop zero (some p) quad_counter instructions s = out_of_fuel
  generate_loop (suc fuel) (some p) quad_counter instructions s =
      (do
        node ← node_at (some p)
        quad ← quad_at (some node.quad)
        let label =
            instruction_new_label (label_text quad_counter) (comment_of raw_int quad.comment)
        new ← select raw_int quad_counter quad
        next ← count quad_counter
        generate_loop fuel node.successor next
            (push_all (instruction_list_push instructions label) new))
        s

  module _ (rt : Runtime) (qsort : (Ptr → Point) → List Ptr → List Ptr) where
    -- The allocation works on the symbols and has the rest of its variables to itself.
    unfoldable pub allocate_registers : M (Unit {0})
    allocate_registers s =
        (do
          allocator ← lift (
              linear_scan_register_allocation qsort s.symbol_table (record {
                symbols = s.symbols;
                registers = [];
                active_symbols = [];
                current_stack_location = 0;
              }))
          λ s'. ok (tt, record s' { symbols = allocator.symbols }))
          s

    unfoldable pub generate_code : M (List Instruction)
    unfolding allocate_registers
    generate_code = do
      allocate_registers
      λ s.
          generate_loop rt.fuel s.quad_list 0
            (instruction_list_push []
              (instruction_new_label (codes "main") (some (codes "entry point"))))
            s
