-- ===== src/Translation/Generate/Labels.antt =====
-- src/mips/translation.c: `generate_code` on a program whose symbols fit the registers.
use matcc.Prelude.{
  ℕ, suc, ◌+◌, ◌^◌, ◌≤◌, ◌<◌, ◌≡◌, refl, Option, none, some, List, [], ◌∷◌, ◌++◌, flatten, ok,
  Returns, codes, str_eq, length, drop, get_elem?, All, arith, false,
}
use matcc.Types.{Ptr, Point, InitialValue, Symbol, Quad}
use matcc.Compiler.{Store, Compiler, Runtime, ◌>>=◌, ◌>>◌, lift}
use matcc.Registers.{Allocator, live, max_registers}
use matcc.Registers.Pool.{occurrences, IsPermuting}
use matcc.Registers.Steps.{HasRegister}
use matcc.Registers.Kept.{Keeps, linear_scan_register_allocation-Keeps}
use matcc.Registers.Whole.{ArePresent, linear_scan_register_allocation-IsPool}
use matcc.Instructions.{Instruction, instruction_new_label, instruction_list_push}
use matcc.Translation.Lifetime.{IsCode}
use matcc.Translation.Select.{label_text, select}
use matcc.Translation.Generate.{allocate_registers, generate_code}
use matcc.Translation.Generate.Ready.{IsPlaced, Needs, IsReady}
use matcc.Translation.Generate.Chunks.{from_label, Chunks, generate_loop-Chunks, from_label-Chunks}

-- NULL, or one of the symbols of the table.
abbrev pub InTable : List Ptr → Option Ptr → Type 0
InTable symbols none = Unit
InTable symbols (some p) = 0 < occurrences p symbols

-- A quad that has the operands of its operation, all from the table.
pub record IsComplete (symbols : List Ptr) (quad : Quad) : Type 0 where
  pub res : InTable symbols quad.res
  pub op1 : InTable symbols quad.op1
  pub op2 : InTable symbols quad.op2
  pub needs : Needs quad.op quad

abbrev pub main_label : Instruction
main_label = instruction_new_label (codes "main") (some (codes "entry point"))

main-ne-label : (n : ℕ) → str_eq (codes "main") (label_text n) ≡ false
unfolding label_text str_eq
main-ne-label n = refl

-- Symbols alone were written. The output is `main` and a chunk for each quad, and the label with the
-- number of a quad stands for the instructions of that quad and of those behind it.
pub record Translated (raw_int : InitialValue → ℕ) (quads : List Quad) (s : Compiler)
    (r : List Instruction × Compiler) : Type 0 where
  pub only : r.1 ≡ record s { symbols = r.1.symbols }
  pub kept : Keeps s.symbols r.1.symbols
  pub chunks :
      (body : List Instruction) × (r.0 ≡ main_label ∷ body) × Chunks raw_int r.1 0 quads body
  pub labels :
      (k : ℕ) (quad : Quad)
      → get_elem? quads k ≡ some quad
      → (is : List Instruction) × (rest : List Instruction) × (from_label (label_text k) r.0
          ≡ some (is ++ rest))
        × (select raw_int k quad r.1 ≡ ok (is, r.1))
        × Chunks raw_int r.1 (k + 1) (drop (suc k) quads) rest

placed :
    (h : Store Symbol) (symbols : List Ptr)
    → ((p : Ptr) → 0 < occurrences p symbols → HasRegister h p)
    → (o : Option Ptr) → InTable symbols o
    → IsPlaced h o
placed h symbols have none i = tt
placed h symbols have (some p) i = have p i

all-IsReady :
    (h : Store Symbol) (symbols : List Ptr)
    → ((p : Ptr) → 0 < occurrences p symbols → HasRegister h p)
    → (quads : List Quad) → All (IsComplete symbols) quads
    → All (IsReady h) quads
all-IsReady h symbols have [] c = tt
all-IsReady h symbols have (quad ∷ quads) (c, cs) = (
  record {
    res = placed h symbols have quad.res c.res;
    op1 = placed h symbols have quad.op1 c.op1;
    op2 = placed h symbols have quad.op2 c.op2;
    needs = c.needs;
  },
  all-IsReady h symbols have quads cs,
)

module _ (rt : Runtime) (qsort : (Ptr → Point) → List Ptr → List Ptr) (law : IsPermuting qsort)
    (raw_int : InitialValue → ℕ) (s : Compiler)
    (distinct : (q : Ptr) → occurrences q (live (flatten s.symbol_table.buckets)) ≤ 1)
    (present : ArePresent s.symbols (live (flatten s.symbol_table.buckets)))
    (few : length (live (flatten s.symbol_table.buckets)) ≤ max_registers) (quads : List Quad)
    (code : IsCode s.nodes s.quads s.quad_list quads)
    (complete : All (IsComplete (live (flatten s.symbol_table.buckets))) quads)
    (enough : length quads ≤ rt.fuel) (fits : length quads < 2 ^ 31) where
  -- If `qsort` permutes its array, the table has at most eight symbols, each entered once, and the list
  -- ends in NULL, fits the fuel and has fewer than 2 ^ 31 quads, each with the operands of its
  -- operation, all from the table: `generate_code` ends normally and writes symbols only. The output
  -- is the label `main` and a chunk for each quad behind its label, and the label with the number of
  -- a quad stands for the instructions of that quad and of those behind it.
  pub generate_code-Chunks : Returns (generate_code raw_int rt qsort s) (Translated raw_int quads s)
  unfolding generate_code allocate_registers instruction_list_push
  generate_code-Chunks =
      let start : Allocator = record {
        symbols = s.symbols;
        registers = [];
        active_symbols = [];
        current_stack_location = 0;
      } in
      let (a, run, (_, have)) =
        linear_scan_register_allocation-IsPool qsort law s.symbol_table start distinct present
          few in
      let t = record s { symbols = a.symbols } in
      let (body, run', chunks) =
        generate_loop-Chunks raw_int rt.fuel quads 0 s.quad_list (main_label ∷ []) t code
          (all-IsReady a.symbols (live (flatten s.symbol_table.buckets)) have quads complete) enough
          (omega arith) in
      (
        (main_label ∷ body, t),
        rw (◌>>=◌, ◌>>◌, lift, run) run',
        record {
          only = refl;
          kept = linear_scan_register_allocation-Keeps qsort s.symbol_table start a run;
          chunks = (body, refl, chunks);
          labels = λ k quad at_k.
              let (is, rest, found, selected, behind) =
                from_label-Chunks raw_int t 0 quads body k k quad chunks (omega arith) (omega arith)
                  at_k in
              (is, rest, rw (main-ne-label k) found, selected, behind);
        },
      )
