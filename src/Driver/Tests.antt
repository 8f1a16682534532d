-- ===== src/Driver/Tests.antt =====
-- A program of two quads with an integer and a matrix constant, and the theorems there.
use matcc.Prelude.{
  ◌≤◌, ◌≡◌, refl, Bool, true, false, Option, none, some, List, [], ◌∷◌, ◌++◌, flatten, ok, fault,
  Returns, Text, codes, str_eq, arith,
}
use matcc.Matrix.{Matrix}
use matcc.HashTable.{HashTable, ht_ok}
use matcc.Types.{
  string, Ptr, Symbol, int, matrix, indeterminate, matrixval, point_init, Quad, neg, prti,
}
use matcc.Compiler.{Store, Compiler, Runtime, M, IsStore, alloc}
use matcc.SymbolTable.Printing.{Reading, newline, symbol_table_print_data_section}
use matcc.SymbolTable.Printing.DataSection.{
  matrix_value, ArePrintable, definitions, symbol_table_print_data_section-definitions,
}
use matcc.QuadList.{quad_list_push}
use matcc.QuadList.Segments.{Cells, IsList}
use matcc.QuadList.Fresh.{IsStore-alloc}
use matcc.QuadList.Push.{Pushed, quad_list_push-Pushed}
use matcc.Registers.{live}
use matcc.Registers.Pool.{occurrences}
use matcc.Registers.InsertionSort.{sorted, sorted-IsPermuting}
use matcc.Release.{release}
use matcc.Release.Tables.{AreReleasable}
use matcc.Release.Whole.{AllReleased, release-AllReleased}
use matcc.Options.{Options, default, run, parse, argument}
use matcc.Driver.{Report, reports, main}
use matcc.Driver.Pushing.{Returned, return_quad}
use matcc.Driver.Program.{IsProgram, Finished, main-Compiled, main-fails}

module _ {A : Type 0} where
  abbrev empty : Store A
  empty = record { next = 0; cell = λ p. none }

  empty-IsStore : IsStore empty
  empty-IsStore = record { free = λ p le. refl }

abbrev number : Symbol
number = record {
  name = codes "_x";
  type = int;
  initial_value = indeterminate;
  constant = false;
  matrix_size = record { height = 0; width = 0 };
  start_point = point_init;
  end_point = point_init;
  life_time = 0;
  size = 4;
  affected_register = none;
  stack_location = 0;
}

abbrev square : Matrix
square = record { height = 2; width = 2; values = 1 ∷ 2 ∷ 3 ∷ 4 ∷ [] }

abbrev constant : Symbol
constant = record number {
  name = codes "const1";
  type = matrix;
  initial_value = matrixval square;
  constant = true;
}

abbrev symbols : List Symbol
symbols = number ∷ constant ∷ []

abbrev negate : Quad
negate = record { op = neg; res = some 0; op1 = some 0; op2 = none; comment = none }

abbrev print : Quad
print = record { op = prti; res = some 0; op1 = none; op2 = none; comment = none }

abbrev program : List Quad
program = negate ∷ print ∷ []

abbrev cells : Cells
cells = (0, 0) ∷ (1, 1) ∷ []

abbrev table : HashTable Ptr
table = record {
  size = 2;
  buckets = ((codes "_x", 0) ∷ []) ∷ ((codes "const1", 1) ∷ []) ∷ [];
  last_error = ht_ok;
}

abbrev parsed : Compiler
parsed = record {
  symbols = alloc (alloc empty number) constant;
  quads = alloc (alloc empty negate) print;
  nodes =
      alloc (alloc empty (record { quad = 0; successor = some 1 }))
        (record { quad = 1; successor = none });
  symbol_table = table;
  next_quad = 2;
  temps_count = 0;
  constants_count = 1;
  quad_list = some 0;
}

abbrev runtime : Runtime
runtime = record { fuel = 9; raw_symbol = λ p. number }

abbrev reading : Reading
reading = record { format_float = λ x. codes "1.000000"; raw_int = λ v. 0; raw_float = λ v. 0 }

nodes-IsStore : IsStore parsed.nodes
nodes-IsStore = IsStore-alloc _ _ (IsStore-alloc _ _ empty-IsStore)

quads-IsStore : IsStore parsed.quads
quads-IsStore = IsStore-alloc _ _ (IsStore-alloc _ _ empty-IsStore)

cells-IsList : IsList parsed.nodes parsed.quad_list cells
cells-IsList = ((refl, (some 1, refl, (refl, (none, refl, refl)))), (refl, (refl, tt)))

symbols-ArePrintable : ArePrintable parsed.symbols (flatten table.buckets) symbols
unfolding flatten
symbols-ArePrintable = (refl, (λ e. absurd (cc), (refl, (λ e. matrix_value square refl, tt))))

one_each : (q : Ptr) → occurrences q (live (flatten table.buckets)) ≤ 1
unfolding flatten
one_each q = ground arith

program-IsProgram : IsProgram table parsed.symbols program symbols
unfolding flatten
program-IsProgram = record {
  once = one_each;
  few = omega arith;
  printable = symbols-ArePrintable;
  complete = (
    record { res = omega arith; op1 = omega arith; op2 = tt; needs = (tt, tt) },
    (record { res = omega arith; op1 = tt; op2 = tt; needs = tt }, tt),
  );
}

abbrev opens_all : Text → Text → Bool
opens_all path mode = true

abbrev args : List Text
args = codes "-o" ∷ codes "out.s" ∷ codes "in.c" ∷ []

abbrev options : Options
options = record default { output_file = some (codes "out.s"); source_file = some (codes "in.c") }

args-options : parse opens_all args default ≡ run options
unfolding parse argument str_eq
args-options = refl

-- A parser that leaves the program.
abbrev parser : Bool → Option Text → M Bool
parser successful source s = ok (successful, parsed)

symbols-AreReleasable : AreReleasable parsed.symbols (flatten table.buckets)
unfolding flatten
symbols-AreReleasable = ((number, refl, λ e. cc), ((constant, refl, λ e. cc), tt))

main-Compiled_example :
    Returns (main runtime reading sorted (parser true) opens_all (codes "matcc") args parsed) λ r.
      (report : Report) × (r.0 ≡ reports report)
      × Finished reading parsed
          (cells ++ (2, 2) ∷ [])
          (program ++ return_quad ∷ [])
          symbols
          (report, r.1)
main-Compiled_example =
    main-Compiled runtime reading sorted sorted-IsPermuting (parser true) opens_all (codes "matcc")
      args options args-options parsed parsed cells program nodes-IsStore quads-IsStore cells-IsList
      (refl, (refl, tt)) (omega arith) symbols refl refl refl program-IsProgram (omega arith)
      (refl, (refl, tt)) symbols-AreReleasable

release-AllReleased_example : Returns (release runtime parsed) (λ r. AllReleased cells parsed r.1)
release-AllReleased_example =
    release-AllReleased runtime parsed cells cells-IsList (refl, (refl, tt))
      ((negate, refl), ((print, refl), tt)) (omega arith) (omega arith) one_each
      symbols-AreReleasable

-- A temporary of an operation on two strings, whose union was never written.
abbrev joined : Compiler
joined = record parsed { symbols = alloc (alloc empty (record number { type = string })) constant }

release-joined : release runtime joined ≡ fault
unfolding release
release-joined = refl

main-fails_example :
    Returns (main runtime reading sorted (parser false) opens_all (codes "matcc") args parsed) λ r.
      (r.0
        ≡ reports (record {
          success = false;
          output = [];
          messages = codes "compilation aborted" ++ newline;
        }))
      × Returned runtime parsed cells program (tt, r.1)
main-fails_example =
    main-fails runtime reading sorted sorted-IsPermuting (parser false) opens_all (codes "matcc")
      args options args-options parsed parsed cells program nodes-IsStore quads-IsStore cells-IsList
      (refl, (refl, tt)) (omega arith) refl

symbol_table_print_data_section-definitions_example :
    symbol_table_print_data_section reading table parsed.symbols
    ≡ ok (codes ".data" ++ (newline ++ definitions reading symbols))
symbol_table_print_data_section-definitions_example =
    symbol_table_print_data_section-definitions reading parsed.symbols table symbols
      symbols-ArePrintable

quad_list_push-Pushed_example :
    Returns (quad_list_push runtime parsed.quad_list 0 parsed) (Pushed parsed cells 0)
quad_list_push-Pushed_example =
    quad_list_push-Pushed runtime parsed parsed.quad_list cells 0 nodes-IsStore cells-IsList
      (omega arith)
