-- ===== src/Driver/Runs.antt =====
-- A whole run of the compiler: the assembler file of a program that counts to three in a loop.
use matcc.Prelude.{
  ◌≡◌, refl, Bool, true, false, Option, none, some, [], ◌∷◌, ok, abort, fault, out_of_fuel, Text,
  codes, flatten,
}
use matcc.HashTable.{HashTable, ht_ok, init, take_last_error}
use matcc.Types.{Ptr, int, indeterminate, point_init}
use matcc.Compiler.{Store, Compiler, Runtime, M}
use matcc.Symbol.{
  symbol_new, symbol_new_user, symbol_new_temp, symbol_new_const, user_name, temp_name,
  constant_name,
}
use matcc.SymbolTable.{symbol_table_push, symbol_table_lookup}
use matcc.SymbolTable.Printing.{Reading}
use matcc.Registers.InsertionSort.{sorted, insert}
use matcc.Grammar.{
  plus, integerconst, identifier, computed, t_int, initialized, declares, calls, Statements,
  last_statement, while_do, assigns, compared, lt, block, next_statement, program,
}
use matcc.Driver.{shows_help, shows_usage, reports_file, reports, main, joined_lines}
use matcc.HashTable.{
  hash_sum, is_not_found as hashtable_is_not_found, dohash, find, bucket_at, init, got, get, exists,
  put, take_last_error,
}
use matcc.SymbolTable.{
  table_put, table_get, table_last_error, is_already_exists,
  is_not_found as symboltable_is_not_found, symbol_table_push, symbol_table_lookup,
}
use matcc.Symbol.{
  user_name, temp_name, constant_name, symbol_new, symbol_new_user, symbol_new_temp,
  symbol_new_const,
}
use matcc.QuadList.{
  quad_list_new, last_node, last, link, complete, concat_loop, quad_list_concat, quad_list_complete,
}
use matcc.Quad.{quad_new, quad_set_comment}
use matcc.Translation.{reset_symbol, touch, extend_life, reset_loop, life_loop}
use matcc.Registers.{
  symbol_array_remove, first_free, next_free_register, assign_register, free_register,
  forget_registers, sort_active_symbols, expired, expire_one, expire_loop, expire_old_symbols,
  allocate, allocate_all, linear_scan_register_allocation,
}
use matcc.Actions.Control.{jump_to, print_with, print_by_type}
use matcc.Actions.Expressions.{ensure_type_match, declare_constant}
use matcc.Instructions.{instruction_list_push, push_all, instruction_line, instruction_list_print}
use matcc.Translation.Select.{label_text, select}
use matcc.Translation.Generate.{generate_loop}
use matcc.Registers.InsertionSort.{insert, sorted}
use matcc.Grammar.{statements}
use matcc.Quad.Printing.{comment_text}

module _ {A : Type 0} where
  abbrev empty : Store A
  empty = record { next = 0; cell = λ p. none }

abbrev runtime : Runtime
runtime = record {
  fuel = 99;
  raw_symbol = λ p. record {
    name = [];
    type = int;
    initial_value = indeterminate;
    constant = false;
    matrix_size = record { height = 0; width = 0 };
    start_point = point_init;
    end_point = point_init;
    life_time = 0;
    size = 0;
    affected_register = none;
    stack_location = 0;
  };
}

abbrev unset : HashTable Ptr
unset = record { size = 0; buckets = []; last_error = ht_ok }

abbrev start : Compiler
start = record {
  symbols = empty;
  quads = empty;
  nodes = empty;
  symbol_table = init unset 16;
  next_quad = 0;
  temps_count = 0;
  constants_count = 0;
  quad_list = none;
}

abbrev reading : Reading
reading = record { format_float = λ x. codes "1.000000"; raw_int = λ v. 0; raw_float = λ v. 0 }

abbrev body : Statements
body = next_statement (declares (initialized t_int (codes "x") (integerconst 0))) (
    next_statement
      (while_do (compared (identifier (codes "x")) lt (integerconst 3)) (
        block (
          last_statement
            (assigns (codes "x") (computed (identifier (codes "x")) plus (integerconst 1))))))
      (last_statement (calls (codes "print") (identifier (codes "x")))))

abbrev parser : Statements → Option Text → M Bool
parser body source = program runtime 0 body []

-- What the compiler writes for a program of one function.
abbrev pub output_of : Statements → Option Text
output_of body =
    elim (main runtime reading sorted (parser body) (λ path mode. true) (codes "matcc")
      (codes "in.c" ∷ []) start) [
        | ok (e, s) ↦ elim e [
          | reports r ↦ some r.output
          | shows_help _ ↦ none
          | shows_usage _ ↦ none
          | reports_file _ ↦ none
        ]
        | abort _ ↦ none
        | fault ↦ none
        | out_of_fuel ↦ none
      ]

abbrev assembler : Text
assembler = joined_lines (
    codes ".data"
    ∷ codes "tmp0: .word 0"
    ∷ codes "_x: .word 0"
    ∷ codes "cst0: .word 0"
    ∷ codes "cst1: .word 1"
    ∷ codes "cst2: .word 3"
    ∷ codes "cst3: .word 3"
    ∷ codes "cst4: .word 1"
    ∷ codes "cst5: .word 6"
    ∷ []
    ∷ codes ".text"
    ∷ codes "main: # entry point"
    ∷ codes "L0: # _x = 0"
    ∷ (b'\t' ∷ codes "lw $t0 _x ")
    ∷ (b'\t' ∷ codes "lw $t1 cst0 ")
    ∷ (b'\t' ∷ codes "move $t0 $t1 ")
    ∷ codes "L1: # jump to the true statements"
    ∷ (b'\t' ∷ codes "lw $t1 cst2 ")
    ∷ (b'\t' ∷ codes "blt $t0 $t1 L3")
    ∷ codes "L2: # jump to the false statements"
    ∷ (b'\t' ∷ codes "b L6  ")
    ∷ codes "L3: # "
    ∷ (b'\t' ∷ codes "lw $t2 tmp0 ")
    ∷ (b'\t' ∷ codes "lw $t1 cst4 ")
    ∷ (b'\t' ∷ codes "add $t2 $t0 $t1")
    ∷ codes "L4: # _x = 0"
    ∷ (b'\t' ∷ codes "move $t0 $t2 ")
    ∷ codes "L5: # jump to the condition of while control"
    ∷ (b'\t' ∷ codes "b L1  ")
    ∷ codes "L6: # "
    ∷ (b'\t' ∷ codes "li $v0 1 ")
    ∷ (b'\t' ∷ codes "move $a0 $t0 ")
    ∷ (b'\t' ∷ codes "syscall   ")
    ∷ codes "L7: # "
    ∷ (b'\t' ∷ codes "jal $ra  ")
    ∷ [])

unfoldable pub every_part : Unit {0}
unfolding comment_text main program flatten statements hash_sum hashtable_is_not_found dohash find
    bucket_at init got get exists put take_last_error table_put table_get table_last_error
    is_already_exists symboltable_is_not_found symbol_table_push symbol_table_lookup user_name
    temp_name constant_name symbol_new symbol_new_user symbol_new_temp symbol_new_const
    quad_list_new last_node last link complete concat_loop quad_list_concat quad_list_complete
    quad_new quad_set_comment reset_symbol touch extend_life reset_loop life_loop
    symbol_array_remove first_free next_free_register assign_register free_register forget_registers
    sort_active_symbols expired expire_one expire_loop expire_old_symbols allocate allocate_all
    linear_scan_register_allocation jump_to print_with print_by_type ensure_type_match
    declare_constant instruction_list_push push_all instruction_line instruction_list_print
    label_text select generate_loop insert sorted
every_part = tt

counts_to_three : output_of body ≡ some assembler
unfolding every_part
counts_to_three = refl
