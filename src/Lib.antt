-- ===== src/Lib.antt =====
-- matcc compiles MatC, a subset of C with matrices, to MIPS assembly. The parser runs the actions
-- of the grammar, which fill a symbol table and build lists of quads, the intermediate code; the
-- back end computes the life times of the symbols, gives them registers and prints instructions.
--
-- The files and the code that they model (the paths are those of the repository):
--   Prelude            shared names: texts as lists of bytes, Boolean tests, lists over the native
--                      numbers, and the ways in which a run can end (ok, abort, fault, out_of_fuel).
--                      `abort` is abort_parsing, with what its message shows; `fault` is undefined
--                      behaviour, such as a read through NULL.
--   Matrix             src/matrix.c and the productions float_list and float_array_list of
--                      src/parsing/parser.y, which build a matrix constant row by row.
--   HashTable          src/hash_table.c: dohash, init, put, get, exists, ht_size. Map has the finite
--                      map that a table stands for, Chains the invariant of its chains.
--   Format             printf with %s, %d and widths, and snprintf into a buffer.
--   Lexer              src/parsing/lexer.l: the rules in their order, with their patterns (Patterns),
--                      and the calls of yylex. Scanner says what a generated scanner does, Reference is
--                      one, by Derivatives. Pieces is the division of a text, Reading the calls on
--                      it. Avoids, Lines, Bounds and Positions are about the places of tokens,
--                      Words about what a piece is, Single, Spaced and Spelling about texts that are
--                      written of words.
--   Types, Compiler    the structs of src/symbol.h, src/quad.h and src/quad_list.h; the heap and the
--                      global variables as one state, and the monad of the functions that follow.
--   Symbol             src/symbol.c: new symbols and their names.
--   SymbolTable        src/symbol_table.c: push and lookup, on the hash table; Printing has the two
--                      functions that print the table, DataSection is about the second.
--   Quad, QuadList     src/quad.c and src/quad_list.c. A list is a chain of nodes in the store, so
--                      that lists can share nodes, which the conditions of the grammar do. Segments
--                      relates a pointer to the cells that it leads to, Concat and Complete are about
--                      the two operations, Fresh about new nodes, Push about the end of a list,
--                      Cycles about chains with no end. Printing in both has the listing of the quads.
--   Actions            src/parsing/actions.c: Expressions, Conditions and Control have its functions
--                      under their names. Code, Loops, ForLoops and Jumps show what the control
--                      structures do with the jumps of a condition, Numbering where their tags lie
--                      in the list, Operands what declarations and arithmetic do.
--   Grammar            src/parsing/parser.y: the parse trees, and the actions in the order in which the
--                      parser runs them. Environment, Entering, Making and Declaring are about the
--                      symbol table meanwhile, TypeOf, Leaves and Typing about the types of
--                      expressions.
--   Translation        src/mips/translation.c: compute_symbols_lifetime, of which Intervals is about one
--                      symbol and Lifetime about the store; Select has the switch on the operation and
--                      Generate the loop of generate_code, with its output in chunks behind labels.
--   Instructions       src/mips/instruction.c.
--   Options, Driver    src/main.c: the loop over the arguments, and what main does then. Flags and
--                      Reading are about command lines, Program about a whole run; Runs and Nested are
--                      runs on programs.
--   Registers          src/mips/register_allocation.c and src/mips/symbol_array.c, with qsort as a
--                      parameter. Pool has the invariant of the registers, Steps what a step
--                      changes, Kept what the whole allocation leaves as it was, Expire, Scan and
--                      Whole are about the parts of the scan.
--   Release            the functions that release memory: quad_delete, quad_list_delete, symbol_delete,
--                      ht_free and instruction_list_delete. Lists and Tables are about the quads and
--                      the symbols, Whole about what main releases.
--   Utility            src/utility.c, with the allocator and the files as parameters.
-- How they interact: an action makes symbols (Symbol), enters them (SymbolTable, HashTable), makes
-- quads (Quad) and joins their lists (QuadList); Grammar runs the actions; Translation walks the
-- joined list, writes to the symbols and makes the instructions; Driver calls the parts in order. All
-- of them change the one state Compiler.Compiler. Registers reads the points that
-- Translation wrote, and has the variables of its file as a state of its own.
--
-- Numbers: `unsigned int` counters wrap at 2 ^ 32 and sizes at 2 ^ 64 where the code computes them.
-- The quad counter of the life times and the lines and columns of the lexer are `int`s, and going
-- beyond one is a fault. A float is not
-- looked into: it is kept as it was read.
-- Fuel: Runtime.fuel bounds the steps of a loop along pointers. A list that ends in NULL has one node
-- per step, so that fuel for one step more than it has nodes is enough; a chain of pointers that has
-- become a cycle uses up any fuel. The loop of expire_old_symbols removes a symbol in every step, and
-- has fuel for one step more than there are symbols. Every call of yylex and every rule that skips
-- takes a byte of the text at least, and has fuel for one step more than the text has bytes.
-- Memory: a block is never released before the output is written, so that no address is used again;
-- an object that is released is gone from its store, and to release it again is a fault. A matrix
-- is a value with its cells and has no address, so matrix_delete only ends. Exhausted
-- memory, which ends the process, does not occur. Runtime.raw_symbol is what a new block holds
-- before it is written.
--
-- Not modelled: ht_dump, which nothing calls, closing the files, the warnings and the
-- messages about options, which change no state; and how the parser that the build generates from
-- src/parsing/parser.y finds the tree of a list of tokens: `main` has it as a parameter, and the
-- actions stand on trees. The scanner that the build generates from src/parsing/lexer.l is a parameter
-- that does what is documented of it, and atoi and strtof are parameters too, as are what %f prints,
-- and what reading a member of a union gives when another was written last.
pub mod Actions
pub mod Compiler
pub mod Driver
pub mod Format
pub mod Grammar
pub mod HashTable
pub mod Instructions
pub mod Lexer
pub mod Matrix
pub mod Options
pub mod Prelude
pub mod Quad
pub mod QuadList
pub mod Registers
pub mod Release
pub mod Symbol
pub mod SymbolTable
pub mod Translation
pub mod Types
pub mod Utility
