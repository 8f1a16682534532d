-- ===== src/Driver.antt =====
-- src/main.c: `main`, with the parts of the compiler in the order in which it calls them. The parser
-- that the build generates from src/parsing/parser.y is a parameter, which reads the source file and
-- says what it left in `parse_successful`. The output is what the output file is given; `messages` is
-- what `main` and the functions that it passes `stderr` print there behind the options. The files are
-- not closed: what `fclose` returns is ignored.
mod Tests
mod Runs
mod Nested
pub mod Entries
pub mod Pushing
pub mod Program
use matcc.Prelude.{
  ℕ, Bool, true, false, Option, none, some, List, [], ◌∷◌, ◌++◌, flatten, Outcome, ok, abort, fault,
  out_of_fuel, Text, codes, if◌then◌else◌,
}
use matcc.Format.{decimal, pad}
use matcc.HashTable.{init, ht_size}
use matcc.Types.{Ptr, Point, point_init, at, Symbol, ret}
use matcc.Compiler.{Compiler, Runtime, M, pure, ◌>>=◌, ◌>>◌, lift}
use matcc.SymbolTable.Printing.{
  Reading, newline, for_each_text, symbol_table_print_variables, symbol_table_print_data_section,
}
use matcc.Quad.{quad_new_empty}
use matcc.QuadList.{quad_list_push}
use matcc.QuadList.Printing.{quad_list_print}
use matcc.Instructions.{instruction_list_print}
use matcc.Translation.{compute_symbols_lifetime}
use matcc.Translation.Generate.{generate_code}
use matcc.Translation.Printing.{print_symbols_lifetime}
use matcc.Release.{instruction_list_delete, release}
use matcc.Options.{Options, default, help, usage, cannot_open, run, Parsed, parse}

pub record Report : Type 0 where
  pub success : Bool
  pub output : Text
  pub messages : Text

-- How the process ends: the options can end it before anything is compiled, with the help on standard
-- output, with success or with failure.
pub data Exit : Type 0 where
  shows_help shows_usage : Text → Exit
  reports_file : Text → Exit
  reports : Report → Exit

abbrev tab : Text
tab = b'\t' ∷ []

-- `print_help_and_exit`, by lines.
abbrev pub help_lines : Text → List Text
help_lines progname =
    (codes "Usage: " ++ (progname ++ codes " [options] [source_file]"))
    ∷ []
    ∷ codes "If source_file is not specified, then read form stdin"
    ∷ []
    ∷ codes "Options are:"
    ∷ (codes "-h" ++ (tab ++ codes "display this help"))
    ∷ (codes "-c" ++ (tab ++ codes "stop the compilation after quad generation"))
    ∷ (codes "-o file" ++ (tab ++ codes "specifiy output file (stdout by default)"))
    ∷ (codes "-d" ++ (tab ++ codes "enable matcc debug mode"))
    ∷ (codes "-dd" ++ (tab ++ codes "enable both matcc and YACC debug mode"))
    ∷ []

abbrev pub joined_lines : List Text → Text
joined_lines [] = []
joined_lines (line ∷ lines) = line ++ (newline ++ joined_lines lines)

abbrev pub print_help : Text → Text
print_help progname = joined_lines (help_lines progname)

-- The global variables that `main` sets itself.
abbrev pub init_symbol_table : M (Unit {0})
init_symbol_table s = ok (tt, record s { symbol_table = init s.symbol_table 16 })

module _ (rt : Runtime) where
  -- `quad_list_push(&quad_list, quad_new_empty(RET))`
  unfoldable pub push_return : M (Unit {0})
  unfolding quad_new_empty quad_list_push
  push_return = do
    quad ← quad_new_empty ret
    list ← λ s. quad_list_push rt s.quad_list quad s
    λ s. ok (tt, record s { quad_list = list })

  module _ (reading : Reading) where
    -- The variables and the quads.
    unfoldable pub dump : M Text
    unfolding symbol_table_print_variables quad_list_print decimal
    dump = do
      variables ← λ s. lift (symbol_table_print_variables reading s.symbol_table s.symbols) s
      quads ← λ s. quad_list_print reading.raw_int rt s.quad_list s
      λ s.
          pure
            (codes "=variables ("
              ++ (decimal (ht_size s.symbol_table)
                  ++ (codes " symbols)" ++ (newline ++ (variables ++ (codes "=code " ++ quads))))))
            s

    module _ (qsort : (Ptr → Point) → List Ptr → List Ptr) where
      -- From quads to MIPS.
      unfoldable pub back_end : Bool → Text → M Report
      unfolding compute_symbols_lifetime print_symbols_lifetime symbol_table_print_data_section
          generate_code instruction_list_delete
      back_end debug before = do
        compute_symbols_lifetime rt
        lives ←
            if debug
            then (λ s. lift (print_symbols_lifetime s.symbol_table s.symbols) s)
            else pure []
        data_section ←
            λ s. lift (symbol_table_print_data_section reading s.symbol_table s.symbols) s
        instructions ← generate_code reading.raw_int rt qsort
        λ s. lift (instruction_list_delete instructions) s
        pure (record {
          success = true;
          output =
              data_section
              ++ (newline ++ (codes ".text" ++ (newline ++ instruction_list_print instructions)));
          messages = before ++ lives;
        })

      -- Behind the parser.
      unfoldable pub finish : Options → M Report
      unfolding dump back_end release
      finish options = do
        before ← if options.debug then dump else pure []
        report ←
            if options.stop_after_quads
            then (do
              output ← dump
              pure (record { success = true; output = output; messages = before }))
            else back_end options.debug before
        release rt
        pure report

      module _ (yyparse : Option Text → M Bool) where
        unfoldable pub compile : Options → M Report
        unfolding push_return finish
        compile options = do
          init_symbol_table
          parse_successful ← yyparse options.source_file
          push_return
          if parse_successful
              then finish options
              else pure (record {
                success = false;
                output = [];
                messages = codes "compilation aborted" ++ newline;
              })

        unfoldable pub main : (Text → Text → Bool) → Text → List Text → M Exit
        unfolding parse compile
        main can_open progname args = elim (parse can_open args default) [
          | help ↦ pure (shows_help (print_help progname))
          | usage ↦ pure (shows_usage (print_help progname))
          | cannot_open path ↦ pure (reports_file path)
          | run options ↦ (do report ← compile options; pure (reports report))
        ]
