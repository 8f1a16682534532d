-- ===== src/Options.antt =====
-- src/main.c: the loop of `main` over the arguments, behind the name of the program. Whether
-- `safe_fopen` can open a file in a mode is a parameter; the first file that it cannot open ends the
-- process.
pub mod Flags
pub mod Reading
mod Tests
use matcc.Prelude.{
  Bool, true, false, Option, none, some, List, [], ◌∷◌, Text, codes, str_eq, if◌then◌else◌,
}

pub record Options : Type 0 where
  pub debug : Bool
  pub yydebug : Bool
  pub stop_after_quads : Bool
  pub source_file : Option Text
  pub output_file : Option Text

-- The values of the variables before the loop; NULL is standard input and standard output.
abbrev pub default : Options
default = record {
  debug = false;
  yydebug = false;
  stop_after_quads = false;
  source_file = none;
  output_file = none;
}

-- How the loop ends: `help` is `print_help_and_exit` with success, `usage` with failure.
pub data Parsed : Type 0 where
  help usage : Parsed
  cannot_open : Text → Parsed
  run : Options → Parsed

-- The chain of `strcmp`.
pub data Argument : Type 0 where
  h_flag d_flag dd_flag c_flag o_flag other : Argument

unfoldable pub argument : Text → Argument
unfolding str_eq
argument arg =
    if str_eq arg (codes "-h")
    then h_flag
    else if str_eq arg (codes "-d")
    then d_flag
    else if str_eq arg (codes "-dd")
    then dd_flag
    else if str_eq arg (codes "-c")
    then c_flag
    else if str_eq arg (codes "-o")
    then o_flag
    else other

abbrev pub debug_on : Options → Options
debug_on o = record o { debug = true }

abbrev pub both_on : Options → Options
both_on o = record o { debug = true; yydebug = true }

abbrev pub quads_only : Options → Options
quads_only o = record o { stop_after_quads = true }

module _ (can_open : Text → Text → Bool) where
  -- `source_file = safe_fopen(argv[i], "r")`, at the last argument.
  abbrev pub source : Text → Options → Parsed
  source path o =
      if can_open path (codes "r")
      then run (record o { source_file = some path })
      else cannot_open path

  -- The loop from an argument on.
  unfoldable pub parse : List Text → Options → Parsed
  unfolding argument
  parse [] o = run o
  parse (arg ∷ []) o = elim (argument arg) [
    | h_flag ↦ help
    | d_flag ↦ run (debug_on o)
    | dd_flag ↦ run (both_on o)
    | c_flag ↦ run (quads_only o)
    | o_flag ↦ usage
    | other ↦ source arg o
  ]
  parse (arg ∷ next ∷ args) o = elim (argument arg) [
    | h_flag ↦ help
    | d_flag ↦ parse (next ∷ args) (debug_on o)
    | dd_flag ↦ parse (next ∷ args) (both_on o)
    | c_flag ↦ parse (next ∷ args) (quads_only o)
    | o_flag ↦
        if can_open next (codes "w+")
        then parse args (record o { output_file = some next })
        else cannot_open next
    | other ↦ usage
  ]
