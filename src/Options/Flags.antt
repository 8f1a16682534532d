-- ===== src/Options/Flags.antt =====
-- src/main.c: command lines that are written from flags and what stands behind them.
use matcc.Prelude.{
  ◌≡◌, refl, ◌∙◌, Bool, true, false, some, if◌then◌else◌, List, [], ◌∷◌, ◌++◌, Text, codes, str_eq,
  All,
}
use matcc.Options.{Options, Parsed, help, usage, cannot_open, run, other, argument, parse}

-- An option with what it needs.
pub data Flag : Type 0 where
  debug_flag both_flag quads_flag : Flag
  output_flag : Text → Flag

-- How it is written.
abbrev pub words : Flag → List Text
words debug_flag = codes "-d" ∷ []
words both_flag = codes "-dd" ∷ []
words quads_flag = codes "-c" ∷ []
words (output_flag path) = codes "-o" ∷ path ∷ []

-- What it means.
abbrev pub apply : Flag → Options → Options
apply debug_flag o = record o { debug = true }
apply both_flag o = record o { debug = true; yydebug = true }
apply quads_flag o = record o { stop_after_quads = true }
apply (output_flag path) o = record o { output_file = some path }

-- What can stand behind the flags: nothing, the source file, a request for help, `-o` with no file or
-- with one that does not open, and a word that is no option and not the last.
pub data Ending : Type 0 where
  nothing no_path : Ending
  source_file : Text → Ending
  asks_help : List Text → Ending
  unopened : Text → List Text → Ending
  unrecognized : Text → Text → List Text → Ending

abbrev pub ending_words : Ending → List Text
ending_words nothing = []
ending_words no_path = codes "-o" ∷ []
ending_words (source_file path) = path ∷ []
ending_words (asks_help args) = codes "-h" ∷ args
ending_words (unopened path args) = codes "-o" ∷ path ∷ args
ending_words (unrecognized arg next args) = arg ∷ next ∷ args

abbrev pub command_line : List Flag → Ending → List Text
command_line [] ending = ending_words ending
command_line (flag ∷ flags) ending = words flag ++ command_line flags ending

module _ (can_open : Text → Text → Bool) where
  -- The process ends, or the flags have their effect in order and the source file is opened.
  abbrev pub meaning : List Flag → Ending → Options → Parsed
  meaning (flag ∷ flags) ending o = meaning flags ending (apply flag o)
  meaning [] nothing o = run o
  meaning [] no_path o = usage
  meaning [] (source_file path) o =
      if can_open path (codes "r")
      then run (record o { source_file = some path })
      else cannot_open path
  meaning [] (asks_help args) o = help
  meaning [] (unopened path args) o = cannot_open path
  meaning [] (unrecognized arg next args) o = usage

  -- The file of an output flag can be opened.
  abbrev pub Opens : Flag → Type 0
  Opens debug_flag = Unit
  Opens both_flag = Unit
  Opens quads_flag = Unit
  Opens (output_flag path) = can_open path (codes "w+") ≡ true

  abbrev pub Ends : Ending → Type 0
  Ends nothing = Unit
  Ends no_path = Unit
  Ends (source_file path) = argument path ≡ other
  Ends (asks_help args) = Unit
  Ends (unopened path args) = can_open path (codes "w+") ≡ false
  Ends (unrecognized arg next args) = argument arg ≡ other

  parse-words :
      (flag : Flag) (args : List Text) (o : Options)
      → Opens flag
      → parse can_open (words flag ++ args) o ≡ parse can_open args (apply flag o)
  unfolding parse argument str_eq
  parse-words debug_flag [] o opens = refl
  parse-words debug_flag (next ∷ args) o opens = refl
  parse-words both_flag [] o opens = refl
  parse-words both_flag (next ∷ args) o opens = refl
  parse-words quads_flag [] o opens = refl
  parse-words quads_flag (next ∷ args) o opens = refl
  parse-words (output_flag path) args o opens = rw opens refl

  parse-ending_words :
      (ending : Ending) (o : Options)
      → Ends ending
      → parse can_open (ending_words ending) o ≡ meaning [] ending o
  unfolding parse argument str_eq
  parse-ending_words nothing o ends = refl
  parse-ending_words no_path o ends = refl
  parse-ending_words (source_file path) o ends = rw (parse, ends) refl
  parse-ending_words (asks_help []) o ends = refl
  parse-ending_words (asks_help (next ∷ args)) o ends = refl
  parse-ending_words (unopened path args) o ends = rw ends refl
  parse-ending_words (unrecognized arg next args) o ends = rw (parse, ends) refl

  -- A command line of flags whose output files can be opened, in any order and number, and of one of
  -- the endings is read for what it means: `-d` sets debug, `-dd` debug and yydebug, `-c`
  -- stop_after_quads, and the last output file is kept; the ending sets the source file if it can be
  -- opened and fails on that file if not, shows the help, or fails.
  pub parse-command_line :
      (flags : List Flag) (ending : Ending) (o : Options)
      → All Opens flags
      → Ends ending
      → parse can_open (command_line flags ending) o ≡ meaning flags ending o
  parse-command_line [] ending o opens ends = parse-ending_words ending o ends
  parse-command_line (flag ∷ flags) ending o (open', opens) ends =
      parse-words flag (command_line flags ending) o open'
      ∙ parse-command_line flags ending (apply flag o) opens ends
