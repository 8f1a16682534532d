-- ===== src/Options/Tests.antt =====
-- A command line with every flag.
use matcc.Prelude.{◌≡◌, refl, Bool, true, List, [], ◌∷◌, Text, codes, All}
use matcc.Options.{default, argument, parse}
use matcc.Options.Flags.{
  Flag, debug_flag, both_flag, quads_flag, output_flag, Ending, source_file, command_line, meaning,
  Opens, Ends, parse-command_line,
}
use matcc.Options.Reading.{parse-Read}

abbrev opens_all : Text → Text → Bool
opens_all path mode = true

abbrev flags : List Flag
flags =
    debug_flag
    ∷ output_flag (codes "first.s")
    ∷ both_flag
    ∷ quads_flag
    ∷ output_flag (codes "out.s")
    ∷ []

abbrev ending : Ending
ending = source_file (codes "in.c")

is_other : Ends opens_all ending
unfolding argument
is_other = refl

parse-command_line_example :
    parse opens_all (command_line flags ending) default ≡ meaning opens_all flags ending default
parse-command_line_example =
    parse-command_line opens_all flags ending default (tt, (refl, (tt, (tt, (refl, tt))))) is_other

abbrev mistyped : List Text
mistyped = codes "-d" ∷ codes "-x" ∷ codes "in.c" ∷ []

parse-Read_example :
    (flags : List Flag) × (ending : Ending) × (mistyped ≡ command_line flags ending)
    × All (Opens opens_all) flags
    × Ends opens_all ending
    × (parse opens_all mistyped default ≡ meaning opens_all flags ending default)
parse-Read_example = parse-Read opens_all mistyped default
