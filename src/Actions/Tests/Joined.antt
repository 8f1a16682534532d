-- ===== src/Actions/Tests/Joined.antt =====
-- The conditions that join others, at the state of the tests.
use matcc.Prelude.{◌≡◌, out_of_fuel, some, [], arith}
use matcc.Compiler.{◌>>=◌}
use matcc.Actions.Conditions.{condition_or, condition_and}
use matcc.Actions.Control.{control_if}
use matcc.Actions.Jumps.Joined.{Join, condition_or-hangs, condition_and-hangs}
use matcc.Actions.Tests.{runtime, state, first, second, first-IsComparison, second-IsComparison}

joined : Join runtime state first second [] [] (0, 0) (1, 1) (2, 2) (3, 3)
joined = record {
  left = first-IsComparison;
  right = second-IsComparison;
  quads = tt;
  apart = λ a i. ground arith;
  fits = omega arith;
}

condition_or-hangs_example :
    (condition_or runtime first (some 9) second >>= λ c.
    control_if runtime c (some 7) (some 4) (some 8))
      state
    ≡ out_of_fuel
condition_or-hangs_example = condition_or-hangs runtime joined (some 9) (some 7) (some 4) (some 8)

condition_and-hangs_example :
    (condition_and runtime first (some 9) second >>= λ c.
    control_if runtime c (some 7) (some 4) (some 8))
      state
    ≡ out_of_fuel
condition_and-hangs_example = condition_and-hangs runtime joined (some 9) (some 7) (some 4) (some 8)
