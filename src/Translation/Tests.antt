-- ===== src/Translation/Tests.antt =====
-- The life times of three symbols in a program of two quads, and the theorem there.
use matcc.Prelude.{
  ◌≤◌, ℕ, zero, suc, ◌≡◌, refl, true, false, Option, none, some, List, [], ◌∷◌, flatten, ok, abort,
  fault, out_of_fuel, Returns, codes, arith,
}
use matcc.HashTable.{ht_ok}
use matcc.Types.{
  Ptr, Symbol, int, indeterminate, InitialValue, Point, point_init, at, Quad, add, prti, Node,
}
use matcc.Compiler.{Compiler, Runtime}
use matcc.Translation.{
  reset_symbol, first_point, last_point, touch, extend_life, reset_loop, life_loop,
  compute_symbols_lifetime, count,
}
use matcc.Translation.Intervals.{IsLifetime}
use matcc.Registers.{live}
use matcc.Registers.Pool.{occurrences}
use matcc.Registers.Whole.{ArePresent}
use matcc.Registers.InsertionSort.{sorted}
use matcc.Registers.InsertionSort.{sorted-IsPermuting}
use matcc.Translation.Generate.{generate_code}
use matcc.Translation.Generate.Labels.{Translated, generate_code-Chunks}
use matcc.Translation.Lifetime.{is_entry, compute_symbols_lifetime-IsLifetime}

abbrev symbol : Symbol
symbol = record {
  name = codes "_a";
  type = int;
  initial_value = indeterminate;
  constant = false;
  matrix_size = record { height = 0; width = 0 };
  start_point = at 7;
  end_point = at 9;
  life_time = 2;
  size = 4;
  affected_register = none;
  stack_location = 0;
}

abbrev sum : Quad
sum = record { op = add; res = some 1; op1 = some 0; op2 = some 0; comment = none }

abbrev print : Quad
print = record { op = prti; res = some 1; op1 = none; op2 = none; comment = none }

abbrev symbols : Ptr → Option Symbol
symbols zero = some symbol
symbols (suc zero) = some symbol
symbols (suc (suc zero)) = some symbol
symbols (suc (suc (suc _))) = none

abbrev quads : Ptr → Option Quad
quads zero = some sum
quads (suc zero) = some print
quads (suc (suc _)) = none

abbrev nodes : Ptr → Option Node
nodes zero = some (record { quad = 0; successor = some 1 })
nodes (suc zero) = some (record { quad = 1; successor = none })
nodes (suc (suc _)) = none

abbrev state : Compiler
state = record {
  symbols = record { next = 3; cell = symbols };
  quads = record { next = 2; cell = quads };
  nodes = record { next = 2; cell = nodes };
  symbol_table = record {
    size = 2;
    buckets = ((codes "_a", 0) ∷ (codes "_c", 2) ∷ []) ∷ ((codes "_b", 1) ∷ []) ∷ [];
    last_error = ht_ok;
  };
  next_quad = 2;
  temps_count = 0;
  constants_count = 0;
  quad_list = some 0;
}

abbrev runtime : Runtime
runtime = record { fuel = 9; raw_symbol = λ p. symbol }

abbrev program : List Quad
program = sum ∷ print ∷ []

compute_symbols_lifetime-IsLifetime_example : Returns (compute_symbols_lifetime runtime state) λ r.
    (r.1 ≡ record state { symbols = r.1.symbols })
    × ((p : Ptr) (symbol : Symbol)
        → is_entry p (flatten state.symbol_table.buckets) ≡ true
        → state.symbols.cell p ≡ some symbol
        → (symbol' : Symbol) × (r.1.symbols.cell p ≡ some symbol')
          × IsLifetime p program 0 (reset_symbol symbol) symbol')
unfolding flatten
compute_symbols_lifetime-IsLifetime_example =
    compute_symbols_lifetime-IsLifetime runtime state program
      (0, 0, some 1, refl, refl, refl, (1, 1, none, refl, refl, refl, refl))
      ((symbol, refl), (symbol, refl), (symbol, refl), ((symbol, refl), tt, tt, tt))
      ((symbol, refl), ((symbol, refl), ((symbol, refl), tt))) (omega arith) (omega arith)

-- The points of a symbol after the two quads.
abbrev life_of : Ptr → Option (Point × Point × ℕ)
life_of p = elim (compute_symbols_lifetime runtime state) [
  | ok (_, s) ↦ elim (s.symbols.cell p) [
    | none ↦ none
    | some x ↦ some (x.start_point, x.end_point, x.life_time)
  ]
  | abort _ ↦ none
  | fault ↦ none
  | out_of_fuel ↦ none
]

abbrev lives : List (Option (Point × Point × ℕ))
lives = life_of 0 ∷ life_of 1 ∷ life_of 2 ∷ []

lives_runs :
    lives ≡ some (at 0, at 0, 0) ∷ some (at 0, at 1, 1) ∷ some (point_init, point_init, 0) ∷ []
unfolding reset_symbol first_point last_point touch extend_life reset_loop count life_loop
    compute_symbols_lifetime flatten
lives_runs = refl

-- The instructions are those of the quads, behind their labels.
one_each : (q : Ptr) → occurrences q (live (flatten state.symbol_table.buckets)) ≤ 1
unfolding flatten
one_each q = ground arith

all_present : ArePresent state.symbols (live (flatten state.symbol_table.buckets))
unfolding flatten
all_present zero lives = (symbol, refl)
all_present (suc zero) lives = (symbol, refl)
all_present (suc (suc zero)) lives = (symbol, refl)
all_present (suc (suc (suc q))) lives = absurd (ground arith)

abbrev raw_int : InitialValue → ℕ
raw_int v = 0

generate_code-Chunks_example :
    Returns (generate_code raw_int runtime sorted state) (Translated raw_int program state)
unfolding flatten
generate_code-Chunks_example =
    generate_code-Chunks runtime sorted sorted-IsPermuting raw_int state one_each all_present
      (omega arith) program (0, 0, some 1, refl, refl, refl, (1, 1, none, refl, refl, refl, refl))
      (
        record { res = omega arith; op1 = omega arith; op2 = omega arith; needs = (tt, tt, tt) },
        (record { res = omega arith; op1 = tt; op2 = tt; needs = tt }, tt),
      )
      (omega arith) (omega arith)
