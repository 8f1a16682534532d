-- ===== src/Actions/Operands/Tests.antt =====
-- The symbol table, declarations and arithmetic at a small state: the theorems there.
use matcc.Prelude.{
  ℕ, zero, suc, ◌≡◌, refl, false, Option, none, some, [], ◌∷◌, ok, abort, Returns, Text, codes,
  str_eq, str_eq_refl, arith, already_defined, if◌then◌else◌, ◌∙◌,
}
use matcc.HashTable.{HashTable, ht_ok, init}
use matcc.HashTable.Map.{IsValid, view, init-IsValid}
use matcc.Types.{Ptr, Symbol, int, float, indeterminate, point_init, add}
use matcc.Compiler.{Compiler, Runtime}
use matcc.Symbol.{user_name, temp_name}
use matcc.SymbolTable.{symbol_table_push, symbol_table_lookup, symbol_table_lookup_user}
use matcc.SymbolTable.Lookup.{
  reset_error, symbol_table_lookup-view, symbol_table_push-defined, symbol_table_push-Extends,
}
use matcc.QuadList.Segments.{IsList}
use matcc.Actions.Expressions.{declare, binary_arithmetic_op}
use matcc.Actions.Operands.{fresh_symbol, declare-Declared, binary_arithmetic_op-IsList}

abbrev a : Symbol
a = record {
  name = user_name (codes "a");
  type = int;
  initial_value = indeterminate;
  constant = false;
  matrix_size = record { height = 0; width = 0 };
  start_point = point_init;
  end_point = point_init;
  life_time = 0;
  size = 4;
  affected_register = none;
  stack_location = 0;
}

abbrev x : Symbol
x = record a { name = user_name (codes "x"); type = float }

abbrev runtime : Runtime
runtime = record { fuel = 50; raw_symbol = λ p. a }

-- Two symbols of different types, and the table of no name.
abbrev symbol_cell : ℕ → Option Symbol
symbol_cell zero = some a
symbol_cell (suc zero) = some x
symbol_cell (suc (suc _)) = none

abbrev no_cell {ℓ} : {A : Type ℓ} → ℕ → Option A
no_cell p = none

abbrev zeroed : HashTable Ptr
zeroed = record { size = 0; buckets = []; last_error = ht_ok }

empty-IsValid : IsValid (init zeroed 16)
empty-IsValid = (init-IsValid zeroed 16 (omega arith)).0

no_name : (q : Text) → view (init zeroed 16) q ≡ none
no_name = (init-IsValid zeroed 16 (omega arith)).2

abbrev state : Compiler
state = record {
  symbols = record { next = 2; cell = symbol_cell };
  quads = record { next = 0; cell = no_cell };
  nodes = record { next = 0; cell = no_cell };
  symbol_table = init zeroed 16;
  next_quad = 0;
  temps_count = 0;
  constants_count = 0;
  quad_list = none;
}

pushed :
    (table : HashTable Ptr) × (symbol_table_push 0 state
      ≡ ok (0, record state { symbol_table = table }))
    × IsValid table
    × ((q : Text) → view table q ≡ (if str_eq a.name q then some 0 else view state.symbol_table q))
pushed = symbol_table_push-Extends state empty-IsValid 0 a refl (no_name a.name)

-- The state in which `a` is defined.
abbrev defined : Compiler
defined = record state { symbol_table = pushed.0 }

a_defined : view defined.symbol_table a.name ≡ some 0
a_defined = pushed.3 a.name ∙ rw (str_eq_refl a.name)

lookup_finds : symbol_table_lookup a.name defined ≡ ok (some 0, reset_error defined)
lookup_finds = symbol_table_lookup-view defined pushed.2 a.name ∙ rw a_defined

symbol_table_push-defined_example : symbol_table_push 0 defined ≡ abort (already_defined a.name)
symbol_table_push-defined_example = symbol_table_push-defined defined pushed.2 0 a refl 0 a_defined

symbol_table_push-Extends_example :
    (table : HashTable Ptr) × (symbol_table_push 1 state
      ≡ ok (1, record state { symbol_table = table }))
    × IsValid table
    × ((q : Text) → view table q ≡ (if str_eq x.name q then some 1 else view state.symbol_table q))
symbol_table_push-Extends_example =
    symbol_table_push-Extends state empty-IsValid 1 x refl (no_name x.name)

declare-Declared_example : Returns (declare runtime float (codes "x") state) λ r.
    IsValid r.1.symbol_table
    × (r.1.symbols.cell r.0 ≡ some (fresh_symbol runtime state (user_name (codes "x")) float))
    × (symbol_table_lookup_user (codes "x") r.1 ≡ ok (some r.0, reset_error r.1))
    × ((q : Text)
        → str_eq (user_name (codes "x")) q ≡ false
        → view r.1.symbol_table q ≡ view state.symbol_table q)
declare-Declared_example =
    declare-Declared runtime state empty-IsValid float (codes "x") (no_name (user_name (codes "x")))

binary_arithmetic_op-IsList_example :
    Returns
      (binary_arithmetic_op runtime
        (record { code = some 3; symbol = some 0 })
        add
        (record { code = some 5; symbol = some 0 })
        state)
      λ r.
        IsList r.1.nodes r.0.code ((0, 0) ∷ [])
        × (r.1.quads.cell 0
            ≡ some (record { op = add; res = some 2; op1 = some 0; op2 = some 0; comment = none }))
        × (r.0.symbol ≡ some 2)
        × (r.1.symbols.cell 2 ≡ some (fresh_symbol runtime state (temp_name 0) int))
        × IsValid r.1.symbol_table
binary_arithmetic_op-IsList_example =
    binary_arithmetic_op-IsList runtime state empty-IsValid add (some 3) (some 5) 0 0 a a refl refl
      refl (no_name (temp_name 0))
