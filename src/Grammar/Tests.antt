-- ===== src/Grammar/Tests.antt =====
-- A declaration and two expressions at the start of the parser, and the theorems there.
use matcc.Prelude.{◌≡◌, refl, false, none, [], Returns, Text, codes, arith}
use matcc.HashTable.{HashTable, ht_ok, init}
use matcc.HashTable.Map.{view, init-IsValid}
use matcc.Types.{Ptr, int, indeterminate, point_init}
use matcc.Compiler.{Store, Compiler, Runtime}
use matcc.Actions.Expressions.{declare}
use matcc.Grammar.{plus, times, Expression, integerconst, negated, computed, expression}
use matcc.Grammar.Environment.{IsEnvironment}
use matcc.Grammar.Making.{HasType}
use matcc.Grammar.Declaring.{Declared, declare-IsEnvironment}
use matcc.Grammar.Typing.{expression-Checked}

module _ {A : Type 0} where
  abbrev empty : Store A
  empty = record { next = 0; cell = λ p. none }

abbrev runtime : Runtime
runtime = record {
  fuel = 9;
  raw_symbol = λ p. record {
    name = [];
    type = int;
    initial_value = indeterminate;
    constant = false;
    matrix_size = record { height = 0; width = 0 };
    start_point = point_init;
    end_point = point_init;
    life_time = 0;
    size = 0;
    affected_register = none;
    stack_location = 0;
  };
}

abbrev unset : HashTable Ptr
unset = record { size = 0; buckets = []; last_error = ht_ok }

abbrev start : Compiler
start = record {
  symbols = empty;
  quads = empty;
  nodes = empty;
  symbol_table = init unset 16;
  next_quad = 0;
  temps_count = 0;
  constants_count = 0;
  quad_list = none;
}

is_new : (q : Text) → view start.symbol_table q ≡ none
is_new = (init-IsValid unset 16 (omega arith)).2

start-IsEnvironment : IsEnvironment start
start-IsEnvironment = record {
  valid = (init-IsValid unset 16 (omega arith)).0;
  store = record { free = λ p le. refl };
  present = λ name p found. absurd (cc (found, is_new name));
  temps = λ n _ _. is_new _;
  constants = λ n _ _. is_new _;
}

declare-IsEnvironment_example :
    Returns (declare runtime int (codes "x") start) (Declared start int (codes "x"))
declare-IsEnvironment_example =
    declare-IsEnvironment runtime start start-IsEnvironment int (codes "x") (is_new _)

-- 1 + 2 * -3
abbrev sum : Expression
sum = computed (integerconst 1) plus (computed (integerconst 2) times (negated (integerconst 3)))

expression-Checked_example : Returns (expression runtime 0 sum start) (HasType 6 start int)
expression-Checked_example =
    expression-Checked runtime 0 sum start start-IsEnvironment (omega arith) (omega arith)
