-- ===== src/Grammar/Leaves.antt =====
-- src/parsing/parser.y: the expressions that are a variable or a matrix constant.
use matcc.Prelude.{
  ℕ, suc, ◌^◌, ◌<◌, ◌≡◌, refl, Option, none, some, List, [], ◌∷◌, Outcome, ok, abort,
  unknown_symbol, row_size, Text, length, arith,
}
use matcc.Matrix.{Float, Matrix, float_array_list, float_list}
use matcc.Matrix.Literals.{
  row_of, rows_of, ragged, Literal, float_list-Holds, float_array_list-Literal,
}
use matcc.HashTable.Map.{view}
use matcc.Types.{Ptr, matrix, Symbol, matrixval}
use matcc.Compiler.{Compiler, Runtime, pure, ◌>>=◌, lift}
use matcc.Symbol.{user_name}
use matcc.SymbolTable.{symbol_table_lookup_user}
use matcc.SymbolTable.Lookup.{reset_error, symbol_table_lookup-view}
use matcc.Actions.Expressions.{declare_matrix_constant}
use matcc.Grammar.{
  FloatMatrix, one_row, several_rows, matrixconst, identifier, float_matrix, expression,
}
use matcc.Grammar.Environment.{type_at, types_in, IsEnvironment, Later}
use matcc.Grammar.Making.{declare_constant-HasType}
use matcc.Grammar.TypeOf.{width_error, type_of_matrix, Checked}

module _ (rt : Runtime) (junk : Float) where
  rows-Checked :
      (o : Option ℕ) (r : Outcome Matrix) (rows : List (List Float)) (w : ℕ) (s : Compiler)
      → Literal r rows w o
      → IsEnvironment s
      → suc s.constants_count < 2 ^ 32
      → Checked 1 s (type_of_matrix o) ((lift r >>= declare_matrix_constant rt) s)
  unfolding declare_matrix_constant
  rows-Checked none r rows w s (m, run, _) env room =
      rw (run, ◌>>=◌, lift) (declare_constant-HasType rt s env matrix (matrixval m) room)
  rows-Checked (some width) r rows w s e env room = rw (e, ◌>>=◌, lift) (row_size width w, refl)

  pub matrix-Checked :
      (m : FloatMatrix) (s : Compiler)
      → IsEnvironment s
      → suc s.constants_count < 2 ^ 32
      → Checked 1 s (type_of_matrix (width_error m)) (expression rt junk (matrixconst m) s)
  unfolding expression float_matrix
  matrix-Checked (one_row v vs) s env room =
      let (m, run, holds) = float_list-Holds junk v vs in
      rows-Checked none (float_list junk v vs) (row_of (v, vs) ∷ []) 0 s (m, run, holds) env room
  matrix-Checked (several_rows row rows) s env room =
      rows-Checked (ragged (length (row_of row)) rows) (float_array_list junk row rows)
        (rows_of (row ∷ rows)) (length (row_of row)) s (float_array_list-Literal junk row rows) env
        room

  reset_error-Later : (s : Compiler) → IsEnvironment s → Later 0 s (reset_error s)
  unfolding view
  reset_error-Later s env = record {
    environment = record {
      valid = record {
        positive = env.valid.positive;
        width = env.valid.width;
        homes = env.valid.homes;
      };
      store = env.store;
      present = env.present;
      temps = env.temps;
      constants = env.constants;
    };
    symbols = λ p x here. here;
    types = λ name. refl;
    temps = omega arith;
    constants = omega arith;
  }

  found-Checked :
      (o : Option Ptr) (name : Text) (s : Compiler)
      → ((p : Ptr) → o ≡ some p → (x : Symbol) × (s.symbols.cell p ≡ some x))
      → IsEnvironment s
      → Checked 0 s (type_at s.symbols o) (
          ((λ t. elim o [
            | none ↦ abort (unknown_symbol name)
            | some p ↦ ok (some p, reset_error t)
          ])
              >>= λ p. pure (record { code = none; symbol = p }))
            s)
  found-Checked none name s there env = (unknown_symbol name, refl)
  found-Checked (some p) name s there env =
      let (x, at_p) = there p refl in
      rw (type_at, at_p)
        (
          (record { code = none; symbol = some p }, reset_error s),
          refl,
          record {
            pointer = p;
            value = x;
            returned = refl;
            cell = at_p;
            typed = refl;
            later = reset_error-Later s env;
          },
        )

  pub identifier-Checked :
      (name : Text) (s : Compiler)
      → IsEnvironment s
      → Checked 0 s (types_in s name) (expression rt junk (identifier name) s)
  unfolding expression symbol_table_lookup_user
  identifier-Checked name s env =
      rw (◌>>=◌, symbol_table_lookup-view s env.valid (user_name name))
        (found-Checked (view s.symbol_table (user_name name)) (user_name name) s
          (env.present (user_name name)) env)
