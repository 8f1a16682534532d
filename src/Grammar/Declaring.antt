-- ===== src/Grammar/Declaring.antt =====
-- src/parsing/actions.c: `declare` on the symbol table of src/parsing/parser.y, and the table at the
-- start.
use matcc.Prelude.{
  ◌≡◌, refl, ◌∙◌, true, false, Bool-cases, inl, inr, none, some, Returns, Text, str_eq, arith, ◌==◌,
  if◌then◌else◌,
}
use matcc.HashTable.Map.{view}
use matcc.Types.{Ptr, SymbolType, Symbol}
use matcc.Compiler.{Compiler, Runtime, ◌>>=◌, alloc}
use matcc.Symbol.{user_name, symbol_new, symbol_new_user}
use matcc.SymbolTable.Lookup.{symbol_table_push-Extends}
use matcc.Actions.Expressions.{declare}
use matcc.Grammar.Environment.{
  type_at, types_in, IsEnvironment, str_eq-user_temp, str_eq-user_constant,
}
use matcc.Grammar.Entering.{Entered, IsApart, Entered-IsEnvironment, types_in-Entered}

-- The name has the type, and every other name the type that it had.
pub record Declared (s : Compiler) (type : SymbolType) (name : Text) (r : Ptr × Compiler)
    : Type 0 where
  pub environment : IsEnvironment r.1
  pub types :
      (other : Text)
      → types_in r.1 other
        ≡ (if str_eq (user_name name) (user_name other) then some type else types_in s other)

module _ (rt : Runtime) (s : Compiler) (env : IsEnvironment s) where
  -- In a table whose names are those of symbols, none of a temporary or constant to come, a
  -- declaration of a new name ends normally; the name then has the declared type, every other name
  -- the type that it had, and the names of the temporaries and constants to come are still new.
  pub declare-IsEnvironment :
      (type : SymbolType) (name : Text)
      → view s.symbol_table (user_name name) ≡ none
      → Returns (declare rt type name s) (Declared s type name)
  unfolding declare symbol_new_user symbol_new
  declare-IsEnvironment type name new =
      let p = s.symbols.next in
      let x : Symbol = record (rt.raw_symbol p) {
        name = user_name name;
        type = type;
        constant = false;
        size = 4;
      } in
      let self : (p == p) ≡ true = ground arith in
      let made : Compiler = record s { symbols = alloc s.symbols x } in
      let here : made.symbols.cell p ≡ some x = rw self refl in
      let (table, run, valid, map) = symbol_table_push-Extends made env.valid p x here new in
      let s' : Compiler = record made { symbol_table = table } in
      let entered : Entered s s' x = record {
        valid = valid;
        next = refl;
        here = here;
        others = λ q other. rw other refl;
        map = map;
      } in
      let apart : IsApart s' (user_name name) = record {
        temps = λ n _ _. str_eq-user_temp name n;
        constants = λ n _ _. str_eq-user_constant name n;
      } in
      (
        (p, s'),
        rw (◌>>=◌, run) refl,
        record {
          environment =
              Entered-IsEnvironment s s' x env entered apart (omega arith) (omega arith)
                (omega arith) (omega arith);
          types = λ other. elim (Bool-cases (str_eq (user_name name) (user_name other))) [
            | inl same ↦ rw (types_in, map (user_name other), same, type_at, here) refl
            | inr differ ↦
                types_in-Entered s s' x env entered apart (omega arith) (omega arith) (omega arith)
                  (omega arith) other differ
                ∙ rw differ refl
          ];
        },
      )
