-- ===== src/Grammar/Making.antt =====
-- src/parsing/actions.c: the actions that make and enter one constant or one temporary.
use matcc.Prelude.{
  ok, ℕ, suc, ◌+◌, ◌%◌, ◌^◌, ◌≤◌, ◌<◌, ◌≡◌, refl, true, false, Option, none, some, Returns, Text,
  str_eq, arith, ◌==◌,
}
use matcc.HashTable.{HashTable}
use matcc.HashTable.Map.{IsValid, view}
use matcc.Types.{Ptr, SymbolType, Symbol, InitialValue, QuadOp, Quad, Node}
use matcc.Compiler.{Compiler, Runtime, M, pure, ◌>>=◌, ◌>>◌, alloc, write, read}
use matcc.Symbol.{
  user_name, temp_name, constant_name, symbol_new, symbol_new_temp, symbol_new_const,
}
use matcc.SymbolTable.{symbol_table_push}
use matcc.SymbolTable.Lookup.{symbol_table_push-Extends}
use matcc.Quad.{quad_new}
use matcc.QuadList.{quad_list_new}
use matcc.Actions.Expressions.{ExprAttr, declare_constant}
use matcc.Grammar.Environment.{
  IsEnvironment, Later, str_eq-temp_user, str_eq-constant_user, str_eq-temp_constant,
  str_eq-constant_temp, str_eq-temps, str_eq-constants,
}
use matcc.Grammar.Entering.{Entered, IsApart, Entered-Later}

-- The action returns a symbol of the type, and the state is a later one.
pub record HasType (n : ℕ) (s : Compiler) (type : SymbolType) (r : ExprAttr × Compiler)
    : Type 0 where
  pub pointer : Ptr
  pub value : Symbol
  pub returned : r.0.symbol ≡ some pointer
  pub cell : r.1.symbols.cell pointer ≡ some value
  pub typed : value.type ≡ type
  pub later : Later n s r.1

-- A state with a new symbol `x` that is not entered yet, before `symbol_table_push`.
pub record IsMade (s made : Compiler) (x : Symbol) : Type 0 where
  pub same_table : made.symbol_table ≡ s.symbol_table
  pub next : made.symbols.next ≡ s.symbols.next + 1
  pub here : made.symbols.cell s.symbols.next ≡ some x
  pub others : (p : Ptr) → (s.symbols.next == p) ≡ false → made.symbols.cell p ≡ s.symbols.cell p
  pub new : view s.symbol_table x.name ≡ none
  pub apart : IsApart made x.name
  pub users : (user : Text) → str_eq x.name (user_name user) ≡ false
  pub temps : (s.temps_count ≤ made.temps_count) × (made.temps_count ≤ s.temps_count + 1)
  pub constants :
      (s.constants_count ≤ made.constants_count) × (made.constants_count ≤ s.constants_count + 1)

module _ (s : Compiler) (env : IsEnvironment s) where
  -- The symbol is entered, and is of its type.
  push-HasType :
      (made : Compiler) (x : Symbol) (code : Option Ptr)
      → IsMade s made x
      → (table : HashTable Ptr) × (symbol_table_push s.symbols.next made
          ≡ ok (s.symbols.next, record made { symbol_table = table }))
        × HasType 1 s x.type (
          record { code = code; symbol = some s.symbols.next },
          record made { symbol_table = table },
        )
  push-HasType made x code m =
      let valid : IsValid made.symbol_table = rw m.same_table env.valid in
      let new : view made.symbol_table x.name ≡ none = rw m.same_table m.new in
      let (table, run, valid', map) =
        symbol_table_push-Extends made valid s.symbols.next x m.here new in
      let s' : Compiler = record made { symbol_table = table } in
      let entered : Entered s s' x = record {
        valid = valid';
        next = m.next;
        here = m.here;
        others = m.others;
        map = λ q. rw (← m.same_table) (map q);
      } in
      (
        table,
        run,
        record {
          pointer = s.symbols.next;
          value = x;
          returned = refl;
          cell = m.here;
          typed = refl;
          later =
              Entered-Later s s' x env entered
                (record { temps = m.apart.temps; constants = m.apart.constants }) m.temps.0
                m.temps.1 m.constants.0 m.constants.1 m.users;
        },
      )

module _ (rt : Runtime) (s : Compiler) (env : IsEnvironment s) where
  abbrev fresh : Text → SymbolType → Symbol
  fresh name type = record (rt.raw_symbol s.symbols.next) {
    name = name;
    type = type;
    constant = false;
    size = 4;
  }

  self : (s.symbols.next == s.symbols.next) ≡ true
  self = ground arith

  pub declare_constant-HasType :
      (type : SymbolType) (value : InitialValue)
      → suc s.constants_count < 2 ^ 32
      → Returns (declare_constant rt type value s) (HasType 1 s type)
  unfolding declare_constant symbol_new_const symbol_new
  declare_constant-HasType type value room =
      let p = s.symbols.next in
      let k = s.constants_count in
      let small : (k + 1) % 2 ^ 32 ≡ k + 1 = omega arith in
      let x = fresh (constant_name k) type in
      let x' : Symbol = record x { initial_value = value; constant = true } in
      let made : Compiler = record s {
        symbols = write (alloc s.symbols x) p x';
        constants_count = (k + 1) % 2 ^ 32;
      } in
      let (table, run, h) = push-HasType s env made x' none (record {
        same_table = refl;
        next = refl;
        here = rw self refl;
        others = λ q other. rw other refl;
        new = env.constants k (omega arith) (omega arith);
        apart = record {
          temps = λ n _ _. str_eq-constant_temp k n;
          constants = λ n le n_small. str_eq-constants k n (omega (arith, small)) n_small;
        };
        users = str_eq-constant_user k;
        temps = (omega arith, omega arith);
        constants = (omega (arith, small), omega (arith, small));
      }) in
      (
        (record { code = none; symbol = some p }, record made { symbol_table = table }),
        rw (◌>>=◌, ◌>>◌, read, self, run) refl,
        h,
      )

  -- The part that `unary_arithmetic_op` and `binary_arithmetic_op` share.
  abbrev pub with_temp : SymbolType → QuadOp → Option Ptr → Option Ptr → M ExprAttr
  with_temp type op op1 op2 = do
    t ← symbol_new_temp rt type
    q ← quad_new op (some t) op1 op2
    l ← quad_list_new q
    _ ← symbol_table_push t
    pure (record { code = some l; symbol = some t })

  pub with_temp-HasType :
      (type : SymbolType) (op : QuadOp) (op1 op2 : Option Ptr)
      → suc s.temps_count < 2 ^ 32
      → Returns (with_temp type op op1 op2 s) (HasType 1 s type)
  unfolding symbol_new_temp symbol_new quad_new quad_list_new
  with_temp-HasType type op op1 op2 room =
      let p = s.symbols.next in
      let k = s.temps_count in
      let small : (k + 1) % 2 ^ 32 ≡ k + 1 = omega arith in
      let x = fresh (temp_name k) type in
      let quad : Quad = record { op = op; res = some p; op1 = op1; op2 = op2; comment = none } in
      let node : Node = record { quad = s.quads.next; successor = none } in
      let made : Compiler = record s {
        symbols = alloc s.symbols x;
        quads = alloc s.quads quad;
        nodes = alloc s.nodes node;
        next_quad = (s.next_quad + 1) % 2 ^ 32;
        temps_count = (k + 1) % 2 ^ 32;
      } in
      let (table, run, h) = push-HasType s env made x (some s.nodes.next) (record {
        same_table = refl;
        next = refl;
        here = rw self refl;
        others = λ q other. rw other refl;
        new = env.temps k (omega arith) (omega arith);
        apart = record {
          temps = λ n le n_small. str_eq-temps k n (omega (arith, small)) n_small;
          constants = λ n _ _. str_eq-temp_constant k n;
        };
        users = str_eq-temp_user k;
        temps = (omega (arith, small), omega (arith, small));
        constants = (omega arith, omega arith);
      }) in
      (
        (
          record { code = some s.nodes.next; symbol = some p },
          record made { symbol_table = table },
        ),
        rw (◌>>=◌, ◌>>◌, run) refl,
        h,
      )
