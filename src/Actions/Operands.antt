-- ===== src/Actions/Operands.antt =====
-- src/parsing/actions.c: declarations and binary arithmetic, with what they add to the symbol
-- table.
mod Tests
use matcc.Prelude.{
  ℕ, ◌+◌, ◌%◌, ◌^◌, ◌≡◌, refl, sym, ◌∙◌, ap, Bool, true, false, Option, none, some, [], ◌∷◌,
  Outcome, ok, abort, Returns, Text, str_eq, str_eq_refl, arith, already_defined,
  types_do_not_match, ◌==◌, if◌then◌else◌,
}
use matcc.HashTable.Map.{IsValid, view}
use matcc.Types.{Ptr, SymbolType, Symbol, Quad, QuadOp, Node}
use matcc.Compiler.{
  Store, Compiler, Runtime, M, ◌>>=◌, ◌>>◌, pure, read, symbol_at, abort_parsing, alloc, IsStore,
}
use matcc.Symbol.{user_name, temp_name, symbol_new, symbol_new_user, symbol_new_temp}
use matcc.SymbolTable.{symbol_table_push, symbol_table_lookup_user}
use matcc.SymbolTable.Lookup.{
  reset_error, symbol_table_lookup-view, symbol_table_push-defined, symbol_table_push-Extends,
}
use matcc.Quad.{quad_new}
use matcc.QuadList.{quad_list_new}
use matcc.QuadList.Segments.{IsList}
use matcc.Actions.Expressions.{
  ExprAttr, type_index, ensure_type_match, declare, unary_arithmetic_op, binary_arithmetic_op,
}

-- The symbol that `symbol_new` makes.
abbrev pub fresh_symbol : Runtime → Compiler → Text → SymbolType → Symbol
fresh_symbol rt s name type = record (rt.raw_symbol s.symbols.next) {
  name = name;
  type = type;
  constant = false;
  size = 4;
}

abbrev pub with_symbol : Compiler → Symbol → Compiler
with_symbol s symbol = record s { symbols = alloc s.symbols symbol }

alloc-here : {A : Type 0} (h : Store A) (a : A) → (alloc h a).cell h.next ≡ some a
alloc-here h a = let same : (h.next == h.next) ≡ true = ground arith in rw same

module _ (rt : Runtime) (s : Compiler) (valid : IsValid s.symbol_table) (type : SymbolType)
    (name : Text) where
  -- With a valid table, a declaration of a new name succeeds; the name then means the declared symbol, which has the
  -- declared type and is no constant, and every other name means what it meant.
  pub declare-Declared :
      view s.symbol_table (user_name name) ≡ none
      → Returns (declare rt type name s) λ r.
        IsValid r.1.symbol_table
        × (r.1.symbols.cell r.0 ≡ some (fresh_symbol rt s (user_name name) type))
        × (symbol_table_lookup_user name r.1 ≡ ok (some r.0, reset_error r.1))
        × ((q : Text)
            → str_eq (user_name name) q ≡ false
            → view r.1.symbol_table q ≡ view s.symbol_table q)
  unfolding declare symbol_new_user symbol_new symbol_table_lookup_user
  declare-Declared new =
      let symbol = fresh_symbol rt s (user_name name) type in
      let here = alloc-here s.symbols symbol in
      let (table, run, is, map) =
        symbol_table_push-Extends (with_symbol s symbol) valid s.symbols.next symbol here new in
      let s' = record (with_symbol s symbol) { symbol_table = table } in
      (
        (s.symbols.next, s'),
        rw (◌>>=◌, run),
        (
          is,
          here,
          rw (
            symbol_table_lookup-view s' is (user_name name),
            map (user_name name),
            str_eq_refl (user_name name),
          ),
          λ q other. rw (map q, other),
        ),
      )

  -- With a valid table, a declaration of a name that the table has ends the process with an error.
  pub declare-defined :
      (w : Ptr)
      → view s.symbol_table (user_name name) ≡ some w
      → declare rt type name s ≡ abort (already_defined (user_name name))
  unfolding declare symbol_new_user symbol_new
  declare-defined w e =
      let symbol = fresh_symbol rt s (user_name name) type in
      rw (
        ◌>>=◌,
        symbol_table_push-defined (with_symbol s symbol) valid s.symbols.next symbol
            (alloc-here s.symbols symbol) w e,
      )

-- Arithmetic on two symbols of the table of symbols.
module _ (rt : Runtime) (s : Compiler) (valid : IsValid s.symbol_table) (op : QuadOp)
    (c1 c2 : Option Ptr) (p1 p2 : Ptr) (s1 s2 : Symbol) (here1 : s.symbols.cell p1 ≡ some s1)
    (here2 : s.symbols.cell p2 ≡ some s2) where
  abbrev operation : M ExprAttr
  operation =
      binary_arithmetic_op rt (record { code = c1; symbol = some p1 }) op
        (record { code = c2; symbol = some p2 })

  -- Operands that are symbols of different types end the process with an error.
  pub binary_arithmetic_op-types_do_not_match :
      (type_index s1.type == type_index s2.type) ≡ false
      → operation s ≡ abort (types_do_not_match s1.name s2.name)
  unfolding binary_arithmetic_op ensure_type_match
  binary_arithmetic_op-types_do_not_match differ = rw (◌>>=◌, ◌>>◌, here1, here2, differ)

  -- With a valid table that does not have the name of the next temporary, an operation on operands
  -- that are symbols of one type gives a new temporary of that type, and as its code one
  -- new quad. The code of the operands, whatever it is, is not in that code.
  pub binary_arithmetic_op-IsList :
      (type_index s1.type == type_index s2.type) ≡ true
      → view s.symbol_table (temp_name s.temps_count) ≡ none
      → Returns (operation s) λ r.
        IsList r.1.nodes r.0.code ((s.nodes.next, s.quads.next) ∷ [])
        × (r.1.quads.cell s.quads.next
            ≡ some (record {
              op = op;
              res = some s.symbols.next;
              op1 = some p1;
              op2 = some p2;
              comment = none;
            }))
        × (r.0.symbol ≡ some s.symbols.next)
        × (r.1.symbols.cell s.symbols.next
            ≡ some (fresh_symbol rt s (temp_name s.temps_count) s1.type))
        × IsValid r.1.symbol_table
  unfolding binary_arithmetic_op ensure_type_match symbol_new_temp symbol_new quad_new quad_list_new
  binary_arithmetic_op-IsList same new =
      let symbol = fresh_symbol rt s (temp_name s.temps_count) s1.type in
      let quad : Quad = record {
        op = op;
        res = some s.symbols.next;
        op1 = some p1;
        op2 = some p2;
        comment = none;
      } in
      let node : Node = record { quad = s.quads.next; successor = none } in
      let made = record s {
        symbols = alloc s.symbols symbol;
        quads = alloc s.quads quad;
        nodes = alloc s.nodes node;
        next_quad = (s.next_quad + 1) % 2 ^ 32;
        temps_count = (s.temps_count + 1) % 2 ^ 32;
      } in
      let (table, run, is, _) =
        symbol_table_push-Extends made valid s.symbols.next symbol (alloc-here s.symbols symbol)
          new in
      (
        (
          record { code = some s.nodes.next; symbol = some s.symbols.next },
          record made { symbol_table = table },
        ),
        rw (◌>>=◌, ◌>>◌, here1, here2, same, here1, run),
        (
          ((refl, (none, alloc-here s.nodes node, refl)), (refl, tt)),
          alloc-here s.quads quad,
          refl,
          alloc-here s.symbols symbol,
          is,
        ),
      )
