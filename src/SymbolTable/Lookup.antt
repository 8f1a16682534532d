-- ===== src/SymbolTable/Lookup.antt =====
-- src/symbol_table.c: `symbol_table_push` and `symbol_table_lookup` as operations on the map
-- that the hash table stands for.
use matcc.Prelude.{
  ◌≡◌, none, some, ok, abort, Text, str_eq, already_defined, unknown_symbol, Option-cases, inl, inr,
  if◌then◌else◌,
}
use matcc.HashTable.{HashTable, ht_ok, take_last_error}
use matcc.HashTable.Map.{IsValid, view, get-view, put-already_exists, put-Extends}
use matcc.Types.{Ptr, Symbol}
use matcc.Compiler.{Compiler, ◌>>=◌, ◌>>◌, lift, read}
use matcc.SymbolTable.{
  symbol_table_push, symbol_table_lookup, table_put, table_get, table_last_error, is_already_exists,
  is_not_found,
}

-- The state with the error of the table read.
abbrev pub reset_error : Compiler → Compiler
reset_error s = record s { symbol_table = record s.symbol_table { last_error = ht_ok } }

module _ (s : Compiler) (valid : IsValid s.symbol_table) where
  -- `symbol_table_lookup` returns the symbol of the name, and ends the process on a name that the
  -- table does not have.
  pub symbol_table_lookup-view :
      (name : Text)
      → symbol_table_lookup name s ≡ elim (view s.symbol_table name) [
        | none ↦ abort (unknown_symbol name)
        | some p ↦ ok (some p, reset_error s)
      ]
  unfolding symbol_table_lookup table_get table_last_error is_not_found take_last_error
  symbol_table_lookup-view name =
      rw (get-view s.symbol_table name valid, ◌>>=◌, lift)
        (elim (Option-cases (view s.symbol_table name)) [ inl e ↦ rw e | inr (v, e) ↦ rw e ])

  module _ (p : Ptr) (symbol : Symbol) (here : s.symbols.cell p ≡ some symbol) where
    -- `symbol_table_push` of a name that is there ends the process with an error.
    pub symbol_table_push-defined :
        (w : Ptr)
        → view s.symbol_table symbol.name ≡ some w
        → symbol_table_push p s ≡ abort (already_defined symbol.name)
    unfolding symbol_table_push table_put table_last_error is_already_exists take_last_error
    symbol_table_push-defined w e =
        rw (here, ◌>>=◌, ◌>>◌, read, put-already_exists s.symbol_table symbol.name valid p w e)

    -- `symbol_table_push` of a symbol with a new name returns the symbol and changes nothing but the
    -- table, which stays valid and has the name added to its map and nothing else.
    pub symbol_table_push-Extends :
        view s.symbol_table symbol.name ≡ none
        → (table : HashTable Ptr) × (symbol_table_push p s
            ≡ ok (p, record s { symbol_table = table }))
          × IsValid table
          × ((q : Text)
              → view table q ≡ (if str_eq symbol.name q then some p else view s.symbol_table q))
    unfolding symbol_table_push table_put table_last_error is_already_exists take_last_error view
    symbol_table_push-Extends new =
        let (table, run, (is, error, map, _)) =
          put-Extends s.symbol_table symbol.name valid p new in
        (
          record table { last_error = ht_ok },
          rw (here, ◌>>=◌, ◌>>◌, read, run, error),
          record { positive = is.positive; width = is.width; homes = is.homes },
          map,
        )
