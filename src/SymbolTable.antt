-- ===== src/SymbolTable.antt =====
-- src/symbol_table.c: the table of all symbols by name. The functions that print it are in `Printing`.
pub mod Lookup
pub mod Printing
use matcc.Prelude.{
  ℕ, Bool, true, false, Option, none, some, Outcome, ok, abort, fault, out_of_fuel, Text,
  already_defined, unknown_symbol, if◌then◌else◌,
}
use matcc.HashTable.{
  HashTable, HtError, ht_ok, ht_bad_size, ht_already_exists, ht_not_found, put, get,
  take_last_error,
}
use matcc.Types.{Ptr}
use matcc.Symbol.{user_name}
use matcc.Compiler.{Compiler, M, pure, ◌>>=◌, ◌>>◌, abort_parsing, lift, read, symbol_at}

-- The calls of the hash table on the global `symbol_table`.
unfoldable pub table_put : Text → Ptr → M (Unit {0})
table_put name p s =
    (do table ← lift (put s.symbol_table name p); λ s'. ok (tt, record s' { symbol_table = table }))
      s

unfoldable pub table_get : Text → M (Option Ptr)
table_get name s =
    (do
      (value, table) ← lift (get s.symbol_table name)
      λ s'. ok (value, record s' { symbol_table = table }))
      s

unfoldable pub table_last_error : M HtError
table_last_error s =
    let (error, table) = take_last_error s.symbol_table in
    ok (error, record s { symbol_table = table })

unfoldable pub is_already_exists : HtError → Bool
is_already_exists ht_already_exists = true
is_already_exists ht_ok = false
is_already_exists ht_bad_size = false
is_already_exists ht_not_found = false

unfoldable pub is_not_found : HtError → Bool
is_not_found ht_not_found = true
is_not_found ht_ok = false
is_not_found ht_bad_size = false
is_not_found ht_already_exists = false

unfoldable pub symbol_table_push : Ptr → M Ptr
symbol_table_push p = do
  symbol ← symbol_at (some p)
  table_put symbol.name p
  error ← table_last_error
  if is_already_exists error then abort_parsing (already_defined symbol.name) else pure p

unfoldable pub symbol_table_lookup : Text → M (Option Ptr)
symbol_table_lookup name = do
  value ← table_get name
  error ← table_last_error
  if is_not_found error then abort_parsing (unknown_symbol name) else pure value

unfoldable pub symbol_table_lookup_user : Text → M (Option Ptr)
symbol_table_lookup_user name = symbol_table_lookup (user_name name)
