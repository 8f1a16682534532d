-- ===== src/Symbol.antt =====
-- src/symbol.c: new symbols and their names.
pub mod Names
mod Tests
use matcc.Prelude.{
  ℕ, ◌+◌, ◌%◌, ◌^◌, Bool, true, false, none, some, List, [], ◌∷◌, ◌++◌, Outcome, ok, abort, fault,
  out_of_fuel, Text,
}
use matcc.Format.{format_int, snprintf}
use matcc.Types.{Ptr, SymbolType, InitialValue, Symbol}
use matcc.Compiler.{Compiler, Runtime, M, pure, ◌>>=◌, ◌>>◌, alloc, symbol_at, set_symbol}

-- The buffers for the names are of 32 bytes.
abbrev pub buffer_size : ℕ
buffer_size = 32

-- `"_%s"`, `"tmp%d"` and `"cst%d"` in such a buffer.
unfoldable pub user_name : Text → Text
unfolding snprintf
user_name name = snprintf buffer_size (b'_' ∷ name)

unfoldable pub temp_name : ℕ → Text
unfolding snprintf format_int
temp_name count = snprintf buffer_size (b't' ∷ b'm' ∷ b'p' ∷ format_int count)

unfoldable pub constant_name : ℕ → Text
unfolding snprintf format_int
constant_name count = snprintf buffer_size (b'c' ∷ b's' ∷ b't' ∷ format_int count)

module _ (rt : Runtime) where
  -- `malloc` and the four assignments: the other fields keep what the block held.
  unfoldable pub symbol_new : Text → SymbolType → M Ptr
  symbol_new name type s =
      let p = s.symbols.next in
      ok (
        p,
        record s {
          symbols =
              alloc s.symbols
                (record (rt.raw_symbol p) { name = name; type = type; constant = false; size = 4 });
        },
      )

  unfoldable pub symbol_new_user : Text → SymbolType → M Ptr
  symbol_new_user name type = symbol_new (user_name name) type

  unfoldable pub symbol_new_temp : SymbolType → M Ptr
  symbol_new_temp type s =
      symbol_new (temp_name s.temps_count) type
        (record s { temps_count = (s.temps_count + 1) % 2 ^ 32 })

  -- The value and the mark are written after `symbol_new`.
  unfoldable pub symbol_new_const : SymbolType → InitialValue → M Ptr
  symbol_new_const type value s =
      (do
        p ← symbol_new (constant_name s.constants_count) type
        symbol ← symbol_at (some p)
        set_symbol p (record symbol { initial_value = value; constant = true })
        pure p)
        (record s { constants_count = (s.constants_count + 1) % 2 ^ 32 })
