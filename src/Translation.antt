-- ===== src/Translation.antt =====
-- src/mips/translation.c: the life times of symbols, `compute_symbols_lifetime`. A symbol lives from
-- the first quad that names it to the last one. The warning about a symbol that is not used is only
-- printed.
pub mod Intervals
pub mod Generate
pub mod Printing
pub mod Lifetime
pub mod Select
mod Tests
use matcc.Prelude.{
  ℕ, zero, suc, ◌+◌, ◌-◌, ◌^◌, Bool, true, false, Option, none, some, List, [], ◌∷◌, flatten,
  Outcome, fault, out_of_fuel, Text, ltb, ◌==◌, if◌then◌else◌,
}
use matcc.HashTable.{HashTable}
use matcc.Types.{Ptr, Point, point_init, at, Symbol}
use matcc.Compiler.{
  Compiler, Runtime, M, pure, ◌>>=◌, ◌>>◌, symbol_at, set_symbol, node_at, quad_at,
}

-- The three assignments that the first loop makes to a symbol.
unfoldable pub reset_symbol : Symbol → Symbol
reset_symbol symbol = record symbol {
  start_point = point_init;
  end_point = point_init;
  life_time = 0;
}

-- `start_point == POINT_INIT ? quad_counter : start_point`
pub first_point : Point → ℕ → ℕ
first_point point_init quad_counter = quad_counter
first_point (at n) quad_counter = n

-- `MAX(end_point, quad_counter)`, where POINT_INIT is less than the counter.
pub last_point : Point → ℕ → ℕ
last_point point_init quad_counter = quad_counter
last_point (at n) quad_counter = if ltb quad_counter n then n else quad_counter

-- What a quad does to a symbol that it names. Since every symbol is reset before, its start is never
-- behind the end, and the difference is that of integers.
unfoldable pub touch : ℕ → Symbol → Symbol
unfolding first_point last_point
touch quad_counter symbol =
    let first = first_point symbol.start_point quad_counter in
    let last = last_point symbol.end_point quad_counter in
    record symbol { start_point = at first; end_point = at last; life_time = last - first }

-- One of the three blocks for `res`, `op1` and `op2`.
unfoldable pub extend_life : ℕ → Option Ptr → M (Unit {0})
extend_life quad_counter none = pure tt
extend_life quad_counter (some p) = do
  symbol ← symbol_at (some p)
  set_symbol p (touch quad_counter symbol)

unfoldable pub reset_loop : List (Text × Ptr) → M (Unit {0})
reset_loop [] = pure tt
reset_loop ((name, p) ∷ entries) = do
  symbol ← symbol_at (some p)
  set_symbol p (reset_symbol symbol)
  reset_loop entries

-- `quad_counter` is an `int`: counting beyond it is undefined.
count : ℕ → M ℕ
count quad_counter s = if ltb (quad_counter + 1) (2 ^ 31) then pure (quad_counter + 1) s else fault

unfoldable pub life_loop : ℕ → Option Ptr → ℕ → M (Unit {0})
unfolding count
life_loop fuel none quad_counter s = pure tt s
life_loop zero (some p) quad_counter s = out_of_fuel
life_loop (suc fuel) (some p) quad_counter s =
    (do
      node ← node_at (some p)
      quad ← quad_at (some node.quad)
      extend_life quad_counter quad.res
      extend_life quad_counter quad.op1
      extend_life quad_counter quad.op2
      next ← count quad_counter
      life_loop fuel node.successor next)
      s

-- `for_each_symbol` visits the chains of the table one behind the other.
unfoldable pub compute_symbols_lifetime : Runtime → M (Unit {0})
compute_symbols_lifetime rt s =
    (do reset_loop (flatten s.symbol_table.buckets); life_loop rt.fuel s.quad_list 0) s
