-- ===== src/Registers.antt =====
-- src/mips/register_allocation.c and src/mips/symbol_array.c: linear scan over the symbols, with an
-- array of registers and the array of the symbols that live at the moment. Messages are only
-- printed. `qsort` is a parameter.
pub mod Expire
pub mod InsertionSort
pub mod Kept
pub mod Pool
pub mod Scan
pub mod Steps
pub mod Whole
mod Tests
use matcc.Prelude.{
  ℕ, zero, suc, ◌+◌, ◌%◌, ◌^◌, Bool, true, false, not, Option, none, some, List, [], ◌∷◌, ◌++◌,
  flatten, Outcome, ok, abort, fault, out_of_fuel, ◌>>=◌, Text, length, get_elem?, set, replicate,
  ltb, if◌then◌else◌,
}
use matcc.Types.{Ptr, Point, point_init, at, Symbol}
use matcc.Compiler.{Store, write}
use matcc.HashTable.{HashTable}

abbrev pub max_registers : ℕ
max_registers = 8

-- The global variables of the allocation, and the symbols. `current_stack_location` is the distance
-- below the start of the stack, modulo 2 ^ 32.
pub record Allocator : Type 0 where
  pub symbols : Store Symbol
  pub registers : List (Option Ptr)
  pub active_symbols : List Ptr
  pub current_stack_location : ℕ

abbrev pub symbol_array_push : List Ptr → Ptr → List Ptr
symbol_array_push array p = array ++ p ∷ []

-- An index out of bounds moves a negative number of bytes.
unfoldable pub symbol_array_remove : List Ptr → ℕ → Outcome (List Ptr)
symbol_array_remove [] index = fault
symbol_array_remove (p ∷ array) zero = ok array
symbol_array_remove (p ∷ array) (suc index) =
    symbol_array_remove array index >>= λ rest. ok (p ∷ rest)

abbrev pub point_ltb : Point → Point → Bool
point_ltb point_init point_init = false
point_ltb point_init (at n) = true
point_ltb (at m) point_init = false
point_ltb (at m) (at n) = ltb m n

abbrev pub symbol_of : Store Symbol → Ptr → Outcome Symbol
symbol_of h p = elim (h.cell p) [ none ↦ fault | some symbol ↦ ok symbol ]

abbrev pub element : {A : Type 0} → List A → ℕ → Outcome A
element xs i = elim (get_elem? xs i) [ none ↦ fault | some x ↦ ok x ]

-- What the comparing functions subtract: the point of the symbol. Every address in the two arrays is
-- that of a symbol.
abbrev pub point_of : (Symbol → Point) → Store Symbol → Ptr → Point
point_of point h p = elim (h.cell p) [ none ↦ point_init | some symbol ↦ point symbol ]

abbrev pub start_of : Store Symbol → Ptr → Point
start_of h p = point_of (λ symbol. symbol.start_point) h p

abbrev pub end_of : Store Symbol → Ptr → Point
end_of h p = point_of (λ symbol. symbol.end_point) h p

unfoldable pub first_free : List (Option Ptr) → ℕ → Option ℕ
first_free [] i = none
first_free (none ∷ registers) i = some i
first_free (some _ ∷ registers) i = first_free registers (i + 1)

-- `none` is REGISTER_NONE.
unfoldable pub next_free_register : Allocator → Option ℕ
next_free_register s = first_free s.registers 0

-- The register REGISTER_NONE is out of the bounds of the array.
unfoldable pub assign_register : Option ℕ → Ptr → Allocator → Outcome Allocator
assign_register none p s = fault
assign_register (some reg) p s = do
  holder ← element s.registers reg
  symbol ← symbol_of s.symbols p
  ok (elim holder [
    | some _ ↦ s
    | none ↦ record s {
      registers = set s.registers reg (some p);
      symbols = write s.symbols p (record symbol { affected_register = some reg });
    }
  ])

unfoldable pub free_register : Option ℕ → Allocator → Outcome Allocator
free_register none s = fault
free_register (some reg) s = do
  holder ← element s.registers reg
  ok (elim holder [ none ↦ s | some _ ↦ record s { registers = set s.registers reg none } ])

-- A size is subtracted as a `size_t` and the result kept as an `int`.
pub new_stack_location : ℕ → Allocator → ℕ × Allocator
new_stack_location size s =
    let location = (s.current_stack_location + size) % 2 ^ 32 in
    (location, record s { current_stack_location = location })

-- The second loop of `generate_live_symbols`.
unfoldable pub forget_registers : List (Text × Ptr) → Store Symbol → Outcome (Store Symbol)
forget_registers [] h = ok h
forget_registers ((_, p) ∷ entries) h = do
  symbol ← symbol_of h p
  forget_registers entries (write h p (record symbol { affected_register = none }))

abbrev pub live : List (Text × Ptr) → List Ptr
live [] = []
live ((_, p) ∷ entries) = p ∷ live entries

module _ (qsort : (Ptr → Point) → List Ptr → List Ptr) where
  unfoldable pub sort_active_symbols : Allocator → Allocator
  sort_active_symbols s = record s { active_symbols = qsort (end_of s.symbols) s.active_symbols }

  -- The symbol at the index `j` has ended before `start`.
  unfoldable pub expired : ℕ → Point → Allocator → Outcome Bool
  expired j start s = do
    p ← element s.active_symbols j
    symbol ← symbol_of s.symbols p
    ok (point_ltb symbol.end_point start)

  -- The symbol at the index `j` gives its register back and is removed.
  unfoldable pub expire_one : ℕ → Allocator → Outcome Allocator
  expire_one j s = do
    p ← element s.active_symbols j
    symbol ← symbol_of s.symbols p
    freed ← free_register symbol.affected_register s
    rest ← symbol_array_remove freed.active_symbols j
    ok (sort_active_symbols (record freed { active_symbols = rest }))

  -- The loop of `expire_old_symbols` from the index `j` on.
  unfoldable pub expire_loop : ℕ → ℕ → Point → Allocator → Outcome Allocator
  expire_loop zero j start s = out_of_fuel
  expire_loop (suc fuel) j start s =
      if ltb j (length s.active_symbols)
      then (do
        ends ← expired j start s
        if ends then (expire_one j s >>= expire_loop fuel (j + 1) start) else ok s)
      else ok s

  unfoldable pub expire_old_symbols : Ptr → Allocator → Outcome Allocator
  expire_old_symbols p s = do
    symbol ← symbol_of s.symbols p
    expire_loop (length s.active_symbols + 1) 0 symbol.start_point s

  pub spill_symbol : Ptr → Allocator → Outcome Allocator
  spill_symbol p s = elim (length s.active_symbols) [
    | zero ↦ ok s
    | suc last ↦ do
      q ← element s.active_symbols last
      spill ← symbol_of s.symbols q
      symbol ← symbol_of s.symbols p
      if point_ltb symbol.end_point spill.end_point
          then (do
            let (location, s1) = new_stack_location spill.size s
            active ← symbol_array_remove s1.active_symbols last
            let h =
                write s1.symbols p (record symbol { affected_register = spill.affected_register })
            let h' = write h q (record spill { stack_location = location })
            ok (
                sort_active_symbols
                  (record s1 { symbols = h'; active_symbols = symbol_array_push active p })))
          else (let (location, s1) = new_stack_location symbol.size s in
              ok (record s1 {
                symbols = write s1.symbols p (record symbol { stack_location = location });
              }))
  ]

  -- The body of the loop of `linear_scan_register_allocation`.
  unfoldable pub allocate : Ptr → Allocator → Outcome Allocator
  allocate p s = do
    s1 ← expire_old_symbols p s
    if ltb max_registers (length s1.active_symbols) then spill_symbol p s1 else (do
      s2 ← assign_register (next_free_register s1) p s1
      ok (
          sort_active_symbols
            (record s2 { active_symbols = symbol_array_push s2.active_symbols p })))

  unfoldable pub allocate_all : List Ptr → Allocator → Outcome Allocator
  allocate_all [] s = ok s
  allocate_all (p ∷ symbols) s = allocate p s >>= allocate_all symbols

  unfoldable pub linear_scan_register_allocation : HashTable Ptr → Allocator → Outcome Allocator
  linear_scan_register_allocation table s = do
    let entries = flatten table.buckets
    h ← forget_registers entries s.symbols
    let live_symbols = qsort (start_of h) (live entries)
    allocate_all live_symbols
        (record s { symbols = h; registers = replicate max_registers none; active_symbols = [] })
