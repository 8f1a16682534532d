-- ===== src/Compiler.antt =====
-- The state of a run of the compiler: the objects on the heap and the global variables of
-- src/symbol.c, src/quad.c, src/quad_list.c and src/symbol_table.c, with the monad in which the
-- functions of those files are written.
-- Objects of one type are numbered in the order of their allocation, and the number is the address:
-- the code compares pointers with NULL alone, and releases nothing before the output is written, so
-- that no address is used again.
-- Exhausted memory ends the process in `check_pointer` (src/utility.c) and is not modelled.
pub mod Bind
use matcc.Prelude.{
  ℕ, suc, ◌+◌, ◌≤◌, ◌≡◌, Option, none, some, Outcome, ok, abort, fault, out_of_fuel, Abort, ◌==◌,
  if◌then◌else◌,
}
use matcc.HashTable.{HashTable}
use matcc.Types.{Ptr, Symbol, Quad, Node}

pub record Store (A : Type 0) : Type 0 where
  pub next : Ptr
  pub cell : Ptr → Option A

module _ {A : Type 0} where
  abbrev pub write : Store A → Ptr → A → Store A
  write h p a = record h { cell = λ q. if p == q then some a else h.cell q }

  abbrev pub alloc : Store A → A → Store A
  alloc h a = record { next = h.next + 1; cell = λ q. if h.next == q then some a else h.cell q }

  abbrev pub erase : Store A → Ptr → Store A
  erase h p = record h { cell = λ q. if p == q then none else h.cell q }

  -- `safe_free` of an object: NULL is nothing, an object that is gone is a fault.
  abbrev pub safe_free : Store A → Option Ptr → Outcome (Store A)
  safe_free h none = ok h
  safe_free h (some p) = elim (h.cell p) [ none ↦ fault | some a ↦ ok (erase h p) ]

  -- Addresses from `next` on are free.
  pub record IsStore (h : Store A) : Type 0 where
    pub free : (p : Ptr) → h.next ≤ p → h.cell p ≡ none

-- The counters are of type `unsigned int`: they are kept below 2 ^ 32.
pub record Compiler : Type 0 where
  pub symbols : Store Symbol
  pub quads : Store Quad
  pub nodes : Store Node
  pub symbol_table : HashTable Ptr
  pub next_quad : ℕ
  pub temps_count : ℕ
  pub constants_count : ℕ
  pub quad_list : Option Ptr

-- What a run takes from outside: the steps that a loop along pointers may make, and what a block
-- that `malloc` returns for a symbol holds before it is written.
pub record Runtime : Type 0 where
  pub fuel : ℕ
  pub raw_symbol : Ptr → Symbol

abbrev pub M : Type 0 → Type 0
M A = Compiler → Outcome (A × Compiler)

abbrev pub pure : {A : Type 0} → A → M A
pure a s = ok (a, s)

infixl 5 ◌>>=◌ ◌>>◌
abbrev pub ◌>>=◌ : {A B : Type 0} → M A → (A → M B) → M B
◌>>=◌ m f s = elim (m s) [
  | ok (a, s') ↦ f a s'
  | abort e ↦ abort e
  | fault ↦ fault
  | out_of_fuel ↦ out_of_fuel
]

abbrev pub ◌>>◌ : {B : Type 0} → M (Unit {0}) → M B → M B
m >> k = m >>= λ _. k

-- `abort_parsing`
abbrev pub abort_parsing : {A : Type 0} → Abort → M A
abort_parsing e s = abort e

-- A computation that only reads the state.
abbrev pub lift : {A : Type 0} → Outcome A → M A
lift (ok a) s = ok (a, s)
lift (abort e) s = abort e
lift fault s = fault
lift out_of_fuel s = out_of_fuel

-- Reads through a pointer: NULL and an address with no object are a fault.
abbrev pub read : {A : Type 0} → Store A → Option Ptr → Compiler → Outcome (A × Compiler)
read h none s = fault
read h (some p) s = elim (h.cell p) [ none ↦ fault | some a ↦ ok (a, s) ]

abbrev pub symbol_at : Option Ptr → M Symbol
symbol_at p s = read s.symbols p s

abbrev pub quad_at : Option Ptr → M Quad
quad_at p s = read s.quads p s

abbrev pub node_at : Option Ptr → M Node
node_at p s = read s.nodes p s

-- Writes through a pointer that was read before.
abbrev pub set_symbol : Ptr → Symbol → M (Unit {0})
set_symbol p a s = ok (tt, record s { symbols = write s.symbols p a })

abbrev pub set_quad : Ptr → Quad → M (Unit {0})
set_quad p a s = ok (tt, record s { quads = write s.quads p a })

abbrev pub set_node : Ptr → Node → M (Unit {0})
set_node p a s = ok (tt, record s { nodes = write s.nodes p a })
