-- ===== src/Release.antt =====
-- The functions that release memory: quad_delete of src/quad.c, quad_list_delete of src/quad_list.c,
-- symbol_delete of src/symbol.c, ht_free of src/hash_table.c and instruction_list_delete of
-- src/mips/instruction.c. The texts of an object, its name, its comment or its string, go with it; a
-- pointer that no `strdup` returned is a fault, as is an object that is released twice.
pub mod Lists
pub mod Tables
pub mod Whole
use matcc.Prelude.{
  ℕ, zero, suc, Option, none, some, List, [], ◌∷◌, Outcome, ok, abort, fault, out_of_fuel, Text,
}
use matcc.HashTable.{Chain, HashTable}
use matcc.Types.{
  Ptr, SymbolType, int, float, string, matrix, InitialValue, indeterminate, intval, floatval,
  stringval, matrixval, Symbol,
}
use matcc.Compiler.{
  Compiler, Runtime, M, pure, ◌>>=◌, ◌>>◌, lift, safe_free, symbol_at, quad_at, node_at,
}
use matcc.Instructions.{Instruction}

-- `safe_free` of an object of each type.
abbrev pub free_symbol : Option Ptr → M (Unit {0})
free_symbol p = do
  symbols ← λ s. lift (safe_free s.symbols p) s
  λ s. ok (tt, record s { symbols = symbols })

abbrev pub free_quad : Option Ptr → M (Unit {0})
free_quad p = do quads ← λ s. lift (safe_free s.quads p) s; λ s. ok (tt, record s { quads = quads })

abbrev pub free_node : Option Ptr → M (Unit {0})
free_node p = do nodes ← λ s. lift (safe_free s.nodes p) s; λ s. ok (tt, record s { nodes = nodes })

unfoldable pub quad_delete : Option Ptr → M (Unit {0})
quad_delete q = do quad ← quad_at q; free_quad q

-- The function calls itself on the successor.
unfoldable pub delete_list : ℕ → Option Ptr → M (Unit {0})
unfolding quad_delete
delete_list zero list = λ s. out_of_fuel
delete_list (suc fuel) list = do
  n ← node_at list
  quad_delete (some n.quad)
  elim n.successor [ none ↦ pure tt | some l ↦ delete_list fuel (some l) ]
  free_node list

-- `safe_free(s->initial_value.stringval)`
abbrev pub free_string : InitialValue → M (Unit {0})
free_string (stringval text) = pure tt
free_string indeterminate = λ s. fault
free_string (intval n) = λ s. fault
free_string (floatval x) = λ s. fault
free_string (matrixval m) = λ s. fault

abbrev pub free_value : SymbolType → InitialValue → M (Unit {0})
free_value string value = free_string value
free_value int value = pure tt
free_value float value = pure tt
free_value matrix value = pure tt

unfoldable pub symbol_delete : Option Ptr → M (Unit {0})
symbol_delete p = do
  symbol ← symbol_at p
  free_value symbol.type symbol.initial_value
  free_symbol p

-- The inner loop of `ht_free`: a bucket goes with its key.
unfoldable pub free_chain : Chain Ptr → M (Unit {0})
unfolding symbol_delete
free_chain [] = pure tt
free_chain ((key, value) ∷ chain) = do symbol_delete (some value); free_chain chain

unfoldable pub free_buckets : List (Chain Ptr) → M (Unit {0})
unfolding free_chain
free_buckets [] = pure tt
free_buckets (chain ∷ buckets) = do free_chain chain; free_buckets buckets

-- The array of the buckets is gone: every index is out of its bounds.
unfoldable pub ht_free : M (Unit {0})
unfolding free_buckets
ht_free = do
  λ s. free_buckets s.symbol_table.buckets s
  λ s. ok (tt, record s { symbol_table = record s.symbol_table { buckets = [] } })

-- An instruction goes with its texts; NULL has no instruction.
unfoldable pub instruction_list_delete : List Instruction → Outcome (Unit {0})
instruction_list_delete [] = fault
instruction_list_delete (i ∷ []) = ok tt
instruction_list_delete (i ∷ next ∷ list) = instruction_list_delete (next ∷ list)

module _ (rt : Runtime) where
  unfoldable pub quad_list_delete : Option Ptr → M (Unit {0})
  unfolding delete_list
  quad_list_delete list = delete_list rt.fuel list

  -- What `main` releases before it closes the files.
  unfoldable pub release : M (Unit {0})
  unfolding quad_list_delete ht_free
  release = do λ s. quad_list_delete s.quad_list s; ht_free
