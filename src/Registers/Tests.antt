-- ===== src/Registers/Tests.antt =====
-- The linear scan with an insertion sort for `qsort`: nine symbols that live together, and the
-- theorems at a small pool.
use matcc.Prelude.{
  ℕ, zero, suc, ◌≤◌, ◌<◌, ◌≡◌, refl, sym, ap, ◌⊎◌, inl, inr, Bool, true, false, Option, none, some,
  List, [], ◌∷◌, flatten, ok, abort, fault, out_of_fuel, Outcome, Returns, length, replicate, codes,
  arith, Bool-cases, ◌==◌, Text,
}
use matcc.HashTable.{HashTable, ht_ok}
use matcc.Types.{Ptr, Symbol, int, indeterminate, at}
use matcc.Registers.{
  Allocator, max_registers, symbol_array_remove, first_free, next_free_register, assign_register,
  free_register, sort_active_symbols, expired, expire_one, expire_loop, expire_old_symbols,
  allocate, allocate_all, forget_registers, live, linear_scan_register_allocation,
}
use matcc.Registers.Pool.{occurrences, IsPool}
use matcc.Registers.InsertionSort.{insert, sorted, sorted-IsPermuting}
use matcc.Registers.Steps.{Shrinks, Takes, HasRegister}
use matcc.Registers.Scan.{allocate-IsPool}
use matcc.Registers.Whole.{ArePresent, linear_scan_register_allocation-IsPool}

-- A symbol that lives from 0 to 9.
abbrev symbol : Symbol
symbol = record {
  name = codes "_a";
  type = int;
  initial_value = indeterminate;
  constant = false;
  matrix_size = record { height = 0; width = 0 };
  start_point = at 0;
  end_point = at 9;
  life_time = 9;
  size = 4;
  affected_register = none;
  stack_location = 0;
}

-- Every address is one of such a symbol, and the symbol 0 holds the register 0.
abbrev cell : Ptr → Option Symbol
cell zero = some (record symbol { affected_register = some 0 })
cell (suc _) = some symbol

abbrev one_active : Allocator
one_active = record {
  symbols = record { next = 20; cell = cell };
  registers = some 0 ∷ replicate 7 none;
  active_symbols = 0 ∷ [];
  current_stack_location = 0;
}

one_active-IsPool : IsPool one_active
one_active-IsPool = record {
  balance = refl;
  width = refl;
  once = λ p. ground arith;
  holds = λ p h. elim (Bool-cases (0 == p)) [
    | inl e ↦
        let is_zero : 0 ≡ p = ground arith in
        (
          record symbol { affected_register = some 0 },
          0,
          ap cell (sym is_zero),
          refl,
          ap (λ r. some (some r)) is_zero,
        )
    | inr other ↦ absurd (ground arith)
  ];
}

allocate-IsPool_example :
    (s1 : Allocator) × (expire_old_symbols sorted 3 one_active ≡ ok s1)
    × IsPool s1
    × Shrinks one_active s1
    × ((length s1.active_symbols < max_registers)
          × Returns (allocate sorted 3 one_active) (λ s'. IsPool s' × Takes 3 one_active s')
        ⊎ (length s1.active_symbols ≡ max_registers) × (allocate sorted 3 one_active ≡ fault))
allocate-IsPool_example =
    allocate-IsPool sorted sorted-IsPermuting 3 symbol one_active one_active-IsPool refl refl

abbrev entries : ℕ → List (Text × Ptr)
entries zero = []
entries (suc n) = (codes "_a", n) ∷ entries n

abbrev table : ℕ → HashTable Ptr
table n = record { size = 1; buckets = entries n ∷ []; last_error = ht_ok }

few_entries : (q : ℕ) → occurrences q (live (flatten (table 2).buckets)) ≤ 1
unfolding flatten
few_entries q = ground arith

all_present : ArePresent one_active.symbols (live (flatten (table 2).buckets))
all_present zero lives = (record symbol { affected_register = some 0 }, refl)
all_present (suc q) lives = (symbol, refl)

linear_scan_register_allocation-IsPool_example :
    Returns (linear_scan_register_allocation sorted (table 2) one_active) λ s'.
      IsPool s'
      × ((p : Ptr)
          → 0 < occurrences p (live (flatten (table 2).buckets))
          → HasRegister s'.symbols p)
unfolding flatten
linear_scan_register_allocation-IsPool_example =
    linear_scan_register_allocation-IsPool sorted sorted-IsPermuting (table 2) one_active
      few_entries all_present (omega arith)

abbrev is_fault : Outcome Allocator → Bool
is_fault (ok _) = false
is_fault (abort _) = false
is_fault fault = true
is_fault out_of_fuel = false

program : Unit {0}
unfolding symbol_array_remove first_free next_free_register assign_register free_register
    sort_active_symbols expired expire_one expire_loop expire_old_symbols allocate allocate_all
    forget_registers linear_scan_register_allocation insert sorted flatten
program = tt

eight_symbols : is_fault (linear_scan_register_allocation sorted (table 8) one_active) ≡ false
unfolding program
eight_symbols = refl

nine_symbols : is_fault (linear_scan_register_allocation sorted (table 9) one_active) ≡ true
unfolding program
nine_symbols = refl
