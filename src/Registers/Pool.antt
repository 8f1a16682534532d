-- ===== src/Registers/Pool.antt =====
-- src/mips/register_allocation.c: which register holds which symbol. Counting of free registers
-- and of the symbols in an array, and the invariant of the allocation.
use matcc.Prelude.{
  ℕ, zero, suc, ◌+◌, ◌≤◌, ◌<◌, ◌≡◌, refl, ◌∙◌, ap, Option, none, some, List, [], ◌∷◌, ◌++◌, Returns,
  length, get_elem?, set, arith, ◌==◌, if◌then◌else◌,
}
use matcc.Types.{Ptr, Point, Symbol}
use matcc.Registers.{Allocator, max_registers, symbol_array_remove, first_free}

-- How often an address stands in an array.
abbrev pub occurrences : Ptr → List Ptr → ℕ
occurrences p [] = 0
occurrences p (q ∷ qs) = (if q == p then 1 else 0) + occurrences p qs

abbrev pub free_count : List (Option Ptr) → ℕ
free_count [] = 0
free_count (none ∷ registers) = suc (free_count registers)
free_count (some _ ∷ registers) = free_count registers

-- `qsort` permutes the array.
pub record IsPermuting (qsort : (Ptr → Point) → List Ptr → List Ptr) : Type 0 where
  pub same :
      (key : Ptr → Point) (xs : List Ptr) (p : Ptr)
      → occurrences p (qsort key xs) ≡ occurrences p xs
  pub size : (key : Ptr → Point) (xs : List Ptr) → length (qsort key xs) ≡ length xs

-- Every register is free or held by one symbol that lives; a symbol that lives holds a register of
-- its own, which it names.
pub record IsPool (s : Allocator) : Type 0 where
  pub balance : free_count s.registers + length s.active_symbols ≡ max_registers
  pub width : length s.registers ≡ max_registers
  pub once : (p : Ptr) → occurrences p s.active_symbols ≤ 1
  pub holds :
      (p : Ptr)
      → 0 < occurrences p s.active_symbols
      → (symbol : Symbol) × (reg : ℕ) × (s.symbols.cell p ≡ some symbol)
        × (symbol.affected_register ≡ some reg)
        × (get_elem? s.registers reg ≡ some (some p))

pub get_elem?-lt : (xs : List Ptr) (i : ℕ) → i < length xs → (p : Ptr) × (get_elem? xs i ≡ some p)
get_elem?-lt [] i h = absurd (omega arith)
get_elem?-lt (x ∷ xs) zero h = (x, refl)
get_elem?-lt (x ∷ xs) (suc i) h = get_elem?-lt xs i (omega arith)

pub occurrences-get_elem? :
    (xs : List Ptr) (i : ℕ) (p : Ptr) → get_elem? xs i ≡ some p → 0 < occurrences p xs
occurrences-get_elem? [] i p e = absurd (cc)
occurrences-get_elem? (x ∷ xs) zero p e = ground arith
occurrences-get_elem? (x ∷ xs) (suc i) p e = omega (arith, occurrences-get_elem? xs i p e)

pub occurrences-append :
    (xs ys : List Ptr) (p : Ptr) → occurrences p (xs ++ ys) ≡ occurrences p xs + occurrences p ys
occurrences-append [] ys p = omega arith
occurrences-append (x ∷ xs) ys p = omega (arith, occurrences-append xs ys p)

-- A removal takes one occurrence of the symbol at the index.
pub remove-ok :
    (xs : List Ptr) (i : ℕ) (p : Ptr)
    → get_elem? xs i ≡ some p
    → Returns (symbol_array_remove xs i) λ rest.
      (suc (length rest) ≡ length xs)
      × ((q : Ptr) → (if p == q then 1 else 0) + occurrences q rest ≡ occurrences q xs)
unfolding symbol_array_remove
remove-ok [] i p e = absurd (cc)
remove-ok (x ∷ xs) zero p e = (xs, refl, (refl, λ q. ground arith))
remove-ok (x ∷ xs) (suc i) p e =
    let (rest, run, (size, count)) = remove-ok xs i p e in
    (x ∷ rest, rw run, (omega (arith, size), λ q. omega (arith, count q)))

pub get_elem?-set :
    (xs : List (Option Ptr)) (i j : ℕ) (v w : Option Ptr)
    → get_elem? xs i ≡ some w
    → get_elem? (set xs i v) j ≡ (if i == j then some v else get_elem? xs j)
get_elem?-set [] i j v w e = absurd (cc)
get_elem?-set (x ∷ xs) zero zero v w e = ground arith
get_elem?-set (x ∷ xs) zero (suc j) v w e = ground arith
get_elem?-set (x ∷ xs) (suc i) zero v w e = ground arith
get_elem?-set (x ∷ xs) (suc i) (suc j) v w e = ground (arith, get_elem?-set xs i j v w e)

pub lt-length :
    (xs : List (Option Ptr)) (i : ℕ) (w : Option Ptr) → get_elem? xs i ≡ some w → i < length xs
lt-length [] i w e = absurd (cc)
lt-length (x ∷ xs) zero w e = omega arith
lt-length (x ∷ xs) (suc i) w e = omega (arith, lt-length xs i w e)

pub free_count-free :
    (xs : List (Option Ptr)) (i : ℕ) (p : Ptr)
    → get_elem? xs i ≡ some (some p)
    → free_count (set xs i none) ≡ suc (free_count xs)
free_count-free [] i p e = absurd (cc)
free_count-free (some x ∷ xs) zero p e = refl
free_count-free (none ∷ xs) zero p e = absurd (cc)
free_count-free (some x ∷ xs) (suc i) p e = free_count-free xs i p e
free_count-free (none ∷ xs) (suc i) p e = ap suc (free_count-free xs i p e)

pub free_count-take :
    (xs : List (Option Ptr)) (i : ℕ) (p : Ptr)
    → get_elem? xs i ≡ some none
    → suc (free_count (set xs i (some p))) ≡ free_count xs
free_count-take [] i p e = absurd (cc)
free_count-take (some x ∷ xs) zero p e = absurd (cc)
free_count-take (none ∷ xs) zero p e = refl
free_count-take (some x ∷ xs) (suc i) p e = free_count-take xs i p e
free_count-take (none ∷ xs) (suc i) p e = ap suc (free_count-take xs i p e)

pub first_free-some :
    (xs : List (Option Ptr)) (n : ℕ)
    → 0 < free_count xs
    → (i : ℕ) × (first_free xs n ≡ some (n + i)) × (get_elem? xs i ≡ some none)
unfolding first_free
first_free-some [] n h = absurd (omega arith)
first_free-some (none ∷ xs) n h = (0, ap some (omega arith), refl)
first_free-some (some x ∷ xs) n h =
    let (i, e, free) = first_free-some xs (n + 1) h in (suc i, e ∙ ap some (omega arith), free)

pub first_free-none : (xs : List (Option Ptr)) (n : ℕ) → free_count xs ≡ 0 → first_free xs n ≡ none
unfolding first_free
first_free-none [] n h = refl
first_free-none (none ∷ xs) n h = absurd (omega arith)
first_free-none (some x ∷ xs) n h = first_free-none xs (n + 1) h
