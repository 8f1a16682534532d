-- ===== src/Registers/Steps.antt =====
-- src/mips/register_allocation.c: how a step changes the symbols and the registers.
use matcc.Prelude.{
  ℕ, suc, ◌+◌, ◌≤◌, ◌<◌, ◌≡◌, ◌∙◌, ap, inl, inr, true, false, Option, none, some, List, [], ◌∷◌,
  length, get_elem?, arith, Bool-cases, ◌==◌,
}
use matcc.Types.{Ptr, Symbol}
use matcc.Compiler.{Store}
use matcc.Registers.{Allocator, max_registers}
use matcc.Registers.Pool.{occurrences}

-- Two symbols do not hold one register.
pub registers-differ :
    (registers : List (Option Ptr)) (i j : ℕ) (p q : Ptr)
    → get_elem? registers i ≡ some (some p)
    → get_elem? registers j ≡ some (some q)
    → (p == q) ≡ false
    → (i == j) ≡ false
registers-differ registers i j p q hi hj ne = elim (Bool-cases (i == j)) [
  | inr other ↦ other
  | inl e ↦
      let same : i ≡ j = ground arith in
      let equal : get_elem? registers i ≡ some (some q) = ap (get_elem? registers) same ∙ hj in
      let pq : p ≡ q = cc in absurd (ground arith)
]

-- A free register is not one that is held.
pub free-differs :
    (registers : List (Option Ptr)) (i j : ℕ) (q : Ptr)
    → get_elem? registers i ≡ some none
    → get_elem? registers j ≡ some (some q)
    → (i == j) ≡ false
free-differs registers i j q hi hj = elim (Bool-cases (i == j)) [
  | inr other ↦ other
  | inl e ↦
      let same : i ≡ j = ground arith in
      let equal : get_elem? registers i ≡ some (some q) = ap (get_elem? registers) same ∙ hj in
      absurd (cc)
]

pub eq_self : (n : ℕ) → (n == n) ≡ true
eq_self n = ground arith

-- What the steps before the assignment keep: the symbols, and that no new symbol lives.
pub record Shrinks (s s' : Allocator) : Type 0 where
  pub symbols : s'.symbols ≡ s.symbols
  pub fewer : (p : Ptr) → occurrences p s'.active_symbols ≤ occurrences p s.active_symbols
  pub size : length s'.active_symbols ≤ length s.active_symbols

-- The symbol names a register of the machine.
abbrev pub HasRegister : Store Symbol → Ptr → Type 0
HasRegister h p =
    (symbol : Symbol) × (reg : ℕ) × (h.cell p ≡ some symbol)
    × (symbol.affected_register ≡ some reg)
    × (reg < max_registers)

-- The symbol lives and has a register; at most it lives in addition, and no other symbol is written.
pub record Takes (p : Ptr) (s s' : Allocator) : Type 0 where
  pub lives : 0 < occurrences p s'.active_symbols
  pub register : HasRegister s'.symbols p
  pub others : (q : Ptr) → (p == q) ≡ false → s'.symbols.cell q ≡ s.symbols.cell q
  pub fewer :
      (q : Ptr)
      → occurrences q s'.active_symbols ≤ occurrences q s.active_symbols + occurrences q (p ∷ [])
  pub size : length s'.active_symbols ≤ suc (length s.active_symbols)

pub Shrinks-Takes : (p : Ptr) (s s1 s' : Allocator) → Shrinks s s1 → Takes p s1 s' → Takes p s s'
Shrinks-Takes p s s1 s' shrinks takes = record {
  lives = takes.lives;
  register = takes.register;
  others = λ q other. takes.others q other ∙ ap (λ h. h.cell q) shrinks.symbols;
  fewer = λ q. omega (arith, takes.fewer q, shrinks.fewer q);
  size = omega (arith, takes.size, shrinks.size);
}
