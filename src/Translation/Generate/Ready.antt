-- ===== src/Translation/Generate/Ready.antt =====
-- src/mips/translation.c: quads that `generate_code` can translate, and the loads of their operands.
use matcc.Prelude.{
  ℕ, ◌≡◌, refl, Bool, true, false, Option, none, some, List, [], ◌∷◌, ◌++◌, ok, Text, codes, All,
  All-append, arith, Bool-cases, inl, inr, get_or, get_elem?-get_or, if◌then◌else◌,
}
use matcc.Types.{
  Ptr, Symbol, QuadOp, nop, move, neg, add, sub, mul, div, b, be, bne, blt, bgt, blte, bgte, prti,
  prtf, prts, ret, max_quad, Quad,
}
use matcc.Compiler.{Store, Compiler, M, pure, ◌>>=◌}
use matcc.Registers.Steps.{HasRegister}
use matcc.Instructions.{Instruction, instruction_new}
use matcc.Translation.Select.{
  reg_str, freg_str, is_float, starts_at, register_of, fregister_of, load_symbol_in_register,
  load_at, skips_res, load_operands,
}

abbrev pub NotNull : Option Ptr → Type 0
NotNull none = ⊥
NotNull (some p) = Unit

-- NULL, or a symbol with a register.
abbrev pub IsPlaced : Store Symbol → Option Ptr → Type 0
IsPlaced h none = Unit
IsPlaced h (some p) = HasRegister h p

-- The operands that the switch reads.
abbrev pub Needs : QuadOp → Quad → Type 0
Needs nop quad = Unit
Needs move quad = NotNull quad.res × NotNull quad.op1
Needs neg quad = NotNull quad.res × NotNull quad.op1
Needs add quad = NotNull quad.res × NotNull quad.op1 × NotNull quad.op2
Needs sub quad = NotNull quad.res × NotNull quad.op1 × NotNull quad.op2
Needs mul quad = NotNull quad.res × NotNull quad.op1 × NotNull quad.op2
Needs div quad = NotNull quad.res × NotNull quad.op1 × NotNull quad.op2
Needs b quad = NotNull quad.res
Needs be quad = NotNull quad.res × NotNull quad.op1 × NotNull quad.op2
Needs bne quad = NotNull quad.res × NotNull quad.op1 × NotNull quad.op2
Needs blt quad = NotNull quad.res × NotNull quad.op1 × NotNull quad.op2
Needs bgt quad = NotNull quad.res × NotNull quad.op1 × NotNull quad.op2
Needs blte quad = NotNull quad.res × NotNull quad.op1 × NotNull quad.op2
Needs bgte quad = NotNull quad.res × NotNull quad.op1 × NotNull quad.op2
Needs prti quad = NotNull quad.res
Needs prtf quad = NotNull quad.res
Needs prts quad = NotNull quad.res
Needs ret quad = Unit
Needs max_quad quad = Unit

pub record IsReady (h : Store Symbol) (quad : Quad) : Type 0 where
  pub res : IsPlaced h quad.res
  pub op1 : IsPlaced h quad.op1
  pub op2 : IsPlaced h quad.op2
  pub needs : Needs quad.op quad

-- The computation ends normally in instructions that are no labels, and leaves the state.
abbrev pub Emits : M (List Instruction) → Compiler → Type 0
Emits m s = (is : List Instruction) × (m s ≡ ok (is, s)) × All (λ i. i.is_label ≡ false) is

module _ (s : Compiler) where
  -- A name of a register is read without a fault.
  abbrev pub Names : (Option Ptr → M Text) → Type 0
  Names name =
      (o : Option Ptr) → NotNull o → IsPlaced s.symbols o → (r : Text) × (name o s ≡ ok (r, s))

  pub register_of-Names : Names register_of
  unfolding register_of
  register_of-Names none n p = absurd n
  register_of-Names (some p) n (symbol, reg, here, names, below) = (
    get_or reg_str reg [],
    rw (here, ◌>>=◌, names, get_elem?-get_or reg_str reg [] (omega arith)),
  )

  pub fregister_of-Names : Names fregister_of
  unfolding fregister_of
  fregister_of-Names none n p = absurd n
  fregister_of-Names (some p) n (symbol, reg, here, names, below) = (
    get_or freg_str reg [],
    rw (here, ◌>>=◌, names, get_elem?-get_or freg_str reg [] (omega arith)),
  )

  load_symbol-Emits : (p : Ptr) → HasRegister s.symbols p → Emits (load_symbol_in_register p) s
  unfolding load_symbol_in_register
  load_symbol-Emits p has =
      let (symbol, reg, here, names, below) = has in
      let (r, run) = register_of-Names (some p) tt has in
      let (f, frun) = fregister_of-Names (some p) tt has in
      elim (Bool-cases (is_float symbol.type)) [
        | inl t ↦ (
          instruction_new (codes "l.s") (some f) (some symbol.name) none ∷ [],
          rw (here, ◌>>=◌, t, frun) refl,
          (refl, tt),
        )
        | inr t ↦ (
          instruction_new (codes "lw") (some r) (some symbol.name) none ∷ [],
          rw (here, ◌>>=◌, t, run) refl,
          (refl, tt),
        )
      ]

  load_at-Emits : (n : ℕ) (o : Option Ptr) → IsPlaced s.symbols o → Emits (load_at n o) s
  unfolding load_at
  load_at-Emits n none p = ([], refl, tt)
  load_at-Emits n (some p) has =
      let (symbol, reg, here, names, below) = has in
      let (is, run, plain) = load_symbol-Emits p has in
      elim (Bool-cases (starts_at symbol.start_point n)) [
        | inl t ↦ (is, rw (here, ◌>>=◌, t) run, plain)
        | inr t ↦ ([], rw (here, ◌>>=◌, t) refl, tt)
      ]

  load_res-Emits :
      (n : ℕ) (skip : Bool) (o : Option Ptr)
      → IsPlaced s.symbols o
      → Emits (if skip then pure [] else load_at n o) s
  load_res-Emits n true o p = ([], refl, tt)
  load_res-Emits n false o p = load_at-Emits n o p

  pub load_operands-Emits :
      (n : ℕ) (quad : Quad) → IsReady s.symbols quad → Emits (load_operands n quad) s
  unfolding load_operands
  load_operands-Emits n quad ready =
      let (is0, run0, plain0) = load_res-Emits n (skips_res quad.op) quad.res ready.res in
      let (is1, run1, plain1) = load_at-Emits n quad.op1 ready.op1 in
      let (is2, run2, plain2) = load_at-Emits n quad.op2 ready.op2 in
      (
        is0 ++ (is1 ++ is2),
        rw (◌>>=◌, run0, run1, run2) refl,
        All-append (λ i. i.is_label ≡ false) is0 (is1 ++ is2) plain0
            (All-append (λ i. i.is_label ≡ false) is1 is2 plain1 plain2),
      )
