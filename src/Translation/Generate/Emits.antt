-- ===== src/Translation/Generate/Emits.antt =====
-- src/mips/translation.c: what the switch of `generate_code` gives for a quad that it can translate.
use matcc.Prelude.{
  ℕ, ◌≡◌, refl, true, false, Option, none, some, List, [], ◌∷◌, ◌++◌, Text, codes, All-append,
  if◌then◌else◌,
}
use matcc.Types.{
  Ptr, SymbolType, int, float, string, matrix, InitialValue, int_of, Symbol, QuadOp, nop, move, neg,
  add, sub, mul, div, b, be, bne, blt, bgt, blte, bgte, prti, prtf, prts, ret, max_quad, Quad,
}
use matcc.Compiler.{Compiler, M, ◌>>=◌, read}
use matcc.Instructions.{Instruction, instruction_new}
use matcc.Translation.Select.{
  is_float, register_of, fregister_of, two, three, by_type, arithmetic, target_of, compare_jump,
  branch, select_op, select, label_text,
}
use matcc.Translation.Generate.Ready.{
  NotNull, IsPlaced, Needs, IsReady, Emits, Names, register_of-Names, fregister_of-Names,
  load_operands-Emits,
}

module _ (s : Compiler) where
  module _ (name : Option Ptr → M Text) (names : Names s name) (opcode : Text) where
    two-Emits :
        (p q : Option Ptr)
        → NotNull p × NotNull q
        → IsPlaced s.symbols p
        → IsPlaced s.symbols q
        → Emits (two name opcode p q) s
    unfolding two
    two-Emits p q n hp hq =
        let (r1, run1) = names p n.0 hp in
        let (r2, run2) = names q n.1 hq in
        (
          instruction_new opcode (some r1) (some r2) none ∷ [],
          rw (◌>>=◌, run1, run2) refl,
          (refl, tt),
        )

    three-Emits :
        (p q r : Option Ptr)
        → NotNull p × NotNull q × NotNull r
        → IsPlaced s.symbols p
        → IsPlaced s.symbols q
        → IsPlaced s.symbols r
        → Emits (three name opcode p q r) s
    unfolding three
    three-Emits p q r n hp hq hr =
        let (r1, run1) = names p n.0 hp in
        let (r2, run2) = names q n.1 hq in
        let (r3, run3) = names r n.2 hr in
        (
          instruction_new opcode (some r1) (some r2) (some r3) ∷ [],
          rw (◌>>=◌, run1, run2, run3) refl,
          (refl, tt),
        )

    compare_jump-Emits :
        (quad : Quad) (label : Text)
        → NotNull quad.op1
        → NotNull quad.op2
        → IsReady s.symbols quad
        → Emits (compare_jump name opcode quad label) s
    unfolding compare_jump
    compare_jump-Emits quad label n1 n2 ready =
        let (r1, run1) = names quad.op1 n1 ready.op1 in
        let (r2, run2) = names quad.op2 n2 ready.op2 in
        (
          instruction_new opcode (some r1) (some r2) (some label) ∷ [],
          rw (◌>>=◌, run1, run2) refl,
          (refl, tt),
        )

  by_type-Emits :
      (type : SymbolType) (m f : M (List Instruction))
      → Emits m s
      → Emits f s
      → Emits (by_type type m f) s
  unfolding by_type
  by_type-Emits int m f em ef = em
  by_type-Emits float m f em ef = ef
  by_type-Emits string m f em ef = ([], refl, tt)
  by_type-Emits matrix m f em ef = ([], refl, tt)

  -- Behind the read of an operand.
  read-Emits :
      (o : Option Ptr) (k : Symbol → M (List Instruction))
      → NotNull o
      → IsPlaced s.symbols o
      → ((symbol : Symbol) → Emits (k symbol) s)
      → Emits (λ t. (read t.symbols o >>= k) t) s
  read-Emits none k n p e = absurd n
  read-Emits (some p) k n (symbol, reg, here, names, below) e =
      let (is, run, plain) = e symbol in (is, rw (here, ◌>>=◌, read) run, plain)

  name-Emits :
      (name : Option Ptr → M Text) (o : Option Ptr) (k : Text → M (List Instruction))
      → Names s name
      → NotNull o
      → IsPlaced s.symbols o
      → ((r : Text) → Emits (k r) s)
      → Emits (name o >>= k) s
  name-Emits name o k names n p emits =
      let (r, run) = names o n p in
      let (is, run', plain) = emits r in (is, rw (◌>>=◌, run) run', plain)

  arithmetic-Emits :
      (i f : Text) (quad : Quad)
      → NotNull quad.res × NotNull quad.op1 × NotNull quad.op2
      → IsReady s.symbols quad
      → Emits (arithmetic i f quad) s
  unfolding arithmetic
  arithmetic-Emits i f quad n ready =
      read-Emits quad.res
        (λ symbol.
          by_type symbol.type (three register_of i quad.res quad.op1 quad.op2)
            (three fregister_of f quad.res quad.op1 quad.op2))
        n.0 ready.res
        λ symbol.
          by_type-Emits symbol.type _ _
            (three-Emits register_of (register_of-Names s) i quad.res quad.op1 quad.op2 n ready.res
              ready.op1 ready.op2)
            (three-Emits fregister_of (fregister_of-Names s) f quad.res quad.op1 quad.op2 n
              ready.res ready.op1 ready.op2)

  module _ (raw_int : InitialValue → ℕ) where
    target_of-Names : Names s (target_of raw_int)
    unfolding target_of
    target_of-Names none n p = absurd n
    target_of-Names (some p) n (symbol, reg, here, names, below) =
        (label_text (int_of raw_int symbol.initial_value), rw (here, ◌>>=◌) refl)

    branch-Emits :
        (i f : Text) (quad : Quad)
        → NotNull quad.res × NotNull quad.op1 × NotNull quad.op2
        → IsReady s.symbols quad
        → Emits (branch raw_int i f quad) s
    unfolding branch
    branch-Emits i f quad n ready =
        name-Emits (target_of raw_int) quad.res _ target_of-Names n.0 ready.res λ label.
          read-Emits quad.op1 _ n.1 ready.op1 λ symbol.
            by_type-Emits symbol.type _ _
              (compare_jump-Emits register_of (register_of-Names s) i quad _ n.1 n.2 ready)
              (compare_jump-Emits fregister_of (fregister_of-Names s) f quad _ n.1 n.2 ready)

    select_op-Emits :
        (op : QuadOp) (quad : Quad)
        → Needs op quad
        → IsReady s.symbols quad
        → Emits (select_op raw_int op quad) s
    unfolding select_op
    select_op-Emits nop quad n ready = (_, refl, (refl, tt))
    select_op-Emits move quad n ready = read-Emits quad.res _ n.0 ready.res λ symbol.
        elim (is_float symbol.type)
          as (λ t.
            Emits
              (if t
                then two fregister_of (codes "mov.s") quad.res quad.op1
                else two register_of (codes "move") quad.res quad.op1)
              s) [
                | true ↦
                    two-Emits fregister_of (fregister_of-Names s) (codes "mov.s") quad.res quad.op1
                      n ready.res ready.op1
                | false ↦
                    two-Emits register_of (register_of-Names s) (codes "move") quad.res quad.op1 n
                      ready.res ready.op1
              ]
    select_op-Emits neg quad n ready = read-Emits quad.res _ n.0 ready.res λ symbol.
        by_type-Emits symbol.type _ _
          (two-Emits register_of (register_of-Names s) (codes "neg") quad.res quad.op1 n ready.res
            ready.op1)
          (two-Emits fregister_of (fregister_of-Names s) (codes "neg.s") quad.res quad.op1 n
            ready.res ready.op1)
    select_op-Emits add quad n ready = arithmetic-Emits (codes "add") (codes "add.s") quad n ready
    select_op-Emits sub quad n ready = arithmetic-Emits (codes "sub") (codes "sub.s") quad n ready
    select_op-Emits mul quad n ready = arithmetic-Emits (codes "mul") (codes "mul.s") quad n ready
    select_op-Emits div quad n ready = arithmetic-Emits (codes "div") (codes "div.s") quad n ready
    select_op-Emits b quad n ready =
        name-Emits (target_of raw_int) quad.res _ target_of-Names n ready.res
          λ label. (_, refl, (refl, tt))
    select_op-Emits be quad n ready = branch-Emits (codes "beq") (codes "c.eq.s") quad n ready
    select_op-Emits bne quad n ready = branch-Emits (codes "bne") (codes "c.ne.s") quad n ready
    select_op-Emits blt quad n ready = branch-Emits (codes "blt") (codes "c.lt.s") quad n ready
    select_op-Emits bgt quad n ready = branch-Emits (codes "bgt") (codes "c.gt.s") quad n ready
    select_op-Emits blte quad n ready = branch-Emits (codes "ble") (codes "c.le.s") quad n ready
    select_op-Emits bgte quad n ready = branch-Emits (codes "bge") (codes "c.ge.s") quad n ready
    select_op-Emits prti quad n ready =
        name-Emits register_of quad.res _ (register_of-Names s) n ready.res
          λ r. (_, refl, (refl, (refl, (refl, tt))))
    select_op-Emits prtf quad n ready =
        name-Emits fregister_of quad.res _ (fregister_of-Names s) n ready.res
          λ r. (_, refl, (refl, (refl, (refl, tt))))
    select_op-Emits prts quad n ready =
        read-Emits quad.res _ n ready.res λ symbol. (_, refl, (refl, (refl, (refl, tt))))
    select_op-Emits ret quad n ready = (_, refl, (refl, tt))
    select_op-Emits max_quad quad n ready = ([], refl, tt)

    -- A quad whose operands have registers is translated without a fault, and leaves the state.
    pub select-Emits :
        (n : ℕ) (quad : Quad) → IsReady s.symbols quad → Emits (select raw_int n quad) s
    unfolding select
    select-Emits n quad ready =
        let (loads, run, plain) = load_operands-Emits s n quad ready in
        let (is, run', plain') = select_op-Emits quad.op quad ready.needs ready in
        (
          loads ++ is,
          rw (◌>>=◌, run, run') refl,
          All-append (λ i. i.is_label ≡ false) loads is plain plain',
        )
