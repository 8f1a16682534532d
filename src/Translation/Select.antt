-- ===== src/Translation/Select.antt =====
-- src/mips/translation.c: the body of the loop of `generate_code`, the loads and the instructions of
-- one quad.
use matcc.Prelude.{
  ℕ, Bool, true, false, Option, none, some, List, [], ◌∷◌, ◌++◌, Outcome, fault, Text, codes, ◌==◌,
  if◌then◌else◌,
}
use matcc.Format.{format_int, snprintf}
use matcc.Types.{
  Ptr, SymbolType, int, float, string, matrix, InitialValue, int_of, Point, point_init, at, QuadOp,
  nop, move, neg, add, sub, mul, div, b, be, bne, blt, bgt, blte, bgte, prti, prtf, prts, ret,
  max_quad, Quad,
}
use matcc.Compiler.{M, pure, ◌>>=◌, lift, symbol_at}
use matcc.Registers.{element}
use matcc.Instructions.{Instruction, instruction_new}

-- REG_STR and FREG_STR.
abbrev pub reg_str : List Text
reg_str =
    codes "$t0"
    ∷ codes "$t1"
    ∷ codes "$t2"
    ∷ codes "$t3"
    ∷ codes "$t4"
    ∷ codes "$t5"
    ∷ codes "$t6"
    ∷ codes "$t7"
    ∷ []

abbrev pub freg_str : List Text
freg_str =
    codes "$f0"
    ∷ codes "$f1"
    ∷ codes "$f2"
    ∷ codes "$f3"
    ∷ codes "$f4"
    ∷ codes "$f5"
    ∷ codes "$f6"
    ∷ codes "$f7"
    ∷ codes "$f8"
    ∷ codes "$f9"
    ∷ codes "$f10"
    ∷ codes "$f11"
    ∷ codes "$f12"
    ∷ codes "$f13"
    ∷ codes "$f14"
    ∷ codes "$f15"
    ∷ []

-- An element of one of them: REGISTER_NONE is out of bounds.
abbrev pub name_in : List Text → Option ℕ → Outcome Text
name_in names none = fault
name_in names (some reg) = element names reg

-- `REG_STR[p->affected_register]` and `FREG_STR[p->affected_register]`
unfoldable pub register_of : Option Ptr → M Text
register_of p = do s ← symbol_at p; lift (name_in reg_str s.affected_register)

unfoldable pub fregister_of : Option Ptr → M Text
fregister_of p = do s ← symbol_at p; lift (name_in freg_str s.affected_register)

abbrev pub is_float : SymbolType → Bool
is_float float = true
is_float int = false
is_float string = false
is_float matrix = false

abbrev pub starts_at : Point → ℕ → Bool
starts_at point_init quad_counter = false
starts_at (at n) quad_counter = n == quad_counter

unfoldable pub load_symbol_in_register : Ptr → M (List Instruction)
unfolding register_of fregister_of
load_symbol_in_register p = do
  s ← symbol_at (some p)
  if is_float s.type
      then (do
        r ← fregister_of (some p)
        pure (instruction_new (codes "l.s") (some r) (some s.name) none ∷ []))
      else (do
        r ← register_of (some p)
        pure (instruction_new (codes "lw") (some r) (some s.name) none ∷ []))

-- An operand that is named here for the first time is loaded.
unfoldable pub load_at : ℕ → Option Ptr → M (List Instruction)
unfolding load_symbol_in_register
load_at quad_counter none = pure []
load_at quad_counter (some p) = do
  s ← symbol_at (some p)
  if starts_at s.start_point quad_counter then load_symbol_in_register p else pure []

-- The operations whose `res` is not loaded. BE is not among them.
abbrev pub skips_res : QuadOp → Bool
skips_res b = true
skips_res bne = true
skips_res blt = true
skips_res bgt = true
skips_res blte = true
skips_res bgte = true
skips_res prts = true
skips_res nop = false
skips_res move = false
skips_res neg = false
skips_res add = false
skips_res sub = false
skips_res mul = false
skips_res div = false
skips_res be = false
skips_res prti = false
skips_res prtf = false
skips_res ret = false
skips_res max_quad = false

unfoldable pub load_operands : ℕ → Quad → M (List Instruction)
unfolding load_at
load_operands quad_counter quad = do
  is0 ← if skips_res quad.op then pure [] else load_at quad_counter quad.res
  is1 ← load_at quad_counter quad.op1
  is2 ← load_at quad_counter quad.op2
  pure (is0 ++ (is1 ++ is2))

-- `opcode r1, r2` and `opcode r1, r2, r3`, with the names of the registers.
unfoldable pub two : (Option Ptr → M Text) → Text → Option Ptr → Option Ptr → M (List Instruction)
two name opcode p q = do
  r1 ← name p
  r2 ← name q
  pure (instruction_new opcode (some r1) (some r2) none ∷ [])

unfoldable pub three :
    (Option Ptr → M Text) → Text → Option Ptr → Option Ptr → Option Ptr → M (List Instruction)
three name opcode p q r = do
  r1 ← name p
  r2 ← name q
  r3 ← name r
  pure (instruction_new opcode (some r1) (some r2) (some r3) ∷ [])

-- A system call with its number and the instruction that sets its argument.
abbrev pub system_call : Text → Instruction → List Instruction
system_call number argument =
    instruction_new (codes "li") (some (codes "$v0")) (some number) none
    ∷ argument
    ∷ instruction_new (codes "syscall") none none none
    ∷ []

-- The branches by type: a symbol of another type gives no instruction.
unfoldable pub by_type :
    SymbolType → M (List Instruction) → M (List Instruction) → M (List Instruction)
by_type int on_int on_float = on_int
by_type float on_int on_float = on_float
by_type string on_int on_float = pure []
by_type matrix on_int on_float = pure []

unfoldable pub arithmetic : Text → Text → Quad → M (List Instruction)
unfolding by_type three
arithmetic int_opcode float_opcode quad = do
  s ← symbol_at quad.res
  by_type s.type (three register_of int_opcode quad.res quad.op1 quad.op2)
      (three fregister_of float_opcode quad.res quad.op1 quad.op2)

-- `snprintf(temp_str, 32, "L%d", value)`
unfoldable pub label_text : ℕ → Text
unfolding snprintf format_int
label_text value = snprintf 32 (b'L' ∷ format_int value)

-- The operands of a comparing jump, with the label as the third.
unfoldable pub compare_jump : (Option Ptr → M Text) → Text → Quad → Text → M (List Instruction)
compare_jump name opcode quad label = do
  r1 ← name quad.op1
  r2 ← name quad.op2
  pure (instruction_new opcode (some r1) (some r2) (some label) ∷ [])

module _ (raw_int : InitialValue → ℕ) where
  unfoldable pub target_of : Option Ptr → M Text
  target_of p = do s ← symbol_at p; pure (label_text (int_of raw_int s.initial_value))

  unfoldable pub branch : Text → Text → Quad → M (List Instruction)
  unfolding target_of compare_jump by_type
  branch int_opcode float_opcode quad = do
    label ← target_of quad.res
    s ← symbol_at quad.op1
    by_type s.type (compare_jump register_of int_opcode quad label)
        (compare_jump fregister_of float_opcode quad label)

  -- The switch on the operation.
  unfoldable pub select_op : QuadOp → Quad → M (List Instruction)
  unfolding register_of fregister_of two by_type arithmetic target_of branch
  select_op nop quad = pure (instruction_new (codes "nop") none none none ∷ [])
  select_op move quad = do
    s ← symbol_at quad.res
    if is_float s.type
        then two fregister_of (codes "mov.s") quad.res quad.op1
        else two register_of (codes "move") quad.res quad.op1
  select_op neg quad = do
    s ← symbol_at quad.res
    by_type s.type (two register_of (codes "neg") quad.res quad.op1)
        (two fregister_of (codes "neg.s") quad.res quad.op1)
  select_op add quad = arithmetic (codes "add") (codes "add.s") quad
  select_op sub quad = arithmetic (codes "sub") (codes "sub.s") quad
  select_op mul quad = arithmetic (codes "mul") (codes "mul.s") quad
  select_op div quad = arithmetic (codes "div") (codes "div.s") quad
  select_op b quad = do
    label ← target_of quad.res
    pure (instruction_new (codes "b") (some label) none none ∷ [])
  select_op be quad = branch (codes "beq") (codes "c.eq.s") quad
  select_op bne quad = branch (codes "bne") (codes "c.ne.s") quad
  select_op blt quad = branch (codes "blt") (codes "c.lt.s") quad
  select_op bgt quad = branch (codes "bgt") (codes "c.gt.s") quad
  select_op blte quad = branch (codes "ble") (codes "c.le.s") quad
  select_op bgte quad = branch (codes "bge") (codes "c.ge.s") quad
  select_op prti quad = do
    r ← register_of quad.res
    pure (
        system_call (codes "1") (instruction_new (codes "move") (some (codes "$a0")) (some r) none))
  select_op prtf quad = do
    r ← fregister_of quad.res
    pure (
        system_call (codes "2")
          (instruction_new (codes "mov.s") (some (codes "$f12")) (some r) none))
  select_op prts quad = do
    s ← symbol_at quad.res
    pure (
        system_call (codes "4")
          (instruction_new (codes "la") (some (codes "$a0")) (some s.name) none))
  select_op ret quad = pure (instruction_new (codes "jal") (some (codes "$ra")) none none ∷ [])
  select_op max_quad quad = pure []

  -- What one quad adds behind its label.
  unfoldable pub select : ℕ → Quad → M (List Instruction)
  unfolding select_op load_operands
  select quad_counter quad = do
    loads ← load_operands quad_counter quad
    instructions ← select_op quad.op quad
    pure (loads ++ instructions)
