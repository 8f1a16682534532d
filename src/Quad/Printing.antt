-- ===== src/Quad/Printing.antt =====
-- src/quad.c: `quad_print`. The text of a comment is what `quad_set_comment` left in its buffer.
use matcc.Prelude.{ℕ, Option, none, some, [], ◌∷◌, ◌++◌, Outcome, ok, fault, Text, codes, take}
use matcc.Format.{format_int, pad}
use matcc.Types.{
  Ptr, InitialValue, int_of, QuadOp, nop, move, neg, add, sub, mul, div, b, be, bne, blt, bgt, blte,
  bgte, prti, prtf, prts, ret, max_quad, Comment, text, assigned, Quad,
}
use matcc.Compiler.{M, pure, ◌>>=◌, lift, symbol_at}

-- QUAD_OP_STR: there is no element at MAX_QUAD.
abbrev pub quad_op_str : QuadOp → Outcome Text
quad_op_str nop = ok (codes "nop")
quad_op_str move = ok (codes "move")
quad_op_str neg = ok (codes "neg")
quad_op_str add = ok (codes "add")
quad_op_str sub = ok (codes "sub")
quad_op_str mul = ok (codes "mul")
quad_op_str div = ok (codes "div")
quad_op_str b = ok (codes "b")
quad_op_str be = ok (codes "be")
quad_op_str bne = ok (codes "bne")
quad_op_str blt = ok (codes "blt")
quad_op_str bgt = ok (codes "bgt")
quad_op_str blte = ok (codes "blte")
quad_op_str bgte = ok (codes "bgte")
quad_op_str prti = ok (codes "prti")
quad_op_str prtf = ok (codes "prtf")
quad_op_str prts = ok (codes "prts")
quad_op_str ret = ok (codes "ret")
quad_op_str max_quad = fault

-- `p ? p->name : "?"`
unfoldable pub name_or_mark : Option Ptr → M Text
name_or_mark none = pure (codes "?")
name_or_mark (some p) = do s ← symbol_at (some p); pure s.name

-- The three formats for the operands: the last two leave the columns of missing ones blank.
unfoldable pub operand_columns : Option Ptr → Option Ptr → Option Ptr → M Text
unfolding name_or_mark pad
operand_columns res op1 (some op2) = do
  name0 ← name_or_mark res
  name1 ← name_or_mark op1
  name2 ← name_or_mark (some op2)
  pure (pad 6 name0 ++ (b' ' ∷ (pad 6 name1 ++ (b' ' ∷ (pad 6 name2 ++ codes " ")))))
operand_columns res (some op1) none = do
  name0 ← name_or_mark res
  name1 ← name_or_mark (some op1)
  pure (pad 6 name0 ++ (b' ' ∷ (pad 6 name1 ++ codes "        ")))
operand_columns res none none = do
  name0 ← name_or_mark res
  pure (pad 6 name0 ++ codes "               ")

module _ (raw_int : InitialValue → ℕ) where
  -- The text in the buffer of 64 bytes of `quad_set_comment`.
  unfoldable pub comment_text : Comment → Text
  unfolding format_int
  comment_text (text t) = take 63 t
  comment_text (assigned name value) =
      take 63 (name ++ (codes " = " ++ format_int (int_of raw_int value)))

  abbrev pub comment_of : Option Comment → Option Text
  comment_of none = none
  comment_of (some comment) = some (comment_text comment)

  abbrev pub comment_columns : Option Comment → Text
  comment_columns none = []
  comment_columns (some comment) = codes " # " ++ comment_text comment

  unfoldable pub quad_print : Quad → M Text
  unfolding pad operand_columns
  quad_print quad = do
    op ← lift (quad_op_str quad.op)
    operands ← operand_columns quad.res quad.op1 quad.op2
    pure (pad 4 op ++ (operands ++ (comment_columns quad.comment ++ b'\n' ∷ [])))
