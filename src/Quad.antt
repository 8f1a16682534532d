-- ===== src/Quad.antt =====
-- src/quad.c: new quads. `next_quad` counts them.
pub mod Printing
use matcc.Prelude.{◌+◌, ◌%◌, ◌^◌, Option, none, some, ok}
use matcc.Types.{Ptr, QuadOp, Comment}
use matcc.Compiler.{M, ◌>>=◌, alloc, quad_at, set_quad}

unfoldable pub quad_new : QuadOp → Option Ptr → Option Ptr → Option Ptr → M Ptr
quad_new op res op1 op2 s = ok (
  s.quads.next,
  record s {
    quads = alloc s.quads (record { op = op; res = res; op1 = op1; op2 = op2; comment = none });
    next_quad = (s.next_quad + 1) % 2 ^ 32;
  },
)

unfoldable pub quad_new_empty : QuadOp → M Ptr
quad_new_empty op = quad_new op none none none

-- The text is cut to the 63 bytes of its buffer.
unfoldable pub quad_set_comment : Ptr → Comment → M (Unit {0})
quad_set_comment p comment = do
  quad ← quad_at (some p)
  set_quad p (record quad { comment = some comment })
