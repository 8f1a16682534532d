-- ===== src/Actions/Jumps/Made.antt =====
-- src/parsing/actions.c: the conditions that `condition_compare_expressions` makes.
use matcc.Prelude.{
  ℕ, ◌+◌, ◌%◌, ◌^◌, ◌<◌, ◌≡◌, refl, ◌∙◌, ap, true, false, Option, none, some, [], ◌∷◌, ◌++◌,
  Returns, length, arith, ◌==◌, Text,
}
use mathlib.Core.List.{append_assoc}
use matcc.Types.{Ptr, Quad, QuadOp, b, text}
use matcc.Compiler.{Store, Compiler, Runtime, pure, ◌>>=◌, ◌>>◌, write, alloc, IsStore}
use matcc.Quad.{quad_new, quad_new_empty, quad_set_comment}
use matcc.QuadList.{quad_list_new, quad_list_concat}
use matcc.QuadList.Segments.{Cells}
use matcc.QuadList.Concat.{Sources, AreLists, quad_list_concat-Concatenated}
use matcc.QuadList.Fresh.{AreLists-insert}
use matcc.Actions.Expressions.{ExprAttr}
use matcc.Actions.Conditions.{condition_compare_expressions, to_true, to_false}
use matcc.Actions.Jumps.{IsComparison}

abbrev plain : QuadOp → Option Ptr → Option Ptr → Option Ptr → Quad
plain op res op1 op2 = record { op = op; res = res; op1 = op1; op2 = op2; comment = none }

abbrev with_quad : Compiler → Quad → Compiler
with_quad s quad = record s { quads = alloc s.quads quad; next_quad = (s.next_quad + 1) % 2 ^ 32 }

abbrev with_comment : Compiler → Ptr → Quad → Compiler
with_comment s p quad = record s { quads = write s.quads p quad }

abbrev with_node : Compiler → Ptr → Compiler
with_node s q = record s { nodes = alloc s.nodes (record { quad = q; successor = none }) }

-- A new quad with a comment and a list node of its own.
abbrev with_jump : Compiler → Quad → Text → Compiler
with_jump s quad comment =
    with_node
      (with_comment (with_quad s quad) s.quads.next (record quad { comment = some (text comment) }))
      s.quads.next

-- The cells of the two jumps that a comparison makes next.
abbrev pub true_jump : Compiler → Ptr × Ptr
true_jump s = (s.nodes.next, s.quads.next)

abbrev pub false_jump : Compiler → Ptr × Ptr
false_jump s = (s.nodes.next + 1, s.quads.next + 1)

distinct : (n : ℕ) → (n == n + 1) ≡ false
distinct n = ground arith

module _ (rt : Runtime) where
  -- The state when the two jumps of a comparison are made.
  abbrev compared : Compiler → QuadOp → Option Ptr → Option Ptr → Compiler
  compared s op symbol1 symbol2 =
      with_jump (with_jump s (plain op none symbol1 symbol2) to_true) (plain b none none none)
        to_false

  compare-run :
      (s : Compiler) (e1 e2 : ExprAttr) (op : QuadOp)
      → condition_compare_expressions rt e1 op e2 s
        ≡ (do
          code ←
              quad_list_concat rt
                (e1.code ∷ e2.code ∷ some s.nodes.next ∷ some (s.nodes.next + 1) ∷ [])
          pure (record {
            code = code;
            true_list = some s.nodes.next;
            false_list = some (s.nodes.next + 1);
          }))
            (compared s op e1.symbol e2.symbol)
  unfolding condition_compare_expressions quad_new_empty quad_new quad_set_comment quad_list_new
  compare-run s e1 e2 op =
      let same : (s.quads.next == s.quads.next) ≡ true = ground arith in
      let same' : (s.quads.next + 1 == s.quads.next + 1) ≡ true = ground arith in
      rw (same, ◌>>=◌, ◌>>◌, same')

  compared_lists :
      (s : Compiler) (e1 e2 : ExprAttr) (op : QuadOp) (xs ys : Cells)
      → AreLists s.nodes ((e1.code, xs) ∷ (e2.code, ys) ∷ [])
      → IsStore s.nodes
      → AreLists (compared s op e1.symbol e2.symbol).nodes (
          (e1.code, xs)
          ∷ (e2.code, ys)
          ∷ (some s.nodes.next, (s.nodes.next, s.quads.next) ∷ [])
          ∷ (some (s.nodes.next + 1), (s.nodes.next + 1, s.quads.next + 1) ∷ [])
          ∷ [])
  compared_lists s e1 e2 op xs ys l store =
      let h₁ = alloc s.nodes (record { quad = s.quads.next; successor = none }) in
      let new : h₁.cell h₁.next ≡ none = ground (arith, store.free (s.nodes.next + 1)) in
      let r : Sources =
        (e1.code, xs)
        ∷ (e2.code, ys)
        ∷ (some s.nodes.next, (s.nodes.next, s.quads.next) ∷ [])
        ∷ [] in
      AreLists-insert h₁ (s.quads.next + 1) r [] new (
        AreLists-insert s.nodes s.quads.next ((e1.code, xs) ∷ (e2.code, ys) ∷ []) []
          (store.free s.nodes.next (omega arith)) l)

  -- `a op b`: behind the code of the operands stand a quad that compares them and jumps, and an
  -- unconditional jump; neither has a label yet.
  pub compare-IsComparison :
      (s : Compiler) (e1 e2 : ExprAttr) (op : QuadOp) (xs ys : Cells)
      → AreLists s.nodes ((e1.code, xs) ∷ (e2.code, ys) ∷ [])
      → IsStore s.nodes
      → length (xs ++ ys ++ true_jump s ∷ false_jump s ∷ []) < rt.fuel
      → Returns (condition_compare_expressions rt e1 op e2 s) λ r.
        IsComparison r.1 r.0 (xs ++ ys) (true_jump s) (false_jump s)
        × (r.1.quads.cell s.quads.next
            ≡ some (record {
              op = op;
              res = none;
              op1 = e1.symbol;
              op2 = e2.symbol;
              comment = some (text to_true);
            }))
        × (r.1.quads.cell (s.quads.next + 1)
            ≡ some (record {
              op = b;
              res = none;
              op1 = none;
              op2 = none;
              comment = some (text to_false);
            }))
  compare-IsComparison s e1 e2 op xs ys l store lt =
      let s' = compared s op e1.symbol e2.symbol in
      let t = true_jump s in
      let f = false_jump s in
      let (out, run, c) =
        quad_list_concat-Concatenated rt s'
          ((e1.code, xs) ∷ (e2.code, ys) ∷ (some t.0, t ∷ []) ∷ (some f.0, f ∷ []) ∷ [])
          (compared_lists s e1 e2 op xs ys l store) (rw (← append_assoc xs ys (t ∷ f ∷ [])) lt) in
      let quads : out.1.quads ≡ s'.quads = ap (λ (u : Compiler). u.quads) c.only in
      let quad_t = ap (λ (u : Store Quad). u.cell t.1) quads ∙ ground arith in
      let quad_f = ap (λ (u : Store Quad). u.cell f.1) quads ∙ ground arith in
      (
        (record { code = out.0; true_list = some t.0; false_list = some f.0 }, out.1),
        rw (compare-run s e1 e2 op, ◌>>=◌, run),
        (
          record {
            code = rw (append_assoc xs ys (t ∷ f ∷ [])) c.list;
            true_list = refl;
            false_list = refl;
            jumps = ((_, quad_t), ((_, quad_f), tt));
            differ = distinct s.quads.next;
          },
          quad_t,
          quad_f,
        ),
      )
