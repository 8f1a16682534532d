-- ===== src/Actions/ForLoops.antt =====
-- src/parsing/actions.c: `control_for`, the control structure that adds two jumps of its own.
use matcc.Prelude.{
  ◌+◌, ◌<◌, ◌≡◌, ◌∙◌, ap, subst, false, Option, none, some, [], ◌∷◌, ◌++◌, Returns, codes, length,
  arith, ◌==◌,
}
use matcc.Types.{Ptr, Quad}
use matcc.Compiler.{Compiler, Runtime, IsStore, ◌>>=◌, ◌>>◌}
use matcc.QuadList.{quad_list_new}
use matcc.QuadList.Segments.{Cells, IsList}
use matcc.QuadList.Concat.{Sources, AreLists, quad_list_concat-Concatenated}
use matcc.QuadList.Fresh.{AreLists-insert, IsStore-alloc}
use matcc.Actions.Expressions.{ExprAttr}
use matcc.Actions.Conditions.{CondAttr}
use matcc.Actions.Control.{control_for}
use matcc.Actions.Code.{patched, Waits, complete_both}
use matcc.Actions.Loops.{goto_quad, with_goto, jump_to-with_goto, with_node}

-- The result with the jumps `g` and `k`: their quads are new, the jumps of the condition are patched,
-- and every other quad is as it was.
pub record ForJumps (s : Compiler) (xs ts fs : Cells) (l1 l2 : Option Ptr) (g k : Quad)
    (r : Option Ptr × Compiler) : Type 0 where
  pub list : IsList r.1.nodes r.0 xs
  pub to_condition : r.1.quads.cell s.quads.next ≡ some g
  pub to_iteration : r.1.quads.cell (s.quads.next + 1) ≡ some k
  pub quads :
      (q : Ptr)
      → (s.quads.next == q) ≡ false
      → (s.quads.next + 1 == q) ≡ false
      → r.1.quads.cell q ≡ patched ts fs l1 l2 q (s.quads.cell q)

module _ (rt : Runtime) (s : Compiler) (declaration iteration : ExprAttr) (c : CondAttr)
    (condition_tag iteration_tag statements_tag statements end_tag : Option Ptr)
    (ds cs is xs ts fs : Cells) where
  -- The code of the loop, with the jumps at the quads `q` and `q + 1`.
  abbrev pub for_cells : Ptr → Cells
  for_cells q = ds ++ (cs ++ (is ++ (s.nodes.next, q) ∷ (xs ++ (s.nodes.next + 1, q + 1) ∷ [])))

  -- `control_for`, of parts that share no node and fit the fuel, with a condition whose jumps wait to
  -- be completed: the code is the declaration, the condition, the iteration, a jump to the condition,
  -- the statements and a jump to the iteration. The true jumps of the condition lead to the
  -- statements and the others to the end, and no other quad is written.
  pub control_for-ForJumps :
      Waits s c ts fs
      → AreLists s.nodes
          ((declaration.code, ds) ∷ (c.code, cs) ∷ (iteration.code, is) ∷ (statements, xs) ∷ [])
      → IsStore s.nodes
      → length ts < rt.fuel
      → length fs < rt.fuel
      → length (for_cells s.quads.next) < rt.fuel
      → Returns
          (control_for rt declaration condition_tag c iteration_tag iteration statements_tag
            statements end_tag s)
          (ForJumps s
            (for_cells s.quads.next)
            ts
            fs
            statements_tag
            end_tag
            (goto_quad condition_tag (codes "jump to the condition of for control"))
            (goto_quad iteration_tag (codes "jump to the iteration of for control")))
  unfolding control_for quad_list_new
  control_for-ForJumps w l store lt lf ll =
      let (s₁, h, run₁, run₂, p) = complete_both rt s c ts fs statements_tag end_tag w lt lf in
      let text1 = codes "jump to the condition of for control" in
      let text2 = codes "jump to the iteration of for control" in
      let s2 : Compiler = with_goto (record s { quads = h }) condition_tag text1 in
      let s3 : Compiler = with_goto s2 iteration_tag text2 in
      let s4 : Compiler = with_node (with_node s3 h.next) (h.next + 1) in
      let n = s.nodes.next in
      let r₁ : Sources = (declaration.code, ds) ∷ (c.code, cs) ∷ (iteration.code, is) ∷ [] in
      let free = store.free n (omega arith) in
      let once = AreLists-insert s.nodes h.next r₁ ((statements, xs) ∷ []) free l in
      let store' = IsStore-alloc s.nodes (record { quad = h.next; successor = none }) store in
      let lists =
        AreLists-insert (with_node s3 h.next).nodes (h.next + 1)
          (r₁ ++ (some n, (n, h.next) ∷ []) ∷ (statements, xs) ∷ []) []
          (store'.free (n + 1) (omega arith)) once in
      let (out, run, done) =
        quad_list_concat-Concatenated rt s4
          (r₁
            ++ (some n, (n, h.next) ∷ [])
              ∷ (statements, xs)
              ∷ (some (n + 1), (n + 1, h.next + 1) ∷ [])
              ∷ [])
          lists (rw p.next ll) in
      (
        out,
        rw
            (
              run₁,
              ◌>>=◌,
              ◌>>◌,
              run₂,
              jump_to-with_goto (record s { quads = h }) condition_tag text1,
              jump_to-with_goto s2 iteration_tag text2,
            )
            run,
        record {
          list = subst (λ q. IsList out.1.nodes out.0 (for_cells q)) p.next done.list;
          to_condition =
              ap (λ (t : Compiler). t.quads.cell s.quads.next) done.only ∙ ground (arith, p.next);
          to_iteration =
              ap (λ (t : Compiler). t.quads.cell (s.quads.next + 1)) done.only
              ∙ ground (arith, p.next);
          quads = λ q ne ne'.
              ap (λ (t : Compiler). t.quads.cell q) done.only ∙ ground (arith, p.next, p.patch q);
        },
      )
