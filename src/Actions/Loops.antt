-- ===== src/Actions/Loops.antt =====
-- src/parsing/actions.c: the control structures that add a jump of their own, `control_if_else`
-- and `control_while`.
use matcc.Prelude.{
  ◌+◌, ◌%◌, ◌^◌, ◌<◌, ◌≡◌, refl, ◌∙◌, ap, false, Option, none, some, [], ◌∷◌, ◌++◌, ok, Returns,
  Text, codes, length, arith, ◌==◌,
}
use mathlib.Core.List.{append-nil}
use matcc.Types.{Ptr, Quad, b, text}
use matcc.Compiler.{Store, Compiler, Runtime, ◌>>=◌, ◌>>◌, write, alloc}
use matcc.Quad.{quad_new, quad_set_comment}
use matcc.QuadList.{quad_list_new, quad_list_concat}
use matcc.QuadList.Segments.{Cells, IsList}
use matcc.QuadList.Concat.{Sources, pointers, cells, AreLists, quad_list_concat-Concatenated}
use matcc.QuadList.Fresh.{AreLists-insert}
use matcc.Actions.Conditions.{CondAttr}
use matcc.Actions.Control.{jump_to, control_if_else, control_while}
use matcc.Actions.Code.{patched, Waits, Patched, complete_both}

-- An unconditional jump to the label.
abbrev pub goto_quad : Option Ptr → Text → Quad
goto_quad label comment = record {
  op = b;
  res = label;
  op1 = none;
  op2 = none;
  comment = some (text comment);
}

-- The state with one more quad.
abbrev pub with_goto : Compiler → Option Ptr → Text → Compiler
with_goto s label comment = record s {
  quads =
      write (alloc s.quads (record (goto_quad label comment) { comment = none })) s.quads.next
        (goto_quad label comment);
  next_quad = (s.next_quad + 1) % 2 ^ 32;
}

pub jump_to-with_goto :
    (s : Compiler) (label : Option Ptr) (comment : Text)
    → jump_to label comment s ≡ ok (s.quads.next, with_goto s label comment)
unfolding jump_to quad_new quad_set_comment
jump_to-with_goto s label comment = ground arith

-- The state with one more list node.
abbrev pub with_node : Compiler → Ptr → Compiler
with_node s q = record s { nodes = alloc s.nodes (record { quad = q; successor = none }) }

-- The result of a control structure with the jump `g`: the new quad stands at address `g`, the jumps
-- of the condition are patched, every other quad is as it was, and one more quad is counted.
pub record Jumps (s : Compiler) (xs ts fs : Cells) (l1 l2 : Option Ptr) (g : Quad)
    (r : Option Ptr × Compiler) : Type 0 where
  pub list : IsList r.1.nodes r.0 xs
  pub jump : r.1.quads.cell s.quads.next ≡ some g
  pub quads :
      (q : Ptr)
      → (s.quads.next == q) ≡ false
      → r.1.quads.cell q ≡ patched ts fs l1 l2 q (s.quads.cell q)
  pub next : r.1.quads.next ≡ s.quads.next + 1
  pub next_quad : r.1.next_quad ≡ (s.next_quad + 1) % 2 ^ 32

module _ (rt : Runtime) where
  -- The state before the concatenation: the patched quads, the new jump and its node.
  abbrev ready : Compiler → Store Quad → Option Ptr → Text → Compiler
  ready s h label comment = with_node (with_goto (record s { quads = h }) label comment) h.next

  concat_jump :
      (s : Compiler) (h : Store Quad) (label : Option Ptr) (comment : Text) (ts fs : Cells)
      (l1 l2 : Option Ptr) (r₁ r₂ : Sources) (xs : Cells)
      → cells (r₁ ++ (some s.nodes.next, (s.nodes.next, s.quads.next) ∷ []) ∷ r₂) ≡ xs
      → Patched s.quads ts fs l1 l2 h
      → AreLists s.nodes (r₁ ++ r₂)
      → s.nodes.cell s.nodes.next ≡ none
      → length xs < rt.fuel
      → Returns
          (quad_list_concat rt
            (pointers (r₁ ++ (some s.nodes.next, (s.nodes.next, s.quads.next) ∷ []) ∷ r₂))
            (ready s h label comment))
          (Jumps s xs ts fs l1 l2 (goto_quad label comment))
  concat_jump s h label comment ts fs l1 l2 r₁ r₂ xs e p l free lt =
      let r = r₁ ++ (some s.nodes.next, (s.nodes.next, s.quads.next) ∷ []) ∷ r₂ in
      let s' = ready s h label comment in
      let lists : AreLists s'.nodes r =
        rw (← p.next) (AreLists-insert s.nodes h.next r₁ r₂ free l) in
      let (out, run, c) = quad_list_concat-Concatenated rt s' r lists (rw e lt) in
      (
        out,
        run,
        record {
          list = rw (← e) c.list;
          jump = ap (λ (t : Compiler). t.quads.cell s.quads.next) c.only ∙ ground (arith, p.next);
          quads = λ q ne.
              ap (λ (t : Compiler). t.quads.cell q) c.only ∙ ground (arith, p.next, p.patch q);
          next = ap (λ (t : Compiler). t.quads.next) c.only ∙ ap (λ k. k + 1) p.next;
          next_quad = ap (λ (t : Compiler). t.next_quad) c.only;
        },
      )

  -- When the jump lists of the condition end in NULL and fit the fuel and their quads are there, the
  -- lists of the condition's code and of the statements end in NULL and share no node, the next node is
  -- free and the fuel is enough: the code of `control_while` is the condition, the statements and a new
  -- jump to the condition's tag. The jumps of the false list get the end tag, those of the true list
  -- alone the tag of the statements; no other quad is changed, and one more is counted.
  pub control_while-Jumps :
      (s : Compiler) (c : CondAttr) (condition_tag statements_tag statements end_tag : Option Ptr)
      (cs xs ts fs : Cells)
      → Waits s c ts fs
      → AreLists s.nodes ((c.code, cs) ∷ (statements, xs) ∷ [])
      → s.nodes.cell s.nodes.next ≡ none
      → length ts < rt.fuel
      → length fs < rt.fuel
      → length (cs ++ (xs ++ (s.nodes.next, s.quads.next) ∷ [])) < rt.fuel
      → Returns (control_while rt condition_tag c statements_tag statements end_tag s) (
          Jumps s
            (cs ++ (xs ++ (s.nodes.next, s.quads.next) ∷ []))
            ts
            fs
            statements_tag
            end_tag
            (goto_quad condition_tag (codes "jump to the condition of while control")))
  unfolding control_while quad_list_new
  control_while-Jumps s c condition_tag statements_tag statements end_tag cs xs ts fs w l free lt lf
        ll =
      let (s₁, h, run₁, run₂, p) = complete_both rt s c ts fs statements_tag end_tag w lt lf in
      let comment = codes "jump to the condition of while control" in
      rw (run₁, ◌>>=◌, ◌>>◌, run₂, jump_to-with_goto (record s { quads = h }) condition_tag comment)
        (concat_jump s h condition_tag comment ts fs statements_tag end_tag
          ((c.code, cs) ∷ (statements, xs) ∷ []) []
          (cs ++ (xs ++ (s.nodes.next, s.quads.next) ∷ [])) refl p l free ll)

  -- When the jump lists of the condition end in NULL and fit the fuel and their quads are there, the
  -- lists of the condition's code and of the two branches end in NULL and share no node, the next node
  -- is free and the fuel is enough: the code of `control_if_else` is the condition, the true statements,
  -- a new jump to the end tag and the false statements. The jumps of the false list get the false tag,
  -- those of the true list alone the true tag; no other quad is changed, and one more is counted.
  pub control_if_else-Jumps :
      (s : Compiler) (c : CondAttr)
      (true_tag true_statements false_tag false_statements end_tag : Option Ptr)
      (cs xs ys ts fs : Cells)
      → Waits s c ts fs
      → AreLists s.nodes ((c.code, cs) ∷ (true_statements, xs) ∷ (false_statements, ys) ∷ [])
      → s.nodes.cell s.nodes.next ≡ none
      → length ts < rt.fuel
      → length fs < rt.fuel
      → length (cs ++ (xs ++ (s.nodes.next, s.quads.next) ∷ ys)) < rt.fuel
      → Returns
          (control_if_else rt c true_tag true_statements false_tag false_statements end_tag s)
          (Jumps s
            (cs ++ (xs ++ (s.nodes.next, s.quads.next) ∷ ys))
            ts
            fs
            true_tag
            false_tag
            (goto_quad end_tag (codes "jump to the end of if-else control")))
  unfolding control_if_else quad_list_new
  control_if_else-Jumps s c true_tag true_statements false_tag false_statements end_tag cs xs ys ts
        fs w l free lt lf ll =
      let (s₁, h, run₁, run₂, p) = complete_both rt s c ts fs true_tag false_tag w lt lf in
      let comment = codes "jump to the end of if-else control" in
      rw (run₁, ◌>>=◌, ◌>>◌, run₂, jump_to-with_goto (record s { quads = h }) end_tag comment)
        (concat_jump s h end_tag comment ts fs true_tag false_tag
          ((c.code, cs) ∷ (true_statements, xs) ∷ []) ((false_statements, ys) ∷ [])
          (cs ++ (xs ++ (s.nodes.next, s.quads.next) ∷ ys))
          (ap (λ t. cs ++ (xs ++ (s.nodes.next, s.quads.next) ∷ t)) (append-nil ys)) p l free ll)
