-- ===== src/Actions/Code.antt =====
-- src/parsing/actions.c: the control structures without a jump of their own, `control_if` and
-- `control_do_while`.
use matcc.Prelude.{
  ◌<◌, ◌≡◌, refl, ◌∙◌, ap, Bool, true, false, Option, none, some, [], ◌∷◌, ◌++◌, ok, Returns,
  length, arith, if◌then◌else◌,
}
use mathlib.Core.List.{append-nil}
use matcc.Types.{Ptr, Quad}
use matcc.Compiler.{Store, Compiler, Runtime, ◌>>=◌, ◌>>◌}
use matcc.QuadList.{quad_list_complete, quad_list_concat}
use matcc.QuadList.Segments.{Cells, has_quad, Seg, IsList}
use matcc.QuadList.Concat.{Sources, pointers, cells, AreLists, quad_list_concat-Concatenated}
use matcc.QuadList.Complete.{HasQuads, with_res, Completed, quad_list_complete-Completed}
use matcc.Actions.Conditions.{CondAttr}
use matcc.Actions.Control.{control_if, control_do_while}

-- The jumps that wait on `ts` got the label `l1`, and then those on `fs` the label `l2`.
abbrev pub patched : Cells → Cells → Option Ptr → Option Ptr → Ptr → Option Quad → Option Quad
patched ts fs l1 l2 q quad =
    if has_quad q fs then with_res l2 quad else (if has_quad q ts then with_res l1 quad else quad)

-- The lists of jumps of a condition, with their quads.
pub record Waits (s : Compiler) (c : CondAttr) (ts fs : Cells) : Type 0 where
  pub true_jumps : Seg s.nodes c.true_list ts none
  pub false_jumps : Seg s.nodes c.false_list fs none
  pub true_quads : HasQuads s ts
  pub false_quads : HasQuads s fs

pub record Patched (quads : Store Quad) (ts fs : Cells) (l1 l2 : Option Ptr) (h : Store Quad)
    : Type 0 where
  pub next : h.next ≡ quads.next
  pub patch : (q : Ptr) → h.cell q ≡ patched ts fs l1 l2 q (quads.cell q)

-- The result of a control structure: one list of the cells, and the jumps of the condition patched.
pub record Controls (s : Compiler) (xs ts fs : Cells) (l1 l2 : Option Ptr)
    (r : Option Ptr × Compiler) : Type 0 where
  pub list : IsList r.1.nodes r.0 xs
  pub quads : (q : Ptr) → r.1.quads.cell q ≡ patched ts fs l1 l2 q (s.quads.cell q)
  pub symbols : r.1.symbols ≡ s.symbols

pub HasQuads-Completed :
    (xs ys : Cells) (l : Option Ptr) (s s' : Compiler)
    → Completed xs l s s'
    → HasQuads s ys
    → HasQuads s' ys
HasQuads-Completed xs [] l s s' c h = tt
HasQuads-Completed xs ((a, q) ∷ ys) l s s' c ((quad, e), h) =
    (found (has_quad q xs) refl, HasQuads-Completed xs ys l s s' c h)
  where
    found : (t : Bool) → has_quad q xs ≡ t → (r : Quad) × (s'.quads.cell q ≡ some r)
    found true t = (record quad { res = l }, ground (arith, c.quads q))
    found false t = (quad, ground (arith, c.quads q))

module _ (rt : Runtime) where
  -- The two completions that every control structure begins with.
  pub complete_both :
      (s : Compiler) (c : CondAttr) (ts fs : Cells) (l1 l2 : Option Ptr)
      → Waits s c ts fs
      → length ts < rt.fuel
      → length fs < rt.fuel
      → (s₁ : Compiler) × (h : Store Quad) × (quad_list_complete rt c.true_list l1 s ≡ ok (tt, s₁))
        × (quad_list_complete rt c.false_list l2 s₁ ≡ ok (tt, record s { quads = h }))
        × Patched s.quads ts fs l1 l2 h
  complete_both s c ts fs l1 l2 w lt lf =
      let (s₁, run₁, done₁) =
        quad_list_complete-Completed rt s c.true_list l1 ts w.true_jumps w.true_quads lt in
      let nodes : s₁.nodes ≡ s.nodes = ap (λ (t : Compiler). t.nodes) done₁.only in
      let (s₂, run₂, done₂) =
        quad_list_complete-Completed rt s₁ c.false_list l2 fs (rw nodes w.false_jumps)
          (HasQuads-Completed ts fs l1 s s₁ done₁ w.false_quads) lf in
      let only : s₂ ≡ record s { quads = s₂.quads } =
        done₂.only ∙ ap (λ (t : Compiler). record t { quads = s₂.quads }) done₁.only in
      (
        s₁,
        s₂.quads,
        run₁,
        run₂ ∙ ap (λ (t : Compiler). ok (tt, t)) only,
        record {
          next = done₂.next ∙ done₁.next;
          patch = λ q. ground (arith, done₁.quads q, done₂.quads q);
        },
      )

  concat-Controls :
      (s : Compiler) (h : Store Quad) (ts fs : Cells) (l1 l2 : Option Ptr) (r : Sources)
      (xs : Cells)
      → cells r ≡ xs
      → Patched s.quads ts fs l1 l2 h
      → AreLists s.nodes r
      → length xs < rt.fuel
      → Returns
          (quad_list_concat rt (pointers r) (record s { quads = h }))
          (Controls s xs ts fs l1 l2)
  concat-Controls s h ts fs l1 l2 r xs e p l lt =
      let (out, run, c) = quad_list_concat-Concatenated rt (record s { quads = h }) r l (rw e lt) in
      (
        out,
        run,
        record {
          list = rw (← e) c.list;
          quads = λ q. ap (λ (t : Compiler). t.quads.cell q) c.only ∙ p.patch q;
          symbols = ap (λ (t : Compiler). t.symbols) c.only;
        },
      )

  -- When the jump lists of the condition end in NULL and fit the fuel and their quads are there, and the
  -- lists of the condition's code and of the statements end in NULL, share no node and fit the fuel: the
  -- code of `control_if` is the condition and the statements. The jumps of the false list get the end
  -- tag, those of the true list alone the tag of the statements; no other quad and no symbol is changed.
  pub control_if-Controls :
      (s : Compiler) (c : CondAttr) (true_tag true_statements end_tag : Option Ptr)
      (cs xs ts fs : Cells)
      → Waits s c ts fs
      → AreLists s.nodes ((c.code, cs) ∷ (true_statements, xs) ∷ [])
      → length ts < rt.fuel
      → length fs < rt.fuel
      → length (cs ++ xs) < rt.fuel
      → Returns
          (control_if rt c true_tag true_statements end_tag s)
          (Controls s (cs ++ xs) ts fs true_tag end_tag)
  unfolding control_if
  control_if-Controls s c true_tag true_statements end_tag cs xs ts fs w l lt lf ll =
      let (s₁, h, run₁, run₂, p) = complete_both s c ts fs true_tag end_tag w lt lf in
      rw (run₁, ◌>>=◌, ◌>>◌, run₂)
        (concat-Controls s h ts fs true_tag end_tag ((c.code, cs) ∷ (true_statements, xs) ∷ [])
          (cs ++ xs) (ap (λ t. cs ++ t) (append-nil xs)) p l ll)

  -- When the jump lists of the condition end in NULL and fit the fuel and their quads are there, and the
  -- lists of the statements and of the condition's code end in NULL, share no node and fit the fuel: the
  -- code of `control_do_while` is the statements and the condition. The jumps of the false list get the
  -- end tag, those of the true list alone the tag of the statements; no other quad and no symbol is
  -- changed.
  pub control_do_while-Controls :
      (s : Compiler) (c : CondAttr) (statements_tag statements end_tag : Option Ptr)
      (cs xs ts fs : Cells)
      → Waits s c ts fs
      → AreLists s.nodes ((statements, xs) ∷ (c.code, cs) ∷ [])
      → length ts < rt.fuel
      → length fs < rt.fuel
      → length (xs ++ cs) < rt.fuel
      → Returns
          (control_do_while rt statements_tag statements c end_tag s)
          (Controls s (xs ++ cs) ts fs statements_tag end_tag)
  unfolding control_do_while
  control_do_while-Controls s c statements_tag statements end_tag cs xs ts fs w l lt lf ll =
      let (s₁, h, run₁, run₂, p) = complete_both s c ts fs statements_tag end_tag w lt lf in
      rw (run₁, ◌>>=◌, ◌>>◌, run₂)
        (concat-Controls s h ts fs statements_tag end_tag ((statements, xs) ∷ (c.code, cs) ∷ [])
          (xs ++ cs) (ap (λ t. xs ++ t) (append-nil cs)) p l ll)
