-- ===== src/Actions/Jumps.antt =====
-- src/parsing/actions.c: comparisons under `control_if` and `condition_not`. The list of the
-- true jump goes on to the false jump, since both are made of the nodes of the code.
pub mod Made
pub mod Joined
use matcc.Prelude.{
  ℕ, ◌+◌, ◌<◌, ◌≡◌, refl, sym, ◌∙◌, ap, Bool, true, false, ◌||◌, Option, none, some, List, [], ◌∷◌,
  ◌++◌, Outcome, ok, Returns, length, arith, ◌==◌, if◌then◌else◌,
}
use matcc.Types.{Ptr, Node, Quad}
use matcc.Compiler.{Store, Compiler, Runtime, M, pure, ◌>>=◌, ◌>>◌}
use matcc.QuadList.Segments.{Cells, has_quad, Seg, IsList}
use matcc.QuadList.Concat.{AreLists}
use matcc.QuadList.Complete.{HasQuads, with_res}
use matcc.QuadList.Cycles.{Seg-suffix}
use matcc.Actions.Conditions.{CondAttr, condition_not}
use matcc.Actions.Control.{control_if}
use matcc.Actions.Code.{patched, Waits, Controls, control_if-Controls}

-- A condition whose code ends with its true jump `t` and its false jump `f`.
pub record IsComparison (s : Compiler) (c : CondAttr) (xs : Cells) (t f : Ptr × Ptr) : Type 0 where
  pub code : IsList s.nodes c.code (xs ++ t ∷ f ∷ [])
  pub true_list : c.true_list ≡ some t.0
  pub false_list : c.false_list ≡ some f.0
  pub jumps : HasQuads s (t ∷ f ∷ [])
  pub differ : (t.1 == f.1) ≡ false

module _ {s : Compiler} {c : CondAttr} {xs : Cells} {t f : Ptr × Ptr}
    (is : IsComparison s c xs t f) where
  true_walk : Seg s.nodes (some t.0) (t ∷ f ∷ []) none
  true_walk = Seg-suffix s.nodes c.code none xs t (f ∷ []) is.code.0

  false_walk : Seg s.nodes (some f.0) (f ∷ []) none
  false_walk = Seg-suffix s.nodes (some t.0) none (t ∷ []) f [] true_walk

  -- Both jumps wait on the true list, and the false jump on the false list too.
  pub IsComparison-Waits : Waits s c (t ∷ f ∷ []) (f ∷ [])
  IsComparison-Waits = record {
    true_jumps = rw is.true_list true_walk;
    false_jumps = rw is.false_list false_walk;
    true_quads = is.jumps;
    false_quads = is.jumps.1;
  }

  -- Negated, both jumps wait on the false list.
  IsComparison-Waits_not : Waits s (condition_not c) (f ∷ []) (t ∷ f ∷ [])
  unfolding condition_not
  IsComparison-Waits_not = record {
    true_jumps = rw is.false_list false_walk;
    false_jumps = rw is.true_list true_walk;
    true_quads = is.jumps.1;
    false_quads = is.jumps;
  }

  module _ (rt : Runtime) (true_tag true_statements end_tag : Option Ptr) (ys : Cells)
      (lists : AreLists s.nodes ((c.code, xs ++ t ∷ f ∷ []) ∷ (true_statements, ys) ∷ []))
      (enough : 2 < rt.fuel) (fits : length ((xs ++ t ∷ f ∷ []) ++ ys) < rt.fuel) where
    -- `if (a < b) statements`: in spite of the shared nodes the true jump leads to the statements and
    -- the false jump to the end; every other quad is as it was.
    pub control_if-IsComparison : Returns (control_if rt c true_tag true_statements end_tag s) λ r.
        IsList r.1.nodes r.0 ((xs ++ t ∷ f ∷ []) ++ ys)
        × (r.1.quads.cell t.1 ≡ with_res true_tag (s.quads.cell t.1))
        × (r.1.quads.cell f.1 ≡ with_res end_tag (s.quads.cell f.1))
        × ((q : Ptr) → (q == t.1) ≡ false → (q == f.1) ≡ false → r.1.quads.cell q ≡ s.quads.cell q)
    control_if-IsComparison =
        let (r, run, done) =
          control_if-Controls rt s c true_tag true_statements end_tag (xs ++ t ∷ f ∷ []) ys
            (t ∷ f ∷ []) (f ∷ []) IsComparison-Waits lists (omega arith) (omega arith) fits in
        (
          r,
          run,
          (
            done.list,
            ground (arith, done.quads t.1, is.differ),
            ground (arith, done.quads f.1),
            λ q n m. ground (arith, done.quads q),
          ),
        )

    -- `if (!(a < b)) statements`: both jumps lead to the end, so the statements are never reached
    -- by the jump of the condition.
    pub control_if-condition_not :
        Returns (control_if rt (condition_not c) true_tag true_statements end_tag s) λ r.
          IsList r.1.nodes r.0 ((xs ++ t ∷ f ∷ []) ++ ys)
          × (r.1.quads.cell t.1 ≡ with_res end_tag (s.quads.cell t.1))
          × (r.1.quads.cell f.1 ≡ with_res end_tag (s.quads.cell f.1))
    unfolding condition_not
    control_if-condition_not =
        let (r, run, done) =
          control_if-Controls rt s (condition_not c) true_tag true_statements end_tag
            (xs ++ t ∷ f ∷ []) ys (f ∷ []) (t ∷ f ∷ []) IsComparison-Waits_not lists (omega arith)
            (omega arith) fits in
        (r, run, (done.list, ground (arith, done.quads t.1), ground (arith, done.quads f.1)))
