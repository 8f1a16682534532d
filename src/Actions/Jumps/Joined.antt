-- ===== src/Actions/Jumps/Joined.antt =====
-- src/parsing/actions.c: `condition_or` and `condition_and` of two comparisons, which join lists
-- of jumps whose nodes are linked in the code already.
use mathlib.Core.List.{append-nil, append_assoc}
use matcc.Prelude.{
  ◌+◌, ◌<◌, ◌≡◌, refl, subst, sym, out_of_fuel, ap, true, Option, none, some, [], ◌∷◌, ◌++◌, ok,
  Returns, length, arith, length-append,
}
use matcc.Types.{Ptr, Quad}
use matcc.Compiler.{Store, Compiler, Runtime, ◌>>=◌, ◌>>◌}
use matcc.QuadList.{quad_list_complete, quad_list_concat}
use matcc.QuadList.Segments.{HaveQuads, Cells, has_node, IsList, Disjoint, has_node-append}
use matcc.QuadList.Concat.{quad_list_concat-Concatenated}
use matcc.QuadList.Complete.{quad_list_complete-Completed, Endless, quad_list_complete-Endless}
use matcc.QuadList.Cycles.{Seg-suffix, Distinct-suffix, quad_list_concat-cycle}
use matcc.Actions.Code.{HasQuads-Completed}
use matcc.Actions.Conditions.{CondAttr, condition_or, condition_and}
use matcc.Actions.Control.{control_if}
use matcc.Actions.Jumps.{IsComparison, false_walk}

has_head : (x : Ptr × Ptr) (xs : Cells) → has_node x.0 (x ∷ xs) ≡ true
has_head x xs = ground arith

HaveQuads-append :
    (k : Store Quad) (xs ys : Cells) → HaveQuads k xs → HaveQuads k ys → HaveQuads k (xs ++ ys)
HaveQuads-append k [] ys h h' = h'
HaveQuads-append k (x ∷ xs) ys (here, h) h' = (here, HaveQuads-append k xs ys h h')

module _ (rt : Runtime) where
  -- A control structure whose condition has an endless true list hangs.
  control_if-Endless :
      (s : Compiler) (c : CondAttr) (true_tag true_statements end_tag : Option Ptr) (a : Ptr)
      → c.true_list ≡ some a
      → Endless s.nodes s.quads a
      → control_if rt c true_tag true_statements end_tag s ≡ out_of_fuel
  unfolding control_if
  control_if-Endless s c true_tag true_statements end_tag a e endless =
      rw (e, ◌>>=◌, ◌>>◌, quad_list_complete-Endless rt s a true_tag endless) refl

  -- Two comparisons whose codes share no node, the second with its quads.
  pub record Join (s : Compiler) (c1 c2 : CondAttr) (xs1 xs2 : Cells) (t1 f1 t2 f2 : Ptr × Ptr)
      : Type 0 where
    pub left : IsComparison s c1 xs1 t1 f1
    pub right : IsComparison s c2 xs2 t2 f2
    pub quads : HaveQuads s.quads xs2
    pub apart : Disjoint (xs1 ++ t1 ∷ f1 ∷ []) (xs2 ++ t2 ∷ f2 ∷ [])
    pub fits : length ((xs1 ++ t1 ∷ f1 ∷ []) ++ (xs2 ++ t2 ∷ f2 ∷ [])) < rt.fuel

  module _ {s : Compiler} {c1 c2 : CondAttr} {xs1 xs2 : Cells} {t1 f1 t2 f2 : Ptr × Ptr}
      (j : Join s c1 c2 xs1 xs2 t1 f1 t2 f2) (tag : Option Ptr) where
    -- The first two steps: the false jump of the first comparison is completed, and the codes are
    -- joined. From either jump of the first comparison the list now leads on to the second.
    joined_code :
        (s₁ : Compiler) × (r : Option Ptr × Compiler) × (quad_list_complete rt c1.false_list tag s
          ≡ ok (tt, s₁))
        × (quad_list_concat rt (c1.code ∷ c2.code ∷ []) s₁ ≡ ok r)
        × IsList r.1.nodes r.0 ((xs1 ++ t1 ∷ f1 ∷ []) ++ (xs2 ++ t2 ∷ f2 ∷ []))
        × HaveQuads r.1.quads (t1 ∷ f1 ∷ (xs2 ++ t2 ∷ f2 ∷ []))
    joined_code =
        let size = length-append xs1 (t1 ∷ f1 ∷ []) in
        let (s₁, run₁, done) =
          quad_list_complete-Completed rt s c1.false_list tag (f1 ∷ [])
            (rw j.left.false_list (false_walk j.left)) j.left.jumps.1
            (omega
              (arith, j.fits, size, length-append (xs1 ++ t1 ∷ f1 ∷ []) (xs2 ++ t2 ∷ f2 ∷ []))) in
        let nodes : s₁.nodes ≡ s.nodes = ap (λ (u : Compiler). u.nodes) done.only in
        let (r, run₂, c) =
          quad_list_concat-Concatenated rt s₁
            ((c1.code, xs1 ++ t1 ∷ f1 ∷ []) ∷ (c2.code, xs2 ++ t2 ∷ f2 ∷ []) ∷ [])
            (rw nodes (j.left.code, (j.apart, tt), (j.right.code, tt, tt)))
            (rw append-nil j.fits) in
        let (quad, (quad', _)) = j.left.jumps in
        let later = HaveQuads-append s.quads xs2 (t2 ∷ f2 ∷ []) j.quads j.right.jumps in
        let same : r.1.quads ≡ s₁.quads = ap (λ (u : Compiler). u.quads) c.only in
        let all = t1 ∷ f1 ∷ (xs2 ++ t2 ∷ f2 ∷ []) in
        (
          s₁,
          r,
          run₁,
          run₂,
          rw (append-nil (xs2 ++ t2 ∷ f2 ∷ [])) at c.list,
          subst (λ k. HaveQuads k all) (sym same)
              (HasQuads-Completed (f1 ∷ []) all tag s s₁ done (quad, (quad', later))),
        )

    -- The nodes of the second comparison stand behind each jump of the first.
    has_second : (x : Ptr × Ptr) → has_node t2.0 (x ∷ (xs2 ++ t2 ∷ f2 ∷ [])) ≡ true
    has_second x = ground (arith, has_node-append t2.0 xs2 (t2 ∷ f2 ∷ []))

    size :
        length ((xs1 ++ t1 ∷ f1 ∷ []) ++ (xs2 ++ t2 ∷ f2 ∷ []))
        ≡ length xs1 + 2 + length (xs2 ++ t2 ∷ f2 ∷ [])
    size = omega (
      arith,
      length-append (xs1 ++ t1 ∷ f1 ∷ []) (xs2 ++ t2 ∷ f2 ∷ []),
      length-append xs1 (t1 ∷ f1 ∷ []),
    )

    condition_or-Endless :
        Returns
          (condition_or rt c1 tag c2 s)
          λ r. (r.0.true_list ≡ some t1.0) × Endless r.1.nodes r.1.quads t1.0
    unfolding condition_or
    condition_or-Endless =
        let (s₁, r, run₁, run₂, (seg, d), have) = joined_code in
        let second = xs2 ++ t2 ∷ f2 ∷ [] in
        let assoc = append_assoc xs1 (t1 ∷ f1 ∷ []) second in
        let (r', run₃, (e, endless)) =
          quad_list_concat-cycle rt r.1 t1 (f1 ∷ second) t2.0 have
            (Seg-suffix r.1.nodes r.0 none xs1 t1 (f1 ∷ second) (rw assoc at seg))
            (Distinct-suffix xs1 (t1 ∷ f1 ∷ second) (rw assoc at d)) (ground (arith, has_second f1))
            (omega (arith, j.fits, size)) in
        (
          (record { code = r.0; true_list = r'.0; false_list = c2.false_list }, r'.1),
          rw (run₁, ◌>>=◌, ◌>>◌, run₂, j.left.true_list, j.right.true_list, run₃),
          (e, endless t1.0 (has_head t1 (f1 ∷ second))),
        )

    condition_and-Endless :
        Returns
          (condition_and rt c1 tag c2 s)
          λ r. (r.0.true_list ≡ some t2.0) × Endless r.1.nodes r.1.quads t2.0
    unfolding condition_and
    condition_and-Endless =
        let (s₁, r, run₁, run₂, (seg, d), have) = joined_code in
        let second = xs2 ++ t2 ∷ f2 ∷ [] in
        let assoc = append_assoc xs1 (t1 ∷ f1 ∷ []) second in
        let from_f1 = append_assoc xs1 (t1 ∷ []) (f1 ∷ second) in
        let (r', run₃, (e, endless)) =
          quad_list_concat-cycle rt r.1 f1 second f2.0 have.1
            (Seg-suffix r.1.nodes (some t1.0) none (t1 ∷ []) f1 second
              (Seg-suffix r.1.nodes r.0 none xs1 t1 (f1 ∷ second) (rw assoc at seg)))
            (Distinct-suffix (t1 ∷ []) (f1 ∷ second)
              (Distinct-suffix xs1 (t1 ∷ f1 ∷ second) (rw assoc at d)))
            (ground (arith, has_node-append f2.0 xs2 (t2 ∷ f2 ∷ [])))
            (omega (arith, j.fits, size)) in
        (
          (record { code = r.0; true_list = c2.true_list; false_list = r'.0 }, r'.1),
          rw (run₁, ◌>>=◌, ◌>>◌, run₂, j.left.false_list, j.right.false_list, run₃),
          (j.right.true_list, endless t2.0 (has_second f1)),
        )

    module _ (true_tag true_statements end_tag : Option Ptr) where
      -- `if (a < b || c < d) statements` with two comparisons whose jumps have their quads, as has the
      -- code of the second, and whose codes end in NULL, share no node and fit the fuel: the join of the
      -- true lists closes a cycle, and `control_if` then uses up any such amount of fuel. The compiler
      -- hangs, and nothing else ends it.
      pub condition_or-hangs :
          (condition_or rt c1 tag c2 >>= λ c. control_if rt c true_tag true_statements end_tag) s
          ≡ out_of_fuel
      condition_or-hangs =
          let ((c, s'), run', (e, endless)) = condition_or-Endless in
          rw (run', ◌>>=◌) (control_if-Endless s' c true_tag true_statements end_tag t1.0 e endless)

      -- `if (a < b && c < d) statements` with two comparisons whose jumps have their quads, as has the
      -- code of the second, and whose codes end in NULL, share no node and fit the fuel: the join of the
      -- false lists closes a cycle that the true jump of the second comparison leads to, and
      -- `control_if` uses up any such amount of fuel.
      pub condition_and-hangs :
          (condition_and rt c1 tag c2 >>= λ c. control_if rt c true_tag true_statements end_tag) s
          ≡ out_of_fuel
      condition_and-hangs =
          let ((c, s'), run', (e, endless)) = condition_and-Endless in
          rw (run', ◌>>=◌) (control_if-Endless s' c true_tag true_statements end_tag t2.0 e endless)
