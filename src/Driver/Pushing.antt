-- ===== src/Driver/Pushing.antt =====
-- src/main.c: the return statement that `main` adds to the end of the quads.
use matcc.Prelude.{
  suc, ◌+◌, ◌≤◌, ◌%◌, ◌^◌, ◌≡◌, refl, sym, ◌∙◌, ap, inl, inr, Bool-cases, ◌==◌, false, Option, none,
  some, List, [], ◌∷◌, ◌++◌, Returns, length, arith,
}
use matcc.Types.{Ptr, Quad, Node, ret}
use matcc.Compiler.{Store, Compiler, Runtime, IsStore, ◌>>=◌, ◌>>◌, alloc}
use matcc.Quad.{quad_new, quad_new_empty}
use matcc.QuadList.Segments.{HaveQuads, Cells, Seg, IsList, has_node, has_quad, has_quad-append}
use matcc.Release.Lists.{DistinctQuads}
use matcc.QuadList.Push.{quad_list_push-Pushed}
use matcc.Translation.Lifetime.{IsCode}
use matcc.Driver.{push_return}

-- The nodes carry the quads.
abbrev pub Carries : Store Quad → Cells → List Quad → Type 0
Carries h [] [] = Unit
Carries h [] (quad ∷ quads) = ⊥
Carries h (cell ∷ cells) [] = ⊥
Carries h (cell ∷ cells) (quad ∷ quads) = (h.cell cell.1 ≡ some quad) × Carries h cells quads

abbrev pub return_quad : Quad
return_quad = record { op = ret; res = none; op1 = none; op2 = none; comment = none }

pub Carries-IsCode :
    (nodes : Store Node) (h : Store Quad) (p : Option Ptr) (cells : Cells) (quads : List Quad)
    → Seg nodes p cells none
    → Carries h cells quads
    → IsCode nodes h p quads
Carries-IsCode nodes h p [] [] seg c = seg
Carries-IsCode nodes h p [] (quad ∷ quads) seg c = elim c [ ]
Carries-IsCode nodes h p (cell ∷ cells) [] seg c = elim c [ ]
Carries-IsCode nodes h p ((a, q) ∷ cells) (quad ∷ quads) (e, (next, here, seg)) (at_q, c) =
    (a, q, next, e, here, at_q, Carries-IsCode nodes h next cells quads seg c)

Carries-alloc :
    (h : Store Quad) (new : Quad) (b : Ptr) (cells : Cells) (quads : List Quad)
    → h.cell h.next ≡ none
    → Carries h cells quads
    → Carries (alloc h new) (cells ++ (b, h.next) ∷ []) (quads ++ new ∷ [])
Carries-alloc h new b [] [] free c = (ground arith, tt)
Carries-alloc h new b [] (quad ∷ quads) free c = elim c [ ]
Carries-alloc h new b (cell ∷ cells) [] free c = elim c [ ]
Carries-alloc h new b ((a, q) ∷ cells) (quad ∷ quads) free (at_q, c) =
    (ground arith, Carries-alloc h new b cells quads free c)

pub Carries-length :
    (h : Store Quad) (cells : Cells) (quads : List Quad)
    → Carries h cells quads
    → length cells ≡ length quads
Carries-length h [] [] c = refl
Carries-length h [] (quad ∷ quads) c = elim c [ ]
Carries-length h (cell ∷ cells) [] c = elim c [ ]
Carries-length h (cell ∷ cells) (quad ∷ quads) c = ap suc (Carries-length h cells quads c.1)

-- Quads that are there, and one that is not yet.
pub Carries-HaveQuads :
    (h : Store Quad) (cells : Cells) (quads : List Quad) → Carries h cells quads → HaveQuads h cells
Carries-HaveQuads h [] quads c = tt
Carries-HaveQuads h (cell ∷ cells) [] c = elim c [ ]
Carries-HaveQuads h ((a, q) ∷ cells) (quad ∷ quads) (at_q, c) =
    ((quad, at_q), Carries-HaveQuads h cells quads c)

HaveQuads-fresh :
    (h : Store Quad) (q : Ptr) (cells : Cells)
    → h.cell q ≡ none
    → HaveQuads h cells
    → has_quad q cells ≡ false
HaveQuads-fresh h q [] free c = refl
HaveQuads-fresh h q ((a, r) ∷ cells) free ((quad, at_r), c) = elim (Bool-cases (q == r)) [
  | inr f ↦ rw f (HaveQuads-fresh h q cells free c)
  | inl t ↦
      let same : q ≡ r = ground arith in
      let found : none ≡ some quad = sym free ∙ ap h.cell same ∙ at_r in cc
]

pub DistinctQuads-fresh :
    (h : Store Quad) (b q : Ptr) (cells : Cells)
    → h.cell q ≡ none
    → HaveQuads h cells
    → DistinctQuads cells
    → DistinctQuads (cells ++ (b, q) ∷ [])
DistinctQuads-fresh h b q [] free have d = (refl, tt)
DistinctQuads-fresh h b q ((a, r) ∷ cells) free ((quad, at_r), have) (out, d) =
    let apart : has_quad q ((a, r) ∷ cells) ≡ false =
      HaveQuads-fresh h q ((a, r) ∷ cells) free ((quad, at_r), have) in
    (
      ground (arith, has_quad-append r cells ((b, q) ∷ [])),
      DistinctQuads-fresh h b q cells free have d,
    )

module _ (rt : Runtime) where
  -- What `push_return` leaves: the quads and their nodes alone have changed, and the list is that of
  -- the quads and the return statement.
  pub record Returned (s : Compiler) (cells : Cells) (quads : List Quad) (r : Unit {0} × Compiler)
      : Type 0 where
    pub symbols : r.1.symbols ≡ s.symbols
    pub symbol_table : r.1.symbol_table ≡ s.symbol_table
    pub store : r.1.quads ≡ alloc s.quads return_quad
    pub same :
        (a : Ptr)
        → has_node a (cells ++ (s.nodes.next, s.quads.next) ∷ []) ≡ false
        → r.1.nodes.cell a ≡ s.nodes.cell a
    pub code : IsCode r.1.nodes r.1.quads r.1.quad_list (quads ++ return_quad ∷ [])
    pub list : IsList r.1.nodes r.1.quad_list (cells ++ (s.nodes.next, s.quads.next) ∷ [])
    pub carried :
        Carries r.1.quads (cells ++ (s.nodes.next, s.quads.next) ∷ []) (quads ++ return_quad ∷ [])

  -- The return statement becomes the last quad of a list that ends in NULL.
  pub push_return-Returned :
      (s : Compiler) (cells : Cells) (quads : List Quad)
      → IsStore s.nodes
      → IsStore s.quads
      → IsList s.nodes s.quad_list cells
      → Carries s.quads cells quads
      → length quads ≤ rt.fuel
      → Returns (push_return rt s) (Returned s cells quads)
  unfolding push_return quad_new_empty quad_new
  push_return-Returned s cells quads nodes store list carried enough =
      let q = s.quads.next in
      let s1 : Compiler = record s {
        quads = alloc s.quads return_quad;
        next_quad = (s.next_quad + 1) % 2 ^ 32;
      } in
      let (r, run, pushed) =
        quad_list_push-Pushed rt s1 s.quad_list cells q nodes list
          (omega (arith, enough, Carries-length s.quads cells quads carried)) in
      let carried' =
        Carries-alloc s.quads return_quad s.nodes.next cells quads (store.free q (omega arith))
          carried in
      let s2 : Compiler = record r.1 { quad_list = r.0 } in
      (
        (tt, s2),
        rw (◌>>=◌, ◌>>◌, run) refl,
        record {
          symbols = ap (λ t. t.symbols) pushed.only;
          symbol_table = ap (λ t. t.symbol_table) pushed.only;
          code =
              let same : r.1.quads ≡ alloc s.quads return_quad = ap (λ t. t.quads) pushed.only in
              rw same (
                Carries-IsCode r.1.nodes (alloc s.quads return_quad) r.0
                  (cells ++ (s.nodes.next, q) ∷ []) (quads ++ return_quad ∷ []) pushed.list.0
                  carried');
          store = ap (λ t. t.quads) pushed.only;
          same = pushed.same;
          list = pushed.list;
          carried =
              let same : r.1.quads ≡ alloc s.quads return_quad = ap (λ t. t.quads) pushed.only in
              rw same carried';
        },
      )
