-- ===== src/QuadList/Complete.antt =====
-- src/quad_list.c: `quad_list_complete` on lists that end in NULL and on others.
use matcc.Prelude.{
  ℕ, zero, suc, ◌<◌, ◌≡◌, refl, ◌∙◌, Bool, true, false, Option, none, some, [], ◌∷◌, ok,
  out_of_fuel, length, arith, ap, Bool-cases, inl, inr, ◌==◌, if◌then◌else◌,
}
use matcc.Types.{Ptr, Node, Quad}
use matcc.Compiler.{Store, Compiler, Runtime, ◌>>=◌, ◌>>◌, read, write, node_at, quad_at}
use matcc.QuadList.{complete, quad_list_complete}
use matcc.QuadList.Segments.{HaveQuads, Cells, has_quad, Seg}

-- Every cell's quad is there.
abbrev pub HasQuads : Compiler → Cells → Type 0
HasQuads s xs = HaveQuads s.quads xs

abbrev pub with_res : Option Ptr → Option Quad → Option Quad
with_res label none = none
with_res label (some quad) = some (record quad { res = label })

-- The quads of the cells got the label as their `res`, and nothing else was written.
pub record Completed (xs : Cells) (label : Option Ptr) (s s' : Compiler) : Type 0 where
  pub only : s' ≡ record s { quads = s'.quads }
  pub next : s'.quads.next ≡ s.quads.next
  pub quads :
      (q : Ptr)
      → s'.quads.cell q
        ≡ (if has_quad q xs then with_res label (s.quads.cell q) else s.quads.cell q)

HasQuads-write :
    (s : Compiler) (p : Ptr) (quad : Quad) (xs : Cells)
    → HasQuads s xs
    → HasQuads (record s { quads = write s.quads p quad }) xs
HasQuads-write s p quad [] h = tt
HasQuads-write s p quad ((a, q) ∷ xs) ((quad', e), h) =
    (found (p == q) refl, HasQuads-write s p quad xs h)
  where
    found :
        (b : Bool)
        → (p == q) ≡ b
        → (r : Quad) × ((if p == q then some quad else s.quads.cell q) ≡ some r)
    found true t = (quad, rw t)
    found false t = (quad', rw t e)

pub complete-Completed :
    (fuel : ℕ) (s : Compiler) (p label : Option Ptr) (xs : Cells)
    → Seg s.nodes p xs none
    → HasQuads s xs
    → length xs < fuel
    → (s' : Compiler) × (complete fuel p label s ≡ ok (tt, s')) × Completed xs label s s'
unfolding complete
complete-Completed zero s p label xs seg h lt = elim lt [ ]
complete-Completed (suc fuel) s p label [] seg h lt =
    (s, rw seg, record { only = refl; next = refl; quads = λ q. refl })
complete-Completed (suc fuel) s p label ((a, q) ∷ xs) (e, (t, c, seg)) ((quad, f), h) lt =
    let quad' = record quad { res = label } in
    let s₁ = record s { quads = write s.quads q quad' } in
    let (s', run, done) =
      complete-Completed fuel s₁ t label xs seg (HasQuads-write s q quad' xs h) (omega arith) in
    (
      s',
      rw (e, c, f, complete, ◌>>=◌, ◌>>◌, node_at, quad_at, read) run,
      record { only = done.only; next = done.next; quads = λ r. ground (arith, done.quads r) },
    )

module _ (rt : Runtime) where
  -- On a list that ends in NULL the loop ends, and writes the label to the quads of the list alone.
  pub quad_list_complete-Completed :
      (s : Compiler) (p label : Option Ptr) (xs : Cells)
      → Seg s.nodes p xs none
      → HasQuads s xs
      → length xs < rt.fuel
      → (s' : Compiler) × (quad_list_complete rt p label s ≡ ok (tt, s')) × Completed xs label s s'
  unfolding quad_list_complete
  quad_list_complete-Completed s p label xs = complete-Completed rt.fuel s p label xs

-- The successors lead from node to node for ever: from the node `a`, within a set of nodes each
-- of which has its quad and its successor in the set.
pub record Endless (h : Store Node) (k : Store Quad) (a : Ptr) : Type 1 where
  pub In : Ptr → Type 0
  pub start : In a
  pub step :
      (b : Ptr)
      → In b
      → (q c : Ptr) × (h.cell b ≡ some (record { quad = q; successor = some c }))
        × ((quad : Quad) × (k.cell q ≡ some quad))
        × In c

-- A write to a quad leaves every quad there.
Stays : Store Quad → Store Quad → Type 0
Stays k k' =
    (q : Ptr) (quad : Quad) → k.cell q ≡ some quad → (quad' : Quad) × (k'.cell q ≡ some quad')

Stays-write : (k k' : Store Quad) (p : Ptr) (quad : Quad) → Stays k k' → Stays k (write k' p quad)
unfolding Stays
Stays-write k k' p quad stays q old e = elim (Bool-cases (p == q)) [
  | inl t ↦ (quad, rw t refl)
  | inr f ↦ let (quad', e') = stays q old e in (quad', rw f e')
]

complete_out_of_fuel :
    (h : Store Node) (k : Store Quad) (a : Ptr) (endless : Endless h k a) (fuel : ℕ) (s : Compiler)
    (b : Ptr) (label : Option Ptr)
    → s.nodes ≡ h
    → Stays k s.quads
    → endless.In b
    → complete fuel (some b) label s ≡ out_of_fuel
unfolding complete Stays
complete_out_of_fuel h k a endless zero s b label same stays i = refl
complete_out_of_fuel h k a endless (suc fuel) s b label same stays i =
    let (q, c, cell, (old, here), i') = endless.step b i in
    let (quad, at_q) = stays q old here in
    let cell' : s.nodes.cell b ≡ some (record { quad = q; successor = some c }) =
      ap (λ (t : Store Node). t.cell b) same ∙ cell in
    rw (cell', at_q, complete, ◌>>=◌, ◌>>◌, node_at, quad_at, read)
      (complete_out_of_fuel h k a endless fuel
        (record s { quads = write s.quads q (record quad { res = label }) }) c label same
        (Stays-write k s.quads q (record quad { res = label }) stays) i')

-- On successors that lead on for ever, with their quads, the loop uses up any amount of fuel: it never
-- ends, and nothing else ends it.
pub quad_list_complete-Endless :
    (rt : Runtime) (s : Compiler) (a : Ptr) (label : Option Ptr)
    → Endless s.nodes s.quads a
    → quad_list_complete rt (some a) label s ≡ out_of_fuel
unfolding quad_list_complete Stays
quad_list_complete-Endless rt s a label endless =
    complete_out_of_fuel s.nodes s.quads a endless rt.fuel s a label refl (λ q quad e. (quad, e))
      endless.start
