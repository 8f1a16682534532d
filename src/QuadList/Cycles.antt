-- ===== src/QuadList/Cycles.antt =====
-- src/quad_list.c: lists that are joined to themselves.
use matcc.Prelude.{
  ◌≡◌, refl, ◌∙◌, ap, ◌⊎◌, inl, inr, true, Option, none, some, [], ◌∷◌, ◌++◌, arith, ◌==◌,
  Bool-cases, Returns, length, ◌<◌,
}
use matcc.Types.{Ptr, Node, Quad}
use matcc.Compiler.{Store, Compiler, Runtime, ◌>>=◌, ◌>>◌}
use matcc.QuadList.{concat_loop, quad_list_concat}
use matcc.QuadList.Segments.{HaveQuads, Cells, has_node, Distinct, Seg, last_cell, Seg-relink}
use matcc.QuadList.Concat.{linked, link-linked}
use matcc.QuadList.Complete.{Endless}

-- The part of a segment from a node on.
pub Seg-suffix :
    (h : Store Node) (p stop : Option Ptr) (xs : Cells) (y : Ptr × Ptr) (ys : Cells)
    → Seg h p (xs ++ y ∷ ys) stop
    → Seg h (some y.0) (y ∷ ys) stop
Seg-suffix h p stop [] y ys (e, s) = (refl, s)
Seg-suffix h p stop (x ∷ xs) y ys (e, (t, c, s)) = Seg-suffix h t stop xs y ys s

pub Distinct-suffix : (xs ys : Cells) → Distinct (xs ++ ys) → Distinct ys
Distinct-suffix [] ys d = d
Distinct-suffix (x ∷ xs) ys (_, d) = Distinct-suffix xs ys d

-- A node on a segment has a quad, and its successor is the end of the segment or a node on it.
abbrev NextIn : Store Quad → Store Node → Ptr → Cells → Option Ptr → Type 0
NextIn k h c xs stop =
    (q : Ptr) × (n : Option Ptr) × (h.cell c ≡ some (record { quad = q; successor = n }))
    × ((quad : Quad) × (k.cell q ≡ some quad))
    × ((n ≡ stop) ⊎ ((m : Ptr) × (n ≡ some m) × (has_node m xs ≡ true)))

NextIn-cons :
    (k : Store Quad) (h : Store Node) (c : Ptr) (x : Ptr × Ptr) (xs : Cells) (stop : Option Ptr)
    → NextIn k h c xs stop
    → NextIn k h c (x ∷ xs) stop
NextIn-cons k h c x xs stop (q, n, e, here, inl f) = (q, n, e, here, inl f)
NextIn-cons k h c x xs stop (q, n, e, here, inr (m, f, i)) =
    (q, n, e, here, inr (m, f, ground arith))

head_successor :
    (k : Store Quad) (h : Store Node) (p n stop : Option Ptr) (a q : Ptr) (xs : Cells)
    → ((quad : Quad) × (k.cell q ≡ some quad))
    → h.cell a ≡ some (record { quad = q; successor = n })
    → Seg h n xs stop
    → NextIn k h a ((a, q) ∷ xs) stop
head_successor k h p n stop a q [] here c s = (q, n, c, here, inl s)
head_successor k h p n stop a q ((b, r) ∷ xs) here c (e, s) =
    (q, n, c, here, inr (b, e, ground arith))

node_successor :
    (k : Store Quad) (h : Store Node) (c : Ptr) (p stop : Option Ptr) (xs : Cells)
    → HaveQuads k xs
    → Seg h p xs stop
    → has_node c xs ≡ true
    → NextIn k h c xs stop
node_successor k h c p stop [] have s i = cc
node_successor k h c p stop ((a, q) ∷ xs) (here, have) (e, (t, d, s)) i =
    elim (Bool-cases (c == a)) [
      | inl same ↦
          let c=a : c ≡ a = ground arith in rw c=a (head_successor k h p t stop a q xs here d s)
      | inr other ↦
          NextIn-cons k h c (a, q) xs stop (node_successor k h c t stop xs have s (ground arith))
    ]

-- A segment that leads back to one of its own nodes is endless from each of its nodes.
pub Endless-cycle :
    (k : Store Quad) (h : Store Node) (a b q : Ptr) (xs : Cells)
    → HaveQuads k ((a, q) ∷ xs)
    → Seg h (some a) ((a, q) ∷ xs) (some b)
    → has_node b ((a, q) ∷ xs) ≡ true
    → (c : Ptr) → has_node c ((a, q) ∷ xs) ≡ true
    → Endless h k c
Endless-cycle k h a b q xs have s i c j = record {
  In = λ c. has_node c ((a, q) ∷ xs) ≡ true;
  start = j;
  step = λ c j. step c (node_successor k h c (some a) (some b) ((a, q) ∷ xs) have s j);
}
  where
    step :
        (c : Ptr)
        → NextIn k h c ((a, q) ∷ xs) (some b)
        → (r m : Ptr) × (h.cell c ≡ some (record { quad = r; successor = some m }))
          × ((quad : Quad) × (k.cell r ≡ some quad))
          × (has_node m ((a, q) ∷ xs) ≡ true)
    step c (r, n, e, here, inl f) =
        (r, b, e ∙ ap (λ t. some (record { quad = r; successor = t })) f, here, i)
    step c (r, n, e, here, inr (m, f, j)) =
        (r, m, e ∙ ap (λ t. some (record { quad = r; successor = t })) f, here, j)

-- A list with its quads that is joined to one of its own nodes becomes endless.
pub quad_list_concat-cycle :
    (rt : Runtime) (s : Compiler) (x : Ptr × Ptr) (xs : Cells) (b : Ptr)
    → HaveQuads s.quads (x ∷ xs)
    → Seg s.nodes (some x.0) (x ∷ xs) none
    → Distinct (x ∷ xs)
    → has_node b (x ∷ xs) ≡ true
    → length xs < rt.fuel
    → Returns (quad_list_concat rt (some x.0 ∷ some b ∷ []) s) λ r.
      (r.0 ≡ some x.0) × ((c : Ptr) → has_node c (x ∷ xs) ≡ true → Endless r.1.nodes r.1.quads c)
unfolding quad_list_concat concat_loop
quad_list_concat-cycle rt s x xs b have seg d i lt = (
  (some x.0, linked s (last_cell x xs) (some b)),
  rw (link-linked s rt.fuel x xs (some b) seg lt, ◌>>◌, ◌>>=◌),
  (
    refl,
    Endless-cycle s.quads (linked s (last_cell x xs) (some b)).nodes x.0 b x.1 xs have
        (Seg-relink s.nodes (some x.0) (some b) x xs seg d) i,
  ),
)
