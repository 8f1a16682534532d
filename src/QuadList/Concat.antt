-- ===== src/QuadList/Concat.antt =====
-- src/quad_list.c: `quad_list_concat` and `quad_list_push` on lists that share no node.
use matcc.Prelude.{
  ℕ, ◌<◌, ◌≡◌, refl, true, false, Option, none, some, List, [], ◌∷◌, ◌++◌, ok, Returns, length,
  arith, length-append,
}
use mathlib.Core.List.{append-nil, append_assoc}
use matcc.Types.{Ptr, Node}
use matcc.Compiler.{Store, Compiler, Runtime, ◌>>=◌, ◌>>◌, write}
use matcc.QuadList.{last, link, concat_loop, quad_list_concat}
use matcc.QuadList.Segments.{
  Cells, has_node, Disjoint, Seg, IsList, Seg-write, Seg-append, last_cell, last_node-last_cell,
  has_node-last_cell, cell-last_cell, Seg-relink, has_node-append, Distinct-append,
}

-- The state after `link`: the node `e` of quad `q` points to `target`.
abbrev pub linked : Compiler → Ptr × Ptr → Option Ptr → Compiler
linked s (e, q) target = record s {
  nodes = write s.nodes e (record { quad = q; successor = target });
}

pub link-linked :
    (s : Compiler) (fuel : ℕ) (x : Ptr × Ptr) (xs : Cells) (target : Option Ptr)
    → Seg s.nodes (some x.0) (x ∷ xs) none
    → length xs < fuel
    → link fuel x.0 target s ≡ ok (tt, linked s (last_cell x xs) target)
unfolding link last
link-linked s fuel (a, q) xs target seg lt = ground (
  arith,
  last_node-last_cell s.nodes fuel a q xs seg lt,
  cell-last_cell s.nodes (some a) (a, q) xs seg,
)

-- The arguments of `quad_list_concat`, each with its cells.
abbrev pub Sources : Type 0
Sources = List (Option Ptr × Cells)

abbrev pub pointers : Sources → List (Option Ptr)
pointers [] = []
pointers ((p, _) ∷ r) = p ∷ pointers r

abbrev pub cells : Sources → Cells
cells [] = []
cells ((_, xs) ∷ r) = xs ++ cells r

-- The cells share no node with the arguments.
abbrev pub Apart : Cells → Sources → Type 0
Apart xs [] = Unit
Apart xs ((_, ys) ∷ r) = Disjoint xs ys × Apart xs r

-- The arguments are lists that end in NULL, and no two share a node.
abbrev pub AreLists : Store Node → Sources → Type 0
AreLists h [] = Unit
AreLists h ((p, xs) ∷ r) = IsList h p xs × Apart xs r × AreLists h r

AreLists-write :
    (h : Store Node) (e : Ptr) (n : Node) (xs : Cells) (r : Sources)
    → has_node e xs ≡ true
    → Apart xs r
    → AreLists h r
    → AreLists (write h e n) r
AreLists-write h e n xs [] m apart l = tt
AreLists-write h e n xs ((p, ys) ∷ r) m (a, apart) ((seg, d), b, l) =
    ((Seg-write h e n p ys none (a e m) seg, d), b, AreLists-write h e n xs r m apart l)

Apart-append : (xs ys : Cells) (r : Sources) → Apart xs r → Apart ys r → Apart (xs ++ ys) r
Apart-append xs ys [] a b = tt
Apart-append xs ys ((p, zs) ∷ r) (a, as') (b, bs) =
    (λ c i. ground (arith, a c, b c, has_node-append c xs ys), Apart-append xs ys r as' bs)

-- Only links between nodes of the cells were written, and they now make one list.
pub record Concatenated (s : Compiler) (xs : Cells) (r : Option Ptr × Compiler) : Type 0 where
  pub only : r.1 ≡ record s { nodes = r.1.nodes }
  pub next : r.1.nodes.next ≡ s.nodes.next
  pub list : IsList r.1.nodes r.0 xs
  pub same : (a : Ptr) → has_node a xs ≡ false → r.1.nodes.cell a ≡ s.nodes.cell a

module _ (rt : Runtime) where
  concat_loop-Concatenated :
      (s : Compiler) (x : Ptr × Ptr) (xs : Cells) (r : Sources)
      → IsList s.nodes (some x.0) (x ∷ xs)
      → AreLists s.nodes r
      → Apart (x ∷ xs) r
      → length (xs ++ cells r) < rt.fuel
      → Returns (concat_loop rt (some x.0) (pointers r) s) (Concatenated s (x ∷ (xs ++ cells r)))
  unfolding concat_loop
  concat_loop-Concatenated s x xs [] l ls apart lt = (
    (some x.0, s),
    refl,
    rw (append-nil xs) (record { only = refl; next = refl; list = l; same = λ a o. refl }),
  )
  concat_loop-Concatenated s x xs ((p, ys) ∷ r) (seg, d) ((segs, ds), b, ls) (a, apart) lt =
      let e = last_cell x xs in
      let s' = linked s e p in
      let m = has_node-last_cell x xs in
      let n : Node = record { quad = e.1; successor = p } in
      let joined =
        Seg-append s'.nodes (some x.0) p (x ∷ xs) ys none
          (Seg-relink s.nodes (some x.0) p x xs seg d)
          (Seg-write s.nodes e.0 n p ys none (a e.0 m) segs) in
      let (out, run, c) =
        concat_loop-Concatenated s' x (xs ++ ys) r (joined, Distinct-append (x ∷ xs) ys d ds a)
          (AreLists-write s.nodes e.0 n (x ∷ xs) r m apart ls) (Apart-append (x ∷ xs) ys r apart b)
          (rw (append_assoc xs ys (cells r)) lt) in
      (
        out,
        rw
            (
              link-linked s rt.fuel x xs p seg (omega (arith, length-append xs (ys ++ cells r))),
              concat_loop,
              ◌>>◌,
              ◌>>=◌,
            )
            run,
        rw (← append_assoc xs ys (cells r)) (record {
          only = c.only;
          next = c.next;
          list = c.list;
          same = λ b o. ground (
            arith,
            c.same b,
            m,
            has_node-append b (x ∷ xs) ys,
            has_node-append b (xs ++ ys) (cells r),
            has_node-append b xs ys,
          );
        }),
      )

  -- `quad_list_concat` of lists that end in NULL and share no node gives their concatenation,
  -- whatever the order and also where some are NULL, and changes nothing but links between their nodes.
  pub quad_list_concat-Concatenated :
      (s : Compiler) (r : Sources)
      → AreLists s.nodes r
      → length (cells r) < rt.fuel
      → Returns (quad_list_concat rt (pointers r) s) (Concatenated s (cells r))
  unfolding quad_list_concat concat_loop
  quad_list_concat-Concatenated s [] l lt =
      ((none, s), refl, record { only = refl; next = refl; list = (refl, tt); same = λ a o. refl })
  quad_list_concat-Concatenated s ((p, []) ∷ r) ((e, _), _, l) lt =
      rw e (quad_list_concat-Concatenated s r l lt)
  quad_list_concat-Concatenated s ((p, x ∷ xs) ∷ r) ((seg, d), a, l) lt =
      let e : p ≡ some x.0 = seg.0 in
      rw e (concat_loop-Concatenated s x xs r ((refl, seg.1), d) l a (omega arith))
