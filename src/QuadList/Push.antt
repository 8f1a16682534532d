-- ===== src/QuadList/Push.antt =====
-- src/quad_list.c: `quad_list_push`, and `quad_list_size` of what it leaves.
use matcc.Prelude.{
  ℕ, zero, suc, ◌+◌, ◌≤◌, ◌<◌, ◌≡◌, refl, subst, true, false, Bool-cases, inl, inr, ◌==◌, Option,
  none, some, [], ◌∷◌, ◌++◌, ok, Returns, length, length-append, arith,
}
use matcc.Types.{Ptr, Node}
use matcc.Compiler.{Store, Compiler, Runtime, IsStore, ◌>>=◌, ◌>>◌, lift, alloc, write}
use matcc.QuadList.{quad_list_new, last_node, last, quad_list_push, size_loop, quad_list_size}
use matcc.QuadList.Segments.{
  Cells, Seg, IsList, has_node, has_node-append, Seg-write, Seg-append, last_cell,
  last_node-last_cell, has_node-last_cell, cell-last_cell, Seg-relink, Distinct-append,
}
use matcc.QuadList.Fresh.{Seg-alloc, AreLists-insert}

-- Only nodes were written, and the list has one node more, at its end and for the quad. The nodes of
-- other lists are as they were.
pub record Pushed (s : Compiler) (xs : Cells) (quad : Ptr) (r : Option Ptr × Compiler)
    : Type 0 where
  pub only : r.1 ≡ record s { nodes = r.1.nodes }
  pub list : IsList r.1.nodes r.0 (xs ++ (s.nodes.next, quad) ∷ [])
  pub same :
      (b : Ptr)
      → has_node b (xs ++ (s.nodes.next, quad) ∷ []) ≡ false
      → r.1.nodes.cell b ≡ s.nodes.cell b

last_write-same :
    (h : Store Node) (new : Node) (x : Ptr × Ptr) (xs : Cells) (quad : Ptr) (n : Node) (b : Ptr)
    → has_node b ((x ∷ xs) ++ (h.next, quad) ∷ []) ≡ false
    → (write (alloc h new) (last_cell x xs).0 n).cell b ≡ h.cell b
last_write-same h new x xs quad n b out =
    let parts = has_node-append b (x ∷ xs) ((h.next, quad) ∷ []) in
    let m = has_node-last_cell x xs in
    elim (Bool-cases ((last_cell x xs).0 == b)) [
      | inl t ↦
          let e : (last_cell x xs).0 ≡ b = ground arith in
          let inside : has_node b (x ∷ xs) ≡ true = subst (λ c. has_node c (x ∷ xs) ≡ true) e m in
          ground (arith, parts, inside, out)
      | inr f ↦ ground (arith, parts, out, f)
    ]

module _ (rt : Runtime) where
  -- `quad_list_push` on a list that ends in NULL and fits the fuel, empty or not, appends the
  -- quad in a new node: it ends, and writes nodes only.
  pub quad_list_push-Pushed :
      (s : Compiler) (dest : Option Ptr) (xs : Cells) (quad : Ptr)
      → IsStore s.nodes
      → IsList s.nodes dest xs
      → length xs ≤ rt.fuel
      → Returns (quad_list_push rt dest quad s) (Pushed s xs quad)
  unfolding quad_list_push quad_list_new last
  quad_list_push-Pushed s none [] quad store l enough = (
    (
      some s.nodes.next,
      record s { nodes = alloc s.nodes (record { quad = quad; successor = none }) },
    ),
    refl,
    record {
      only = refl;
      list = ((refl, (none, ground arith, refl)), (refl, tt));
      same = λ b out. ground arith;
    },
  )
  quad_list_push-Pushed s (some p) [] quad store (e, d) enough = absurd (cc)
  quad_list_push-Pushed s none ((a, q) ∷ xs) quad store ((e, _), d) enough = absurd (cc)
  quad_list_push-Pushed s (some p) ((a, q) ∷ xs) quad store ((e, (next, here, seg)), d) enough =
      let same : p ≡ a = ground arith in
      let x : Ptr × Ptr = (a, q) in
      let whole : Seg s.nodes (some a) (x ∷ xs) none = (refl, (next, here, seg)) in
      let free = store.free s.nodes.next (omega arith) in
      let new : Node = record { quad = quad; successor = none } in
      let h = alloc s.nodes new in
      let l = s.nodes.next in
      let whole' = Seg-alloc s.nodes new (some a) none (x ∷ xs) free whole in
      let (_, (apart, _), ((single, single'), _, _)) =
        AreLists-insert s.nodes quad ((some a, x ∷ xs) ∷ []) [] free ((whole, d), tt, tt) in
      let end = last_cell x xs in
      let walk : last_node rt.fuel s.nodes p ≡ ok end.0 =
        rw same (last_node-last_cell s.nodes rt.fuel a q xs whole (omega arith)) in
      let n : Node = record { quad = end.1; successor = some l } in
      let h' = write h end.0 n in
      let m = has_node-last_cell x xs in
      (
        (some p, record s { nodes = h' }),
        rw (◌>>=◌, ◌>>◌, lift, walk, cell-last_cell h (some a) x xs whole') refl,
        record {
          only = refl;
          list = (
            rw same (
                Seg-append h' (some a) (some l) (x ∷ xs) ((l, quad) ∷ []) none
                  (Seg-relink h (some a) (some l) x xs whole' d)
                  (Seg-write h end.0 n (some l) ((l, quad) ∷ []) none (apart end.0 m) single)),
            Distinct-append (x ∷ xs) ((l, quad) ∷ []) d single' apart,
          );
          same = λ b out. last_write-same s.nodes new x xs quad n b out;
        },
      )

size_loop-length :
    (fuel : ℕ) (h : Store Node) (p : Option Ptr) (xs : Cells) (size total : ℕ)
    → Seg h p xs none
    → length xs < fuel
    → size + length xs ≡ total
    → size_loop fuel h p size ≡ ok total
unfolding size_loop
size_loop-length zero h p xs size total seg lt sum = absurd (omega arith)
size_loop-length (suc fuel) h p [] size total e lt sum =
    let same : size ≡ total = omega arith in rw (e, same) refl
size_loop-length (suc fuel) h p ((a, q) ∷ xs) size total (e, (next, here, seg)) lt sum =
    rw (e, size_loop, here)
      (size_loop-length fuel h next xs (size + 1) total seg (omega arith) (omega arith))

module _ (rt : Runtime) where
  -- `quad_list_size` of a list that ends in NULL and fits the fuel ends with the number of its nodes; behind
  -- `quad_list_push` it is one more than before.
  pub quad_list_size-push :
      (s : Compiler) (dest : Option Ptr) (xs : Cells) (quad : Ptr)
      → IsStore s.nodes
      → IsList s.nodes dest xs
      → suc (length xs) < rt.fuel
      → (quad_list_size rt dest s ≡ ok (length xs))
        × Returns
            (quad_list_push rt dest quad s)
            (λ r. quad_list_size rt r.0 r.1 ≡ ok (suc (length xs)))
  unfolding quad_list_size
  quad_list_size-push s dest xs quad store l enough =
      let (r, run, pushed) = quad_list_push-Pushed rt s dest xs quad store l (omega arith) in
      let ys = xs ++ (s.nodes.next, quad) ∷ [] in
      let longer : length ys ≡ suc (length xs) =
        omega (arith, length-append xs ((s.nodes.next, quad) ∷ [])) in
      (
        size_loop-length rt.fuel s.nodes dest xs 0 (length xs) l.0 (omega arith) (omega arith),
        (
          r,
          run,
          size_loop-length rt.fuel r.1.nodes r.0 ys 0 (suc (length xs)) pushed.list.0
              (omega (arith, longer)) (omega (arith, longer)),
        ),
      )
