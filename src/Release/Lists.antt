-- ===== src/Release/Lists.antt =====
-- src/quad_list.c: `quad_list_delete`.
use matcc.Prelude.{
  ℕ, zero, suc, ◌<◌, ◌≡◌, refl, ◌∙◌, ap, false, none, some, [], ◌∷◌, ok, Returns, length, arith,
  if◌then◌else◌,
}
use matcc.Types.{Ptr, Quad, Node}
use matcc.Compiler.{Store, Compiler, ◌>>=◌, ◌>>◌, lift, erase, safe_free, read}
use matcc.QuadList.Segments.{HaveQuads, Cells, has_node, has_quad, Distinct, Seg}
use matcc.Release.{free_node, free_quad, quad_delete, delete_list}

-- No quad comes twice.
abbrev pub DistinctQuads : Cells → Type 0
DistinctQuads [] = Unit
DistinctQuads ((_, q) ∷ xs) = (has_quad q xs ≡ false) × DistinctQuads xs

-- The nodes and the quads of the cells are gone, and nothing else has changed.
pub record Deleted (cells : Cells) (s s' : Compiler) : Type 0 where
  pub only : s' ≡ record s { nodes = s'.nodes; quads = s'.quads }
  pub nodes : (p : Ptr) → s'.nodes.cell p ≡ (if has_node p cells then none else s.nodes.cell p)
  pub quads : (p : Ptr) → s'.quads.cell p ≡ (if has_quad p cells then none else s.quads.cell p)

HaveQuads-erase :
    (h : Store Quad) (q : Ptr) (xs : Cells)
    → has_quad q xs ≡ false
    → HaveQuads h xs
    → HaveQuads (erase h q) xs
HaveQuads-erase h q [] out have = tt
HaveQuads-erase h q ((a, r) ∷ xs) out ((quad, at_r), have) =
    ((quad, ground arith), HaveQuads-erase h q xs (ground arith) have)

free_quad-run :
    (q : Ptr) (quad : Quad) (s : Compiler)
    → s.quads.cell q ≡ some quad
    → free_quad (some q) s ≡ ok (tt, record s { quads = erase s.quads q })
free_quad-run q quad s at_q = rw (free_quad, ◌>>=◌, lift, safe_free, at_q) refl

module _ (a q : Ptr) (quad : Quad) (s : Compiler) (at_q : s.quads.cell q ≡ some quad) where
  abbrev without_quad : Compiler
  without_quad = record s { quads = erase s.quads q }

  quad_delete-run : quad_delete (some q) s ≡ ok (tt, without_quad)
  unfolding quad_delete
  quad_delete-run = rw (◌>>=◌, ◌>>◌, read, at_q) (free_quad-run q quad s at_q)

free_node-run :
    (a : Ptr) (n : Node) (s : Compiler)
    → s.nodes.cell a ≡ some n
    → free_node (some a) s ≡ ok (tt, record s { nodes = erase s.nodes a })
free_node-run a n s at_a = rw (free_node, ◌>>=◌, lift, safe_free, at_a) refl

pub delete_list-Deleted :
    (fuel : ℕ) (s : Compiler) (a q : Ptr) (xs : Cells)
    → Seg s.nodes (some a) ((a, q) ∷ xs) none
    → Distinct ((a, q) ∷ xs)
    → DistinctQuads ((a, q) ∷ xs)
    → HaveQuads s.quads ((a, q) ∷ xs)
    → length xs < fuel
    → Returns (delete_list fuel (some a) s) (λ r. Deleted ((a, q) ∷ xs) s r.1)
unfolding delete_list
delete_list-Deleted zero s a q xs seg d dq have lt = absurd (omega arith)
delete_list-Deleted (suc fuel) s a q [] (_, (next, at_a, e)) d dq ((quad, at_q), have) lt =
    let run = quad_delete-run a q quad s at_q in
    (
      (tt, record s { quads = erase s.quads q; nodes = erase s.nodes a }),
      rw (◌>>=◌, ◌>>◌, read, at_a, run, e)
          (free_node-run a (record { quad = q; successor = next }) (without_quad a q quad s at_q)
            at_a),
      record { only = refl; nodes = λ p. ground arith; quads = λ p. ground arith },
    )
delete_list-Deleted (suc fuel) s a q ((b, r) ∷ xs) (_, (next, at_a, (e, seg))) (out, d) (outq, dq)
      ((quad, at_q), have) lt =
    let run = quad_delete-run a q quad s at_q in
    let s1 = without_quad a q quad s at_q in
    let (t, run', deleted) =
      delete_list-Deleted fuel s1 b r xs (refl, seg) d dq
        (HaveQuads-erase s.quads q ((b, r) ∷ xs) outq have) (omega arith) in
    (
      (tt, record t.1 { nodes = erase t.1.nodes a }),
      rw (◌>>=◌, ◌>>◌, read, at_a, run, e, run')
          (free_node-run a (record { quad = q; successor = next }) t.1
            (deleted.nodes a ∙ rw out at_a)),
      record {
        only = ap (λ (u : Compiler). record u { nodes = erase t.1.nodes a }) deleted.only;
        nodes = λ p. ground (arith, deleted.nodes p);
        quads = λ p. ground (arith, deleted.quads p);
      },
    )
