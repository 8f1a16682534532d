-- ===== src/Release/Whole.antt =====
-- src/main.c: what `main` releases at its end.
use matcc.Prelude.{
  ◌≤◌, ◌<◌, ◌≡◌, refl, subst, sym, ◌∙◌, ap, Option, none, List, [], ◌∷◌, flatten, ok, Returns,
  length, arith, if◌then◌else◌,
}
use matcc.HashTable.{HashTable}
use matcc.Types.{Ptr, Symbol}
use matcc.Compiler.{Store, Compiler, Runtime, ◌>>=◌, ◌>>◌}
use matcc.QuadList.Segments.{HaveQuads, Cells, has_node, has_quad, IsList}
use matcc.Registers.{live}
use matcc.Registers.Pool.{occurrences}
use matcc.Translation.Lifetime.{is_entry}
use matcc.Release.Lists.{DistinctQuads, Deleted, delete_list-Deleted}
use matcc.Release.Tables.{AreReleasable, ht_free-Released}
use matcc.Instructions.{Instruction}
use matcc.Release.{instruction_list_delete, quad_list_delete, release}

-- The nodes and quads of the list and the symbols of the table are gone, and every other object is
-- as it was.
pub record AllReleased (cells : Cells) (s s' : Compiler) : Type 0 where
  pub nodes : (p : Ptr) → s'.nodes.cell p ≡ (if has_node p cells then none else s.nodes.cell p)
  pub quads : (p : Ptr) → s'.quads.cell p ≡ (if has_quad p cells then none else s.quads.cell p)
  pub symbols :
      (p : Ptr)
      → s'.symbols.cell p
        ≡ (if is_entry p (flatten s.symbol_table.buckets) then none else s.symbols.cell p)
  pub buckets : s'.symbol_table.buckets ≡ []

module _ (rt : Runtime) where
  quad_list_delete-Deleted :
      (s : Compiler) (list : Option Ptr) (cells : Cells)
      → IsList s.nodes list cells
      → DistinctQuads cells
      → HaveQuads s.quads cells
      → 0 < length cells
      → length cells ≤ rt.fuel
      → Returns (quad_list_delete rt list s) (λ r. Deleted cells s r.1)
  unfolding quad_list_delete
  quad_list_delete-Deleted s list [] l dq have some_node lt = absurd (omega arith)
  quad_list_delete-Deleted s list ((a, q) ∷ xs) ((e, seg), d) dq have some_node lt =
      rw e (delete_list-Deleted rt.fuel s a q xs (refl, seg) d dq have (omega arith))

  -- When the list has a quad, ends in NULL, fits the fuel and shares no node and no quad within
  -- itself, its quads are there, every symbol is entered once in the table, and the ones of type
  -- STRING have a string: `release` ends normally, and no object is released twice. The nodes and
  -- quads of the list, the symbols of the table and its buckets are gone, and no other object is.
  pub release-AllReleased :
      (s : Compiler) (cells : Cells)
      → IsList s.nodes s.quad_list cells
      → DistinctQuads cells
      → HaveQuads s.quads cells
      → 0 < length cells
      → length cells ≤ rt.fuel
      → ((p : Ptr) → occurrences p (live (flatten s.symbol_table.buckets)) ≤ 1)
      → AreReleasable s.symbols (flatten s.symbol_table.buckets)
      → Returns (release rt s) (λ r. AllReleased cells s r.1)
  unfolding release
  release-AllReleased s cells list dq have some_node enough once are =
      let (r1, run1, deleted) =
        quad_list_delete-Deleted s s.quad_list cells list dq have some_node enough in
      let table : r1.1.symbol_table ≡ s.symbol_table =
        ap (λ (t : Compiler). t.symbol_table) deleted.only in
      let symbols : r1.1.symbols ≡ s.symbols = ap (λ (t : Compiler). t.symbols) deleted.only in
      let (r2, run2, released) = ht_free-Released r1.1 (rw table once) (rw (table, symbols) are) in
      (
        r2,
        rw (◌>>=◌, ◌>>◌, run1) run2,
        record {
          nodes = λ p. ap (λ (t : Compiler). t.nodes.cell p) released.only ∙ deleted.nodes p;
          quads = λ p. ap (λ (t : Compiler). t.quads.cell p) released.only ∙ deleted.quads p;
          symbols = λ p.
              released.symbols p
              ∙ ap
                  (λ (t : HashTable Ptr).
                    if is_entry p (flatten t.buckets) then none else r1.1.symbols.cell p)
                  table
              ∙ ap
                  (λ (h : Store Symbol).
                    if is_entry p (flatten s.symbol_table.buckets) then none else h.cell p)
                  symbols;
          buckets = released.buckets;
        },
      )

  -- The same behind a change of the symbols.
  pub release-later :
      (s t : Compiler) (cells : Cells)
      → t ≡ record s { symbols = t.symbols }
      → IsList s.nodes s.quad_list cells
      → DistinctQuads cells
      → HaveQuads s.quads cells
      → 0 < length cells
      → length cells ≤ rt.fuel
      → ((p : Ptr) → occurrences p (live (flatten s.symbol_table.buckets)) ≤ 1)
      → AreReleasable t.symbols (flatten s.symbol_table.buckets)
      → Returns (release rt t) (λ r. AllReleased cells t r.1)
  release-later s t cells only list dq have some_node enough once are =
      subst (λ u. Returns (release rt u) (λ r. AllReleased cells u r.1)) (sym only)
        (release-AllReleased (record s { symbols = t.symbols }) cells list dq have some_node enough
          once are)

-- A list of instructions that has one is released.
instruction_list_delete-cons :
    (i : Instruction) (list : List Instruction) → instruction_list_delete (i ∷ list) ≡ ok tt
unfolding instruction_list_delete
instruction_list_delete-cons i [] = refl
instruction_list_delete-cons i (next ∷ list) = instruction_list_delete-cons next list

pub instruction_list_delete-run :
    (i : Instruction) (rest list : List Instruction)
    → list ≡ i ∷ rest
    → instruction_list_delete list ≡ ok tt
instruction_list_delete-run i rest list e = rw e (instruction_list_delete-cons i rest)
