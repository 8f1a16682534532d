-- ===== src/Driver/Program.antt =====
-- src/main.c: a whole run behind the parser.
use matcc.Prelude.{
  sym, subst, suc, ◌≤◌, ◌<◌, ◌^◌, ◌≡◌, refl, ◌∙◌, ap, Bool, true, false, Option, some, List, [],
  ◌∷◌, ◌++◌, flatten, ok, Returns, Text, codes, length, length-append, All, All-append, arith,
}
use matcc.HashTable.{HashTable, init}
use matcc.Types.{Ptr, Point, Symbol, Quad}
use matcc.Compiler.{alloc, Store, Compiler, Runtime, M, IsStore, ◌>>=◌, ◌>>◌, lift}
use matcc.SymbolTable.Printing.{Reading, newline}
use matcc.SymbolTable.Printing.DataSection.{
  ArePrintable, definitions, symbol_table_print_data_section-definitions,
}
use matcc.QuadList.Segments.{has_node, Cells, IsList}
use matcc.Registers.{live, max_registers}
use matcc.Registers.Pool.{occurrences, IsPermuting}
use matcc.Instructions.{Instruction, instruction_list_print}
use matcc.Translation.{compute_symbols_lifetime}
use matcc.Translation.Intervals.{
  lived, SameButPoints, SameButPoints-trans, reset_symbol-SameButPoints, lived-SameButPoints,
}
use matcc.Registers.Kept.{SameButPlace}
use matcc.Translation.Lifetime.{is_entry, reset_if, IsCode, compute_symbols_lifetime-lived}
use matcc.Translation.Generate.Labels.{IsComplete, Translated, main_label, generate_code-Chunks}
use matcc.Release.{instruction_list_delete}
use matcc.Release.Lists.{DistinctQuads}
use matcc.Release.Tables.{AreReleasable}
use matcc.Release.Whole.{AllReleased, release-later, instruction_list_delete-run}
use matcc.Options.{Options, default, run, parse}
use matcc.Driver.{Report, back_end, finish, compile, reports, main}
use matcc.Driver.Entries.{
  ArePrintable-AreSymbols, ArePrintable-ArePresent, IsComplete-HaveSymbols,
  ArePrintable-SameButPoints, AreReleasable-SameButPoints, AreReleasable-Keeps,
}
use matcc.Driver.Pushing.{
  Carries, Carries-length, Carries-HaveQuads, DistinctQuads-fresh, return_quad, Returned,
  push_return-Returned,
}

-- A program that fits the registers: the table has at most eight symbols, each entered once and, if it
-- is constant, with a value of its type; the quads have the operands of their operations, all from the
-- table.
pub record IsProgram (table : HashTable Ptr) (h : Store Symbol) (quads : List Quad)
    (symbols : List Symbol) : Type 0 where
  pub once : (q : Ptr) → occurrences q (live (flatten table.buckets)) ≤ 1
  pub few : length (live (flatten table.buckets)) ≤ max_registers
  pub printable : ArePrintable h (flatten table.buckets) symbols
  pub complete : All (IsComplete (live (flatten table.buckets))) quads

-- With the return statement, which has no operands.
return-IsProgram :
    (table : HashTable Ptr) (h : Store Symbol) (quads : List Quad) (symbols : List Symbol)
    → IsProgram table h quads symbols
    → IsProgram table h (quads ++ return_quad ∷ []) symbols
return-IsProgram table h quads symbols p = record {
  once = p.once;
  few = p.few;
  printable = p.printable;
  complete =
      All-append (IsComplete (live (flatten table.buckets))) quads (return_quad ∷ []) p.complete
        (record { res = tt; op1 = tt; op2 = tt; needs = tt }, tt);
}

-- The assembler file: the definitions of the symbols, and the instructions.
abbrev pub assembler : Reading → List Symbol → List Instruction → Text
assembler reading symbols code =
    (codes ".data" ++ (newline ++ definitions reading symbols))
    ++ (newline ++ (codes ".text" ++ (newline ++ instruction_list_print code)))

-- The report of the back end, with the code that it prints.
pub record Compiled (reading : Reading) (quads : List Quad) (symbols : List Symbol)
    (r : Report × Compiler) : Type 0 where
  pub code : List Instruction
  pub report :
      r.0 ≡ record { success = true; output = assembler reading symbols code; messages = [] }
  pub translated : Translated reading.raw_int quads r.1 (code, r.1)

-- The back end gives a symbol its points, its life time, its register and its place on the stack.
pub record SameButResults (x y : Symbol) : Type 0 where
  pub same : y ≡ record x {
    start_point = y.start_point;
    end_point = y.end_point;
    life_time = y.life_time;
    affected_register = y.affected_register;
    stack_location = y.stack_location;
  }

-- The report of a run that succeeds behind the state `s` that the parser leaves. The back end leaves the
-- state `done`: the table of `s`, its symbols with the life times of their uses and new places, its quads with the return statement, and
-- their list, beside which no node has changed. Then everything that the list and the table hold is
-- released.
pub record Finished (reading : Reading) (s : Compiler) (cells : Cells) (quads : List Quad)
    (symbols : List Symbol) (r : Report × Compiler) : Type 0 where
  pub done : Compiler
  pub table : done.symbol_table ≡ s.symbol_table
  pub quads' : done.quads ≡ alloc s.quads return_quad
  pub list : IsList done.nodes done.quad_list cells
  pub carried : Carries done.quads cells quads
  pub nodes' : (a : Ptr) → has_node a cells ≡ false → done.nodes.cell a ≡ s.nodes.cell a
  pub symbols' :
      (p : Ptr) (x : Symbol)
      → s.symbols.cell p ≡ some x
      → (y : Symbol) × (done.symbols.cell p ≡ some y)
        × SameButResults x y
        × SameButPlace
            (lived p quads 0 (reset_if (is_entry p (flatten s.symbol_table.buckets)) x))
            y
  pub compiled : Compiled reading quads symbols (r.0, done)
  pub released : AllReleased cells done r.1

SameButResults-trans : (x y z : Symbol) → SameButPoints x y → SameButPlace y z → SameButResults x z
SameButResults-trans x y z e e' =
    let restore : Symbol → Symbol = λ a. record a {
      start_point = z.start_point;
      end_point = z.end_point;
      life_time = z.life_time;
      affected_register = z.affected_register;
      stack_location = z.stack_location;
    } in
    let final : z ≡ restore y =
      subst
        (λ (w : Symbol). w ≡ record y {
          start_point = w.start_point;
          end_point = w.end_point;
          life_time = w.life_time;
          affected_register = w.affected_register;
          stack_location = w.stack_location;
        })
        (sym e') refl in
    record { same = final ∙ ap restore e.same }

reset_if-SameButPoints : (b : Bool) (symbol : Symbol) → SameButPoints symbol (reset_if b symbol)
reset_if-SameButPoints true symbol = reset_symbol-SameButPoints symbol
reset_if-SameButPoints false symbol = record { same = refl }

module _ (rt : Runtime) (reading : Reading) (qsort : (Ptr → Point) → List Ptr → List Ptr)
    (law : IsPermuting qsort) where
  back_end-Compiled :
      (debug : Bool) (s : Compiler) (quads : List Quad) (symbols : List Symbol)
      → debug ≡ false
      → IsProgram s.symbol_table s.symbols quads symbols
      → IsCode s.nodes s.quads s.quad_list quads
      → length quads ≤ rt.fuel
      → length quads < 2 ^ 31
      → AreReleasable s.symbols (flatten s.symbol_table.buckets)
      → Returns (back_end rt reading qsort debug [] s) λ r.
        Compiled reading quads symbols r
        × (r.1 ≡ record s { symbols = r.1.symbols })
        × ((p : Ptr) (x : Symbol)
            → s.symbols.cell p ≡ some x
            → (y : Symbol) × (r.1.symbols.cell p ≡ some y)
              × SameButResults x y
              × SameButPlace
                  (lived p quads 0 (reset_if (is_entry p (flatten s.symbol_table.buckets)) x))
                  y)
        × AreReleasable r.1.symbols (flatten s.symbol_table.buckets)
  unfolding back_end
  back_end-Compiled debug s quads symbols quiet p code enough fits releasable =
      let entries = flatten s.symbol_table.buckets in
      let present = ArePrintable-ArePresent s.symbols entries symbols p.printable in
      let have = IsComplete-HaveSymbols s.symbols (live entries) quads present p.complete in
      let are = ArePrintable-AreSymbols s.symbols entries symbols p.printable in
      let (r, ends, (only, cells)) =
        compute_symbols_lifetime-lived rt s quads code have are enough fits in
      let h = r.1.symbols in
      let f : Ptr → Symbol → Symbol =
        λ q symbol. lived q quads 0 (reset_if (is_entry q entries) symbol) in
      let same : (q : Ptr) (x : Symbol) → SameButPoints x (f q x) = λ q x.
        SameButPoints-trans x (reset_if (is_entry q entries) x) (f q x)
          (reset_if-SameButPoints (is_entry q entries) x)
          (lived-SameButPoints q quads 0 (reset_if (is_entry q entries) x)) in
      let everywhere : (q : Ptr) (x : Symbol)
          → is_entry q entries ≡ true
          → s.symbols.cell q ≡ some x
          → h.cell q ≡ some (f q x) =
        λ q x entry at_q. cells q x at_q in
      let (symbols', printable, e) =
        ArePrintable-SameButPoints reading s.symbols h f same entries everywhere entries symbols
          (λ q i. i) p.printable in
      let s1 : Compiler = record s { symbols = h } in
      let run1 : compute_symbols_lifetime rt s ≡ ok (r.0, s1) = ends ∙ ap (λ t. ok (r.0, t)) only in
      let printed =
        symbol_table_print_data_section-definitions reading h s.symbol_table symbols' printable in
      let (t, run', translated) =
        generate_code-Chunks rt qsort law reading.raw_int s1 p.once
          (ArePrintable-ArePresent h entries symbols' printable) p.few quads code p.complete enough
          fits in
      let deleted : instruction_list_delete t.0 ≡ ok tt =
        instruction_list_delete-run main_label translated.chunks.0 t.0 translated.chunks.1 in
      (
        (record { success = true; output = assembler reading symbols t.0; messages = [] }, t.1),
        rw (◌>>=◌, ◌>>◌, run1, quiet, printed, lift, run', deleted, e) refl,
        (
          record {
            code = t.0;
            report = refl;
            translated = record {
              only = refl;
              kept = λ q x at_q. (x, at_q, refl);
              chunks = translated.chunks;
              labels = translated.labels;
            };
          },
          translated.only,
          λ q x at_q.
              let (y, at_q', e') = translated.kept q (f q x) (cells q x at_q) in
              (y, at_q', SameButResults-trans x (f q x) y (same q x) e', e'),
          AreReleasable-Keeps h t.1.symbols entries translated.kept (
              AreReleasable-SameButPoints reading s.symbols h f same entries everywhere entries
                (λ q i. i) releasable),
        ),
      )

  -- Where `main` calls the parser, which leaves the quads in the list; the rest of the state has
  -- them with the return statement at the end.
  module _ (yyparse : Option Text → M Bool) (can_open : Text → Text → Bool) (progname : Text)
      (args : List Text) (options : Options) (reads : parse can_open args default ≡ run options)
      (s0 s : Compiler) (cells : Cells) (quads : List Quad) (nodes : IsStore s.nodes)
      (store : IsStore s.quads) (list : IsList s.nodes s.quad_list cells)
      (carried : Carries s.quads cells quads) (enough : suc (length quads) ≤ rt.fuel) where
    -- If `qsort` permutes its array, the command line is read, with neither debugging nor `-c`, and the
    -- parser succeeds and leaves, in a list that ends in NULL, fewer than 2 ^ 31 - 1 quads that fit the
    -- fuel, each in one node, and, with the table, a program that fits the registers, where the symbols
    -- of type STRING have a string: `main` ends normally with success and writes the assembler file,
    -- which is the definitions of the symbols of the table and the instructions of the quads with a
    -- return statement at the end, each behind its label. The table is the parser's, its symbols have
    -- new registers and places on the stack, the points and life time of their uses in those quads, and
    -- are the same else, the return statement is the only
    -- new quad, and no node beside those of the list changes before the nodes and quads of the list and
    -- the symbols of the table are released, each once; no other object is released.
    pub main-Compiled :
        (symbols : List Symbol)
        → options.debug ≡ false
        → options.stop_after_quads ≡ false
        → yyparse options.source_file (record s0 { symbol_table = init s0.symbol_table 16 })
          ≡ ok (true, s)
        → IsProgram s.symbol_table s.symbols quads symbols
        → suc (length quads) < 2 ^ 31
        → DistinctQuads cells
        → AreReleasable s.symbols (flatten s.symbol_table.buckets)
        → Returns (main rt reading qsort yyparse can_open progname args s0) λ r.
          (report : Report) × (r.0 ≡ reports report)
          × Finished reading s
              (cells ++ (s.nodes.next, s.quads.next) ∷ [])
              (quads ++ return_quad ∷ [])
              symbols
              (report, r.1)
    unfolding main compile finish
    main-Compiled symbols quiet whole parsed p fits apart releasable =
        let (r, run', left) =
          push_return-Returned rt s cells quads nodes store list carried (omega arith) in
        let more : length (quads ++ return_quad ∷ []) ≡ suc (length quads) =
          omega (arith, length-append quads (return_quad ∷ [])) in
        let p' : IsProgram r.1.symbol_table r.1.symbols (quads ++ return_quad ∷ []) symbols =
          rw (left.symbol_table, left.symbols)
            (return-IsProgram s.symbol_table s.symbols quads symbols p) in
        let (t, run'', (compiled, only, results, releasable')) =
          back_end-Compiled options.debug r.1 (quads ++ return_quad ∷ []) symbols quiet p' left.code
            (omega (arith, more)) (omega (arith, more))
            (rw (left.symbol_table, left.symbols) releasable) in
        let all = cells ++ (s.nodes.next, s.quads.next) ∷ [] in
        let distinct =
          DistinctQuads-fresh s.quads s.nodes.next s.quads.next cells
            (store.free s.quads.next (omega arith)) (Carries-HaveQuads s.quads cells quads carried)
            apart in
        let have = Carries-HaveQuads r.1.quads all (quads ++ return_quad ∷ []) left.carried in
        let many = Carries-length r.1.quads all (quads ++ return_quad ∷ []) left.carried in
        let (u, run3, released) =
          release-later rt r.1 t.1 all only left.list distinct have (omega (arith, many, more))
            (omega (arith, many, more)) p'.once releasable' in
        (
          (reports t.0, u.1),
          rw (main, reads, ◌>>=◌, ◌>>◌, compile, parsed, run', quiet, whole, run'', run3) refl,
          (
            t.0,
            refl,
            record {
              done = t.1;
              table = ap (λ (c : Compiler). c.symbol_table) only ∙ left.symbol_table;
              quads' = ap (λ (c : Compiler). c.quads) only ∙ left.store;
              list = rw only left.list;
              carried = rw only left.carried;
              nodes' = λ a out. ap (λ (c : Compiler). c.nodes.cell a) only ∙ left.same a out;
              symbols' = λ q x at_q.
                  rw left.symbol_table at results q x
                    (ap (λ (h : Store Symbol). h.cell q) left.symbols ∙ at_q);
              compiled = compiled;
              released = released;
            },
          ),
        )

    -- If the command line is read and the parser fails, leaving its quads, which fit the fuel, in a list
    -- that ends in NULL, `main` ends normally with failure and writes nothing to the output file,
    -- whatever the options: the list has the return statement at its end, other nodes and quads are as
    -- they were, and the symbols and their table stay as the parser left them, released by nothing.
    pub main-fails :
        yyparse options.source_file (record s0 { symbol_table = init s0.symbol_table 16 })
          ≡ ok (false, s)
        → Returns (main rt reading qsort yyparse can_open progname args s0) λ r.
          (r.0
            ≡ reports (record {
              success = false;
              output = [];
              messages = codes "compilation aborted" ++ newline;
            }))
          × Returned rt s cells quads (tt, r.1)
    unfolding main compile
    main-fails parsed =
        let (r, run', left) =
          push_return-Returned rt s cells quads nodes store list carried (omega arith) in
        (
          (
            reports (record {
              success = false;
              output = [];
              messages = codes "compilation aborted" ++ newline;
            }),
            r.1,
          ),
          rw (main, reads, ◌>>=◌, ◌>>◌, compile, parsed, run') refl,
          (refl, left),
        )
