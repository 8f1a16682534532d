-- ===== src/Translation/Lifetime.antt =====
-- src/mips/translation.c: `compute_symbols_lifetime` on the store of the symbols and the global
-- list of quads.
mod Loops
pub use Loops.{IsCode, IsSymbol, HaveSymbols, AreSymbols, is_entry, reset_if}
use Loops.{life_loop-Lived, reset_loop-ok, HaveSymbols-changed}
use matcc.Prelude.{
  ℕ, zero, suc, ◌+◌, ◌^◌, ◌≤◌, ◌<◌, ◌≡◌, refl, subst, sym, ◌∙◌, ap, inl, inr, Bool, true, false,
  ◌||◌, Option, none, some, List, [], ◌∷◌, flatten, ok, Returns, Text, length, arith, Bool-cases,
  Option-cases, ltb, ◌==◌, if◌then◌else◌,
}
use matcc.Types.{Ptr, Symbol, Quad, Node}
use matcc.Compiler.{Store, Compiler, Runtime, M, ◌>>=◌, ◌>>◌, write}
use matcc.Translation.{
  touch, reset_symbol, extend_life, reset_loop, count, life_loop, compute_symbols_lifetime,
}
use matcc.Translation.Intervals.{points_to, names, lived, touch-touch, IsLifetime, lived-IsLifetime}

module _ (rt : Runtime) (s : Compiler) (quads : List Quad)
    (is : IsCode s.nodes s.quads s.quad_list quads) (have : HaveSymbols s.symbols quads)
    (are : AreSymbols s.symbols (flatten s.symbol_table.buckets)) (enough : length quads ≤ rt.fuel)
    (fits : length quads < 2 ^ 31) where
  -- Every symbol of the table is reset, and every symbol is passed through the quads.
  pub compute_symbols_lifetime-lived : Returns (compute_symbols_lifetime rt s) λ r.
      (r.1 ≡ record s { symbols = r.1.symbols })
      × ((p : Ptr) (symbol : Symbol)
          → s.symbols.cell p ≡ some symbol
          → r.1.symbols.cell p
            ≡ some
                (lived p quads 0 (reset_if (is_entry p (flatten s.symbol_table.buckets)) symbol)))
  unfolding compute_symbols_lifetime
  compute_symbols_lifetime-lived =
      let entries = flatten s.symbol_table.buckets in
      let (h, run, cells) = reset_loop-ok entries s are in
      let (h', run', cells') =
        life_loop-Lived rt.fuel quads 0 s.quad_list (record s { symbols = h }) is
          (HaveSymbols-changed s.symbols h (λ p. reset_if (is_entry p entries)) cells quads have)
          enough (omega arith) in
      (
        (tt, record s { symbols = h' }),
        rw (◌>>=◌, ◌>>◌, run, run'),
        (refl, λ p symbol here. cells' p ∙ rw (cells p, here)),
      )

  -- `compute_symbols_lifetime` ends when the list of quads ends in NULL, has fewer than 2 ^ 31 quads
  -- and names symbols alone. It writes symbols only, and every symbol of the table then has the life
  -- time of its uses: it starts at the number of the first quad that names it and ends at that of
  -- the last, with every use in between, or has no points when no quad names it.
  pub compute_symbols_lifetime-IsLifetime : Returns (compute_symbols_lifetime rt s) λ r.
      (r.1 ≡ record s { symbols = r.1.symbols })
      × ((p : Ptr) (symbol : Symbol)
          → is_entry p (flatten s.symbol_table.buckets) ≡ true
          → s.symbols.cell p ≡ some symbol
          → (symbol' : Symbol) × (r.1.symbols.cell p ≡ some symbol')
            × IsLifetime p quads 0 (reset_symbol symbol) symbol')
  unfolding reset_symbol
  compute_symbols_lifetime-IsLifetime =
      let (r, run, (only, cells)) = compute_symbols_lifetime-lived in
      (
        r,
        run,
        (
          only,
          λ p symbol entry here. (
            lived p quads 0 (reset_symbol symbol),
            subst (λ b. r.1.symbols.cell p ≡ some (lived p quads 0 (reset_if b symbol))) entry
                (cells p symbol here),
            lived-IsLifetime p quads 0 (reset_symbol symbol) refl refl,
          ),
        ),
      )
