-- ===== src/Release/Tables.antt =====
-- src/hash_table.c and src/symbol.c: `ht_free` and `symbol_delete`.
use matcc.Prelude.{
  ◌≤◌, ◌≡◌, refl, ap, false, none, some, List, [], ◌∷◌, ◌++◌, flatten, ok, Returns, Text, arith,
  if◌then◌else◌,
}
use matcc.HashTable.{Chain}
use matcc.Types.{Ptr, SymbolType, int, float, string, matrix, InitialValue, stringval, Symbol}
use matcc.Compiler.{Store, Compiler, ◌>>=◌, ◌>>◌, lift, erase, safe_free, read}
use matcc.Compiler.Bind.{>>=-eq-ok}
use matcc.Registers.{live}
use matcc.Registers.Pool.{occurrences}
use matcc.Translation.Lifetime.{is_entry}
use matcc.Release.{free_symbol, free_value, symbol_delete, free_chain, free_buckets, ht_free}

-- A string was written to the union of a symbol of type STRING.
abbrev pub IsReleasable : Symbol → Type 0
IsReleasable symbol = symbol.type ≡ string → (t : Text) × (symbol.initial_value ≡ stringval t)

abbrev pub AreReleasable : Store Symbol → List (Text × Ptr) → Type 0
AreReleasable h [] = Unit
AreReleasable h ((_, p) ∷ entries) =
    ((symbol : Symbol) × (h.cell p ≡ some symbol) × IsReleasable symbol) × AreReleasable h entries

-- The symbols of the entries are gone, and nothing else has changed.
pub record Emptied (entries : List (Text × Ptr)) (s s' : Compiler) : Type 0 where
  pub only : s' ≡ record s { symbols = s'.symbols }
  pub symbols :
      (p : Ptr) → s'.symbols.cell p ≡ (if is_entry p entries then none else s.symbols.cell p)

free_value-run :
    (type : SymbolType) (value : InitialValue) (s : Compiler)
    → (type ≡ string → (t : Text) × (value ≡ stringval t))
    → free_value type value s ≡ ok (tt, s)
free_value-run int value s h = refl
free_value-run float value s h = refl
free_value-run matrix value s h = refl
free_value-run string value s h = let (t, e) = h refl in rw e refl

free_symbol-run :
    (p : Ptr) (symbol : Symbol) (s : Compiler)
    → s.symbols.cell p ≡ some symbol
    → free_symbol (some p) s ≡ ok (tt, record s { symbols = erase s.symbols p })
free_symbol-run p symbol s at_p = rw (free_symbol, ◌>>=◌, lift, safe_free, at_p) refl

symbol_delete-run :
    (p : Ptr) (symbol : Symbol) (s : Compiler)
    → s.symbols.cell p ≡ some symbol
    → IsReleasable symbol
    → symbol_delete (some p) s ≡ ok (tt, record s { symbols = erase s.symbols p })
unfolding symbol_delete
symbol_delete-run p symbol s at_p h =
    rw (◌>>=◌, ◌>>◌, read, at_p, free_value-run symbol.type symbol.initial_value s h)
      (free_symbol-run p symbol s at_p)

absent :
    (p : Ptr) (entries : List (Text × Ptr))
    → occurrences p (live entries) ≡ 0
    → is_entry p entries ≡ false
absent p [] h = refl
absent p ((_, q) ∷ entries) h = ground (arith, absent p entries)

AreReleasable-erase :
    (h : Store Symbol) (p : Ptr) (entries : List (Text × Ptr))
    → is_entry p entries ≡ false
    → AreReleasable h entries
    → AreReleasable (erase h p) entries
AreReleasable-erase h p [] out are = tt
AreReleasable-erase h p ((_, q) ∷ entries) out ((symbol, at_q, r), are) =
    ((symbol, ground arith, r), AreReleasable-erase h p entries (ground arith) are)

free_chain-Emptied :
    (entries : List (Text × Ptr)) (s : Compiler)
    → ((q : Ptr) → occurrences q (live entries) ≤ 1)
    → AreReleasable s.symbols entries
    → Returns (free_chain entries s) (λ r. Emptied entries s r.1)
unfolding free_chain
free_chain-Emptied [] s once are = ((tt, s), refl, record { only = refl; symbols = λ p. refl })
free_chain-Emptied ((key, p) ∷ entries) s once ((symbol, at_p, r), are) =
    let gone : occurrences p (live entries) ≡ 0 = ground (arith, once p) in
    let out = absent p entries gone in
    let s1 : Compiler = record s { symbols = erase s.symbols p } in
    let (t, run, emptied) =
      free_chain-Emptied entries s1 (λ q. omega (arith, once q))
        (AreReleasable-erase s.symbols p entries out are) in
    (
      t,
      rw (◌>>=◌, ◌>>◌, symbol_delete-run p symbol s at_p r) run,
      record { only = emptied.only; symbols = λ q. ground (arith, emptied.symbols q) },
    )

-- The chains one behind the other are the entries.
free_chain-append :
    (xs ys : Chain Ptr) (s s2 : Compiler)
    → free_chain (xs ++ ys) s ≡ ok (tt, s2)
    → (s1 : Compiler) × (free_chain xs s ≡ ok (tt, s1)) × (free_chain ys s1 ≡ ok (tt, s2))
unfolding free_chain
free_chain-append [] ys s s2 e = (s, refl, e)
free_chain-append ((key, p) ∷ xs) ys s s2 e =
    let (u, s0, d, e1) =
      >>=-eq-ok (symbol_delete (some p)) (λ _. free_chain (xs ++ ys)) s (tt, s2) e in
    let (s1, f, g) = free_chain-append xs ys s0 s2 e1 in (s1, rw (◌>>=◌, ◌>>◌, d) f, g)

free_buckets-flatten :
    (buckets : List (Chain Ptr)) (s s2 : Compiler)
    → free_chain (flatten buckets) s ≡ ok (tt, s2)
    → free_buckets buckets s ≡ ok (tt, s2)
unfolding free_buckets flatten free_chain
free_buckets-flatten [] s s2 e = e
free_buckets-flatten (chain ∷ buckets) s s2 e =
    let (s1, f, g) = free_chain-append chain (flatten buckets) s s2 e in
    rw (◌>>=◌, ◌>>◌, f) (free_buckets-flatten buckets s1 s2 g)

-- What `ht_free` leaves: no bucket and none of the symbols of the table, and all else as it was.
pub record Released (s s' : Compiler) : Type 0 where
  pub only : s' ≡ record s { symbols = s'.symbols; symbol_table = s'.symbol_table }
  pub buckets : s'.symbol_table.buckets ≡ []
  pub symbols :
      (p : Ptr)
      → s'.symbols.cell p
        ≡ (if is_entry p (flatten s.symbol_table.buckets) then none else s.symbols.cell p)

pub ht_free-Released :
    (s : Compiler)
    → ((q : Ptr) → occurrences q (live (flatten s.symbol_table.buckets)) ≤ 1)
    → AreReleasable s.symbols (flatten s.symbol_table.buckets)
    → Returns (ht_free s) (λ r. Released s r.1)
unfolding ht_free
ht_free-Released s once are =
    let (r, run, emptied) = free_chain-Emptied (flatten s.symbol_table.buckets) s once are in
    let s' : Compiler = record r.1 { symbol_table = record r.1.symbol_table { buckets = [] } } in
    (
      (tt, s'),
      rw (◌>>=◌, ◌>>◌, free_buckets-flatten s.symbol_table.buckets s r.1 run) refl,
      record {
        only = ap (λ (t : Compiler). record t { symbol_table = s'.symbol_table }) emptied.only;
        buckets = refl;
        symbols = emptied.symbols;
      },
    )
