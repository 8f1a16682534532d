-- ===== src/Translation/Lifetime/Loops.antt =====
-- src/mips/translation.c: the loops of `compute_symbols_lifetime` on the store of the symbols.
use matcc.Prelude.{
  ℕ, zero, suc, ◌+◌, ◌^◌, ◌≤◌, ◌<◌, ◌≡◌, refl, sym, ◌∙◌, ap, inl, inr, Bool, true, false, ◌||◌,
  Option, none, some, List, [], ◌∷◌, ok, Text, length, arith, Bool-cases, Option-cases, ltb, ◌==◌,
  if◌then◌else◌,
}
use matcc.Types.{Ptr, Symbol, Quad, Node}
use matcc.Compiler.{Store, Compiler, M, ◌>>=◌, ◌>>◌, write}
use matcc.Translation.{touch, reset_symbol, extend_life, reset_loop, count, life_loop}
use matcc.Translation.Intervals.{points_to, names, lived, touch-touch}

-- The list from a node on, as the quads that it carries.
abbrev pub IsCode : Store Node → Store Quad → Option Ptr → List Quad → Type 0
IsCode nodes quads list [] = list ≡ none
IsCode nodes quads list (quad ∷ rest) =
    (a : Ptr) × (q : Ptr) × (successor : Option Ptr) × (list ≡ some a)
    × (nodes.cell a ≡ some (record { quad = q; successor = successor }))
    × (quads.cell q ≡ some quad)
    × IsCode nodes quads successor rest

abbrev pub IsSymbol : Store Symbol → Option Ptr → Type 0
IsSymbol h none = Unit
IsSymbol h (some p) = (symbol : Symbol) × (h.cell p ≡ some symbol)

-- The operands of the quads are NULL or symbols.
abbrev pub HaveSymbols : Store Symbol → List Quad → Type 0
HaveSymbols h [] = Unit
HaveSymbols h (quad ∷ rest) =
    IsSymbol h quad.res × IsSymbol h quad.op1 × IsSymbol h quad.op2 × HaveSymbols h rest

abbrev changed : (Symbol → Symbol) → Option Symbol → Option Symbol
changed f none = none
changed f (some symbol) = some (f symbol)

abbrev touched : Bool → ℕ → Option Symbol → Option Symbol
touched b n c = changed (λ symbol. if b then touch n symbol else symbol) c

touched-false : (n : ℕ) (c : Option Symbol) → touched false n c ≡ c
touched-false n none = refl
touched-false n (some symbol) = refl

touched-touched :
    (a b : Bool) (n : ℕ) (c : Option Symbol) → touched b n (touched a n c) ≡ touched (a || b) n c
touched-touched a b n none = refl
touched-touched true true n (some symbol) = ap some (touch-touch n symbol)
touched-touched true false n (some symbol) = refl
touched-touched false b n (some symbol) = refl

-- A store whose symbols are changed in place has symbols at the same addresses.
IsSymbol-changed :
    (h h' : Store Symbol) (f : Ptr → Symbol → Symbol)
    → ((p : Ptr) → h'.cell p ≡ changed (f p) (h.cell p))
    → (o : Option Ptr) → IsSymbol h o
    → IsSymbol h' o
IsSymbol-changed h h' f same none is = tt
IsSymbol-changed h h' f same (some p) (symbol, e) = (f p symbol, same p ∙ rw e)

pub HaveSymbols-changed :
    (h h' : Store Symbol) (f : Ptr → Symbol → Symbol)
    → ((p : Ptr) → h'.cell p ≡ changed (f p) (h.cell p))
    → (quads : List Quad) → HaveSymbols h quads
    → HaveSymbols h' quads
HaveSymbols-changed h h' f same [] is = tt
HaveSymbols-changed h h' f same (quad ∷ rest) (is, is1, is2, are) = (
  IsSymbol-changed h h' f same quad.res is,
  IsSymbol-changed h h' f same quad.op1 is1,
  IsSymbol-changed h h' f same quad.op2 is2,
  HaveSymbols-changed h h' f same rest are,
)

-- A write through a pointer changes the symbol there and no other.
write-changed :
    (h : Store Symbol) (q : Ptr) (symbol : Symbol) (f : Symbol → Symbol)
    → h.cell q ≡ some symbol
    → (p : Ptr)
    → (write h q (f symbol)).cell p ≡ changed (λ s. if q == p then f s else s) (h.cell p)
write-changed h q symbol f e p = elim (Bool-cases (q == p)) [
  | inl same ↦ let here : h.cell p ≡ some symbol = ap h.cell (ground arith) ∙ e in rw (same, here)
  | inr other ↦ rw other (elim (Option-cases (h.cell p)) [ inl n ↦ rw n | inr (s, n) ↦ rw n ])
]

extend_life-ok :
    (n : ℕ) (o : Option Ptr) (s : Compiler)
    → IsSymbol s.symbols o
    → (h : Store Symbol) × (extend_life n o s ≡ ok (tt, record s { symbols = h }))
      × ((p : Ptr) → h.cell p ≡ touched (points_to p o) n (s.symbols.cell p))
unfolding extend_life
extend_life-ok n none s is = (s.symbols, refl, λ p. sym (touched-false n (s.symbols.cell p)))
extend_life-ok n (some q) s (symbol, e) = (
  write s.symbols q (touch n symbol),
  rw (◌>>=◌, ◌>>◌, e),
  write-changed s.symbols q symbol (touch n) e,
)

-- The three blocks of one quad.
quad_life-ok :
    (n : ℕ) (quad : Quad) (s : Compiler)
    → IsSymbol s.symbols quad.res
    → IsSymbol s.symbols quad.op1
    → IsSymbol s.symbols quad.op2
    → (h : Store Symbol) × ((k : M (Unit {0}))
        → (extend_life n quad.res >> (extend_life n quad.op1 >> (extend_life n quad.op2 >> k))) s
          ≡ k (record s { symbols = h }))
      × ((p : Ptr) → h.cell p ≡ touched (names p quad) n (s.symbols.cell p))
quad_life-ok n quad s is is1 is2 =
    let f : Option Ptr → Ptr → Symbol → Symbol =
      λ o p symbol. if points_to p o then touch n symbol else symbol in
    let (h, run, cells) = extend_life-ok n quad.res s is in
    let (h1, run1, cells1) =
      extend_life-ok n quad.op1 (record s { symbols = h })
        (IsSymbol-changed s.symbols h (f quad.res) cells quad.op1 is1) in
    let (h2, run2, cells2) =
      extend_life-ok n quad.op2 (record s { symbols = h1 })
        (IsSymbol-changed h h1 (f quad.op1) cells1 quad.op2
          (IsSymbol-changed s.symbols h (f quad.res) cells quad.op2 is2)) in
    (
      h2,
      λ k. rw (◌>>=◌, ◌>>◌, run, run1, run2),
      λ p.
          cells2 p
          ∙ ap (touched (points_to p quad.op2) n) (
              cells1 p
              ∙ ap (touched (points_to p quad.op1) n) (cells p)
              ∙ touched-touched (points_to p quad.res) (points_to p quad.op1) n (s.symbols.cell p))
          ∙ touched-touched (points_to p quad.res || points_to p quad.op1) (points_to p quad.op2) n
              (s.symbols.cell p),
    )

changed-changed :
    (f g : Symbol → Symbol) (c : Option Symbol)
    → changed g (changed f c) ≡ changed (λ symbol. g (f symbol)) c
changed-changed f g none = refl
changed-changed f g (some symbol) = refl

changed-ext :
    (f g : Symbol → Symbol)
    → ((symbol : Symbol) → f symbol ≡ g symbol)
    → (c : Option Symbol) → changed f c ≡ changed g c
changed-ext f g same none = refl
changed-ext f g same (some symbol) = ap some (same symbol)

changed-id : (c : Option Symbol) → changed (λ symbol. symbol) c ≡ c
changed-id none = refl
changed-id (some symbol) = refl

pub life_loop-Lived :
    (fuel : ℕ) (quads : List Quad) (n : ℕ) (list : Option Ptr) (s : Compiler)
    → IsCode s.nodes s.quads list quads
    → HaveSymbols s.symbols quads
    → length quads ≤ fuel
    → n + length quads < 2 ^ 31
    → (h : Store Symbol) × (life_loop fuel list n s ≡ ok (tt, record s { symbols = h }))
      × ((p : Ptr) → h.cell p ≡ changed (lived p quads n) (s.symbols.cell p))
unfolding life_loop count lived
life_loop-Lived fuel [] n list s is have enough fits =
    (s.symbols, rw is, λ p. sym (changed-id (s.symbols.cell p)))
life_loop-Lived zero (quad ∷ rest) n list s is have enough fits = absurd (omega arith)
life_loop-Lived (suc fuel) (quad ∷ rest) n list s (a, q, next, e, node, here, is)
      (is0, is1, is2, have) enough fits =
    let small : ltb (n + 1) (2 ^ 31) ≡ true = ground arith in
    let (h, run, cells) = quad_life-ok n quad s is0 is1 is2 in
    let (h', run', cells') =
      life_loop-Lived fuel rest (n + 1) next (record s { symbols = h }) is
        (HaveSymbols-changed s.symbols h
          (λ p symbol. if names p quad then touch n symbol else symbol) cells rest have)
        (omega arith) (omega arith) in
    (
      h',
      rw (e, ◌>>=◌, ◌>>◌, node, here)
          (run (count n >>= λ m. life_loop fuel next m) ∙ rw (◌>>=◌, small, run')),
      λ p.
          cells' p
          ∙ ap (changed (lived p rest (n + 1))) (cells p)
          ∙ changed-changed (λ symbol. if names p quad then touch n symbol else symbol)
              (lived p rest (n + 1)) (s.symbols.cell p),
    )

-- The table has the symbol at the address.
abbrev pub is_entry : Ptr → List (Text × Ptr) → Bool
is_entry p [] = false
is_entry p ((_, q) ∷ entries) = q == p || is_entry p entries

-- Every entry of the table is a symbol.
abbrev pub AreSymbols : Store Symbol → List (Text × Ptr) → Type 0
AreSymbols h [] = Unit
AreSymbols h ((_, q) ∷ entries) = IsSymbol h (some q) × AreSymbols h entries

abbrev pub reset_if : Bool → Symbol → Symbol
reset_if b symbol = if b then reset_symbol symbol else symbol

reset_if-reset_if :
    (a b : Bool) (symbol : Symbol) → reset_if b (reset_if a symbol) ≡ reset_if (a || b) symbol
unfolding reset_symbol
reset_if-reset_if true true symbol = refl
reset_if-reset_if true false symbol = refl
reset_if-reset_if false b symbol = refl

AreSymbols-changed :
    (h h' : Store Symbol) (f : Ptr → Symbol → Symbol)
    → ((p : Ptr) → h'.cell p ≡ changed (f p) (h.cell p))
    → (entries : List (Text × Ptr)) → AreSymbols h entries
    → AreSymbols h' entries
AreSymbols-changed h h' f same [] are = tt
AreSymbols-changed h h' f same ((_, q) ∷ entries) (is, are) =
    (IsSymbol-changed h h' f same (some q) is, AreSymbols-changed h h' f same entries are)

pub reset_loop-ok :
    (entries : List (Text × Ptr)) (s : Compiler)
    → AreSymbols s.symbols entries
    → (h : Store Symbol) × (reset_loop entries s ≡ ok (tt, record s { symbols = h }))
      × ((p : Ptr) → h.cell p ≡ changed (reset_if (is_entry p entries)) (s.symbols.cell p))
unfolding reset_loop
reset_loop-ok [] s are = (s.symbols, refl, λ p. sym (changed-id (s.symbols.cell p)))
reset_loop-ok ((name, q) ∷ entries) s ((symbol, e), are) =
    let h = write s.symbols q (reset_symbol symbol) in
    let cells = write-changed s.symbols q symbol reset_symbol e in
    let (h', run, cells') =
      reset_loop-ok entries (record s { symbols = h })
        (AreSymbols-changed s.symbols h (λ p. reset_if (q == p)) cells entries are) in
    (
      h',
      rw (◌>>=◌, ◌>>◌, e, run),
      λ p.
          cells' p
          ∙ ap (changed (reset_if (is_entry p entries))) (cells p)
          ∙ changed-changed (reset_if (q == p)) (reset_if (is_entry p entries)) (s.symbols.cell p)
          ∙ changed-ext (λ symbol. reset_if (is_entry p entries) (reset_if (q == p) symbol))
              (reset_if (q == p || is_entry p entries))
              (reset_if-reset_if (q == p) (is_entry p entries)) (s.symbols.cell p),
    )
