-- ===== src/Driver/Entries.antt =====
-- The entries of the symbol table, between the parser and the code generation of src/main.c.
use matcc.Prelude.{
  ℕ, ◌≡◌, refl, sym, ◌∙◌, ap, subst, true, Bool-cases, inl, inr, Option, none, some, List, [], ◌∷◌,
  Text, All, arith, ◌==◌, if◌then◌else◌,
}
use matcc.Types.{Ptr, Point, SymbolType, int, float, string, matrix, Symbol, Quad}
use matcc.Compiler.{Store}
use matcc.SymbolTable.Printing.{Reading, labelled, variable_data}
use matcc.SymbolTable.Printing.DataSection.{
  IsOfType, ArePrintable, value_text, definition, definitions,
}
use matcc.Registers.{live}
use matcc.Registers.Kept.{Keeps}
use matcc.Release.Tables.{IsReleasable, AreReleasable}
use matcc.Registers.Whole.{ArePresent}
use matcc.Translation.Intervals.{SameButPoints}
use matcc.Translation.Lifetime.{HaveSymbols, AreSymbols, IsSymbol, is_entry}
use matcc.Translation.Generate.Labels.{InTable, IsComplete}

equal_of : (p q : Ptr) → (q == p) ≡ true → q ≡ p
equal_of p q e = ground arith

pub ArePrintable-AreSymbols :
    (h : Store Symbol) (entries : List (Text × Ptr)) (symbols : List Symbol)
    → ArePrintable h entries symbols
    → AreSymbols h entries
ArePrintable-AreSymbols h [] symbols a = tt
ArePrintable-AreSymbols h (entry ∷ entries) [] a = elim a [ ]
ArePrintable-AreSymbols h ((name, p) ∷ entries) (s ∷ symbols) (at_p, (typed, a)) =
    ((s, at_p), ArePrintable-AreSymbols h entries symbols a)

pub ArePrintable-ArePresent :
    (h : Store Symbol) (entries : List (Text × Ptr)) (symbols : List Symbol)
    → ArePrintable h entries symbols
    → ArePresent h (live entries)
ArePrintable-ArePresent h [] symbols a q lives = absurd (omega arith)
ArePrintable-ArePresent h (entry ∷ entries) [] a q lives = elim a [ ]
ArePrintable-ArePresent h ((name, p) ∷ entries) (s ∷ symbols) (at_p, (typed, a)) q lives =
    elim (Bool-cases (p == q)) [
      | inl e ↦ (s, ap h.cell (sym (equal_of q p e)) ∙ at_p)
      | inr other ↦ ArePrintable-ArePresent h entries symbols a q (ground arith)
    ]

-- The operands of complete quads are symbols.
InTable-IsSymbol :
    (h : Store Symbol) (symbols : List Ptr) (o : Option Ptr)
    → ArePresent h symbols
    → InTable symbols o
    → IsSymbol h o
InTable-IsSymbol h symbols none present i = tt
InTable-IsSymbol h symbols (some p) present i = present p i

pub IsComplete-HaveSymbols :
    (h : Store Symbol) (symbols : List Ptr) (quads : List Quad)
    → ArePresent h symbols
    → All (IsComplete symbols) quads
    → HaveSymbols h quads
IsComplete-HaveSymbols h symbols [] present c = tt
IsComplete-HaveSymbols h symbols (quad ∷ quads) present (c, cs) = (
  InTable-IsSymbol h symbols quad.res present c.res,
  InTable-IsSymbol h symbols quad.op1 present c.op1,
  InTable-IsSymbol h symbols quad.op2 present c.op2,
  IsComplete-HaveSymbols h symbols quads present cs,
)

-- The definition of a symbol does not depend on its points.
variable_data-SameButPoints :
    (type : SymbolType) (s : Symbol) (a b : Point) (n : ℕ)
    → variable_data type (record s { start_point = a; end_point = b; life_time = n })
      ≡ variable_data type s
unfolding variable_data
variable_data-SameButPoints int s a b n = refl
variable_data-SameButPoints float s a b n = refl
variable_data-SameButPoints string s a b n = refl
variable_data-SameButPoints matrix s a b n = refl

module _ (reading : Reading) where
  definition-SameButPoints :
      (s s' : Symbol) → SameButPoints s s' → definition reading s' ≡ definition reading s
  definition-SameButPoints s s' e =
      ap (definition reading) e.same
      ∙ ap (λ d. if s.constant then labelled s.name (value_text reading s.initial_value) else d)
          (variable_data-SameButPoints s.type s s'.start_point s'.end_point s'.life_time)

  module _ (h h' : Store Symbol) (f : Ptr → Symbol → Symbol)
      (same : (p : Ptr) (s : Symbol) → SameButPoints s (f p s)) (all : List (Text × Ptr))
      (cells : (p : Ptr) (s : Symbol)
        → is_entry p all ≡ true
        → h.cell p ≡ some s
        → h'.cell p ≡ some (f p s)) where
    -- New points leave the entries printable, with the same definitions.
    pub ArePrintable-SameButPoints :
        (entries : List (Text × Ptr)) (symbols : List Symbol)
        → ((p : Ptr) → is_entry p entries ≡ true → is_entry p all ≡ true)
        → ArePrintable h entries symbols
        → (symbols' : List Symbol) × ArePrintable h' entries symbols'
          × (definitions reading symbols' ≡ definitions reading symbols)
    ArePrintable-SameButPoints [] [] inside a = ([], tt, refl)
    ArePrintable-SameButPoints [] (s ∷ symbols) inside a = elim a [ ]
    ArePrintable-SameButPoints (entry ∷ entries) [] inside a = elim a [ ]
    ArePrintable-SameButPoints ((name, p) ∷ entries) (s ∷ symbols) inside (at_p, (typed, a)) =
        let (symbols', a', e) =
          ArePrintable-SameButPoints entries symbols (λ q i. inside q (ground arith)) a in
        let e' = same p s in
        let IsTyped : Symbol → Type 0 = λ x. x.constant ≡ true → IsOfType x.type x.initial_value in
        (
          f p s ∷ symbols',
          (cells p s (inside p (ground arith)) at_p, (subst IsTyped (sym e'.same) typed, a')),
          rw (definition-SameButPoints s (f p s) e', e) refl,
        )

    -- Nor do new points change what can be released.
    pub AreReleasable-SameButPoints :
        (entries : List (Text × Ptr))
        → ((p : Ptr) → is_entry p entries ≡ true → is_entry p all ≡ true)
        → AreReleasable h entries
        → AreReleasable h' entries
    AreReleasable-SameButPoints [] inside a = tt
    AreReleasable-SameButPoints ((name, p) ∷ entries) inside ((s, at_p, r), a) = (
      (f p s, cells p s (inside p (ground arith)) at_p, subst IsReleasable (sym (same p s).same) r),
      AreReleasable-SameButPoints entries (λ q i. inside q (ground arith)) a,
    )

-- Nor does the allocation of registers.
pub AreReleasable-Keeps :
    (h h' : Store Symbol) (entries : List (Text × Ptr))
    → Keeps h h'
    → AreReleasable h entries
    → AreReleasable h' entries
AreReleasable-Keeps h h' [] keeps a = tt
AreReleasable-Keeps h h' ((name, p) ∷ entries) keeps ((s, at_p, r), a) =
    let (s', at_p', same) = keeps p s at_p in
    ((s', at_p', subst IsReleasable (sym same) r), AreReleasable-Keeps h h' entries keeps a)
