-- ===== src/Grammar/Entering.antt =====
-- src/parsing/parser.y: the symbol table when one symbol is entered.
use matcc.Prelude.{
  ℕ, ◌+◌, ◌^◌, ◌≤◌, ◌<◌, ◌≡◌, refl, sym, ◌∙◌, ap, false, Bool-cases, inl, inr, Option, none, some,
  Text, str_eq, arith, ◌==◌, if◌then◌else◌,
}
use matcc.HashTable.Map.{IsValid, view}
use matcc.Types.{Ptr, Symbol}
use matcc.Compiler.{Compiler}
use matcc.Symbol.{user_name, temp_name, constant_name}
use matcc.Grammar.Environment.{type_at, types_in, IsEnvironment, Later}

-- One symbol was made and entered under its name.
pub record Entered (s s' : Compiler) (x : Symbol) : Type 0 where
  pub valid : IsValid s'.symbol_table
  pub next : s'.symbols.next ≡ s.symbols.next + 1
  pub here : s'.symbols.cell s.symbols.next ≡ some x
  pub others : (p : Ptr) → (s.symbols.next == p) ≡ false → s'.symbols.cell p ≡ s.symbols.cell p
  pub map :
      (q : Text)
      → view s'.symbol_table q
        ≡ (if str_eq x.name q then some s.symbols.next else view s.symbol_table q)

-- The name is not that of a temporary or constant to come.
pub record IsApart (s' : Compiler) (name : Text) : Type 0 where
  pub temps : (n : ℕ) → s'.temps_count ≤ n → n < 2 ^ 32 → str_eq name (temp_name n) ≡ false
  pub constants :
      (n : ℕ) → s'.constants_count ≤ n → n < 2 ^ 32 → str_eq name (constant_name n) ≡ false

module _ (s s' : Compiler) (x : Symbol) (env : IsEnvironment s) (e : Entered s s' x)
    (apart : IsApart s' x.name) (temps : s.temps_count ≤ s'.temps_count)
    (temps' : s'.temps_count ≤ s.temps_count + 1)
    (constants : s.constants_count ≤ s'.constants_count)
    (constants' : s'.constants_count ≤ s.constants_count + 1) where
  old_symbol : (p : Ptr) (y : Symbol) → s.symbols.cell p ≡ some y → s'.symbols.cell p ≡ some y
  old_symbol p y at_p = elim (Bool-cases (s.symbols.next == p)) [
    | inl same ↦ let free : s.symbols.cell p ≡ none = env.store.free p (ground arith) in absurd (cc)
    | inr other ↦ e.others p other ∙ at_p
  ]

  old_view : (q : Text) → str_eq x.name q ≡ false → view s'.symbol_table q ≡ view s.symbol_table q
  old_view q other = rw (e.map q, other) refl

  old_type :
      (o : Option Ptr)
      → ((p : Ptr) → o ≡ some p → (y : Symbol) × (s.symbols.cell p ≡ some y))
      → type_at s'.symbols o ≡ type_at s.symbols o
  old_type none there = refl
  old_type (some p) there =
      let (y, at_p) = there p refl in rw (type_at, old_symbol p y at_p, at_p) refl

  named :
      (name : Text) (p : Ptr)
      → view s'.symbol_table name ≡ some p
      → (y : Symbol) × (s'.symbols.cell p ≡ some y)
  named name p found = elim (Bool-cases (str_eq x.name name)) [
    | inl same ↦
        let e' : some s.symbols.next ≡ some p = sym (e.map name ∙ rw same refl) ∙ found in
        let q : s.symbols.next ≡ p = cc in (x, ap s'.symbols.cell (sym q) ∙ e.here)
    | inr other ↦
        let (y, at_p) = env.present name p (sym (old_view name other) ∙ found) in
        (y, old_symbol p y at_p)
  ]

  -- The names to come are still new.
  pub Entered-IsEnvironment : IsEnvironment s'
  Entered-IsEnvironment = record {
    valid = e.valid;
    store = record {
      free = λ p le.
          let other : (s.symbols.next == p) ≡ false = ground (arith, e.next) in
          e.others p other ∙ env.store.free p (omega (arith, e.next));
    };
    present = named;
    temps = λ n le small.
        old_view (temp_name n) (apart.temps n le small) ∙ env.temps n (omega arith) small;
    constants = λ n le small.
        old_view (constant_name n) (apart.constants n le small)
        ∙ env.constants n (omega arith) small;
  }

  -- A name that the symbol does not have means a symbol of the type that it meant.
  pub types_in-Entered :
      (name : Text) → str_eq x.name (user_name name) ≡ false → types_in s' name ≡ types_in s name
  types_in-Entered name other =
      let o = view s.symbol_table (user_name name) in
      ap (type_at s'.symbols) (old_view (user_name name) other)
      ∙ old_type o (env.present (user_name name))

  -- A symbol that is no variable leaves the types of all variables.
  pub Entered-Later : ((user : Text) → str_eq x.name (user_name user) ≡ false) → Later 1 s s'
  Entered-Later users = record {
    environment = Entered-IsEnvironment;
    symbols = old_symbol;
    types = λ name. types_in-Entered name (users name);
    temps = temps';
    constants = constants';
  }
