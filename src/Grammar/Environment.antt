-- ===== src/Grammar/Environment.antt =====
-- src/parsing/parser.y: the symbol table while the actions of an expression run, which enter a
-- temporary or a constant at a time.
use matcc.Prelude.{
  ℕ, ◌+◌, ◌^◌, ◌≤◌, ◌<◌, ◌≡◌, refl, ◌∙◌, ap, false, Bool-cases, inl, inr, Option, none, some, Text,
  str_eq, str_eq_iff, arith,
}
use matcc.HashTable.Map.{IsValid, view}
use matcc.Types.{Ptr, SymbolType, Symbol}
use matcc.Compiler.{Store, Compiler, IsStore}
use matcc.Symbol.{user_name, temp_name, constant_name}
use matcc.Symbol.Names.{Origin, temporary, literal, name_of-injective}

-- The type of a symbol, and that of the variable of a name.
abbrev pub type_at : Store Symbol → Option Ptr → Option SymbolType
type_at h none = none
type_at h (some p) = elim (h.cell p) [ none ↦ none | some x ↦ some x.type ]

abbrev pub types_in : Compiler → Text → Option SymbolType
types_in s name = type_at s.symbols (view s.symbol_table (user_name name))

-- The names of the table are those of symbols, and the names of the temporaries and constants to
-- come are new.
pub record IsEnvironment (s : Compiler) : Type 0 where
  pub valid : IsValid s.symbol_table
  pub store : IsStore s.symbols
  pub present :
      (name : Text) (p : Ptr)
      → view s.symbol_table name ≡ some p
      → (x : Symbol) × (s.symbols.cell p ≡ some x)
  pub temps : (n : ℕ) → s.temps_count ≤ n → n < 2 ^ 32 → view s.symbol_table (temp_name n) ≡ none
  pub constants :
      (n : ℕ) → s.constants_count ≤ n → n < 2 ^ 32 → view s.symbol_table (constant_name n) ≡ none

-- A later state: the symbols and the types of the variables are as they were, and at most `n`
-- temporaries and `n` constants have been added.
pub record Later (n : ℕ) (s s' : Compiler) : Type 0 where
  pub environment : IsEnvironment s'
  pub symbols : (p : Ptr) (x : Symbol) → s.symbols.cell p ≡ some x → s'.symbols.cell p ≡ some x
  pub types : (name : Text) → types_in s' name ≡ types_in s name
  pub temps : s'.temps_count ≤ s.temps_count + n
  pub constants : s'.constants_count ≤ s.constants_count + n

pub Later-refl : (s : Compiler) → IsEnvironment s → Later 0 s s
Later-refl s e = record {
  environment = e;
  symbols = λ p x here. here;
  types = λ name. refl;
  temps = omega arith;
  constants = omega arith;
}

pub Later-trans :
    (m n k : ℕ) (a b c : Compiler) → Later m a b → Later n b c → m + n ≤ k → Later k a c
Later-trans m n k a b c ab bc le = record {
  environment = bc.environment;
  symbols = λ p x here. bc.symbols p x (ab.symbols p x here);
  types = λ name. bc.types name ∙ ab.types name;
  temps = omega (arith, ab.temps, bc.temps);
  constants = omega (arith, ab.constants, bc.constants);
}

-- Names of different kinds differ in their first letter.
pub str_eq-temp_user : (n : ℕ) (name : Text) → str_eq (temp_name n) (user_name name) ≡ false
unfolding temp_name user_name str_eq
str_eq-temp_user n name = refl

pub str_eq-constant_user : (n : ℕ) (name : Text) → str_eq (constant_name n) (user_name name) ≡ false
unfolding constant_name user_name str_eq
str_eq-constant_user n name = refl

pub str_eq-temp_constant : (m n : ℕ) → str_eq (temp_name m) (constant_name n) ≡ false
unfolding temp_name constant_name str_eq
str_eq-temp_constant m n = refl

pub str_eq-constant_temp : (m n : ℕ) → str_eq (constant_name m) (temp_name n) ≡ false
unfolding temp_name constant_name str_eq
str_eq-constant_temp m n = refl

abbrev pub str_eq-user_temp : (name : Text) (n : ℕ) → str_eq (user_name name) (temp_name n) ≡ false
unfolding temp_name user_name str_eq
str_eq-user_temp name n = refl

pub str_eq-user_constant : (name : Text) (n : ℕ) → str_eq (user_name name) (constant_name n) ≡ false
unfolding constant_name user_name str_eq
str_eq-user_constant name n = refl

abbrev number_of : Origin → ℕ
number_of (Origin.variable name) = 0
number_of (temporary n) = n
number_of (literal n) = n

different : (a b : Text) → ¬ (a ≡ b) → str_eq a b ≡ false
different a b ne = elim (Bool-cases (str_eq a b)) [
  | inl e ↦ absurd (ne ((str_eq_iff a b).0 e))
  | inr f ↦ f
]

pub str_eq-temps : (m n : ℕ) → m < n → n < 2 ^ 32 → str_eq (temp_name m) (temp_name n) ≡ false
str_eq-temps m n lt small = different (temp_name m) (temp_name n) λ e.
    let same : m ≡ n =
      ap number_of (name_of-injective (temporary m) (temporary n) (omega arith) small e) in
    absurd (omega arith)

pub str_eq-constants :
    (m n : ℕ) → m < n → n < 2 ^ 32 → str_eq (constant_name m) (constant_name n) ≡ false
str_eq-constants m n lt small = different (constant_name m) (constant_name n) λ e.
    let same : m ≡ n =
      ap number_of (name_of-injective (literal m) (literal n) (omega arith) small e) in
    absurd (omega arith)
