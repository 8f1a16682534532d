-- ===== src/Symbol/Names.antt =====
-- src/symbol.c: the names of variables, temporaries and constants in their buffers of 32 bytes.
use matcc.Prelude.{ℕ, ◌^◌, ◌<◌, ◌≡◌, sym, ◌∙◌, ap, [], ◌∷◌, Text, length, arith}
use matcc.Format.{format_int}
use matcc.Format.Decimal.{snprintf-fits, format_int-injective, length-format_int}
use matcc.Symbol.{user_name, temp_name, constant_name}

-- What a symbol is made for, with what its name is made of.
pub data Origin : Type 0 where
  variable : Text → Origin
  temporary : ℕ → Origin
  literal : ℕ → Origin

abbrev pub name_of : Origin → Text
name_of (variable name) = user_name name
name_of (temporary count) = temp_name count
name_of (literal count) = constant_name count

-- The names and numbers that the buffer has room for: a variable's name of at most 30 bytes, and
-- any number of 32 bits.
abbrev pub FitsBuffer : Origin → Type 0
FitsBuffer (variable name) = length name < 31
FitsBuffer (temporary count) = count < 2 ^ 32
FitsBuffer (literal count) = count < 2 ^ 32

rest : Text → Text
rest [] = []
rest (c ∷ s) = s

first : Text → ℕ
first [] = 0
first (c ∷ s) = c

user_name-fits : (name : Text) → length name < 31 → user_name name ≡ b'_' ∷ name
unfolding user_name
user_name-fits name h = snprintf-fits 32 (b'_' ∷ name) (omega arith)

temp_name-fits : (n : ℕ) → n < 2 ^ 32 → temp_name n ≡ b't' ∷ b'm' ∷ b'p' ∷ format_int n
unfolding temp_name
temp_name-fits n h =
    snprintf-fits 32 (b't' ∷ b'm' ∷ b'p' ∷ format_int n) (omega (arith, length-format_int n h))

constant_name-fits : (n : ℕ) → n < 2 ^ 32 → constant_name n ≡ b'c' ∷ b's' ∷ b't' ∷ format_int n
unfolding constant_name
constant_name-fits n h =
    snprintf-fits 32 (b'c' ∷ b's' ∷ b't' ∷ format_int n) (omega (arith, length-format_int n h))

-- Two symbols that fit the buffer have one name only if they are made for the same thing: a user's
-- variable is never taken for a temporary or a constant, and no two of a kind collide.
pub name_of-injective : (x y : Origin) → FitsBuffer x → FitsBuffer y → name_of x ≡ name_of y → x ≡ y
unfolding rest first
name_of-injective (variable a) (variable b) ha hb e =
    ap variable (ap rest (sym (user_name-fits a ha) ∙ e ∙ user_name-fits b hb))
name_of-injective (variable a) (temporary n) ha hb e =
    absurd (omega (arith, ap first (sym (user_name-fits a ha) ∙ e ∙ temp_name-fits n hb)))
name_of-injective (variable a) (literal n) ha hb e =
    absurd (omega (arith, ap first (sym (user_name-fits a ha) ∙ e ∙ constant_name-fits n hb)))
name_of-injective (temporary m) (variable b) ha hb e =
    absurd (omega (arith, ap first (sym (temp_name-fits m ha) ∙ e ∙ user_name-fits b hb)))
name_of-injective (temporary m) (temporary n) ha hb e = ap temporary (
    format_int-injective m n ha hb
      (ap (λ t. rest (rest (rest t))) (sym (temp_name-fits m ha) ∙ e ∙ temp_name-fits n hb)))
name_of-injective (temporary m) (literal n) ha hb e =
    absurd (omega (arith, ap first (sym (temp_name-fits m ha) ∙ e ∙ constant_name-fits n hb)))
name_of-injective (literal m) (variable b) ha hb e =
    absurd (omega (arith, ap first (sym (constant_name-fits m ha) ∙ e ∙ user_name-fits b hb)))
name_of-injective (literal m) (temporary n) ha hb e =
    absurd (omega (arith, ap first (sym (constant_name-fits m ha) ∙ e ∙ temp_name-fits n hb)))
name_of-injective (literal m) (literal n) ha hb e = ap literal (
    format_int-injective m n ha hb (
      ap (λ t. rest (rest (rest t))) (sym (constant_name-fits m ha) ∙ e ∙ constant_name-fits n hb)))
