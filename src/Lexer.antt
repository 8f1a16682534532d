-- ===== src/Lexer.antt =====
-- src/parsing/lexer.l: the rules, what each returns, and the positions that YY_USER_ACTION keeps. The
-- scanner that the build generates from the rules is a parameter, as are `atoi` and `strtof`.
pub mod Patterns
pub mod Derivatives
pub mod Scanner
pub mod Reference
pub mod Pieces
pub mod Reading
pub mod Avoids
pub mod Lines
pub mod Bounds
pub mod Positions
pub mod Words
pub mod Single
pub mod Spaced
pub mod Spelling
mod Tests
use matcc.Prelude.{
  ℕ, zero, suc, ◌+◌, ◌-◌, ◌^◌, ltb, Bool, not, ◌&&◌, ◌||◌, Option, none, some, List, [], ◌∷◌, ◌++◌,
  Outcome, ok, abort, fault, out_of_fuel, ◌>>=◌, Text, codes, length, ◌==◌, if◌then◌else◌,
}
use matcc.Matrix.{Float}
use matcc.Lexer.Patterns.{
  Pattern, one_of, seq, alt, star, plus, optional, byte, word, among, between,
}

pub data Token : Type 0 where
  char : ℕ → Token
  t_int t_float t_matrix if_token else_token true_token false_token : Token
  or_token and_token not_token eq neq lt gt lte gte : Token
  while_token do_token for_token return_token : Token
  identifier stringconst : Text → Token
  integerconst : ℕ → Token
  floatconst : Float → Token

-- The actions of the rules. `gives_char` is `return yytext[0]`, `skips` returns nothing.
pub data Action : Type 0 where
  gives_char gives_name gives_integer gives_float gives_string skips new_line : Action
  gives : Token → Action

abbrev is_digit : ℕ → Bool
is_digit c = between b'0' b'9' c

abbrev is_letter : ℕ → Bool
is_letter c = between b'a' b'z' c || between b'A' b'Z' c

abbrev is_name_start : ℕ → Bool
is_name_start c = c == b'_' || is_letter c

abbrev is_name_byte : ℕ → Bool
is_name_byte c = is_name_start c || is_digit c

-- The definitions of the first section.
abbrev pub identifier_pattern : Pattern
identifier_pattern = seq (one_of is_name_start) (star (one_of is_name_byte))

abbrev pub integer_pattern : Pattern
integer_pattern = plus (one_of is_digit)

abbrev pub float_pattern : Pattern
float_pattern = seq (star (one_of is_digit)) (
    seq (byte b'.') (
      seq (plus (one_of is_digit)) (
        optional (
          seq (one_of (among (codes "eE")))
            (seq (optional (one_of (among (codes "-+")))) (plus (one_of is_digit)))))))

abbrev pub string_pattern : Pattern
string_pattern =
    seq (byte b'"') (seq (star (one_of (λ c. not (c == b'"') && not (c == b'\n')))) (byte b'"'))

abbrev star_byte : Pattern
star_byte = byte b'*'

abbrev newline_byte : Pattern
newline_byte = one_of (λ c. c == b'\r' || c == b'\n')

abbrev any_byte : Pattern
any_byte = one_of (λ c. not (c == b'\n'))

abbrev pub comment_pattern : Pattern
comment_pattern =
    alt
      (seq (word (codes "/*")) (
        seq
          (star (
            alt (one_of (λ c. not (c == b'*'))) (
              alt newline_byte (
                seq (plus star_byte)
                  (alt (one_of (λ c. not (c == b'*') && not (c == b'/'))) newline_byte)))))
          (seq (plus star_byte) (byte b'/'))))
      (seq (word (codes "//")) (star any_byte))

-- The texts that stand for a token of their own.
abbrev pub keywords : List (Text × Token)
keywords =
    (codes "int", t_int)
    ∷ (codes "float", t_float)
    ∷ (codes "matrix", t_matrix)
    ∷ (codes "if", if_token)
    ∷ (codes "else", else_token)
    ∷ (codes "true", true_token)
    ∷ (codes "false", false_token)
    ∷ (codes "||", or_token)
    ∷ (codes "&&", and_token)
    ∷ (codes "!", not_token)
    ∷ (codes "==", eq)
    ∷ (codes "!=", neq)
    ∷ (codes "<", lt)
    ∷ (codes ">", gt)
    ∷ (codes "<=", lte)
    ∷ (codes ">=", gte)
    ∷ (codes "while", while_token)
    ∷ (codes "do", do_token)
    ∷ (codes "for", for_token)
    ∷ (codes "return", return_token)
    ∷ []

abbrev pub keyword_rules : List (Text × Token) → List (Pattern × Action)
keyword_rules [] = []
keyword_rules ((text, token) ∷ rest) = (word text, gives token) ∷ keyword_rules rest

abbrev pub early_rules : List (Pattern × Action)
early_rules =
    (one_of (among (codes "{}()[],;=")), gives_char)
    ∷ (one_of (among (codes "+-*/")), gives_char)
    ∷ keyword_rules keywords

abbrev pub late_rules : List (Pattern × Action)
late_rules =
    (identifier_pattern, gives_name)
    ∷ (integer_pattern, gives_integer)
    ∷ (float_pattern, gives_float)
    ∷ (string_pattern, gives_string)
    ∷ (comment_pattern, skips)
    ∷ (byte b'\n', new_line)
    ∷ (any_byte, skips)
    ∷ []

-- The rules in their order.
unfoldable pub rules : List (Pattern × Action)
rules = early_rules ++ late_rules

-- `yylineno` and `yycolumn`, behind the text that is read.
pub record Position : Type 0 where
  pub line : ℕ
  pub column : ℕ

-- `yylloc`
pub record Location : Type 0 where
  pub first_line : ℕ
  pub last_line : ℕ
  pub first_column : ℕ
  pub last_column : ℕ

abbrev pub newlines : Text → ℕ
newlines [] = 0
newlines (c ∷ u) = (if c == b'\n' then 1 else 0) + newlines u

-- YY_USER_ACTION, with the number of the line that the scanner has reached behind the text. The numbers
-- are `int`s, whose overflow is undefined.
unfoldable pub user_action : Position → Text → Outcome (Location × Position)
user_action p u =
    let line = p.line + newlines u in
    let column = p.column + length u in
    if ltb line (2 ^ 31) && ltb column (2 ^ 31)
    then ok (
      record {
        first_line = line;
        last_line = line;
        first_column = p.column;
        last_column = column - 1;
      },
      record { line = line; column = column },
    )
    else fault

-- The action of `\n`.
abbrev pub behind : Action → Position → Position
behind new_line p = record p { column = 1 }
behind _ p = p

-- `yytext[0]`
abbrev first_byte : Text → ℕ
first_byte [] = 0
first_byte (c ∷ u) = c

module _ (atoi : Text → ℕ) (strtof : Text → Float) where
  -- What the action of a rule returns, if it returns.
  unfoldable pub token : Action → Text → Option Token
  token gives_char u = some (char (first_byte u))
  token (gives t) u = some t
  token gives_name u = some (identifier u)
  token gives_integer u = some (integerconst (atoi u))
  token gives_float u = some (floatconst (strtof u))
  token gives_string u = some (stringconst u)
  token skips u = none
  token new_line u = none

  module _ (scan : Text → Option (Action × Text × Text)) where
    -- The next token and where it stands, or nothing at the end of the input; the position and the
    -- text behind it.
    unfoldable pub yylex :
        ℕ → Position → Text → Outcome (Option (Token × Location) × Position × Text)
    unfolding token user_action
    yylex zero p w = out_of_fuel
    yylex (suc fuel) p [] = ok (none, p, [])
    yylex (suc fuel) p (c ∷ w) = elim (scan (c ∷ w)) [
      | none ↦ fault
      | some (a, u, v) ↦
          (user_action p u >>= λ r. elim (token a u) [
            | none ↦ yylex fuel (behind a r.1) v
            | some t ↦ ok (some (t, r.0), behind a r.1, v)
          ])
    ]

    -- What the parser is given, call by call.
    unfoldable pub tokens : ℕ → Position → Text → Outcome (List (Token × Location))
    unfolding yylex
    tokens zero p w = out_of_fuel
    tokens (suc fuel) p w = elim (yylex (suc fuel) p w) [
      | ok (none, q, v) ↦ ok []
      | ok (some t, q, v) ↦ (tokens fuel q v >>= λ ts. ok (t ∷ ts))
      | abort e ↦ abort e
      | fault ↦ fault
      | out_of_fuel ↦ out_of_fuel
    ]

abbrev pub start : Position
start = record { line = 1; column = 1 }
