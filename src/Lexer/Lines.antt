-- ===== src/Lexer/Lines.antt =====
-- src/parsing/lexer.l: which texts have newlines, and the lines and columns behind a text.
use matcc.Prelude.{
  ℕ, ◌+◌, ◌^◌, ◌<◌, ltb, ok, ap, ◌∙◌, length-append, ◌≤◌, ◌≡◌, subst, refl, Bool, true, false, not,
  ◌||◌, ◌==◌, if◌then◌else◌, Option, none, some, List, [], ◌∷◌, ◌++◌, arith, Text, length, All,
  All-map, All-append,
}
use matcc.Matrix.{Float}
use matcc.Lexer.Avoids.{avoids, Lacks, Lacks-avoids}
use matcc.Lexer.Patterns.{Pattern, byte, Matches, m_one}
use matcc.Lexer.Scanner.{IsPick}
use matcc.Lexer.Pieces.{moved, taken_shorter, add_token, All-all, All-middle}
use matcc.Lexer.{
  Token, Action, skips, new_line, early_rules, late_rules, rules, Position, Location, user_action,
  newlines, behind, token,
}

pub newlines-append : (u v : Text) → newlines (u ++ v) ≡ newlines u + newlines v
newlines-append [] v = omega arith
newlines-append (c ∷ u) v = omega (arith, newlines-append u v)

-- The column behind a text that starts at a column.
abbrev pub column_from : ℕ → Text → ℕ
column_from k [] = k
column_from k (c ∷ u) = column_from (if c == b'\n' then 1 else k + 1) u

pub column_from-append :
    (k : ℕ) (u v : Text) → column_from k (u ++ v) ≡ column_from (column_from k u) v
column_from-append k [] v = refl
column_from-append k (c ∷ u) v = column_from-append (if c == b'\n' then 1 else k + 1) u v

pub column_from-line : (k : ℕ) (u : Text) → newlines u ≡ 0 → column_from k u ≡ k + length u
column_from-line k [] h = omega arith
column_from-line k (c ∷ u) h = ground (arith, column_from-line (k + 1) u)

Lacks-newlines : (u : Text) → Lacks b'\n' u → newlines u ≡ 0
Lacks-newlines [] h = refl
Lacks-newlines (c ∷ u) (h, hs) = rw (h, Lacks-newlines u hs) refl

-- Only `skips` and the newline have rules whose texts span lines.
abbrev pub spans : Action → Bool
spans skips = true
spans new_line = true
spans _ = false

rules-one_line : All (λ r. (spans r.1 || avoids b'\n' r.0) ≡ true) rules
unfolding rules avoids
rules-one_line = All-all (λ r. spans r.1 || avoids b'\n' r.0) rules refl

pub taken_one_line :
    (w : Text) (a : Action) (u v : Text) → IsPick rules w a u v → spans a ≡ false → newlines u ≡ 0
taken_one_line w a u v k h =
    let rule =
      All-middle (λ r. (spans r.1 || avoids b'\n' r.0) ≡ true) k.before k.after (k.pattern', a)
        (subst (λ rs. All (λ r. (spans r.1 || avoids b'\n' r.0) ≡ true) rs) k.rule
          rules-one_line) in
    Lacks-newlines u (Lacks-avoids b'\n' k.pattern' u k.matches (rw h at rule))

-- The rule of the newline takes a newline.
abbrev TakesNewline : Pattern × Action → Type 0
TakesNewline r = r.1 ≡ new_line → (u : Text) → Matches r.0 u → u ≡ b'\n' ∷ []

abbrev is_new_line : Action → Bool
is_new_line new_line = true
is_new_line _ = false

newline_byte : (u : Text) → Matches (byte b'\n') u → u ≡ b'\n' ∷ []
newline_byte u (m_one {c = c} t e) = let found : c ≡ b'\n' = ground arith in rw (e, found) refl

takes_none : (r : Pattern × Action) → not (is_new_line r.1) ≡ true → TakesNewline r
takes_none (p, new_line) h e u m = cc
takes_none (p, a) h e u m = cc

rules-TakesNewline : All TakesNewline rules
unfolding rules
rules-TakesNewline =
    All-append TakesNewline early_rules late_rules
      (All-map takes_none early_rules (All-all (λ r. not (is_new_line r.1)) early_rules refl))
      (λ e. cc, (λ e. cc, (λ e. cc, (λ e. cc, (λ e. cc, (λ e. newline_byte, (λ e. cc, tt)))))))

pub newline_taken : (w u v : Text) → IsPick rules w new_line u v → u ≡ b'\n' ∷ []
newline_taken w u v k =
    All-middle TakesNewline k.before k.after (k.pattern', new_line)
      (subst (λ rs. All TakesNewline rs) k.rule rules-TakesNewline) refl u k.matches

pub newlines-length : (u : Text) → newlines u ≤ length u
newlines-length [] = omega arith
newlines-length (c ∷ u) = ground (arith, newlines-length u)

-- The line and the column behind a text are below the bound of `int`, also if it has no newline that
-- sets the column back.
abbrev pub Fits : Position → Text → Type 0
Fits p w = (p.line + newlines w < 2 ^ 31) × (p.column + length w < 2 ^ 31)

user_action-moved : (p : Position) (u : Text) → Fits p u → user_action p u ≡ ok (moved p u)
unfolding user_action
user_action-moved p u (l, c) =
    let line : ltb (p.line + newlines u) (2 ^ 31) ≡ true = ground arith in
    let column : ltb (p.column + length u) (2 ^ 31) ≡ true = ground arith in rw (line, column) refl

behind-Fits : (a : Action) (q : Position) (v : Text) → 1 ≤ q.column → Fits q v → Fits (behind a q) v
behind-Fits new_line q v low (l, c) = (l, omega arith)
behind-Fits a q v low f = f

-- A piece of a text that fits is counted, and the rest fits behind it.
pub user_action-Fits :
    (p : Position) (w : Text) (a : Action) (u v : Text)
    → IsPick rules w a u v
    → Fits p w
    → (user_action p u ≡ ok (moved p u)) × Fits (behind a (moved p u).1) v
user_action-Fits p w a u v k (l, c) =
    let total : length w ≡ length u + length v = ap length k.splits ∙ length-append u v in
    let lines : newlines w ≡ newlines u + newlines v = ap newlines k.splits ∙ newlines-append u v in
    let less = taken_shorter w a u v k in
    (
      user_action-moved p u (omega arith, omega arith),
      behind-Fits a (moved p u).1 v (omega arith) (omega arith, omega arith),
    )

pub behind-bounds :
    (a : Action) (p : Position)
    → 1 ≤ p.column
    → ((behind a p).line ≡ p.line) × (1 ≤ (behind a p).column) × ((behind a p).column ≤ p.column)
behind-bounds new_line p h = (refl, omega arith, h)
behind-bounds a p h = (refl, h, omega arith)

pub add_token-All :
    (P : Token × Location → Type 0) (o : Option Token) (l : Location) (ts : List (Token × Location))
    → ((t : Token) → o ≡ some t → P (t, l))
    → All P ts
    → All P (add_token o l ts)
add_token-All P none l ts f h = h
add_token-All P (some t) l ts f h = (f t refl, h)

module _ (atoi : Text → ℕ) (strtof : Text → Float) where
  pub token-spans :
      (a : Action) (u : Text) (t : Token) → token atoi strtof a u ≡ some t → spans a ≡ false
  unfolding token
  token-spans skips u t e = cc
  token-spans new_line u t e = cc
  token-spans a u t e = refl
