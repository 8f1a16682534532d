-- ===== src/Lexer/Bounds.antt =====
-- src/parsing/lexer.l: the lines and columns that YY_USER_ACTION writes for the tokens of a text.
use matcc.Prelude.{
  ℕ, suc, ◌+◌, ◌<◌, ◌^◌, Option, Returns, ◌≤◌, ◌≡◌, refl, ap, ◌∙◌, List, [], ◌∷◌, arith, Text,
  length, All, length-append, All-map,
}
use matcc.Matrix.{Float}
use matcc.Lexer.Scanner.{IsScanner}
use matcc.Lexer.Reading.{tokens-Pieces}
use matcc.Lexer.Pieces.{moved, located, Pieces, takes, taken_cons}
use matcc.Lexer.{Token, Action, Position, Location, newlines, behind, token, tokens, rules, start}
use matcc.Lexer.Lines.{newlines-length, newlines-append, behind-bounds, add_token-All}

module _ (atoi : Text → ℕ) (strtof : Text → Float) where
  -- The numbers of a token of a text that is read from a position.
  pub record InBounds (p : Position) (w : Text) (placed : Token × Location) : Type 0 where
    pub one_line' : placed.1.first_line ≡ placed.1.last_line
    pub line_low : p.line ≤ placed.1.first_line
    pub line_high : placed.1.first_line ≤ p.line + newlines w
    pub column_low : 1 ≤ placed.1.first_column
    pub ordered : placed.1.first_column ≤ placed.1.last_column
    pub column_high : placed.1.last_column + 1 ≤ p.column + length w

  InBounds-later :
      (p q : Position) (w v : Text) (ts : List (Token × Location))
      → p.line ≤ q.line
      → q.line + newlines v ≤ p.line + newlines w
      → q.column + length v ≤ p.column + length w
      → All (λ t. InBounds q v t) ts
      → All (λ t. InBounds p w t) ts
  InBounds-later p q w v [] h1 h2 h3 k = tt
  InBounds-later p q w v (t ∷ ts) h1 h2 h3 (k, ks) = (
    record {
      one_line' = k.one_line';
      line_low = let l = k.line_low in omega arith;
      line_high = let l = k.line_high in omega arith;
      column_low = k.column_low;
      ordered = k.ordered;
      column_high = let l = k.column_high in omega arith;
    },
    InBounds-later p q w v ts h1 h2 h3 ks,
  )

  located-InBounds :
      (p : Position) (w : Text) (ps : List (Action × Text))
      → 1 ≤ p.column
      → Pieces w ps
      → All (λ t. InBounds p w t) (located atoi strtof p ps)
  unfolding located
  located-InBounds p w [] h k = tt
  located-InBounds p w ((a, u) ∷ ps) h (takes _ _ v k later) =
      let (c, u', eu) = taken_cons w a u v k in
      let front : length u ≡ suc (length u') = ap length eu in
      let total : length w ≡ length u + length v = ap length k.splits ∙ length-append u v in
      let lines : newlines w ≡ newlines u + newlines v =
        ap newlines k.splits ∙ newlines-append u v in
      let reached : Position = (moved p u).1 in
      let (same, low, high) = behind-bounds a reached (omega arith) in
      add_token-All (λ t. InBounds p w t) (token atoi strtof a u) (moved p u).0
        (located atoi strtof (behind a reached) ps)
        (λ t e. record {
          one_line' = refl;
          line_low = omega arith;
          line_high = omega arith;
          column_low = h;
          ordered = omega arith;
          column_high = omega arith;
        })
        (InBounds-later p (behind a reached) w v (located atoi strtof (behind a reached) ps)
          (omega arith) (omega arith) (omega arith)
          (located-InBounds (behind a reached) v ps low later))

  -- With a scanner that takes the longest match and the first rule that has it, on fuel of more than the
  -- length of a text, which is below 2 ^ 31 - 1: the calls of `yylex` end, and every token stands on one
  -- line, a line that the text has, and at columns from the first on, in order, that are not beyond the
  -- length of the text, with comments of several lines or without.
  pub tokens-bounds :
      (scan : Text → Option (Action × Text × Text))
      → IsScanner rules scan
      → (fuel : ℕ) (w : Text) → length w < fuel
      → suc (length w) < 2 ^ 31
      → Returns (tokens atoi strtof scan fuel start w) λ ts.
        All
          (λ t.
            (t.1.first_line ≡ t.1.last_line)
            × (1 ≤ t.1.first_line)
            × (t.1.first_line ≤ 1 + newlines w)
            × (1 ≤ t.1.first_column)
            × (t.1.first_column ≤ t.1.last_column)
            × (t.1.last_column ≤ length w))
          ts
  tokens-bounds scan scans fuel w enough small =
      let lines = newlines-length w in
      let (ps, k, unique, run) =
        tokens-Pieces atoi strtof scan scans fuel start w enough (omega arith, omega arith) in
      (
        located atoi strtof start ps,
        run,
        All-map
            (λ t b. (
              b.one_line',
              b.line_low,
              b.line_high,
              b.column_low,
              b.ordered,
              (let l = b.column_high in omega arith),
            ))
            (located atoi strtof start ps) (located-InBounds start w ps (omega arith) k),
      )
