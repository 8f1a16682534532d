-- ===== src/Lexer/Positions.antt =====
-- src/parsing/lexer.l: the place that YY_USER_ACTION writes for a token, and the place where it stands.
use matcc.Prelude.{
  ℕ, suc, ◌<◌, ◌^◌, Option, Returns, ◌+◌, ◌≡◌, subst, refl, sym, ap, ◌∙◌, some, List, [], ◌∷◌, ◌++◌,
  arith, Text, length, All,
}
use mathlib.Core.List.{append_assoc}
use matcc.Matrix.{Float}
use matcc.Lexer.Scanner.{IsPick, IsScanner}
use matcc.Lexer.Reading.{tokens-start}
use matcc.Lexer.Pieces.{moved, located, Pieces, takes, taken_cons}
use matcc.Lexer.{
  Token, Action, skips, new_line, rules, Position, Location, newlines, behind, token, tokens, start,
}
use matcc.Lexer.Lines.{
  newlines-append, column_from, column_from-append, column_from-line, taken_one_line, newline_taken,
  token-spans, add_token-All,
}

-- No comment has a newline.
abbrev pub IsOneLine : Action × Text → Type 0
IsOneLine (a, u) = a ≡ skips → newlines u ≡ 0

module _ (atoi : Text → ℕ) (strtof : Text → Float) where
  -- Where a token really stands: `x` is the text before it and `u` its own.
  pub record StandsAt (whole : Text) (placed : Token × Location) : Type 0 where
    pub x : Text
    pub u : Text
    pub y : Text
    pub a : Action
    pub splits : whole ≡ x ++ (u ++ y)
    pub taken : IsPick rules (u ++ y) a u y
    pub gives' : token atoi strtof a u ≡ some placed.0
    pub first_line : placed.1.first_line ≡ 1 + newlines x
    pub last_line : placed.1.last_line ≡ 1 + newlines x
    pub first_column : placed.1.first_column ≡ column_from 1 x
    pub last_column : placed.1.last_column + 1 ≡ column_from 1 (x ++ u)

  abbrev IsTrue : Position → Text → Type 0
  IsTrue p x = (p.line ≡ 1 + newlines x) × (p.column ≡ column_from 1 x)

  IsTrue-line :
      (x : Text) (p : Position) (u : Text)
      → newlines u ≡ 0
      → IsTrue p x
      → IsTrue (moved p u).1 (x ++ u)
  IsTrue-line x p u line (hl, hc) =
      let lines = newlines-append x u in
      let column = column_from-append 1 x u in
      let ends_at = column_from-line (column_from 1 x) u line in (omega arith, omega arith)

  behind-IsTrue :
      (x w : Text) (p : Position) (a : Action) (u v : Text)
      → IsTrue p x
      → IsPick rules w a u v
      → IsOneLine (a, u)
      → IsTrue (behind a (moved p u).1) (x ++ u)
  behind-IsTrue x w p new_line u v (hl, hc) k l =
      let found = newline_taken w u v k in
      let lines = newlines-append x u in
      (omega arith, sym (rw found (column_from-append 1 x (b'\n' ∷ []))))
  behind-IsTrue x w p skips u v h k l = IsTrue-line x p u (l refl) h
  behind-IsTrue x w p a u v h k l = IsTrue-line x p u (taken_one_line w a u v k refl) h

  located-StandsAt :
      (x w : Text) (p : Position) (ps : List (Action × Text))
      → IsTrue p x
      → Pieces w ps
      → All IsOneLine ps
      → All (λ t. StandsAt (x ++ w) t) (located atoi strtof p ps)
  unfolding located
  located-StandsAt x w p [] h k l = tt
  located-StandsAt x w p ((a, u) ∷ ps) h (takes _ _ v k later) (l, ls) =
      let whole : (x ++ u) ++ v ≡ x ++ w = append_assoc x u v ∙ ap (λ t. x ++ t) (sym k.splits) in
      let column : column_from 1 (x ++ u) ≡ column_from (column_from 1 x) u =
        column_from-append 1 x u in
      let q : Position = behind a (moved p u).1 in
      add_token-All (λ t. StandsAt (x ++ w) t) (token atoi strtof a u) (moved p u).0
        (located atoi strtof q ps)
        (λ t e.
          let line = taken_one_line w a u v k (token-spans atoi strtof a u t e) in
          let (c, u', eu) = taken_cons w a u v k in
          let front : length u ≡ suc (length u') = ap length eu in
          let ends_at = column_from-line (column_from 1 x) u line in
          record {
            x = x;
            u = u;
            y = v;
            a = a;
            splits = ap (λ t. x ++ t) k.splits;
            taken = subst (λ t. IsPick rules t a u v) k.splits k;
            gives' = e;
            first_line = let l0 = h.0 in omega arith;
            last_line = let l0 = h.0 in omega arith;
            first_column = h.1;
            last_column = let l1 = h.1 in omega arith;
          })
        (subst (λ t. All (λ r. StandsAt t r) (located atoi strtof q ps)) whole
          (located-StandsAt (x ++ u) v q ps (behind-IsTrue x w p a u v h k l) later ls))

  -- With a scanner that takes the longest match and the first rule that has it, on fuel of more than the
  -- length of a text, which is below 2 ^ 31 - 1, and none of whose comments has a newline: the calls of
  -- `yylex` end, and every token is reported where it stands: at the line that is one more than the
  -- newlines before it, from the column that is one more than the bytes between it and the start of its
  -- line, to the column of its last byte; and the token is what the action of the first rule with the
  -- longest match at its place returns for it.
  pub tokens-place :
      (scan : Text → Option (Action × Text × Text))
      → IsScanner rules scan
      → (fuel : ℕ) (w : Text) (ps : List (Action × Text)) → length w < fuel
      → suc (length w) < 2 ^ 31
      → Pieces w ps
      → All IsOneLine ps
      → Returns (tokens atoi strtof scan fuel start w) λ ts. All (λ t. StandsAt w t) ts
  tokens-place scan scans fuel w ps enough small k l = (
    located atoi strtof start ps,
    tokens-start atoi strtof scan scans fuel w ps enough small k,
    located-StandsAt [] w start ps (refl, refl) k l,
  )
