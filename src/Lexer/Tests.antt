-- ===== src/Lexer/Tests.antt =====
-- src/parsing/lexer.l: the scanner by derivatives on a text of two lines.
use matcc.Prelude.{
  Returns, ℕ, zero, suc, ◌+◌, ◌<◌, ◌≤◌, ◌≡◌, refl, some, none, Option, Option-cases, inl, inr, List,
  [], ◌∷◌, ok, Text, codes, length, All, arith,
}
use matcc.Format.{decimal}
use matcc.Format.Decimal.{value, value-decimal}
use matcc.Matrix.{Float}
use matcc.Lexer.Reference.{scan, scan-IsScanner}
use matcc.Lexer.Pieces.{Pieces, ends, takes, located}
use matcc.Lexer.Reading.{tokens-Pieces}
use matcc.Lexer.Bounds.{tokens-bounds}
use matcc.Lexer.Positions.{StandsAt, IsOneLine, tokens-place}
use matcc.Lexer.Words.{here, later, IsWord, Pieces-IsWord}
use matcc.Lexer.Spelling.{
  Word, keyword, mark, name, number, IsSpelled, spaced, meanings, without_places, tokens-spaced,
}
use matcc.Lexer.{
  while_token, lte, identifier, identifier, Action, gives_char, gives_name, gives_integer, gives,
  skips, new_line, t_int, rules, newlines, tokens, start,
}

pieces_with : Option (List (Action × Text)) → Action → Text → Option (List (Action × Text))
pieces_with none a u = none
pieces_with (some ps) a u = some ((a, u) ∷ ps)

pieces : ℕ → Text → Option (List (Action × Text))
unfolding scan pieces_with
pieces zero w = none
pieces (suc fuel) [] = some []
pieces (suc fuel) (c ∷ w) = elim (scan rules (c ∷ w)) [
  | none ↦ none
  | some (a, u, v) ↦ pieces_with (pieces fuel v) a u
]

pieces-Pieces :
    (fuel : ℕ) (w : Text) (ps : List (Action × Text)) → pieces fuel w ≡ some ps → Pieces w ps
unfolding pieces pieces_with
pieces-Pieces zero w ps e = cc
pieces-Pieces (suc fuel) [] [] e = ends refl
pieces-Pieces (suc fuel) [] (p ∷ ps) e = cc
pieces-Pieces (suc fuel) (c ∷ w) ps e = elim (Option-cases (scan rules (c ∷ w))) [
  | inl n ↦ let bad = rw (n, pieces) at e in cc
  | inr ((a, u, v), f) ↦ elim (Option-cases (pieces fuel v)) [
    | inl n ↦ let bad = rw (f, pieces, n, pieces_with) at e in cc
    | inr (qs, g) ↦
        let found = rw (f, pieces, g, pieces_with) at e in
        let same : (a, u) ∷ qs ≡ ps = cc in
        rw (← same)
          (takes a u v ((scan-IsScanner rules).picks (c ∷ w) a u v f) (pieces-Pieces fuel v qs g))
  ]
]

abbrev two_lines : Text
two_lines = codes "int a = 12; // b\n  x /* c */ = a"

-- The first piece is a keyword, the second skipped, and so on.
abbrev two_lines_pieces : List (Action × Text)
two_lines_pieces =
    (gives t_int, codes "int")
    ∷ (skips, codes " ")
    ∷ (gives_name, codes "a")
    ∷ (skips, codes " ")
    ∷ (gives_char, codes "=")
    ∷ (skips, codes " ")
    ∷ (gives_integer, codes "12")
    ∷ (gives_char, codes ";")
    ∷ (skips, codes " ")
    ∷ (skips, codes "// b")
    ∷ (new_line, codes "\n")
    ∷ (skips, codes " ")
    ∷ (skips, codes " ")
    ∷ (gives_name, codes "x")
    ∷ (skips, codes " ")
    ∷ (skips, codes "/* c */")
    ∷ (skips, codes " ")
    ∷ (gives_char, codes "=")
    ∷ (skips, codes " ")
    ∷ (gives_name, codes "a")
    ∷ []

two_lines-Pieces : Pieces two_lines two_lines_pieces
unfolding pieces rules scan
two_lines-Pieces = pieces-Pieces 40 two_lines two_lines_pieces refl

abbrev no_float : Text → Float
no_float u = 0

tokens-Pieces_example :
    (ps : List (Action × Text)) × Pieces two_lines ps
    × ((qs : List (Action × Text)) → Pieces two_lines qs → qs ≡ ps)
    × (tokens (value 0) no_float (scan rules) 40 start two_lines
        ≡ ok (located (value 0) no_float start ps))
tokens-Pieces_example =
    tokens-Pieces (value 0) no_float (scan rules) (scan-IsScanner rules) 40 start two_lines
      (omega arith) (omega arith, omega arith)

IsOneLine-comments : All IsOneLine two_lines_pieces
IsOneLine-comments = (
  λ e. cc,
  (
    λ e. refl,
    (
      λ e. cc,
      (
        λ e. refl,
        (
          λ e. cc,
          (
            λ e. refl,
            (
              λ e. cc,
              (
                λ e. cc,
                (
                  λ e. refl,
                  (
                    λ e. refl,
                    (
                      λ e. cc,
                      (
                        λ e. refl,
                        (
                          λ e. refl,
                          (
                            λ e. cc,
                            (
                              λ e. refl,
                              (λ e. refl, (λ e. refl, (λ e. cc, (λ e. refl, (λ e. cc, tt))))),
                            ),
                          ),
                        ),
                      ),
                    ),
                  ),
                ),
              ),
            ),
          ),
        ),
      ),
    ),
  ),
)

tokens-place_example :
    Returns
      (tokens (value 0) no_float (scan rules) 40 start two_lines)
      λ ts. All (λ t. StandsAt (value 0) no_float two_lines t) ts
tokens-place_example =
    tokens-place (value 0) no_float (scan rules) (scan-IsScanner rules) 40 two_lines
      two_lines_pieces (omega arith) (omega arith) two_lines-Pieces IsOneLine-comments

tokens-bounds_example : Returns (tokens (value 0) no_float (scan rules) 40 start two_lines) λ ts.
    All
      (λ t.
        (t.1.first_line ≡ t.1.last_line)
        × (1 ≤ t.1.first_line)
        × (t.1.first_line ≤ 1 + newlines two_lines)
        × (1 ≤ t.1.first_column)
        × (t.1.first_column ≤ t.1.last_column)
        × (t.1.last_column ≤ length two_lines))
      ts
tokens-bounds_example =
    tokens-bounds (value 0) no_float (scan rules) (scan-IsScanner rules) 40 two_lines (omega arith)
      (omega arith)

Pieces-IsWord_example : All IsWord two_lines_pieces
Pieces-IsWord_example = Pieces-IsWord two_lines two_lines_pieces two_lines-Pieces

-- while ( count <= 407 ) {
abbrev words : List Word
words =
    keyword (codes "while") while_token
    ∷ mark b'('
    ∷ name (codes "count")
    ∷ keyword (codes "<=") lte
    ∷ number 407
    ∷ mark b')'
    ∷ mark b'{'
    ∷ []

count-IsWord : IsWord (gives_name, codes "count")
unfolding pieces rules scan
count-IsWord =
    (Pieces-IsWord (codes "count") ((gives_name, codes "count") ∷ [])
      (pieces-Pieces 9 (codes "count") ((gives_name, codes "count") ∷ []) refl)).0

words-IsSpelled : All IsSpelled words
words-IsSpelled = (
  later (
      later (
        later (
          later (
            later (
              later (
                later (
                  later (later (later (later (later (later (later (later (later here))))))))))))))),
  (
    refl,
    (
      count-IsWord,
      (
        later (
            later (
              later (
                later (
                  later (
                    later (later (later (later (later (later (later (later (later here))))))))))))),
        (omega arith, (refl, (refl, tt))),
      ),
    ),
  ),
)

short : length (spaced words) < 40
unfolding decimal
short = omega arith

tokens-spaced_example :
    Returns
      (tokens (value 0) no_float (scan rules) 40 start (spaced words))
      λ ts. without_places ts ≡ meanings words
tokens-spaced_example =
    tokens-spaced (value 0) no_float (λ n h. value-decimal n) (scan rules) (scan-IsScanner rules) 40
      words words-IsSpelled short (omega (arith, short))

-- A comment of two lines: the name behind it stands in column 4 of line 2, and is reported in
-- column 9.
two_line_comment :
    tokens (value 0) no_float (scan rules) 40 start (codes "/*  \n*/ x")
    ≡ ok (
        (
          identifier (codes "x"),
          record { first_line = 2; last_line = 2; first_column = 9; last_column = 9 },
        )
        ∷ [])
unfolding tokens scan rules
two_line_comment = refl
