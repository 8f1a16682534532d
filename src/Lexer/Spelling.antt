-- ===== src/Lexer/Spelling.antt =====
-- src/parsing/lexer.l: words of every kind, written one behind the other.
use matcc.Prelude.{
  ℕ, suc, ◌<◌, ◌≡◌, ◌≢◌, subst, refl, sym, ap, ◌∙◌, Bool, true, false, Bool-cases, inl, inr, ◌==◌,
  List, [], ◌∷◌, ◌++◌, arith, Text, codes, length, All, Returns, Option, some, ◌^◌,
}
use matcc.Format.{decimal}
use matcc.Matrix.{Float}
use matcc.Lexer.Patterns.{one_of, star, Matches, among}
use matcc.Lexer.Scanner.{IsPick, IsScanner}
use matcc.Lexer.Reference.{scan, scan-IsScanner}
use matcc.Lexer.Lines.{newlines-length}
use matcc.Lexer.Pieces.{moved, Pieces, ends, takes, located}
use matcc.Lexer.Reading.{tokens-Pieces}
use matcc.Lexer.Words.{Mem, here, later}
use matcc.Lexer.Single.{Starts, Starts-class, IsPick-name, IsPick-number, decimal-Matches}
use matcc.Lexer.Spaced.{is_plain, IsPick-spaced, IsPick-space}
use matcc.Lexer.{
  Token, char, identifier, integerconst, Action, gives_char, gives_name, gives_integer, gives,
  skips, is_name_start, is_name_byte, is_digit, identifier_pattern, keywords, rules, Position,
  Location, behind, token, tokens, start,
}

abbrev marks : Text
marks = codes "{}()[],;=+-*/"

-- A keyword or an operator with its token, a single byte, a name and an integer.
pub data Word : Type 0 where
  keyword : Text → Token → Word
  mark : ℕ → Word
  name : Text → Word
  number : ℕ → Word

abbrev pub spelling : Word → Text
spelling (keyword text t) = text
spelling (mark c) = c ∷ []
spelling (name text) = text
spelling (number n) = decimal n

abbrev pub meaning : Word → Token
meaning (keyword text t) = t
meaning (mark c) = char c
meaning (name text) = identifier text
meaning (number n) = integerconst n

abbrev pub IsSpelled : Word → Type 0
IsSpelled (keyword text t) = Mem (text, t) keywords
IsSpelled (mark c) = among marks c ≡ true
IsSpelled (name text) = Matches identifier_pattern text × All (λ k. text ≢ k.0) keywords
IsSpelled (number n) = n < 2 ^ 31

abbrev pub spaced : List Word → Text
spaced [] = []
spaced (w ∷ words) = spelling w ++ b' ' ∷ spaced words

abbrev pub meanings : List Word → List Token
meanings [] = []
meanings (w ∷ words) = meaning w ∷ meanings words

abbrev pub without_places : List (Token × Location) → List Token
without_places [] = []
without_places ((t, place) ∷ ts) = t ∷ without_places ts

abbrev action_of : Word → Action
action_of (keyword text t) = gives t
action_of (mark c) = gives_char
action_of (name text) = gives_name
action_of (number n) = gives_integer

abbrev pieces : List Word → List (Action × Text)
pieces [] = []
pieces (w ∷ words) = (action_of w, spelling w) ∷ (skips, b' ' ∷ []) ∷ pieces words

keywords-read :
    All (λ k. (scan rules k.0 ≡ some (gives k.1, k.0, [])) × (is_plain k.0 ≡ true)) keywords
unfolding scan rules
keywords-read = (
  (refl, refl),
  (
    (refl, refl),
    (
      (refl, refl),
      (
        (refl, refl),
        (
          (refl, refl),
          (
            (refl, refl),
            (
              (refl, refl),
              (
                (refl, refl),
                (
                  (refl, refl),
                  (
                    (refl, refl),
                    (
                      (refl, refl),
                      (
                        (refl, refl),
                        (
                          (refl, refl),
                          (
                            (refl, refl),
                            (
                              (refl, refl),
                              (
                                (refl, refl),
                                ((refl, refl), ((refl, refl), ((refl, refl), ((refl, refl), tt)))),
                              ),
                            ),
                          ),
                        ),
                      ),
                    ),
                  ),
                ),
              ),
            ),
          ),
        ),
      ),
    ),
  ),
)

marks-read :
    All
      (λ c. (scan rules (c ∷ []) ≡ some (gives_char, c ∷ [], [])) × (is_plain (c ∷ []) ≡ true))
      marks
unfolding scan rules
marks-read = (
  (refl, refl),
  (
    (refl, refl),
    (
      (refl, refl),
      (
        (refl, refl),
        (
          (refl, refl),
          (
            (refl, refl),
            (
              (refl, refl),
              (
                (refl, refl),
                ((refl, refl), ((refl, refl), ((refl, refl), ((refl, refl), ((refl, refl), tt))))),
              ),
            ),
          ),
        ),
      ),
    ),
  ),
)

Mem-All : {A : Type 0} (P : A → Type 0) (x : A) (xs : List A) → Mem x xs → All P xs → P x
Mem-All P x [] m h = elim m [ ]
Mem-All P x (y ∷ xs) here (h, _) = h
Mem-All P x (y ∷ xs) (later m) (_, h) = Mem-All P x xs m h

among-All : (P : ℕ → Type 0) (c : ℕ) (cs : Text) → among cs c ≡ true → All P cs → P c
among-All P c [] m h = cc
among-All P c (d ∷ cs) m (h, hs) = elim (Bool-cases (c == d)) [
  | inl e ↦ let same : d ≡ c = ground arith in subst P same h
  | inr f ↦ among-All P c cs (rw f at m) hs
]

plain_of_start :
    (c : ℕ) (u : Text) → c == b'"' ≡ false → c == b'/' ≡ false → is_plain (c ∷ u) ≡ true
plain_of_start c [] h k = rw h refl
plain_of_start c (d ∷ u) h k = rw (h, k) refl

plain_of_class :
    (test : ℕ → Bool) (w : Text)
    → ((c : ℕ) → test c ≡ true → (c == b'"' ≡ false) × (c == b'/' ≡ false))
    → Starts test w
    → is_plain w ≡ true
plain_of_class test w f (c, u, e, t) = let (h, k) = f c t in rw e (plain_of_start c u h k)

IsPick-word :
    (w : Word)
    → IsSpelled w
    → IsPick rules (spelling w) (action_of w) (spelling w) [] × (is_plain (spelling w) ≡ true)
IsPick-word (keyword text t) m =
    let (e, p) =
      Mem-All (λ k. (scan rules k.0 ≡ some (gives k.1, k.0, [])) × (is_plain k.0 ≡ true)) (text, t)
        keywords m keywords-read in
    ((scan-IsScanner rules).picks text (gives t) text [] e, p)
IsPick-word (mark c) m =
    let (e, p) =
      among-All
        (λ c. (scan rules (c ∷ []) ≡ some (gives_char, c ∷ [], [])) × (is_plain (c ∷ []) ≡ true)) c
        marks m marks-read in
    ((scan-IsScanner rules).picks (c ∷ []) gives_char (c ∷ []) [] e, p)
IsPick-word (name text) (h, other) = (
  IsPick-name text h other,
  plain_of_class is_name_start text (λ c t. (ground arith, ground arith))
      (Starts-class is_name_start (star (one_of is_name_byte)) text h),
)
IsPick-word (number n) h =
    let m = decimal-Matches n in
    (
      IsPick-number (decimal n) m,
      plain_of_class is_digit (decimal n) (λ c t. (ground arith, ground arith))
          (Starts-class is_digit (star (one_of is_digit)) (decimal n) m),
    )

spaced-Pieces : (words : List Word) → All IsSpelled words → Pieces (spaced words) (pieces words)
spaced-Pieces [] h = ends refl
spaced-Pieces (w ∷ words) (h, hs) =
    let (k, p) = IsPick-word w h in
    takes (action_of w) (spelling w) (b' ' ∷ spaced words)
      (IsPick-spaced (action_of w) (spelling w) (spaced words) p k)
      (takes skips (b' ' ∷ []) (spaced words) (IsPick-space (spaced words))
        (spaced-Pieces words hs))

module _ (atoi : Text → ℕ) (strtof : Text → Float)
    (reads : (n : ℕ) → n < 2 ^ 31 → atoi (decimal n) ≡ n) where
  token-meaning :
      (w : Word) → IsSpelled w → token atoi strtof (action_of w) (spelling w) ≡ some (meaning w)
  unfolding token
  token-meaning (keyword text t) h = refl
  token-meaning (mark c) h = refl
  token-meaning (name text) h = refl
  token-meaning (number n) h = rw (reads n h) refl

  located-meanings :
      (words : List Word) (p : Position)
      → All IsSpelled words
      → without_places (located atoi strtof p (pieces words)) ≡ meanings words
  unfolding located token
  located-meanings [] p h = refl
  located-meanings (w ∷ words) p (h, hs) =
      let q : Position = behind (action_of w) (moved p (spelling w)).1 in
      rw (token-meaning w h)
        (ap (◌∷◌ (meaning w)) (located-meanings words (moved q (b' ' ∷ [])).1 hs))

  -- With a scanner that takes the longest match and the first rule that has it, and an `atoi` that
  -- reads back what `%d` prints of numbers below 2 ^ 31: a text that is written of keywords, operators,
  -- single bytes, names that are no keywords, and such numbers, in any order, with a space behind
  -- each, and has a length below 2 ^ 31 - 1, is read back, on fuel of more than its length, as these
  -- words in their order.
  pub tokens-spaced :
      (read : Text → Option (Action × Text × Text))
      → IsScanner rules read
      → (fuel : ℕ) (words : List Word) → All IsSpelled words
      → length (spaced words) < fuel
      → suc (length (spaced words)) < 2 ^ 31
      → Returns
          (tokens atoi strtof read fuel start (spaced words))
          λ ts. without_places ts ≡ meanings words
  tokens-spaced read scans fuel words h enough small =
      let lines = newlines-length (spaced words) in
      let (ps, k, unique, run) =
        tokens-Pieces atoi strtof read scans fuel start (spaced words) enough
          (omega arith, omega arith) in
      let same : pieces words ≡ ps = unique (pieces words) (spaced-Pieces words h) in
      (
        located atoi strtof start ps,
        run,
        ap (λ qs. without_places (located atoi strtof start qs)) (sym same)
            ∙ located-meanings words start h,
      )
