-- ===== src/Lexer/Pieces.antt =====
-- src/parsing/lexer.l: the division of a text by the rules, and the tokens of the pieces.
use matcc.Prelude.{
  ℕ, zero, suc, ◌+◌, ◌-◌, ◌≤◌, ◌<◌, ◌≡◌, subst, refl, sym, ap, ◌∙◌, inl, inr, Bool, true, not, ◌&&◌,
  ◌==◌, Bool-cases, Option, none, some, List, [], ◌∷◌, ◌++◌, arith, Text, length, All, get_elem?,
  length-append,
}
use matcc.Matrix.{Float}
use matcc.Lexer.Patterns.{Pattern, one_of, byte, Matches, m_one}
use matcc.Lexer.Derivatives.{nullable, Matches-nullable}
use matcc.Lexer.Scanner.{NoneLonger, NoMatch, IsPick}
use matcc.Lexer.{Token, Action, skips, new_line, rules, Position, Location, newlines, behind, token}

abbrev pub add_token : Option Token → Location → List (Token × Location) → List (Token × Location)
add_token none location ts = ts
add_token (some t) location ts = (t, location) ∷ ts

-- The place of a text that is read from a position, and the position behind it.
abbrev pub moved : Position → Text → Location × Position
moved p u =
    let line = p.line + newlines u in
    (
      record {
        first_line = line;
        last_line = line;
        first_column = p.column;
        last_column = p.column + length u - 1;
      },
      record { line = line; column = p.column + length u },
    )

-- The tokens of pieces that are read one behind the other.
unfoldable pub located :
    (Text → ℕ) → (Text → Float) → Position → List (Action × Text) → List (Token × Location)
unfolding token
located atoi strtof p [] = []
located atoi strtof p ((a, u) ∷ ps) =
    let (location, reached) = moved p u in
    add_token (token atoi strtof a u) location (located atoi strtof (behind a reached) ps)

-- Every piece is what the first rule with the longest match takes at its place.
pub data Pieces : Text → List (Action × Text) → Type 0 where
  ends : {w : Text} → w ≡ [] → Pieces w []
  takes :
      {w : Text} (a : Action) (u v : Text) {ps : List (Action × Text)}
      → IsPick rules w a u v
      → Pieces v ps
      → Pieces w ((a, u) ∷ ps)

module _ {ℓ} {A : Type ℓ} where
  abbrev pub all : (A → Bool) → List A → Bool
  all test [] = true
  all test (x ∷ xs) = test x && all test xs

  pub All-all : (test : A → Bool) (xs : List A) → all test xs ≡ true → All (λ x. test x ≡ true) xs
  All-all test [] h = tt
  All-all test (x ∷ xs) h = (ground arith, All-all test xs (ground arith))

  pub All-at {κ} :
      (P : A → Type κ) (xs : List A) (i : ℕ) (x : A) → All P xs → get_elem? xs i ≡ some x → P x
  All-at P [] i x h e = cc
  All-at P (y ∷ xs) zero x (h, _) e = let found : y ≡ x = cc in subst P found h
  All-at P (y ∷ xs) (suc i) x (_, h) e = All-at P xs i x h e

  pub All-middle {κ} : (P : A → Type κ) (xs ys : List A) (x : A) → All P (xs ++ (x ∷ ys)) → P x
  All-middle P [] ys x h = h.0
  All-middle P (y ∷ xs) ys x h = All-middle P xs ys x h.1

-- No rule matches the empty text.
rules-proper : All (λ r. not (nullable r.0) ≡ true) rules
unfolding rules nullable
rules-proper = All-all (λ r. not (nullable r.0)) rules refl

pub taken_cons :
    (w : Text) (a : Action) (u v : Text)
    → IsPick rules w a u v
    → (c : ℕ) × (u' : Text) × (u ≡ c ∷ u')
taken_cons w a [] v k =
    let proper =
      All-middle (λ r. not (nullable r.0) ≡ true) k.before k.after (k.pattern', a)
        (subst (λ rs. All (λ r. not (nullable r.0) ≡ true) rs) k.rule rules-proper) in
    let empty = Matches-nullable k.pattern' [] k.matches refl in cc
taken_cons w a (c ∷ u) v k = (c, u, refl)

pub taken_shorter :
    (w : Text) (a : Action) (u v : Text) → IsPick rules w a u v → length v < length w
taken_shorter w a u v k =
    let (c, u', e) = taken_cons w a u v k in
    let total : length w ≡ length u + length v = ap length k.splits ∙ length-append u v in
    let front : length u ≡ suc (length u') = ap length e in omega arith

-- Some rule matches at every byte.
pub some_match : (c : ℕ) (w : Text) → ¬ NoMatch rules (c ∷ w)
unfolding rules
some_match c w h = elim (Bool-cases (c == b'\n')) [
  | inl t ↦
      All-at (λ r. (u v : Text) → c ∷ w ≡ u ++ v → ¬ Matches r.0 u) rules 27 (byte b'\n', new_line)
        h refl (c ∷ []) w refl (m_one {test = λ d. d == b'\n'} t refl)
  | inr f ↦
      All-at (λ r. (u v : Text) → c ∷ w ≡ u ++ v → ¬ Matches r.0 u) rules 28
        (one_of (λ d. not (d == b'\n')), skips) h refl (c ∷ []) w refl
        (m_one {test = λ d. not (d == b'\n')} (ap not f) refl)
]

-- What one rule takes is determined.
same_split : (u v x y : Text) → u ++ v ≡ x ++ y → length u ≡ length x → (u ≡ x) × (v ≡ y)
same_split [] v [] y e l = (refl, e)
same_split [] v (d ∷ x) y e l = absurd (omega arith)
same_split (c ∷ u) v [] y e l = absurd (omega arith)
same_split (c ∷ u) v (d ∷ x) y e l =
    let (same, rest) = same_split u v x y (cc) (omega arith) in (cc, rest)

same_rule :
    (P : Pattern → Type 0) (b1 b2 r1 r2 : List (Pattern × Action)) (p q : Pattern) (a b : Action)
    → b1 ++ ((p, a) ∷ r1) ≡ b2 ++ ((q, b) ∷ r2)
    → All (λ r. ¬ P r.0) b1
    → All (λ r. ¬ P r.0) b2
    → P p
    → P q
    → a ≡ b
same_rule P [] [] r1 r2 p q a b e h1 h2 hp hq = cc
same_rule P [] (y ∷ b2) r1 r2 p q a b e h1 (hy, _) hp hq =
    let same : y ≡ (p, a) = cc in absurd (subst (λ r. ¬ P r.0) same hy hp)
same_rule P (x ∷ b1) [] r1 r2 p q a b e (hx, _) h2 hp hq =
    let same : x ≡ (q, b) = cc in absurd (subst (λ r. ¬ P r.0) same hx hq)
same_rule P (x ∷ b1) (y ∷ b2) r1 r2 p q a b e (_, h1) (_, h2) hp hq =
    same_rule P b1 b2 r1 r2 p q a b (cc) h1 h2 hp hq

-- A pick is at least as long as any other.
pick_longest :
    (w : Text) (a b : Action) (u v x y : Text)
    → IsPick rules w a u v
    → IsPick rules w b x y
    → length u ≤ length x
pick_longest w a b u v x y j k =
    All-middle (λ r. (s t : Text) → w ≡ s ++ t → Matches r.0 s → length s ≤ length x) j.before
      j.after (j.pattern', a) (subst (λ rs. NoneLonger rs w (length x)) j.rule k.longest) u v
      j.splits j.matches

pub same_pick :
    (w : Text) (a b : Action) (u v x y : Text)
    → IsPick rules w a u v
    → IsPick rules w b x y
    → (a ≡ b) × (u ≡ x) × (v ≡ y)
same_pick w a b u v x y j k =
    let up = pick_longest w a b u v x y j k in
    let down = pick_longest w b a x y u v k j in
    let (same, rest) = same_split u v x y (sym j.splits ∙ k.splits) (omega arith) in
    (
      same_rule (λ p. Matches p u) j.before k.before j.after k.after j.pattern' k.pattern' a b
          (sym j.rule ∙ k.rule) j.first
          (subst (λ t. All (λ r. ¬ Matches r.0 t) k.before) (sym same) k.first) j.matches
          (subst (λ t. Matches k.pattern' t) (sym same) k.matches),
      same,
      rest,
    )

-- A text has one division.
pub Pieces-unique : (w : Text) (ps qs : List (Action × Text)) → Pieces w ps → Pieces w qs → ps ≡ qs
Pieces-unique w [] [] (ends e) (ends e') = refl
Pieces-unique w [] ((b, x) ∷ qs) (ends e) (takes _ _ y k later) =
    let l = taken_shorter w b x y k in absurd (omega (arith, ap length e))
Pieces-unique w ((a, u) ∷ ps) [] (takes _ _ v j later) (ends e) =
    let l = taken_shorter w a u v j in absurd (omega (arith, ap length e))
Pieces-unique w ((a, u) ∷ ps) ((b, x) ∷ qs) (takes _ _ v j later) (takes _ _ y k later') =
    let (ea, eu, ev) = same_pick w a b u v x y j k in
    let rest = Pieces-unique y ps qs (subst (λ t. Pieces t ps) ev later) later' in
    rw (ea, eu, rest) refl
