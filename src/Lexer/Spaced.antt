-- ===== src/Lexer/Spaced.antt =====
-- src/parsing/lexer.l: words with a space behind them.
use matcc.Prelude.{
  ℕ, ◌≤◌, ◌≡◌, ◌≢◌, subst, refl, sym, ap, ◌∙◌, ◌⊎◌, inl, inr, Bool, true, false, not, ◌&&◌, ◌==◌,
  List, [], ◌∷◌, ◌++◌, arith, Text, codes, length, All, All-append, All-map,
}
use matcc.Lexer.Patterns.{Pattern, fails, seq, byte, Matches, m_one, m_seq, m_left, m_right}
use matcc.Lexer.Derivatives.{derivative, Matches-derivative, append-nil, split-cons}
use matcc.Lexer.Words.{Matches-word}
use matcc.Lexer.Avoids.{avoids, Lacks, Lacks-avoids}
use matcc.Lexer.Scanner.{NoneLonger, IsPick}
use matcc.Lexer.Pieces.{All-all}
use matcc.Lexer.{
  Action, skips, gives_name, gives_integer, gives_float, gives_string, new_line, identifier_pattern,
  integer_pattern, float_pattern, string_pattern, comment_pattern, any_byte, early_rules,
  late_rules, rules,
}

-- No text of the pattern goes on with a space behind this one.
abbrev EndsAtSpace : Text → Pattern × Action → Type 0
EndsAtSpace u r = (z : Text) → ¬ Matches r.0 (u ++ b' ' ∷ z)

-- The first byte does not open a string, and no second one can follow a slash.
abbrev pub is_plain : Text → Bool
is_plain [] = false
is_plain (c ∷ []) = not (c == b'"')
is_plain (c ∷ d ∷ u) = not (c == b'"') && not (c == b'/')

Lacks-middle : (c : ℕ) (u z : Text) → ¬ Lacks c (u ++ c ∷ z)
Lacks-middle c [] z (h, _) = let bad : c == c ≡ false = h in ground arith
Lacks-middle c (d ∷ u) z (_, h) = Lacks-middle c u z h

avoids-EndsAtSpace : (u : Text) (r : Pattern × Action) → avoids b' ' r.0 ≡ true → EndsAtSpace u r
avoids-EndsAtSpace u r k z h = Lacks-middle b' ' u z (Lacks-avoids b' ' r.0 (u ++ b' ' ∷ z) h k)

-- The first byte of a sequence that starts with a byte.
first_of :
    (c d : ℕ) (q : Pattern) (w : Text)
    → Matches (seq (byte c) q) (d ∷ w)
    → (d == c ≡ true) × Matches q w
first_of c d q w (m_seq u v (m_one {c = e} t eu) h ew) =
    let whole : d ∷ w ≡ e ∷ v = ew ∙ ap (λ x. x ++ v) eu in
    let byte_is : d ≡ e = cc in
    let rest_is : w ≡ v = cc in
    (ap (λ b. b == c) byte_is ∙ t, subst (λ x. Matches q x) (sym rest_is) h)

string-EndsAtSpace :
    (u : Text) → is_plain u ≡ true → (z : Text) → ¬ Matches string_pattern (u ++ b' ' ∷ z)
string-EndsAtSpace [] p z h = cc
string-EndsAtSpace (c ∷ []) p z h =
    let (quote, _) = first_of b'"' c _ (b' ' ∷ z) h in let bad : false ≡ true = rw quote at p in cc
string-EndsAtSpace (c ∷ d ∷ u) p z h =
    let (quote, _) = first_of b'"' c _ (d ∷ (u ++ b' ' ∷ z)) h in
    let bad : false ≡ true = rw quote at p in cc

-- A slash with another byte than a space behind it.
slash_space :
    (u : Text) (d : ℕ) (y z : Text)
    → is_plain u ≡ true
    → d == b' ' ≡ false
    → u ++ b' ' ∷ z ≢ b'/' ∷ d ∷ y
slash_space [] d y z p h e = cc
slash_space (c ∷ []) d y z p h e =
    let same : b' ' ≡ d = cc in
    let bad : b' ' == b' ' ≡ false = subst (λ b. b == b' ' ≡ false) (sym same) h in cc
slash_space (c ∷ b ∷ u) d y z p h e =
    let same : c ≡ b'/' = cc in
    let bad : not (c == b'"') && not (b'/' == b'/') ≡ true =
      subst (λ x. not (c == b'"') && not (x == b'/') ≡ true) same p in
    ground arith

comment-EndsAtSpace :
    (u : Text) → is_plain u ≡ true → (z : Text) → ¬ Matches comment_pattern (u ++ b' ' ∷ z)
comment-EndsAtSpace u p z (m_left (m_seq x y hx hy e)) =
    slash_space u b'*' y z p refl (e ∙ ap (λ t. t ++ y) (Matches-word (codes "/*") x hx))
comment-EndsAtSpace u p z (m_right (m_seq x y hx hy e)) =
    slash_space u b'/' y z p refl (e ∙ ap (λ t. t ++ y) (Matches-word (codes "//") x hx))

any-EndsAtSpace : (u : Text) → is_plain u ≡ true → (z : Text) → ¬ Matches any_byte (u ++ b' ' ∷ z)
any-EndsAtSpace [] p z h = cc
any-EndsAtSpace (c ∷ u) p z (m_one {c = d} t e) =
    let rest : [] ≡ u ++ b' ' ∷ z = cc in let (_, bad) = append-nil u (b' ' ∷ z) rest in cc

rules-EndsAtSpace : (u : Text) → is_plain u ≡ true → All (EndsAtSpace u) rules
unfolding rules avoids
rules-EndsAtSpace u p =
    All-append (EndsAtSpace u) early_rules late_rules
      (All-map (avoids-EndsAtSpace u) early_rules (All-all (λ r. avoids b' ' r.0) early_rules refl))
      (
        avoids-EndsAtSpace u (identifier_pattern, gives_name) refl,
        (
          avoids-EndsAtSpace u (integer_pattern, gives_integer) refl,
          (
            avoids-EndsAtSpace u (float_pattern, gives_float) refl,
            (
              string-EndsAtSpace u p,
              (
                comment-EndsAtSpace u p,
                (avoids-EndsAtSpace u (byte b'\n', new_line) refl, (any-EndsAtSpace u p, tt)),
              ),
            ),
          ),
        ),
      )

-- What a text starts with is a start of the word, or goes beyond the space.
start_of_spaced :
    (x y u z : Text)
    → u ++ b' ' ∷ z ≡ x ++ y
    → (length x ≤ length u) ⊎ ((t : Text) × (x ≡ u ++ b' ' ∷ t))
start_of_spaced [] y u z e = inl (omega arith)
start_of_spaced (c ∷ x) y [] z e = let same : c ≡ b' ' = cc in inr (x, rw same refl)
start_of_spaced (c ∷ x) y (d ∷ u) z e = elim (start_of_spaced x y u z (cc)) [
  | inl short ↦ inl (omega arith)
  | inr (t, f) ↦ let same : c ≡ d = cc in inr (t, rw (same, f) refl)
]

EndsAtSpace-NoneLonger :
    (rs : List (Pattern × Action)) (u z : Text)
    → All (EndsAtSpace u) rs
    → NoneLonger rs (u ++ b' ' ∷ z) (length u)
EndsAtSpace-NoneLonger [] u z h = tt
EndsAtSpace-NoneLonger (r ∷ rs) u z (h, hs) = (
  λ x y e m. elim (start_of_spaced x y u z e) [
    | inl short ↦ short
    | inr (t, f) ↦ absurd (h t (subst (λ w. Matches r.0 w) f m))
  ],
  EndsAtSpace-NoneLonger rs u z hs,
)

-- A word is taken as it is, with a space and anything behind it.
pub IsPick-spaced :
    (a : Action) (u z : Text)
    → is_plain u ≡ true
    → IsPick rules u a u []
    → IsPick rules (u ++ b' ' ∷ z) a u (b' ' ∷ z)
IsPick-spaced a u z p k = record {
  splits = refl;
  before = k.before;
  pattern' = k.pattern';
  after = k.after;
  rule = k.rule;
  matches = k.matches;
  first = k.first;
  longest = EndsAtSpace-NoneLonger rules u z (rules-EndsAtSpace u p);
}

-- The space is taken alone.
abbrev is_fails : Pattern → Bool
is_fails fails = true
is_fails _ = false

no_match : (p : Pattern) (z : Text) → is_fails p ≡ true → ¬ Matches p z
no_match fails z h m = elim m [ ]
no_match p z h m = cc

derivative-fails :
    (c : ℕ) (r : Pattern × Action)
    → is_fails (derivative c r.0) ≡ true
    → (z : Text) → ¬ Matches r.0 (c ∷ z)
derivative-fails c r h z m =
    no_match (derivative c r.0) z h (Matches-derivative c r.0 (c ∷ z) z m refl)

abbrev rules_before_any : List (Pattern × Action)
rules_before_any =
    early_rules
    ++ ((identifier_pattern, gives_name)
        ∷ (integer_pattern, gives_integer)
        ∷ (float_pattern, gives_float)
        ∷ (string_pattern, gives_string)
        ∷ (comment_pattern, skips)
        ∷ (byte b'\n', new_line)
        ∷ [])

no_space : All (λ r. is_fails (derivative b' ' r.0) ≡ true) rules_before_any
unfolding derivative
no_space = All-all (λ r. is_fails (derivative b' ' r.0)) rules_before_any refl

any-short : (x : Text) → Matches any_byte x → length x ≤ 1
any-short x (m_one t e) = rw e (omega arith)

fails-NoneLonger :
    (c : ℕ) (z : Text) (rs : List (Pattern × Action))
    → All (λ r. is_fails (derivative c r.0) ≡ true) rs
    → NoneLonger (rs ++ (any_byte, skips) ∷ []) (c ∷ z) 1
fails-NoneLonger c z [] h = (λ x y e m. any-short x m, tt)
fails-NoneLonger c z (r ∷ rs) (h, hs) = (
  λ x y e m. elim (split-cons c x y z e) [
    | inl (short, _) ↦ rw short (omega arith)
    | inr (x', f, _) ↦ absurd (derivative-fails c r h x' (subst (λ w. Matches r.0 w) f m))
  ],
  fails-NoneLonger c z rs hs,
)

pub IsPick-space : (z : Text) → IsPick rules (b' ' ∷ z) skips (b' ' ∷ []) z
unfolding rules
IsPick-space z = record {
  splits = refl;
  before = rules_before_any;
  pattern' = any_byte;
  after = [];
  rule = refl;
  matches = m_one {test = λ c. not (c == b'\n')} refl refl;
  first = All-map (λ r h. derivative-fails b' ' r h []) rules_before_any no_space;
  longest = fails-NoneLonger b' ' z rules_before_any no_space;
}
