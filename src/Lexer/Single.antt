-- ===== src/Lexer/Single.antt =====
-- src/parsing/lexer.l: texts that are one name or one number, with nothing behind it.
use matcc.Prelude.{
  ℕ, ◌+◌, ◌≡◌, ◌≢◌, subst, refl, sym, ap, ◌∙◌, inl, inr, Bool, true, false, not, ◌==◌, Bool-cases,
  List, [], ◌∷◌, ◌++◌, arith, Text, codes, length, All, All-append, All-map, length-append,
}
use matcc.Format.{decimal}
use matcc.Format.Decimal.{IsDigit, decimal-All, decimal-cons}
use matcc.Lexer.Patterns.{Pattern, one_of, seq, among, star, Matches, m_one, m_seq, m_stop, m_again}
use matcc.Lexer.Scanner.{NoneLonger, IsPick}
use matcc.Lexer.Pieces.{all, All-all}
use matcc.Lexer.Words.{Matches-word}
use matcc.Lexer.{
  Token, Action, gives_name, gives_integer, identifier_pattern, integer_pattern, is_name_start,
  is_name_byte, is_digit, keywords, keyword_rules, early_rules, rules,
}

abbrev Refuses : Text → Pattern × Action → Type 0
Refuses w r = ¬ Matches r.0 w

NoneLonger-all : (rs : List (Pattern × Action)) (w : Text) → NoneLonger rs w (length w)
NoneLonger-all [] w = tt
NoneLonger-all (r ∷ rs) w = (
  λ u v e h.
      let total : length w ≡ length u + length v = ap length e ∙ length-append u v in omega arith,
  NoneLonger-all rs w,
)

append-[] : (w : Text) → w ≡ w ++ []
append-[] [] = refl
append-[] (c ∷ w) = ap (◌∷◌ c) (append-[] w)

-- A text that a rule matches, and no rule before it, is what that rule takes.
IsPick-whole :
    (w : Text) (p : Pattern) (a : Action) (before after : List (Pattern × Action))
    → rules ≡ before ++ ((p, a) ∷ after)
    → Matches p w
    → All (Refuses w) before
    → IsPick rules w a w []
IsPick-whole w p a before after e h first = record {
  splits = append-[] w;
  before = before;
  pattern' = p;
  after = after;
  rule = e;
  matches = h;
  first = first;
  longest = NoneLonger-all rules w;
}

-- The text starts with a byte of the class.
abbrev pub Starts : (ℕ → Bool) → Text → Type 0
Starts test w = (c : ℕ) × (u : Text) × (w ≡ c ∷ u) × (test c ≡ true)

among-not :
    (cs : Text) (test : ℕ → Bool) (c : ℕ)
    → among cs c ≡ true
    → all (λ d. not (test d)) cs ≡ true
    → test c ≡ false
among-not [] test c h k = cc
among-not (d ∷ cs) test c h k = elim (Bool-cases (c == d)) [
  | inl e ↦ let same : c ≡ d = ground arith in rw same (ground arith)
  | inr f ↦ among-not cs test c (rw f at h) (ground arith)
]

among-refuses :
    (cs : Text) (test : ℕ → Bool) (w : Text)
    → all (λ d. not (test d)) cs ≡ true
    → Starts test w
    → ¬ Matches (one_of (among cs)) w
among-refuses cs test w k (c, u, e, t) (m_one {c = d} h e') =
    let same : c ≡ d = cc in
    let not_test = among-not cs test d h k in
    let bad : test d ≡ true = subst (λ b. test b ≡ true) same t in cc

keywords-refuse :
    (ks : List (Text × Token)) (w : Text)
    → All (λ k. w ≢ k.0) ks
    → All (Refuses w) (keyword_rules ks)
keywords-refuse [] w h = tt
keywords-refuse ((k, t) ∷ ks) w (h, hs) = (λ m. h (Matches-word k w m), keywords-refuse ks w hs)

early-refuse :
    (test : ℕ → Bool) (w : Text)
    → all (λ d. not (test d)) (codes "{}()[],;=") ≡ true
    → all (λ d. not (test d)) (codes "+-*/") ≡ true
    → Starts test w
    → All (λ k. w ≢ k.0) keywords
    → All (Refuses w) early_rules
early-refuse test w k1 k2 s h = (
  among-refuses (codes "{}()[],;=") test w k1 s,
  (among-refuses (codes "+-*/") test w k2 s, keywords-refuse keywords w h),
)

pub Starts-class :
    (test : ℕ → Bool) (q : Pattern) (w : Text) → Matches (seq (one_of test) q) w → Starts test w
Starts-class test q w (m_seq u v (m_one {c = c} t e) h e') = (c, v, rw e' (ap (λ x. x ++ v) e), t)

pub IsPick-name :
    (w : Text)
    → Matches identifier_pattern w
    → All (λ k. w ≢ k.0) keywords
    → IsPick rules w gives_name w []
unfolding rules
IsPick-name w h k = IsPick-whole w identifier_pattern gives_name early_rules _ refl h (
    early-refuse is_name_start w refl refl
      (Starts-class is_name_start (star (one_of is_name_byte)) w h) k)

digit-other : (c : ℕ) → is_digit c ≡ true → is_name_start c ≡ true → ⊥
digit-other c h k = ground arith

-- Numbers.
abbrev first_digit : Text → Bool
first_digit [] = false
first_digit (c ∷ u) = is_digit c

keyword-other : (w k : Text) → Starts is_digit w → not (first_digit k) ≡ true → w ≢ k
keyword-other w k (c, u, e, t) h same = let front : first_digit k ≡ true = rw (sym same, e) t in cc

name-other : (w : Text) → Starts is_digit w → ¬ Matches identifier_pattern w
name-other w (c, u, e, t) h =
    let (d, v, e', t') = Starts-class is_name_start (star (one_of is_name_byte)) w h in
    let same : d ≡ c = cc in
    let both : is_name_start c ≡ true = subst (λ b. is_name_start b ≡ true) same t' in
    absurd (digit-other c t both)

pub IsPick-number : (w : Text) → Matches integer_pattern w → IsPick rules w gives_integer w []
unfolding rules
IsPick-number w h =
    let s = Starts-class is_digit (star (one_of is_digit)) w h in
    IsPick-whole w integer_pattern gives_integer
      (early_rules ++ ((identifier_pattern, gives_name) ∷ [])) _ refl h
      (All-append (Refuses w) early_rules ((identifier_pattern, gives_name) ∷ [])
        (early-refuse is_digit w refl refl s (
          All-map (λ k. keyword-other w k.0 s) keywords
            (All-all (λ k. not (first_digit k.0)) keywords refl)))
        (name-other w s, tt))

digits-star : (w : Text) → All IsDigit w → Matches (star (one_of is_digit)) w
digits-star [] h = m_stop refl
digits-star (c ∷ w) ((low, high), h) =
    m_again c [] w (m_one {test = is_digit} (ground arith) refl) (digits-star w h) refl

pub decimal-Matches : (n : ℕ) → Matches integer_pattern (decimal n)
decimal-Matches n =
    let (d, t, e) = decimal-cons n in
    let (first, rest) : All IsDigit (d ∷ t) = rw e at (decimal-All n) in
    let (low, high) = first in
    m_seq (d ∷ []) t (m_one {test = is_digit} (ground arith) refl) (digits-star t rest) e
