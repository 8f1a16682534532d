-- ===== src/Lexer/Scanner.antt =====
-- src/parsing/lexer.l: what a scanner generated from rules reads next. The longest text that a rule
-- matches is taken, and of the rules that match it the first.
use matcc.Prelude.{ℕ, ◌≤◌, ◌≡◌, Option, none, some, List, ◌∷◌, ◌++◌, Text, length, All}
use matcc.Lexer.Patterns.{Pattern, Matches}

module _ {ℓ} {A : Type ℓ} where
  -- No rule matches a text that the input starts with and that is longer than this.
  abbrev pub NoneLonger : List (Pattern × A) → Text → ℕ → Type 0
  NoneLonger rs w n = All (λ r. (u v : Text) → w ≡ u ++ v → Matches r.0 u → length u ≤ n) rs

  -- No rule matches a text that the input starts with.
  abbrev pub NoMatch : List (Pattern × A) → Text → Type 0
  NoMatch rs w = All (λ r. (u v : Text) → w ≡ u ++ v → ¬ Matches r.0 u) rs

  -- `a` is what the first rule with the longest match says, `u` that match and `v` the rest.
  pub record IsPick (rs : List (Pattern × A)) (w : Text) (a : A) (u v : Text) : Type ℓ where
    pub splits : w ≡ u ++ v
    pub before : List (Pattern × A)
    pub pattern' : Pattern
    pub after : List (Pattern × A)
    pub rule : rs ≡ before ++ ((pattern', a) ∷ after)
    pub matches : Matches pattern' u
    pub first : All (λ r. ¬ Matches r.0 u) before
    pub longest : NoneLonger rs w (length u)

  pub record IsScanner (rs : List (Pattern × A)) (scan : Text → Option (A × Text × Text))
      : Type ℓ where
    pub picks : (w : Text) (a : A) (u v : Text) → scan w ≡ some (a, u, v) → IsPick rs w a u v
    pub finds : (w : Text) → scan w ≡ none → NoMatch rs w
