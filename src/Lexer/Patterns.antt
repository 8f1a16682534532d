-- ===== src/Lexer/Patterns.antt =====
-- src/parsing/lexer.l: the patterns of its rules are of this language.
use matcc.Prelude.{ℕ, ◌≡◌, Bool, true, false, not, ◌&&◌, ◌||◌, [], ◌∷◌, ◌++◌, Text, ltb, ◌==◌}

-- `fails` is the pattern of no text; `one_of` is a class of bytes.
pub data Pattern : Type 0 where
  fails blank : Pattern
  one_of : (ℕ → Bool) → Pattern
  seq alt : Pattern → Pattern → Pattern
  star : Pattern → Pattern

-- The texts of a pattern.
pub data Matches : Pattern → Text → Type 0 where
  m_blank : {w : Text} → w ≡ [] → Matches blank w
  m_one :
      {test : ℕ → Bool} {c : ℕ} {w : Text} → test c ≡ true → w ≡ c ∷ [] → Matches (one_of test) w
  m_seq :
      {p q : Pattern} (u v : Text) {w : Text}
      → Matches p u
      → Matches q v
      → w ≡ u ++ v
      → Matches (seq p q) w
  m_left : {p q : Pattern} {w : Text} → Matches p w → Matches (alt p q) w
  m_right : {p q : Pattern} {w : Text} → Matches q w → Matches (alt p q) w
  m_stop : {p : Pattern} {w : Text} → w ≡ [] → Matches (star p) w
  m_again :
      {p : Pattern} (c : ℕ) (u v : Text) {w : Text}
      → Matches p (c ∷ u)
      → Matches (star p) v
      → w ≡ c ∷ (u ++ v)
      → Matches (star p) w

-- `p+`, `p?`, a byte, and the bytes of a text one behind the other.
abbrev pub plus : Pattern → Pattern
plus p = seq p (star p)

abbrev pub optional : Pattern → Pattern
optional p = alt p blank

abbrev pub byte : ℕ → Pattern
byte c = one_of (λ d. d == c)

abbrev pub word : Text → Pattern
word [] = blank
word (c ∷ []) = byte c
word (c ∷ d ∷ cs) = seq (byte c) (word (d ∷ cs))

abbrev pub among : Text → ℕ → Bool
among [] c = false
among (d ∷ ds) c = (c == d) || among ds c

abbrev pub between : ℕ → ℕ → ℕ → Bool
between low high c = not (ltb c low) && not (ltb high c)
