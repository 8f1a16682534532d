-- ===== src/Lexer/Avoids.antt =====
-- src/parsing/lexer.l: bytes that no text of a pattern has.
use matcc.Prelude.{
  ℕ, ◌≡◌, subst, Bool, true, false, not, ◌&&◌, ◌==◌, Bool-cases, inl, inr, ◌∷◌, arith, Text, All,
  All-append,
}
use matcc.Lexer.Patterns.{
  Pattern, fails, blank, one_of, seq, alt, star, Matches, m_blank, m_one, m_seq, m_left, m_right,
  m_stop, m_again,
}

unfoldable pub avoids : ℕ → Pattern → Bool
avoids c fails = true
avoids c blank = true
avoids c (one_of test) = not (test c)
avoids c (seq p q) = avoids c p && avoids c q
avoids c (alt p q) = avoids c p && avoids c q
avoids c (star p) = avoids c p

abbrev pub Lacks : ℕ → Text → Type 0
Lacks c u = All (λ d. d == c ≡ false) u

other_byte : (c d : ℕ) (test : ℕ → Bool) → not (test c) ≡ true → test d ≡ true → d == c ≡ false
other_byte c d test h t = elim (Bool-cases (d == c)) [
  | inr f ↦ f
  | inl e ↦
      let found : d ≡ c = ground arith in
      let holds : test c ≡ true = subst (λ b. test b ≡ true) found t in
      let bad : false ≡ true = rw holds at h in cc
]

pub Lacks-avoids : (c : ℕ) (p : Pattern) (u : Text) → Matches p u → avoids c p ≡ true → Lacks c u
unfolding avoids
Lacks-avoids c fails u h k = elim h [ ]
Lacks-avoids c blank u (m_blank e) k = rw e tt
Lacks-avoids c (one_of test) u (m_one {c = d} t e) k = rw e (other_byte c d test k t, tt)
Lacks-avoids c (seq p q) u (m_seq x y hx hy e) k = rw e (
    All-append (λ d. d == c ≡ false) x y (Lacks-avoids c p x hx (ground arith))
      (Lacks-avoids c q y hy (ground arith)))
Lacks-avoids c (alt p q) u (m_left h) k = Lacks-avoids c p u h (ground arith)
Lacks-avoids c (alt p q) u (m_right h) k = Lacks-avoids c q u h (ground arith)
Lacks-avoids c (star p) u (m_stop e) k = rw e tt
Lacks-avoids c (star p) u (m_again d x y hx hy e) k = rw e (
    All-append (λ b. b == c ≡ false) (d ∷ x) y (Lacks-avoids c p (d ∷ x) hx k)
      (Lacks-avoids c (star p) y hy k))
