-- ===== src/Lexer/Derivatives.antt =====
-- src/parsing/lexer.l: reading a pattern byte by byte. The derivative of a pattern by a byte is the
-- pattern of what may follow that byte.
use matcc.Prelude.{
  ℕ, ◌≡◌, refl, sym, ap, ◌∙◌, ◌⊎◌, inl, inr, Bool, true, false, Bool-cases, ◌&&◌, ◌||◌, [], ◌∷◌,
  ◌++◌, arith, Text, if◌then◌else◌,
}
use matcc.Lexer.Patterns.{
  Pattern, fails, blank, one_of, seq, alt, star, Matches, m_blank, m_one, m_seq, m_left, m_right,
  m_stop, m_again,
}

-- `seq` and `alt`, with no part that matches nothing.
abbrev pub followed_by : Pattern → Pattern → Pattern
followed_by fails q = fails
followed_by blank q = q
followed_by p q = seq p q

abbrev pub or_else : Pattern → Pattern → Pattern
or_else fails q = q
or_else p fails = p
or_else p q = alt p q

unfoldable pub nullable : Pattern → Bool
nullable fails = false
nullable blank = true
nullable (one_of test) = false
nullable (seq p q) = nullable p && nullable q
nullable (alt p q) = nullable p || nullable q
nullable (star p) = true

unfoldable pub derivative : ℕ → Pattern → Pattern
unfolding nullable
derivative c fails = fails
derivative c blank = fails
derivative c (one_of test) = if test c then blank else fails
derivative c (seq p q) =
    let rest = followed_by (derivative c p) q in
    let behind = derivative c q in if nullable p then or_else rest behind else rest
derivative c (alt p q) = or_else (derivative c p) (derivative c q)
derivative c (star p) = followed_by (derivative c p) (star p)

followed_by-Matches : (p q : Pattern) (w : Text) → Matches (followed_by p q) w → Matches (seq p q) w
followed_by-Matches fails q w h = elim h [ ]
followed_by-Matches blank q w h = m_seq [] w (m_blank refl) h refl
followed_by-Matches (one_of t) q w h = h
followed_by-Matches (seq a b) q w h = h
followed_by-Matches (alt a b) q w h = h
followed_by-Matches (star a) q w h = h

Matches-followed_by : (p q : Pattern) (w : Text) → Matches (seq p q) w → Matches (followed_by p q) w
Matches-followed_by fails q w (m_seq u v h k e) = elim h [ ]
Matches-followed_by blank q w (m_seq u v (m_blank z) k e) = rw (e, z) k
Matches-followed_by _ q w h = h

or_else-Matches : (p q : Pattern) (w : Text) → Matches (or_else p q) w → Matches (alt p q) w
or_else-Matches fails q w h = m_right h
or_else-Matches p fails w h = m_left h
or_else-Matches p q w h = h

Matches-or_else : (p q : Pattern) (w : Text) → Matches (alt p q) w → Matches (or_else p q) w
Matches-or_else fails q w (m_left h) = elim h [ ]
Matches-or_else fails q w (m_right h) = h
Matches-or_else p fails w (m_left h) = h
Matches-or_else p fails w (m_right h) = elim h [ ]
Matches-or_else p q w h = h

-- The empty text.
pub append-nil : (u v : Text) → [] ≡ u ++ v → (u ≡ []) × (v ≡ [])
append-nil [] v e = (refl, sym e)
append-nil (c ∷ u) v e = cc

and-true : (a b : Bool) → a && b ≡ true → (a ≡ true) × (b ≡ true)
and-true a b h = ground arith

or-true : (a b : Bool) → a || b ≡ true → (a ≡ true) ⊎ (b ≡ true)
or-true true b h = inl refl
or-true false b h = inr h

pub nullable-Matches : (p : Pattern) → nullable p ≡ true → Matches p []
unfolding nullable
nullable-Matches fails h = cc
nullable-Matches blank h = m_blank refl
nullable-Matches (one_of test) h = cc
nullable-Matches (seq p q) h =
    let (hp, hq) = and-true (nullable p) (nullable q) h in
    m_seq [] [] (nullable-Matches p hp) (nullable-Matches q hq) refl
nullable-Matches (alt p q) h = elim (or-true (nullable p) (nullable q) h) [
  | inl hp ↦ m_left (nullable-Matches p hp)
  | inr hq ↦ m_right (nullable-Matches q hq)
]
nullable-Matches (star p) h = m_stop refl

pub Matches-nullable : (p : Pattern) (w : Text) → Matches p w → w ≡ [] → nullable p ≡ true
unfolding nullable
Matches-nullable fails w h z = elim h [ ]
Matches-nullable blank w (m_blank e) z = refl
Matches-nullable (one_of test) w (m_one t e) z = cc
Matches-nullable (seq p q) w (m_seq u v h k e) z =
    let (hu, hv) = append-nil u v (sym z ∙ e) in
    rw (Matches-nullable p u h hu, Matches-nullable q v k hv) refl
Matches-nullable (alt p q) w (m_left h) z = rw (Matches-nullable p w h z) refl
Matches-nullable (alt p q) w (m_right h) z = elim (Bool-cases (nullable p)) [
  | inl t ↦ rw t refl
  | inr f ↦ rw f (Matches-nullable q w h z)
]
Matches-nullable (star p) w h z = refl

alt-cons :
    (c : ℕ) (p q a b : Pattern) (w : Text)
    → (Matches a w → Matches p (c ∷ w))
    → (Matches b w → Matches q (c ∷ w))
    → Matches (alt a b) w
    → Matches (alt p q) (c ∷ w)
alt-cons c p q a b w f g (m_left h) = m_left (f h)
alt-cons c p q a b w f g (m_right h) = m_right (g h)

seq-cons :
    (c : ℕ) (p q a : Pattern) (w : Text)
    → ((u : Text) → Matches a u → Matches p (c ∷ u))
    → Matches (seq a q) w
    → Matches (seq p q) (c ∷ w)
seq-cons c p q a w f (m_seq u v h k e) = m_seq (c ∷ u) v (f u h) k (ap (◌∷◌ c) e)

star-cons :
    (c : ℕ) (p a : Pattern) (w : Text)
    → ((u : Text) → Matches a u → Matches p (c ∷ u))
    → Matches (seq a (star p)) w
    → Matches (star p) (c ∷ w)
star-cons c p a w f (m_seq u v h k e) = m_again c u v (f u h) k (ap (◌∷◌ c) e)

one-cons :
    (c : ℕ) (test : ℕ → Bool) (w : Text) (b : Bool)
    → test c ≡ b
    → Matches (if b then blank else fails) w
    → Matches (one_of test) (c ∷ w)
one-cons c test w true t (m_blank e) = m_one t (ap (◌∷◌ c) e)
one-cons c test w false t h = elim h [ ]

seq-if :
    (c : ℕ) (p q a b : Pattern) (w : Text) (n : Bool)
    → nullable p ≡ n
    → ((u : Text) → Matches a u → Matches p (c ∷ u))
    → (Matches b w → Matches q (c ∷ w))
    → Matches (if n then or_else (followed_by a q) b else followed_by a q) w
    → Matches (seq p q) (c ∷ w)
seq-if c p q a b w false e f g h = seq-cons c p q a w f (followed_by-Matches a q w h)
seq-if c p q a b w true e f g h = elim (or_else-Matches (followed_by a q) b w h) [
  | m_left l ↦ seq-cons c p q a w f (followed_by-Matches a q w l)
  | m_right r ↦ m_seq [] (c ∷ w) (nullable-Matches p e) (g r) refl
]

-- A text behind a byte.
pub derivative-Matches :
    (c : ℕ) (p : Pattern) (w : Text) → Matches (derivative c p) w → Matches p (c ∷ w)
unfolding derivative
derivative-Matches c fails w h = elim h [ ]
derivative-Matches c blank w h = elim h [ ]
derivative-Matches c (one_of test) w h = one-cons c test w (test c) refl h
derivative-Matches c (seq p q) w h =
    seq-if c p q (derivative c p) (derivative c q) w (nullable p) refl (derivative-Matches c p)
      (derivative-Matches c q w) h
derivative-Matches c (alt p q) w h =
    alt-cons c p q (derivative c p) (derivative c q) w (derivative-Matches c p w)
      (derivative-Matches c q w) (or_else-Matches (derivative c p) (derivative c q) w h)
derivative-Matches c (star p) w h =
    star-cons c p (derivative c p) w (derivative-Matches c p)
      (followed_by-Matches (derivative c p) (star p) w h)

-- How a text behind a byte splits.
pub split-cons :
    (c : ℕ) (u v w : Text)
    → c ∷ w ≡ u ++ v
    → ((u ≡ []) × (c ∷ w ≡ v)) ⊎ ((u' : Text) × (u ≡ c ∷ u') × (w ≡ u' ++ v))
split-cons c [] v w e = inl (refl, e)
split-cons c (d ∷ u) v w e = inr (u, cc, cc)

derivative-if :
    (a b q : Pattern) (w : Text) (n : Bool)
    → Matches (seq a q) w ⊎ ((n ≡ true) × Matches b w)
    → Matches (if n then or_else (followed_by a q) b else followed_by a q) w
derivative-if a b q w false (inl h) = Matches-followed_by a q w h
derivative-if a b q w false (inr (t, h)) = cc
derivative-if a b q w true (inl h) =
    Matches-or_else (followed_by a q) b w (m_left (Matches-followed_by a q w h))
derivative-if a b q w true (inr (t, h)) = Matches-or_else (followed_by a q) b w (m_right h)

pub Matches-derivative :
    (c : ℕ) (p : Pattern) (t w : Text) → Matches p t → t ≡ c ∷ w → Matches (derivative c p) w
unfolding derivative
Matches-derivative c fails t w h z = elim h [ ]
Matches-derivative c blank t w (m_blank e) z = cc
Matches-derivative c (one_of test) t w (m_one {c = d} d_test e) z =
    let found : c ≡ d = cc in let ends : w ≡ [] = cc in rw (found, d_test) (m_blank ends)
Matches-derivative c (seq p q) t w (m_seq u v h k e) z =
    derivative-if (derivative c p) (derivative c q) q w (nullable p)
      (elim (split-cons c u v w (sym z ∙ e)) [
        | inl (eu, ev) ↦ inr (Matches-nullable p u h eu, Matches-derivative c q v w k (sym ev))
        | inr (u', eu, ew) ↦ inl (m_seq u' v (Matches-derivative c p u u' h eu) k ew)
      ])
Matches-derivative c (alt p q) t w (m_left h) z =
    Matches-or_else (derivative c p) (derivative c q) w (m_left (Matches-derivative c p t w h z))
Matches-derivative c (alt p q) t w (m_right h) z =
    Matches-or_else (derivative c p) (derivative c q) w (m_right (Matches-derivative c q t w h z))
Matches-derivative c (star p) t w (m_stop e) z = cc
Matches-derivative c (star p) t w (m_again d u v h k e) z =
    Matches-followed_by (derivative c p) (star p) w
      (m_seq u v (Matches-derivative c p (d ∷ u) u h cc) k cc)
