-- ===== src/Lexer/Reference.antt =====
-- src/parsing/lexer.l: a scanner that reads the input by the derivatives of every pattern.
use matcc.Prelude.{
  ℕ, suc, ◌≤◌, ◌<◌, ◌≡◌, subst, refl, sym, ap, ◌⊎◌, inl, inr, true, false, Bool-cases, Option, none,
  some, List, [], ◌∷◌, ◌++◌, arith, Text, length, take, drop, ltb, if◌then◌else◌, take-drop,
  length-take,
}
use matcc.Lexer.Patterns.{Pattern, Matches}
use matcc.Lexer.Derivatives.{
  nullable, derivative, nullable-Matches, Matches-nullable, derivative-Matches, Matches-derivative,
  split-cons, append-nil,
}
use matcc.Lexer.Scanner.{NoneLonger, NoMatch, IsPick, IsScanner}

abbrev empty_match : Pattern → Option ℕ
empty_match p = if nullable p then some 0 else none

abbrev longer : Option ℕ → Option ℕ → Option ℕ
longer none o = o
longer (some n) o = some (suc n)

unfoldable pub longest_match : Pattern → Text → Option ℕ
unfolding nullable derivative
longest_match p [] = empty_match p
longest_match p (c ∷ w) = longer (longest_match (derivative c p) w) (empty_match p)

-- What a length says of the matches of a pattern at the start of a text.
abbrev pub IsLongest : Pattern → Text → Option ℕ → Type 0
IsLongest p w none = (u v : Text) → w ≡ u ++ v → ¬ Matches p u
IsLongest p w (some n) =
    Matches p (take n w) × (n ≤ length w) × ((u v : Text) → w ≡ u ++ v → Matches p u → length u ≤ n)

IsLongest-empty :
    (p : Pattern) (w : Text)
    → ((u v : Text) → w ≡ u ++ v → Matches p u → u ≡ [])
    → IsLongest p w (empty_match p)
unfolding nullable
IsLongest-empty p w f = elim (Bool-cases (nullable p)) [
  | inl t ↦ rw t (nullable-Matches p t, omega arith, λ u v e h. rw (f u v e h) (omega arith))
  | inr n ↦ rw n (λ u v e h. let m = Matches-nullable p u h (f u v e h) in cc)
]

IsLongest-cons :
    (c : ℕ) (p : Pattern) (w : Text) (o : Option ℕ)
    → IsLongest (derivative c p) w o
    → IsLongest p (c ∷ w) (longer o (empty_match p))
IsLongest-cons c p w none h = IsLongest-empty p (c ∷ w) (λ u v e m. elim (split-cons c u v w e) [
  | inl (eu, _) ↦ eu
  | inr (u', eu, ew) ↦ absurd (h u' v ew (Matches-derivative c p u u' m eu))
])
IsLongest-cons c p w (some n) (h, bound, longest) = (
  derivative-Matches c p (take n w) h,
  omega arith,
  λ u v e m. elim (split-cons c u v w e) [
    | inl (eu, _) ↦ rw eu (omega arith)
    | inr (u', eu, ew) ↦
        let shorter = longest u' v ew (Matches-derivative c p u u' m eu) in rw eu (omega arith)
  ],
)

longest_match-IsLongest : (p : Pattern) (w : Text) → IsLongest p w (longest_match p w)
unfolding longest_match
longest_match-IsLongest p [] = IsLongest-empty p [] (λ u v e h. (append-nil u v e).0)
longest_match-IsLongest p (c ∷ w) =
    IsLongest-cons c p w (longest_match (derivative c p) w)
      (longest_match-IsLongest (derivative c p) w)

ltb-cases : (n m : ℕ) → ((ltb n m ≡ true) × (n < m)) ⊎ ((ltb n m ≡ false) × (m ≤ n))
ltb-cases n m = elim (Bool-cases (ltb n m)) [
  | inl t ↦ inl (t, ground arith)
  | inr f ↦ inr (f, ground arith)
]

module _ {ℓ} {A : Type ℓ} where
  -- The earlier rule stays unless the later match is longer.
  abbrev prefer : Option ℕ → A → Option (ℕ × A) → Option (ℕ × A)
  prefer none a o = o
  prefer (some n) a none = some (n, a)
  prefer (some n) a (some (m, b)) = if ltb n m then some (m, b) else some (n, a)

  unfoldable pub best : List (Pattern × A) → Text → Option (ℕ × A)
  unfolding longest_match
  best [] w = none
  best ((p, a) ∷ rs) w = prefer (longest_match p w) a (best rs w)

  abbrev pick : Text → Option (ℕ × A) → Option (A × Text × Text)
  pick w none = none
  pick w (some (n, a)) = some (a, take n w, drop n w)

  unfoldable pub scan : List (Pattern × A) → Text → Option (A × Text × Text)
  unfolding best
  scan rs w = pick w (best rs w)

  abbrev IsBest : List (Pattern × A) → Text → Option (ℕ × A) → Type ℓ
  IsBest rs w none = NoMatch rs w × Unit {ℓ}
  IsBest rs w (some (n, a)) = IsPick rs w a (take n w) (drop n w) × (n ≤ length w)

  NoMatch-NoneLonger :
      (rs : List (Pattern × A)) (w : Text) (n : ℕ) → NoMatch rs w → NoneLonger rs w n
  NoMatch-NoneLonger [] w n h = tt
  NoMatch-NoneLonger (r ∷ rs) w n (h, hs) =
      (λ u v e m. absurd (h u v e m), NoMatch-NoneLonger rs w n hs)

  NoneLonger-weaken :
      (rs : List (Pattern × A)) (w : Text) (m n : ℕ) → m ≤ n → NoneLonger rs w m → NoneLonger rs w n
  NoneLonger-weaken [] w m n l h = tt
  NoneLonger-weaken (r ∷ rs) w m n l (h, hs) =
      (λ u v e k. let b = h u v e k in omega arith, NoneLonger-weaken rs w m n l hs)

  -- The rule at the head is taken.
  IsPick-head :
      (p : Pattern) (a : A) (rs : List (Pattern × A)) (w : Text) (n : ℕ)
      → IsLongest p w (some n)
      → NoneLonger rs w n
      → IsPick ((p, a) ∷ rs) w a (take n w) (drop n w)
  IsPick-head p a rs w n (m, bound, longest) later = record {
    splits = sym (take-drop n w);
    before = [];
    pattern' = p;
    after = rs;
    rule = refl;
    matches = m;
    first = tt;
    longest =
        subst (λ k. NoneLonger ((p, a) ∷ rs) w k) (sym (length-take n w bound)) (longest, later);
  }

  -- The rule at the head is passed over.
  IsPick-tail :
      (p : Pattern) (b a : A) (rs : List (Pattern × A)) (w u v : Text)
      → ¬ Matches p u
      → ((x y : Text) → w ≡ x ++ y → Matches p x → length x ≤ length u)
      → IsPick rs w a u v
      → IsPick ((p, b) ∷ rs) w a u v
  IsPick-tail p b a rs w u v fails longest k = record {
    splits = k.splits;
    before = (p, b) ∷ k.before;
    pattern' = k.pattern';
    after = k.after;
    rule = ap (◌∷◌ (p, b)) k.rule;
    matches = k.matches;
    first = (fails, k.first);
    longest = (longest, k.longest);
  }

  prefer-IsBest :
      (p : Pattern) (a : A) (rs : List (Pattern × A)) (w : Text) (l : Option ℕ) (o : Option (ℕ × A))
      → IsLongest p w l
      → IsBest rs w o
      → IsBest ((p, a) ∷ rs) w (prefer l a o)
  prefer-IsBest p a rs w none none h (k, _) = ((h, k), tt)
  prefer-IsBest p a rs w none (some (m, b)) h (k, bound) = (
    IsPick-tail p a b rs w (take m w) (drop m w) (h (take m w) (drop m w) k.splits)
        (λ x y e z. absurd (h x y e z)) k,
    bound,
  )
  prefer-IsBest p a rs w (some n) none h (k, _) =
      (IsPick-head p a rs w n h (NoMatch-NoneLonger rs w n k), h.1)
  prefer-IsBest p a rs w (some n) (some (m, b)) h (k, bound) = elim (ltb-cases n m) [
    | inl (less, n_less) ↦ rw less (
      IsPick-tail p a b rs w (take m w) (drop m w)
          (λ z.
            let l = h.2 (take m w) (drop m w) k.splits z in
            let e = length-take m w bound in absurd (omega arith))
          (λ x y e z. let l = h.2 x y e z in let e' = length-take m w bound in omega arith) k,
      bound,
    )
    | inr (not_less, m_le) ↦ rw not_less (
      IsPick-head p a rs w n h (
          NoneLonger-weaken rs w m n m_le
            (subst (λ i. NoneLonger rs w i) (length-take m w bound) k.longest)),
      h.1,
    )
  ]

  best-IsBest : (rs : List (Pattern × A)) (w : Text) → IsBest rs w (best rs w)
  unfolding best
  best-IsBest [] w = (tt, tt)
  best-IsBest ((p, a) ∷ rs) w =
      prefer-IsBest p a rs w (longest_match p w) (best rs w) (longest_match-IsLongest p w)
        (best-IsBest rs w)

  pick-IsPick :
      (rs : List (Pattern × A)) (w : Text) (o : Option (ℕ × A)) (a : A) (u v : Text)
      → IsBest rs w o
      → pick w o ≡ some (a, u, v)
      → IsPick rs w a u v
  pick-IsPick rs w none a u v h e = cc
  pick-IsPick rs w (some (n, b)) a u v (h, _) e =
      let ea : b ≡ a = cc in
      let eu : take n w ≡ u = cc in let ev : drop n w ≡ v = cc in rw (sym ea, sym eu, sym ev) h

  pick-NoMatch :
      (rs : List (Pattern × A)) (w : Text) (o : Option (ℕ × A))
      → IsBest rs w o
      → pick w o ≡ none
      → NoMatch rs w
  pick-NoMatch rs w none (h, _) e = h
  pick-NoMatch rs w (some (n, b)) h e = cc

  pub scan-IsScanner : (rs : List (Pattern × A)) → IsScanner rs (scan rs)
  unfolding scan
  scan-IsScanner rs = record {
    picks = λ w a u v e. pick-IsPick rs w (best rs w) a u v (best-IsBest rs w) e;
    finds = λ w e. pick-NoMatch rs w (best rs w) (best-IsBest rs w) e;
  }
