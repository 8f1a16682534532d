-- ===== src/Lexer/Words.antt =====
-- src/parsing/lexer.l: what the pieces of a text are, by the rules that take them.
use matcc.Prelude.{
  ℕ, ◌≡◌, ◌≢◌, subst, refl, sym, ◌⊎◌, inl, inr, Bool, true, false, ◌==◌, List, [], ◌∷◌, ◌++◌, arith,
  Text, codes, All, All-append,
}
use matcc.Lexer.Patterns.{Pattern, one_of, byte, word, among, Matches, m_blank, m_one, m_seq}
use matcc.Lexer.Scanner.{IsPick}
use matcc.Lexer.Pieces.{Pieces, takes, All-all, All-middle}
use matcc.Lexer.{
  Token, Action, gives_char, gives_name, gives_integer, gives_float, gives_string, gives, skips,
  new_line, identifier_pattern, integer_pattern, float_pattern, string_pattern, comment_pattern,
  any_byte, keywords, keyword_rules, early_rules, late_rules, rules,
}

pub data Mem {A : Type 0} (a : A) : List A → Type 0 where
  here : {xs : List A} → Mem a (a ∷ xs)
  later : {x : A} {xs : List A} → Mem a xs → Mem a (x ∷ xs)

-- What a piece is, by its action.
abbrev pub IsWordOf : Action → Text → Type 0
IsWordOf gives_char u =
    Matches (one_of (among (codes "{}()[],;="))) u ⊎ Matches (one_of (among (codes "+-*/"))) u
IsWordOf (gives t) u = Mem (u, t) keywords
IsWordOf gives_name u = Matches identifier_pattern u
IsWordOf gives_integer u = Matches integer_pattern u
IsWordOf gives_float u = Matches float_pattern u
IsWordOf gives_string u = Matches string_pattern u
IsWordOf skips u = Matches comment_pattern u ⊎ Matches any_byte u
IsWordOf new_line u = Matches (byte b'\n') u

abbrev Says : Pattern × Action → Type 0
Says r = (u : Text) → Matches r.0 u → IsWordOf r.1 u

one-byte : (c : ℕ) (u : Text) → Matches (byte c) u → u ≡ c ∷ []
one-byte c u (m_one {c = d} t e) = let found : d ≡ c = ground arith in rw (e, found) refl

byte-one : (c : ℕ) → Matches (byte c) (c ∷ [])
byte-one c = m_one {test = λ d. d == c} (ground arith) refl

-- The pattern of a word matches the word alone.
pub Matches-word : (k u : Text) → Matches (word k) u → u ≡ k
Matches-word [] u (m_blank e) = e
Matches-word (c ∷ []) u h = one-byte c u h
Matches-word (c ∷ d ∷ k) u (m_seq x y hx hy e) =
    rw (e, one-byte c x hx, Matches-word (d ∷ k) y hy) refl

word-Matches : (k : Text) → Matches (word k) k
word-Matches [] = m_blank refl
word-Matches (c ∷ []) = byte-one c
word-Matches (c ∷ d ∷ k) = m_seq (c ∷ []) (d ∷ k) (byte-one c) (word-Matches (d ∷ k)) refl

keywords-Says :
    (ks : List (Text × Token))
    → ((k : Text × Token) → Mem k ks → Mem k keywords)
    → All Says (keyword_rules ks)
keywords-Says [] f = tt
keywords-Says ((k, t) ∷ ks) f = (
  λ u h. let same = Matches-word k u h in rw same (f (k, t) here),
  keywords-Says ks (λ k h. f k (later h)),
)

rules-Says : All Says rules
unfolding rules
rules-Says =
    All-append Says early_rules late_rules
      (λ u h. inl h, (λ u h. inr h, keywords-Says keywords (λ k h. h)))
      (λ u h. h, (λ u h. h, (λ u h. h, (λ u h. h, (λ u h. inl h, (λ u h. h, (λ u h. inr h, tt)))))))

taken-IsWordOf : (w : Text) (a : Action) (u v : Text) → IsPick rules w a u v → IsWordOf a u
taken-IsWordOf w a u v k =
    All-middle Says k.before k.after (k.pattern', a) (subst (λ rs. All Says rs) k.rule rules-Says) u
      k.matches

-- A rule is passed over on the way to a rule with another action.
passed :
    (P : Pattern × Action → Type 0) (test : Action → Bool)
    (before after xs ys : List (Pattern × Action)) (p : Pattern) (a : Action)
    → xs ++ ys ≡ before ++ ((p, a) ∷ after)
    → test a ≡ false
    → All (λ r. test r.1 ≡ true) xs
    → All P before
    → All P xs
passed P test before after [] ys p a e h hx hb = tt
passed P test [] after (x ∷ xs) ys p a e h (hx, hxs) hb =
    let same : x ≡ (p, a) = cc in
    let bad : test a ≡ true = subst (λ r. test r.1 ≡ true) same hx in cc
passed P test (b ∷ before) after (x ∷ xs) ys p a e h (hx, hxs) (hb, hbs) =
    let same : b ≡ x = cc in (subst P same hb, passed P test before after xs ys p a (cc) h hxs hbs)

abbrev is_early : Action → Bool
is_early gives_char = true
is_early (gives t) = true
is_early _ = false

keywords_other :
    (ks : List (Text × Token)) (u : Text)
    → All (λ r. ¬ Matches r.0 u) (keyword_rules ks)
    → All (λ k. u ≢ k.0) ks
keywords_other [] u h = tt
keywords_other ((k, t) ∷ ks) u (h, hs) =
    (λ e. h (subst (λ s. Matches (word k) s) (sym e) (word-Matches k)), keywords_other ks u hs)

taken_name : (w u v : Text) → IsPick rules w gives_name u v → All (λ k. u ≢ k.0) keywords
unfolding rules
taken_name w u v k =
    let early =
      passed (λ r. ¬ Matches r.0 u) is_early k.before k.after early_rules late_rules k.pattern'
        gives_name k.rule refl (All-all (λ r. is_early r.1) early_rules refl) k.first in
    keywords_other keywords u early.1.1

-- What a piece is, by its action and by the rules before it.
abbrev pub IsWord : Action × Text → Type 0
IsWord (gives_name, u) = Matches identifier_pattern u × All (λ k. u ≢ k.0) keywords
IsWord (a, u) = IsWordOf a u

taken-IsWord : (w : Text) (a : Action) (u v : Text) → IsPick rules w a u v → IsWord (a, u)
taken-IsWord w gives_name u v k = (taken-IsWordOf w gives_name u v k, taken_name w u v k)
taken-IsWord w a u v k = taken-IsWordOf w a u v k

-- In the division of a text by the rules, a name has the pattern of names and is no keyword; a
-- piece that is returned as a keyword or an operator is its text; integers, floats, strings and
-- single bytes have the patterns of their rules; what is skipped is a comment or one byte that is no
-- newline, and only a newline starts a line.
pub Pieces-IsWord : (w : Text) (ps : List (Action × Text)) → Pieces w ps → All IsWord ps
Pieces-IsWord w [] h = tt
Pieces-IsWord w ((a, u) ∷ ps) (takes _ _ v k h) = (taken-IsWord w a u v k, Pieces-IsWord v ps h)
