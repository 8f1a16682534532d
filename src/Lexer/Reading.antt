-- ===== src/Lexer/Reading.antt =====
-- src/parsing/lexer.l: the calls of `yylex` on a text.
use matcc.Prelude.{
  ℕ, zero, suc, ap, sym, ◌∙◌, ◌^◌, ◌<◌, ◌≡◌, refl, Option, none, some, Option-cases, inl, inr, List,
  [], ◌∷◌, arith, Outcome, ok, ◌>>=◌, Text, length,
}
use matcc.Matrix.{Float}
use matcc.Lexer.Scanner.{IsPick, IsScanner}
use matcc.Lexer.Lines.{Fits, newlines-length, user_action-Fits}
use matcc.Lexer.Pieces.{
  moved, located, Pieces, ends, takes, taken_shorter, some_match, Pieces-unique,
}
use matcc.Lexer.{Token, Action, rules, Position, Location, behind, token, yylex, tokens, start}

module _ (atoi : Text → ℕ) (strtof : Text → Float)
    (scan : Text → Option (Action × Text × Text)) where
  -- What a call of `yylex` does to a text and the tokens of its pieces.
  data Call (p : Position) (w : Text) (r : Outcome (Option (Token × Location) × Position × Text))
      : Type 0 where
    finished :
        (q : Position) (v : Text) (ps : List (Action × Text))
        → r ≡ ok (none, q, v)
        → Pieces w ps
        → located atoi strtof p ps ≡ []
        → Call p w r
    returned :
        (t : Token × Location) (q : Position) (v : Text)
        → r ≡ ok (some t, q, v)
        → Fits q v
        → length v < length w
        → ((ps : List (Action × Text))
            → Pieces v ps
            → (qs : List (Action × Text)) × Pieces w qs
              × (located atoi strtof p qs ≡ t ∷ located atoi strtof q ps))
        → Call p w r

  -- A piece before the rest of the call.
  Call-piece :
      (p : Position) (w : Text) (a : Action) (u v : Text) (o : Option Token)
      (r : Outcome (Option (Token × Location) × Position × Text))
      → token atoi strtof a u ≡ o
      → IsPick rules w a u v
      → Fits (behind a (moved p u).1) v
      → Call (behind a (moved p u).1) v r
      → Call p w
          (elim o [ none ↦ r | some t ↦ ok (some (t, (moved p u).0), behind a (moved p u).1, v) ])
  unfolding located
  Call-piece p w a u v (some t) r e k fits c =
      returned (t, (moved p u).0) (behind a (moved p u).1) v refl fits (taken_shorter w a u v k)
        (λ ps h. ((a, u) ∷ ps, takes a u v k h, rw e refl))
  Call-piece p w a u v none r e k fits (finished q v' ps run h nothing) =
      finished q v' ((a, u) ∷ ps) run (takes a u v k h) (rw (e, nothing) refl)
  Call-piece p w a u v none r e k fits (returned t q v' run fits' less f) =
      let shorter = taken_shorter w a u v k in
      returned t q v' run fits' (omega arith)
        (λ ps h. let (qs, hqs, e') = f ps h in ((a, u) ∷ qs, takes a u v k hqs, rw (e, e') refl))

  module _ (scans : IsScanner rules scan) where
    yylex-Call :
        (fuel : ℕ) (p : Position) (w : Text)
        → length w < fuel
        → Fits p w
        → Call p w (yylex atoi strtof scan fuel p w)
    unfolding yylex located
    yylex-Call zero p w h fits = absurd (omega arith)
    yylex-Call (suc fuel) p [] h fits = finished p [] [] refl (ends refl) refl
    yylex-Call (suc fuel) p (c ∷ w) h fits = elim (Option-cases (scan (c ∷ w))) [
      | inl e ↦ absurd (some_match c w (scans.finds (c ∷ w) e))
      | inr ((a, u, v), e) ↦
          let k = scans.picks (c ∷ w) a u v e in
          let less = taken_shorter (c ∷ w) a u v k in
          let (counted, fits') = user_action-Fits p (c ∷ w) a u v k fits in
          rw (e, yylex, counted, ◌>>=◌)
            (Call-piece p (c ∷ w) a u v (token atoi strtof a u)
              (yylex atoi strtof scan fuel (behind a (moved p u).1) v) refl k fits'
              (yylex-Call fuel (behind a (moved p u).1) v (omega arith) fits'))
    ]

    tokens-located :
        (fuel : ℕ) (p : Position) (w : Text)
        → length w < fuel
        → Fits p w
        → (ps : List (Action × Text)) × Pieces w ps
          × (tokens atoi strtof scan fuel p w ≡ ok (located atoi strtof p ps))
    unfolding tokens
    tokens-located zero p w h fits = absurd (omega arith)
    tokens-located (suc fuel) p w h fits = elim (yylex-Call (suc fuel) p w h fits) [
      | finished q v ps e k nothing ↦ (ps, k, rw (e, nothing, tokens) refl)
      | returned t q v e fits' less f ↦
          let (ps, k, later) = tokens-located fuel q v (omega arith) fits' in
          let (qs, k', e') = f ps k in (qs, k', rw (e, later, e', tokens, ◌>>=◌) refl)
    ]

    -- With a scanner that takes the longest match and the first rule that has it: on fuel of more
    -- than the length of a text, from a position whose line with the newlines of the text and whose
    -- column with its length are below 2 ^ 31, the calls of `yylex` end, with no fault, with the tokens
    -- of the pieces of the text in their order, and the text has one division into such pieces.
    pub tokens-Pieces :
        (fuel : ℕ) (p : Position) (w : Text)
        → length w < fuel
        → Fits p w
        → (ps : List (Action × Text)) × Pieces w ps
          × ((qs : List (Action × Text)) → Pieces w qs → qs ≡ ps)
          × (tokens atoi strtof scan fuel p w ≡ ok (located atoi strtof p ps))
    tokens-Pieces fuel p w h fits =
        let (ps, k, e) = tokens-located fuel p w h fits in
        (ps, k, λ qs k'. Pieces-unique w qs ps k' k, e)

    -- From the start a text fits whose length is below 2 ^ 31 - 1.
    pub tokens-start :
        (fuel : ℕ) (w : Text) (ps : List (Action × Text))
        → length w < fuel
        → suc (length w) < 2 ^ 31
        → Pieces w ps
        → tokens atoi strtof scan fuel start w ≡ ok (located atoi strtof start ps)
    tokens-start fuel w ps h small k =
        let lines = newlines-length w in
        let (qs, k', unique, run) = tokens-Pieces fuel start w h (omega arith, omega arith) in
        run ∙ ap (λ rs. ok (located atoi strtof start rs)) (sym (unique ps k))
