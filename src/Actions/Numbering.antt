-- ===== src/Actions/Numbering.antt =====
-- src/parsing/actions.c with src/quad.c: the numbers of the quads of a list. A tag is the value that
-- `next_quad` has when the tag is made (Grammar.tag_at), the number of the next quad; the labels of the
-- output count the list. A quad is known by its address, which is its number where they are in step.
use matcc.Prelude.{
  ℕ, zero, suc, ◌+◌, ◌^◌, ◌<◌, ◌≡◌, refl, ◌∙◌, ap, Option, none, some, [], ◌∷◌, ◌++◌, Returns,
  length, length-append, get_elem?, get_elem?-append_right, arith,
}
use matcc.Types.{Ptr}
use matcc.Compiler.{Compiler, Runtime}
use matcc.QuadList.Segments.{Cells, IsList}
use matcc.QuadList.Concat.{AreLists}
use matcc.Actions.Conditions.{CondAttr}
use matcc.Actions.Control.{control_if_else, control_while}
use matcc.Actions.Code.{Waits}
use matcc.Actions.Loops.{control_while-Jumps, control_if_else-Jumps}

-- The next quad that is made stands at the address that is its number.
abbrev pub InStep : Compiler → Type 0
InStep s = s.quads.next ≡ s.next_quad

-- The quads of the list are numbered without a gap.
abbrev pub Numbered : ℕ → Cells → Type 0
Numbered n [] = Unit
Numbered n ((_, q) ∷ xs) = (q ≡ n) × Numbered (suc n) xs

Numbered-append :
    (n m : ℕ) (xs ys : Cells)
    → Numbered n xs
    → Numbered m ys
    → m ≡ n + length xs
    → Numbered n (xs ++ ys)
Numbered-append n m [] ys h k e = let same : m ≡ n = omega arith in rw (← same) k
Numbered-append n m ((a, q) ∷ xs) ys (here, h) k e =
    (here, Numbered-append (suc n) m xs ys h k (omega arith))

Numbered-get_elem? :
    (n k : ℕ) (xs : Cells) (a q : Ptr) → Numbered n xs → get_elem? xs k ≡ some (a, q) → q ≡ n + k
Numbered-get_elem? n k [] a q h e = cc
Numbered-get_elem? n zero ((b, r) ∷ xs) a q (here, h) e = let same : r ≡ q = cc in omega arith
Numbered-get_elem? n (suc k) ((b, r) ∷ xs) a q (here, h) e =
    let later = Numbered-get_elem? (suc n) k xs a q h e in omega arith

module _ (rt : Runtime) (s : Compiler) (c : CondAttr) (n : ℕ) (cs xs ts fs : Cells)
    (waits : Waits s c ts fs) (free : s.nodes.cell s.nodes.next ≡ none) (few : length ts < rt.fuel)
    (few' : length fs < rt.fuel) (step : InStep s) (small : s.next_quad + 1 < 2 ^ 32)
    (numbered : Numbered n cs) (numbered' : Numbered (n + length cs) xs) where
  -- When addresses and numbers of quads are in step, below 2 ^ 32 - 1, the quads of the condition and of
  -- the statements are numbered without a gap from n and next_quad goes on from there, their lists end
  -- in NULL, share no node and fit the fuel, the next node is free, and the jump lists of the condition
  -- end in NULL, with their quads, and fit the fuel: the code of a while loop is numbered without a gap
  -- from n, the jump back included, addresses and numbers are in step behind it, and next_quad, which
  -- the next tag takes, is n and the length of the code.
  pub control_while-Numbered :
      (condition_tag statements_tag statements end_tag : Option Ptr)
      → AreLists s.nodes ((c.code, cs) ∷ (statements, xs) ∷ [])
      → length cs + length xs + 1 < rt.fuel
      → s.next_quad ≡ n + length cs + length xs
      → Returns (control_while rt condition_tag c statements_tag statements end_tag s) λ r.
        (zs : Cells) × IsList r.1.nodes r.0 zs
        × Numbered n zs
        × (length zs ≡ length cs + length xs + 1)
        × InStep r.1
        × (r.1.next_quad ≡ n + length zs)
  control_while-Numbered condition_tag statements_tag statements end_tag lists enough next =
      let last : Cells = (s.nodes.next, s.quads.next) ∷ [] in
      let size = length-append cs (xs ++ last) in
      let size' = length-append xs last in
      let (r, run, jumps) =
        control_while-Jumps rt s c condition_tag statements_tag statements end_tag cs xs ts fs waits
          lists free few few' (omega arith) in
      (
        r,
        run,
        (
          cs ++ (xs ++ last),
          jumps.list,
          Numbered-append n (n + length cs) cs (xs ++ last) numbered
              (Numbered-append (n + length cs) (n + length cs + length xs) xs last numbered'
                (omega arith, tt) refl)
              refl,
          omega arith,
          (let l = jumps.next in let m = jumps.next_quad in omega arith),
          (let m = jumps.next_quad in omega arith),
        ),
      )

  -- When addresses and numbers of quads are in step, below 2 ^ 32 - 1, the quads of the condition, of
  -- the true and of the false statements are numbered without a gap from n and next_quad goes on from
  -- there, their lists end in NULL, share no node and fit the fuel, the next node is free, and the jump
  -- lists of the condition end in NULL, with their quads, and fit the fuel: behind control_if_else every
  -- quad of the false statements stands in the list one place behind its number, the jump to the end
  -- stands before them although its number is the last, and next_quad, in step, is n and the length of
  -- the code.
  pub control_if_else-shifted :
      (ys : Cells) (true_tag true_statements false_tag false_statements end_tag : Option Ptr)
      → AreLists s.nodes ((c.code, cs) ∷ (true_statements, xs) ∷ (false_statements, ys) ∷ [])
      → length cs + length xs + length ys + 1 < rt.fuel
      → Numbered (n + length cs + length xs) ys
      → s.next_quad ≡ n + length cs + length xs + length ys
      → Returns
          (control_if_else rt c true_tag true_statements false_tag false_statements end_tag s)
          λ r.
            (zs : Cells) × IsList r.1.nodes r.0 zs
            × ((k : ℕ) (a q : Ptr)
                → get_elem? ys k ≡ some (a, q)
                → (place : ℕ) × (get_elem? zs place ≡ some (a, q)) × (suc q ≡ n + place))
            × (get_elem? zs (length cs + length xs) ≡ some (s.nodes.next, s.next_quad))
            × InStep r.1
            × (r.1.next_quad ≡ n + length zs)
  control_if_else-shifted ys true_tag true_statements false_tag false_statements end_tag lists
        enough numbered'' next =
      let last : Cells = (s.nodes.next, s.quads.next) ∷ ys in
      let size = length-append cs (xs ++ last) in
      let size' = length-append xs last in
      let (r, run, jumps) =
        control_if_else-Jumps rt s c true_tag true_statements false_tag false_statements end_tag cs
          xs ys ts fs waits lists free few few' (omega arith) in
      (
        r,
        run,
        (
          cs ++ (xs ++ last),
          jumps.list,
          λ k a q at_k.
              let number =
                Numbered-get_elem? (n + length cs + length xs) k ys a q numbered'' at_k in
              (
                length cs + (length xs + suc k),
                get_elem?-append_right cs (xs ++ last) (length xs + suc k)
                      (length cs + (length xs + suc k)) refl
                    ∙ get_elem?-append_right xs last (suc k) (length xs + suc k) refl
                    ∙ at_k,
                omega arith,
              ),
          get_elem?-append_right cs (xs ++ last) (length xs) (length cs + length xs) refl
              ∙ get_elem?-append_right xs last 0 (length xs) (omega arith)
              ∙ ap (λ q. some (s.nodes.next, q)) step,
          (let l = jumps.next in let m = jumps.next_quad in omega arith),
          (let m = jumps.next_quad in omega arith),
        ),
      )
