-- ===== src/Translation/Generate/Chunks.antt =====
-- src/mips/translation.c: the output of the loop of `generate_code`, one chunk behind a label for each
-- quad, and the code that a label stands for.
use mathlib.Core.List.{append_assoc, append-nil}
use matcc.Prelude.{
  ℕ, zero, suc, ◌+◌, ◌^◌, ◌≤◌, ◌<◌, ◌≡◌, refl, sym, ◌∙◌, ap, true, false, ◌&&◌, Option, none, some,
  List, [], ◌∷◌, ◌++◌, ok, Text, str_eq, str_eq_refl, str_eq_iff, length, drop, get_elem?, All,
  arith, Bool-cases, inl, inr, ltb, if◌then◌else◌,
}
use matcc.Format.{snprintf, format_int}
use matcc.Format.Decimal.{snprintf-fits, format_int-injective, length-format_int}
use matcc.Types.{Ptr, InitialValue, Quad}
use matcc.Compiler.{Compiler, ◌>>=◌, ◌>>◌}
use matcc.Instructions.{Instruction, instruction_new_label, instruction_list_push, push_all}
use matcc.Instructions.Listing.{instruction_list_push-append, push_all-append}
use matcc.Translation.{count}
use matcc.Translation.Lifetime.{IsCode}
use matcc.Translation.Select.{label_text, select}
use matcc.Quad.Printing.{comment_of}
use matcc.Translation.Generate.{generate_loop}
use matcc.Translation.Generate.Ready.{IsReady}
use matcc.Translation.Generate.Emits.{select-Emits}

-- The instructions behind the first label of a name.
abbrev pub from_label : Text → List Instruction → Option (List Instruction)
from_label name [] = none
from_label name (i ∷ is) =
    if i.is_label && str_eq i.opcode name then some is else from_label name is

lt-length :
    (quads : List Quad) (k : ℕ) (quad : Quad) → get_elem? quads k ≡ some quad → k < length quads
lt-length [] k quad e = absurd (cc)
lt-length (q ∷ quads) zero quad e = omega arith
lt-length (q ∷ quads) (suc k) quad e = omega (arith, lt-length quads k quad e)

from_label-skip :
    (name : Text) (is rest : List Instruction)
    → All (λ i. i.is_label ≡ false) is
    → from_label name (is ++ rest) ≡ from_label name rest
from_label-skip name [] rest plain = refl
from_label-skip name (i ∷ is) rest (no_label, plain) =
    rw no_label (from_label-skip name is rest plain)

-- Labels of different numbers differ.
pub label_text-injective : (m n : ℕ) → m < 2 ^ 32 → n < 2 ^ 32 → label_text m ≡ label_text n → m ≡ n
unfolding label_text
label_text-injective m n hm hn e =
    let fits : (k : ℕ) → k < 2 ^ 32 → snprintf 32 (b'L' ∷ format_int k) ≡ b'L' ∷ format_int k =
      λ k h. snprintf-fits 32 (b'L' ∷ format_int k) (omega (arith, length-format_int k h)) in
    format_int-injective m n hm hn (ap (drop 1) (sym (fits m hm) ∙ e ∙ fits n hn))

label_text-ne :
    (m n : ℕ) → m < 2 ^ 32 → n < 2 ^ 32 → m < n → str_eq (label_text m) (label_text n) ≡ false
label_text-ne m n hm hn lt = elim (Bool-cases (str_eq (label_text m) (label_text n))) [
  | inr other ↦ other
  | inl e ↦
      let same = label_text-injective m n hm hn ((str_eq_iff (label_text m) (label_text n)).0 e) in
      absurd (omega (arith, same))
]

module _ (raw_int : InitialValue → ℕ) where
  abbrev pub label_at : ℕ → Quad → Instruction
  label_at n quad = instruction_new_label (label_text n) (comment_of raw_int quad.comment)

  -- The quads from the number `n` on are translated to the code, in order: for each its label, with its
  -- number, and behind it its instructions, among which there is no label.
  abbrev pub Chunks : Compiler → ℕ → List Quad → List Instruction → Type 0
  Chunks s n [] code = code ≡ []
  Chunks s n (quad ∷ quads) code =
      (is : List Instruction) × (rest : List Instruction) × (code ≡ label_at n quad ∷ (is ++ rest))
      × (select raw_int n quad s ≡ ok (is, s))
      × All (λ i. i.is_label ≡ false) is
      × Chunks s (n + 1) quads rest

  pub generate_loop-Chunks :
      (fuel : ℕ) (quads : List Quad) (n : ℕ) (list : Option Ptr) (before : List Instruction)
      (s : Compiler)
      → IsCode s.nodes s.quads list quads
      → All (IsReady s.symbols) quads
      → length quads ≤ fuel
      → n + length quads < 2 ^ 31
      → (code : List Instruction) × (generate_loop raw_int fuel list n before s
          ≡ ok (before ++ code, s))
        × Chunks s n quads code
  unfolding generate_loop count
  generate_loop-Chunks fuel [] n list before s is ready enough fits =
      ([], rw (is, append-nil before) refl, refl)
  generate_loop-Chunks zero (quad ∷ rest) n list before s is ready enough fits =
      absurd (omega arith)
  generate_loop-Chunks (suc fuel) (quad ∷ quads) n list before s (a, q, next, e, node, here, is)
        (ready, readies) enough fits =
      let small : ltb (n + 1) (2 ^ 31) ≡ true = ground arith in
      let (new, run, plain) = select-Emits s raw_int n quad ready in
      let label = label_at n quad in
      let pushed = push_all (instruction_list_push before label) new in
      let (rest, run', chunks) =
        generate_loop-Chunks fuel quads (n + 1) next pushed s is readies (omega arith)
          (omega arith) in
      let joined : pushed ++ rest ≡ before ++ label ∷ (new ++ rest) =
        simp (push_all-append, instruction_list_push-append, append_assoc) in
      (
        label ∷ (new ++ rest),
        rw (e, ◌>>=◌, ◌>>◌, node, here, run, small) (run' ∙ ap (λ t. ok (t, s)) joined),
        (new, rest, refl, run, plain, chunks),
      )

  -- The label with the number `m` of a quad stands for the code of that quad and of all that follow it.
  pub from_label-Chunks :
      (s : Compiler) (n : ℕ) (quads : List Quad) (code : List Instruction) (k m : ℕ) (quad : Quad)
      → Chunks s n quads code
      → n + length quads ≤ 2 ^ 32
      → m ≡ n + k
      → get_elem? quads k ≡ some quad
      → (is : List Instruction) × (rest : List Instruction) × (from_label (label_text m) code
          ≡ some (is ++ rest))
        × (select raw_int m quad s ≡ ok (is, s))
        × Chunks s (m + 1) (drop (suc k) quads) rest
  from_label-Chunks s n [] code k m quad c fits e at_k = absurd (cc)
  from_label-Chunks s n (first ∷ quads) code zero m quad (is, rest, shape, run, plain, c) fits e
        at_k =
      let here : m ≡ n = omega arith in
      let same : quad ≡ first = cc in
      (is, rest, rw (shape, here, str_eq_refl (label_text n)), rw (here, same) run, rw here c)
  from_label-Chunks s n (first ∷ quads) code (suc k) m quad (is, rest, shape, run, plain, c) fits e
        at_k =
      let (is', rest', found, run', c') =
        from_label-Chunks s (n + 1) quads rest k m quad c (omega arith) (omega arith) at_k in
      let in_list = lt-length quads k quad at_k in
      let other : str_eq (label_text n) (label_text m) ≡ false =
        label_text-ne n m (omega arith) (omega arith) (omega arith) in
      (
        is',
        rest',
        rw (shape, other) (from_label-skip (label_text m) is rest plain ∙ found),
        run',
        c',
      )
