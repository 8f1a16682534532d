-- ===== src/Instructions/Listing.antt =====
-- src/mips/instruction.c: `instruction_list_push` adds at the end.
use mathlib.Core.List.{append-nil, append_assoc}
use matcc.Prelude.{◌≡◌, refl, sym, ◌∙◌, ap, List, [], ◌∷◌, ◌++◌}
use matcc.Instructions.{Instruction, instruction_list_push, push_all}

pub instruction_list_push-append :
    (list : List Instruction) (i : Instruction) → instruction_list_push list i ≡ list ++ i ∷ []
unfolding instruction_list_push
instruction_list_push-append [] i = refl
instruction_list_push-append (j ∷ list) i = ap (λ t. j ∷ t) (instruction_list_push-append list i)

pub push_all-append : (list new : List Instruction) → push_all list new ≡ list ++ new
unfolding push_all
push_all-append list [] = sym (append-nil list)
push_all-append list (i ∷ new) =
    push_all-append (instruction_list_push list i) new
    ∙ ap (λ t. t ++ new) (instruction_list_push-append list i)
    ∙ append_assoc list (i ∷ []) new
