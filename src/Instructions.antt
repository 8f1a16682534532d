-- ===== src/Instructions.antt =====
-- src/mips/instruction.c: the instructions of the output and the list of them. The list is never
-- shared, so it is a list of its instructions. Releasing it is in Release.
pub mod Listing
use matcc.Prelude.{Bool, true, false, Option, none, some, List, [], ◌∷◌, ◌++◌, Text, codes}

pub record Instruction : Type 0 where
  pub opcode : Text
  pub op1 : Option Text
  pub op2 : Option Text
  pub op3 : Option Text
  pub is_label : Bool

abbrev pub instruction_new : Text → Option Text → Option Text → Option Text → Instruction
instruction_new opcode op1 op2 op3 = record {
  opcode = opcode;
  op1 = op1;
  op2 = op2;
  op3 = op3;
  is_label = false;
}

abbrev pub instruction_new_label : Text → Option Text → Instruction
instruction_new_label label comment = record (instruction_new label comment none none) {
  is_label = true;
}

-- The loop to the end of the list, and the new node there.
unfoldable pub instruction_list_push : List Instruction → Instruction → List Instruction
instruction_list_push [] instruction = instruction ∷ []
instruction_list_push (i ∷ list) instruction = i ∷ instruction_list_push list instruction

-- Several pushes in a row.
unfoldable pub push_all : List Instruction → List Instruction → List Instruction
push_all list [] = list
push_all list (i ∷ instructions) = push_all (instruction_list_push list i) instructions

-- `i->op ? i->op : ""`
abbrev pub or_empty : Option Text → Text
or_empty none = []
or_empty (some t) = t

-- What `instruction_list_print` writes for one instruction.
unfoldable pub instruction_line : Instruction → Text
instruction_line i = elim i.is_label [
  | true ↦ i.opcode ++ (codes ": # " ++ (or_empty i.op1 ++ b'\n' ∷ []))
  | false ↦
      b'\t'
      ∷ (i.opcode
          ++ (b' '
              ∷ (or_empty i.op1
                  ++ (b' ' ∷ (or_empty i.op2 ++ (b' ' ∷ (or_empty i.op3 ++ b'\n' ∷ [])))))))
]

unfoldable pub instruction_list_print : List Instruction → Text
instruction_list_print [] = []
instruction_list_print (i ∷ list) = instruction_line i ++ instruction_list_print list
