-- ===== src/Driver/Nested.antt =====
-- Whole runs of the compiler on loops within an else branch and within a for loop.
use matcc.Prelude.{◌≡◌, refl, some, [], ◌∷◌, Text, codes}
use matcc.Grammar.{
  plus, integerconst, identifier, computed, t_int, initialized, declares, calls, Statement,
  Statements, last_statement, while_do, if_then_else, for_do, compared, lt, gt, block,
  next_statement,
}
use matcc.Driver.{joined_lines}
use matcc.Driver.Runs.{output_of, every_part}

abbrev print_x : Statements
print_x = last_statement (calls (codes "print") (identifier (codes "x")))

abbrev loop : Statement
loop = while_do (compared (identifier (codes "x")) gt (integerconst 5)) (block print_x)

-- int x = 0; if (x < 3) { print(x); } else { while (x > 5) { print(x); } }
abbrev else_loop : Statements
else_loop = next_statement (declares (initialized t_int (codes "x") (integerconst 0))) (
    last_statement (
      if_then_else (compared (identifier (codes "x")) lt (integerconst 3)) (block print_x)
        (block (last_statement loop))))

-- int x = 0; for (int y = 0; y < 3; y = y + 1) { while (x > 5) { print(x); } }
abbrev for_loop : Statements
for_loop = next_statement (declares (initialized t_int (codes "x") (integerconst 0))) (
    last_statement (
      for_do (initialized t_int (codes "y") (integerconst 0))
        (compared (identifier (codes "y")) lt (integerconst 3)) (codes "y")
        (computed (identifier (codes "y")) plus (integerconst 1)) (block (last_statement loop))))

-- The labels of the inner loop are one too small: the jump that leads into it, at L5, goes to L6 and
-- not to L7, and the one that leads back, at L8, to L4.
abbrev else_loop_assembler : Text
else_loop_assembler = joined_lines (
    codes ".data"
    ∷ codes "cst6: .word 6"
    ∷ codes "cst7: .word 8"
    ∷ codes "cst8: .word 9"
    ∷ codes "_x: .word 0"
    ∷ codes "cst0: .word 0"
    ∷ codes "cst1: .word 3"
    ∷ codes "cst2: .word 3"
    ∷ codes "cst3: .word 5"
    ∷ codes "cst4: .word 4"
    ∷ codes "cst5: .word 5"
    ∷ []
    ∷ codes ".text"
    ∷ codes "main: # entry point"
    ∷ codes "L0: # _x = 0"
    ∷ (b'\t' ∷ codes "lw $t0 _x ")
    ∷ (b'\t' ∷ codes "lw $t1 cst0 ")
    ∷ (b'\t' ∷ codes "move $t0 $t1 ")
    ∷ codes "L1: # jump to the true statements"
    ∷ (b'\t' ∷ codes "lw $t1 cst1 ")
    ∷ (b'\t' ∷ codes "blt $t0 $t1 L3")
    ∷ codes "L2: # jump to the false statements"
    ∷ (b'\t' ∷ codes "b L5  ")
    ∷ codes "L3: # "
    ∷ (b'\t' ∷ codes "li $v0 1 ")
    ∷ (b'\t' ∷ codes "move $a0 $t0 ")
    ∷ (b'\t' ∷ codes "syscall   ")
    ∷ codes "L4: # jump to the end of if-else control"
    ∷ (b'\t' ∷ codes "b L9  ")
    ∷ codes "L5: # jump to the true statements"
    ∷ (b'\t' ∷ codes "lw $t2 cst5 ")
    ∷ (b'\t' ∷ codes "bgt $t0 $t2 L6")
    ∷ codes "L6: # jump to the false statements"
    ∷ (b'\t' ∷ codes "b L8  ")
    ∷ codes "L7: # "
    ∷ (b'\t' ∷ codes "li $v0 1 ")
    ∷ (b'\t' ∷ codes "move $a0 $t0 ")
    ∷ (b'\t' ∷ codes "syscall   ")
    ∷ codes "L8: # jump to the condition of while control"
    ∷ (b'\t' ∷ codes "b L4  ")
    ∷ codes "L9: # "
    ∷ (b'\t' ∷ codes "jal $ra  ")
    ∷ [])

else_loop-output : output_of else_loop ≡ some else_loop_assembler
unfolding every_part
else_loop-output = refl

-- The labels of the inner loop are one too small here too. `_y` is in $t1, which cst8 takes at L7,
-- although the loop leads back to L4, where `_y` is read.
abbrev for_loop_assembler : Text
for_loop_assembler = joined_lines (
    codes ".data"
    ∷ codes "cst6: .word 7"
    ∷ codes "cst7: .word 6"
    ∷ codes "tmp0: .word 0"
    ∷ codes "cst8: .word 5"
    ∷ codes "cst9: .word 8"
    ∷ codes "_x: .word 0"
    ∷ codes "_y: .word 0"
    ∷ codes "cst0: .word 0"
    ∷ codes "cst10: .word 10"
    ∷ codes "cst1: .word 0"
    ∷ codes "cst11: .word 12"
    ∷ codes "cst2: .word 2"
    ∷ codes "cst3: .word 3"
    ∷ codes "cst4: .word 4"
    ∷ codes "cst5: .word 1"
    ∷ []
    ∷ codes ".text"
    ∷ codes "main: # entry point"
    ∷ codes "L0: # _x = 0"
    ∷ (b'\t' ∷ codes "lw $t0 _x ")
    ∷ (b'\t' ∷ codes "lw $t1 cst0 ")
    ∷ (b'\t' ∷ codes "move $t0 $t1 ")
    ∷ codes "L1: # _y = 0"
    ∷ (b'\t' ∷ codes "lw $t1 _y ")
    ∷ (b'\t' ∷ codes "lw $t2 cst1 ")
    ∷ (b'\t' ∷ codes "move $t1 $t2 ")
    ∷ codes "L2: # jump to the true statements"
    ∷ (b'\t' ∷ codes "lw $t3 cst3 ")
    ∷ (b'\t' ∷ codes "blt $t1 $t3 L7")
    ∷ codes "L3: # jump to the false statements"
    ∷ (b'\t' ∷ codes "b L12  ")
    ∷ codes "L4: # "
    ∷ (b'\t' ∷ codes "lw $t3 tmp0 ")
    ∷ (b'\t' ∷ codes "lw $t2 cst5 ")
    ∷ (b'\t' ∷ codes "add $t3 $t1 $t2")
    ∷ codes "L5: # _y = 0"
    ∷ (b'\t' ∷ codes "move $t1 $t3 ")
    ∷ codes "L6: # jump to the condition of for control"
    ∷ (b'\t' ∷ codes "b L2  ")
    ∷ codes "L7: # jump to the true statements"
    ∷ (b'\t' ∷ codes "lw $t1 cst8 ")
    ∷ (b'\t' ∷ codes "bgt $t0 $t1 L8")
    ∷ codes "L8: # jump to the false statements"
    ∷ (b'\t' ∷ codes "b L10  ")
    ∷ codes "L9: # "
    ∷ (b'\t' ∷ codes "li $v0 1 ")
    ∷ (b'\t' ∷ codes "move $a0 $t0 ")
    ∷ (b'\t' ∷ codes "syscall   ")
    ∷ codes "L10: # jump to the condition of while control"
    ∷ (b'\t' ∷ codes "b L6  ")
    ∷ codes "L11: # jump to the iteration of for control"
    ∷ (b'\t' ∷ codes "b L4  ")
    ∷ codes "L12: # "
    ∷ (b'\t' ∷ codes "jal $ra  ")
    ∷ [])

for_loop-output : output_of for_loop ≡ some for_loop_assembler
unfolding every_part
for_loop-output = refl
