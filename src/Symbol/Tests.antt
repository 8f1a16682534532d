-- ===== src/Symbol/Tests.antt =====
-- src/symbol.c: names of symbols at small numbers, and a name that is too long.
use matcc.Prelude.{◌≡◌, refl, codes, arith}
use matcc.Format.{decimal, format_int, snprintf}
use matcc.Symbol.{user_name, temp_name, constant_name}
use matcc.Symbol.Names.{variable, temporary, name_of, name_of-injective}

program : Unit {0}
unfolding user_name temp_name constant_name snprintf format_int decimal
program = tt

temporary_name : name_of (temporary 12) ≡ codes "tmp12"
unfolding program
temporary_name = refl

-- The counter is an `unsigned int`, which `%d` prints as an `int`.
large_count : name_of (temporary 4294967295) ≡ codes "tmp-1"
unfolding program
large_count = refl

-- Two names of 32 bytes that differ in the last one are one name in the table.
same_name :
    user_name (codes "a_variable_with_a_long_name_is_0")
    ≡ user_name (codes "a_variable_with_a_long_name_is_1")
unfolding program
same_name = refl

name_of-injective_example : variable (codes "i") ≡ variable (codes "i")
unfolding program
name_of-injective_example =
    name_of-injective (variable (codes "i")) (variable (codes "i")) (omega arith) (omega arith) refl
