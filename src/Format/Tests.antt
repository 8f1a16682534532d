-- ===== src/Format/Tests.antt =====
-- Printed numbers.
use matcc.Prelude.{◌-◌, ◌^◌, ◌≡◌, refl, codes}
use matcc.Format.{decimal, format_int, snprintf}
use matcc.Format.Decimal.{value, value-decimal}

decimal_runs : decimal 1024 ≡ codes "1024"
unfolding decimal
decimal_runs = refl

-- The largest `unsigned int` is printed by `%d` as -1.
format_int_wraps : format_int (2 ^ 32 - 1) ≡ codes "-1"
unfolding format_int
format_int_wraps = refl

snprintf_cuts : snprintf 4 (codes "abcdef") ≡ codes "abc"
unfolding snprintf
snprintf_cuts = refl

value-decimal_example : value 0 (decimal 207) ≡ 207
value-decimal_example = value-decimal 207
