-- ===== src/Format.antt =====
-- What the compiler uses of `snprintf`: `%s` and `%d` into a buffer of a fixed size.
pub mod Decimal
mod Tests
use matcc.Prelude.{
  ℕ, zero, suc, ◌+◌, ◌-◌, ◌/◌, ◌%◌, ◌^◌, List, [], ◌∷◌, ◌++◌, Text, take, ltb, if◌then◌else◌,
  length, replicate,
}

-- The digits of `n`, at most `fuel` of them.
pub digits : ℕ → ℕ → Text
digits zero n = []
digits (suc fuel) n =
    let front = digits fuel (n / 10) in
    if ltb n 10 then (48 + n) ∷ [] else front ++ (48 + n % 10) ∷ []

-- `%d` of a number that is not negative.
unfoldable pub decimal : ℕ → Text
unfolding digits
decimal n = digits (suc n) n

-- `%d` of the 32-bit pattern `n`: an `unsigned int` that is passed for an `int` is read as one.
unfoldable pub format_int : ℕ → Text
unfolding decimal
format_int n = if ltb n (2 ^ 31) then decimal n else b'-' ∷ decimal (2 ^ 32 - n)

-- What `snprintf(buffer, size, ...)` leaves in the buffer, for `size > 0`: the text is cut to
-- `size - 1` bytes.
unfoldable pub snprintf : ℕ → Text → Text
snprintf size text = take (size - 1) text

-- `%6s` and its like: blanks in front, to a text of at least `width` bytes.
unfoldable pub pad : ℕ → Text → Text
pad width text = replicate (width - length text) b' ' ++ text

-- `%04u`: zeros in front.
unfoldable pub zero_pad : ℕ → ℕ → Text
unfolding decimal
zero_pad width n = replicate (width - length (decimal n)) b'0' ++ decimal n
