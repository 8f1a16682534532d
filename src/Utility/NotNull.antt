-- ===== src/Utility/NotNull.antt =====
-- src/utility.c: what the functions around the allocator return.
use matcc.Prelude.{ℕ, ◌≡◌, ◌≢◌, false, Option, none, some, arith, ◌==◌}
use matcc.Utility.{
  Ended, returns, check_pointer, safe_malloc, safe_calloc, safe_realloc, safe_strdup,
}

module _ {Pointer Memory : Type 0} where
  -- The call ends the process or returns a pointer that is not NULL.
  abbrev NotNull : Ended (Option Pointer × Memory) → Type 0
  NotNull r = (memory : Memory) → r ≢ returns (none, memory)

  check_pointer-NotNull : (p : Option Pointer) (m : Memory) → NotNull (check_pointer p m)
  unfolding check_pointer
  check_pointer-NotNull none m memory e = cc
  check_pointer-NotNull (some p) m memory e = cc

  -- Whatever the allocator does: none of the four returns NULL, where a size that is not 0 is asked
  -- for and a text is given.
  safe-NotNull :
      (malloc : ℕ → Memory → Option Pointer × Memory)
      (calloc : ℕ → ℕ → Memory → Option Pointer × Memory)
      (realloc : Option Pointer → ℕ → Memory → Option Pointer × Memory)
      (strdup : Pointer → Memory → Option Pointer × Memory) (ptr : Option Pointer) (s : Pointer)
      (nmemb size : ℕ) (m : Memory)
      → size ≢ 0
      → NotNull (safe_malloc malloc size m)
        × NotNull (safe_calloc calloc nmemb size m)
        × NotNull (safe_realloc realloc ptr size m)
        × NotNull (safe_strdup strdup (some s) m)
  unfolding safe_malloc safe_calloc safe_realloc safe_strdup
  safe-NotNull malloc calloc realloc strdup ptr s nmemb size m h =
      let positive : size == 0 ≡ false = ground arith in
      let r = realloc ptr size m in
      (
        check_pointer-NotNull (malloc size m).0 (malloc size m).1,
        check_pointer-NotNull (calloc nmemb size m).0 (calloc nmemb size m).1,
        rw positive (check_pointer-NotNull r.0 r.1),
        check_pointer-NotNull (strdup s m).0 (strdup s m).1,
      )
