-- ===== src/Utility.antt =====
-- src/utility.c: the functions around the allocator and around files. `malloc` and its like are
-- parameters: they change a memory of their own and return a pointer, which can be NULL.
mod NotNull
use matcc.Prelude.{
  ℕ, ◌≡◌, refl, ◌⊎◌, inl, inr, Bool, true, false, not, Option, none, some, Text, ◌==◌,
  if◌then◌else◌,
}

-- How a call ends: `bad_pointer` is the message of `check_pointer`, `error_opening` that of
-- `safe_fopen`, both with the end of the process.
pub data Ended (A : Type 0) : Type 0 where
  returns : A → Ended A
  bad_pointer : Ended A
  error_opening : Text → Ended A

module _ {Pointer Memory : Type 0} where
  unfoldable pub check_pointer : Option Pointer → Memory → Ended (Option Pointer × Memory)
  check_pointer none memory = bad_pointer
  check_pointer (some p) memory = returns (some p, memory)

  unfoldable pub safe_malloc :
      (ℕ → Memory → Option Pointer × Memory) → ℕ → Memory → Ended (Option Pointer × Memory)
  unfolding check_pointer
  safe_malloc malloc size memory =
      let (ptr, memory') = malloc size memory in check_pointer ptr memory'

  unfoldable pub safe_calloc :
      (ℕ → ℕ → Memory → Option Pointer × Memory) → ℕ → ℕ → Memory → Ended (Option Pointer × Memory)
  unfolding check_pointer
  safe_calloc calloc nmemb size memory =
      let (ptr, memory') = calloc nmemb size memory in check_pointer ptr memory'

  -- Without a size there may be no block.
  unfoldable pub safe_realloc :
      (Option Pointer → ℕ → Memory → Option Pointer × Memory)
      → Option Pointer
      → ℕ
      → Memory
      → Ended (Option Pointer × Memory)
  unfolding check_pointer
  safe_realloc realloc ptr size memory =
      let (res, memory') = realloc ptr size memory in
      if not (size == 0) then check_pointer res memory' else returns (res, memory')

  unfoldable pub safe_free : (Pointer → Memory → Memory) → Option Pointer → Memory → Memory
  safe_free free none memory = memory
  safe_free free (some ptr) memory = free ptr memory

  unfoldable pub safe_strdup :
      (Pointer → Memory → Option Pointer × Memory)
      → Option Pointer
      → Memory
      → Ended (Option Pointer × Memory)
  unfolding check_pointer
  safe_strdup strdup none memory = returns (none, memory)
  safe_strdup strdup (some s) memory =
      let (ptr, memory') = strdup s memory in check_pointer ptr memory'

module _ {File : Type 0} where
  unfoldable pub safe_fopen : (Text → Text → Option File) → Text → Text → Ended File
  safe_fopen fopen path mode = elim (fopen path mode) [
    | none ↦ error_opening path
    | some f ↦ returns f
  ]

  unfoldable pub safe_fclose : (File → ℕ) → Option File → ℕ
  safe_fclose fclose none = 0
  safe_fclose fclose (some fp) = fclose fp
