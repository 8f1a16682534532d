-- ===== src/HashTable/Tests.antt =====
-- The table at the names of a small program, and the theorems at it.
use matcc.Prelude.{
  ℕ, ◌≡◌, refl, Option, none, some, [], ◌∷◌, Outcome, ok, ◌>>=◌, Returns, Text, codes, str_eq,
  flatten, set, ◌%◌, arith, if◌then◌else◌,
}
use matcc.HashTable.{
  HashTable, HtError, ht_ok, ht_bad_size, ht_already_exists, ht_not_found, keycmp_zero, char_value,
  hash_sum, is_not_found, dohash, find, bucket_at, init, got, get, exists, put, chain_size,
  buckets_size, ht_size, take_last_error,
}
use matcc.HashTable.Map.{IsValid, view, chain_of, put-Extends, init-IsValid, find-entries}

program : Unit {0}
unfolding keycmp_zero char_value hash_sum is_not_found dohash find bucket_at init got get exists put
    chain_size buckets_size ht_size take_last_error str_eq view
program = tt

-- The block of the global table before `ht_init`.
abbrev zeroed : HashTable ℕ
zeroed = record { size = 0; buckets = []; last_error = ht_ok }

abbrev empty : HashTable ℕ
empty = init zeroed 16

abbrev a_name : Text
a_name = codes "_a"

abbrev q_name : Text
q_name = codes "_q"

init_bad_size : (init zeroed 0).last_error ≡ ht_bad_size
unfolding program
init_bad_size = refl

-- "_a" and "_q" hash to one chain of the sixteen.
abbrev session : Outcome (Option ℕ × Option ℕ × Option ℕ × HtError × HtError × ℕ)
session = do
  one ← put empty a_name 7
  two ← put one q_name 8
  three ← put two a_name 9
  (a, _) ← get three a_name
  (q, _) ← get three q_name
  (x, four) ← get three (codes "_x")
  ok (a, q, x, three.last_error, four.last_error, ht_size four)

session_runs : session ≡ ok (some 7, some 8, none, ht_already_exists, ht_not_found, 2)
unfolding program
session_runs = refl

empty-IsValid : IsValid empty × (empty.last_error ≡ ht_ok) × ((q : Text) → view empty q ≡ none)
empty-IsValid = init-IsValid zeroed 16 (omega arith)

put-Extends_example : Returns (put empty a_name 7) λ ht'.
    IsValid ht'
    × (ht'.last_error ≡ ht_ok)
    × ((q : Text) → view ht' q ≡ (if str_eq a_name q then some 7 else view empty q))
    × (ht'.buckets
        ≡ set empty.buckets (hash_sum a_name 0 % empty.size) ((a_name, 7) ∷ chain_of empty a_name))
put-Extends_example = put-Extends empty a_name empty-IsValid.0 7 (empty-IsValid.2 a_name)

abbrev filled : HashTable ℕ
filled = record { size = 1; buckets = ((a_name, 7) ∷ []) ∷ []; last_error = ht_ok }

filled-IsValid : IsValid filled
unfolding program
filled-IsValid = record { positive = omega arith; width = refl; homes = ((refl, refl, tt), tt) }

find-entries_example : find a_name (flatten filled.buckets) ≡ view filled a_name
find-entries_example = find-entries filled a_name filled-IsValid
