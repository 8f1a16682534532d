-- ===== src/HashTable.antt =====
-- src/hash_table.c and src/hash_table.h: a chained hash table from C strings to symbols. The table
-- does not look into its values, so their type is a parameter.
-- A chain is the list of its buckets from `buckets[hash]` on; a key is copied when it is put, so a
-- bucket owns its key. `ht_free` is in Release, and
-- `ht_dump` only prints.
pub mod Chains
pub mod Map
pub mod Size
mod Tests
use matcc.Prelude.{
  ℕ, suc, ◌+◌, ◌-◌, ◌%◌, ◌^◌, Bool, true, false, Option, none, some, List, [], ◌∷◌, Outcome, ok,
  fault, ◌>>=◌, Text, str_eq, length, get_elem?, set, replicate, ltb, ◌==◌, not, if◌then◌else◌,
}

pub data HtError : Type 0 where
  ht_ok ht_bad_size ht_already_exists ht_not_found : HtError

abbrev pub Chain {ℓ} : Type ℓ → Type ℓ
Chain V = List (Text × V)

pub record HashTable {ℓ} (V : Type ℓ) : Type ℓ where
  pub size : ℕ
  pub buckets : List (Chain V)
  pub last_error : HtError

-- `ht_keycmp(a, b) == 0`
keycmp_zero : Text → Text → Bool
keycmp_zero key1 key2 = str_eq key1 key2

-- A `char` as it is added to a `size_t`: `char` is signed, so a byte from 128 on is extended.
char_value : ℕ → ℕ
char_value c = if ltb c 128 then c else 2 ^ 64 - 256 + c

-- The loop of `ht_dohash`.
unfoldable pub hash_sum : Text → ℕ → ℕ
unfolding char_value
hash_sum [] sum = sum
hash_sum (c ∷ key) sum = hash_sum key ((sum + char_value c) % 2 ^ 64)

unfoldable pub is_not_found : HtError → Bool
is_not_found ht_not_found = true
is_not_found ht_ok = false
is_not_found ht_bad_size = false
is_not_found ht_already_exists = false

module _ {ℓ} {V : Type ℓ} where
  unfoldable pub dohash : HashTable V → Text → Outcome ℕ
  dohash ht key = if ht.size == 0 then fault else ok (hash_sum key 0 % ht.size)

  -- The walk along one chain.
  unfoldable pub find : Text → Chain V → Option V
  unfolding keycmp_zero
  find key [] = none
  find key ((k, v) ∷ chain) = if keycmp_zero k key then some v else find key chain

  -- `ht->buckets[hash]`
  unfoldable pub bucket_at : List (Chain V) → ℕ → Outcome (Chain V)
  bucket_at buckets hash = elim (get_elem? buckets hash) [ none ↦ fault | some chain ↦ ok chain ]

  unfoldable pub init : HashTable V → ℕ → HashTable V
  init ht size =
      if ltb size 1
      then record ht { last_error = ht_bad_size }
      else record { size = size; buckets = replicate size []; last_error = ht_ok }

  -- The return of `ht_get` after the walk.
  unfoldable pub got : HashTable V → Option V → Option V × HashTable V
  got ht (some v) = (some v, record ht { last_error = ht_ok })
  got ht none = (none, record ht { last_error = ht_not_found })

  unfoldable pub get : HashTable V → Text → Outcome (Option V × HashTable V)
  get ht key = do
    hash ← dohash ht key
    chain ← bucket_at ht.buckets hash
    ok (got ht (find key chain))

  unfoldable pub exists : HashTable V → Text → Outcome (Bool × HashTable V)
  exists ht key = do
    (_, ht') ← get ht key
    ok (
        if not (is_not_found ht'.last_error)
        then (true, record ht' { last_error = ht_ok })
        else (false, ht'))

  unfoldable pub put : HashTable V → Text → V → Outcome (HashTable V)
  put ht key value = do
    hash ← dohash ht key
    (found, ht') ← exists ht key
    chain ← bucket_at ht'.buckets hash
    ok (
        if found then record ht' { last_error = ht_already_exists } else record ht' {
          buckets = set ht'.buckets hash ((key, value) ∷ chain);
          last_error = ht_ok;
        })

  -- The inner and the outer loop of `ht_size`, and `for_each_symbol`.
  chain_size : Chain V → ℕ → ℕ
  chain_size [] size = size
  chain_size (_ ∷ chain) size = chain_size chain (size + 1)

  buckets_size : List (Chain V) → ℕ → ℕ
  unfolding chain_size
  buckets_size [] size = size
  buckets_size (chain ∷ rest) size = buckets_size rest (chain_size chain size)

  pub ht_size : HashTable V → ℕ
  ht_size ht = buckets_size ht.buckets 0

  -- `ht_last_error` reads the error and resets it.
  unfoldable pub take_last_error : HashTable V → HtError × HashTable V
  take_last_error ht = (ht.last_error, record ht { last_error = ht_ok })
