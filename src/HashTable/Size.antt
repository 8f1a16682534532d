-- ===== src/HashTable/Size.antt =====
-- src/hash_table.c: `ht_size`.
use matcc.Prelude.{
  ℕ, zero, suc, ◌+◌, ◌%◌, ◌<◌, ◌≡◌, ap, none, List, [], ◌∷◌, flatten, Returns, Text, length, get_or,
  set, arith, length-append,
}
use matcc.HashTable.{HashTable, Chain, hash_sum, put, chain_size, buckets_size, ht_size}
use matcc.HashTable.Map.{IsValid, view, chain_of, put-Extends, dohash-lt-size}

module _ {ℓ} {V : Type ℓ} where
  chain_size-length : (c : Chain V) (n : ℕ) → chain_size c n ≡ n + length c
  unfolding chain_size
  chain_size-length [] n = omega arith
  chain_size-length (b ∷ c) n = omega (arith, chain_size-length c (n + 1))

  buckets_size-length : (bs : List (Chain V)) (n : ℕ) → buckets_size bs n ≡ n + length (flatten bs)
  unfolding buckets_size flatten
  buckets_size-length [] n = omega arith
  buckets_size-length (c ∷ bs) n = omega (
    arith,
    buckets_size-length bs (chain_size c n),
    chain_size-length c n,
    length-append c (flatten bs),
  )

  -- The two nested loops count the buckets that `for_each_symbol` visits.
  pub ht_size-length : (ht : HashTable V) → ht_size ht ≡ length (flatten ht.buckets)
  unfolding ht_size
  ht_size-length ht = omega (arith, buckets_size-length ht.buckets 0)

  length-flatten-set :
      (bs : List (Chain V)) (i : ℕ) (c : Chain V)
      → i < length bs
      → length (flatten (set bs i c)) + length (get_or bs i []) ≡ length (flatten bs) + length c
  unfolding flatten
  length-flatten-set [] i c h = elim h [ ]
  length-flatten-set (b ∷ bs) zero c h =
      omega (arith, length-append c (flatten bs), length-append b (flatten bs))
  length-flatten-set (b ∷ bs) (suc i) c h = omega (
    arith,
    length-flatten-set bs i c,
    length-append b (flatten bs),
    length-append b (flatten (set bs i c)),
  )

  -- `ht_put` of a new key makes the table one larger.
  pub ht_size-put :
      (ht : HashTable V) (key : Text) (v : V)
      → IsValid ht
      → view ht key ≡ none
      → Returns (put ht key v) λ ht'. ht_size ht' ≡ ht_size ht + 1
  ht_size-put ht key v valid new =
      let (ht', run, (_, _, _, buckets)) = put-Extends ht key valid v new in
      (
        ht',
        run,
        omega (
          arith,
          ht_size-length ht',
          ht_size-length ht,
          ap (λ bs. length (flatten bs)) buckets,
          length-flatten-set ht.buckets (hash_sum key 0 % ht.size) ((key, v) ∷ chain_of ht key)
              (omega (arith, dohash-lt-size ht key valid, valid.width)),
        ),
      )
