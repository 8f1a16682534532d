-- ===== src/HashTable/Chains.antt =====
-- src/hash_table.c: chains and the array of chains, with the chain that a key belongs to.
use matcc.Prelude.{
  ℕ, zero, suc, ◌+◌, ◌%◌, ◌<◌, ◌≡◌, ◌≢◌, refl, none, some, List, [], ◌∷◌, ◌++◌, flatten, Text,
  str_eq_iff, get_or, set, replicate, arith,
}
use matcc.HashTable.{Chain, hash_sum, find}

module _ {ℓ} {V : Type ℓ} where
  -- The keys of the chain hash to `i`, and none comes twice.
  abbrev pub Home : ℕ → ℕ → Chain V → Type ℓ
  Home n i [] = Unit
  Home n i ((k, v) ∷ chain) = (hash_sum k 0 % n ≡ i) × (find k chain ≡ none) × Home n i chain

  -- Chain `j` of the array is the home of the keys that hash to `i + j`.
  abbrev pub Homes : ℕ → ℕ → List (Chain V) → Type ℓ
  Homes n i [] = Unit
  Homes n i (chain ∷ rest) = Home n i chain × Homes n (suc i) rest

  pub Homes-get_or :
      (n i j m : ℕ) (bs : List (Chain V)) → i + j ≡ m → Homes n i bs → Home n m (get_or bs j [])
  Homes-get_or n i j m [] e h = tt
  Homes-get_or n i zero m (c ∷ bs) e h = let e' : i ≡ m = omega arith in rw e' at (h.0)
  Homes-get_or n i (suc j) m (c ∷ bs) e h = Homes-get_or n (suc i) j m bs (omega arith) h.1

  pub Homes-set :
      (n i j m : ℕ) (bs : List (Chain V)) (c : Chain V)
      → i + j ≡ m
      → Home n m c
      → Homes n i bs
      → Homes n i (set bs j c)
  Homes-set n i j m [] c e p h = tt
  Homes-set n i zero m (b ∷ bs) c e p h = let e' : m ≡ i = omega arith in (rw e' at p, h.1)
  Homes-set n i (suc j) m (b ∷ bs) c e p h = (h.0, Homes-set n (suc i) j m bs c (omega arith) p h.1)

  -- A key is not found in a chain that is not its home.
  find-Home :
      (n i : ℕ) (k : Text) (c : Chain V) → Home n i c → hash_sum k 0 % n ≢ i → find k c ≡ none
  unfolding find
  find-Home n i k [] h ne = refl
  find-Home n i k ((j, v) ∷ c) h ne = ground (arith, str_eq_iff j k, find-Home n i k c h.2 ne)

  pub find-append :
      (k : Text) (a b : Chain V)
      → find k (a ++ b) ≡ elim (find k a) [ none ↦ find k b | some v ↦ some v ]
  unfolding find
  find-append k [] b = refl
  find-append k ((j, v) ∷ a) b = ground (arith, find-append k a b)

  find-flatten_below :
      (n i : ℕ) (k : Text) (bs : List (Chain V))
      → Homes n i bs
      → hash_sum k 0 % n < i
      → find k (flatten bs) ≡ none
  unfolding flatten find
  find-flatten_below n i k [] h lt = refl
  find-flatten_below n i k (c ∷ bs) h lt = rw (
    find-append k c (flatten bs),
    find-Home n i k c h.0 (omega arith),
    find-flatten_below n (suc i) k bs h.1 (omega arith),
  )

  -- The buckets of all chains, one behind the other, hold the same map as the lookup by hash.
  pub find-flatten :
      (n i j : ℕ) (k : Text) (bs : List (Chain V))
      → Homes n i bs
      → i + j ≡ hash_sum k 0 % n
      → find k (flatten bs) ≡ find k (get_or bs j [])
  unfolding flatten find
  find-flatten n i j k [] h e = refl
  find-flatten n i zero k (c ∷ bs) h e =
      ground (arith, find-append k c (flatten bs), find-flatten_below n (suc i) k bs h.1)
  find-flatten n i (suc j) k (c ∷ bs) h e = ground (
    arith,
    find-append k c (flatten bs),
    find-Home n i k c h.0,
    find-flatten n (suc i) j k bs h.1,
  )

pub Homes-replicate {ℓ} : (V : Type ℓ) (n i k : ℕ) → Homes {V = V} n i (replicate k [])
Homes-replicate V n i zero = tt
Homes-replicate V n i (suc k) = (tt, Homes-replicate V n (suc i) k)
