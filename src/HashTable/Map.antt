-- ===== src/HashTable/Map.antt =====
-- src/hash_table.c: `view` is the map that a table stands for; the operations are related to it.
use matcc.Prelude.{
  ℕ, ◌%◌, ◌<◌, ◌≡◌, refl, ◌∙◌, ap, Bool, true, false, Option, none, some, [], ◌∷◌, flatten, ok,
  Returns, Text, str_eq, str_eq_iff, length, get_or, set, Bool-cases, Option-cases, inl, inr, arith,
  ◌==◌, if◌then◌else◌, ltb, length-set, length-replicate, get_elem?-get_or, get_or-set,
  get_or-replicate,
}
use matcc.HashTable.{
  HashTable, HtError, ht_ok, ht_already_exists, ht_not_found, Chain, hash_sum, keycmp_zero, dohash,
  find, bucket_at, init, got, get, exists, put, is_not_found,
}
use matcc.HashTable.Chains.{Homes, Homes-replicate, Homes-get_or, Homes-set, find-flatten}

module _ {ℓ} {V : Type ℓ} where
  pub record IsValid (ht : HashTable V) : Type ℓ where
    pub positive : 0 < ht.size
    pub width : length ht.buckets ≡ ht.size
    pub homes : Homes ht.size 0 ht.buckets

  abbrev pub lookup_error : Option V → HtError
  lookup_error none = ht_not_found
  lookup_error (some _) = ht_ok

  abbrev pub exists_error : Option V → HtError
  exists_error none = ht_not_found
  exists_error (some _) = ht_ok

  abbrev pub is_some : Option V → Bool
  is_some none = false
  is_some (some _) = true

  -- The chain that `ht_dohash` selects.
  abbrev pub chain_of : HashTable V → Text → Chain V
  chain_of ht key = get_or ht.buckets (hash_sum key 0 % ht.size) []

  -- The map that a table stands for.
  unfoldable pub view : HashTable V → Text → Option V
  view ht key = find key (chain_of ht key)

  module _ (ht : HashTable V) (key : Text) (valid : IsValid ht) where
    pub dohash-ok : dohash ht key ≡ ok (hash_sum key 0 % ht.size)
    unfolding dohash
    dohash-ok = ground (arith, valid.positive)

    pub dohash-lt-size : hash_sum key 0 % ht.size < ht.size
    dohash-lt-size = grind (arith, valid.positive)

    bucket_at-ok : bucket_at ht.buckets (hash_sum key 0 % ht.size) ≡ ok (chain_of ht key)
    unfolding bucket_at
    bucket_at-ok = rw (
      get_elem?-get_or ht.buckets (hash_sum key 0 % ht.size) []
          (omega (arith, dohash-lt-size, valid.width)),
      bucket_at,
    )

    -- `ht_get` does not fault. It returns the value of the key in the map, or NULL, and its error
    -- says which.
    pub get-view :
        get ht key ≡ ok (view ht key, record ht { last_error = lookup_error (view ht key) })
    unfolding get got view
    get-view =
        rw (dohash-ok, bucket_at-ok)
          (elim (Option-cases (find key (chain_of ht key))) [ inl e ↦ rw e | inr (v, e) ↦ rw e ])

    -- `ht_exists` tests whether the map has the key, and leaves the map.
    pub exists-view :
        exists ht key
        ≡ ok (is_some (view ht key), record ht { last_error = exists_error (view ht key) })
    unfolding exists is_not_found
    exists-view =
        rw get-view (elim (Option-cases (view ht key)) [ inl e ↦ rw e | inr (v, e) ↦ rw e ])

    -- `ht_put` of a key that is there changes nothing but the error.
    pub put-already_exists :
        (v w : V)
        → view ht key ≡ some w
        → put ht key v ≡ ok (record ht { last_error = ht_already_exists })
    unfolding put
    put-already_exists v w e = rw (dohash-ok, exists-view, e, bucket_at-ok)

    -- `ht_put` of a new key.
    put-ok :
        (v : V)
        → view ht key ≡ none
        → put ht key v
          ≡ ok (record ht {
            buckets = set ht.buckets (hash_sum key 0 % ht.size) ((key, v) ∷ chain_of ht key);
            last_error = ht_ok;
          })
    unfolding put
    put-ok v e = rw (dohash-ok, exists-view, e, bucket_at-ok)

    module _ (v : V) (new : view ht key ≡ none) where
      put-Homes :
          Homes ht.size 0 (set ht.buckets (hash_sum key 0 % ht.size) ((key, v) ∷ chain_of ht key))
      unfolding view
      put-Homes =
          let i = hash_sum key 0 % ht.size in
          Homes-set ht.size 0 i i ht.buckets ((key, v) ∷ chain_of ht key) (omega arith)
            (refl, new, Homes-get_or ht.size 0 i i ht.buckets (omega arith) valid.homes) valid.homes

      put-view :
          (q : Text)
          → find q (
              get_or
                (set ht.buckets (hash_sum key 0 % ht.size) ((key, v) ∷ chain_of ht key))
                (hash_sum q 0 % ht.size)
                [])
            ≡ (if str_eq key q then some v else view ht q)
      unfolding view find keycmp_zero
      put-view q =
          let i = hash_sum key 0 % ht.size in
          let j = hash_sum q 0 % ht.size in
          let c = (key, v) ∷ chain_of ht key in
          let same = str_eq_iff key q in
          rw (get_or-set ht.buckets i j c [] (omega (arith, dohash-lt-size, valid.width)))
            (elim (Bool-cases (i == j)) [
              | inl e ↦ rw e (
                  ap (λ t. if str_eq key q then some v else find q (get_or ht.buckets t []))
                    (ground arith))
              | inr e ↦ rw e (elim (Bool-cases (str_eq key q)) [
                | inl eq ↦ absurd (ground (arith, str_eq_iff key q))
                | inr ne ↦ rw ne
              ])
            ])

      -- `ht_put` of a new key keeps the table valid, reports no error, adds the binding to the map
      -- and nothing else, and puts one bucket in front of the chain of the key.
      pub put-Extends : Returns (put ht key v) λ ht'.
          IsValid ht'
          × (ht'.last_error ≡ ht_ok)
          × ((q : Text) → view ht' q ≡ (if str_eq key q then some v else view ht q))
          × (ht'.buckets ≡ set ht.buckets (hash_sum key 0 % ht.size) ((key, v) ∷ chain_of ht key))
      unfolding view
      put-Extends = (
        record ht {
          buckets = set ht.buckets (hash_sum key 0 % ht.size) ((key, v) ∷ chain_of ht key);
          last_error = ht_ok;
        },
        put-ok v new,
        (
          record {
            positive = valid.positive;
            width =
                length-set ht.buckets (hash_sum key 0 % ht.size) ((key, v) ∷ chain_of ht key)
                ∙ valid.width;
            homes = put-Homes;
          },
          refl,
          put-view,
          refl,
        ),
      )

  -- `ht_init` of at least one chain is the empty map.
  pub init-IsValid :
      (ht : HashTable V) (size : ℕ)
      → 0 < size
      → IsValid (init ht size)
        × ((init ht size).last_error ≡ ht_ok)
        × ((q : Text) → view (init ht size) q ≡ none)
  unfolding init view find
  init-IsValid ht size h =
      let large : ltb size 1 ≡ false = ground arith in
      rw large (
        record {
          positive = h;
          width = length-replicate size [];
          homes = Homes-replicate V size 0 size;
        },
        refl,
        λ q. ap (find q) (get_or-replicate size (hash_sum q 0 % size) []),
      )

  -- The loop `for_each_symbol` visits the buckets of the chains one behind the other. Read as an
  -- association list, what it visits is the map: the value that it meets under a key is the one
  -- that `ht_get` returns.
  pub find-entries :
      (ht : HashTable V) (q : Text) → IsValid ht → find q (flatten ht.buckets) ≡ view ht q
  unfolding view
  find-entries ht q valid =
      find-flatten ht.size 0 (hash_sum q 0 % ht.size) q ht.buckets valid.homes (omega arith)
