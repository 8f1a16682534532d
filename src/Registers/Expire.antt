-- ===== src/Registers/Expire.antt =====
-- src/mips/register_allocation.c: `expire_old_symbols`.
use matcc.Prelude.{
  length-set, ℕ, zero, suc, ◌+◌, ◌<◌, ◌≡◌, refl, ◌∙◌, inl, inr, Bool, false, none, some, List, ok,
  ◌>>=◌, Returns, length, set, arith, Bool-cases, ltb, ◌==◌,
}
use matcc.Types.{Ptr, Point, Symbol}
use matcc.Registers.{
  Allocator, free_register, sort_active_symbols, end_of, expired, expire_one, expire_loop,
  expire_old_symbols, element, symbol_of, point_ltb,
}
use matcc.Registers.Pool.{
  occurrences, IsPermuting, IsPool, get_elem?-lt, occurrences-get_elem?, remove-ok, get_elem?-set,
  free_count-free,
}
use matcc.Registers.Steps.{registers-differ, Shrinks}

module _ (qsort : (Ptr → Point) → List Ptr → List Ptr) (law : IsPermuting qsort) where
  expire_one-IsPool :
      (j : ℕ) (s : Allocator)
      → j < length s.active_symbols
      → IsPool s
      → Returns (expire_one qsort j s) λ s'.
        IsPool s' × Shrinks s s' × (suc (length s'.active_symbols) ≡ length s.active_symbols)
  unfolding expire_one free_register sort_active_symbols
  expire_one-IsPool j s lt is =
      let (p, at_j) = get_elem?-lt s.active_symbols j lt in
      let lives = occurrences-get_elem? s.active_symbols j p at_j in
      let (symbol, reg, here, names, held) = is.holds p lives in
      let (rest, run, (size, count)) = remove-ok s.active_symbols j p at_j in
      let active = qsort (end_of s.symbols) rest in
      let same = law.same (end_of s.symbols) rest in
      (
        record s { registers = set s.registers reg none; active_symbols = active },
        rw (◌>>=◌, element, symbol_of, at_j, here, names, held, run),
        (
          record {
            balance = omega (
              arith,
              is.balance,
              free_count-free s.registers reg p held,
              law.size (end_of s.symbols) rest,
              size,
            );
            width = length-set s.registers reg none ∙ is.width;
            once = λ q. omega (arith, same q, count q, is.once q);
            holds = λ q h.
                let before : 0 < occurrences q s.active_symbols = omega (arith, same q, count q) in
                let apart : (p == q) ≡ false = elim (Bool-cases (p == q)) [
                  | inr other ↦ other
                  | inl e ↦ absurd (ground (arith, same q, count q, is.once q))
                ] in
                let (symbol', reg', here', names', held') = is.holds q before in
                (
                  symbol',
                  reg',
                  here',
                  names',
                  rw
                      (
                        get_elem?-set s.registers reg reg' none (some p) held,
                        registers-differ s.registers reg reg' p q held held' apart,
                      )
                      held',
                );
          },
          record {
            symbols = refl;
            fewer = λ q. omega (arith, same q, count q);
            size = omega (arith, law.size (end_of s.symbols) rest, size);
          },
          omega (arith, law.size (end_of s.symbols) rest, size),
        ),
      )

  expired-ok :
      (j : ℕ) (start : Point) (s : Allocator)
      → j < length s.active_symbols
      → IsPool s
      → (b : Bool) × (expired qsort j start s ≡ ok b)
  unfolding expired
  expired-ok j start s lt is =
      let (p, at_j) = get_elem?-lt s.active_symbols j lt in
      let (symbol, _, here, _, _) = is.holds p (occurrences-get_elem? s.active_symbols j p at_j) in
      (point_ltb symbol.end_point start, rw (◌>>=◌, element, symbol_of, at_j, here))

  expire_loop-IsPool :
      (fuel j : ℕ) (start : Point) (s : Allocator)
      → length s.active_symbols < fuel
      → IsPool s
      → Returns (expire_loop qsort fuel j start s) λ s'. IsPool s' × Shrinks s s'
  unfolding expire_loop
  expire_loop-IsPool zero j start s lt is = absurd (omega arith)
  expire_loop-IsPool (suc fuel) j start s lt is =
      let stay : Shrinks s s = record {
        symbols = refl;
        fewer = λ p. omega arith;
        size = omega arith;
      } in
      elim (Bool-cases (ltb j (length s.active_symbols))) [
        | inr out ↦ (s, rw out refl, (is, stay))
        | inl inside ↦
            let bound : j < length s.active_symbols = ground arith in
            let (b, test) = expired-ok j start s bound is in
            elim (Bool-cases b) [
              | inr f ↦ (s, rw (inside, test, f) refl, (is, stay))
              | inl t ↦
                  let (s1, run, (is1, shrinks, size)) = expire_one-IsPool j s bound is in
                  let (s2, run2, (is2, shrinks2)) =
                    expire_loop-IsPool fuel (j + 1) start s1 (omega arith) is1 in
                  (
                    s2,
                    rw (inside, test, t, run) run2,
                    (
                      is2,
                      record {
                        symbols = shrinks2.symbols ∙ shrinks.symbols;
                        fewer = λ p. omega (arith, shrinks.fewer p, shrinks2.fewer p);
                        size = omega (arith, shrinks.size, shrinks2.size);
                      },
                    ),
                  )
            ]
      ]

  module _ (p : Ptr) (symbol : Symbol) (s : Allocator) (is : IsPool s)
      (here : s.symbols.cell p ≡ some symbol) where
    pub expire_old_symbols-IsPool :
        Returns (expire_old_symbols qsort p s) λ s'. IsPool s' × Shrinks s s'
    unfolding expire_old_symbols
    expire_old_symbols-IsPool =
        let (s', run, done) =
          expire_loop-IsPool (length s.active_symbols + 1) 0 symbol.start_point s (omega arith)
            is in
        (s', rw (◌>>=◌, symbol_of, here, run), done)
