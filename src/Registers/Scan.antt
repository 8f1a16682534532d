-- ===== src/Registers/Scan.antt =====
-- src/mips/register_allocation.c: the body of the loop of `linear_scan_register_allocation`.
use matcc.Prelude.{
  length-set, ℕ, get_elem?, some, Bool-cases, ◌+◌, ◌≤◌, ◌<◌, ◌≡◌, refl, sym, ◌∙◌, ap, ◌⊎◌, inl, inr,
  false, none, List, [], ◌∷◌, ok, fault, ◌>>=◌, Returns, length, length-append, set, arith, ltb,
  ◌==◌, Outcome,
}
use matcc.Types.{Ptr, Point, Symbol}
use matcc.Compiler.{write}
use matcc.Registers.{
  Allocator, max_registers, symbol_array_push, assign_register, next_free_register,
  sort_active_symbols, end_of, expire_old_symbols, allocate, element, symbol_of,
}
use matcc.Registers.Pool.{
  occurrences, IsPermuting, IsPool, occurrences-append, get_elem?-set, free_count-take,
  first_free-some, lt-length, first_free-none,
}
use matcc.Registers.Steps.{free-differs, eq_self, Takes, Shrinks, Shrinks-Takes}
use matcc.Registers.Expire.{expire_old_symbols-IsPool}

module _ (qsort : (Ptr → Point) → List Ptr → List Ptr) (law : IsPermuting qsort) where
  module _ (p : Ptr) (symbol : Symbol) (s : Allocator) (is : IsPool s)
      (here : s.symbols.cell p ≡ some symbol) where
    -- The assignment of a free register, with the push of the symbol and the sorting behind it.
    abbrev assigned : Outcome Allocator
    assigned = assign_register (next_free_register s) p s >>= λ s2. ok (
        sort_active_symbols qsort
          (record s2 { active_symbols = symbol_array_push s2.active_symbols p }))

    once_more :
        (q : Ptr)
        → occurrences p s.active_symbols ≡ 0
        → occurrences q s.active_symbols + occurrences q (p ∷ []) ≤ 1
    once_more q new = elim (Bool-cases (p == q)) [
      | inl e ↦
          let equal : p ≡ q = ground arith in
          let none_yet : occurrences q s.active_symbols ≡ 0 =
            ap (λ r. occurrences r s.active_symbols) (sym equal) ∙ new in
          rw e (omega arith)
      | inr other ↦ rw other (omega (arith, is.once q))
    ]

    -- Who holds which register after `p` took a free one.
    taken-holds :
        (reg : ℕ)
        → get_elem? s.registers reg ≡ some none
        → (q : Ptr) → 0 < occurrences q s.active_symbols + occurrences q (p ∷ [])
        → (symbol' : Symbol) × (reg' : ℕ) × ((write s.symbols p
                (record symbol { affected_register = some reg })).cell
              q
            ≡ some symbol')
          × (symbol'.affected_register ≡ some reg')
          × (get_elem? (set s.registers reg (some p)) reg' ≡ some (some q))
    taken-holds reg free q lives = elim (Bool-cases (p == q)) [
      | inl e ↦
          let equal : p ≡ q = ground arith in
          (
            record symbol { affected_register = some reg },
            reg,
            rw e refl,
            refl,
            get_elem?-set s.registers reg reg (some p) none free
                ∙ rw (eq_self reg) (ap (λ r. some (some r)) equal),
          )
      | inr other ↦
          let (symbol', reg', here', names', held') = is.holds q (ground arith) in
          let apart = free-differs s.registers reg reg' q free held' in
          (
            symbol',
            reg',
            rw other here',
            names',
            rw (get_elem?-set s.registers reg reg' (some p) none free, apart) held',
          )
    ]

    assigned-IsPool :
        occurrences p s.active_symbols ≡ 0
        → length s.active_symbols < max_registers
        → Returns assigned λ s'. IsPool s' × Takes p s s'
    unfolding assign_register next_free_register sort_active_symbols
    assigned-IsPool new room =
        let (reg, found, free) = first_free-some s.registers 0 (omega (arith, is.balance)) in
        let index : (0 + reg) ≡ reg = omega arith in
        let once_self : occurrences p (p ∷ []) ≡ 1 = ground arith in
        let h = write s.symbols p (record symbol { affected_register = some reg }) in
        let pushed = symbol_array_push s.active_symbols p in
        let active = qsort (end_of h) pushed in
        let same : (q : Ptr)
            → occurrences q active ≡ occurrences q s.active_symbols + occurrences q (p ∷ []) =
          λ q. law.same (end_of h) pushed q ∙ occurrences-append s.active_symbols (p ∷ []) q in
        (
          record s {
            symbols = h;
            registers = set s.registers reg (some p);
            active_symbols = active;
          },
          rw (◌>>=◌, found ∙ ap some index, element, symbol_of, free, here),
          (
            record {
              balance = omega (
                arith,
                is.balance,
                free_count-take s.registers reg p free,
                law.size (end_of h) pushed,
                length-append s.active_symbols (p ∷ []),
              );
              width = length-set s.registers reg (some p) ∙ is.width;
              once = λ q. omega (arith, same q, once_more q new);
              holds = λ q lives. taken-holds reg free q (omega (arith, same q));
            },
            record {
              lives = omega (arith, same p, once_self);
              register = (
                record symbol { affected_register = some reg },
                reg,
                rw (eq_self p) refl,
                refl,
                omega (arith, is.width, lt-length s.registers reg none free),
              );
              others = λ q other. rw other refl;
              fewer = λ q. omega (arith, same q);
              size =
                  omega
                    (arith, law.size (end_of h) pushed, length-append s.active_symbols (p ∷ []));
            },
          ),
        )

  module _ (p : Ptr) (symbol : Symbol) (s : Allocator) (is : IsPool s)
      (here : s.symbols.cell p ≡ some symbol) (new : occurrences p s.active_symbols ≡ 0) where
    -- One step of the scan on a pool, for a symbol that does not live yet, if `qsort` permutes its
    -- array. The symbols that ended go, and leave a pool. When fewer than eight are left, the symbol
    -- lives and gets a register, in a pool again, so that no other living symbol holds it, and no
    -- other symbol is written. When eight are left, the registers are indexed with REGISTER_NONE,
    -- which is a fault: nothing is spilled.
    pub allocate-IsPool :
        (s1 : Allocator) × (expire_old_symbols qsort p s ≡ ok s1)
        × IsPool s1
        × Shrinks s s1
        × ((length s1.active_symbols < max_registers)
              × Returns (allocate qsort p s) (λ s'. IsPool s' × Takes p s s')
            ⊎ (length s1.active_symbols ≡ max_registers) × (allocate qsort p s ≡ fault))
    unfolding allocate assign_register next_free_register
    allocate-IsPool =
        let (s1, run, (is1, shrinks)) = expire_old_symbols-IsPool qsort law p symbol s is here in
        let here1 : s1.symbols.cell p ≡ some symbol = ap (λ h. h.cell p) shrinks.symbols ∙ here in
        let few : ltb max_registers (length s1.active_symbols) ≡ false =
          ground (arith, is1.balance) in
        (
          s1,
          run,
          is1,
          shrinks,
          elim (Bool-cases (ltb (length s1.active_symbols) max_registers)) [
            | inl t ↦
                let room : length s1.active_symbols < max_registers = ground arith in
                let (s', run', (pool, takes)) =
                  assigned-IsPool p symbol s1 is1 here1 (omega (arith, new, shrinks.fewer p))
                    room in
                inl (
                  room,
                  (s', rw (◌>>=◌, run, few) run', (pool, Shrinks-Takes p s s1 s' shrinks takes)),
                )
            | inr f ↦
                let full : length s1.active_symbols ≡ max_registers = ground (arith, is1.balance) in
                let no_free = first_free-none s1.registers 0 (omega (arith, is1.balance)) in
                inr (full, rw (◌>>=◌, run, few, no_free) refl)
          ],
        )
