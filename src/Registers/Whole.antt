-- ===== src/Registers/Whole.antt =====
-- src/mips/register_allocation.c: `linear_scan_register_allocation` on a small table.
use matcc.Prelude.{
  ◌+◌, ◌≤◌, ◌<◌, ◌≡◌, refl, sym, ◌∙◌, ap, inl, inr, true, false, none, some, List, [], ◌∷◌, flatten,
  ◌>>=◌, Returns, Text, length, replicate, arith, Bool-cases, ◌==◌, subst,
}
use matcc.HashTable.{HashTable}
use matcc.Types.{Ptr, Point, Symbol}
use matcc.Compiler.{Store, write}
use matcc.Registers.{
  Allocator, max_registers, symbol_of, live, forget_registers, start_of, allocate_all,
  linear_scan_register_allocation,
}
use matcc.Registers.Pool.{occurrences, IsPermuting, IsPool}
use matcc.Registers.Steps.{HasRegister}
use matcc.Registers.Scan.{allocate-IsPool}

-- The addresses of an array are those of symbols.
abbrev pub ArePresent : Store Symbol → List Ptr → Type 0
ArePresent h ps = (q : Ptr) → 0 < occurrences q ps → (symbol : Symbol) × (h.cell q ≡ some symbol)

equal_of : (p q : Ptr) → (p == q) ≡ true → p ≡ q
equal_of p q e = ground arith

apart_of :
    (p q : Ptr) (ps : List Ptr) → occurrences p ps ≡ 0 → 0 < occurrences q ps → (p == q) ≡ false
apart_of p q ps gone lives = elim (Bool-cases (p == q)) [
  | inr f ↦ f
  | inl e ↦
      let none_left : occurrences q ps ≡ 0 =
        ap (λ r. occurrences r ps) (sym (equal_of p q e)) ∙ gone in
      absurd (omega arith)
]

absent_head : (p q : Ptr) (ps : List Ptr) → occurrences q (p ∷ ps) ≡ 0 → (p == q) ≡ false
absent_head p q ps absent = elim (Bool-cases (p == q)) [ inr f ↦ f | inl e ↦ absurd (ground arith) ]

self_lives : (p : Ptr) (ps : List Ptr) → 0 < occurrences p (p ∷ ps)
self_lives p ps = ground arith

forget_registers-ok :
    (entries : List (Text × Ptr)) (h : Store Symbol) (ps : List Ptr)
    → ArePresent h (live entries)
    → ArePresent h ps
    → Returns (forget_registers entries h) λ h'. ArePresent h' ps
unfolding forget_registers
forget_registers-ok [] h ps are present = (h, refl, present)
forget_registers-ok ((name, p) ∷ entries) h ps are present =
    let (symbol, here) = are p (self_lives p (live entries)) in
    let forgotten : Symbol = record symbol { affected_register = none } in
    let written : (q : Ptr)
        → (s : Symbol) × (h.cell q ≡ some s)
        → (s : Symbol) × ((write h p forgotten).cell q ≡ some s) =
      λ q (s, e). elim (Bool-cases (p == q)) [
        | inl t ↦ (forgotten, rw t refl)
        | inr f ↦ (s, rw f e)
      ] in
    let (h', run, done) =
      forget_registers-ok entries (write h p forgotten) ps
        (λ q lives. written q (are q (omega arith))) (λ q lives. written q (present q lives)) in
    (h', rw (◌>>=◌, symbol_of, here, run), done)

module _ (qsort : (Ptr → Point) → List Ptr → List Ptr) (law : IsPermuting qsort) where
  allocate_all-ok :
      (ps : List Ptr) (s : Allocator)
      → IsPool s
      → ((q : Ptr) → occurrences q ps + occurrences q s.active_symbols ≤ 1)
      → ArePresent s.symbols ps
      → length ps + length s.active_symbols ≤ max_registers
      → Returns (allocate_all qsort ps s) λ s'.
        IsPool s'
        × ((q : Ptr) → 0 < occurrences q ps → HasRegister s'.symbols q)
        × ((q : Ptr) → occurrences q ps ≡ 0 → s'.symbols.cell q ≡ s.symbols.cell q)
  unfolding allocate_all
  allocate_all-ok [] s is once present room =
      (s, refl, (is, λ q h. absurd (omega arith), λ q h. refl))
  allocate_all-ok (p ∷ ps) s is once present room =
      let self : (p == p) ≡ true = ground arith in
      let gone : occurrences p ps ≡ 0 = ground (arith, once p) in
      let new : occurrences p s.active_symbols ≡ 0 = ground (arith, once p) in
      let (symbol, here) = present p (self_lives p ps) in
      let (s1, _, _, shrinks, outcome) = allocate-IsPool qsort law p symbol s is here new in
      elim outcome [
        | inr (full, _) ↦ absurd (omega (arith, full, shrinks.size))
        | inl (_, (s', run, (pool, takes))) ↦
            let apart : (q : Ptr) → 0 < occurrences q ps → (p == q) ≡ false =
              λ q lives. apart_of p q ps gone lives in
            let (s'', run', (pool', have, keep)) =
              allocate_all-ok ps s' pool (λ q. omega (arith, once q, takes.fewer q))
                (λ q lives.
                  let (x, e) = present q (omega arith) in (x, takes.others q (apart q lives) ∙ e))
                (omega (arith, takes.size)) in
            (
              s'',
              rw (◌>>=◌, run) run',
              (
                pool',
                λ q lives. elim (Bool-cases (p == q)) [
                  | inl e ↦
                      let (x, reg, at_p, names, below) = takes.register in
                      subst (HasRegister s''.symbols) (equal_of p q e)
                        (x, reg, keep p gone ∙ at_p, names, below)
                  | inr f ↦ have q (ground arith)
                ],
                λ q absent.
                    let other : (p == q) ≡ false = absent_head p q ps absent in
                    keep q (omega arith) ∙ takes.others q other,
              ),
            )
      ]

  module _ (table : HashTable Ptr) (s : Allocator)
      (distinct : (q : Ptr) → occurrences q (live (flatten table.buckets)) ≤ 1)
      (present : ArePresent s.symbols (live (flatten table.buckets)))
      (few : length (live (flatten table.buckets)) ≤ max_registers) where
    -- If `qsort` permutes its array, the linear scan of a table of at most eight entries, each the
    -- address of a symbol and entered once, ends normally: every
    -- symbol of the table has a register, and no two that live at the end share one.
    pub linear_scan_register_allocation-IsPool :
        Returns (linear_scan_register_allocation qsort table s) λ s'.
          IsPool s'
          × ((p : Ptr)
              → 0 < occurrences p (live (flatten table.buckets))
              → HasRegister s'.symbols p)
    unfolding linear_scan_register_allocation
    linear_scan_register_allocation-IsPool =
        let entries = flatten table.buckets in
        let (h, run, there) =
          forget_registers-ok entries s.symbols (live entries) present present in
        let start = record s {
          symbols = h;
          registers = replicate max_registers none;
          active_symbols = [];
        } in
        let same = law.same (start_of h) (live entries) in
        let (s', run', (pool, have, _)) =
          allocate_all-ok (qsort (start_of h) (live entries)) start
            (record {
              balance = refl;
              width = refl;
              once = λ p. omega arith;
              holds = λ p lives. absurd (omega arith);
            })
            (λ q. omega (arith, same q, distinct q)) (λ q lives. there q (omega (arith, same q)))
            (omega (arith, few, law.size (start_of h) (live entries))) in
        (s', rw (◌>>=◌, run) run', (pool, λ p lives. have p (omega (arith, same p))))
