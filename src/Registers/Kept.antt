-- ===== src/Registers/Kept.antt =====
-- src/mips/register_allocation.c: what the allocation writes to symbols.
use matcc.Prelude.{
  ℕ, zero, suc, ◌+◌, ◌%◌, ◌^◌, ◌≡◌, refl, sym, ◌∙◌, ap, ◌⊎◌, inl, inr, Bool, true, false,
  Bool-cases, Option-cases, Option, none, some, List, [], ◌∷◌, flatten, Outcome, ok, abort, fault,
  out_of_fuel, ◌>>=◌, Text, length, set, replicate, arith, ltb, ◌==◌, if◌then◌else◌, subst,
}
use matcc.HashTable.{HashTable}
use matcc.Types.{Ptr, Point, Symbol}
use matcc.Compiler.{Store, write}
use matcc.Registers.{
  Allocator, max_registers, symbol_array_push, symbol_array_remove, symbol_of, element, live,
  assign_register, free_register, next_free_register, new_stack_location, sort_active_symbols,
  expired, expire_one, expire_loop, expire_old_symbols, spill_symbol, allocate, allocate_all,
  forget_registers, start_of, linear_scan_register_allocation, point_ltb,
}

-- The symbols differ in register and place on the stack alone.
abbrev pub SameButPlace : Symbol → Symbol → Type 0
SameButPlace x y =
    y ≡ record x { affected_register = y.affected_register; stack_location = y.stack_location }

-- Every symbol stays, with all but its register and its place on the stack.
abbrev pub Keeps : Store Symbol → Store Symbol → Type 0
Keeps h h' =
    (q : Ptr) (x : Symbol)
    → h.cell q ≡ some x
    → (y : Symbol) × (h'.cell q ≡ some y) × SameButPlace x y

Keeps-same : (h h' : Store Symbol) → h' ≡ h → Keeps h h'
Keeps-same h h' e q x at_q = (x, ap (λ t. t.cell q) e ∙ at_q, refl)

SameButPlace-trans : (x y z : Symbol) → SameButPlace x y → SameButPlace y z → SameButPlace x z
SameButPlace-trans x y z e f =
    f
    ∙ ap
        (λ (t : Symbol). record t {
          affected_register = z.affected_register;
          stack_location = z.stack_location;
        })
        e

Keeps-trans : (h h1 h2 : Store Symbol) → Keeps h h1 → Keeps h1 h2 → Keeps h h2
Keeps-trans h h1 h2 k k1 q x at_q =
    let (y, at_q1, same) = k q x at_q in
    let (z, at_q2, same') = k1 q y at_q1 in (z, at_q2, SameButPlace-trans x y z same same')

Keeps-write :
    (h h1 : Store Symbol) (p : Ptr) (x y : Symbol)
    → Keeps h h1
    → h.cell p ≡ some x
    → SameButPlace x y
    → Keeps h (write h1 p y)
Keeps-write h h1 p x y k at_p same q z at_q = elim (Bool-cases (p == q)) [
  | inr f ↦ let (w, at_q1, same') = k q z at_q in (w, rw f at_q1, same')
  | inl t ↦
      let pq : p ≡ q = ground arith in
      let found : some x ≡ some z = sym at_p ∙ ap h.cell pq ∙ at_q in
      let xz : x ≡ z = cc in (y, rw t refl, subst (λ w. SameButPlace w y) xz same)
]

count-cases : (n : ℕ) → (n ≡ 0) ⊎ ((m : ℕ) × (n ≡ suc m))
count-cases zero = inl refl
count-cases (suc m) = inr (m, refl)

pub >>=-ok {ℓ κ} :
    {A : Type ℓ} {B : Type κ} (o : Outcome A) (f : A → Outcome B) (r : B)
    → (o >>= f) ≡ ok r
    → (a : A) × (o ≡ ok a) × (f a ≡ ok r)
>>=-ok (ok a) f r e = (a, refl, e)
>>=-ok (abort x) f r e = cc
>>=-ok fault f r e = cc
>>=-ok out_of_fuel f r e = cc

symbol_of-ok : (h : Store Symbol) (p : Ptr) (x : Symbol) → symbol_of h p ≡ ok x → h.cell p ≡ some x
symbol_of-ok h p x e = elim (Option-cases (h.cell p)) [
  | inl n ↦ let bad = rw (n, symbol_of) at e in cc
  | inr (y, f) ↦ let g = rw (f, symbol_of) at e in let same : y ≡ x = cc in f ∙ ap some same
]

-- A register that is given back.
freed-symbols :
    (holder : Option Ptr) (s s' : Allocator) (registers : List (Option Ptr))
    → Outcome.ok (elim holder [ none ↦ s | some _ ↦ record s { registers = registers } ]) ≡ ok s'
    → s'.symbols ≡ s.symbols
freed-symbols none s s' registers e = let same : s ≡ s' = cc in ap (λ t. t.symbols) (sym same)
freed-symbols (some q) s s' registers e =
    let same : record s { registers = registers } ≡ s' = cc in ap (λ t. t.symbols) (sym same)

free_register-symbols :
    (reg : Option ℕ) (s s' : Allocator) → free_register reg s ≡ ok s' → s'.symbols ≡ s.symbols
unfolding free_register
free_register-symbols none s s' e = cc
free_register-symbols (some reg) s s' e =
    let (holder, _, e1) = >>=-ok (element s.registers reg) _ s' e in
    freed-symbols holder s s' (set s.registers reg none) e1

taken-Keeps :
    (holder : Option Ptr) (s t s' : Allocator)
    → Keeps s.symbols t.symbols
    → Outcome.ok (elim holder [ some _ ↦ s | none ↦ t ]) ≡ ok s'
    → Keeps s.symbols s'.symbols
taken-Keeps none s t s' k e =
    let same : t ≡ s' = cc in subst (λ u. Keeps s.symbols u.symbols) same k
taken-Keeps (some q) s t s' k e =
    let same : s ≡ s' = cc in Keeps-same s.symbols s'.symbols (ap (λ t. t.symbols) (sym same))

assign_register-Keeps :
    (reg : Option ℕ) (p : Ptr) (s s' : Allocator)
    → assign_register reg p s ≡ ok s'
    → Keeps s.symbols s'.symbols
unfolding assign_register
assign_register-Keeps none p s s' e = cc
assign_register-Keeps (some reg) p s s' e =
    let (holder, _, e1) = >>=-ok (element s.registers reg) _ s' e in
    let (x, at_p, e2) = >>=-ok (symbol_of s.symbols p) _ s' e1 in
    taken-Keeps holder s
      (record s {
        registers = set s.registers reg (some p);
        symbols = write s.symbols p (record x { affected_register = some reg });
      })
      s'
      (Keeps-write s.symbols s.symbols p x (record x { affected_register = some reg })
        (Keeps-same s.symbols s.symbols refl) (symbol_of-ok s.symbols p x at_p) refl)
      e2

module _ (qsort : (Ptr → Point) → List Ptr → List Ptr) where
  expire_one-symbols :
      (j : ℕ) (s s' : Allocator) → expire_one qsort j s ≡ ok s' → s'.symbols ≡ s.symbols
  unfolding expire_one sort_active_symbols
  expire_one-symbols j s s' e =
      let (p, _, e1) = >>=-ok (element s.active_symbols j) _ s' e in
      let (x, _, e2) = >>=-ok (symbol_of s.symbols p) _ s' e1 in
      let (freed, f, e3) = >>=-ok (free_register x.affected_register s) _ s' e2 in
      let (rest, _, e4) = >>=-ok (symbol_array_remove freed.active_symbols j) _ s' e3 in
      let same : sort_active_symbols qsort (record freed { active_symbols = rest }) ≡ s' = cc in
      ap (λ t. t.symbols) (sym same) ∙ free_register-symbols x.affected_register s freed f

  expired-symbols :
      (ends : Bool) (fuel j : ℕ) (start : Point) (s s' : Allocator)
      → ((t t' : Allocator)
          → expire_loop qsort fuel (j + 1) start t ≡ ok t'
          → t'.symbols ≡ t.symbols)
      → (if ends then (expire_one qsort j s >>= expire_loop qsort fuel (j + 1) start) else ok s)
        ≡ ok s'
      → s'.symbols ≡ s.symbols
  expired-symbols false fuel j start s s' f e =
      let same : s ≡ s' = cc in ap (λ t. t.symbols) (sym same)
  expired-symbols true fuel j start s s' f e =
      let (t, one, e1) =
        >>=-ok (expire_one qsort j s) (expire_loop qsort fuel (j + 1) start) s' e in
      f t s' e1 ∙ expire_one-symbols j s t one

  expire_loop-symbols :
      (fuel j : ℕ) (start : Point) (s s' : Allocator)
      → expire_loop qsort fuel j start s ≡ ok s'
      → s'.symbols ≡ s.symbols
  unfolding expire_loop
  expire_loop-symbols zero j start s s' e = cc
  expire_loop-symbols (suc fuel) j start s s' e =
      elim (Bool-cases (ltb j (length s.active_symbols))) [
        | inr out ↦ let e1 = rw out at e in let same : s ≡ s' = cc in ap (λ t. t.symbols) (sym same)
        | inl inside ↦
            let (ends, _, e2) = >>=-ok (expired qsort j start s) _ s' (rw inside at e) in
            expired-symbols ends fuel j start s s' (expire_loop-symbols fuel (j + 1) start) e2
      ]

  Keeps-spill :
      (b : Bool) (p q : Ptr) (x y : Symbol) (last : ℕ) (s s' : Allocator)
      → s.symbols.cell p ≡ some x
      → s.symbols.cell q ≡ some y
      → (if b
          then (do
            let (location, s1) = new_stack_location y.size s
            active ← symbol_array_remove s1.active_symbols last
            let h = write s1.symbols p (record x { affected_register = y.affected_register })
            let h' = write h q (record y { stack_location = location })
            ok (
                sort_active_symbols qsort
                  (record s1 { symbols = h'; active_symbols = symbol_array_push active p })))
          else (let (location, s1) = new_stack_location x.size s in
              ok (record s1 {
                symbols = write s1.symbols p (record x { stack_location = location });
              })))
        ≡ ok s'
      → Keeps s.symbols s'.symbols
  unfolding new_stack_location sort_active_symbols
  Keeps-spill false p q x y last s s' at_p at_q e =
      let place = (s.current_stack_location + x.size) % 2 ^ 32 in
      let same : write s.symbols p (record x { stack_location = place }) ≡ s'.symbols =
        let done : record s {
          current_stack_location = place;
          symbols = write s.symbols p (record x { stack_location = place });
        }
            ≡ s' =
          cc in
        ap (λ t. t.symbols) done in
      subst (λ h. Keeps s.symbols h) same
        (Keeps-write s.symbols s.symbols p x (record x { stack_location = place })
          (Keeps-same s.symbols s.symbols refl) at_p refl)
  Keeps-spill true p q x y last s s' at_p at_q e =
      let place = (s.current_stack_location + y.size) % 2 ^ 32 in
      let (active, _, e1) = >>=-ok (symbol_array_remove s.active_symbols last) _ s' e in
      let h = write s.symbols p (record x { affected_register = y.affected_register }) in
      let h' = write h q (record y { stack_location = place }) in
      let done : sort_active_symbols qsort (record s {
        current_stack_location = place;
        symbols = h';
        active_symbols = symbol_array_push active p;
      })
          ≡ s' =
        cc in
      let same : h' ≡ s'.symbols = ap (λ t. t.symbols) done in
      subst (λ g. Keeps s.symbols g) same
        (Keeps-write s.symbols h q y (record y { stack_location = place })
          (Keeps-write s.symbols s.symbols p x
            (record x { affected_register = y.affected_register })
            (Keeps-same s.symbols s.symbols refl) at_p refl)
          at_q refl)

  spill_symbol-Keeps :
      (p : Ptr) (s s' : Allocator) → spill_symbol qsort p s ≡ ok s' → Keeps s.symbols s'.symbols
  unfolding spill_symbol
  spill_symbol-Keeps p s s' e = elim (count-cases (length s.active_symbols)) [
    | inl n ↦
        let e1 = rw (n, spill_symbol) at e in
        let same : s ≡ s' = cc in Keeps-same s.symbols s'.symbols (ap (λ t. t.symbols) (sym same))
    | inr (last, n) ↦
        let e1 = rw (n, spill_symbol) at e in
        let (q, _, e2) = >>=-ok (element s.active_symbols last) _ s' e1 in
        let (y, at_q, e3) = >>=-ok (symbol_of s.symbols q) _ s' e2 in
        let (x, at_p, e4) = >>=-ok (symbol_of s.symbols p) _ s' e3 in
        Keeps-spill (point_ltb x.end_point y.end_point) p q x y last s s'
          (symbol_of-ok s.symbols p x at_p) (symbol_of-ok s.symbols q y at_q) e4
  ]

  assigned-Keeps :
      (p : Ptr) (s s' : Allocator)
      → (do
        s2 ← assign_register (next_free_register s) p s
        ok (
            sort_active_symbols qsort
              (record s2 { active_symbols = symbol_array_push s2.active_symbols p })))
        ≡ ok s'
      → Keeps s.symbols s'.symbols
  unfolding sort_active_symbols
  assigned-Keeps p s s' e =
      let (s2, taken, e1) = >>=-ok (assign_register (next_free_register s) p s) _ s' e in
      let done : sort_active_symbols qsort
            (record s2 { active_symbols = symbol_array_push s2.active_symbols p })
          ≡ s' =
        cc in
      subst (λ h. Keeps s.symbols h) (ap (λ t. t.symbols) done)
        (assign_register-Keeps (next_free_register s) p s s2 taken)

  allocate-Keeps :
      (p : Ptr) (s s' : Allocator) → allocate qsort p s ≡ ok s' → Keeps s.symbols s'.symbols
  unfolding allocate expire_old_symbols
  allocate-Keeps p s s' e =
      let (s1, expires, e1) = >>=-ok (expire_old_symbols qsort p s) _ s' e in
      let (x, _, e0) = >>=-ok (symbol_of s.symbols p) _ s1 expires in
      let same = expire_loop-symbols (length s.active_symbols + 1) 0 x.start_point s s1 e0 in
      subst (λ h. Keeps h s'.symbols) same
        (elim (Bool-cases (ltb max_registers (length s1.active_symbols))) [
          | inl t ↦ spill_symbol-Keeps p s1 s' (rw t at e1)
          | inr f ↦ assigned-Keeps p s1 s' (rw f at e1)
        ])

  allocate_all-Keeps :
      (ps : List Ptr) (s s' : Allocator)
      → allocate_all qsort ps s ≡ ok s'
      → Keeps s.symbols s'.symbols
  unfolding allocate_all
  allocate_all-Keeps [] s s' e =
      let same : s ≡ s' = cc in Keeps-same s.symbols s'.symbols (ap (λ t. t.symbols) (sym same))
  allocate_all-Keeps (p ∷ ps) s s' e =
      let (s1, one, e1) = >>=-ok (allocate qsort p s) (allocate_all qsort ps) s' e in
      Keeps-trans s.symbols s1.symbols s'.symbols (allocate-Keeps p s s1 one)
        (allocate_all-Keeps ps s1 s' e1)

forget_registers-Keeps :
    (entries : List (Text × Ptr)) (h h' : Store Symbol)
    → forget_registers entries h ≡ ok h'
    → Keeps h h'
unfolding forget_registers
forget_registers-Keeps [] h h' e = let same : h ≡ h' = cc in Keeps-same h h' (sym same)
forget_registers-Keeps ((name, p) ∷ entries) h h' e =
    let (x, at_p, e1) = >>=-ok (symbol_of h p) _ h' e in
    let h1 = write h p (record x { affected_register = none }) in
    Keeps-trans h h1 h'
      (Keeps-write h h p x (record x { affected_register = none }) (Keeps-same h h refl)
        (symbol_of-ok h p x at_p) refl)
      (forget_registers-Keeps entries h1 h' e1)

-- However the registers run out or symbols are spilled: where the linear scan ends normally, every
-- symbol is there as before but for its register and its place on the stack.
pub linear_scan_register_allocation-Keeps :
    (qsort : (Ptr → Point) → List Ptr → List Ptr) (table : HashTable Ptr) (s s' : Allocator)
    → linear_scan_register_allocation qsort table s ≡ ok s'
    → Keeps s.symbols s'.symbols
unfolding linear_scan_register_allocation
linear_scan_register_allocation-Keeps qsort table s s' e =
    let entries = flatten table.buckets in
    let (h, forgets, e1) = >>=-ok (forget_registers entries s.symbols) _ s' e in
    Keeps-trans s.symbols h s'.symbols (forget_registers-Keeps entries s.symbols h forgets) (
      allocate_all-Keeps qsort (qsort (start_of h) (live entries))
        (record s { symbols = h; registers = replicate max_registers none; active_symbols = [] }) s'
        e1)
