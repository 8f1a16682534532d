-- ===== src/Translation/Intervals.antt =====
-- src/mips/translation.c: what `compute_symbols_lifetime` does to one symbol while it passes a
-- list of quads, and the interval of the uses of a symbol.
use matcc.Prelude.{
  ℕ, zero, suc, ◌+◌, ◌-◌, ◌≤◌, ◌≡◌, refl, ◌∙◌, ap, ◌⊎◌, inl, inr, Bool, true, false, ◌||◌, Option,
  none, some, List, [], ◌∷◌, get_elem?, arith, Bool-cases, ltb, ◌==◌, if◌then◌else◌,
}
use matcc.Types.{Ptr, Point, point_init, at, Symbol, Quad}
use matcc.Translation.{reset_symbol, touch, first_point, last_point}

abbrev pub points_to : Ptr → Option Ptr → Bool
points_to p none = false
points_to p (some q) = q == p

-- The quad names the symbol at the address.
abbrev pub names : Ptr → Quad → Bool
names p quad = points_to p quad.res || points_to p quad.op1 || points_to p quad.op2

-- What the quads from the number `n` on do to the symbol at `p`.
unfoldable pub lived : Ptr → List Quad → ℕ → Symbol → Symbol
lived p [] n symbol = symbol
lived p (quad ∷ quads) n symbol =
    lived p quads (n + 1) (if names p quad then touch n symbol else symbol)

-- The quad of the number `i` names the symbol.
abbrev pub Used : Ptr → List Quad → ℕ → Type 0
Used p quads i = (quad : Quad) × (get_elem? quads i ≡ some quad) × (names p quad ≡ true)

-- The symbol lives from `a` to `b`.
pub record LivesFrom (symbol : Symbol) (a b : ℕ) : Type 0 where
  pub start : symbol.start_point ≡ at a
  pub end_ : symbol.end_point ≡ at b
  pub time : symbol.life_time ≡ b - a

touch-later :
    (n a b : ℕ) (symbol : Symbol) → LivesFrom symbol a b → b ≤ n → LivesFrom (touch n symbol) a n
unfolding touch first_point last_point
touch-later n a b symbol h le =
    let keep : (if ltb n b then b else n) ≡ n = ground arith in
    record {
      start = rw h.start refl;
      end_ = rw (h.end_, keep) refl;
      time = rw (h.start, h.end_, keep) refl;
    }

touch-first :
    (n : ℕ) (symbol : Symbol)
    → symbol.start_point ≡ point_init
    → symbol.end_point ≡ point_init
    → LivesFrom (touch n symbol) n n
unfolding touch first_point last_point
touch-first n symbol hs he = record {
  start = rw hs refl;
  end_ = rw he refl;
  time = rw (hs, he) refl;
}

last_point-last_point :
    (point : Point) (n : ℕ) → last_point (at (last_point point n)) n ≡ last_point point n
unfolding last_point
last_point-last_point point_init n = ground arith
last_point-last_point (at m) n = ground arith

-- One quad names a symbol up to three times, which is the same as once.
pub touch-touch : (n : ℕ) (symbol : Symbol) → touch n (touch n symbol) ≡ touch n symbol
unfolding touch first_point
touch-touch n symbol = rw (last_point-last_point symbol.end_point n) refl

-- A property of all uses holds if it holds of a use by the first quad and of all uses behind it.
Used-split :
    (p : Ptr) (quad : Quad) (quads : List Quad) (P : ℕ → Type 0)
    → (names p quad ≡ true → P 0)
    → ((i : ℕ) → Used p quads i → P (suc i))
    → (i : ℕ) → Used p (quad ∷ quads) i
    → P i
Used-split p quad quads P here there zero (quad', e, used) = here (cc)
Used-split p quad quads P here there (suc i) used = there i used

-- A symbol that lives already lives on to its last use.
lived-last :
    (p : Ptr) (quads : List Quad) (n a b : ℕ) (symbol : Symbol)
    → LivesFrom symbol a b
    → b ≤ n
    → (c : ℕ) × LivesFrom (lived p quads n symbol) a c
      × (b ≤ c)
      × ((i : ℕ) → Used p quads i → n + i ≤ c)
      × ((c ≡ b) ⊎ ((i : ℕ) × Used p quads i × (c ≡ n + i)))
unfolding lived
lived-last p [] n a b symbol h le = (b, h, omega arith, λ i (q, e, _). absurd (cc), inl refl)
lived-last p (quad ∷ quads) n a b symbol h le = elim (Bool-cases (names p quad)) [
  | inl named ↦
      let (c, lives, after, uses, last) =
        lived-last p quads (n + 1) a n (touch n symbol) (touch-later n a b symbol h le)
          (omega arith) in
      (
        c,
        rw named lives,
        omega arith,
        Used-split p quad quads (λ i. n + i ≤ c) (λ _. omega arith)
            (λ i used. omega (arith, uses i used)),
        elim last [
          | inl e ↦ inr (0, (quad, refl, named), omega arith)
          | inr (i, used, e) ↦ inr (suc i, used, omega arith)
        ],
      )
  | inr other ↦
      let (c, lives, after, uses, last) = lived-last p quads (n + 1) a b symbol h (omega arith) in
      (
        c,
        rw other lives,
        after,
        Used-split p quad quads (λ i. n + i ≤ c) (λ e. absurd (cc))
            (λ i used. omega (arith, uses i used)),
        elim last [ inl e ↦ inl e | inr (i, used, e) ↦ inr (suc i, used, omega arith) ],
      )
]

-- Either no quad names the symbol, and it is as it was, or it lives from the number of the first
-- quad that names it to that of the last.
pub IsLifetime : Ptr → List Quad → ℕ → Symbol → Symbol → Type 0
IsLifetime p quads n symbol symbol' =
    (((i : ℕ) → ¬ Used p quads i) × (symbol' ≡ symbol))
    ⊎ (i : ℕ) × (j : ℕ) × LivesFrom symbol' (n + i) (n + j)
      × Used p quads i
      × Used p quads j
      × ((k : ℕ) → Used p quads k → (i ≤ k) × (k ≤ j))

LivesFrom-eq :
    (symbol : Symbol) (a b a' b' : ℕ)
    → LivesFrom symbol a b
    → a ≡ a'
    → b ≡ b'
    → LivesFrom symbol a' b'
LivesFrom-eq symbol a b a' b' h ea eb = record {
  start = h.start ∙ ap at ea;
  end_ = h.end_ ∙ ap at eb;
  time = h.time ∙ omega arith;
}

-- The first quad names the symbol.
named-IsLifetime :
    (p : Ptr) (quad : Quad) (quads : List Quad) (n j : ℕ) (symbol symbol' : Symbol)
    → names p quad ≡ true
    → LivesFrom symbol' n (n + j)
    → Used p (quad ∷ quads) j
    → ((i : ℕ) → Used p quads i → n + 1 + i ≤ n + j)
    → IsLifetime p (quad ∷ quads) n symbol symbol'
unfolding IsLifetime
named-IsLifetime p quad quads n j symbol symbol' named lives last uses = inr (
  0,
  j,
  LivesFrom-eq symbol' n (n + j) (n + 0) (n + j) lives (omega arith) refl,
  (quad, refl, named),
  last,
  Used-split p quad quads (λ k. (0 ≤ k) × (k ≤ j)) (λ _. (omega arith, omega arith))
      (λ k used. (omega arith, omega (arith, uses k used))),
)

-- The first quad does not name it.
other-IsLifetime :
    (p : Ptr) (quad : Quad) (quads : List Quad) (n : ℕ) (symbol symbol' : Symbol)
    → names p quad ≡ false
    → IsLifetime p quads (n + 1) symbol symbol'
    → IsLifetime p (quad ∷ quads) n symbol symbol'
unfolding IsLifetime
other-IsLifetime p quad quads n symbol symbol' other (inl (unused, same)) =
    inl (Used-split p quad quads (λ i. ⊥) (λ e. cc) unused, same)
other-IsLifetime p quad quads n symbol symbol' other (inr (i, j, lives, start, last, all)) = inr (
  suc i,
  suc j,
  LivesFrom-eq symbol' (n + 1 + i) (n + 1 + j) (n + suc i) (n + suc j) lives (omega arith)
      (omega arith),
  start,
  last,
  Used-split p quad quads (λ k. (suc i ≤ k) × (k ≤ suc j)) (λ e. absurd (cc))
      (λ k used. (omega (arith, (all k used).0), omega (arith, (all k used).1))),
)

-- A symbol with no points, passed through the quads, has the life time of its uses.
pub lived-IsLifetime :
    (p : Ptr) (quads : List Quad) (n : ℕ) (symbol : Symbol)
    → symbol.start_point ≡ point_init
    → symbol.end_point ≡ point_init
    → IsLifetime p quads n symbol (lived p quads n symbol)
unfolding lived IsLifetime
lived-IsLifetime p [] n symbol hs he = inl (λ i (quad, e, _). cc, refl)
lived-IsLifetime p (quad ∷ quads) n symbol hs he = elim (Bool-cases (names p quad)) [
  | inl named ↦
      let (c, lives, after, uses, last) =
        lived-last p quads (n + 1) n n (touch n symbol) (touch-first n symbol hs he)
          (omega arith) in
      let found : (j : ℕ) × (c ≡ n + j) × Used p (quad ∷ quads) j = elim last [
        | inl e ↦ (0, omega arith, (quad, refl, named))
        | inr (i, used, e) ↦ (suc i, omega arith, used)
      ] in
      rw named (
        named-IsLifetime p quad quads n found.0 symbol (lived p quads (n + 1) (touch n symbol))
          named
          (LivesFrom-eq (lived p quads (n + 1) (touch n symbol)) n c n (n + found.0) lives refl
            found.1)
          found.2 (λ i used. omega (arith, uses i used, found.1)))
  | inr other ↦ rw other (
      other-IsLifetime p quad quads n symbol (lived p quads (n + 1) symbol) other
        (lived-IsLifetime p quads (n + 1) symbol hs he))
]

-- The symbols differ in their points and the life time alone.
pub record SameButPoints (symbol symbol' : Symbol) : Type 0 where
  pub same : symbol' ≡ record symbol {
    start_point = symbol'.start_point;
    end_point = symbol'.end_point;
    life_time = symbol'.life_time;
  }

pub SameButPoints-trans :
    (a b c : Symbol) → SameButPoints a b → SameButPoints b c → SameButPoints a c
SameButPoints-trans a b c ab bc =
    let restore : Symbol → Symbol = λ x. record x {
      start_point = c.start_point;
      end_point = c.end_point;
      life_time = c.life_time;
    } in
    record { same = bc.same ∙ ap restore ab.same }

touch-SameButPoints : (n : ℕ) (symbol : Symbol) → SameButPoints symbol (touch n symbol)
unfolding touch
touch-SameButPoints n symbol = record { same = refl }

-- The walk over the quads writes the points and the life time alone.
pub lived-SameButPoints :
    (p : Ptr) (quads : List Quad) (n : ℕ) (symbol : Symbol)
    → SameButPoints symbol (lived p quads n symbol)
unfolding lived
lived-SameButPoints p [] n symbol = record { same = refl }
lived-SameButPoints p (quad ∷ quads) n symbol = elim (Bool-cases (names p quad)) [
  | inl named ↦ rw named (
      SameButPoints-trans symbol (touch n symbol) (lived p quads (n + 1) (touch n symbol))
        (touch-SameButPoints n symbol) (lived-SameButPoints p quads (n + 1) (touch n symbol)))
  | inr other ↦ rw other (lived-SameButPoints p quads (n + 1) symbol)
]

pub reset_symbol-SameButPoints : (s : Symbol) → SameButPoints s (reset_symbol s)
unfolding reset_symbol
reset_symbol-SameButPoints s = record { same = refl }
