-- ===== src/QuadList/Segments.antt =====
-- Segments of linked lists: the nodes that a pointer leads through, with the quads that they carry.
use matcc.Prelude.{
  ℕ, zero, suc, ◌<◌, ◌≡◌, refl, Bool, true, false, ◌||◌, Option, none, some, List, [], ◌∷◌, ◌++◌,
  ok, length, arith, ◌==◌,
}
use matcc.Types.{Quad, Ptr, Node}
use matcc.Compiler.{Store, write}
use matcc.QuadList.{last_node}

-- The nodes of a list in order, each with the address of its quad.
abbrev pub Cells : Type 0
Cells = List (Ptr × Ptr)

-- Every cell's quad is there.
abbrev pub HaveQuads : Store Quad → Cells → Type 0
HaveQuads h [] = Unit
HaveQuads h ((_, q) ∷ xs) = ((quad : Quad) × (h.cell q ≡ some quad)) × HaveQuads h xs

-- The node `a`, the quad `q` is among the cells.
abbrev pub has_node : Ptr → Cells → Bool
has_node a [] = false
has_node a ((b, _) ∷ xs) = (a == b) || has_node a xs

abbrev pub has_quad : Ptr → Cells → Bool
has_quad q [] = false
has_quad q ((_, r) ∷ xs) = (q == r) || has_quad q xs

-- No node comes twice.
abbrev pub Distinct : Cells → Type 0
Distinct [] = Unit
Distinct ((a, _) ∷ xs) = (has_node a xs ≡ false) × Distinct xs

abbrev pub Disjoint : Cells → Cells → Type 0
Disjoint xs ys = (a : Ptr) → has_node a xs ≡ true → has_node a ys ≡ false

-- From `p` the successors lead through the cells to `stop`.
abbrev pub Seg : Store Node → Option Ptr → Cells → Option Ptr → Type 0
Seg h p [] stop = p ≡ stop
Seg h p ((a, q) ∷ xs) stop =
    (p ≡ some a)
    × ((s : Option Ptr) × (h.cell a ≡ some (record { quad = q; successor = s })) × Seg h s xs stop)

-- A list that ends in NULL.
abbrev pub IsList : Store Node → Option Ptr → Cells → Type 0
IsList h p xs = Seg h p xs none × Distinct xs

-- A segment survives a write to a node that it does not have.
pub Seg-write :
    (h : Store Node) (a : Ptr) (n : Node) (p : Option Ptr) (xs : Cells) (stop : Option Ptr)
    → has_node a xs ≡ false
    → Seg h p xs stop
    → Seg (write h a n) p xs stop
Seg-write h a n p [] stop out s = s
Seg-write h a n p ((b, q) ∷ xs) stop out (e, (t, c, s)) =
    (e, (t, ground arith, Seg-write h a n t xs stop (ground arith) s))

pub Seg-append :
    (h : Store Node) (p m : Option Ptr) (xs ys : Cells) (stop : Option Ptr)
    → Seg h p xs m
    → Seg h m ys stop
    → Seg h p (xs ++ ys) stop
Seg-append h p m [] ys stop s t = rw s t
Seg-append h p m ((a, q) ∷ xs) ys stop (e, (r, c, s)) t =
    (e, (r, c, Seg-append h r m xs ys stop s t))

-- The last node of a list that is not empty.
abbrev pub last_cell : Ptr × Ptr → Cells → Ptr × Ptr
last_cell x [] = x
last_cell x (y ∷ ys) = last_cell y ys

-- The loop of the walk ends at the last node, given more steps than nodes behind the first.
pub last_node-last_cell :
    (h : Store Node) (fuel : ℕ) (a q : Ptr) (xs : Cells)
    → Seg h (some a) ((a, q) ∷ xs) none
    → length xs < fuel
    → last_node fuel h a ≡ ok (last_cell (a, q) xs).0
unfolding last_node
last_node-last_cell h zero a q xs s lt = elim lt [ ]
last_node-last_cell h (suc fuel) a q [] (_, (s, c, e)) lt = rw (c, last_node, e)
last_node-last_cell h (suc fuel) a q ((b, r) ∷ xs) (_, (s, c, (e, t))) lt =
    rw (c, last_node, e) (last_node-last_cell h fuel b r xs (refl, t) (omega arith))

pub has_node-last_cell : (x : Ptr × Ptr) (xs : Cells) → has_node (last_cell x xs).0 (x ∷ xs) ≡ true
has_node-last_cell (a, q) [] = ground arith
has_node-last_cell (a, q) (y ∷ ys) = ground (arith, has_node-last_cell y ys)

pub cell-last_cell :
    (h : Store Node) (p : Option Ptr) (x : Ptr × Ptr) (xs : Cells)
    → Seg h p (x ∷ xs) none
    → h.cell (last_cell x xs).0 ≡ some (record { quad = (last_cell x xs).1; successor = none })
cell-last_cell h p (a, q) [] (_, (s, c, e)) = ground arith
cell-last_cell h p (a, q) (y ∷ ys) (_, (s, c, t)) = cell-last_cell h s y ys t

-- Once the last node points to `target`, the list leads there.
pub Seg-relink :
    (h : Store Node) (p target : Option Ptr) (x : Ptr × Ptr) (xs : Cells)
    → Seg h p (x ∷ xs) none
    → Distinct (x ∷ xs)
    → Seg
        (write h (last_cell x xs).0 (record { quad = (last_cell x xs).1; successor = target }))
        p
        (x ∷ xs)
        target
Seg-relink h p target (a, q) [] (e, (s, c, t)) d = (e, (target, ground arith, refl))
Seg-relink h p target (a, q) ((b, r) ∷ ys) (e, (s, c, t)) (out, d) =
    (e, (s, ground (arith, has_node-last_cell (b, r) ys), Seg-relink h s target (b, r) ys t d))

pub has_node-append :
    (a : Ptr) (xs ys : Cells) → has_node a (xs ++ ys) ≡ (has_node a xs || has_node a ys)
has_node-append a [] ys = refl
has_node-append a ((b, q) ∷ xs) ys = ground (arith, has_node-append a xs ys)

pub has_quad-append :
    (q : Ptr) (xs ys : Cells) → has_quad q (xs ++ ys) ≡ (has_quad q xs || has_quad q ys)
has_quad-append q [] ys = refl
has_quad-append q ((a, r) ∷ xs) ys = ground (arith, has_quad-append q xs ys)

pub Distinct-append :
    (xs ys : Cells) → Distinct xs → Distinct ys → Disjoint xs ys → Distinct (xs ++ ys)
Distinct-append [] ys d e apart = e
Distinct-append ((a, q) ∷ xs) ys (out, d) e apart = (
  ground (arith, has_node-append a xs ys, apart a),
  Distinct-append xs ys d e (λ b i. apart b (ground arith)),
)
