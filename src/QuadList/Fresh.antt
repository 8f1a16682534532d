-- ===== src/QuadList/Fresh.antt =====
-- New nodes: an address that the store has not given out is on no list.
use matcc.Prelude.{◌≡◌, refl, false, Option, none, some, [], ◌∷◌, ◌++◌, arith}
use matcc.Types.{Ptr, Node}
use matcc.Compiler.{Store, alloc, IsStore}
use matcc.QuadList.Segments.{Cells, has_node, Disjoint, Seg}
use matcc.QuadList.Concat.{Sources, Apart, AreLists}

pub has_node-fresh :
    (h : Store Node) (a : Ptr) (p stop : Option Ptr) (xs : Cells)
    → h.cell a ≡ none
    → Seg h p xs stop
    → has_node a xs ≡ false
has_node-fresh h a p stop [] f s = refl
has_node-fresh h a p stop ((b, q) ∷ xs) f (_, (t, c, s)) =
    ground (arith, has_node-fresh h a t stop xs f s)

-- A new node leaves the lists as they are.
pub Seg-alloc :
    (h : Store Node) (n : Node) (p stop : Option Ptr) (xs : Cells)
    → h.cell h.next ≡ none
    → Seg h p xs stop
    → Seg (alloc h n) p xs stop
Seg-alloc h n p stop [] f s = s
Seg-alloc h n p stop ((b, q) ∷ xs) f (e, (t, c, s)) =
    (e, (t, ground arith, Seg-alloc h n t stop xs f s))

pub AreLists-alloc :
    (h : Store Node) (n : Node) (r : Sources)
    → h.cell h.next ≡ none
    → AreLists h r
    → AreLists (alloc h n) r
AreLists-alloc h n [] f l = tt
AreLists-alloc h n ((p, xs) ∷ r) f ((s, d), a, l) =
    ((Seg-alloc h n p none xs f s, d), a, AreLists-alloc h n r f l)

-- The list of a new node alone shares no node with the lists that were there.
pub Apart-fresh :
    (h : Store Node) (a q : Ptr) (r : Sources)
    → h.cell a ≡ none
    → AreLists h r
    → Apart ((a, q) ∷ []) r
Apart-fresh h a q [] f l = tt
Apart-fresh h a q ((p, xs) ∷ r) f ((s, d), _, l) =
    (λ b i. ground (arith, has_node-fresh h a p none xs f s), Apart-fresh h a q r f l)

pub IsStore-alloc : {A : Type 0} (h : Store A) (x : A) → IsStore h → IsStore (alloc h x)
IsStore-alloc h x s = record { free = λ p le. ground (arith, s.free p) }

Disjoint-fresh :
    (h : Store Node) (a q : Ptr) (p : Option Ptr) (xs : Cells)
    → h.cell a ≡ none
    → Seg h p xs none
    → Disjoint xs ((a, q) ∷ [])
Disjoint-fresh h a q p xs f s b i = ground (arith, has_node-fresh h a p none xs f s)

Apart-insert :
    (ys : Cells) (p : Option Ptr) (xs : Cells) (r₁ r₂ : Sources)
    → Disjoint ys xs
    → Apart ys (r₁ ++ r₂)
    → Apart ys (r₁ ++ (p, xs) ∷ r₂)
Apart-insert ys p xs [] r₂ d a = (d, a)
Apart-insert ys p xs (_ ∷ r₁) r₂ d (b, a) = (b, Apart-insert ys p xs r₁ r₂ d a)

-- A new node may be put between lists that share no node.
pub AreLists-insert :
    (h : Store Node) (q : Ptr) (r₁ r₂ : Sources)
    → h.cell h.next ≡ none
    → AreLists h (r₁ ++ r₂)
    → AreLists
        (alloc h (record { quad = q; successor = none }))
        (r₁ ++ (some h.next, (h.next, q) ∷ []) ∷ r₂)
AreLists-insert h q [] r₂ f l = (
  ((refl, (none, ground arith, refl)), (refl, tt)),
  Apart-fresh h h.next q r₂ f l,
  AreLists-alloc h (record { quad = q; successor = none }) r₂ f l,
)
AreLists-insert h q ((p, xs) ∷ r₁) r₂ f ((s, d), a, l) = (
  (Seg-alloc h (record { quad = q; successor = none }) p none xs f s, d),
  Apart-insert xs (some h.next) ((h.next, q) ∷ []) r₁ r₂ (Disjoint-fresh h h.next q p xs f s) a,
  AreLists-insert h q r₁ r₂ f l,
)
