-- ===== src/Registers/InsertionSort.antt =====
-- An insertion sort in the place of `qsort`, for the tests.
use matcc.Prelude.{
  suc, ◌+◌, ◌≡◌, refl, ◌∙◌, ap, List, [], ◌∷◌, length, arith, Bool-cases, inl, inr, ◌==◌,
  if◌then◌else◌,
}
use matcc.Types.{Ptr, Point}
use matcc.Registers.{point_ltb}
use matcc.Registers.Pool.{occurrences, IsPermuting}

unfoldable pub insert : (Ptr → Point) → Ptr → List Ptr → List Ptr
insert key p [] = p ∷ []
insert key p (q ∷ qs) =
    let rest = insert key p qs in if point_ltb (key q) (key p) then q ∷ rest else p ∷ q ∷ qs

unfoldable pub sorted : (Ptr → Point) → List Ptr → List Ptr
sorted key [] = []
sorted key (p ∷ ps) = insert key p (sorted key ps)

insert-occurrences :
    (key : Ptr → Point) (p : Ptr) (qs : List Ptr) (r : Ptr)
    → occurrences r (insert key p qs) ≡ (if p == r then 1 else 0) + occurrences r qs
unfolding insert
insert-occurrences key p [] r = refl
insert-occurrences key p (q ∷ qs) r = elim (Bool-cases (point_ltb (key q) (key p))) [
  | inl t ↦ rw t (omega (arith, insert-occurrences key p qs r))
  | inr f ↦ rw f refl
]

insert-length :
    (key : Ptr → Point) (p : Ptr) (qs : List Ptr) → length (insert key p qs) ≡ suc (length qs)
unfolding insert
insert-length key p [] = refl
insert-length key p (q ∷ qs) = elim (Bool-cases (point_ltb (key q) (key p))) [
  | inl t ↦ rw t (ap suc (insert-length key p qs))
  | inr f ↦ rw f refl
]

sorted-occurrences :
    (key : Ptr → Point) (ps : List Ptr) (r : Ptr) → occurrences r (sorted key ps) ≡ occurrences r ps
unfolding sorted
sorted-occurrences key [] r = refl
sorted-occurrences key (p ∷ ps) r =
    insert-occurrences key p (sorted key ps) r
    ∙ ap (λ n. (if p == r then 1 else 0) + n) (sorted-occurrences key ps r)

sorted-length : (key : Ptr → Point) (ps : List Ptr) → length (sorted key ps) ≡ length ps
unfolding sorted
sorted-length key [] = refl
sorted-length key (p ∷ ps) = insert-length key p (sorted key ps) ∙ ap suc (sorted-length key ps)

pub sorted-IsPermuting : IsPermuting sorted
sorted-IsPermuting = record { same = sorted-occurrences; size = sorted-length }
