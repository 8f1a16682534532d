-- ===== src/Matrix/Rows.antt =====
-- src/matrix.c: what a matrix stands for, its rows one behind the other in `values`.
use matcc.Prelude.{
  ℕ, zero, suc, ◌+◌, ◌-◌, ◌*◌, ◌<◌, ◌≡◌, ◌≢◌, refl, ap, ◌∙◌, sym, List, [], ◌∷◌, ◌++◌, flatten,
  abort, Returns, row_size, length, take, replicate, set, some, get_elem?, All, length-append,
  get_elem?-append_left, get_elem?-append_right, All-append, arith,
}
use mathlib.Core.List.{append_assoc, append-nil}
use matcc.Matrix.{Float, Matrix, copy_to, resize, append_value, append_row}

pub record Holds (m : Matrix) (rows : List (List Float)) : Type 0 where
  pub height : m.height ≡ length rows
  pub width : All (λ r. length r ≡ m.width) rows
  pub values : m.values ≡ flatten rows

take-length : (xs : List Float) → take (length xs) xs ≡ xs
take-length [] = refl
take-length (x ∷ xs) = rw (take-length xs)

take-length-add : (xs : List Float) (n k : ℕ) → length xs + k ≡ n → take n xs ≡ xs
take-length-add [] zero k e = refl
take-length-add [] (suc n) k e = refl
take-length-add (x ∷ xs) zero k e = absurd (omega arith)
take-length-add (x ∷ xs) (suc n) k e = rw (take-length-add xs n k (omega arith))

-- Growing a block by `k` cells keeps its values.
resize-append :
    (junk : Float) (xs : List Float) (n k : ℕ)
    → length xs + k ≡ n
    → resize junk xs n ≡ xs ++ replicate k junk
unfolding resize
resize-append junk xs n k e =
    let d : n - length xs ≡ k = omega arith in rw (take-length-add xs n k e, d)

set-append :
    (xs ys : List Float) (x v : Float) (i : ℕ)
    → length xs ≡ i
    → set (xs ++ x ∷ ys) i v ≡ xs ++ v ∷ ys
set-append [] ys x v zero e = refl
set-append [] ys x v (suc i) e = absurd (omega arith)
set-append (a ∷ xs) ys x v zero e = absurd (omega arith)
set-append (a ∷ xs) ys x v (suc i) e = rw (set-append xs ys x v i (omega arith))

-- Values written over the cells behind `xs` stand behind `xs`.
copy_to-append :
    (junk : Float) (xs ys : List Float) (i : ℕ)
    → length xs ≡ i
    → copy_to (xs ++ replicate (length ys) junk) i ys ≡ xs ++ ys
unfolding copy_to
copy_to-append junk xs [] i e = refl
copy_to-append junk xs (y ∷ ys) i e =
    rw
      (
        set-append xs (replicate (length ys) junk) junk y i e,
        ← append_assoc xs (y ∷ []) (replicate (length ys) junk),
      )
      (copy_to-append junk (xs ++ y ∷ []) ys (i + 1) (omega (arith, length-append xs (y ∷ []), e))
        ∙ append_assoc xs (y ∷ []) ys)

length-flatten :
    (w : ℕ) (rows : List (List Float))
    → All (λ r. length r ≡ w) rows
    → length (flatten rows) ≡ length rows * w
unfolding flatten
length-flatten w [] h = omega arith
length-flatten w (r ∷ rows) h =
    grind (arith, length-flatten w rows h.1, length-append r (flatten rows), h.0)

flatten-append_row :
    (rows : List (List Float)) (r : List Float) → flatten (rows ++ r ∷ []) ≡ flatten rows ++ r
unfolding flatten
flatten-append_row [] r = append-nil r
flatten-append_row (x ∷ rows) r = rw (flatten-append_row rows r, append_assoc)

module _ (junk : Float) where
  appended_value :
      (xs : List Float) (v : Float) (h w : ℕ)
      → h ≡ 1
      → length xs ≡ w
      → set (resize junk xs (h * (w + 1))) w v ≡ xs ++ v ∷ []
  appended_value xs v h w one e =
      rw (resize-append junk xs (h * (w + 1)) 1 (rw one (omega arith)))
        (set-append xs [] junk v w e)

  -- A value appended to a matrix of one row stands behind that row.
  pub append_value-Holds :
      {m : Matrix} (r : List Float) (v : Float)
      → Holds m (r ∷ [])
      → Returns (append_value junk m v) λ m'. Holds m' ((r ++ v ∷ []) ∷ [])
  unfolding append_value flatten
  append_value-Holds {m} r v h =
      let vals : m.values ≡ r = h.values ∙ append-nil r in
      let wide : length m.values ≡ m.width = ap length vals ∙ h.width.0 in
      let cells = appended_value m.values v m.height m.width h.height wide in
      (
        record m { width = m.width + 1; values = r ++ v ∷ [] },
        ground arith,
        record {
          height = h.height;
          width = (omega (arith, length-append r (v ∷ []), h.width.0), tt);
          values = sym (append-nil (r ++ v ∷ []));
        },
      )

  copied_row :
      (vals xs : List Float) (h k w n : ℕ)
      → length vals ≡ h * w
      → length xs ≡ w
      → k ≡ 1
      → n ≡ w
      → copy_to (resize junk vals ((h + k) * w)) (h * w) (take n xs) ≡ vals ++ xs
  copied_row vals xs h k w n size e one wide =
      rw
        (
          resize-append junk vals ((h + k) * w) (length xs)
              (omega (arith, ap (λ (t : ℕ). t * w) one)),
          take-length-add xs n 0 (omega arith),
        )
        (copy_to-append junk vals xs (h * w) size)

  length-values :
      {m : Matrix} (rows : List (List Float)) → Holds m rows → length m.values ≡ m.height * m.width
  length-values {m} rows h =
      ap length h.values
      ∙ length-flatten m.width rows h.width
      ∙ ap (λ (t : ℕ). t * m.width) (sym h.height)

  -- A row of the matrix's width is appended behind the rows.
  pub append_row-Holds :
      {m row : Matrix} (rows : List (List Float)) (xs : List Float)
      → Holds m rows
      → Holds row (xs ∷ [])
      → length xs ≡ m.width
      → Returns (append_row junk m row) λ m'. (m'.width ≡ m.width) × Holds m' (rows ++ xs ∷ [])
  unfolding append_row flatten
  append_row-Holds {m} {row} rows xs h r e =
      let vals : row.values ≡ xs = r.values ∙ append-nil xs in
      let cells =
        copied_row m.values xs m.height row.height m.width row.width (length-values rows h) e
          r.height (sym r.width.0 ∙ e) in
      (
        record m { height = m.height + 1; values = m.values ++ xs },
        ground (arith, r.width.0),
        (
          refl,
          record {
            height = omega (arith, h.height, length-append rows (xs ∷ []));
            width = All-append (λ t. length t ≡ m.width) rows (xs ∷ []) h.width (e, tt);
            values = ap (λ t. t ++ xs) h.values ∙ sym (flatten-append_row rows xs);
          },
        ),
      )

  -- A row of another width is refused.
  pub append_row-row_size :
      (m : Matrix) {row : Matrix} (xs : List Float)
      → Holds row (xs ∷ [])
      → length xs ≢ m.width
      → append_row junk m row ≡ abort (row_size (length xs) m.width)
  unfolding append_row
  append_row-row_size m xs r e = ground (arith, r.width.0)

get_elem?-flatten :
    (w c : ℕ)
    → c < w
    → (rows : List (List Float)) → All (λ t. length t ≡ w) rows
    → (l : ℕ) (r : List Float) → get_elem? rows l ≡ some r
    → get_elem? (flatten rows) (l * w + c) ≡ get_elem? r c
unfolding flatten
get_elem?-flatten w c lt [] a l r e = cc
get_elem?-flatten w c lt (x ∷ rows) a zero r e =
    let x=r : x ≡ r = ground arith in
    let i : 0 * w + c ≡ c = omega arith in
    rw (i, get_elem?-append_left x (flatten rows) c (omega (arith, a.0)), x=r)
get_elem?-flatten w c lt (x ∷ rows) a (suc l) r e =
    get_elem?-append_right x (flatten rows) (l * w + c) (suc l * w + c) (omega (arith, a.0))
    ∙ get_elem?-flatten w c lt rows a.1 l r e

-- The cell that `values[l * width + c]` reads is cell `c` of row `l`.
pub get_elem?-row :
    {m : Matrix} (rows : List (List Float)) (l c : ℕ) (r : List Float)
    → Holds m rows
    → get_elem? rows l ≡ some r
    → c < m.width
    → get_elem? m.values (l * m.width + c) ≡ get_elem? r c
get_elem?-row {m} rows l c r h e lt =
    rw h.values (get_elem?-flatten m.width c lt rows h.width l r e)
