-- ===== src/Format/Decimal.antt =====
-- The decimal texts of `%d` and their length, for the names of src/symbol.c.
use native.Mathlib.Nat.{pow-suc}
use matcc.Prelude.{
  ℕ, zero, suc, ◌+◌, ◌-◌, ◌*◌, ◌/◌, ◌%◌, ◌^◌, ◌<◌, ◌≤◌, ◌≡◌, ◌≢◌, refl, sym, ◌∙◌, ap, List, [], ◌∷◌,
  ◌++◌, Text, length, take, length-append, All, All-append, ltb, arith, Bool-cases, inl, inr,
}
use matcc.Format.{digits, decimal, format_int, snprintf}

-- The number that a text of digits stands for, behind `acc`.
pub value : ℕ → Text → ℕ
value acc [] = acc
value acc (d ∷ ds) = value (acc * 10 + (d - 48)) ds

value-append : (acc : ℕ) (s t : Text) → value acc (s ++ t) ≡ value (value acc s) t
unfolding value
value-append acc [] t = refl
value-append acc (d ∷ s) t = value-append (acc * 10 + (d - 48)) s t

value-digits : (fuel n : ℕ) → n < fuel → value 0 (digits fuel n) ≡ n
unfolding digits value
value-digits zero n h = elim h [ ]
value-digits (suc fuel) n h = elim (Bool-cases (ltb n 10)) [
  | inl small ↦ rw small (omega arith)
  | inr large ↦
      rw
        (
          large,
          value-append 0 (digits fuel (n / 10)) ((48 + n % 10) ∷ []),
          value-digits fuel (n / 10) (ground arith),
        )
        (omega arith)
]

-- Reading back what `%d` printed gives the number.
pub value-decimal : (n : ℕ) → value 0 (decimal n) ≡ n
unfolding decimal
value-decimal n = value-digits (suc n) n (omega arith)

-- A number below 10 ^ k has at most k digits.
length-digits : (k fuel n : ℕ) → n < 10 ^ suc k → length (digits fuel n) ≤ suc k
unfolding digits
length-digits k zero n h = omega arith
length-digits zero (suc fuel) n h = ground arith
length-digits (suc k) (suc fuel) n h =
    let tenth : n / 10 < 10 ^ suc k = omega (arith, pow-suc 10 (suc k)) in
    elim (Bool-cases (ltb n 10)) [
      | inl small ↦ rw small (omega arith)
      | inr large ↦
          rw (large, length-append (digits fuel (n / 10)) ((48 + n % 10) ∷ []))
            (omega (arith, length-digits k fuel (n / 10) tenth))
    ]

-- A text that fits is not cut.
take-all {ℓ} : {A : Type ℓ} (xs : List A) (n : ℕ) → length xs ≤ n → take n xs ≡ xs
take-all [] zero h = refl
take-all [] (suc n) h = refl
take-all (x ∷ xs) zero h = absurd (omega arith)
take-all (x ∷ xs) (suc n) h = ap (λ t. x ∷ t) (take-all xs n (omega arith))

pub snprintf-fits : (size : ℕ) (s : Text) → length s < size → snprintf size s ≡ s
unfolding snprintf
snprintf-fits size s h = take-all s (size - 1) (omega arith)

pub length-decimal : (n : ℕ) → n < 2 ^ 32 → length (decimal n) ≤ 10
unfolding decimal
length-decimal n h = length-digits 9 (suc n) n (omega arith)

pub decimal-injective : (m n : ℕ) → decimal m ≡ decimal n → m ≡ n
decimal-injective m n e = sym (value-decimal m) ∙ ap (value 0) e ∙ value-decimal n

-- `%d` prints digits alone.
abbrev pub IsDigit : ℕ → Type 0
IsDigit c = (48 ≤ c) × (c ≤ 57)

digits-All : (fuel n : ℕ) → All IsDigit (digits fuel n)
unfolding digits
digits-All zero n = tt
digits-All (suc fuel) n = elim (Bool-cases (ltb n 10)) [
  | inl small ↦ rw small ((omega arith, ground arith), tt)
  | inr large ↦ rw large (
      All-append IsDigit (digits fuel (n / 10)) ((48 + n % 10) ∷ []) (digits-All fuel (n / 10))
        ((omega arith, omega arith), tt))
]

pub decimal-All : (n : ℕ) → All IsDigit (decimal n)
unfolding decimal
decimal-All n = digits-All (suc n) n

cons-append : (s : Text) (c : ℕ) → (d : ℕ) × (t : Text) × (s ++ c ∷ [] ≡ d ∷ t)
cons-append [] c = (c, [], refl)
cons-append (d ∷ s) c = (d, s ++ c ∷ [], refl)

pub decimal-cons : (n : ℕ) → (d : ℕ) × (t : Text) × (decimal n ≡ d ∷ t)
unfolding decimal digits
decimal-cons n = elim (Bool-cases (ltb n 10)) [
  | inl small ↦ (48 + n, [], rw small refl)
  | inr large ↦ let (d, t, e) = cons-append (digits n (n / 10)) (48 + n % 10) in (d, t, rw large e)
]

decimal-ne-minus : (n : ℕ) (t : Text) → decimal n ≢ b'-' ∷ t
decimal-ne-minus n t e =
    let all : All IsDigit (b'-' ∷ t) = rw e at (decimal-All n) in absurd (omega (arith, all.0.0))

-- Distinct patterns of 32 bits are printed differently.
pub format_int-injective : (m n : ℕ) → m < 2 ^ 32 → n < 2 ^ 32 → format_int m ≡ format_int n → m ≡ n
unfolding format_int
format_int-injective m n hm hn e = elim (Bool-cases (ltb m (2 ^ 31))) [
  | inl p ↦ elim (Bool-cases (ltb n (2 ^ 31))) [
    | inl q ↦ decimal-injective m n (ground arith)
    | inr q ↦ absurd (decimal-ne-minus m (decimal (2 ^ 32 - n)) (ground arith))
  ]
  | inr p ↦ elim (Bool-cases (ltb n (2 ^ 31))) [
    | inl q ↦ absurd (decimal-ne-minus n (decimal (2 ^ 32 - m)) (ground arith))
    | inr q ↦ let same = decimal-injective (2 ^ 32 - m) (2 ^ 32 - n) (ground arith) in ground arith
  ]
]

-- A printed `int` takes at most eleven bytes.
pub length-format_int : (n : ℕ) → n < 2 ^ 32 → length (format_int n) ≤ 11
unfolding format_int
length-format_int n h = elim (Bool-cases (ltb n (2 ^ 31))) [
  | inl p ↦ rw p (omega (arith, length-decimal n h))
  | inr p ↦ rw p (omega (arith, length-decimal (2 ^ 32 - n) (ground arith)))
]
