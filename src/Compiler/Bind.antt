-- ===== src/Compiler/Bind.antt =====
-- Inversion of a step in the monad that ended normally.
use matcc.Prelude.{◌≡◌, refl, Outcome, ok, abort, fault, out_of_fuel}
use matcc.Compiler.{Compiler, M, ◌>>=◌}

invert :
    {A B : Type 0} (o : Outcome (A × Compiler)) (f : A → M B) (r : B × Compiler)
    → let next : Outcome (B × Compiler) = elim o [
      | ok (a, s') ↦ f a s'
      | abort e ↦ abort e
      | fault ↦ fault
      | out_of_fuel ↦ out_of_fuel
    ] in
      next ≡ ok r → (a : A) × (s' : Compiler) × (o ≡ ok (a, s')) × (f a s' ≡ ok r)
invert (ok (a, s')) f r e = (a, s', refl, e)
invert (abort x) f r e = cc
invert fault f r e = cc
invert out_of_fuel f r e = cc

pub >>=-eq-ok :
    {A B : Type 0} (m : M A) (f : A → M B) (s : Compiler) (r : B × Compiler)
    → (m >>= f) s ≡ ok r
    → (a : A) × (s' : Compiler) × (m s ≡ ok (a, s')) × (f a s' ≡ ok r)
>>=-eq-ok m f s r e = invert (m s) f r e
