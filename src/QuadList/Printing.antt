-- ===== src/QuadList/Printing.antt =====
-- src/quad_list.c: `quad_list_print`. Its counter is an `unsigned int`.
use matcc.Prelude.{
  ℕ, zero, suc, ◌+◌, ◌%◌, ◌^◌, Option, none, some, [], ◌∷◌, ◌++◌, out_of_fuel, Text, codes,
}
use matcc.Format.{decimal, zero_pad}
use matcc.Types.{Ptr, InitialValue}
use matcc.Compiler.{Runtime, M, pure, ◌>>=◌, lift, node_at, quad_at}
use matcc.Quad.Printing.{quad_print}
use matcc.QuadList.{quad_list_size}

module _ (raw_int : InitialValue → ℕ) where
  unfoldable pub print_loop : ℕ → Option Ptr → ℕ → M Text
  unfolding zero_pad quad_print
  print_loop zero list quad_counter s = out_of_fuel
  print_loop (suc fuel) none quad_counter s = pure [] s
  print_loop (suc fuel) (some l) quad_counter s =
      (do
        node ← node_at (some l)
        quad ← quad_at (some node.quad)
        line ← quad_print raw_int quad
        rest ← print_loop fuel node.successor ((quad_counter + 1) % 2 ^ 32)
        pure (zero_pad 4 quad_counter ++ (codes ": " ++ (line ++ rest))))
        s

  unfoldable pub quad_list_print : Runtime → Option Ptr → M Text
  unfolding print_loop quad_list_size decimal
  quad_list_print rt list = do
    size ← λ s. lift (quad_list_size rt list s) s
    lines ← print_loop rt.fuel list 0
    pure (b'(' ∷ (decimal size ++ (codes " quads)" ++ (b'\n' ∷ lines))))
