-- ===== src/QuadList.antt =====
-- src/quad_list.c: lists of quads, linked through `successor`. A loop along a list makes at most
-- `fuel` steps; the theorems say when it ends within them, and when with no fuel at all.
pub mod Segments
pub mod Concat
pub mod Complete
pub mod Cycles
pub mod Fresh
pub mod Printing
pub mod Push
use matcc.Prelude.{
  ℕ, zero, suc, ◌+◌, Option, none, some, List, [], ◌∷◌, Outcome, ok, abort, fault, out_of_fuel,
}
use matcc.Types.{Ptr, Node}
use matcc.Compiler.{
  Store, Compiler, Runtime, M, pure, ◌>>=◌, ◌>>◌, lift, alloc, quad_at, node_at, set_quad, set_node,
}

unfoldable pub quad_list_new : Ptr → M Ptr
quad_list_new quad s =
    ok (s.nodes.next, record s { nodes = alloc s.nodes (record { quad = quad; successor = none }) })

-- `for(; l->successor != NULL; l = l->successor);`
unfoldable pub last_node : ℕ → Store Node → Ptr → Outcome Ptr
last_node zero h l = out_of_fuel
last_node (suc fuel) h l = elim (h.cell l) [
  | none ↦ fault
  | some n ↦ elim n.successor [ none ↦ ok l | some l' ↦ last_node fuel h l' ]
]

unfoldable pub last : ℕ → Ptr → M Ptr
last fuel l s = lift (last_node fuel s.nodes l) s

-- The loop, and `l->successor = target`.
unfoldable pub link : ℕ → Ptr → Option Ptr → M (Unit {0})
link fuel l target = do
  end ← last fuel l
  n ← node_at (some end)
  set_node end (record n { successor = target })

-- `list->quad->res = label` along the list.
unfoldable pub complete : ℕ → Option Ptr → Option Ptr → M (Unit {0})
complete zero list label = λ s. out_of_fuel
complete (suc fuel) none label = pure tt
complete (suc fuel) (some l) label = do
  n ← node_at (some l)
  quad ← quad_at (some n.quad)
  set_quad n.quad (record quad { res = label })
  complete fuel n.successor label

unfoldable pub size_loop : ℕ → Store Node → Option Ptr → ℕ → Outcome ℕ
size_loop zero h list size = out_of_fuel
size_loop (suc fuel) h none size = ok size
size_loop (suc fuel) h (some l) size = elim (h.cell l) [
  | none ↦ fault
  | some n ↦ size_loop fuel h n.successor (size + 1)
]

module _ (rt : Runtime) where
  -- `dest` is the variable behind the pointer: its new value is the result.
  unfoldable pub quad_list_push : Option Ptr → Ptr → M (Option Ptr)
  quad_list_push none quad = do l ← quad_list_new quad; pure (some l)
  quad_list_push (some dest) quad = do
    end ← last rt.fuel dest
    l ← quad_list_new quad
    n ← node_at (some end)
    set_node end (record n { successor = some l })
    pure (some dest)

  -- The loop of `quad_list_concat` over its arguments.
  unfoldable pub concat_loop : Option Ptr → List (Option Ptr) → M (Option Ptr)
  concat_loop result [] = pure result
  concat_loop none (src ∷ sources) = concat_loop src sources
  concat_loop (some l) (src ∷ sources) = do link rt.fuel l src; concat_loop (some l) sources

  unfoldable pub quad_list_concat : List (Option Ptr) → M (Option Ptr)
  quad_list_concat sources = concat_loop none sources

  unfoldable pub quad_list_complete : Option Ptr → Option Ptr → M (Unit {0})
  quad_list_complete list label = complete rt.fuel list label

  unfoldable pub quad_list_size : Option Ptr → Compiler → Outcome ℕ
  quad_list_size list s = size_loop rt.fuel s.nodes list 0
