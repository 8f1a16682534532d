-- ===== src/Types.antt =====
-- The structs of src/symbol.h, src/quad.h and src/quad_list.h. A pointer to a symbol, a quad or a
-- list node is its address in a store (Compiler); NULL is `none`.
use matcc.Prelude.{ℕ, Bool, Option, Text}
use matcc.Matrix.{Matrix, MatrixSize, Float}

abbrev pub Ptr : Type 0
Ptr = ℕ

pub data SymbolType : Type 0 where
  int float string matrix : SymbolType

-- The union, with the member that was written last. `intval` is the pattern of 32 bits.
-- `indeterminate` is a union that was never written.
pub data InitialValue : Type 0 where
  indeterminate : InitialValue
  intval : ℕ → InitialValue
  floatval : Float → InitialValue
  stringval : Text → InitialValue
  matrixval : Matrix → InitialValue

-- What reading the member `intval` gives, when another was written last, is a parameter.
module _ (raw_int : InitialValue → ℕ) where
  abbrev pub int_of : InitialValue → ℕ
  int_of (intval n) = n
  int_of indeterminate = raw_int indeterminate
  int_of (floatval x) = raw_int (floatval x)
  int_of (stringval t) = raw_int (stringval t)
  int_of (matrixval m) = raw_int (matrixval m)

-- `start_point` and `end_point`: `point_init` is POINT_INIT, which is -1.
pub data Point : Type 0 where
  point_init : Point
  at : ℕ → Point

-- `affected_register` is `none` for REGISTER_NONE. `stack_location` is the distance below the stack
-- pointer's start: the source holds it as a number that is not positive.
pub record Symbol : Type 0 where
  pub name : Text
  pub type : SymbolType
  pub initial_value : InitialValue
  pub constant : Bool
  pub matrix_size : MatrixSize
  pub start_point : Point
  pub end_point : Point
  pub life_time : ℕ
  pub size : ℕ
  pub affected_register : Option ℕ
  pub stack_location : ℕ

-- `max_quad` ends the enumeration and is no operation.
pub data QuadOp : Type 0 where
  nop move neg add sub mul div b be bne blt bgt blte bgte prti prtf prts ret max_quad : QuadOp

-- A comment is only printed. `assigned name v` stands for "name = %d" with the number that reading
-- `v.intval` gives, which the language leaves open unless `v` is an integer.
pub data Comment : Type 0 where
  text : Text → Comment
  assigned : Text → InitialValue → Comment

pub record Quad : Type 0 where
  pub op : QuadOp
  pub res : Option Ptr
  pub op1 : Option Ptr
  pub op2 : Option Ptr
  pub comment : Option Comment

-- `struct quad_list`
pub record Node : Type 0 where
  pub quad : Ptr
  pub successor : Option Ptr
