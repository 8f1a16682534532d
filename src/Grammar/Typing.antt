-- ===== src/Grammar/Typing.antt =====
-- src/parsing/parser.y: the types of the expressions, and the actions that check them.
use matcc.Prelude.{
  ℕ, suc, ◌+◌, ◌^◌, ◌≤◌, ◌<◌, ◌≡◌, refl, ◌∙◌, Bool-cases, inl, inr, Option, none, some, Outcome, ok,
  types_do_not_match, arith, ◌==◌,
}
use matcc.Matrix.{Float}
use matcc.Types.{Ptr, SymbolType, int, float, string, Symbol, intval, floatval, stringval, neg}
use matcc.Compiler.{Compiler, Runtime, ◌>>=◌, ◌>>◌, read}
use matcc.Actions.Expressions.{
  ExprAttr, type_index, ensure_type_match, declare_int_constant, declare_float_constant,
  declare_string_constant, unary_arithmetic_op, binary_arithmetic_op,
}
use matcc.Grammar.{
  ArithmeticOp, arithmetic_op, Expression, integerconst, floatconst, stringconst, matrixconst,
  identifier, negated, computed, parenthesized, expression,
}
use matcc.Grammar.Environment.{types_in, IsEnvironment, Later, Later-trans}
use matcc.Grammar.Making.{declare_constant-HasType, with_temp-HasType}
use matcc.Grammar.TypeOf.{type_of_operation, type_of, size, type_of-same, Checked}
use matcc.Grammar.Leaves.{matrix-Checked, identifier-Checked}

-- An action behind others.
Checked-trans :
    (o : Option SymbolType) (m n k : ℕ) (s s1 : Compiler) (r r' : Outcome (ExprAttr × Compiler))
    → Later m s s1
    → Checked n s1 o r
    → r' ≡ r
    → m + n ≤ k
    → Checked k s o r'
Checked-trans none m n k s s1 r r' later (a, run) same le = (a, same ∙ run)
Checked-trans (some type) m n k s s1 r r' later (t, run, h) same le = (
  t,
  same ∙ run,
  record {
    pointer = h.pointer;
    value = h.value;
    returned = h.returned;
    cell = h.cell;
    typed = h.typed;
    later = Later-trans m n k s s1 t.1 later h.later le;
  },
)

module _ (rt : Runtime) (junk : Float) where
  binary-Checked :
      (a1 a2 : ExprAttr) (op : ArithmeticOp) (p1 p2 : Ptr) (x1 x2 : Symbol) (s : Compiler)
      → a1.symbol ≡ some p1
      → a2.symbol ≡ some p2
      → s.symbols.cell p1 ≡ some x1
      → s.symbols.cell p2 ≡ some x2
      → IsEnvironment s
      → suc s.temps_count < 2 ^ 32
      → Checked 1 s
          (type_of_operation (some x1.type) (some x2.type))
          (binary_arithmetic_op rt a1 (arithmetic_op op) a2 s)
  unfolding binary_arithmetic_op ensure_type_match
  binary-Checked a1 a2 op p1 p2 x1 x2 s e1 e2 at1 at2 env room =
      elim (Bool-cases (type_index x1.type == type_index x2.type)) [
        | inl same ↦
            rw (◌>>=◌, ◌>>◌, read, e1, at1, e2, at2, same, e1, at1)
              (with_temp-HasType rt s env x1.type (arithmetic_op op) a1.symbol a2.symbol room)
        | inr differ ↦
            rw (◌>>=◌, ◌>>◌, read, e1, at1, e2, at2, differ)
              (types_do_not_match x1.name x2.name, refl)
      ]

  negated-Checked :
      (o : Option SymbolType) (e : Expression) (n : ℕ) (s : Compiler)
      → Checked n s o (expression rt junk e s)
      → s.temps_count + (n + 1) < 2 ^ 32
      → Checked (n + 1) s o (expression rt junk (negated e) s)
  unfolding expression unary_arithmetic_op
  negated-Checked none e n s (a, run) room = (a, rw (◌>>=◌, run) refl)
  negated-Checked (some type) e n s (r, run, h) room =
      let result =
        with_temp-HasType rt r.1 h.later.environment h.value.type neg r.0.symbol none
          (omega (arith, h.later.temps)) in
      Checked-trans (some type) n 1 (n + 1) s r.1 (ok result.0) (expression rt junk (negated e) s)
        h.later (rw (← h.typed) (result.0, refl, result.2))
        (rw (◌>>=◌, run, read, h.returned, h.cell, ← h.returned) result.1) (omega arith)

  computed-Checked :
      (o1 o2 : Option SymbolType) (e1 : Expression) (op : ArithmeticOp) (e2 : Expression)
      (n1 n2 : ℕ) (s : Compiler)
      → Checked n1 s o1 (expression rt junk e1 s)
      → ((s1 : Compiler) → Later n1 s s1 → Checked n2 s1 o2 (expression rt junk e2 s1))
      → s.temps_count + (n1 + n2 + 1) < 2 ^ 32
      → Checked (n1 + n2 + 1) s (type_of_operation o1 o2) (expression rt junk (computed e1 op e2) s)
  unfolding expression
  computed-Checked none o2 e1 op e2 n1 n2 s (a, run) next room = (a, rw (◌>>=◌, run) refl)
  computed-Checked (some t1) none e1 op e2 n1 n2 s (r, run, h) next room =
      let (a, run2) = next r.1 h.later in (a, rw (◌>>=◌, run, run2) refl)
  computed-Checked (some t1) (some t2) e1 op e2 n1 n2 s (r1, run1, h1) next room =
      let (r2, run2, h2) = next r1.1 h1.later in
      let later = Later-trans n1 n2 (n1 + n2) s r1.1 r2.1 h1.later h2.later (omega arith) in
      let checked =
        binary-Checked r1.0 r2.0 op h1.pointer h2.pointer h1.value h2.value r2.1 h1.returned
          h2.returned (h2.later.symbols h1.pointer h1.value h1.cell) h2.cell h2.later.environment
          (omega (arith, later.temps)) in
      Checked-trans (type_of_operation (some t1) (some t2)) (n1 + n2) 1 (n1 + n2 + 1) s r2.1
        (binary_arithmetic_op rt r1.0 (arithmetic_op op) r2.0 r2.1)
        (expression rt junk (computed e1 op e2) s) later (rw (← h1.typed, ← h2.typed) checked)
        (rw (◌>>=◌, run1, run2) refl) (omega arith)

  -- In a table whose names are those of symbols, none of a temporary or constant to come, and while
  -- there are numbers for its temporaries and constants, the actions of an expression check its
  -- types: if the types of its variables give it a type, they end normally and return a symbol of that
  -- type, and no symbol and no type of a variable has changed; if it has none, because a variable is
  -- unknown, two operands have different types or the rows of a matrix have different widths, they
  -- end the process with an error.
  pub expression-Checked :
      (e : Expression) (s : Compiler)
      → IsEnvironment s
      → s.temps_count + size e < 2 ^ 32
      → s.constants_count + size e < 2 ^ 32
      → Checked (size e) s (type_of (types_in s) e) (expression rt junk e s)
  unfolding expression declare_int_constant declare_float_constant declare_string_constant
  expression-Checked (integerconst n) s env temps constants =
      declare_constant-HasType rt s env int (intval n) (omega arith)
  expression-Checked (floatconst x) s env temps constants =
      declare_constant-HasType rt s env float (floatval x) (omega arith)
  expression-Checked (stringconst t) s env temps constants =
      declare_constant-HasType rt s env string (stringval t) (omega arith)
  expression-Checked (matrixconst m) s env temps constants =
      matrix-Checked rt junk m s env (omega arith)
  expression-Checked (identifier name) s env temps constants = identifier-Checked rt junk name s env
  expression-Checked (negated e) s env temps constants =
      negated-Checked (type_of (types_in s) e) e (size e) s
        (expression-Checked e s env (omega arith) (omega arith)) temps
  expression-Checked (computed e1 op e2) s env temps constants =
      computed-Checked (type_of (types_in s) e1) (type_of (types_in s) e2) e1 op e2 (size e1)
        (size e2) s (expression-Checked e1 s env (omega arith) (omega arith))
        (λ s1 later. rw (← type_of-same (types_in s1) (types_in s) later.types e2) (
          expression-Checked e2 s1 later.environment (omega (arith, later.temps))
            (omega (arith, later.constants))))
        temps
  expression-Checked (parenthesized e) s env temps constants =
      expression-Checked e s env temps constants
