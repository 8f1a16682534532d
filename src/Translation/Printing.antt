-- ===== src/Translation/Printing.antt =====
-- src/mips/translation.c: `print_symbols_lifetime`.
use matcc.Prelude.{◌&&◌, [], ◌∷◌, ◌++◌, flatten, Outcome, ok, Text, codes, ◌==◌, if◌then◌else◌}
use matcc.Format.{decimal, pad}
use matcc.HashTable.{HashTable}
use matcc.Types.{Ptr, Point, point_init, at, Symbol}
use matcc.Compiler.{Store}
use matcc.SymbolTable.Printing.{newline, for_each_text}

-- `%6d` of a point: POINT_INIT is -1.
abbrev pub point_text : Point → Text
point_text point_init = pad 6 (codes "-1")
point_text (at n) = pad 6 (decimal n)

unfoldable pub lifetime_line : Symbol → Text
unfolding pad decimal
lifetime_line s =
    let conclusion =
      if s.life_time == 0 && s.constant
      then codes "const ok"
      else if s.life_time == 0
      then codes "  unused"
      else [] in
    pad 6 s.name
    ++ (b' '
        ∷ (point_text s.start_point
            ++ (b' '
                ∷ (point_text s.end_point
                    ++ (b' '
                        ∷ (pad 6 (decimal s.life_time) ++ (b' ' ∷ (conclusion ++ newline))))))))

unfoldable pub print_symbols_lifetime : HashTable Ptr → Store Symbol → Outcome Text
unfolding for_each_text lifetime_line
print_symbols_lifetime table h =
    let lines = for_each_text (λ s. ok (lifetime_line s)) h (flatten table.buckets) in
    elim lines [
      | ok text ↦ ok (codes "  name  start    end  total   concl." ++ (newline ++ text))
      | other ↦ other
    ]
