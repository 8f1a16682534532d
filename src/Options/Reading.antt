-- ===== src/Options/Reading.antt =====
-- src/main.c: every command line is one that is written from flags and an ending.
use matcc.Prelude.{
  ◌≡◌, refl, ◌∙◌, ap, Bool, Bool-cases, inl, inr, List, [], ◌∷◌, ◌++◌, Text, codes, str_eq,
  eq_of_str_eq, All,
}
use matcc.Options.{
  Options, Argument, h_flag, d_flag, dd_flag, c_flag, o_flag, other, argument, parse,
}
use matcc.Options.Flags.{
  Flag, debug_flag, both_flag, quads_flag, output_flag, words, Ending, nothing, no_path,
  source_file, asks_help, unopened, unrecognized, ending_words, command_line, meaning, Opens, Ends,
  parse-command_line,
}

-- What an argument is, by the test that it passes.
abbrev Means : Text → Argument → Type 0
Means arg h_flag = arg ≡ codes "-h"
Means arg d_flag = arg ≡ codes "-d"
Means arg dd_flag = arg ≡ codes "-dd"
Means arg c_flag = arg ≡ codes "-c"
Means arg o_flag = arg ≡ codes "-o"
Means arg other = Unit

argument-Means : (arg : Text) → Means arg (argument arg)
unfolding argument
argument-Means arg = elim (Bool-cases (str_eq arg (codes "-h"))) [
  | inl e ↦ rw e (eq_of_str_eq arg (codes "-h") e)
  | inr f ↦ elim (Bool-cases (str_eq arg (codes "-d"))) [
    | inl e ↦ rw (f, e) (eq_of_str_eq arg (codes "-d") e)
    | inr f1 ↦ elim (Bool-cases (str_eq arg (codes "-dd"))) [
      | inl e ↦ rw (f, f1, e) (eq_of_str_eq arg (codes "-dd") e)
      | inr f2 ↦ elim (Bool-cases (str_eq arg (codes "-c"))) [
        | inl e ↦ rw (f, f1, f2, e) (eq_of_str_eq arg (codes "-c") e)
        | inr f3 ↦ elim (Bool-cases (str_eq arg (codes "-o"))) [
          | inl e ↦ rw (f, f1, f2, f3, e) (eq_of_str_eq arg (codes "-o") e)
          | inr f4 ↦ rw (f, f1, f2, f3, f4) tt
        ]
      ]
    ]
  ]
]

argument-cases : (arg : Text) → (k : Argument) × (argument arg ≡ k) × Means arg k
argument-cases arg = (argument arg, refl, argument-Means arg)

module _ (can_open : Text → Text → Bool) where
  -- The command line is one of those that are written from flags and an ending.
  pub record Read (args : List Text) : Type 0 where
    pub flags : List Flag
    pub ending : Ending
    pub written : args ≡ command_line flags ending
    pub opens : All (Opens can_open) flags
    pub ends : Ends can_open ending

  Read-end :
      (args : List Text) (ending : Ending)
      → args ≡ ending_words ending
      → Ends can_open ending
      → Read args
  Read-end args ending e ends = record {
    flags = [];
    ending = ending;
    written = e;
    opens = tt;
    ends = ends;
  }

  Read-flag :
      (flag : Flag) (args rest : List Text)
      → args ≡ words flag ++ rest
      → Opens can_open flag
      → Read rest
      → Read args
  Read-flag flag args rest e open' r = record {
    flags = flag ∷ r.flags;
    ending = r.ending;
    written = e ∙ ap (λ t. words flag ++ t) r.written;
    opens = (open', r.opens);
    ends = r.ends;
  }

  -- The last argument.
  Read-last : (arg : Text) (k : Argument) → argument arg ≡ k → Means arg k → Read (arg ∷ [])
  Read-last arg h_flag _ e = Read-end (arg ∷ []) (asks_help []) (ap (λ t. t ∷ []) e) tt
  Read-last arg d_flag _ e =
      Read-flag debug_flag (arg ∷ []) [] (ap (λ t. t ∷ []) e) tt (Read-end [] nothing refl tt)
  Read-last arg dd_flag _ e =
      Read-flag both_flag (arg ∷ []) [] (ap (λ t. t ∷ []) e) tt (Read-end [] nothing refl tt)
  Read-last arg c_flag _ e =
      Read-flag quads_flag (arg ∷ []) [] (ap (λ t. t ∷ []) e) tt (Read-end [] nothing refl tt)
  Read-last arg o_flag _ e = Read-end (arg ∷ []) no_path (ap (λ t. t ∷ []) e) tt
  Read-last arg other e _ = Read-end (arg ∷ []) (source_file arg) refl e

  -- An argument with others behind it.
  Read-more :
      (arg next : Text) (args : List Text) (k : Argument)
      → argument arg ≡ k
      → Means arg k
      → Read (next ∷ args)
      → Read args
      → Read (arg ∷ next ∷ args)
  Read-more arg next args h_flag _ e r r' =
      Read-end (arg ∷ next ∷ args) (asks_help (next ∷ args)) (ap (λ t. t ∷ next ∷ args) e) tt
  Read-more arg next args d_flag _ e r r' =
      Read-flag debug_flag (arg ∷ next ∷ args) (next ∷ args) (ap (λ t. t ∷ next ∷ args) e) tt r
  Read-more arg next args dd_flag _ e r r' =
      Read-flag both_flag (arg ∷ next ∷ args) (next ∷ args) (ap (λ t. t ∷ next ∷ args) e) tt r
  Read-more arg next args c_flag _ e r r' =
      Read-flag quads_flag (arg ∷ next ∷ args) (next ∷ args) (ap (λ t. t ∷ next ∷ args) e) tt r
  Read-more arg next args o_flag _ e r r' = elim (Bool-cases (can_open next (codes "w+"))) [
    | inl opens ↦
        Read-flag (output_flag next) (arg ∷ next ∷ args) args (ap (λ t. t ∷ next ∷ args) e) opens r'
    | inr closed ↦
        Read-end (arg ∷ next ∷ args) (unopened next args) (ap (λ t. t ∷ next ∷ args) e) closed
  ]
  Read-more arg next args other e _ r r' =
      Read-end (arg ∷ next ∷ args) (unrecognized arg next args) refl e

  every_command_line : (args : List Text) → Read args
  every_command_line [] = Read-end [] nothing refl tt
  every_command_line (arg ∷ []) = let (k, e, m) = argument-cases arg in Read-last arg k e m
  every_command_line (arg ∷ next ∷ args) =
      let (k, e, m) = argument-cases arg in
      Read-more arg next args k e m (every_command_line (next ∷ args)) (every_command_line args)

  -- Every command line is flags and one of the endings, and is read for what they mean: nothing else
  -- is accepted, and nothing is read in another way.
  pub parse-Read :
      (args : List Text) (o : Options)
      → (flags : List Flag) × (ending : Ending) × (args ≡ command_line flags ending)
        × All (Opens can_open) flags
        × Ends can_open ending
        × (parse can_open args o ≡ meaning can_open flags ending o)
  parse-Read args o =
      let r = every_command_line args in
      (
        r.flags,
        r.ending,
        r.written,
        r.opens,
        r.ends,
        ap (λ t. parse can_open t o) r.written
            ∙ parse-command_line can_open r.flags r.ending o r.opens r.ends,
      )
