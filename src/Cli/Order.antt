-- ===== src/Cli/Order.antt =====
-- cmd/wavonyx/output.go: where `permuteFlags` puts each argument.
use mathlib.Core.List.{Perm}
use mathlib.Core.List.Perm
use wavonyx.Prelude.{◌≡◌, true, false, List, [], ◌∷◌, Str, codes, str_eq}
use wavonyx.Cli.Args.{FlagSet, is_positional, wants_next}

-- What the arguments are, one after the other: words, flags alone, and flags with their values. None of
-- them is a `--` that ends the flags; a value may be anything.
pub data Given (fs : FlagSet) : List Str → List Str → List Str → Type 0 where
  nil : Given fs [] [] []
  word :
      {args flags words : List Str} (a : Str)
      → str_eq a (codes "--") ≡ false
      → is_positional a ≡ true
      → Given fs args flags words
      → Given fs (a ∷ args) flags (a ∷ words)
  switch :
      {args flags words : List Str} (a : Str)
      → str_eq a (codes "--") ≡ false
      → is_positional a ≡ false
      → wants_next fs a ≡ false
      → Given fs args flags words
      → Given fs (a ∷ args) (a ∷ flags) words
  option :
      {args flags words : List Str} (a value : Str)
      → str_eq a (codes "--") ≡ false
      → is_positional a ≡ false
      → wants_next fs a ≡ true
      → Given fs args flags words
      → Given fs (a ∷ value ∷ args) (a ∷ value ∷ flags) words
