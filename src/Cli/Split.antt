-- ===== src/Cli/Split.antt =====
-- cmd/wavonyx/main.go and output.go: what the order of the arguments does not change.
use wavonyx.Prelude.{◌≡◌, true, false, List, [], ◌∷◌, ◌++◌, Str}
use wavonyx.Cli.Args.{is_flag, is_single, is_pair}

-- A global flag, with its value if it takes one.
pub data Global : List Str → Type 0 where
  single : (f : Str) → is_flag f ≡ true → is_single f ≡ true → Global (f ∷ [])
  pair :
      (f v : Str) → is_flag f ≡ true → is_single f ≡ false → is_pair f ≡ true → Global (f ∷ v ∷ [])

-- A sequence of global flags.
pub data Globals : List Str → Type 0 where
  nil : Globals []
  cons : (g gs : List Str) → Global g → Globals gs → Globals (g ++ gs)
