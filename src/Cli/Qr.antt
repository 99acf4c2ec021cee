-- ===== src/Cli/Qr.antt =====
-- cmd/wavonyx/qr.go: the QR code and the part of the terminal that it is redrawn in.
use wavonyx.Prelude.{
  ℕ, ◌-◌, Bool, false, not, List, [], ◌∷◌, ◌++◌, Str, length, ltb, replicate, if◌then◌else◌,
}

-- The colours of the two halves of a cell: whether the top and the bottom are dark.
pub record Cell : Type 0 where
  pub foreground : ℕ
  pub background : ℕ

unfoldable pub cell_of : Bool → Bool → Bool → Cell
cell_of invert top bottom =
    let t = if invert then not top else top in
    let b = if invert then not bottom else bottom in
    record { foreground = if t then 30 else 97; background = if b then 40 else 47 }

-- One row of cells, for two rows of the bitmap, which is square; a missing second row is light.
unfoldable pub cell_row : Bool → List Bool → List Bool → List Cell
unfolding cell_of
cell_row invert [] bottom = []
cell_row invert (t ∷ top) [] = cell_of invert t false ∷ cell_row invert top []
cell_row invert (t ∷ top) (b ∷ bottom) = cell_of invert t b ∷ cell_row invert top bottom

-- The loop of `renderQR` with colour.
unfoldable pub render_rows : Bool → List (List Bool) → List (List Cell)
unfolding cell_row
render_rows invert [] = []
render_rows invert (top ∷ []) = cell_row invert top [] ∷ []
render_rows invert (top ∷ bottom ∷ rows) = cell_row invert top bottom ∷ render_rows invert rows

-- What is written to the screen: the cursor goes up, or a line is cleared and written.
pub data Write : Type 0 where
  up : ℕ → Write
  line plain_line : Str → Write

-- `liveScreen`, without its writer.
pub record LiveScreen : Type 0 where
  pub tty : Bool
  pub lines : ℕ

unfoldable pub lines_of : (Str → Write) → List Str → List Write
lines_of f [] = []
lines_of f (l ∷ ls) = f l ∷ lines_of f ls

abbrev pub back : ℕ → List Write
back n = if ltb 0 n then up n ∷ [] else []

-- `render`, of a text that is split into lines: as many lines as last time at least.
unfoldable pub render : List Str → LiveScreen → List Write × LiveScreen
unfolding lines_of
render lines s =
    if s.tty
    then (
      back s.lines ++ lines_of line (lines ++ replicate (s.lines - length lines) []),
      record s { lines = if ltb (length lines) s.lines then s.lines else length lines },
    )
    else (lines_of plain_line lines, s)
