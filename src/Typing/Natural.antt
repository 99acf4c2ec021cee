-- ===== src/Typing/Natural.antt =====
-- typing/typing.go: the delay of the natural mode.
use wavonyx.Prelude.{
  ℕ, zero, suc, ◌+◌, ◌-◌, ◌*◌, Bool, false, not, ◌&&◌, ◌||◌, [], ◌∷◌, Str, is_space, length, leb,
  ◌==◌, if◌then◌else◌, is_empty,
}
use wavonyx.Prelude.Int.{ℤ, pos, ◌+ℤ◌, wrap64}
use wavonyx.Typing.Options.{
  Float, FloatOps, Rng, Config, zero_float, one_cps, jitter_lo, jitter_range, pause_prob,
  float_second, millisecond, clamp,
}

unfoldable pub is_sentence_end : ℕ → Bool
is_sentence_end r = r == b'.' || r == b'!' || r == b'?' || r == 0x3002 || r == 0xff01 || r == 0xff1f

unfoldable pub float64 : Rng → Float × Rng
float64 r = (r.float_at r.drawn, record r { drawn = suc r.drawn })

unfoldable pub int_n : Rng → ℕ → ℕ × Rng
int_n r n = (r.int_at r.drawn n, record r { drawn = suc r.drawn })

-- The two bounds are constants at both calls.
unfoldable pub uniform_ms : Rng → ℕ → ℕ → ℤ × Rng
uniform_ms r lo hi =
    if leb hi lo
    then (pos (lo * millisecond), r)
    else (pos ((lo + (int_n r (hi - lo + 1)).0) * millisecond), (int_n r (hi - lo + 1)).1)

-- `runes[start:wordEnd]` and what follows it.
unfoldable pub split_word : Str → Str × Str
unfolding is_space
split_word [] = ([], [])
split_word (r ∷ rs) =
    let (w, rest) = split_word rs in if is_space r then ([], r ∷ rs) else (r ∷ w, rest)

-- The second inner loop: whether a newline was seen, and what follows the white space.
unfoldable pub skip_space : Bool → Str → Bool × Str
unfolding is_space
skip_space saw [] = (saw, [])
skip_space saw (r ∷ rs) =
    let more = skip_space (saw || r == b'\n') rs in if is_space r then more else (saw, r ∷ rs)

-- `isSentenceEnd(runes[wordEnd-1])`, for a word that is not empty.
unfoldable pub ends_sentence : Str → Bool
unfolding is_sentence_end
ends_sentence [] = false
ends_sentence (r ∷ []) = is_sentence_end r
ends_sentence (r ∷ s ∷ w) = ends_sentence (s ∷ w)

module _ (ops : FloatOps) where
  -- The pause after a word, if there is one.
  unfoldable pub pause : Bool → ℤ → Rng → ℤ × Rng
  pause wanted total r =
      let (p, r') = float64 r in
      let (d, r'') = uniform_ms r' 350 900 in
      if wanted
      then (if ops.lt p pause_prob then (wrap64 (total +ℤ d), r'') else (total, r'))
      else (total, r)

  -- One word: its share of the delay, and the pause.
  unfoldable pub word_delay : Float → Str → Bool → ℤ → Rng → ℤ × Rng
  word_delay cps word wanted total r =
      let (f, r') = float64 r in
      let jitter = ops.add jitter_lo (ops.mul f jitter_range) in
      let d =
        ops.to_int
          (ops.mul (ops.mul (ops.div (ops.of_int (length word)) cps) jitter) float_second) in
      pause wanted (wrap64 (total +ℤ d)) r'

  -- The loop over the runes, with fuel; each round but one on leading white space takes a word.
  unfoldable pub words : ℕ → Float → Str → ℤ → Rng → ℤ × Rng
  words zero cps rs total r = (total, r)
  words (suc fuel) cps [] total r = (total, r)
  words (suc fuel) cps (c ∷ rs) total r =
      let (word, after) = split_word (c ∷ rs) in
      let (saw, rest) = skip_space false after in
      let wanted = not (is_empty rest) && (saw || ends_sentence word) in
      let (total', r') =
        (if is_empty word then (total, r) else word_delay cps word wanted total r) in
      words fuel cps rest total' r'

  unfoldable pub natural_duration : Str → Config → Rng → ℤ × Rng
  natural_duration text c r =
      let (f, r1) = float64 r in
      let drawn_cps = ops.add c.min_cps (ops.mul f (ops.sub c.max_cps c.min_cps)) in
      let cps = if ops.le drawn_cps zero_float then one_cps else drawn_cps in
      let (total, r2) = uniform_ms r1 300 900 in
      let (total', r3) = words (length text) cps text total r2 in
      (clamp total' c.min_total c.max_total, r3)
