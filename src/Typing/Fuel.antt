-- ===== src/Typing/Fuel.antt =====
-- typing/typing.go: the loop over the words of a text ends by itself.
use wavonyx.Prelude.{
  ℕ, zero, suc, ◌≤◌, ◌≡◌, refl, Bool, false, ◌||◌, [], ◌∷◌, Str, length, arith, ◌==◌,
}
use wavonyx.Prelude.Int.{ℤ}
use wavonyx.Typing.Options.{Float, FloatOps, Rng}
use wavonyx.Typing.Natural.{split_word, skip_space, words}

length-skip_space-le : (saw : Bool) (s : Str) → length (skip_space saw s).1 ≤ length s
unfolding skip_space
length-skip_space-le saw [] = omega arith
length-skip_space-le saw (r ∷ rs) = ground (arith, length-skip_space-le (saw || r == b'\n') rs)

length-split_word-le : (s : Str) → length (split_word s).1 ≤ length s
unfolding split_word
length-split_word-le [] = omega arith
length-split_word-le (r ∷ rs) = ground (arith, length-split_word-le rs)

-- A round takes a rune at least.
rest_shorter : (c : ℕ) (rs : Str) → length (skip_space false (split_word (c ∷ rs)).1).1 ≤ length rs
unfolding split_word skip_space
rest_shorter c rs = ground (
  arith,
  length-skip_space-le (false || c == b'\n') rs,
  length-skip_space-le false (split_word rs).1,
  length-split_word-le rs,
)

-- Any two amounts of fuel that are at least the number of runes of the text give the same delay and the
-- same draws, so a loop that has a round for each rune never runs out.
pub words-fuel :
    (ops : FloatOps) (f g : ℕ) (cps : Float) (s : Str) (total : ℤ) (r : Rng)
    → length s ≤ f
    → length s ≤ g
    → words ops f cps s total r ≡ words ops g cps s total r
unfolding words
words-fuel ops zero zero cps s total r h j = refl
words-fuel ops zero (suc g) cps [] total r h j = refl
words-fuel ops zero (suc g) cps (c ∷ s) total r h j = absurd (omega arith)
words-fuel ops (suc f) zero cps [] total r h j = refl
words-fuel ops (suc f) zero cps (c ∷ s) total r h j = absurd (omega arith)
words-fuel ops (suc f) (suc g) cps [] total r h j = refl
words-fuel ops (suc f) (suc g) cps (c ∷ s) total r h j =
    words-fuel ops f g cps (skip_space false (split_word (c ∷ s)).1).1 _ _
      (omega (arith, rest_shorter c s)) (omega (arith, rest_shorter c s))
