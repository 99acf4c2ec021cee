-- ===== src/Typing/Bounds.antt =====
-- typing/typing.go: the range of a delay, and what the normalisation of a configuration gives.
use wavonyx.Prelude.{◌≡◌, refl, ◌≢◌, ◌⊎◌, false, [], ◌∷◌, Option, Str, arith}
use wavonyx.Prelude.Int.{ℤ, pos, ◌≤ℤ◌}
use wavonyx.Typing.Options.{
  Float, FloatOps, Rng, Mode, constant, natural, Config, default_min_cps, default_max_cps,
  zero_float, with_defaults, clamp,
}
use wavonyx.Typing.Natural.{natural_duration}
use wavonyx.Typing.{or_seeded, duration_by, duration}

-- What the package relies on of float64 comparisons.
pub record IsFloatOrder (ops : FloatOps) : Type 0 where
  pub irreflexive : (f : Float) → ops.lt f f ≡ false
  pub min_positive : ops.le default_min_cps zero_float ≡ false
  pub max_positive : ops.le default_max_cps zero_float ≡ false

-- The clamp gives a value of the range, if the range is not empty.
pub clamp_bounds :
    (d lo hi : ℤ) → pos 1 ≤ℤ lo → lo ≤ℤ hi → (lo ≤ℤ clamp d lo hi) × (clamp d lo hi ≤ℤ hi)
unfolding clamp
clamp_bounds d lo hi p h = ground arith

-- The configuration that `Duration` works with.
pub record IsNormal (c : Config) : Type 0 where
  pub per_char_pos : pos 1 ≤ℤ c.per_char
  pub min_pos : pos 1 ≤ℤ c.min_total
  pub ordered : c.min_total ≤ℤ c.max_total

pub with_defaults-IsNormal : (ops : FloatOps) (c : Config) → IsNormal (with_defaults ops c)
unfolding with_defaults
with_defaults-IsNormal ops c = record {
  per_char_pos = ground arith;
  min_pos = ground arith;
  ordered = ground arith;
}

-- Filling in the defaults twice changes nothing more.
pub with_defaults_idem :
    (ops : FloatOps) (c : Config)
    → IsFloatOrder ops
    → with_defaults ops (with_defaults ops c) ≡ with_defaults ops c
unfolding with_defaults
with_defaults_idem ops c v =
    ground (
      arith,
      v.min_positive,
      v.max_positive,
      v.irreflexive c.min_cps,
      v.irreflexive default_min_cps,
    )

natural_duration_bounds :
    (ops : FloatOps) (text : Str) (c : Config) (r : Rng)
    → IsNormal c
    → (c.min_total ≤ℤ (natural_duration ops text c r).0)
      × ((natural_duration ops text c r).0 ≤ℤ c.max_total)
unfolding natural_duration
natural_duration_bounds ops text c r v = clamp_bounds _ c.min_total c.max_total v.min_pos v.ordered

-- A mode that shows the indicator.
abbrev pub Types : Mode → Type 0
Types m = (m ≡ constant) ⊎ (m ≡ natural)

duration_by_bounds :
    (ops : FloatOps) (m : Mode) (seeded : Rng) (text : Str) (c : Config) (r : Option Rng)
    → IsNormal c
    → Types m
    → (c.min_total ≤ℤ (duration_by ops m seeded text c r).0)
      × ((duration_by ops m seeded text c r).0 ≤ℤ c.max_total)
unfolding duration_by
duration_by_bounds ops constant seeded text c r v t =
    clamp_bounds _ c.min_total c.max_total v.min_pos v.ordered
duration_by_bounds ops natural seeded text c r v t =
    natural_duration_bounds ops text c (or_seeded seeded r) v
duration_by_bounds ops _ seeded text c r v t = absurd (ground arith)

-- In the constant and the natural mode the delay before a text that is not empty lies between the
-- normalised floor and ceiling, whatever the generator draws.
pub duration_bounds :
    (ops : FloatOps) (seeded : Rng) (text : Str) (c : Config) (r : Option Rng)
    → text ≢ []
    → Types (with_defaults ops c).mode
    → ((with_defaults ops c).min_total ≤ℤ (duration ops seeded text c r).0)
      × ((duration ops seeded text c r).0 ≤ℤ (with_defaults ops c).max_total)
unfolding duration
duration_bounds ops seeded [] c r h m = absurd (h refl)
duration_bounds ops seeded (x ∷ text) c r h m =
    duration_by_bounds ops (with_defaults ops c).mode seeded (x ∷ text) (with_defaults ops c) r
      (with_defaults-IsNormal ops c) m
