-- ===== src/Typing.antt =====
-- typing/typing.go: how long to show the typing indicator before a message is sent.
pub mod Options
pub mod Natural
pub mod Bounds
pub mod Fuel
pub mod Tests
use wavonyx.Prelude.{
  ℕ, zero, suc, ◌+◌, ◌-◌, ◌*◌, Bool, true, false, not, ◌&&◌, ◌||◌, List, [], ◌∷◌, Option, none,
  some, Str, is_space, length, ltb, leb, ◌==◌, if◌then◌else◌, is_empty,
}
use wavonyx.Prelude.Int.{ℤ, pos, negsuc, ◌+ℤ◌, ◌*ℤ◌, ltb_ℤ, is_nonpos, wrap64}
use Options.{
  Float, FloatOps, Rng, Mode, unset, off, constant, natural, other, Config, Override, with_defaults,
  clamp,
}
use Natural.{natural_duration}

abbrev or_seeded : Rng → Option Rng → Rng
or_seeded seeded none = seeded
or_seeded seeded (some r) = r

abbrev advanced : Option Rng → Rng → Option Rng
advanced none r' = none
advanced (some r) r' = some r'

module _ (ops : FloatOps) where
  duration_by : Mode → Rng → Str → Config → Option Rng → ℤ × Option Rng
  duration_by constant seeded text c r =
      (clamp (wrap64 (pos (length text) *ℤ c.per_char)) c.min_total c.max_total, r)
  duration_by natural seeded text c r =
      let (d, r') = natural_duration ops text c (or_seeded seeded r) in (d, advanced r r')
  duration_by _ seeded text c r = (pos 0, r)

  -- `seeded` is the generator that the code makes from the clock when it is given none. The
  -- generator is returned as the draws have left it.
  unfoldable pub duration : Rng → Str → Config → Option Rng → ℤ × Option Rng
  unfolding duration_by
  duration seeded text c r =
      if is_empty text
      then (pos 0, r)
      else duration_by (with_defaults ops c).mode seeded text (with_defaults ops c) r
