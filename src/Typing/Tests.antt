-- ===== src/Typing/Tests.antt =====
-- Delays at work.
use wavonyx.Prelude.{◌≡◌, refl, inl, none, codes, arith, ltb, leb}
use wavonyx.Prelude.Int.{◌*ℤ◌, wrap64, pos, ◌≤ℤ◌}
use wavonyx.Typing.Natural.{words}
use wavonyx.Typing.Fuel.{words-fuel}
use wavonyx.Typing.Options.{one_cps, clamp, FloatOps, Rng, constant, Config, default, with_defaults}
use wavonyx.Typing.{duration}
use wavonyx.Typing.Bounds.{IsFloatOrder, duration_bounds}

-- Bit patterns of positive floats are ordered as the floats; the arithmetic is that of whole numbers.
abbrev pub whole_floats : FloatOps
whole_floats = record {
  lt = ltb;
  le = leb;
  add = λ a b. a;
  sub = λ a b. a;
  mul = λ a b. a;
  div = λ a b. b;
  of_int = λ n. n;
  to_int = λ f. pos f;
}

abbrev pub still : Rng
still = record { float_at = λ k. 0; int_at = λ k n. 0; drawn = 0 }

whole_floats-IsFloatOrder : IsFloatOrder whole_floats
whole_floats-IsFloatOrder = record {
  irreflexive = λ f. ground arith;
  min_positive = refl;
  max_positive = refl;
}

-- Ten runes at 55 milliseconds.
abbrev constant_config : Config
constant_config = record default { mode = constant }

ten_runes :
    (duration whole_floats still (codes "0123456789") constant_config none).0 ≡ pos 550000000
unfolding duration with_defaults default clamp wrap64 ◌*ℤ◌
ten_runes = refl

duration_bounds_example :
    ((with_defaults whole_floats constant_config).min_total
      ≤ℤ (duration whole_floats still (codes "hi") constant_config none).0)
    × ((duration whole_floats still (codes "hi") constant_config none).0
        ≤ℤ (with_defaults whole_floats constant_config).max_total)
duration_bounds_example =
    duration_bounds whole_floats still (codes "hi") constant_config none (λ e. cc)
      (inl (unfold with_defaults default in refl))

words-fuel_example :
    words whole_floats 5 one_cps (codes "a b") (pos 0) still
    ≡ words whole_floats 3 one_cps (codes "a b") (pos 0) still
words-fuel_example =
    words-fuel whole_floats 5 3 one_cps (codes "a b") (pos 0) still (omega arith) (omega arith)
