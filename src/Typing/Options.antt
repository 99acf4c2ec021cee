-- ===== src/Typing/Options.antt =====
-- typing/typing.go: the configuration, its defaults and overrides, and `clamp`.
-- A float64 is its 64 bits; what IEEE arithmetic and the generator return is a parameter.
use wavonyx.Prelude.{ℕ, ◌*◌, Bool, not, ◌&&◌, Option, none, some, Str, if◌then◌else◌}
use wavonyx.Prelude.Int.{ℤ, pos, ◌*ℤ◌, ltb_ℤ, is_nonpos, wrap64}

-- The bits of a float64.
abbrev pub Float : Type 0
Float = ℕ

-- The float64 operations that the package uses; `to_int` is the conversion to int64.
pub record FloatOps : Type 0 where
  pub lt : Float → Float → Bool
  pub le : Float → Float → Bool
  pub add : Float → Float → Float
  pub sub : Float → Float → Float
  pub mul : Float → Float → Float
  pub div : Float → Float → Float
  pub of_int : ℕ → Float
  pub to_int : Float → ℤ

-- A `*rand.Rand`: the draws of the generator and how many have been made. The k-th draw is
-- `float_at k` if it is by Float64, and `int_at k n` if it is by IntN(n).
pub record Rng : Type 0 where
  pub float_at : ℕ → Float
  pub int_at : ℕ → ℕ → ℕ
  pub drawn : ℕ

pub data Mode : Type 0 where
  unset off constant natural : Mode
  other : Str → Mode

pub record Config : Type 0 where
  pub mode : Mode
  pub per_char : ℤ
  pub min_cps : Float
  pub max_cps : Float
  pub min_total : ℤ
  pub max_total : ℤ

pub record Override : Type 0 where
  pub mode : Option Mode
  pub per_char_ms : Option ℤ
  pub min_cps : Option Float
  pub max_cps : Option Float
  pub max_total_ms : Option ℤ

-- Nanoseconds.
abbrev pub millisecond : ℕ
millisecond = 1000000

abbrev pub second : ℕ
second = 1000000000

-- The bits of 4.0, 9.0, 1.0, 0.0, 0.80, 1.25 - 0.80, 0.60 and float64(time.Second).
abbrev pub default_min_cps : Float
default_min_cps = 0x4010000000000000

abbrev pub default_max_cps : Float
default_max_cps = 0x4022000000000000

abbrev pub one_cps : Float
one_cps = 0x3ff0000000000000

abbrev pub zero_float : Float
zero_float = 0

abbrev pub jitter_lo : Float
jitter_lo = 0x3fe999999999999a

abbrev pub jitter_range : Float
jitter_range = 0x3fdccccccccccccd

abbrev pub pause_prob : Float
pause_prob = 0x3fe3333333333333

abbrev pub float_second : Float
float_second = 0x41cdcd6500000000

unfoldable pub default : Config
default = record {
  mode = natural;
  per_char = pos (55 * millisecond);
  min_cps = default_min_cps;
  max_cps = default_max_cps;
  min_total = pos (400 * millisecond);
  max_total = pos (15 * second);
}

abbrev or_value {ℓ} : {A : Type ℓ} → Option A → A → A
or_value none a = a
or_value (some b) a = b

-- `time.Duration(ms) * time.Millisecond`
unfoldable pub of_ms : ℤ → ℤ
unfolding wrap64 ◌*ℤ◌
of_ms ms = wrap64 (ms *ℤ pos millisecond)

abbrev ms_or : Option ℤ → ℤ → ℤ
ms_or none d = d
ms_or (some ms) d = of_ms ms

unfoldable pub apply : Config → Option Override → Config
apply c none = c
apply c (some o) = record c {
  mode = or_value o.mode c.mode;
  per_char = ms_or o.per_char_ms c.per_char;
  min_cps = or_value o.min_cps c.min_cps;
  max_cps = or_value o.max_cps c.max_cps;
  max_total = ms_or o.max_total_ms c.max_total;
}

abbrev mode_or_natural : Mode → Mode
mode_or_natural unset = natural
mode_or_natural m = m

abbrev positive_or : ℤ → ℤ → ℤ
positive_or d default_value = if is_nonpos d then default_value else d

-- `max` raised to `min`, for the two totals.
abbrev at_least : ℤ → ℤ → ℤ
at_least lo d = if ltb_ℤ d lo then lo else d

module _ (ops : FloatOps) where
  abbrev cps_or : Float → Float → Float
  cps_or f default_value = if ops.le f zero_float then default_value else f

  abbrev cps_at_least : Float → Float → Float
  cps_at_least lo f = if ops.lt f lo then lo else f

  unfoldable pub with_defaults : Config → Config
  with_defaults c = record {
    mode = mode_or_natural c.mode;
    per_char = positive_or c.per_char (pos (55 * millisecond));
    min_cps = cps_or c.min_cps default_min_cps;
    max_cps = cps_at_least (cps_or c.min_cps default_min_cps) (cps_or c.max_cps default_max_cps);
    min_total = positive_or c.min_total (pos (400 * millisecond));
    max_total =
        at_least (positive_or c.min_total (pos (400 * millisecond)))
          (positive_or c.max_total (pos (15 * second)));
  }

unfoldable pub clamp : ℤ → ℤ → ℤ → ℤ
clamp d lo hi = at_least lo (if not (is_nonpos hi) && ltb_ℤ hi d then hi else d)
