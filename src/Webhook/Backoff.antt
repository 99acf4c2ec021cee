-- ===== src/Webhook/Backoff.antt =====
-- webhook.go: the range of the delay between two attempts.
use Prim.Native.Nat.{zero}
use wavonyx.Prelude.{◌∙◌, suc, ap, ℕ, ◌+◌, ◌*◌, ◌/◌, ◌^◌, ◌≤◌, ◌<◌, ◌≡◌, min, arith}
use wavonyx.Prelude.Int.{ℤ, pos, pos_part, ◌≤ℤ◌, ◌*ℤ◌, wrap64, wrap64_of_fits}
use wavonyx.Webhook.Delivery.{exponent, capped, backoff}

-- What rand.Int64N documents: a number below its argument.
abbrev pub IsDraw : (ℕ → ℕ) → Type 0
IsDraw draw = (n : ℕ) → 1 ≤ n → draw n < n

-- The delay is at least half of the capped delay, and at most all of it.
backoff_of_capped :
    (draw : ℕ → ℕ) (k base max : ℤ)
    → IsDraw draw
    → (pos_part (capped base max (exponent k)) / 2 ≤ pos_part (backoff draw k base max))
      × (pos_part (backoff draw k base max) ≤ pos_part (capped base max (exponent k)))
      × (pos 0 ≤ℤ backoff draw k base max)
unfolding backoff
backoff_of_capped draw k base max v =
    let c = pos_part (capped base max (exponent k)) in ground (arith, v (c / 2 + 1) (omega arith))

capped-le : (base max : ℤ) (shift : ℕ) → pos_part (capped base max shift) ≤ pos_part max
capped-le base max shift = ground arith

-- Whatever the attempt, the base and an overflow of the shift, the delay is not negative and is at most
-- the ceiling, if the generator keeps its range.
pub backoff_bounds :
    (draw : ℕ → ℕ) (k base max : ℤ)
    → IsDraw draw
    → (pos 0 ≤ℤ backoff draw k base max) × (pos_part (backoff draw k base max) ≤ pos_part max)
backoff_bounds draw k base max v =
    let (lo, hi, sign) = backoff_of_capped draw k base max v in
    (sign, omega (arith, hi, capped-le base max (exponent k)))

power_pos : (n : ℕ) → 1 ≤ 2 ^ n
power_pos zero = omega arith
power_pos (suc n) = omega (arith, power_pos n)

pos-times : (b n : ℕ) → pos b *ℤ pos n ≡ pos (b * n)
unfolding ◌*ℤ◌
pos-times b n = ground arith

shifted : (b n : ℕ) → b * n < 2 ^ 63 → wrap64 (pos b *ℤ pos n) ≡ pos (b * n)
shifted b n h = ap wrap64 (pos-times b n) ∙ wrap64_of_fits (b * n) h

product_pos : (b n : ℕ) → 1 ≤ b → 1 ≤ n → 1 ≤ b * n
product_pos zero n h k = absurd (omega arith)
product_pos (suc b) n h k = omega arith

capped_value :
    (b m shift : ℕ)
    → 1 ≤ b
    → b * 2 ^ shift < 2 ^ 63
    → pos_part (capped (pos b) (pos m) shift) ≡ min (b * 2 ^ shift) m
capped_value b m shift h k =
    rw (shifted b (2 ^ shift) k) (ground (arith, product_pos b (2 ^ shift) h (power_pos shift)))

-- Where the shift does not overflow, the delay before the next attempt lies between half and all of
-- the base doubled for each attempt so far, twelve times at most, and capped by the ceiling.
pub backoff_range :
    (draw : ℕ → ℕ) (k b m : ℕ)
    → IsDraw draw
    → 1 ≤ b
    → b * 2 ^ min k 12 < 2 ^ 63
    → (min (b * 2 ^ min k 12) m / 2 ≤ pos_part (backoff draw (pos k) (pos b) (pos m)))
      × (pos_part (backoff draw (pos k) (pos b) (pos m)) ≤ min (b * 2 ^ min k 12) m)
backoff_range draw k b m v h f =
    let (lo, hi, sign) = backoff_of_capped draw (pos k) (pos b) (pos m) v in
    omega (arith, lo, hi, capped_value b m (min k 12) h f)
