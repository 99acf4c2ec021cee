-- ===== src/Session/Composing.antt =====
-- session.go: the loop over the slices of simulated typing ends by itself.
use wavonyx.Prelude.{
  ℕ, zero, suc, ◌+◌, ◌-◌, ◌*◌, ◌/◌, ◌≤◌, ◌≡◌, refl, ap, Bool, true, false, Str, arith,
}
use wavonyx.Session.State.{Client, set_composing, World, emit}
use wavonyx.Session.Sending.{
  Slice, elapsed, interrupted, slice, compose_again, typing_loop, simulate_typing,
}

-- Any two amounts of fuel that cover the time give the same.
typing_loop-fuel :
    (f g : ℕ) (ends : ℕ → Slice) (k : ℕ) (c : Client) (to : Str) (r : ℕ) (w : World)
    → r ≤ f * slice
    → r ≤ g * slice
    → typing_loop f ends k c to r w ≡ typing_loop g ends k c to r w
unfolding typing_loop
typing_loop-fuel zero zero ends k c to r w h j = refl
typing_loop-fuel zero (suc g) ends k c to zero w h j = refl
typing_loop-fuel zero (suc g) ends k c to (suc r) w h j = absurd (omega arith)
typing_loop-fuel (suc f) zero ends k c to zero w h j = refl
typing_loop-fuel (suc f) zero ends k c to (suc r) w h j = absurd (omega arith)
typing_loop-fuel (suc f) (suc g) ends k c to zero w h j = refl
typing_loop-fuel (suc f) (suc g) ends k c to (suc r) w h j =
    ap (λ more. elim (ends k) as (λ x. Bool × World) [ elapsed ↦ more | interrupted ↦ (false, w) ])
      (typing_loop-fuel f g ends (suc k) c to (suc r - slice) (compose_again c to (suc r - slice) w)
        (omega arith) (omega arith))

-- The loop never runs out of fuel: with any more rounds than it has been given the simulated typing
-- is the same.
pub simulate_typing-typing_loop :
    (extra : ℕ) (ends : ℕ → Slice) (c : Client) (to : Str) (dur : ℕ) (w : World)
    → let (finished, w') =
        typing_loop
          (suc (dur / slice) + extra)
          ends
          0
          c
          to
          dur
          (emit (set_composing c to true) w) in
      simulate_typing ends c to dur w ≡ (finished, emit (set_composing c to false) w')
unfolding simulate_typing
simulate_typing-typing_loop extra ends c to dur w =
    ap (λ x. (x.0, emit (set_composing c to false) x.1))
      (typing_loop-fuel (suc (dur / slice)) (suc (dur / slice) + extra) ends 0 c to dur
        (emit (set_composing c to true) w) (omega arith) (omega arith))
