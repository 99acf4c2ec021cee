-- ===== src/Ring/Inv.antt =====
-- ring.go: the invariant of a ring.
use wavonyx.Prelude.{
  refl, [], ◌∷◌, List, Str, ◌≤◌, ◌<◌, ◌≡◌, length, length-set, length-replicate, arith,
}
use wavonyx.Prelude.Int.{ℤ}
use wavonyx.Message.{InboundMessage, zero_message}
use wavonyx.Ring.{update_first, update, Ring, capacity_or_one, new_ring, append}

pub record IsValid (r : Ring) : Type 0 where
  pub next_in : r.next < length r.buf
  pub n_in : r.n ≤ length r.buf

pub new_ring-IsValid : (capacity : ℤ) → IsValid (new_ring capacity)
unfolding new_ring
new_ring-IsValid capacity = ground (arith, length-replicate (capacity_or_one capacity) zero_message)

pub append-IsValid : {r : Ring} (m : InboundMessage) → IsValid r → IsValid (append r m)
unfolding append
append-IsValid {r} m v = ground (arith, length-set r.buf r.next m)

pub length_buf-append : (r : Ring) (m : InboundMessage) → length (append r m).buf ≡ length r.buf
unfolding append
length_buf-append r m = length-set r.buf r.next m

length-update_first :
    (id : Str) (apply : InboundMessage → InboundMessage) (ms : List InboundMessage)
    → length (update_first id apply ms).0 ≡ length ms
unfolding update_first
length-update_first id apply [] = refl
length-update_first id apply (m ∷ ms) = ground (arith, length-update_first id apply ms)

pub update-IsValid :
    (id : Str) (apply : InboundMessage → InboundMessage) (r : Ring)
    → IsValid r
    → IsValid (update r id apply).0
unfolding update
update-IsValid id apply r v = ground (arith, length-update_first id apply r.buf)
